-- ===== src/Quota/Manager/Identity.antt =====
-- packages/core/src/quota-manager.ts: whose quota a read answers with.
use openai_auth.Prelude.{
  ◌≡◌, refl, String, Bool, true, false, ◌&&◌, ◌||◌, not, Option, none, some, if◌then◌else◌, ◌==◌,
  string_eq, option_eq, arith, if_intro, ap, ◌∙◌,
}
use openai_auth.Prelude.JsMap.{get, set, get-set_self}
use openai_auth.Quota.{has_any_quota_window, quota_looks_healthy}
use openai_auth.Quota.Manager.{
  QuotaEntry, QuotaManager, is_truthy, is_switch, first_known, clear_if, bind_account, get_fallback,
  set_main, bind_token, identity_of, set_fallback, peek_main_for_policy,
}
use openai_auth.Quota.Manager.Marks.{is_stored}

-- What clearing a mark leaves.
clear_if-main :
    (b : Bool) (id : String) (m : QuotaManager)
    → ((clear_if b id m).main ≡ m.main)
      × ((clear_if b id m).main_token_fp ≡ m.main_token_fp)
      × ((clear_if b id m).main_quota_account_id ≡ m.main_quota_account_id)
      × ((clear_if b id m).fallbacks ≡ m.fallbacks)
      × ((clear_if b id m).fallback_token_fps ≡ m.fallback_token_fps)
clear_if-main true id m = (refl, refl, refl, refl, refl)
clear_if-main false id m = (refl, refl, refl, refl, refl)

-- The identity that a known account leaves, and what a policy read then answers.
bind_account-known :
    (account : String) (m : QuotaManager)
    → is_truthy (some account) ≡ true
    → bind_account (some account) m ≡ record m { main_quota_account_id = some account }
bind_account-known account m known = rw known refl

stored_branch : (c h : Bool) → (c || h) ≡ true → (not c && not h) ≡ false
stored_branch c h e = ground arith

peek_known :
    (account other : String) (entry : QuotaEntry)
    → is_truthy (some account) ≡ true
    → is_truthy (some other) ≡ true
    → (if is_switch (some other) (some account) then none else some entry)
      ≡ (if other == account then some entry else none)
peek_known account other entry known asked = ground (arith, known, asked)

peek-at :
    (account other : String) (entry : QuotaEntry) (m : QuotaManager)
    → is_truthy (some account) ≡ true
    → is_truthy (some other) ≡ true
    → m.main_quota_account_id ≡ some account
    → m.main ≡ some entry
    → peek_main_for_policy (some other) m ≡ (if other == account then some entry else none)
unfolding peek_main_for_policy
peek-at account other entry m known asked e f =
    rw (e, f) (peek_known account other entry known asked)

-- A stored main snapshot of a known account answers policy reads for that account, and none for
-- another known account.
pub set_main-peek :
    (fp : String → String) (token account other : String) (entry : QuotaEntry) (complete : Bool)
    (m : QuotaManager)
    → is_stored entry complete ≡ true
    → is_truthy (some account) ≡ true
    → is_truthy (some other) ≡ true
    → peek_main_for_policy (some other) (set_main fp token entry (some account) complete m)
      ≡ (if other == account then some entry else none)
unfolding set_main
set_main-peek fp token account other entry complete m stored known asked =
    rw (stored_branch complete (has_any_quota_window entry.quota) stored) (
      peek-at account other entry _ known asked
        ((clear_if-main (quota_looks_healthy entry.quota) "main" after).2
          ∙ ap (λ (n : QuotaManager). n.main_quota_account_id)
              (bind_account-known account cleared known))
        (clear_if-main (quota_looks_healthy entry.quota) "main" after).0)
  where
    cleared : QuotaManager
    cleared =
        clear_if (is_switch (some account) m.main_quota_account_id) "main"
          (record m { main_token_fp = some (fp token) })

    after : QuotaManager
    after = record (bind_account (some account) cleared) { main = some entry }

get_fallback-at :
    (fp : String → String) (id : String) (other seen : String) (entry : QuotaEntry)
    (m : QuotaManager)
    → is_truthy (some other) ≡ true
    → get id m.fallbacks ≡ some entry
    → get id m.fallback_token_fps ≡ some seen
    → (get_fallback fp id (some other) m).0 ≡ (if seen == fp other then some entry else none)
unfolding get_fallback
get_fallback-at fp id other seen entry m asked e f =
    rw (e, f, asked)
      (if_intro
        (λ (r : Option QuotaEntry × QuotaManager).
          r.0 ≡ (if seen == fp other then some entry else none))
        (seen == fp other) _ _ (λ same. rw same refl) λ apart. rw apart refl)

-- A stored snapshot of a fallback account, bound to a token, is read under a token exactly when the
-- two have the same fingerprint; under another, the read finds nothing.
pub set_fallback-get :
    (fp : String → String) (id token other : String) (entry : QuotaEntry) (complete : Bool)
    (identity : Option String) (m : QuotaManager)
    → is_stored entry complete ≡ true
    → is_truthy (some token) ≡ true
    → is_truthy (some other) ≡ true
    → (get_fallback fp id
        (some other)
        (set_fallback fp id entry (some token) complete identity m)).0
      ≡ (if fp token == fp other
          then some (record entry {
            account_id = first_known identity (identity_of (get id m.fallbacks));
          })
          else none)
unfolding set_fallback
set_fallback-get fp id token other entry complete identity m stored known asked =
    rw (stored_branch complete (has_any_quota_window entry.quota) stored) (
      get_fallback-at fp id other (fp token) bound _ asked
        (ap (get id) (clear_if-main (quota_looks_healthy entry.quota) id after).3
          ∙ get-set_self id bound m.fallbacks)
        (ap (get id) (clear_if-main (quota_looks_healthy entry.quota) id after).4 ∙ tokens))
  where
    bound : QuotaEntry
    bound = record entry { account_id = first_known identity (identity_of (get id m.fallbacks)) }

    after : QuotaManager
    after = record (clear_if (is_switch identity (identity_of (get id m.fallbacks))) id m) {
      fallbacks = set id bound m.fallbacks;
      fallback_token_fps = bind_token fp id (some token) m.fallback_token_fps;
    }

    tokens : get id after.fallback_token_fps ≡ some (fp token)
    tokens = rw known (get-set_self id (fp token) m.fallback_token_fps)
