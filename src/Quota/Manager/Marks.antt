-- ===== src/Quota/Manager/Marks.antt =====
-- packages/core/src/quota-manager.ts: what sets and clears a rate-limit mark.
use openai_auth.Prelude.{
  ℕ, ◌≡◌, refl, String, Bool, true, false, ◌&&◌, ◌||◌, not, Option, none, some, ltb, if◌then◌else◌,
  ◌==◌, string_eq, option_eq, arith, if_intro, ap, sym, eq_of_==, ◌∙◌,
}
use openai_auth.Prelude.JsMap.{get, get-set, get-delete}
use openai_auth.Quota.{has_any_quota_window, quota_looks_healthy}
use openai_auth.Quota.Manager.{
  QuotaEntry, QuotaManager, is_switch, mark_rate_limited, is_rate_limited, clear_if, bind_account,
  set_main, set_fallback, identity_of, is_before, keeps_mark, is_truthy,
}

-- Of the mark `o` of an account and the mark `p` that another account has.
kept_mark :
    (same : Bool) (o p : Option ℕ) (reset now : ℕ)
    → (same ≡ true → p ≡ o)
    → keeps_mark reset o ≡ true
    → is_before now p ≡ (is_before now p || (same && ltb now reset))
kept_mark false o p reset now e k = ground arith
kept_mark true none p reset now e k = absurd (cc)
kept_mark true (some old) p reset now e k = rw (e refl) (ground arith)

new_mark :
    (same : Bool) (o p : Option ℕ) (reset now : ℕ)
    → (same ≡ true → p ≡ o)
    → keeps_mark reset o ≡ false
    → is_before now (if same then some reset else p) ≡ (is_before now p || (same && ltb now reset))
new_mark false o p reset now e k = ground arith
new_mark true none p reset now e k = rw (e refl) (ground arith)
new_mark true (some old) p reset now e k = rw (e refl) (ground arith)

-- A mark makes its account limited until its reset, keeps every longer mark, and leaves the marks
-- of other accounts alone.
pub is_rate_limited-mark :
    (id other : String) (reset now : ℕ) (m : QuotaManager)
    → is_rate_limited other now (mark_rate_limited id reset m)
      ≡ (is_rate_limited other now m || (id == other && ltb now reset))
unfolding is_rate_limited mark_rate_limited
is_rate_limited-mark id other reset now m =
    if_intro
      (λ (n : QuotaManager).
        is_before now (get other n.rate_limited_until)
        ≡ (is_before now (get other m.rate_limited_until) || (id == other && ltb now reset)))
      (keeps_mark reset (get id m.rate_limited_until)) _ _
      (λ k. kept_mark (id == other) _ _ reset now same k)
      λ k.
        rw (get-set other id reset m.rate_limited_until)
          (new_mark (id == other) _ _ reset now same k)
  where
    same : (id == other) ≡ true → get other m.rate_limited_until ≡ get id m.rate_limited_until
    same h = ap (λ i. get i m.rate_limited_until) (sym (eq_of_== id other h))

-- Clearing a mark, under a test.
clear_if-get :
    (b : Bool) (id other : String) (m : QuotaManager)
    → get other (clear_if b id m).rate_limited_until
      ≡ (if b && id == other then none else get other m.rate_limited_until)
clear_if-get true id other m = get-delete other id m.rate_limited_until
clear_if-get false id other m = refl

bind_account-marks :
    (account_id : Option String) (m : QuotaManager)
    → (bind_account account_id m).rate_limited_until ≡ m.rate_limited_until
bind_account-marks account_id m =
    if_intro (λ (n : QuotaManager). n.rate_limited_until ≡ m.rate_limited_until)
      (is_truthy account_id) _ _ (λ _. refl) λ _. refl

-- Whether a pushed snapshot is stored, and clears its account's mark: the account is known to have
-- changed, or the snapshot shows room in every window.
abbrev pub is_stored : QuotaEntry → Bool → Bool
is_stored entry complete_snapshot = complete_snapshot || has_any_quota_window entry.quota

-- The two clears of a push, and the guard before them, as one test.
no_clear :
    (c h x same : Bool) (o : Option ℕ)
    → (not c && not h) ≡ true
    → o ≡ (if (c || h) && (x && same) then none else o)
no_clear true h x same o e = absurd (cc)
no_clear false true x same o e = absurd (cc)
no_clear false false x same o e = refl

two_clears :
    (c h x y same : Bool) (o : Option ℕ)
    → (not c && not h) ≡ false
    → (if y && same then none else if x && same then none else o)
      ≡ (if (c || h) && ((x || y) && same) then none else o)
two_clears false false x y same o e = absurd (cc)
two_clears true h x y same o e = ground arith
two_clears false true x y same o e = ground arith

-- A pushed main snapshot clears main's mark exactly when it is stored and it shows another account
-- or room in every window that it has. It changes no other mark.
pub set_main-marks :
    (fp : String → String) (token other : String) (entry : QuotaEntry) (account : Option String)
    (complete : Bool) (m : QuotaManager)
    → get other (set_main fp token entry account complete m).rate_limited_until ≡ (
        if is_stored entry complete
          && ((is_switch account m.main_quota_account_id || quota_looks_healthy entry.quota)
              && "main" == other)
        then none
        else get other m.rate_limited_until)
unfolding set_main
set_main-marks fp token other entry account complete m =
    if_intro
      (λ (n : QuotaManager). get other n.rate_limited_until ≡ (
        if is_stored entry complete
          && ((is_switch account m.main_quota_account_id || quota_looks_healthy entry.quota)
              && "main" == other)
        then none
        else get other m.rate_limited_until))
      (not complete && not (has_any_quota_window entry.quota)) _ _
      (λ off.
        no_clear complete (has_any_quota_window entry.quota)
          (switched || quota_looks_healthy entry.quota) ("main" == other) _ off)
      λ on.
        clear_if-get (quota_looks_healthy entry.quota) "main" other
          (record bound { main = some entry })
        ∙ ap (λ o. if quota_looks_healthy entry.quota && "main" == other then none else o)
            (ap (get other) (bind_account-marks account cleared)
              ∙ clear_if-get switched "main" other named)
        ∙ two_clears complete (has_any_quota_window entry.quota) switched
            (quota_looks_healthy entry.quota) ("main" == other) _ on
  where
    switched : Bool
    switched = is_switch account m.main_quota_account_id

    named : QuotaManager
    named = record m { main_token_fp = some (fp token) }

    cleared : QuotaManager
    cleared = clear_if switched "main" named

    bound : QuotaManager
    bound = bind_account account cleared

-- A pushed snapshot of a fallback account clears the account's mark exactly when it is stored and it
-- shows another identity or room in every window that it has. It changes no other mark.
pub set_fallback-marks :
    (fp : String → String) (id other : String) (entry : QuotaEntry) (token identity : Option String)
    (complete : Bool) (m : QuotaManager)
    → get other (set_fallback fp id entry token complete identity m).rate_limited_until ≡ (
        if is_stored entry complete
          && ((is_switch identity (identity_of (get id m.fallbacks))
                || quota_looks_healthy entry.quota)
              && id == other)
        then none
        else get other m.rate_limited_until)
unfolding set_fallback
set_fallback-marks fp id other entry token identity complete m =
    if_intro
      (λ (n : QuotaManager). get other n.rate_limited_until ≡ (
        if is_stored entry complete
          && ((switched || quota_looks_healthy entry.quota) && id == other)
        then none
        else get other m.rate_limited_until))
      (not complete && not (has_any_quota_window entry.quota)) _ _
      (λ off.
        no_clear complete (has_any_quota_window entry.quota)
          (switched || quota_looks_healthy entry.quota) (id == other) _ off)
      λ on.
        clear_if-get (quota_looks_healthy entry.quota) id other _
        ∙ ap (λ o. if quota_looks_healthy entry.quota && id == other then none else o)
            (clear_if-get switched id other m)
        ∙ two_clears complete (has_any_quota_window entry.quota) switched
            (quota_looks_healthy entry.quota) (id == other) _ on
  where
    switched : Bool
    switched = is_switch identity (identity_of (get id m.fallbacks))
