-- ===== src/Quota/Seeds.antt =====
-- packages/core/src/quota-manager.ts, the class QuotaManager: its caches from persisted state. The
-- snapshots and errors of the account storage come from any process that writes it.
use openai_auth.Prelude.{
  ℕ, ◌+◌, ◌≤◌, ◌≡◌, refl, max, String, Bool, true, false, ◌&&◌, not, Option, none, some, List, [],
  ◌∷◌, leb, if◌then◌else◌, ◌==◌, nat_eq, string_eq, option_eq, or_else, if_intro, arith, subst, ◌∙◌,
}
use openai_auth.Backoff.{quota_backoff_active}
use openai_auth.Quota.{
  QuotaWindow, QuotaSnapshot, Storage, quota_check_interval_ms, quota_next_refresh_at,
}
use openai_auth.Quota.Manager.{
  QuotaEntry, QuotaManager, is_truthy, is_switch, clear_if, bind_account, fingerprint_of,
  get_fallback, set_fallback,
}

-- `getPersistedMainQuota`: a snapshot with a reading time that is not zero.
pub record PersistedMainQuota : Type 0 where
  pub quota : QuotaSnapshot
  pub checked_at : ℕ
  pub token_fingerprint : Option String

abbrev persisted_from : Option QuotaSnapshot → Option ℕ → Option String → Option PersistedMainQuota
persisted_from none checked_at token = none
persisted_from (some quota) none token = none
persisted_from (some quota) (some checked_at) token =
    if checked_at == 0
    then none
    else some (record { quota = quota; checked_at = checked_at; token_fingerprint = token })

pub persisted_main_quota : Storage → Option PersistedMainQuota
persisted_main_quota storage =
    persisted_from storage.main_quota storage.main_quota_checked_at storage.main_quota_token

abbrev pub entry_of : Storage → PersistedMainQuota → QuotaEntry
entry_of storage persisted = record {
  quota = persisted.quota;
  refresh_after = quota_next_refresh_at (some persisted.quota) storage persisted.checked_at;
  checked_at = persisted.checked_at;
  account_id = none;
}

-- Whether the cache has an entry that is as new.
abbrev pub is_as_new : QuotaEntry → Option QuotaEntry → Bool
is_as_new entry none = false
is_as_new entry (some cached) = leb entry.checked_at cached.checked_at

abbrev pub adopt_account : Option String → QuotaManager → QuotaManager
adopt_account account_id m =
    if is_truthy account_id
    then bind_account account_id (clear_if (is_switch account_id m.main_quota_account_id) "main" m)
    else m

-- The token of a call, if it is given and not empty.
abbrev pub given : Option String → Option String
given access_token = if is_truthy access_token then access_token else none

module _ (token_fingerprint : String → String) where
  abbrev pub seed_with :
      Storage → Option String → Option PersistedMainQuota → QuotaManager → QuotaManager
  seed_with storage access_token none m = m
  seed_with storage access_token (some persisted) m =
      let token_fp = fingerprint_of token_fingerprint (given access_token) in
      if is_switch persisted.token_fingerprint token_fp
      then m
      else if is_as_new (entry_of storage persisted) m.main
          && not (is_switch m.main_token_fp token_fp)
      then m
      else adopt_account storage.main_account_id (record m {
        main = some (entry_of storage persisted);
        main_token_fp = persisted.token_fingerprint;
      })

  pub seed_main_from_storage : Storage → Option String → QuotaManager → QuotaManager
  unfolding persisted_main_quota
  seed_main_from_storage storage access_token m =
      seed_with storage access_token (persisted_main_quota storage) m

pub seed_main_backoff_from_storage : Storage → ℕ → QuotaManager → QuotaManager
seed_main_backoff_from_storage storage now m = record m {
  main_last_api_error =
      if quota_backoff_active storage.main_last_quota_api_error now
      then storage.main_last_quota_api_error
      else none;
}

-- The constructor.
pub new_quota_manager : (String → String) → Storage → ℕ → QuotaManager
unfolding seed_main_from_storage seed_main_backoff_from_storage
new_quota_manager token_fingerprint storage now = seed_main_backoff_from_storage storage now (
    seed_main_from_storage token_fingerprint storage none (record {
      main = none;
      main_token_fp = none;
      main_quota_account_id = none;
      fallbacks = [];
      fallback_token_fps = [];
      main_last_api_error = none;
      fallback_api_errors = [];
      fallback_error_token_fps = [];
      rate_limited_until = [];
      storage = storage;
    }))

pub update_storage : (String → String) → Storage → ℕ → QuotaManager → QuotaManager
unfolding seed_main_from_storage seed_main_backoff_from_storage
update_storage token_fingerprint storage now m =
    seed_main_backoff_from_storage storage now
      (seed_main_from_storage token_fingerprint storage none (record m { storage = storage }))

pub record SeedAccount : Type 0 where
  pub id : String
  pub enabled : Option Bool
  pub access : Option String
  pub account_id : Option String
  pub quota : Option QuotaSnapshot

-- `window?.checkedAt ?? 0`
abbrev pub window_checked_at : Option QuotaWindow → ℕ
window_checked_at none = 0
window_checked_at (some window) = window.checked_at

module _ (token_fingerprint : String → String) where
  -- The body of the loop of `seedFallbacksFromAccounts`, for an account that has a snapshot.
  abbrev pub seed_fallback : SeedAccount → QuotaSnapshot → QuotaManager → QuotaManager
  seed_fallback account quota m =
      let checked_at = max (window_checked_at quota.primary) (window_checked_at quota.secondary) in
      let entry : QuotaEntry = record {
        quota = quota;
        refresh_after = checked_at + quota_check_interval_ms m.storage;
        checked_at = checked_at;
        account_id = none;
      } in
      let existing = get_fallback token_fingerprint account.id account.access m in
      if checked_at == 0
      then m
      else if is_as_new entry existing.0
      then existing.1
      else set_fallback token_fingerprint account.id entry account.access false account.account_id
          existing.1

  abbrev seed_account : SeedAccount → Option QuotaSnapshot → QuotaManager → QuotaManager
  seed_account account none m = m
  seed_account account (some quota) m =
      if not (or_else account.enabled true) then m else seed_fallback account quota m

  pub seed_fallbacks_from_accounts : List SeedAccount → QuotaManager → QuotaManager
  seed_fallbacks_from_accounts [] m = m
  seed_fallbacks_from_accounts (account ∷ rest) m =
      seed_fallbacks_from_accounts rest (seed_account account account.quota m)

-- A cache that is no older than `cached`.
abbrev pub IsNoOlder : QuotaEntry → QuotaManager → Type 0
IsNoOlder cached m = (e : QuotaEntry) × (m.main ≡ some e) × (cached.checked_at ≤ e.checked_at)

adopt_account-main :
    (account : Option String) (m : QuotaManager) → (adopt_account account m).main ≡ m.main
adopt_account-main account m =
    if_intro (λ (n : QuotaManager). n.main ≡ m.main) (is_truthy account) _ _
      (λ _.
        bound (clear_if (is_switch account m.main_quota_account_id) "main" m)
        ∙ cleared (is_switch account m.main_quota_account_id))
      λ _. refl
  where
    bound : (n : QuotaManager) → (bind_account account n).main ≡ n.main
    bound n =
        if_intro (λ (k : QuotaManager). k.main ≡ n.main) (is_truthy account) _ _ (λ _. refl)
          λ _. refl

    cleared : (b : Bool) → (clear_if b "main" m).main ≡ m.main
    cleared true = refl
    cleared false = refl

module _ (fp : String → String) (storage : Storage) (token : Option String) where
  seed_with-IsNoOlder :
      (o : Option PersistedMainQuota) (cached : QuotaEntry) (m : QuotaManager)
      → m.main ≡ some cached
      → is_switch m.main_token_fp (fingerprint_of fp (given token)) ≡ false
      → IsNoOlder cached (seed_with fp storage token o m)
  seed_with-IsNoOlder none cached m had same = (cached, had, ground arith)
  seed_with-IsNoOlder (some persisted) cached m had same =
      if_intro (IsNoOlder cached)
        (is_switch persisted.token_fingerprint (fingerprint_of fp (given token))) _ _
        (λ _. (cached, had, ground arith))
        λ _.
          if_intro (IsNoOlder cached)
            (is_as_new (entry_of storage persisted) m.main
              && not (is_switch m.main_token_fp (fingerprint_of fp (given token))))
            _ _ (λ _. (cached, had, ground arith))
            λ old. (
              entry_of storage persisted,
              adopt_account-main storage.main_account_id (record m {
                main = some (entry_of storage persisted);
                main_token_fp = persisted.token_fingerprint;
              }),
              newer old,
            )
    where
      older : (a b : ℕ) → (leb a b && true) ≡ false → b ≤ a
      older a b h = ground arith

      newer :
          (is_as_new (entry_of storage persisted) m.main
              && not (is_switch m.main_token_fp (fingerprint_of fp (given token))))
            ≡ false
          → cached.checked_at ≤ persisted.checked_at
      newer old = older persisted.checked_at cached.checked_at (
          subst
            (λ (o : Option QuotaEntry). (is_as_new (entry_of storage persisted) o && true) ≡ false)
            had
            (subst (λ b. (is_as_new (entry_of storage persisted) m.main && not b) ≡ false) same
              old))

  -- Seeding main from storage never replaces its cached entry by an older one, unless the cache is
  -- known to be of another token than the caller's.
  pub seed_main_from_storage-IsNoOlder :
      (cached : QuotaEntry) (m : QuotaManager)
      → m.main ≡ some cached
      → is_switch m.main_token_fp (fingerprint_of fp (given token)) ≡ false
      → IsNoOlder cached (seed_main_from_storage fp storage token m)
  unfolding seed_main_from_storage
  seed_main_from_storage-IsNoOlder cached m had same =
      seed_with-IsNoOlder (persisted_main_quota storage) cached m had same
