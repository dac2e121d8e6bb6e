-- ===== src/Quota/Refresh/Backoffs.antt =====
-- packages/core/src/quota-manager.ts: what a failed quota call backs off, and what it leaves alone.
use openai_auth.Prelude.{
  ℕ, ◌≡◌, refl, String, Bool, true, false, ◌||◌, not, Option, none, some, if◌then◌else◌, ◌==◌,
  string_eq, nat_eq, option_eq, is_some, if_intro,
}
use openai_auth.Prelude.JsMap.{get, get-set, get-delete}
use openai_auth.Backoff.{Failure}
use openai_auth.Quota.{quota_looks_healthy}
use openai_auth.Quota.Manager.{
  QuotaEntry, QuotaManager, is_truthy, is_switch, clear_if, fingerprint_of, get_fallback,
  set_fallback, identity_of,
}
use openai_auth.Quota.Refresh.{
  Refreshed, joins, starts, answers, throws, Fetched, gives, fails, cached_or, fresh_or,
  rate_limited_error, in_progress_error, is_backed_off, is_auth_error, is_fallback_backed_off,
  handle_fallback_fetch_error, settle, receive_fallback, attempt_fallback, fetch_fallback,
}

-- Two states agree on main, and on the backoff of every fallback account but one.
pub record Agrees (id : String) (m n : QuotaManager) : Type 0 where
  pub main : n.main ≡ m.main
  pub main_error : n.main_last_api_error ≡ m.main_last_api_error
  pub errors :
      (other : String)
      → (id == other) ≡ false
      → (get other n.fallback_api_errors ≡ get other m.fallback_api_errors)
        × (get other n.fallback_error_token_fps ≡ get other m.fallback_error_token_fps)

Agrees-refl : (id : String) (m : QuotaManager) → Agrees id m m
Agrees-refl id m = record { main = refl; main_error = refl; errors = λ other apart. (refl, refl) }

clear_if-Agrees :
    (b : Bool) (id : String) (m n : QuotaManager) → Agrees id m n → Agrees id m (clear_if b id n)
clear_if-Agrees true id m n a = record {
  main = a.main;
  main_error = a.main_error;
  errors = a.errors;
}
clear_if-Agrees false id m n a = a

module _ (fp : String → String) (id token : String) where
  get_fallback-Agrees : (m : QuotaManager) → Agrees id m (get_fallback fp id (some token) m).1
  unfolding get_fallback
  get_fallback-Agrees m =
      if_intro (λ (r : Option QuotaEntry × QuotaManager). Agrees id m r.1)
        (not (is_truthy (some token)) || not (is_some (get id m.fallbacks))) _ _
        (λ _. Agrees-refl id m)
        λ _.
          if_intro (λ (r : Option QuotaEntry × QuotaManager). Agrees id m r.1)
            (get id m.fallback_token_fps == fingerprint_of fp (some token)) _ _
            (λ _. Agrees-refl id m)
            λ _. record { main = refl; main_error = refl; errors = λ other apart. (refl, refl) }

  set_fallback-Agrees :
      (entry : QuotaEntry) (m : QuotaManager)
      → Agrees id m (set_fallback fp id entry (some token) true none m)
  unfolding set_fallback
  set_fallback-Agrees entry m =
      let a =
        clear_if-Agrees (is_switch none (identity_of (get id m.fallbacks))) id m m
          (Agrees-refl id m) in
      clear_if-Agrees (quota_looks_healthy entry.quota) id m _
        (record { main = a.main; main_error = a.main_error; errors = a.errors })

  handle-Agrees :
      (e : Failure) (now : ℕ) (m n : QuotaManager)
      → Agrees id m n
      → Agrees id m (handle_fallback_fetch_error fp id token e now n)
  unfolding handle_fallback_fetch_error
  handle-Agrees e now m n a =
      if_intro (Agrees id m) (is_auth_error e) _ _ (λ _. a)
        λ _. record {
          main = a.main;
          main_error = a.main_error;
          errors = λ other apart. (
            rw (get-set other id _ n.fallback_api_errors, apart) (a.errors other apart).0,
            rw (get-set other id _ n.fallback_error_token_fps, apart) (a.errors other apart).1,
          );
        }

  settle-Agrees :
      (now : ℕ) (m : QuotaManager) (r : Refreshed × QuotaManager)
      → Agrees id m r.1
      → Agrees id m (settle fp id token now r).1
  settle-Agrees now m (throws e, n) a = handle-Agrees e now m n a
  settle-Agrees now m (joins, n) a = a
  settle-Agrees now m (starts, n) a = a
  settle-Agrees now m (answers quota, n) a = a

  receive-Agrees :
      (fetched : Fetched) (now : ℕ) (m : QuotaManager)
      → Agrees id m (receive_fallback fp id token fetched now m).1
  receive-Agrees (fails e) now m = Agrees-refl id m
  receive-Agrees (gives quota) now m =
      let a = set_fallback-Agrees _ m in
      record {
        main = a.main;
        main_error = a.main_error;
        errors = λ other apart. (
          rw (get-delete other id _, apart) (a.errors other apart).0,
          rw (get-delete other id _, apart) (a.errors other apart).1,
        );
      }

  attempt-Agrees :
      (locked : Bool) (fetched : Fetched) (started finished : ℕ) (m : QuotaManager)
      → Agrees id m (attempt_fallback fp id token locked fetched started finished m).1
  attempt-Agrees locked fetched started finished m =
      if_intro (λ (r : Refreshed × QuotaManager). Agrees id m r.1)
        (is_fallback_backed_off fp id (some token) started m)
        (
          cached_or rate_limited_error (get_fallback fp id (some token) m).0,
          (get_fallback fp id (some token) m).1,
        )
        (if not locked then unlocked else receive_fallback fp id token fetched finished m)
        (λ _. get_fallback-Agrees m)
        λ _.
          if_intro (λ (r : Refreshed × QuotaManager). Agrees id m r.1) (not locked) unlocked
            (receive_fallback fp id token fetched finished m) (λ _. get_fallback-Agrees m)
            λ _. receive-Agrees fetched finished m
    where
      unlocked : Refreshed × QuotaManager
      unlocked = (
        fresh_or started in_progress_error (get_fallback fp id (some token) m).0,
        (get_fallback fp id (some token) m).1,
      )

  fetch_fallback-Agrees :
      (locked : Bool) (fetched : Fetched) (started finished : ℕ) (m : QuotaManager)
      → Agrees id m (fetch_fallback fp id token locked fetched started finished m).1
  unfolding fetch_fallback
  fetch_fallback-Agrees locked fetched started finished m =
      settle-Agrees finished m (attempt_fallback fp id token locked fetched started finished m)
        (attempt-Agrees locked fetched started finished m)

-- However a quota fetch of a fallback account ends, main's cache and backoff stay as they were, and
-- so does the backoff of every other fallback account, under any token and at any time.
pub fetch_fallback-scoped :
    (fp : String → String) (id token other : String) (locked : Bool) (fetched : Fetched)
    (started finished now : ℕ) (other_token : Option String) (m : QuotaManager)
    → (id == other) ≡ false
    → let after = (fetch_fallback fp id token locked fetched started finished m).1 in
      (after.main ≡ m.main)
      × (is_backed_off now after ≡ is_backed_off now m)
      × (is_fallback_backed_off fp other other_token now after
          ≡ is_fallback_backed_off fp other other_token now m)
unfolding is_backed_off is_fallback_backed_off
fetch_fallback-scoped fp id token other locked fetched started finished now other_token m apart =
    let a = fetch_fallback-Agrees fp id token locked fetched started finished m in
    (a.main, rw (a.main_error) refl, rw ((a.errors other apart).0, (a.errors other apart).1) refl)
