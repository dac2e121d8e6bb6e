-- ===== src/Quota/Refresh/Failures.antt =====
-- packages/core/src/quota-manager.ts: which failures arm a backoff, and whose quota a backed-off
-- refresh answers with.
use openai_auth.Prelude.{
  ℕ, ◌+◌, ◌≤◌, ◌<◌, ◌≡◌, refl, ◌≢◌, String, Bool, true, false, ◌&&◌, ◌||◌, not, Option, none, some,
  if◌then◌else◌, ◌==◌, string_eq, nat_eq, option_eq, arith, if_intro, ==_refl,
}
use openai_auth.Prelude.JsMap.{get, set, get-set_self}
use openai_auth.Backoff.{
  Failure, OperationError, asks_delay, build_quota_operation_error, quota_backoff_active,
  min_quota_retry_delay_ms, is_pending,
}
use openai_auth.Backoff.Delays.{quota_retry_bounds}
use openai_auth.Quota.{QuotaSnapshot}
use openai_auth.Quota.Manager.{QuotaEntry, QuotaManager, is_truthy, get_fallback}
use openai_auth.Quota.Refresh.{
  Refreshed, answers, throws, Fetched, cached_or, rate_limited_error, in_progress_error,
  is_backed_off, is_auth_error, handle_main_fetch_error, drop_other_main, refresh_main, fetch_main,
  is_fallback_backed_off, previous_error, handle_fallback_fetch_error, attempt_fallback,
  fetch_fallback,
}

pending : (at t : ℕ) → t < at → is_pending (some at) t ≡ true
pending at t h = ground arith

earlier : (t now low at : ℕ) → t < now + low → now + low ≤ at → t < at
earlier t now low at h k = omega (arith, h, k)

-- An error that is just built backs off for a minute at least.
built_active :
    (e : Failure) (now t : ℕ) (previous : Option OperationError)
    → asks_delay e.retry_after ≡ false
    → t < now + min_quota_retry_delay_ms
    → quota_backoff_active (some (build_quota_operation_error e now previous)) t ≡ true
unfolding quota_backoff_active build_quota_operation_error
built_active e now t previous own soon =
    pending _ t (
      earlier t now min_quota_retry_delay_ms _ soon
        (quota_retry_bounds e now previous _ own refl).0)

-- A failed quota call for main that names no Retry-After backs main off for a minute at least,
-- unless it failed with status 401, which changes nothing.
pub handle_main_fetch_error-backs_off :
    (e : Failure) (now t : ℕ) (m : QuotaManager)
    → asks_delay e.retry_after ≡ false
    → t < now + min_quota_retry_delay_ms
    → (e.status ≡ some 401 → handle_main_fetch_error e now m ≡ m)
      × (e.status ≢ some 401 → is_backed_off t (handle_main_fetch_error e now m) ≡ true)
unfolding handle_main_fetch_error is_backed_off
handle_main_fetch_error-backs_off e now t m own soon = (
  λ unauthorized. rw ((option_eq.beq_iff e.status (some 401)).1 unauthorized) refl,
  λ other.
      if_intro (λ (n : QuotaManager). quota_backoff_active n.main_last_api_error t ≡ true)
        (is_auth_error e) _ _
        (λ auth. absurd (other ((option_eq.beq_iff e.status (some 401)).0 auth)))
        λ _. built_active e now t m.main_last_api_error own soon,
)

-- Without a cached entry, nothing is answered from the cache.
no_answer :
    (e : Failure) (o : Option QuotaEntry) (quota : QuotaSnapshot)
    → o ≡ none
    → cached_or e o ≢ answers quota
no_answer e none quota empty h = absurd (cc)
no_answer e (some entry) quota empty h = absurd (cc)

-- When main's token is known and has changed, a refresh answers with no cached quota, backed off or
-- not, and main's cache is then empty.
pub refresh_main-other_token :
    (fp : String → String) (token seen : String) (inflight : Option String) (now : ℕ)
    (m : QuotaManager)
    → m.main_token_fp ≡ some seen
    → is_truthy (some seen) ≡ true
    → (seen == fp token) ≡ false
    → ((refresh_main fp token inflight now m).1.main ≡ none)
      × ((quota : QuotaSnapshot) → (refresh_main fp token inflight now m).0 ≢ answers quota)
unfolding refresh_main
refresh_main-other_token fp token seen inflight now m known named other =
    if_intro Empty (inflight == some (fp token)) _ _ (λ _. (dropped, λ quota e. absurd (cc)))
      λ _.
        if_intro Empty (is_backed_off now (drop_other_main fp token m)) _ _
          (λ _. (dropped, λ quota. no_answer rate_limited_error _ quota dropped))
          λ _. (dropped, λ quota e. absurd (cc))
  where
    Empty : Refreshed × QuotaManager → Type 0
    Empty r = (r.1.main ≡ none) × ((quota : QuotaSnapshot) → r.0 ≢ answers quota)

    dropped : (drop_other_main fp token m).main ≡ none
    dropped = rw (known, named, other) refl

get_fallback-none :
    (fp : String → String) (id token : String) (m : QuotaManager)
    → get id m.fallbacks ≡ none
    → get_fallback fp id (some token) m ≡ (none, m)
unfolding get_fallback
get_fallback-none fp id token m empty = rw empty (always (not (is_truthy (some token))) _ _)
  where
    always :
        (b : Bool) (x : Option QuotaEntry × QuotaManager) (y : Option QuotaEntry × QuotaManager)
        → (if b || true then x else y) ≡ x
    always true x y = refl
    always false x y = refl

-- Without the lock, with nothing cached, the attempt throws.
attempt-unlocked :
    (fp : String → String) (id token : String) (fetched : Fetched) (started finished : ℕ)
    (m : QuotaManager)
    → is_fallback_backed_off fp id (some token) started m ≡ false
    → get id m.fallbacks ≡ none
    → attempt_fallback fp id token false fetched started finished m ≡ (throws in_progress_error, m)
attempt-unlocked fp id token fetched started finished m idle empty =
    rw (get_fallback-none fp id token m empty, idle) refl

handled-backs_off :
    (fp : String → String) (id token : String) (now t : ℕ) (m : QuotaManager)
    → t < now + min_quota_retry_delay_ms
    → is_fallback_backed_off fp id
        (some token)
        t
        (handle_fallback_fetch_error fp id token in_progress_error now m)
      ≡ true
unfolding is_fallback_backed_off handle_fallback_fetch_error
handled-backs_off fp id token now t m soon =
    rw (get-set_self id (fp token) m.fallback_error_token_fps, ==_refl (fp token))
      (own (is_truthy (some token)))
  where
    error : OperationError
    error = build_quota_operation_error in_progress_error now (previous_error fp id token m)

    own :
        (b : Bool)
        → (if b && false
            then false
            else quota_backoff_active (get id (set id error m.fallback_api_errors)) t)
          ≡ true
    own true =
        rw (get-set_self id error m.fallback_api_errors)
          (built_active in_progress_error now t _ refl soon)
    own false =
        rw (get-set_self id error m.fallback_api_errors)
          (built_active in_progress_error now t _ refl soon)

-- Where the file lock is not had and nothing is cached, a refresh of main leaves its backoff as it
-- was, but a refresh of a fallback account backs that account off for a minute at least.
pub unlocked-backs_off :
    (fp : String → String) (id token : String) (fetched : Fetched) (started finished t : ℕ)
    (m : QuotaManager)
    → m.main ≡ none
    → is_backed_off started m ≡ false
    → is_fallback_backed_off fp id (some token) started m ≡ false
    → get id m.fallbacks ≡ none
    → t < finished + min_quota_retry_delay_ms
    → ((fetch_main fp token false fetched started finished m).1 ≡ m)
      × (is_fallback_backed_off fp id
            (some token)
            t
            (fetch_fallback fp id token false fetched started finished m).1
          ≡ true)
unfolding fetch_main fetch_fallback
unlocked-backs_off fp id token fetched started finished t m missing ready idle empty soon = (
  rw (ready, missing) refl,
  rw (attempt-unlocked fp id token fetched started finished m idle empty)
      (handled-backs_off fp id token finished t m soon),
)
