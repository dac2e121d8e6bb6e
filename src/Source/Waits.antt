-- ===== src/Source/Waits.antt =====
-- packages/core/src/pool-source-state.ts: how long a row waits for its next refresh, and how many
-- observations wait for their write.
use openai_auth.Prelude.{
  ℕ, ◌+◌, ◌≤◌, ◌<◌, ◌≡◌, refl, String, true, false, Option, none, some, List, [], ◌∷◌,
  if◌then◌else◌, string_eq, option_eq, nat_eq, pair_eq, arith, if_intro, All, ==_refl,
}
use openai_auth.Prelude.JsMap.{JsMap, get, has, set, get-set, All-set}
use openai_auth.Backoff.{
  Failure, asks_delay, is_transient_refresh_error, build_refresh_operation_error,
  min_refresh_retry_delay_ms, max_refresh_retry_delay_ms, non_transient_refresh_retry_delay_ms,
}
use openai_auth.Backoff.Delays.{refresh_retry_bounds}
use openai_auth.Source.{
  local_refresh_retry_ms, PoolRefreshBackoff, PoolRow, as_error, is_from_provider,
  next_pool_refresh_backoff, retry_time, has_usable_token, backoff_loop, pool_refresh_backoff_for,
}

retry_time-later : (now : ℕ) (o : Option PoolRefreshBackoff) → now < retry_time now o
retry_time-later now none = ground arith
retry_time-later now (some own) = ground arith

module _ (Quota : Type 0) (usable_token : PoolRow Quota → ℕ → Option String)
    (backoff : JsMap String PoolRefreshBackoff) (now : ℕ) where
  loop-later :
      (rows : List (PoolRow Quota)) (out : JsMap String ℕ)
      → All (λ (p : String × ℕ). now < p.1) out
      → All (λ (p : String × ℕ). now < p.1) (backoff_loop Quota usable_token rows backoff now out)
  unfolding backoff_loop
  loop-later [] out h = h
  loop-later (row ∷ rows) out h = loop-later rows _ (
      if_intro (All (λ (p : String × ℕ). now < p.1)) (has_usable_token Quota usable_token row now) _
        _ (λ _. h)
        λ _.
          All-set (λ (p : String × ℕ). now < p.1) row.id (retry_time now (get row.id backoff)) out
            (retry_time-later now (get row.id backoff)) h)

  has-set_other :
      (k j : String) (v : ℕ) (out : JsMap String ℕ) → has k out ≡ true → has k (set j v out) ≡ true
  has-set_other k j v out h = ground (arith, get-set k j v out, h)

  loop-keeps :
      (rows : List (PoolRow Quota)) (out : JsMap String ℕ) (k : String)
      → has k out ≡ true
      → has k (backoff_loop Quota usable_token rows backoff now out) ≡ true
  unfolding backoff_loop
  loop-keeps [] out k h = h
  loop-keeps (row ∷ rows) out k h = loop-keeps rows _ k (
      if_intro (λ (o : JsMap String ℕ). has k o ≡ true)
        (has_usable_token Quota usable_token row now) _ _ (λ _. h)
        λ _. has-set_other k row.id _ out h)

  loop-covers :
      (rows : List (PoolRow Quota)) (out : JsMap String ℕ)
      → All
          (λ (row : PoolRow Quota).
            has_usable_token Quota usable_token row now ≡ false
            → has row.id (backoff_loop Quota usable_token rows backoff now out) ≡ true)
          rows
  unfolding backoff_loop
  loop-covers [] out = tt
  loop-covers (row ∷ rows) out = (
    λ h. loop-keeps rows _ row.id (
        if_intro (λ (o : JsMap String ℕ). has row.id o ≡ true)
          (has_usable_token Quota usable_token row now) _ _
          (λ usable. absurd (ground (arith, usable, h)))
          λ _. placed row.id (retry_time now (get row.id backoff))),
    loop-covers rows _,
  )
    where
      placed : (k : String) (v : ℕ) → has k (set k v out) ≡ true
      placed k v = ground (arith, get-set k k v out, ==_refl k)

  -- Every row without a usable token gets a time for its next refresh, and every time lies ahead.
  pub pool_refresh_backoff_for-covers :
      (rows : List (PoolRow Quota))
      → let out = pool_refresh_backoff_for Quota usable_token rows backoff now in
        All
          (λ (row : PoolRow Quota).
            has_usable_token Quota usable_token row now ≡ false → has row.id out ≡ true)
          rows
        × All (λ (p : String × ℕ). now < p.1) out
  unfolding pool_refresh_backoff_for
  pool_refresh_backoff_for-covers rows = (loop-covers rows [], loop-later rows [] tt)

-- A failure that names no Retry-After is retried in half a minute if it is local, and in 5 minutes
-- to a day if the provider or the network failed.
pub next_pool_refresh_backoff-bounds :
    (hash : String → String) (token : String) (e : Failure) (now : ℕ)
    (previous : Option PoolRefreshBackoff)
    → asks_delay e.retry_after ≡ false
    → let next = (next_pool_refresh_backoff hash token e now previous).next_retry_at in
      (is_from_provider e ≡ false → next ≡ now + local_refresh_retry_ms)
      × (is_from_provider e ≡ true
          → (now + min_refresh_retry_delay_ms ≤ next)
            × (next ≤ now + non_transient_refresh_retry_delay_ms))
unfolding next_pool_refresh_backoff build_refresh_operation_error
next_pool_refresh_backoff-bounds hash token e now previous own =
    (λ here. rw here refl, λ there. rw there (widened (built _ refl)))
  where
    built :
        (at : ℕ)
        → (build_refresh_operation_error hash e now token (as_error now previous)).next_retry_at
          ≡ some at
        → (now + min_refresh_retry_delay_ms ≤ at)
          × (at
              ≤ now
                + (if is_transient_refresh_error e
                    then max_refresh_retry_delay_ms
                    else non_transient_refresh_retry_delay_ms))
    built at h = refresh_retry_bounds hash e now token (as_error now previous) at own h

    widened :
        {at : ℕ}
        → (now + min_refresh_retry_delay_ms ≤ at)
          × (at
              ≤ now
                + (if is_transient_refresh_error e
                    then max_refresh_retry_delay_ms
                    else non_transient_refresh_retry_delay_ms))
        → (now + min_refresh_retry_delay_ms ≤ at)
          × (at ≤ now + non_transient_refresh_retry_delay_ms)
    widened b = (b.0, ground (arith, b.1))
