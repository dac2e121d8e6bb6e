-- ===== src/Backoff/Delays.antt =====
-- packages/core/src/backoff.ts: bounds of the delays, and their growth over failures in a row.
use native.Mathlib.Nat.{pow-le-pow_right, mul-le-mul_left}
use openai_auth.Prelude.{
  ℕ, ◌+◌, ◌-◌, ◌*◌, ◌^◌, ◌≤◌, ◌≡◌, min, String, true, false, Option, some, if◌then◌else◌, arith,
  ==_refl, string_eq, option_eq, Bool-cases, inl, inr, subst, ◌==◌,
}
use openai_auth.Backoff.{
  Failure, OperationError, asks_delay, is_transient_refresh_error, is_transient_quota_error,
  refresh_delay, quota_delay, count_of, count_for, build_refresh_operation_error,
  build_quota_operation_error, min_refresh_retry_delay_ms, max_refresh_retry_delay_ms,
  non_transient_refresh_retry_delay_ms, min_quota_retry_delay_ms, max_quota_retry_delay_ms,
  non_transient_quota_retry_delay_ms,
}

-- Powers of two under the exponents that the code uses.
doubling : (low n : ℕ) → low ≤ low * 2 ^ min n 6
doubling low n =
    let one : 1 ≤ 2 ^ min n 6 =
      pow-le-pow_right {n = 2} (ground arith) {i = 0} {j = min n 6} (ground arith) in
    le_of_mul_one low (2 ^ min n 6) one
  where
    le_of_mul_one : (a b : ℕ) → 1 ≤ b → a ≤ a * b
    le_of_mul_one a b h = let k : a * 1 ≤ a * b = mul-le-mul_left a h in ground arith

doubling_step : (low n : ℕ) → low * 2 ^ min n 6 ≤ low * 2 ^ min (n + 1) 6
doubling_step low n =
    mul-le-mul_left low
      (pow-le-pow_right {n = 2} (ground arith) {i = min n 6} {j = min (n + 1) 6} (ground arith))

-- The transient delay, from `low` up to `high`.
capped_bounds :
    (low high n : ℕ)
    → low ≤ high
    → (low ≤ min high (low * 2 ^ min n 6)) × (min high (low * 2 ^ min n 6) ≤ high)
capped_bounds low high n h = between low high (low * 2 ^ min n 6) h (doubling low n)
  where
    between : (a b c : ℕ) → a ≤ b → a ≤ c → (a ≤ min b c) × (min b c ≤ b)
    between a b c h k = ground arith

capped_step : (low high n : ℕ) → min high (low * 2 ^ min n 6) ≤ min high (low * 2 ^ min (n + 1) 6)
capped_step low high n =
    grows high (low * 2 ^ min n 6) (low * 2 ^ min (n + 1) 6) (doubling_step low n)
  where
    grows : (a b c : ℕ) → b ≤ c → min a b ≤ min a c
    grows a b c h = ground arith

refresh_delay_bounds :
    (e : Failure) (n : ℕ)
    → asks_delay e.retry_after ≡ false
    → (min_refresh_retry_delay_ms ≤ refresh_delay e n)
      × (refresh_delay e n ≤ (
          if is_transient_refresh_error e
          then max_refresh_retry_delay_ms
          else non_transient_refresh_retry_delay_ms))
unfolding refresh_delay
refresh_delay_bounds e n own = elim (Bool-cases (is_transient_refresh_error e)) [
  | inl t ↦
      rw (own, t)
        (capped_bounds min_refresh_retry_delay_ms max_refresh_retry_delay_ms (n - 1) (ground arith))
  | inr t ↦ rw (own, t) (ground arith, ground arith)
]

quota_delay_bounds :
    (e : Failure) (n : ℕ)
    → asks_delay e.retry_after ≡ false
    → (min_quota_retry_delay_ms ≤ quota_delay e n)
      × (quota_delay e n ≤ (
          if is_transient_quota_error e
          then max_quota_retry_delay_ms
          else non_transient_quota_retry_delay_ms))
unfolding quota_delay
quota_delay_bounds e n own = elim (Bool-cases (is_transient_quota_error e)) [
  | inl t ↦
      rw (own, t)
        (capped_bounds min_quota_retry_delay_ms max_quota_retry_delay_ms (n - 1) (ground arith))
  | inr t ↦ rw (own, t) (ground arith, ground arith)
]

shifted :
    (now d low high at : ℕ)
    → (low ≤ d) × (d ≤ high)
    → some (now + d) ≡ some at
    → (now + low ≤ at) × (at ≤ now + high)
shifted now d low high at b e = ground (arith, b)

-- A failed refresh that names no Retry-After is retried no sooner than 5 minutes later, and no
-- later than an hour after a transient failure, or a day after another.
pub refresh_retry_bounds :
    (hash : String → String) (e : Failure) (now : ℕ) (token : String)
    (previous : Option OperationError) (at : ℕ)
    → asks_delay e.retry_after ≡ false
    → (build_refresh_operation_error hash e now token previous).next_retry_at ≡ some at
    → (now + min_refresh_retry_delay_ms ≤ at)
      × (at
          ≤ now
            + (if is_transient_refresh_error e
                then max_refresh_retry_delay_ms
                else non_transient_refresh_retry_delay_ms))
unfolding build_refresh_operation_error
refresh_retry_bounds hash e now token previous at own h =
    let count = count_for (hash token) previous + 1 in
    shifted now (refresh_delay e count) _ _ at (refresh_delay_bounds e count own) h

-- A failed quota call that names no Retry-After is retried no sooner than a minute later, and no
-- later than 15 minutes after a transient failure, or 5 minutes after another.
pub quota_retry_bounds :
    (e : Failure) (now : ℕ) (previous : Option OperationError) (at : ℕ)
    → asks_delay e.retry_after ≡ false
    → (build_quota_operation_error e now previous).next_retry_at ≡ some at
    → (now + min_quota_retry_delay_ms ≤ at)
      × (at
          ≤ now
            + (if is_transient_quota_error e
                then max_quota_retry_delay_ms
                else non_transient_quota_retry_delay_ms))
unfolding build_quota_operation_error
quota_retry_bounds e now previous at own h =
    let count = count_of previous + 1 in
    shifted now (quota_delay e count) _ _ at (quota_delay_bounds e count own) h

refresh_delay_step :
    (e f : Failure) (n : ℕ)
    → asks_delay e.retry_after ≡ false
    → asks_delay f.retry_after ≡ false
    → is_transient_refresh_error e ≡ true
    → is_transient_refresh_error f ≡ true
    → refresh_delay e (n + 1) ≤ refresh_delay f (n + 1 + 1)
unfolding refresh_delay
refresh_delay_step e f n own_e own_f t_e t_f =
    let first : n + 1 - 1 ≡ n = omega arith in
    let second : n + 1 + 1 - 1 ≡ n + 1 = omega arith in
    rw (own_e, own_f, t_e, t_f, first, second)
      (capped_step min_refresh_retry_delay_ms max_refresh_retry_delay_ms n)

-- Of two transient failures in a row for one token, none naming a Retry-After, the second waits at
-- least as long as the first.
pub refresh_retry_grows :
    (hash : String → String) (e f : Failure) (now later : ℕ) (token : String)
    (previous : Option OperationError) (at then_at : ℕ)
    → asks_delay e.retry_after ≡ false
    → asks_delay f.retry_after ≡ false
    → is_transient_refresh_error e ≡ true
    → is_transient_refresh_error f ≡ true
    → (build_refresh_operation_error hash e now token previous).next_retry_at ≡ some at
    → (build_refresh_operation_error hash f later token
        (some (build_refresh_operation_error hash e now token previous))).next_retry_at
      ≡ some then_at
    → at + later ≤ then_at + now
unfolding build_refresh_operation_error
refresh_retry_grows hash e f now later token previous at then_at own_e own_f t_e t_f first second =
    ordered (refresh_delay e (count + 1)) (refresh_delay f (count + 1 + 1))
      (refresh_delay_step e f count own_e own_f t_e t_f) first (counted second)
  where
    count : ℕ
    count = count_for (hash token) previous

    counted :
        some (
            later
            + refresh_delay f
                ((if some (hash token) == some (hash token) then count + 1 else 0) + 1))
          ≡ some then_at
        → some (later + refresh_delay f (count + 1 + 1)) ≡ some then_at
    counted h =
        subst
          (λ b. some (later + refresh_delay f ((if b then count + 1 else 0) + 1)) ≡ some then_at)
          (==_refl (some (hash token))) h

    ordered :
        (d c : ℕ)
        → d ≤ c
        → some (now + d) ≡ some at
        → some (later + c) ≡ some then_at
        → at + later ≤ then_at + now
    ordered d c le h k = ground arith
