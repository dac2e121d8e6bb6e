-- ===== src/Backoff/Windows.antt =====
-- packages/core/src/backoff.ts: how long a backoff is active, and for which token.
use openai_auth.Prelude.{
  ℕ, ◌<◌, ◌≡◌, ◌↔◌, ◌⊎◌, String, Bool, true, false, ◌&&◌, ◌||◌, Option, some, nat_eq, string_eq,
  option_eq, arith,
}
use openai_auth.Backoff.{
  Failure, OperationError, is_pending, build_refresh_operation_error, refresh_backoff_active,
}

is_pending_iff : (at now : ℕ) → (is_pending (some at) now ≡ true) ↔ (now < at)
is_pending_iff at now = ground arith

window :
    {P Q : Type 0} (x at time : ℕ) (p q : Bool)
    → some x ≡ some at
    → ((p ≡ true) ↔ P)
    → ((q ≡ true) ↔ Q)
    → ((is_pending (some x) time && (p || q)) ≡ true) ↔ ((time < at) × (P ⊎ Q))
window x at time true q e f g = ground (arith, f, g)
window x at time false true e f g = ground (arith, f, g)
window x at time false false e f g = ground (arith, f, g)

-- A refresh that failed is backed off at a time exactly when the time is before its retry time,
-- and the token at hand is empty or hashes as the token that failed.
pub refresh_backoff_active_iff :
    (hash : String → String) (e : Failure) (now time at : ℕ) (token other : String)
    (previous : Option OperationError)
    → (build_refresh_operation_error hash e now token previous).next_retry_at ≡ some at
    → (refresh_backoff_active hash
          (some (build_refresh_operation_error hash e now token previous))
          (some other)
          time
        ≡ true)
      ↔ ((time < at) × ((other ≡ "") ⊎ (hash token ≡ hash other)))
unfolding refresh_backoff_active build_refresh_operation_error
refresh_backoff_active_iff hash e now time at token other previous h =
    window _ at time (string_eq.beq other "") (string_eq.beq (hash token) (hash other)) h
      (string_eq.beq_iff other "") (string_eq.beq_iff (hash token) (hash other))
