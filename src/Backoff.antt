-- ===== src/Backoff.antt =====
-- packages/core/src/backoff.ts: when a failed token refresh or quota call may be tried again. The
-- hash of a token comes from node:crypto and is a parameter.
pub mod Delays
pub mod Windows
mod Tests
use text.Mathlib.Text.{find?}
use openai_auth.Prelude.{
  ℕ, suc, ◌+◌, ◌-◌, ◌*◌, ◌^◌, ◌/◌, min, max, String, Bool, true, false, ◌&&◌, ◌||◌, not, Option,
  none, some, ltb, leb, if◌then◌else◌, ◌==◌, nat_eq, string_eq, option_eq, is_some, or_else,
}

abbrev pub non_transient_refresh_retry_delay_ms : ℕ
non_transient_refresh_retry_delay_ms = 24 * 60 * 60_000

abbrev pub min_refresh_retry_delay_ms : ℕ
min_refresh_retry_delay_ms = 5 * 60_000

abbrev pub max_refresh_retry_delay_ms : ℕ
max_refresh_retry_delay_ms = 60 * 60_000

abbrev pub min_quota_retry_delay_ms : ℕ
min_quota_retry_delay_ms = 60_000

abbrev pub max_quota_retry_delay_ms : ℕ
max_quota_retry_delay_ms = 15 * 60_000

abbrev pub non_transient_quota_retry_delay_ms : ℕ
non_transient_quota_retry_delay_ms = 5 * 60_000

-- What the code reads of a thrown value: `is_error` is `instanceof Error`, and `message` what
-- `formatErrorMessage` gives. Retry-After is a whole number of seconds, as `parseRetryAfter` gives it.
pub record Failure : Type 0 where
  pub status : Option ℕ
  pub is_error : Bool
  pub name : String
  pub message : String
  pub code : Option String
  pub retry_after : Option ℕ

abbrev pub is_transient_status : ℕ → Bool
is_transient_status status = status == 429 || leb 500 status

-- The tests on an Error without a status, which the two functions share.
abbrev pub is_network_error : Failure → Bool
is_network_error e =
    e.is_error
    && (e.name == "AbortError"
        || (e.name == "TimeoutError"
            || (is_some (find? e.message "fetch failed")
                || (e.code == some "ECONNRESET"
                    || (e.code == some "ECONNREFUSED"
                        || (e.code == some "ETIMEDOUT"
                            || e.code == some "UND_ERR_CONNECT_TIMEOUT"))))))

abbrev transient_by : Option ℕ → Failure → Bool
transient_by (some status) e = is_transient_status status
transient_by none e = is_network_error e

pub is_transient_refresh_error : Failure → Bool
is_transient_refresh_error e = transient_by e.status e

pub is_transient_quota_error : Failure → Bool
is_transient_quota_error e = transient_by e.status e

-- An operation error: what is built, and what is read back, where all but two fields may be absent.
pub record OperationError : Type 0 where
  pub message : String
  pub checked_at : ℕ
  pub next_retry_at : Option ℕ
  pub retry_count : Option ℕ
  pub token_hash : Option String

-- `typeof retryAfter === 'number' && retryAfter > 0`
abbrev pub asks_delay : Option ℕ → Bool
asks_delay none = false
asks_delay (some seconds) = ltb 0 seconds

pub refresh_delay : Failure → ℕ → ℕ
unfolding is_transient_refresh_error
refresh_delay e retry_count =
    if asks_delay e.retry_after
    then or_else e.retry_after 0 * 1000
    else if is_transient_refresh_error e
    then min max_refresh_retry_delay_ms (min_refresh_retry_delay_ms * 2 ^ min (retry_count - 1) 6)
    else non_transient_refresh_retry_delay_ms

pub quota_delay : Failure → ℕ → ℕ
unfolding is_transient_quota_error
quota_delay e retry_count =
    if asks_delay e.retry_after
    then or_else e.retry_after 0 * 1000
    else if is_transient_quota_error e
    then min max_quota_retry_delay_ms (min_quota_retry_delay_ms * 2 ^ min (retry_count - 1) 6)
    else non_transient_quota_retry_delay_ms

-- `previous?.retryCount ?? 0`
abbrev pub count_of : Option OperationError → ℕ
count_of none = 0
count_of (some previous) = or_else previous.retry_count 0

-- The count of the same token's failures, or zero.
abbrev pub count_for : String → Option OperationError → ℕ
count_for token_hash none = 0
count_for token_hash (some previous) =
    if previous.token_hash == some token_hash then or_else previous.retry_count 0 else 0

unfoldable pub build_quota_operation_error : Failure → ℕ → Option OperationError → OperationError
unfolding quota_delay
build_quota_operation_error e now previous =
    let retry_count = count_of previous + 1 in
    record {
      message = e.message;
      checked_at = now;
      next_retry_at = some (now + quota_delay e retry_count);
      retry_count = some retry_count;
      token_hash = none;
    }

-- `!error?.nextRetryAt || error.nextRetryAt <= now`, negated. Zero is falsy.
abbrev pub is_pending : Option ℕ → ℕ → Bool
is_pending none now = false
is_pending (some next_retry_at) now = not (next_retry_at == 0) && ltb now next_retry_at

unfoldable pub quota_backoff_active : Option OperationError → ℕ → Bool
quota_backoff_active none now = false
quota_backoff_active (some error) now = is_pending error.next_retry_at now

-- The seconds that the two messages name: the ceiling, at least one.
pub backoff_seconds : Option ℕ → ℕ → ℕ
backoff_seconds next_retry_at now = max 1 ((or_else next_retry_at now - now + 999) / 1000)

module _ (hash_refresh_token : String → String) where
  unfoldable pub build_refresh_operation_error :
      Failure → ℕ → String → Option OperationError → OperationError
  unfolding refresh_delay
  build_refresh_operation_error e now refresh_token previous =
      let token_hash = hash_refresh_token refresh_token in
      let retry_count = count_for token_hash previous + 1 in
      record {
        message = e.message;
        checked_at = now;
        next_retry_at = some (now + refresh_delay e retry_count);
        retry_count = some retry_count;
        token_hash = some token_hash;
      }

  -- `if (!refreshToken) return true`, where the empty token is falsy too.
  abbrev pub is_for_token : Option String → Option String → Bool
  is_for_token token_hash none = true
  is_for_token token_hash (some refresh_token) =
      refresh_token == "" || token_hash == some (hash_refresh_token refresh_token)

  unfoldable pub refresh_backoff_active : Option OperationError → Option String → ℕ → Bool
  refresh_backoff_active none refresh_token now = false
  refresh_backoff_active (some error) refresh_token now =
      is_pending error.next_retry_at now && is_for_token error.token_hash refresh_token
