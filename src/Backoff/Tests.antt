-- ===== src/Backoff/Tests.antt =====
-- Runs of the backoff policy, and its theorems at concrete failures.
use openai_auth.Prelude.{◌≡◌, refl, String, true, none, some}
use openai_auth.Backoff.{
  Failure, OperationError, is_transient_refresh_error, build_refresh_operation_error,
  build_quota_operation_error, backoff_seconds,
}

-- A server error.
abbrev outage : Failure
outage = record {
  status = some 503;
  is_error = true;
  name = "Error";
  message = "unavailable";
  code = none;
  retry_after = none;
}

abbrev hash : String → String
hash token = token

abbrev other_token : String
other_token = "other"

abbrev first_error : OperationError
first_error = build_refresh_operation_error hash outage 1000 "token" none

seconds_round_up : backoff_seconds (some 301_500) 1000 ≡ 301
unfolding backoff_seconds
seconds_round_up = refl

first_at : first_error.next_retry_at ≡ some 301_000
unfolding build_refresh_operation_error
first_at = refl

second_at :
    (build_refresh_operation_error hash outage 400_000 "token" (some first_error)).next_retry_at
    ≡ some 1_000_000
unfolding build_refresh_operation_error
second_at = refl

quota_at : (build_quota_operation_error outage 1000 none).next_retry_at ≡ some 61_000
unfolding build_quota_operation_error
quota_at = refl

transient : is_transient_refresh_error outage ≡ true
unfolding is_transient_refresh_error
transient = refl
