-- ===== src/Limits/Policy/Classes.antt =====
-- packages/core/src/limit-policy.ts: what kind of limit a response body tells of. The body is given by
-- the fields that are read, each none where it has not the type that is asked for.
use openai_auth.Prelude.{
  ℕ, ◌+◌, ◌*◌, String, Bool, false, ◌&&◌, ◌||◌, not, Option, none, some, List, [], ◌∷◌,
  if◌then◌else◌, ◌==◌, nat_eq, string_eq, option_eq, any, is_some, or_else, JsNumber, finite,
}
use openai_auth.Quota.{QuotaSnapshot, reset_time}
use openai_auth.Limits.Accounts.{AccountKey}
use openai_auth.Limits.Policy.{
  LimitWindow, is_named, is_usage, unproven_signal, open_ai_signal_windows, if_positive,
}

pub record LimitDetail : Type 0 where
  pub kind : Option String
  pub code : Option String
  pub resets_at : Option JsNumber
  pub resets_in_seconds : Option JsNumber

-- The `response` of a failed frame; `label` is its `failed.rate_limit_reached_type`.
pub record FailedResponse : Type 0 where
  pub error : Option LimitDetail
  pub label : Option String

-- `own` are the fields of the body itself; a body that is no object has none of any.
pub record LimitBody : Type 0 where
  pub own : LimitDetail
  pub error : Option LimitDetail
  pub response : Option FailedResponse
  pub status : Option ℕ
  pub status_code : Option ℕ

abbrev pub failed_of : LimitBody → Option FailedResponse
failed_of body = if body.own.kind == some "response.failed" then body.response else none

abbrev error_of : Option FailedResponse → Option LimitDetail
error_of none = none
error_of (some failed) = failed.error

abbrev first_detail : Option LimitDetail → Option LimitDetail → LimitDetail → LimitDetail
first_detail (some detail) error own = detail
first_detail none (some error) own = error
first_detail none none own = own

abbrev pub detail_of : LimitBody → LimitDetail
detail_of body = first_detail (error_of (failed_of body)) body.error body.own

abbrev first_some : {A : Type 0} → Option A → Option A → Option A
first_some none b = b
first_some (some a) b = some a

abbrev reason_of : Option FailedResponse → LimitDetail → Option String
reason_of none detail = first_some detail.kind detail.code
reason_of (some failed) detail = first_some failed.label (first_some detail.code detail.kind)

abbrev pub limit_reason : LimitBody → Option String
limit_reason body = reason_of (failed_of body) (detail_of body)

abbrev pub status_of : Option ℕ → LimitBody → Option ℕ
status_of status body = first_some status (first_some body.status body.status_code)

-- `resets_at`, or `resets_in_seconds`, where it is a finite number above zero.
abbrev reset_of : Option ℕ → Option ℕ → ℕ → Option JsNumber
reset_of none none now = none
reset_of none (some seconds) now = some (finite (now + seconds * 1000))
reset_of (some time) seconds now = some (finite (time * 1000))

abbrev pub reset_at_of : LimitDetail → ℕ → Option JsNumber
reset_at_of detail now =
    reset_of (if_positive (reset_time detail.resets_at))
      (if_positive (reset_time detail.resets_in_seconds)) now

pub data LimitKind : Type 0 where
  quota_exhausted : LimitKind
  rate_limit : LimitKind

pub record LimitSignal : Type 0 where
  pub account : AccountKey
  pub kind : LimitKind
  pub reason : String
  pub status : Option ℕ
  pub windows : List LimitWindow
  pub observed_at : ℕ
  pub retry_after_ms : Option ℕ

pub record ClassifyInput : Type 0 where
  pub account : AccountKey
  pub status : Option ℕ
  pub retry_after : Option JsNumber
  pub body : LimitBody
  pub now : ℕ
  pub quota : Option QuotaSnapshot

abbrev is_known_reason : Option String → Bool
is_known_reason none = false
is_known_reason (some why) = is_named why || is_usage why || why == "rate_limit_exceeded"

-- The three returns of nothing.
abbrev pub is_no_limit : Option FailedResponse → Option String → Option ℕ → Bool
is_no_limit none why status = not (why == some "usage_limit_reached") && not (status == some 429)
is_no_limit (some failed) why status = not (is_known_reason why)

abbrev pub confirms : LimitBody → Bool
confirms body = is_some (failed_of body) || (detail_of body).kind == some "usage_limit_reached"

abbrev pub reason_text : LimitBody → String
reason_text body = or_else (limit_reason body) "rate_limit"

abbrev pub windows_of : ClassifyInput → List LimitWindow
windows_of input =
    if confirms input.body
    then open_ai_signal_windows
        (record {
          window = reason_text input.body;
          reset_at =
              if is_some (failed_of input.body)
              then none
              else reset_at_of (detail_of input.body) input.now;
        })
        input.now input.quota input.now
    else unproven_signal (reason_text input.body) input.now ∷ []

abbrev milliseconds : Option ℕ → Option ℕ
milliseconds none = none
milliseconds (some seconds) = some (seconds * 1000)

abbrev pub kind_of : List LimitWindow → LimitKind
kind_of windows = if any (λ w. w.confirmed) windows then quota_exhausted else rate_limit

-- `retry_after` is the number that the header gives, none also where it is negative.
abbrev pub signal_of : ClassifyInput → LimitSignal
signal_of input = record {
  account = input.account;
  kind = kind_of (windows_of input);
  reason = reason_text input.body;
  status = status_of input.status input.body;
  windows = windows_of input;
  observed_at = input.now;
  retry_after_ms = milliseconds (reset_time input.retry_after);
}

unfoldable pub classify_open_ai_limit_body : ClassifyInput → Option LimitSignal
unfolding open_ai_signal_windows
classify_open_ai_limit_body input =
    if is_no_limit (failed_of input.body) (limit_reason input.body)
      (status_of input.status input.body)
    then none
    else some (signal_of input)

-- Whether the body shows that a quota is exhausted, for the reason that is given.
abbrev pub exhausts : LimitBody → String → Bool
exhausts body why = confirms body && (is_named why || is_usage why)
