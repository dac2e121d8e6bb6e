-- ===== src/Reset.antt =====
-- packages/core/src/reset-credits.ts: the saved state of a reset credit's redemption, and the
-- locked writes that change it. The text of a time is given by what Date.parse makes of it.
pub mod Saved
pub mod Answers
pub mod Late
pub mod Order
pub mod History
pub mod Held
pub mod Spends
pub mod Redemption
pub mod Credits
pub mod Names
pub mod Sends
pub mod Retry
mod Tests
pub mod Writes
use openai_auth.Prelude.{
  ℕ, ◌+◌, String, Bool, true, false, ◌&&◌, ◌||◌, not, Option, none, some, List, [], ltb, leb,
  if◌then◌else◌, ◌==◌, nat_eq, string_eq, option_eq, is_some, or_else, JsNumber, finite, infinity,
  nan, keep_if, sort_by, head_of,
}
use openai_auth.Prelude.JsMap
use openai_auth.Prelude.JsMap.{JsMap}

-- A field of a stored object, as `typeof` tells them apart.
pub data Field : Type 0 where
  absent : Field
  text : String → Field
  number : JsNumber → Field
  other : Field

-- A saved redemption as it is stored, of whatever version wrote it.
pub record RawPair : Type 0 where
  pub redeem_request_id : Field
  pub credit_id : Field
  pub started_at : Field
  pub chatgpt_account_id : Field
  pub rejected_status : Field
  pub unknown_answers : Field

pub record SavedResetPair : Type 0 where
  pub redeem_request_id : String
  pub credit_id : String
  pub started_at : ℕ
  pub chatgpt_account_id : Option String
  pub rejected_status : Option ℕ
  pub unknown_answers : Option ℕ

abbrev pub is_definite_refusal : ℕ → Bool
is_definite_refusal status =
    leb 400 status
    && (ltb status 500
        && (not (status == 408)
            && (not (status == 409) && (not (status == 425) && not (status == 429)))))

-- Number.MAX_SAFE_INTEGER
abbrev pub max_safe_integer : ℕ
max_safe_integer = 9007199254740991

-- A text with at least one character.
abbrev pub text_of : Field → Option String
text_of (text s) = if s == "" then none else some s
text_of absent = none
text_of (number n) = none
text_of other = none

abbrev pub time_of : Field → Option ℕ
time_of (number (finite t)) = some t
time_of (number infinity) = none
time_of (number nan) = none
time_of absent = none
time_of (text s) = none
time_of other = none

-- No account at all is readable; a damaged one is not.
abbrev pub recorded_account : Field → Option (Option String)
recorded_account absent = some none
recorded_account (text s) = if s == "" then none else some (some s)
recorded_account (number n) = none
recorded_account other = none

abbrev pub recorded_refusal : Field → Option ℕ
recorded_refusal (number (finite s)) = if is_definite_refusal s then some s else none
recorded_refusal (number infinity) = none
recorded_refusal (number nan) = none
recorded_refusal absent = none
recorded_refusal (text s) = none
recorded_refusal other = none

abbrev pub answers_of : Field → Option ℕ
answers_of (number (finite n)) = if leb n max_safe_integer && ltb 0 n then some n else none
answers_of (number infinity) = none
answers_of (number nan) = none
answers_of absent = none
answers_of (text s) = none
answers_of other = none

abbrev pub read_pair :
    Option String
    → Option String
    → Option ℕ
    → Option (Option String)
    → Field
    → Field
    → Option SavedResetPair
read_pair (some request) (some credit) (some started) (some account) rejected answers =
    some (record {
      redeem_request_id = request;
      credit_id = credit;
      started_at = started;
      chatgpt_account_id = account;
      rejected_status = recorded_refusal rejected;
      unknown_answers = answers_of answers;
    })
read_pair (some request) (some credit) (some started) none rejected answers = none
read_pair (some request) (some credit) none account rejected answers = none
read_pair (some request) none started account rejected answers = none
read_pair none credit started account rejected answers = none

pub valid_in_flight : RawPair → Option SavedResetPair
valid_in_flight raw =
    read_pair (text_of raw.redeem_request_id) (text_of raw.credit_id) (time_of raw.started_at)
      (recorded_account raw.chatgpt_account_id) raw.rejected_status raw.unknown_answers

abbrev pub text_field : Option String → Field
text_field none = absent
text_field (some s) = text s

abbrev pub number_field : Option ℕ → Field
number_field none = absent
number_field (some n) = number (finite n)

-- A pair as it is written: a field that it does not have is left out.
abbrev pub to_raw : SavedResetPair → RawPair
to_raw pair = record {
  redeem_request_id = text pair.redeem_request_id;
  credit_id = text pair.credit_id;
  started_at = number (finite pair.started_at);
  chatgpt_account_id = text_field pair.chatgpt_account_id;
  rejected_status = number_field pair.rejected_status;
  unknown_answers = number_field pair.unknown_answers;
}

-- `previous_outcome` is a code and a time.
pub record LastOutcome : Type 0 where
  pub code : String
  pub at : ℕ
  pub previous_outcome : Option (String × ℕ)

pub record ResetAccountState : Type 0 where
  pub in_flight : Option RawPair
  pub last_outcome : Option LastOutcome
  pub cooldown_until : Option ℕ

abbrev pub no_state : ResetAccountState
no_state = record { in_flight = none; last_outcome = none; cooldown_until = none }

-- The `reset` of the account storage.
abbrev pub ResetStates : Type 0
ResetStates = JsMap String ResetAccountState

abbrev pub is_safe_reset_account_key : String → Bool
is_safe_reset_account_key key =
    not (key == "") && not (key == "__proto__" || (key == "constructor" || key == "prototype"))

abbrev pub reset_in_flight_ttl_ms : ℕ
reset_in_flight_ttl_ms = 300000

abbrev pub reset_cooldown_ms : ℕ
reset_cooldown_ms = 60000

pub record ResetCredit : Type 0 where
  pub id : String
  pub status : String
  pub granted_at : Option String
  pub expires_at : ℕ
  pub reset_type : Option String
  pub is_supported_by_plan : Bool

abbrev pub is_reset_credit_eligible : ResetCredit → Bool
is_reset_credit_eligible credit =
    credit.status == "available"
    && (credit.is_supported_by_plan && credit.reset_type == some "codex_rate_limits")

abbrev pub expires_before : ResetCredit → ResetCredit → Bool
expires_before left right = leb left.expires_at right.expires_at

pub select_credit_to_spend : List ResetCredit → Option ResetCredit
unfolding head_of sort_by
select_credit_to_spend credits =
    head_of (sort_by expires_before (keep_if is_reset_credit_eligible credits))

-- A credit of the list, or the id of the one that a saved pair names.
pub data SelectedCredit : Type 0 where
  listed : ResetCredit → SelectedCredit
  named : String → SelectedCredit

pub record ResetClaim : Type 0 where
  pub in_flight : SavedResetPair
  pub selected_credit : SelectedCredit

-- `before` is the state as it was found.
pub data ResetDecision : Type 0 where
  fresh : Option ResetAccountState → ResetDecision
  claim : Option ResetAccountState → ResetClaim → ResetDecision
  expired_unreconciled : Option ResetAccountState → ResetClaim → ResetDecision
  cooldown : Option ResetAccountState → ℕ → ResetDecision
  corrupt : Option ResetAccountState → ResetDecision

abbrev pub raw_in_flight : Option ResetAccountState → Option RawPair
raw_in_flight none = none
raw_in_flight (some state) = state.in_flight

-- `hasInFlightField`
abbrev pub has_in_flight_field : Option ResetAccountState → Bool
has_in_flight_field state = is_some (raw_in_flight state)

abbrev read_raw : Option RawPair → Option SavedResetPair
read_raw none = none
read_raw (some raw) = valid_in_flight raw

-- `validInFlight(state?.inFlight)`
pub pair_of : Option ResetAccountState → Option SavedResetPair
unfolding valid_in_flight
pair_of state = read_raw (raw_in_flight state)

abbrev pub is_corrupt : Option ResetAccountState → Bool
is_corrupt state = has_in_flight_field state && not (is_some (pair_of state))

abbrev after_now : ℕ → Option ℕ → Option ℕ
after_now now none = none
after_now now (some until) = if ltb now until then some until else none

-- The end of a cooldown that is still to come.
pub cooling_until : Option ResetAccountState → ℕ → Option ℕ
cooling_until none now = none
cooling_until (some state) now = after_now now state.cooldown_until

-- `now - startedAt < RESET_IN_FLIGHT_TTL_MS`
abbrev pub is_younger_than_in_flight_ttl : SavedResetPair → ℕ → Bool
is_younger_than_in_flight_ttl pair now = ltb now (pair.started_at + reset_in_flight_ttl_ms)

abbrev pub is_foreign : Option String → Option String → Bool
is_foreign none account = false
is_foreign (some minted) account = not (account == some minted)

-- Whether the pair was minted under another account.
pub is_of_other_account : SavedResetPair → Option String → Bool
is_of_other_account pair account = is_foreign pair.chatgpt_account_id account

abbrev pub may_replace_expired_pair : SavedResetPair → Option String → Bool
may_replace_expired_pair pair account =
    is_of_other_account pair account || is_some pair.rejected_status

abbrev pub claim_of : SavedResetPair → ResetClaim
claim_of pair = record { in_flight = pair; selected_credit = named pair.credit_id }
