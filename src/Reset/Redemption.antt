-- ===== src/Reset/Redemption.antt =====
-- packages/core/src/reset-credits.ts: a redemption from the request to the answer. What other
-- processes write to the storage while it waits is a function on the saved states.
use openai_auth.Prelude.{
  ℕ, String, Bool, true, false, ◌&&◌, ◌||◌, not, Option, none, some, List, [], ◌∷◌, ltb,
  if◌then◌else◌, ◌==◌, nat_eq, string_eq, option_eq, is_some, JsNumber, finite, infinity, nan,
}
use openai_auth.Quota.{QuotaWindow, QuotaSnapshot}
use openai_auth.Reset.{
  Field, absent, text, number, other, SavedResetPair, ResetAccountState, ResetStates,
  is_safe_reset_account_key, ResetCredit, select_credit_to_spend, ResetClaim, ResetDecision, fresh,
  claim, expired_unreconciled, cooldown, corrupt, is_of_other_account, may_replace_expired_pair,
}
use openai_auth.Reset.Writes.{
  inspect_reset_attempt, resolve_corrupt_reset_attempt, claim_reset_attempt, ResetConsumeKind,
  reset, already_redeemed, nothing_to_reset, no_credit, http_error, ambiguous, ResetConsumeOutcome,
  is_terminal_consume_kind, finalize_reset_attempt, refusal_status,
}

-- A window that has no use left, as far as its reset is not past.
abbrev resets_later : Option JsNumber → ℕ → Bool
resets_later none now = true
resets_later (some (finite time)) now = ltb now time
resets_later (some infinity) now = true
resets_later (some nan) now = true

abbrev pub reset_window_is_exhausted : Option QuotaWindow → ℕ → Bool
reset_window_is_exhausted none now = false
reset_window_is_exhausted (some window) now =
    not (ltb window.used_percent 100) && resets_later window.resets_at now

-- `evaluateResetPrecondition(…).ok`
unfoldable pub reset_precondition : QuotaSnapshot → Bool → ℕ → Bool
reset_precondition quota has_active_rate_limit_mark now =
    has_active_rate_limit_mark
    || (reset_window_is_exhausted quota.primary now
        || reset_window_is_exhausted quota.secondary now)

-- A credit as the server lists it: `expires_at` is none if it is no text, and nan if Date.parse
-- cannot read it. A null field is absent.
pub record WireCredit : Type 0 where
  pub id : Field
  pub status : Field
  pub granted_at : Field
  pub expires_at : Option JsNumber
  pub reset_type : Field
  pub is_supported_by_plan : Option Bool

-- none is what is neither absent nor a text.
abbrev pub optional_string : Field → Option (Option String)
optional_string absent = some none
optional_string (text s) = some (some s)
optional_string (number n) = none
optional_string other = none

abbrev pub string_of : Field → Option String
string_of (text s) = some s
string_of absent = none
string_of (number n) = none
string_of other = none

abbrev pub read_credit :
    Option String
    → Option String
    → Option JsNumber
    → Option Bool
    → Option (Option String)
    → Option (Option String)
    → Option ResetCredit
read_credit (some id) (some status) (some (finite time)) (some supported) (some granted)
      (some type) =
    some (record {
      id = id;
      status = status;
      granted_at = granted;
      expires_at = time;
      reset_type = type;
      is_supported_by_plan = supported;
    })
read_credit _ _ _ _ _ _ = none

unfoldable pub parse_credit : WireCredit → Option ResetCredit
parse_credit wire =
    read_credit (string_of wire.id) (string_of wire.status) wire.expires_at
      wire.is_supported_by_plan (optional_string wire.granted_at) (optional_string wire.reset_type)

abbrev pub put_credit : Option ResetCredit → List ResetCredit → List ResetCredit
put_credit none credits = credits
put_credit (some credit) credits = credit ∷ credits

unfoldable pub parse_credits : List WireCredit → List ResetCredit
unfolding parse_credit
parse_credits [] = []
parse_credits (wire ∷ wires) = put_credit (parse_credit wire) (parse_credits wires)

-- What the GET comes to: `listed` has the `credits` of the object, if they are an array.
pub data ListReply : Type 0 where
  list_fails : ListReply
  list_refused : ℕ → ListReply
  list_not_json : ListReply
  list_not_object : ListReply
  lists : Option (List WireCredit) → ListReply

abbrev pub wires_of : Option (List WireCredit) → List WireCredit
wires_of none = []
wires_of (some wires) = wires

-- `listResetCredits`; none is the error that it throws.
unfoldable pub list_reset_credits : ListReply → Option (List ResetCredit)
unfolding parse_credits
list_reset_credits list_fails = none
list_reset_credits (list_refused status) = none
list_reset_credits list_not_json = none
list_reset_credits list_not_object = none
list_reset_credits (lists wires) = some (parse_credits (wires_of wires))

-- The body of an answer: `coded` has the `code` of a JSON object, if it is a text.
pub data ReplyBody : Type 0 where
  unread : ReplyBody
  not_json : ReplyBody
  coded : Option String → ReplyBody

pub data ConsumeReply : Type 0 where
  no_reply : ConsumeReply
  replied : Bool → ℕ → ReplyBody → ConsumeReply

abbrev terminal_code : String → Option ResetConsumeKind
terminal_code code =
    if code == "reset"
    then some reset
    else if code == "already_redeemed"
    then some already_redeemed
    else if code == "nothing_to_reset"
    then some nothing_to_reset
    else if code == "no_credit"
    then some no_credit
    else none

abbrev settled_as : Option ResetConsumeKind → ResetConsumeOutcome
settled_as none = record { kind = ambiguous; status = none }
settled_as (some kind) = record { kind = kind; status = none }

abbrev accepted_body : ReplyBody → ResetConsumeOutcome
accepted_body unread = settled_as none
accepted_body not_json = settled_as none
accepted_body (coded none) = settled_as none
accepted_body (coded (some code)) = settled_as (terminal_code code)

-- `consumeResetCredit`, by what the POST comes to.
unfoldable pub consume_reset_credit : ConsumeReply → ResetConsumeOutcome
consume_reset_credit no_reply = record { kind = ambiguous; status = none }
consume_reset_credit (replied ok status body) =
    if ok then accepted_body body else record { kind = http_error; status = some status }

-- Why a redemption stops before it sends.
pub data RedemptionError : Type 0 where
  invalid_account_key : RedemptionError
  no_target : RedemptionError
  identity_mismatch : RedemptionError
  cooldown_active : ℕ → RedemptionError
  expired_pair : RedemptionError
  retry_without_inflight : RedemptionError
  no_usage : RedemptionError
  no_list : RedemptionError
  not_exhausted : RedemptionError
  no_eligible_credit : RedemptionError
  pair_identity_mismatch : RedemptionError

pub record Input : Type 0 where
  pub account_key : String
  pub expected_chatgpt_account_id : String
  pub retry : Bool

-- What the redemption gets from outside: the account that the target resolves to (none where that
-- fails), the usage and the credits, and the times of its steps. `repairing`, `claiming` and
-- `answering` are what other processes write before its locked writes; `sending` is what they write
-- between its last read or write of the states and its send, and `answering` what they write then.
pub record Outside : Type 0 where
  pub target : Option (Option String)
  pub usage : Option QuotaSnapshot
  pub credits : ListReply
  pub has_active_rate_limit_mark : Bool
  pub request : String
  pub inspected_at : ℕ
  pub repaired_at : ℕ
  pub judged_at : ℕ
  pub claimed_at : ℕ
  pub answered_at : ℕ
  pub repairing : ResetStates → ResetStates
  pub claiming : ResetStates → ResetStates
  pub sending : ResetStates → ResetStates
  pub answering : ResetStates → ResetStates
  pub reply : ConsumeReply
  pub write_fails : Bool

-- What the redemption comes to before it sends. `sends` is with the state that it first found.
pub data Prepared : Type 0 where
  stops : RedemptionError → Prepared
  ambiguous_local : Option ResetAccountState → Prepared
  sends : Option ResetAccountState → ResetClaim → Prepared

-- `assertPairBelongsTo`, and then the send.
abbrev pub send_claim : Option String → Option ResetAccountState → ResetClaim → Prepared
send_claim identity before claimed =
    if is_of_other_account claimed.in_flight identity
    then stops pair_identity_mismatch
    else sends before claimed

-- By what the locked write of a new attempt decides.
abbrev pub claimed_as : Option String → Option ResetAccountState → ResetDecision → Prepared
claimed_as identity before (corrupt found) = ambiguous_local found
claimed_as identity before (cooldown found until) = stops (cooldown_active until)
claimed_as identity before (expired_unreconciled found named) = stops expired_pair
claimed_as identity before (fresh found) = stops no_eligible_credit
claimed_as identity before (claim found claimed) = send_claim identity before claimed

abbrev pub judged :
    Outside
    → Input
    → Option String
    → ResetStates
    → Option ResetAccountState
    → Option QuotaSnapshot
    → Option (List ResetCredit)
    → ResetStates × Prepared
judged outside input identity states before none credits = (states, stops no_usage)
judged outside input identity states before (some quota) none = (states, stops no_list)
judged outside input identity states before (some quota) (some credits) =
    if not (reset_precondition quota outside.has_active_rate_limit_mark outside.judged_at)
    then (states, stops not_exhausted)
    else if not (is_some (select_credit_to_spend credits))
    then (states, stops no_eligible_credit)
    else let claimed =
        claim_reset_attempt (outside.claiming states) input.account_key credits identity
          outside.claimed_at outside.request in
      (claimed.0, claimed_as identity before claimed.1)

-- A new attempt; a retry needs a saved pair.
abbrev pub new_attempt :
    Outside
    → Input
    → Option String
    → ResetStates
    → Option ResetAccountState
    → ResetStates × Prepared
new_attempt outside input identity states before =
    if input.retry
    then (states, stops retry_without_inflight)
    else judged outside input identity states before outside.usage
        (list_reset_credits outside.credits)

-- By what the saved state is found to be.
abbrev pub decided :
    Outside → Input → Option String → ResetStates → ResetDecision → ResetStates × Prepared
decided outside input identity states (corrupt before) = (states, ambiguous_local before)
decided outside input identity states (cooldown before until) =
    (states, stops (cooldown_active until))
decided outside input identity states (claim before claimed) =
    (states, send_claim identity before claimed)
decided outside input identity states (expired_unreconciled before claimed) =
    if input.retry || not (may_replace_expired_pair claimed.in_flight identity)
    then (states, if input.retry then send_claim identity before claimed else stops expired_pair)
    else new_attempt outside input identity states before
decided outside input identity states (fresh before) =
    new_attempt outside input identity states before

abbrev pub inspected :
    Outside → Input → Option String → ResetStates → ResetDecision → ResetStates × Prepared
inspected outside input identity states (corrupt before) =
    let repaired =
      resolve_corrupt_reset_attempt (outside.repairing states) input.account_key
        outside.repaired_at in
    decided outside input identity repaired.0 repaired.1
inspected outside input identity states (cooldown before until) =
    decided outside input identity states (cooldown before until)
inspected outside input identity states (claim before claimed) =
    decided outside input identity states (claim before claimed)
inspected outside input identity states (expired_unreconciled before claimed) =
    decided outside input identity states (expired_unreconciled before claimed)
inspected outside input identity states (fresh before) =
    decided outside input identity states (fresh before)

abbrev pub resolved_target :
    Outside → Input → ResetStates → Option (Option String) → ResetStates × Prepared
resolved_target outside input states none = (states, stops no_target)
resolved_target outside input states (some identity) =
    if not (identity == some input.expected_chatgpt_account_id)
    then (states, stops identity_mismatch)
    else inspected outside input identity states
        (inspect_reset_attempt states input.account_key outside.inspected_at)

-- `runResetCreditRedemption` up to its send, with the states as it last read or wrote them.
unfoldable pub prepare_redemption : Outside → Input → ResetStates → ResetStates × Prepared
unfolding reset_precondition list_reset_credits select_credit_to_spend claim_reset_attempt
    inspect_reset_attempt resolve_corrupt_reset_attempt is_of_other_account
prepare_redemption outside input states =
    if not (is_safe_reset_account_key input.account_key)
    then (states, stops invalid_account_key)
    else resolved_target outside input states outside.target

pub record Redeemed : Type 0 where
  pub claimed : ResetClaim
  pub before : Option ResetAccountState
  pub outcome : ResetConsumeOutcome
  pub refused : Bool
  pub finalize_state_write_failed : Bool

pub data RedemptionResult : Type 0 where
  stopped : RedemptionError → RedemptionResult
  nothing_sent : Option ResetAccountState → RedemptionResult
  redeemed : Redeemed → RedemptionResult

abbrev has_refusal : Option SavedResetPair → Bool
has_refusal none = false
has_refusal (some saved) = is_some saved.rejected_status

-- What others wrote before the send does not change what is sent. The answer is saved, unless that write fails; then nothing is written.
abbrev pub answered :
    Outside
    → Input
    → ResetStates
    → Option ResetAccountState
    → ResetClaim
    → ResetConsumeOutcome
    → ResetStates × RedemptionResult
answered outside input states before claimed outcome =
    let found = outside.answering (outside.sending states) in
    let finalized =
      finalize_reset_attempt found input.account_key claimed.in_flight outcome
        (some input.expected_chatgpt_account_id) outside.answered_at in
    (
      if outside.write_fails then found else finalized.0,
      redeemed (record {
        claimed = claimed;
        before = before;
        outcome = outcome;
        refused =
            is_some (refusal_status outcome.kind outcome.status)
            && (not outside.write_fails && has_refusal finalized.1);
        finalize_state_write_failed = outside.write_fails && is_terminal_consume_kind outcome.kind;
      }),
    )

abbrev pub finished : Outside → Input → ResetStates × Prepared → ResetStates × RedemptionResult
finished outside input (states, stops error) = (states, stopped error)
finished outside input (states, ambiguous_local before) = (states, nothing_sent before)
finished outside input (states, sends before claimed) =
    answered outside input states before claimed (consume_reset_credit outside.reply)

-- `runResetCreditRedemption`
unfoldable pub run_reset_credit_redemption :
    Outside → Input → ResetStates → ResetStates × RedemptionResult
unfolding prepare_redemption consume_reset_credit finalize_reset_attempt
run_reset_credit_redemption outside input states =
    finished outside input (prepare_redemption outside input states)
