-- ===== src/Reset/Writes.antt =====
-- packages/core/src/reset-credits.ts: the reads and the locked writes of the saved redemptions. A
-- write is atomic, and takes the states that it finds.
use openai_auth.Prelude.{
  ℕ, ◌+◌, String, Bool, true, false, ◌&&◌, not, Option, none, some, List, if◌then◌else◌, ◌==◌,
  nat_eq, string_eq, option_eq, is_some, or_else,
}
use openai_auth.Prelude.JsMap.{get, set}
use openai_auth.Reset.{
  SavedResetPair, to_raw, LastOutcome, ResetAccountState, no_state, ResetStates,
  is_safe_reset_account_key, reset_cooldown_ms, ResetCredit, select_credit_to_spend, listed,
  ResetDecision, fresh, claim, expired_unreconciled, cooldown, corrupt, pair_of, is_corrupt,
  cooling_until, is_younger_than_in_flight_ttl, may_replace_expired_pair, claim_of,
  is_definite_refusal,
}

abbrev pub inspect_pair : Option ResetAccountState → Option SavedResetPair → ℕ → ResetDecision
inspect_pair state none now = fresh state
inspect_pair state (some pair) now =
    if is_younger_than_in_flight_ttl pair now
    then claim state (claim_of pair)
    else expired_unreconciled state (claim_of pair)

abbrev pub inspect_live :
    Option ResetAccountState → Option ℕ → Option SavedResetPair → ℕ → ResetDecision
inspect_live state (some until) pair now = cooldown state until
inspect_live state none pair now = inspect_pair state pair now

unfoldable pub inspect_reset_state : Option ResetAccountState → ℕ → ResetDecision
unfolding pair_of cooling_until
inspect_reset_state state now =
    if is_corrupt state
    then corrupt state
    else inspect_live state (cooling_until state now) (pair_of state) now

-- `get` under a key that the storage may hold.
abbrev pub state_for_account : ResetStates → String → Option ResetAccountState
state_for_account states key = if is_safe_reset_account_key key then get key states else none

unfoldable pub inspect_reset_attempt : ResetStates → String → ℕ → ResetDecision
unfolding inspect_reset_state get
inspect_reset_attempt states key now =
    if is_safe_reset_account_key key
    then inspect_reset_state (state_for_account states key) now
    else fresh none

abbrev earlier_outcome : Option LastOutcome → Option (String × ℕ)
earlier_outcome none = none
earlier_outcome (some outcome) = some (outcome.code, outcome.at)

-- What `resolveCorruptState` makes of a state.
abbrev pub resolved_corrupt : Option ResetAccountState → ℕ → ResetAccountState
resolved_corrupt state now =
    let found = or_else state no_state in
    record found {
      in_flight = none;
      last_outcome = some (record {
        code = "ambiguous_local";
        at = now;
        previous_outcome = earlier_outcome found.last_outcome;
      });
    }

-- A write of an account's state, or none.
abbrev pub write_state : String → Option ResetAccountState → ResetStates → ResetStates
write_state key none states = states
write_state key (some state) states = set key state states

-- `resolveCorruptResetAttempt`
unfoldable pub resolve_corrupt_reset_attempt :
    ResetStates → String → ℕ → ResetStates × ResetDecision
unfolding inspect_reset_state get set
resolve_corrupt_reset_attempt states key now =
    let state = state_for_account states key in
    (
      if is_corrupt state && is_safe_reset_account_key key
          then set key (resolved_corrupt state now) states
          else states,
      inspect_reset_state state now,
    )

-- A new pair for the credit, if there is one.
abbrev pub claim_credit :
    Option ResetAccountState
    → ℕ
    → String
    → Option String
    → Option ResetCredit
    → Option ResetAccountState × ResetDecision
claim_credit state now request account none = (none, fresh state)
claim_credit state now request account (some credit) =
    let pair : SavedResetPair = record {
      redeem_request_id = request;
      credit_id = credit.id;
      started_at = now;
      chatgpt_account_id = account;
      rejected_status = none;
      unknown_answers = none;
    } in
    (
      some (record (or_else state no_state) { in_flight = some (to_raw pair) }),
      claim state (record { in_flight = pair; selected_credit = listed credit }),
    )

abbrev pub claim_live :
    Option ResetAccountState
    → Option ℕ
    → Option SavedResetPair
    → ℕ
    → String
    → Option String
    → Option ResetCredit
    → Option ResetAccountState × ResetDecision
claim_live state (some until) pair now request account credit = (none, cooldown state until)
claim_live state none none now request account credit =
    claim_credit state now request account credit
claim_live state none (some pair) now request account credit =
    if is_younger_than_in_flight_ttl pair now
    then (none, claim state (claim_of pair))
    else if not (may_replace_expired_pair pair account)
    then (none, expired_unreconciled state (claim_of pair))
    else claim_credit state now request account credit

-- The locked write of `claimResetAttempt` on one account's state.
unfoldable pub claim_state :
    Option ResetAccountState
    → ℕ
    → String
    → List ResetCredit
    → Option String
    → Option ResetAccountState × ResetDecision
unfolding pair_of cooling_until select_credit_to_spend
claim_state state now request credits account =
    if is_corrupt state
    then (some (resolved_corrupt state now), corrupt state)
    else claim_live state (cooling_until state now) (pair_of state) now request account
        (select_credit_to_spend credits)

-- `request` is what `randomUUID` gives.
unfoldable pub claim_reset_attempt :
    ResetStates
    → String
    → List ResetCredit
    → Option String
    → ℕ
    → String
    → ResetStates × ResetDecision
unfolding claim_state get set
claim_reset_attempt states key credits account now request =
    let claimed = claim_state (get key states) now request credits account in
    if is_safe_reset_account_key key
    then (write_state key claimed.0 states, claimed.1)
    else (states, fresh none)

pub data ResetConsumeKind : Type 0 where
  reset : ResetConsumeKind
  already_redeemed : ResetConsumeKind
  nothing_to_reset : ResetConsumeKind
  no_credit : ResetConsumeKind
  http_error : ResetConsumeKind
  ambiguous : ResetConsumeKind

pub record ResetConsumeOutcome : Type 0 where
  pub kind : ResetConsumeKind
  pub status : Option ℕ

abbrev pub is_terminal_consume_kind : ResetConsumeKind → Bool
is_terminal_consume_kind http_error = false
is_terminal_consume_kind ambiguous = false
is_terminal_consume_kind reset = true
is_terminal_consume_kind already_redeemed = true
is_terminal_consume_kind nothing_to_reset = true
is_terminal_consume_kind no_credit = true

abbrev code_of : ResetConsumeKind → String
code_of reset = "reset"
code_of already_redeemed = "already_redeemed"
code_of nothing_to_reset = "nothing_to_reset"
code_of no_credit = "no_credit"
code_of http_error = "http_error"
code_of ambiguous = "ambiguous"

-- The cooldown that a terminal answer leaves.
abbrev cooldown_after : ResetConsumeKind → ℕ → Option ℕ
cooldown_after reset now = some (now + reset_cooldown_ms)
cooldown_after already_redeemed now = some (now + reset_cooldown_ms)
cooldown_after nothing_to_reset now = none
cooldown_after no_credit now = none
cooldown_after http_error now = none
cooldown_after ambiguous now = none

abbrev pub refused_status : Option ℕ → Option ℕ
refused_status none = none
refused_status (some status) = if is_definite_refusal status then some status else none

-- The status of a definite refusal: `isRefusedConsume(outcome) ? outcome.status : undefined`.
abbrev pub refusal_status : ResetConsumeKind → Option ℕ → Option ℕ
refusal_status http_error status = refused_status status
refusal_status reset status = none
refusal_status already_redeemed status = none
refusal_status nothing_to_reset status = none
refusal_status no_credit status = none
refusal_status ambiguous status = none

abbrev pub same_pair : SavedResetPair → SavedResetPair → Bool
same_pair persisted completing =
    persisted.redeem_request_id == completing.redeem_request_id
    && persisted.credit_id == completing.credit_id

abbrev pub match_pair : SavedResetPair → Option SavedResetPair → Option SavedResetPair
match_pair completing none = none
match_pair completing (some persisted) =
    if same_pair persisted completing then some persisted else none

unfoldable pub saved_pair_matching :
    Option ResetAccountState → SavedResetPair → Option SavedResetPair
unfolding pair_of
saved_pair_matching state completing = match_pair completing (pair_of state)

-- A terminal answer to a pair that is still saved.
abbrev pub finish_pair :
    Option ResetAccountState
    → Option SavedResetPair
    → ResetConsumeKind
    → ℕ
    → Option ResetAccountState
finish_pair state none kind now = none
finish_pair none (some persisted) kind now = none
finish_pair (some state) (some persisted) kind now = some (record {
  in_flight = none;
  last_outcome = some (record { code = code_of kind; at = now; previous_outcome = none });
  cooldown_until = cooldown_after kind now;
})

abbrev pub bound_account : Option String → Option String → Option String
bound_account none sent_as = sent_as
bound_account (some account) sent_as = some account

-- The saved pair after an answer that settles nothing: `persisted` is the pair as it is saved now,
-- and `completing` as the send read it.
unfoldable pub answered_pair :
    SavedResetPair → SavedResetPair → Option ℕ → Option String → SavedResetPair
answered_pair persisted completing none sent_as = record persisted {
  chatgpt_account_id = bound_account persisted.chatgpt_account_id sent_as;
  rejected_status = none;
  unknown_answers = some (or_else persisted.unknown_answers 0 + 1);
}
answered_pair persisted completing (some refusal) sent_as = record persisted {
  chatgpt_account_id = bound_account persisted.chatgpt_account_id sent_as;
  rejected_status =
      if or_else persisted.unknown_answers 0 == or_else completing.unknown_answers 0
      then some refusal
      else persisted.rejected_status;
}

abbrev pub answer_pair :
    Option ResetAccountState
    → Option SavedResetPair
    → SavedResetPair
    → Option ℕ
    → Option String
    → Option ResetAccountState × Option SavedResetPair
answer_pair state none completing refusal sent_as = (none, none)
answer_pair none (some persisted) completing refusal sent_as = (none, none)
answer_pair (some state) (some persisted) completing refusal sent_as =
    let next = answered_pair persisted completing refusal sent_as in
    (some (record state { in_flight = some (to_raw next) }), some next)

-- A refusal that the send already knew of is not written, unless it binds the pair to an account.
abbrev pub is_repeated_refusal : SavedResetPair → Option ℕ → Option String → Bool
is_repeated_refusal completing refusal sent_as =
    not (not (is_some completing.chatgpt_account_id) && is_some sent_as)
    && (is_some refusal && refusal == completing.rejected_status)

-- `recordUnreconciledAnswer` on one account's state.
unfoldable pub record_answer :
    Option ResetAccountState
    → SavedResetPair
    → Option ℕ
    → Option String
    → Option ResetAccountState × Option SavedResetPair
unfolding saved_pair_matching answered_pair
record_answer state completing refusal sent_as =
    if is_repeated_refusal completing refusal sent_as
    then (none, saved_pair_matching state completing)
    else answer_pair state (saved_pair_matching state completing) completing refusal sent_as

-- `finalizeResetAttempt` on one account's state: the state that it writes, if it writes, and the
-- pair that it answers with.
unfoldable pub finalize_state :
    Option ResetAccountState
    → SavedResetPair
    → ResetConsumeOutcome
    → Option String
    → ℕ
    → Option ResetAccountState × Option SavedResetPair
unfolding record_answer saved_pair_matching
finalize_state state completing outcome sent_as now =
    if is_terminal_consume_kind outcome.kind
    then (finish_pair state (saved_pair_matching state completing) outcome.kind now, none)
    else record_answer state completing (refusal_status outcome.kind outcome.status) sent_as

unfoldable pub finalize_reset_attempt :
    ResetStates
    → String
    → SavedResetPair
    → ResetConsumeOutcome
    → Option String
    → ℕ
    → ResetStates × Option SavedResetPair
unfolding finalize_state get set
finalize_reset_attempt states key completing outcome sent_as now =
    let finalized = finalize_state (get key states) completing outcome sent_as now in
    if is_safe_reset_account_key key
    then (write_state key finalized.0 states, finalized.1)
    else (states, none)
