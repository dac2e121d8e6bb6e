-- ===== src/Reset/History.antt =====
-- packages/core/src/reset-credits.ts: any number of processes that claim, settle and repair the
-- redemptions of one storage, in any order.
use openai_auth.Prelude.{
  ℕ, ◌≤◌, ◌≡◌, String, false, Option, none, some, List, [], ◌∷◌, arith, nat_eq, string_eq,
  option_eq,
}
use openai_auth.Reset.{
  SavedResetPair, ResetAccountState, ResetStates, ResetCredit, pair_of, is_of_other_account,
  is_corrupt,
}
use openai_auth.Reset.Writes.{
  claim_reset_attempt, finalize_reset_attempt, resolve_corrupt_reset_attempt, ResetConsumeOutcome,
  is_terminal_consume_kind, refusal_status,
}
use openai_auth.Reset.Answers.{answers_before, SameSend}

pub data Call : Type 0 where
  claims : String → List ResetCredit → Option String → ℕ → String → Call
  finalizes : String → SavedResetPair → ResetConsumeOutcome → Option String → ℕ → Call
  resolves : String → ℕ → Call

unfoldable pub step : Call → ResetStates → ResetStates
unfolding claim_reset_attempt finalize_reset_attempt resolve_corrupt_reset_attempt
step (claims key credits account now request) states =
    (claim_reset_attempt states key credits account now request).0
step (finalizes key completing outcome sent_as now) states =
    (finalize_reset_attempt states key completing outcome sent_as now).0
step (resolves key now) states = (resolve_corrupt_reset_attempt states key now).0

unfoldable pub run_calls : List Call → ResetStates → ResetStates
unfolding step
run_calls [] states = states
run_calls (call ∷ calls) states = run_calls calls (step call states)

-- Calls that do not settle a pair of an account: new spends go out under the account that it is
-- signed in as, and no answer to the pair is final or a refusal.
abbrev pub Unsettled : String → String → SavedResetPair → Call → Type 0
Unsettled key account pair (claims at credits claimed_as now request) =
    at ≡ key → claimed_as ≡ some account
Unsettled key account pair (finalizes at completing outcome sent_as now) =
    at ≡ key
    → SameSend completing pair
    → (is_terminal_consume_kind outcome.kind ≡ false)
      × (refusal_status outcome.kind outcome.status ≡ none)
      × (sent_as ≡ some account)
Unsettled key account pair (resolves at now) = Unit {0}

-- The pair is saved, not refused, for the account, and has at most `n` unknown answers.
pub record IsHeld (account : String) (pair : SavedResetPair) (n : ℕ)
    (state : Option ResetAccountState) : Type 0 where
  pub saved : SavedResetPair
  pub found : pair_of state ≡ some saved
  pub same : SameSend saved pair
  pub open_ended : saved.rejected_status ≡ none
  pub own : is_of_other_account saved (some account) ≡ false
  pub few : answers_before saved ≤ n

pub not_corrupt :
    (state : Option ResetAccountState) (pair : SavedResetPair)
    → pair_of state ≡ some pair
    → is_corrupt state ≡ false
not_corrupt state pair h = rw h (ground arith)
