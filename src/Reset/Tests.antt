-- ===== src/Reset/Tests.antt =====
-- Runs of a reset credit's redemption, and its theorems at concrete states.
use openai_auth.Prelude.{
  ◌≡◌, refl, true, false, Option, none, some, List, [], ◌∷◌, arith, All, finite, ◌==◌, string_eq,
  subst,
}
use openai_auth.Prelude.JsMap.{get}
use mathlib.Core.Option.{some-injective}
use openai_auth.Reset.{
  absent, text, SavedResetPair, to_raw, valid_in_flight, ResetAccountState, no_state, ResetStates,
  ResetCredit, select_credit_to_spend, ResetClaim, listed, pair_of, is_of_other_account,
  is_safe_reset_account_key,
}
use openai_auth.Reset.Writes.{claim_reset_attempt, ambiguous}
use openai_auth.Reset.Answers.{Answer, answer_state, answer_states, SameSend}
use openai_auth.Reset.Late.{late_refusal}
use openai_auth.Reset.Order.{answers_commute}
use openai_auth.Reset.History.{Call, claims, finalizes, resolves, run_calls, IsHeld}
use openai_auth.Reset.Held.{SpendsOnly}
use openai_auth.Reset.Spends.{one_redemption}
use openai_auth.Reset.Redemption.{
  WireCredit, lists, Outside, Input, sends, prepare_redemption, list_reset_credits, no_reply,
}
use openai_auth.Reset.Sends.{sends_saved}

abbrev pair : SavedResetPair
pair = record {
  redeem_request_id = "r1";
  credit_id = "c1";
  started_at = 1000;
  chatgpt_account_id = some "acc";
  rejected_status = none;
  unknown_answers = none;
}

-- What is stored for the pair is read back as it.
read_back : valid_in_flight (to_raw pair) ≡ some pair
unfolding valid_in_flight
read_back = refl

-- A damaged account makes the pair unreadable.
unreadable : valid_in_flight (record (to_raw pair) { chatgpt_account_id = text "" }) ≡ none
unfolding valid_in_flight
unreadable = refl

abbrev saved : Option ResetAccountState
saved = some (record no_state { in_flight = some (to_raw pair) })

saved-pair : pair_of saved ≡ some pair
unfolding pair_of
saved-pair = refl

abbrev no_answer : Answer
no_answer = record { completing = pair; refusal = none; sent_as = some "acc" }

abbrev refusal : Answer
refusal = record { completing = pair; refusal = some 400; sent_as = some "acc" }

late_refusal_example :
    (before after : SavedResetPair) × (pair_of (answer_states (no_answer ∷ []) saved) ≡ some before)
    × (pair_of (answer_state refusal (answer_states (no_answer ∷ []) saved)) ≡ some after)
    × SameSend after pair
    × (after.rejected_status ≡ before.rejected_status)
late_refusal_example =
    late_refusal saved pair (no_answer ∷ []) 400 (some "acc") saved-pair
      (record { sent_named = refl; refused = tt }, tt) (omega arith) (omega arith) refl refl

answers_commute_example :
    (after : SavedResetPair) × (pair_of (answer_states (refusal ∷ no_answer ∷ []) saved)
      ≡ some after)
    × (pair_of (answer_states (no_answer ∷ refusal ∷ []) saved) ≡ some after)
    × (after.rejected_status ≡ none)
answers_commute_example =
    answers_commute saved pair 400 (some "acc") (some "acc") saved-pair (omega arith) refl refl refl
      refl

abbrev states : ResetStates
states = ("work", record no_state { in_flight = some (to_raw pair) }) ∷ []

held : IsHeld "acc" pair 0 (get "work" states)
unfolding get pair_of is_of_other_account
held = record {
  saved = pair;
  found = refl;
  same = record { same_request = refl; same_credit = refl };
  open_ended = refl;
  own = refl;
  few = omega arith;
}

abbrev history : List Call
history =
    claims "work" [] (some "acc") 900000 "r2"
    ∷ finalizes "work" pair (record { kind = ambiguous; status = none }) (some "acc") 900001
    ∷ resolves "work" 900002
    ∷ []

one_redemption_example :
    ((claim_reset_attempt (run_calls history states) "work" [] (some "acc") 990000 "r3").0
      ≡ run_calls history states)
    × SpendsOnly pair
        (claim_reset_attempt (run_calls history states) "work" [] (some "acc") 990000 "r3").1
one_redemption_example =
    one_redemption "work" "acc" pair refl history states 0 990000 [] "r3" held (omega arith)
      ((λ _. refl), ((λ _ _. (refl, refl, refl)), (tt, tt))) refl

abbrev late_credit : ResetCredit
late_credit = record {
  id = "c2";
  status = "available";
  granted_at = none;
  expires_at = 9000;
  reset_type = some "codex_rate_limits";
  is_supported_by_plan = true;
}

abbrev early_credit : ResetCredit
early_credit = record late_credit { id = "c1"; expires_at = 8000 }

picks_early : select_credit_to_spend (late_credit ∷ early_credit ∷ []) ≡ some early_credit
unfolding select_credit_to_spend
picks_early = refl

abbrev wire : WireCredit
wire = record {
  id = text "c1";
  status = text "available";
  granted_at = absent;
  expires_at = some (finite 8000);
  reset_type = text "codex_rate_limits";
  is_supported_by_plan = some true;
}

-- A spend that gets no answer.
abbrev outside : Outside
outside = record {
  target = some (some "acc");
  usage = some (record { primary = none; secondary = none });
  credits = lists (some (wire ∷ []));
  has_active_rate_limit_mark = true;
  request = "r1";
  inspected_at = 1000;
  repaired_at = 1000;
  judged_at = 1000;
  claimed_at = 1000;
  answered_at = 2000;
  repairing = λ s. s;
  claiming = λ s. s;
  sending = λ (s : ResetStates). s;
  answering = λ s. s;
  reply = no_reply;
  write_fails = false;
}

abbrev input : Input
input = record { account_key = "work"; expected_chatgpt_account_id = "acc"; retry = false }

abbrev sent : ResetClaim
sent = record { in_flight = pair; selected_credit = listed early_credit }

prepares : (prepare_redemption outside input []).1 ≡ sends none sent
unfolding prepare_redemption
prepares = refl

listed-named :
    (credits : List ResetCredit)
    → list_reset_credits outside.credits ≡ some credits
    → All (λ (c : ResetCredit). (c.id == "") ≡ false) credits
unfolding list_reset_credits
listed-named credits h =
    subst (All (λ (c : ResetCredit). (c.id == "") ≡ false)) (some-injective _ _ h) (refl, tt)

sends_saved_example :
    (pair_of (get "work" (prepare_redemption outside input []).0) ≡ some pair)
    × (is_of_other_account pair (some "acc") ≡ false)
    × (outside.target ≡ some (some "acc"))
    × (is_safe_reset_account_key "work" ≡ true)
sends_saved_example = sends_saved outside input [] none sent refl refl listed-named prepares
