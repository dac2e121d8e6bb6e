-- ===== src/Reset/Late.antt =====
-- packages/core/src/reset-credits.ts: a refusal that arrives after an unknown answer to the
-- same pair.
use openai_auth.Prelude.{
  All, ℕ, ◌+◌, ◌≤◌, ◌<◌, ◌≡◌, refl, String, true, false, Option, some, List, length, arith, ◌==◌,
  nat_eq, string_eq, option_eq, if_intro,
}
use openai_auth.Reset.{
  SavedResetPair, max_safe_integer, ResetAccountState, pair_of, is_definite_refusal,
}
use openai_auth.Reset.Saved.{Named}
use openai_auth.Reset.Writes.{same_pair, is_repeated_refusal}
use openai_auth.Reset.Answers.{
  Answer, IsAnswer, answer_state, answer_states, answers_before, pair_after, pair_of-answer_state,
  SameSend, SameSend-trans, unknown_count, unknown_count-le, Grown, pair_of-answer_states,
  pair_after-count,
}

-- A refusal leaves the status of a pair that has more unknown answers than its send read.
late_pair :
    (pair before : SavedResetPair) (status : ℕ) (sent_as : Option String)
    → answers_before pair < answers_before before
    → (pair_after
        (record { completing = pair; refusal = some status; sent_as = sent_as })
        before).rejected_status
      ≡ before.rejected_status
unfolding pair_after
late_pair pair before status sent_as more =
    if_intro (λ (p : SavedResetPair). p.rejected_status ≡ before.rejected_status)
      (is_repeated_refusal pair (some status) sent_as) before _ (λ _. refl)
      (λ _.
        if_intro (λ (p : SavedResetPair). p.rejected_status ≡ before.rejected_status)
          (same_pair before pair) _ before
          (λ _.
            let differ : (answers_before before == answers_before pair) ≡ false =
              ground (arith, more) in
            rw differ refl)
          (λ _. refl))

-- A refusal of a send that read the pair before an answer was saved that leaves the pair's outcome
-- unknown does not change whether the saved pair counts as refused: it stays saved, with the status
-- that it had.
pub late_refusal :
    (state : Option ResetAccountState) (pair : SavedResetPair) (answers : List Answer) (status : ℕ)
    (sent_as : Option String)
    → pair_of state ≡ some pair
    → All IsAnswer answers
    → answers_before pair + length answers < max_safe_integer
    → 0 < unknown_count pair answers
    → is_definite_refusal status ≡ true
    → Named sent_as
    → (before after : SavedResetPair) × (pair_of (answer_states answers state) ≡ some before)
      × (pair_of (
            answer_state
              (record { completing = pair; refusal = some status; sent_as = sent_as })
              (answer_states answers state))
          ≡ some after)
      × SameSend after pair
      × (after.rejected_status ≡ before.rejected_status)
late_refusal state pair answers status sent_as h ok k some_unknown refuses named =
    late (pair_of-answer_states answers state pair ok h (omega (arith, k)))
  where
    answer : Answer
    answer = record { completing = pair; refusal = some status; sent_as = sent_as }

    found : Option ResetAccountState
    found = answer_states answers state

    few : unknown_count pair answers ≤ length answers
    few = unknown_count-le pair answers

    late :
        Grown pair answers found
        → (before after : SavedResetPair) × (pair_of found ≡ some before)
          × (pair_of (answer_state answer found) ≡ some after)
          × SameSend after pair
          × (after.rejected_status ≡ before.rejected_status)
    late (before, saved, alike, count) = (
      before,
      pair_after answer before,
      saved,
      pair_of-answer_state answer found before (record { sent_named = named; refused = refuses })
          saved (omega (arith, count, k, few)),
      SameSend-trans (pair_after-count answer before).1 alike,
      late_pair pair before status sent_as (omega (arith, count, some_unknown)),
    )
