-- ===== src/Reset/Order.antt =====
-- packages/core/src/reset-credits.ts: the order in which two answers to one pair are saved.
use openai_auth.Prelude.{
  ℕ, ◌+◌, ◌≤◌, ◌<◌, ◌≡◌, refl, sym, ◌∙◌, ap, String, true, false, ◌&&◌, Option, none, some, [], ◌∷◌,
  arith, if◌then◌else◌, ◌==◌, ==_refl, nat_eq, string_eq, option_eq, if_intro,
}
use openai_auth.Reset.{
  SavedResetPair, max_safe_integer, ResetAccountState, pair_of, is_definite_refusal,
}
use openai_auth.Reset.Saved.{Named}
use openai_auth.Reset.Writes.{same_pair, answered_pair, is_repeated_refusal, bound_account}
use openai_auth.Reset.Answers.{
  Answer, IsAnswer, answer_state, answer_states, answers_before, pair_after, pair_of-answer_state,
  SameSend, pair_after-count,
}

bound_account-again :
    (account s t : Option String)
    → bound_account account s ≡ bound_account account t
    → bound_account (bound_account account s) t ≡ bound_account account t
bound_account-again none none t h = refl
bound_account-again none (some a) none h = absurd (cc)
bound_account-again none (some a) (some b) h = h
bound_account-again (some account) s t h = refl

not_repeated :
    (pair : SavedResetPair) (sent_as : Option String)
    → is_repeated_refusal pair none sent_as ≡ false
not_repeated pair sent_as = ground arith

same_pair_self : (p q : SavedResetPair) → SameSend p q → same_pair p q ≡ true
same_pair_self p q s =
    rw (s.same_request, s.same_credit, ==_refl q.redeem_request_id, ==_refl q.credit_id) refl

pair_after-unknown :
    (persisted completing : SavedResetPair) (sent_as : Option String)
    → SameSend persisted completing
    → pair_after (record { completing = completing; refusal = none; sent_as = sent_as }) persisted
      ≡ answered_pair persisted completing none sent_as
unfolding pair_after
pair_after-unknown persisted completing sent_as s =
    rw (not_repeated completing sent_as, same_pair_self persisted completing s) refl

pair_after-refused-unknown :
    (pair : SavedResetPair) (status : ℕ) (s t : Option String)
    → bound_account pair.chatgpt_account_id s ≡ bound_account pair.chatgpt_account_id t
    → answered_pair
        (pair_after (record { completing = pair; refusal = some status; sent_as = s }) pair)
        pair
        none
        t
      ≡ answered_pair pair pair none t
unfolding pair_after answered_pair
pair_after-refused-unknown pair status s t h =
    if_intro (λ (p : SavedResetPair). answered_pair p pair none t ≡ answered_pair pair pair none t)
      (is_repeated_refusal pair (some status) s) pair _ (λ _. refl)
      (λ _.
        if_intro
          (λ (p : SavedResetPair). answered_pair p pair none t ≡ answered_pair pair pair none t)
          (same_pair pair pair) _ pair
          (λ _. rw (bound_account-again pair.chatgpt_account_id s t h) refl) (λ _. refl))

pair_after-unknown-refused :
    (pair : SavedResetPair) (status : ℕ) (s t : Option String)
    → bound_account pair.chatgpt_account_id s ≡ bound_account pair.chatgpt_account_id t
    → pair_after
        (record { completing = pair; refusal = some status; sent_as = s })
        (answered_pair pair pair none t)
      ≡ answered_pair pair pair none t
unfolding pair_after answered_pair
pair_after-unknown-refused pair status s t h =
    if_intro (λ (p : SavedResetPair). p ≡ answered_pair pair pair none t)
      (is_repeated_refusal pair (some status) s) (answered_pair pair pair none t) _ (λ _. refl)
      (λ _.
        if_intro (λ (p : SavedResetPair). p ≡ answered_pair pair pair none t) (same_pair pair pair)
          _ (answered_pair pair pair none t)
          (λ _.
            let differ : (answers_before pair + 1 == answers_before pair) ≡ false = ground arith in
            let back : bound_account (bound_account pair.chatgpt_account_id t) s
                ≡ bound_account pair.chatgpt_account_id t =
              bound_account-again pair.chatgpt_account_id t s (sym h) ∙ h in
            rw (differ, back) refl)
          (λ _. refl))

-- Two sends read the same saved pair. One gets a definite refusal, and the other an answer that leaves
-- the outcome unknown. Whichever answer is saved first, the saved pair is the same, and not refused; if
-- both bind the pair to one account, as they do where it names an account already, or where both are
-- sent as the same; if the accounts that they are sent as, where there are any, have a character; and if
-- the pair counts at least two unknown answers fewer than the largest safe integer.
pub answers_commute :
    (state : Option ResetAccountState) (pair : SavedResetPair) (status : ℕ)
    (refused_as unknown_as : Option String)
    → pair_of state ≡ some pair
    → answers_before pair + 1 < max_safe_integer
    → is_definite_refusal status ≡ true
    → Named refused_as
    → Named unknown_as
    → bound_account pair.chatgpt_account_id refused_as
      ≡ bound_account pair.chatgpt_account_id unknown_as
    → (after : SavedResetPair) × (pair_of (
          answer_states
            (record { completing = pair; refusal = some status; sent_as = refused_as }
              ∷ record { completing = pair; refusal = none; sent_as = unknown_as }
              ∷ [])
            state)
        ≡ some after)
      × (pair_of (
            answer_states
              (record { completing = pair; refusal = none; sent_as = unknown_as }
                ∷ record { completing = pair; refusal = some status; sent_as = refused_as }
                ∷ [])
              state)
          ≡ some after)
      × (after.rejected_status ≡ none)
unfolding answer_states
answers_commute state pair status refused_as unknown_as h k refuses refused_named unknown_named
      one =
    (
      answered_pair pair pair none unknown_as,
      pair_of-answer_state unknown_answer (answer_state refused_answer state)
            (pair_after refused_answer pair) unknown_ok
            (pair_of-answer_state refused_answer state pair refused_ok h (omega (arith, k)))
            (omega (arith, k, (pair_after-count refused_answer pair).0, few))
          ∙ ap some (
              pair_after-unknown (pair_after refused_answer pair) pair unknown_as
                (pair_after-count refused_answer pair).1
              ∙ pair_after-refused-unknown pair status refused_as unknown_as one),
      pair_of-answer_state refused_answer (answer_state unknown_answer state)
            (pair_after unknown_answer pair) refused_ok
            (pair_of-answer_state unknown_answer state pair unknown_ok h (omega (arith, k)))
            (omega (arith, k, (pair_after-count unknown_answer pair).0, once))
          ∙ ap some (
              ap (pair_after refused_answer) (
                pair_after-unknown pair pair unknown_as
                  (record { same_request = refl; same_credit = refl }))
              ∙ pair_after-unknown-refused pair status refused_as unknown_as one),
      unfold answered_pair in refl,
    )
  where
    refused_answer : Answer
    refused_answer = record { completing = pair; refusal = some status; sent_as = refused_as }

    unknown_answer : Answer
    unknown_answer = record { completing = pair; refusal = none; sent_as = unknown_as }

    refused_ok : IsAnswer refused_answer
    refused_ok = record { sent_named = refused_named; refused = refuses }

    unknown_ok : IsAnswer unknown_answer
    unknown_ok = record { sent_named = unknown_named; refused = tt }

    few : (if same_pair pair pair && false then 1 else 0) ≤ 0
    few = ground arith

    once : (if same_pair pair pair && true then 1 else 0) ≤ 1
    once = ground arith
