-- ===== src/Reset/Answers.antt =====
-- packages/core/src/reset-credits.ts: answers to sends of one saved pair that ran side by side.
use openai_auth.Prelude.{
  All, ℕ, ◌+◌, ◌≤◌, ◌<◌, ◌≡◌, refl, ◌∙◌, inl, inr, String, Bool, true, false, ◌&&◌, Option, none,
  some, List, [], ◌∷◌, length, arith, if◌then◌else◌, ◌==◌, nat_eq, string_eq, option_eq, Bool-cases,
  if_intro, or_else,
}
use openai_auth.Reset.{SavedResetPair, max_safe_integer, ResetAccountState, pair_of}
use openai_auth.Reset.Saved.{IsReadable, Named, Refuses, pair_of-to_raw, pair_of-IsReadable}
use openai_auth.Reset.Writes.{
  same_pair, answered_pair, is_repeated_refusal, record_answer, bound_account,
}

-- An answer that settles nothing: the pair as its send read it, the status of a definite refusal,
-- and the account that the send went out under.
pub record Answer : Type 0 where
  pub completing : SavedResetPair
  pub refusal : Option ℕ
  pub sent_as : Option String

abbrev pub written {κ} :
    {B : Type κ}
    → Option ResetAccountState
    → Option ResetAccountState × B
    → Option ResetAccountState
written state (none, b) = state
written state (some next, b) = some next

none_has : (pair : SavedResetPair) → pair_of none ≡ some pair → ⊥
unfolding pair_of
none_has pair h = absurd (cc)

-- What an answer leaves of an account's state.
unfoldable pub answer_state : Answer → Option ResetAccountState → Option ResetAccountState
unfolding record_answer
answer_state answer state =
    written state (record_answer state answer.completing answer.refusal answer.sent_as)

unfoldable pub answer_states : List Answer → Option ResetAccountState → Option ResetAccountState
unfolding answer_state
answer_states [] state = state
answer_states (answer ∷ answers) state = answer_states answers (answer_state answer state)

abbrev pub answers_before : SavedResetPair → ℕ
answers_before pair = or_else pair.unknown_answers 0

-- What holds of an answer that can occur.
pub record IsAnswer (answer : Answer) : Type 0 where
  pub sent_named : Named answer.sent_as
  pub refused : Refuses answer.refusal

-- The pair that is saved after an answer, where `persisted` is saved before it.
unfoldable pub pair_after : Answer → SavedResetPair → SavedResetPair
unfolding answered_pair
pair_after answer persisted =
    if is_repeated_refusal answer.completing answer.refusal answer.sent_as
    then persisted
    else if same_pair persisted answer.completing
    then answered_pair persisted answer.completing answer.refusal answer.sent_as
    else persisted

bound_account-Named :
    (account sent_as : Option String)
    → Named account
    → Named sent_as
    → Named (bound_account account sent_as)
bound_account-Named none sent_as h k = k
bound_account-Named (some account) sent_as h k = h

answered_pair-IsReadable :
    (persisted completing : SavedResetPair) (refusal : Option ℕ) (sent_as : Option String)
    → IsReadable persisted
    → Refuses refusal
    → Named sent_as
    → answers_before persisted < max_safe_integer
    → IsReadable (answered_pair persisted completing refusal sent_as)
unfolding answered_pair
answered_pair-IsReadable p c none a w r n k = record {
  request_named = w.request_named;
  credit_named = w.credit_named;
  account_named = bound_account-Named p.chatgpt_account_id a w.account_named n;
  refused = tt;
  counted = omega (arith, k);
}
answered_pair-IsReadable p c (some s) a w r n k = record {
  request_named = w.request_named;
  credit_named = w.credit_named;
  account_named = bound_account-Named p.chatgpt_account_id a w.account_named n;
  refused =
      if_intro Refuses (answers_before p == answers_before c) (some s) p.rejected_status (λ _. r)
        (λ _. w.refused);
  counted = w.counted;
}

-- An answer changes the saved pair as `pair_after` says, and nothing else of the state.
pub pair_of-answer_state :
    (answer : Answer) (state : Option ResetAccountState) (pair : SavedResetPair)
    → IsAnswer answer
    → pair_of state ≡ some pair
    → answers_before pair < max_safe_integer
    → pair_of (answer_state answer state) ≡ some (pair_after answer pair)
unfolding answer_state pair_after
pair_of-answer_state answer none pair ok h k = absurd (none_has pair h)
pair_of-answer_state answer (some state) pair ok h k =
    elim (Bool-cases (is_repeated_refusal answer.completing answer.refusal answer.sent_as)) [
      | inl known ↦ rw known h
      | inr told ↦ elim (Bool-cases (same_pair pair answer.completing)) [
        | inl same ↦
            rw (told, h, same)
              (pair_of-to_raw state
                (answered_pair pair answer.completing answer.refusal answer.sent_as)
                (answered_pair-IsReadable pair answer.completing answer.refusal answer.sent_as
                  (pair_of-IsReadable (some state) pair h) ok.refused ok.sent_named k))
        | inr another ↦ rw (told, h, another) h
      ]
    ]

abbrev pub unknown : Option ℕ → Bool
unknown none = true
unknown (some status) = false

-- How many of some answers are to sends of the pair and leave its outcome unknown.
abbrev pub unknown_count : SavedResetPair → List Answer → ℕ
unknown_count pair [] = 0
unknown_count pair (answer ∷ answers) =
    (if same_pair pair answer.completing && unknown answer.refusal then 1 else 0)
    + unknown_count pair answers

-- One pair as two sends may read it: the same request for the same credit.
pub record SameSend (pair other : SavedResetPair) : Type 0 where
  pub same_request : pair.redeem_request_id ≡ other.redeem_request_id
  pub same_credit : pair.credit_id ≡ other.credit_id

pub SameSend-trans : {a b c : SavedResetPair} → SameSend a b → SameSend b c → SameSend a c
SameSend-trans s t = record {
  same_request = s.same_request ∙ t.same_request;
  same_credit = s.same_credit ∙ t.same_credit;
}

pub unknown_count-le :
    (pair : SavedResetPair) (answers : List Answer) → unknown_count pair answers ≤ length answers
unknown_count-le pair [] = omega arith
unknown_count-le pair (answer ∷ answers) = ground (arith, unknown_count-le pair answers)

unknown_count-SameSend :
    (pair other : SavedResetPair) (answers : List Answer)
    → SameSend pair other
    → unknown_count pair answers ≡ unknown_count other answers
unknown_count-SameSend pair other [] s = refl
unknown_count-SameSend pair other (answer ∷ answers) s =
    rw (s.same_request, s.same_credit, unknown_count-SameSend pair other answers s) refl

answered_pair-count :
    (persisted completing : SavedResetPair) (refusal : Option ℕ) (sent_as : Option String)
    → (answers_before (answered_pair persisted completing refusal sent_as)
        ≡ (if unknown refusal then 1 else 0) + answers_before persisted)
      × SameSend (answered_pair persisted completing refusal sent_as) persisted
unfolding answered_pair
answered_pair-count p c none a = (omega arith, record { same_request = refl; same_credit = refl })
answered_pair-count p c (some s) a =
    (omega arith, record { same_request = refl; same_credit = refl })

repeated_known :
    (completing : SavedResetPair) (refusal : Option ℕ) (sent_as : Option String)
    → is_repeated_refusal completing refusal sent_as ≡ true
    → unknown refusal ≡ false
repeated_known c none a h = absurd (ground (arith, h))
repeated_known c (some s) a h = refl

pub pair_after-count :
    (answer : Answer) (pair : SavedResetPair)
    → (answers_before (pair_after answer pair)
        ≡ (if same_pair pair answer.completing && unknown answer.refusal then 1 else 0)
          + answers_before pair)
      × SameSend (pair_after answer pair) pair
unfolding pair_after
pair_after-count answer pair =
    elim (Bool-cases (is_repeated_refusal answer.completing answer.refusal answer.sent_as)) [
      | inl known ↦
          let told : unknown answer.refusal ≡ false =
            repeated_known answer.completing answer.refusal answer.sent_as known in
          rw known (ground (arith, told), record { same_request = refl; same_credit = refl })
      | inr fresh ↦ elim (Bool-cases (same_pair pair answer.completing)) [
        | inl same ↦
            rw (fresh, same)
              (answered_pair-count pair answer.completing answer.refusal answer.sent_as)
        | inr another ↦
            rw (fresh, another) (omega arith, record { same_request = refl; same_credit = refl })
      ]
    ]

-- The pair that is saved after some answers, of a state with `pair` before them.
abbrev pub Grown : SavedResetPair → List Answer → Option ResetAccountState → Type 0
Grown pair answers state =
    (after : SavedResetPair) × (pair_of state ≡ some after)
    × SameSend after pair
    × (answers_before after ≡ unknown_count pair answers + answers_before pair)

Grown-more :
    (answer : Answer) (answers : List Answer) (state : Option ResetAccountState)
    (pair next : SavedResetPair)
    → answers_before next
      ≡ (if same_pair pair answer.completing && unknown answer.refusal then 1 else 0)
        + answers_before pair
    → SameSend next pair
    → Grown next answers state
    → Grown pair (answer ∷ answers) state
Grown-more answer answers state pair next counted same (after, saved, alike, count) = (
  after,
  saved,
  SameSend-trans alike same,
  omega (arith, count, counted, unknown_count-SameSend next pair answers same),
)

-- What answers make of a pair that is saved: it stays saved, and its count grows by the answers
-- that leave it unknown.
pub pair_of-answer_states :
    (answers : List Answer) (state : Option ResetAccountState) (pair : SavedResetPair)
    → All IsAnswer answers
    → pair_of state ≡ some pair
    → answers_before pair + length answers ≤ max_safe_integer
    → Grown pair answers (answer_states answers state)
unfolding answer_states
pair_of-answer_states [] state pair ok h k =
    (pair, h, record { same_request = refl; same_credit = refl }, omega arith)
pair_of-answer_states (answer ∷ answers) state pair ok h k =
    let counted = pair_after-count answer pair in
    let one : (if same_pair pair answer.completing && unknown answer.refusal then 1 else 0) ≤ 1 =
      ground arith in
    Grown-more answer answers (answer_states answers (answer_state answer state)) pair
      (pair_after answer pair) counted.0 counted.1
      (pair_of-answer_states answers (answer_state answer state) (pair_after answer pair) ok.1
        (pair_of-answer_state answer state pair ok.0 h (omega (arith, k)))
        (omega (arith, k, counted.0, one)))
