-- ===== src/Reset/Held.antt =====
-- packages/core/src/reset-credits.ts: a saved pair whose outcome is unknown, and each write.
use openai_auth.Prelude.{
  ℕ, ◌+◌, ◌≤◌, ◌<◌, ◌≡◌, refl, inl, inr, String, Bool, true, false, ◌&&◌, Option, none, some, List,
  arith, if◌then◌else◌, ◌==◌, ==_refl, nat_eq, string_eq, option_eq, Option-cases, if_intro,
}
use openai_auth.Prelude.JsMap.{get, get-set, get-set_self}
use openai_auth.Reset.{
  SavedResetPair, max_safe_integer, ResetAccountState, ResetStates, ResetCredit, pair_of,
  ResetDecision, fresh, claim, expired_unreconciled, cooldown, corrupt, cooling_until, is_foreign,
  may_replace_expired_pair, is_younger_than_in_flight_ttl, is_of_other_account,
}
use openai_auth.Reset.Writes.{
  claim_state, ResetConsumeOutcome, is_terminal_consume_kind, refusal_status, same_pair,
  record_answer, finalize_state, bound_account, answered_pair, is_repeated_refusal, write_state,
}
use openai_auth.Reset.Answers.{
  Answer, written, answer_state, answers_before, pair_after, pair_of-answer_state, SameSend,
  SameSend-trans, pair_after-count,
}
use openai_auth.Reset.History.{IsHeld, not_corrupt}

-- A decision that names no other redemption than the pair.
abbrev pub SpendsOnly : SavedResetPair → ResetDecision → Type 0
SpendsOnly pair (fresh before) = ⊥
SpendsOnly pair (claim before named) = SameSend named.in_flight pair
SpendsOnly pair (expired_unreconciled before named) = SameSend named.in_flight pair
SpendsOnly pair (cooldown before until) = Unit {0}
SpendsOnly pair (corrupt before) = ⊥

-- A claim under the account writes nothing over a held pair.
pub claim_state-held :
    (state : Option ResetAccountState) (now : ℕ) (request : String) (credits : List ResetCredit)
    (account : String) (pair : SavedResetPair) (n : ℕ)
    → IsHeld account pair n state
    → ((claim_state state now request credits (some account)).0 ≡ none)
      × SpendsOnly pair (claim_state state now request credits (some account)).1
unfolding claim_state
claim_state-held state now request credits account pair n h =
    rw (not_corrupt state h.saved h.found, h.found)
      (elim (Option-cases (cooling_until state now)) [
        | inr (until, e) ↦ rw e (refl, tt)
        | inl e ↦ rw e (
            if_intro
              (λ (r : Option ResetAccountState × ResetDecision). (r.0 ≡ none) × SpendsOnly pair r.1)
              (is_younger_than_in_flight_ttl h.saved now) _ _ (λ _. (refl, h.same))
              (λ _. rw kept (refl, h.same)))
      ])
  where
    kept : may_replace_expired_pair h.saved (some account) ≡ false
    kept = rw (h.own, h.open_ended) refl

pub bound_own :
    (minted : Option String) (account : String)
    → is_foreign minted (some account) ≡ false
    → is_foreign (bound_account minted (some account)) (some account) ≡ false
bound_own none account h = rw (==_refl account) refl
bound_own (some minted) account h = h

-- An unknown answer to the pair leaves it held.
pub answer_state-held :
    (state : Option ResetAccountState) (completing : SavedResetPair) (account : String)
    (pair : SavedResetPair) (n : ℕ)
    → IsHeld account pair n state
    → n < max_safe_integer
    → (account == "") ≡ false
    → IsHeld account pair (n + 1) (
        answer_state
          (record { completing = completing; refusal = none; sent_as = some account })
          state)
unfolding pair_after answered_pair is_of_other_account
answer_state-held state completing account pair n h k named = record {
  saved = pair_after answer h.saved;
  found =
      pair_of-answer_state answer state h.saved (record { sent_named = named; refused = tt })
        h.found (omega (arith, h.few, k));
  same = SameSend-trans counted.1 h.same;
  open_ended =
      if_intro (λ (p : SavedResetPair). p.rejected_status ≡ none)
        (is_repeated_refusal completing none (some account)) h.saved _ (λ _. h.open_ended)
        (λ _.
          if_intro (λ (p : SavedResetPair). p.rejected_status ≡ none) (same_pair h.saved completing)
            _ h.saved (λ _. refl) (λ _. h.open_ended));
  own =
      if_intro (λ (p : SavedResetPair). is_foreign p.chatgpt_account_id (some account) ≡ false)
        (is_repeated_refusal completing none (some account)) h.saved _ (λ _. h.own)
        (λ _.
          if_intro (λ (p : SavedResetPair). is_foreign p.chatgpt_account_id (some account) ≡ false)
            (same_pair h.saved completing) _ h.saved
            (λ _. bound_own h.saved.chatgpt_account_id account h.own) (λ _. h.own));
  few = omega (arith, h.few, counted.0, once (same_pair h.saved completing));
}
  where
    answer : Answer
    answer = record { completing = completing; refusal = none; sent_as = some account }

    counted :
        (answers_before (pair_after answer h.saved)
          ≡ (if same_pair h.saved completing && true then 1 else 0) + answers_before h.saved)
        × SameSend (pair_after answer h.saved) h.saved
    counted = pair_after-count answer h.saved

    once : (b : Bool) → (if b && true then 1 else 0) ≤ 1
    once b = ground arith

pub IsHeld-more :
    {account : String} {pair : SavedResetPair} (n : ℕ) {state : Option ResetAccountState}
    → IsHeld account pair n state
    → IsHeld account pair (n + 1) state
IsHeld-more n h = record {
  saved = h.saved;
  found = h.found;
  same = h.same;
  open_ended = h.open_ended;
  own = h.own;
  few = omega (arith, h.few);
}

-- What is written under a key is found there.
pub get-write_state {κ} :
    {B : Type κ} (key : String) (r : Option ResetAccountState × B) (states : ResetStates)
    → get key (write_state key r.0 states) ≡ written (get key states) r
get-write_state key (none, b) states = refl
get-write_state key (some state, b) states = get-set_self key state states

pub get-write_state_ne :
    (key at : String) (o : Option ResetAccountState) (states : ResetStates)
    → (at == key) ≡ false
    → get key (write_state at o states) ≡ get key states
get-write_state_ne key at none states h = refl
get-write_state_ne key at (some state) states h = rw (get-set, h) refl

-- An answer to another pair writes nothing.
pub finalize_state-other :
    (state : Option ResetAccountState) (completing saved : SavedResetPair)
    (outcome : ResetConsumeOutcome) (sent_as : Option String) (now : ℕ)
    → pair_of state ≡ some saved
    → same_pair saved completing ≡ false
    → (finalize_state state completing outcome sent_as now).0 ≡ none
unfolding finalize_state record_answer
finalize_state-other state completing saved outcome sent_as now h other =
    rw (h, other)
      (if_intro (λ (r : Option ResetAccountState × Option SavedResetPair). r.0 ≡ none)
        (is_terminal_consume_kind outcome.kind) _ _ (λ _. refl)
        (λ _.
          if_intro (λ (r : Option ResetAccountState × Option SavedResetPair). r.0 ≡ none)
            (is_repeated_refusal completing (refusal_status outcome.kind outcome.status) sent_as) _
            _ (λ _. refl) (λ _. refl)))
