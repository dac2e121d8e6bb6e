-- ===== src/Reset/Spends.antt =====
-- packages/core/src/reset-credits.ts: one redemption is never spent over another.
use openai_auth.Prelude.{
  ℕ, suc, ◌+◌, ◌≤◌, ◌<◌, ◌≡◌, refl, sym, inl, inr, String, true, false, ◌&&◌, All, Option, none,
  some, List, [], ◌∷◌, length, arith, ◌==◌, eq_of_==, nat_eq, string_eq, option_eq, Bool-cases,
  if_intro,
}
use openai_auth.Prelude.JsMap.{get, get-set}
use openai_auth.Reset.{
  SavedResetPair, max_safe_integer, ResetAccountState, ResetStates, ResetCredit,
  is_safe_reset_account_key, is_corrupt,
}
use openai_auth.Reset.Writes.{
  claim_reset_attempt, finalize_reset_attempt, resolve_corrupt_reset_attempt, ResetConsumeOutcome,
  is_terminal_consume_kind, refusal_status, same_pair, finalize_state,
}
use openai_auth.Reset.Answers.{written, answer_state, SameSend, SameSend-trans}
use openai_auth.Reset.History.{
  Call, claims, finalizes, resolves, step, run_calls, Unsettled, IsHeld, not_corrupt,
}
use openai_auth.Reset.Held.{
  SpendsOnly, claim_state-held, answer_state-held, IsHeld-more, get-write_state, get-write_state_ne,
  finalize_state-other,
}

SameSend-sym : {a b : SavedResetPair} → SameSend a b → SameSend b a
SameSend-sym s = record { same_request = sym s.same_request; same_credit = sym s.same_credit }

SameSend-of :
    (saved completing : SavedResetPair)
    → same_pair saved completing ≡ true
    → SameSend saved completing
SameSend-of saved completing h = record {
  same_request = eq_of_== saved.redeem_request_id completing.redeem_request_id (ground (arith, h));
  same_credit = eq_of_== saved.credit_id completing.credit_id (ground (arith, h));
}

written-none {κ} :
    {B : Type κ} (state : Option ResetAccountState) (r : Option ResetAccountState × B)
    → r.0 ≡ none
    → written state r ≡ state
written-none state (none, b) h = refl
written-none state (some s, b) h = absurd (cc)

finalize_state-unknown :
    (state : Option ResetAccountState) (completing : SavedResetPair) (outcome : ResetConsumeOutcome)
    (sent_as : Option String) (now : ℕ)
    → is_terminal_consume_kind outcome.kind ≡ false
    → refusal_status outcome.kind outcome.status ≡ none
    → written state (finalize_state state completing outcome sent_as now)
      ≡ answer_state (record { completing = completing; refusal = none; sent_as = sent_as }) state
unfolding finalize_state answer_state
finalize_state-unknown state completing outcome sent_as now h k = rw (h, k) refl

n-zero : (n : ℕ) → n + 0 ≡ n
n-zero n = omega arith

n-suc : (n m : ℕ) → n + suc m ≡ n + 1 + m
n-suc n m = omega arith

module _ (key account : String) (pair : SavedResetPair) (named : (account == "") ≡ false) where
  claims-held :
      (states : ResetStates) (at : String) (credits : List ResetCredit) (claimed_as : Option String)
      (now : ℕ) (request : String) (n : ℕ)
      → IsHeld account pair n (get key states)
      → (at ≡ key → claimed_as ≡ some account)
      → IsHeld account pair n
          (get key (claim_reset_attempt states at credits claimed_as now request).0)
  unfolding claim_reset_attempt
  claims-held states at credits claimed_as now request n h u =
      elim (Bool-cases (is_safe_reset_account_key at)) [
        | inr unsafe ↦ rw unsafe h
        | inl safe ↦ rw safe (elim (Bool-cases (at == key)) [
          | inr other ↦ rw (get-write_state_ne key at _ states other) h
          | inl same ↦
              let e : at ≡ key = eq_of_== at key same in
              rw
                (u e, e, (claim_state-held (get key states) now request credits account pair n h).0)
                h
        ])
      ]

  -- On the account's own state.
  finalize_state-held :
      (state : Option ResetAccountState) (completing : SavedResetPair)
      (outcome : ResetConsumeOutcome) (sent_as : Option String) (now n : ℕ)
      → IsHeld account pair n state
      → n < max_safe_integer
      → (SameSend completing pair
          → (is_terminal_consume_kind outcome.kind ≡ false)
            × (refusal_status outcome.kind outcome.status ≡ none)
            × (sent_as ≡ some account))
      → IsHeld account pair
          (n + 1)
          (written state (finalize_state state completing outcome sent_as now))
  finalize_state-held state completing outcome sent_as now n h k u =
      elim (Bool-cases (same_pair h.saved completing)) [
        | inr other ↦
            rw
              (written-none state (finalize_state state completing outcome sent_as now)
                (finalize_state-other state completing h.saved outcome sent_as now h.found other))
              (IsHeld-more n h)
        | inl same ↦
            let fact =
              u (SameSend-trans (SameSend-sym (SameSend-of h.saved completing same)) h.same) in
            rw
              (
                fact.2,
                finalize_state-unknown state completing outcome (some account) now fact.0 fact.1,
              )
              (answer_state-held state completing account pair n h k named)
      ]

  finalizes-held :
      (states : ResetStates) (at : String) (completing : SavedResetPair)
      (outcome : ResetConsumeOutcome) (sent_as : Option String) (now n : ℕ)
      → IsHeld account pair n (get key states)
      → n < max_safe_integer
      → Unsettled key account pair (finalizes at completing outcome sent_as now)
      → IsHeld account pair
          (n + 1)
          (get key (finalize_reset_attempt states at completing outcome sent_as now).0)
  unfolding finalize_reset_attempt
  finalizes-held states at completing outcome sent_as now n h k u =
      elim (Bool-cases (is_safe_reset_account_key at)) [
        | inr unsafe ↦ rw unsafe (IsHeld-more n h)
        | inl safe ↦ rw safe (elim (Bool-cases (at == key)) [
          | inr other ↦ rw (get-write_state_ne key at _ states other) (IsHeld-more n h)
          | inl same ↦
              let e : at ≡ key = eq_of_== at key same in
              rw
                (
                  e,
                  get-write_state key
                      (finalize_state (get key states) completing outcome sent_as now) states,
                )
                (finalize_state-held (get key states) completing outcome sent_as now n h k (u e))
        ])
      ]

  resolves-held :
      (states : ResetStates) (at : String) (now n : ℕ)
      → IsHeld account pair n (get key states)
      → IsHeld account pair n (get key (resolve_corrupt_reset_attempt states at now).0)
  unfolding resolve_corrupt_reset_attempt
  resolves-held states at now n h = elim (Bool-cases (is_safe_reset_account_key at)) [
    | inr unsafe ↦ rw unsafe h
    | inl safe ↦ rw safe (elim (Bool-cases (at == key)) [
      | inr other ↦
          if_intro (λ (s : ResetStates). IsHeld account pair n (get key s))
            (is_corrupt (get at states) && true) _ states (λ _. rw (get-set, other) h) (λ _. h)
      | inl same ↦
          let e : at ≡ key = eq_of_== at key same in
          rw (e, not_corrupt (get key states) h.saved h.found) h
    ])
  ]

  step-held :
      (call : Call) (states : ResetStates) (n : ℕ)
      → IsHeld account pair n (get key states)
      → n < max_safe_integer
      → Unsettled key account pair call
      → IsHeld account pair (n + 1) (get key (step call states))
  unfolding step
  step-held (claims at credits claimed_as now request) states n h k u =
      IsHeld-more n (claims-held states at credits claimed_as now request n h u)
  step-held (finalizes at completing outcome sent_as now) states n h k u =
      finalizes-held states at completing outcome sent_as now n h k u
  step-held (resolves at now) states n h k u = IsHeld-more n (resolves-held states at now n h)

  run_calls-held :
      (calls : List Call) (states : ResetStates) (n : ℕ)
      → IsHeld account pair n (get key states)
      → n + length calls ≤ max_safe_integer
      → All (Unsettled key account pair) calls
      → IsHeld account pair (n + length calls) (get key (run_calls calls states))
  unfolding run_calls
  run_calls-held [] states n h k u = rw (n-zero n) h
  run_calls-held (call ∷ calls) states n h k u = rw (n-suc n (length calls)) (
      run_calls-held calls (step call states) (n + 1)
        (step-held call states n h (omega (arith, k)) u.0) (omega (arith, k)) u.1)

  -- While a saved pair is not settled, no spend under its account starts another redemption: after
  -- any calls on any accounts, of which none settles the pair or claims under another account, a
  -- claim writes nothing and answers with that pair, or with a cooldown.
  pub one_redemption :
      (calls : List Call) (states : ResetStates) (n now : ℕ) (credits : List ResetCredit)
      (request : String)
      → IsHeld account pair n (get key states)
      → n + length calls ≤ max_safe_integer
      → All (Unsettled key account pair) calls
      → is_safe_reset_account_key key ≡ true
      → ((claim_reset_attempt (run_calls calls states) key credits (some account) now request).0
          ≡ run_calls calls states)
        × SpendsOnly pair
            (claim_reset_attempt (run_calls calls states) key credits (some account) now request).1
  unfolding claim_reset_attempt
  one_redemption calls states n now credits request h k u safe =
      let held = run_calls-held calls states n h k u in
      let kept =
        claim_state-held (get key (run_calls calls states)) now request credits account pair
          (n + length calls) held in
      rw (safe, kept.0) (refl, kept.1)
