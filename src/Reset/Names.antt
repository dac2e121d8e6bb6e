-- ===== src/Reset/Names.antt =====
-- packages/core/src/reset-credits.ts: a decision names the pair that is saved.
use openai_auth.Prelude.{
  All, ℕ, ◌≡◌, refl, inl, inr, String, true, false, not, Option, none, some, List, ◌==◌, string_eq,
  option_eq, Option-cases, if_intro, or_else, All-In,
}
use openai_auth.Prelude.JsMap.{get}
use openai_auth.Reset.{
  ResetAccountState, no_state, ResetStates, ResetCredit, ResetDecision, fresh, claim,
  expired_unreconciled, cooldown, corrupt, pair_of, cooling_until, is_corrupt,
  is_younger_than_in_flight_ttl, may_replace_expired_pair, is_safe_reset_account_key,
  select_credit_to_spend,
}
use openai_auth.Reset.Saved.{Named, pair_of-to_raw}
use openai_auth.Reset.Writes.{inspect_reset_state, inspect_reset_attempt, claim_state, claim_credit}
use openai_auth.Reset.Answers.{written}
use openai_auth.Reset.Credits.{select_credit_earliest}

-- A decision names the pair that is saved.
abbrev pub Names : Option ResetAccountState → ResetDecision → Type 0
Names state (fresh before) = Unit {0}
Names state (claim before named) = pair_of state ≡ some named.in_flight
Names state (expired_unreconciled before named) = pair_of state ≡ some named.in_flight
Names state (cooldown before until) = Unit {0}
Names state (corrupt before) = Unit {0}

pub inspect_reset_state-Names :
    (state : Option ResetAccountState) (now : ℕ) → Names state (inspect_reset_state state now)
unfolding inspect_reset_state
inspect_reset_state-Names state now =
    if_intro (Names state) (is_corrupt state) _ _ (λ _. tt)
      (λ _. elim (Option-cases (cooling_until state now)) [
        | inr (until, e) ↦ rw e tt
        | inl e ↦ rw e (elim (Option-cases (pair_of state)) [
          | inl n ↦ rw n tt
          | inr (pair, p) ↦ rw p (
              if_intro (λ d. Names state d) (is_younger_than_in_flight_ttl pair now) _ _ (λ _. p)
                (λ _. p))
        ])
      ])

-- A new pair is written in full where its parts are.
module _ (request : String) (account : Option String) (named : (request == "") ≡ false)
    (signed : Named account) where
  claim_credit-Names :
      (state : Option ResetAccountState) (now : ℕ) (credit : Option ResetCredit)
      → ((c : ResetCredit) → credit ≡ some c → (c.id == "") ≡ false)
      → Names
          (written state (claim_credit state now request account credit))
          (claim_credit state now request account credit).1
  claim_credit-Names state now none f = tt
  claim_credit-Names state now (some credit) f =
      pair_of-to_raw (or_else state no_state)
        (record {
          redeem_request_id = request;
          credit_id = credit.id;
          started_at = now;
          chatgpt_account_id = account;
          rejected_status = none;
          unknown_answers = none;
        })
        (record {
          request_named = named;
          credit_named = f credit refl;
          account_named = signed;
          refused = tt;
          counted = tt;
        })

  pub claim_state-Names :
      (state : Option ResetAccountState) (now : ℕ) (credits : List ResetCredit)
      → All (λ (c : ResetCredit). (c.id == "") ≡ false) credits
      → Names
          (written state (claim_state state now request credits account))
          (claim_state state now request credits account).1
  unfolding claim_state
  claim_state-Names state now credits ok =
      if_intro P (is_corrupt state) _ _ (λ _. tt)
        (λ _. elim (Option-cases (cooling_until state now)) [
          | inr (until, e) ↦ rw e tt
          | inl e ↦ rw e (elim (Option-cases (pair_of state)) [
            | inl n ↦ rw n fresh_claim
            | inr (pair, p) ↦ rw p (
                if_intro P (is_younger_than_in_flight_ttl pair now) _ _ (λ _. p)
                  (λ _.
                    if_intro P (not (may_replace_expired_pair pair account)) _ _ (λ _. p)
                      (λ _. fresh_claim)))
          ])
        ])
    where
      P : Option ResetAccountState × ResetDecision → Type 0
      P r = Names (written state r) r.1

      fresh_claim : P (claim_credit state now request account (select_credit_to_spend credits))
      fresh_claim = claim_credit-Names state now (select_credit_to_spend credits) (λ c e.
          All-In (λ (c : ResetCredit). (c.id == "") ≡ false) credits c ok
            (select_credit_earliest credits c e).0)

pub inspect_reset_attempt-Names :
    (states : ResetStates) (key : String) (now : ℕ)
    → is_safe_reset_account_key key ≡ true
    → Names (get key states) (inspect_reset_attempt states key now)
unfolding inspect_reset_attempt
inspect_reset_attempt-Names states key now safe =
    rw safe (inspect_reset_state-Names (get key states) now)
