-- ===== src/Reset/Sends.antt =====
-- packages/core/src/reset-credits.ts: what is saved of a pair that a redemption sends.
use openai_auth.Prelude.{
  All, ◌≡◌, refl, ◌∙◌, ap, inl, inr, String, true, false, ◌||◌, not, Option, none, some, List,
  if◌then◌else◌, ◌==◌, eq_of_==, string_eq, option_eq, Bool-cases, if_intro, is_some,
}
use openai_auth.Prelude.JsMap.{get}
use openai_auth.Quota.{QuotaSnapshot}
use openai_auth.Reset.{
  ResetAccountState, ResetStates, ResetCredit, ResetClaim, ResetDecision, fresh, claim,
  expired_unreconciled, cooldown, corrupt, pair_of, is_corrupt, is_of_other_account,
  may_replace_expired_pair, is_safe_reset_account_key, select_credit_to_spend,
}
use openai_auth.Reset.Writes.{
  inspect_reset_attempt, claim_state, claim_reset_attempt, resolve_corrupt_reset_attempt,
}
use openai_auth.Reset.Held.{get-write_state}
use openai_auth.Reset.Redemption.{
  Outside, Input, Prepared, stops, expired_pair, ambiguous_local, sends, prepare_redemption,
  send_claim, claimed_as, judged, new_attempt, decided, inspected, resolved_target,
  list_reset_credits, reset_precondition,
}
use openai_auth.Reset.Names.{
  Names, inspect_reset_state-Names, inspect_reset_attempt-Names, claim_state-Names,
}

-- What is sent is saved, and of the account.
abbrev Saved : String → String → ResetStates → Prepared → Type 0
Saved key account states (stops error) = Unit {0}
Saved key account states (ambiguous_local before) = Unit {0}
Saved key account states (sends before claimed) =
    (pair_of (get key states) ≡ some claimed.in_flight)
    × (is_of_other_account claimed.in_flight (some account) ≡ false)

module _ (outside : Outside) (input : Input)
    (safe : is_safe_reset_account_key input.account_key ≡ true)
    (named : (outside.request == "") ≡ false)
    (signed : (input.expected_chatgpt_account_id == "") ≡ false)
    (listed : (credits : List ResetCredit)
      → list_reset_credits outside.credits ≡ some credits
      → All (λ (c : ResetCredit). (c.id == "") ≡ false) credits) where
  IsSaved : ResetStates × Prepared → Type 0
  IsSaved r = Saved input.account_key input.expected_chatgpt_account_id r.0 r.1

  send_claim-Saved :
      (states : ResetStates) (before : Option ResetAccountState) (claimed : ResetClaim)
      → pair_of (get input.account_key states) ≡ some claimed.in_flight
      → IsSaved (states, send_claim (some input.expected_chatgpt_account_id) before claimed)
  unfolding IsSaved
  send_claim-Saved states before claimed h =
      if_intro (Saved input.account_key input.expected_chatgpt_account_id states)
        (is_of_other_account claimed.in_flight (some input.expected_chatgpt_account_id)) _ _
        (λ _. tt) (λ own. (h, own))

  claimed_as-Saved :
      (states : ResetStates) (before : Option ResetAccountState) (decision : ResetDecision)
      → Names (get input.account_key states) decision
      → IsSaved (states, claimed_as (some input.expected_chatgpt_account_id) before decision)
  unfolding IsSaved
  claimed_as-Saved states before (fresh b) h = tt
  claimed_as-Saved states before (claim b c) h = send_claim-Saved states before c h
  claimed_as-Saved states before (expired_unreconciled b c) h = tt
  claimed_as-Saved states before (cooldown b until) h = tt
  claimed_as-Saved states before (corrupt b) h = tt

  claim_reset_attempt-Names :
      (states : ResetStates) (credits : List ResetCredit)
      → All (λ (c : ResetCredit). (c.id == "") ≡ false) credits
      → (let claimed =
            claim_reset_attempt states input.account_key credits
              (some input.expected_chatgpt_account_id)
              outside.claimed_at
              outside.request in
          Names (get input.account_key claimed.0) claimed.1)
  unfolding claim_reset_attempt
  claim_reset_attempt-Names states credits ok =
      rw
        (
          safe,
          get-write_state input.account_key
              (claim_state (get input.account_key states) outside.claimed_at outside.request credits
                (some input.expected_chatgpt_account_id))
              states,
        )
        (claim_state-Names outside.request (some input.expected_chatgpt_account_id) named signed
          (get input.account_key states) outside.claimed_at credits ok)

  judged-Saved :
      (states : ResetStates) (before : Option ResetAccountState) (usage : Option QuotaSnapshot)
      (credits : Option (List ResetCredit))
      → ((cs : List ResetCredit)
          → credits ≡ some cs
          → All (λ (c : ResetCredit). (c.id == "") ≡ false) cs)
      → IsSaved (
          judged outside input (some input.expected_chatgpt_account_id) states before usage credits)
  unfolding IsSaved
  judged-Saved states before none credits ok = tt
  judged-Saved states before (some quota) none ok = tt
  judged-Saved states before (some quota) (some credits) ok =
      if_intro IsSaved
        (not (reset_precondition quota outside.has_active_rate_limit_mark outside.judged_at)) _ _
        (λ _. tt)
        (λ _.
          if_intro IsSaved (not (is_some (select_credit_to_spend credits))) _ _ (λ _. tt)
            (λ _.
              claimed_as-Saved _ before _
                (claim_reset_attempt-Names (outside.claiming states) credits (ok credits refl))))

  new_attempt-Saved :
      (states : ResetStates) (before : Option ResetAccountState)
      → IsSaved (new_attempt outside input (some input.expected_chatgpt_account_id) states before)
  unfolding IsSaved
  new_attempt-Saved states before =
      if_intro IsSaved input.retry _ _ (λ _. tt)
        (λ _. judged-Saved states before outside.usage (list_reset_credits outside.credits) listed)

  decided-Saved :
      (states : ResetStates) (decision : ResetDecision)
      → Names (get input.account_key states) decision
      → IsSaved (decided outside input (some input.expected_chatgpt_account_id) states decision)
  unfolding IsSaved
  decided-Saved states (corrupt b) h = tt
  decided-Saved states (cooldown b until) h = tt
  decided-Saved states (claim b c) h = send_claim-Saved states b c h
  decided-Saved states (fresh b) h = new_attempt-Saved states b
  decided-Saved states (expired_unreconciled b c) h =
      if_intro IsSaved
        (input.retry
          || not (may_replace_expired_pair c.in_flight (some input.expected_chatgpt_account_id)))
        (
          states,
          if input.retry
              then send_claim (some input.expected_chatgpt_account_id) b c
              else stops expired_pair,
        )
        (new_attempt outside input (some input.expected_chatgpt_account_id) states b)
        (λ _.
          if_intro (Saved input.account_key input.expected_chatgpt_account_id states) input.retry
            (send_claim (some input.expected_chatgpt_account_id) b c) (stops expired_pair)
            (λ _. send_claim-Saved states b c h) (λ _. tt))
        (λ _. new_attempt-Saved states b)

  repaired-Names :
      (states : ResetStates)
      → (let repaired =
            resolve_corrupt_reset_attempt states input.account_key outside.repaired_at in
          Names (get input.account_key repaired.0) repaired.1)
  unfolding resolve_corrupt_reset_attempt
  repaired-Names states = rw safe (elim (Bool-cases (is_corrupt (get input.account_key states))) [
    | inl bad ↦ rw bad tt
    | inr good ↦
        rw good (
          rw good at (inspect_reset_state-Names (get input.account_key states) outside.repaired_at))
  ])

  inspected-Saved :
      (states : ResetStates) (decision : ResetDecision)
      → Names (get input.account_key states) decision
      → IsSaved (inspected outside input (some input.expected_chatgpt_account_id) states decision)
  unfolding IsSaved
  inspected-Saved states (corrupt b) h =
      decided-Saved _ _ (repaired-Names (outside.repairing states))
  inspected-Saved states (cooldown b until) h = decided-Saved states (cooldown b until) h
  inspected-Saved states (claim b c) h = decided-Saved states (claim b c) h
  inspected-Saved states (expired_unreconciled b c) h =
      decided-Saved states (expired_unreconciled b c) h
  inspected-Saved states (fresh b) h = decided-Saved states (fresh b) h

-- What is known of a send.
abbrev Conclusion : Outside → Input → ResetStates → ResetClaim → Type 0
Conclusion outside input states claimed =
    (pair_of (get input.account_key states) ≡ some claimed.in_flight)
    × (is_of_other_account claimed.in_flight (some input.expected_chatgpt_account_id) ≡ false)
    × (outside.target ≡ some (some input.expected_chatgpt_account_id))
    × (is_safe_reset_account_key input.account_key ≡ true)

abbrev Concludes : Outside → Input → ResetStates → Prepared → Type 0
Concludes outside input states (stops error) = Unit {0}
Concludes outside input states (ambiguous_local before) = Unit {0}
Concludes outside input states (sends before claimed) = Conclusion outside input states claimed

Saved-Concludes :
    (outside : Outside) (input : Input) (states : ResetStates) (prepared : Prepared)
    → outside.target ≡ some (some input.expected_chatgpt_account_id)
    → is_safe_reset_account_key input.account_key ≡ true
    → Saved input.account_key input.expected_chatgpt_account_id states prepared
    → Concludes outside input states prepared
Saved-Concludes outside input states (stops error) t s h = tt
Saved-Concludes outside input states (ambiguous_local before) t s h = tt
Saved-Concludes outside input states (sends before claimed) t s h = (h.0, h.1, t, s)

resolved_target-Concludes :
    (outside : Outside) (input : Input) (states : ResetStates) (target : Option (Option String))
    → (outside.request == "") ≡ false
    → (input.expected_chatgpt_account_id == "") ≡ false
    → ((credits : List ResetCredit)
        → list_reset_credits outside.credits ≡ some credits
        → All (λ (c : ResetCredit). (c.id == "") ≡ false) credits)
    → outside.target ≡ target
    → is_safe_reset_account_key input.account_key ≡ true
    → Concludes outside input
        (resolved_target outside input states target).0
        (resolved_target outside input states target).1
unfolding IsSaved
resolved_target-Concludes outside input states none named signed listed t safe = tt
resolved_target-Concludes outside input states (some identity) named signed listed t safe =
    elim (Bool-cases (identity == some input.expected_chatgpt_account_id)) [
      | inr other ↦ rw other tt
      | inl same ↦
          let e : identity ≡ some input.expected_chatgpt_account_id =
            eq_of_== identity (some input.expected_chatgpt_account_id) same in
          rw (same, e)
            (Saved-Concludes outside input _ _ (t ∙ ap some e) safe (
              inspected-Saved outside input safe named signed listed states
                (inspect_reset_attempt states input.account_key outside.inspected_at)
                (inspect_reset_attempt-Names states input.account_key outside.inspected_at safe)))
    ]

prepare_redemption-Concludes :
    (outside : Outside) (input : Input) (states : ResetStates)
    → (outside.request == "") ≡ false
    → (input.expected_chatgpt_account_id == "") ≡ false
    → ((credits : List ResetCredit)
        → list_reset_credits outside.credits ≡ some credits
        → All (λ (c : ResetCredit). (c.id == "") ≡ false) credits)
    → Concludes outside input
        (prepare_redemption outside input states).0
        (prepare_redemption outside input states).1
unfolding prepare_redemption
prepare_redemption-Concludes outside input states named signed listed =
    elim (Bool-cases (is_safe_reset_account_key input.account_key)) [
      | inr unsafe ↦ rw unsafe tt
      | inl safe ↦ rw safe (
          resolved_target-Concludes outside input states outside.target named signed listed refl
            safe)
    ]

-- Whatever other processes write meanwhile, the pair that a redemption sends was the saved pair of the
-- account when the redemption last read or wrote the saved states: under a key that may be saved, signed
-- in as the account that was asked for, and minted under that account or under none that is known; if
-- the request's id, the account and the ids of the listed credits have a character. Between that read or
-- write and the send, another process may still clear or replace the pair.
pub sends_saved :
    (outside : Outside) (input : Input) (states : ResetStates) (before : Option ResetAccountState)
    (claimed : ResetClaim)
    → (outside.request == "") ≡ false
    → (input.expected_chatgpt_account_id == "") ≡ false
    → ((credits : List ResetCredit)
        → list_reset_credits outside.credits ≡ some credits
        → All (λ (c : ResetCredit). (c.id == "") ≡ false) credits)
    → (prepare_redemption outside input states).1 ≡ sends before claimed
    → (pair_of (get input.account_key (prepare_redemption outside input states).0)
        ≡ some claimed.in_flight)
      × (is_of_other_account claimed.in_flight (some input.expected_chatgpt_account_id) ≡ false)
      × (outside.target ≡ some (some input.expected_chatgpt_account_id))
      × (is_safe_reset_account_key input.account_key ≡ true)
sends_saved outside input states before claimed named signed listed h =
    rw h at (prepare_redemption-Concludes outside input states named signed listed)
