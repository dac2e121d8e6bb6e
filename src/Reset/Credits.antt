-- ===== src/Reset/Credits.antt =====
-- packages/core/src/reset-credits.ts: which credit is spent.
use openai_auth.Prelude.{
  ◌≤◌, ◌≡◌, inl, inr, Bool, true, false, some, List, [], ◌∷◌, arith, string_eq, option_eq, leb_iff,
  Bool-cases, keep_if, All, All-imp, All-keep_if_test, In, In-keep_if, All-In, sort_by-head,
}
use openai_auth.Reset.{
  ResetCredit, is_reset_credit_eligible, expires_before, select_credit_to_spend,
}

before_total : (a b : ResetCredit) → expires_before a b ≡ false → expires_before b a ≡ true
before_total a b h = ground arith

before_trans :
    (a b c : ResetCredit)
    → expires_before a b ≡ true
    → expires_before b c ≡ true
    → expires_before a c ≡ true
before_trans a b c h k = ground arith

-- The earliest of the eligible credits, from those that are eligible and those that are left.
All-kept :
    (le : ResetCredit → Bool) (p : ResetCredit → Bool) (xs : List ResetCredit)
    → All (λ c. le c ≡ true) (keep_if p xs)
    → All (λ c. p c ≡ true → le c ≡ true) xs
All-kept le p [] h = tt
All-kept le p (x ∷ xs) h = elim (Bool-cases (p x)) [
  | inl e ↦
      let both : All (λ c. le c ≡ true) (x ∷ keep_if p xs) = rw e at h in
      ((λ _. both.0), All-kept le p xs both.1)
  | inr e ↦
      let rest : All (λ c. le c ≡ true) (keep_if p xs) = rw e at h in
      ((λ q. absurd (ground (arith, e, q))), All-kept le p xs rest)
]

-- The credit that is spent is of the list, eligible, and none that is eligible expires earlier.
pub select_credit_earliest :
    (credits : List ResetCredit) (credit : ResetCredit)
    → select_credit_to_spend credits ≡ some credit
    → In credit credits
      × (is_reset_credit_eligible credit ≡ true)
      × All (λ c. is_reset_credit_eligible c ≡ true → credit.expires_at ≤ c.expires_at) credits
unfolding select_credit_to_spend
select_credit_earliest credits credit h =
    let first =
      sort_by-head expires_before before_total before_trans
        (keep_if is_reset_credit_eligible credits) credit h in
    (
      In-keep_if is_reset_credit_eligible credits credit first.0,
      All-In (λ c. is_reset_credit_eligible c ≡ true) (keep_if is_reset_credit_eligible credits)
          credit
          (All-keep_if_test (λ c. is_reset_credit_eligible c ≡ true) is_reset_credit_eligible
            credits (λ c e. e))
          first.0,
      All-imp (λ c. is_reset_credit_eligible c ≡ true → expires_before credit c ≡ true)
          (λ c. is_reset_credit_eligible c ≡ true → credit.expires_at ≤ c.expires_at) credits
          (λ c f e. (leb_iff credit.expires_at c.expires_at).0 (f e))
          (All-kept (expires_before credit) is_reset_credit_eligible credits first.1),
    )
