-- ===== src/Routing/Credits/Serving.antt =====
-- When prepaid credits may be spent, and which accounts are marked as serving on them.
use openai_auth.Prelude.{
  ℕ, ◌+◌, ◌≤◌, ◌<◌, ◌≡◌, refl, ◌↔◌, ◌⊎◌, inl, inr, ◌≢◌, String, Bool, true, false, ◌&&◌, ◌||◌, not,
  leb, Option, none, some, List, [], ◌∷◌, string_eq, finite, keep_if, includes, All,
  All-keep_if_test, All-append, arith, if_intro, Bool-cases, includes-keep_if, includes-append,
  ==_refl,
}
use openai_auth.Routing.{PoolInput, QuotaCredits, RoutingLibrary}
use openai_auth.Routing.Credits.{
  quota_staleness_ms, is_true, has_balance, credits_usable, CreditsTiers, credits_tiers,
  credits_fallback_ids, served,
}

is_true-eq-false : (o : Option Bool) → (is_true o ≡ false) ↔ (o ≢ some true)
is_true-eq-false none = ground arith
is_true-eq-false (some true) = ((λ h. absurd (cc)), λ h. absurd (h refl))
is_true-eq-false (some false) = ground arith

has_balance_iff :
    (o : Option ℕ) → (has_balance o ≡ true) ↔ ((o ≡ none) ⊎ ((b : ℕ) × (o ≡ some b) × (0 < b)))
has_balance_iff none = ((λ _. inl refl), λ _. refl)
has_balance_iff (some b) = ((λ h. inr (b, refl, ground arith)), ground arith)

-- A record of credits with a finite reading time pays for a request exactly when its reading is at most fifteen minutes old,
-- its overage allowance is not used up, and the credits are unlimited, or present with no balance
-- reported or a balance above zero.
pub credits_usable_iff :
    (c : QuotaCredits) (checked_at now : ℕ)
    → c.checked_at ≡ finite checked_at
    → (credits_usable (some c) now ≡ true) ↔ (
        (now ≤ checked_at + quota_staleness_ms)
        × (c.overage_limit_reached ≢ some true)
        × ((c.unlimited ≡ true)
            ⊎ ((c.has_credits ≡ true)
                × ((c.balance ≡ none) ⊎ ((b : ℕ) × (c.balance ≡ some b) × (0 < b))))))
unfolding credits_usable
credits_usable_iff c checked_at now at = rw at (
  λ h. (ground arith, (is_true-eq-false c.overage_limit_reached).0 (ground arith), paid h),
  λ (young, allowed, by).
      let room = (is_true-eq-false c.overage_limit_reached).1 allowed in
      ground (arith, young, room, payable by),
)
  where
    paid :
        (leb now (checked_at + quota_staleness_ms)
            && (not (is_true c.overage_limit_reached)
                && (c.unlimited || (c.has_credits && has_balance c.balance))))
          ≡ true
        → (c.unlimited ≡ true)
          ⊎ ((c.has_credits ≡ true)
              × ((c.balance ≡ none) ⊎ ((b : ℕ) × (c.balance ≡ some b) × (0 < b))))
    paid h = elim (Bool-cases c.unlimited) [
      | inl free_of_limit ↦ inl free_of_limit
      | inr limited ↦ inr (ground arith, (has_balance_iff c.balance).0 (ground arith))
    ]

    payable :
        (c.unlimited ≡ true)
          ⊎ ((c.has_credits ≡ true)
              × ((c.balance ≡ none) ⊎ ((b : ℕ) × (c.balance ≡ some b) × (0 < b))))
        → (c.unlimited || (c.has_credits && has_balance c.balance)) ≡ true
    payable (inl u) = ground arith
    payable (inr (h, b)) = ground (arith, h, (has_balance_iff c.balance).1 b)

module _ (lib : RoutingLibrary) (input : PoolInput lib.Quota) (id : String)
    (ids : List String) where
  abbrev pub tiers : CreditsTiers
  tiers = credits_tiers lib input.rows input (lib.admit input)

  -- After a request that `id` served, every marked account is one that can serve only on prepaid
  -- credits.
  pub served-All :
      All (λ i. includes (credits_fallback_ids lib input) i ≡ true) (served lib input id ids).0
  unfolding served credits_fallback_ids
  served-All =
      if_intro OnCredits (includes tiers.free id) _ _ (λ _. tt)
        λ _.
          if_intro OnCredits (not (includes tiers.credits id) || includes kept id) _ _
            (λ _. kept-All)
            λ new.
              All-append (λ i. includes tiers.credits i ≡ true) kept (id ∷ []) kept-All
                (ground arith, tt)
    where
      kept : List String
      kept = keep_if (includes tiers.credits) ids

      OnCredits : List String × Bool → Type 0
      OnCredits r = All (λ i. includes tiers.credits i ≡ true) r.0

      kept-All : All (λ i. includes tiers.credits i ≡ true) kept
      kept-All =
          All-keep_if_test (λ i. includes tiers.credits i ≡ true) (includes tiers.credits) ids
            (λ i h. h)

  -- A served request is logged exactly when the account that served it was not marked before and is
  -- marked now.
  pub served-logs :
      ((served lib input id ids).1 ≡ true)
      ↔ ((includes ids id ≡ false) × (includes (served lib input id ids).0 id ≡ true))
  unfolding served
  served-logs =
      if_intro Logs (includes tiers.free id) _ _ (λ _. ground arith)
        λ _.
          if_intro Logs (not (includes tiers.credits id) || includes kept id) _ _
            (λ old. ground (arith, old, in_kept))
            λ new. ground (arith, new, in_kept, includes-append kept (id ∷ []) id, ==_refl id)
    where
      kept : List String
      kept = keep_if (includes tiers.credits) ids

      in_kept : includes kept id ≡ (includes ids id && includes tiers.credits id)
      in_kept = includes-keep_if (includes tiers.credits) ids id

      Logs : List String × Bool → Type 0
      Logs r = (r.1 ≡ true) ↔ ((includes ids id ≡ false) × (includes r.0 id ≡ true))
