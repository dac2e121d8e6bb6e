-- ===== src/Balance/Order.antt =====
-- packages/opencode/src/core/sticky-routing.ts: the comparators of the two sorts are total orders,
-- up to accounts that they find alike.
use openai_auth.Prelude.{◌≡◌, refl, Bool, true, false, ◌||◌, not, [], ◌∷◌, arith, leb}
use openai_auth.Balance.Quotients.{ratio_le, ratio_le-total, ratio_le_trans}
use openai_auth.Balance.Weights.{
  AccountId, id_le, then_by, StickySelectionCandidate, order_le, account_id_le, has_reset_credits,
  reset_credits_le, fallback_le, StickySelectionInput, WeightedCandidate, score_of, score_le,
  weighted_le,
}

-- A preorder that compares any two.
pub record IsOrder {A : Type 0} (le : A → A → Bool) : Type 0 where
  pub total : (x y : A) → le x y ≡ false → le y x ≡ true
  pub trans : (x y z : A) → le x y ≡ true → le y z ≡ true → le x z ≡ true

-- The comparison of what a function reads.
IsOrder-by :
    {A B : Type 0} (f : A → B) {le : B → B → Bool} → IsOrder le → IsOrder (λ x y. le (f x) (f y))
IsOrder-by f o = record {
  total = λ x y. o.total (f x) (f y);
  trans = λ x y z. o.trans (f x) (f y) (f z);
}

module _ {A : Type 0} (first second : A → A → Bool) (o : IsOrder first) (p : IsOrder second) where
  then_by-total : (x y : A) → then_by first second x y ≡ false → then_by first second y x ≡ true
  then_by-total x y h = ground (arith, o.total x y, o.total y x, p.total x y)

  then_by_trans :
      (x y z : A)
      → then_by first second x y ≡ true
      → then_by first second y z ≡ true
      → then_by first second x z ≡ true
  then_by_trans x y z h k =
      ground (arith, o.trans x y z, o.trans y z x, o.trans z x y, p.trans x y z)

  then_by-IsOrder : IsOrder (then_by first second)
  then_by-IsOrder = record { total = then_by-total; trans = then_by_trans }

leb-IsOrder : IsOrder leb
leb-IsOrder = record { total = λ x y h. ground arith; trans = λ x y z h k. ground arith }

ratio_le-IsOrder : IsOrder ratio_le
ratio_le-IsOrder = record { total = ratio_le-total; trans = ratio_le_trans }

id_le-total : (x y : AccountId) → id_le x y ≡ false → id_le y x ≡ true
unfolding id_le
id_le-total [] y h = absurd (ground (arith, h))
id_le-total (a ∷ xs) [] h = refl
id_le-total (a ∷ xs) (b ∷ ys) h = ground (arith, id_le-total xs ys)

id_le_trans : (x y z : AccountId) → id_le x y ≡ true → id_le y z ≡ true → id_le x z ≡ true
unfolding id_le
id_le_trans [] y z h k = refl
id_le_trans (a ∷ xs) [] z h k = absurd (ground (arith, h))
id_le_trans (a ∷ xs) (b ∷ ys) [] h k = absurd (ground (arith, k))
id_le_trans (a ∷ xs) (b ∷ ys) (c ∷ zs) h k = ground (arith, id_le_trans xs ys zs)

id_le-IsOrder : IsOrder id_le
id_le-IsOrder = record { total = id_le-total; trans = id_le_trans }

credits-IsOrder : IsOrder (λ (x y : Bool). x || not y)
credits-IsOrder = record { total = λ x y h. ground arith; trans = λ x y z h k. ground arith }

configured-IsOrder : IsOrder (then_by order_le account_id_le)
configured-IsOrder =
    then_by-IsOrder order_le account_id_le
      (IsOrder-by (λ (c : StickySelectionCandidate). c.configured_order) leb-IsOrder)
      (IsOrder-by (λ (c : StickySelectionCandidate). c.account_id) id_le-IsOrder)

pub fallback_le-IsOrder : IsOrder fallback_le
fallback_le-IsOrder =
    then_by-IsOrder reset_credits_le (then_by order_le account_id_le)
      (IsOrder-by has_reset_credits credits-IsOrder) configured-IsOrder

pub weighted_le-IsOrder : (input : StickySelectionInput) → IsOrder (weighted_le input)
weighted_le-IsOrder input =
    then_by-IsOrder (score_le input) _ (IsOrder-by (score_of input) ratio_le-IsOrder)
      (IsOrder-by (λ (w : WeightedCandidate). w.candidate) configured-IsOrder)
