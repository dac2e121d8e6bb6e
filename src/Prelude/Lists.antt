-- ===== src/Prelude/Lists.antt =====
-- Lists measured by native numbers, tests over their entries, and predicates by recursion.
use Prim.Native.Nat.{ℕ, suc, ◌+◌, ◌≤◌}
use mathlib.Core.Path.{◌≡◌, refl, ap}
use mathlib.Core.Logic.{inl, inr}
use mathlib.Core.Bool.{Bool, true, false, ◌&&◌, ◌||◌}
use mathlib.Core.List.{List, [], ◌∷◌, ◌++◌, map}
use mathlib.Core.Option.{Option, none, some}
use native.Mathlib.Omega.{arith}
use openai_auth.Prelude.Tests.{if◌then◌else◌, Bool-cases}
use openai_auth.Prelude.Equality.{Eq, ◌==◌, ==_refl}

module _ {ℓ} {A : Type ℓ} where
  abbrev pub length : List A → ℕ
  length [] = 0
  length (x ∷ xs) = suc (length xs)

  abbrev pub any : (A → Bool) → List A → Bool
  any p [] = false
  any p (x ∷ xs) = p x || any p xs

  -- Array.prototype.filter
  abbrev pub keep_if : (A → Bool) → List A → List A
  keep_if p [] = []
  keep_if p (x ∷ xs) = if p x then x ∷ keep_if p xs else keep_if p xs

  -- Array.prototype.find
  abbrev pub find_if : (A → Bool) → List A → Option A
  find_if p [] = none
  find_if p (x ∷ xs) = if p x then some x else find_if p xs

  abbrev pub All {κ} : (A → Type κ) → List A → Type κ
  All P [] = Unit
  All P (x ∷ xs) = P x × All P xs

  pub length-append : (xs ys : List A) → length (xs ++ ys) ≡ length xs + length ys
  length-append [] ys = omega arith
  length-append (x ∷ xs) ys = omega (arith, length-append xs ys)

  pub length-keep_if : (p : A → Bool) (xs : List A) → length (keep_if p xs) ≤ length xs
  length-keep_if p [] = omega arith
  length-keep_if p (x ∷ xs) = ground (arith, length-keep_if p xs)

  -- What is kept passes the test, and keeps what held of it before.
  pub All-keep_if {κ μ} :
      (P : A → Type κ) (Q : A → Type μ) (p : A → Bool) (xs : List A)
      → ((a : A) → P a → p a ≡ true → Q a)
      → All P xs
      → All Q (keep_if p xs)
  All-keep_if P Q p [] f h = tt
  All-keep_if P Q p (x ∷ xs) f h = elim (Bool-cases (p x)) [
    | inl e ↦ rw e (f x h.0 e, All-keep_if P Q p xs f h.1)
    | inr e ↦ rw e (All-keep_if P Q p xs f h.1)
  ]

  -- What passes the test has what the test shows.
  pub All-keep_if_test {κ} :
      (Q : A → Type κ) (p : A → Bool) (xs : List A)
      → ((a : A) → p a ≡ true → Q a)
      → All Q (keep_if p xs)
  All-keep_if_test Q p [] f = tt
  All-keep_if_test Q p (x ∷ xs) f = elim (Bool-cases (p x)) [
    | inl e ↦ rw e (f x e, All-keep_if_test Q p xs f)
    | inr e ↦ rw e (All-keep_if_test Q p xs f)
  ]

  pub All-keep_if_of_All {κ} :
      (P : A → Type κ) (p : A → Bool) (xs : List A) → All P xs → All P (keep_if p xs)
  All-keep_if_of_All P p xs h = All-keep_if P P p xs (λ a q _. q) h

  pub All-append {κ} : (P : A → Type κ) (xs ys : List A) → All P xs → All P ys → All P (xs ++ ys)
  All-append P [] ys h k = k
  All-append P (x ∷ xs) ys h k = (h.0, All-append P xs ys h.1 k)

  pub All-imp {κ μ} :
      (P : A → Type κ) (Q : A → Type μ) (xs : List A) → ((a : A) → P a → Q a) → All P xs → All Q xs
  All-imp P Q [] f h = tt
  All-imp P Q (x ∷ xs) f h = (f x h.0, All-imp P Q xs f h.1)

  pub All-both {κ μ ν} :
      (P : A → Type κ) (Q : A → Type μ) (R : A → Type ν) (xs : List A)
      → ((a : A) → P a → Q a → R a)
      → All P xs
      → All Q xs
      → All R xs
  All-both P Q R [] f h k = tt
  All-both P Q R (x ∷ xs) f h k = (f x h.0 k.0, All-both P Q R xs f h.1 k.1)

module _ {ℓ κ} {A : Type ℓ} {B : Type κ} where
  pub All-map {μ} :
      (P : B → Type μ) (f : A → B) (xs : List A) → All (λ a. P (f a)) xs → All P (map f xs)
  All-map P f [] h = tt
  All-map P f (x ∷ xs) h = (h.0, All-map P f xs h.1)

module _ {ℓ} {A : Type ℓ} ⦃e : Eq A⦄ where
  -- Array.prototype.includes
  abbrev pub includes : List A → A → Bool
  includes xs a = any (λ x. x == a) xs

  -- Every listed value passes `P`: the same as `P` of whatever `includes` finds.
  pub All-includes {κ} :
      (P : A → Type κ) (xs : List A) (a : A) → All P xs → includes xs a ≡ true → P a
  All-includes P [] a h i = absurd (ground arith)
  All-includes P (x ∷ xs) a h i = elim (Bool-cases (x == a)) [
    | inl same ↦ rw (← (e.beq_iff x a).0 same) h.0
    | inr other ↦ All-includes P xs a h.1 (ground arith)
  ]

  pub All-of_includes {κ} :
      (P : A → Type κ) (xs : List A) → ((a : A) → includes xs a ≡ true → P a) → All P xs
  All-of_includes P [] h = tt
  All-of_includes P (x ∷ xs) h =
      (h x (rw ==_refl refl), All-of_includes P xs λ a i. h a (ground arith))

  -- A list includes all of its values.
  pub includes_self : (xs : List A) → All (λ a. includes xs a ≡ true) xs
  includes_self xs = All-of_includes (λ a. includes xs a ≡ true) xs (λ a h. h)

  -- A filter keeps a value exactly when the value passes its test.
  pub includes-keep_if :
      (p : A → Bool) (xs : List A) (a : A) → includes (keep_if p xs) a ≡ (includes xs a && p a)
  includes-keep_if p [] a = refl
  includes-keep_if p (x ∷ xs) a = elim (Bool-cases (x == a)) [
    | inl same ↦
        let at : x ≡ a = (e.beq_iff x a).0 same in
        ground (arith, includes-keep_if p xs a, at, ap p at)
    | inr other ↦ ground (arith, includes-keep_if p xs a)
  ]

  pub includes-append :
      (xs ys : List A) (a : A) → includes (xs ++ ys) a ≡ (includes xs a || includes ys a)
  includes-append [] ys a = refl
  includes-append (x ∷ xs) ys a = ground (arith, includes-append xs ys a)
