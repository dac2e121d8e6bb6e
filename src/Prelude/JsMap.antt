-- ===== src/Prelude/JsMap.antt =====
-- JavaScript's Map: entries in insertion order, at most one for a key. `set` on a key that is
-- present replaces the value in place, and on a new key appends.
pub mod Unique
use Prim.Native.Nat.{ℕ, ◌+◌, ◌≤◌}
use mathlib.Core.Path.{◌≡◌, refl}
use mathlib.Core.Logic.{inl, inr}
use mathlib.Core.Bool.{Bool, true, false, not}
use mathlib.Core.List.{List, [], ◌∷◌, map}
use mathlib.Core.Option.{Option, none, some}
use native.Mathlib.Omega.{arith}
use openai_auth.Prelude.Tests.{if◌then◌else◌, Bool-cases, is_some}
use openai_auth.Prelude.Equality.{Eq, ◌==◌, ==_refl, eq_of_==}
use openai_auth.Prelude.Lists.{
  length, keep_if, length-keep_if, All, All-imp, All-keep_if, All-keep_if_of_All,
}

abbrev pub JsMap {ℓ κ} : Type ℓ → Type κ → Type (ℓ ⊔ κ)
JsMap K V = List (K × V)

module _ {ℓ κ} {K : Type ℓ} {V : Type κ} where
  abbrev pub size : JsMap K V → ℕ
  size = length

  abbrev pub keys : JsMap K V → List K
  keys = map (λ p. p.0)

  abbrev pub values : JsMap K V → List V
  values = map (λ p. p.1)

module _ {ℓ κ} {K : Type ℓ} {V : Type κ} ⦃e : Eq K⦄ where
  unfoldable pub get : K → JsMap K V → Option V
  get k [] = none
  get k ((j, v) ∷ m) = if j == k then some v else get k m

  abbrev pub has : K → JsMap K V → Bool
  has k m = is_some (get k m)

  unfoldable pub set : K → V → JsMap K V → JsMap K V
  set k v [] = (k, v) ∷ []
  set k v ((j, w) ∷ m) = if j == k then (j, v) ∷ m else (j, w) ∷ set k v m

  unfoldable pub delete : K → JsMap K V → JsMap K V
  delete k m = keep_if (λ p. not (p.0 == k)) m

  pub has-cons_self : (k : K) (v : V) (m : JsMap K V) → has k ((k, v) ∷ m) ≡ true
  unfolding get
  has-cons_self k v m = rw ==_refl refl

  pub has-cons : (k : K) (p : K × V) (m : JsMap K V) → has k m ≡ true → has k (p ∷ m) ≡ true
  unfolding get
  has-cons k (j, v) m h = ground arith

  pub get-set :
      (j k : K) (v : V) (m : JsMap K V) → get j (set k v m) ≡ (if k == j then some v else get j m)
  unfolding get set
  get-set j k v [] = refl
  get-set j k v ((i, w) ∷ m) =
      ground (arith, e.beq_iff k j, e.beq_iff i k, e.beq_iff i j, get-set j k v m)

  pub get-set_self : (k : K) (v : V) (m : JsMap K V) → get k (set k v m) ≡ some v
  get-set_self k v m = simp (get-set, ==_refl)

  pub get-delete :
      (j k : K) (m : JsMap K V) → get j (delete k m) ≡ (if k == j then none else get j m)
  unfolding get delete
  get-delete j k [] = ground arith
  get-delete j k ((i, w) ∷ m) =
      ground (arith, e.beq_iff k j, e.beq_iff i k, e.beq_iff i j, get-delete j k m)

  pub size-delete : (k : K) (m : JsMap K V) → size (delete k m) ≤ size m
  unfolding delete
  size-delete k m = length-keep_if _ m

  pub size-set : (k : K) (v : V) (m : JsMap K V) → size (set k v m) ≤ size m + 1
  unfolding set
  size-set k v [] = omega arith
  size-set k v ((j, w) ∷ m) = ground (arith, size-set k v m)

  pub size-set-has : (k : K) (v : V) (m : JsMap K V) → has k m ≡ true → size (set k v m) ≡ size m
  unfolding set get
  size-set-has k v [] h = ground arith
  size-set-has k v ((j, w) ∷ m) h = ground (arith, size-set-has k v m)

  -- Every entry's key is found.
  pub All-has : (m : JsMap K V) → All (λ p. has p.0 m ≡ true) m
  All-has [] = tt
  All-has ((k, v) ∷ m) = (
    has-cons_self k v m,
    All-imp (λ p. has p.0 m ≡ true) (λ p. has p.0 ((k, v) ∷ m) ≡ true) m
        (λ p h. has-cons p.0 (k, v) m h) (All-has m),
  )

  -- The key of every entry that passes a test is found in the filtered map.
  pub has-keep_if :
      (t : K × V → Bool) (m : JsMap K V) → All (λ p. t p ≡ true → has p.0 (keep_if t m) ≡ true) m
  has-keep_if t [] = tt
  has-keep_if t ((k, v) ∷ m) = (
    λ h. rw h (has-cons_self k v (keep_if t m)),
    All-imp (λ p. t p ≡ true → has p.0 (keep_if t m) ≡ true)
        (λ p. t p ≡ true → has p.0 (keep_if t ((k, v) ∷ m)) ≡ true) m (λ p f h. grows p.0 (f h))
        (has-keep_if t m),
  )
    where
      grows : (j : K) → has j (keep_if t m) ≡ true → has j (keep_if t ((k, v) ∷ m)) ≡ true
      grows j h = elim (Bool-cases (t (k, v))) [
        | inl kept ↦ rw kept (has-cons j (k, v) (keep_if t m) h)
        | inr left ↦ rw left h
      ]

  -- Of a predicate on entries.
  pub All-set {μ} :
      (P : K × V → Type μ) (k : K) (v : V) (m : JsMap K V) → P (k, v) → All P m → All P (set k v m)
  unfolding set
  All-set P k v [] p h = (p, tt)
  All-set P k v ((j, w) ∷ m) p h = elim (Bool-cases (j == k)) [
    | inl same ↦ rw same (rw (eq_of_== j k same) p, h.1)
    | inr other ↦ rw other (h.0, All-set P k v m p h.1)
  ]

  pub All-delete {μ} : (P : K × V → Type μ) (k : K) (m : JsMap K V) → All P m → All P (delete k m)
  unfolding delete
  All-delete P k m h = All-keep_if_of_All P _ m h

  -- Deleting a key leaves entries of other keys.
  pub All-delete_ne {μ ν} :
      (P : K × V → Type μ) (Q : K × V → Type ν) (k : K) (m : JsMap K V)
      → ((p : K × V) → P p → (p.0 == k) ≡ false → Q p)
      → All P m
      → All Q (delete k m)
  unfolding delete
  All-delete_ne P Q k m f h = All-keep_if P Q _ m (λ p q e. f p q (ground arith)) h

  pub All-get {μ} :
      (P : K × V → Type μ) (k : K) (v : V) (m : JsMap K V) → All P m → get k m ≡ some v → P (k, v)
  unfolding get
  All-get P k v [] h g = absurd (ground arith)
  All-get P k v ((j, w) ∷ m) h g = elim (Bool-cases (j == k)) [
    | inl same ↦ let at : w ≡ v = ground arith in rw (← at, ← eq_of_== j k same) h.0
    | inr other ↦ All-get P k v m h.1 (ground arith)
  ]
