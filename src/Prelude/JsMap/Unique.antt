-- ===== src/Prelude/JsMap/Unique.antt =====
-- Maps whose keys are distinct, as every map built by `set` and `delete` is.
use Prim.Native.Nat.{suc, ◌≤◌}
use mathlib.Core.Path.{◌≡◌, refl, ap}
use mathlib.Core.Logic.{◌↔◌}
use mathlib.Core.Bool.{Bool, true, false, not}
use mathlib.Core.List.{[], ◌∷◌}
use mathlib.Core.Option.{Option, none, some}
use native.Mathlib.Omega.{arith}
use openai_auth.Prelude.Tests.{if◌then◌else◌}
use openai_auth.Prelude.Equality.{Eq, ◌==◌}
use openai_auth.Prelude.Lists.{keep_if, length-keep_if}
use openai_auth.Prelude.JsMap.{JsMap, size, get, has, set, delete, get-set}

module _ {ℓ κ} {K : Type ℓ} {V : Type κ} ⦃e : Eq K⦄ where
  abbrev pub IsUnique : JsMap K V → Type 0
  IsUnique [] = Unit {0}
  IsUnique ((k, v) ∷ m) = (has k m ≡ false) × IsUnique m

  pub set-IsUnique : (k : K) (v : V) (m : JsMap K V) → IsUnique m → IsUnique (set k v m)
  unfolding set get
  set-IsUnique k v [] u = (refl, tt)
  set-IsUnique k v ((j, w) ∷ m) u =
      ground (arith, e.beq_iff j k, e.beq_iff k j, get-set j k v m, set-IsUnique k v m u.1)

  has-keep_if-false :
      (k : K) (p : K × V → Bool) (m : JsMap K V) → has k m ≡ false → has k (keep_if p m) ≡ false
  unfolding get
  has-keep_if-false k p [] h = refl
  has-keep_if-false k p ((j, w) ∷ m) h = ground (arith, has-keep_if-false k p m)

  pub keep_if-IsUnique : (p : K × V → Bool) (m : JsMap K V) → IsUnique m → IsUnique (keep_if p m)
  keep_if-IsUnique p [] u = tt
  keep_if-IsUnique p ((j, w) ∷ m) u =
      ground (arith, has-keep_if-false j p m u.0, keep_if-IsUnique p m u.1)

  pub delete-IsUnique : (k : K) (m : JsMap K V) → IsUnique m → IsUnique (delete k m)
  unfolding delete
  delete-IsUnique k m u = keep_if-IsUnique _ m u

  abbrev pub kept : (K × V → Bool) → K → Option V → Option V
  kept p k none = none
  kept p k (some v) = if p (k, v) then some v else none

  get-none : (k : K) (m : JsMap K V) → has k m ≡ false → get k m ≡ none
  get-none k m h = ground arith

  -- A key is found in a filtered map when its entry passes the test.
  pub get-keep_if :
      (k : K) (p : K × V → Bool) (m : JsMap K V)
      → IsUnique m
      → get k (keep_if p m) ≡ kept p k (get k m)
  unfolding get
  get-keep_if k p [] u = refl
  get-keep_if k p ((j, w) ∷ m) u = ground (
    arith,
    e.beq_iff j k,
    λ (q : j ≡ k). ap (λ i. p (i, w)) q,
    get-none k (keep_if p m),
    has-keep_if-false k p m,
    get-keep_if k p m u.1,
  )

  pub get-keep_if-eq-some :
      (k : K) (v : V) (p : K × V → Bool) (m : JsMap K V)
      → IsUnique m
      → (get k (keep_if p m) ≡ some v) ↔ ((get k m ≡ some v) × (p (k, v) ≡ true))
  get-keep_if-eq-some k v p m u = rw (get-keep_if k p m u) (passes (get k m))
    where
      passes : (o : Option V) → (kept p k o ≡ some v) ↔ ((o ≡ some v) × (p (k, v) ≡ true))
      passes none = ground arith
      passes (some w) = ground (arith, λ (q : w ≡ v). ap (λ x. p (k, x)) q)

  -- Deleting a key that is present makes the map smaller.
  pub size-delete-has : (k : K) (m : JsMap K V) → has k m ≡ true → suc (size (delete k m)) ≤ size m
  unfolding get delete
  size-delete-has k [] h = ground arith
  size-delete-has k ((j, w) ∷ m) h =
      ground (arith, size-delete-has k m, length-keep_if (λ (q : K × V). not (q.0 == k)) m)
