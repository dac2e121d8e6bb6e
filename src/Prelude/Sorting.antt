-- ===== src/Prelude/Sorting.antt =====
-- Array.prototype.sort, which is stable, by a test `le x y` that says when `x` may stand first.
use mathlib.Core.Path.{◌≡◌, refl, subst}
use mathlib.Core.Logic.{◌⊎◌, ◌≢◌, inl, inr}
use mathlib.Core.Bool.{Bool, true, false}
use mathlib.Core.List.{List, [], ◌∷◌}
use mathlib.Core.Option.{Option, none, some}
use openai_auth.Prelude.Tests.{if◌then◌else◌, Bool-cases, if_intro}
use openai_auth.Prelude.Lists.{All, All-imp, keep_if}

module _ {A : Type 0} where
  abbrev pub In : A → List A → Type 0
  In x [] = ⊥
  In x (y ∷ ys) = (x ≡ y) ⊎ In x ys

  pub All-In {κ} : (P : A → Type κ) (xs : List A) (x : A) → All P xs → In x xs → P x
  All-In P [] x h i = absurd i
  All-In P (y ∷ ys) x h (inl e) = rw e h.0
  All-In P (y ∷ ys) x h (inr i) = All-In P ys x h.1 i

  In-tail : (x y : A) (ys zs : List A) → (In x ys → In x zs) → In x (y ∷ ys) → In x (y ∷ zs)
  In-tail x y ys zs f (inl e) = inl e
  In-tail x y ys zs f (inr i) = inr (f i)

  pub In-keep_if : (p : A → Bool) (xs : List A) (x : A) → In x (keep_if p xs) → In x xs
  In-keep_if p [] x i = i
  In-keep_if p (y ∷ ys) x i = elim (Bool-cases (p y)) [
    | inl e ↦
        let there : In x (y ∷ keep_if p ys) = rw e at i in
        In-tail x y (keep_if p ys) ys (In-keep_if p ys x) there
    | inr e ↦ let there : In x (keep_if p ys) = rw e at i in inr (In-keep_if p ys x there)
  ]

  -- What is of the list and passes the test is kept.
  pub In-keep_if_of_test :
      (p : A → Bool) (xs : List A) (x : A) → In x xs → p x ≡ true → In x (keep_if p xs)
  In-keep_if_of_test p [] x i h = i
  In-keep_if_of_test p (y ∷ ys) x (inl e) h = let q : p y ≡ true = rw e at h in rw q (inl e)
  In-keep_if_of_test p (y ∷ ys) x (inr i) h =
      if_intro (In x) (p y) (y ∷ keep_if p ys) (keep_if p ys)
        (λ _. inr (In-keep_if_of_test p ys x i h)) (λ _. In-keep_if_of_test p ys x i h)

  unfoldable pub insert_by : (A → A → Bool) → A → List A → List A
  insert_by le x [] = x ∷ []
  insert_by le x (y ∷ ys) = if le x y then x ∷ y ∷ ys else y ∷ insert_by le x ys

  unfoldable pub sort_by : (A → A → Bool) → List A → List A
  unfolding insert_by
  sort_by le [] = []
  sort_by le (x ∷ xs) = insert_by le x (sort_by le xs)

  In-insert_by :
      (le : A → A → Bool) (x y : A) (ys : List A) → In y (insert_by le x ys) → In y (x ∷ ys)
  unfolding insert_by
  In-insert_by le x y [] i = i
  In-insert_by le x y (z ∷ zs) i =
      if_intro (λ l. In y l → In y (x ∷ z ∷ zs)) (le x z) (x ∷ z ∷ zs) (z ∷ insert_by le x zs)
        (λ _ j. j) (λ _. swapped (In-insert_by le x y zs)) i
    where
      apart : In y (x ∷ zs) → In y (x ∷ z ∷ zs)
      apart (inl e) = inl e
      apart (inr i) = inr (inr i)

      swapped :
          (In y (insert_by le x zs) → In y (x ∷ zs))
          → In y (z ∷ insert_by le x zs)
          → In y (x ∷ z ∷ zs)
      swapped f (inl e) = inr (inl e)
      swapped f (inr i) = apart (f i)

  insert_by-In :
      (le : A → A → Bool) (x y : A) (ys : List A) → In y (x ∷ ys) → In y (insert_by le x ys)
  unfolding insert_by
  insert_by-In le x y [] i = i
  insert_by-In le x y (z ∷ zs) i =
      if_intro (In y) (le x z) (x ∷ z ∷ zs) (z ∷ insert_by le x zs) (λ _. i)
        (λ _. swapped (insert_by-In le x y zs) i)
    where
      swapped :
          (In y (x ∷ zs) → In y (insert_by le x zs))
          → In y (x ∷ z ∷ zs)
          → In y (z ∷ insert_by le x zs)
      swapped f (inl e) = inr (f (inl e))
      swapped f (inr (inl e)) = inl e
      swapped f (inr (inr i)) = inr (f (inr i))

  -- Sorting keeps what is listed.
  pub In-sort_by : (le : A → A → Bool) (y : A) (xs : List A) → In y (sort_by le xs) → In y xs
  unfolding sort_by
  In-sort_by le y [] i = i
  In-sort_by le y (x ∷ xs) i =
      In-tail y x (sort_by le xs) xs (In-sort_by le y xs) (In-insert_by le x y (sort_by le xs) i)

  pub sort_by-In : (le : A → A → Bool) (y : A) (xs : List A) → In y xs → In y (sort_by le xs)
  unfolding sort_by
  sort_by-In le y [] i = i
  sort_by-In le y (x ∷ xs) i =
      insert_by-In le x y (sort_by le xs) (In-tail y x xs (sort_by le xs) (sort_by-In le y xs) i)

  unfoldable pub head_of : List A → Option A
  head_of [] = none
  head_of (x ∷ xs) = some x

  abbrev earlier : (A → A → Bool) → A → Option A → A
  earlier le x none = x
  earlier le x (some y) = if le x y then x else y

  head_of-insert_by :
      (le : A → A → Bool) (x : A) (ys : List A)
      → head_of (insert_by le x ys) ≡ some (earlier le x (head_of ys))
  unfolding insert_by head_of
  head_of-insert_by le x [] = refl
  head_of-insert_by le x (y ∷ ys) = elim (Bool-cases (le x y)) [
    | inl e ↦ rw e refl
    | inr e ↦ rw e refl
  ]

  pub sort_by-none : (le : A → A → Bool) (xs : List A) → head_of (sort_by le xs) ≡ none → xs ≡ []
  unfolding sort_by
  sort_by-none le [] h = refl
  sort_by-none le (x ∷ xs) h = absurd (cc (head_of-insert_by le x (sort_by le xs)))

  -- What stands first after sorting by a total preorder is of the list, and before all of it.
  module _ (le : A → A → Bool) (total : (x y : A) → le x y ≡ false → le y x ≡ true)
      (trans : (x y z : A) → le x y ≡ true → le y z ≡ true → le x z ≡ true) where
    le_refl : (x : A) → le x x ≡ true
    le_refl x = elim (Bool-cases (le x x)) [ inl e ↦ e | inr e ↦ total x x e ]

    earlier_lem :
        (x : A) (xs : List A) (o : Option A)
        → (o ≡ none → xs ≡ [])
        → ((y : A) → o ≡ some y → In y xs × All (λ z. le y z ≡ true) xs)
        → In (earlier le x o) (x ∷ xs) × All (λ z. le (earlier le x o) z ≡ true) (x ∷ xs)
    earlier_lem x xs none f g = rw (f refl) (inl refl, (le_refl x, tt))
    earlier_lem x xs (some y) f g =
        if_intro (λ v. In v (x ∷ xs) × All (λ z. le v z ≡ true) (x ∷ xs)) (le x y) x y
          (λ e. (
            inl refl,
            (
              le_refl x,
              All-imp (λ z. le y z ≡ true) (λ z. le x z ≡ true) xs (λ z h. trans x y z e h)
                  (g y refl).1,
            ),
          ))
          (λ e. (inr (g y refl).0, (total x y e, (g y refl).1)))

    pub sort_by-head :
        (xs : List A) (y : A)
        → head_of (sort_by le xs) ≡ some y
        → In y xs × All (λ z. le y z ≡ true) xs
    unfolding sort_by head_of
    sort_by-head [] y h = absurd (cc)
    sort_by-head (x ∷ xs) y h =
        let at : earlier le x (head_of (sort_by le xs)) ≡ y =
          cc (head_of-insert_by le x (sort_by le xs)) in
        subst (λ v. In v (x ∷ xs) × All (λ z. le v z ≡ true) (x ∷ xs)) at
          (earlier_lem x xs (head_of (sort_by le xs)) (sort_by-none le xs) (sort_by-head xs))

  -- A list is sorted into one with a first entry, if it has an entry.
  pub sort_by-some :
      (le : A → A → Bool) (x : A) (xs : List A) → head_of (sort_by le (x ∷ xs)) ≢ none
  unfolding sort_by
  sort_by-some le x xs h = absurd (cc (head_of-insert_by le x (sort_by le xs)))
