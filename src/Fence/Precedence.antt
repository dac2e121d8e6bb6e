-- ===== src/Fence/Precedence.antt =====
-- packages/opencode/src/core/version-fence.ts: the precedence of versions is an order.
use mathlib.Core.Option
use openai_auth.Prelude.{ap, ◌≡◌, refl, Bool, true, false, Option, none, some, List, [], ◌∷◌, arith}
use openai_auth.Fence.Versions.{
  Text, Sign, less, equal, greater, then_sign, nat_order, list_order, Identifier, numeric, word,
  identifier, identifier_order, pre_order, Semver, semver_order, parse_semver, order_of,
  compare_versions,
}

abbrev pub flip : Sign → Sign
flip less = greater
flip equal = equal
flip greater = less

abbrev pub same_sign : Sign → Sign → Bool
same_sign less less = true
same_sign equal equal = true
same_sign greater greater = true
same_sign _ _ = false

-- Whether `z` may be the sign of a against c, if `x` is that of a against b, and `y` that of b
-- against c.
abbrev pub fits : Sign → Sign → Sign → Bool
fits equal y z = same_sign y z
fits less less z = same_sign less z
fits less equal z = same_sign less z
fits less greater z = true
fits greater greater z = same_sign greater z
fits greater equal z = same_sign greater z
fits greater less z = true

pub record IsComparison {A : Type 0} (order : A → A → Sign) : Type 0 where
  pub flips : (x y : A) → order y x ≡ flip (order x y)
  pub chains : (x y z : A) → fits (order x y) (order y z) (order x z) ≡ true

flip-then_sign : (s t : Sign) → flip (then_sign s t) ≡ then_sign (flip s) (flip t)
flip-then_sign less t = refl
flip-then_sign equal t = refl
flip-then_sign greater t = refl

fits-then_sign :
    (x y z s t r : Sign)
    → fits x y z ≡ true
    → fits s t r ≡ true
    → fits (then_sign x s) (then_sign y t) (then_sign z r) ≡ true
fits-then_sign x y z s t r h k = ground arith

fits-first : (s : Sign) → fits less s less ≡ true
fits-first less = refl
fits-first equal = refl
fits-first greater = refl

fits-last : (s : Sign) → fits s greater greater ≡ true
fits-last less = refl
fits-last equal = refl
fits-last greater = refl

fits-less : (s : Sign) → fits s less less ≡ true
fits-less less = refl
fits-less equal = refl
fits-less greater = refl

fits-greater : (s : Sign) → fits greater s greater ≡ true
fits-greater less = refl
fits-greater equal = refl
fits-greater greater = refl

nat_order-IsComparison : IsComparison nat_order
unfolding nat_order
nat_order-IsComparison = record { flips = λ x y. ground arith; chains = λ x y z. ground arith }

module _ {A : Type 0} (order : A → A → Sign) (o : IsComparison order) where
  list_order-flips : (xs ys : List A) → list_order order ys xs ≡ flip (list_order order xs ys)
  unfolding list_order
  list_order-flips [] [] = refl
  list_order-flips [] (y ∷ ys) = refl
  list_order-flips (x ∷ xs) [] = refl
  list_order-flips (x ∷ xs) (y ∷ ys) =
      rw (o.flips x y, list_order-flips xs ys, flip-then_sign (order x y) (list_order order xs ys))
        refl

  list_order-chains :
      (xs ys zs : List A)
      → fits (list_order order xs ys) (list_order order ys zs) (list_order order xs zs) ≡ true
  unfolding list_order
  list_order-chains [] [] [] = refl
  list_order-chains [] [] (z ∷ zs) = refl
  list_order-chains [] (y ∷ ys) [] = refl
  list_order-chains [] (y ∷ ys) (z ∷ zs) = fits-first _
  list_order-chains (x ∷ xs) [] [] = refl
  list_order-chains (x ∷ xs) [] (z ∷ zs) = refl
  list_order-chains (x ∷ xs) (y ∷ ys) [] = fits-last _
  list_order-chains (x ∷ xs) (y ∷ ys) (z ∷ zs) =
      fits-then_sign (order x y) (order y z) (order x z) _ _ _ (o.chains x y z)
        (list_order-chains xs ys zs)

  list_order-IsComparison : IsComparison (list_order order)
  list_order-IsComparison = record { flips = list_order-flips; chains = list_order-chains }

-- The comparison of what a function reads.
IsComparison-by :
    {A B : Type 0} (f : A → B) {order : B → B → Sign}
    → IsComparison order
    → IsComparison (λ x y. order (f x) (f y))
IsComparison-by f o = record {
  flips = λ x y. o.flips (f x) (f y);
  chains = λ x y z. o.chains (f x) (f y) (f z);
}

IsComparison-then :
    {A : Type 0} {first second : A → A → Sign}
    → IsComparison first
    → IsComparison second
    → IsComparison (λ x y. then_sign (first x y) (second x y))
IsComparison-then {first = first} {second = second} o p = record {
  flips = λ x y. rw (o.flips x y, p.flips x y, flip-then_sign (first x y) (second x y)) refl;
  chains = λ x y z. fits-then_sign _ _ _ _ _ _ (o.chains x y z) (p.chains x y z);
}

text_order-IsComparison : IsComparison (list_order nat_order)
text_order-IsComparison = list_order-IsComparison nat_order nat_order-IsComparison

identifier_order-flips : (x y : Identifier) → identifier_order y x ≡ flip (identifier_order x y)
unfolding identifier_order
identifier_order-flips (numeric x) (numeric y) = nat_order-IsComparison.flips x y
identifier_order-flips (numeric x) (word y) = refl
identifier_order-flips (word x) (numeric y) = refl
identifier_order-flips (word x) (word y) = text_order-IsComparison.flips x y

identifier_order-chains :
    (x y z : Identifier)
    → fits (identifier_order x y) (identifier_order y z) (identifier_order x z) ≡ true
unfolding identifier_order
identifier_order-chains (numeric x) (numeric y) (numeric z) = nat_order-IsComparison.chains x y z
identifier_order-chains (numeric x) (numeric y) (word z) = fits-less _
identifier_order-chains (numeric x) (word y) (numeric z) = refl
identifier_order-chains (numeric x) (word y) (word z) = fits-first _
identifier_order-chains (word x) (numeric y) (numeric z) = fits-greater _
identifier_order-chains (word x) (numeric y) (word z) = refl
identifier_order-chains (word x) (word y) (numeric z) = fits-last _
identifier_order-chains (word x) (word y) (word z) = text_order-IsComparison.chains x y z

identifier_order-IsComparison : IsComparison identifier_order
identifier_order-IsComparison = record {
  flips = identifier_order-flips;
  chains = identifier_order-chains;
}

pre_list-IsComparison :
    IsComparison (list_order (λ x y. identifier_order (identifier x) (identifier y)))
pre_list-IsComparison =
    list_order-IsComparison _ (IsComparison-by identifier identifier_order-IsComparison)

pre_order-flips : (x y : List Text) → pre_order y x ≡ flip (pre_order x y)
unfolding pre_order nat_order
pre_order-flips [] [] = ground arith
pre_order-flips [] (y ∷ ys) = ground arith
pre_order-flips (x ∷ xs) [] = ground arith
pre_order-flips (x ∷ xs) (y ∷ ys) = pre_list-IsComparison.flips (x ∷ xs) (y ∷ ys)

pre_order-chains : (x y z : List Text) → fits (pre_order x y) (pre_order y z) (pre_order x z) ≡ true
unfolding pre_order nat_order
pre_order-chains [] [] [] = ground arith
pre_order-chains [] [] (z ∷ zs) = ground arith
pre_order-chains [] (y ∷ ys) [] = ground arith
pre_order-chains [] (y ∷ ys) (z ∷ zs) = ground arith
pre_order-chains (x ∷ xs) [] [] = ground arith
pre_order-chains (x ∷ xs) [] (z ∷ zs) = ground arith
pre_order-chains (x ∷ xs) (y ∷ ys) [] = ground arith
pre_order-chains (x ∷ xs) (y ∷ ys) (z ∷ zs) =
    pre_list-IsComparison.chains (x ∷ xs) (y ∷ ys) (z ∷ zs)

pre_order-IsComparison : IsComparison pre_order
pre_order-IsComparison = record { flips = pre_order-flips; chains = pre_order-chains }

pub semver_order-IsComparison : IsComparison semver_order
unfolding semver_order
semver_order-IsComparison =
    IsComparison-then (IsComparison-by (λ v. v.major) nat_order-IsComparison) (
      IsComparison-then (IsComparison-by (λ v. v.minor) nat_order-IsComparison) (
        IsComparison-then (IsComparison-by (λ v. v.patch) nat_order-IsComparison)
          (IsComparison-by (λ v. v.pre) pre_order-IsComparison)))

-- Whether the first version stands before the second or is alike.
abbrev pub is_at_most : Option Sign → Bool
is_at_most none = false
is_at_most (some less) = true
is_at_most (some equal) = true
is_at_most (some greater) = false

order_of-flips : (x y : Option Semver) → order_of y x ≡ Option.map flip (order_of x y)
order_of-flips none none = refl
order_of-flips none (some w) = refl
order_of-flips (some v) none = refl
order_of-flips (some v) (some w) = ap some (semver_order-IsComparison.flips v w)

is_at_most_trans :
    (s t r : Sign)
    → fits s t r ≡ true
    → is_at_most (some s) ≡ true
    → is_at_most (some t) ≡ true
    → is_at_most (some r) ≡ true
is_at_most_trans s t r f h k = ground arith

order_of_trans :
    (x y z : Option Semver)
    → is_at_most (order_of x y) ≡ true
    → is_at_most (order_of y z) ≡ true
    → is_at_most (order_of x z) ≡ true
order_of_trans (some u) (some v) (some w) h k =
    is_at_most_trans _ _ _ (semver_order-IsComparison.chains u v w) h k
order_of_trans (some u) (some v) none h k = absurd (cc)
order_of_trans (some u) none z h k = absurd (cc)
order_of_trans none y z h k = absurd (cc)

-- Comparing two versions the other way round gives the opposite sign, and fails for the same texts.
pub compare_versions-flips :
    (a b : Text) → compare_versions b a ≡ Option.map flip (compare_versions a b)
unfolding compare_versions
compare_versions-flips a b = order_of-flips (parse_semver a) (parse_semver b)

-- The precedence of versions is transitive: if a version stands before a second one or is alike, and
-- so does the second with a third, then so does the first with the third.
pub compare_versions_trans :
    (a b c : Text)
    → is_at_most (compare_versions a b) ≡ true
    → is_at_most (compare_versions b c) ≡ true
    → is_at_most (compare_versions a c) ≡ true
unfolding compare_versions
compare_versions_trans a b c = order_of_trans (parse_semver a) (parse_semver b) (parse_semver c)
