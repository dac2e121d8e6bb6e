-- ===== src/Fence/Versions.antt =====
-- packages/opencode/src/core/version-fence.ts: versions, read from text, and their precedence. A text
-- is its UTF-16 code units, and a number is exact, as in JavaScript below 2^53.
use openai_auth.Prelude.{
  ℕ, ◌+◌, ◌-◌, ◌*◌, Bool, true, false, ◌&&◌, ◌||◌, not, Option, none, some, List, [], ◌∷◌, length,
  ltb, leb, if◌then◌else◌, ◌==◌, nat_eq,
}

abbrev pub Text : Type 0
Text = List ℕ

abbrev pub between : ℕ → ℕ → ℕ → Bool
between low high c = leb low c && leb c high

abbrev pub is_digit : ℕ → Bool
is_digit c = between 48 57 c

-- `[0-9A-Za-z-]`, and with the dot.
abbrev pub is_identifier_char : ℕ → Bool
is_identifier_char c = is_digit c || between 65 90 c || between 97 122 c || c == 45

abbrev pub is_suffix_char : ℕ → Bool
is_suffix_char c = is_identifier_char c || c == 46

-- What String.prototype.trim takes away.
abbrev pub is_space : ℕ → Bool
is_space c =
    between 9 13 c
    || c == 32
    || c == 160
    || c == 5760
    || between 8192 8202 c
    || c == 8232
    || c == 8233
    || c == 8239
    || c == 8287
    || c == 12288
    || c == 65279

abbrev pub is_empty : {A : Type 0} → List A → Bool
is_empty [] = true
is_empty (x ∷ xs) = false

abbrev drop_spaces : Text → Text
drop_spaces [] = []
drop_spaces (c ∷ cs) = let rest = drop_spaces cs in if is_space c then rest else c ∷ cs

abbrev drop_last_spaces : Text → Text
drop_last_spaces [] = []
drop_last_spaces (c ∷ cs) =
    let rest = drop_last_spaces cs in if is_space c && is_empty rest then [] else c ∷ rest

abbrev trim : Text → Text
trim text = drop_last_spaces (drop_spaces text)

-- The longest run of characters that pass the test, and the rest.
abbrev pub taken : (ℕ → Bool) → Text → Text
taken test [] = []
taken test (c ∷ cs) = let rest = taken test cs in if test c then c ∷ rest else []

abbrev pub left_of : (ℕ → Bool) → Text → Text
left_of test [] = []
left_of test (c ∷ cs) = let rest = left_of test cs in if test c then rest else c ∷ cs

abbrev pub all_pass : (ℕ → Bool) → Text → Bool
all_pass test [] = true
all_pass test (c ∷ cs) = test c && all_pass test cs

abbrev pub number_from : ℕ → Text → ℕ
number_from n [] = n
number_from n (c ∷ cs) = number_from (n * 10 + (c - 48)) cs

-- `c`, then the rest.
abbrev pub after : ℕ → Text → Option Text
after c [] = none
after c (d ∷ cs) = if d == c then some cs else none

abbrev pub and_then : {A B : Type 0} → Option A → (A → Option B) → Option B
and_then none f = none
and_then (some a) f = f a

-- `(\d+)`
abbrev pub parse_number : Text → Option (ℕ × Text)
parse_number text =
    if is_empty (taken is_digit text)
    then none
    else some (number_from 0 (taken is_digit text), left_of is_digit text)

abbrev put_first : ℕ → List Text → List Text
put_first c [] = (c ∷ []) ∷ []
put_first c (word ∷ words) = (c ∷ word) ∷ words

-- `split('.')`
abbrev split_dots : Text → List Text
split_dots [] = [] ∷ []
split_dots (c ∷ cs) = let words = split_dots cs in if c == 46 then [] ∷ words else put_first c words

abbrev none_empty : List Text → Bool
none_empty [] = true
none_empty (word ∷ words) = not (is_empty word) && none_empty words

-- `(?:\+[0-9A-Za-z.-]+)?$`
abbrev is_build : Text → Bool
is_build [] = true
is_build (c ∷ cs) = c == 43 && not (is_empty cs) && all_pass is_suffix_char cs

pub record Semver : Type 0 where
  pub major : ℕ
  pub minor : ℕ
  pub patch : ℕ
  pub pre : List Text

-- The pre-release, and the build metadata, which is dropped.
abbrev parse_pre : Text → Option (List Text)
parse_pre [] = some []
parse_pre (c ∷ cs) =
    if c == 45
    then if none_empty (split_dots (taken is_suffix_char cs))
        && is_build (left_of is_suffix_char cs)
      then some (split_dots (taken is_suffix_char cs))
      else none
    else if is_build (c ∷ cs)
    then some []
    else none

abbrev optional_v : Text → Text
optional_v [] = []
optional_v (c ∷ cs) = if c == 118 then cs else c ∷ cs

unfoldable pub parse_semver : Text → Option Semver
parse_semver value = and_then (parse_number (optional_v (trim value))) (λ major.
    and_then (after 46 major.1) (λ text. and_then (parse_number text) (λ minor.
      and_then (after 46 minor.1) (λ text. and_then (parse_number text) (λ patch.
        and_then (parse_pre patch.1) (λ pre.
          some (record { major = major.0; minor = minor.0; patch = patch.0; pre = pre })))))))

-- A negative number, zero, or a positive one.
pub data Sign : Type 0 where
  less : Sign
  equal : Sign
  greater : Sign

abbrev pub then_sign : Sign → Sign → Sign
then_sign equal s = s
then_sign less s = less
then_sign greater s = greater

unfoldable pub nat_order : ℕ → ℕ → Sign
nat_order x y = if ltb x y then less else if ltb y x then greater else equal

-- Two lists by their first difference; what has no such place is less.
unfoldable pub list_order : {A : Type 0} → (A → A → Sign) → List A → List A → Sign
list_order order [] [] = equal
list_order order [] (y ∷ ys) = less
list_order order (x ∷ xs) [] = greater
list_order order (x ∷ xs) (y ∷ ys) = then_sign (order x y) (list_order order xs ys)

-- An identifier of the pre-release.
pub data Identifier : Type 0 where
  numeric : ℕ → Identifier
  word : Text → Identifier

abbrev pub identifier : Text → Identifier
identifier text =
    if all_pass is_digit text && not (is_empty text)
    then numeric (number_from 0 text)
    else word text

unfoldable pub identifier_order : Identifier → Identifier → Sign
unfolding nat_order list_order
identifier_order (numeric x) (numeric y) = nat_order x y
identifier_order (numeric x) (word y) = less
identifier_order (word x) (numeric y) = greater
identifier_order (word x) (word y) = list_order nat_order x y

unfoldable pub pre_order : List Text → List Text → Sign
unfolding identifier_order
pre_order left right =
    if is_empty left || is_empty right
    then nat_order (length right) (length left)
    else list_order (λ x y. identifier_order (identifier x) (identifier y)) left right

unfoldable pub semver_order : Semver → Semver → Sign
unfolding pre_order
semver_order left right = then_sign (nat_order left.major right.major) (
    then_sign (nat_order left.minor right.minor)
      (then_sign (nat_order left.patch right.patch) (pre_order left.pre right.pre)))

abbrev pub order_of : Option Semver → Option Semver → Option Sign
order_of none right = none
order_of (some a) none = none
order_of (some a) (some b) = some (semver_order a b)

unfoldable pub compare_versions : Text → Text → Option Sign
unfolding parse_semver semver_order
compare_versions a b = order_of (parse_semver a) (parse_semver b)
