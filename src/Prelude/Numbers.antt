-- ===== src/Prelude/Numbers.antt =====
-- JavaScript numbers as the code tests them: a whole number of milliseconds, bytes or percent, or
-- one of the two values that `Number.isFinite` refuses. A comparison with NaN is false.
use Prim.Native.Nat.{ℕ}
use mathlib.Core.Path.{◌≡◌}
use mathlib.Core.Bool.{Bool, true, false}
use native.Mathlib.Omega.{arith}
use openai_auth.Prelude.Tests.{ltb, leb, nat_beq}

pub data JsNumber : Type 0 where
  finite : ℕ → JsNumber
  infinity : JsNumber
  nan : JsNumber

abbrev pub is_finite : JsNumber → Bool
is_finite (finite n) = true
is_finite infinity = false
is_finite nan = false

-- `a < b`
abbrev pub num_lt : JsNumber → JsNumber → Bool
num_lt (finite a) (finite b) = ltb a b
num_lt (finite a) infinity = true
num_lt (finite a) nan = false
num_lt infinity b = false
num_lt nan b = false

-- `a <= b`
abbrev pub num_le : JsNumber → JsNumber → Bool
num_le (finite a) (finite b) = leb a b
num_le (finite a) infinity = true
num_le (finite a) nan = false
num_le infinity (finite b) = false
num_le infinity infinity = true
num_le infinity nan = false
num_le nan b = false

-- `a === b`
abbrev pub num_eq : JsNumber → JsNumber → Bool
num_eq (finite a) (finite b) = nat_beq a b
num_eq (finite a) infinity = false
num_eq (finite a) nan = false
num_eq infinity (finite b) = false
num_eq infinity infinity = true
num_eq infinity nan = false
num_eq nan b = false

pub eq_of_num_eq : (a b : JsNumber) → num_eq a b ≡ true → a ≡ b
eq_of_num_eq (finite a) (finite b) h = ground arith
eq_of_num_eq (finite a) infinity h = ground arith
eq_of_num_eq (finite a) nan h = ground arith
eq_of_num_eq infinity (finite b) h = ground arith
eq_of_num_eq infinity infinity h = ground arith
eq_of_num_eq infinity nan h = ground arith
eq_of_num_eq nan b h = ground arith

pub num_eq_refl : (a : JsNumber) → is_finite a ≡ true → num_eq a a ≡ true
num_eq_refl (finite a) h = ground arith
num_eq_refl infinity h = ground arith
num_eq_refl nan h = ground arith
