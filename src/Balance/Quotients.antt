-- ===== src/Balance/Quotients.antt =====
-- Quotients of natural numbers, as the weights and scores of accounts.
use openai_auth.Prelude.{ℕ, suc, ◌*◌, ◌≤◌, ◌≡◌, Bool, true, false, leb, leb_iff, arith}
use native.Mathlib.Nat.{mul-le-mul_right, le_of_mul-le-mul_right, zero-lt-suc}

-- `over n d` is n / (d + 1).
pub data Ratio : Type 0 where
  over : ℕ → ℕ → Ratio

unfoldable pub ratio_le : Ratio → Ratio → Bool
ratio_le (over a b) (over c d) = leb (a * suc d) (c * suc b)

pub ratio_le-total : (x y : Ratio) → ratio_le x y ≡ false → ratio_le y x ≡ true
unfolding ratio_le
ratio_le-total (over a b) (over c d) h = ground arith

cross : (a b c d e f : ℕ) → a * suc d ≤ c * suc b → c * suc f ≤ e * suc d → a * suc f ≤ e * suc b
cross a b c d e f h k =
    le_of_mul-le-mul_right {k = suc d}
      (omega (arith, mul-le-mul_right (suc f) h, mul-le-mul_right (suc b) k)) (zero-lt-suc d)

pub ratio_le_trans :
    (x y z : Ratio) → ratio_le x y ≡ true → ratio_le y z ≡ true → ratio_le x z ≡ true
unfolding ratio_le
ratio_le_trans (over a b) (over c d) (over e f) h k = (leb_iff (a * suc f) (e * suc b)).1 (
    cross a b c d e f ((leb_iff (a * suc d) (c * suc b)).0 h)
      ((leb_iff (c * suc f) (e * suc d)).0 k))
