-- ===== src/Frames/Masking.antt =====
-- packages/opencode/src/raw-ws-node.ts: masking a payload twice gives it back.
use Prim.Native.Nat.{bit_or, bit_xor}
use openai_auth.Prelude.{
  if◌then◌else◌, ℕ, zero, suc, ◌+◌, ◌%◌, ◌<◌, ◌≡◌, refl, ap, Bool, true, false, [], ◌∷◌, All,
  length, ◌==◌, nat_eq, nat_beq_iff, arith,
}
use openai_auth.Frames.{Bytes}
use openai_auth.Frames.Writing.{Mask, mask_byte, masked_from, masked, turned, unmasked}

-- Whether a test of bytes passes below a bound; both tables come from it by computation.
passes_below : (ℕ → Bool) → ℕ → Bool
passes_below test zero = true
passes_below test (suc bound) = if test bound then passes_below test bound else false

passes_at :
    (test : ℕ → Bool) (bound byte : ℕ)
    → byte < bound
    → passes_below test bound ≡ true
    → test byte ≡ true
unfolding passes_below
passes_at test zero byte below h = absurd (omega arith)
passes_at test (suc bound) byte below h = ground (arith, passes_at test bound byte)

sets_high : ℕ → Bool
sets_high low = bit_or 128 low == low + 128

pub bit_or_high : (low : ℕ) → low < 128 → bit_or 128 low ≡ 128 + low
unfolding passes_below sets_high
bit_or_high low h =
    omega (arith, (nat_beq_iff (bit_or 128 low) (low + 128)).0 (passes_at sets_high 128 low h refl))

undoes : ℕ → ℕ → Bool
undoes key byte = bit_xor (bit_xor byte key) key == byte

bit_xor_twice : (b m : ℕ) → b < 256 → m < 256 → bit_xor (bit_xor b m) m ≡ b
unfolding passes_below undoes
bit_xor_twice b m h k =
    (nat_beq_iff (bit_xor (bit_xor b m) m) b).0
      (passes_at (undoes m) 256 b h (passes_at (λ key. passes_below (undoes key) 256) 256 m k refl))

abbrev pub IsByte : ℕ → Type 0
IsByte b = b < 256

pub record IsMask (mask : Mask) : Type 0 where
  pub first : IsByte mask.first
  pub second : IsByte mask.second
  pub third : IsByte mask.third
  pub fourth : IsByte mask.fourth

pub length-masked_from :
    (mask : Mask) (i : ℕ) (payload : Bytes) → length (masked_from mask i payload) ≡ length payload
unfolding masked_from
length-masked_from mask i [] = refl
length-masked_from mask i (b ∷ payload) = ap suc (length-masked_from mask (suc i) payload)

-- The mask that the reader has come to at index `i`.
record Follows (mask : Mask) (i : ℕ) (turn : Mask) : Type 0 where
  first : mask_byte mask (i % 4) ≡ turn.first
  second : mask_byte mask (suc i % 4) ≡ turn.second
  third : mask_byte mask (suc (suc i) % 4) ≡ turn.third
  fourth : mask_byte mask (suc (suc (suc i)) % 4) ≡ turn.fourth

turned-Follows :
    (mask : Mask) (i : ℕ) (turn : Mask) → Follows mask i turn → Follows mask (suc i) (turned turn)
turned-Follows mask i turn f =
    let around : suc (suc (suc (suc i))) % 4 ≡ i % 4 = omega arith in
    record { first = f.second; second = f.third; third = f.fourth; fourth = rw around f.first }

unmasked-masked_from :
    (mask : Mask) (i : ℕ) (turn : Mask) (payload : Bytes)
    → Follows mask i turn
    → IsMask turn
    → All IsByte payload
    → unmasked turn (masked_from mask i payload) ≡ payload
unfolding masked_from unmasked
unmasked-masked_from mask i turn [] f m h = refl
unmasked-masked_from mask i turn (b ∷ payload) f m h =
    rw (f.first, bit_xor_twice b turn.first h.0 m.first)
      (ap (λ t. b ∷ t)
        (unmasked-masked_from mask (suc i) (turned turn) payload (turned-Follows mask i turn f)
          (record { first = m.second; second = m.third; third = m.fourth; fourth = m.first }) h.1))

pub unmasked-masked :
    (mask : Mask) (payload : Bytes)
    → IsMask mask
    → All IsByte payload
    → unmasked mask (masked mask payload) ≡ payload
unfolding masked
unmasked-masked mask payload m h =
    unmasked-masked_from mask 0 mask payload
      (record { first = refl; second = refl; third = refl; fourth = refl }) m h

pub length-masked : (mask : Mask) (payload : Bytes) → length (masked mask payload) ≡ length payload
unfolding masked
length-masked mask payload = length-masked_from mask 0 payload
