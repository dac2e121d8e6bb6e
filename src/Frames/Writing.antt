-- ===== src/Frames/Writing.antt =====
-- packages/opencode/src/raw-ws-node.ts: the frames that the client writes. `mask` is the four bytes
-- that crypto.getRandomValues gives.
use Prim.Native.Nat.{bit_or, bit_xor}
use openai_auth.Prelude.{
  ℕ, zero, suc, ◌+◌, ◌/◌, ◌%◌, ◌^◌, Option, none, some, [], ◌∷◌, ◌++◌, length, ltb, if◌then◌else◌,
  nat_eq,
}
use openai_auth.Frames.{Bytes, Frame, take, skip, payload_length, high_bit}

pub record Mask : Type 0 where
  pub first : ℕ
  pub second : ℕ
  pub third : ℕ
  pub fourth : ℕ

abbrev pub mask_bytes : Mask → Bytes
mask_bytes mask = mask.first ∷ mask.second ∷ mask.third ∷ mask.fourth ∷ []

-- `mask[i]`
abbrev pub mask_byte : Mask → ℕ → ℕ
mask_byte mask zero = mask.first
mask_byte mask (suc zero) = mask.second
mask_byte mask (suc (suc zero)) = mask.third
mask_byte mask (suc (suc (suc i))) = mask.fourth

-- `masked[i] = payload[i] ^ mask[i % 4]`, from an index on.
unfoldable pub masked_from : Mask → ℕ → Bytes → Bytes
masked_from mask i [] = []
masked_from mask i (b ∷ payload) =
    bit_xor b (mask_byte mask (i % 4)) ∷ masked_from mask (suc i) payload

unfoldable pub masked : Mask → Bytes → Bytes
unfolding masked_from
masked mask payload = masked_from mask 0 payload

-- The length of a payload, as it is written.
abbrev pub length_bytes : ℕ → Bytes
length_bytes len =
    len / 256 ^ 7 % 256
    ∷ len / 256 ^ 6 % 256
    ∷ len / 256 ^ 5 % 256
    ∷ len / 256 ^ 4 % 256
    ∷ len / 256 ^ 3 % 256
    ∷ len / 256 ^ 2 % 256
    ∷ len / 256 ^ 1 % 256
    ∷ len / 256 ^ 0 % 256
    ∷ []

unfoldable pub header : ℕ → ℕ → Bytes
header opcode len =
    if ltb len 126
    then bit_or 128 opcode ∷ bit_or 128 len ∷ []
    else if ltb len 65536
    then bit_or 128 opcode ∷ bit_or 128 126 ∷ len / 256 % 256 ∷ len % 256 ∷ []
    else bit_or 128 opcode ∷ bit_or 128 127 ∷ length_bytes len

unfoldable pub write_frame : ℕ → Bytes → Mask → Bytes
unfolding header masked
write_frame opcode payload mask =
    header opcode (length payload) ++ mask_bytes mask ++ masked mask payload

-- The mask for the bytes after the first, and the bytes behind a mask, as RFC 6455 has them.
abbrev pub turned : Mask → Mask
turned mask = record {
  first = mask.second;
  second = mask.third;
  third = mask.fourth;
  fourth = mask.first;
}

unfoldable pub unmasked : Mask → Bytes → Bytes
unmasked mask [] = []
unmasked mask (b ∷ payload) = bit_xor b mask.first ∷ unmasked (turned mask) payload

-- A server's reading of a masked frame, as RFC 6455 has it: the first frame and what is behind it.
abbrev pub mask_of : Bytes → Mask
mask_of (a ∷ b ∷ c ∷ d ∷ rest) = record { first = a; second = b; third = c; fourth = d }
mask_of _ = record { first = 0; second = 0; third = 0; fourth = 0 }

abbrev pub receive_payload : ℕ → Option (ℕ × ℕ) → Bytes → Option (Frame × Bytes)
receive_payload b0 none rest = none
receive_payload b0 (some (len, said)) rest =
    if ltb (length rest) (said + 4 + len)
    then none
    else some (
      record {
        fin = high_bit b0;
        opcode = b0 % 16;
        payload = unmasked (mask_of (skip said rest)) (take len (skip 4 (skip said rest)));
      },
      skip len (skip 4 (skip said rest)),
    )

unfoldable pub receive : Bytes → Option (Frame × Bytes)
unfolding unmasked
receive [] = none
receive (b0 ∷ []) = none
receive (b0 ∷ b1 ∷ rest) =
    if high_bit b1 then receive_payload b0 (payload_length (b1 % 128) rest) rest else none
