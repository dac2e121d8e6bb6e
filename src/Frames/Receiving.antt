-- ===== src/Frames/Receiving.antt =====
-- packages/opencode/src/raw-ws-node.ts: a server reads back the frames that the client writes.
use Prim.Native.Nat.{bit_or}
use openai_auth.Prelude.{
  ℕ, ◌+◌, ◌/◌, ◌%◌, ◌^◌, ◌≤◌, ◌<◌, ◌≡◌, refl, ap, inl, inr, true, false, some, [], ◌∷◌, ◌++◌, All,
  length, length-append, ltb, ◌==◌, nat_eq, arith, Bool-cases,
}
use openai_auth.Frames.{Bytes, take, skip, number_of, high_bit}
use openai_auth.Frames.Masking.{IsByte, IsMask, bit_or_high, length-masked, unmasked-masked}
use openai_auth.Frames.Writing.{
  Mask, mask_bytes, masked, length_bytes, header, write_frame, receive_payload, receive,
}

take-all : (xs ys : Bytes) → take (length xs) (xs ++ ys) ≡ xs
take-all [] ys = refl
take-all (x ∷ xs) ys = ap (λ t. x ∷ t) (take-all xs ys)

skip-all : (xs ys : Bytes) → skip (length xs) (xs ++ ys) ≡ ys
skip-all [] ys = refl
skip-all (x ∷ xs) ys = skip-all xs ys

-- The payload behind the bytes that say its length.
receive_payload-masked :
    (b0 said : ℕ) (rest : Bytes) (mask : Mask) (payload more : Bytes)
    → skip said rest ≡ mask_bytes mask ++ (masked mask payload ++ more)
    → length rest ≡ said + 4 + (length payload + length more)
    → IsMask mask
    → All IsByte payload
    → receive_payload b0 (some (length payload, said)) rest
      ≡ some (record { fin = high_bit b0; opcode = b0 % 16; payload = payload }, more)
receive_payload-masked b0 said rest mask payload more h n m p =
    let there : ltb (length rest) (said + 4 + length payload) ≡ false = ground (arith, n) in
    rw
      (
        there,
        h,
        ← length-masked mask payload,
        take-all (masked mask payload) more,
        skip-all (masked mask payload) more,
        unmasked-masked mask payload m p,
      )
      refl

header-short :
    (opcode len : ℕ) → len < 126 → header opcode len ≡ bit_or 128 opcode ∷ bit_or 128 len ∷ []
unfolding header
header-short opcode len h = let t : ltb len 126 ≡ true = ground (arith, h) in rw t refl

header-middle :
    (opcode len : ℕ)
    → 126 ≤ len
    → len < 65536
    → header opcode len ≡ bit_or 128 opcode ∷ 254 ∷ len / 256 % 256 ∷ len % 256 ∷ []
unfolding header
header-middle opcode len h k =
    let s : ltb len 126 ≡ false = ground (arith, h) in
    let t : ltb len 65536 ≡ true = ground (arith, k) in rw (s, t) refl

header-long :
    (opcode len : ℕ) → 65536 ≤ len → header opcode len ≡ bit_or 128 opcode ∷ 255 ∷ length_bytes len
unfolding header
header-long opcode len h =
    let s : ltb len 126 ≡ false = ground (arith, h) in
    let t : ltb len 65536 ≡ false = ground (arith, h) in rw (s, t) refl

-- Eight bytes hold a length below 2 ^ 64.
number_of-length_bytes : (len : ℕ) → len < 256 ^ 8 → number_of 0 (length_bytes len) ≡ len
number_of-length_bytes len h = omega (arith, h)

length-sent :
    (mask : Mask) (payload more : Bytes)
    → length (mask_bytes mask ++ (masked mask payload ++ more)) ≡ 4 + (length payload + length more)
length-sent mask payload more =
    omega (arith, length-append (masked mask payload) more, length-masked mask payload)

-- Reading a frame by the bytes before its payload.
receive-short :
    (b0 : ℕ) (mask : Mask) (payload more : Bytes)
    → length payload < 126
    → IsMask mask
    → All IsByte payload
    → receive (b0 ∷ (128 + length payload) ∷ (mask_bytes mask ++ (masked mask payload ++ more)))
      ≡ some (record { fin = high_bit b0; opcode = b0 % 16; payload = payload }, more)
unfolding receive
receive-short b0 mask payload more h m p =
    let high : high_bit (128 + length payload) ≡ true = ground (arith, h) in
    let low : (128 + length payload) % 128 ≡ length payload = omega (arith, h) in
    let s : (length payload == 126) ≡ false = ground (arith, h) in
    let t : (length payload == 127) ≡ false = ground (arith, h) in
    rw (high, low, s, t)
      (receive_payload-masked b0 0 (mask_bytes mask ++ (masked mask payload ++ more)) mask payload
        more refl (length-sent mask payload more) m p)

receive-middle :
    (b0 : ℕ) (mask : Mask) (payload more : Bytes)
    → length payload < 65536
    → IsMask mask
    → All IsByte payload
    → receive (
        b0
        ∷ 254
        ∷ length payload / 256 % 256
        ∷ length payload % 256
        ∷ (mask_bytes mask ++ (masked mask payload ++ more)))
      ≡ some (record { fin = high_bit b0; opcode = b0 % 16; payload = payload }, more)
unfolding receive
receive-middle b0 mask payload more h m p =
    let there : ltb
          (length (
            length payload / 256 % 256
            ∷ length payload % 256
            ∷ (mask_bytes mask ++ (masked mask payload ++ more))))
          2
        ≡ false =
      ground arith in
    let said : number_of 0 (length payload / 256 % 256 ∷ length payload % 256 ∷ [])
        ≡ length payload =
      omega (arith, h) in
    rw (there, said)
      (receive_payload-masked b0 2
        (length payload / 256 % 256
          ∷ length payload % 256
          ∷ (mask_bytes mask ++ (masked mask payload ++ more)))
        mask payload more refl (omega (arith, length-sent mask payload more)) m p)

receive-long :
    (b0 : ℕ) (mask : Mask) (payload more : Bytes)
    → length payload < 256 ^ 8
    → IsMask mask
    → All IsByte payload
    → receive (
        b0
        ∷ 255
        ∷ (length_bytes (length payload) ++ (mask_bytes mask ++ (masked mask payload ++ more))))
      ≡ some (record { fin = high_bit b0; opcode = b0 % 16; payload = payload }, more)
unfolding receive
receive-long b0 mask payload more h m p =
    let there : ltb
          (length
            (length_bytes (length payload) ++ (mask_bytes mask ++ (masked mask payload ++ more))))
          8
        ≡ false =
      ground arith in
    rw (there, number_of-length_bytes (length payload) h)
      (receive_payload-masked b0 8
        (length_bytes (length payload) ++ (mask_bytes mask ++ (masked mask payload ++ more))) mask
        payload more refl (omega (arith, length-sent mask payload more)) m p)

-- A server that reads frames as RFC 6455 has it reads every frame that the client writes back: one
-- final frame of the opcode with the payload, whatever the mask and whatever follows, if the opcode
-- is below 16, the payload has fewer than 2 ^ 64 bytes, and each byte is below 256.
pub receive-write_frame :
    (opcode : ℕ) (payload : Bytes) (mask : Mask) (more : Bytes)
    → opcode < 16
    → length payload < 256 ^ 8
    → IsMask mask
    → All IsByte payload
    → receive (write_frame opcode payload mask ++ more)
      ≡ some (record { fin = true; opcode = opcode; payload = payload }, more)
unfolding write_frame
receive-write_frame opcode payload mask more small h m p =
    let first : high_bit (128 + opcode) ≡ true = ground (arith, small) in
    let low : (128 + opcode) % 16 ≡ opcode = omega (arith, small) in
    elim (Bool-cases (ltb (length payload) 126)) [
      | inl short ↦
          rw
            (
              header-short opcode (length payload) (ground (arith, short)),
              bit_or_high opcode (omega (arith, small)),
              bit_or_high (length payload) (ground (arith, short)),
            )
            (rw (first, low) at
              (receive-short (128 + opcode) mask payload more (ground (arith, short)) m p))
      | inr more_bytes ↦ elim (Bool-cases (ltb (length payload) 65536)) [
        | inl middle ↦
            rw
              (
                header-middle opcode (length payload) (ground (arith, more_bytes))
                    (ground (arith, middle)),
                bit_or_high opcode (omega (arith, small)),
              )
              (rw (first, low) at
                (receive-middle (128 + opcode) mask payload more (ground (arith, middle)) m p))
        | inr long ↦
            rw
              (
                header-long opcode (length payload) (ground (arith, long)),
                bit_or_high opcode (omega (arith, small)),
              )
              (rw (first, low) at (receive-long (128 + opcode) mask payload more h m p))
      ]
    ]
