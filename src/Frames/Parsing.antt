-- ===== src/Frames/Parsing.antt =====
-- packages/opencode/src/raw-ws-node.ts: reading a frame from a longer buffer.
use openai_auth.Prelude.{
  ℕ, zero, suc, ◌+◌, ◌-◌, ◌%◌, ◌≤◌, ◌≡◌, refl, inl, inr, Bool, true, false, Option, none, some, [],
  ◌∷◌, ◌++◌, length, ltb, if◌then◌else◌, ◌==◌, nat_eq, arith, Bool-cases, ap, length-append, subst,
  Option-cases,
}
use openai_auth.Frames.{
  Bytes, Frame, take, skip, number_of, payload_length, mask_length, cut_payload, with_length,
  parse_frame, high_bit,
}

take-append : (n : ℕ) (xs ys : Bytes) → n ≤ length xs → take n (xs ++ ys) ≡ take n xs
take-append zero xs ys h = refl
take-append (suc n) [] ys h = absurd (ground (arith, h))
take-append (suc n) (x ∷ xs) ys h = ap (λ t. x ∷ t) (take-append n xs ys (ground (arith, h)))

skip-append : (n : ℕ) (xs ys : Bytes) → n ≤ length xs → skip n (xs ++ ys) ≡ skip n xs ++ ys
skip-append zero xs ys h = refl
skip-append (suc n) [] ys h = absurd (ground (arith, h))
skip-append (suc n) (x ∷ xs) ys h = skip-append n xs ys (ground (arith, h))

length-skip : (n : ℕ) (xs : Bytes) → length (skip n xs) ≡ length xs - n
length-skip zero xs = omega arith
length-skip (suc n) [] = omega arith
length-skip (suc n) (x ∷ xs) = omega (arith, length-skip n xs)

-- More bytes behind what a frame needs change nothing of the frame.
Extends : Bytes → Option (Frame × Bytes) → Option (Frame × Bytes) → Type 0
Extends more before after =
    (frame : Frame) (rest : Bytes)
    → before ≡ some (frame, rest)
    → after ≡ some (frame, rest ++ more)

abbrev with_more : Bytes → Option (Frame × Bytes) → Option (Frame × Bytes)
with_more more none = none
with_more more (some (frame, rest)) = some (frame, rest ++ more)

unwrap : (b : Bool) (o p : Option (Frame × Bytes)) → (if b then none else o) ≡ p → b ≡ false → o ≡ p
unwrap true o p h e = absurd (cc)
unwrap false o p h e = h

said-append :
    (k : ℕ) (rest more : Bytes) (p : ℕ × ℕ)
    → (if ltb (length rest) k then none else some (number_of 0 (take k rest), k)) ≡ some p
    → (if ltb (length (rest ++ more)) k
        then none
        else some (number_of 0 (take k (rest ++ more)), k))
      ≡ some p
said-append k rest more p h = elim (Bool-cases (ltb (length rest) k)) [
  | inl short ↦ absurd (ground (arith, h, short))
  | inr there ↦
      let still : ltb (length (rest ++ more)) k ≡ false =
        ground (arith, there, length-append rest more) in
      rw (still, take-append k rest more (ground (arith, there)), ← h, there) refl
]

payload_length-append :
    (len : ℕ) (rest more : Bytes) (p : ℕ × ℕ)
    → payload_length len rest ≡ some p
    → payload_length len (rest ++ more) ≡ some p
payload_length-append len rest more p = elim (Bool-cases (len == 126)) [
  | inl two ↦ rw two (said-append 2 rest more p)
  | inr other ↦ rw other (elim (Bool-cases (len == 127)) [
    | inl eight ↦ rw eight (said-append 8 rest more p)
    | inr short ↦ rw short (λ h. h)
  ])
]

cut_payload-append :
    (b0 offset len : ℕ) (rest more : Bytes)
    → Extends more (cut_payload b0 offset len rest) (cut_payload b0 offset len (rest ++ more))
unfolding Extends
cut_payload-append b0 offset len rest more frame behind h =
    elim (Bool-cases (ltb (length rest) (offset + len))) [
      | inl short ↦ absurd (ground (arith, h, short))
      | inr there ↦
          let still : ltb (length (rest ++ more)) (offset + len) ≡ false =
            ground (arith, there, length-append rest more) in
          let all : offset + len ≤ length rest = ground (arith, there) in
          let first : offset ≤ length rest = omega (arith, all) in
          let body : len ≤ length (skip offset rest) =
            omega (arith, all, length-skip offset rest) in
          rw
            (
              still,
              skip-append offset rest more first,
              take-append len (skip offset rest) more body,
              skip-append (offset + len) rest more all,
            )
            (ap (with_more more) (
              unwrap (ltb (length rest) (offset + len)) (some (whole, skip (offset + len) rest))
                (some (frame, behind)) h there))
    ]
  where
    whole : Frame
    whole = record { fin = high_bit b0; opcode = b0 % 16; payload = take len (skip offset rest) }

-- A frame that a buffer starts with is the same in every longer buffer.
pub parse_frame-append :
    (buffer more : Bytes) (frame : Frame) (rest : Bytes)
    → parse_frame buffer ≡ some (frame, rest)
    → parse_frame (buffer ++ more) ≡ some (frame, rest ++ more)
unfolding parse_frame Extends
parse_frame-append [] more frame rest h = absurd (cc)
parse_frame-append (b0 ∷ []) more frame rest h = absurd (cc)
parse_frame-append (b0 ∷ b1 ∷ body) more frame rest h =
    elim (Option-cases (payload_length (b1 % 128) body)) [
      | inl short ↦ absurd (no_frame (subst (λ o. with_length b0 b1 body o ≡ found) short h))
      | inr ((len, said), there) ↦
          rw (payload_length-append (b1 % 128) body more (len, said) there) (
            cut_payload-append b0 (said + mask_length b1) len body more frame rest
              (subst (λ o. with_length b0 b1 body o ≡ found) there h))
    ]
  where
    found : Option (Frame × Bytes)
    found = some (frame, rest)

    no_frame : none ≡ found → ⊥
    no_frame e = absurd (cc)

cut_payload-shorter :
    (b0 offset len : ℕ) (body : Bytes) (frame : Frame) (rest : Bytes)
    → cut_payload b0 offset len body ≡ some (frame, rest)
    → length rest ≤ length body
cut_payload-shorter b0 offset len body frame rest h =
    elim (Bool-cases (ltb (length body) (offset + len))) [
      | inl short ↦ absurd (ground (arith, h, short))
      | inr there ↦
          let at : skip (offset + len) body ≡ rest = ground (arith, h, there) in
          rw (← at) (omega (arith, length-skip (offset + len) body))
    ]

-- Reading a frame takes two bytes at least.
pub parse_frame-shorter :
    (buffer : Bytes) (frame : Frame) (rest : Bytes)
    → parse_frame buffer ≡ some (frame, rest)
    → length rest + 2 ≤ length buffer
unfolding parse_frame
parse_frame-shorter [] frame rest h = absurd (cc)
parse_frame-shorter (b0 ∷ []) frame rest h = absurd (cc)
parse_frame-shorter (b0 ∷ b1 ∷ body) frame rest h =
    elim (Option-cases (payload_length (b1 % 128) body)) [
      | inl short ↦ absurd (no_frame (subst (λ o. with_length b0 b1 body o ≡ found) short h))
      | inr ((len, said), there) ↦ omega (
        arith,
        cut_payload-shorter b0 (said + mask_length b1) len body frame rest
            (subst (λ o. with_length b0 b1 body o ≡ found) there h),
      )
    ]
  where
    found : Option (Frame × Bytes)
    found = some (frame, rest)

    no_frame : none ≡ found → ⊥
    no_frame e = absurd (cc)
