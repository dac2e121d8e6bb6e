-- ===== src/Frames/Chunks.antt =====
-- packages/opencode/src/raw-ws-node.ts: how the bytes arrive does not matter.
use openai_auth.Prelude.{
  ℕ, zero, suc, ◌+◌, ◌≤◌, ◌≡◌, refl, inl, inr, Bool, true, false, none, some, List, [], ◌∷◌, ◌++◌,
  length, arith, ap, ◌∙◌, sym, subst, if◌then◌else◌, ◌==◌, ◌||◌, nat_eq, Option-cases,
}
use openai_auth.Frames.{
  Bytes, Frame, parse_frame, drain, frames_of, Socket, add_fragment, finish_message, handle_frame,
  handle_frames, drain_frames,
}
use openai_auth.Frames.Parsing.{parse_frame-append, parse_frame-shorter}

-- One step of the loop, by what the buffer starts with.
drain-none : (n : ℕ) (buffer : Bytes) → parse_frame buffer ≡ none → drain n buffer ≡ ([], buffer)
unfolding drain
drain-none zero buffer h = refl
drain-none (suc n) buffer h = rw h refl

drain-some :
    (n : ℕ) (buffer : Bytes) (frame : Frame) (rest : Bytes)
    → parse_frame buffer ≡ some (frame, rest)
    → drain (suc n) buffer ≡ (frame ∷ (drain n rest).0, (drain n rest).1)
unfolding drain
drain-some n buffer frame rest h = rw h refl

-- A buffer without bytes has no frame.
no_frame : (buffer : Bytes) → length buffer ≤ 0 → parse_frame buffer ≡ none
no_frame buffer h = elim (Option-cases (parse_frame buffer)) [
  | inl short ↦ short
  | inr ((frame, rest), there) ↦
      absurd (omega (arith, h, parse_frame-shorter buffer frame rest there))
]

-- Fuel beyond the length of the buffer changes nothing.
drain-fuel :
    (n m : ℕ) (buffer : Bytes)
    → length buffer ≤ n
    → length buffer ≤ m
    → drain n buffer ≡ drain m buffer
drain-fuel zero m buffer h k =
    drain-none zero buffer (no_frame buffer h) ∙ sym (drain-none m buffer (no_frame buffer h))
drain-fuel (suc n) zero buffer h k =
    drain-none (suc n) buffer (no_frame buffer k) ∙ sym (drain-none zero buffer (no_frame buffer k))
drain-fuel (suc n) (suc m) buffer h k = elim (Option-cases (parse_frame buffer)) [
  | inl short ↦ drain-none (suc n) buffer short ∙ sym (drain-none (suc m) buffer short)
  | inr ((frame, rest), there) ↦
      let fewer : length rest + 2 ≤ length buffer = parse_frame-shorter buffer frame rest there in
      drain-some n buffer frame rest there
      ∙ ap (λ (r : List Frame × Bytes). (frame ∷ r.0, r.1))
          (drain-fuel n m rest (omega (arith, fewer, h)) (omega (arith, fewer, k)))
      ∙ sym (drain-some m buffer frame rest there)
]

frames_of-some :
    (buffer : Bytes) (frame : Frame) (rest : Bytes)
    → parse_frame buffer ≡ some (frame, rest)
    → frames_of buffer ≡ (frame ∷ (frames_of rest).0, (frames_of rest).1)
unfolding frames_of
frames_of-some buffer frame rest there =
    let fewer : length rest + 2 ≤ length buffer = parse_frame-shorter buffer frame rest there in
    drain-fuel (length buffer) (suc (length buffer)) buffer (omega arith) (omega arith)
    ∙ drain-some (length buffer) buffer frame rest there
    ∙ ap (λ (r : List Frame × Bytes). (frame ∷ r.0, r.1))
        (drain-fuel (length buffer) (length rest) rest (omega (arith, fewer)) (omega arith))

-- What a longer buffer gives, when its first part gives `drained`.
abbrev Goes : Bytes → Bytes → List Frame × Bytes → Type 0
Goes buffer more drained =
    frames_of (buffer ++ more)
    ≡ (drained.0 ++ (frames_of (drained.1 ++ more)).0, (frames_of (drained.1 ++ more)).1)

drain-Goes : (n : ℕ) (buffer more : Bytes) → length buffer ≤ n → Goes buffer more (drain n buffer)
drain-Goes zero buffer more h = rw (drain-none zero buffer (no_frame buffer h)) refl
drain-Goes (suc n) buffer more h = elim (Option-cases (parse_frame buffer)) [
  | inl short ↦ rw (drain-none (suc n) buffer short) refl
  | inr ((frame, rest), there) ↦
      let fewer : length rest + 2 ≤ length buffer = parse_frame-shorter buffer frame rest there in
      subst (Goes buffer more) (sym (drain-some n buffer frame rest there)) (
        frames_of-some (buffer ++ more) frame (rest ++ more)
          (parse_frame-append buffer more frame rest there)
        ∙ ap (λ (r : List Frame × Bytes). (frame ∷ r.0, r.1))
            (drain-Goes n rest more (omega (arith, fewer, h))))
]

frames_of-append : (buffer more : Bytes) → Goes buffer more (frames_of buffer)
unfolding frames_of
frames_of-append buffer more = drain-Goes (length buffer) buffer more (omega arith)

handle_frames-append :
    (first second : List Frame) (s : Socket)
    → handle_frames (first ++ second) s ≡ handle_frames second (handle_frames first s)
unfolding handle_frames
handle_frames-append [] second s = refl
handle_frames-append (frame ∷ first) second s =
    handle_frames-append first second (handle_frame frame s)

abbrev with_buffer : Bytes → Socket → Socket
with_buffer buffer s = record s { rx_buffer = buffer }

-- A function of a conditional, by its branches.
either :
    (g : Socket → Socket) (c : Bool) (x y u v : Socket)
    → u ≡ g x
    → v ≡ g y
    → (if c then u else v) ≡ g (if c then x else y)
either g true x y u v e f = e
either g false x y u v e f = f

add_fragment-buffer :
    (opcode : ℕ) (payload buffer : Bytes) (s : Socket)
    → add_fragment opcode payload (with_buffer buffer s)
      ≡ with_buffer buffer (add_fragment opcode payload s)
add_fragment-buffer opcode payload buffer s =
    either (with_buffer buffer) (opcode == 1 || opcode == 2) _ _ _ _ refl
      (either (with_buffer buffer) (opcode == 0) _ _ _ _ refl refl)

finish_message-buffer :
    (buffer : Bytes) (s : Socket)
    → finish_message (with_buffer buffer s) ≡ with_buffer buffer (finish_message s)
finish_message-buffer buffer s = either (with_buffer buffer) (s.frag_opcode == 1) _ _ _ _ refl refl

-- Handling a frame does not read the buffer, nor change it.
handle_frame-buffer :
    (frame : Frame) (buffer : Bytes) (s : Socket)
    → handle_frame frame (with_buffer buffer s) ≡ with_buffer buffer (handle_frame frame s)
unfolding handle_frame
handle_frame-buffer frame buffer s = either g (frame.opcode == 9) _ _ _ _ refl (
    either g (frame.opcode == 10) _ _ _ _ refl (
      either g (frame.opcode == 8) _ _ _ _ (either g s.close_emitted _ _ _ _ refl refl) (
        either g frame.fin _ _ _ _
          (ap finish_message (add_fragment-buffer frame.opcode frame.payload buffer s)
            ∙ finish_message-buffer buffer (add_fragment frame.opcode frame.payload s))
          (add_fragment-buffer frame.opcode frame.payload buffer s))))
  where
    g : Socket → Socket
    g = with_buffer buffer

append_assoc : (a b c : Bytes) → (a ++ b) ++ c ≡ a ++ (b ++ c)
append_assoc [] b c = refl
append_assoc (x ∷ a) b c = ap (λ t. x ∷ t) (append_assoc a b c)

handle_frames-buffer :
    (frames : List Frame) (buffer : Bytes) (s : Socket)
    → handle_frames frames (with_buffer buffer s) ≡ with_buffer buffer (handle_frames frames s)
unfolding handle_frames
handle_frames-buffer [] buffer s = refl
handle_frames-buffer (frame ∷ frames) buffer s =
    ap (handle_frames frames) (handle_frame-buffer frame buffer s)
    ∙ handle_frames-buffer frames buffer (handle_frame frame s)

-- What drained frames and the bytes that are left make of a socket.
abbrev settled : List Frame × Bytes → Socket → Socket
settled drained s = handle_frames drained.0 (with_buffer drained.1 s)

-- Once the handshake is done, bytes that arrive in two parts leave the socket as they do in one: the
-- same messages, replies and close event in the same order, the same fragments and the same bytes
-- left over.
pub drain_frames-append :
    (first second : Bytes) (s : Socket)
    → drain_frames second (drain_frames first s) ≡ drain_frames (first ++ second) s
unfolding drain_frames
drain_frames-append first second s =
    ap (λ (t : Socket). settled (frames_of (t.rx_buffer ++ second)) t)
      (handle_frames-buffer before.0 before.1 s)
    ∙ ap (handle_frames after.0) (sym (handle_frames-buffer before.0 after.1 s))
    ∙ sym (handle_frames-append before.0 after.0 (with_buffer after.1 s))
    ∙ sym (ap (λ r. settled r s) (frames_of-append (s.rx_buffer ++ first) second))
    ∙ ap (λ b. settled (frames_of b) s) (append_assoc s.rx_buffer first second)
  where
    before : List Frame × Bytes
    before = frames_of (s.rx_buffer ++ first)

    after : List Frame × Bytes
    after = frames_of (before.1 ++ second)
