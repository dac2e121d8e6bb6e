-- ===== src/Frames/Keeping.antt =====
-- packages/opencode/src/raw-ws-node.ts: what every call of the socket keeps.
use openai_auth.Prelude.{
  ℕ, ◌+◌, ◌≡◌, refl, inl, inr, ◌⊎◌, Bool, true, false, ◌||◌, not, Option, none, some, List, [], ◌∷◌,
  ◌++◌, if◌then◌else◌, if_intro, ◌==◌, nat_eq,
}
use openai_auth.Frames.{
  Bytes, Frame, Effect, writes, ends, closes, messages, opens, errors, destroys, accept_mismatch,
  upgrade_rejected, socket_error, Socket, emit, emit_close, close_of, add_fragment, finish_message,
  concat_all, handle_frame, handle_frames, frames_of, drain_frames,
}
use openai_auth.Frames.Handshake.{
  header_of, status_line, rejected_upgrade_status, accept_of, is_accepted,
}
use openai_auth.Frames.Upgrade.{
  reject_with, emit_rejected_upgrade, destroy_rejected, by_status, shake_hands, on_data,
}
use openai_auth.Frames.Closing.{
  last_code, last_reason, send, close, closed_unless, on_close, failed_unless, on_error, SocketCall,
  receives, sends, closes_socket, loses_socket, fails_socket, socket_step, socket_run,
}

abbrev pub is_close : Effect → ℕ
is_close (closes code reason) = 1
is_close (writes opcode bytes) = 0
is_close ends = 0
is_close opens = 0
is_close (errors event) = 0
is_close destroys = 0
is_close (messages bytes) = 0

abbrev pub is_text : Effect → ℕ
is_text (writes opcode bytes) = if opcode == 1 then 1 else 0
is_text (closes code reason) = 0
is_text ends = 0
is_text opens = 0
is_text (errors event) = 0
is_text destroys = 0
is_text (messages bytes) = 0

abbrev pub total : (Effect → ℕ) → List Effect → ℕ
total f [] = 0
total f (e ∷ es) = f e + total f es

-- What every call keeps: all that holds whatever is emitted but close events and text frames, and
-- that sending, the close event and the opening after a handshake keep too.
module _ (P : Socket → Type 0)
    (of : (s t : Socket)
      → t.effects ≡ s.effects
      → t.close_emitted ≡ s.close_emitted
      → t.handshake_done ≡ s.handshake_done
      → (t.ready_state ≡ s.ready_state) ⊎ (t.ready_state ≡ 3)
      → P s
      → P t)
    (emits : (e : Effect) (s : Socket) → is_close e ≡ 0 → is_text e ≡ 0 → P s → P (emit e s))
    (emits_close : (code : ℕ) (reason : Bytes) (s : Socket) → P s → P (emit_close code reason s))
    (sending : (bytes : Bytes) (s : Socket) → P s → P (send bytes s))
    (opening : (rest : Bytes) (s : Socket)
      → s.handshake_done ≡ false
      → P s
      → P (record s { handshake_done = true; ready_state = 1; rx_buffer = rest })) where
  kept_by_fragment :
      (opcode : ℕ) (payload : Bytes) (s : Socket) → P s → P (add_fragment opcode payload s)
  kept_by_fragment opcode payload s c =
      if_intro P (opcode == 1 || opcode == 2) _ _ (λ _. of s _ refl refl refl (inl refl) c)
        (λ _. if_intro P (opcode == 0) _ s (λ _. of s _ refl refl refl (inl refl) c) (λ _. c))

  kept_by_message : (s : Socket) → P s → P (finish_message s)
  kept_by_message s c =
      if_intro P (s.frag_opcode == 1) _ _
        (λ _.
          emits (messages (concat_all s.frag_chunks)) (record s { frag_chunks = [] }) refl refl
            (of s _ refl refl refl (inl refl) c))
        (λ _. of s _ refl refl refl (inl refl) c)

  kept_by_frame : (frame : Frame) (s : Socket) → P s → P (handle_frame frame s)
  unfolding handle_frame
  kept_by_frame frame s c =
      if_intro P (frame.opcode == 9) _ _ (λ _. emits (writes 10 frame.payload) s refl refl c)
        (λ _.
          if_intro P (frame.opcode == 10) _ _ (λ _. c)
            (λ _.
              if_intro P (frame.opcode == 8) _ _
                (λ _.
                  emits_close (close_of frame.payload).0 (close_of frame.payload).1 _
                    (emits ends _ refl refl (of s _ refl refl refl (inr refl) c)))
                (λ _.
                  if_intro P frame.fin _ _
                    (λ _. kept_by_message _ (kept_by_fragment frame.opcode frame.payload s c))
                    (λ _. kept_by_fragment frame.opcode frame.payload s c))))

  kept_by_frames : (frames : List Frame) (s : Socket) → P s → P (handle_frames frames s)
  unfolding handle_frames
  kept_by_frames [] s c = c
  kept_by_frames (frame ∷ frames) s c =
      kept_by_frames frames (handle_frame frame s) (kept_by_frame frame s c)

  pub kept_by_drain : (bytes : Bytes) (s : Socket) → P s → P (drain_frames bytes s)
  unfolding drain_frames
  kept_by_drain bytes s c =
      kept_by_frames (frames_of (s.rx_buffer ++ bytes)).0 _ (of s _ refl refl refl (inl refl) c)

  kept_by_rejection : (event : Option (ℕ × Bytes)) (s : Socket) → P s → P (reject_with event s).1
  kept_by_rejection none s c = c
  kept_by_rejection (some (status, body)) s c =
      emits (errors (upgrade_rejected status body)) _ refl refl (of s _ refl refl refl (inr refl) c)

  kept_by_emit_rejected :
      (finalize : Bool) (s : Socket) → P s → P (emit_rejected_upgrade finalize s).1
  unfolding emit_rejected_upgrade
  kept_by_emit_rejected finalize s c =
      if_intro (λ (r : Bool × Socket). P r.1) s.upgrade_failure_emitted (true, s) _ (λ _. c)
        (λ _.
          if_intro (λ (r : Bool × Socket). P r.1) s.handshake_done (false, s) _ (λ _. c)
            (λ _. kept_by_rejection _ s c))

  kept_by_destroy : (r : Bool × Socket) → P r.1 → P (destroy_rejected r)
  kept_by_destroy (rejected, s) c =
      if_intro P rejected (emit destroys s) s (λ _. emits destroys s refl refl c) (λ _. c)

  kept_by_status :
      (status : Option ℕ) (header rest : Bytes) (s : Socket)
      → s.handshake_done ≡ false
      → P s
      → P (by_status status header rest s)
  kept_by_status none header rest s h c =
      emits (errors _) _ refl refl (emits destroys _ refl refl (of s _ refl refl refl (inr refl) c))
  kept_by_status (some status) header rest s h c =
      if_intro P (not (status == 101)) _ _
        (λ _. kept_by_destroy (emit_rejected_upgrade false s) (kept_by_emit_rejected false s c))
        (λ _.
          if_intro P (is_accepted (accept_of header) s.expected_accept) _ _
            (λ _. kept_by_drain [] _ (emits opens _ refl refl (opening rest s h c)))
            (λ _.
              emits (errors accept_mismatch) _ refl refl
                (emits destroys _ refl refl (of s _ refl refl refl (inr refl) c))))

  kept_by_handshake :
      (header : Option (Bytes × Bytes)) (s : Socket)
      → s.handshake_done ≡ false
      → P s
      → P (shake_hands header s)
  kept_by_handshake none s h c = c
  kept_by_handshake (some (header, rest)) s h c =
      kept_by_status (rejected_upgrade_status (status_line header)) header rest s h c

  kept_by_data : (bytes : Bytes) (s : Socket) → P s → P (on_data bytes s)
  unfolding on_data
  kept_by_data bytes s c =
      if_intro P s.handshake_done _ _ (λ _. kept_by_drain bytes s c)
        (λ h.
          kept_by_handshake (header_of (s.rx_buffer ++ bytes))
            (record s { rx_buffer = s.rx_buffer ++ bytes }) h (of s _ refl refl refl (inl refl) c))

  kept_by_loss : (lost : Bytes) (r : Bool × Socket) → P r.1 → P (closed_unless lost r)
  kept_by_loss lost (rejected, s) c =
      if_intro P rejected s _ (λ _. c)
        (λ _.
          emits_close (last_code s.peer_close) (last_reason lost s.peer_close) _
            (of s _ refl refl refl (inr refl) c))

  kept_by_failure : (message : Bytes) (r : Bool × Socket) → P r.1 → P (failed_unless message r)
  kept_by_failure message (rejected, s) c =
      if_intro P rejected s _ (λ _. c)
        (λ _.
          emits (errors (socket_error message)) _ refl refl (of s _ refl refl refl (inr refl) c))

  kept_by_step : (call : SocketCall) (s : Socket) → P s → P (socket_step call s)
  unfolding socket_step close on_close on_error
  kept_by_step (receives bytes) s c = kept_by_data bytes s c
  kept_by_step (sends bytes) s c = sending bytes s c
  kept_by_step closes_socket s c =
      if_intro P (s.ready_state == 3) s _ (λ _. c)
        (λ _.
          of (emit ends (emit (writes 8 (3 ∷ 232 ∷ [])) s)) _ refl refl refl (inr refl)
            (emits ends _ refl refl (emits (writes 8 (3 ∷ 232 ∷ [])) s refl refl c)))
  kept_by_step (loses_socket lost) s c =
      kept_by_loss lost (emit_rejected_upgrade true s) (kept_by_emit_rejected true s c)
  kept_by_step (fails_socket message) s c =
      kept_by_failure message (emit_rejected_upgrade true s) (kept_by_emit_rejected true s c)

  pub kept_by_run : (calls : List SocketCall) (s : Socket) → P s → P (socket_run calls s)
  unfolding socket_run
  kept_by_run [] s c = c
  kept_by_run (call ∷ calls) s c = kept_by_run calls (socket_step call s) (kept_by_step call s c)
