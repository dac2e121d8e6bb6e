-- ===== src/Frames/Runs.antt =====
-- packages/opencode/src/raw-ws-node.ts: what the socket emits over any sequence of calls.
use openai_auth.Prelude.{
  ℕ, ◌+◌, ◌≤◌, ◌≡◌, refl, sym, ◌∙◌, inl, inr, ◌⊎◌, Bool, true, false, List, [], ◌∷◌, ◌++◌, arith,
  if◌then◌else◌, if_intro, ◌==◌, nat_eq,
}
use openai_auth.Frames.{Bytes, Effect, writes, closes, Socket, emit, emit_close}
use openai_auth.Frames.Closing.{send, SocketCall, socket_run}
use openai_auth.Frames.Keeping.{is_close, is_text, total, kept_by_run}

total-append :
    (f : Effect → ℕ) (es : List Effect) (e : Effect) → total f (es ++ e ∷ []) ≡ total f es + f e
total-append f [] e = omega arith
total-append f (x ∷ es) e = omega (arith, total-append f es e)

-- The close events that were emitted, and the text frames that were written.
abbrev pub close_events : Socket → ℕ
close_events s = total is_close s.effects

abbrev pub text_frames : Socket → ℕ
text_frames s = total is_text s.effects

-- The close events are counted by the flag.
pub record IsCounted (s : Socket) : Type 0 where
  pub counted : close_events s ≡ (if s.close_emitted then 1 else 0)

emit_close-IsCounted :
    (code : ℕ) (reason : Bytes) (s : Socket) → IsCounted s → IsCounted (emit_close code reason s)
emit_close-IsCounted code reason s c = record {
  counted = ground (arith, c.counted, total-append is_close s.effects (closes code reason));
}

emit-IsCounted : (e : Effect) (s : Socket) → is_close e ≡ 0 → IsCounted s → IsCounted (emit e s)
emit-IsCounted e s h c = record {
  counted = omega (arith, c.counted, total-append is_close s.effects e, h);
}

send-IsCounted : (bytes : Bytes) (s : Socket) → IsCounted s → IsCounted (send bytes s)
unfolding send
send-IsCounted bytes s c =
    if_intro IsCounted (s.ready_state == 1) _ s (λ _. emit-IsCounted (writes 1 bytes) s refl c)
      (λ _. c)

-- However bytes arrive, from the handshake on, texts are sent, and the socket is closed, fails or is
-- lost, at most one close event is emitted, and one has been exactly when the flag for it is set; if that held at first.
pub one_close_event :
    (calls : List SocketCall) (s : Socket)
    → IsCounted s
    → (close_events (socket_run calls s) ≤ 1)
      × (close_events (socket_run calls s) ≡ (if (socket_run calls s).close_emitted then 1 else 0))
one_close_event calls s c =
    let after =
      (kept_by_run IsCounted (λ s t e f _ _ d. record { counted = rw (e, f) d.counted })
        (λ e s h _ d. emit-IsCounted e s h d) emit_close-IsCounted send-IsCounted
        (λ rest s _ d. record { counted = d.counted }) calls s c).counted in
    (ground (arith, after), after)

-- A closed socket that has written `n` text frames, or one that was opened by its handshake since.
data IsShut (n : ℕ) (done : Bool) (s : Socket) : Type 0 where
  quiet : s.ready_state ≡ 3 → text_frames s ≡ n → s.handshake_done ≡ done → IsShut n done s
  opened_since : done ≡ false → s.handshake_done ≡ true → IsShut n done s

module _ (n : ℕ) (done : Bool) where
  IsShut-of :
      (s t : Socket)
      → t.effects ≡ s.effects
      → t.close_emitted ≡ s.close_emitted
      → t.handshake_done ≡ s.handshake_done
      → (t.ready_state ≡ s.ready_state) ⊎ (t.ready_state ≡ 3)
      → IsShut n done s
      → IsShut n done t
  IsShut-of s t e _ h (inl f) (quiet c x d) = quiet (f ∙ c) (rw e x) (h ∙ d)
  IsShut-of s t e _ h (inr f) (quiet c x d) = quiet f (rw e x) (h ∙ d)
  IsShut-of s t e _ h r (opened_since d x) = opened_since d (h ∙ x)

  emit-IsShut :
      (e : Effect) (s : Socket) → is_text e ≡ 0 → IsShut n done s → IsShut n done (emit e s)
  emit-IsShut e s h (quiet c x d) =
      quiet c (omega (arith, x, total-append is_text s.effects e, h)) d
  emit-IsShut e s h (opened_since d x) = opened_since d x

  emit_close-IsShut :
      (code : ℕ) (reason : Bytes) (s : Socket)
      → IsShut n done s
      → IsShut n done (emit_close code reason s)
  emit_close-IsShut code reason s c =
      if_intro (IsShut n done) s.close_emitted s _ (λ _. c)
        (λ _.
          emit-IsShut (closes code reason) (record s { close_emitted = true }) refl (unflagged c))
    where
      unflagged : IsShut n done s → IsShut n done (record s { close_emitted = true })
      unflagged (quiet c x d) = quiet c x d
      unflagged (opened_since d x) = opened_since d x

  send-IsShut : (bytes : Bytes) (s : Socket) → IsShut n done s → IsShut n done (send bytes s)
  unfolding send
  send-IsShut bytes s (quiet c x d) =
      let shut : (s.ready_state == 1) ≡ false = ground (arith, c) in rw shut (quiet c x d)
  send-IsShut bytes s (opened_since d x) =
      if_intro (IsShut n done) (s.ready_state == 1) _ s (λ _. opened_since d x)
        (λ _. opened_since d x)

  opening-IsShut :
      (rest : Bytes) (s : Socket)
      → s.handshake_done ≡ false
      → IsShut n done s
      → IsShut n done (record s { handshake_done = true; ready_state = 1; rx_buffer = rest })
  opening-IsShut rest s h (quiet c x d) = opened_since (sym d ∙ h) refl
  opening-IsShut rest s h (opened_since d x) = opened_since d refl

shut_or_opened :
    (n : ℕ) (done : Bool) (s : Socket)
    → IsShut n done s
    → ((s.ready_state ≡ 3) × (text_frames s ≡ n)) ⊎ ((done ≡ false) × (s.handshake_done ≡ true))
shut_or_opened n done s (quiet c x d) = inl (c, x)
shut_or_opened n done s (opened_since d x) = inr (d, x)

-- A closed socket stays closed and writes no text frame, whatever is called and whatever arrives,
-- unless its handshake was not done when it was closed, and is done since.
pub closed_for_good :
    (calls : List SocketCall) (s : Socket)
    → s.ready_state ≡ 3
    → (((socket_run calls s).ready_state ≡ 3) × (text_frames (socket_run calls s) ≡ text_frames s))
      ⊎ ((s.handshake_done ≡ false) × ((socket_run calls s).handshake_done ≡ true))
closed_for_good calls s h = shut_or_opened (text_frames s) s.handshake_done (socket_run calls s) (
    kept_by_run (IsShut (text_frames s) s.handshake_done)
      (IsShut-of (text_frames s) s.handshake_done)
      (λ e t _ x c. emit-IsShut (text_frames s) s.handshake_done e t x c)
      (emit_close-IsShut (text_frames s) s.handshake_done)
      (send-IsShut (text_frames s) s.handshake_done)
      (opening-IsShut (text_frames s) s.handshake_done) calls s (quiet h refl refl))
