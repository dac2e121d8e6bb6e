-- ===== src/Frames/Opening.antt =====
-- packages/opencode/src/raw-ws-node.ts: which answer to the upgrade opens the socket.
use openai_auth.Prelude.{
  ℕ, ◌≡◌, ◌↔◌, refl, ap, ◌∙◌, inl, inr, Bool, true, false, Option, none, some, [], ◌∷◌, ◌++◌,
  if_intro, ◌==◌, if◌then◌else◌, nat_eq, eq_of_==, Bool-cases, arith,
}
use openai_auth.Frames.{Bytes, Socket, emit, opens, drain_frames}
use openai_auth.Frames.Handshake.{
  same_bytes, header_of, status_line, rejected_upgrade_status, accept_of, is_accepted,
}
use openai_auth.Frames.Upgrade.{
  reject_with, emit_rejected_upgrade, destroy_rejected, by_status, shake_hands, on_data,
}
use openai_auth.Frames.Closing.{send}
use openai_auth.Frames.Keeping.{kept_by_drain}

same_bytes-eq : (xs ys : Bytes) → same_bytes xs ys ≡ true → xs ≡ ys
same_bytes-eq [] [] h = refl
same_bytes-eq [] (y ∷ ys) h = absurd (cc)
same_bytes-eq (x ∷ xs) [] h = absurd (cc)
same_bytes-eq (x ∷ xs) (y ∷ ys) h =
    let first : x ≡ y = eq_of_== x y (ground (arith, h)) in
    let rest : xs ≡ ys = same_bytes-eq xs ys (ground (arith, h)) in rw (first, rest) refl

same_bytes_self : (xs : Bytes) → same_bytes xs xs ≡ true
same_bytes_self [] = refl
same_bytes_self (x ∷ xs) = ground (arith, same_bytes_self xs)

-- The bytes hold the whole header of an answer with the status 101 and the accept text.
pub record Accepts (expected bytes : Bytes) : Type 0 where
  pub header : Bytes
  pub rest : Bytes
  pub whole : header_of bytes ≡ some (header, rest)
  pub status : rejected_upgrade_status (status_line header) ≡ some 101
  pub accept : accept_of header ≡ some expected

is_accepted-eq :
    (accept : Option Bytes) (expected : Bytes)
    → is_accepted accept expected ≡ true
    → accept ≡ some expected
is_accepted-eq none expected h = absurd (cc)
is_accepted-eq (some accept) expected h = ap some (same_bytes-eq accept expected h)

-- The handshake of a state, by its flag.
Done : Bool → Socket → Type 0
Done done s = s.handshake_done ≡ done

module _ (done : Bool) (finalize : Bool) (s : Socket) (h : s.handshake_done ≡ done) where
  reject_with-Done : (event : Option (ℕ × Bytes)) → Done done (reject_with event s).1
  unfolding Done
  reject_with-Done none = h
  reject_with-Done (some (status, body)) = h

  emit_rejected_upgrade-Done : Done done (emit_rejected_upgrade finalize s).1
  unfolding emit_rejected_upgrade Done
  emit_rejected_upgrade-Done =
      if_intro (λ (r : Bool × Socket). Done done r.1) s.upgrade_failure_emitted (true, s) _ (λ _. h)
        (λ _.
          if_intro (λ (r : Bool × Socket). Done done r.1) s.handshake_done (false, s) _ (λ _. h)
            (λ _. reject_with-Done _))

destroy_rejected-Done :
    (done : Bool) (r : Bool × Socket) → Done done r.1 → Done done (destroy_rejected r)
unfolding Done
destroy_rejected-Done done (rejected, s) h = if_intro (Done done) rejected _ s (λ _. h) (λ _. h)

drain_frames-Done : (bytes : Bytes) (s : Socket) → Done true s → Done true (drain_frames bytes s)
unfolding Done send
drain_frames-Done bytes s h =
    kept_by_drain (Done true) (λ s t _ _ e _ c. e ∙ c) (λ e s _ _ c. c)
      (λ code reason s c. if_intro (Done true) s.close_emitted s _ (λ _. c) (λ _. c))
      (λ bytes s c. if_intro (Done true) (s.ready_state == 1) _ s (λ _. c) (λ _. c))
      (λ rest s _ c. refl) bytes s h

by_status-Accepts :
    (status : Option ℕ) (header rest : Bytes) (s : Socket)
    → s.handshake_done ≡ false
    → (by_status status header rest s).handshake_done ≡ true
    → (status ≡ some 101) × (accept_of header ≡ some s.expected_accept)
unfolding Done
by_status-Accepts none header rest s h k = absurd (cc)
by_status-Accepts (some status) header rest s h k = elim (Bool-cases (status == 101)) [
  | inr other ↦
      let kept : (destroy_rejected (emit_rejected_upgrade false s)).handshake_done ≡ false =
        destroy_rejected-Done false (emit_rejected_upgrade false s)
          (emit_rejected_upgrade-Done false false s h) in
      let opened : (destroy_rejected (emit_rejected_upgrade false s)).handshake_done ≡ true =
        rw other at k in
      absurd (cc)
  | inl same ↦ elim (Bool-cases (is_accepted (accept_of header) s.expected_accept)) [
    | inl e ↦
        (ap some (eq_of_== status 101 same), is_accepted-eq (accept_of header) s.expected_accept e)
    | inr e ↦ let opened : s.handshake_done ≡ true = rw (same, e) at k in absurd (cc)
  ]
]

shake_hands-Accepts :
    (bytes : Bytes) (found : Option (Bytes × Bytes)) (s : Socket)
    → header_of bytes ≡ found
    → s.handshake_done ≡ false
    → (shake_hands found s).handshake_done ≡ true
    → Accepts s.expected_accept bytes
shake_hands-Accepts bytes none s e h k = absurd (cc)
shake_hands-Accepts bytes (some (header, rest)) s e h k =
    let facts =
      by_status-Accepts (rejected_upgrade_status (status_line header)) header rest s h k in
    record { header = header; rest = rest; whole = e; status = facts.0; accept = facts.1 }

past_branch :
    (b : Bool) (x y : Socket)
    → b ≡ false
    → (if b then x else y).handshake_done ≡ true
    → y.handshake_done ≡ true
past_branch true x y h k = absurd (cc)
past_branch false x y h k = k

-- While the handshake is not done, arriving bytes complete it exactly when the buffer with them holds the
-- whole header of an answer, its status is 101, and its accept text is the one that is expected.
pub on_data_opens_iff :
    (d : Bytes) (s : Socket)
    → s.handshake_done ≡ false
    → ((on_data d s).handshake_done ≡ true) ↔ Accepts s.expected_accept (s.rx_buffer ++ d)
unfolding on_data Done
on_data_opens_iff d s h = (
  λ k.
      shake_hands-Accepts (s.rx_buffer ++ d) (header_of (s.rx_buffer ++ d))
        (record s { rx_buffer = s.rx_buffer ++ d }) refl h (past_branch s.handshake_done _ _ h k),
  λ a.
      rw (h, a.whole, a.status, a.accept, same_bytes_self s.expected_accept)
        (drain_frames-Done []
          (emit opens (record s { handshake_done = true; ready_state = 1; rx_buffer = a.rest }))
          refl),
)
