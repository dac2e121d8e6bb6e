-- ===== src/Pins/Commits.antt =====
-- packages/opencode/src/v2/pins.ts: which reservation may commit a pin, and that the pin stays.
use openai_auth.Prelude.{
  ℕ, zero, suc, ◌+◌, ◌≤◌, ◌≡◌, refl, inl, inr, String, true, false, Option, none, some, [], ◌∷◌,
  ◌++◌, ltb, ◌==◌, nat_eq, string_eq, option_eq, arith, if_intro, ◌∙◌, ==_refl, ==_comm, Bool-cases,
  ap,
}
use openai_auth.Prelude.JsMap.{size, get, has, set, delete, get-set_self, get-delete}
use openai_auth.Pins.{
  StickyPin, Pins, PinReservation, SessionPins, forget, oldest, forget_oldest, evict, with_pin,
  set_pin, reserve, is_current, is_same_pin, rollback, finish,
}

-- A reservation that a later one of its session replaced is not current.
superseded :
    (session_id : String) (first second : StickyPin) (s : SessionPins)
    → is_current
        (reserve session_id first s).0
        (reserve session_id second (reserve session_id first s).1).1
      ≡ false
unfolding reserve
superseded session_id first second s = rw (get-set_self session_id _ _) (other s.next_ref)
  where
    other : (n : ℕ) → nat_eq.beq (n + 1) n ≡ false
    other n = ground arith

-- Once a session reserves again, its earlier reservation can neither commit a pin nor withdraw the
-- later one.
pub finish-superseded :
    (session_id : String) (first second : StickyPin) (pin : Option StickyPin) (s : SessionPins)
    → let (stale, held) = reserve session_id first s in
      let after = (reserve session_id second held).1 in
      (finish stale pin after ≡ after) × (rollback stale after ≡ after)
unfolding finish rollback
finish-superseded session_id first second pin s =
    (rw (superseded session_id first second s) refl, rw (superseded session_id first second s) refl)

get-append : (k : String) (m : Pins) (n : Pins) → has k m ≡ false → get k (m ++ n) ≡ get k n
unfolding get
get-append k [] n h = refl
get-append k ((j, v) ∷ m) n h = ground (arith, get-append k m n)

set-append :
    (k : String) (v : StickyPin) (m : Pins) → has k m ≡ false → set k v m ≡ m ++ (k, v) ∷ []
unfolding get set
set-append k v [] h = refl
set-append k v ((j, w) ∷ m) h = elim (Bool-cases (j == k)) [
  | inl same ↦ absurd (ground arith)
  | inr other ↦ rw other (ap (λ t. (j, w) ∷ t) (set-append k v m (ground arith)))
]

delete-append :
    (k j : String) (v : StickyPin) (m : Pins)
    → (j == k) ≡ false
    → delete k (m ++ (j, v) ∷ []) ≡ delete k m ++ (j, v) ∷ []
unfolding delete
delete-append k j v [] other = rw other refl
delete-append k j v ((i, w) ∷ m) other = elim (Bool-cases (i == k)) [
  | inl same ↦ rw same (delete-append k j v m other)
  | inr apart ↦ rw apart (ap (λ t. (i, w) ∷ t) (delete-append k j v m other))
]

forget_oldest-pins :
    (s : SessionPins) (k : String)
    → oldest s.pins ≡ some k
    → (forget_oldest (oldest s.pins) s).pins ≡ delete k s.pins
unfolding forget
forget_oldest-pins s k h = rw h refl

forget_oldest-limit : (o : Option String) (s : SessionPins) → (forget_oldest o s).limit ≡ s.limit
unfolding forget
forget_oldest-limit none s = refl
forget_oldest-limit (some session_id) s = refl

get-last :
    (s : SessionPins) (k : String) (v : StickyPin) (m : Pins)
    → s.pins ≡ m ++ (k, v) ∷ []
    → has k m ≡ false
    → get k s.pins ≡ some v
unfolding set
get-last s k v m e new = rw e (get-append k m ((k, v) ∷ []) new ∙ get-set_self k v [])

has-cons_false :
    (k j : String) (w : StickyPin) (n : Pins) → has k ((j, w) ∷ n) ≡ false → (j == k) ≡ false
unfolding get
has-cons_false k j w n h = ground arith

-- Where the first pin is forgotten, the last one stays last.
shrunk :
    (s : SessionPins) (k : String) (v : StickyPin) (m : Pins)
    → 1 ≤ s.limit
    → s.pins ≡ m ++ (k, v) ∷ []
    → has k m ≡ false
    → ltb s.limit (size s.pins) ≡ true
    → (n : Pins) × ((forget_oldest (oldest s.pins) s).pins ≡ n ++ (k, v) ∷ []) × (has k n ≡ false)
shrunk s k v [] one e new full =
    let one_pin : size s.pins ≡ 1 = rw e refl in absurd (ground (arith, full, one, one_pin))
shrunk s k v ((j, w) ∷ m) one e new full =
    let apart : (j == k) ≡ false = has-cons_false k j w m new in
    (
      delete j ((j, w) ∷ m),
      forget_oldest-pins s j (rw e refl)
          ∙ ap (delete j) e
          ∙ delete-append j k v ((j, w) ∷ m) (==_comm k j ∙ apart),
      rw (get-delete k j ((j, w) ∷ m), apart) new,
    )

-- Eviction leaves the pin that was placed last, if one pin is allowed.
evict-last :
    (fuel : ℕ) (s : SessionPins) (k : String) (v : StickyPin) (m : Pins)
    → 1 ≤ s.limit
    → s.pins ≡ m ++ (k, v) ∷ []
    → has k m ≡ false
    → get k (evict fuel s).pins ≡ some v
unfolding evict
evict-last zero s k v m one e new = get-last s k v m e new
evict-last (suc fuel) s k v m one e new =
    if_intro (λ (t : SessionPins). get k t.pins ≡ some v) (ltb s.limit (size s.pins)) _ _
      (λ full.
        let (n, f, fresh) = shrunk s k v m one e new full in
        evict-last fuel (forget_oldest (oldest s.pins) s) k v n
          (rw (forget_oldest-limit (oldest s.pins) s) one) f fresh)
      λ _. get-last s k v m e new

pub set_pin-get :
    (k : String) (v : StickyPin) (s : SessionPins)
    → 1 ≤ s.limit
    → get k (set_pin k v s).pins ≡ some v
unfolding set_pin
set_pin-get k v s one =
    evict-last _ (with_pin k v s) k v (delete k s.pins) one (set-append k v (delete k s.pins) gone)
      gone
  where
    gone : has k (delete k s.pins) ≡ false
    gone = rw (get-delete k k s.pins, ==_refl k) refl

finish-current :
    (r : PinReservation) (pin : StickyPin) (s : SessionPins)
    → 1 ≤ s.limit
    → is_current r s ≡ true
    → is_same_pin (get r.session_id s.pins) r.previous ≡ true
    → get r.session_id (finish r (some pin) s).pins ≡ some pin
unfolding finish
finish-current r pin s one now same =
    rw (now, same)
      (set_pin-get r.session_id pin (record s { reservations = delete r.session_id s.reservations })
        one)

is_same_pin_refl : (o : Option StickyPin) → is_same_pin o o ≡ true
is_same_pin_refl none = refl
is_same_pin_refl (some p) = ==_refl p.ref

-- A reservation that is finished with a pin while nothing else changed pins its session to it, even
-- when the ledger is full, if its limit allows one pin.
pub reserve-finish :
    (session_id : String) (planned pin : StickyPin) (s : SessionPins)
    → 1 ≤ s.limit
    → let (reservation, held) = reserve session_id planned s in
      get session_id (finish reservation (some pin) held).pins ≡ some pin
unfolding reserve
reserve-finish session_id planned pin s one =
    finish-current (reserve session_id planned s).0 pin (reserve session_id planned s).1 one
      (rw (get-set_self session_id _ s.reservations) (==_refl s.next_ref))
      (is_same_pin_refl (get session_id s.pins))
