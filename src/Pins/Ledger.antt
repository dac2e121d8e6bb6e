-- ===== src/Pins/Ledger.antt =====
-- packages/opencode/src/v2/pins.ts: the bound of the ledger, and whose reservations it keeps.
use native.Mathlib.Nat.{le_trans}
use openai_auth.Prelude.{
  ℕ, zero, suc, ◌+◌, ◌≤◌, ◌≡◌, refl, String, Option, none, some, List, [], ◌∷◌, max, ltb, ◌==◌,
  nat_eq, string_eq, option_eq, All, All-imp, ==_refl, not, subst, arith, if_intro, ◌∙◌,
  length-keep_if,
}
use openai_auth.Prelude.JsMap.{size, get, delete, size-delete, All-set, All-delete}
use openai_auth.Prelude.JsMap.Unique.{IsUnique, set-IsUnique, delete-IsUnique}
use openai_auth.Pins.{
  StickyPin, Pins, PinLibrary, PinReservation, SessionPins, new_session_pins, forget, oldest,
  forget_oldest, evict, with_pin, set_pin, reserve, is_current, is_same_pin, rollback, commit,
  finish, set_placed, place, PinCall, forgets, reserves, rolls_back, finishes, places, pin_call,
  pin_calls,
}

-- A reservation stands under its own session, and is older than the next object.
abbrev pub IsOwned : ℕ → String × PinReservation → Type 0
IsOwned next p = (p.1.session_id ≡ p.0) × (suc p.1.ref ≤ next)

pub record IsKept (s : SessionPins) : Type 0 where
  pub positive : 1 ≤ s.limit
  pub unique : IsUnique s.pins
  pub unique_reservations : IsUnique s.reservations
  pub owned : All (IsOwned s.next_ref) s.reservations

pub record IsSound (s : SessionPins) : Type 0 where
  pub kept : IsKept s
  pub bounded : size s.pins ≤ s.limit

pub forget-IsKept :
    (session_id : String) (s : SessionPins) → IsKept s → IsKept (forget session_id s)
unfolding forget
forget-IsKept session_id s k = record {
  positive = k.positive;
  unique = delete-IsUnique session_id s.pins k.unique;
  unique_reservations = delete-IsUnique session_id s.reservations k.unique_reservations;
  owned = All-delete (IsOwned s.next_ref) session_id s.reservations k.owned;
}

forget_oldest-IsKept : (o : Option String) (s : SessionPins) → IsKept s → IsKept (forget_oldest o s)
forget_oldest-IsKept none s k = k
forget_oldest-IsKept (some session_id) s k = forget-IsKept session_id s k

forget_oldest-limit : (o : Option String) (s : SessionPins) → (forget_oldest o s).limit ≡ s.limit
unfolding forget
forget_oldest-limit none s = refl
forget_oldest-limit (some session_id) s = refl

pub evict-IsKept : (fuel : ℕ) (s : SessionPins) → IsKept s → IsKept (evict fuel s)
unfolding evict
evict-IsKept zero s k = k
evict-IsKept (suc fuel) s k =
    if_intro IsKept (ltb s.limit (size s.pins)) _ _
      (λ _. evict-IsKept fuel _ (forget_oldest-IsKept (oldest s.pins) s k)) λ _. k

pub evict-limit : (fuel : ℕ) (s : SessionPins) → (evict fuel s).limit ≡ s.limit
unfolding evict
evict-limit zero s = refl
evict-limit (suc fuel) s =
    if_intro (λ (t : SessionPins). t.limit ≡ s.limit) (ltb s.limit (size s.pins)) _ _
      (λ _.
        evict-limit fuel (forget_oldest (oldest s.pins) s) ∙ forget_oldest-limit (oldest s.pins) s)
      λ _. refl

-- Forgetting the first key of a map that is not empty makes the map smaller.
size-forget_oldest :
    (s : SessionPins) (m : Pins) (n : ℕ)
    → size m ≤ suc n
    → size (forget_oldest (oldest m) (record s { pins = m })).pins ≤ n
unfolding forget delete
size-forget_oldest s [] n h = omega arith
size-forget_oldest s ((k, v) ∷ m) n h =
    rw (==_refl k) (le_trans (length-keep_if (λ p. not (p.0 == k)) m) (omega (arith, h)))

pub evict-bounded :
    (fuel : ℕ) (s : SessionPins) → size s.pins ≤ fuel + s.limit → size (evict fuel s).pins ≤ s.limit
unfolding evict
evict-bounded zero s h = omega (arith, h)
evict-bounded (suc fuel) s h =
    if_intro (λ (t : SessionPins). size t.pins ≤ s.limit) (ltb s.limit (size s.pins)) _ _
      (λ _.
        subst (λ l. size (evict fuel after).pins ≤ l) same
          (evict-bounded fuel after
            (rw same (size-forget_oldest s s.pins (fuel + s.limit) (omega (arith, h))))))
      λ small. ground arith
  where
    after : SessionPins
    after = forget_oldest (oldest s.pins) s

    same : after.limit ≡ s.limit
    same = forget_oldest-limit (oldest s.pins) s

set_pin-IsSound :
    (session_id : String) (pin : StickyPin) (s : SessionPins)
    → IsKept s
    → IsSound (set_pin session_id pin s)
unfolding set_pin
set_pin-IsSound session_id pin s k = record {
  kept = evict-IsKept fuel placed placed-IsKept;
  bounded = rw (evict-limit fuel placed) (evict-bounded fuel placed (omega arith));
}
  where
    placed : SessionPins
    placed = with_pin session_id pin s

    fuel : ℕ
    fuel = size placed.pins

    placed-IsKept : IsKept placed
    placed-IsKept = record {
      positive = k.positive;
      unique =
          set-IsUnique session_id pin (delete session_id s.pins)
            (delete-IsUnique session_id s.pins k.unique);
      unique_reservations = delete-IsUnique session_id s.reservations k.unique_reservations;
      owned = All-delete (IsOwned s.next_ref) session_id s.reservations k.owned;
    }

pub reserve-IsSound :
    (session_id : String) (pin : StickyPin) (s : SessionPins)
    → IsSound s
    → IsSound (reserve session_id pin s).1
unfolding reserve
reserve-IsSound session_id pin s v = record {
  kept = record {
    positive = v.kept.positive;
    unique = v.kept.unique;
    unique_reservations = set-IsUnique session_id _ s.reservations v.kept.unique_reservations;
    owned =
        All-set (IsOwned (s.next_ref + 1)) session_id _ s.reservations (refl, omega arith)
          (All-imp (IsOwned s.next_ref) (IsOwned (s.next_ref + 1)) s.reservations
            (λ p q. (q.0, omega (arith, q.1))) v.kept.owned);
  };
  bounded = v.bounded;
}

rollback-IsSound : (r : PinReservation) (s : SessionPins) → IsSound s → IsSound (rollback r s)
unfolding rollback
rollback-IsSound r s v =
    if_intro IsSound (is_current r s) _ _
      (λ _. record {
        kept = record {
          positive = v.kept.positive;
          unique = v.kept.unique;
          unique_reservations =
              delete-IsUnique r.session_id s.reservations v.kept.unique_reservations;
          owned = All-delete (IsOwned s.next_ref) r.session_id s.reservations v.kept.owned;
        };
        bounded = v.bounded;
      })
      λ _. v

commit-IsSound :
    (r : PinReservation) (pin : Option StickyPin) (s : SessionPins)
    → IsSound s
    → IsSound (commit r pin s)
commit-IsSound r none s v = v
commit-IsSound r (some pin) s v =
    if_intro IsSound (is_same_pin (get r.session_id s.pins) r.previous) _ _
      (λ _. set_pin-IsSound r.session_id pin s v.kept) λ _. v

finish-IsSound :
    (r : PinReservation) (pin : Option StickyPin) (s : SessionPins)
    → IsSound s
    → IsSound (finish r pin s)
unfolding finish
finish-IsSound r pin s v =
    if_intro IsSound (is_current r s) _ _
      (λ _. commit-IsSound r pin (rollback r s) (rollback-IsSound r s v)) λ _. v

set_placed-IsSound :
    (session_id : String) (pin : Option StickyPin) (s : SessionPins)
    → IsSound s
    → IsSound (set_placed session_id pin s)
set_placed-IsSound session_id none s v = v
set_placed-IsSound session_id (some pin) s v = set_pin-IsSound session_id pin _ (record {
  positive = v.kept.positive;
  unique = v.kept.unique;
  unique_reservations = v.kept.unique_reservations;
  owned =
      All-imp (IsOwned s.next_ref) (IsOwned (s.next_ref + 1)) s.reservations
        (λ p q. (q.0, omega (arith, q.1))) v.kept.owned;
})

set_pin-limit :
    (session_id : String) (pin : StickyPin) (s : SessionPins)
    → (set_pin session_id pin s).limit ≡ s.limit
unfolding set_pin
set_pin-limit session_id pin s = evict-limit _ _

commit-limit :
    (r : PinReservation) (pin : Option StickyPin) (s : SessionPins)
    → (commit r pin s).limit ≡ s.limit
commit-limit r none s = refl
commit-limit r (some pin) s =
    if_intro (λ (t : SessionPins). t.limit ≡ s.limit)
      (is_same_pin (get r.session_id s.pins) r.previous) _ _ (λ _. set_pin-limit r.session_id pin s)
      λ _. refl

rollback-limit : (r : PinReservation) (s : SessionPins) → (rollback r s).limit ≡ s.limit
unfolding rollback
rollback-limit r s =
    if_intro (λ (t : SessionPins). t.limit ≡ s.limit) (is_current r s) _ _ (λ _. refl) λ _. refl

set_placed-limit :
    (session_id : String) (pin : Option StickyPin) (s : SessionPins)
    → (set_placed session_id pin s).limit ≡ s.limit
set_placed-limit session_id none s = refl
set_placed-limit session_id (some pin) s = set_pin-limit session_id pin _

module _ (lib : PinLibrary) where
  pub pin_call-IsSound :
      (c : PinCall lib) (s : SessionPins) → IsSound s → IsSound (pin_call lib c s)
  unfolding pin_call place forget
  pin_call-IsSound (forgets session_id) s v = record {
    kept = forget-IsKept session_id s v.kept;
    bounded = le_trans (size-delete session_id s.pins) v.bounded;
  }
  pin_call-IsSound (reserves session_id pin) s v = reserve-IsSound session_id pin s v
  pin_call-IsSound (rolls_back r) s v = rollback-IsSound r s v
  pin_call-IsSound (finishes r pin) s v = finish-IsSound r pin s v
  pin_call-IsSound (places placement) s v = set_placed-IsSound placement.session_id _ s v

  pin_call-limit : (c : PinCall lib) (s : SessionPins) → (pin_call lib c s).limit ≡ s.limit
  unfolding pin_call place forget reserve finish
  pin_call-limit (forgets session_id) s = refl
  pin_call-limit (reserves session_id pin) s = refl
  pin_call-limit (rolls_back r) s = rollback-limit r s
  pin_call-limit (finishes r pin) s =
      if_intro (λ (t : SessionPins). t.limit ≡ s.limit) (is_current r s) _ _
        (λ _. commit-limit r pin (rollback r s) ∙ rollback-limit r s) λ _. refl
  pin_call-limit (places placement) s = set_placed-limit placement.session_id _ s

  pin_calls-limit :
      (cs : List (PinCall lib)) (s : SessionPins) → (pin_calls lib cs s).limit ≡ s.limit
  unfolding pin_calls
  pin_calls-limit [] s = refl
  pin_calls-limit (c ∷ cs) s = pin_calls-limit cs (pin_call lib c s) ∙ pin_call-limit c s

  pin_calls-IsSound_from :
      (cs : List (PinCall lib)) (s : SessionPins) → IsSound s → IsSound (pin_calls lib cs s)
  unfolding pin_calls
  pin_calls-IsSound_from [] s v = v
  pin_calls-IsSound_from (c ∷ cs) s v = pin_calls-IsSound_from cs _ (pin_call-IsSound c s v)

  -- After any calls on a new ledger: at most `max 1 limit` pins; one pin and one reservation for a
  -- session; and each reservation stands under its own session.
  pub pin_calls-IsSound :
      (limit : ℕ) (cs : List (PinCall lib))
      → IsSound (pin_calls lib cs (new_session_pins limit))
        × ((pin_calls lib cs (new_session_pins limit)).limit ≡ max 1 limit)
  unfolding new_session_pins
  pin_calls-IsSound limit cs = (
    pin_calls-IsSound_from cs _ (record {
      kept = record { positive = ground arith; unique = tt; unique_reservations = tt; owned = tt };
      bounded = omega arith;
    }),
    pin_calls-limit cs (new_session_pins limit),
  )
