-- ===== src/Pins/Placement.antt =====
-- packages/core/src/pool-session-pins.ts and the placement of packages/opencode/src/v2/pins.ts: what
-- a placement decides, what it records, and what it sees.
use openai_auth.Prelude.{
  ℕ, ◌+◌, ◌≤◌, ◌≡◌, refl, inl, inr, String, Bool, true, false, Option, none, some, [], ◌∷◌,
  if◌then◌else◌, ◌==◌, string_eq, option_eq, includes, arith, if_intro, Bool-cases, All, ap, ◌∙◌,
}
use openai_auth.Prelude.JsMap.{JsMap, get, has, set, get-set}
use openai_auth.Prelude.JsMap.Unique.{IsUnique}
use openai_auth.Pins.{
  StickyPin, Pins, StickySelection, PinLibrary, StickyPinPlacement, stays, renewed, pin_of, Placed,
  placed_as, choose, place_from, place_sticky_pin, PinReservation, SessionPins, account_of,
  add_reserved, placement_snapshot, set_placed, place,
}
use openai_auth.Pins.Ledger.{IsOwned, IsKept}
use openai_auth.Pins.Commits.{set_pin-get}

account_of-get :
    (session_id : String) (pin : StickyPin) (s : SessionPins)
    → get session_id s.pins ≡ some pin
    → account_of session_id s ≡ some pin.account_id
unfolding account_of
account_of-get session_id pin s h = rw h refl

module _ (lib : PinLibrary) (placement : StickyPinPlacement lib) where
  -- The host's chooser leaves out the excluded accounts.
  abbrev pub SelectsAllowed : Type 0
  SelectsAllowed =
      (pending : lib.PendingBytes) (selection : StickySelection)
      → placement.select pending ≡ some selection
      → includes placement.exclude_account_ids selection.account_id ≡ false

  -- A decision names no excluded account.
  abbrev Allowed : Placed → Type 0
  Allowed placed =
      (account : String)
      → placed.0 ≡ some account
      → includes placement.exclude_account_ids account ≡ false

  choose-Allowed :
      (ref : ℕ) (pending : lib.PendingBytes) (o : Option StickySelection)
      → placement.select pending ≡ o
      → SelectsAllowed
      → Allowed (choose lib ref placement o)
  choose-Allowed ref pending none e allowed account h = absurd (cc)
  choose-Allowed ref pending (some selection) e allowed account h =
      let same : selection.account_id ≡ account = ground arith in
      rw (← same) (allowed pending selection e)

  place_from-Allowed :
      (ref : ℕ) (pins : Pins) (o : Option StickyPin)
      → SelectsAllowed
      → Allowed (place_from lib ref pins placement o)
  place_from-Allowed ref pins none allowed = choose-Allowed ref _ _ refl allowed
  place_from-Allowed ref pins (some pin) allowed =
      if_intro Allowed (stays lib placement pin) _ _
        (λ stay account (h : some pin.account_id ≡ some account).
          let same : pin.account_id ≡ account = ground arith in rw (← same) (ground (arith, stay)))
        λ _. choose-Allowed ref _ _ refl allowed

  -- If the host's chooser leaves out the excluded accounts, no placement is on an excluded account,
  -- whether the session's pin stays or a new account is chosen.
  pub place_sticky_pin-allowed :
      (ref : ℕ) (pins : Pins) (account : String)
      → SelectsAllowed
      → (place_sticky_pin lib ref pins placement).0 ≡ some account
      → includes placement.exclude_account_ids account ≡ false
  unfolding place_sticky_pin
  place_sticky_pin-allowed ref pins account allowed h =
      place_from-Allowed ref pins (get placement.session_id pins) allowed account h

  -- What a decision sets: the pin of its account if it persists, and else nothing.
  abbrev Persists : Placed → Type 0
  Persists placed =
      (account : String)
      → placed.0 ≡ some account
      → (placement.persist ≡ true
          → (pin : StickyPin) × (placed.1 ≡ some pin) × (pin.account_id ≡ account))
        × (placement.persist ≡ false → placed.1 ≡ none)

  placed_as-Persists : (pin : StickyPin) → Persists (placed_as placement.persist pin)
  placed_as-Persists pin account h = ((λ on. (pin, rw on refl, ground arith)), λ off. rw off refl)

  choose-Persists : (ref : ℕ) (o : Option StickySelection) → Persists (choose lib ref placement o)
  choose-Persists ref none account h = absurd (cc)
  choose-Persists ref (some selection) account h =
      placed_as-Persists (pin_of lib ref placement selection) account h

  place_from-Persists :
      (ref : ℕ) (pins : Pins) (o : Option StickyPin)
      → Persists (place_from lib ref pins placement o)
  place_from-Persists ref pins none = choose-Persists ref _
  place_from-Persists ref pins (some pin) =
      if_intro Persists (stays lib placement pin) _ _
        (λ _. placed_as-Persists (renewed lib ref placement pin)) λ _. choose-Persists ref _

  -- A placement that persists leaves its session pinned to the account that it answers with, if one
  -- pin is allowed; one that does not persist leaves the ledger as it was.
  pub place-records :
      (s : SessionPins) (account : String)
      → 1 ≤ s.limit
      → (place lib placement s).0 ≡ some account
      → (placement.persist ≡ true
          → account_of placement.session_id (place lib placement s).1 ≡ some account)
        × (placement.persist ≡ false → (place lib placement s).1 ≡ s)
  unfolding place place_sticky_pin
  place-records s account one h =
      let kept =
        place_from-Persists s.next_ref (placement_snapshot (some placement.session_id) s)
          (get placement.session_id (placement_snapshot (some placement.session_id) s)) account h in
      (
        λ on. let (pin, set_to, at) = kept.0 on in recorded _ pin set_to at,
        λ off. rw (kept.1 off) refl,
      )
    where
      recorded :
          (o : Option StickyPin) (pin : StickyPin)
          → o ≡ some pin
          → pin.account_id ≡ account
          → account_of placement.session_id (set_placed placement.session_id o s) ≡ some account
      recorded o pin e at = rw e (
          account_of-get placement.session_id pin _
            (set_pin-get placement.session_id pin (record s { next_ref = s.next_ref + 1 }) one)
          ∙ ap some at)

-- What a placement sees for a session: the pin of its reservation, unless it is the excluded
-- session's, and else its own pin.
abbrev pub seen : Bool → Option PinReservation → Option StickyPin → Option StickyPin
seen true reservation pin = pin
seen false none pin = pin
seen false (some reservation) pin = some reservation.pin

-- One step of the loop, for the reservation of session `k`.
reserved_step :
    (exclude : Option String) (j k : String) (pin : StickyPin) (view : Pins)
    → get j (if some k == exclude then view else set k pin view)
      ≡ (if k == j then (if some j == exclude then get j view else some pin) else get j view)
reserved_step exclude j k pin view = elim (Bool-cases (k == j)) [
  | inl same ↦
      let at : k ≡ j = (string_eq.beq_iff k j).0 same in
      rw same (ground (arith, ap (λ i. some i == exclude) at, get-set j k pin view, same))
  | inr apart ↦ rw apart (ground (arith, get-set j k pin view, apart))
]

add_reserved-get :
    (exclude : Option String) (next : ℕ) (j : String) (m : JsMap String PinReservation)
    (view : Pins)
    → IsUnique m
    → All (IsOwned next) m
    → get j (add_reserved exclude m view) ≡ seen (some j == exclude) (get j m) (get j view)
unfolding add_reserved get
add_reserved-get exclude next j [] view u owned = nothing (some j == exclude) (get j view)
  where
    nothing : (b : Bool) (o : Option StickyPin) → o ≡ seen b none o
    nothing true o = refl
    nothing false o = refl
add_reserved-get exclude next j ((k, r) ∷ m) view u owned =
    add_reserved-get exclude next j m _ u.1 owned.1 ∙ combine (k == j) refl
  where
    step :
        get j (if some r.session_id == exclude then view else set r.session_id r.pin view)
        ≡ (if k == j then (if some j == exclude then get j view else some r.pin) else get j view)
    step = rw owned.0.0 (reserved_step exclude j k r.pin view)

    absent : (n : JsMap String PinReservation) → k ≡ j → has k n ≡ false → get j n ≡ none
    absent n at h = ground (arith, ap (λ i. get i n) at)

    shown :
        (b : Bool) (o : Option StickyPin)
        → seen b none (if b then o else some r.pin) ≡ seen b (some r) o
    shown true o = refl
    shown false o = refl

    combine :
        (b : Bool)
        → (k == j) ≡ b
        → seen
            (some j == exclude)
            (get j m)
            (get j (if some r.session_id == exclude then view else set r.session_id r.pin view))
          ≡ seen (some j == exclude) (if k == j then some r else get j m) (get j view)
    combine true same =
        let gone : get j m ≡ none = absent m ((string_eq.beq_iff k j).0 same) u.0 in
        rw (step, same, gone) (shown (some j == exclude) (get j view))
    combine false apart = rw (step, apart) refl

-- In a sound ledger, a placement sees for each session the pin that it has reserved, unless the
-- session is the excluded one, and else the pin that is committed.
pub placement_snapshot-get :
    (exclude : Option String) (j : String) (s : SessionPins)
    → IsKept s
    → get j (placement_snapshot exclude s)
      ≡ seen (some j == exclude) (get j s.reservations) (get j s.pins)
unfolding placement_snapshot
placement_snapshot-get exclude j s k =
    add_reserved-get exclude s.next_ref j s.reservations s.pins k.unique_reservations k.owned
