-- ===== src/Pins.antt =====
-- packages/core/src/pool-session-pins.ts and packages/opencode/src/v2/pins.ts: which account a
-- session is pinned to, and the bounded ledger of pins with its reservations. `isPinValid` and
-- `pendingBytesForPins` of the routing library are a parameter. The code compares pins and
-- reservations by identity: each has a field `ref`, its object's identity.
pub mod Ledger
pub mod Commits
pub mod Placement
mod Tests
use openai_auth.Prelude.{
  ℕ, suc, zero, ◌+◌, String, Bool, true, false, ◌&&◌, not, Option, none, some, List, [], ◌∷◌, max,
  ltb, if◌then◌else◌, ◌==◌, nat_eq, string_eq, option_eq, includes,
}
use openai_auth.Prelude.JsMap.{JsMap, size, get, set, delete}

pub record StickyPin : Type 0 where
  pub ref : ℕ
  pub account_id : String
  pub input_bytes : ℕ
  pub wire_identity : Option String
  pub quota_checked_at : Option ℕ

abbrev pub Pins : Type 0
Pins = JsMap String StickyPin

pub record StickySelection : Type 0 where
  pub account_id : String
  pub quota_checked_at : Option ℕ

pub record PinLibrary : Type 1 where
  pub PendingBytes : Type 0
  pub is_pin_valid : StickyPin → List String → Option String → Bool
  pub pending_bytes_for_pins : Pins → JsMap String (Option ℕ) → String → PendingBytes

-- `record[key]` where the value may itself be undefined.
abbrev flat {ℓ} : {A : Type ℓ} → Option (Option A) → Option A
flat none = none
flat (some value) = value

abbrev pub lookup {ℓ} : {A : Type ℓ} → String → JsMap String (Option A) → Option A
lookup key record_of = flat (get key record_of)

-- The account of a decision, and the pin that it sets for the session, if it sets one.
abbrev pub Placed : Type 0
Placed = Option String × Option StickyPin

abbrev pub placed_as : Bool → StickyPin → Placed
placed_as persist pin = (some pin.account_id, if persist then some pin else none)

module _ (lib : PinLibrary) where
  pub record StickyPinPlacement : Type 0 where
    pub session_id : String
    pub request_bytes : ℕ
    pub valid_pinned_account_ids : List String
    pub exclude_account_ids : List String
    pub quota_checked_at_by_account : JsMap String (Option ℕ)
    pub wire_account_id_by_account : JsMap String (Option String)
    pub select : lib.PendingBytes → Option StickySelection
    pub persist : Bool

  -- The test under which a session stays where it is.
  abbrev pub stays : StickyPinPlacement → StickyPin → Bool
  stays placement pin =
      not (includes placement.exclude_account_ids pin.account_id)
      && lib.is_pin_valid pin placement.valid_pinned_account_ids
          (lookup pin.account_id placement.wire_account_id_by_account)

  -- The pin that replaces one that stays: its account and wire identity, with new counts.
  abbrev pub renewed : ℕ → StickyPinPlacement → StickyPin → StickyPin
  renewed ref placement pin = record {
    ref = ref;
    account_id = pin.account_id;
    input_bytes = placement.request_bytes;
    wire_identity = pin.wire_identity;
    quota_checked_at = lookup pin.account_id placement.quota_checked_at_by_account;
  }

  abbrev pub pin_of : ℕ → StickyPinPlacement → StickySelection → StickyPin
  pin_of ref placement selection = record {
    ref = ref;
    account_id = selection.account_id;
    input_bytes = placement.request_bytes;
    wire_identity = lookup selection.account_id placement.wire_account_id_by_account;
    quota_checked_at = selection.quota_checked_at;
  }

  abbrev pub choose : ℕ → StickyPinPlacement → Option StickySelection → Placed
  choose ref placement none = (none, none)
  choose ref placement (some selection) =
      placed_as placement.persist (pin_of ref placement selection)

  abbrev pub chosen : ℕ → Pins → StickyPinPlacement → Placed
  chosen ref pins placement = choose ref placement (
      placement.select (
        lib.pending_bytes_for_pins pins placement.quota_checked_at_by_account placement.session_id))

  abbrev pub place_from : ℕ → Pins → StickyPinPlacement → Option StickyPin → Placed
  place_from ref pins placement none = chosen ref pins placement
  place_from ref pins placement (some pin) =
      if stays placement pin
      then placed_as placement.persist (renewed ref placement pin)
      else chosen ref pins placement

  -- `placeStickyPin`: `ref` is the identity of the object that it makes.
  pub place_sticky_pin : ℕ → Pins → StickyPinPlacement → Placed
  place_sticky_pin ref pins placement =
      place_from ref pins placement (get placement.session_id pins)

abbrev pub max_session_pins : ℕ
max_session_pins = 1024

pub record PinReservation : Type 0 where
  pub ref : ℕ
  pub session_id : String
  pub previous : Option StickyPin
  pub pin : StickyPin

-- The class SessionPins. `notices` lists what each listener is told, the latest first, and
-- `next_ref` is the identity of the next object.
pub record SessionPins : Type 0 where
  pub pins : Pins
  pub reservations : JsMap String PinReservation
  pub notices : List (String × Option StickyPin)
  pub limit : ℕ
  pub next_ref : ℕ

pub new_session_pins : ℕ → SessionPins
new_session_pins limit = record {
  pins = [];
  reservations = [];
  notices = [];
  limit = max 1 limit;
  next_ref = 0;
}

pub forget : String → SessionPins → SessionPins
forget session_id s = record s {
  reservations = delete session_id s.reservations;
  pins = delete session_id s.pins;
  notices = (session_id, none) ∷ s.notices;
}

abbrev pub oldest : Pins → Option String
oldest [] = none
oldest ((session_id, pin) ∷ rest) = some session_id

abbrev pub forget_oldest : Option String → SessionPins → SessionPins
forget_oldest none s = s
forget_oldest (some session_id) s = forget session_id s

-- The loop of `set`, on the number of pins as fuel: it forgets the first key until the bound holds.
pub evict : ℕ → SessionPins → SessionPins
unfolding forget
evict zero s = s
evict (suc fuel) s =
    let rest = evict fuel (forget_oldest (oldest s.pins) s) in
    if ltb s.limit (size s.pins) then rest else s

-- The state that `set` has before its loop.
abbrev pub with_pin : String → StickyPin → SessionPins → SessionPins
with_pin session_id pin s = record s {
  reservations = delete session_id s.reservations;
  pins = set session_id pin (delete session_id s.pins);
  notices = (session_id, some pin) ∷ s.notices;
}

pub set_pin : String → StickyPin → SessionPins → SessionPins
unfolding evict
set_pin session_id pin s = evict (size (with_pin session_id pin s).pins) (with_pin session_id pin s)

abbrev account_of_pin : Option StickyPin → Option String
account_of_pin none = none
account_of_pin (some pin) = some pin.account_id

pub account_of : String → SessionPins → Option String
account_of session_id s = account_of_pin (get session_id s.pins)

-- The loop of `placementSnapshot`.
pub add_reserved : Option String → JsMap String PinReservation → Pins → Pins
add_reserved exclude [] view = view
add_reserved exclude ((session_id, reservation) ∷ rest) view = add_reserved exclude rest (
    if some reservation.session_id == exclude
    then view
    else set reservation.session_id reservation.pin view)

pub placement_snapshot : Option String → SessionPins → Pins
unfolding add_reserved
placement_snapshot exclude s = add_reserved exclude s.reservations s.pins

pub reserve : String → StickyPin → SessionPins → PinReservation × SessionPins
reserve session_id pin s =
    let reservation : PinReservation = record {
      ref = s.next_ref;
      session_id = session_id;
      previous = get session_id s.pins;
      pin = pin;
    } in
    (
      reservation,
      record s {
        reservations = set session_id reservation s.reservations;
        next_ref = s.next_ref + 1;
      },
    )

abbrev pub is_same_reservation : PinReservation → Option PinReservation → Bool
is_same_reservation reservation none = false
is_same_reservation reservation (some current) = current.ref == reservation.ref

-- Whether a reservation is its session's current one.
abbrev pub is_current : PinReservation → SessionPins → Bool
is_current reservation s =
    is_same_reservation reservation (get reservation.session_id s.reservations)

abbrev pub is_same_pin : Option StickyPin → Option StickyPin → Bool
is_same_pin none none = true
is_same_pin (some pin) (some other) = pin.ref == other.ref
is_same_pin _ _ = false

pub rollback : PinReservation → SessionPins → SessionPins
rollback reservation s =
    if is_current reservation s
    then record s { reservations = delete reservation.session_id s.reservations }
    else s

abbrev pub commit : PinReservation → Option StickyPin → SessionPins → SessionPins
commit reservation none s = s
commit reservation (some pin) s =
    if is_same_pin (get reservation.session_id s.pins) reservation.previous
    then set_pin reservation.session_id pin s
    else s

pub finish : PinReservation → Option StickyPin → SessionPins → SessionPins
unfolding rollback set_pin
finish reservation pin s =
    if is_current reservation s then commit reservation pin (rollback reservation s) else s

abbrev pub set_placed : String → Option StickyPin → SessionPins → SessionPins
set_placed session_id none s = s
set_placed session_id (some pin) s = set_pin session_id pin (record s { next_ref = s.next_ref + 1 })

module _ (lib : PinLibrary) where
  pub place : StickyPinPlacement lib → SessionPins → Option String × SessionPins
  unfolding place_sticky_pin placement_snapshot set_pin
  place placement s =
      let placed =
        place_sticky_pin lib s.next_ref (placement_snapshot (some placement.session_id) s)
          placement in
      (placed.0, set_placed placement.session_id placed.1 s)

-- The calls of a host that change the ledger.
pub data PinCall (lib : PinLibrary) : Type 1 where
  forgets : String → PinCall lib
  reserves : String → StickyPin → PinCall lib
  rolls_back : PinReservation → PinCall lib
  finishes : PinReservation → Option StickyPin → PinCall lib
  places : StickyPinPlacement lib → PinCall lib

module _ (lib : PinLibrary) where
  pub pin_call : PinCall lib → SessionPins → SessionPins
  unfolding forget reserve rollback finish place
  pin_call (forgets session_id) s = forget session_id s
  pin_call (reserves session_id pin) s = (reserve session_id pin s).1
  pin_call (rolls_back reservation) s = rollback reservation s
  pin_call (finishes reservation pin) s = finish reservation pin s
  pin_call (places placement) s = (place lib placement s).1

  pub pin_calls : List (PinCall lib) → SessionPins → SessionPins
  unfolding pin_call
  pin_calls [] s = s
  pin_calls (c ∷ cs) s = pin_calls cs (pin_call c s)
