-- ===== src/Pins/Tests.antt =====
-- Runs of the pin ledger, and its theorems at concrete calls.
use openai_auth.Prelude.{
  ℕ, ◌≡◌, refl, String, Bool, true, false, Option, none, some, List, [], ◌∷◌, max, includes, arith,
  string_eq, sym, ap, nat_eq, option_eq,
}
use openai_auth.Prelude.JsMap.{get, set, delete}
use openai_auth.Pins.{
  StickyPin, StickySelection, PinLibrary, StickyPinPlacement, SessionPins, new_session_pins,
  reserve, rollback, finish, place, place_sticky_pin, account_of, placement_snapshot, PinCall,
  reserves, places, pin_calls,
}
use openai_auth.Pins.Ledger.{IsKept, IsSound, pin_calls-IsSound}
use openai_auth.Pins.Commits.{finish-superseded}
use openai_auth.Pins.Placement.{place_sticky_pin-allowed, SelectsAllowed}

abbrev library : PinLibrary
library = record {
  PendingBytes = ℕ;
  is_pin_valid = λ pin valid identity. includes valid pin.account_id;
  pending_bytes_for_pins = λ pins checked session. 0;
}

abbrev pin_on : ℕ → String → StickyPin
pin_on ref account = record {
  ref = ref;
  account_id = account;
  input_bytes = 10;
  wire_identity = none;
  quota_checked_at = none;
}

abbrev to_b : ℕ → Option StickySelection
to_b pending = some (record { account_id = "b"; quota_checked_at = none })

-- A session whose pin, on `a`, may not stay.
abbrev moving : StickyPinPlacement library
moving = record {
  session_id = "s";
  request_bytes = 20;
  valid_pinned_account_ids = "a" ∷ "b" ∷ [];
  exclude_account_ids = "a" ∷ [];
  quota_checked_at_by_account = [];
  wire_account_id_by_account = [];
  select = to_b;
  persist = true;
}

abbrev ledger : SessionPins
ledger = record {
  pins = ("s", pin_on 7 "a") ∷ [];
  reservations = [];
  notices = [];
  limit = 1;
  next_ref = 8;
}

moves : account_of "s" (place library moving ledger).1 ≡ some "b"
unfolding place account_of placement_snapshot get set delete
moves = refl

-- A full ledger forgets the oldest session.
forgets_oldest : get "s" (place library (record moving { session_id = "t" }) ledger).1.pins ≡ none
unfolding place placement_snapshot get set delete
forgets_oldest = refl

moved : (place library moving ledger).0 ≡ some "b"
unfolding place placement_snapshot get
moved = refl

-- Whether a selection is on an excluded account.
abbrev excluded : Option StickySelection → Bool
excluded none = false
excluded (some selection) = includes moving.exclude_account_ids selection.account_id

moving-SelectsAllowed : SelectsAllowed library moving
moving-SelectsAllowed pending selection h = sym (ap excluded h)

abbrev two_calls : List (PinCall library)
two_calls = places moving ∷ reserves "t" (pin_on 9 "b") ∷ []

pin_calls-IsSound_example :
    IsSound (pin_calls library two_calls (new_session_pins 0))
    × ((pin_calls library two_calls (new_session_pins 0)).limit ≡ max 1 0)
pin_calls-IsSound_example = pin_calls-IsSound library 0 two_calls

finish-superseded_example :
    let (stale, held) = reserve "s" (pin_on 9 "b") ledger in
    let after = (reserve "s" (pin_on 10 "c") held).1 in
    (finish stale (some (pin_on 9 "b")) after ≡ after) × (rollback stale after ≡ after)
finish-superseded_example =
    finish-superseded "s" (pin_on 9 "b") (pin_on 10 "c") (some (pin_on 9 "b")) ledger

placed : (place_sticky_pin library 8 ledger.pins moving).0 ≡ some "b"
unfolding place_sticky_pin get
placed = refl

place_sticky_pin-allowed_example : includes moving.exclude_account_ids "b" ≡ false
place_sticky_pin-allowed_example =
    place_sticky_pin-allowed library moving 8 ledger.pins "b" moving-SelectsAllowed placed

-- A ledger with a reservation of another session.
abbrev reserved : SessionPins
reserved = record ledger {
  reservations =
      ("t", record { ref = 8; session_id = "t"; previous = none; pin = pin_on 9 "b" }) ∷ [];
  next_ref = 9;
}

reserved-IsKept : IsKept reserved
unfolding get
reserved-IsKept = record {
  positive = ground arith;
  unique = (refl, tt);
  unique_reservations = (refl, tt);
  owned = ((refl, ground arith), tt);
}

abbrev other_session : Option String
other_session = some "s"
