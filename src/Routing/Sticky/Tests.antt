-- ===== src/Routing/Sticky/Tests.antt =====
-- Runs of sticky routing over a small library, and its theorems at concrete inputs.
use openai_auth.Prelude.{
  ℕ, ◌≡◌, refl, String, false, none, List, [], ◌∷◌, includes, sym, ap, string_eq,
}
use openai_auth.Prelude.JsMap.{JsMap, get}
use openai_auth.Routing.{
  oauth, Row, PoolInput, Admission, weighted, StickyOutcome, dispatch, no_dispatch, RoutingLibrary,
  passes,
}
use openai_auth.Routing.Credits.{credits_tiers}
use openai_auth.Routing.Sticky.{
  StickyOptions, StickyRouter, route_pool_sticky, route_pinned_row, detour,
}
use openai_auth.Routing.Sticky.Pinned.{Leaves, DispatchesAllowed, route_pinned_row-Leaves}
use openai_auth.Routing.Sticky.Selection.{DispatchesGiven}

abbrev row_of : String → Row (Unit {0})
row_of id = record { id = id; kind = oauth; quota = tt }

abbrev admits_all : Admission
admits_all = record {
  admitted = record { id = "a"; last_path = false } ∷ record { id = "b"; last_path = false } ∷ [];
  refused = [];
  excluded = [];
}

-- A library that admits both rows and knows of no credits.
abbrev plain : RoutingLibrary
plain = record {
  Quota = Unit {0};
  Projection = Unit {0};
  Credits = Unit {0};
  project_quota = λ q. q;
  credits_of = λ p. tt;
  checked_at_of = λ p. none;
  budget_exhausted = λ p now. false;
  quota_credits = λ c. none;
  admit = λ input. admits_all;
  route_ordered = λ input placement main_id. record { order = []; admission = admits_all };
  order_for_placement = λ ids placement main_id. ids;
}

-- It sends every session to `b`, and gives it no new pin.
abbrev to_b : StickyRouter plain
to_b = record {
  route_sticky =
      λ request. record { outcome = dispatch "b" weighted none false; admission = admits_all };
}

abbrev options : StickyOptions
options = record { request_bytes = 100; reserve_percent = λ id. []; reset_credits = λ id. none }

-- Row `a` is below its killswitch floor.
abbrev input : PoolInput (Unit {0})
input = record {
  rows = row_of "a" ∷ row_of "b" ∷ [];
  now = 1000;
  rate_limit_marks = [];
  refresh_backoff = [];
  killswitch = ("a", false) ∷ [];
}

abbrev excluded : List String
excluded = "a" ∷ []

abbrev no_bytes : JsMap String ℕ
no_bytes = []

detours : route_pinned_row plain to_b input options "a" ≡ detour
unfolding route_pinned_row get credits_tiers
detours = refl

-- The account of an outcome.
abbrev account_of : StickyOutcome → String
account_of no_dispatch = "b"
account_of (dispatch account source at assigns) = account

to_b-DispatchesAllowed : DispatchesAllowed plain to_b input options "a"
unfolding get route_pool_sticky
to_b-DispatchesAllowed account source at assigns e =
    sym (ap (λ o. passes input.killswitch (account_of o)) e)

to_b-DispatchesGiven : DispatchesGiven plain to_b input options excluded no_bytes
unfolding route_pool_sticky
to_b-DispatchesGiven account source at assigns e =
    sym (ap (λ o. includes ("b" ∷ []) (account_of o)) e)

route_pinned_row-Leaves_example : Leaves (route_pinned_row plain to_b input options "a")
unfolding get
route_pinned_row-Leaves_example =
    route_pinned_row-Leaves plain to_b input options "a" to_b-DispatchesAllowed refl
