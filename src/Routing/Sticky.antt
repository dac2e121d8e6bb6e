-- ===== src/Routing/Sticky.antt =====
-- packages/core/src/pool-routing.ts: sticky routing. The routing library's `routeSticky` is a
-- parameter, beside the library's other functions.
pub mod Pinned
pub mod Selection
mod Tests
use openai_auth.Prelude.{
  ℕ, String, Bool, true, false, ◌&&◌, ◌||◌, not, Option, none, some, List, [], ◌∷◌, map,
  if◌then◌else◌, ◌==◌, string_eq, is_some, keep_if, find_if, includes, any,
}
use openai_auth.Prelude.JsMap.{JsMap, get, set}
use openai_auth.Routing.{
  Row, PoolInput, Refusal, AdmittedRow, Admission, StickySource, pinned, weighted, mode_fallback,
  StickyOutcome, dispatch, no_dispatch, StickyRoute, RoutingLibrary, passes,
}
use openai_auth.Routing.Credits.{is_confirmed_exhaustion, CreditsTiers, credits_tiers}
use openai_auth.Routing.Ordered.{first}

-- StickyRouteOptions; `onEmptyWeightedSet`, a notice, has no field.
pub record StickyOptions : Type 0 where
  pub request_bytes : ℕ
  pub reserve_percent : String → JsMap String ℕ
  pub reset_credits : String → Option ℕ

-- What `routePoolSticky` hands to the library.
pub record StickyRequest (Quota : Type 0) : Type 0 where
  pub rows : List (Row Quota)
  pub input : PoolInput Quota
  pub request_bytes : ℕ
  pub pending_bytes : Option (JsMap String ℕ)
  pub row_reserve_percent : Row Quota → JsMap String ℕ
  pub reset_credits_applicable : JsMap String ℕ
  pub pin : Option String

pub record StickySelected : Type 0 where
  pub account_id : String
  pub source : StickySource
  pub quota_checked_at : Option ℕ

pub data MoveReason : Type 0 where
  for_killswitch for_exhaustion : MoveReason

-- What a session that is pinned to a row does with a request.
pub data PinnedRowRoute : Type 0 where
  serve : PinnedRowRoute
  move : MoveReason → PinnedRowRoute
  detour : PinnedRowRoute
  last_path_route : PinnedRowRoute
  no_route : PinnedRowRoute

-- The loop over the rows that asks each for its reset credits.
abbrev pub put_credits : Option ℕ → String → JsMap String ℕ → JsMap String ℕ
put_credits none id credits = credits
put_credits (some n) id credits = set id n credits

pub collect_credits : (String → Option ℕ) → List String → JsMap String ℕ → JsMap String ℕ
collect_credits reset_credits [] credits = credits
collect_credits reset_credits (id ∷ ids) credits =
    collect_credits reset_credits ids (put_credits (reset_credits id) id credits)

module _ (lib : RoutingLibrary) where
  pub record StickyRouter : Type 0 where
    pub route_sticky : StickyRequest lib.Quota → StickyRoute

  -- The rows that an exclusion leaves.
  abbrev pub rows_without : List String → List (Row lib.Quota) → List (Row lib.Quota)
  rows_without exclude rows = keep_if (λ (r : Row lib.Quota). not (includes exclude r.id)) rows

  abbrev pub row_ids : List (Row lib.Quota) → List String
  row_ids rows = map (λ (r : Row lib.Quota). r.id) rows

  -- `projectQuota(rows.find(...)?.quota).checkedAt`, of a row that is there.
  abbrev checked_at : Option (Row lib.Quota) → Option ℕ
  checked_at none = none
  checked_at (some row) = lib.checked_at_of (lib.project_quota row.quota)

  -- With no pin passed in, the library never dispatches by pin.
  abbrev unpinned : String → StickySource → Option ℕ → Option StickySelected
  unpinned account pinned at = none
  unpinned account weighted at =
      some (record { account_id = account; source = weighted; quota_checked_at = at })
  unpinned account mode_fallback at =
      some (record { account_id = account; source = mode_fallback; quota_checked_at = at })

  abbrev pub selected_by : StickyOutcome → Option StickySelected
  selected_by no_dispatch = none
  selected_by (dispatch account source at assigns) = unpinned account source at

  abbrev pub is_on_tier : List String → Option StickySelected → Bool
  is_on_tier tier none = false
  is_on_tier tier (some selected) = includes tier selected.account_id

  abbrev pub on_first_credits :
      List (Row lib.Quota) → Option String → Option StickySelected → Option StickySelected
  on_first_credits rows none selected = selected
  on_first_credits rows (some id) selected = some (record {
    account_id = id;
    source = mode_fallback;
    quota_checked_at = checked_at (find_if (λ (r : Row lib.Quota). r.id == id) rows);
  })

module _ (lib : RoutingLibrary) (router : StickyRouter lib) where
  pub route_pool_sticky :
      PoolInput lib.Quota
      → StickyOptions
      → Option String
      → List String
      → Option (JsMap String ℕ)
      → StickyRoute
  unfolding collect_credits
  route_pool_sticky input options pin exclude pending_bytes =
      let rows = rows_without lib exclude input.rows in
      router.route_sticky (record {
        rows = rows;
        input = input;
        request_bytes = options.request_bytes;
        pending_bytes = pending_bytes;
        row_reserve_percent = λ (row : Row lib.Quota). options.reserve_percent row.id;
        reset_credits_applicable = collect_credits options.reset_credits (row_ids lib rows) [];
        pin = pin;
      })

  pub select_sticky_row :
      PoolInput lib.Quota → StickyOptions → List String → JsMap String ℕ → Option StickySelected
  unfolding route_pool_sticky
  select_sticky_row input options exclude pending_bytes =
      let route = route_pool_sticky input options none exclude (some pending_bytes) in
      let rows = rows_without lib exclude input.rows in
      let tiers = credits_tiers lib rows input route.admission in
      let selected = selected_by lib route.outcome in
      if is_on_tier lib tiers.free selected
      then selected
      else on_first_credits lib rows (first tiers.credits) selected

-- What `routePinnedRow` knows of the pinned row.
pub record PinnedFacts : Type 0 where
  pub id : String
  pub killed : Bool
  pub tiers : CreditsTiers
  pub admission : Admission

abbrev pub moves_for : PinnedFacts → PinnedRowRoute
moves_for f = move (if f.killed then for_killswitch else for_exhaustion)

abbrev pub others_on_credits : PinnedFacts → Bool
others_on_credits f = any (λ other. not (other == f.id)) f.tiers.credits

-- `refusal !== undefined && isConfirmedExhaustion(refusal)`
abbrev pub is_confirmed : Option Refusal → Bool
is_confirmed none = false
is_confirmed (some refusal) = is_confirmed_exhaustion refusal.reason

abbrev pub refusal_of : PinnedFacts → Option Refusal
refusal_of f = find_if (λ (r : Refusal). r.id == f.id) f.admission.refused

abbrev pub pinned_dispatched : PinnedFacts → String → Bool → PinnedRowRoute
pinned_dispatched f account assigns =
    let to_last_path = not (includes f.tiers.free account) in
    if assigns
    then if to_last_path && includes f.tiers.credits f.id then serve else moves_for f
    else if not (account == f.id)
    then detour
    else if to_last_path && others_on_credits f
    then moves_for f
    else serve

abbrev pub pinned_idle : PinnedFacts → PinnedRowRoute
pinned_idle f =
    if includes f.tiers.credits f.id
    then serve
    else if others_on_credits f
    then if f.killed || is_confirmed (refusal_of f) then moves_for f else detour
    else if not f.killed && is_confirmed (refusal_of f)
    then last_path_route
    else no_route

abbrev pub pinned_route : PinnedFacts → StickyOutcome → PinnedRowRoute
pinned_route f (dispatch account source at assigns) = pinned_dispatched f account assigns
pinned_route f no_dispatch = pinned_idle f

module _ (lib : RoutingLibrary) (router : StickyRouter lib) where
  abbrev pub pinned_facts : PoolInput lib.Quota → String → Admission → PinnedFacts
  pinned_facts input id admission = record {
    id = id;
    killed = not (passes input.killswitch id);
    tiers = credits_tiers lib input.rows input admission;
    admission = admission;
  }

  unfoldable pub route_pinned_row : PoolInput lib.Quota → StickyOptions → String → PinnedRowRoute
  unfolding route_pool_sticky
  route_pinned_row input options id =
      let route = route_pool_sticky lib router input options (some id) [] none in
      pinned_route (pinned_facts input id route.admission) route.outcome
