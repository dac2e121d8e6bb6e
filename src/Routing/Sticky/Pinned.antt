-- ===== src/Routing/Sticky/Pinned.antt =====
-- packages/core/src/pool-routing.ts, `routePinnedRow`: a session leaves a row below its killswitch
-- floor.
use openai_auth.Prelude.{
  ℕ, ◌≡◌, refl, ◌≢◌, inl, inr, String, Bool, true, false, ◌&&◌, ◌||◌, not, Option, none, some, List,
  [], ◌==◌, string_eq, includes, arith, if_intro, Bool-cases, All, All-map, All-keep_if_test,
  All-includes, eq_of_==, ap,
}
use openai_auth.Routing.{
  Row, PoolInput, Admission, StickySource, StickyOutcome, dispatch, no_dispatch, StickyRoute,
  RoutingLibrary, passes,
}
use openai_auth.Routing.Credits.{credits_tiers, on_credits, refusal_map}
use openai_auth.Routing.Sticky.{
  StickyOptions, StickyRouter, route_pool_sticky, PinnedRowRoute, serve, detour, last_path_route,
  no_route, PinnedFacts, moves_for, others_on_credits, is_confirmed, refusal_of, pinned_dispatched,
  pinned_idle, pinned_route, pinned_facts, route_pinned_row,
}

-- A route on which the pinned row does not serve.
abbrev pub Leaves : PinnedRowRoute → Type 0
Leaves route = (route ≢ serve) × (route ≢ last_path_route)

moves_for-Leaves : (f : PinnedFacts) → Leaves (moves_for f)
moves_for-Leaves f = ((λ e. absurd (cc)), λ e. absurd (cc))

detour-Leaves : Leaves detour
detour-Leaves = ((λ e. absurd (cc)), λ e. absurd (cc))

no_route-Leaves : Leaves no_route
no_route-Leaves = ((λ e. absurd (cc)), λ e. absurd (cc))

pinned_dispatched-Leaves :
    (f : PinnedFacts) (account : String) (assigns : Bool)
    → includes f.tiers.credits f.id ≡ false
    → (account == f.id) ≡ false
    → Leaves (pinned_dispatched f account assigns)
pinned_dispatched-Leaves f account assigns poor other =
    if_intro Leaves assigns _ _
      (λ _.
        if_intro Leaves (not (includes f.tiers.free account) && includes f.tiers.credits f.id) _ _
          (λ paid. absurd (ground (arith, paid, poor))) λ _. moves_for-Leaves f)
      λ _.
        if_intro Leaves (not (account == f.id)) _ _ (λ _. detour-Leaves)
          λ same. absurd (ground (arith, same, other))

pinned_idle-Leaves :
    (f : PinnedFacts)
    → f.killed ≡ true
    → includes f.tiers.credits f.id ≡ false
    → Leaves (pinned_idle f)
pinned_idle-Leaves f killed poor =
    if_intro Leaves (includes f.tiers.credits f.id) _ _
      (λ paid. absurd (ground (arith, paid, poor)))
      λ _.
        if_intro Leaves (others_on_credits f) _ _
          (λ _.
            if_intro Leaves (f.killed || is_confirmed (refusal_of f)) _ _ (λ _. moves_for-Leaves f)
              λ _. detour-Leaves)
          λ _.
            if_intro Leaves (not f.killed && is_confirmed (refusal_of f)) _ _
              (λ alive. absurd (ground (arith, alive, killed))) λ _. no_route-Leaves

pinned_route-Leaves :
    (f : PinnedFacts) (o : StickyOutcome)
    → f.killed ≡ true
    → includes f.tiers.credits f.id ≡ false
    → ((account : String) (source : StickySource) (at : Option ℕ) (assigns : Bool)
        → o ≡ dispatch account source at assigns
        → (account == f.id) ≡ false)
    → Leaves (pinned_route f o)
pinned_route-Leaves f (dispatch account source at assigns) killed poor other =
    pinned_dispatched-Leaves f account assigns poor (other account source at assigns refl)
pinned_route-Leaves f no_dispatch killed poor other = pinned_idle-Leaves f killed poor

module _ (lib : RoutingLibrary) where
  -- The credits tier has only rows above their killswitch floor.
  pub credits_tiers-All :
      (rows : List (Row lib.Quota)) (input : PoolInput lib.Quota) (admission : Admission)
      → All
          (λ id. passes input.killswitch id ≡ true)
          (credits_tiers lib rows input admission).credits
  unfolding credits_tiers on_credits
  credits_tiers-All rows input admission =
      All-map (λ id. passes input.killswitch id ≡ true) (λ (r : Row lib.Quota). r.id) _
        (All-keep_if_test (λ (r : Row lib.Quota). passes input.killswitch r.id ≡ true)
          (on_credits lib input (refusal_map admission.refused [])) rows λ r h. ground arith)

  killed_off_credits :
      (rows : List (Row lib.Quota)) (input : PoolInput lib.Quota) (admission : Admission)
      (id : String)
      → passes input.killswitch id ≡ false
      → includes (credits_tiers lib rows input admission).credits id ≡ false
  killed_off_credits rows input admission id killed =
      elim (Bool-cases (includes (credits_tiers lib rows input admission).credits id)) [
        | inl paid ↦
            let alive : passes input.killswitch id ≡ true =
              All-includes (λ i. passes input.killswitch i ≡ true) _ id
                (credits_tiers-All rows input admission) paid in
            absurd (ground (arith, alive, killed))
        | inr poor ↦ poor
      ]

  -- The library sends a session with this pin only to a row above its killswitch floor.
  abbrev pub DispatchesAllowed :
      StickyRouter lib → PoolInput lib.Quota → StickyOptions → String → Type 0
  DispatchesAllowed router input options id =
      (account : String) (source : StickySource) (at : Option ℕ) (assigns : Bool)
      → (route_pool_sticky lib router input options (some id) [] none).outcome
        ≡ dispatch account source at assigns
      → passes input.killswitch account ≡ true

-- If the library sends a pinned session only to rows above their killswitch floor, a session whose
-- pinned row is below its floor does not send to that row: not as a serving row, for want of another
-- or on prepaid credits, and not as a last path.
pub route_pinned_row-Leaves :
    (lib : RoutingLibrary) (router : StickyRouter lib) (input : PoolInput lib.Quota)
    (options : StickyOptions) (id : String)
    → DispatchesAllowed lib router input options id
    → passes input.killswitch id ≡ false
    → Leaves (route_pinned_row lib router input options id)
unfolding route_pinned_row
route_pinned_row-Leaves lib router input options id allowed killed =
    pinned_route-Leaves (pinned_facts lib router input id route.admission) route.outcome
      (rw killed refl) (killed_off_credits lib input.rows input route.admission id killed)
      λ account source at assigns e. other account (allowed account source at assigns e)
  where
    route : StickyRoute
    route = route_pool_sticky lib router input options (some id) [] none

    other : (account : String) → passes input.killswitch account ≡ true → (account == id) ≡ false
    other account alive = elim (Bool-cases (account == id)) [
      | inl same ↦
          let at : account ≡ id = eq_of_== account id same in
          absurd (ground (arith, alive, killed, ap (passes input.killswitch) at))
      | inr apart ↦ apart
    ]
