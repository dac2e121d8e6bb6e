-- ===== src/Routing/Sticky/Selection.antt =====
-- packages/core/src/pool-routing.ts, `selectStickyRow`: where a session without a usable pin goes.
use openai_auth.Prelude.{
  ℕ, ◌≡◌, refl, String, Bool, true, false, not, Option, none, some, List, [], ◌∷◌, string_eq,
  includes, arith, if_intro, All, All-map, All-keep_if_test, All-keep_if, All-includes,
}
use openai_auth.Prelude.JsMap.{JsMap}
use openai_auth.Routing.{
  Row, PoolInput, Admission, StickySource, pinned, weighted, mode_fallback, StickyOutcome, dispatch,
  no_dispatch, StickyRoute, RoutingLibrary,
}
use openai_auth.Routing.Credits.{CreditsTiers, credits_tiers, on_credits, refusal_map}
use openai_auth.Routing.Ordered.{first}
use openai_auth.Routing.Sticky.{
  StickyOptions, StickyRouter, StickySelected, rows_without, row_ids, route_pool_sticky,
  selected_by, is_on_tier, on_first_credits, select_sticky_row,
}

-- A selection, if there is one, is on an account that `P` holds of.
abbrev pub Selects : (String → Type 0) → Option StickySelected → Type 0
Selects P none = Unit
Selects P (some selected) = P selected.account_id

module _ (lib : RoutingLibrary) (P : String → Type 0) where
  selected_by-Selects :
      (o : StickyOutcome)
      → ((account : String) (source : StickySource) (at : Option ℕ) (assigns : Bool)
          → o ≡ dispatch account source at assigns
          → P account)
      → Selects P (selected_by lib o)
  selected_by-Selects no_dispatch p = tt
  selected_by-Selects (dispatch account pinned at assigns) p = tt
  selected_by-Selects (dispatch account weighted at assigns) p = p account weighted at assigns refl
  selected_by-Selects (dispatch account mode_fallback at assigns) p =
      p account mode_fallback at assigns refl

  on_first_credits-Selects :
      (rows : List (Row lib.Quota)) (ids : List String) (selected : Option StickySelected)
      → All P ids
      → Selects P selected
      → Selects P (on_first_credits lib rows (first ids) selected)
  on_first_credits-Selects rows [] selected h p = p
  on_first_credits-Selects rows (id ∷ ids) selected h p = h.0

  -- The credits tier is made of the rows that it is given.
  credits-of_rows :
      (rows : List (Row lib.Quota)) (input : PoolInput lib.Quota) (admission : Admission)
      → All (λ (r : Row lib.Quota). P r.id) rows
      → All P (credits_tiers lib rows input admission).credits
  unfolding credits_tiers
  credits-of_rows rows input admission h =
      All-map P (λ (r : Row lib.Quota). r.id) _
        (All-keep_if (λ (r : Row lib.Quota). P r.id) (λ (r : Row lib.Quota). P r.id)
          (on_credits lib input (refusal_map admission.refused [])) rows (λ r p _. p) h)

-- The library routes only to rows that it is given.
abbrev pub DispatchesGiven :
    (lib : RoutingLibrary)
    → StickyRouter lib
    → PoolInput lib.Quota
    → StickyOptions
    → List String
    → JsMap String ℕ
    → Type 0
DispatchesGiven lib router input options exclude pending =
    (account : String) (source : StickySource) (at : Option ℕ) (assigns : Bool)
    → (route_pool_sticky lib router input options none exclude (some pending)).outcome
      ≡ dispatch account source at assigns
    → includes (row_ids lib (rows_without lib exclude input.rows)) account ≡ true

-- If the library routes only to rows that it is given, a session without a usable pin is never
-- placed on an excluded account, be it by the library or on prepaid credits.
pub select_sticky_row-excludes :
    (lib : RoutingLibrary) (router : StickyRouter lib) (input : PoolInput lib.Quota)
    (options : StickyOptions) (exclude : List String) (pending : JsMap String ℕ)
    → DispatchesGiven lib router input options exclude pending
    → Selects
        (λ account. includes exclude account ≡ false)
        (select_sticky_row lib router input options exclude pending)
unfolding select_sticky_row
select_sticky_row-excludes lib router input options exclude pending given =
    if_intro (Selects Kept) (is_on_tier lib tiers.free selected) _ _ (λ _. from_library)
      λ _.
        on_first_credits-Selects lib Kept rows tiers.credits selected
          (credits-of_rows lib Kept rows input route.admission kept_rows) from_library
  where
    Kept : String → Type 0
    Kept account = includes exclude account ≡ false

    rows : List (Row lib.Quota)
    rows = rows_without lib exclude input.rows

    route : StickyRoute
    route = route_pool_sticky lib router input options none exclude (some pending)

    tiers : CreditsTiers
    tiers = credits_tiers lib rows input route.admission

    selected : Option StickySelected
    selected = selected_by lib route.outcome

    kept_rows : All (λ (r : Row lib.Quota). Kept r.id) rows
    kept_rows =
        All-keep_if_test (λ (r : Row lib.Quota). Kept r.id)
          (λ (r : Row lib.Quota). not (includes exclude r.id)) input.rows (λ r h. ground arith)

    from_library : Selects Kept selected
    from_library = selected_by-Selects lib Kept route.outcome λ account source at assigns e.
        All-includes Kept (row_ids lib rows) account
          (All-map Kept (λ (r : Row lib.Quota). r.id) rows kept_rows)
          (given account source at assigns e)
