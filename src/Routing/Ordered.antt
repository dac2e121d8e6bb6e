-- ===== src/Routing/Ordered.antt =====
-- packages/core/src/pool-routing.ts: `blockFor`, `routeBlock` and `planOrdered`, the accounts to try
-- for one request in the ordered modes.
pub mod Plans
pub mod Sendable
use openai_auth.Prelude.{
  ℕ, String, Bool, true, false, ◌&&◌, ◌||◌, not, Option, none, some, List, [], ◌∷◌, ◌++◌, map,
  if◌then◌else◌, ◌==◌, string_eq, is_some, or_else, keep_if, find_if, includes, any,
}
use openai_auth.Prelude.JsMap.{JsMap, get}
use openai_auth.Routing.{
  Row, PoolInput, Refusal, ExclusionReason, rate_limited, other_exclusion, Exclusion, Admission,
  OrderedPlacement, main_first, OrderedRoute, RoutingLibrary, passes,
}
use openai_auth.Routing.Credits.{
  former_main_id, is_confirmed_exhaustion, CreditsTiers, credits_tiers,
}

pub data PoolBlockReason : Type 0 where
  killswitch mid_stream_rate_limit quota_exhausted quota_unknown no_credential : PoolBlockReason

pub record PoolBlock : Type 0 where
  pub reason : PoolBlockReason
  pub reset_at : Option ℕ

abbrev pub bare : PoolBlockReason → PoolBlock
bare reason = record { reason = reason; reset_at = none }

pub data OrderedPlan : Type 0 where
  send : List String → Bool → OrderedPlan
  block : PoolBlock → OrderedPlan

abbrev block_of_refusal : Option Refusal → PoolBlock
block_of_refusal none = bare no_credential
block_of_refusal (some refusal) =
    if is_some refusal.reset_at
    then record { reason = quota_exhausted; reset_at = refusal.reset_at }
    else bare quota_unknown

abbrev block_of_reason : ExclusionReason → Option ℕ → PoolBlock
block_of_reason rate_limited until = record { reason = mid_stream_rate_limit; reset_at = until }
block_of_reason other_exclusion until = bare no_credential

abbrev block_of_exclusion : Option Exclusion → Option Refusal → PoolBlock
block_of_exclusion none refusal = block_of_refusal refusal
block_of_exclusion (some exclusion) refusal = block_of_reason exclusion.reason exclusion.until

pub block_for : Option String → Admission → JsMap String Bool → PoolBlock
block_for none admission verdicts = bare no_credential
block_for (some id) admission verdicts =
    if not (passes verdicts id)
    then bare PoolBlockReason.killswitch
    else block_of_exclusion (find_if (λ (e : Exclusion). e.id == id) admission.excluded)
        (find_if (λ (r : Refusal). r.id == id) admission.refused)

abbrev pub first : List String → Option String
first [] = none
first (id ∷ ids) = some id

-- A refusal that waits for a reading, of a row that its killswitch allows.
abbrev pub waits : JsMap String Bool → Refusal → Bool
waits verdicts refusal = not (is_confirmed_exhaustion refusal.reason) && passes verdicts refusal.id

pub route_block : List String → Admission → JsMap String Bool → PoolBlock
unfolding block_for
route_block ids admission verdicts =
    if any (waits verdicts) admission.refused
    then bare quota_unknown
    else block_for (first ids) admission verdicts

-- The `mainId` of a caller: local callers leave it out, a vault with no main passes null.
pub data MainId : Type 0 where
  unset : MainId
  null_id : MainId
  named : String → MainId

abbrev pub main_of : MainId → String
main_of unset = former_main_id
main_of null_id = ""
main_of (named id) = id

abbrev pub confirmed : JsMap String Bool → Refusal → Bool
confirmed verdicts refusal = is_confirmed_exhaustion refusal.reason && passes verdicts refusal.id

-- The ids that one request is planned from.
pub record Candidates : Type 0 where
  pub ids : List String
  pub order : List String
  pub free : List String
  pub credits : List String
  pub confirmed_ids : List String
  pub last_path : List String
  pub admission : Admission

module _ (lib : RoutingLibrary) where
  pub candidates : PoolInput lib.Quota → OrderedPlacement → String → Candidates
  candidates input placement main_id =
      let route = lib.route_ordered input placement main_id in
      let ids =
        lib.order_for_placement (map (λ (r : Row lib.Quota). r.id) input.rows) placement main_id in
      let exhausted_ids : List String =
        map (λ (r : Refusal). r.id)
          (keep_if (confirmed input.killswitch) route.admission.refused) in
      let tiers = credits_tiers lib input.rows input route.admission in
      record {
        ids = ids;
        order = route.order;
        free = keep_if (includes tiers.free) route.order;
        credits = keep_if (includes tiers.credits) ids;
        confirmed_ids = exhausted_ids;
        last_path = keep_if (includes exhausted_ids) ids;
        admission = route.admission;
      }

-- `free[0] ?? credits[0] ?? route.order[0] ?? lastPath[0]`
abbrev first_of_tiers : Candidates → Option String
first_of_tiers c =
    if is_some (first c.free)
    then first c.free
    else if is_some (first c.credits)
    then first c.credits
    else if is_some (first c.order)
    then first c.order
    else first c.last_path

-- The sends to one account, or what blocks it.
abbrev send_to : Candidates → PoolBlock → Option String → OrderedPlan
send_to c refusal none = block refusal
send_to c refusal (some target) =
    if includes c.order target || includes c.credits target
    then send (target ∷ []) false
    else if includes c.confirmed_ids target
    then send (target ∷ []) true
    else block refusal

-- The no-replay gate: main whatever its tier, and without main one account of the best tier.
pub plan_once : Candidates → String → JsMap String Bool → OrderedPlan
unfolding block_for route_block
plan_once c main_id verdicts =
    if includes c.ids main_id
    then send_to c (block_for (some main_id) c.admission verdicts) (some main_id)
    else send_to c (route_block c.ids c.admission verdicts) (first_of_tiers c)

abbrev pub is_nil : List String → Bool
is_nil [] = true
is_nil (id ∷ ids) = false

-- What is tried behind the credits rows.
abbrev pub rest_of : Candidates → List String
rest_of c = if not (is_nil c.order) then c.order else c.last_path

-- Free rows, else credits rows before the rest, else the last path.
pub plan_tiers : Candidates → JsMap String Bool → OrderedPlan
unfolding route_block
plan_tiers c verdicts =
    if not (is_nil c.free)
    then send c.free false
    else if not (is_nil c.credits)
    then send (c.credits ++ keep_if (λ id. not (includes c.credits id)) (rest_of c)) false
    else if not (is_nil c.order)
    then send c.order false
    else if not (is_nil c.last_path)
    then send c.last_path true
    else block (route_block c.ids c.admission verdicts)

module _ (lib : RoutingLibrary) where
  -- `planOrdered`: `replayable` is whether the request can be sent twice.
  unfoldable pub plan_ordered : PoolInput lib.Quota → OrderedPlacement → MainId → Bool → OrderedPlan
  unfolding candidates plan_once plan_tiers
  plan_ordered input placement main replayable =
      let main_id = main_of main in
      if not replayable
      then plan_once (candidates lib input main_first main_id) main_id input.killswitch
      else plan_tiers (candidates lib input placement main_id) input.killswitch
