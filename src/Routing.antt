-- ===== src/Routing.antt =====
-- packages/core/src/pool-routing.ts: routing decisions over the account pool. The routing library
-- `@cortexkit/common-auth/routing` and the quota library are not in the repository: this module
-- has the types that they share with the code and takes their functions as a record.
pub mod Credits
pub mod Ordered
pub mod Sticky
mod Tests
use openai_auth.Prelude.{
  ℕ, String, Bool, true, false, Option, none, some, List, ◌==◌, string_eq, JsNumber,
}
use openai_auth.Prelude.JsMap.{JsMap, get}

pub data RowKind : Type 0 where
  oauth other_kind : RowKind

-- RoutingRow: an account, with its quota as the library stores it.
pub record Row (Quota : Type 0) : Type 0 where
  pub id : String
  pub kind : RowKind
  pub quota : Quota

-- PoolRoutingInput. `requestPull`, which asks for a quota poll, decides nothing and has no field.
pub record PoolInput (Quota : Type 0) : Type 0 where
  pub rows : List (Row Quota)
  pub now : ℕ
  pub rate_limit_marks : JsMap String ℕ
  pub refresh_backoff : JsMap String ℕ
  pub killswitch : JsMap String Bool

-- Why admission refused a row. Only the first two confirm that the account is used up.
pub data RefusalReason : Type 0 where
  exhausted budget_spent unknown_quota : RefusalReason

pub record Refusal : Type 0 where
  pub id : String
  pub reason : RefusalReason
  pub reset_at : Option ℕ

pub data ExclusionReason : Type 0 where
  rate_limited other_exclusion : ExclusionReason

pub record Exclusion : Type 0 where
  pub id : String
  pub reason : ExclusionReason
  pub until : Option ℕ

-- An admitted row; `last_path` marks the library's own exception for spent budgets.
pub record AdmittedRow : Type 0 where
  pub id : String
  pub last_path : Bool

pub record Admission : Type 0 where
  pub admitted : List AdmittedRow
  pub refused : List Refusal
  pub excluded : List Exclusion

pub data OrderedPlacement : Type 0 where
  roster main_first fallback_first : OrderedPlacement

pub record OrderedRoute : Type 0 where
  pub order : List String
  pub admission : Admission

-- A well-formed record of prepaid credits.
pub record QuotaCredits : Type 0 where
  pub checked_at : JsNumber
  pub overage_limit_reached : Option Bool
  pub unlimited : Bool
  pub has_credits : Bool
  pub balance : Option ℕ

pub data StickySource : Type 0 where
  pinned weighted mode_fallback : StickySource

-- What sticky routing does with a request: `assigns` says that it gives the session a new pin.
pub data StickyOutcome : Type 0 where
  dispatch : String → StickySource → Option ℕ → Bool → StickyOutcome
  no_dispatch : StickyOutcome

pub record StickyRoute : Type 0 where
  pub outcome : StickyOutcome
  pub admission : Admission

-- The functions of the two libraries that the code calls.
pub record RoutingLibrary : Type 1 where
  pub Quota : Type 0
  pub Projection : Type 0
  pub Credits : Type 0
  pub project_quota : Quota → Projection
  pub credits_of : Projection → Credits
  pub checked_at_of : Projection → Option ℕ
  pub budget_exhausted : Projection → ℕ → Bool
  pub quota_credits : Credits → Option QuotaCredits
  pub admit : PoolInput Quota → Admission
  pub route_ordered : PoolInput Quota → OrderedPlacement → String → OrderedRoute
  pub order_for_placement : List String → OrderedPlacement → String → List String

-- `killswitch.get(id) !== false`
abbrev pub not_false : Option Bool → Bool
not_false none = true
not_false (some b) = b

abbrev pub passes : JsMap String Bool → String → Bool
passes killswitch id = not_false (get id killswitch)
