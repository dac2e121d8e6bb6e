-- ===== src/Routing/Tests.antt =====
-- Runs of the planner over a small routing library, and its theorems at concrete inputs.
use openai_auth.Prelude.{
  ℕ, ◌≡◌, refl, ◌↔◌, String, true, false, Option, none, some, List, [], ◌∷◌, map, leb,
  if◌then◌else◌, string_eq, finite, All, keep_if,
}
use openai_auth.Prelude.JsMap.{get, set}
use openai_auth.Routing.{
  oauth, Row, PoolInput, exhausted, Refusal, AdmittedRow, Admission, roster, QuotaCredits,
  RoutingLibrary, passes,
}
use openai_auth.Routing.Credits.{credits_tiers}
use openai_auth.Routing.Ordered.{send, block, unset, candidates, plan_ordered, PoolBlock}
use openai_auth.Routing.Ordered.Sendable.{RoutesAdmitted, IsSendable, plan_ordered-IsSendable}
use openai_auth.Routing.Ordered.Plans.{IsTiered, plan_ordered-IsTiered, plan_ordered_blocks}

-- The quota of a row is the percent used; a used-up row with any credits record holds credits.
abbrev TestRow : Type 0
TestRow = Row (ℕ × Option QuotaCredits)

abbrev admitted_rows : List TestRow → List AdmittedRow
admitted_rows [] = []
admitted_rows (row ∷ rows) =
    if leb 100 row.quota.0
    then admitted_rows rows
    else record { id = row.id; last_path = false } ∷ admitted_rows rows

abbrev refused_rows : List TestRow → List Refusal
refused_rows [] = []
refused_rows (row ∷ rows) =
    if leb 100 row.quota.0
    then record { id = row.id; reason = exhausted; reset_at = some 9000 } ∷ refused_rows rows
    else refused_rows rows

abbrev admission_of : PoolInput (ℕ × Option QuotaCredits) → Admission
admission_of input = record {
  admitted = admitted_rows input.rows;
  refused = refused_rows input.rows;
  excluded = [];
}

abbrev routing : RoutingLibrary
routing = record {
  Quota = ℕ × Option QuotaCredits;
  Projection = ℕ × Option QuotaCredits;
  Credits = Option QuotaCredits;
  project_quota = λ q. q;
  credits_of = λ p. p.1;
  checked_at_of = λ p. none;
  budget_exhausted = λ p now. false;
  quota_credits = λ c. c;
  admit = admission_of;
  route_ordered = λ input placement main_id. record {
    order =
        keep_if (passes input.killswitch)
          (map (λ (r : AdmittedRow). r.id) (admitted_rows input.rows));
    admission = admission_of input;
  };
  order_for_placement = λ ids placement main_id. ids;
}

abbrev paid : QuotaCredits
paid = record {
  checked_at = finite 1000;
  overage_limit_reached = none;
  unlimited = false;
  has_credits = true;
  balance = some 7;
}

abbrev spent_row : TestRow
spent_row = record { id = "a"; kind = oauth; quota = (100, some paid) }

abbrev free_row : TestRow
free_row = record { id = "b"; kind = oauth; quota = (40, none) }

abbrev used_row : TestRow
used_row = record { id = "main"; kind = oauth; quota = (100, none) }

abbrev input_of : List TestRow → PoolInput (ℕ × Option QuotaCredits)
input_of rows = record {
  rows = rows;
  now = 2000;
  rate_limit_marks = [];
  refresh_backoff = [];
  killswitch = [];
}

abbrev mixed : PoolInput (ℕ × Option QuotaCredits)
mixed = input_of (used_row ∷ spent_row ∷ free_row ∷ [])

abbrev spent_only : PoolInput (ℕ × Option QuotaCredits)
spent_only = input_of (used_row ∷ spent_row ∷ [])

free_first : plan_ordered routing mixed roster unset true ≡ send ("b" ∷ []) false
unfolding plan_ordered credits_tiers get set
free_first = refl

credits_next : plan_ordered routing spent_only roster unset true ≡ send ("a" ∷ "main" ∷ []) false
unfolding plan_ordered credits_tiers get set
credits_next = refl

main_only : plan_ordered routing mixed roster unset false ≡ send ("main" ∷ []) true
unfolding plan_ordered credits_tiers get set
main_only = refl

abbrev old_marks : List String
old_marks = "b" ∷ []

spent_only-RoutesAdmitted : RoutesAdmitted routing spent_only roster "main"
spent_only-RoutesAdmitted = record { admitted = tt; allowed = tt }

plan_ordered-IsSendable_example : All (IsSendable [] (admission_of spent_only)) ("a" ∷ "main" ∷ [])
plan_ordered-IsSendable_example =
    plan_ordered-IsSendable routing spent_only roster unset true ("a" ∷ "main" ∷ []) false
      spent_only-RoutesAdmitted credits_next

plan_ordered-IsTiered_example :
    IsTiered (candidates routing spent_only roster "main") ("a" ∷ "main" ∷ []) false
plan_ordered-IsTiered_example =
    plan_ordered-IsTiered routing spent_only roster unset ("a" ∷ "main" ∷ []) false credits_next

plan_ordered_blocks_example :
    let c = candidates routing mixed roster "main" in
    ((b : PoolBlock) × (plan_ordered routing mixed roster unset true ≡ block b))
    ↔ ((c.order ≡ []) × (c.credits ≡ []) × (c.last_path ≡ []))
plan_ordered_blocks_example = plan_ordered_blocks routing mixed roster unset
