-- ===== src/Routing/Credits.antt =====
-- packages/core/src/pool-routing.ts: the prepaid-credits tier, and which accounts serve on it.
pub mod Serving
use text.Mathlib.Text.{starts_with}
use openai_auth.Prelude.{
  ℕ, ◌+◌, ◌*◌, ◌≡◌, String, Bool, true, false, ◌&&◌, ◌||◌, not, Option, none, some, List, [], ◌∷◌,
  ◌++◌, map, ltb, leb, if◌then◌else◌, ◌==◌, string_eq, option_eq, JsNumber, finite, infinity, nan,
  any, keep_if, find_if, includes,
}
use openai_auth.Prelude.JsMap.{JsMap, get, set}
use openai_auth.Routing.{
  RowKind, oauth, other_kind, Row, PoolInput, RefusalReason, exhausted, budget_spent, unknown_quota,
  Refusal, AdmittedRow, Admission, OrderedPlacement, roster, main_first, fallback_first,
  QuotaCredits, RoutingLibrary, passes,
}

-- QUOTA_STALENESS_MS of the library: fifteen minutes.
abbrev pub quota_staleness_ms : ℕ
quota_staleness_ms = 15 * 60_000

abbrev pub former_main_id : String
former_main_id = "main"

pub record VaultRoute : Type 0 where
  pub id : String
  pub credential_id : Option String

pub vault_main_route_id : List VaultRoute → Option String
vault_main_route_id [] = none
vault_main_route_id (route ∷ routes) =
    if starts_with route.id "vault:" && route.credential_id == some "chatgpt:openai"
    then some route.id
    else vault_main_route_id routes

abbrev placement_of : String → OrderedPlacement
placement_of mode =
    if mode == "ordered"
    then roster
    else if mode == "fallback-first"
    then fallback_first
    else main_first

pub ordered_placement : Option String → OrderedPlacement
ordered_placement none = main_first
ordered_placement (some mode) = placement_of mode

abbrev pub is_exhausted : RefusalReason → Bool
is_exhausted exhausted = true
is_exhausted budget_spent = false
is_exhausted unknown_quota = false

abbrev pub is_confirmed_exhaustion : RefusalReason → Bool
is_confirmed_exhaustion exhausted = true
is_confirmed_exhaustion budget_spent = true
is_confirmed_exhaustion unknown_quota = false

-- `now - checkedAt <= QUOTA_STALENESS_MS`. An infinite reading time makes the age -Infinity.
abbrev pub within_staleness : ℕ → JsNumber → Bool
within_staleness now (finite checked_at) = leb now (checked_at + quota_staleness_ms)
within_staleness now infinity = true
within_staleness now nan = false

abbrev has_balance : Option ℕ → Bool
has_balance none = true
has_balance (some balance) = ltb 0 balance

-- `flag === true`
abbrev is_true : Option Bool → Bool
is_true none = false
is_true (some b) = b

-- `creditsUsable` on a record that `isQuotaCredits` accepts, or none.
pub credits_usable : Option QuotaCredits → ℕ → Bool
credits_usable none now = false
credits_usable (some record_of) now =
    within_staleness now record_of.checked_at
    && (not (is_true record_of.overage_limit_reached)
        && (record_of.unlimited || (record_of.has_credits && has_balance record_of.balance)))

abbrev pub refusal_map : List Refusal → JsMap String Refusal → JsMap String Refusal
refusal_map [] refusals = refusals
refusal_map (refusal ∷ rest) refusals = refusal_map rest (set refusal.id refusal refusals)

-- `refusals.get(id)?.reason === 'exhausted'`
abbrev pub refused_exhausted : Option Refusal → Bool
refused_exhausted none = false
refused_exhausted (some refusal) = is_exhausted refusal.reason

abbrev pub is_oauth : RowKind → Bool
is_oauth oauth = true
is_oauth other_kind = false

pub record CreditsTiers : Type 0 where
  pub free : List String
  pub credits : List String

module _ (lib : RoutingLibrary) where
  -- The test of the credits filter: refused for a spent window, with usable credits and room under
  -- the spending cap.
  unfoldable pub on_credits : PoolInput lib.Quota → JsMap String Refusal → Row lib.Quota → Bool
  unfolding credits_usable
  on_credits input refusals row =
      let projection = lib.project_quota row.quota in
      is_oauth row.kind
      && (passes input.killswitch row.id
          && (refused_exhausted (get row.id refusals)
              && (not (lib.budget_exhausted projection input.now)
                  && credits_usable (lib.quota_credits (lib.credits_of projection)) input.now)))

  -- Free: admitted without the library's last-path exception, and above the killswitch floor.
  abbrev pub is_free : PoolInput lib.Quota → AdmittedRow → Bool
  is_free input row = not row.last_path && passes input.killswitch row.id

  unfoldable pub credits_tiers :
      List (Row lib.Quota) → PoolInput lib.Quota → Admission → CreditsTiers
  unfolding on_credits
  credits_tiers rows input admission = record {
    free = map (λ (r : AdmittedRow). r.id) (keep_if (is_free input) admission.admitted);
    credits =
        map (λ (r : Row lib.Quota). r.id)
          (keep_if (on_credits input (refusal_map admission.refused [])) rows);
  }

  pub credits_fallback_ids : PoolInput lib.Quota → List String
  unfolding credits_tiers
  credits_fallback_ids input = (credits_tiers input.rows input (lib.admit input)).credits

  -- The class CreditsServing: the marked ids. `served` also says whether it logs.
  pub served : PoolInput lib.Quota → String → List String → List String × Bool
  unfolding credits_tiers
  served input id ids =
      let tiers = credits_tiers input.rows input (lib.admit input) in
      let kept = keep_if (includes tiers.credits) ids in
      if includes tiers.free id
      then ([], false)
      else if not (includes tiers.credits id) || includes kept id
      then (kept, false)
      else (kept ++ id ∷ [], true)
