-- ===== src/Balance/Weights.antt =====
-- packages/opencode/src/core/sticky-routing.ts: the weight of an account, and the choice among the
-- accounts that a session may be placed on.
use openai_auth.Prelude.{
  ℕ, suc, ◌+◌, ◌-◌, ◌*◌, max, Bool, true, false, ◌&&◌, ◌||◌, not, Option, none, some, List, [], ◌∷◌,
  ltb, leb, if◌then◌else◌, or_else, JsNumber, finite, infinity, nan, keep_if, sort_by, head_of,
}
use openai_auth.Balance.{
  QuotaWindowKey, primary_window, secondary_window, AccountQuota, PresentWindow, SpendControl,
  snapshot_checked_at, is_fresh, get_present_quota_windows, is_false,
}
use openai_auth.Balance.Quotients.{Ratio, over, ratio_le}

-- A weight as JavaScript computes it, which may be no number, or unbounded.
pub data Weight : Type 0 where
  weighs : Ratio → Weight
  unbounded : Weight
  no_number : Weight

-- What is spendable for each hour until the reset; for a reset that is past, or that cannot be
-- read, what is spendable.
abbrev rate : ℕ → Option JsNumber → ℕ → Weight
rate spendable none now = weighs (over spendable 0)
rate spendable (some (finite reset)) now =
    if leb reset now
    then weighs (over spendable 0)
    else weighs (over (spendable * 3600000) (max (reset - now) 60000 - 1))
rate spendable (some infinity) now = weighs (over spendable 0)
rate spendable (some nan) now = weighs (over spendable 0)

unfoldable pub sustainable_window_weight : JsNumber → Option JsNumber → ℕ → ℕ → Weight
sustainable_window_weight (finite remaining) resets_at reserve now =
    rate (remaining - reserve) resets_at now
sustainable_window_weight infinity resets_at reserve now = unbounded
sustainable_window_weight nan resets_at reserve now = no_number

-- Math.min
abbrev min_weight : Weight → Weight → Weight
min_weight no_number w = no_number
min_weight unbounded w = w
min_weight (weighs r) no_number = no_number
min_weight (weighs r) unbounded = weighs r
min_weight (weighs r) (weighs s) = if ratio_le r s then weighs r else weighs s

abbrev least_weight : List Weight → Weight
least_weight [] = unbounded
least_weight (w ∷ ws) = min_weight w (least_weight ws)

-- The id of an account by its UTF-16 code units.
abbrev pub AccountId : Type 0
AccountId = List ℕ

pub record ReservePercent : Type 0 where
  pub primary : Option ℕ
  pub secondary : Option ℕ

pub record StickySelectionCandidate : Type 0 where
  pub account_id : AccountId
  pub quota : Option AccountQuota
  pub quota_checked_at : Option JsNumber
  pub reserve_percent : ReservePercent
  pub configured_order : ℕ
  pub reset_credits_applicable : Option ℕ
  pub killswitch_passes : Option Bool

abbrev reserve_of : QuotaWindowKey → ReservePercent → ℕ
reserve_of primary_window reserve = or_else reserve.primary 0
reserve_of secondary_window reserve = or_else reserve.secondary 0

abbrev pub window_weights : List PresentWindow → ReservePercent → ℕ → List Weight
window_weights [] reserve now = []
window_weights (p ∷ windows) reserve now =
    sustainable_window_weight p.window.remaining_percent p.window.resets_at
      (reserve_of p.key reserve) now
    ∷ window_weights windows reserve now

abbrev spend_weight : JsNumber → Option JsNumber → ℕ → List Weight
spend_weight (finite remaining) resets_at now =
    sustainable_window_weight (finite remaining) resets_at 0 now ∷ []
spend_weight infinity resets_at now = []
spend_weight nan resets_at now = []

-- A credit budget that can be read weighs too.
abbrev pub spend_weights : Option SpendControl → ℕ → List Weight
spend_weights none now = []
spend_weights (some control) now = spend_weight control.remaining_percent control.resets_at now

pub record WeightedCandidate : Type 0 where
  pub candidate : StickySelectionCandidate
  pub quota_checked_at : ℕ
  pub weight : Weight

-- `weight > 0`
abbrev pub is_positive : Weight → Bool
is_positive (weighs (over n d)) = ltb 0 n
is_positive unbounded = true
is_positive no_number = false

abbrev pub weight_of : List Weight → Weight
weight_of [] = weighs (over 0 0)
weight_of (w ∷ ws) = least_weight (w ∷ ws)

abbrev pub weighted_if_positive : StickySelectionCandidate → ℕ → Weight → Option WeightedCandidate
weighted_if_positive candidate checked weight =
    if is_positive weight
    then some (record { candidate = candidate; quota_checked_at = checked; weight = weight })
    else none

abbrev pub append_weights : List Weight → List Weight → List Weight
append_weights [] ws = ws
append_weights (v ∷ vs) ws = v ∷ append_weights vs ws

abbrev pub fresh_weight :
    StickySelectionCandidate → AccountQuota → Option ℕ → ℕ → Option WeightedCandidate
fresh_weight candidate quota none now = none
fresh_weight candidate quota (some checked) now =
    if is_fresh (some checked) now
    then weighted_if_positive candidate checked (
        weight_of (
          append_weights
            (window_weights (get_present_quota_windows quota) candidate.reserve_percent now)
            (spend_weights quota.spend_control now)))
    else none

abbrev pub weight_of_quota :
    StickySelectionCandidate → Option AccountQuota → ℕ → Option WeightedCandidate
weight_of_quota candidate none now = none
weight_of_quota candidate (some quota) now =
    fresh_weight candidate quota (snapshot_checked_at quota candidate.quota_checked_at) now

unfoldable pub candidate_weight : StickySelectionCandidate → ℕ → Option WeightedCandidate
unfolding sustainable_window_weight
candidate_weight candidate now = weight_of_quota candidate candidate.quota now

abbrev pub put_weighted : Option WeightedCandidate → List WeightedCandidate → List WeightedCandidate
put_weighted none weighted = weighted
put_weighted (some w) weighted = w ∷ weighted

unfoldable pub weighted_candidates : List StickySelectionCandidate → ℕ → List WeightedCandidate
unfolding candidate_weight
weighted_candidates [] now = []
weighted_candidates (c ∷ cs) now =
    put_weighted (candidate_weight c now) (weighted_candidates cs now)

-- `bytes / Math.max(weight, MIN_WEIGHT)`, of a positive weight; MIN_WEIGHT is a millionth.
abbrev pub score : ℕ → Weight → Ratio
score bytes (weighs (over n d)) =
    if leb (suc d) (n * 1000000) then over (bytes * suc d) (n - 1) else over (bytes * 1000000) 0
score bytes unbounded = over 0 0
score bytes no_number = over 0 0

-- `compareAccountIds(left, right) <= 0`
unfoldable pub id_le : AccountId → AccountId → Bool
id_le [] ids = true
id_le (a ∷ xs) [] = false
id_le (a ∷ xs) (b ∷ ys) = if ltb a b then true else leb a b && id_le xs ys

-- A comparator `first || second`: the second counts where the first finds both alike.
abbrev pub then_by : {A : Type 0} → (A → A → Bool) → (A → A → Bool) → A → A → Bool
then_by first second x y = if first x y then (if first y x then second x y else true) else false

abbrev pub order_le : StickySelectionCandidate → StickySelectionCandidate → Bool
order_le left right = leb left.configured_order right.configured_order

abbrev pub account_id_le : StickySelectionCandidate → StickySelectionCandidate → Bool
account_id_le left right = id_le left.account_id right.account_id

abbrev pub has_reset_credits : StickySelectionCandidate → Bool
has_reset_credits candidate = ltb 0 (or_else candidate.reset_credits_applicable 0)

-- Those with reset credits stand first.
abbrev pub reset_credits_le : StickySelectionCandidate → StickySelectionCandidate → Bool
reset_credits_le left right = has_reset_credits left || not (has_reset_credits right)

abbrev pub fallback_le : StickySelectionCandidate → StickySelectionCandidate → Bool
fallback_le = then_by reset_credits_le (then_by order_le account_id_le)

-- `pending` is the pending bytes of an account, 0 where there are none.
pub record StickySelectionInput : Type 0 where
  pub candidates : List StickySelectionCandidate
  pub pending : AccountId → ℕ
  pub request_bytes : ℕ
  pub now : ℕ

abbrev pub score_of : StickySelectionInput → WeightedCandidate → Ratio
score_of input w = score (input.pending w.candidate.account_id + input.request_bytes) w.weight

abbrev pub score_le : StickySelectionInput → WeightedCandidate → WeightedCandidate → Bool
score_le input left right = ratio_le (score_of input left) (score_of input right)

abbrev pub weighted_le : StickySelectionInput → WeightedCandidate → WeightedCandidate → Bool
weighted_le input = then_by (score_le input) (
    then_by (λ l r. order_le l.candidate r.candidate)
      (λ l r. account_id_le l.candidate r.candidate))

pub data StickySource : Type 0 where
  weighted_source : StickySource
  mode_fallback : StickySource

pub record StickyChoice : Type 0 where
  pub account_id : AccountId
  pub quota_checked_at : Option ℕ
  pub source : StickySource

-- `throws` is the error for a call without candidates.
pub data StickySelection : Type 0 where
  throws : StickySelection
  nothing : StickySelection
  selects : StickyChoice → StickySelection

abbrev pub eligible : List StickySelectionCandidate → List StickySelectionCandidate
eligible candidates = keep_if (λ c. not (is_false c.killswitch_passes)) candidates

-- `quota?.…` of no quota.
abbrev no_quota : AccountQuota
no_quota = record { checked_at = none; primary = none; secondary = none; spend_control = none }

abbrev pub checked_of : Option AccountQuota → Option JsNumber → Option ℕ
checked_of none entry = snapshot_checked_at no_quota entry
checked_of (some quota) entry = snapshot_checked_at quota entry

abbrev pub fallback_choice : Option StickySelectionCandidate → StickySelection
fallback_choice none = throws
fallback_choice (some c) = selects (record {
  account_id = c.account_id;
  quota_checked_at = checked_of c.quota c.quota_checked_at;
  source = mode_fallback;
})

abbrev pub weighted_choice : Option WeightedCandidate → StickySelection → StickySelection
weighted_choice none fallback = fallback
weighted_choice (some w) fallback = selects (record {
  account_id = w.candidate.account_id;
  quota_checked_at = some w.quota_checked_at;
  source = weighted_source;
})

abbrev pub select_eligible : List StickySelectionCandidate → StickySelectionInput → StickySelection
select_eligible [] input = nothing
select_eligible (c ∷ cs) input =
    weighted_choice (head_of (sort_by (weighted_le input) (weighted_candidates (c ∷ cs) input.now)))
      (fallback_choice (head_of (sort_by fallback_le (c ∷ cs))))

abbrev pub select_from : List StickySelectionCandidate → StickySelectionInput → StickySelection
select_from [] input = throws
select_from (c ∷ cs) input = select_eligible (eligible (c ∷ cs)) input

unfoldable pub select_sticky_candidate : StickySelectionInput → StickySelection
unfolding weighted_candidates head_of sort_by id_le ratio_le snapshot_checked_at
    get_present_quota_windows
select_sticky_candidate input = select_from input.candidates input
