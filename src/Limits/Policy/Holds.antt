-- ===== src/Limits/Policy/Holds.antt =====
-- packages/core/src/limit-policy.ts: when a session may wait for an account, and what the reducer of
-- `@cortexkit/common-auth/limits` is asked. The reducer, its axes and the facts of a hold are arguments.
use openai_auth.Prelude.{
  ℕ, String, Bool, true, false, ◌&&◌, ◌||◌, not, Option, none, some, List, [], ◌∷◌, if◌then◌else◌,
  ◌==◌, nat_eq,
}
use openai_auth.Limits.Accounts.{AccountKey, same_account}
use openai_auth.Limits.Policy.{LimitCandidate, hold_suppressed}

abbrev includes_status : List ℕ → ℕ → Bool
includes_status [] status = false
includes_status (s ∷ statuses) status = s == status || includes_status statuses status

-- `getFallbackStatuses`, of a storage with `fallbackOn`.
abbrev pub get_fallback_statuses : List ℕ → List ℕ
get_fallback_statuses [] = 401 ∷ 403 ∷ 429 ∷ []
get_fallback_statuses (s ∷ statuses) = s ∷ statuses

-- The axes that the plugin sets, and those that it takes from the library's preset.
pub record LimitAxes (R : Type 0) : Type 0 where
  pub preset : R
  pub hold_bound : String
  pub preference : String
  pub jitter : String
  pub opencode1_statuses : List ℕ
  pub pi_statuses : List ℕ
  pub terminal_metadata : String

abbrev pub open_ai_limit_axes : {R : Type 0} → R → List ℕ → LimitAxes R
open_ai_limit_axes preset fallback_on = record {
  preset = preset;
  hold_bound = "cache-ttl";
  preference = "same-account-first";
  jitter = "none";
  opencode1_statuses = get_fallback_statuses fallback_on;
  pi_statuses = get_fallback_statuses fallback_on;
  terminal_metadata = "setting-capped-fresh";
}

pub record HoldFacts (H : Type 0) : Type 0 where
  pub shared : H
  pub max_delay_ms : Option ℕ

abbrev capped : {H : Type 0} → Option ℕ → Option (HoldFacts H) → Option (HoldFacts H)
capped delay none = none
capped none (some hold) = some hold
capped (some delay) (some hold) = some (record hold { max_delay_ms = some delay })

-- `same_account_hold` is the library's `sameAccountHoldFacts`, at the activity and the longest wait.
abbrev pub open_ai_hold_facts :
    {H : Type 0}
    → (AccountKey → Option (HoldFacts H))
    → LimitCandidate
    → Option ℕ
    → ℕ
    → Option ℕ
    → Option (HoldFacts H)
open_ai_hold_facts same_account_hold candidate status now max_delay_ms =
    if hold_suppressed candidate status now
    then none
    else capped max_delay_ms (same_account_hold candidate.account)

pub data Host : Type 0 where
  opencode1 : Host
  opencode2 : Host
  pi_host : Host

abbrev is_opencode2 : Host → Bool
is_opencode2 opencode1 = false
is_opencode2 opencode2 = true
is_opencode2 pi_host = false

pub record PolicyFacts (H : Type 0) : Type 0 where
  pub after_limit : Bool
  pub host : Host
  pub status : Option ℕ
  pub candidates : List LimitCandidate
  pub attempted : Option AccountKey
  pub now : ℕ
  pub hold : Option H

abbrev out_of_list : Option ℕ → List ℕ → Bool
out_of_list none fallback_on = false
out_of_list (some status) fallback_on =
    not (includes_status (get_fallback_statuses fallback_on) status)

-- `ordered` says whether the mode is the ordered one.
abbrev pub should_decide_open_ai_limit : Host → Bool → Option ℕ → List ℕ → Bool
should_decide_open_ai_limit host ordered status fallback_on =
    not (not (is_opencode2 host) && ordered && out_of_list status fallback_on)

abbrev pub find_account : List LimitCandidate → AccountKey → Option LimitCandidate
find_account [] account = none
find_account (c ∷ candidates) account =
    if same_account c.account account then some c else find_account candidates account

abbrev pub attempted_of : List LimitCandidate → Option AccountKey → Option LimitCandidate
attempted_of candidates none = none
attempted_of candidates (some account) = find_account candidates account

abbrev pub kept_hold : {H : Type 0} → Option LimitCandidate → PolicyFacts H → Option H
kept_hold none facts = none
kept_hold (some attempted) facts =
    if hold_suppressed attempted facts.status facts.now then none else facts.hold

unfoldable pub decide_open_ai_limit :
    {H R D : Type 0}
    → (PolicyFacts H → LimitAxes R → D)
    → R
    → PolicyFacts H
    → Bool
    → List ℕ
    → Option D
unfolding hold_suppressed
decide_open_ai_limit decide preset facts ordered fallback_on =
    if facts.after_limit
      && not (should_decide_open_ai_limit facts.host ordered facts.status fallback_on)
    then none
    else some (
        decide
          (record facts { hold = kept_hold (attempted_of facts.candidates facts.attempted) facts })
          (open_ai_limit_axes preset fallback_on))
