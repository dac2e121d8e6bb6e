-- ===== src/Limits/Policy.antt =====
-- packages/core/src/limit-policy.ts: what counts as an exhausted window, which windows block an
-- account, and when a session may wait on it. A reset is none where there is none, or none that is
-- finite; percents are natural numbers. The records of `@cortexkit/common-auth/limits` have the fields
-- that the code reads.
pub mod Classes
pub mod Exhausted
pub mod Blockers
pub mod Holds
pub mod Holding
pub mod Marks
mod Tests
use openai_auth.Prelude.{
  ℕ, ◌+◌, max, String, Bool, true, false, ◌&&◌, ◌||◌, not, Option, none, some, List, [], ◌∷◌, ◌++◌,
  ltb, leb, if◌then◌else◌, ◌==◌, nat_eq, string_eq, keep_if, any, JsNumber, finite,
}
use openai_auth.Prelude.JsMap.{JsMap, get, set, values}
use openai_auth.Quota.{QuotaWindow, QuotaSnapshot, reset_time, snapshot_window}
use openai_auth.Limits.Accounts.{AccountKey, same_account}
use openai_auth.Limits.Provenance.{ResetProvenance, unproven, reading, provider}

abbrev pub quota_staleness_ms : ℕ
quota_staleness_ms = 900000

abbrev pub fresh_quota_evidence : ℕ → ℕ → Bool
fresh_quota_evidence checked_at now =
    leb checked_at now && leb now (checked_at + quota_staleness_ms)

pub record LimitWindow : Type 0 where
  pub window : String
  pub confirmed : Bool
  pub confirmed_by_reading : Bool
  pub reset_at : Option ℕ
  pub observed_at : ℕ
  pub provenance : ResetProvenance

abbrev pub read_window : String → QuotaWindow → LimitWindow
read_window name window = record {
  window = name;
  confirmed = true;
  confirmed_by_reading = true;
  reset_at = reset_time window.resets_at;
  observed_at = window.checked_at;
  provenance = reading;
}

abbrev pub is_exhausted_window : QuotaWindow → ℕ → Bool
is_exhausted_window window now =
    fresh_quota_evidence window.checked_at now && leb 100 window.used_percent

abbrev pub put_exhausted : String → Option QuotaWindow → ℕ → List LimitWindow → List LimitWindow
put_exhausted name none now windows = windows
put_exhausted name (some window) now windows =
    if is_exhausted_window window now then read_window name window ∷ windows else windows

unfoldable pub confirmed_quota_windows : Option QuotaSnapshot → ℕ → List LimitWindow
confirmed_quota_windows quota now =
    put_exhausted "primary" (snapshot_window quota "primary") now
      (put_exhausted "secondary" (snapshot_window quota "secondary") now [])

pub record ParsedOpenAiLimit : Type 0 where
  pub window : String
  pub reset_at : Option JsNumber

abbrev pub is_named : String → Bool
is_named window = window == "primary" || window == "secondary"

abbrev pub is_usage : String → Bool
is_usage window = window == "usage_limit_reached"

abbrev pub if_positive : Option ℕ → Option ℕ
if_positive none = none
if_positive (some time) = if ltb 0 time then some time else none

abbrev pub named_signal : String → Option QuotaWindow → ℕ → ℕ → LimitWindow
named_signal name none observed_at now = record {
  window = name;
  confirmed = true;
  confirmed_by_reading = false;
  reset_at = none;
  observed_at = observed_at;
  provenance = unproven;
}
named_signal name (some window) observed_at now =
    let fresh = fresh_quota_evidence window.checked_at now in
    record {
      window = name;
      confirmed = true;
      confirmed_by_reading = false;
      reset_at = if fresh then reset_time window.resets_at else none;
      observed_at = if fresh then window.checked_at else observed_at;
      provenance = if fresh then reading else unproven;
    }

abbrev provenance_of : Option ℕ → ResetProvenance
provenance_of none = unproven
provenance_of (some time) = provider

-- The signal of a usage limit, with the provider's reset, and that of any other window.
abbrev pub usage_signal : Option ℕ → ℕ → LimitWindow
usage_signal reset observed_at = record {
  window = "usage";
  confirmed = true;
  confirmed_by_reading = false;
  reset_at = reset;
  observed_at = observed_at;
  provenance = provenance_of reset;
}

abbrev pub unproven_signal : String → ℕ → LimitWindow
unproven_signal window observed_at = record {
  window = window;
  confirmed = false;
  confirmed_by_reading = false;
  reset_at = none;
  observed_at = observed_at;
  provenance = unproven;
}

unfoldable pub open_ai_signal_windows :
    ParsedOpenAiLimit → ℕ → Option QuotaSnapshot → ℕ → List LimitWindow
open_ai_signal_windows parsed observed_at quota now =
    (if is_named parsed.window
      then named_signal parsed.window (snapshot_window quota parsed.window) observed_at now
      else if is_usage parsed.window
      then usage_signal (if_positive (reset_time parsed.reset_at)) observed_at
      else unproven_signal parsed.window observed_at)
    ∷ []

-- `(a ?? Infinity) >= (b ?? Infinity)`
abbrev pub no_earlier : Option ℕ → Option ℕ → Bool
no_earlier none b = true
no_earlier (some a) none = false
no_earlier (some a) (some b) = leb b a

abbrev pub Blocking : Type 0
Blocking = JsMap String LimitWindow

abbrev pub replaces : LimitWindow → Option LimitWindow → Bool
replaces window none = true
replaces window (some previous) = no_earlier window.reset_at previous.reset_at

abbrev pub merge_window : LimitWindow → Blocking → Blocking
merge_window window windows =
    if window.confirmed && replaces window (get window.window windows)
    then set window.window window windows
    else windows

unfoldable pub merge_windows : List LimitWindow → Blocking → Blocking
unfolding get set
merge_windows [] windows = windows
merge_windows (w ∷ ws) windows = merge_windows ws (merge_window w windows)

abbrev pub keyed : List LimitWindow → Blocking
keyed [] = []
keyed (w ∷ ws) = (w.window, w) ∷ keyed ws

-- The map of `openAiConfirmedBlockers`, and its values; a signal that is none has no windows.
unfoldable pub blocking_windows : List LimitWindow → Option QuotaSnapshot → ℕ → Blocking
unfolding merge_windows confirmed_quota_windows
blocking_windows signal quota now = merge_windows signal (keyed (confirmed_quota_windows quota now))

unfoldable pub open_ai_confirmed_blockers :
    List LimitWindow → Option QuotaSnapshot → ℕ → List LimitWindow
unfolding blocking_windows
open_ai_confirmed_blockers signal quota now = values (blocking_windows signal quota now)

-- A mark that stands in the way of an account.
pub record LimitBlocker : Type 0 where
  pub hard : Bool
  pub until : Option ℕ

pub record LimitCandidate : Type 0 where
  pub account : AccountKey
  pub admitted : Bool
  pub confirmed_blockers : Option (List LimitWindow)
  pub blockers : List LimitBlocker

abbrev pub later_of : Option ℕ → Option ℕ → Option ℕ
later_of none b = none
later_of (some a) none = none
later_of (some a) (some b) = some (max a b)

-- `Math.max(...)` of the resets, where it is finite: none for no windows, or where one has no reset.
abbrev pub latest_reset : LimitWindow → List LimitWindow → Option ℕ
latest_reset w [] = w.reset_at
latest_reset w (v ∷ vs) = later_of w.reset_at (latest_reset v vs)

abbrev pub target_of : List LimitWindow → Option ℕ
target_of [] = none
target_of (w ∷ ws) = latest_reset w ws

abbrev pub until_of : Option ℕ → ℕ
until_of none = 0
until_of (some time) = time

abbrev pub outlasts : ℕ → ℕ → LimitBlocker → Bool
outlasts now target blocker =
    blocker.hard && ltb now (until_of blocker.until) && ltb target (until_of blocker.until)

abbrev pub confirmed_of : Option (List LimitWindow) → List LimitWindow
confirmed_of none = []
confirmed_of (some windows) = keep_if (λ w. w.confirmed) windows

abbrev pub outlasted : Option ℕ → ℕ → List LimitBlocker → Bool
outlasted none now blockers = true
outlasted (some target) now blockers = any (outlasts now target) blockers

abbrev pub is_status : ℕ → Option ℕ → Bool
is_status n none = false
is_status n (some status) = status == n

unfoldable pub hold_suppressed : LimitCandidate → Option ℕ → ℕ → Bool
hold_suppressed candidate status now =
    is_status 401 status
    || is_status 403 status
    || not candidate.admitted
    || outlasted (target_of (confirmed_of candidate.confirmed_blockers)) now candidate.blockers
