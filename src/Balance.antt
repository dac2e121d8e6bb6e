-- ===== src/Balance.antt =====
-- packages/opencode/src/core/sticky-routing.ts: when a session leaves the account that it is pinned
-- to, and which account a session is placed on. A time text is given by what Date.parse makes of
-- it, an account id by its UTF-16 code units, and the quotients are exact.
pub mod Quotients
pub mod Weights
pub mod Breaks
pub mod Order
pub mod Choice
mod Tests
use mathlib.Core.Option
use openai_auth.Prelude.{
  ℕ, zero, suc, ◌+◌, ◌-◌, ◌*◌, max, Bool, true, false, ◌&&◌, ◌||◌, not, Option, none, some, List,
  [], ◌∷◌, ltb, leb, if◌then◌else◌, is_some, or_else, JsNumber, finite, infinity, nan, keep_if,
  sort_by, head_of,
}

pub data QuotaWindowKey : Type 0 where
  primary_window : QuotaWindowKey
  secondary_window : QuotaWindowKey

-- `resets_at` is none also where it is no text.
pub record AccountWindow : Type 0 where
  pub remaining_percent : JsNumber
  pub checked_at : Option JsNumber
  pub resets_at : Option JsNumber
  pub window_minutes : Option JsNumber

pub record SpendControl : Type 0 where
  pub remaining_percent : JsNumber
  pub resets_at : Option JsNumber
  pub reached : Bool

pub record AccountQuota : Type 0 where
  pub checked_at : Option JsNumber
  pub primary : Option AccountWindow
  pub secondary : Option AccountWindow
  pub spend_control : Option SpendControl

abbrev pub quota_staleness_ms : ℕ
quota_staleness_ms = 900000

abbrev finite_time : Option JsNumber → Option ℕ
finite_time none = none
finite_time (some (finite time)) = some time
finite_time (some infinity) = none
finite_time (some nan) = none

abbrev first_time : Option ℕ → Option ℕ → Option ℕ
first_time none other = other
first_time (some time) other = some time

abbrev window_checked_at : Option AccountWindow → Option JsNumber
window_checked_at none = none
window_checked_at (some window) = window.checked_at

-- `snapshotCheckedAt` of a quota that is there.
unfoldable pub snapshot_checked_at : AccountQuota → Option JsNumber → Option ℕ
snapshot_checked_at quota entry_checked_at =
    first_time (finite_time (window_checked_at quota.primary))
      (first_time (finite_time quota.checked_at) (finite_time entry_checked_at))

abbrev pub is_fresh : Option ℕ → ℕ → Bool
is_fresh none now = false
is_fresh (some checked) now = leb now (checked + quota_staleness_ms)

pub record PresentWindow : Type 0 where
  pub key : QuotaWindowKey
  pub window : AccountWindow
  pub window_ms : ℕ

abbrev legacy_window_minutes : QuotaWindowKey → ℕ
legacy_window_minutes primary_window = 300
legacy_window_minutes secondary_window = 10080

abbrev positive_or : ℕ → ℕ → ℕ
positive_or zero legacy = legacy
positive_or (suc n) legacy = suc n

abbrev window_minutes_of : QuotaWindowKey → Option JsNumber → ℕ
window_minutes_of key none = legacy_window_minutes key
window_minutes_of key (some (finite minutes)) = positive_or minutes (legacy_window_minutes key)
window_minutes_of key (some infinity) = legacy_window_minutes key
window_minutes_of key (some nan) = legacy_window_minutes key

abbrev put_window : QuotaWindowKey → Option AccountWindow → List PresentWindow → List PresentWindow
put_window key none windows = windows
put_window key (some window) windows =
    record {
      key = key;
      window = window;
      window_ms = window_minutes_of key window.window_minutes * 60000;
    }
    ∷ windows

unfoldable pub get_present_quota_windows : AccountQuota → List PresentWindow
get_present_quota_windows quota =
    put_window primary_window quota.primary (put_window secondary_window quota.secondary [])

abbrev later_than : ℕ → Option JsNumber → Option ℕ
later_than now none = none
later_than now (some (finite time)) = if ltb now time then some time else none
later_than now (some infinity) = none
later_than now (some nan) = none

abbrev spent : Option SpendControl → ℕ → Option ℕ
spent none now = none
spent (some control) now = if control.reached then later_than now control.resets_at else none

-- The reset of a credit budget that is used up.
unfoldable pub spend_control_exhausted_reset_at : AccountQuota → ℕ → Option ℕ
spend_control_exhausted_reset_at quota now = spent quota.spend_control now

pub data RetainReason : Type 0 where
  unknown : RetainReason
  stale : RetainReason
  healthy : RetainReason
  transient : RetainReason

pub data MigrateReason : Type 0 where
  exhausted : MigrateReason
  permanent : MigrateReason
  killswitch : MigrateReason

pub data StickyBreakDecision : Type 0 where
  retain : RetainReason → StickyBreakDecision
  migrate : MigrateReason → Option QuotaWindowKey → Option JsNumber → StickyBreakDecision

-- `status` is a whole number, or one that Number.isFinite refuses.
pub record BreakInput : Type 0 where
  pub quota : Option AccountQuota
  pub quota_checked_at : Option JsNumber
  pub status : Option JsNumber
  pub now : ℕ
  pub killswitch_passes : Option Bool

abbrev pub is_number : ℕ → Option JsNumber → Bool
is_number n none = false
is_number n (some (finite m)) = leb n m && leb m n
is_number n (some infinity) = false
is_number n (some nan) = false

abbrev pub is_permanent : Option JsNumber → Bool
is_permanent status = is_number 401 status || is_number 403 status

abbrev pub is_transient : Option JsNumber → Bool
is_transient none = true
is_transient (some infinity) = true
is_transient (some nan) = true
is_transient (some (finite status)) =
    leb status 0 || (leb 500 status && leb status 599 || leb 429 status && leb status 429)

-- `remainingPercent <= 0`, of a finite number.
abbrev pub is_used_up : AccountWindow → Bool
is_used_up window = is_number 0 (some window.remaining_percent)

-- Longer windows first.
abbrev pub longer : PresentWindow → PresentWindow → Bool
longer left right = leb right.window_ms left.window_ms

abbrev pub used_up_windows : AccountQuota → List PresentWindow
used_up_windows quota =
    keep_if (λ p. is_used_up p.window) (sort_by longer (get_present_quota_windows quota))

abbrev pub decide_fresh :
    AccountQuota → Option JsNumber → ℕ → List PresentWindow → StickyBreakDecision
decide_fresh quota status now (used ∷ windows) =
    migrate exhausted (some used.key) used.window.resets_at
decide_fresh quota status now [] =
    if is_some (spend_control_exhausted_reset_at quota now)
    then migrate exhausted none (Option.map finite (spend_control_exhausted_reset_at quota now))
    else if is_transient status
    then retain transient
    else retain healthy

abbrev pub is_false : Option Bool → Bool
is_false none = false
is_false (some passes) = not passes

abbrev pub decide_known : AccountQuota → BreakInput → StickyBreakDecision
decide_known quota input =
    if not (is_fresh (snapshot_checked_at quota input.quota_checked_at) input.now)
    then retain stale
    else if is_false input.killswitch_passes
    then migrate killswitch none none
    else decide_fresh quota input.status input.now (used_up_windows quota)

abbrev pub decide_quota : Option AccountQuota → BreakInput → StickyBreakDecision
decide_quota none input = retain unknown
decide_quota (some quota) input = decide_known quota input

unfoldable pub decide_sticky_break : BreakInput → StickyBreakDecision
unfolding snapshot_checked_at get_present_quota_windows spend_control_exhausted_reset_at sort_by
decide_sticky_break input =
    if is_permanent input.status
    then migrate permanent none none
    else decide_quota input.quota input
