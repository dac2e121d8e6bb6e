-- ===== src/Quota.antt =====
-- packages/core/src/quota-manager.ts: quota snapshots, and the times that follow from them. The
-- text of a reset time is given by what Date.parse makes of it.
pub mod Resets
pub mod Manager
pub mod Refresh
pub mod Seeds
mod Tests
use openai_auth.Prelude.{
  ℕ, ◌+◌, ◌*◌, min, max, String, Bool, true, false, ◌&&◌, ◌||◌, not, Option, none, some, ltb, leb,
  if◌then◌else◌, ◌==◌, nat_eq, string_eq, is_some, or_else, JsNumber, finite, infinity, nan, num_le,
  is_finite,
}
use openai_auth.Backoff.{OperationError}

pub record QuotaWindow : Type 0 where
  pub used_percent : ℕ
  pub remaining_percent : ℕ
  pub resets_at : Option JsNumber
  pub checked_at : ℕ

pub record QuotaSnapshot : Type 0 where
  pub primary : Option QuotaWindow
  pub secondary : Option QuotaWindow

-- The settings and persisted state that the manager reads of the account storage; a null storage
-- has none of them.
pub record Storage : Type 0 where
  pub enabled : Option Bool
  pub check_interval_minutes : Option ℕ
  pub primary_remaining : Option ℕ
  pub five_hour_remaining : Option ℕ
  pub secondary_remaining : Option ℕ
  pub one_week_remaining : Option ℕ
  pub refresh_every_n_requests : Option ℕ
  pub main_quota : Option QuotaSnapshot
  pub main_quota_checked_at : Option ℕ
  pub main_quota_token : Option String
  pub main_last_quota_api_error : Option OperationError
  pub main_account_id : Option String

abbrev pub default_quota_check_interval_minutes : ℕ
default_quota_check_interval_minutes = 5

abbrev pub quota_check_interval_ms : Storage → ℕ
quota_check_interval_ms storage =
    max 1 (or_else storage.check_interval_minutes default_quota_check_interval_minutes) * 60_000

-- `enabled !== false`
abbrev pub quota_enabled : Storage → Bool
quota_enabled storage = or_else storage.enabled true

-- The time that a window names, if it can be read: `Number.isFinite(Date.parse(resetsAt))`.
abbrev pub reset_time : Option JsNumber → Option ℕ
reset_time none = none
reset_time (some (finite time)) = some time
reset_time (some infinity) = none
reset_time (some nan) = none

abbrev pub is_past : Option ℕ → ℕ → Bool
is_past none now = false
is_past (some time) now = leb time now

abbrev pub is_future : Option ℕ → ℕ → Bool
is_future none now = false
is_future (some time) now = ltb now time

abbrev pub window_reset : Option QuotaWindow → Option ℕ
window_reset none = none
window_reset (some window) = reset_time window.resets_at

pub quota_window_reset_is_past : Option QuotaWindow → ℕ → Bool
quota_window_reset_is_past window now = is_past (window_reset window) now

-- The window that a limit names, of the two that a snapshot has.
abbrev pub named_window : QuotaSnapshot → String → Option QuotaWindow
named_window quota window =
    if window == "primary"
    then quota.primary
    else if window == "secondary"
    then quota.secondary
    else none

abbrev pub snapshot_window : Option QuotaSnapshot → String → Option QuotaWindow
snapshot_window none window = none
snapshot_window (some quota) window = named_window quota window

unfoldable pub resolve_mid_stream_rate_limit_reset_at :
    Option QuotaSnapshot → String → ℕ → ℕ → Option JsNumber → ℕ
resolve_mid_stream_rate_limit_reset_at quota window now default_ms explicit_reset_at =
    let named_reset = window_reset (snapshot_window quota window) in
    if is_future (reset_time explicit_reset_at) now
    then or_else (reset_time explicit_reset_at) 0
    else if is_future named_reset now
    then or_else named_reset 0
    else now + default_ms

-- `normalizeThresholds`
abbrev pub primary_threshold : Storage → ℕ
primary_threshold storage =
    or_else storage.primary_remaining (or_else storage.five_hour_remaining 15)

abbrev pub secondary_threshold : Storage → ℕ
secondary_threshold storage =
    or_else storage.secondary_remaining (or_else storage.one_week_remaining 10)

-- What one window says of the next refresh: nothing, that its reset is not known, or its reset.
pub data Blocked : Type 0 where
  open_window : Blocked
  unknown_reset : Blocked
  until : ℕ → Blocked

abbrev pub blocked_at : Option ℕ → ℕ → Blocked
blocked_at none now = unknown_reset
blocked_at (some time) now = if leb time now then unknown_reset else until time

pub blocked_by : Option QuotaWindow → ℕ → ℕ → Blocked
blocked_by none threshold now = open_window
blocked_by (some window) threshold now =
    if leb threshold window.remaining_percent
    then open_window
    else blocked_at (reset_time window.resets_at) now

abbrev pub next_refresh : ℕ → Blocked → Blocked → ℕ
next_refresh later unknown_reset _ = later
next_refresh later _ unknown_reset = later
next_refresh later open_window open_window = later
next_refresh later (until a) open_window = a + 60_000
next_refresh later open_window (until b) = b + 60_000
next_refresh later (until a) (until b) = min a b + 60_000

abbrev pub snapshot_blocks : Option QuotaSnapshot → Storage → ℕ → Blocked × Blocked
snapshot_blocks none storage now = (open_window, open_window)
snapshot_blocks (some quota) storage now = (
  blocked_by quota.primary (primary_threshold storage) now,
  blocked_by quota.secondary (secondary_threshold storage) now,
)

pub quota_next_refresh_at : Option QuotaSnapshot → Storage → ℕ → ℕ
unfolding blocked_by
quota_next_refresh_at quota storage now =
    let later = now + quota_check_interval_ms storage in
    if not (quota_enabled storage)
    then later
    else next_refresh later (snapshot_blocks quota storage now).0
        (snapshot_blocks quota storage now).1

pub has_any_quota_window : QuotaSnapshot → Bool
has_any_quota_window quota = is_some quota.primary || is_some quota.secondary

-- A window that is absent, or less than all used.
abbrev pub has_room : Option QuotaWindow → Bool
has_room none = true
has_room (some window) = not (leb 100 window.used_percent)

pub quota_looks_healthy : QuotaSnapshot → Bool
unfolding has_any_quota_window
quota_looks_healthy quota =
    has_any_quota_window quota && (has_room quota.primary && has_room quota.secondary)
