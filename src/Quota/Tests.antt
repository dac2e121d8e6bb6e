-- ===== src/Quota/Tests.antt =====
-- Runs of the quota manager, and its theorems at concrete states.
use openai_auth.Prelude.{
  ℕ, ◌≡◌, refl, ◌≢◌, String, true, false, ◌&&◌, ◌||◌, Option, none, some, [], ◌∷◌, if◌then◌else◌,
  ◌==◌, string_eq, arith, finite,
}
use openai_auth.Prelude.JsMap.{get, delete}
use openai_auth.Backoff.{Failure, quota_backoff_active}
use openai_auth.Quota.{
  QuotaWindow, QuotaSnapshot, Storage, has_any_quota_window, quota_looks_healthy,
  quota_next_refresh_at,
}
use openai_auth.Quota.Manager.{
  QuotaEntry, QuotaManager, is_switch, is_rate_limited, set_main, peek_main_for_policy,
}
use openai_auth.Quota.Manager.Marks.{is_stored, set_main-marks}
use openai_auth.Quota.Manager.Identity.{set_main-peek}
use openai_auth.Quota.Refresh.{
  answers, gives, fails, is_backed_off, is_fallback_backed_off, refresh_main, fetch_main,
  fetch_fallback,
}
use openai_auth.Quota.Refresh.Backoffs.{fetch_fallback-scoped}
use openai_auth.Quota.Refresh.Failures.{refresh_main-other_token, unlocked-backs_off}
use openai_auth.Quota.Seeds.{seed_main_from_storage, IsNoOlder, seed_main_from_storage-IsNoOlder}

abbrev used_up : QuotaWindow
used_up = record {
  used_percent = 100;
  remaining_percent = 0;
  resets_at = some (finite 9000);
  checked_at = 500;
}

abbrev spent : QuotaSnapshot
spent = record { primary = some used_up; secondary = none }

abbrev storage : Storage
storage = record {
  enabled = none;
  check_interval_minutes = none;
  primary_remaining = none;
  five_hour_remaining = none;
  secondary_remaining = none;
  one_week_remaining = none;
  refresh_every_n_requests = none;
  main_quota = some spent;
  main_quota_checked_at = some 400;
  main_quota_token = none;
  main_last_quota_api_error = none;
  main_account_id = none;
}

abbrev entry : QuotaEntry
entry = record { quota = spent; refresh_after = 9000; checked_at = 500; account_id = none }

abbrev manager : QuotaManager
manager = record {
  main = some entry;
  main_token_fp = some "t1";
  main_quota_account_id = some "A";
  fallbacks = [];
  fallback_token_fps = [];
  main_last_api_error = none;
  fallback_api_errors = [];
  fallback_error_token_fps = [];
  rate_limited_until = ("main", 9000) ∷ [];
  storage = storage;
}

abbrev empty_manager : QuotaManager
empty_manager = record manager { main = none }

abbrev fp : String → String
fp token = token

abbrev outage : Failure
outage = record {
  status = some 503;
  is_error = true;
  name = "Error";
  message = "unavailable";
  code = none;
  retry_after = none;
}

waits_for_reset : quota_next_refresh_at (some spent) storage 1000 ≡ 69_000
unfolding quota_next_refresh_at
waits_for_reset = refl

switch_clears :
    is_rate_limited "main" 1000 (set_main fp "t2" entry (some "B") false manager) ≡ false
unfolding is_rate_limited set_main get delete has_any_quota_window quota_looks_healthy
switch_clears = refl

abbrev named : Option QuotaSnapshot
named = some spent

abbrev account_b : Option String
account_b = some "B"

abbrev main_id : String
main_id = "main"

set_main-marks_example :
    get main_id (set_main fp "t2" entry account_b false manager).rate_limited_until ≡ (
      if is_stored entry false
        && ((is_switch account_b manager.main_quota_account_id || quota_looks_healthy entry.quota)
            && main_id == main_id)
      then none
      else get main_id manager.rate_limited_until)
set_main-marks_example = set_main-marks fp "t2" main_id entry account_b false manager

abbrev name_b : String
name_b = "B"

abbrev name_c : String
name_c = "C"

stored : is_stored entry false ≡ true
unfolding has_any_quota_window
stored = refl

set_main-peek_example :
    peek_main_for_policy (some name_c) (set_main fp "t2" entry (some name_b) false manager)
    ≡ (if name_c == name_b then some entry else none)
set_main-peek_example = set_main-peek fp "t2" name_b name_c entry false manager stored refl refl

fetch_fallback-scoped_example :
    let after = (fetch_fallback fp "b" "t" true (fails outage) 1000 2000 manager).1 in
    (after.main ≡ manager.main)
    × (is_backed_off 3000 after ≡ is_backed_off 3000 manager)
    × (is_fallback_backed_off fp "c" none 3000 after
        ≡ is_fallback_backed_off fp "c" none 3000 manager)
fetch_fallback-scoped_example =
    fetch_fallback-scoped fp "b" "t" "c" true (fails outage) 1000 2000 3000 none manager refl

abbrev auth_status : Option ℕ
auth_status = some 401

refresh_main-other_token_example :
    ((refresh_main fp "t2" none 1000 manager).1.main ≡ none)
    × ((quota : QuotaSnapshot) → (refresh_main fp "t2" none 1000 manager).0 ≢ answers quota)
refresh_main-other_token_example =
    refresh_main-other_token fp "t2" "t1" none 1000 manager refl refl refl

idle : is_fallback_backed_off fp "b" (some "t") 1000 empty_manager ≡ false
unfolding is_fallback_backed_off get quota_backoff_active
idle = refl

ready : is_backed_off 1000 empty_manager ≡ false
unfolding is_backed_off quota_backoff_active
ready = refl

uncached : get "b" empty_manager.fallbacks ≡ none
unfolding get
uncached = refl

unlocked-backs_off_example :
    ((fetch_main fp "t" false (gives spent) 1000 2000 empty_manager).1 ≡ empty_manager)
    × (is_fallback_backed_off fp "b"
          (some "t")
          3000
          (fetch_fallback fp "b" "t" false (gives spent) 1000 2000 empty_manager).1
        ≡ true)
unlocked-backs_off_example =
    unlocked-backs_off fp "b" "t" (gives spent) 1000 2000 3000 empty_manager refl ready idle
      uncached (ground arith)

seed_main_from_storage-IsNoOlder_example :
    IsNoOlder entry (seed_main_from_storage fp storage (some "t1") manager)
seed_main_from_storage-IsNoOlder_example =
    seed_main_from_storage-IsNoOlder fp storage (some "t1") entry manager refl refl
