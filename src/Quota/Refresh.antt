-- ===== src/Quota/Refresh.antt =====
-- packages/core/src/quota-manager.ts, the class QuotaManager: refreshes, their backoff, and seeding
-- from storage. A fetch is modelled from the gate on: whether it got the file lock, and what the
-- provider gave, are arguments, and so are the times before and after the call. The callbacks that
-- persist a result are not modelled.
pub mod Backoffs
pub mod Failures
use openai_auth.Prelude.{
  ℕ, ◌+◌, ◌%◌, max, String, Bool, true, false, ◌&&◌, ◌||◌, not, Option, none, some, List, [], ◌∷◌,
  ltb, leb, if◌then◌else◌, ◌==◌, nat_eq, string_eq, option_eq, is_some, or_else,
}
use openai_auth.Prelude.JsMap.{JsMap, get, set, delete}
use openai_auth.Backoff.{Failure, OperationError, build_quota_operation_error, quota_backoff_active}
use openai_auth.Quota.{
  QuotaWindow, QuotaSnapshot, Storage, quota_check_interval_ms, quota_next_refresh_at,
  quota_looks_healthy,
}
use openai_auth.Quota.Manager.{
  QuotaEntry, QuotaManager, is_truthy, is_switch, clear_if, bind_account, fingerprint_of,
  get_fallback, set_fallback,
}

-- What a refresh does: it joins or starts a fetch, or it answers or throws at once.
pub data Refreshed : Type 0 where
  joins starts : Refreshed
  answers : QuotaSnapshot → Refreshed
  throws : Failure → Refreshed

-- What the provider's quota call gives.
pub data Fetched : Type 0 where
  gives : QuotaSnapshot → Fetched
  fails : Failure → Fetched

abbrev plain_error : String → Failure
plain_error message = record {
  status = none;
  is_error = true;
  name = "Error";
  message = message;
  code = none;
  retry_after = none;
}

abbrev pub rate_limited_error : Failure
rate_limited_error = plain_error "Quota API rate-limited — try again later"

abbrev pub in_progress_error : Failure
in_progress_error = plain_error "Quota refresh is already in progress"

-- The cached quota, or the error where there is none.
abbrev pub cached_or : Failure → Option QuotaEntry → Refreshed
cached_or e none = throws e
cached_or e (some entry) = answers entry.quota

-- The cached quota, if it is not due for a refresh.
abbrev pub fresh_or : ℕ → Failure → Option QuotaEntry → Refreshed
fresh_or now e none = throws e
fresh_or now e (some entry) = if ltb now entry.refresh_after then answers entry.quota else throws e

unfoldable pub is_backed_off : ℕ → QuotaManager → Bool
is_backed_off now m = quota_backoff_active m.main_last_api_error now

abbrev pub is_auth_error : Failure → Bool
is_auth_error e = e.status == some 401

pub handle_main_fetch_error : Failure → ℕ → QuotaManager → QuotaManager
handle_main_fetch_error e now m = if is_auth_error e then m else record m {
  main_last_api_error = some (build_quota_operation_error e now m.main_last_api_error);
}

module _ (token_fingerprint : String → String) where
  -- The first step of `refreshMain`: the cache of another token goes.
  abbrev pub drop_other_main : String → QuotaManager → QuotaManager
  drop_other_main access_token m =
      if is_truthy m.main_token_fp && not (m.main_token_fp == some (token_fingerprint access_token))
      then record m { main = none; main_token_fp = none }
      else m

  -- `refreshMain`, where `inflight` is the fingerprint of the fetch in flight.
  pub refresh_main : String → Option String → ℕ → QuotaManager → Refreshed × QuotaManager
  refresh_main access_token inflight now m =
      let dropped = drop_other_main access_token m in
      if inflight == some (token_fingerprint access_token)
      then (joins, dropped)
      else if is_backed_off now dropped
      then (cached_or rate_limited_error dropped.main, dropped)
      else (starts, dropped)

  abbrev pub receive_main : String → Fetched → ℕ → QuotaManager → Refreshed × QuotaManager
  receive_main access_token (gives quota) now m = (
    answers quota,
    clear_if (quota_looks_healthy quota) "main" (record m {
      main_token_fp = some (token_fingerprint access_token);
      main = some (record {
        quota = quota;
        refresh_after = quota_next_refresh_at (some quota) m.storage now;
        checked_at = now;
        account_id = none;
      });
      main_last_api_error = none;
    }),
  )
  receive_main access_token (fails e) now m = (throws e, handle_main_fetch_error e now m)

  -- `_fetchMain`, from the gate on.
  pub fetch_main : String → Bool → Fetched → ℕ → ℕ → QuotaManager → Refreshed × QuotaManager
  unfolding handle_main_fetch_error
  fetch_main access_token locked fetched started finished m =
      if is_backed_off started m
      then (cached_or rate_limited_error m.main, m)
      else if not locked
      then (fresh_or started in_progress_error m.main, m)
      else receive_main access_token fetched finished m

  -- `isFallbackBackedOff`
  unfoldable pub is_fallback_backed_off : String → Option String → ℕ → QuotaManager → Bool
  is_fallback_backed_off account_id access_token now m =
      if is_truthy access_token
        && not (
            get account_id m.fallback_error_token_fps
            == fingerprint_of token_fingerprint access_token)
      then false
      else quota_backoff_active (get account_id m.fallback_api_errors) now

  -- The error that the same token left, if it did.
  abbrev pub previous_error : String → String → QuotaManager → Option OperationError
  previous_error account_id access_token m =
      if get account_id m.fallback_error_token_fps == some (token_fingerprint access_token)
      then get account_id m.fallback_api_errors
      else none

  pub handle_fallback_fetch_error : String → String → Failure → ℕ → QuotaManager → QuotaManager
  handle_fallback_fetch_error account_id access_token e now m =
      if is_auth_error e then m else record m {
        fallback_api_errors =
            set account_id
              (build_quota_operation_error e now (previous_error account_id access_token m))
              m.fallback_api_errors;
        fallback_error_token_fps =
            set account_id (token_fingerprint access_token) m.fallback_error_token_fps;
      }

  pub refresh_fallback : String → String → Bool → ℕ → QuotaManager → Refreshed × QuotaManager
  refresh_fallback account_id access_token in_flight now m =
      if in_flight
      then (joins, m)
      else if is_fallback_backed_off account_id (some access_token) now m
      then (
        cached_or rate_limited_error
            (get_fallback token_fingerprint account_id (some access_token) m).0,
        (get_fallback token_fingerprint account_id (some access_token) m).1,
      )
      else (starts, m)

  -- Whatever is thrown inside `_fetchFallback` reaches its handler, also for want of the lock.
  abbrev pub settle : String → String → ℕ → Refreshed × QuotaManager → Refreshed × QuotaManager
  settle account_id access_token now (throws e, m) =
      (throws e, handle_fallback_fetch_error account_id access_token e now m)
  settle account_id access_token now (joins, m) = (joins, m)
  settle account_id access_token now (starts, m) = (starts, m)
  settle account_id access_token now (answers quota, m) = (answers quota, m)

  abbrev pub receive_fallback :
      String → String → Fetched → ℕ → QuotaManager → Refreshed × QuotaManager
  receive_fallback account_id access_token (fails e) now m = (throws e, m)
  receive_fallback account_id access_token (gives quota) now m =
      let stored =
        set_fallback token_fingerprint account_id
          (record {
            quota = quota;
            refresh_after = now + quota_check_interval_ms m.storage;
            checked_at = now;
            account_id = none;
          })
          (some access_token) true none m in
      (
        answers quota,
        record stored {
          fallback_api_errors = delete account_id stored.fallback_api_errors;
          fallback_error_token_fps = delete account_id stored.fallback_error_token_fps;
        },
      )

  -- The body of `_fetchFallback`, from the gate on, before its handler.
  abbrev pub attempt_fallback :
      String → String → Bool → Fetched → ℕ → ℕ → QuotaManager → Refreshed × QuotaManager
  attempt_fallback account_id access_token locked fetched started finished m =
      let cached = (get_fallback token_fingerprint account_id (some access_token) m).0 in
      let after = (get_fallback token_fingerprint account_id (some access_token) m).1 in
      if is_fallback_backed_off account_id (some access_token) started m
      then (cached_or rate_limited_error cached, after)
      else if not locked
      then (fresh_or started in_progress_error cached, after)
      else receive_fallback account_id access_token fetched finished m

  pub fetch_fallback :
      String → String → Bool → Fetched → ℕ → ℕ → QuotaManager → Refreshed × QuotaManager
  unfolding handle_fallback_fetch_error
  fetch_fallback account_id access_token locked fetched started finished m =
      settle account_id access_token finished
        (attempt_fallback account_id access_token locked fetched started finished m)

abbrev is_due : ℕ → Option QuotaEntry → Bool
is_due now none = true
is_due now (some entry) = leb entry.refresh_after now

pub is_main_stale : ℕ → QuotaManager → Bool
is_main_stale now m = is_due now m.main

-- `requestCount % everyN === 0`, where `everyN` is the setting if it is above zero.
abbrev on_count : ℕ → Option ℕ → Bool
on_count request_count none = false
on_count request_count (some every_n) =
    ltb 0 every_n && (ltb 0 request_count && request_count % every_n == 0)

pub should_refresh_on_request_count : ℕ → QuotaManager → Bool
should_refresh_on_request_count request_count m =
    on_count request_count m.storage.refresh_every_n_requests

pub needs_refresh : ℕ → ℕ → QuotaManager → Bool
unfolding is_main_stale should_refresh_on_request_count
needs_refresh request_count now m =
    is_main_stale now m || should_refresh_on_request_count request_count m
