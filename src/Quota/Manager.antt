-- ===== src/Quota/Manager.antt =====
-- packages/core/src/quota-manager.ts, the class QuotaManager: its caches and its rate-limit marks.
-- The fingerprint of a token comes from node:crypto and is a parameter.
pub mod Marks
pub mod Identity
use openai_auth.Prelude.{
  ℕ, ◌+◌, String, Bool, true, false, ◌&&◌, ◌||◌, not, Option, none, some, List, [], ◌∷◌, ltb, leb,
  if◌then◌else◌, ◌==◌, string_eq, option_eq, is_some, or_else,
}
use openai_auth.Prelude.JsMap.{JsMap, get, set, delete}
use openai_auth.Backoff.{OperationError}
use openai_auth.Quota.{QuotaSnapshot, Storage, has_any_quota_window, quota_looks_healthy}

pub record QuotaEntry : Type 0 where
  pub quota : QuotaSnapshot
  pub refresh_after : ℕ
  pub checked_at : ℕ
  pub account_id : Option String

-- The state of the class, less its in-flight promises and its gate.
pub record QuotaManager : Type 0 where
  pub main : Option QuotaEntry
  pub main_token_fp : Option String
  pub main_quota_account_id : Option String
  pub fallbacks : JsMap String QuotaEntry
  pub fallback_token_fps : JsMap String String
  pub main_last_api_error : Option OperationError
  pub fallback_api_errors : JsMap String OperationError
  pub fallback_error_token_fps : JsMap String String
  pub rate_limited_until : JsMap String ℕ
  pub storage : Storage

-- A text that is there and not empty.
abbrev pub is_truthy : Option String → Bool
is_truthy none = false
is_truthy (some text) = not (text == "")

-- `a && b && a !== b`: both are known, and they differ.
abbrev pub is_switch : Option String → Option String → Bool
is_switch a b = is_truthy a && (is_truthy b && not (a == b))

-- `a ?? b`
abbrev pub first_known {ℓ} : {A : Type ℓ} → Option A → Option A → Option A
first_known none other = other
first_known (some a) other = some a

-- Whether a mark is strictly later than a new one.
abbrev pub keeps_mark : ℕ → Option ℕ → Bool
keeps_mark reset_at_ms none = false
keeps_mark reset_at_ms (some existing) = ltb reset_at_ms existing

pub mark_rate_limited : String → ℕ → QuotaManager → QuotaManager
mark_rate_limited account_id reset_at_ms m =
    if keeps_mark reset_at_ms (get account_id m.rate_limited_until)
    then m
    else record m { rate_limited_until = set account_id reset_at_ms m.rate_limited_until }

abbrev pub is_before : ℕ → Option ℕ → Bool
is_before now none = false
is_before now (some until) = ltb now until

unfoldable pub is_rate_limited : String → ℕ → QuotaManager → Bool
is_rate_limited account_id now m = is_before now (get account_id m.rate_limited_until)

abbrev pub clear_rate_limited : String → QuotaManager → QuotaManager
clear_rate_limited account_id m = record m {
  rate_limited_until = delete account_id m.rate_limited_until;
}

abbrev pub clear_if : Bool → String → QuotaManager → QuotaManager
clear_if cleared account_id m = if cleared then clear_rate_limited account_id m else m

-- `setMain` past its guard.
abbrev pub bind_account : Option String → QuotaManager → QuotaManager
bind_account account_id m =
    if is_truthy account_id then record m { main_quota_account_id = account_id } else m

-- `entry?.accountId`
abbrev pub identity_of : Option QuotaEntry → Option String
identity_of none = none
identity_of (some entry) = entry.account_id

module _ (token_fingerprint : String → String) where
  abbrev pub fingerprint_of : Option String → Option String
  fingerprint_of none = none
  fingerprint_of (some token) = some (token_fingerprint token)

  -- The test of `getMain`, on a cache that is not empty: the token is known, and so is the
  -- fingerprint that produced the entry, and they do not match.
  abbrev pub is_other_token : Option String → Option String → Bool
  is_other_token access_token fp =
      is_truthy access_token && (is_truthy fp && not (fp == fingerprint_of access_token))

  unfoldable pub get_main : Option String → QuotaManager → Option QuotaEntry × QuotaManager
  get_main access_token m =
      if is_some m.main && is_other_token access_token m.main_token_fp
      then (none, record m { main = none; main_token_fp = none })
      else (m.main, m)

  abbrev pub drop_fallback : String → QuotaManager → QuotaManager
  drop_fallback account_id m = record m {
    fallbacks = delete account_id m.fallbacks;
    fallback_token_fps = delete account_id m.fallback_token_fps;
  }

  unfoldable pub get_fallback :
      String → Option String → QuotaManager → Option QuotaEntry × QuotaManager
  get_fallback account_id access_token m =
      let entry = get account_id m.fallbacks in
      if not (is_truthy access_token) || not (is_some entry)
      then (entry, m)
      else if get account_id m.fallback_token_fps == fingerprint_of access_token
      then (entry, m)
      else (none, drop_fallback account_id m)

  unfoldable pub set_main : String → QuotaEntry → Option String → Bool → QuotaManager → QuotaManager
  set_main access_token entry account_id complete_snapshot m =
      if not complete_snapshot && not (has_any_quota_window entry.quota)
      then m
      else let switched = is_switch account_id m.main_quota_account_id in
        let bound = bind_account account_id (
          clear_if switched "main"
            (record m { main_token_fp = some (token_fingerprint access_token) })) in
        clear_if (quota_looks_healthy entry.quota) "main" (record bound { main = some entry })

  abbrev pub bind_token : String → Option String → JsMap String String → JsMap String String
  bind_token account_id access_token fps =
      if is_truthy access_token
      then set account_id (token_fingerprint (or_else access_token "")) fps
      else delete account_id fps

  unfoldable pub set_fallback :
      String → QuotaEntry → Option String → Bool → Option String → QuotaManager → QuotaManager
  set_fallback account_id entry access_token complete_snapshot identity m =
      if not complete_snapshot && not (has_any_quota_window entry.quota)
      then m
      else let previous = identity_of (get account_id m.fallbacks) in
        let cleared = clear_if (is_switch identity previous) account_id m in
        clear_if (quota_looks_healthy entry.quota) account_id (record cleared {
          fallbacks =
              set account_id (record entry { account_id = first_known identity previous })
                m.fallbacks;
          fallback_token_fps = bind_token account_id access_token m.fallback_token_fps;
        })

pub peek_main_for_policy : Option String → QuotaManager → Option QuotaEntry
peek_main_for_policy account_id m =
    if is_switch account_id m.main_quota_account_id then none else m.main

abbrev peek_at : Option String → Option QuotaEntry → Option QuotaEntry
peek_at identity none = none
peek_at identity (some entry) = if is_switch identity entry.account_id then none else some entry

pub peek_fallback_for_policy : String → Option String → QuotaManager → Option QuotaEntry
peek_fallback_for_policy account_id identity m = peek_at identity (get account_id m.fallbacks)
