-- ===== src/Source.antt =====
-- packages/core/src/pool-source-state.ts: the state that both pool readers keep beside the store:
-- quota observations that are not yet written, and the backoff of token refreshes. The quota
-- library's merge, which may throw, is a parameter.
pub mod Pending
pub mod Waits
mod Tests
use openai_auth.Prelude.{
  ℕ, ◌+◌, ◌-◌, ◌*◌, zero, suc, String, Bool, true, false, ◌&&◌, ◌||◌, not, Option, none, some, List,
  [], ◌∷◌, ◌++◌, length, ltb, leb, if◌then◌else◌, ◌==◌, nat_eq, string_eq, option_eq, pair_eq,
  is_some, or_else, JsNumber, finite, infinity, nan,
}
use openai_auth.Prelude.JsMap.{JsMap, get, set}
use openai_auth.Backoff.{
  Failure, OperationError, is_transient_refresh_error, build_refresh_operation_error,
}

abbrev pub local_refresh_retry_ms : ℕ
local_refresh_retry_ms = 30_000

abbrev pub pending_observations_per_row : ℕ
pending_observations_per_row = 8

abbrev pub pending_observation_max_age_ms : ℕ
pending_observation_max_age_ms = 30 * 60_000

pub record PoolRefreshBackoff : Type 0 where
  pub next_retry_at : ℕ
  pub token_hash : String
  pub retry_count : ℕ

-- What the code reads of a pool row.
pub record PoolRow (Quota : Type 0) : Type 0 where
  pub id : String
  pub credential_epoch : Option ℕ
  pub identity : Option String
  pub quota : Quota

abbrev pub PoolAccountKey : Type 0
PoolAccountKey = String × Option ℕ

pub record ObservationLibrary : Type 1 where
  pub Quota : Type 0
  pub Observation : Type 0
  pub checked_at : Observation → JsNumber
  pub merge_quota_observation : Quota → Observation → Option Quota

pub record PoolPendingObservation (Observation : Type 0) : Type 0 where
  pub credential_epoch : Option ℕ
  pub identity : Option String
  pub observation : Observation

abbrev pub drop {ℓ} : {A : Type ℓ} → ℕ → List A → List A
drop zero xs = xs
drop (suc n) [] = []
drop (suc n) (x ∷ xs) = drop n xs

-- `slice(-n)`
abbrev pub take_last {ℓ} : {A : Type ℓ} → ℕ → List A → List A
take_last n xs = drop (length xs - n) xs

-- `now - checkedAt <= PENDING_OBSERVATION_MAX_AGE_MS`
abbrev pub is_recent : ℕ → JsNumber → Bool
is_recent now (finite checked_at) = leb now (checked_at + pending_observation_max_age_ms)
is_recent now infinity = true
is_recent now nan = false

module _ (lib : ObservationLibrary) where
  abbrev pub pool_account_key : PoolRow lib.Quota → PoolAccountKey
  pool_account_key row = (row.id, row.credential_epoch)

  -- The stored quota where the merge throws.
  pub merge_pool_observation : lib.Quota → lib.Observation → lib.Quota
  merge_pool_observation stored observation =
      or_else (lib.merge_quota_observation stored observation) stored

  abbrev pub Pending : Type 0
  Pending = JsMap PoolAccountKey (List (PoolPendingObservation lib.Observation))

  pub remember_pool_observation : Pending → PoolRow lib.Quota → lib.Observation → Pending
  remember_pool_observation pending row observation =
      set (pool_account_key row)
        (take_last pending_observations_per_row (
          or_else (get (pool_account_key row) pending) []
          ++ record {
            credential_epoch = row.credential_epoch;
            identity = row.identity;
            observation = observation;
          }
            ∷ []))
        pending

  -- Whether a pending observation applies to a row.
  abbrev pub applies : PoolRow lib.Quota → ℕ → PoolPendingObservation lib.Observation → Bool
  applies row now entry =
      is_recent now (lib.checked_at entry.observation)
      && (entry.credential_epoch == row.credential_epoch && entry.identity == row.identity)

  -- The loop of `applyPendingPoolObservations`; `next` starts as `row`.
  pub apply_entries :
      PoolRow lib.Quota
      → ℕ
      → List (PoolPendingObservation lib.Observation)
      → PoolRow lib.Quota
      → PoolRow lib.Quota
  unfolding merge_pool_observation
  apply_entries row now [] next = next
  apply_entries row now (entry ∷ entries) next = apply_entries row now entries (
      if applies row now entry
      then record next { quota = merge_pool_observation next.quota entry.observation }
      else next)

  pub apply_pending_pool_observations : PoolRow lib.Quota → Pending → ℕ → PoolRow lib.Quota
  unfolding apply_entries
  apply_pending_pool_observations row pending now =
      apply_entries row now (or_else (get (pool_account_key row) pending) []) row

-- The `previous` that a backoff stands for.
abbrev pub as_error : ℕ → Option PoolRefreshBackoff → Option OperationError
as_error now none = none
as_error now (some previous) = some (record {
  message = "";
  checked_at = now;
  next_retry_at = some previous.next_retry_at;
  retry_count = some previous.retry_count;
  token_hash = some previous.token_hash;
})

-- A status, or a failure of the network: what the provider or the way to it answers for.
abbrev pub is_from_provider : Failure → Bool
is_from_provider e = is_some e.status || is_transient_refresh_error e

abbrev pub kept_count : String → Option PoolRefreshBackoff → ℕ
kept_count token_hash none = 0
kept_count token_hash (some previous) =
    if previous.token_hash == token_hash then previous.retry_count else 0

module _ (hash_refresh_token : String → String) where
  pub next_pool_refresh_backoff :
      String → Failure → ℕ → Option PoolRefreshBackoff → PoolRefreshBackoff
  next_pool_refresh_backoff refresh_token e now previous =
      let token_hash = hash_refresh_token refresh_token in
      let built =
        build_refresh_operation_error hash_refresh_token e now refresh_token
          (as_error now previous) in
      if is_from_provider e
      then record {
        next_retry_at = or_else built.next_retry_at 0;
        token_hash = token_hash;
        retry_count = or_else built.retry_count 0;
      }
      else record {
        next_retry_at = now + local_refresh_retry_ms;
        token_hash = token_hash;
        retry_count = kept_count token_hash previous;
      }

-- The time that a row without a usable token waits for.
abbrev pub retry_time : ℕ → Option PoolRefreshBackoff → ℕ
retry_time now none = now + local_refresh_retry_ms
retry_time now (some own) =
    if ltb now own.next_retry_at then own.next_retry_at else now + local_refresh_retry_ms

abbrev is_usable : Option String → Bool
is_usable none = false
is_usable (some token) = not (token == "")

module _ (Quota : Type 0) (usable_token : PoolRow Quota → ℕ → Option String) where
  -- Whether a row may be sent with as it is.
  abbrev pub has_usable_token : PoolRow Quota → ℕ → Bool
  has_usable_token row now = is_usable (usable_token row now)

  pub backoff_loop :
      List (PoolRow Quota) → JsMap String PoolRefreshBackoff → ℕ → JsMap String ℕ → JsMap String ℕ
  backoff_loop [] backoff now out = out
  backoff_loop (row ∷ rows) backoff now out = backoff_loop rows backoff now (
      if has_usable_token row now
      then out
      else set row.id (retry_time now (get row.id backoff)) out)

  pub pool_refresh_backoff_for :
      List (PoolRow Quota) → JsMap String PoolRefreshBackoff → ℕ → JsMap String ℕ
  unfolding backoff_loop
  pool_refresh_backoff_for rows backoff now = backoff_loop rows backoff now []
