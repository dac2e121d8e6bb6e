-- ===== src/Source/Tests.antt =====
-- Runs of the pool source state, and its theorems at concrete rows.
use openai_auth.Prelude.{
  ℕ, ◌+◌, ◌≤◌, ◌≡◌, refl, String, true, false, Option, none, some, List, [], ◌∷◌, arith, ◌==◌,
  pair_eq, string_eq, option_eq, nat_eq, finite,
}
use openai_auth.Prelude.JsMap.{get}
use openai_auth.Backoff.{Failure, min_refresh_retry_delay_ms, non_transient_refresh_retry_delay_ms}
use openai_auth.Source.{
  local_refresh_retry_ms, PoolRow, PoolAccountKey, ObservationLibrary, pool_account_key, Pending,
  remember_pool_observation, apply_pending_pool_observations, is_from_provider,
  next_pool_refresh_backoff,
}
use openai_auth.Source.Waits.{next_pool_refresh_backoff-bounds}
use openai_auth.Source.Pending.{IsBounded, remember_pool_observation-IsBounded}

-- Quota is the last percent used; an observation has a time and a percent.
abbrev library : ObservationLibrary
library = record {
  Quota = ℕ;
  Observation = ℕ × ℕ;
  checked_at = λ o. finite o.0;
  merge_quota_observation = λ stored o. some o.1;
}

abbrev row : PoolRow ℕ
row = record { id = "main"; credential_epoch = some 3; identity = some "A"; quota = 10 }

-- The same login, after its identity was found to be another.
abbrev renamed : PoolRow ℕ
renamed = record row { identity = some "B" }

abbrev waiting : Pending library
waiting =
    (
      ("main", some 3),
      record { credential_epoch = some 3; identity = some "A"; observation = (500, 40) } ∷ [],
    )
    ∷ []

abbrev other_key : PoolAccountKey
other_key = ("main", some 4)

abbrev new_reading : ℕ × ℕ
new_reading = (600, 50)

merges : (apply_pending_pool_observations library row waiting 1000).quota ≡ 40
unfolding apply_pending_pool_observations get
merges = refl

remember_pool_observation-IsBounded_example :
    IsBounded library (remember_pool_observation library waiting row new_reading)
    × ((pool_account_key library row == other_key) ≡ false
        → get other_key (remember_pool_observation library waiting row new_reading)
          ≡ get other_key waiting)
remember_pool_observation-IsBounded_example =
    remember_pool_observation-IsBounded library waiting row new_reading other_key (ground arith, tt)

abbrev no_token : PoolRow ℕ → ℕ → Option String
no_token r now = none

abbrev rows : List (PoolRow ℕ)
rows = row ∷ []

abbrev hash : String → String
hash token = token

-- A lock that was not had.
abbrev locked : Failure
locked = record {
  status = none;
  is_error = true;
  name = "Error";
  message = "locked";
  code = none;
  retry_after = none;
}

next_pool_refresh_backoff-bounds_example :
    let next = (next_pool_refresh_backoff hash "t" locked 1000 none).next_retry_at in
    (is_from_provider locked ≡ false → next ≡ 1000 + local_refresh_retry_ms)
    × (is_from_provider locked ≡ true
        → (1000 + min_refresh_retry_delay_ms ≤ next)
          × (next ≤ 1000 + non_transient_refresh_retry_delay_ms))
next_pool_refresh_backoff-bounds_example =
    next_pool_refresh_backoff-bounds hash "t" locked 1000 none refl
