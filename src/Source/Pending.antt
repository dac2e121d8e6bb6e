-- ===== src/Source/Pending.antt =====
-- packages/core/src/pool-source-state.ts: the observations that wait for their write.
use openai_auth.Prelude.{
  ℕ, ◌-◌, ◌≤◌, ◌≡◌, refl, zero, suc, false, List, [], ◌∷◌, ◌++◌, length, ◌==◌, string_eq, option_eq,
  nat_eq, pair_eq, or_else, arith, All,
}
use openai_auth.Prelude.JsMap.{get, All-set, get-set}
use openai_auth.Source.{
  pending_observations_per_row, PoolRow, PoolAccountKey, ObservationLibrary, PoolPendingObservation,
  drop, take_last, pool_account_key, Pending, remember_pool_observation, applies, apply_entries,
  apply_pending_pool_observations,
}

length-drop : {A : Type 0} (n : ℕ) (xs : List A) → length (drop n xs) ≡ length xs - n
length-drop zero xs = omega arith
length-drop (suc n) [] = omega arith
length-drop (suc n) (x ∷ xs) = omega (arith, length-drop n xs)

length-take_last : {A : Type 0} (n : ℕ) (xs : List A) → length (take_last n xs) ≤ n
length-take_last n xs = omega (arith, length-drop (length xs - n) xs)

module _ (lib : ObservationLibrary) where
  -- At most eight observations wait for each account.
  abbrev pub IsBounded : Pending lib → Type 0
  IsBounded pending =
      All
        (λ (p : PoolAccountKey × List (PoolPendingObservation lib.Observation)).
          length p.1 ≤ pending_observations_per_row)
        pending

  -- Remembering an observation keeps at most eight for each account, and does not touch what waits
  -- for another login of the same row or for another row.
  pub remember_pool_observation-IsBounded :
      (pending : Pending lib) (row : PoolRow lib.Quota) (observation : lib.Observation)
      (other : PoolAccountKey)
      → IsBounded pending
      → IsBounded (remember_pool_observation lib pending row observation)
        × ((pool_account_key lib row == other) ≡ false
            → get other (remember_pool_observation lib pending row observation) ≡ get other pending)
  unfolding remember_pool_observation
  remember_pool_observation-IsBounded pending row observation other h = (
    All-set
        (λ (p : PoolAccountKey × List (PoolPendingObservation lib.Observation)).
          length p.1 ≤ pending_observations_per_row)
        (pool_account_key lib row) _ pending (length-take_last pending_observations_per_row waiting)
        h,
    λ apart. rw (get-set other (pool_account_key lib row) _ pending, apart) refl,
  )
    where
      waiting : List (PoolPendingObservation lib.Observation)
      waiting =
          or_else (get (pool_account_key lib row) pending) []
          ++ record {
            credential_epoch = row.credential_epoch;
            identity = row.identity;
            observation = observation;
          }
            ∷ []

  apply_entries-none :
      (row next : PoolRow lib.Quota) (now : ℕ)
      (entries : List (PoolPendingObservation lib.Observation))
      → All (λ (e : PoolPendingObservation lib.Observation). applies lib row now e ≡ false) entries
      → apply_entries lib row now entries next ≡ next
  unfolding apply_entries
  apply_entries-none row next now [] h = refl
  apply_entries-none row next now (entry ∷ entries) h =
      rw h.0 (apply_entries-none row next now entries h.1)

  -- If no pending observation of the row's login applies to it, whether too old or of another
  -- identity, the row stays as it is.
  pub apply_pending-none :
      (row : PoolRow lib.Quota) (pending : Pending lib) (now : ℕ)
      → All
          (λ (e : PoolPendingObservation lib.Observation). applies lib row now e ≡ false)
          (or_else (get (pool_account_key lib row) pending) [])
      → apply_pending_pool_observations lib row pending now ≡ row
  unfolding apply_pending_pool_observations
  apply_pending-none row pending now h = apply_entries-none row row now _ h
