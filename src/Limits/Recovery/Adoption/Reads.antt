-- ===== src/Limits/Recovery/Adoption/Reads.antt =====
-- A read is adopted once, and never after a later one; exhaustion stays.
use openai_auth.Prelude.{
  ℕ, String, ◌≤◌, ◌≡◌, refl, Bool, true, false, ◌&&◌, ◌||◌, not, some, [], ◌∷◌, ltb, leb, ◌==◌,
  nat_eq, string_eq, triple_eq, option_eq, includes, arith, if_intro,
}
use openai_auth.Prelude.JsMap.{size, has}
use openai_auth.Limits.Accounts.{limit_account_id, Snapshot}
use openai_auth.Limits.Recovery.{
  remembered_bound, Evidence, RecoveryRead, EvidenceId, EvidenceMap, Latch, stageable, stage,
}
use openai_auth.Limits.Recovery.Adoption.{
  Reading, cleared_by, sweep_remembered_one, sweep_staged_one, sweep_remembered, sweep_staged,
  take_observed_one, take_observed, enter_generation, reconcile, adoptable, reading_of, adopt,
}

-- The fields that the loops leave alone.
abbrev Keeps : Latch → Latch → Type 0
Keeps latch after = (after.adopted ≡ latch.adopted) × (after.exhausted ≡ latch.exhausted)

stage-Keeps :
    (latch : Latch) (e : Evidence) (now : Latch) → Keeps latch now → Keeps latch (stage e now)
unfolding stage
stage-Keeps latch e now k = if_intro (Keeps latch) (stageable e now) _ _ (λ _. k) λ _. k

module _ (latch : Latch) (r : Reading) where
  sweep_remembered_one-Keeps :
      (id : EvidenceId) (e : Evidence) (now : Latch)
      → Keeps latch now
      → Keeps latch (sweep_remembered_one r id e now)
  unfolding sweep_remembered_one
  sweep_remembered_one-Keeps id e now k =
      if_intro (Keeps latch) (not (includes r.bound (limit_account_id e.account))) _ _ (λ _. k)
        λ _.
          if_intro (Keeps latch) (has id r.observed) _ _ (λ _. k)
            λ _.
              if_intro (Keeps latch) (not (cleared_by e r.tombstones) && leb e.until r.at) _ _
                (λ _. stage-Keeps latch e _ k) λ _. k

  sweep_staged_one-Keeps :
      (id : EvidenceId) (e : Evidence) (now : Latch)
      → Keeps latch now
      → Keeps latch (sweep_staged_one r id e now)
  unfolding sweep_staged_one
  sweep_staged_one-Keeps id e now k =
      if_intro (Keeps latch) (not (includes r.bound (limit_account_id e.account))) _ _ (λ _. k)
        λ _.
          if_intro (Keeps latch) (has id r.observed || not (cleared_by e r.tombstones)) _ _ (λ _. k)
            λ _. k

  sweep_remembered-Keeps :
      (m : EvidenceMap) (now : Latch) → Keeps latch now → Keeps latch (sweep_remembered r m now)
  unfolding sweep_remembered
  sweep_remembered-Keeps [] now k = k
  sweep_remembered-Keeps ((id, e) ∷ m) now k =
      sweep_remembered-Keeps m _ (sweep_remembered_one-Keeps id e now k)

  sweep_staged-Keeps :
      (m : EvidenceMap) (now : Latch) → Keeps latch now → Keeps latch (sweep_staged r m now)
  unfolding sweep_staged
  sweep_staged-Keeps [] now k = k
  sweep_staged-Keeps ((id, e) ∷ m) now k =
      sweep_staged-Keeps m _ (sweep_staged_one-Keeps id e now k)

module _ (latch : Latch) (at : ℕ) where
  take_observed_one-Keeps :
      (id : EvidenceId) (e : Evidence) (now : Latch)
      → Keeps latch now
      → Keeps latch (take_observed_one at id e now)
  unfolding take_observed_one
  take_observed_one-Keeps id e now k =
      if_intro (Keeps latch) (has id now.consumed) _ _ (λ _. k)
        λ _.
          if_intro (Keeps latch) (leb e.until at) _ _ (λ _. stage-Keeps latch e _ k)
            λ _.
              if_intro (Keeps latch)
                (has id now.remembered || ltb (size now.remembered) remembered_bound) _ _ (λ _. k)
                λ _. k

  take_observed-Keeps :
      (m : EvidenceMap) (now : Latch) → Keeps latch now → Keeps latch (take_observed at m now)
  unfolding take_observed
  take_observed-Keeps [] now k = k
  take_observed-Keeps ((id, e) ∷ m) now k =
      take_observed-Keeps m _ (take_observed_one-Keeps id e now k)

reconcile-Keeps :
    (r : Reading) (latch now : Latch) → Keeps latch now → Keeps latch (reconcile r now)
unfolding reconcile
reconcile-Keeps r latch now k = take_observed-Keeps latch r.at r.observed _ (
    sweep_staged-Keeps latch r (sweep_remembered r now.remembered now).staged _
      (sweep_remembered-Keeps latch r now.remembered now k))

enter_generation-Keeps :
    (generation : String) (latch : Latch) → Keeps latch (enter_generation generation latch)
unfolding enter_generation
enter_generation-Keeps generation latch =
    if_intro (Keeps latch) (latch.generation == some generation) _ _ (λ _. (refl, refl))
      λ _. (refl, refl)

-- What an attempt to adopt returns, on both branches.
abbrev Adopted : RecoveryRead → Latch → Bool × Latch → Type 0
Adopted read latch (done, after) =
    ((done ≡ true)
      → (after.adopted ≡ read.token)
        × (latch.adopted ≤ after.adopted)
        × (after.exhausted ≡ latch.exhausted))
    × ((done ≡ false) → after ≡ latch)

adoptable-lt :
    (read : RecoveryRead) (current : Snapshot) (latch : Latch)
    → adoptable read current latch ≡ true
    → latch.adopted ≤ read.token
unfolding adoptable
adoptable-lt read current latch ok = ground arith

-- Adopting a read raises the latch's token to the read's and leaves exhaustion as it is; a read
-- that is refused changes nothing.
pub adopt_cases :
    (read : RecoveryRead) (current : Snapshot) (latch : Latch)
    → Adopted read latch (adopt read current latch)
unfolding adopt
adopt_cases read current latch =
    if_intro (Adopted read latch) (adoptable read current latch) _ _
      (λ ok.
        (λ _. (kept.0, rw kept.0 (adoptable-lt read current latch ok), kept.1), λ e. absurd (cc)))
      λ _. ((λ e. absurd (cc)), λ _. refl)
  where
    base : Latch
    base = record latch { adopted = read.token }

    kept :
        Keeps base
          (reconcile (reading_of read) (enter_generation read.view.snapshot.generation base))
    kept =
        reconcile-Keeps (reading_of read) base (enter_generation read.view.snapshot.generation base)
          (enter_generation-Keeps read.view.snapshot.generation base)

refuse_old :
    (late : RecoveryRead) (other : Snapshot) (latch : Latch)
    → late.token ≤ latch.adopted
    → adopt late other latch ≡ (false, latch)
unfolding adopt adoptable
refuse_old late other latch old =
    let stale : ltb latch.adopted late.token ≡ false = ground arith in rw stale

-- No read is adopted twice, whatever the envelope then is: once a read is adopted, every read with
-- its token or an earlier one is refused and changes nothing.
pub adopt_once :
    (read late : RecoveryRead) (current other : Snapshot) (latch : Latch)
    → (adopt read current latch).0 ≡ true
    → late.token ≤ read.token
    → adopt late other (adopt read current latch).1 ≡ (false, (adopt read current latch).1)
adopt_once read late current other latch h old =
    let (token, grown, exhaustion) = (adopt_cases read current latch).0 h in
    refuse_old late other (adopt read current latch).1 (rw token old)
