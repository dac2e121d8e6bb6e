-- ===== src/Limits/Recovery/Adoption/Bounds.antt =====
-- Adopting a read keeps the invariant of the latch.
use openai_auth.Prelude.{
  ℕ, String, ◌≡◌, refl, Bool, true, ◌&&◌, ◌||◌, not, some, [], ◌∷◌, ltb, leb, ◌==◌, nat_eq,
  string_eq, triple_eq, option_eq, includes, arith, if_intro, inr,
}
use openai_auth.Prelude.JsMap.{size, has, set}
use openai_auth.Limits.Accounts.{limit_account_id, Snapshot}
use openai_auth.Limits.Recovery.{
  remembered_bound, Evidence, RecoveryRead, EvidenceId, EvidenceMap, Latch,
}
use openai_auth.Limits.Recovery.Bounds.{
  IsSound, size-set_guarded, stage-IsSound, forget_remembered-IsSound, forget_staged-IsSound,
}
use openai_auth.Limits.Recovery.Adoption.{
  Reading, cleared_by, sweep_remembered_one, sweep_staged_one, sweep_remembered, sweep_staged,
  take_observed_one, take_observed, enter_generation, reconcile, adoptable, reading_of, adopt,
}

sweep_remembered_one-IsSound :
    (r : Reading) (id : EvidenceId) (e : Evidence) (latch : Latch)
    → IsSound latch
    → IsSound (sweep_remembered_one r id e latch)
unfolding sweep_remembered_one
sweep_remembered_one-IsSound r id e latch v =
    let forgotten = forget_remembered-IsSound id latch v in
    if_intro IsSound (not (includes r.bound (limit_account_id e.account))) _ _ (λ _. forgotten)
      λ _.
        if_intro IsSound (has id r.observed) _ _ (λ _. v)
          λ _.
            if_intro IsSound (not (cleared_by e r.tombstones) && leb e.until r.at) _ _
              (λ _. stage-IsSound e _ forgotten) λ _. forgotten

sweep_staged_one-IsSound :
    (r : Reading) (id : EvidenceId) (e : Evidence) (latch : Latch)
    → IsSound latch
    → IsSound (sweep_staged_one r id e latch)
unfolding sweep_staged_one
sweep_staged_one-IsSound r id e latch v =
    let forgotten = forget_staged-IsSound id latch v in
    if_intro IsSound (not (includes r.bound (limit_account_id e.account))) _ _ (λ _. forgotten)
      λ _.
        if_intro IsSound (has id r.observed || not (cleared_by e r.tombstones)) _ _ (λ _. v)
          λ _. forgotten

take_observed_one-IsSound :
    (at : ℕ) (id : EvidenceId) (e : Evidence) (latch : Latch)
    → IsSound latch
    → IsSound (take_observed_one at id e latch)
unfolding take_observed_one
take_observed_one-IsSound at id e latch v =
    if_intro IsSound (has id latch.consumed) _ _ (λ _. v)
      λ _.
        if_intro IsSound (leb e.until at) _ _
          (λ _. stage-IsSound e _ (forget_remembered-IsSound id latch v))
          λ _.
            if_intro IsSound
              (has id latch.remembered || ltb (size latch.remembered) remembered_bound) _ _ remember
              λ _. v
  where
    remember :
        (has id latch.remembered || ltb (size latch.remembered) remembered_bound) ≡ true
        → IsSound (record latch { remembered = set id e latch.remembered })
    remember room = record {
      remembered_fits =
          size-set_guarded remembered_bound id e latch.remembered v.remembered_fits room;
      staged_fits = v.staged_fits;
      consumed_fits = v.consumed_fits;
      closed = v.closed;
      fresh = v.fresh;
    }

sweep_remembered-IsSound :
    (r : Reading) (m : EvidenceMap) (latch : Latch)
    → IsSound latch
    → IsSound (sweep_remembered r m latch)
unfolding sweep_remembered
sweep_remembered-IsSound r [] latch v = v
sweep_remembered-IsSound r ((id, e) ∷ m) latch v =
    sweep_remembered-IsSound r m _ (sweep_remembered_one-IsSound r id e latch v)

sweep_staged-IsSound :
    (r : Reading) (m : EvidenceMap) (latch : Latch)
    → IsSound latch
    → IsSound (sweep_staged r m latch)
unfolding sweep_staged
sweep_staged-IsSound r [] latch v = v
sweep_staged-IsSound r ((id, e) ∷ m) latch v =
    sweep_staged-IsSound r m _ (sweep_staged_one-IsSound r id e latch v)

take_observed-IsSound :
    (at : ℕ) (m : EvidenceMap) (latch : Latch) → IsSound latch → IsSound (take_observed at m latch)
unfolding take_observed
take_observed-IsSound at [] latch v = v
take_observed-IsSound at ((id, e) ∷ m) latch v =
    take_observed-IsSound at m _ (take_observed_one-IsSound at id e latch v)

pub reconcile-IsSound : (r : Reading) (latch : Latch) → IsSound latch → IsSound (reconcile r latch)
unfolding reconcile
reconcile-IsSound r latch v = take_observed-IsSound r.at r.observed _ (
    sweep_staged-IsSound r (sweep_remembered r latch.remembered latch).staged _
      (sweep_remembered-IsSound r latch.remembered latch v))

enter_generation-IsSound :
    (generation : String) (latch : Latch)
    → IsSound latch
    → IsSound (enter_generation generation latch)
unfolding enter_generation
enter_generation-IsSound generation latch v =
    if_intro IsSound (latch.generation == some generation) _ _ (λ _. v)
      λ _. record {
        remembered_fits = omega arith;
        staged_fits = omega arith;
        consumed_fits = omega arith;
        closed = inr refl;
        fresh = tt;
      }

pub adopt-IsSound :
    (read : RecoveryRead) (current : Snapshot) (latch : Latch)
    → IsSound latch
    → IsSound (adopt read current latch).1
unfolding adopt
adopt-IsSound read current latch v =
    if_intro (λ (p : Bool × Latch). IsSound p.1) (adoptable read current latch) _ _
      (λ _. reconcile-IsSound (reading_of read) _ (
        enter_generation-IsSound read.view.snapshot.generation
          (record latch { adopted = read.token })
          (record {
            remembered_fits = v.remembered_fits;
            staged_fits = v.staged_fits;
            consumed_fits = v.consumed_fits;
            closed = v.closed;
            fresh = v.fresh;
          })))
      λ _. v
