-- ===== src/Limits/Recovery/History.antt =====
-- The latch after any history of calls, as a lease makes them.
use openai_auth.Prelude.{ℕ, ◌≡◌, true, false, none, List, [], ◌∷◌, Bool-cases, inl, inr, ◌∙◌}
use openai_auth.Limits.Accounts.{IdentityBinding, Snapshot}
use openai_auth.Limits.Recovery.{
  RecoveryEvidence, RecoveryRead, View, Latch, new_latch, capture, candidate, consume,
}
use openai_auth.Limits.Recovery.Bounds.{IsSound, new_latch-IsSound, consume-IsSound}
use openai_auth.Limits.Recovery.Adoption.{adopt}
use openai_auth.Limits.Recovery.Adoption.Bounds.{adopt-IsSound}
use openai_auth.Limits.Recovery.Adoption.Reads.{adopt_cases}

pub data LatchCall : Type 0 where
  captures : View → ℕ → LatchCall
  adopts : RecoveryRead → Snapshot → LatchCall
  consumes : RecoveryEvidence → LatchCall

pub latch_call : LatchCall → Latch → Latch
latch_call (captures view at) latch = (capture view at latch).1
latch_call (adopts read current) latch = (adopt read current latch).1
latch_call (consumes r) latch = (consume r latch).1

unfoldable pub latch_calls : List LatchCall → Latch → Latch
unfolding latch_call
latch_calls [] latch = latch
latch_calls (c ∷ cs) latch = latch_calls cs (latch_call c latch)

latch_call-IsSound : (c : LatchCall) (latch : Latch) → IsSound latch → IsSound (latch_call c latch)
unfolding latch_call capture
latch_call-IsSound (captures view at) latch v = record {
  remembered_fits = v.remembered_fits;
  staged_fits = v.staged_fits;
  consumed_fits = v.consumed_fits;
  closed = v.closed;
  fresh = v.fresh;
}
latch_call-IsSound (adopts read current) latch v = adopt-IsSound read current latch v
latch_call-IsSound (consumes r) latch v = consume-IsSound r latch v

pub latch_calls-IsSound_from :
    (cs : List LatchCall) (latch : Latch) → IsSound latch → IsSound (latch_calls cs latch)
unfolding latch_calls
latch_calls-IsSound_from [] latch v = v
latch_calls-IsSound_from (c ∷ cs) latch v =
    latch_calls-IsSound_from cs _ (latch_call-IsSound c latch v)

-- After any calls on a new latch: at most 256 entries are remembered, 256 staged and 1024 consumed,
-- staged evidence stands under its own id and was never consumed, and an exhausted latch has
-- nothing staged.
pub latch_calls-IsSound : (cs : List LatchCall) → IsSound (latch_calls cs new_latch)
latch_calls-IsSound cs = latch_calls-IsSound_from cs new_latch new_latch-IsSound

consume_exhausted :
    (r : RecoveryEvidence) (latch : Latch)
    → latch.exhausted ≡ true
    → (consume r latch).1.exhausted ≡ true
unfolding consume
consume_exhausted r latch h = rw h

latch_call-exhausted :
    (c : LatchCall) (latch : Latch) → latch.exhausted ≡ true → (latch_call c latch).exhausted ≡ true
unfolding latch_call capture
latch_call-exhausted (captures view at) latch h = h
latch_call-exhausted (adopts read current) latch h =
    elim (Bool-cases (adopt read current latch).0) [
      | inl done ↦ ((adopt_cases read current latch).0 done).2 ∙ h
      | inr refused ↦ rw ((adopt_cases read current latch).1 refused) h
    ]
latch_call-exhausted (consumes r) latch h = consume_exhausted r latch h

latch_calls-exhausted :
    (cs : List LatchCall) (latch : Latch)
    → latch.exhausted ≡ true
    → (latch_calls cs latch).exhausted ≡ true
unfolding latch_calls
latch_calls-exhausted [] latch h = h
latch_calls-exhausted (c ∷ cs) latch h = latch_calls-exhausted cs _ (latch_call-exhausted c latch h)

-- Exhaustion is for good: whatever calls follow, an exhausted latch offers no candidate and
-- consumes nothing.
pub exhausted_for_good :
    (cs : List LatchCall) (latch : Latch) (binding : IdentityBinding) (now : ℕ)
    (r : RecoveryEvidence)
    → latch.exhausted ≡ true
    → (candidate binding now (latch_calls cs latch) ≡ none)
      × (consume r (latch_calls cs latch) ≡ (false, latch_calls cs latch))
unfolding candidate consume
exhausted_for_good cs latch binding now r h =
    let still : (latch_calls cs latch).exhausted ≡ true = latch_calls-exhausted cs latch h in
    (rw still, rw still)
