-- ===== src/Limits/Recovery/Tests.antt =====
-- Runs of the recovery latch, and its theorems at concrete inputs.
use openai_auth.Prelude.{
  ◌≡◌, refl, true, false, none, some, [], ◌∷◌, nat_eq, string_eq, triple_eq, arith,
}
use openai_auth.Prelude.JsMap.{get, set, delete}
use openai_auth.Limits.Accounts.{AccountKey, IdentityBinding, limit_account_id, Scope, Snapshot}
use openai_auth.Limits.Recovery.{
  RecoveryEvidence, View, RecoveryRead, Latch, new_latch, capture, candidate, consume,
}
use openai_auth.Limits.Recovery.Adoption.{adopt}
use openai_auth.Limits.Recovery.Adoption.Reads.{adopt_once}
use openai_auth.Limits.Recovery.Bounds.{IsSound}
use openai_auth.Limits.Recovery.Candidates.{IsCandidate, candidate-IsCandidate}
use openai_auth.Limits.Recovery.Probes.{consume_once}
use openai_auth.Limits.Recovery.History.{
  captures, adopts, consumes, latch_calls, latch_calls-IsSound,
}

abbrev account : AccountKey
account = record { namespace = "pool"; account_id = "main"; incarnation = "1" }

abbrev binding : IdentityBinding
binding = record { account = account; credential_epoch = some "1"; identity = none }

abbrev snapshot : Snapshot
snapshot = record {
  namespace = "pool";
  generation = "g";
  revision = 1;
  marks =
      record {
        key = record { account = account; window = "account"; scope = Scope.pool };
        entries =
            record { cause = "rate-limit"; until = 900; evidence_at = 100; committed_revision = 1 }
            ∷ [];
      }
      ∷ [];
  tombstones = [];
}

abbrev view : View
view = record {
  snapshot = snapshot;
  authoritative = true;
  degraded_agreement = false;
  bindings = binding ∷ [];
}

-- A read after the mark's expiry stages its evidence.
abbrev late_read : RecoveryRead
late_read = record { token = 1; view = view; at = 1000 }

abbrev offer : RecoveryEvidence
offer = record {
  evidence = record { account = account; until = 900; evidence_at = 100; committed_revision = 1 };
  generation = "g";
}

armed : Latch
armed = latch_calls (captures view 1000 ∷ adopts late_read snapshot ∷ []) new_latch

spent : Latch
spent = (consume offer armed).1

offered : candidate binding 1000 armed ≡ some offer
unfolding armed latch_calls new_latch capture adopt candidate set delete get
offered = refl

probed : (consume offer armed).0 ≡ true
unfolding armed latch_calls new_latch capture adopt consume set delete get
probed = refl

adopted : (adopt late_read snapshot new_latch).0 ≡ true
unfolding adopt new_latch
adopted = refl

armed-IsSound : IsSound armed
unfolding armed
armed-IsSound = latch_calls-IsSound (captures view 1000 ∷ adopts late_read snapshot ∷ [])

consumed : consume offer armed ≡ (true, spent)
unfolding spent armed latch_calls new_latch capture adopt consume set delete get
consumed = refl

latch_calls-IsSound_example :
    IsSound
      (latch_calls (captures view 1000 ∷ adopts late_read snapshot ∷ consumes offer ∷ []) new_latch)
latch_calls-IsSound_example =
    latch_calls-IsSound (captures view 1000 ∷ adopts late_read snapshot ∷ consumes offer ∷ [])

candidate-IsCandidate_example : IsCandidate (limit_account_id account) 1000 armed offer
candidate-IsCandidate_example = candidate-IsCandidate binding 1000 armed offer armed-IsSound offered

consume_once_example : candidate binding 2000 spent ≡ none
consume_once_example = (consume_once offer binding 2000 armed spent armed-IsSound refl consumed).0

adopt_once_example :
    adopt late_read snapshot (adopt late_read snapshot new_latch).1
    ≡ (false, (adopt late_read snapshot new_latch).1)
adopt_once_example =
    adopt_once late_read late_read snapshot snapshot new_latch adopted (omega arith)

full : Latch
full = record armed { exhausted = true; staged = [] }
