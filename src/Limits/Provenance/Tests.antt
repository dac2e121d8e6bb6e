-- ===== src/Limits/Provenance/Tests.antt =====
-- Runs of the provenance store, and its theorems at concrete inputs.
use openai_auth.Prelude.{◌≤◌, ◌≡◌, refl, none, some, List, [], ◌∷◌, finite, string_eq, triple_eq}
use openai_auth.Prelude.JsMap.{get, set}
use openai_auth.Limits.Accounts.{AccountKey, Scope, Snapshot}
use openai_auth.Limits.Provenance.{
  unproven, provider, LimitProvenance, ProvenanceStore, new_store, record_provenance, read,
  ProvenanceCall, records, retires, reconciles, calls,
}
use openai_auth.Limits.Provenance.Laws.{IsSound}
use openai_auth.Limits.Provenance.Evidence.{calls-IsSound, record_provenance_no_upgrade}

abbrev account : AccountKey
account = record { namespace = "pool"; account_id = "main"; incarnation = "1" }

abbrev guess : LimitProvenance
guess = record {
  account_key = account;
  expiry = finite 900;
  branch = unproven;
  observed_at = finite 100;
  evidence_at = finite 100;
}

abbrev proof : LimitProvenance
proof = record guess { branch = provider }

abbrev shared : Snapshot
shared = record {
  namespace = "pool";
  generation = "g";
  revision = 1;
  marks =
      record {
        key = record { account = account; window = "account"; scope = Scope.pool };
        entries =
            record { cause = "rate-limit"; until = 900; evidence_at = 100; committed_revision = 1 }
            ∷ [];
      }
      ∷ [];
  tombstones = [];
}

store : ProvenanceStore
store = calls (records guess (finite 200) ∷ []) (new_store "pool")

kept_guess : (read account (finite 900) (finite 100) (finite 300) store).0 ≡ some guess
unfolding store calls read new_store get set
kept_guess = refl

-- A guess that the provider repeats with the same deadline stays a guess.
still_guess :
    (read account
      (finite 900)
      (finite 100)
      (finite 300)
      (record_provenance proof (finite 250) store)).0
    ≡ some guess
unfolding store calls read new_store get set
still_guess = refl

expired : (read account (finite 900) (finite 100) (finite 900) store).0 ≡ none
unfolding store calls read new_store get set
expired = refl

abbrev history : List ProvenanceCall
history = records guess (finite 200) ∷ reconciles shared (finite 300) ∷ retires account ∷ []

store-IsSound : IsSound store
unfolding store
store-IsSound = calls-IsSound "pool" (records guess (finite 200) ∷ [])

calls-IsSound_example : IsSound (calls history (new_store "pool"))
calls-IsSound_example = calls-IsSound "pool" history

record_provenance_no_upgrade_example : 0 ≤ 0
unfolding store calls new_store get set
record_provenance_no_upgrade_example =
    record_provenance_no_upgrade proof guess guess (finite 250) store store-IsSound refl refl refl
      refl
