-- ===== src/Limits/Recovery.antt =====
-- packages/core/src/limit-recovery.ts: the latch that keeps the evidence of expired marks, so that
-- one successful probe of the account clears them, once.
pub mod Adoption
pub mod Bounds
pub mod Candidates
pub mod Probes
pub mod History
mod Tests
use openai_auth.Prelude.{
  ℕ, suc, ◌+◌, String, Bool, true, false, ◌&&◌, ◌||◌, not, Option, none, some, List, [], ◌∷◌, map,
  ltb, leb, if◌then◌else◌, ◌==◌, nat_eq, string_eq, triple_eq, option_eq, is_some, any, keep_if,
  includes, length,
}
use openai_auth.Prelude.JsMap.{JsMap, size, get, has, set, delete, keys}
use openai_auth.Limits.Accounts.{
  AccountKey, AccountId, IdentityBinding, limit_account_id, MarkEntry, Mark, Tombstone, Snapshot,
  is_pool_account,
}

abbrev pub remembered_bound : ℕ
remembered_bound = 256

abbrev pub staged_bound : ℕ
staged_bound = 256

abbrev pub consumed_bound : ℕ
consumed_bound = 1024

pub record Evidence : Type 0 where
  pub account : AccountKey
  pub until : ℕ
  pub evidence_at : ℕ
  pub committed_revision : ℕ

pub record RecoveryEvidence : Type 0 where
  pub evidence : Evidence
  pub generation : String

-- A read of the committed envelope (`LimitsPersistenceSnapshot`).
pub record View : Type 0 where
  pub snapshot : Snapshot
  pub authoritative : Bool
  pub degraded_agreement : Bool
  pub bindings : List IdentityBinding

pub record RecoveryRead : Type 0 where
  pub token : ℕ
  pub view : View
  pub at : ℕ

-- `JSON.stringify([limitAccountId(account), until, evidenceAt])`, kept as the array that it spells.
abbrev pub EvidenceId : Type 0
EvidenceId = AccountId × ℕ × ℕ

abbrev pub evidence_id : Evidence → EvidenceId
evidence_id e = (limit_account_id e.account, e.until, e.evidence_at)

abbrev pub EvidenceMap : Type 0
EvidenceMap = JsMap EvidenceId Evidence

-- The class LimitRecoveryLatch. `logged` counts the calls of its log function.
pub record Latch : Type 0 where
  pub generation : Option String
  pub issued : ℕ
  pub adopted : ℕ
  pub remembered : EvidenceMap
  pub staged : EvidenceMap
  pub consumed : EvidenceMap
  pub exhausted : Bool
  pub logged : ℕ

pub new_latch : Latch
new_latch = record {
  generation = none;
  issued = 0;
  adopted = 0;
  remembered = [];
  staged = [];
  consumed = [];
  exhausted = false;
  logged = 0;
}

pub capture : View → ℕ → Latch → RecoveryRead × Latch
capture view at latch =
    let token = latch.issued + 1 in
    (record { token = token; view = view; at = at }, record latch { issued = token })

-- `Math.max(bound, value)`, where no bound is -Infinity.
abbrev raise : Option ℕ → ℕ → Option ℕ
raise none value = some value
raise (some bound) value = some (if ltb bound value then value else bound)

-- `value <= bound`
abbrev at_most : ℕ → Option ℕ → Bool
at_most value none = false
at_most value (some bound) = leb value bound

-- The largest `until` and `evidenceAt` that were consumed for an account.
pub consumed_until : AccountId → EvidenceMap → Option ℕ → Option ℕ
consumed_until account [] bound = bound
consumed_until account ((id, previous) ∷ rest) bound =
    consumed_until account rest
      (if limit_account_id previous.account == account then raise bound previous.until else bound)

pub consumed_evidence_at : AccountId → EvidenceMap → Option ℕ → Option ℕ
consumed_evidence_at account [] bound = bound
consumed_evidence_at account ((id, previous) ∷ rest) bound = consumed_evidence_at account rest (
    if limit_account_id previous.account == account
    then raise bound previous.evidence_at
    else bound)

-- The early returns of `stage`, and its last guard.
pub stageable : Evidence → Latch → Bool
unfolding consumed_until consumed_evidence_at
stageable e latch =
    let id = evidence_id e in
    let account = limit_account_id e.account in
    not (has id latch.consumed || latch.exhausted)
    && (not (
          at_most e.until (consumed_until account latch.consumed none)
          && at_most e.evidence_at (consumed_evidence_at account latch.consumed none))
        && (has id latch.staged || ltb (size latch.staged) staged_bound))

pub stage : Evidence → Latch → Latch
unfolding stageable
stage e latch =
    if stageable e latch
    then record latch { staged = set (evidence_id e) e latch.staged }
    else latch

-- The loop of `candidate`: the latest expired evidence of the account, the first of equals.
abbrev pub better : Evidence → Option Evidence → Bool
better e none = true
better e (some result) =
    ltb result.until e.until
    || (nat_eq.beq e.until result.until && ltb result.evidence_at e.evidence_at)

pub candidate_from : AccountId → ℕ → Option Evidence → EvidenceMap → Option Evidence
candidate_from account now result [] = result
candidate_from account now result ((id, e) ∷ rest) =
    candidate_from account now
      (if (limit_account_id e.account == account && leb e.until now) && better e result
        then some e
        else result)
      rest

abbrev pub with_generation : Option String → Option Evidence → Option RecoveryEvidence
with_generation none result = none
with_generation (some generation) none = none
with_generation (some generation) (some e) = some (record { evidence = e; generation = generation })

pub candidate : IdentityBinding → ℕ → Latch → Option RecoveryEvidence
unfolding candidate_from
candidate binding now latch =
    if latch.exhausted
    then none
    else with_generation latch.generation
        (candidate_from (limit_account_id binding.account) now none latch.staged)

-- The last loop of `consume`: the entries move from `staged` to `consumed`.
pub move_all : EvidenceMap → Latch → Latch
move_all [] latch = latch
move_all ((key, e) ∷ rest) latch =
    move_all rest
      (record latch { consumed = set key e latch.consumed; staged = delete key latch.staged })

abbrev pub of_account : AccountId → EvidenceMap → EvidenceMap
of_account account = keep_if (λ p. limit_account_id p.1.account == account)

-- The guard of `consume`.
abbrev pub consumable : RecoveryEvidence → Latch → Bool
consumable r latch =
    let id = evidence_id r.evidence in
    not latch.exhausted
    && (some r.generation == latch.generation
        && (has id latch.staged && not (has id latch.consumed)))

pub consume : RecoveryEvidence → Latch → Bool × Latch
unfolding move_all
consume r latch =
    let same = of_account (limit_account_id r.evidence.account) latch.staged in
    if consumable r latch
    then if ltb consumed_bound (size latch.consumed + size same)
      then (false, record latch { exhausted = true; staged = []; logged = latch.logged + 1 })
      else (true, move_all same latch)
    else (false, latch)
