-- ===== src/Limits/Recovery/Adoption.antt =====
-- packages/core/src/limit-recovery.ts, `adopt`: what a read of the committed envelope changes.
pub mod Bounds
pub mod Reads
use openai_auth.Prelude.{
  ℕ, suc, ◌+◌, String, Bool, true, false, ◌&&◌, ◌||◌, not, Option, none, some, List, [], ◌∷◌, map,
  ltb, leb, if◌then◌else◌, ◌==◌, nat_eq, string_eq, triple_eq, option_eq, any, includes,
}
use openai_auth.Prelude.JsMap.{size, has, set, delete}
use openai_auth.Limits.Accounts.{
  AccountKey, AccountId, limit_account_id, MarkEntry, Mark, Tombstone, Snapshot, is_pool_account,
}
use openai_auth.Limits.Recovery.{
  Evidence, RecoveryRead, EvidenceId, evidence_id, EvidenceMap, Latch, stage, remembered_bound,
}

-- The evidence of a mark's rate-limit entries.
pub observe_entries : AccountKey → List MarkEntry → EvidenceMap → EvidenceMap
observe_entries account [] observed = observed
observe_entries account (entry ∷ rest) observed =
    let e : Evidence = record {
      account = account;
      until = entry.until;
      evidence_at = entry.evidence_at;
      committed_revision = entry.committed_revision;
    } in
    observe_entries account rest
      (if entry.cause == "rate-limit" then set (evidence_id e) e observed else observed)

-- `observed`: what the read's bound account marks still carry.
pub observe_marks : List AccountId → List Mark → EvidenceMap → EvidenceMap
unfolding observe_entries
observe_marks bound [] observed = observed
observe_marks bound (mark ∷ rest) observed = observe_marks bound rest (
    if is_pool_account mark.key && includes bound (limit_account_id mark.key.account)
    then observe_entries mark.key.account mark.entries observed
    else observed)

-- Whether a clear of the account removed the evidence.
pub cleared_by : Evidence → List Tombstone → Bool
cleared_by e tombstones =
    any
      (λ clear.
        limit_account_id clear.key.account == limit_account_id e.account
        && (is_pool_account clear.key
            && (leb e.committed_revision clear.revision
                && (clear.cause == none || clear.cause == some "rate-limit"))))
      tombstones

-- What an adopted read says of one piece of evidence.
pub record Reading : Type 0 where
  pub bound : List AccountId
  pub observed : EvidenceMap
  pub tombstones : List Tombstone
  pub at : ℕ

-- The body of the first loop, for a remembered entry.
pub sweep_remembered_one : Reading → EvidenceId → Evidence → Latch → Latch
unfolding stage cleared_by
sweep_remembered_one r id e latch =
    let forgotten = record latch { remembered = delete id latch.remembered } in
    if not (includes r.bound (limit_account_id e.account))
    then forgotten
    else if has id r.observed
    then latch
    else if not (cleared_by e r.tombstones) && leb e.until r.at
    then stage e forgotten
    else forgotten

-- The same for a staged entry: it goes only when it is unbound, or cleared and not observed.
pub sweep_staged_one : Reading → EvidenceId → Evidence → Latch → Latch
unfolding cleared_by
sweep_staged_one r id e latch =
    let forgotten = record latch { staged = delete id latch.staged } in
    if not (includes r.bound (limit_account_id e.account))
    then forgotten
    else if has id r.observed || not (cleared_by e r.tombstones)
    then latch
    else forgotten

pub sweep_remembered : Reading → EvidenceMap → Latch → Latch
unfolding sweep_remembered_one
sweep_remembered r [] latch = latch
sweep_remembered r ((id, e) ∷ rest) latch =
    sweep_remembered r rest (sweep_remembered_one r id e latch)

pub sweep_staged : Reading → EvidenceMap → Latch → Latch
unfolding sweep_staged_one
sweep_staged r [] latch = latch
sweep_staged r ((id, e) ∷ rest) latch = sweep_staged r rest (sweep_staged_one r id e latch)

-- The body of the last loop: observed evidence is staged once it has expired, else remembered.
pub take_observed_one : ℕ → EvidenceId → Evidence → Latch → Latch
unfolding stage
take_observed_one at id e latch =
    if has id latch.consumed
    then latch
    else if leb e.until at
    then stage e (record latch { remembered = delete id latch.remembered })
    else if has id latch.remembered || ltb (size latch.remembered) remembered_bound
    then record latch { remembered = set id e latch.remembered }
    else latch

pub take_observed : ℕ → EvidenceMap → Latch → Latch
unfolding take_observed_one
take_observed at [] latch = latch
take_observed at ((id, e) ∷ rest) latch = take_observed at rest (take_observed_one at id e latch)

-- The guard of `adopt`: the read is newer than the last adopted one, trustworthy, and of the
-- current envelope.
pub adoptable : RecoveryRead → Snapshot → Latch → Bool
adoptable read current latch =
    let raw = read.view.snapshot in
    ltb latch.adopted read.token
    && (read.view.authoritative
        && (not read.view.degraded_agreement
            && (raw.namespace == current.namespace
                && (raw.generation == current.generation && raw.revision == current.revision))))

-- Another generation of the envelope forgets all evidence.
pub enter_generation : String → Latch → Latch
enter_generation generation latch =
    if latch.generation == some generation
    then latch
    else record latch { generation = some generation; remembered = []; staged = []; consumed = [] }

pub reading_of : RecoveryRead → Reading
unfolding observe_marks
reading_of read =
    let bound : List AccountId = map (λ b. limit_account_id b.account) read.view.bindings in
    record {
      bound = bound;
      observed = observe_marks bound read.view.snapshot.marks [];
      tombstones = read.view.snapshot.tombstones;
      at = read.at;
    }

-- The three loops. The staged loop runs over what is staged when it starts.
pub reconcile : Reading → Latch → Latch
unfolding sweep_remembered sweep_staged take_observed
reconcile r latch =
    let swept = sweep_remembered r latch.remembered latch in
    take_observed r.at r.observed (sweep_staged r swept.staged swept)

unfoldable pub adopt : RecoveryRead → Snapshot → Latch → Bool × Latch
unfolding adoptable enter_generation reading_of reconcile
adopt read current latch =
    if adoptable read current latch
    then (
      true,
      reconcile (reading_of read)
          (enter_generation read.view.snapshot.generation (record latch { adopted = read.token })),
    )
    else (false, latch)
