-- ===== src/Limits/Provenance.antt =====
-- packages/core/src/limit-provenance.ts: which evidence stands behind the expiry of a mark.
pub mod Laws
pub mod Evidence
mod Tests
use openai_auth.Prelude.{
  ℕ, String, Bool, true, false, ◌&&◌, not, Option, none, some, List, [], ◌∷◌, JsNumber, finite,
  infinity, is_finite, num_lt, num_le, num_eq, leb, if◌then◌else◌, ◌==◌, string_eq, triple_eq, any,
  keep_if,
}
use openai_auth.Prelude.JsMap.{JsMap, size, get, set, delete}
use openai_auth.Limits.Accounts.{
  AccountKey, AccountId, limit_account_id, same_account, MarkEntry, Mark, Snapshot, is_pool_account,
}

pub data ResetProvenance : Type 0 where
  unproven reading provider : ResetProvenance

pub record LimitProvenance : Type 0 where
  pub account_key : AccountKey
  pub expiry : JsNumber
  pub branch : ResetProvenance
  pub observed_at : JsNumber
  pub evidence_at : JsNumber

abbrev pub strength : ResetProvenance → ℕ
strength unproven = 0
strength reading = 1
strength provider = 2

abbrev pub entry_bound : ℕ
entry_bound = 256

abbrev pub Entries : Type 0
Entries = JsMap AccountId LimitProvenance

-- The class LimitProvenanceStore.
pub record ProvenanceStore : Type 0 where
  pub namespace : String
  pub entries : Entries

pub new_store : String → ProvenanceStore
new_store namespace = record { namespace = namespace; entries = [] }

-- `prune`, on the entries: a mark past its expiry is forgotten.
unfoldable pub prune : JsNumber → Entries → Entries
prune now entries = keep_if (λ p. not (num_le p.1.expiry now)) entries

-- The loop that finds the entry with the smallest `observedAt`, the first of equals.
pub oldest_from : Option AccountId → JsNumber → Entries → Option AccountId
oldest_from oldest observed_at [] = oldest
oldest_from oldest observed_at ((key, value) ∷ rest) =
    let earlier = num_lt value.observed_at observed_at in
    oldest_from (if earlier then some key else oldest)
      (if earlier then value.observed_at else observed_at) rest

abbrev pub drop_oldest : Option AccountId → Entries → Entries
drop_oldest none entries = entries
drop_oldest (some key) entries = delete key entries

-- What follows `this.entries.set`: past the bound, the oldest entry goes.
pub evict : Entries → Entries
unfolding oldest_from
evict entries =
    if leb (size entries) entry_bound
    then entries
    else drop_oldest (oldest_from none infinity entries) entries

-- An equal deadline cannot upgrade a timer that was originally a guess.
abbrev pub keeps_previous : Option LimitProvenance → LimitProvenance → Bool
keeps_previous none entry = false
keeps_previous (some previous) entry =
    num_eq previous.expiry entry.expiry && leb (strength previous.branch) (strength entry.branch)

abbrev pub has_finite_times : LimitProvenance → JsNumber → Bool
has_finite_times entry now =
    is_finite entry.expiry
    && (is_finite entry.observed_at && (is_finite entry.evidence_at && is_finite now))

-- `record` past its first two guards, from `this.prune(now)` on.
pub record_entry : LimitProvenance → JsNumber → Entries → Entries
unfolding prune evict
record_entry entry now entries =
    let pruned = prune now entries in
    let id = limit_account_id entry.account_key in
    if num_le entry.expiry now
    then pruned
    else if keeps_previous (get id pruned) entry
    then pruned
    else evict (set id entry pruned)

pub record_provenance : LimitProvenance → JsNumber → ProvenanceStore → ProvenanceStore
unfolding record_entry
record_provenance entry now store =
    if entry.account_key.namespace == store.namespace && has_finite_times entry now
    then record store { entries = record_entry entry now store.entries }
    else store

abbrev pub matching : JsNumber → JsNumber → Option LimitProvenance → Option LimitProvenance
matching expiry evidence_at none = none
matching expiry evidence_at (some entry) =
    if num_eq entry.expiry expiry && num_eq entry.evidence_at evidence_at then some entry else none

unfoldable pub read :
    AccountKey
    → JsNumber
    → JsNumber
    → JsNumber
    → ProvenanceStore
    → Option LimitProvenance × ProvenanceStore
unfolding prune
read account expiry evidence_at now store =
    let pruned = prune now store.entries in
    (
      matching expiry evidence_at (get (limit_account_id account) pruned),
      record store { entries = pruned },
    )

pub retire : AccountKey → ProvenanceStore → ProvenanceStore
retire account store = record store { entries = delete (limit_account_id account) store.entries }

pub clear : ProvenanceStore → ProvenanceStore
clear store = record store { entries = [] }

-- The test of `reconcile`: some live mark of the account carries the entry's expiry and evidence.
abbrev pub entry_backs : LimitProvenance → MarkEntry → Bool
entry_backs entry value =
    value.cause == "rate-limit"
    && (num_eq (finite value.until) entry.expiry
        && num_eq (finite value.evidence_at) entry.evidence_at)

abbrev pub mark_backs : LimitProvenance → Mark → Bool
mark_backs entry mark =
    same_account mark.key.account entry.account_key
    && (is_pool_account mark.key && any (entry_backs entry) mark.entries)

pub backed : Snapshot → LimitProvenance → Bool
backed snapshot entry = any (mark_backs entry) snapshot.marks

pub reconcile : Snapshot → JsNumber → ProvenanceStore → ProvenanceStore
unfolding prune backed
reconcile snapshot now store = record store {
  entries = keep_if (λ p. backed snapshot p.1) (prune now store.entries);
}

-- The calls that a lease makes on its store.
pub data ProvenanceCall : Type 0 where
  records : LimitProvenance → JsNumber → ProvenanceCall
  reads : AccountKey → JsNumber → JsNumber → JsNumber → ProvenanceCall
  retires : AccountKey → ProvenanceCall
  clears : ProvenanceCall
  reconciles : Snapshot → JsNumber → ProvenanceCall

pub call : ProvenanceCall → ProvenanceStore → ProvenanceStore
unfolding record_provenance read retire clear reconcile
call (records entry now) store = record_provenance entry now store
call (reads account expiry evidence_at now) store = (read account expiry evidence_at now store).1
call (retires account) store = retire account store
call clears store = clear store
call (reconciles snapshot now) store = reconcile snapshot now store

pub calls : List ProvenanceCall → ProvenanceStore → ProvenanceStore
unfolding call
calls [] store = store
calls (c ∷ cs) store = calls cs (call c store)
