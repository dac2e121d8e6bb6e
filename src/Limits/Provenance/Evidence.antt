-- ===== src/Limits/Provenance/Evidence.antt =====
-- What the evidence in a provenance store means: no guess is promoted, a read answers for the
-- expiry that it is asked about, and a reconciliation keeps what the registry still holds.
use native.Mathlib.Nat.{le_refl}
use openai_auth.Prelude.{
  ℕ, ◌≤◌, String, ◌≡◌, ◌↔◌, true, false, not, ◌&&◌, Option, none, some, List, [], ◌∷◌, JsNumber,
  is_finite, num_le, num_eq, leb, ◌==◌, string_eq, triple_eq, arith, eq_of_num_eq, num_eq_refl,
  if_intro,
}
use openai_auth.Prelude.JsMap.{size, get, set, get-set_self, get-delete, All-get}
use openai_auth.Prelude.JsMap.Unique.{IsUnique, get-keep_if-eq-some, keep_if-IsUnique}
use openai_auth.Limits.Accounts.{AccountKey, AccountId, limit_account_id, Snapshot}
use openai_auth.Limits.Provenance.{
  LimitProvenance, ProvenanceStore, Entries, strength, entry_bound, new_store, prune, oldest_from,
  drop_oldest, evict, keeps_previous, has_finite_times, record_entry, record_provenance, matching,
  read, reconcile, backed, ProvenanceCall, calls,
}
use openai_auth.Limits.Provenance.Laws.{IsOwned, IsSound, call-IsSound}

calls-IsSound_from :
    (cs : List ProvenanceCall) (store : ProvenanceStore) → IsSound store → IsSound (calls cs store)
unfolding calls
calls-IsSound_from [] store v = v
calls-IsSound_from (c ∷ cs) store v = calls-IsSound_from cs _ (call-IsSound c store v)

-- After any calls on a new store: at most 256 entries, one for an account, each under its own
-- account id, in the store's namespace and with finite times.
pub calls-IsSound :
    (namespace : String) (cs : List ProvenanceCall) → IsSound (calls cs (new_store namespace))
unfolding new_store
calls-IsSound namespace cs =
    calls-IsSound_from cs _ (record { bounded = omega arith; unique = tt; owned = tt })

get-drop_oldest :
    (k : AccountId) (o : Option AccountId) (m : Entries) (e : LimitProvenance)
    → get k (drop_oldest o m) ≡ some e
    → get k m ≡ some e
get-drop_oldest k none m e h = h
get-drop_oldest k (some j) m e h = ground (arith, get-delete k j m)

get-evict :
    (k : AccountId) (m : Entries) (e : LimitProvenance)
    → get k (evict m) ≡ some e
    → get k m ≡ some e
unfolding evict
get-evict k m e =
    if_intro (λ n. get k n ≡ some e → get k m ≡ some e) (leb (size m) entry_bound) _ _ (λ _ h. h)
      λ _ h. get-drop_oldest k (oldest_from none (JsNumber.infinity) m) m e h

get-prune :
    (id : AccountId) (now : JsNumber) (m : Entries) (e : LimitProvenance)
    → IsUnique m
    → get id m ≡ some e
    → num_le e.expiry now ≡ false
    → get id (prune now m) ≡ some e
unfolding prune
get-prune id now m e u had live =
    (get-keep_if-eq-some id e (λ p. not (num_le p.1.expiry now)) m u).1 (had, ground arith)

weaker_than :
    (previous entry : LimitProvenance)
    → previous.expiry ≡ entry.expiry
    → is_finite entry.expiry ≡ true
    → keeps_previous (some previous) entry ≡ false
    → strength entry.branch ≤ strength previous.branch
weaker_than previous entry same fin h =
    let equal : num_eq previous.expiry entry.expiry ≡ true = rw same (num_eq_refl _ fin) in
    le_of_leb_false (strength previous.branch) (strength entry.branch) (rw equal at h)
  where
    le_of_leb_false : (a b : ℕ) → leb a b ≡ false → b ≤ a
    le_of_leb_false a b h = ground arith

record_entry_no_upgrade :
    (entry previous after : LimitProvenance) (now : JsNumber) (m : Entries)
    → get (limit_account_id entry.account_key) (prune now m) ≡ some previous
    → previous.expiry ≡ entry.expiry
    → is_finite entry.expiry ≡ true
    → get (limit_account_id entry.account_key) (record_entry entry now m) ≡ some after
    → strength after.branch ≤ strength previous.branch
unfolding record_entry
record_entry_no_upgrade entry previous after now m had same fin =
    if_intro P (num_le entry.expiry now) _ _ (λ _. unchanged)
      λ _.
        if_intro P (keeps_previous (get id (prune now m)) entry) _ _ (λ _. unchanged)
          λ replaced h.
            let now_entry : after ≡ entry = cc (
              get-evict id (set id entry (prune now m)) after h,
              get-set_self id entry (prune now m),
            ) in
            rw now_entry (weaker_than previous entry same fin (rw had at replaced))
  where
    id : AccountId
    id = limit_account_id entry.account_key

    P : Entries → Type 0
    P n = get id n ≡ some after → strength after.branch ≤ strength previous.branch

    unchanged : P (prune now m)
    unchanged h = let same_entry : previous ≡ after = cc in rw same_entry (le_refl _)

-- In a sound store, while an account's entry is live, recording another with the same expiry never
-- leaves the account with stronger evidence than it had.
pub record_provenance_no_upgrade :
    (entry previous after : LimitProvenance) (now : JsNumber) (store : ProvenanceStore)
    → IsSound store
    → get (limit_account_id entry.account_key) store.entries ≡ some previous
    → num_le previous.expiry now ≡ false
    → previous.expiry ≡ entry.expiry
    → get (limit_account_id entry.account_key) (record_provenance entry now store).entries
      ≡ some after
    → strength after.branch ≤ strength previous.branch
unfolding record_provenance
record_provenance_no_upgrade entry previous after now store v had live same =
    if_intro P (entry.account_key.namespace == store.namespace && has_finite_times entry now) _ _
      (λ ok.
        record_entry_no_upgrade entry previous after now store.entries kept same (ground arith))
      λ _ h. let same_entry : previous ≡ after = cc in rw same_entry (le_refl _)
  where
    id : AccountId
    id = limit_account_id entry.account_key

    P : ProvenanceStore → Type 0
    P s = get id s.entries ≡ some after → strength after.branch ≤ strength previous.branch

    kept : get id (prune now store.entries) ≡ some previous
    kept = get-prune id now store.entries previous v.unique had live

matching-eq-some :
    (expiry evidence_at : JsNumber) (e : LimitProvenance) (o : Option LimitProvenance)
    → (matching expiry evidence_at o ≡ some e)
      ↔ ((o ≡ some e) × (num_eq e.expiry expiry ≡ true) × (num_eq e.evidence_at evidence_at ≡ true))
matching-eq-some expiry evidence_at e none = ground arith
matching-eq-some expiry evidence_at e (some f) = ground arith

-- A read of a sound store answers exactly with the account's entry, when it is live at `now` and has the expiry and
-- the evidence time that are asked for.
pub read_iff :
    (account : AccountKey) (expiry evidence_at now : JsNumber) (store : ProvenanceStore)
    (entry : LimitProvenance)
    → IsSound store
    → ((read account expiry evidence_at now store).0 ≡ some entry) ↔ (
        (get (limit_account_id account) store.entries ≡ some entry)
        × (num_le entry.expiry now ≡ false)
        × (entry.expiry ≡ expiry)
        × (entry.evidence_at ≡ evidence_at))
unfolding read prune
read_iff account expiry evidence_at now store entry v = (
  λ h.
      let (found, same_expiry, same_evidence) =
        (matching-eq-some expiry evidence_at entry (get id (prune now store.entries))).0 h in
      let (had, live) = pruned.0 found in
      (
        had,
        ground arith,
        eq_of_num_eq entry.expiry expiry same_expiry,
        eq_of_num_eq entry.evidence_at evidence_at same_evidence,
      ),
  λ (had, live, same_expiry, same_evidence).
      let owned = All-get (IsOwned store.namespace) id entry store.entries v.owned had in
      (matching-eq-some expiry evidence_at entry (get id (prune now store.entries))).1 (
        pruned.1 (had, ground arith),
        rw (← same_expiry) (num_eq_refl entry.expiry owned.2),
        rw (← same_evidence) (num_eq_refl entry.evidence_at owned.4),
      ),
)
  where
    id : AccountId
    id = limit_account_id account

    pruned :
        (get id (prune now store.entries) ≡ some entry)
        ↔ ((get id store.entries ≡ some entry) × (not (num_le entry.expiry now) ≡ true))
    pruned = get-keep_if-eq-some id entry (λ p. not (num_le p.1.expiry now)) store.entries v.unique

-- A reconciliation of a sound store leaves an account with exactly the entry that it had, when that entry is live at
-- `now` and a mark of the snapshot carries its expiry and evidence time.
pub reconcile_iff :
    (id : AccountId) (snapshot : Snapshot) (now : JsNumber) (store : ProvenanceStore)
    (entry : LimitProvenance)
    → IsSound store
    → (get id (reconcile snapshot now store).entries ≡ some entry) ↔ (
        (get id store.entries ≡ some entry)
        × (num_le entry.expiry now ≡ false)
        × (backed snapshot entry ≡ true))
unfolding reconcile prune
reconcile_iff id snapshot now store entry v = ground (
  arith,
  get-keep_if-eq-some id entry (λ p. backed snapshot p.1) (prune now store.entries)
      (keep_if-IsUnique _ store.entries v.unique),
  get-keep_if-eq-some id entry (λ p. not (num_le p.1.expiry now)) store.entries v.unique,
)
