-- ===== src/Limits/Provenance/Laws.antt =====
-- What a provenance store keeps: at most 256 entries, one for an account, all of its namespace.
use openai_auth.Prelude.{
  ◌+◌, ◌≤◌, String, ◌≡◌, refl, ◌⊎◌, inl, inr, Bool, true, Option, none, some, [], ◌∷◌, JsNumber,
  infinity, is_finite, num_lt, num_le, leb, ◌==◌, string_eq, triple_eq, is_some, keep_if,
  length-keep_if, All, All-keep_if_of_All, arith, eq_of_==, Bool-cases, if_intro, ◌&&◌,
}
use openai_auth.Prelude.JsMap.{
  size, get, has, has-cons, has-cons_self, set, size-set, size-delete, All-set, All-delete,
}
use openai_auth.Prelude.JsMap.Unique.{
  IsUnique, set-IsUnique, delete-IsUnique, keep_if-IsUnique, size-delete-has,
}
use openai_auth.Limits.Accounts.{AccountId, limit_account_id}
use openai_auth.Limits.Provenance.{
  LimitProvenance, ProvenanceStore, Entries, entry_bound, prune, oldest_from, drop_oldest, evict,
  keeps_previous, has_finite_times, record_entry, record_provenance, read, retire, clear, reconcile,
  ProvenanceCall, records, reads, retires, clears, reconciles, call,
}

-- An entry stands under its own account, in the store's namespace, with finite times.
abbrev pub IsOwned : String → AccountId × LimitProvenance → Type 0
IsOwned namespace (id, entry) =
    (id ≡ limit_account_id entry.account_key)
    × (entry.account_key.namespace ≡ namespace)
    × (is_finite entry.expiry ≡ true)
    × (is_finite entry.observed_at ≡ true)
    × (is_finite entry.evidence_at ≡ true)

pub record IsSound (store : ProvenanceStore) : Type 0 where
  pub bounded : size store.entries ≤ entry_bound
  pub unique : IsUnique store.entries
  pub owned : All (IsOwned store.namespace) store.entries

oldest_from-some :
    (m : Entries) (best : Option AccountId) (at : JsNumber)
    → is_some best ≡ true
    → is_some (oldest_from best at m) ≡ true
unfolding oldest_from
oldest_from-some [] best at h = h
oldest_from-some ((k, v) ∷ m) best at h = oldest_from-some m _ _ (ground arith)

abbrev IsFrom : Option AccountId → Option AccountId → Entries → Type 0
IsFrom found best m = (found ≡ best) ⊎ ((k : AccountId) × (found ≡ some k) × (has k m ≡ true))

IsFrom-cons :
    {found best : Option AccountId} (p : AccountId × LimitProvenance) (m : Entries)
    → IsFrom found best m
    → IsFrom found best (p ∷ m)
IsFrom-cons p m (inl same) = inl same
IsFrom-cons p m (inr (k, found, inside)) = inr (k, found, has-cons k p m inside)

oldest_from_cases :
    (m : Entries) (best : Option AccountId) (at : JsNumber) → IsFrom (oldest_from best at m) best m
unfolding oldest_from
oldest_from_cases [] best at = inl refl
oldest_from_cases ((k, v) ∷ m) best at = elim (Bool-cases (num_lt v.observed_at at)) [
  | inl earlier ↦ rw earlier (chosen (oldest_from_cases m (some k) v.observed_at))
  | inr later ↦ rw later (IsFrom-cons (k, v) m (oldest_from_cases m best at))
]
  where
    chosen : {found : Option AccountId} → IsFrom found (some k) m → IsFrom found best ((k, v) ∷ m)
    chosen (inl same) = inr (k, same, has-cons_self k v m)
    chosen (inr (j, found, inside)) = inr (j, found, has-cons j (k, v) m inside)

-- The loop finds an entry of any map that is not empty.
oldest_from-has :
    (namespace : String) (p : AccountId × LimitProvenance) (m : Entries)
    → All (IsOwned namespace) (p ∷ m)
    → (k : AccountId) × (oldest_from none infinity (p ∷ m) ≡ some k) × (has k (p ∷ m) ≡ true)
unfolding oldest_from
oldest_from-has namespace (i, v) m h =
    found (oldest_from_cases ((i, v) ∷ m) none infinity) (oldest_from-some m _ _ (ground arith))
  where
    found :
        {o : Option AccountId}
        → IsFrom o none ((i, v) ∷ m)
        → is_some o ≡ true
        → (k : AccountId) × (o ≡ some k) × (has k ((i, v) ∷ m) ≡ true)
    found (inl empty) some_key = absurd (ground arith)
    found (inr hit) some_key = hit

evict-bounded :
    (namespace : String) (m : Entries)
    → All (IsOwned namespace) m
    → size m ≤ entry_bound + 1
    → size (evict m) ≤ entry_bound
unfolding evict
evict-bounded namespace [] h b = omega arith
evict-bounded namespace (p ∷ m) h b =
    let (k, found, inside) = oldest_from-has namespace p m h in
    ground (arith, size-delete-has k (p ∷ m))

evict-IsOwned :
    (namespace : String) (m : Entries)
    → All (IsOwned namespace) m
    → All (IsOwned namespace) (evict m)
unfolding evict
evict-IsOwned namespace m h = elim (Bool-cases (leb (size m) entry_bound)) [
  | inl fits ↦ rw fits h
  | inr over ↦ rw over (dropped (oldest_from none infinity m))
]
  where
    dropped : (o : Option AccountId) → All (IsOwned namespace) (drop_oldest o m)
    dropped none = h
    dropped (some k) = All-delete (IsOwned namespace) k m h

evict-IsUnique : (m : Entries) → IsUnique m → IsUnique (evict m)
unfolding evict
evict-IsUnique m u = elim (Bool-cases (leb (size m) entry_bound)) [
  | inl fits ↦ rw fits u
  | inr over ↦ rw over (dropped (oldest_from none infinity m))
]
  where
    dropped : (o : Option AccountId) → IsUnique (drop_oldest o m)
    dropped none = u
    dropped (some k) = delete-IsUnique k m u

keep_if-IsSound :
    (p : AccountId × LimitProvenance → Bool) (store : ProvenanceStore)
    → IsSound store
    → IsSound (record store { entries = keep_if p store.entries })
keep_if-IsSound p store v = record {
  bounded = omega (arith, length-keep_if p store.entries, v.bounded);
  unique = keep_if-IsUnique p store.entries v.unique;
  owned = All-keep_if_of_All (IsOwned store.namespace) p store.entries v.owned;
}

set-evict-IsSound :
    (entry : LimitProvenance) (namespace : String) (m : Entries)
    → IsOwned namespace (limit_account_id entry.account_key, entry)
    → IsSound (record { namespace = namespace; entries = m })
    → IsSound (record {
      namespace = namespace;
      entries = evict (set (limit_account_id entry.account_key) entry m);
    })
set-evict-IsSound entry namespace m o v =
    let id = limit_account_id entry.account_key in
    let all = All-set (IsOwned namespace) id entry m o v.owned in
    record {
      bounded =
          evict-bounded namespace (set id entry m) all
            (omega (arith, size-set id entry m, v.bounded));
      unique = evict-IsUnique _ (set-IsUnique id entry m v.unique);
      owned = evict-IsOwned namespace _ all;
    }

record_provenance-IsSound :
    (entry : LimitProvenance) (now : JsNumber) (store : ProvenanceStore)
    → IsSound store
    → IsSound (record_provenance entry now store)
unfolding record_provenance record_entry prune
record_provenance-IsSound entry now store v =
    if_intro IsSound (entry.account_key.namespace == store.namespace && has_finite_times entry now)
      _ _ (λ ok. accepted ok) λ _. v
  where
    pruned : Entries
    pruned = prune now store.entries

    pruned-IsSound : IsSound (record store { entries = pruned })
    pruned-IsSound = keep_if-IsSound _ store v

    In : Entries → Type 0
    In m = IsSound (record store { entries = m })

    accepted :
        (entry.account_key.namespace == store.namespace && has_finite_times entry now) ≡ true
        → IsSound (record store { entries = record_entry entry now store.entries })
    accepted ok =
        if_intro In (num_le entry.expiry now) _ _ (λ _. pruned-IsSound)
          λ _.
            if_intro In (keeps_previous (get (limit_account_id entry.account_key) pruned) entry) _ _
              (λ _. pruned-IsSound)
              λ _.
                set-evict-IsSound entry store.namespace pruned
                  (
                    refl,
                    eq_of_== entry.account_key.namespace store.namespace (ground arith),
                    ground arith,
                    ground arith,
                    ground arith,
                  )
                  pruned-IsSound

pub call-IsSound :
    (c : ProvenanceCall) (store : ProvenanceStore) → IsSound store → IsSound (call c store)
unfolding call read retire clear reconcile prune
call-IsSound (records entry now) store v = record_provenance-IsSound entry now store v
call-IsSound (reads account expiry evidence_at now) store v = keep_if-IsSound _ store v
call-IsSound (retires account) store v = record {
  bounded = omega (arith, size-delete (limit_account_id account) store.entries, v.bounded);
  unique = delete-IsUnique _ store.entries v.unique;
  owned = All-delete (IsOwned store.namespace) _ store.entries v.owned;
}
call-IsSound clears store v = record { bounded = omega arith; unique = tt; owned = tt }
call-IsSound (reconciles snapshot now) store v =
    keep_if-IsSound _ (record store { entries = _ }) (keep_if-IsSound _ store v)
