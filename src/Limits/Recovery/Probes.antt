-- ===== src/Limits/Recovery/Probes.antt =====
-- What a successful probe consumes, once.
use openai_auth.Prelude.{
  ℕ, ◌≡◌, refl, inl, inr, Bool, true, false, ◌&&◌, ◌||◌, not, Option, none, some, String, [], ◌∷◌,
  if◌then◌else◌, ◌==◌, nat_eq, string_eq, triple_eq, option_eq, All, All-imp, arith, Option-cases,
  ap, ==_of_eq, sym, ==_comm,
}
use openai_auth.Prelude.JsMap.{
  get, has, set, delete, get-set, get-delete, All-delete_ne, All-get, has-keep_if,
}
use openai_auth.Limits.Accounts.{AccountId, IdentityBinding, limit_account_id}
use openai_auth.Limits.Recovery.{
  Evidence, RecoveryEvidence, EvidenceId, evidence_id, EvidenceMap, Latch, candidate_from,
  with_generation, candidate, move_all, of_account, consumable, consume,
}
use openai_auth.Limits.Recovery.Bounds.{IsFresh, IsSound}

get-move_all_staged :
    (m : EvidenceMap) (k : EvidenceId) (latch : Latch)
    → get k (move_all m latch).staged ≡ (if has k m then none else get k latch.staged)
unfolding move_all get
get-move_all_staged [] k latch = refl
get-move_all_staged ((key, e) ∷ m) k latch = ground (
  arith,
  get-move_all_staged m k
      (record latch { consumed = set key e latch.consumed; staged = delete key latch.staged }),
  get-delete k key latch.staged,
)

has-move_all_consumed :
    (m : EvidenceMap) (k : EvidenceId) (latch : Latch)
    → has k (move_all m latch).consumed ≡ (has k m || has k latch.consumed)
unfolding move_all get
has-move_all_consumed [] k latch = refl
has-move_all_consumed ((key, e) ∷ m) k latch = ground (
  arith,
  has-move_all_consumed m k
      (record latch { consumed = set key e latch.consumed; staged = delete key latch.staged }),
  get-set k key e latch.consumed,
)

-- What stays staged has another key than all that was moved.
All-move_all {ℓ} :
    (m : EvidenceMap) (P : EvidenceId × Evidence → Type ℓ) (latch : Latch)
    → All P latch.staged
    → All (λ p. P p × (has p.0 m ≡ false)) (move_all m latch).staged
unfolding move_all get
All-move_all [] P latch h =
    All-imp P (λ p. P p × (has {V = Evidence} p.0 [] ≡ false)) latch.staged (λ p q. (q, refl)) h
All-move_all ((key, e) ∷ m) P latch h =
    All-imp (λ p. (P p × ((p.0 == key) ≡ false)) × (has p.0 m ≡ false))
      (λ p. P p × (has p.0 ((key, e) ∷ m) ≡ false)) _
      (λ p q. (q.0.0, ground (arith, ==_comm p.0 key, q.0.1, q.1)))
      (All-move_all m (λ p. P p × ((p.0 == key) ≡ false)) _
        (All-delete_ne P (λ p. P p × ((p.0 == key) ≡ false)) key latch.staged (λ p q r. (q, r)) h))

-- An entry of the account stays staged nowhere.
moved-other :
    (account : AccountId) (latch : Latch)
    → All
        (λ p. (limit_account_id p.1.account == account) ≡ false)
        (move_all (of_account account latch.staged) latch).staged
moved-other account latch =
    All-imp (λ p. Selected p × (has p.0 same ≡ false))
      (λ p. (limit_account_id p.1.account == account) ≡ false) _ (λ p q. ground (arith, q.0, q.1))
      (All-move_all same Selected latch
        (has-keep_if (λ p. limit_account_id p.1.account == account) latch.staged))
  where
    same : EvidenceMap
    same = of_account account latch.staged

    Selected : EvidenceId × Evidence → Type 0
    Selected p = (limit_account_id p.1.account == account) ≡ true → has p.0 same ≡ true

candidate_from-none :
    (account : AccountId) (now : ℕ) (m : EvidenceMap)
    → All (λ p. (limit_account_id p.1.account == account) ≡ false) m
    → candidate_from account now none m ≡ none
unfolding candidate_from
candidate_from-none account now [] h = refl
candidate_from-none account now ((id, e) ∷ m) h = rw h.0 (candidate_from-none account now m h.1)

with_generation-none : (generation : Option String) → with_generation generation none ≡ none
with_generation-none none = refl
with_generation-none (some g) = refl

-- The evidence itself is among what is selected, for it stands under its own id.
selected-has :
    (r : RecoveryEvidence) (latch : Latch)
    → IsSound latch
    → consumable r latch ≡ true
    → has (evidence_id r.evidence) (of_account (limit_account_id r.evidence.account) latch.staged)
      ≡ true
selected-has r latch v ok = elim (Option-cases (get (evidence_id r.evidence) latch.staged)) [
  | inl missing ↦ absurd (ground arith)
  | inr (e, found) ↦
      let fresh =
        All-get (IsFresh latch.consumed) (evidence_id r.evidence) e latch.staged v.fresh found in
      All-get (λ p. (limit_account_id p.1.account == account) ≡ true → has p.0 same ≡ true)
        (evidence_id r.evidence) e latch.staged
        (has-keep_if (λ p. limit_account_id p.1.account == account) latch.staged) found
        (same_account_of e fresh.0)
]
  where
    account : AccountId
    account = limit_account_id r.evidence.account

    same : EvidenceMap
    same = of_account account latch.staged

    same_account_of :
        (e : Evidence)
        → evidence_id r.evidence ≡ evidence_id e
        → (limit_account_id e.account == account) ≡ true
    same_account_of e q = ==_of_eq _ _ (ap (λ (i : EvidenceId). i.0) (sym q))

consume-moves :
    (r : RecoveryEvidence) (latch after : Latch)
    → consume r latch ≡ (true, after)
    → (consumable r latch ≡ true)
      × (after ≡ move_all (of_account (limit_account_id r.evidence.account) latch.staged) latch)
unfolding consume
consume-moves r latch after h = ground arith

never : (a b c d : Bool) → d ≡ true → (not a && (b && (c && not d))) ≡ false
never a b c d h = ground arith

-- After evidence of an account is consumed from a sound latch, the account has no candidate at any
-- time, the evidence is recorded as consumed, and consuming it again is refused and changes nothing.
pub consume_once :
    (r : RecoveryEvidence) (binding : IdentityBinding) (now : ℕ) (latch after : Latch)
    → IsSound latch
    → limit_account_id binding.account ≡ limit_account_id r.evidence.account
    → consume r latch ≡ (true, after)
    → (candidate binding now after ≡ none)
      × (has (evidence_id r.evidence) after.consumed ≡ true)
      × (consume r after ≡ (false, after))
unfolding consume candidate
consume_once r binding now latch after v same h =
    (ground (arith, none_left, with_generation-none after.generation), used, rw refused)
  where
    account : AccountId
    account = limit_account_id r.evidence.account

    id : EvidenceId
    id = evidence_id r.evidence

    moved : after ≡ move_all (of_account account latch.staged) latch
    moved = (consume-moves r latch after h).1

    none_left : candidate_from (limit_account_id binding.account) now none after.staged ≡ none
    none_left =
        rw (same, moved)
          (candidate_from-none account now (move_all (of_account account latch.staged) latch).staged
            (moved-other account latch))

    used : has id after.consumed ≡ true
    used = rw moved (
        ground (
          arith,
          has-move_all_consumed (of_account account latch.staged) id latch,
          selected-has r latch v (consume-moves r latch after h).0,
        ))

    refused : consumable r after ≡ false
    refused =
        never (after.exhausted) (some r.generation == after.generation) (has id after.staged)
          (has id after.consumed) used
