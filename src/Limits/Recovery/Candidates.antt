-- ===== src/Limits/Recovery/Candidates.antt =====
-- Which evidence the latch offers to a probe of an account.
use openai_auth.Prelude.{
  ℕ, ◌≤◌, ◌<◌, ◌≡◌, refl, ◌⊎◌, inl, inr, Bool, true, false, ◌&&◌, Option, none, some, [], ◌∷◌, leb,
  if◌then◌else◌, ◌==◌, nat_eq, string_eq, triple_eq, All, All-both, subst, String, arith,
  Bool-cases,
}
use openai_auth.Prelude.JsMap.{has, All-has}
use openai_auth.Limits.Accounts.{AccountId, IdentityBinding, limit_account_id}
use openai_auth.Limits.Recovery.{
  Evidence, RecoveryEvidence, evidence_id, EvidenceMap, Latch, better, candidate_from,
  with_generation, candidate,
}
use openai_auth.Limits.Recovery.Bounds.{IsFresh, IsSound}

-- Expired evidence of the account.
abbrev pub offered : AccountId → ℕ → Evidence → Bool
offered account now e = limit_account_id e.account == account && leb e.until now

-- No later expiry, and on the same expiry no later evidence.
abbrev pub AtMost : Evidence → Evidence → Type 0
AtMost e f = (e.until < f.until) ⊎ ((e.until ≡ f.until) × (e.evidence_at ≤ f.evidence_at))

AtMost-trans : (e f g : Evidence) → AtMost e f → AtMost f g → AtMost e g
AtMost-trans e f g h k = ground arith

AtMost-of_better : (e f : Evidence) → better e (some f) ≡ true → AtMost f e
AtMost-of_better e f h = ground arith

AtMost-of_not_better : (e f : Evidence) → better e (some f) ≡ false → AtMost e f
AtMost-of_not_better e f h = ground arith

abbrev Below : Evidence → Option Evidence → Type 0
Below e none = ⊥
Below e (some f) = AtMost e f

module _ (account : AccountId) (now : ℕ) where
  abbrev pick : Evidence → Option Evidence → Option Evidence
  pick e result = if offered account now e && better e result then some e else result

  pick-Below_self :
      (e : Evidence) (result : Option Evidence)
      → offered account now e ≡ true
      → Below e (pick e result)
  pick-Below_self e none o = rw o (inr (refl, omega arith))
  pick-Below_self e (some f) o = elim (Bool-cases (better e (some f))) [
    | inl yes_better ↦ rw (o, yes_better) (inr (refl, omega arith))
    | inr not_better ↦ rw (o, not_better) (AtMost-of_not_better e f not_better)
  ]

  pick-Below :
      (e g : Evidence) (result : Option Evidence) → Below g result → Below g (pick e result)
  pick-Below e g none b = absurd b
  pick-Below e g (some f) b = elim (Bool-cases (offered account now e && better e (some f))) [
    | inl taken ↦ rw taken (AtMost-trans g f e b (AtMost-of_better e f (ground arith)))
    | inr left ↦ rw left b
  ]

  candidate_from-Below :
      (m : EvidenceMap) (g : Evidence) (result : Option Evidence)
      → Below g result
      → Below g (candidate_from account now result m)
  unfolding candidate_from
  candidate_from-Below [] g result b = b
  candidate_from-Below ((id, e) ∷ m) g result b =
      candidate_from-Below m g (pick e result) (pick-Below e g result b)

  -- Nothing offered exceeds what the loop finds.
  candidate_from_maximal :
      (m : EvidenceMap) (result : Option Evidence)
      → All
          (λ p. offered account now p.1 ≡ true → Below p.1 (candidate_from account now result m))
          m
  unfolding candidate_from
  candidate_from_maximal [] result = tt
  candidate_from_maximal ((id, e) ∷ m) result = (
    λ o. candidate_from-Below m e (pick e result) (pick-Below_self e result o),
    candidate_from_maximal m (pick e result),
  )

  -- What holds of all that is offered holds of what is found.
  candidate_from-All {ℓ} :
      (P : Evidence → Type ℓ) (m : EvidenceMap) (result : Option Evidence) (e : Evidence)
      → ((f : Evidence) → result ≡ some f → P f)
      → All (λ p. offered account now p.1 ≡ true → P p.1) m
      → candidate_from account now result m ≡ some e
      → P e
  unfolding candidate_from
  candidate_from-All P [] result e start h found = start e found
  candidate_from-All P ((id, g) ∷ m) result e start h found =
      candidate_from-All P m (pick g result) e next h.1 found
    where
      next : (f : Evidence) → pick g result ≡ some f → P f
      next f q = elim (Bool-cases (offered account now g && better g result)) [
        | inl taken ↦ let same : g ≡ f = ground arith in rw (← same) (h.0 (ground arith))
        | inr left ↦ start f (ground arith)
      ]

with_generation-eq-some :
    (generation : Option String) (result : Option Evidence) (r : RecoveryEvidence)
    → with_generation generation result ≡ some r
    → (generation ≡ some r.generation) × (result ≡ some r.evidence)
with_generation-eq-some none result r h = absurd (ground arith)
with_generation-eq-some (some g) none r h = absurd (ground arith)
with_generation-eq-some (some g) (some e) r h = ground arith

-- What a candidate is: staged evidence of the account that has expired and was never consumed.
pub record IsCandidate (account : AccountId) (now : ℕ) (latch : Latch) (r : RecoveryEvidence)
    : Type 0 where
  pub armed : latch.exhausted ≡ false
  pub current : latch.generation ≡ some r.generation
  pub due : offered account now r.evidence ≡ true
  pub staged : has (evidence_id r.evidence) latch.staged ≡ true
  pub unused : has (evidence_id r.evidence) latch.consumed ≡ false
  pub latest : All (λ p. offered account now p.1 ≡ true → AtMost p.1 r.evidence) latch.staged

-- A candidate of a sound latch for an account is staged evidence of that account, expired at `now`, of the latch's
-- generation and never consumed, and no other expired staged evidence of the account has a later
-- expiry, or the same expiry with later evidence. An exhausted latch has no candidate.
pub candidate-IsCandidate :
    (binding : IdentityBinding) (now : ℕ) (latch : Latch) (r : RecoveryEvidence)
    → IsSound latch
    → candidate binding now latch ≡ some r
    → IsCandidate (limit_account_id binding.account) now latch r
unfolding candidate
candidate-IsCandidate binding now latch r v h = record {
  armed = armed;
  current = parts.0;
  due = about.0;
  staged = about.1;
  unused = about.2;
  latest =
      subst (λ o. All (λ p. offered account now p.1 ≡ true → Below p.1 o) latch.staged) parts.1
        (candidate_from_maximal account now latch.staged none);
}
  where
    account : AccountId
    account = limit_account_id binding.account

    armed : latch.exhausted ≡ false
    armed = ground arith

    parts :
        (latch.generation ≡ some r.generation)
        × (candidate_from account now none latch.staged ≡ some r.evidence)
    parts = with_generation-eq-some latch.generation _ r (rw armed at h)

    P : Evidence → Type 0
    P e =
        (offered account now e ≡ true)
        × (has (evidence_id e) latch.staged ≡ true)
        × (has (evidence_id e) latch.consumed ≡ false)

    about : P r.evidence
    about =
        candidate_from-All account now P latch.staged none r.evidence (λ f q. absurd (cc))
          (All-both (λ p. has p.0 latch.staged ≡ true) (IsFresh latch.consumed)
            (λ p. offered account now p.1 ≡ true → P p.1) latch.staged
            (λ p inside f o. (o, rw (← f.0) inside, rw (← f.0) f.1)) (All-has latch.staged) v.fresh)
          parts.1
