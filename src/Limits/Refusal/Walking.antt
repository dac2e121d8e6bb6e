-- ===== src/Limits/Refusal/Walking.antt =====
-- packages/core/src/quota-refusal.ts: what a walk over an account keeps, and the releases that it finds.
use openai_auth.Prelude.{
  ℕ, ◌≡◌, refl, ◌∙◌, inl, inr, ◌⊎◌, Bool, true, ◌&&◌, not, Option, none, some, List, [], ◌∷◌, ◌++◌,
  In, All, if_intro, Bool-cases, is_some, leb, keep_if, finite, num_le,
}
use openai_auth.Limits.Accounts.{AccountKey}
use openai_auth.Limits.Provenance.{ProvenanceStore, prune, read}
use openai_auth.Quota.{QuotaWindow}
use openai_auth.Limits.Policy.{LimitWindow, fresh_quota_evidence}
use openai_auth.Limits.Refusal.{
  below_floor, reading_matches, TerminalMark, OpenAiTerminalAccount, Found, see_window,
  see_blockers, see_reading, live_until, proof_time, read_store, add_mark, see_live_mark, see_marks,
}

keep_if_twice : {A : Type 0} (p : A → Bool) (xs : List A) → keep_if p (keep_if p xs) ≡ keep_if p xs
keep_if_twice p [] = refl
keep_if_twice p (x ∷ xs) = elim (Bool-cases (p x)) [
  | inl e ↦ rw (e, e, keep_if_twice p xs) refl
  | inr e ↦ rw e (keep_if_twice p xs)
]

-- Both stores answer every read at `now` alike.
abbrev pub SameReads : ℕ → Option ProvenanceStore → Option ProvenanceStore → Type 0
SameReads now s t =
    (account : AccountKey) (mark : TerminalMark)
    → (read_store account mark now s).0 ≡ (read_store account mark now t).0

-- A read forgets only what no later read at the same time would find.
read_store-SameReads :
    (account : AccountKey) (mark : TerminalMark) (now : ℕ) (s : Option ProvenanceStore)
    → SameReads now (read_store account mark now s).1 s
unfolding read prune
read_store-SameReads account mark now none other m = refl
read_store-SameReads account mark now (some store) other m =
    rw (keep_if_twice (λ p. not (num_le p.1.expiry (finite now))) store.entries) refl

In-append : (u : ℕ) (xs ys : List ℕ) → In u xs → In u (xs ++ ys)
In-append u (x ∷ xs) ys (inl e) = inl e
In-append u (x ∷ xs) ys (inr i) = inr (In-append u xs ys i)
In-append u [] ys i = absurd i

In-last : (u : ℕ) (xs : List ℕ) → In u (xs ++ u ∷ [])
In-last u [] = inl refl
In-last u (x ∷ xs) = inr (In-last u xs)

-- Guesses stay, and the store answers as `s` does.
pub record Walks (now : ℕ) (s : Option ProvenanceStore) (before after : Found) : Type 0 where
  pub grows : (u : ℕ) → In u before.guesses → In u after.guesses
  pub same : SameReads now before.store s → SameReads now after.store s

pub Walks-then :
    (now : ℕ) (s : Option ProvenanceStore) (a b c : Found)
    → Walks now s a b
    → Walks now s b c
    → Walks now s a c
Walks-then now s a b c p q = record {
  grows = λ u i. q.grows u (p.grows u i);
  same = λ h. q.same (p.same h);
}

pub Walks-at :
    (now : ℕ) (s : Option ProvenanceStore) (a b : Found)
    → b.guesses ≡ a.guesses
    → b.store ≡ a.store
    → Walks now s a b
Walks-at now s a b e f = record { grows = λ u i. rw e i; same = λ h. rw f h }

-- The release of a mark that still runs is a guess, or the store proves it.
abbrev pub Accounted : ℕ → Option ProvenanceStore → AccountKey → List ℕ → TerminalMark → Type 0
Accounted now s account guesses mark =
    (u : ℕ)
    → live_until mark.until now ≡ some u
    → In u guesses ⊎ (is_some (proof_time (read_store account mark now s).0 now) ≡ true)

module _ (now : ℕ) (s : Option ProvenanceStore) where
  see_window-Walks :
      (name : _) (window : Option QuotaWindow) (floor : Option ℕ) (found : Found)
      → Walks now s found (see_window name window floor now found)
  see_window-Walks name none floor found = Walks-at now s found found refl refl
  see_window-Walks name (some window) floor found =
      if_intro (Walks now s found) (below_floor window.remaining_percent floor) _ _
        (λ _. Walks-at now s found _ refl refl)
        (λ _.
          if_intro (Walks now s found)
            (fresh_quota_evidence window.checked_at now && leb 100 window.used_percent) _ found
            (λ _. Walks-at now s found _ refl refl) (λ _. Walks-at now s found found refl refl))

  see_blockers-Walks :
      (blockers : List LimitWindow) (found : Found)
      → Walks now s found (see_blockers blockers now found)
  unfolding see_blockers
  see_blockers-Walks [] found = Walks-at now s found found refl refl
  see_blockers-Walks (b ∷ blockers) found =
      Walks-then now s found _ _
        (if_intro (Walks now s found) (b.confirmed && fresh_quota_evidence b.observed_at now) _
          found (λ _. Walks-at now s found _ refl refl) (λ _. Walks-at now s found found refl refl))
        (see_blockers-Walks blockers _)

  pub see_reading-Walks :
      (row : OpenAiTerminalAccount) (found : Found) → Walks now s found (see_reading row now found)
  see_reading-Walks row found =
      if_intro (Walks now s found) (reading_matches row) _ found
        (λ _.
          Walks-then now s found _ _
            (Walks-then now s found _ _ (see_window-Walks "primary" _ row.floors.primary found)
              (see_window-Walks "secondary" _ row.floors.secondary _))
            (see_blockers-Walks row.confirmed_blockers _))
        (λ _. Walks-at now s found found refl refl)

  add_mark-Walks :
      (until : ℕ) (p : Option ℕ) (found : Found) → Walks now s found (add_mark until p found)
  add_mark-Walks until none found = record {
    grows = λ u i. In-append u found.guesses (until ∷ []) i;
    same = λ h. h;
  }
  add_mark-Walks until (some observed) found = Walks-at now s found _ refl refl

  see_live_mark-Walks :
      (account : AccountKey) (mark : TerminalMark) (o : Option ℕ) (found : Found)
      → Walks now s found (see_live_mark account mark o now found)
  see_live_mark-Walks account mark none found = Walks-at now s found found refl refl
  see_live_mark-Walks account mark (some until) found =
      Walks-then now s found _ _
        (record {
          grows = λ u i. i;
          same = λ h other m. read_store-SameReads account mark now found.store other m ∙ h other m;
        })
        (add_mark-Walks until _
          (record found { store = (read_store account mark now found.store).1 }))

  add_mark-Accounted :
      (until : ℕ) (p : Option ℕ) (found : Found)
      → In until (add_mark until p found).guesses ⊎ (is_some p ≡ true)
  add_mark-Accounted until none found = inl (In-last until found.guesses)
  add_mark-Accounted until (some observed) found = inr refl

  see_live_mark-Accounted :
      (account : AccountKey) (mark : TerminalMark) (o : Option ℕ) (found : Found)
      → live_until mark.until now ≡ o
      → SameReads now found.store s
      → Accounted now s account (see_live_mark account mark o now found).guesses mark
  see_live_mark-Accounted account mark none found e h u f = absurd (cc)
  see_live_mark-Accounted account mark (some until) found e h u f =
      let at : until ≡ u = cc in
      rw⁻¹ at (
        rw⁻¹ (h account mark) (
          add_mark-Accounted until (proof_time (read_store account mark now found.store).0 now)
            (record found { store = (read_store account mark now found.store).1 })))

  pub Accounted-grows :
      (account : AccountKey) (before after : Found) (mark : TerminalMark)
      → Walks now s before after
      → Accounted now s account before.guesses mark
      → Accounted now s account after.guesses mark
  Accounted-grows account before after mark w a u e = or_grown (a u e)
    where
      or_grown : {B : Type 0} → In u before.guesses ⊎ B → In u after.guesses ⊎ B
      or_grown (inl i) = inl (w.grows u i)
      or_grown (inr b) = inr b

  pub see_marks-Walks :
      (account : AccountKey) (marks : List TerminalMark) (found : Found)
      → Walks now s found (see_marks account marks now found)
  unfolding see_marks
  see_marks-Walks account [] found = Walks-at now s found found refl refl
  see_marks-Walks account (mark ∷ marks) found =
      Walks-then now s found _ _
        (see_live_mark-Walks account mark (live_until mark.until now) found)
        (see_marks-Walks account marks _)

  pub see_marks-Accounted :
      (account : AccountKey) (marks : List TerminalMark) (found : Found)
      → SameReads now found.store s
      → All (Accounted now s account (see_marks account marks now found).guesses) marks
  unfolding see_marks
  see_marks-Accounted account [] found h = tt
  see_marks-Accounted account (mark ∷ marks) found h =
      let next = see_live_mark account mark (live_until mark.until now) now found in
      (
        Accounted-grows account next _ mark (see_marks-Walks account marks next)
            (see_live_mark-Accounted account mark (live_until mark.until now) found refl h),
        see_marks-Accounted account marks next
            ((see_live_mark-Walks account mark (live_until mark.until now) found).same h),
      )
