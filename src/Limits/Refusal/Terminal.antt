-- ===== src/Limits/Refusal/Terminal.antt =====
-- packages/core/src/quota-refusal.ts: a later reset does not hide a sooner release that is a guess.
use openai_auth.Prelude.{
  ℕ, ◌≤◌, ◌≡◌, refl, inl, inr, true, false, Option, none, some, List, [], ◌∷◌, All, All-imp, arith,
  if_intro, Bool-cases, Option-cases, any, ltb,
}
use openai_auth.Limits.Accounts.{AccountKey}
use openai_auth.Limits.Provenance.{ProvenanceStore}
use openai_auth.Limits.Refusal.{
  OpenAiTerminalAccount, TerminalCandidate, Found, see_reading, see_marks, is_unusable,
  see_accounts, comes_sooner, start, open_ai_terminal_facts, TerminalFacts, kept_activity,
}
use openai_auth.Limits.Refusal.Walking.{
  SameReads, Walks, Walks-then, Walks-at, Accounted, see_reading-Walks, see_marks-Walks,
  see_marks-Accounted, Accounted-grows,
}

-- Every running mark of a row that may be used is accounted for.
abbrev pub RowIsAccounted : ℕ → Option ProvenanceStore → List ℕ → OpenAiTerminalAccount → Type 0
RowIsAccounted now s guesses row =
    is_unusable row.usable ≡ false → All (Accounted now s row.account guesses) row.marks

module _ (now : ℕ) (s : Option ProvenanceStore) where
  see_row : OpenAiTerminalAccount → Found → Found
  see_row row found =
      see_marks row.account row.marks now (see_reading row now (record found { windows = [] }))

  see_row-Walks :
      (row : OpenAiTerminalAccount) (found : Found) → Walks now s found (see_row row found)
  unfolding see_row
  see_row-Walks row found =
      Walks-then now s found _ _
        (Walks-then now s found _ _ (Walks-at now s found (record found { windows = [] }) refl refl)
          (see_reading-Walks now s row _))
        (see_marks-Walks now s row.account row.marks _)

  see_accounts-Walks :
      (rows : List OpenAiTerminalAccount) (found : Found)
      → Walks now s found (see_accounts rows now found).1
  unfolding see_accounts see_row
  see_accounts-Walks [] found = Walks-at now s found found refl refl
  see_accounts-Walks (row ∷ rows) found =
      if_intro (λ r. Walks now s found r.1) (is_unusable row.usable) (see_accounts rows now found) _
        (λ _. see_accounts-Walks rows found)
        (λ _.
          Walks-then now s found _ _ (see_row-Walks row found)
            (see_accounts-Walks rows (see_row row found)))

  see_accounts-RowIsAccounted :
      (rows : List OpenAiTerminalAccount) (found : Found)
      → SameReads now found.store s
      → All (RowIsAccounted now s (see_accounts rows now found).1.guesses) rows
  unfolding see_accounts see_row
  see_accounts-RowIsAccounted [] found h = tt
  see_accounts-RowIsAccounted (row ∷ rows) found h =
      if_intro (λ r. All (RowIsAccounted now s r.1.guesses) (row ∷ rows)) (is_unusable row.usable)
        (see_accounts rows now found) _
        (λ e. (λ f. absurd (cc), see_accounts-RowIsAccounted rows found h))
        (λ _.
          let seen = see_row row found in
          let reading = see_reading row now (record found { windows = [] }) in
          let read_alike : SameReads now reading.store s =
            (see_reading-Walks now s row (record found { windows = [] })).same h in
          (
            λ _.
                All-imp _ _ row.marks
                  (λ mark a.
                    Accounted-grows now s row.account seen _ mark (see_accounts-Walks rows seen) a)
                  (see_marks-Accounted now s row.account row.marks reading read_alike),
            see_accounts-RowIsAccounted rows seen ((see_row-Walks row found).same h),
          ))

-- No guess comes sooner than the reset.
abbrev pub IsFirst : ℕ → List ℕ → Type 0
IsFirst reset guesses = All (λ guess. reset ≤ guess) guesses

no_sooner :
    (reset : ℕ) (guesses : List ℕ)
    → any (λ guess. ltb guess reset) guesses ≡ false
    → IsFirst reset guesses
no_sooner reset [] h = tt
no_sooner reset (g ∷ gs) h = (ground (arith, h), no_sooner reset gs (ground (arith, h)))

-- What the library is then shown: nothing, where its reset would be later than a guess, or all the
-- candidates, whose selected reset, if there is one, is no later than the release of any running mark
-- that is not proven by the store.
pub data Honest (scan : List TerminalCandidate → Option AccountKey → Option ℕ)
    (accounts : List OpenAiTerminalAccount) (store : Option ProvenanceStore) (now : ℕ)
    (facts : TerminalFacts) : Type 0 where
  hides :
      facts.candidates ≡ []
      → comes_sooner
          (scan (see_accounts accounts now (start store)).0 facts.activity)
          (see_accounts accounts now (start store)).1.guesses
        ≡ true
      → Honest scan accounts store now facts
  no_reset :
      facts.candidates ≡ (see_accounts accounts now (start store)).0
      → scan facts.candidates facts.activity ≡ none
      → Honest scan accounts store now facts
  shows :
      (reset : ℕ) (guesses : List ℕ)
      → facts.candidates ≡ (see_accounts accounts now (start store)).0
      → scan facts.candidates facts.activity ≡ some reset
      → IsFirst reset guesses
      → All (RowIsAccounted now store guesses) accounts
      → Honest scan accounts store now facts

-- The candidates are hidden only where a guess comes sooner than the reset that the library selects of
-- them. Otherwise, the reset that it selects, if any, is no later than the release of any mark that
-- still runs, of any account that may be used, unless the store proves that release by a fresh reading
-- or by the provider's word.
pub open_ai_terminal_facts-Honest :
    (scan : List TerminalCandidate → Option AccountKey → Option ℕ)
    (accounts : List OpenAiTerminalAccount) (activity current : Option AccountKey)
    (store : Option ProvenanceStore) (now : ℕ)
    → Honest scan accounts store now
        (open_ai_terminal_facts scan accounts activity current store now)
unfolding open_ai_terminal_facts
open_ai_terminal_facts-Honest scan accounts activity current store now =
    let seen = see_accounts accounts now (start store) in
    let kept = kept_activity activity current in
    let rows =
      see_accounts-RowIsAccounted now store accounts (start store) (λ account mark. refl) in
    elim (Bool-cases (comes_sooner (scan seen.0 kept) seen.1.guesses)) [
      | inl e ↦ hides (rw e refl) e
      | inr e ↦ elim (Option-cases (scan seen.0 kept)) [
        | inl f ↦ no_reset (rw e refl) (rw e f)
        | inr (reset, f) ↦
            shows reset seen.1.guesses (rw e refl) (rw e f)
              (no_sooner reset seen.1.guesses (rw f at e)) rows
      ]
    ]
