-- ===== src/Balance/Choice.antt =====
-- packages/opencode/src/core/sticky-routing.ts: the account that a session is placed on.
use openai_auth.Prelude.{
  ℕ, ◌≡◌, refl, ap, inl, inr, true, false, not, Option, none, some, List, [], ◌∷◌, arith, All, In,
  In-keep_if_of_test, head_of, sort_by, sort_by-head, sort_by-none, sort_by-some, Option-cases,
  if_intro, ◌∙◌,
}
use openai_auth.Balance.{
  AccountQuota, is_false, is_fresh, get_present_quota_windows, snapshot_checked_at,
}
use openai_auth.Balance.Weights.{
  StickySelectionCandidate, WeightedCandidate, Weight, candidate_weight, weighted_candidates,
  weight_of_quota, fresh_weight, weighted_if_positive, fallback_le, weighted_le,
  StickySelectionInput, StickyChoice, weighted_source, mode_fallback, selects, eligible,
  select_eligible, select_from, select_sticky_candidate, is_positive, put_weighted, weight_of,
  append_weights, window_weights, spend_weights, checked_of,
}
use openai_auth.Balance.Order.{fallback_le-IsOrder, weighted_le-IsOrder}

-- The account with the least score of those that have a weight, or, where none has, the first of
-- the eligible by reset credits and the configured order.
pub data Best (input : StickySelectionInput) (candidates : List StickySelectionCandidate)
    (choice : StickyChoice) : Type 0 where
  by_weight :
      (w : WeightedCandidate)
      → In w (weighted_candidates candidates input.now)
      → In w.candidate candidates
      → choice.account_id ≡ w.candidate.account_id
      → choice.source ≡ weighted_source
      → All (λ v. weighted_le input w v ≡ true) (weighted_candidates candidates input.now)
      → Best input candidates choice
  by_order :
      (c : StickySelectionCandidate)
      → weighted_candidates candidates input.now ≡ []
      → In c candidates
      → choice.account_id ≡ c.account_id
      → choice.source ≡ mode_fallback
      → All (λ d. fallback_le c d ≡ true) candidates
      → Best input candidates choice

-- A weight is of the candidate that it is asked for.
Of : StickySelectionCandidate → Option WeightedCandidate → Type 0
Of candidate none = Unit {0}
Of candidate (some w) = w.candidate ≡ candidate

fresh_weight-Of :
    (candidate : StickySelectionCandidate) (quota : AccountQuota) (checked : Option ℕ) (now : ℕ)
    → Of candidate (fresh_weight candidate quota checked now)
unfolding Of
fresh_weight-Of candidate quota none now = tt
fresh_weight-Of candidate quota (some checked) now =
    if_intro (Of candidate) (is_fresh (some checked) now)
      (weighted_if_positive candidate checked weight) none
      (λ _. if_intro (Of candidate) (is_positive weight) _ none (λ _. refl) (λ _. tt)) (λ _. tt)
  where
    weight : Weight
    weight = weight_of (
        append_weights
          (window_weights (get_present_quota_windows quota) candidate.reserve_percent now)
          (spend_weights quota.spend_control now))

weight_of_quota-Of :
    (candidate : StickySelectionCandidate) (quota : Option AccountQuota) (now : ℕ)
    → Of candidate (weight_of_quota candidate quota now)
weight_of_quota-Of candidate none now = unfold Of in tt
weight_of_quota-Of candidate (some quota) now =
    fresh_weight-Of candidate quota (snapshot_checked_at quota candidate.quota_checked_at) now

candidate_weight-Of :
    (candidate : StickySelectionCandidate) (now : ℕ) → Of candidate (candidate_weight candidate now)
unfolding candidate_weight
candidate_weight-Of candidate now = weight_of_quota-Of candidate candidate.quota now

put_weighted-In :
    (c : StickySelectionCandidate) (cs : List StickySelectionCandidate)
    (o : Option WeightedCandidate) (ws : List WeightedCandidate) (w : WeightedCandidate)
    → Of c o
    → (In w ws → In w.candidate cs)
    → In w (put_weighted o ws)
    → In w.candidate (c ∷ cs)
put_weighted-In c cs none ws w h f i = inr (f i)
put_weighted-In c cs (some v) ws w h f (inl e) =
    inl (ap (λ (u : WeightedCandidate). u.candidate) e ∙ unfold Of in h)
put_weighted-In c cs (some v) ws w h f (inr i) = inr (f i)

weighted_candidates-In :
    (cs : List StickySelectionCandidate) (now : ℕ) (w : WeightedCandidate)
    → In w (weighted_candidates cs now)
    → In w.candidate cs
unfolding weighted_candidates
weighted_candidates-In [] now w i = i
weighted_candidates-In (c ∷ cs) now w i =
    put_weighted-In c cs (candidate_weight c now) (weighted_candidates cs now) w
      (candidate_weight-Of c now) (weighted_candidates-In cs now w) i

-- An eligible list is chosen from.
select_eligible-Best :
    (c : StickySelectionCandidate) (cs : List StickySelectionCandidate)
    (input : StickySelectionInput)
    → (choice : StickyChoice) × (select_eligible (c ∷ cs) input ≡ selects choice)
      × Best input (c ∷ cs) choice
select_eligible-Best c cs input =
    elim (Option-cases
      (head_of (sort_by (weighted_le input) (weighted_candidates (c ∷ cs) input.now)))) [
        | inr (w, first) ↦
            let o = weighted_le-IsOrder input in
            let best =
              sort_by-head (weighted_le input) o.total o.trans
                (weighted_candidates (c ∷ cs) input.now) w first in
            (
              record {
                account_id = w.candidate.account_id;
                quota_checked_at = some w.quota_checked_at;
                source = weighted_source;
              },
              rw first refl,
              by_weight w best.0 (weighted_candidates-In (c ∷ cs) input.now w best.0) refl refl
                  best.1,
            )
        | inl none_weighs ↦ elim (Option-cases (head_of (sort_by fallback_le (c ∷ cs)))) [
          | inl empty ↦ absurd (sort_by-some fallback_le c cs empty)
          | inr (d, first) ↦
              let best =
                sort_by-head fallback_le fallback_le-IsOrder.total fallback_le-IsOrder.trans
                  (c ∷ cs) d first in
              (
                record {
                  account_id = d.account_id;
                  quota_checked_at = checked_of d.quota d.quota_checked_at;
                  source = mode_fallback;
                },
                rw (none_weighs, first) refl,
                by_order d
                    (sort_by-none (weighted_le input) (weighted_candidates (c ∷ cs) input.now)
                      none_weighs)
                    best.0 refl refl best.1,
              )
        ]
      ]

-- A call with a candidate that is not killed always selects an account. It is one that is not
-- killed: that with the least score of those that have a weight, ties going to the configured order
-- and then the id; or, where none has a weight, one with reset credits before one without, and then
-- by the same order.
pub selects-Best :
    (input : StickySelectionInput) (c : StickySelectionCandidate)
    → In c input.candidates
    → is_false c.killswitch_passes ≡ false
    → (choice : StickyChoice) × (select_sticky_candidate input ≡ selects choice)
      × Best input (eligible input.candidates) choice
unfolding select_sticky_candidate
selects-Best input c there alive = from input.candidates there
  where
    chosen :
        (es : List StickySelectionCandidate)
        → In c es
        → (choice : StickyChoice) × (select_eligible es input ≡ selects choice)
          × Best input es choice
    chosen [] i = absurd i
    chosen (e ∷ es) i = select_eligible-Best e es input

    from :
        (cs : List StickySelectionCandidate)
        → In c cs
        → (choice : StickyChoice) × (select_from cs input ≡ selects choice)
          × Best input (eligible cs) choice
    from [] i = absurd i
    from (d ∷ ds) i = chosen (eligible (d ∷ ds)) (
        In-keep_if_of_test (λ (e : StickySelectionCandidate). not (is_false e.killswitch_passes))
          (d ∷ ds) c i (ground (arith, alive)))
