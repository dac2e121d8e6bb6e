-- ===== src/Limits/Policy/Holding.antt =====
-- packages/core/src/limit-policy.ts: which holds the reducer is given.
use openai_auth.Prelude.{
  ℕ, ◌≤◌, ◌≡◌, refl, inl, inr, ◌⊎◌, Bool, true, false, ◌&&◌, ◌||◌, not, Option, none, some, List,
  [], ◌∷◌, All, All-imp, In, subst, sym, arith, if_intro, nat_eq, ltb, max, any, Bool-cases,
  Option-cases,
}
use openai_auth.Limits.Accounts.{AccountKey, same_account}
use openai_auth.Limits.Policy.{
  LimitWindow, LimitBlocker, LimitCandidate, later_of, latest_reset, target_of, until_of, outlasts,
  outlasted, confirmed_of, is_status, hold_suppressed,
}
use openai_auth.Limits.Policy.Holds.{
  LimitAxes, open_ai_limit_axes, PolicyFacts, should_decide_open_ai_limit, find_account,
  attempted_of, kept_hold, decide_open_ai_limit,
}

abbrev pub ResetsBy : ℕ → LimitWindow → Type 0
ResetsBy target w = (t : ℕ) × (w.reset_at ≡ some t) × (t ≤ target)

-- A session may wait for the account: it is admitted, its confirmed windows all reset by a known time,
-- and no hard mark that is still running outlasts that time.
pub record MayHold (candidate : LimitCandidate) (status : Option ℕ) (now : ℕ) : Type 0 where
  pub permitted : (is_status 401 status || is_status 403 status) ≡ false
  pub admitted : candidate.admitted ≡ true
  pub target : ℕ
  pub resets : All (ResetsBy target) (confirmed_of candidate.confirmed_blockers)
  pub marks :
      All
        (λ b. (b.hard && ltb now (until_of b.until)) ≡ true → until_of b.until ≤ target)
        candidate.blockers

later_of-both :
    (a b : Option ℕ) (target : ℕ)
    → later_of a b ≡ some target
    → (x : ℕ) × (y : ℕ) × (a ≡ some x) × (b ≡ some y) × (max x y ≡ target)
later_of-both none b target h = absurd (cc)
later_of-both (some x) none target h = absurd (cc)
later_of-both (some x) (some y) target h = (x, y, refl, refl, cc)

latest_reset-All :
    (w : LimitWindow) (ws : List LimitWindow) (target : ℕ)
    → latest_reset w ws ≡ some target
    → All (ResetsBy target) (w ∷ ws)
latest_reset-All w [] target h = ((target, h, omega arith), tt)
latest_reset-All w (v ∷ vs) target h =
    let (x, y, at, rest, bound) = later_of-both w.reset_at (latest_reset v vs) target h in
    (
      (x, at, omega (arith, bound)),
      All-imp (ResetsBy y) (ResetsBy target) (v ∷ vs) (λ u r. (r.0, r.1, omega (arith, bound, r.2)))
          (latest_reset-All v vs y rest),
    )

target_of-All :
    (ws : List LimitWindow) (target : ℕ) → target_of ws ≡ some target → All (ResetsBy target) ws
target_of-All [] target h = absurd (cc)
target_of-All (w ∷ ws) target h = latest_reset-All w ws target h

no_outlasting :
    (now target : ℕ) (blockers : List LimitBlocker)
    → any (outlasts now target) blockers ≡ false
    → All (λ b. (b.hard && ltb now (until_of b.until)) ≡ true → until_of b.until ≤ target) blockers
no_outlasting now target [] h = tt
no_outlasting now target (b ∷ bs) h =
    (λ k. ground (arith, h, k), no_outlasting now target bs (ground (arith, h)))

-- A hold that is not suppressed is permitted.
hold_suppressed-MayHold :
    (candidate : LimitCandidate) (status : Option ℕ) (now : ℕ)
    → hold_suppressed candidate status now ≡ false
    → MayHold candidate status now
unfolding hold_suppressed
hold_suppressed-MayHold candidate status now h =
    elim (Option-cases (target_of (confirmed_of candidate.confirmed_blockers))) [
      | inl e ↦
          let outlasted_by : outlasted none now candidate.blockers ≡ false =
            rw e at (outlasted_false h) in
          absurd (cc)
      | inr (target, e) ↦ record {
        permitted = ground (arith, h);
        admitted = ground (arith, h);
        target = target;
        resets = target_of-All (confirmed_of candidate.confirmed_blockers) target e;
        marks = no_outlasting now target candidate.blockers (rw e at (outlasted_false h));
      }
    ]
  where
    outlasted_false :
        (is_status 401 status
            || is_status 403 status
            || not candidate.admitted
            || outlasted
                (target_of (confirmed_of candidate.confirmed_blockers))
                now
                candidate.blockers)
          ≡ false
        → outlasted (target_of (confirmed_of candidate.confirmed_blockers)) now candidate.blockers
          ≡ false
    outlasted_false k = ground (arith, k)

find_account-In :
    (candidates : List LimitCandidate) (account : AccountKey) (c : LimitCandidate)
    → find_account candidates account ≡ some c
    → In c candidates × (same_account c.account account ≡ true)
find_account-In [] account c h = absurd (cc)
find_account-In (d ∷ candidates) account c h = elim (Bool-cases (same_account d.account account)) [
  | inl e ↦
      let found : some d ≡ some c = rw e at h in
      let at : d ≡ c = cc in (inl (sym at), subst (λ x. same_account x.account account ≡ true) at e)
  | inr e ↦ let rest = find_account-In candidates account c (rw e at h) in (inr rest.0, rest.1)
]

-- The hold that the reducer is given: none, or the caller's, where the attempted account is a
-- candidate that a session may wait for.
pub data Grounded {H : Type 0} (facts : PolicyFacts H) : Option H → Type 0 where
  no_hold : Grounded facts none
  held :
      (account : AccountKey) (c : LimitCandidate)
      → facts.attempted ≡ some account
      → In c facts.candidates
      → same_account c.account account ≡ true
      → MayHold c facts.status facts.now
      → Grounded facts facts.hold

kept_hold-Grounded :
    {H : Type 0} (facts : PolicyFacts H) (account : AccountKey) (found : Option LimitCandidate)
    → facts.attempted ≡ some account
    → find_account facts.candidates account ≡ found
    → Grounded facts (kept_hold found facts)
kept_hold-Grounded facts account none e f = no_hold
kept_hold-Grounded facts account (some c) e f =
    let there = find_account-In facts.candidates account c f in
    if_intro (Grounded facts) (hold_suppressed c facts.status facts.now) none facts.hold
      (λ _. no_hold)
      (λ g. held account c e there.0 there.1 (hold_suppressed-MayHold c facts.status facts.now g))

attempted-Grounded :
    {H : Type 0} (facts : PolicyFacts H) (attempted : Option AccountKey)
    → facts.attempted ≡ attempted
    → Grounded facts (kept_hold (attempted_of facts.candidates attempted) facts)
attempted-Grounded facts none e = no_hold
attempted-Grounded facts (some account) e =
    kept_hold-Grounded facts account (find_account facts.candidates account) e refl

-- The plugin leaves a limit alone only where it has happened, the host is not the second OpenCode, the
-- mode is ordered, and the status is none that it falls back on. Otherwise it asks the reducer, with
-- its own axes and the facts as they are but for the hold, which is dropped, or is the caller's where
-- the attempted account is a candidate that a session may wait for.
pub decide_open_ai_limit-Grounded :
    {H R D : Type 0} (decide : PolicyFacts H → LimitAxes R → D) (preset : R) (facts : PolicyFacts H)
    (ordered : Bool) (fallback_on : List ℕ)
    → let result = decide_open_ai_limit decide preset facts ordered fallback_on in
      ((result ≡ none)
        × (facts.after_limit ≡ true)
        × (should_decide_open_ai_limit facts.host ordered facts.status fallback_on ≡ false))
      ⊎ ((hold : Option H) × Grounded facts hold
          × (result
              ≡ some
                  (decide (record facts { hold = hold }) (open_ai_limit_axes preset fallback_on))))
unfolding decide_open_ai_limit
decide_open_ai_limit-Grounded decide preset facts ordered fallback_on =
    elim (Bool-cases (
      facts.after_limit
      && not (should_decide_open_ai_limit facts.host ordered facts.status fallback_on))) [
        | inl e ↦ inl (rw e refl, ground (arith, e), ground (arith, e))
        | inr e ↦ inr (_, attempted-Grounded facts facts.attempted refl, rw e refl)
      ]
