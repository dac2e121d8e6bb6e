-- ===== src/Balance/Breaks.antt =====
-- packages/opencode/src/core/sticky-routing.ts: when a session leaves its account.
use openai_auth.Prelude.{
  ℕ, ◌≡◌, ◌↔◌, ◌⊎◌, refl, inl, inr, Bool, true, false, not, Option, none, some, List, [], ◌∷◌,
  arith, In, All-In, In-keep_if, In-keep_if_of_test, In-sort_by, sort_by-In, All-keep_if_test,
  sort_by, Bool-cases, is_some, JsNumber, subst, if◌then◌else◌, if_intro,
}
use openai_auth.Balance.{
  AccountQuota, PresentWindow, StickyBreakDecision, retain, migrate, BreakInput, transient, healthy,
  stale, permanent, is_permanent, is_fresh, is_false, is_used_up, snapshot_checked_at,
  get_present_quota_windows, used_up_windows, longer, spend_control_exhausted_reset_at,
  decide_fresh, decide_known, decide_quota, decide_sticky_break, is_transient,
}

abbrev pub Migrates : StickyBreakDecision → Type 0
Migrates (retain reason) = ⊥
Migrates (migrate reason key reset) = Unit {0}

-- A reading that is at most fifteen minutes old shows an account that cannot serve: it fails its
-- killswitch, a window of it has nothing left, or its credit budget is used up with its reset still
-- to come.
pub record Shows (input : BreakInput) (quota : AccountQuota) : Type 0 where
  pub known : input.quota ≡ some quota
  pub recent : is_fresh (snapshot_checked_at quota input.quota_checked_at) input.now ≡ true
  pub spent :
      (is_false input.killswitch_passes ≡ true)
      ⊎ ((p : PresentWindow) × In p (get_present_quota_windows quota)
          × (is_used_up p.window ≡ true))
      ⊎ (is_some (spend_control_exhausted_reset_at quota input.now) ≡ true)

used_up-In :
    (quota : AccountQuota) (p : PresentWindow)
    → In p (used_up_windows quota)
    → In p (get_present_quota_windows quota) × (is_used_up p.window ≡ true)
used_up-In quota p there = (
  In-sort_by longer p (get_present_quota_windows quota) (
      In-keep_if (λ (q : PresentWindow). is_used_up q.window)
        (sort_by longer (get_present_quota_windows quota)) p there),
  All-In (λ (q : PresentWindow). is_used_up q.window ≡ true) (used_up_windows quota) p
      (All-keep_if_test (λ (q : PresentWindow). is_used_up q.window ≡ true)
        (λ q. is_used_up q.window) (sort_by longer (get_present_quota_windows quota)) (λ q e. e))
      there,
)

In-used_up :
    (quota : AccountQuota) (p : PresentWindow)
    → In p (get_present_quota_windows quota)
    → is_used_up p.window ≡ true
    → In p (used_up_windows quota)
In-used_up quota p i h =
    In-keep_if_of_test (λ (q : PresentWindow). is_used_up q.window)
      (sort_by longer (get_present_quota_windows quota)) p
      (sort_by-In longer p (get_present_quota_windows quota) i) h

-- Of the windows that are used up, and the rest of the reading.
decide_fresh-Migrates :
    (quota : AccountQuota) (status : Option JsNumber) (now : ℕ) (ps : List PresentWindow)
    → Migrates (decide_fresh quota status now ps)
    → ((p : PresentWindow) × In p ps)
      ⊎ (is_some (spend_control_exhausted_reset_at quota now) ≡ true)
decide_fresh-Migrates quota status now (p ∷ ps) m = inl (p, inl refl)
decide_fresh-Migrates quota status now [] m =
    elim (Bool-cases (is_some (spend_control_exhausted_reset_at quota now))) [
      | inl e ↦ inr e
      | inr e ↦ absurd (stays (is_transient status) (rw e at m))
    ]
  where
    stays : (b : Bool) → Migrates (if b then retain transient else retain healthy) → ⊥
    stays true m = m
    stays false m = m

Migrates-decide_fresh :
    (quota : AccountQuota) (status : Option JsNumber) (now : ℕ) (ps : List PresentWindow)
    → ((p : PresentWindow) × In p ps)
      ⊎ (is_some (spend_control_exhausted_reset_at quota now) ≡ true)
    → Migrates (decide_fresh quota status now ps)
Migrates-decide_fresh quota status now (p ∷ ps) h = tt
Migrates-decide_fresh quota status now [] (inl (p, i)) = absurd i
Migrates-decide_fresh quota status now [] (inr e) = rw e tt

decide_known-Shows :
    (quota : AccountQuota) (input : BreakInput)
    → input.quota ≡ some quota
    → Migrates (decide_known quota input) ↔ Shows input quota
decide_known-Shows quota input known = (to, from)
  where
    moved :
        ((p : PresentWindow) × In p (used_up_windows quota))
          ⊎ (is_some (spend_control_exhausted_reset_at quota input.now) ≡ true)
        → (is_false input.killswitch_passes ≡ true)
          ⊎ ((p : PresentWindow) × In p (get_present_quota_windows quota)
              × (is_used_up p.window ≡ true))
          ⊎ (is_some (spend_control_exhausted_reset_at quota input.now) ≡ true)
    moved (inr e) = inr (inr e)
    moved (inl (p, i)) = inr (inl (p, (used_up-In quota p i).0, (used_up-In quota p i).1))

    shut :
        (b : Bool)
        → (decision : StickyBreakDecision) → Migrates (if not b then retain stale else decision)
        → b ≡ true
    shut true decision m = refl
    shut false decision m = absurd m

    to : Migrates (decide_known quota input) → Shows input quota
    to m =
        let recent : is_fresh (snapshot_checked_at quota input.quota_checked_at) input.now ≡ true =
          shut (is_fresh (snapshot_checked_at quota input.quota_checked_at) input.now) _ m in
        record {
          known = known;
          recent = recent;
          spent = elim (Bool-cases (is_false input.killswitch_passes)) [
            | inl k ↦ inl k
            | inr k ↦ moved (
                decide_fresh-Migrates quota input.status input.now (used_up_windows quota)
                  (rw (recent, k) at m))
          ];
        }

    moves :
        is_false input.killswitch_passes ≡ false
        → (is_false input.killswitch_passes ≡ true)
          ⊎ ((p : PresentWindow) × In p (get_present_quota_windows quota)
              × (is_used_up p.window ≡ true))
          ⊎ (is_some (spend_control_exhausted_reset_at quota input.now) ≡ true)
        → ((p : PresentWindow) × In p (used_up_windows quota))
          ⊎ (is_some (spend_control_exhausted_reset_at quota input.now) ≡ true)
    moves k (inl e) = absurd (ground (arith, k, e))
    moves k (inr (inl (p, i, u))) = inl (p, In-used_up quota p i u)
    moves k (inr (inr e)) = inr e

    from : Shows input quota → Migrates (decide_known quota input)
    from s = rw s.recent (
        if_intro Migrates (is_false input.killswitch_passes) _ _ (λ _. tt)
          (λ k.
            Migrates-decide_fresh quota input.status input.now (used_up_windows quota)
              (moves k s.spent)))

decide_quota-Shows :
    (o : Option AccountQuota) (input : BreakInput)
    → input.quota ≡ o
    → Migrates (decide_quota o input) ↔ ((quota : AccountQuota) × Shows input quota)
decide_quota-Shows none input known = ((λ m. absurd m), λ s. absurd (not_known s.0 s.1.known))
  where
    not_known : (quota : AccountQuota) → input.quota ≡ some quota → ⊥
    not_known quota e = absurd (cc known)
decide_quota-Shows (some quota) input known =
    ((λ m. (quota, (decide_known-Shows quota input known).0 m)), from)
  where
    from : ((q : AccountQuota) × Shows input q) → Migrates (decide_known quota input)
    from (q, s) =
        let same : q ≡ quota = cc (known, s.known) in
        (decide_known-Shows quota input known).1 (subst (Shows input) same s)

-- A session leaves its account exactly when its request was refused with status 401 or 403, or a
-- reading that is at most fifteen minutes old shows that the account cannot serve: it fails its
-- killswitch, a window of it has nothing left, or its credit budget is used up.
pub decide_sticky_break-Migrates :
    (input : BreakInput)
    → Migrates (decide_sticky_break input)
      ↔ ((is_permanent input.status ≡ true) ⊎ ((quota : AccountQuota) × Shows input quota))
unfolding decide_sticky_break
decide_sticky_break-Migrates input =
    if_intro
      (λ d.
        Migrates d
        ↔ ((is_permanent input.status ≡ true) ⊎ ((quota : AccountQuota) × Shows input quota)))
      (is_permanent input.status) (migrate permanent none none) (decide_quota input.quota input)
      (λ refused. ((λ _. inl refused), (λ _. tt)))
      (λ goes_on. ((λ m. inr ((decide_quota-Shows input.quota input refl).0 m)), from goes_on))
  where
    from :
        is_permanent input.status ≡ false
        → (is_permanent input.status ≡ true) ⊎ ((quota : AccountQuota) × Shows input quota)
        → Migrates (decide_quota input.quota input)
    from goes_on (inl refused) = absurd (ground (arith, goes_on, refused))
    from goes_on (inr s) = (decide_quota-Shows input.quota input refl).1 s
