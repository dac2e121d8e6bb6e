-- ===== src/Limits/Policy/Blockers.antt =====
-- packages/core/src/limit-policy.ts: the windows that block an account.
use openai_auth.Prelude.{
  ℕ, ◌≡◌, refl, inl, inr, ◌⊎◌, String, true, false, ◌&&◌, Option, none, some, List, [], ◌∷◌, arith,
  if_intro, ◌==◌, string_eq, Bool-cases, In, eq_of_==,
}
use openai_auth.Prelude.JsMap.{get, get-set, get-set_self}
use openai_auth.Quota.{QuotaWindow, QuotaSnapshot, reset_time, snapshot_window}
use openai_auth.Limits.Policy.{
  LimitWindow, read_window, is_exhausted_window, put_exhausted, confirmed_quota_windows, no_earlier,
  Blocking, replaces, merge_window, merge_windows, keyed, blocking_windows,
}

no_earlier_refl : (a : Option ℕ) → no_earlier a a ≡ true
no_earlier_refl none = refl
no_earlier_refl (some a) = ground arith

no_earlier_trans :
    (a b c : Option ℕ) → no_earlier a b ≡ true → no_earlier b c ≡ true → no_earlier a c ≡ true
no_earlier_trans none b c h k = refl
no_earlier_trans (some a) none c h k = absurd (cc)
no_earlier_trans (some a) (some b) none h k = absurd (cc)
no_earlier_trans (some a) (some b) (some c) h k = ground arith

no_earlier-total : (a b : Option ℕ) → no_earlier a b ≡ false → no_earlier b a ≡ true
no_earlier-total none b h = absurd (cc)
no_earlier-total (some a) none h = refl
no_earlier-total (some a) (some b) h = ground arith

-- A blocking window of the name, with a reset that is no earlier.
pub record Covers (windows : Blocking) (name : String) (reset : Option ℕ) : Type 0 where
  pub by : LimitWindow
  pub found : get name windows ≡ some by
  pub later : no_earlier by.reset_at reset ≡ true

merge_window-Covers :
    (w : LimitWindow) (windows : Blocking) (name : String) (reset : Option ℕ)
    → Covers windows name reset
    → Covers (merge_window w windows) name reset
merge_window-Covers w windows name reset c =
    if_intro (λ m. Covers m name reset) (w.confirmed && replaces w (get w.window windows)) _ windows
      (λ h. elim (Bool-cases (w.window == name)) [
        | inl e ↦
            let same : w.window ≡ name = eq_of_== w.window name e in
            let at : get w.window windows ≡ some c.by = rw same c.found in
            let replaced : (w.confirmed && no_earlier w.reset_at c.by.reset_at) ≡ true =
              rw at at h in
            record {
              by = w;
              found = rw (get-set name w.window w windows, e) refl;
              later =
                  no_earlier_trans w.reset_at c.by.reset_at reset (ground (arith, replaced))
                    c.later;
            }
        | inr e ↦ record {
          by = c.by;
          found = rw (get-set name w.window w windows, e) c.found;
          later = c.later;
        }
      ])
      (λ _. c)

merge_windows-Covers :
    (ws : List LimitWindow) (windows : Blocking) (name : String) (reset : Option ℕ)
    → Covers windows name reset
    → Covers (merge_windows ws windows) name reset
unfolding merge_windows
merge_windows-Covers [] windows name reset c = c
merge_windows-Covers (w ∷ ws) windows name reset c =
    merge_windows-Covers ws (merge_window w windows) name reset
      (merge_window-Covers w windows name reset c)

merge_window_self :
    (w : LimitWindow) (windows : Blocking)
    → w.confirmed ≡ true
    → Covers (merge_window w windows) w.window w.reset_at
merge_window_self w windows h =
    if_intro (λ m. Covers m w.window w.reset_at) (w.confirmed && replaces w (get w.window windows))
      _ windows
      (λ _. record {
        by = w;
        found = get-set_self w.window w windows;
        later = no_earlier_refl w.reset_at;
      })
      (kept (get w.window windows) refl)
  where
    kept :
        (o : Option LimitWindow)
        → get w.window windows ≡ o
        → (w.confirmed && replaces w o) ≡ false
        → Covers windows w.window w.reset_at
    kept none e f = absurd (ground (arith, h, f))
    kept (some v) e f = record {
      by = v;
      found = e;
      later = no_earlier-total w.reset_at v.reset_at (ground (arith, h, f));
    }

merge_windows-each :
    (ws : List LimitWindow) (windows : Blocking) (w : LimitWindow)
    → In w ws
    → w.confirmed ≡ true
    → Covers (merge_windows ws windows) w.window w.reset_at
unfolding merge_windows
merge_windows-each [] windows w i h = absurd i
merge_windows-each (v ∷ ws) windows w (inl e) h = rw e (
    merge_windows-Covers ws (merge_window v windows) v.window v.reset_at
      (merge_window_self v windows (rw e at h)))
merge_windows-each (v ∷ ws) windows w (inr i) h =
    merge_windows-each ws (merge_window v windows) w i h

module _ (now : ℕ) (w : LimitWindow) where
  secondary-Covers :
      (s : Option QuotaWindow)
      → In w (put_exhausted "secondary" s now [])
      → (w.window ≡ "secondary")
        × Covers (keyed (put_exhausted "secondary" s now [])) w.window w.reset_at
  unfolding get
  secondary-Covers none i = absurd i
  secondary-Covers (some q) i =
      if_intro (λ l. In w l → (w.window ≡ "secondary") × Covers (keyed l) w.window w.reset_at)
        (is_exhausted_window q now) (read_window "secondary" q ∷ []) [] (λ _. only)
        (λ _ i. absurd i) i
    where
      only :
          In w (read_window "secondary" q ∷ [])
          → (w.window ≡ "secondary")
            × Covers (keyed (read_window "secondary" q ∷ [])) w.window w.reset_at
      only (inl e) = rw e (
        refl,
        record {
          by = read_window "secondary" q;
          found = refl;
          later = no_earlier_refl (reset_time q.resets_at);
        },
      )
      only (inr i) = absurd i

  primary-Covers :
      (p : Option QuotaWindow) (rest : List LimitWindow)
      → (In w rest → (w.window ≡ "secondary") × Covers (keyed rest) w.window w.reset_at)
      → In w (put_exhausted "primary" p now rest)
      → Covers (keyed (put_exhausted "primary" p now rest)) w.window w.reset_at
  unfolding get
  primary-Covers none rest f i = (f i).1
  primary-Covers (some q) rest f i =
      if_intro (λ l. In w l → Covers (keyed l) w.window w.reset_at) (is_exhausted_window q now)
        (read_window "primary" q ∷ rest) rest (λ _. first) (λ _ i. (f i).1) i
    where
      first :
          In w (read_window "primary" q ∷ rest)
          → Covers (keyed (read_window "primary" q ∷ rest)) w.window w.reset_at
      first (inl e) = rw e (record {
        by = read_window "primary" q;
        found = refl;
        later = no_earlier_refl (reset_time q.resets_at);
      })
      first (inr i) =
          let c = f i in record { by = c.1.by; found = rw c.0 c.1.found; later = c.1.later }

-- The exhausted windows of the reading, by name.
reading-Covers :
    (quota : Option QuotaSnapshot) (now : ℕ) (w : LimitWindow)
    → In w (confirmed_quota_windows quota now)
    → Covers (keyed (confirmed_quota_windows quota now)) w.window w.reset_at
unfolding confirmed_quota_windows
reading-Covers quota now w i =
    primary-Covers now w (snapshot_window quota "primary") _
      (secondary-Covers now w (snapshot_window quota "secondary")) i

-- Every confirmed window of the signal, and every window that a fresh reading shows exhausted, blocks
-- the account: a window of its name is among the blocking ones, with a reset that is no earlier.
pub blocking_windows-Covers :
    (signal : List LimitWindow) (quota : Option QuotaSnapshot) (now : ℕ) (w : LimitWindow)
    → (In w signal × (w.confirmed ≡ true)) ⊎ In w (confirmed_quota_windows quota now)
    → Covers (blocking_windows signal quota now) w.window w.reset_at
unfolding blocking_windows
blocking_windows-Covers signal quota now w (inl (i, h)) =
    merge_windows-each signal (keyed (confirmed_quota_windows quota now)) w i h
blocking_windows-Covers signal quota now w (inr i) =
    merge_windows-Covers signal (keyed (confirmed_quota_windows quota now)) w.window w.reset_at
      (reading-Covers quota now w i)
