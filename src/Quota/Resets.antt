-- ===== src/Quota/Resets.antt =====
-- packages/core/src/quota-manager.ts: when a limited account is tried again, and a quota read again.
use openai_auth.Prelude.{
  ℕ, ◌+◌, ◌<◌, ◌≡◌, refl, ◌⊎◌, inl, inr, min, String, true, not, Option, none, some, leb, string_eq,
  arith, if_intro, JsNumber, finite, infinity, nan, or_else,
}
use openai_auth.Quota.{
  QuotaWindow, QuotaSnapshot, Storage, quota_check_interval_ms, quota_enabled, reset_time,
  is_future, window_reset, snapshot_window, resolve_mid_stream_rate_limit_reset_at, Blocked,
  open_window, unknown_reset, until, blocked_by, blocked_at, next_refresh, quota_next_refresh_at,
  primary_threshold, secondary_threshold,
}

min_cases : (a b : ℕ) → (min a b ≡ a) ⊎ (min a b ≡ b)
min_cases a b = ground arith

chosen_future :
    (o : Option ℕ) (now : ℕ)
    → is_future o now ≡ true
    → (t : ℕ) × (o ≡ some t) × (or_else o 0 ≡ t) × (now < t)
chosen_future none now h = absurd (cc)
chosen_future (some t) now h = (t, refl, refl, ground arith)

-- The reset of a limit lies after the time of the limit, if the default delay is not zero. It is
-- the provider's, or that of the window that the limit names, or the default.
pub resolve_reset_cases :
    (quota : Option QuotaSnapshot) (window : String) (now default_ms : ℕ)
    (explicit : Option JsNumber)
    → 0 < default_ms
    → let reset = resolve_mid_stream_rate_limit_reset_at quota window now default_ms explicit in
      (now < reset)
      × ((explicit ≡ some (finite reset))
          ⊎ ((window_reset (snapshot_window quota window) ≡ some reset)
              ⊎ (reset ≡ now + default_ms)))
unfolding resolve_mid_stream_rate_limit_reset_at
resolve_reset_cases quota window now default_ms explicit positive =
    if_intro Good (is_future (reset_time explicit) now) _ _
      (λ given.
        let (t, e, v, later) = chosen_future (reset_time explicit) now given in
        rw v (later, inl (read_finite explicit t e)))
      λ _.
        if_intro Good (is_future (window_reset (snapshot_window quota window)) now) _ _
          (λ named.
            let (t, e, v, later) =
              chosen_future (window_reset (snapshot_window quota window)) now named in
            rw v (later, inr (inl e)))
          λ _. (omega (arith, positive), inr (inr refl))
  where
    Good : ℕ → Type 0
    Good reset =
        (now < reset)
        × ((explicit ≡ some (finite reset))
            ⊎ ((window_reset (snapshot_window quota window) ≡ some reset)
                ⊎ (reset ≡ now + default_ms)))

    read_finite : (o : Option JsNumber) (t : ℕ) → reset_time o ≡ some t → o ≡ some (finite t)
    read_finite none t e = absurd (cc)
    read_finite (some (finite n)) t e = ground arith
    read_finite (some infinity) t e = absurd (cc)
    read_finite (some nan) t e = absurd (cc)

-- A window whose reset `t` is still to come, and that has less left than its threshold.
abbrev pub IsShort : Option QuotaWindow → ℕ → ℕ → ℕ → Type 0
IsShort none threshold now t = ⊥
IsShort (some window) threshold now t =
    (window.remaining_percent < threshold) × (reset_time window.resets_at ≡ some t) × (now < t)

-- What holds of a time that a window gives.
abbrev Says : Option QuotaWindow → ℕ → ℕ → Blocked → Type 0
Says window threshold now open_window = Unit
Says window threshold now unknown_reset = Unit
Says window threshold now (until t) = IsShort window threshold now t

blocked_by-Says :
    (o : Option QuotaWindow) (threshold now : ℕ) → Says o threshold now (blocked_by o threshold now)
unfolding blocked_by
blocked_by-Says none threshold now = tt
blocked_by-Says (some window) threshold now =
    if_intro (Says (some window) threshold now) (leb threshold window.remaining_percent) _ _
      (λ _. tt) λ short. named (reset_time window.resets_at) refl (ground arith)
  where
    named :
        (r : Option ℕ)
        → reset_time window.resets_at ≡ r
        → window.remaining_percent < threshold
        → Says (some window) threshold now (blocked_at r now)
    named none e short = tt
    named (some t) e short =
        if_intro (Says (some window) threshold now) (leb t now) _ _ (λ _. tt)
          λ later. (short, e, ground arith)

module _ (storage : Storage) (now : ℕ) where
  -- A time that is a minute past the reset of a short window.
  abbrev pub IsReset : Option QuotaWindow → Option QuotaWindow → ℕ → Type 0
  IsReset primary secondary at =
      (t : ℕ) × (at ≡ t + 60_000)
      × (IsShort primary (primary_threshold storage) now t
          ⊎ IsShort secondary (secondary_threshold storage) now t)

  next_refresh-cases :
      (primary secondary : Option QuotaWindow) (a b : Blocked)
      → Says primary (primary_threshold storage) now a
      → Says secondary (secondary_threshold storage) now b
      → let at = next_refresh (now + quota_check_interval_ms storage) a b in
        (at ≡ now + quota_check_interval_ms storage) ⊎ IsReset primary secondary at
  next_refresh-cases primary secondary unknown_reset b p q = inl refl
  next_refresh-cases primary secondary open_window open_window p q = inl refl
  next_refresh-cases primary secondary open_window unknown_reset p q = inl refl
  next_refresh-cases primary secondary open_window (until b) p q = inr (b, refl, inr q)
  next_refresh-cases primary secondary (until a) open_window p q = inr (a, refl, inl p)
  next_refresh-cases primary secondary (until a) unknown_reset p q = inl refl
  next_refresh-cases primary secondary (until a) (until b) p q = inr (earliest a b p q)
    where
      earliest :
          (a b : ℕ)
          → IsShort primary (primary_threshold storage) now a
          → IsShort secondary (secondary_threshold storage) now b
          → IsReset primary secondary (min a b + 60_000)
      earliest a b p q = elim (min_cases a b) [
        | inl e ↦ rw e (a, refl, inl p)
        | inr e ↦ rw e (b, refl, inr q)
      ]

  -- The next quota reading is due one check interval later, or a minute after the reset of a
  -- window that has less left than its threshold and whose reset is still to come.
  pub quota_next_refresh_at-cases :
      (quota : QuotaSnapshot)
      → let at = quota_next_refresh_at (some quota) storage now in
        (at ≡ now + quota_check_interval_ms storage) ⊎ IsReset quota.primary quota.secondary at
  unfolding quota_next_refresh_at
  quota_next_refresh_at-cases quota =
      if_intro
        (λ at.
          (at ≡ now + quota_check_interval_ms storage) ⊎ IsReset quota.primary quota.secondary at)
        (not (quota_enabled storage)) _ _ (λ _. inl refl)
        λ _.
          next_refresh-cases quota.primary quota.secondary _ _
            (blocked_by-Says quota.primary (primary_threshold storage) now)
            (blocked_by-Says quota.secondary (secondary_threshold storage) now)
