-- ===== src/Limits/Policy/Exhausted.antt =====
-- packages/core/src/limit-policy.ts: when a response body tells of an exhausted quota.
use openai_auth.Prelude.{
  ℕ, ◌≡◌, ◌↔◌, All, subst, refl, inl, inr, ◌⊎◌, String, Bool, true, false, ◌&&◌, ◌||◌, Option, none,
  some, List, nat_eq, string_eq, option_eq, any, Bool-cases,
}
use openai_auth.Quota.{QuotaWindow, QuotaSnapshot, snapshot_window}
use openai_auth.Limits.Policy.{
  named_signal, LimitWindow, ParsedOpenAiLimit, is_named, is_usage, open_ai_signal_windows,
}
use openai_auth.Limits.Policy.Classes.{
  quota_exhausted, LimitSignal, ClassifyInput, failed_of, limit_reason, status_of, is_no_limit,
  confirms, reason_text, windows_of, kind_of, signal_of, classify_open_ai_limit_body, exhausts,
}

named_signal-confirmed :
    (name : String) (window : Option QuotaWindow) (observed_at now : ℕ)
    → (named_signal name window observed_at now).confirmed ≡ true
named_signal-confirmed name none observed_at now = refl
named_signal-confirmed name (some window) observed_at now = refl

-- What one signal confirms, and that it has no reset where it confirms nothing.
record Tells (expected : Bool) (windows : List LimitWindow) : Type 0 where
  confirmed : any (λ w. w.confirmed) windows ≡ expected
  unproved : expected ≡ false → All (λ w. w.reset_at ≡ none) windows

signal_windows-Tells :
    (parsed : ParsedOpenAiLimit) (observed_at : ℕ) (quota : Option QuotaSnapshot) (now : ℕ)
    → Tells
        (is_named parsed.window || is_usage parsed.window)
        (open_ai_signal_windows parsed observed_at quota now)
unfolding open_ai_signal_windows
signal_windows-Tells parsed observed_at quota now = elim (Bool-cases (is_named parsed.window)) [
  | inl e ↦ rw e (record {
    confirmed =
        rw
          (named_signal-confirmed parsed.window (snapshot_window quota parsed.window) observed_at
            now)
          refl;
    unproved = λ h. absurd (cc);
  })
  | inr e ↦ elim (Bool-cases (is_usage parsed.window)) [
    | inl f ↦ rw (e, f) (record { confirmed = refl; unproved = λ h. absurd (cc) })
    | inr f ↦ rw (e, f) (record { confirmed = refl; unproved = λ _. (refl, tt) })
  ]
]

windows_of-Tells :
    (input : ClassifyInput)
    → Tells
        (confirms input.body
          && (is_named (reason_text input.body) || is_usage (reason_text input.body)))
        (windows_of input)
windows_of-Tells input = elim (Bool-cases (confirms input.body)) [
  | inl e ↦ rw e (signal_windows-Tells _ input.now input.quota input.now)
  | inr e ↦ rw e (record { confirmed = refl; unproved = λ _. (refl, tt) })
]

kind_of-any :
    (windows : List LimitWindow) (b : Bool)
    → any (λ w. w.confirmed) windows ≡ b
    → (kind_of windows ≡ quota_exhausted) ↔ (b ≡ true)
kind_of-any windows true h = rw h (λ _. refl, λ _. refl)
kind_of-any windows false h = rw h (λ k. absurd (cc), λ k. absurd (cc))

told_or_unproved :
    (expected : Bool) (windows : List LimitWindow)
    → Tells expected windows
    → (expected ≡ true) ⊎ All (λ w. w.reset_at ≡ none) windows
told_or_unproved true windows t = inl refl
told_or_unproved false windows t = inr (t.unproved refl)

-- A body's signal tells of an exhausted quota exactly where its frame failed, or its type is
-- usage_limit_reached, and its reason is the primary or the secondary window or usage_limit_reached.
-- Where it does not, no window of it has a reset.
pub classify_open_ai_limit_body_iff :
    (input : ClassifyInput) (signal : LimitSignal)
    → classify_open_ai_limit_body input ≡ some signal
    → ((signal.kind ≡ quota_exhausted) ↔ (exhausts input.body signal.reason ≡ true))
      × ((exhausts input.body signal.reason ≡ true) ⊎ All (λ w. w.reset_at ≡ none) signal.windows)
unfolding classify_open_ai_limit_body
classify_open_ai_limit_body_iff input signal h =
    elim (Bool-cases (
      is_no_limit (failed_of input.body) (limit_reason input.body)
        (status_of input.status input.body))) [
          | inl e ↦ let nothing : none ≡ some signal = rw e at h in absurd (cc)
          | inr e ↦
              let found : some (signal_of input) ≡ some signal = rw e at h in
              let same : signal_of input ≡ signal = cc in
              let tells = windows_of-Tells input in
              subst
                (λ s.
                  ((s.kind ≡ quota_exhausted) ↔ (exhausts input.body s.reason ≡ true))
                  × ((exhausts input.body s.reason ≡ true)
                      ⊎ All (λ w. w.reset_at ≡ none) s.windows))
                same
                (
                  kind_of-any (windows_of input) _ tells.confirmed,
                  told_or_unproved _ (windows_of input) tells,
                )
        ]
