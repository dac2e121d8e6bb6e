-- ===== src/Limits/Policy/Marks.antt =====
-- packages/core/src/limit-mark.ts: the command that marks an account limited, and what stands behind
-- its expiry.
use openai_auth.Prelude.{
  ℕ, ◌+◌, ◌<◌, ◌≤◌, infinity, nan, eq_of_==, ◌≡◌, refl, ap, inl, inr, ◌⊎◌, String, Bool, true,
  false, ◌&&◌, not, Option, none, some, JsNumber, finite, arith, if◌then◌else◌, if_intro, ◌==◌,
  nat_eq, Bool-cases,
}
use openai_auth.Quota.{
  QuotaWindow, QuotaSnapshot, reset_time, is_future, snapshot_window,
  resolve_mid_stream_rate_limit_reset_at,
}
use openai_auth.Quota.Resets.{resolve_reset_cases}
use openai_auth.Limits.Accounts.{IdentityBinding}
use openai_auth.Limits.Provenance.{ResetProvenance, unproven, reading, provider, LimitProvenance}
use openai_auth.Limits.Policy.{ParsedOpenAiLimit, fresh_quota_evidence, quota_staleness_ms}

pub data ResetSource : Type 0 where
  provider_source : ResetSource
  retry_after : ResetSource

pub record MarkInput : Type 0 where
  pub binding : IdentityBinding
  pub base_revision : ℕ
  pub producer_id : String
  pub operation_id : String
  pub parsed : ParsedOpenAiLimit
  pub quota : Option QuotaSnapshot
  pub now : ℕ
  pub observed_at : ℕ
  pub evidence_at : ℕ
  pub reset_source : Option ResetSource

-- A `mark` for the account's rate limit in the pool, that merges by the later expiry.
pub record MarkCommand : Type 0 where
  pub binding : IdentityBinding
  pub base_revision : ℕ
  pub producer_id : String
  pub operation_id : String
  pub until : ℕ
  pub evidence_at : ℕ

abbrev pub expiry_of : MarkInput → ℕ
expiry_of input =
    resolve_mid_stream_rate_limit_reset_at input.quota input.parsed.window input.now 60000
      input.parsed.reset_at

abbrev pub is_explicit : MarkInput → Bool
is_explicit input = is_future (reset_time input.parsed.reset_at) input.now

abbrev resets_to : Option ℕ → ℕ → Bool
resets_to none expiry = false
resets_to (some reset) expiry = reset == expiry

abbrev borrowed_window : QuotaWindow → MarkInput → Bool
borrowed_window window input =
    not (is_explicit input)
    && resets_to (reset_time window.resets_at) (expiry_of input)
    && fresh_quota_evidence window.checked_at input.now

-- The window whose reset the mark borrows.
abbrev pub borrowed_of : Option QuotaWindow → MarkInput → Option QuotaWindow
borrowed_of none input = none
borrowed_of (some window) input = if borrowed_window window input then some window else none

abbrev pub borrowed : MarkInput → Option QuotaWindow
borrowed input = borrowed_of (snapshot_window input.quota input.parsed.window) input

abbrev explicit_branch : Option ResetSource → ResetProvenance
explicit_branch none = provider
explicit_branch (some provider_source) = provider
explicit_branch (some retry_after) = unproven

abbrev borrowed_branch : Option QuotaWindow → ResetProvenance
borrowed_branch none = unproven
borrowed_branch (some window) = reading

abbrev borrowed_time : Option QuotaWindow → ℕ → ℕ
borrowed_time none observed_at = observed_at
borrowed_time (some window) observed_at = window.checked_at

unfoldable pub mark_command : MarkInput → MarkCommand
unfolding resolve_mid_stream_rate_limit_reset_at
mark_command input = record {
  binding = input.binding;
  base_revision = input.base_revision;
  producer_id = input.producer_id;
  operation_id = input.operation_id;
  until = expiry_of input;
  evidence_at = input.evidence_at;
}

unfoldable pub mark_provenance : MarkInput → LimitProvenance
unfolding resolve_mid_stream_rate_limit_reset_at
mark_provenance input = record {
  account_key = input.binding.account;
  expiry = finite (expiry_of input);
  branch =
      if is_explicit input
      then explicit_branch input.reset_source
      else borrowed_branch (borrowed input);
  observed_at = finite (borrowed_time (borrowed input) input.observed_at);
  evidence_at = finite input.evidence_at;
}

pub open_ai_rate_limit_command : MarkInput → MarkCommand × LimitProvenance
unfolding mark_command mark_provenance
open_ai_rate_limit_command input = (mark_command input, mark_provenance input)

-- What stands behind the expiry of a mark, by the branch that is recorded for it.
abbrev pub Backed : MarkInput → ResetProvenance → Type 0
Backed input unproven = Unit {0}
Backed input provider =
    (input.parsed.reset_at ≡ some (finite (expiry_of input)))
    × ((input.reset_source ≡ none) ⊎ (input.reset_source ≡ some provider_source))
Backed input reading =
    (window : QuotaWindow) × (snapshot_window input.quota input.parsed.window ≡ some window)
    × (reset_time window.resets_at ≡ some (expiry_of input))
    × (window.checked_at ≤ input.now)
    × (input.now ≤ window.checked_at + quota_staleness_ms)

explicit-expiry :
    (quota : Option QuotaSnapshot) (window : String) (now : ℕ) (o : Option JsNumber)
    → is_future (reset_time o) now ≡ true
    → o ≡ some (finite (resolve_mid_stream_rate_limit_reset_at quota window now 60000 o))
unfolding resolve_mid_stream_rate_limit_reset_at
explicit-expiry quota window now (some (finite time)) h = rw h refl
explicit-expiry quota window now none h = absurd (cc)
explicit-expiry quota window now (some infinity) h = absurd (cc)
explicit-expiry quota window now (some nan) h = absurd (cc)

resets_to-eq : (o : Option ℕ) (expiry : ℕ) → resets_to o expiry ≡ true → o ≡ some expiry
resets_to-eq none expiry h = absurd (cc)
resets_to-eq (some reset) expiry h = ap some (eq_of_== reset expiry h)

borrowed_of-some :
    (q : Option QuotaWindow) (input : MarkInput) (w : QuotaWindow)
    → borrowed_of q input ≡ some w
    → (q ≡ some w) × (borrowed_window w input ≡ true)
borrowed_of-some none input w h = absurd (cc)
borrowed_of-some (some v) input w h = elim (Bool-cases (borrowed_window v input)) [
  | inl e ↦ let same : some v ≡ some w = rw e at h in let at : v ≡ w = cc in (same, rw⁻¹ at e)
  | inr e ↦ let none_of : none ≡ some w = rw e at h in absurd (cc)
]

explicit_branch-Backed :
    (input : MarkInput) (s : Option ResetSource)
    → is_explicit input ≡ true
    → input.reset_source ≡ s
    → Backed input (explicit_branch s)
explicit_branch-Backed input none h e =
    (explicit-expiry input.quota input.parsed.window input.now input.parsed.reset_at h, inl e)
explicit_branch-Backed input (some provider_source) h e =
    (explicit-expiry input.quota input.parsed.window input.now input.parsed.reset_at h, inr e)
explicit_branch-Backed input (some retry_after) h e = tt

borrowed_branch-Backed :
    (input : MarkInput) (b : Option QuotaWindow)
    → borrowed input ≡ b
    → Backed input (borrowed_branch b)
borrowed_branch-Backed input none e = tt
borrowed_branch-Backed input (some w) e =
    let (there, fits) =
      borrowed_of-some (snapshot_window input.quota input.parsed.window) input w e in
    (
      w,
      there,
      resets_to-eq (reset_time w.resets_at) (expiry_of input) (ground (arith, fits)),
      ground (arith, fits),
      ground (arith, fits),
    )

-- The command and what is recorded of it name one expiry, which lies after the present. A provider's
-- reset is claimed only where the limit named just that time and it is not from Retry-After, and a
-- reading only where the window that the limit names has that reset and was read within the quarter of
-- an hour before.
pub open_ai_rate_limit_command-Backed :
    (input : MarkInput)
    → let (command, provenance) = open_ai_rate_limit_command input in
      (input.now < command.until)
      × (provenance.expiry ≡ finite command.until)
      × Backed input provenance.branch
unfolding open_ai_rate_limit_command mark_command mark_provenance
open_ai_rate_limit_command-Backed input = (
  (resolve_reset_cases input.quota input.parsed.window input.now 60000 input.parsed.reset_at
      (omega arith)).0,
  refl,
  if_intro (Backed input) (is_explicit input) _ _
      (λ h. explicit_branch-Backed input input.reset_source h refl)
      (λ _. borrowed_branch-Backed input (borrowed input) refl),
)
