-- ===== src/Limits/Policy/Tests.antt =====
-- Runs of the limit policy, and its theorems at concrete limits.
use openai_auth.Prelude.{
  ℕ, ◌<◌, ◌≡◌, ◌↔◌, ◌⊎◌, refl, inl, Bool, true, false, Option, none, some, [], ◌∷◌, All, finite,
}
use openai_auth.Quota.{QuotaWindow, QuotaSnapshot}
use openai_auth.Limits.Accounts.{AccountKey}
use openai_auth.Limits.Provenance.{provider}
use openai_auth.Limits.Policy.{
  LimitWindow, LimitCandidate, blocking_windows, open_ai_confirmed_blockers,
}
use openai_auth.Limits.Policy.Blockers.{Covers, blocking_windows-Covers}
use openai_auth.Limits.Policy.Classes.{
  LimitDetail, LimitBody, ClassifyInput, quota_exhausted, signal_of, classify_open_ai_limit_body,
  exhausts,
}
use openai_auth.Limits.Policy.Exhausted.{classify_open_ai_limit_body_iff}
use openai_auth.Limits.Policy.Holds.{
  LimitAxes, open_ai_limit_axes, PolicyFacts, opencode1, should_decide_open_ai_limit,
  decide_open_ai_limit,
}
use openai_auth.Limits.Policy.Holding.{Grounded, decide_open_ai_limit-Grounded}
use openai_auth.Limits.Policy.Marks.{
  MarkInput, Backed, open_ai_rate_limit_command, open_ai_rate_limit_command-Backed,
}

abbrev account : AccountKey
account = record { namespace = "pool"; account_id = "a"; incarnation = "1" }

abbrev used_up : QuotaWindow
used_up = record {
  used_percent = 100;
  remaining_percent = 0;
  resets_at = some (finite 5000000);
  checked_at = 1000000;
}

abbrev quota : Option QuotaSnapshot
quota = some (record { primary = some used_up; secondary = none })

abbrev named : LimitWindow
named = record {
  window = "primary";
  confirmed = true;
  confirmed_by_reading = false;
  reset_at = some 6000000;
  observed_at = 1200000;
  provenance = provider;
}

-- The later reset of the signal replaces that of the reading.
later_signal : open_ai_confirmed_blockers (named ∷ []) quota 1200000 ≡ named ∷ []
unfolding open_ai_confirmed_blockers
later_signal = refl

blocking_windows-Covers_example :
    Covers (blocking_windows (named ∷ []) quota 1200000) "primary" (some 6000000)
blocking_windows-Covers_example =
    blocking_windows-Covers (named ∷ []) quota 1200000 named (inl (inl refl, refl))

abbrev no_detail : LimitDetail
no_detail = record { kind = none; code = none; resets_at = none; resets_in_seconds = none }

abbrev body : LimitBody
body = record {
  own = no_detail;
  error = some (record no_detail {
    kind = some "usage_limit_reached";
    resets_in_seconds = some (finite 60);
  });
  response = none;
  status = none;
  status_code = none;
}

abbrev response : ClassifyInput
response = record {
  account = account;
  status = some 429;
  retry_after = none;
  body = body;
  now = 1200000;
  quota = none;
}

classified : classify_open_ai_limit_body response ≡ some (signal_of response)
unfolding classify_open_ai_limit_body
classified = refl

classify_open_ai_limit_body_iff_example :
    (((signal_of response).kind ≡ quota_exhausted) ↔ (exhausts body "usage_limit_reached" ≡ true))
    × ((exhausts body "usage_limit_reached" ≡ true)
        ⊎ All (λ w. w.reset_at ≡ none) (signal_of response).windows)
classify_open_ai_limit_body_iff_example =
    classify_open_ai_limit_body_iff response (signal_of response) classified

abbrev candidate : LimitCandidate
candidate = record {
  account = account;
  admitted = true;
  confirmed_blockers = some (named ∷ []);
  blockers = record { hard = true; until = some 5500000 } ∷ [];
}

-- A hold is given by its longest wait.
abbrev facts : PolicyFacts ℕ
facts = record {
  after_limit = true;
  host = opencode1;
  status = some 429;
  candidates = candidate ∷ [];
  attempted = some account;
  now = 1200000;
  hold = some 300;
}

-- A reducer that decides for the hold that it is given.
abbrev decide : PolicyFacts ℕ → LimitAxes Bool → Option ℕ
decide f axes = f.hold

keeps_hold : decide_open_ai_limit decide true facts true [] ≡ some (some 300)
unfolding decide_open_ai_limit
keeps_hold = refl

drops_hold :
    decide_open_ai_limit decide true (record facts { status = some 401 }) true [] ≡ some none
unfolding decide_open_ai_limit
drops_hold = refl

decide_open_ai_limit-Grounded_example :
    ((decide_open_ai_limit decide true facts true [] ≡ none)
      × (true ≡ true)
      × (should_decide_open_ai_limit opencode1 true (some 429) [] ≡ false))
    ⊎ ((hold : Option ℕ) × Grounded facts hold
        × (decide_open_ai_limit decide true facts true []
            ≡ some (decide (record facts { hold = hold }) (open_ai_limit_axes true []))))
decide_open_ai_limit-Grounded_example = decide_open_ai_limit-Grounded decide true facts true []

abbrev mark : MarkInput
mark = record {
  binding = record { account = account; credential_epoch = none; identity = none };
  base_revision = 1;
  producer_id = "p";
  operation_id = "o";
  parsed = record { window = "primary"; reset_at = none };
  quota = quota;
  now = 1200000;
  observed_at = 1200000;
  evidence_at = 1200000;
  reset_source = none;
}

open_ai_rate_limit_command-Backed_example :
    let (command, provenance) = open_ai_rate_limit_command mark in
    (mark.now < command.until)
    × (provenance.expiry ≡ finite command.until)
    × Backed mark provenance.branch
open_ai_rate_limit_command-Backed_example = open_ai_rate_limit_command-Backed mark
