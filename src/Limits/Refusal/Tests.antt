-- ===== src/Limits/Refusal/Tests.antt =====
-- A run of the terminal facts, and their theorem at concrete accounts.
use openai_auth.Prelude.{ℕ, ◌≡◌, refl, Option, none, some, List, [], ◌∷◌, finite}
use openai_auth.Limits.Accounts.{AccountKey}
use openai_auth.Limits.Refusal.{
  OpenAiTerminalAccount, TerminalCandidate, quota_message, open_ai_terminal_facts,
}
use openai_auth.Limits.Refusal.Terminal.{Honest, open_ai_terminal_facts-Honest}

abbrev key : AccountKey
key = record { namespace = "pool"; account_id = "a"; incarnation = "1" }

-- An account with a quota that is used up, and a mark that nothing proves.
abbrev row : ℕ → OpenAiTerminalAccount
row until = record {
  account = key;
  reading_account = none;
  identity = none;
  reading_identity = none;
  quota = some (record {
    primary = some (record {
      used_percent = 100;
      remaining_percent = 0;
      resets_at = some (finite 5000000);
      checked_at = 1000000;
    });
    secondary = none;
  });
  usable = none;
  floors = record { primary = none; secondary = none };
  confirmed_blockers = [];
  marks = record { until = finite until; evidence_at = finite 1000000 } ∷ [];
}

-- A library that always selects the reset of the quota.
abbrev scan : List TerminalCandidate → Option AccountKey → Option ℕ
scan [] activity = none
scan (c ∷ candidates) activity = some 5000000

hidden : (open_ai_terminal_facts scan (row 4000000 ∷ []) none none none 1200000).candidates ≡ []
unfolding open_ai_terminal_facts
hidden = refl

names_quota :
    (open_ai_terminal_facts scan (row 6000000 ∷ []) none none none 1200000).message_key
    ≡ quota_message
unfolding open_ai_terminal_facts
names_quota = refl

open_ai_terminal_facts-Honest_example :
    Honest scan
      (row 6000000 ∷ [])
      none
      1200000
      (open_ai_terminal_facts scan (row 6000000 ∷ []) none none none 1200000)
open_ai_terminal_facts-Honest_example =
    open_ai_terminal_facts-Honest scan (row 6000000 ∷ []) none none none 1200000
