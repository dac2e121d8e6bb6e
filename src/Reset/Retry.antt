-- ===== src/Reset/Retry.antt =====
-- packages/core/src/reset-credits.ts: a retry sends what was sent before.
use openai_auth.Prelude.{◌≡◌, String, false, Option, some, string_eq, option_eq}
use openai_auth.Reset.{SavedResetPair, ResetAccountState, pair_of, is_of_other_account}
use openai_auth.Reset.Answers.{SameSend}

-- The pair stands in a state, and may be sent by the account.
abbrev Ready : String → SavedResetPair → Option ResetAccountState → Type 0
Ready account pair state =
    (saved : SavedResetPair) × (pair_of state ≡ some saved)
    × SameSend saved pair
    × (is_of_other_account saved (some account) ≡ false)
