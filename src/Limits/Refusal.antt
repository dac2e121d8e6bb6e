-- ===== src/Limits/Refusal.antt =====
-- packages/core/src/quota-refusal.ts: what is known of the next reset when every account is blocked.
-- `scanTerminalReset` of `@cortexkit/common-auth/limits` is an argument, as are the facts that are only
-- handed to it. A reset is given by its time and that of its evidence.
pub mod Walking
pub mod Terminal
mod Tests
use mathlib.Core.Option
use openai_auth.Prelude.{
  ℕ, String, Bool, true, false, ◌&&◌, ◌||◌, not, Option, none, some, List, [], ◌∷◌, ◌++◌, ltb, leb,
  any, if◌then◌else◌, ◌==◌, string_eq, or_else, is_some, JsNumber, finite, infinity, nan,
}
use openai_auth.Quota.{QuotaWindow, QuotaSnapshot, reset_time, snapshot_window}
use openai_auth.Limits.Accounts.{AccountKey, same_account}
use openai_auth.Limits.Provenance.{
  ResetProvenance, unproven, reading, provider, LimitProvenance, ProvenanceStore, read,
}
use openai_auth.Limits.Policy.{LimitWindow, fresh_quota_evidence}

pub data BlockedBy : Type 0 where
  killswitch_floor : BlockedBy
  exhausted : BlockedBy

pub record TerminalReset : Type 0 where
  pub at_time : ℕ
  pub evidence_at : ℕ

pub record TerminalWindow : Type 0 where
  pub window : String
  pub blocked_by : BlockedBy
  pub reset : Option TerminalReset

pub record TerminalMark : Type 0 where
  pub until : JsNumber
  pub evidence_at : JsNumber

pub record Floors : Type 0 where
  pub primary : Option ℕ
  pub secondary : Option ℕ

pub record OpenAiTerminalAccount : Type 0 where
  pub account : AccountKey
  pub reading_account : Option AccountKey
  pub identity : Option String
  pub reading_identity : Option String
  pub quota : Option QuotaSnapshot
  pub usable : Option Bool
  pub floors : Floors
  pub confirmed_blockers : List LimitWindow
  pub marks : List TerminalMark

pub record TerminalCandidate : Type 0 where
  pub account : AccountKey
  pub windows : List TerminalWindow

-- What the walk over the accounts has found.
pub record Found : Type 0 where
  pub windows : List TerminalWindow
  pub guesses : List ℕ
  pub quota : Bool
  pub killswitch : Bool
  pub store : Option ProvenanceStore

-- An identity that is the empty text counts as none.
abbrev differ : Option String → Option String → Bool
differ none b = false
differ (some a) none = false
differ (some a) (some b) = not (a == "") && not (b == "") && not (a == b)

abbrev pub reading_matches : OpenAiTerminalAccount → Bool
reading_matches row =
    same_account row.account (or_else row.reading_account row.account)
    && not (differ row.identity row.reading_identity)

abbrev pub below_floor : ℕ → Option ℕ → Bool
below_floor remaining none = false
below_floor remaining (some floor) = ltb remaining floor

abbrev reset_from : Option ℕ → ℕ → Option TerminalReset
reset_from none evidence_at = none
reset_from (some reset) evidence_at = some (record { at_time = reset; evidence_at = evidence_at })

abbrev pub terminal_window : String → BlockedBy → QuotaWindow → ℕ → TerminalWindow
terminal_window name blocked_by window now = record {
  window = name;
  blocked_by = blocked_by;
  reset =
      reset_from
        (if fresh_quota_evidence window.checked_at now then reset_time window.resets_at else none)
        window.checked_at;
}

abbrev pub add_window : TerminalWindow → Found → Found
add_window window found = record found { windows = found.windows ++ window ∷ [] }

abbrev pub see_window : String → Option QuotaWindow → Option ℕ → ℕ → Found → Found
see_window name none floor now found = found
see_window name (some window) floor now found =
    if below_floor window.remaining_percent floor
    then add_window (terminal_window name killswitch_floor window now)
        (record found { killswitch = true })
    else if fresh_quota_evidence window.checked_at now && leb 100 window.used_percent
    then add_window (terminal_window name exhausted window now) (record found { quota = true })
    else found

unfoldable pub see_blockers : List LimitWindow → ℕ → Found → Found
see_blockers [] now found = found
see_blockers (b ∷ blockers) now found = see_blockers blockers now (
    if b.confirmed && fresh_quota_evidence b.observed_at now
    then add_window
        (record {
          window = b.window;
          blocked_by = exhausted;
          reset = reset_from b.reset_at b.observed_at;
        })
        (record found { quota = true })
    else found)

abbrev pub live_until : JsNumber → ℕ → Option ℕ
live_until (finite time) now = if ltb now time then some time else none
live_until infinity now = none
live_until nan now = none

abbrev fresh_time : JsNumber → ℕ → Option ℕ
fresh_time (finite time) now = if fresh_quota_evidence time now then some time else none
fresh_time infinity now = none
fresh_time nan now = none

-- The time of the evidence, where it proves the reset of a mark.
abbrev pub proof_time : Option LimitProvenance → ℕ → Option ℕ
proof_time none now = none
proof_time (some annotation) now = by_branch annotation.branch
  where
    by_branch : ResetProvenance → Option ℕ
    by_branch unproven = none
    by_branch reading = fresh_time annotation.observed_at now
    by_branch provider = fresh_time annotation.observed_at now

abbrev mark_window : Option TerminalReset → TerminalWindow
mark_window reset = record { window = "account"; blocked_by = exhausted; reset = reset }

abbrev pub add_mark : ℕ → Option ℕ → Found → Found
add_mark until none found =
    add_window (mark_window none) (record found { guesses = found.guesses ++ until ∷ [] })
add_mark until (some observed) found =
    add_window (mark_window (some (record { at_time = until; evidence_at = observed }))) found

abbrev pub read_store :
    AccountKey
    → TerminalMark
    → ℕ
    → Option ProvenanceStore
    → Option LimitProvenance × Option ProvenanceStore
read_store account mark now none = (none, none)
read_store account mark now (some store) =
    let answer = read account mark.until mark.evidence_at (finite now) store in
    (answer.0, some answer.1)

abbrev pub see_live_mark : AccountKey → TerminalMark → Option ℕ → ℕ → Found → Found
see_live_mark account mark none now found = found
see_live_mark account mark (some until) now found =
    let answer = read_store account mark now found.store in
    add_mark until (proof_time answer.0 now) (record found { store = answer.1 })

unfoldable pub see_marks : AccountKey → List TerminalMark → ℕ → Found → Found
unfolding read
see_marks account [] now found = found
see_marks account (mark ∷ marks) now found =
    see_marks account marks now (see_live_mark account mark (live_until mark.until now) now found)

abbrev pub see_reading : OpenAiTerminalAccount → ℕ → Found → Found
see_reading row now found =
    if reading_matches row
    then see_blockers row.confirmed_blockers now (
        see_window "secondary" (snapshot_window row.quota "secondary") row.floors.secondary now
          (see_window "primary" (snapshot_window row.quota "primary") row.floors.primary now found))
    else found

abbrev pub is_unusable : Option Bool → Bool
is_unusable none = false
is_unusable (some usable) = not usable

-- The candidates, and what was found besides.
abbrev pub with_candidate :
    OpenAiTerminalAccount → Found → List TerminalCandidate × Found → List TerminalCandidate × Found
with_candidate row found rest =
    (record { account = row.account; windows = found.windows } ∷ rest.0, rest.1)

unfoldable pub see_accounts :
    List OpenAiTerminalAccount → ℕ → Found → List TerminalCandidate × Found
unfolding see_blockers see_marks
see_accounts [] now found = ([], found)
see_accounts (row ∷ rows) now found =
    let seen =
      see_marks row.account row.marks now (see_reading row now (record found { windows = [] })) in
    let rest = see_accounts rows now seen in
    let skipped = see_accounts rows now found in
    if is_unusable row.usable then skipped else with_candidate row seen rest

pub data MessageKey : Type 0 where
  killswitch_message : MessageKey
  quota_message : MessageKey
  timed_mark_message : MessageKey

pub record TerminalFacts : Type 0 where
  pub message_key : MessageKey
  pub candidates : List TerminalCandidate
  pub activity : Option AccountKey

-- The activity, by its account, where that is the current one.
abbrev pub kept_activity : Option AccountKey → Option AccountKey → Option AccountKey
kept_activity none current = none
kept_activity (some account) none = none
kept_activity (some account) (some current) =
    if same_account account current then some account else none

abbrev pub comes_sooner : Option ℕ → List ℕ → Bool
comes_sooner none guesses = false
comes_sooner (some reset) guesses = any (λ guess. ltb guess reset) guesses

abbrev pub start : Option ProvenanceStore → Found
start store = record {
  windows = [];
  guesses = [];
  quota = false;
  killswitch = false;
  store = store;
}

-- `scan` is the reset that `scanTerminalReset` selects of candidates, for an activity.
unfoldable pub open_ai_terminal_facts :
    (List TerminalCandidate → Option AccountKey → Option ℕ)
    → List OpenAiTerminalAccount
    → Option AccountKey
    → Option AccountKey
    → Option ProvenanceStore
    → ℕ
    → TerminalFacts
unfolding see_accounts
open_ai_terminal_facts scan accounts activity current store now =
    let seen = see_accounts accounts now (start store) in
    let kept = kept_activity activity current in
    record {
      message_key =
          if seen.1.killswitch
          then killswitch_message
          else if seen.1.quota
          then quota_message
          else timed_mark_message;
      candidates = if comes_sooner (scan seen.0 kept) seen.1.guesses then [] else seen.0;
      activity = kept;
    }
