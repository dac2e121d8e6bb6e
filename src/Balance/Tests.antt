-- ===== src/Balance/Tests.antt =====
-- Runs of placement and of leaving an account, and their theorems at concrete inputs.
use openai_auth.Prelude.{◌≡◌, ◌↔◌, ◌⊎◌, refl, inl, true, none, some, [], ◌∷◌, finite}
use openai_auth.Balance.{
  AccountWindow, AccountQuota, BreakInput, migrate, exhausted, retain, stale, primary_window,
  is_permanent, decide_sticky_break,
}
use openai_auth.Balance.Weights.{
  StickySelectionCandidate, StickySelectionInput, StickyChoice, selects, weighted_source,
  mode_fallback, eligible, select_sticky_candidate,
}
use openai_auth.Balance.Choice.{Best, selects-Best}
use openai_auth.Balance.Breaks.{Migrates, Shows, decide_sticky_break-Migrates}

abbrev half_left : AccountWindow
half_left = record {
  remaining_percent = finite 50;
  checked_at = some (finite 1000000);
  resets_at = some (finite 8200000);
  window_minutes = none;
}

abbrev quota : AccountQuota
quota = record {
  checked_at = none;
  primary = some half_left;
  secondary = none;
  spend_control = none;
}

abbrev account : StickySelectionCandidate
account = record {
  account_id = 97 ∷ [];
  quota = some quota;
  quota_checked_at = none;
  reserve_percent = record { primary = none; secondary = none };
  configured_order = 0;
  reset_credits_applicable = none;
  killswitch_passes = none;
}

-- The same window resets in half the time, so its account weighs twice as much.
abbrev faster : StickySelectionCandidate
faster = record account {
  account_id = 98 ∷ [];
  quota =
      some
        (record quota { primary = some (record half_left { resets_at = some (finite 4600000) }) });
  configured_order = 1;
}

abbrev input : StickySelectionInput
input = record {
  candidates = account ∷ faster ∷ [];
  pending = λ id. 0;
  request_bytes = 1000;
  now = 1000000;
}

picks_faster :
    select_sticky_candidate input
    ≡ selects
        (record { account_id = 98 ∷ []; quota_checked_at = some 1000000; source = weighted_source })
unfolding select_sticky_candidate
picks_faster = refl

-- Long after the readings, the configured order decides.
falls_back :
    select_sticky_candidate (record input { now = 9000000 })
    ≡ selects
        (record { account_id = 97 ∷ []; quota_checked_at = some 1000000; source = mode_fallback })
unfolding select_sticky_candidate
falls_back = refl

selects-Best_example :
    (choice : StickyChoice) × (select_sticky_candidate input ≡ selects choice)
    × Best input (eligible (account ∷ faster ∷ [])) choice
selects-Best_example = selects-Best input account (inl refl) refl

abbrev used_up : BreakInput
used_up = record {
  quota =
      some (record quota { primary = some (record half_left { remaining_percent = finite 0 }) });
  quota_checked_at = none;
  status = none;
  now = 1000000;
  killswitch_passes = none;
}

leaves :
    decide_sticky_break used_up ≡ migrate exhausted (some primary_window) (some (finite 8200000))
unfolding decide_sticky_break
leaves = refl

stays : decide_sticky_break (record used_up { now = 9000000 }) ≡ retain stale
unfolding decide_sticky_break
stays = refl

decide_sticky_break-Migrates_example :
    Migrates (decide_sticky_break used_up)
    ↔ ((is_permanent none ≡ true) ⊎ ((q : AccountQuota) × Shows used_up q))
decide_sticky_break-Migrates_example = decide_sticky_break-Migrates used_up
