-- ===== src/Fence/Tests.antt =====
-- Runs of the fence, and its theorems at concrete files and versions.
use openai_auth.Prelude.{◌≡◌, ◌↔◌, refl, true, false, none, some, [], ◌∷◌, finite}
use openai_auth.Fence.Versions.{Text, less, greater, compare_versions}
use openai_auth.Fence.Precedence.{is_at_most, compare_versions_trans}
use openai_auth.Fence.Migration.{
  has_key, lists, raises, no_entry, at_time, FenceOptions, holds, missing, heartbeat_path,
}
use openai_auth.Fence.Looking.{opened, shut, migration_fence_open}
use openai_auth.Fence.Safety.{IsSafe}
use openai_auth.Fence.Clearing.{migration_fence_open_iff}

-- 1.2.3-rc.2, 1.2.3-rc.10, 1.2.3, and 1.3.0
abbrev second_candidate : Text
second_candidate = 49 ∷ 46 ∷ 50 ∷ 46 ∷ 51 ∷ 45 ∷ 114 ∷ 99 ∷ 46 ∷ 50 ∷ []

abbrev tenth_candidate : Text
tenth_candidate = 49 ∷ 46 ∷ 50 ∷ 46 ∷ 51 ∷ 45 ∷ 114 ∷ 99 ∷ 46 ∷ 49 ∷ 48 ∷ []

abbrev release : Text
release = 49 ∷ 46 ∷ 50 ∷ 46 ∷ 51 ∷ []

abbrev next_minor : Text
next_minor = 49 ∷ 46 ∷ 51 ∷ 46 ∷ 48 ∷ []

numbers_count : compare_versions second_candidate tenth_candidate ≡ some less
unfolding compare_versions
numbers_count = refl

candidate_before_release : compare_versions release tenth_candidate ≡ some greater
unfolding compare_versions
candidate_before_release = refl

no_version : compare_versions release (49 ∷ 46 ∷ 50 ∷ []) ≡ none
unfolding compare_versions
no_version = refl

candidate_is_at_most : is_at_most (compare_versions tenth_candidate release) ≡ true
unfolding compare_versions
candidate_is_at_most = refl

release-is_at_most : is_at_most (compare_versions release next_minor) ≡ true
unfolding compare_versions
release-is_at_most = refl

compare_versions_trans_example : is_at_most (compare_versions tenth_candidate next_minor) ≡ true
compare_versions_trans_example =
    compare_versions_trans tenth_candidate release next_minor candidate_is_at_most
      release-is_at_most

-- One heartbeat, `7.json`, of a running process of version 1.2.3.
abbrev heartbeat_name : Text
heartbeat_name = 55 ∷ 46 ∷ 106 ∷ 115 ∷ 111 ∷ 110 ∷ []

abbrev options : Text → FenceOptions
options current = record {
  heartbeats = lists (heartbeat_name ∷ []);
  heartbeat_file = λ name. holds (
      some (record {
        pid = some 7;
        version = some release;
        started_at = at_time (finite 2000000);
        layouts = some [];
      }));
  projects = raises no_entry [];
  is_state_dir = λ project. true;
  ports = λ project. lists [];
  port_file = λ project name. missing;
  modified_at = λ project name. none;
  is_alive = λ pid. some true;
  self_pid = 1;
  current_version = current;
  now = 3000000;
  uptime_ms = 1000000;
  layout_move = true;
  older_generation = false;
}

lets_pass : migration_fence_open (options release) ≡ opened
unfolding migration_fence_open compare_versions has_key
lets_pass = refl

holds_back :
    migration_fence_open (options next_minor)
    ≡ shut (record { pid = some 7; version = release; detail = heartbeat_path heartbeat_name } ∷ [])
unfolding migration_fence_open compare_versions has_key
holds_back = refl

migration_fence_open_iff_example :
    (migration_fence_open (options release) ≡ opened) ↔ IsSafe (options release)
migration_fence_open_iff_example = migration_fence_open_iff (options release)
