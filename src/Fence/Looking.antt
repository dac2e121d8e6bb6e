-- ===== src/Fence/Looking.antt =====
-- packages/opencode/src/core/version-fence.ts: the walk over heartbeats and port files, and its result.
use openai_auth.Prelude.{
  ℕ, Bool, true, false, ◌&&◌, ◌||◌, not, Option, none, some, List, [], ◌∷◌, ◌++◌, leb,
  if◌then◌else◌, ◌==◌, nat_eq, JsNumber, sort_by,
}
use openai_auth.Fence.Versions.{Text}
use openai_auth.Fence.Migration.{
  unknown_version, no_entry, not_directory, other_error, Listing, listed, unlisted, list_dir,
  StartedAt, not_given, at_time, no_time, ProcessRecord, gone, unreadable, readable,
  read_process_record, FenceOptions, older_plugin, heartbeat_path, port_path, dir_error,
  VersionFenceBlocker, FenceState, block, stale_by_boot, alive, heartbeat_pid, port_pid, is_older,
  on_legacy_layout,
}

-- What becomes of a record.
pub data Verdict : Type 0 where
  passes : Verdict
  removes : Verdict
  blocks : Text → Verdict

abbrev pub heartbeat_verdict : FenceOptions → ℕ → ProcessRecord → Verdict
heartbeat_verdict o pid gone = passes
heartbeat_verdict o pid unreadable = if not (alive o pid) then passes else blocks unknown_version
heartbeat_verdict o pid (readable version started layouts) =
    if stale_by_boot o started
    then removes
    else if not (alive o pid)
    then passes
    else if is_older o version || o.layout_move && on_legacy_layout layouts
    then blocks version
    else passes

-- Where the record gives no start, the file's time stands for it.
abbrev pub file_time : StartedAt → Option JsNumber → StartedAt
file_time not_given (some time) = at_time time
file_time not_given none = no_time
file_time (at_time time) modified = at_time time
file_time no_time modified = no_time

abbrev pub port_verdict : FenceOptions → ProcessRecord → Option JsNumber → Verdict
port_verdict o gone modified = passes
port_verdict o unreadable modified =
    if is_older o unknown_version then blocks unknown_version else passes
port_verdict o (readable version started layouts) modified =
    if stale_by_boot o (file_time started modified)
    then passes
    else if is_older o version
    then blocks version
    else passes

abbrev pub judge_heartbeat : ℕ → Text → Verdict → FenceState → FenceState
judge_heartbeat pid name passes s = s
judge_heartbeat pid name removes s = record s { removed = s.removed ++ name ∷ [] }
judge_heartbeat pid name (blocks version) s =
    block (record { pid = some pid; version = version; detail = heartbeat_path name }) s

abbrev pub judge_port : ℕ → Text → Text → Verdict → FenceState → FenceState
judge_port pid project name passes s = s
judge_port pid project name removes s = s
judge_port pid project name (blocks version) s =
    block (record { pid = some pid; version = version; detail = port_path project name }) s

abbrev pub see_heartbeat : FenceOptions → Text → Option ℕ → FenceState → FenceState
see_heartbeat o name none s = s
see_heartbeat o name (some pid) s =
    if pid == o.self_pid
    then s
    else judge_heartbeat pid name
        (heartbeat_verdict o pid (read_process_record (o.heartbeat_file name) pid)) s

abbrev pub see_port : FenceOptions → Text → Text → Option ℕ → FenceState → FenceState
see_port o project name none s = s
see_port o project name (some pid) s =
    if pid == o.self_pid || not (alive o pid)
    then s
    else judge_port pid project name
        (port_verdict o (read_process_record (o.port_file project name) pid)
          (o.modified_at project name))
        s

unfoldable pub see_heartbeats : FenceOptions → List Text → FenceState → FenceState
unfolding read_process_record heartbeat_pid
see_heartbeats o [] s = s
see_heartbeats o (name ∷ names) s =
    see_heartbeats o names (see_heartbeat o name (heartbeat_pid name) s)

unfoldable pub see_ports : FenceOptions → Text → List Text → FenceState → FenceState
unfolding read_process_record port_pid
see_ports o project [] s = s
see_ports o project (name ∷ names) s =
    see_ports o project names (see_port o project name (port_pid name) s)

abbrev pub block_dir : Text → FenceState → FenceState
block_dir error s =
    block (record { pid = none; version = unknown_version; detail = dir_error error }) s

abbrev pub see_port_dir : FenceOptions → Text → Listing → FenceState → FenceState
see_port_dir o project (listed names) s = see_ports o project names s
see_port_dir o project (unlisted not_directory error) s = s
see_port_dir o project (unlisted other_error error) s = block_dir error s
see_port_dir o project (unlisted no_entry error) s = block_dir error s

unfoldable pub see_projects : FenceOptions → List Text → FenceState → FenceState
unfolding see_ports
see_projects o [] s = s
see_projects o (project ∷ projects) s = see_projects o projects (
    if not (o.is_state_dir project)
    then s
    else see_port_dir o project (list_dir (o.ports project)) s)

abbrev pub see_heartbeat_dir : FenceOptions → Listing → FenceState → FenceState
see_heartbeat_dir o (listed names) s = see_heartbeats o names s
see_heartbeat_dir o (unlisted code error) s = block_dir error s

abbrev pub see_root : FenceOptions → Listing → FenceState → FenceState
see_root o (listed projects) s = see_projects o projects s
see_root o (unlisted code error) s = block_dir error s

abbrev pub see_self : FenceOptions → FenceState → FenceState
see_self o s =
    if o.layout_move && o.older_generation
    then block (record { pid = some o.self_pid; version = unknown_version; detail = older_plugin })
        s
    else s

-- The state after all files were seen.
unfoldable pub look : FenceOptions → FenceState
unfolding see_heartbeats see_projects
look o = see_root o (list_dir o.projects) (
    see_heartbeat_dir o (list_dir o.heartbeats)
      (see_self o (record { blockers = []; removed = [] })))

-- `rank(a) <= rank(b)`; what has no pid ranks last.
abbrev rank_le : Option ℕ → Option ℕ → Bool
rank_le (some m) (some n) = leb m n
rank_le (some m) none = true
rank_le none (some n) = false
rank_le none none = true

abbrev pub blocker_le : VersionFenceBlocker → VersionFenceBlocker → Bool
blocker_le a b = rank_le a.pid b.pid

pub data VersionFenceResult : Type 0 where
  opened : VersionFenceResult
  shut : List VersionFenceBlocker → VersionFenceResult

abbrev pub result_of : List VersionFenceBlocker → VersionFenceResult
result_of [] = opened
result_of (b ∷ bs) = shut (sort_by blocker_le (b ∷ bs))

unfoldable pub migration_fence_open : FenceOptions → VersionFenceResult
unfolding look sort_by
migration_fence_open o = result_of (look o).blockers
