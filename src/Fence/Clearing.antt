-- ===== src/Fence/Clearing.antt =====
-- packages/opencode/src/core/version-fence.ts: files that are harmless leave the fence open.
use mathlib.Core.Option
use openai_auth.Prelude.{
  ◌↔◌, ℕ, ◌≡◌, refl, true, false, ◌&&◌, ◌||◌, not, Option, none, some, List, [], ◌∷◌, All, arith,
  if_intro, ◌==◌, nat_eq, JsNumber,
}
use openai_auth.Fence.Versions.{Text, Sign, less, equal, greater, compare_versions}
use openai_auth.Fence.Precedence.{flip, is_at_most, compare_versions-flips}
use openai_auth.Fence.Migration.{
  ProcessRecord, gone, unreadable, readable, FenceOptions, FenceState, stale_by_boot, alive,
  is_older, is_older_sign, on_legacy_layout, heartbeat_pid, port_pid, Listing, listed, unlisted,
  no_entry, not_directory, other_error, list_dir,
}
use openai_auth.Fence.Looking.{
  Verdict, passes, removes, blocks, file_time, heartbeat_verdict, port_verdict, judge_heartbeat,
  judge_port, see_heartbeat, see_port, see_heartbeats, see_ports, see_port_dir, see_projects, look,
  opened, migration_fence_open,
}
use openai_auth.Fence.Opening.{
  IsClear, IsMild, IsHarmless, exited, dead, before_boot, current, HeartbeatIsHarmless,
  PortIsHarmless,
}
use openai_auth.Fence.Safety.{
  PortsAreHarmless, ProjectIsHarmless, IsSafe, look-IsSafe, opened-IsClear,
}

not_older_of_flip :
    (s : Option Sign) → is_at_most (Option.map flip s) ≡ true → is_older_sign s ≡ false
not_older_of_flip (some equal) h = refl
not_older_of_flip (some greater) h = refl
not_older_of_flip (some less) h = absurd (cc)
not_older_of_flip none h = absurd (cc)

not_older :
    (o : FenceOptions) (version : Text)
    → is_at_most (compare_versions o.current_version version) ≡ true
    → is_older o version ≡ false
not_older o version h =
    not_older_of_flip (compare_versions version o.current_version)
      (rw (compare_versions-flips version o.current_version) at h)

-- A record of a process that is not running passes, or is removed.
dead-IsMild :
    (o : FenceOptions) (pid : ℕ) (r : ProcessRecord)
    → alive o pid ≡ false
    → IsMild (heartbeat_verdict o pid r)
dead-IsMild o pid gone d = tt
dead-IsMild o pid unreadable d = rw d tt
dead-IsMild o pid (readable version start layouts) d =
    rw d (if_intro IsMild (stale_by_boot o start) removes passes (λ _. tt) (λ _. tt))

heartbeat-IsMild :
    (o : FenceOptions) (pid : ℕ) (r : ProcessRecord)
    → IsHarmless o pid (λ t. t) o.layout_move r
    → IsMild (heartbeat_verdict o pid r)
heartbeat-IsMild o pid r (exited e) = rw e tt
heartbeat-IsMild o pid r (dead d) = dead-IsMild o pid r d
heartbeat-IsMild o pid r (before_boot version start layouts e f) = rw (e, f) tt
heartbeat-IsMild o pid r (current version start layouts e f g) =
    let h : (is_older o version || o.layout_move && on_legacy_layout layouts) ≡ false =
      ground (arith, not_older o version f, g) in
    rw (e, h)
      (if_intro IsMild (stale_by_boot o start) removes _ (λ _. tt)
        (λ _. if_intro IsMild (not (alive o pid)) passes passes (λ _. tt) (λ _. tt)))

port-IsMild :
    (o : FenceOptions) (pid : ℕ) (r : ProcessRecord) (modified : Option JsNumber)
    → alive o pid ≡ true
    → IsHarmless o pid (λ t. file_time t modified) false r
    → IsMild (port_verdict o r modified)
port-IsMild o pid r modified a (exited e) = rw e tt
port-IsMild o pid r modified a (dead d) = absurd (cc)
port-IsMild o pid r modified a (before_boot version start layouts e f) = rw (e, f) tt
port-IsMild o pid r modified a (current version start layouts e f g) =
    rw (e, not_older o version f)
      (if_intro IsMild (stale_by_boot o (file_time start modified)) passes passes (λ _. tt)
        (λ _. tt))

mild_heartbeat-IsClear :
    (pid : ℕ) (name : Text) (v : Verdict) (s : FenceState)
    → IsMild v
    → IsClear s
    → IsClear (judge_heartbeat pid name v s)
mild_heartbeat-IsClear pid name passes s m h = h
mild_heartbeat-IsClear pid name removes s m h = h
mild_heartbeat-IsClear pid name (blocks version) s m h = absurd m

mild_port-IsClear :
    (pid : ℕ) (project name : Text) (v : Verdict) (s : FenceState)
    → IsMild v
    → IsClear s
    → IsClear (judge_port pid project name v s)
mild_port-IsClear pid project name passes s m h = h
mild_port-IsClear pid project name removes s m h = h
mild_port-IsClear pid project name (blocks version) s m h = absurd m

IsClear-see_heartbeat :
    (o : FenceOptions) (name : Text) (p : Option ℕ) (s : FenceState)
    → heartbeat_pid name ≡ p
    → HeartbeatIsHarmless o name
    → IsClear s
    → IsClear (see_heartbeat o name p s)
IsClear-see_heartbeat o name none s e h c = c
IsClear-see_heartbeat o name (some pid) s e h c =
    if_intro IsClear (pid == o.self_pid) s _ (λ _. c)
      (λ g. mild_heartbeat-IsClear pid name _ s (heartbeat-IsMild o pid _ (h pid e g)) c)

IsClear-see_heartbeats :
    (o : FenceOptions) (names : List Text) (s : FenceState)
    → All (HeartbeatIsHarmless o) names
    → IsClear s
    → IsClear (see_heartbeats o names s)
unfolding see_heartbeats
IsClear-see_heartbeats o [] s h c = c
IsClear-see_heartbeats o (name ∷ names) s h c =
    IsClear-see_heartbeats o names _ h.1
      (IsClear-see_heartbeat o name (heartbeat_pid name) s refl h.0 c)

IsClear-see_port :
    (o : FenceOptions) (project name : Text) (p : Option ℕ) (s : FenceState)
    → port_pid name ≡ p
    → PortIsHarmless o project name
    → IsClear s
    → IsClear (see_port o project name p s)
IsClear-see_port o project name none s e h c = c
IsClear-see_port o project name (some pid) s e h c =
    if_intro IsClear (pid == o.self_pid || not (alive o pid)) s _ (λ _. c)
      (λ g.
        mild_port-IsClear pid project name _ s
          (port-IsMild o pid _ _ (ground (arith, g)) (h pid e (ground (arith, g)))) c)

IsClear-see_ports :
    (o : FenceOptions) (project : Text) (names : List Text) (s : FenceState)
    → All (PortIsHarmless o project) names
    → IsClear s
    → IsClear (see_ports o project names s)
unfolding see_ports
IsClear-see_ports o project [] s h c = c
IsClear-see_ports o project (name ∷ names) s h c =
    IsClear-see_ports o project names _ h.1
      (IsClear-see_port o project name (port_pid name) s refl h.0 c)

IsClear-see_port_dir :
    (o : FenceOptions) (project : Text) (l : Listing) (s : FenceState)
    → PortsAreHarmless o project l
    → IsClear s
    → IsClear (see_port_dir o project l s)
IsClear-see_port_dir o project (listed names) s h c = IsClear-see_ports o project names s h c
IsClear-see_port_dir o project (unlisted not_directory error) s h c = c
IsClear-see_port_dir o project (unlisted no_entry error) s h c = absurd h
IsClear-see_port_dir o project (unlisted other_error error) s h c = absurd h

IsClear-see_projects :
    (o : FenceOptions) (projects : List Text) (s : FenceState)
    → All (ProjectIsHarmless o) projects
    → IsClear s
    → IsClear (see_projects o projects s)
unfolding see_projects
IsClear-see_projects o [] s h c = c
IsClear-see_projects o (project ∷ projects) s h c = IsClear-see_projects o projects _ h.1 (
    if_intro IsClear (not (o.is_state_dir project)) s _ (λ _. c)
      (λ g.
        IsClear-see_port_dir o project (list_dir (o.ports project)) s (h.0 (ground (arith, g))) c))

look-IsClear : (o : FenceOptions) → IsSafe o → IsClear (look o)
unfolding look
look-IsClear o h =
    rw (h.ports.1, h.heartbeats.1, h.own)
      (IsClear-see_projects o h.ports.0 _ h.ports.2
        (IsClear-see_heartbeats o h.heartbeats.0 _ h.heartbeats.2 refl))

-- The fence is open exactly when the migrating process ran no older generation before a layout move,
-- the directories of heartbeats and of projects could be read, and every heartbeat and every port file
-- of another process is harmless: the process has exited or is not running, or the record is of before
-- the boot, or it names a version that is at least the current one, and, for a heartbeat before a
-- layout move, layouts none of which is the legacy one.
pub migration_fence_open_iff : (o : FenceOptions) → (migration_fence_open o ≡ opened) ↔ IsSafe o
unfolding migration_fence_open
migration_fence_open_iff o =
    (λ h. look-IsSafe o (opened-IsClear (look o) h), λ h. rw (look-IsClear o h) refl)
