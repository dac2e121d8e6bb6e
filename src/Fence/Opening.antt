-- ===== src/Fence/Opening.antt =====
-- packages/opencode/src/core/version-fence.ts: what an open fence says of the processes.
use mathlib.Core.Option
use openai_auth.Prelude.{
  ℕ, ◌≡◌, refl, subst, ◌≢◌, inl, inr, Bool, true, false, ◌&&◌, ◌||◌, not, Option, none, some, List,
  [], ◌∷◌, ◌++◌, All, arith, ◌==◌, nat_eq, JsNumber, Bool-cases,
}
use openai_auth.Fence.Versions.{Text, Sign, less, equal, greater, compare_versions}
use openai_auth.Fence.Precedence.{flip, is_at_most, compare_versions-flips}
use openai_auth.Fence.Migration.{
  unknown_version, StartedAt, ProcessRecord, gone, unreadable, readable, read_process_record,
  FenceOptions, VersionFenceBlocker, has_key, FenceState, block, stale_by_boot, alive,
  heartbeat_pid, port_pid, is_older_sign, is_older, on_legacy_layout,
}
use openai_auth.Fence.Looking.{
  Verdict, passes, removes, blocks, heartbeat_verdict, file_time, port_verdict, judge_heartbeat,
  judge_port, see_heartbeat, see_port, see_heartbeats, see_ports,
}

abbrev pub IsClear : FenceState → Type 0
IsClear s = s.blockers ≡ []

abbrev pub IsMild : Verdict → Type 0
IsMild passes = Unit {0}
IsMild removes = Unit {0}
IsMild (blocks version) = ⊥

append-filled : (xs : List VersionFenceBlocker) (x : VersionFenceBlocker) → xs ++ x ∷ [] ≢ []
append-filled [] x h = absurd (cc)
append-filled (y ∷ ys) x h = absurd (cc)

pub block-filled : (entry : VersionFenceBlocker) (s : FenceState) → ¬ IsClear (block entry s)
unfolding has_key
block-filled entry s h = elim (Bool-cases (has_key entry s.blockers)) [
  | inl e ↦
      let none_yet : s.blockers ≡ [] = rw e at h in
      let found : false ≡ true = rw none_yet at e in absurd (cc)
  | inr e ↦ append-filled s.blockers entry (rw e at h)
]

judge_heartbeat-IsClear :
    (pid : ℕ) (name : Text) (v : Verdict) (s : FenceState)
    → IsClear (judge_heartbeat pid name v s)
    → IsClear s × IsMild v
judge_heartbeat-IsClear pid name passes s h = (h, tt)
judge_heartbeat-IsClear pid name removes s h = (h, tt)
judge_heartbeat-IsClear pid name (blocks version) s h = absurd (block-filled _ s h)

judge_port-IsClear :
    (pid : ℕ) (project name : Text) (v : Verdict) (s : FenceState)
    → IsClear (judge_port pid project name v s)
    → IsClear s × IsMild v
judge_port-IsClear pid project name passes s h = (h, tt)
judge_port-IsClear pid project name removes s h = (h, tt)
judge_port-IsClear pid project name (blocks version) s h = absurd (block-filled _ s h)

-- Why a record of another process does not block: the process has exited, or is not running, or the
-- record is of before the boot, or it names the current version or a later one and no legacy layout.
pub data IsHarmless (o : FenceOptions) (pid : ℕ) (started : StartedAt → StartedAt)
    (layout_move : Bool) (r : ProcessRecord) : Type 0 where
  exited : r ≡ gone → IsHarmless o pid started layout_move r
  dead : alive o pid ≡ false → IsHarmless o pid started layout_move r
  before_boot :
      (version : Text) (start : StartedAt) (layouts : Option (List (Option Text)))
      → r ≡ readable version start layouts
      → stale_by_boot o (started start) ≡ true
      → IsHarmless o pid started layout_move r
  current :
      (version : Text) (start : StartedAt) (layouts : Option (List (Option Text)))
      → r ≡ readable version start layouts
      → is_at_most (compare_versions o.current_version version) ≡ true
      → (layout_move && on_legacy_layout layouts) ≡ false
      → IsHarmless o pid started layout_move r

at_most_of_flip :
    (s : Option Sign) → is_older_sign s ≡ false → is_at_most (Option.map flip s) ≡ true
at_most_of_flip (some equal) h = refl
at_most_of_flip (some greater) h = refl
at_most_of_flip (some less) h = absurd (cc)
at_most_of_flip none h = absurd (cc)

current_of :
    (o : FenceOptions) (version : Text)
    → is_older o version ≡ false
    → is_at_most (compare_versions o.current_version version) ≡ true
current_of o version h =
    rw (compare_versions-flips version o.current_version)
      (at_most_of_flip (compare_versions version o.current_version) h)

heartbeat_verdict-IsHarmless :
    (o : FenceOptions) (pid : ℕ) (r : ProcessRecord)
    → IsMild (heartbeat_verdict o pid r)
    → IsHarmless o pid (λ t. t) o.layout_move r
heartbeat_verdict-IsHarmless o pid gone h = exited refl
heartbeat_verdict-IsHarmless o pid unreadable h = elim (Bool-cases (alive o pid)) [
  | inl e ↦ absurd (rw e at h)
  | inr e ↦ dead e
]
heartbeat_verdict-IsHarmless o pid (readable version start layouts) h =
    elim (Bool-cases (stale_by_boot o start)) [
      | inl e ↦ before_boot version start layouts refl e
      | inr e ↦ elim (Bool-cases (alive o pid)) [
        | inr f ↦ dead f
        | inl f ↦
            elim (Bool-cases (is_older o version || o.layout_move && on_legacy_layout layouts)) [
              | inl g ↦ absurd (rw (e, f, g) at h)
              | inr g ↦
                  current version start layouts refl (current_of o version (ground (arith, g)))
                    (ground (arith, g))
            ]
      ]
    ]

unknown_version-is_older : (o : FenceOptions) → is_older o unknown_version ≡ true
unfolding compare_versions
unknown_version-is_older o = refl

port_verdict-IsHarmless :
    (o : FenceOptions) (pid : ℕ) (r : ProcessRecord) (modified : Option JsNumber)
    → IsMild (port_verdict o r modified)
    → IsHarmless o pid (λ t. file_time t modified) false r
port_verdict-IsHarmless o pid gone modified h = exited refl
port_verdict-IsHarmless o pid unreadable modified h = absurd (rw (unknown_version-is_older o) at h)
port_verdict-IsHarmless o pid (readable version start layouts) modified h =
    elim (Bool-cases (stale_by_boot o (file_time start modified))) [
      | inl e ↦ before_boot version start layouts refl e
      | inr e ↦ elim (Bool-cases (is_older o version)) [
        | inl g ↦ absurd (rw (e, g) at h)
        | inr g ↦ current version start layouts refl (current_of o version g) refl
      ]
    ]

-- No heartbeat of another process blocks, and no port file does.
abbrev pub HeartbeatIsHarmless : FenceOptions → Text → Type 0
HeartbeatIsHarmless o name =
    (pid : ℕ)
    → heartbeat_pid name ≡ some pid
    → (pid == o.self_pid) ≡ false
    → IsHarmless o pid (λ t. t) o.layout_move (read_process_record (o.heartbeat_file name) pid)

abbrev pub PortIsHarmless : FenceOptions → Text → Text → Type 0
PortIsHarmless o project name =
    (pid : ℕ)
    → port_pid name ≡ some pid
    → (pid == o.self_pid) ≡ false
    → IsHarmless o pid (λ t. file_time t (o.modified_at project name)) false
        (read_process_record (o.port_file project name) pid)

at_same_pid :
    (P : ℕ → Type 0) (p : Option ℕ) (pid other : ℕ)
    → p ≡ some pid
    → p ≡ some other
    → P pid
    → P other
at_same_pid P p pid other e f h = let same : pid ≡ other = cc in subst P same h

see_heartbeat-IsClear :
    (o : FenceOptions) (name : Text) (p : Option ℕ) (s : FenceState)
    → heartbeat_pid name ≡ p
    → IsClear (see_heartbeat o name p s)
    → IsClear s × HeartbeatIsHarmless o name
see_heartbeat-IsClear o name none s e h = (h, λ pid f. absurd (cc))
see_heartbeat-IsClear o name (some pid) s e h = elim (Bool-cases (pid == o.self_pid)) [
  | inl g ↦ (
    rw g at h,
    λ other f k. absurd (
        at_same_pid (λ q. (q == o.self_pid) ≡ false → ⊥) (heartbeat_pid name) pid other e f
          (λ d. cc) k),
  )
  | inr g ↦
      let c =
        judge_heartbeat-IsClear pid name
          (heartbeat_verdict o pid (read_process_record (o.heartbeat_file name) pid)) s
          (rw g at h) in
      (
        c.0,
        λ other f k.
            at_same_pid
              (λ q.
                IsHarmless o q (λ t. t) o.layout_move
                  (read_process_record (o.heartbeat_file name) q))
              (heartbeat_pid name) pid other e f
              (heartbeat_verdict-IsHarmless o pid (read_process_record (o.heartbeat_file name) pid)
                c.1),
      )
]

pub see_heartbeats-IsClear :
    (o : FenceOptions) (names : List Text) (s : FenceState)
    → IsClear (see_heartbeats o names s)
    → IsClear s × All (HeartbeatIsHarmless o) names
unfolding see_heartbeats
see_heartbeats-IsClear o [] s h = (h, tt)
see_heartbeats-IsClear o (name ∷ names) s h =
    let rest = see_heartbeats-IsClear o names _ h in
    let first = see_heartbeat-IsClear o name (heartbeat_pid name) s refl rest.0 in
    (first.0, (first.1, rest.1))

see_port-IsClear :
    (o : FenceOptions) (project name : Text) (p : Option ℕ) (s : FenceState)
    → port_pid name ≡ p
    → IsClear (see_port o project name p s)
    → IsClear s × PortIsHarmless o project name
see_port-IsClear o project name none s e h = (h, λ pid f. absurd (cc))
see_port-IsClear o project name (some pid) s e h =
    elim (Bool-cases (pid == o.self_pid || not (alive o pid))) [
      | inl g ↦ (
        rw g at h,
        λ other f k.
            at_same_pid
              (λ q. (q == o.self_pid) ≡ false → IsHarmless o q started false (record_of q))
              (port_pid name) pid other e f (λ d. dead (ground (arith, g, d))) k,
      )
      | inr g ↦
          let c =
            judge_port-IsClear pid project name
              (port_verdict o (record_of pid) (o.modified_at project name)) s (rw g at h) in
          (
            c.0,
            λ other f k.
                at_same_pid (λ q. IsHarmless o q started false (record_of q)) (port_pid name) pid
                  other e f
                  (port_verdict-IsHarmless o pid (record_of pid) (o.modified_at project name) c.1),
          )
    ]
  where
    started : StartedAt → StartedAt
    started t = file_time t (o.modified_at project name)

    record_of : ℕ → ProcessRecord
    record_of q = read_process_record (o.port_file project name) q

pub see_ports-IsClear :
    (o : FenceOptions) (project : Text) (names : List Text) (s : FenceState)
    → IsClear (see_ports o project names s)
    → IsClear s × All (PortIsHarmless o project) names
unfolding see_ports
see_ports-IsClear o project [] s h = (h, tt)
see_ports-IsClear o project (name ∷ names) s h =
    let rest = see_ports-IsClear o project names _ h in
    let first = see_port-IsClear o project name (port_pid name) s refl rest.0 in
    (first.0, (first.1, rest.1))
