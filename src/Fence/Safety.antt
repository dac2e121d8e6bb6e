-- ===== src/Fence/Safety.antt =====
-- packages/opencode/src/core/version-fence.ts: the fence is open exactly when nothing blocks.
use openai_auth.Prelude.{
  ◌≡◌, refl, inl, inr, true, false, ◌&&◌, List, [], ◌∷◌, All, nat_eq, Bool-cases,
}
use openai_auth.Fence.Versions.{Text}
use openai_auth.Fence.Migration.{
  Listing, listed, unlisted, no_entry, not_directory, other_error, list_dir, FenceOptions,
  FenceState,
}
use openai_auth.Fence.Looking.{
  see_port_dir, see_projects, see_heartbeat_dir, see_root, see_self, look, opened, result_of,
}
use openai_auth.Fence.Opening.{
  IsClear, block-filled, HeartbeatIsHarmless, PortIsHarmless, see_heartbeats-IsClear,
  see_ports-IsClear,
}

-- A directory that is none has no port files; one that cannot be read blocks.
abbrev pub PortsAreHarmless : FenceOptions → Text → Listing → Type 0
PortsAreHarmless o project (listed names) = All (PortIsHarmless o project) names
PortsAreHarmless o project (unlisted not_directory error) = Unit {0}
PortsAreHarmless o project (unlisted no_entry error) = ⊥
PortsAreHarmless o project (unlisted other_error error) = ⊥

abbrev pub ProjectIsHarmless : FenceOptions → Text → Type 0
ProjectIsHarmless o project =
    o.is_state_dir project ≡ true → PortsAreHarmless o project (list_dir (o.ports project))

-- The migrating process ran no older generation, both directories are read, and no file blocks.
pub record IsSafe (o : FenceOptions) : Type 0 where
  pub own : (o.layout_move && o.older_generation) ≡ false
  pub heartbeats :
      (names : List Text) × (list_dir o.heartbeats ≡ listed names)
      × All (HeartbeatIsHarmless o) names
  pub ports :
      (names : List Text) × (list_dir o.projects ≡ listed names) × All (ProjectIsHarmless o) names

see_port_dir-IsClear :
    (o : FenceOptions) (project : Text) (l : Listing) (s : FenceState)
    → IsClear (see_port_dir o project l s)
    → IsClear s × PortsAreHarmless o project l
see_port_dir-IsClear o project (listed names) s h = see_ports-IsClear o project names s h
see_port_dir-IsClear o project (unlisted not_directory error) s h = (h, tt)
see_port_dir-IsClear o project (unlisted no_entry error) s h = absurd (block-filled _ s h)
see_port_dir-IsClear o project (unlisted other_error error) s h = absurd (block-filled _ s h)

see_projects-IsClear :
    (o : FenceOptions) (projects : List Text) (s : FenceState)
    → IsClear (see_projects o projects s)
    → IsClear s × All (ProjectIsHarmless o) projects
unfolding see_projects
see_projects-IsClear o [] s h = (h, tt)
see_projects-IsClear o (project ∷ projects) s h =
    let rest = see_projects-IsClear o projects _ h in
    elim (Bool-cases (o.is_state_dir project)) [
      | inl e ↦
          let first =
            see_port_dir-IsClear o project (list_dir (o.ports project)) s (rw e at rest.0) in
          (first.0, (λ _. first.1, rest.1))
      | inr e ↦ (rw e at rest.0, (λ f. absurd (cc), rest.1))
    ]

see_root-IsClear :
    (o : FenceOptions) (l : Listing) (s : FenceState)
    → IsClear (see_root o l s)
    → IsClear s × ((names : List Text) × (l ≡ listed names) × All (ProjectIsHarmless o) names)
see_root-IsClear o (listed names) s h =
    let c = see_projects-IsClear o names s h in (c.0, (names, refl, c.1))
see_root-IsClear o (unlisted code error) s h = absurd (block-filled _ s h)

see_heartbeat_dir-IsClear :
    (o : FenceOptions) (l : Listing) (s : FenceState)
    → IsClear (see_heartbeat_dir o l s)
    → IsClear s × ((names : List Text) × (l ≡ listed names) × All (HeartbeatIsHarmless o) names)
see_heartbeat_dir-IsClear o (listed names) s h =
    let c = see_heartbeats-IsClear o names s h in (c.0, (names, refl, c.1))
see_heartbeat_dir-IsClear o (unlisted code error) s h = absurd (block-filled _ s h)

see_self-IsClear :
    (o : FenceOptions) (s : FenceState)
    → IsClear (see_self o s)
    → (o.layout_move && o.older_generation) ≡ false
see_self-IsClear o s h = elim (Bool-cases (o.layout_move && o.older_generation)) [
  | inl e ↦ absurd (block-filled _ s (rw e at h))
  | inr e ↦ e
]

pub look-IsSafe : (o : FenceOptions) → IsClear (look o) → IsSafe o
unfolding look
look-IsSafe o h =
    let roots = see_root-IsClear o (list_dir o.projects) _ h in
    let beats = see_heartbeat_dir-IsClear o (list_dir o.heartbeats) _ roots.0 in
    record { own = see_self-IsClear o _ beats.0; heartbeats = beats.1; ports = roots.1 }

pub opened-IsClear : (s : FenceState) → result_of s.blockers ≡ opened → IsClear s
opened-IsClear s h = go s.blockers refl h
  where
    go : (bs : List _) → s.blockers ≡ bs → result_of bs ≡ opened → s.blockers ≡ []
    go [] e h = e
    go (b ∷ bs) e h = absurd (cc)
