-- ===== src/Sync/Runner/Laws.antt =====
-- When a run restarts the servers.
use statiko.Base.{◌≡◌, Bool, true, false, ◌||◌, inr, none, some}
use statiko.Base.Exec.{ok}
use statiko.State.Types.{Time, NodeStatus}
use statiko.State.Store.{StateStore}
use statiko.State.Manager.Locks.{Manager}
use statiko.State.Manager.Sites.{get_sites}
use statiko.State.Manager.Status.{set_node_health}
use statiko.Sync.Runner.{System, Log, State, site_errors}

module _ (S : StateStore) (Y : System S) where
  -- From one state to another by a restart of the web server without an error, or by nothing.
  abbrev Restarts : Bool → State S Y → State S Y → Type 0
  Restarts false s t = t ≡ s
  Restarts true s t = (Y.restart s.1 ≡ (none, t.1)) × (t.0 ≡ s.0)

  -- What a run has got from the app manager and from the web server, and what it made of it. Both
  -- have seen the sites of the state `before`, the second in the state that the first has left.
  pub record HasSynced (before : State S Y) (log : Log) (end : State S Y) : Type 0 where
    apps_changed : Bool
    api_changed : Bool
    between : State S Y
    apps : Y.sync_apps (get_sites S before.0) before ≡ (inr (apps_changed, api_changed), between)
    configuration_changed : Bool
    after : State S Y
    configuration :
        Y.sync_configuration (get_sites S before.0) between ≡ (inr configuration_changed, after)
    web : log.web_restarted ≡ (apps_changed || configuration_changed)
    api : log.api_restarted ≡ api_changed
    notified : log.notified ≡ site_errors S Y (get_sites S before.0) after.0
    restarted : Restarts log.web_restarted after end

  -- The status has been stored as running, and the run began in the state that this has left.
  pub record IsComplete (now : Time) (start : State S Y) (log : Log) (end : State S Y)
      : Type 0 where
    status : NodeStatus
    had : start.0.node_health ≡ some status
    marked : Manager S
    stored :
        set_node_health S
          (some (record status {
            sync = record (status.sync) { running = true; last_sync = some now };
          }))
          start.0
        ≡ (ok tt, marked)
    synced : HasSynced (marked, start.1) log end
