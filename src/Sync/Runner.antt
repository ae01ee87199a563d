-- ===== src/Sync/Runner.antt =====
-- sync/run.go: what one run does. The app manager and the web server are parameters.
pub mod Laws
use statiko.Base.{String, Bool, true, false, ◌||◌, ◌⊎◌, inl, inr, Option, none, some, List, [], ◌∷◌}
use statiko.Base.Exec.{Error, Result, ok, err, panic, of_error}
use statiko.State.Types.{Time, SiteState, NodeStatus}
use statiko.State.Store.{StateStore}
use statiko.State.Manager.Locks.{Manager}
use statiko.State.Manager.Sites.{get_sites}
use statiko.State.Manager.Status.{set_node_health, get_site_health}

-- `sync_apps` is `SyncState` of the app manager, `sync_configuration` and `restart` are methods of
-- the web server, over the state of the node's software. The manager is part of it, since these
-- methods write the health of sites.
pub record System (S : StateStore) : Type 1 where
  pub World : Type 0
  pub sync_apps : List SiteState → Manager S × World → (Error ⊎ (Bool × Bool)) × (Manager S × World)
  pub sync_configuration : List SiteState → Manager S × World → (Error ⊎ Bool) × (Manager S × World)
  pub restart : World → Option Error × World

-- What a run has done: the errors it notified of, and whether it restarted the two servers.
pub record Log : Type 0 where
  pub notified : List (String × Error)
  pub web_restarted : Bool
  pub api_restarted : Bool

abbrev pub quiet : Log
quiet = record { notified = []; web_restarted = false; api_restarted = false }

-- `record s.sync { … }` on the status that the manager has.
abbrev pub running_status : Time → NodeStatus → NodeStatus
running_status now h = record h { sync = record (h.sync) { running = true; last_sync = some now } }

module _ (S : StateStore) (Y : System S) where
  abbrev pub State : Type 0
  State = Manager S × Y.World

  -- The loop over the sites with an error.
  unfoldable pub site_errors : List SiteState → Manager S → List (String × Error)
  site_errors [] m = []
  site_errors (s ∷ l) m =
      let rest = site_errors l m in
      elim (get_site_health S s.domain m) [ none ↦ rest | some x ↦ (s.domain, x) ∷ rest ]

  abbrev pub with_restart : Bool → Log → State → Result Log × State
  with_restart false log s = (ok log, s)
  with_restart true log (m, w) =
      let (x, w') = Y.restart w in
      elim x [
        | none ↦ (ok (record log { web_restarted = true }), (m, w'))
        | some e ↦ (err e, (m, w'))
      ]

  abbrev pub after_configuration :
      Bool → Bool → List SiteState → Error ⊎ Bool → State → Result Log × State
  after_configuration changed api sites (inl x) s = (err x, s)
  after_configuration changed api sites (inr conf) s =
      with_restart (changed || conf)
        (record quiet { notified = site_errors sites s.0; api_restarted = api }) s

  abbrev pub after_apps : List SiteState → Error ⊎ (Bool × Bool) → State → Result Log × State
  after_apps sites (inl x) s = (err x, s)
  after_apps sites (inr (changed, api)) s =
      let (r, s') = Y.sync_configuration sites s in after_configuration changed api sites r s'

  abbrev pub run_sites : State → Result Log × State
  run_sites s =
      let sites = get_sites S s.0 in let (r, s') = Y.sync_apps sites s in after_apps sites r s'

  abbrev pub after_health : Result (Unit {0}) → State → Result Log × State
  after_health (ok x) s = run_sites s
  after_health (err x) s = (err x, s)
  after_health panic s = (panic, s)

  abbrev pub mark_running : Time → Option NodeStatus → State → Result Log × State
  mark_running now none s = (panic, s)
  mark_running now (some h) (m, w) =
      let (r, m') = set_node_health S (some (running_status now h)) m in after_health r (m', w)

  -- `runner`. The status object is changed before it is stored.
  unfoldable pub runner : Time → State → Result Log × State
  runner now s = mark_running now s.0.node_health s
