-- ===== src/State/Manager/Status.antt =====
-- state/state.go: the DH parameters, the health of the sites and of the node, and the two channels
-- that trigger background jobs.
pub mod Laws
use statiko.Base.{
  ℕ, String, ◌==◌, Bool, true, false, ◌||◌, Option, none, some, List, [], ◌∷◌, if◌then◌else◌, ◌≡◌,
  refl,
}
use statiko.Base.Dict.{Dict, lookup, insert}
use statiko.Base.Exec.{Error, ok, err, panic, pure, fail, of_error, ◌>>=◌, ◌>>◌}
use statiko.State.Types.{Time, NodeState, NodeDhParams, NodeSync, NodeStatus}
use statiko.State.Store.{StateStore}
use statiko.State.Manager.Locks.{Manager, Method, state_of, locked, assign, set_updated, commit}
use statiko.State.Manager.Secrets.{loaded_state}

-- The status object for a nil argument of `SetNodeHealth`.
abbrev pub default_status : NodeStatus
default_status = record {
  node_name = "";
  nginx_running = true;
  sync = record { running = false; last_sync = none; sync_error = "" };
  store_healthy = true;
  health = [];
}

abbrev pub status_or_default : Option NodeStatus → NodeStatus
status_or_default none = default_status
status_or_default (some h) = h

-- The parameters that are stored, or the default ones without a date.
unfoldable pub dhparams_or_default : String → Option NodeDhParams → String × Option Time
dhparams_or_default default none = (default, none)
dhparams_or_default default (some p) = elim p.date [
  | none ↦ (default, none)
  | some t ↦ if p.pem == "" then (default, none) else (p.pem, some t)
]

abbrev pub error_of : Option (Option Error) → Option Error
error_of none = none
error_of (some x) = x

module _ (S : StateStore) where
  -- `GetDHParams`. The condition reads `state.DHParams` also where `state` is nil, which panics.
  abbrev dhparams_of : String → Option NodeState → Method S (String × Option Time)
  dhparams_of default none m = (panic, m)
  dhparams_of default (some n) m = (ok (dhparams_or_default default n.dhparams), m)

  unfoldable pub get_dhparams : String → Method S (String × Option Time)
  get_dhparams default m = dhparams_of default (state_of S m) m

  abbrev pub store_dhparams : Time → String → Method S Unit
  store_dhparams now val = do
    n ← loaded_state S
    assign S (record n { dhparams = some (record { date = some now; pem = val }) })
    set_updated S now
    commit S

  -- `SetDHParams`
  unfoldable pub set_dhparams : String → Time → String → Method S Unit
  set_dhparams default now val =
      if val == "" || val == default
      then fail "val is empty or invalid"
      else locked S (store_dhparams now val)

  -- `SetNodeHealth`
  unfoldable pub set_node_health : Option NodeStatus → Method S Unit
  set_node_health health m =
      let h = status_or_default health in
      let (x, s) = S.store_node_health h m.store in
      (of_error x, record m { store = s; node_health = some h })

  -- `SetSiteHealth`
  unfoldable pub set_site_health : String → Option Error → Manager S → Manager S
  set_site_health domain x m = record m { site_health = insert domain x m.site_health }

  -- `GetSiteHealth`
  unfoldable pub get_site_health : String → Manager S → Option Error
  get_site_health domain m = error_of (lookup domain m.site_health)

  -- `TriggerRefreshHealth`: a send to a full channel is dropped.
  unfoldable pub trigger_refresh_health : Manager S → Manager S
  trigger_refresh_health m = record m { refresh_health = true }

  -- `TriggerRefreshCerts`
  unfoldable pub trigger_refresh_certs : Manager S → Manager S
  trigger_refresh_certs m = record m { refresh_certs = true }
