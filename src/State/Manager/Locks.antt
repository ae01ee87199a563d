-- ===== src/State/Manager/Locks.antt =====
-- state/state.go: the manager's fields, and the frame that its writing operations share: the
-- health test, the lock named "state", the release that `defer` makes, and the final write.
use statiko.Base.{Bool, true, false, ◌⊎◌, inl, inr, Option, none, some}
use statiko.Base.Dict.{Dict}
use statiko.Base.Exec.{Error, ok, err, panic, of_error, Exec}
use statiko.State.Types.{Time, NodeState, NodeStatus}
use statiko.State.Store.{StateStore}

-- `refresh_health` and `refresh_certs` say whether the channel, whose buffer has one place, is full.
pub record Manager (S : StateStore) : Type 0 where
  pub store : S.Store
  pub updated : Option Time
  pub site_health : Dict (Option Error)
  pub node_health : Option NodeStatus
  pub dhparams_generating : Bool
  pub refresh_health : Bool
  pub refresh_certs : Bool

module _ (S : StateStore) where
  abbrev pub Method : Type 0 → Type 0
  Method A = Exec (Manager S) A

  -- The state that the store holds in memory.
  abbrev pub state_of : Manager S → Option NodeState
  state_of m = S.get_state m.store

  -- `if !healthy { return err }`, where `err` may be nil.
  abbrev pub after_health : Method Unit → Bool → Option Error → Method Unit
  after_health body true e m = body m
  after_health body false e m = (of_error e, m)

  unfoldable pub when_healthy : Method Unit → Method Unit
  when_healthy body m =
      let (h, s) = S.healthy m.store in after_health body h.0 h.1 (record m { store = s })

  abbrev pub after_acquire : {A : Type 0} → Method A → Error ⊎ S.Lease → Method A
  after_acquire body (inl e) m = (err e, m)
  after_acquire body (inr lease) m =
      let (r, m') = body m in (r, record m' { store = S.release_lock lease m'.store })

  -- The lock is released on every way out of the body, a panic included.
  unfoldable pub locked : {A : Type 0} → Method A → Method A
  locked body m =
      let (r, s) = S.acquire_lock "state" true m.store in
      after_acquire body r (record m { store = s })

  -- `m.store.GetState()` followed by a field access: a nil pointer is a panic.
  abbrev deref_pointer : Option NodeState → Method NodeState
  deref_pointer none m = (panic, m)
  deref_pointer (some n) m = (ok n, m)

  abbrev pub deref : Method NodeState
  deref m = deref_pointer (state_of m) m

  -- A write through the pointer.
  abbrev pub assign : NodeState → Method Unit
  assign n m = (ok tt, record m { store = S.modify n m.store })

  -- `setUpdated`, at the time `now`
  abbrev pub set_updated : Time → Method Unit
  set_updated now m = (ok tt, record m { updated = some now })

  -- `WriteState`
  abbrev pub commit : Method Unit
  commit m = let (e, s) = S.write_state m.store in (of_error e, record m { store = s })
