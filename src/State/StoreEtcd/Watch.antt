-- ===== src/State/StoreEtcd/Watch.antt =====
-- state/store-etcd.go: what other nodes have written.
use statiko.Base.{ℕ, ltb, Bool, true, false, Option, none, some, if◌then◌else◌}
use statiko.Base.Exec.{Result, ok, err, panic}
use statiko.State.Types.{Bytes}
use statiko.State.Etcd.{Etcd}
use statiko.State.StoreEtcd.{EtcdCodec, EtcdStore, EtcdConfig}
use statiko.State.StoreEtcd.Data.{read_state, unserialize_state}

module _ (E : Etcd) (J : EtcdCodec) (K : EtcdConfig) where
  -- A revision is new if it is above that of the last write, and always while that is -1.
  unfoldable pub is_newer : ℕ → Option ℕ → Bool
  is_newer revision none = true
  is_newer revision (some r) = ltb r revision

  -- The body of the loop of `watchStateChanges` for the last event of an answer, once a second has
  -- passed or no write is going on: whether the callback is invoked, and the store. A state that
  -- cannot be parsed leaves the old one.
  unfoldable pub receive_state : ℕ → Bytes → EtcdStore E → Bool × EtcdStore E
  receive_state revision b s =
      if is_newer revision s.last_revision
      then (true, (unserialize_state E J K b s).1)
      else (false, s)

  abbrev pub refreshed : Result (Unit {0}) → Bool
  refreshed (ok x) = true
  refreshed (err e) = false
  refreshed panic = false

  -- The body of the loop of `startAuxiliaryKeysWatcher` for an answer with events.
  unfoldable pub receive_keys : EtcdStore E → Bool × EtcdStore E
  receive_keys s = let (r, s') = read_state E J K s in (refreshed r, s')
