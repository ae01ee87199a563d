-- ===== src/State/Store.antt =====
-- The interface `StateStore` of state/types.go, over an unknown state of the store, and what its
-- clients rely on.
use statiko.Base.{String, Bool, false, ◌≡◌, ◌≢◌, ◌⊎◌, Option, none, some}
use statiko.Base.Exec.{Error}
use statiko.State.Types.{NodeState, NodeStatus}

-- `modify` is a write through the pointer that `GetState` returned.
pub record StateStore : Type 1 where
  pub Store : Type 0
  pub Lease : Type 0
  pub acquire_lock : String → Bool → Store → (Error ⊎ Lease) × Store
  pub release_lock : Lease → Store → Store
  pub get_state : Store → Option NodeState
  pub modify : NodeState → Store → Store
  pub set_state : NodeState → Store → Option Error × Store
  pub write_state : Store → Option Error × Store
  pub read_state : Store → Option Error × Store
  pub healthy : Store → (Bool × Option Error) × Store
  pub store_node_health : NodeStatus → Store → Option Error × Store

-- Only `modify` and `set_state` change the state in memory: no other node writes meanwhile.
-- `set_state` has no way to fail, and a store that is not healthy says why.
pub record IsLawful (S : StateStore) : Type 0 where
  pub get-modify : (n : NodeState) (s : S.Store) → S.get_state (S.modify n s) ≡ some n
  pub get-set : (n : NodeState) (s : S.Store) → S.get_state (S.set_state n s).1 ≡ some n
  pub set_total : (n : NodeState) (s : S.Store) → (S.set_state n s).0 ≡ none
  pub get-acquire :
      (name : String) (timeout : Bool) (s : S.Store)
      → S.get_state (S.acquire_lock name timeout s).1 ≡ S.get_state s
  pub get-release : (l : S.Lease) (s : S.Store) → S.get_state (S.release_lock l s) ≡ S.get_state s
  pub get-write : (s : S.Store) → S.get_state (S.write_state s).1 ≡ S.get_state s
  pub healthy_error : (s : S.Store) → (S.healthy s).0.0 ≡ false → (S.healthy s).0.1 ≢ none
  pub get-healthy : (s : S.Store) → S.get_state (S.healthy s).1 ≡ S.get_state s
  pub get-store_node_health :
      (h : NodeStatus) (s : S.Store) → S.get_state (S.store_node_health h s).1 ≡ S.get_state s
