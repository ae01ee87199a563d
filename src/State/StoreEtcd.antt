-- ===== src/State/StoreEtcd.antt =====
-- state/store-etcd.go: the state in etcd, whose keys hold the sites, each secret and the DH
-- parameters. JSON, base64 and the client of etcd are parameters.
pub mod Data
pub mod Locks
pub mod Watch
pub mod Health
pub mod Values
pub mod Reading
pub mod RoundTrip
mod Tests
use statiko.Base.{
  ℕ, String, ◌<>◌, Bool, true, false, ◌≡◌, ◌⊎◌, inl, inr, Option, none, some, List, [], ◌∷◌,
}
use statiko.Base.Dict.{Dict}
use statiko.Base.Exec.{Error, Result, ok, err, panic, Exec}
use statiko.State.Types.{Bytes, SiteState, NodeDhParams, NodeState, NodeStatus}
use statiko.State.Etcd.{Etcd, Transaction}

-- `json.Marshal` of a `NodeState` with sites only, of DH parameters and of a node's health, their
-- inverses, and base64.
pub record EtcdCodec : Type 0 where
  pub marshal_sites : List SiteState → Error ⊎ Bytes
  pub unmarshal_state : Bytes → Error ⊎ NodeState
  pub marshal_dhparams : NodeDhParams → Error ⊎ Bytes
  pub unmarshal_dhparams : Bytes → Error ⊎ NodeDhParams
  pub marshal_health : NodeStatus → Error ⊎ Bytes
  pub unmarshal_health : Bytes → Error ⊎ NodeStatus
  pub encode_base64 : Bytes → Bytes
  pub decode_base64 : Bytes → Error ⊎ Bytes

-- `errors.Wrap(err, "")`
abbrev pub wrap : Error → Error
wrap e = ": " <> e

-- The fields of `StateStoreEtcd` that change. `member_lease` is zero where there is none, and `none`
-- for `last_revision` is -1, the mark of a write that is going on.
pub record EtcdStore (E : Etcd) : Type 0 where
  pub state : Option NodeState
  pub server : E.Server
  pub member_lease : ℕ
  pub last_revision : Option ℕ

-- The fields that `Init` sets once. `node_name` and `lock_value` are the node's name and what it
-- writes under the key of a lock.
pub record EtcdConfig : Type 0 where
  pub prefix : String
  pub member_id : String
  pub node_name : String
  pub lock_value : Bytes

module _ (K : EtcdConfig) where
  abbrev pub state_key : String
  state_key = K.prefix <> "/state"

  abbrev pub dhparams_key : String
  dhparams_key = K.prefix <> "/dhparams"

  abbrev pub locks_prefix : String
  locks_prefix = K.prefix <> "/locks/"

  abbrev pub nodes_prefix : String
  nodes_prefix = K.prefix <> "/nodes/"

  abbrev pub secrets_prefix : String
  secrets_prefix = K.prefix <> "/secrets/"

-- A call of the client from a method of the store.
abbrev pub Task : Etcd → Type 0 → Type 0
Task E A = Exec (E.Server) A

abbrev pub of_sum : {A : Type 0} → Error ⊎ A → Result A
of_sum (inl e) = err e
of_sum (inr a) = ok a

abbrev pub wrapped : {A : Type 0} → Error ⊎ A → Result A
wrapped (inl e) = err (wrap e)
wrapped (inr a) = ok a
