-- ===== src/State/StoreEtcd/Health.antt =====
-- state/store-etcd.go: the health of the store and of the members of the cluster.
use statiko.Base.{
  ℕ, String, ◌<>◌, nat_eq, Bool, true, false, ◌⊎◌, inl, inr, Option, none, some, List, [], ◌∷◌,
  if◌then◌else◌,
}
use statiko.Base.Dict.{Dict, insert}
use statiko.Base.Exec.{Error, Result, ok, err, panic, pure, lift, ◌>>=◌, ◌>>◌}
use statiko.State.Types.{Bytes, NodeStatus}
use statiko.State.Etcd.{Etcd}
use statiko.State.StoreEtcd.{
  EtcdCodec, EtcdStore, EtcdConfig, Task, wrapped, wrap, of_sum, nodes_prefix,
}
use statiko.State.StoreEtcd.Data.{Method, on_server, set_if_different, trim_prefix}

module _ (E : Etcd) (J : EtcdCodec) (K : EtcdConfig) where
  abbrev pub health_of : Option String → EtcdStore E → (Bool × Option Error) × EtcdStore E
  health_of none s = ((true, none), s)
  health_of (some text) s = (
    (false, some ("Connection with etcd in state: " <> text)),
    record s { last_revision = some 0 },
  )

  -- `Healthy`
  unfoldable pub healthy : EtcdStore E → (Bool × Option Error) × EtcdStore E
  healthy s = health_of (E.connection s.server) s

  abbrev pub add_member :
      String → Error ⊎ NodeStatus → Result (Dict NodeStatus) → Result (Dict NodeStatus)
  add_member k (inl e) r = err e
  add_member k (inr h) (ok d) = ok (insert (trim_prefix (nodes_prefix K) k) h d)
  add_member k (inr h) (err e) = err e
  add_member k (inr h) panic = panic

  -- The loop of `ClusterHealth`.
  unfoldable pub decode_members : List (String × Bytes) → Result (Dict NodeStatus)
  decode_members [] = ok []
  decode_members ((k, b) ∷ l) = add_member k (J.unmarshal_health b) (decode_members l)

  abbrev pub members : List (String × Bytes) → Result (Dict NodeStatus)
  members [] = err "Received empty list of cluster members"
  members (x ∷ l) = decode_members (x ∷ l)

  abbrev pub get_members : Task E (List (String × Bytes))
  get_members s = (wrapped (E.get_prefix (nodes_prefix K) s).0, (E.get_prefix (nodes_prefix K) s).1)

  -- `ClusterHealth`
  unfoldable pub cluster_health : Method E J K (Dict NodeStatus)
  cluster_health = on_server E J K (get_members >>= λ l. lift (members l))

  abbrev pub keep_alive : ℕ → Task E Unit
  keep_alive l s =
      (elim (E.keep_alive l s).0 [ none ↦ ok tt | some e ↦ err (wrap e) ], (E.keep_alive l s).1)

  -- A lease of thirty seconds that is kept alive.
  abbrev pub grant_kept : Task E ℕ
  grant_kept = do l ← (λ s. (wrapped (E.grant 30 s).0, (E.grant 30 s).1)); keep_alive l; pure l

  abbrev pub with_lease : Method E J K Unit
  with_lease s =
      if nat_eq s.member_lease 0
      then (on_server E J K grant_kept >>= λ l v. (ok tt, record v { member_lease = l })) s
      else (ok tt, s)

  -- What is stored for nil.
  abbrev pub name_only : NodeStatus
  name_only = record {
    node_name = K.node_name;
    nginx_running = false;
    sync = record { running = false; last_sync = none; sync_error = "" };
    store_healthy = false;
    health = [];
  }

  abbrev pub status_or_name : Option NodeStatus → NodeStatus
  status_or_name none = name_only
  status_or_name (some h) = h

  abbrev pub put_health : Bytes → Method E J K Unit
  put_health b s =
      (on_server E J K
            (set_if_different E J K (nodes_prefix K <> K.member_id) b (some s.member_lease))
          >> pure tt)
        s

  -- `StoreNodeHealth`
  unfoldable pub store_node_health : Option NodeStatus → Method E J K Unit
  store_node_health h = do
    with_lease
    b ← lift (of_sum (J.marshal_health (status_or_name h)))
    put_health b

  -- The goroutine behind `KeepAlive` ends: the lease is lost.
  unfoldable pub lose_lease : EtcdStore E → EtcdStore E
  lose_lease s = record s { member_lease = 0 }
