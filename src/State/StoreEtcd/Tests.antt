-- ===== src/State/StoreEtcd/Tests.antt =====
-- The theorems about the store in etcd on a cluster in memory.
use statiko.Base.{
  String, ℕ, zero, suc, ◌<>◌, true, ◌≡◌, ◌≢◌, refl, ◌⊎◌, inl, inr, some, List, [], ◌∷◌, string_dec,
}
use statiko.Base.Dict.{Dict, lookup, insert}
use statiko.Base.Entries.{AreDifferent}
use statiko.Base.Exec.{Error, ok, err}
use statiko.State.Types.{Bytes, NodeState, SiteState}
use statiko.State.StoreFile.{secret_of}
use statiko.State.Samples.{state_with}
use statiko.State.Etcd.Memory.{memory_etcd, memory_etcd-IsKeyValue, value_lem, range}
use statiko.State.StoreEtcd.{EtcdCodec, EtcdStore, EtcdConfig, locks_prefix}
use statiko.State.StoreEtcd.Data.{
  write_state, read_state, set_if_different, store_secrets, store_dhparams, serialize_state,
  decode_secrets, unserialized, unserialize_state, empty_state,
}
use statiko.State.StoreEtcd.Locks.{acquire_lock, acquire_lock_refused, IsRefused, waited}
use statiko.State.StoreEtcd.RoundTrip.{
  IsFaithful, restart, read_state-write_state_etcd, deleted_secret_returns,
}

-- Only the empty list of sites is encoded; base64 is no change.
abbrev encode : List SiteState → Error ⊎ Bytes
encode [] = inr (9 ∷ [])
encode (x ∷ l) = inl "refused"

abbrev codec : EtcdCodec
codec = record {
  marshal_sites = encode;
  unmarshal_state = λ b. inr empty_state;
  marshal_dhparams = λ d. inl "refused";
  unmarshal_dhparams = λ b. inl "refused";
  marshal_health = λ h. inr (1 ∷ []);
  unmarshal_health = λ b. inl "refused";
  encode_base64 = λ b. b;
  decode_base64 = λ b. inr b;
}

sites_lem :
    (l : List SiteState) (b : Bytes)
    → encode l ≡ inr b
    → (b ≢ []) × ((n : NodeState) × (codec.unmarshal_state b ≡ inr n) × (n.sites ≡ l))
sites_lem [] b h = (λ e. cc, (empty_state, refl, refl))
sites_lem (x ∷ l) b h = absurd cc

codec-IsFaithful : IsFaithful codec
codec-IsFaithful = record {
  decodes_sites = sites_lem;
  decodes_base64 = λ b. refl;
  encodes_base64 = λ b h. h;
}

abbrev config : EtcdConfig
config = record { prefix = "p"; member_id = "m"; node_name = "n"; lock_value = 1 ∷ [] }

-- A node with a secret, and a cluster that still has an old one.
abbrev node : NodeState
node = state_with [] (some (("new", 5 ∷ 6 ∷ []) ∷ []))

abbrev store : EtcdStore memory_etcd
store = record {
  state = some node;
  server = ("p/secrets/old", 7 ∷ []) ∷ [];
  member_lease = 0;
  last_revision = some 0;
}

written_lem : (write_state memory_etcd codec config store).0 ≡ ok tt
unfolding write_state serialize_state store_secrets store_dhparams set_if_different lookup
    string_dec insert
written_lem = refl

read_lem :
    (read_state memory_etcd codec config (restart (write_state memory_etcd codec config store).1)).0
    ≡ ok tt
unfolding write_state serialize_state store_secrets store_dhparams set_if_different lookup
    string_dec insert read_state unserialize_state unserialized decode_secrets range
read_lem = refl

read_state-write_state_etcd_example :
    (m : NodeState) × ((read_state memory_etcd codec config
        (restart (write_state memory_etcd codec config store).1)).1.state
      ≡ some m)
    × (m.sites ≡ [])
    × ((k : String) (x : Bytes)
        → lookup k (("new", 5 ∷ 6 ∷ []) ∷ []) ≡ some x
        → x ≢ []
        → secret_of m.secrets k ≡ some x)
unfolding lookup string_dec AreDifferent
read_state-write_state_etcd_example =
    read_state-write_state_etcd memory_etcd memory_etcd-IsKeyValue codec config codec-IsFaithful
      node store refl (refl, tt) written_lem read_lem

deleted_secret_returns_example :
    (m : NodeState) × ((read_state memory_etcd codec config
        (restart (write_state memory_etcd codec config store).1)).1.state
      ≡ some m)
    × (secret_of m.secrets "old" ≡ some (7 ∷ []))
unfolding lookup string_dec
deleted_secret_returns_example =
    deleted_secret_returns memory_etcd memory_etcd-IsKeyValue codec config codec-IsFaithful node
      store refl written_lem read_lem "old" (7 ∷ []) refl (λ e. cc)
      (value_lem "p/secrets/old" store.server)

-- Another node has the lock.
abbrev held : Dict Bytes
held = ("p/locks/state", 2 ∷ []) ∷ []

refused_lem : (i : ℕ) → IsRefused memory_etcd config i "p/locks/state" 1 held
unfolding lookup string_dec
refused_lem zero = tt
refused_lem (suc i) = (refl, refused_lem i)

acquire_lock_refused_example : acquire_lock memory_etcd config 3 "state" true held ≡ (
  err "could not obtain a state lock - timeout occurred",
  waited memory_etcd config 40 (locks_prefix config <> "state") 1 held,
)
acquire_lock_refused_example =
    acquire_lock_refused memory_etcd config 3 "state" 1 held refl (refused_lem 40)
