-- ===== src/State/StoreEtcd/Data.antt =====
-- state/store-etcd.go: writing the state to the keys of etcd and reading it back.
use Prim.Native.String
use Prim.Native.String.{len}
use text.Mathlib.Text.{starts_with}
use statiko.Base.{
  ℕ, String, ◌<>◌, ◌==◌, not, Bool, false, ◌⊎◌, inl, inr, Option, none, some, List, [], ◌∷◌,
  if◌then◌else◌,
}
use statiko.Base.Dict.{Dict, insert}
use statiko.Base.Exec.{Error, Result, ok, err, panic, Exec, pure, lift, ◌>>=◌, ◌>>◌}
use statiko.State.Types.{Bytes, NodeDhParams, NodeState}
use statiko.State.Etcd.{Etcd, Transaction}
use statiko.State.StoreEtcd.{
  EtcdCodec, EtcdStore, EtcdConfig, Task, of_sum, wrapped, wrap, state_key, dhparams_key,
  secrets_prefix,
}

abbrev pub empty_state : NodeState
empty_state = record { sites = []; secrets = none; dhparams = none }

-- `strings.TrimPrefix`
abbrev pub trim_prefix : String → String → String
trim_prefix p s = if starts_with s p then String.slice s (len p) (len s) else s

module _ (E : Etcd) (J : EtcdCodec) (K : EtcdConfig) where
  abbrev pub or_overwrite : String → Bytes → Option ℕ → Transaction → Task E Transaction
  or_overwrite k b l t s =
      if t.succeeded
      then (ok t, s)
      else (of_sum (E.put_if_other k b l s).0, (E.put_if_other k b l s).1)

  abbrev pub put_absent : String → Bytes → Option ℕ → Task E Transaction
  put_absent k b l s = (of_sum (E.put_if_absent k b l s).0, (E.put_if_absent k b l s).1)

  -- `setIfDifferent`
  unfoldable pub set_if_different : String → Bytes → Option ℕ → Task E Transaction
  set_if_different k b l = put_absent k b l >>= or_overwrite k b l

  -- The loop of `serializeState` over the secrets.
  unfoldable pub store_secrets : Dict Bytes → Task E Unit
  store_secrets [] s = (ok tt, s)
  store_secrets ((k, v) ∷ d) s =
      (set_if_different (secrets_prefix K <> k) (J.encode_base64 v) none >> store_secrets d) s

  abbrev pub secrets_or_empty : Option (Dict Bytes) → Dict Bytes
  secrets_or_empty none = []
  secrets_or_empty (some d) = d

  abbrev pub put_dhparams : Error ⊎ Bytes → Task E Unit
  put_dhparams (inl e) s = (err e, s)
  put_dhparams (inr b) s = (set_if_different (dhparams_key K) b none >> pure tt) s

  abbrev pub has_date : NodeDhParams → Bool
  has_date d = elim d.date [ none ↦ false | some t ↦ not (d.pem == "") ]

  unfoldable pub store_dhparams : Option NodeDhParams → Task E Unit
  store_dhparams none s = (ok tt, s)
  store_dhparams (some d) s =
      if has_date d then put_dhparams (J.marshal_dhparams d) s else (ok tt, s)

  -- `serializeState`
  unfoldable pub serialize_state : NodeState → Task E Bytes
  serialize_state n = do
    store_secrets (secrets_or_empty n.secrets)
    store_dhparams n.dhparams
    lift (of_sum (J.marshal_sites n.sites))

  abbrev pub Method : Type 0 → Type 0
  Method A = Exec (EtcdStore E) A

  abbrev pub on_server : {A : Type 0} → Task E A → Method A
  on_server f s = let (r, v) = f s.server in (r, record s { server = v })

  abbrev pub noted : Result Transaction → EtcdStore E → Result (Unit {0}) × EtcdStore E
  noted (ok t) s = (ok tt, if t.succeeded then record s { last_revision = some t.revision } else s)
  noted (err e) s = (err e, record s { last_revision = some 0 })
  noted panic s = (panic, s)

  -- The write of the sites, while `lastRevisionPut` is -1.
  abbrev pub put_state : Bytes → Method Unit
  put_state b s =
      let (r, v) = set_if_different (state_key K) b none s.server in
      noted r (record s { server = v; last_revision = none })

  abbrev pub write_loaded : Option NodeState → Method Unit
  write_loaded none s = (panic, s)
  write_loaded (some n) s = (on_server (serialize_state n) >>= put_state) s

  -- `WriteState`
  unfoldable pub write_state : Method Unit
  write_state s = write_loaded s.state s

  abbrev pub add_secret : String → Error ⊎ Bytes → Result (Dict Bytes) → Result (Dict Bytes)
  add_secret k (inl e) r = err e
  add_secret k (inr b) (ok d) = ok (insert (trim_prefix (secrets_prefix K) k) b d)
  add_secret k (inr b) (err e) = err e
  add_secret k (inr b) panic = panic

  -- The loop of `unserializeState` over the keys of the secrets, of which the last one comes first
  -- into the map. A key without a value is passed over.
  unfoldable pub decode_secrets : List (String × Bytes) → Result (Dict Bytes)
  decode_secrets [] = ok []
  decode_secrets ((k, []) ∷ l) = decode_secrets l
  decode_secrets ((k, x ∷ b) ∷ l) = add_secret k (J.decode_base64 (x ∷ b)) (decode_secrets l)

  abbrev pub with_secrets : NodeState → List (String × Bytes) → Result NodeState
  with_secrets n [] = ok n
  with_secrets n (x ∷ l) = elim (decode_secrets (x ∷ l)) [
    | ok d ↦ ok (record n { secrets = some d })
    | err e ↦ err e
    | panic ↦ panic
  ]

  abbrev pub with_dhparams : NodeState → Option Bytes → Result NodeState
  with_dhparams n none = ok n
  with_dhparams n (some b) = elim (J.unmarshal_dhparams b) [
    | inl e ↦ err (wrap e)
    | inr d ↦ ok (record n { dhparams = some d })
  ]

  abbrev pub get_secrets : Task E (List (String × Bytes))
  get_secrets s =
      (wrapped (E.get_prefix (secrets_prefix K) s).0, (E.get_prefix (secrets_prefix K) s).1)

  abbrev pub get_key : String → Task E (Option Bytes)
  get_key k s = (wrapped (E.get k s).0, (E.get k s).1)

  -- The state that `unserializeState` makes.
  unfoldable pub unserialized : Bytes → Task E NodeState
  unserialized b = do
    n ← lift (of_sum (J.unmarshal_state b))
    l ← get_secrets
    m ← lift (with_secrets n l)
    d ← get_key (dhparams_key K)
    lift (with_dhparams m d)

  abbrev pub loaded : NodeState → Method Unit
  loaded n s = (ok tt, record s { state = some n })

  -- `unserializeState`: a failure leaves the state as it is.
  unfoldable pub unserialize_state : Bytes → Method Unit
  unserialize_state b = on_server (unserialized b) >>= loaded

  abbrev pub create : Method Unit
  create s = write_state (record s { state = some empty_state })

  abbrev pub load_or_create : Option Bytes → Method Unit
  load_or_create none s = create s
  load_or_create (some []) s = create s
  load_or_create (some (x ∷ b)) s = unserialize_state (x ∷ b) s

  -- `ReadState`
  unfoldable pub read_state : Method Unit
  read_state = on_server (get_key (state_key K)) >>= load_or_create
