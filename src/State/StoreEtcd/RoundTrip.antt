-- ===== src/State/StoreEtcd/RoundTrip.antt =====
-- What a node that starts anew reads from etcd after a write.
use mathlib.Core.Path.{subst}
use statiko.Base.{
  String, ◌<>◌, ◌≡◌, ◌≢◌, refl, sym, ap, ◌∙◌, inr, Option, none, some, List, [], ◌∷◌, arith,
}
use statiko.Base.Dict.{lookup}
use statiko.Base.Steps.{continued}
use statiko.Base.Entries.{AreDifferent, other_key}
use statiko.Base.Exec.{Result, ok, err, panic, lift, ◌>>◌}
use statiko.State.Types.{Bytes, NodeState, SiteState}
use statiko.State.StoreFile.{secret_of}
use statiko.State.Etcd.{Etcd, Transaction, IsKeyValue}
use statiko.State.StoreEtcd.{EtcdCodec, EtcdStore, EtcdConfig, of_sum, state_key, secrets_prefix}
use statiko.State.StoreEtcd.Data.{
  on_server, set_if_different, store_secrets, secrets_or_empty, store_dhparams, serialize_state,
  noted, put_state, write_loaded, write_state, get_key, unserialized, unserialize_state, loaded,
  load_or_create, read_state,
}
use statiko.State.StoreEtcd.Reading.{unserialized_lem, wrapped_lem}
use statiko.State.StoreEtcd.Values.{
  apart, of_sum_lem, value-set_if_different, value-set_other, value-store_secrets,
  value-store_secrets_other, value-store_dhparams_other, secrets_apart,
}

-- Encoding gives some text, and decoding it gives the same back.
pub record IsFaithful (J : EtcdCodec) : Type 0 where
  pub decodes_sites :
      (l : List SiteState) (b : Bytes)
      → J.marshal_sites l ≡ inr b
      → (b ≢ []) × ((n : NodeState) × (J.unmarshal_state b ≡ inr n) × (n.sites ≡ l))
  pub decodes_base64 : (b : Bytes) → J.decode_base64 (J.encode_base64 b) ≡ inr b
  pub encodes_base64 : (b : Bytes) → b ≢ [] → J.encode_base64 b ≢ []

-- A new process has the cluster and no state in memory.
abbrev pub restart : {E : Etcd} → EtcdStore E → EtcdStore E
restart s = record s { state = none }

module _ (E : Etcd) (V : IsKeyValue E) (J : EtcdCodec) (K : EtcdConfig) where
  abbrev at : String → E.Server → Option Bytes
  at k s = V.value k s

  -- What the keys hold after the state has been written.
  record IsWritten (n : NodeState) (v w : E.Server) : Type 0 where
    body : Bytes
    encoded : J.marshal_sites n.sites ≡ inr body
    sites : at (state_key K) w ≡ some body
    secrets :
        (k : String)
        → at (secrets_prefix K <> k) w
          ≡ at (secrets_prefix K <> k) (store_secrets E J K (secrets_or_empty E J K n.secrets) v).1

  serialized_lem :
      (n : NodeState) (v : E.Server) (b : Bytes)
      → (serialize_state E J K n v).0 ≡ ok b
      → (J.marshal_sites n.sites ≡ inr b)
        × ((store_secrets E J K (secrets_or_empty E J K n.secrets) v).0 ≡ ok tt)
        × ((k : String)
            → at (secrets_prefix K <> k) (serialize_state E J K n v).1
              ≡ at
                  (secrets_prefix K <> k)
                  (store_secrets E J K (secrets_or_empty E J K n.secrets) v).1)
  unfolding serialize_state
  serialized_lem n v b h =
      let p = store_secrets E J K (secrets_or_empty E J K n.secrets) v in
      let rest = λ (_ : Unit {0}).
        store_dhparams E J K n.dhparams >> lift (of_sum (J.marshal_sites n.sites)) in
      let (t, done, same) = continued p rest b h in
      let q = store_dhparams E J K n.dhparams p.1 in
      let (u, done', same') =
        continued q (λ _. lift (of_sum (J.marshal_sites n.sites))) b
          (ap (λ (x : Result Bytes × E.Server). x.0) (sym same) ∙ h) in
      (
        of_sum_lem E V J K (J.marshal_sites n.sites) b
            (ap (λ (x : Result Bytes × E.Server). x.0) (sym (same ∙ same')) ∙ h),
        done,
        λ k.
            ap (λ (x : Result Bytes × E.Server). at (secrets_prefix K <> k) x.1) (same ∙ same')
            ∙ value-store_dhparams_other E V J K n.dhparams (secrets_prefix K <> k) p.1
                (λ e. apart E V J K "/dhparams" k refl (sym e)),
      )

  noted_server : (r : Result Transaction) (s : EtcdStore E) → (noted E J K r s).1.server ≡ s.server
  noted_server (ok t) s = ground arith
  noted_server (err e) s = refl
  noted_server panic s = refl

  noted_ok :
      (r : Result Transaction) (s : EtcdStore E)
      → (noted E J K r s).0 ≡ ok tt
      → (t : Transaction) × (r ≡ ok t)
  noted_ok (ok t) s h = (t, refl)
  noted_ok (err e) s h = absurd cc
  noted_ok panic s h = absurd cc

  abbrev Ended : Type 0
  Ended = Result (Unit {0}) × EtcdStore E

  written_lem :
      (n : NodeState) (s : EtcdStore E)
      → (write_loaded E J K (some n) s).0 ≡ ok tt
      → IsWritten n s.server (write_loaded E J K (some n) s).1.server
  written_lem n s h =
      let p = on_server E J K (serialize_state E J K n) s in
      let (b, done, same) = continued p (put_state E J K) tt h in
      let (encoded, stored, secrets) = serialized_lem n s.server b done in
      let r = set_if_different E J K (state_key K) b none p.1.server in
      let during = record p.1 { server = r.1; last_revision = none } in
      let (t, put) = noted_ok r.0 during (ap (λ (x : Ended). x.0) (sym same) ∙ h) in
      let after : (write_loaded E J K (some n) s).1.server ≡ r.1 =
        ap (λ (x : Ended). x.1.server) same ∙ noted_server r.0 during in
      subst (IsWritten n s.server) (sym after) (record {
        body = b;
        encoded = encoded;
        sites = value-set_if_different E V J K (state_key K) b none p.1.server t put;
        secrets = λ k.
            value-set_other E V J K (state_key K) (secrets_prefix K <> k) b none p.1.server
              (λ e. apart E V J K "/state" k refl (sym e))
            ∙ secrets k;
      })

  value_of : {A : Type 0} {p q : Result A × EtcdStore E} {a : A} → p ≡ q → p.0 ≡ ok a → q.0 ≡ ok a
  value_of e h = cc

  -- What reading a cluster that has the given text of the sites gives.
  read_lem :
      (s : EtcdStore E) (b : Bytes) (n : NodeState)
      → at (state_key K) s.server ≡ some b
      → b ≢ []
      → J.unmarshal_state b ≡ inr n
      → (read_state E J K s).0 ≡ ok tt
      → (m : NodeState) × ((read_state E J K s).1.state ≡ some m)
        × (m.sites ≡ n.sites)
        × ((k : String) (c x : Bytes)
            → at (secrets_prefix K <> k) s.server ≡ some c
            → c ≢ []
            → J.decode_base64 c ≡ inr x
            → secret_of m.secrets k ≡ some x)
  unfolding read_state unserialize_state
  read_lem s [] n there nonempty parsed h = absurd (nonempty refl)
  read_lem s (y ∷ b) n there nonempty parsed h =
      let p = on_server E J K (get_key E J K (state_key K)) s in
      let (o, got, same) = continued p (load_or_create E J K) tt h in
      let found =
        V.got (state_key K) s.server o (wrapped_lem E V J K (E.get (state_key K) s.server).0 o got)
        ∙ there in
      let same2 = same ∙ ap (λ z. load_or_create E J K z p.1) found in
      let q = on_server E J K (unserialized E J K (y ∷ b)) p.1 in
      let (m, done, same3) = continued q (loaded E J K) tt (value_of same2 h) in
      let (sites, secrets) = unserialized_lem E V J K (y ∷ b) n m p.1.server parsed done in
      (
        m,
        ap (λ (z : Ended). z.1.state) (same2 ∙ same3),
        sites,
        λ k c x held.
            secrets k c x (V.value-get (state_key K) (secrets_prefix K <> k) s.server ∙ held),
      )

  stored_lem :
      (n : NodeState) (s : EtcdStore E)
      → s.state ≡ some n
      → (write_state E J K s).0 ≡ ok tt
      → (store_secrets E J K (secrets_or_empty E J K n.secrets) s.server).0 ≡ ok tt
  unfolding write_state
  stored_lem n s held h =
      let wrote : write_state E J K s ≡ write_loaded E J K (some n) s =
        ap (λ o. write_loaded E J K o s) held in
      let (b, done, same) =
        continued (on_server E J K (serialize_state E J K n) s) (put_state E J K) tt
          (value_of wrote h) in
      (serialized_lem n s.server b done).1

  -- A node that starts anew after a write: the sites, and each secret that is then in etcd.
  abbrev ReadBack : NodeState → EtcdStore E → Type 0
  ReadBack n s =
      (m : NodeState) × ((read_state E J K (restart (write_state E J K s).1)).1.state ≡ some m)
      × (m.sites ≡ n.sites)
      × ((k : String) (c x : Bytes)
          → at (secrets_prefix K <> k)
              (store_secrets E J K (secrets_or_empty E J K n.secrets) s.server).1
            ≡ some c
          → c ≢ []
          → J.decode_base64 c ≡ inr x
          → secret_of m.secrets k ≡ some x)

  read_back :
      IsFaithful J
      → (n : NodeState) (s : EtcdStore E) → s.state ≡ some n
      → (write_state E J K s).0 ≡ ok tt
      → (read_state E J K (restart (write_state E J K s).1)).0 ≡ ok tt
      → ReadBack n s
  unfolding write_state
  read_back faithful n s held h done =
      let wrote : write_state E J K s ≡ write_loaded E J K (some n) s =
        ap (λ o. write_loaded E J K o s) held in
      let w = written_lem n s (value_of wrote h) in
      let (nonempty, (n', parsed, sites)) = faithful.decodes_sites n.sites w.body w.encoded in
      let after = (write_state E J K s).1 in
      let same : after.server ≡ (write_loaded E J K (some n) s).1.server =
        ap (λ (z : Ended). z.1.server) wrote in
      let (m, state, sites', secrets) =
        read_lem (restart after) w.body n' (ap (at (state_key K)) same ∙ w.sites) nonempty parsed
          done in
      (
        m,
        state,
        sites' ∙ sites,
        λ k c x there. secrets k c x (ap (at (secrets_prefix K <> k)) same ∙ w.secrets k ∙ there),
      )

  -- After `WriteState` has returned nil, a node that starts anew and whose `ReadState` returns nil has
  -- the same sites, and the same value for each secret that is not empty.
  pub read_state-write_state_etcd :
      IsFaithful J
      → (n : NodeState) (s : EtcdStore E) → s.state ≡ some n
      → AreDifferent (secrets_or_empty E J K n.secrets)
      → (write_state E J K s).0 ≡ ok tt
      → (read_state E J K (restart (write_state E J K s).1)).0 ≡ ok tt
      → (m : NodeState) × ((read_state E J K (restart (write_state E J K s).1)).1.state ≡ some m)
        × (m.sites ≡ n.sites)
        × ((k : String) (x : Bytes)
            → lookup k (secrets_or_empty E J K n.secrets) ≡ some x
            → x ≢ []
            → secret_of m.secrets k ≡ some x)
  read_state-write_state_etcd faithful n s held different h done =
      let (m, state, sites, secrets) = read_back faithful n s held h done in
      (
        m,
        state,
        sites,
        λ k x there nonempty.
            secrets k (J.encode_base64 x) x
              (value-store_secrets E V J K (secrets_or_empty E J K n.secrets) k x s.server different
                there (stored_lem n s held h))
              (faithful.encodes_base64 x nonempty) (faithful.decodes_base64 x),
      )

  -- A secret that is in etcd and no longer in the state, as after `DeleteSecret`, is still there after
  -- `WriteState` has returned nil: a node that starts anew has it.
  pub deleted_secret_returns :
      IsFaithful J
      → (n : NodeState) (s : EtcdStore E) → s.state ≡ some n
      → (write_state E J K s).0 ≡ ok tt
      → (read_state E J K (restart (write_state E J K s).1)).0 ≡ ok tt
      → (k : String) (x : Bytes) → lookup k (secrets_or_empty E J K n.secrets) ≡ none
      → x ≢ []
      → at (secrets_prefix K <> k) s.server ≡ some (J.encode_base64 x)
      → (m : NodeState) × ((read_state E J K (restart (write_state E J K s).1)).1.state ≡ some m)
        × (secret_of m.secrets k ≡ some x)
  deleted_secret_returns faithful n s held h done k x gone nonempty there =
      let (m, state, sites, secrets) = read_back faithful n s held h done in
      (
        m,
        state,
        secrets k (J.encode_base64 x) x
            (value-store_secrets_other E V J K (secrets_or_empty E J K n.secrets)
                (secrets_prefix K <> k) s.server
                (λ i b e.
                  secrets_apart E V J K i k
                    (λ z. other_key k i b (secrets_or_empty E J K n.secrets) gone e (sym z)))
              ∙ there)
            (faithful.encodes_base64 x nonempty) (faithful.decodes_base64 x),
      )
