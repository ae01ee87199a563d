-- ===== src/State/StoreEtcd/Reading.antt =====
-- What is read from the keys of etcd.
use text.Mathlib.TextPositions.{starts_with-append, slice-append_right, len-append}
use statiko.Base.{
  String, ◌<>◌, string_dec, ◌≡◌, ◌≢◌, refl, sym, ap, ◌∙◌, ◌⊎◌, inl, inr, Option, none, some, List,
  [], ◌∷◌, arith,
}
use statiko.Base.Dict.{Dict, lookup, insert}
use statiko.Base.Steps.{continued}
use statiko.Base.Entries.{of_tail, nothing, of_head, at_insert, other_insert}
use statiko.Base.Exec.{Error, Result, ok, err, panic, lift, ◌>>=◌}
use statiko.State.Types.{Bytes, NodeState, NodeDhParams}
use statiko.State.StoreFile.{secret_of}
use statiko.State.Etcd.{Etcd, IsKeyValue, AreUnder}
use statiko.State.StoreEtcd.{
  EtcdCodec, EtcdConfig, Task, wrapped, wrap, dhparams_key, secrets_prefix,
}
use statiko.State.StoreEtcd.Data.{
  add_secret, decode_secrets, with_secrets, with_dhparams, get_secrets, get_key, unserialized,
  trim_prefix,
}
use statiko.State.StoreEtcd.Values.{secrets_apart}

pub trim_lem : (p k : String) → trim_prefix p (p <> k) ≡ k
trim_lem p k = rw (starts_with-append p k, len-append p k, slice-append_right p k) refl

module _ (E : Etcd) (V : IsKeyValue E) (J : EtcdCodec) (K : EtcdConfig) where
  added_lem :
      (j : String) (r : Error ⊎ Bytes) (q : Result (Dict Bytes)) (d : Dict Bytes)
      → add_secret E J K j r q ≡ ok d
      → (v : Bytes) × (e : Dict Bytes) × (r ≡ inr v)
        × (q ≡ ok e)
        × (insert (trim_prefix (secrets_prefix K) j) v e ≡ d)
  added_lem j (inl x) q d h = absurd cc
  added_lem j (inr v) (ok e) d h = (v, e, refl, refl, ground (arith, h))
  added_lem j (inr v) (err x) d h = absurd cc
  added_lem j (inr v) panic d h = absurd cc

  -- A value that is found among the keys of the secrets is found in the map.
  decode_lem :
      (l : List (String × Bytes)) (d : Dict Bytes) (k : String) (c x : Bytes)
      → AreUnder (secrets_prefix K) l
      → decode_secrets E J K l ≡ ok d
      → lookup (secrets_prefix K <> k) l ≡ some c
      → c ≢ []
      → J.decode_base64 c ≡ inr x
      → lookup k d ≡ some x
  unfolding decode_secrets AreUnder
  decode_lem [] d k c x under h e nonempty decoded = absurd (nothing (secrets_prefix K <> k) c e)
  decode_lem ((j, []) ∷ l) d k c x (_, under) h e nonempty decoded =
      elim (string_dec j (secrets_prefix K <> k)) [
        | yes same ↦ absurd (nonempty (sym (of_head j (secrets_prefix K <> k) [] c l same e)))
        | no differs ↦
            decode_lem l d k c x under h (of_tail j (secrets_prefix K <> k) [] c l differs e)
              nonempty decoded
      ]
  decode_lem ((j, y ∷ b) ∷ l) d k c x ((i, named), under) h e nonempty decoded =
      let (v, d', here, rest, same) =
        added_lem j (J.decode_base64 (y ∷ b)) (decode_secrets E J K l) d h in
      let key : trim_prefix (secrets_prefix K) j ≡ i =
        ap (trim_prefix (secrets_prefix K)) named ∙ trim_lem (secrets_prefix K) i in
      ap (lookup k) (sym same) ∙ ap (λ z. lookup k (insert z v d')) key ∙ elim (string_dec i k) [
        | yes it ↦
            ap (λ z. lookup k (insert z v d')) it
            ∙ at_insert k v d'
            ∙ found v here (named ∙ ap (λ z. secrets_prefix K <> z) it)
        | no differs ↦
            other_insert i k v d' differs
            ∙ decode_lem l d' k c x under rest
                (of_tail j (secrets_prefix K <> k) (y ∷ b) c l
                  (λ z. secrets_apart E V J K i k differs (sym named ∙ z)) e)
                nonempty decoded
      ]
    where
      found :
          (v : Bytes)
          → J.decode_base64 (y ∷ b) ≡ inr v
          → j ≡ (secrets_prefix K <> k)
          → some v ≡ some x
      found v here it =
          let same : (y ∷ b) ≡ c = of_head j (secrets_prefix K <> k) (y ∷ b) c l it e in
          ground (arith, same, here, decoded)

  with_secrets_lem :
      (n m : NodeState) (l : List (String × Bytes))
      → AreUnder (secrets_prefix K) l
      → with_secrets E J K n l ≡ ok m
      → (m.sites ≡ n.sites)
        × ((k : String) (c x : Bytes)
            → lookup (secrets_prefix K <> k) l ≡ some c
            → c ≢ []
            → J.decode_base64 c ≡ inr x
            → secret_of m.secrets k ≡ some x)
  with_secrets_lem n m [] under h =
      (ground (arith, h), λ k c x e. absurd (nothing (secrets_prefix K <> k) c e))
  with_secrets_lem n m (p ∷ l) under h = choose (decode_secrets E J K (p ∷ l)) refl h
    where
      choose :
          (r : Result (Dict Bytes))
          → decode_secrets E J K (p ∷ l) ≡ r
          → (elim r as (λ _. Result NodeState) [
            | ok d ↦ ok (record n { secrets = some d })
            | err e ↦ err e
            | panic ↦ panic
          ])
            ≡ ok m
          → (m.sites ≡ n.sites)
            × ((k : String) (c x : Bytes)
                → lookup (secrets_prefix K <> k) (p ∷ l) ≡ some c
                → c ≢ []
                → J.decode_base64 c ≡ inr x
                → secret_of m.secrets k ≡ some x)
      choose (ok d) e h =
          let same : m ≡ record n { secrets = some d } = ground (arith, h) in
          (
            ap (λ (z : NodeState). z.sites) same,
            λ k c x there nonempty decoded.
                ap (λ (z : NodeState). secret_of z.secrets k) same
                ∙ decode_lem (p ∷ l) d k c x under e there nonempty decoded,
          )
      choose (err z) e h = absurd cc
      choose panic e h = absurd cc

  with_dhparams_lem :
      (n m : NodeState) (o : Option Bytes)
      → with_dhparams E J K n o ≡ ok m
      → (m.sites ≡ n.sites) × (m.secrets ≡ n.secrets)
  with_dhparams_lem n m none h = ground (arith, h)
  with_dhparams_lem n m (some b) h = choose (J.unmarshal_dhparams b) h
    where
      choose :
          (r : Error ⊎ NodeDhParams)
          → (elim r as (λ _. Result NodeState) [
            | inl e ↦ err (wrap e)
            | inr d ↦ ok (record n { dhparams = some d })
          ])
            ≡ ok m
          → (m.sites ≡ n.sites) × (m.secrets ≡ n.secrets)
      choose (inl e) h = absurd cc
      choose (inr d) h = ground (arith, h)

  pub wrapped_lem : {A : Type 0} → (r : Error ⊎ A) (a : A) → wrapped r ≡ ok a → r ≡ inr a
  wrapped_lem (inl e) a h = absurd cc
  wrapped_lem (inr x) a h = ground (arith, h)

  value_of : {p q : Result NodeState × E.Server} {m : NodeState} → p ≡ q → p.0 ≡ ok m → q.0 ≡ ok m
  value_of e h = cc

  pub unserialized_lem :
      (b : Bytes) (n m : NodeState) (v : E.Server)
      → J.unmarshal_state b ≡ inr n
      → (unserialized E J K b v).0 ≡ ok m
      → (m.sites ≡ n.sites)
        × ((k : String) (c x : Bytes)
            → V.value (secrets_prefix K <> k) v ≡ some c
            → c ≢ []
            → J.decode_base64 c ≡ inr x
            → secret_of m.secrets k ≡ some x)
  unfolding unserialized
  unserialized_lem b n m v parsed h =
      let whole = first parsed h in
      let (l, got, same) = continued (get_secrets E J K v) (after_list n) m whole in
      let w = (get_secrets E J K v).1 in
      let whole' = value_of (same) whole in
      let (n', with, same') = continued (with_secrets E J K n l, w) after_secrets m whole' in
      let whole'' = value_of (same') whole' in
      let (o, _, same'') =
        continued (get_key E J K (dhparams_key K) w) (λ d. lift (with_dhparams E J K n' d)) m
          whole'' in
      let (sites, secrets) = with_dhparams_lem n' m o (value_of (same'') whole'') in
      let keys = wrapped_lem (E.get_prefix (secrets_prefix K) v).0 l got in
      let (sites', found) = with_secrets_lem n n' l (V.under (secrets_prefix K) v l keys) with in
      (
        sites ∙ sites',
        λ k c x there nonempty decoded.
            ap (λ d. secret_of d k) secrets
            ∙ found k c x (V.listed (secrets_prefix K) k v l keys ∙ there) nonempty decoded,
      )
    where
      after_secrets : NodeState → Task E NodeState
      after_secrets n' = get_key E J K (dhparams_key K) >>= λ d. lift (with_dhparams E J K n' d)

      after_list : NodeState → List (String × Bytes) → Task E NodeState
      after_list n l = lift (with_secrets E J K n l) >>= after_secrets

      first :
          J.unmarshal_state b ≡ inr n
          → (unserialized E J K b v).0 ≡ ok m
          → ((get_secrets E J K >>= after_list n) v).0 ≡ ok m
      first parsed h = rw parsed at h
