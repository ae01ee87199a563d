-- ===== src/State/StoreEtcd/Values.antt =====
-- What the keys of etcd hold after the state has been written.
use mathlib.Core.Path.{subst}
use text.Mathlib.Text.{starts_with}
use text.Mathlib.TextLemmas.{append_assoc}
use text.Mathlib.TextPositions.{starts_with-append}
use statiko.Base.{
  ℕ, String, ◌<>◌, string_dec, true, false, ◌≡◌, ◌≢◌, refl, sym, ap, ◌∙◌, ◌⊎◌, inl, inr, Option,
  none, some, [], ◌∷◌, arith, Bool-cases,
}
use statiko.Base.Dict.{Dict, lookup}
use statiko.Base.Entries.{AreDifferent, in_tail, of_tail, nothing, at_head, of_head, other_key}
use statiko.Base.Steps.{continued, kept_bind}
use statiko.Base.Exec.{Error, Result, ok, pure}
use statiko.State.Types.{Bytes, NodeDhParams}
use statiko.State.Etcd.{Etcd, Transaction, IsKeyValue}
use statiko.State.StoreEtcd.{EtcdCodec, EtcdConfig, of_sum, dhparams_key, secrets_prefix}
use statiko.State.StoreEtcd.Data.{
  or_overwrite, put_absent, set_if_different, store_secrets, put_dhparams, has_date, store_dhparams,
}
use statiko.Fs.Local.Laws.{append_left}

module _ (E : Etcd) (V : IsKeyValue E) (J : EtcdCodec) (K : EtcdConfig) where
  abbrev at : String → E.Server → Option Bytes
  at k s = V.value k s

  pub of_sum_lem : {A : Type 0} → (r : Error ⊎ A) (a : A) → of_sum r ≡ ok a → r ≡ inr a
  of_sum_lem (inl e) a h = absurd cc
  of_sum_lem (inr x) a h = ground (arith, h)

  -- `setIfDifferent` leaves the value under its key.
  pub value-set_if_different :
      (k : String) (b : Bytes) (l : Option ℕ) (s : E.Server) (t : Transaction)
      → (set_if_different E J K k b l s).0 ≡ ok t
      → at k (set_if_different E J K k b l s).1 ≡ some b
  unfolding set_if_different
  value-set_if_different k b l s t h =
      let p = put_absent E J K k b l s in
      let (u, done, same) = continued p (or_overwrite E J K k b l) t h in
      let put = of_sum_lem (E.put_if_absent k b l s).0 u done in
      subst (λ (x : Result Transaction × E.Server). at k x.1 ≡ some b) (sym same)
        (choose u put (Bool-cases u.succeeded)
          (ap (λ (x : Result Transaction × E.Server). x.0) (sym same) ∙ h))
    where
      choose :
          (u : Transaction)
          → (E.put_if_absent k b l s).0 ≡ inr u
          → (u.succeeded ≡ true) ⊎ (u.succeeded ≡ false)
          → (or_overwrite E J K k b l u (E.put_if_absent k b l s).1).0 ≡ ok t
          → at k (or_overwrite E J K k b l u (E.put_if_absent k b l s).1).1 ≡ some b
      choose u put (inl new) h = rw new (V.absent k b l s u put new)
      choose u put (inr old) h =
          let (x, there) = V.present k b l s u put old in
          rw old (
            V.other k b x l (E.put_if_absent k b l s).1 t there
              (of_sum_lem (E.put_if_other k b l (E.put_if_absent k b l s).1).0 t (rw old at h)))

  pub value-set_other :
      (k j : String) (b : Bytes) (l : Option ℕ) (s : E.Server)
      → k ≢ j
      → at j (set_if_different E J K k b l s).1 ≡ at j s
  unfolding set_if_different
  value-set_other k j b l s differs =
      kept_bind (at j) (at j s) (put_absent E J K k b l s) (or_overwrite E J K k b l)
        (V.absent_other k j b l s differs) overwrite
    where
      overwrite : (t : Transaction) (v : E.Server) → at j (or_overwrite E J K k b l t v).1 ≡ at j v
      overwrite t v = elim (Bool-cases t.succeeded) [
        | inl new ↦ rw new refl
        | inr old ↦ rw old (V.other_other k j b l v differs)
      ]

  pub secrets_apart : (j k : String) → j ≢ k → (secrets_prefix K <> j) ≢ (secrets_prefix K <> k)
  secrets_apart j k differs e = differs (append_left (secrets_prefix K) j k e)

  -- A key that is no secret's.
  pub apart :
      (t k : String) → starts_with t "/secrets/" ≡ false → (secrets_prefix K <> k) ≢ (K.prefix <> t)
  apart t k visible e =
      let same =
        append_left K.prefix ("/secrets/" <> k) t (sym (append_assoc K.prefix "/secrets/" k) ∙ e) in
      cc (
        sym visible
        ∙ ap (λ x. starts_with x "/secrets/") (sym same)
        ∙ starts_with-append "/secrets/" k)

  pub value-store_secrets_other :
      (d : Dict Bytes) (j : String) (s : E.Server)
      → ((k : String) (b : Bytes) → lookup k d ≡ some b → (secrets_prefix K <> k) ≢ j)
      → at j (store_secrets E J K d s).1 ≡ at j s
  unfolding store_secrets
  value-store_secrets_other [] j s h = refl
  value-store_secrets_other ((k, b) ∷ d) j s h =
      kept_bind (at j) (at j s)
        (set_if_different E J K (secrets_prefix K <> k) (J.encode_base64 b) none s)
        (λ _. store_secrets E J K d)
        (value-set_other (secrets_prefix K <> k) j (J.encode_base64 b) none s
          (h k b (at_head k b d)))
        (λ t v. value-store_secrets_other d j v tail)
    where
      tail : (i : String) (x : Bytes) → lookup i d ≡ some x → (secrets_prefix K <> i) ≢ j
      tail i x e = elim (string_dec k i) [
        | yes same ↦ subst (λ z. (secrets_prefix K <> z) ≢ j) same (h k b (at_head k b d))
        | no differs ↦ h i x (in_tail k i b x d differs e)
      ]

  -- Each secret that is stored is under its key.
  pub value-store_secrets :
      (d : Dict Bytes) (k : String) (b : Bytes) (s : E.Server)
      → AreDifferent d
      → lookup k d ≡ some b
      → (store_secrets E J K d s).0 ≡ ok tt
      → at (secrets_prefix K <> k) (store_secrets E J K d s).1 ≡ some (J.encode_base64 b)
  unfolding store_secrets AreDifferent
  value-store_secrets [] k b s different e h = absurd (nothing k b e)
  value-store_secrets ((i, x) ∷ d) k b s (absent, different) e h =
      let p = set_if_different E J K (secrets_prefix K <> i) (J.encode_base64 x) none s in
      let (t, done, same) = continued p (λ _. store_secrets E J K d) tt h in
      subst
        (λ (z : Result Unit × E.Server). at (secrets_prefix K <> k) z.1 ≡ some (J.encode_base64 b))
        (sym same)
        (elim (string_dec i k) [
          | yes it ↦
              value-store_secrets_other d (secrets_prefix K <> k) p.1
                (λ j y e'. secrets_apart j k (λ z. other_key i j y d absent e' (it ∙ sym z)))
              ∙ subst
                  (λ (z : String × Bytes).
                    at (secrets_prefix K <> z.0) p.1 ≡ some (J.encode_base64 z.1))
                  (ap (λ z. (z, x)) it ∙ ap (λ z. (k, z)) (of_head i k x b d it e))
                  (value-set_if_different (secrets_prefix K <> i) (J.encode_base64 x) none s t done)
          | no differs ↦
              value-store_secrets d k b p.1 different (of_tail i k x b d differs e)
                (ap (λ (z : Result Unit × E.Server). z.0) (sym same) ∙ h)
        ])

  pub value-store_dhparams_other :
      (o : Option NodeDhParams) (j : String) (s : E.Server)
      → dhparams_key K ≢ j
      → at j (store_dhparams E J K o s).1 ≡ at j s
  unfolding store_dhparams
  value-store_dhparams_other none j s differs = refl
  value-store_dhparams_other (some d) j s differs = elim (Bool-cases (has_date E J K d)) [
    | inl dated ↦ rw dated (encoded (J.marshal_dhparams d))
    | inr undated ↦ rw undated refl
  ]
    where
      encoded : (r : Error ⊎ Bytes) → at j (put_dhparams E J K r s).1 ≡ at j s
      encoded (inl e) = refl
      encoded (inr b) =
          kept_bind (at j) (at j s) (set_if_different E J K (dhparams_key K) b none s)
            (λ _. pure tt) (value-set_other (dhparams_key K) j b none s differs) (λ t v. refl)
