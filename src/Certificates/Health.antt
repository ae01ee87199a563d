-- ===== src/Certificates/Health.antt =====
-- That the certificates of certificates/ and worker/processor.go leave the health of the sites as it is.
use statiko.Base.{
  ℕ, zero, suc, String, ◌==◌, Bool, true, false, ◌||◌, ltb, length, ◌≡◌, refl, ◌⊎◌, inl, inr,
  Option, none, some, List, [], ◌∷◌, if◌then◌else◌,
}
use statiko.Base.Dict.{Dict}
use statiko.Base.Steps.{kept_bind}
use statiko.Base.Exec.{Error, Result, lift, ◌>>=◌}
use statiko.State.Types.{
  Time, Bytes, NodeState, SiteState, SiteTls, tls_imported, tls_azure_key_vault, tls_self_signed,
  tls_acme,
}
use statiko.State.Store.{StateStore}
use statiko.State.Manager.Locks.{Manager, Method, state_of, after_acquire, locked}
use statiko.State.Manager.Secrets.{
  Crypto, of_sum, loaded_pointer, loaded_state, make_secrets, store_secret, erase_secret,
  get_secret, set_secret, delete_secret, secrets_cipher,
}
use statiko.State.Manager.Certificates.{
  certificate_secret_key, get_certificate, set_certificate, remove_certificate,
}
use statiko.State.Manager.Status.{trigger_refresh_certs}
use statiko.Certificates.{CertLib, site_names, inspect_certificate}
use statiko.Certificates.Jobs.{
  JobData, made_tls, process_tls, process_acme, process_job, split_names, job_tls_certificate,
  job_acme,
}
use statiko.Certificates.Sites.{
  is_usable, use_or_make, get_self_signed_certificate, parse_pem, renew_if, return_acme, trigger,
  return_or_trigger, get_acme_certificate, imported_name, get_imported_certificate,
  get_akv_certificate, found, self_signed_job, certificate_of_kind, certificate_of_tls,
  get_site_certificate,
}

module _ (S : StateStore) where
  abbrev pub IsQuiet : {A : Type 0} → Method S A → Type 0
  IsQuiet f = (m : Manager S) → (f m).1.site_health ≡ m.site_health

  bind-IsQuiet :
      {A B : Type 0} (f : Method S A) (g : A → Method S B)
      → IsQuiet f
      → ((a : A) → IsQuiet (g a))
      → IsQuiet (f >>= g)
  bind-IsQuiet f g hf hg m =
      kept_bind (λ (x : Manager S). x.site_health) m.site_health (f m) g (hf m) (λ a s. hg a s)

  if-IsQuiet :
      {A : Type 0} (b : Bool) (f g : Method S A)
      → IsQuiet f
      → IsQuiet g
      → IsQuiet (if b then f else g)
  if-IsQuiet true f g hf hg = hf
  if-IsQuiet false f g hf hg = hg

  acquired-IsQuiet :
      {A : Type 0} (body : Method S A) (r : Error ⊎ S.Lease)
      → IsQuiet body
      → IsQuiet (after_acquire S body r)
  acquired-IsQuiet body (inl e) quiet m = refl
  acquired-IsQuiet body (inr l) quiet m = quiet m

  locked-IsQuiet : {A : Type 0} (body : Method S A) → IsQuiet body → IsQuiet (locked S body)
  unfolding locked
  locked-IsQuiet body quiet m =
      acquired-IsQuiet body (S.acquire_lock "state" true m.store).0 quiet
        (record m { store = (S.acquire_lock "state" true m.store).1 })

  pointer-IsQuiet : (o : Option NodeState) → IsQuiet (loaded_pointer S o)
  pointer-IsQuiet none m = refl
  pointer-IsQuiet (some n) m = refl

  loaded-IsQuiet : IsQuiet (loaded_state S)
  loaded-IsQuiet m = pointer-IsQuiet (state_of S m) m

  make-IsQuiet : (n : NodeState) (d : Option (Dict Bytes)) → IsQuiet (make_secrets S n d)
  make-IsQuiet n none m = refl
  make-IsQuiet n (some d) m = refl

  store-IsQuiet :
      (now : Time) (key : String) (value : Bytes) → IsQuiet (store_secret S now key value)
  store-IsQuiet now key value = bind-IsQuiet (loaded_state S) _ loaded-IsQuiet (λ n m. refl)

  erase-IsQuiet : (now : Time) (key : String) → IsQuiet (erase_secret S now key)
  erase-IsQuiet now key = bind-IsQuiet (loaded_state S) _ loaded-IsQuiet (λ n m. refl)

  delete-IsQuiet : (now : Time) (key : String) → IsQuiet (delete_secret S now key)
  unfolding delete_secret
  delete-IsQuiet now key = locked-IsQuiet (erase_secret S now key) (erase-IsQuiet now key)

module _ (S : StateStore) (c : Crypto) where
  get-IsQuiet : (key : String) → IsQuiet S (get_secret S c key)
  unfolding get_secret
  get-IsQuiet key = bind-IsQuiet S (loaded_state S) _ (loaded-IsQuiet S) (λ n.
      bind-IsQuiet S (make_secrets S n n.secrets) _ (make-IsQuiet S n n.secrets) (λ a m. refl))

  set-IsQuiet :
      (now : Time) (random : Error ⊎ Bytes) (key : String) (value : Bytes)
      → IsQuiet S (set_secret S c now random key value)
  unfolding set_secret
  set-IsQuiet now random key value =
      bind-IsQuiet S (lift (secrets_cipher c)) _ (λ m. refl)
        (λ k.
          bind-IsQuiet S (lift (of_sum random)) _ (λ m. refl)
            (λ nonce. locked-IsQuiet S _ (store-IsQuiet S now key _)))

  get_certificate-IsQuiet :
      (kind : String) (names : List String) → IsQuiet S (get_certificate S c kind names)
  unfolding get_certificate
  get_certificate-IsQuiet kind names =
      let key = certificate_secret_key c kind names in
      if-IsQuiet S (key == "") _ _ (λ m. refl)
        (bind-IsQuiet S (get_secret S c key) _ (get-IsQuiet key) (λ s m. refl))

  set_certificate-IsQuiet :
      (now : Time) (random : Error ⊎ Bytes) (kind : String) (names : List String) (key cert : Bytes)
      → IsQuiet S (set_certificate S c now random kind names key cert)
  unfolding set_certificate
  set_certificate-IsQuiet now random kind names key cert =
      let k = certificate_secret_key c kind names in
      if-IsQuiet S (k == "") _ _ (λ m. refl)
        (if-IsQuiet S (ltb 204800 (length key) || ltb 204800 (length cert)) _ _ (λ m. refl)
          (set-IsQuiet now random k _))

  remove-IsQuiet :
      (now : Time) (kind : String) (names : List String)
      → IsQuiet S (remove_certificate S c now kind names)
  unfolding remove_certificate
  remove-IsQuiet now kind names =
      let k = certificate_secret_key c kind names in
      if-IsQuiet S (k == "") _ _ (λ m. refl) (delete-IsQuiet S now k)

  module _ (now : Time) (random : Error ⊎ Bytes)
      (generate_tls : List String → Result (Bytes × Bytes))
      (generate_acme : List String → Method S (Bytes × Bytes))
      (calm : (names : List String) → IsQuiet S (generate_acme names)) where
    pub process-IsQuiet :
        (job : JobData) → IsQuiet S (process_job S c now random generate_tls generate_acme job)
    unfolding process_job process_tls process_acme
    process-IsQuiet job =
        if-IsQuiet S (job.kind == job_tls_certificate) _ _
          (bind-IsQuiet S
            (made_tls S c now random generate_tls generate_acme (split_names job.content)) _
            (λ m. refl)
            (λ p.
              set_certificate-IsQuiet now random tls_self_signed (split_names job.content) p.0 p.1))
          (if-IsQuiet S (job.kind == job_acme) _ _
            (bind-IsQuiet S (generate_acme (split_names job.content)) _
              (calm (split_names job.content))
              (λ p.
                bind-IsQuiet S _ _
                  (set_certificate-IsQuiet now random tls_acme (split_names job.content) p.0 p.1)
                  (λ a. remove-IsQuiet now tls_self_signed (split_names job.content))))
            (λ m. refl))

  module _ (X : CertLib) (now : Time) (perform : JobData → Method S Unit)
      (calm : (job : JobData) → IsQuiet S (perform job)) where
    use-IsQuiet :
        (site : SiteState) (p : Bytes × Bytes) (again : Method S (Option (Bytes × Bytes)))
        (b : Bool)
        → IsQuiet S again
        → IsQuiet S (use_or_make S c X now perform site p again b)
    use-IsQuiet site p again true h m = refl
    use-IsQuiet site p again false h m =
        bind-IsQuiet S (perform (self_signed_job S c X now perform site)) _ (calm _) (λ a. h) m

    self_signed-IsQuiet :
        (rounds : ℕ) (site : SiteState)
        → IsQuiet S (get_self_signed_certificate S c X now perform rounds site)
    unfolding get_self_signed_certificate
    self_signed-IsQuiet zero site = λ m. refl
    self_signed-IsQuiet (suc rounds) site =
        bind-IsQuiet S (get_certificate S c tls_self_signed (site_names site)) _
          (get_certificate-IsQuiet tls_self_signed (site_names site))
          (λ p.
            bind-IsQuiet S (lift (is_usable S c X now perform site p)) _ (λ m. refl)
              (λ b. use-IsQuiet site p _ b (self_signed-IsQuiet rounds site)))

    renew-IsQuiet : (e : Option Error) → IsQuiet S (renew_if S c X now perform e)
    unfolding trigger_refresh_certs
    renew-IsQuiet none m = refl
    renew-IsQuiet (some e) m = refl

    return-IsQuiet :
        (site : SiteState) (p : Bytes × Bytes) → IsQuiet S (return_acme S c X now perform site p)
    return-IsQuiet site p =
        bind-IsQuiet S (lift (parse_pem S c X now perform p.1)) _ (λ m. refl)
          (λ x.
            bind-IsQuiet S (renew_if S c X now perform (inspect_certificate X now site x)) _
              (renew-IsQuiet (inspect_certificate X now site x)) (λ a m. refl))

    trigger-IsQuiet :
        (rounds : ℕ) (site : SiteState) (p : Bytes × Bytes) (b : Bool)
        → IsQuiet S (return_or_trigger S c X now perform rounds site p b)
    unfolding trigger_refresh_certs
    trigger-IsQuiet rounds site p true =
        bind-IsQuiet S (trigger S c X now perform)
          (λ _. get_self_signed_certificate S c X now perform rounds site) (λ m. refl)
          (λ a. self_signed-IsQuiet rounds site)
    trigger-IsQuiet rounds site p false = return-IsQuiet site p

    acme-IsQuiet :
        (rounds : ℕ) (site : SiteState)
        → IsQuiet S (get_acme_certificate S c X now perform rounds site)
    unfolding get_acme_certificate
    acme-IsQuiet rounds site =
        bind-IsQuiet S (get_certificate S c tls_acme (site_names site)) _
          (get_certificate-IsQuiet tls_acme (site_names site))
          (λ p. trigger-IsQuiet rounds site p _)

    name-IsQuiet : (o : Option String) → IsQuiet S (imported_name S c X now perform o)
    name-IsQuiet none = λ m. refl
    name-IsQuiet (some name) =
        if-IsQuiet S (name == "") _ _ (λ m. refl) (get_certificate-IsQuiet tls_imported (name ∷ []))

    imported-IsQuiet : (t : SiteTls) → IsQuiet S (get_imported_certificate S c X now perform t)
    unfolding get_imported_certificate
    imported-IsQuiet t =
        bind-IsQuiet S (imported_name S c X now perform t.certificate) _
          (name-IsQuiet t.certificate)
          (λ p. bind-IsQuiet S (lift (parse_pem S c X now perform p.1)) _ (λ m. refl) (λ x m. refl))

    found-IsQuiet :
        (f : Method S (Bytes × Bytes)) → IsQuiet S f → IsQuiet S (found S c X now perform f)
    found-IsQuiet f h = bind-IsQuiet S f _ h (λ p m. refl)

    kind-IsQuiet :
        (rounds : ℕ) (site : SiteState) (t : SiteTls)
        → IsQuiet S (certificate_of_kind S c X now perform rounds site t)
    kind-IsQuiet rounds site t =
        if-IsQuiet S (t.kind == tls_azure_key_vault) _ _
          (found-IsQuiet (lift (get_akv_certificate S c X now perform t)) (λ m. refl))
          (if-IsQuiet S (t.kind == tls_imported) _ _ (found-IsQuiet _ (imported-IsQuiet t)) (
            if-IsQuiet S (t.kind == tls_self_signed) _ _ (self_signed-IsQuiet rounds site)
              (if-IsQuiet S (t.kind == tls_acme) _ _ (acme-IsQuiet rounds site) (λ m. refl))))

    tls-IsQuiet :
        (rounds : ℕ) (site : SiteState) (o : Option SiteTls)
        → IsQuiet S (certificate_of_tls S c X now perform rounds site o)
    tls-IsQuiet rounds site none = λ m. refl
    tls-IsQuiet rounds site (some t) = kind-IsQuiet rounds site t

    pub site-IsQuiet :
        (rounds : ℕ) (site : SiteState)
        → IsQuiet S (get_site_certificate S c X now perform rounds site)
    unfolding get_site_certificate
    site-IsQuiet rounds site = tls-IsQuiet rounds site site.tls
