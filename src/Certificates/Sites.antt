-- ===== src/Certificates/Sites.antt =====
-- certificates/certificates.go, self-signed.go and acme.go: the certificate of a site.
use statiko.Base.{
  ℕ, zero, suc, String, ◌==◌, nat_eq, length, Bool, true, false, ◌||◌, inl, inr, Option, none, some,
  [], ◌∷◌, if◌then◌else◌,
}
use statiko.Base.Exec.{Error, Result, ok, err, panic, pure, fail, lift, ◌>>=◌, ◌>>◌}
use statiko.State.Types.{
  Time, Bytes, SiteState, SiteTls, tls_imported, tls_azure_key_vault, tls_self_signed, tls_acme,
}
use statiko.State.Store.{StateStore}
use statiko.State.Manager.Locks.{Method}
use statiko.State.Manager.Secrets.{Crypto}
use statiko.State.Manager.Certificates.{get_certificate, join}
use statiko.State.Manager.Status.{trigger_refresh_certs}
use statiko.Certificates.{X509, CertLib, site_names, inspect_certificate}
use statiko.Certificates.Jobs.{JobData, job_tls_certificate}

-- `perform` is `AddJob` of the worker followed by `WaitForJob`.
module _ (S : StateStore) (c : Crypto) (X : CertLib) (now : Time)
    (perform : JobData → Method S Unit) where
  abbrev pub Pair : Type 0
  Pair = Bytes × Bytes

  unfoldable pub is_incomplete : Pair → Bool
  is_incomplete (key, cert) = nat_eq (length key) 0 || nat_eq (length cert) 0

  -- The certificate in PEM, parsed.
  unfoldable pub parse_pem : Bytes → Result X509
  parse_pem cert = elim (X.pem_decode cert) [
    | none ↦ err "invalid certificate PEM block"
    | some b ↦ elim (X.parse_certificate b) [ inl e ↦ err e | inr x ↦ ok x ]
  ]

  -- Whether a certificate that has been found can be used; if not, another one is made.
  abbrev pub is_usable : SiteState → Pair → Result Bool
  is_usable site p = if is_incomplete p then ok false else elim (parse_pem p.1) [
    | ok x ↦ elim (inspect_certificate X now site x) [ none ↦ ok true | some e ↦ ok false ]
    | err e ↦ err e
    | panic ↦ panic
  ]

  abbrev pub self_signed_job : SiteState → JobData
  self_signed_job site = record { kind = job_tls_certificate; content = join (site_names site) }

  abbrev pub use_or_make : SiteState → Pair → Method S (Option Pair) → Bool → Method S (Option Pair)
  use_or_make site p again true = pure (some p)
  use_or_make site p again false = perform (self_signed_job site) >> again

  -- `GetSelfSignedCertificate`, which goes back to its start after each job; `none` says that it has
  -- not ended after as many rounds as are given.
  unfoldable pub get_self_signed_certificate : ℕ → SiteState → Method S (Option Pair)
  get_self_signed_certificate zero site = pure none
  get_self_signed_certificate (suc rounds) site = do
    p ← get_certificate S c tls_self_signed (site_names site)
    b ← lift (is_usable site p)
    use_or_make site p (get_self_signed_certificate rounds site) b

  -- A certificate that is there is returned, even if it is to be renewed.
  abbrev pub renew_if : Option Error → Method S Unit
  renew_if none m = (ok tt, m)
  renew_if (some e) m = (ok tt, trigger_refresh_certs S m)

  abbrev pub return_acme : SiteState → Pair → Method S (Option Pair)
  return_acme site p = do
    x ← lift (parse_pem p.1)
    renew_if (inspect_certificate X now site x)
    pure (some p)

  abbrev pub trigger : Method S Unit
  trigger m = (ok tt, trigger_refresh_certs S m)

  abbrev pub return_or_trigger : ℕ → SiteState → Pair → Bool → Method S (Option Pair)
  return_or_trigger rounds site p true = trigger >> get_self_signed_certificate rounds site
  return_or_trigger rounds site p false = return_acme site p

  -- `GetACMECertificate`
  unfoldable pub get_acme_certificate : ℕ → SiteState → Method S (Option Pair)
  get_acme_certificate rounds site = do
    p ← get_certificate S c tls_acme (site_names site)
    return_or_trigger rounds site p (is_incomplete p)

  abbrev pub imported_name : Option String → Method S Pair
  imported_name none = fail "empty TLS certificate name"
  imported_name (some name) =
      if name == ""
      then fail "empty TLS certificate name"
      else get_certificate S c tls_imported (name ∷ [])

  -- `GetImportedCertificate`
  unfoldable pub get_imported_certificate : SiteTls → Method S Pair
  get_imported_certificate t = do p ← imported_name t.certificate; lift (parse_pem p.1); pure p

  abbrev pub version_of : Option String → String
  version_of none = ""
  version_of (some v) = v

  abbrev pub vault_pair : Result (Bytes × Bytes × X509) → Result Pair
  vault_pair (ok (key, cert, x)) = ok (key, cert)
  vault_pair (err e) = err e
  vault_pair panic = panic

  abbrev pub vault_name : Option String → Option String → Result Pair
  vault_name none v = err "certificate name is empty"
  vault_name (some name) v =
      if name == ""
      then err "certificate name is empty"
      else vault_pair (X.key_vault name (version_of v))

  -- `GetAKVCertificate`
  unfoldable pub get_akv_certificate : SiteTls → Result Pair
  get_akv_certificate t = vault_name t.certificate t.version

  abbrev pub found : Method S Pair → Method S (Option Pair)
  found f = do p ← f; pure (some p)

  abbrev pub certificate_of_kind : ℕ → SiteState → SiteTls → Method S (Option Pair)
  certificate_of_kind rounds site t =
      if t.kind == tls_azure_key_vault
      then found (lift (get_akv_certificate t))
      else if t.kind == tls_imported
      then found (get_imported_certificate t)
      else if t.kind == tls_self_signed
      then get_self_signed_certificate rounds site
      else if t.kind == tls_acme
      then get_acme_certificate rounds site
      else fail "invalid TLS certificate type"

  abbrev pub certificate_of_tls : ℕ → SiteState → Option SiteTls → Method S (Option Pair)
  certificate_of_tls rounds site none m = (panic, m)
  certificate_of_tls rounds site (some t) m = certificate_of_kind rounds site t m

  -- `GetCertificate`. The certificates that are not the program's own are inspected for a warning
  -- in the log only.
  unfoldable pub get_site_certificate : ℕ → SiteState → Method S (Option Pair)
  get_site_certificate rounds site = certificate_of_tls rounds site site.tls
