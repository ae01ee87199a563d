-- ===== src/Certificates.antt =====
-- certificates/ and worker/processor.go: which certificate a site gets, and the jobs that make one.
-- PEM, X.509, Azure Key Vault and the making of keys and certificates are parameters.
pub mod Jobs
pub mod Sites
pub mod Health
pub mod Laws
pub mod RoundTrip
mod Tests
use statiko.Base.{
  ℕ, ◌+◌, String, ◌<>◌, ◌==◌, ltb, Bool, true, false, not, ◌&&◌, ◌||◌, ◌⊎◌, inl, inr, Option, none,
  some, List, [], ◌∷◌, if◌then◌else◌,
}
use statiko.Base.Exec.{Error, Result}
use statiko.State.Types.{Time, Bytes, SiteState, SiteTls, tls_self_signed, tls_acme}

-- The part of `x509.Certificate` that the code reads.
pub record X509 : Type 0 where
  pub not_before : Time
  pub not_after : Time
  pub dns_names : List String
  pub issuer_organization : List String

-- `sort` is `sort.Strings`. `key_vault` is `GetCertificate` of Azure Key Vault for a name and a
-- version: the key, the certificate and what it was parsed to. `show_time` prints a time, and
-- `show_names` a list.
pub record CertLib : Type 0 where
  pub pem_decode : Bytes → Option Bytes
  pub parse_certificate : Bytes → Error ⊎ X509
  pub sort : List String → List String
  pub show_time : Time → String
  pub show_names : List String → String
  pub key_vault : String → String → Result (Bytes × Bytes × X509)
  pub generate_tls : List String → Result (Bytes × Bytes)

-- `reflect.DeepEqual` of two slices of strings that are not nil.
unfoldable pub same_names : List String → List String → Bool
same_names [] [] = true
same_names [] (y ∷ l) = false
same_names (x ∷ k) [] = false
same_names (x ∷ k) (y ∷ l) = x == y && same_names k l

-- `append([]string{site.Domain}, site.Aliases...)`
abbrev pub site_names : SiteState → List String
site_names s = s.domain ∷ s.aliases

abbrev pub is_own_kind : Option SiteTls → Bool
is_own_kind none = false
is_own_kind (some t) = t.kind == tls_acme || t.kind == tls_self_signed

module _ (X : CertLib) (now : Time) where
  -- `InspectCertificate`
  unfoldable pub inspect_certificate : SiteState → X509 → Option Error
  inspect_certificate site cert =
      if ltb cert.not_after (now + 43200)
      then some (
          "certificate has expired or has less than 12 hours of validity: "
          <> X.show_time cert.not_after)
      else if not (ltb cert.not_before now)
      then some ("certificate's NotBefore is in the future: " <> X.show_time cert.not_before)
      else if is_own_kind site.tls
          && not (same_names (X.sort (site_names site)) (X.sort cert.dns_names))
      then some (
          "list of domains in certificate does not match: " <> X.show_names (X.sort cert.dns_names))
      else none
