-- ===== src/Api/Certificates.antt =====
-- api/routes/certificate.go: the handlers of /certificate. PEM, X.509, the lower case of texts and
-- their bytes are parameters.
pub mod Laws
use Prim.Native.String.{len}
use Prim.Native.Char.{code}
use Prim.Native.String
use statiko.Base.{
  ℕ, ◌+◌, String, ◌<>◌, ◌==◌, Bool, true, false, not, ◌&&◌, ◌||◌, ltb, leb, nat_eq, ◌⊎◌, inl, inr,
  Option, none, some, List, [], ◌∷◌, if◌then◌else◌,
}
use statiko.Base.Exec.{Error}
use statiko.State.Types.{Time, Bytes, SiteState, SiteTls, tls_imported}
use statiko.State.Store.{StateStore}
use statiko.State.Manager.Secrets.{Crypto}
use statiko.State.Manager.Sites.{get_sites}
use statiko.State.Manager.Certificates.{
  set_certificate, remove_certificate, list_imported_certificates,
}
use statiko.Api.Handler.{
  Node, Flow, stop, go, abort, Handler, continue, and_then, call, queue_run, bind_flow,
}
use statiko.Api.Sites.{Env, imported_exists}

-- `certAddRequest`
pub record CertAddRequest : Type 0 where
  pub name : String
  pub certificate : String
  pub key : String
  pub force : Bool

pub record Validity : Type 0 where
  pub not_before : Time
  pub not_after : Time

-- `pem_decode` is `pem.Decode`, without the rest; `sort` is `sort.Strings`.
pub record CertificateLib : Type 0 where
  pub to_lower : String → String
  pub to_bytes : String → Bytes
  pub pem_decode : Bytes → Option Bytes
  pub parse_certificate : Bytes → Error ⊎ Validity
  pub show_time : Time → String
  pub sort : List String → List String

unfoldable pub is_lower : ℕ → Bool
is_lower c = leb b'a' c && leb c b'z'

unfoldable pub is_name_char : ℕ → Bool
is_name_char c = is_lower c || (leb b'0' c && leb c b'9') || nat_eq c b'.' || nat_eq c b'-'

unfoldable pub all_name_chars : String → Bool
all_name_chars String.[] = true
all_name_chars (String.◌∷◌ c s) = is_name_char (code c) && all_name_chars s

-- A match of `certNameRegEx`.
unfoldable pub is_cert_name : String → Bool
is_cert_name String.[] = false
is_cert_name (String.◌∷◌ c s) = is_lower (code c) && all_name_chars s

-- The loop of `DeleteCertificateHandler` over the sites.
abbrev pub uses_tls : String → Option SiteTls → Bool
uses_tls name none = false
uses_tls name (some t) =
    t.kind == tls_imported && elim t.certificate [ none ↦ false | some c ↦ c == name ]

unfoldable pub in_use : String → List SiteState → Bool
in_use name [] = false
in_use name (s ∷ l) = uses_tls name s.tls || in_use name l

module _ (lib : CertificateLib) (now : Time) where
  -- The tests of the dates, at least twelve hours before the end.
  unfoldable pub check_dates : Bool → Validity → Flow (Unit {0})
  check_dates force v =
      if force
      then go tt
      else if ltb v.not_after (now + 43200)
      then abort 400 (
          "certificate has expired or has less than 12 hours of validity: "
          <> lib.show_time v.not_after)
      else if not (ltb v.not_before now)
      then abort 400 ("certificate's NotBefore is in the future: " <> lib.show_time v.not_before)
      else go tt

  abbrev pub parsed : Error ⊎ Validity → Flow Validity
  parsed (inl x) = abort 400 ("Invalid certificate: " <> x)
  parsed (inr v) = go v

  abbrev pub decoded : String → Option Bytes → Flow Bytes
  decoded what none = abort 400 ("Invalid " <> what <> " PEM block")
  decoded what (some b) = go b

  abbrev pub check_pem : CertAddRequest → Flow (Unit {0})
  check_pem input =
      bind_flow (decoded "certificate" (lib.pem_decode (lib.to_bytes input.certificate))) (λ block.
        bind_flow (parsed (lib.parse_certificate block)) (λ v.
          bind_flow (check_dates input.force v) (λ _.
            bind_flow (decoded "key" (lib.pem_decode (lib.to_bytes input.key))) (λ _. go tt))))

  -- The tests of `ImportCertificateHandler`.
  unfoldable pub check_request : CertAddRequest → Flow (Unit {0})
  check_request input =
      if input.name == "" || input.certificate == "" || input.key == ""
      then abort 400 "Fields 'name', 'cert' and 'key' must not be empty"
      else if not (is_cert_name (lib.to_lower input.name))
      then abort 400
          "Certificate name must contain letters, numbers, dots and dashes only, and it must begin with a letter"
      else check_pem input

module _ (S : StateStore) (c : Crypto) (e : Env) (lib : CertificateLib) where
  -- `SetCertificate` as `ImportCertificateHandler` calls it.
  abbrev pub store_request : Error ⊎ Bytes → CertAddRequest → Handler S Unit
  store_request random input = call S (
      set_certificate S c e.now random tls_imported (lib.to_lower input.name ∷ [])
        (lib.to_bytes input.key) (lib.to_bytes input.certificate))

  -- `ImportCertificateHandler`; `random` is the nonce, and `input` is what `c.Bind` makes of the
  -- body.
  unfoldable pub import_certificate :
      Error ⊎ Bytes → Error ⊎ CertAddRequest → Node S → Flow (Unit {0}) × Node S
  import_certificate random (inl x) n = (abort 400 ("Invalid request body: " <> x), n)
  import_certificate random (inr input) n =
      continue S (check_request lib e.now input)
        (λ _. and_then S (store_request random input) (λ _. queue_run S)) n

  -- `ListCertificateHandler`
  unfoldable pub list_certificates : Node S → Flow (List String) × Node S
  list_certificates =
      and_then S (call S (list_imported_certificates S)) (λ l n. (go (lib.sort l), n))

  abbrev pub removal : String → Handler S Unit
  removal name = call S (remove_certificate S c e.now tls_imported (name ∷ []))

  abbrev pub remove_unused : String → Handler S Unit
  remove_unused name n =
      (if in_use name (get_sites S n.manager)
          then (λ k. (abort 409 "TLS certificate is in use and can't be removed", k))
          else removal name)
        n

  -- `DeleteCertificateHandler`
  unfoldable pub delete_certificate : String → Node S → Flow (Unit {0}) × Node S
  delete_certificate name =
      if nat_eq (len name) 0
      then (λ n. (abort 400 "Invalid parameter 'name'", n))
      else and_then S (imported_exists S c e (lib.to_lower name))
          (λ _. remove_unused (lib.to_lower name))
