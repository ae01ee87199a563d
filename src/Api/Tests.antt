-- ===== src/Api/Tests.antt =====
-- The theorems about the handlers at concrete requests.
use statiko.Base.{
  String, List, ◌≡◌, some, ◌==◌, if◌then◌else◌, refl, inr, true, none, [], ◌∷◌, count, arith,
}
use statiko.State.Types.{NodeState}
use statiko.State.Manager.Sites.Unique.{IsUnique}
use statiko.State.Samples.{
  files, files-IsLawful, small_crypto, plain_site, state_with, manager_with,
}
use statiko.Base.{refl, ◌⊎◌, inl, false, string_dec}
use statiko.Api.Certificates.{
  check_request, is_cert_name, all_name_chars, is_name_char, is_lower, check_dates,
}
use statiko.State.Manager.Certificates.{set_certificate, certificate_secret_key, serialize}
use statiko.State.Manager.Secrets.{set_secret, secrets_cipher}
use statiko.State.Manager.Locks.{locked}
use statiko.State.StoreFile.{write_state}
use statiko.Base.Dict.{insert, lookup}
use statiko.Base.Exec.{ok}
use statiko.State.Types.{tls_imported}
use statiko.State.StoreFile.{file_store-IsLawful}
use statiko.State.Samples.{
  any_codec, any_files, any_manager, two_sites, small_crypto-IsSound, sample_nonce, zero_key,
  cipher_lem,
}
use statiko.State.Manager.Certificates.{get_certificate}
use statiko.Api.Handler
use statiko.Api.Handler.{stop, go}
use statiko.Api.Certificates.{
  CertificateLib, CertAddRequest, import_certificate, delete_certificate,
}
use statiko.Api.Certificates.Laws.{get_certificate-import_certificate, delete_certificate_used}
use statiko.Api.Auth.{
  Tokens, AuthConfig, KeyStore, auth0, bearer, auth_handler, text_claim, authenticate, check_token,
  token_key, signing_key, validate_claims, claim_is, issuer_of,
}
use statiko.Api.Auth.{JwksKey, Provider, azure_ad}
use statiko.Api.Auth.Keys.{AreTrusted}
use statiko.Api.Auth.Laws.{IsSigned, auth_handler_lem, auth_handler-AreTrusted}
use statiko.Api.Sites.Consistency.{Holds}
use statiko.Api.Handler.{Node}
use statiko.Api.Sites.{Env, create_site, delete_site_handler}
use statiko.Api.Patch.{string, Value, array, object, patch_site}
use statiko.Api.Patch.Consistency.{patch_site-IsConsistent}
use statiko.Api.Sites.Consistency.{
  IsConsistent, create_site-IsConsistent, delete_site_handler-IsConsistent,
}

abbrev env : Env
env = record {
  temp_domain = "tmp.example";
  random_name = "a-b-c-123";
  akv_exists = λ name. inr true;
  now = 9;
}

abbrev sample : NodeState
sample = state_with (plain_site "a.example" ("b.example" ∷ []) ∷ []) none

abbrev node : Node files
node = record { manager = manager_with sample; queued = 0 }

sample-IsUnique : IsUnique sample.sites
unfolding count
sample-IsUnique d = ground arith

node-IsConsistent : IsConsistent files node.manager
node-IsConsistent = record { node = sample; loaded = refl; unique = sample-IsUnique }

create_site-IsConsistent_example :
    IsConsistent files
      (create_site files small_crypto env
        (inr (plain_site "c.example" ("d.example" ∷ [])))
        node).1.manager
create_site-IsConsistent_example =
    create_site-IsConsistent files files-IsLawful small_crypto env
      (inr (plain_site "c.example" ("d.example" ∷ []))) node node-IsConsistent

delete_site_handler-IsConsistent_example :
    IsConsistent files (delete_site_handler files small_crypto env "b.example" "" node).1.manager
delete_site_handler-IsConsistent_example =
    delete_site_handler-IsConsistent files files-IsLawful small_crypto env "b.example" "" node
      node-IsConsistent

-- A body that moves an alias and asks for a self-signed certificate.
abbrev body : List (String × Value)
body =
    ("Aliases", array (string "b.example" ∷ string "d.example" ∷ []))
    ∷ ("tls", object (("type", string "selfsigned") ∷ []))
    ∷ []

abbrev lower : String → String
lower s = if s == "Aliases" then "aliases" else s

patch_site-IsConsistent_example :
    IsConsistent files
      (patch_site files small_crypto env lower "a.example" "" (inr body) node).1.manager
patch_site-IsConsistent_example =
    patch_site-IsConsistent files files-IsLawful small_crypto env lower "a.example" "" (inr body)
      node node-IsConsistent

-- Every text is a PEM block of a certificate with a long life, and has one byte.
abbrev lib : CertificateLib
lib = record {
  to_lower = λ s. s;
  to_bytes = λ s. 7 ∷ [];
  pem_decode = λ b. some b;
  parse_certificate = λ b. inr (record { not_before = 1; not_after = 100000 });
  show_time = λ t. "";
  sort = λ l. l;
}

abbrev request : CertAddRequest
request = record { name = "mine"; certificate = "cert"; key = "key"; force = false }

abbrev any_node : Node any_files
any_node = record { manager = any_manager; queued = 0 }

imported_lem :
    (import_certificate any_files small_crypto env lib (inr sample_nonce) (inr request) any_node).0
    ≡ go tt
unfolding import_certificate check_request is_cert_name all_name_chars is_name_char is_lower
    check_dates set_certificate certificate_secret_key set_secret secrets_cipher locked insert
    write_state string_dec serialize
imported_lem = refl

get_certificate-import_certificate_example :
    (get_certificate any_files small_crypto tls_imported
      ("mine" ∷ [])
      (import_certificate any_files small_crypto env lib
        (inr sample_nonce)
        (inr request)
        any_node).1.manager).0
    ≡ ok (7 ∷ [], 7 ∷ [])
get_certificate-import_certificate_example =
    get_certificate-import_certificate any_files (file_store-IsLawful any_codec) small_crypto env
      lib small_crypto-IsSound any_node two_sites refl zero_key sample_nonce cipher_lem refl request
      (omega arith) (omega arith) imported_lem

abbrev secured : NodeState
secured =
    state_with
      (record (plain_site "a.example" []) {
        tls = some (record { kind = "imported"; certificate = some "mine"; version = none });
      }
        ∷ [])
      none

abbrev secured_node : Node files
secured_node = record { manager = manager_with secured; queued = 0 }

delete_certificate_used_example :
    ((r : Handler.Response) × ((delete_certificate files small_crypto env lib "mine" secured_node).0
        ≡ stop r))
    × Holds files files-IsLawful secured.sites
        (delete_certificate files small_crypto env lib "mine" secured_node).1.manager
unfolding string_dec
delete_certificate_used_example =
    delete_certificate_used files files-IsLawful small_crypto env lib "mine" secured.sites
      secured_node (secured, refl, refl) (record { index = 0; site = _; at = refl; used = refl })

abbrev jwk : JwksKey
jwk = record { kty = "RSA"; use_for = "sig"; kid = "k"; n = "n"; e = "e"; issuer = "" }

abbrev jwks : List JwksKey
jwks = jwk ∷ []

-- One token, of Auth0.
abbrev tokens : Tokens
tokens = record {
  Key = Unit;
  decode = λ s. some (record {
    alg = "RS256";
    kid = some "k";
    claims = ("iss", text_claim "https://d/") ∷ ("aud", text_claim "me") ∷ [];
  });
  is_valid = λ k t. true;
  request = λ url. if url == "https://d/.well-known/jwks.json" then inr jwks else inl "not found";
  parse_key = λ n e. inr tt;
  trim = λ s. s;
}

abbrev config : AuthConfig
config = record {
  psk_enabled = false;
  psk_key = "";
  auth0_enabled = true;
  auth0_client_id = "me";
  auth0_domain = "d";
  azure_ad_enabled = false;
  azure_ad_client_id = "";
  azure_ad_tenant = "";
}

abbrev key_store : KeyStore tokens
key_store = record { key_cache = ("k", tt) ∷ []; last_fetch = 0 }

authenticated_lem :
    (auth_handler tokens config true 9 (some auth0) "Bearer t" key_store).0 ≡ go true
unfolding auth_handler authenticate bearer check_token token_key string_dec signing_key lookup
    validate_claims claim_is issuer_of
authenticated_lem = refl

key_store-AreTrusted : (q : Provider) → some auth0 ≡ some q → AreTrusted tokens config q key_store
unfolding lookup string_dec
key_store-AreTrusted auth0 e kid key found = elim (string_dec "k" kid) [
  | yes same ↦ record {
    keys = jwks;
    fetched = refl;
    at = 0;
    jwk = jwk;
    listed = refl;
    named = same;
    kty = refl;
    use_for = refl;
    tenant = tt;
    parsed = refl;
  }
  | no other ↦ absurd (ground (arith, other, found))
]
key_store-AreTrusted azure_ad e kid key found = absurd cc

auth_handler_lem_example :
    ((config.psk_enabled ≡ true) × (bearer tokens config "Bearer t" ≡ config.psk_key))
    ⊎ IsSigned tokens config (some auth0) (bearer tokens config "Bearer t")
auth_handler_lem_example =
    auth_handler_lem tokens config true 9 (some auth0) "Bearer t" key_store key_store-AreTrusted
      authenticated_lem

-- The cache is empty, and the keys are fetched.
abbrev empty_store : KeyStore tokens
empty_store = record { key_cache = []; last_fetch = 0 }

empty_store-AreTrusted : AreTrusted tokens config auth0 empty_store
unfolding lookup
empty_store-AreTrusted kid key found = absurd cc

auth_handler-AreTrusted_example :
    AreTrusted tokens config auth0
      (auth_handler tokens config true 900 (some auth0) "Bearer t" empty_store).1
auth_handler-AreTrusted_example =
    auth_handler-AreTrusted tokens config true 900 auth0 "Bearer t" empty_store
      empty_store-AreTrusted
