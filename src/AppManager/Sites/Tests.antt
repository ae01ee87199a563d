-- ===== src/AppManager/Sites/Tests.antt =====
-- The theorem about the folders of sites on a node that makes a certificate for the first of two sites.
use statiko.Base.{String, string_dec, ◌≡◌, refl, ◌⊎◌, inr, true, false, none, some, List, [], ◌∷◌}
use statiko.Base.Dict.{lookup, insert}
use statiko.Base.Exec.{Result, ok, err}
use statiko.State.Types.{Bytes, SiteState, tls_self_signed, tls_imported}
use statiko.State.Samples.{any_files, any_manager, small_crypto, sample_nonce, plain_site}
use statiko.State.StoreFile.{write_state}
use statiko.State.Manager.Locks.{Method, locked}
use statiko.State.Manager.Secrets.{secrets_cipher, set_secret, get_secret, decrypt_found}
use statiko.State.Manager.Certificates.{
  set_certificate, get_certificate, certificate_secret_key, serialize, unserialize, put_uint32,
  uint32,
}
use statiko.State.Manager.Sites.{string_in_slice}
use statiko.State.Manager.Status.{get_site_health, set_site_health}
use statiko.Os.{ensure_folder, folder_exists}
use statiko.Os.Memory.{memory}
use statiko.AppManager.Files.{write_file_if_changed, ensure_folder_with_updated, activate_app}
use statiko.AppManager.Sites.{sync_listed, sync_site_folder}
use statiko.AppManager.Sites.Laws.{health_at}
use statiko.AppManager.Sites.Served.{domains, certificate_for, sync_listed-AreServed}
use statiko.Certificates.{X509, CertLib, inspect_certificate, same_names}
use statiko.Certificates.Jobs.{process_tls, process_job}
use statiko.Certificates.Sites.{
  get_site_certificate, get_self_signed_certificate, get_imported_certificate, parse_pem,
  is_incomplete,
}

abbrev made : List String → Result (Bytes × Bytes)
made names = ok (1 ∷ 2 ∷ [], 3 ∷ [])

abbrev no_acme : List String → Method any_files (Bytes × Bytes)
no_acme names m = (err "not configured", m)

abbrev parsed : X509
parsed = record {
  not_before = 1;
  not_after = 90000;
  dns_names = "c.example" ∷ [];
  issuer_organization = [];
}

abbrev small_lib : CertLib
small_lib = record {
  pem_decode = λ b. some b;
  parse_certificate = λ b. inr parsed;
  sort = λ l. l;
  show_time = λ t. "";
  show_names = λ l. "";
  key_vault = λ name version. err "no vault";
  generate_tls = made;
}

-- The first site has a certificate made by the node; the second one has none.
abbrev sites : List SiteState
sites =
    record (plain_site "c.example" []) {
      tls = some (record { kind = tls_self_signed; certificate = none; version = none });
    }
    ∷ record (plain_site "a.example" []) {
      tls = some (record { kind = tls_imported; certificate = none; version = none });
    }
    ∷ []

abbrev certificate : SiteState → Method any_files (Bytes × Bytes)
certificate =
    certificate_for any_files memory "/r/" small_crypto small_lib 9 (inr sample_nonce) made no_acme
      (λ names m. refl) 2

synced_lem :
    (sync_listed any_files memory "/r/" certificate sites
      (false, "_default" ∷ [])
      (any_manager, [])).0
    ≡ ok (true, "_default" ∷ "c.example" ∷ [])
unfolding sync_listed sync_site_folder get_site_health set_site_health lookup
    ensure_folder_with_updated folder_exists ensure_folder write_file_if_changed insert string_dec
    activate_app get_site_certificate get_self_signed_certificate get_imported_certificate parse_pem
    is_incomplete inspect_certificate process_job process_tls set_certificate certificate_secret_key
    set_secret secrets_cipher locked write_state serialize get_certificate get_secret decrypt_found
    unserialize put_uint32 uint32 same_names
synced_lem = refl

sync_listed-AreServed_example :
    (◌≡◌ {A = String} "c.example" "_default")
    ⊎ ((string_in_slice (domains sites) "c.example" ≡ true)
        × (health_at
              (sync_listed any_files memory "/r/" certificate sites
                (false, "_default" ∷ [])
                (any_manager, [])).1.0.site_health
              "c.example"
            ≡ none))
unfolding string_in_slice string_dec
sync_listed-AreServed_example =
    sync_listed-AreServed any_files memory "/r/" small_crypto small_lib 9 (inr sample_nonce) made
      no_acme (λ names m. refl) 2 sites false (any_manager, []) (refl, (refl, tt))
      (true, "_default" ∷ "c.example" ∷ []) synced_lem "c.example" refl
