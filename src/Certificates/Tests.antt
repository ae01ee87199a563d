-- ===== src/Certificates/Tests.antt =====
-- The theorems about certificates on a node with two sites.
use statiko.Base.{String, string_dec, ◌≡◌, refl, inr, some, List, [], ◌∷◌, arith}
use statiko.Base.Dict.{lookup, insert}
use statiko.Base.Exec.{Result, ok, err}
use statiko.State.Types.{Bytes, SiteState, tls_self_signed}
use statiko.State.Samples.{
  any_files, any_codec, any_manager, small_crypto, small_crypto-IsSound, sample_nonce, zero_key,
  cipher_lem, two_sites, plain_site, state_with,
}
use statiko.State.StoreFile.{file_store-IsLawful, write_state}
use statiko.State.Manager.Locks.{Manager, Method, locked, state_of}
use statiko.State.Manager.Secrets.{secrets_cipher, set_secret, get_secret, decrypt_found}
use statiko.State.Manager.Certificates.{
  set_certificate, get_certificate, certificate_secret_key, serialize, unserialize, join,
}
use statiko.Certificates.{X509, CertLib, inspect_certificate}
use statiko.Certificates.Jobs.{JobData, job_tls_certificate, process_tls, process_job}
use statiko.Certificates.Sites.{get_self_signed_certificate}
use statiko.Certificates.RoundTrip.{
  IsGood, get_certificate-process_job, get_self_signed_certificate_lem,
}

abbrev made : List String → Result (Bytes × Bytes)
made names = ok (1 ∷ 2 ∷ [], 3 ∷ [])

abbrev no_acme : List String → Method any_files (Bytes × Bytes)
no_acme names m = (err "not configured", m)

abbrev job_of : List String → JobData
job_of names = record { kind = job_tls_certificate; content = join names }

abbrev names : List String
names = "c.example" ∷ []

done_lem :
    (process_job any_files small_crypto 9
      (inr sample_nonce)
      made
      no_acme
      (job_of names)
      any_manager).0
    ≡ ok tt
unfolding process_job process_tls set_certificate certificate_secret_key set_secret secrets_cipher
    locked insert write_state string_dec serialize
done_lem = refl

get_certificate-process_job_example :
    (get_certificate any_files small_crypto tls_self_signed names
      (process_job any_files small_crypto 9
        (inr sample_nonce)
        made
        no_acme
        (job_of names)
        any_manager).1).0
    ≡ ok (1 ∷ 2 ∷ [], 3 ∷ [])
get_certificate-process_job_example =
    get_certificate-process_job any_files (file_store-IsLawful any_codec) small_crypto
      small_crypto-IsSound 9 sample_nonce zero_key cipher_lem refl made no_acme names (1 ∷ 2 ∷ [])
      (3 ∷ []) any_manager two_sites refl refl (omega arith) (omega arith) done_lem

abbrev parsed : X509
parsed = record { not_before = 1; not_after = 90000; dns_names = names; issuer_organization = [] }

abbrev small_lib : CertLib
small_lib = record {
  pem_decode = λ b. some b;
  parse_certificate = λ b. inr parsed;
  sort = λ l. l;
  show_time = λ t. "";
  show_names = λ l. "";
  key_vault = λ name version. err "no vault";
  generate_tls = made;
}

abbrev site : SiteState
site = plain_site "c.example" []

good_lem :
    IsGood any_files
      (file_store-IsLawful any_codec)
      small_crypto
      small_crypto-IsSound
      9
      sample_nonce
      zero_key
      cipher_lem
      refl
      made
      no_acme
      small_lib
      site
      (1 ∷ 2 ∷ [])
      (3 ∷ [])
unfolding inspect_certificate
good_lem = record {
  some_key = omega arith;
  some_cert = omega arith;
  block = 3 ∷ [];
  pem = refl;
  parsed = parsed;
  parses = refl;
  inspected = refl;
}

missing_lem :
    (get_certificate any_files small_crypto tls_self_signed names any_manager).0 ≡ ok ([], [])
unfolding get_certificate get_secret certificate_secret_key lookup secrets_cipher string_dec
    decrypt_found unserialize
missing_lem = refl

abbrev searched : Manager any_files
searched = (get_certificate any_files small_crypto tls_self_signed names any_manager).1

there_lem : state_of any_files searched ≡ some (state_with two_sites.sites (some []))
unfolding get_certificate get_secret certificate_secret_key lookup secrets_cipher string_dec
    decrypt_found unserialize
there_lem = refl

finished_lem :
    (process_job any_files small_crypto 9 (inr sample_nonce) made no_acme (job_of names) searched).0
    ≡ ok tt
unfolding process_job process_tls set_certificate certificate_secret_key set_secret secrets_cipher
    locked insert write_state string_dec serialize get_certificate get_secret lookup decrypt_found
    unserialize
finished_lem = refl

get_self_signed_certificate_lem_example :
    (get_self_signed_certificate any_files small_crypto small_lib 9
      (process_job any_files small_crypto 9 (inr sample_nonce) made no_acme)
      2
      site
      any_manager).0
    ≡ ok (some (1 ∷ 2 ∷ [], 3 ∷ []))
get_self_signed_certificate_lem_example =
    get_self_signed_certificate_lem any_files (file_store-IsLawful any_codec) small_crypto
      small_crypto-IsSound 9 sample_nonce zero_key cipher_lem refl made no_acme small_lib site
      (1 ∷ 2 ∷ []) (3 ∷ []) any_manager (state_with two_sites.sites (some [])) missing_lem there_lem
      refl good_lem finished_lem 0
