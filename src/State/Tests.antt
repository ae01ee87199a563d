-- ===== src/State/Tests.antt =====
-- The theorems about the state at concrete inputs.
use statiko.Base.{◌⊎◌, ◌≡◌, refl, inr, none, some, [], ◌∷◌, arith, ◌==◌, string_dec, if◌then◌else◌}
use statiko.Base.Dict.{insert, erase}
use statiko.Base.Exec.{Error, ok, err}
use statiko.State.Types.{NodeState, tls_imported}
use statiko.State.StoreFile.{
  SameState, restart, write_state, read_state, read_state-write_state, file_store-IsLawful,
}
use statiko.State.Manager.Locks.{locked, state_of}
use statiko.State.Manager.Frame.{core}
use statiko.State.Manager.Sites.{replace_state}
use statiko.State.Manager.Sites.Effects.{AreTrimmed, replace_state_lem}
use statiko.State.Manager.Secrets.{get_secret, set_secret, delete_secret, secrets_cipher}
use statiko.State.Manager.Secrets.Laws.{get_secret-set_secret, get_secret-delete_secret}
use statiko.State.Manager.Certificates.{
  get_certificate, set_certificate, certificate_secret_key, serialize,
}
use statiko.State.Manager.Certificates.RoundTrip.{get_certificate-set_certificate}
use statiko.State.Samples.{
  cipher_lem, two_sites, one_secret, any_codec, any_files, any_manager, small_codec,
  small_codec-IsFaithful, small_crypto, small_crypto-IsSound, files, files-IsLawful, plain_site,
  store_with, manager_with, zero_key, sample_nonce,
}

written_lem : (write_state small_codec (store_with one_secret)).0 ≡ none
unfolding write_state string_dec
written_lem = refl

read_state-write_state_example :
    ((read_state small_codec (restart (write_state small_codec (store_with one_secret)).1)).0
      ≡ none)
    × ((m : NodeState) × ((read_state small_codec
            (restart (write_state small_codec (store_with one_secret)).1)).1.state
          ≡ some m)
        × SameState m one_secret)
read_state-write_state_example =
    read_state-write_state small_codec small_codec-IsFaithful (store_with one_secret) one_secret
      refl written_lem refl refl

-- A site of each kind.
abbrev given : NodeState
given = record one_secret {
  sites =
      record (plain_site "a.example" []) {
        tls = some (record { kind = "akv"; certificate = some "c"; version = some "v" });
      }
      ∷ record (plain_site "b.example" []) {
        tls = some (record { kind = "acme"; certificate = some "c"; version = none });
      }
      ∷ [];
}

replace_state_lem_example :
    ((core files (replace_state files 9 given (manager_with two_sites)).1
        ≡ core files (manager_with two_sites))
      × ((e : Error) × ((replace_state files 9 given (manager_with two_sites)).0 ≡ err e)))
    ⊎ ((m : NodeState) × ((state_of files (replace_state files 9 given (manager_with two_sites)).1
            ≡ some m)
          × ((replace_state files 9 given (manager_with two_sites)).1.updated ≡ some 9)
          × AreTrimmed given.sites m.sites
          × (m.secrets ≡ given.secrets)
          × (m.dhparams ≡ given.dhparams)))
replace_state_lem_example = replace_state_lem files files-IsLawful 9 (manager_with two_sites) given

stored_lem :
    (set_secret files small_crypto 9 (inr sample_nonce) "k" (8 ∷ []) (manager_with one_secret)).0
    ≡ ok tt
unfolding set_secret secrets_cipher locked insert write_state string_dec
stored_lem = refl

get_secret-set_secret_example :
    (get_secret files small_crypto "k"
      (set_secret files small_crypto 9
        (inr sample_nonce)
        "k"
        (8 ∷ [])
        (manager_with one_secret)).1).0
    ≡ (if "k" == "k"
        then ok (8 ∷ [])
        else (get_secret files small_crypto "k" (manager_with one_secret)).0)
get_secret-set_secret_example =
    get_secret-set_secret files files-IsLawful small_crypto 9 (manager_with one_secret) one_secret
      refl zero_key sample_nonce cipher_lem small_crypto-IsSound refl "k" "k" (8 ∷ []) stored_lem

deleted_lem : (delete_secret files 9 "k" (manager_with one_secret)).0 ≡ ok tt
unfolding delete_secret locked write_state string_dec erase
deleted_lem = refl

get_secret-delete_secret_example :
    (get_secret files small_crypto "k" (delete_secret files 9 "k" (manager_with one_secret)).1).0
    ≡ (if "k" == "k"
        then ok []
        else (get_secret files small_crypto "k" (manager_with one_secret)).0)
get_secret-delete_secret_example =
    get_secret-delete_secret files files-IsLawful small_crypto 9 (manager_with one_secret)
      one_secret refl "k" "k" deleted_lem

set_certificate_lem :
    (set_certificate any_files small_crypto 9
      (inr sample_nonce)
      tls_imported
      ("mine" ∷ [])
      (1 ∷ 2 ∷ [])
      (3 ∷ [])
      any_manager).0
    ≡ ok tt
unfolding set_certificate certificate_secret_key set_secret secrets_cipher locked insert write_state
    string_dec serialize
set_certificate_lem = refl

get_certificate-set_certificate_example :
    (get_certificate any_files small_crypto tls_imported
      ("mine" ∷ [])
      (set_certificate any_files small_crypto 9
        (inr sample_nonce)
        tls_imported
        ("mine" ∷ [])
        (1 ∷ 2 ∷ [])
        (3 ∷ [])
        any_manager).1).0
    ≡ ok (1 ∷ 2 ∷ [], 3 ∷ [])
get_certificate-set_certificate_example =
    get_certificate-set_certificate any_files (file_store-IsLawful any_codec) small_crypto
      small_crypto-IsSound 9 any_manager two_sites refl zero_key sample_nonce cipher_lem refl
      tls_imported ("mine" ∷ []) (1 ∷ 2 ∷ []) (3 ∷ []) (omega arith) (omega arith)
      set_certificate_lem
