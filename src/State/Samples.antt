-- ===== src/State/Samples.antt =====
-- Concrete parameters and data for the tests: a codec, a cipher, and nodes with their files.
use mathlib.Core.Path.{subst}
use statiko.Base.{
  suc, zero, ap, string_dec, ◌≡◌, ◌≢◌, refl, inl, inr, String, false, Option, none, some, List, [],
  ◌∷◌, arith, ◌==◌, if◌then◌else◌,
}
use statiko.Base.Dict.{Dict, lookup}
use statiko.Base.Exec.{Error}
use statiko.State.Types.{Bytes, SiteState, NodeState, NodeDhParams}
use statiko.State.Store.{StateStore, IsLawful}
use statiko.State.StoreFile.{
  Codec, IsFaithful, SameState, FileStore, Disk, file_store, file_store-IsLawful,
}
use statiko.State.Manager.Locks.{Manager}
use statiko.Base.Exec.{ok}
use statiko.State.Manager.Secrets.{Crypto, IsSound, secrets_cipher}

abbrev pub zero_key : Bytes
zero_key = 0 ∷ 0 ∷ 0 ∷ 0 ∷ 0 ∷ 0 ∷ 0 ∷ 0 ∷ 0 ∷ 0 ∷ 0 ∷ 0 ∷ 0 ∷ 0 ∷ 0 ∷ 0 ∷ []

abbrev pub sample_nonce : Bytes
sample_nonce = 1 ∷ 2 ∷ 3 ∷ 4 ∷ 5 ∷ 6 ∷ 7 ∷ 8 ∷ 9 ∷ 10 ∷ 11 ∷ 12 ∷ []

-- A codec for the states that have at most one secret, named "k", and nothing else. It refuses the
-- others.
abbrev encode : List SiteState → Option NodeDhParams → Option (Dict Bytes) → Option Error × Bytes
encode [] none none = (none, 0 ∷ [])
encode [] none (some []) = (none, 0 ∷ [])
encode [] none (some ((key, v) ∷ [])) = if key == "k" then (none, 1 ∷ v) else (some "refused", [])
encode sites d secrets = (some "refused", [])

abbrev of_secrets : Option (Dict Bytes) → NodeState
of_secrets d = record { sites = []; secrets = d; dhparams = none }

abbrev decode : Bytes → Option Error × NodeState
decode (suc x ∷ v) = (none, of_secrets (some (("k", v) ∷ [])))
decode (zero ∷ v) = (none, of_secrets none)
decode [] = (some "no text", of_secrets none)

abbrev encode_pointer : Option NodeState → Option Error × Bytes
encode_pointer none = (some "refused", [])
encode_pointer (some n) = encode n.sites n.dhparams n.secrets

abbrev pub small_codec : Codec
small_codec = record { marshal = encode_pointer; unmarshal = decode }

abbrev Decodes : NodeState → Bytes → Type 0
Decodes n b = (b ≢ []) × ((decode b).0 ≡ none) × SameState (decode b).1 n

k_encodes :
    (key : String) (v b : Bytes)
    → key ≡ "k"
    → encode [] none (some ((key, v) ∷ [])) ≡ (none, b)
    → (1 ∷ v) ≡ b
k_encodes key v b same h = ground arith

k-Decodes : (v : Bytes) → Decodes (of_secrets (some (("k", v) ∷ []))) (1 ∷ v)
k-Decodes v = (λ e. cc, refl, record { sites = refl; dhparams = refl; secrets = λ k. refl })

encode_lem :
    (sites : List SiteState) (d : Option NodeDhParams) (secrets : Option (Dict Bytes)) (b : Bytes)
    → encode sites d secrets ≡ (none, b)
    → Decodes (record { sites = sites; secrets = secrets; dhparams = d }) b
unfolding lookup
encode_lem [] none none b h =
    subst (Decodes (of_secrets none)) (ap (λ (p : Option Error × Bytes). p.1) h)
      (λ e. cc, refl, record { sites = refl; dhparams = refl; secrets = λ k. refl })
encode_lem [] none (some []) b h =
    subst (Decodes (of_secrets (some []))) (ap (λ (p : Option Error × Bytes). p.1) h)
      (λ e. cc, refl, record { sites = refl; dhparams = refl; secrets = λ k. refl })
encode_lem [] none (some ((key, v) ∷ [])) b h = elim (string_dec key "k") [
  | yes same ↦
      rw same (
        subst (Decodes (of_secrets (some (("k", v) ∷ [])))) (k_encodes key v b same h)
          (k-Decodes v))
  | no other ↦ absurd (ground arith)
]
encode_lem sites d secrets b h = cc (ap (λ (p : Option Error × Bytes). p.0) h)

-- The codec meets what the file store assumes.
pub small_codec-IsFaithful : IsFaithful small_codec
small_codec-IsFaithful = record { decodes = λ n b h. encode_lem n.sites n.dhparams n.secrets b h }

-- Encryption puts one byte in front.
abbrev pub small_crypto : Crypto
small_crypto = record {
  encryption_key = "AAAAAAAAAAAAAAAAAAAAAA==";
  decode_base64 = λ s. inr zero_key;
  new_cipher = λ k. none;
  seal = λ k nonce text. 7 ∷ text;
  unseal = λ k nonce text. elim text [ [] ↦ inl "too short" | x ∷ t ↦ inr t ];
  sha256 = λ s. "0123456789abcdef0123456789abcdef0123456789abcdef0123456789abcdef";
}

pub small_crypto-IsSound : IsSound small_crypto
small_crypto-IsSound = record { unseal-seal = λ k nonce text. refl }

abbrev pub files : StateStore
files = file_store small_codec

pub files-IsLawful : IsLawful files
files-IsLawful = file_store-IsLawful small_codec

abbrev pub plain_site : String → List String → SiteState
plain_site domain aliases = record {
  domain = domain;
  aliases = aliases;
  temporary = false;
  tls = none;
  app = none;
}

abbrev pub no_faults : Disk
no_faults = record { content = none; stat_error = none; read_error = none; write_error = none }

abbrev pub state_with : List SiteState → Option (Dict Bytes) → NodeState
state_with sites secrets = record { sites = sites; secrets = secrets; dhparams = none }

abbrev pub store_with : NodeState → FileStore
store_with n = record { state = some n; disk = no_faults }

abbrev pub manager_with : NodeState → Manager files
manager_with n = record {
  store = store_with n;
  updated = none;
  site_health = [];
  node_health = none;
  dhparams_generating = false;
  refresh_health = false;
  refresh_certs = false;
}

abbrev pub two_sites : NodeState
two_sites =
    state_with (plain_site "a.example" ("b.example" ∷ []) ∷ plain_site "c.example" [] ∷ []) none

abbrev pub one_secret : NodeState
one_secret = state_with [] (some (("k", 5 ∷ 6 ∷ []) ∷ []))

-- A codec that takes every state: the names of certificates are not for `small_codec`.
abbrev pub any_codec : Codec
any_codec = record { marshal = λ n. (none, 0 ∷ []); unmarshal = λ b. (some "refused", one_secret) }

abbrev pub any_files : StateStore
any_files = file_store any_codec

abbrev pub any_manager : Manager any_files
any_manager = record {
  store = store_with two_sites;
  updated = none;
  site_health = [];
  node_health = none;
  dhparams_generating = false;
  refresh_health = false;
  refresh_certs = false;
}

pub cipher_lem : secrets_cipher small_crypto ≡ ok zero_key
unfolding secrets_cipher
cipher_lem = refl
