-- ===== src/State/Manager/Secrets.antt =====
-- state/state.go: secrets, which the state holds encrypted. The configuration, base64 and AES-GCM
-- are parameters: `Crypto` is what the code calls of them.
pub mod Laws
use Prim.Native.String.{len}
use statiko.Base.{
  ℕ, String, Bool, true, false, not, nat_eq, ltb, ◌⊎◌, inl, inr, ◌≡◌, Option, none, some, List, [],
  ◌∷◌, ◌++◌, length, take, drop, slice, if◌then◌else◌,
}
use statiko.Base.Dict.{Dict, lookup, insert, erase}
use statiko.Base.Exec.{Error, Result, ok, err, pure, fail, lift, ◌>>=◌, ◌>>◌}
use statiko.State.Types.{Time, Bytes, NodeState}
use statiko.State.Store.{StateStore}
use statiko.State.Manager.Locks.{Manager, Method, state_of, locked, assign, set_updated, commit}

-- `encryption_key` is the option `secretsEncryptionKey`. `new_cipher` is `aes.NewCipher` with
-- `cipher.NewGCM`; `seal` and `unseal` take the key, the nonce and a text. `sha256` answers in
-- hexadecimal.
pub record Crypto : Type 0 where
  pub encryption_key : String
  pub decode_base64 : String → Error ⊎ Bytes
  pub new_cipher : Bytes → Option Error
  pub seal : Bytes → Bytes → Bytes → Bytes
  pub unseal : Bytes → Bytes → Bytes → Error ⊎ Bytes
  pub sha256 : String → String

-- Decryption inverts encryption under the same key and nonce.
pub record IsSound (c : Crypto) : Type 0 where
  pub unseal-seal : (key nonce text : Bytes) → c.unseal key nonce (c.seal key nonce text) ≡ inr text

abbrev pub of_sum {ℓ} : {A : Type ℓ} → Error ⊎ A → Result A
of_sum (inl e) = err e
of_sum (inr a) = ok a

-- The map, where a nil map reads as an empty one.
abbrev pub dict_of : Option (Dict Bytes) → Dict Bytes
dict_of none = []
dict_of (some d) = d

-- `if state.Secrets != nil { delete(state.Secrets, key) }`
abbrev pub erase_from : String → Option (Dict Bytes) → Option (Dict Bytes)
erase_from key none = none
erase_from key (some d) = some (erase key d)

module _ (c : Crypto) where
  check_key : Error ⊎ Bytes → Result Bytes
  check_key (inl e) = err e
  check_key (inr key) =
      if not (nat_eq (length key) 16)
      then err "invalid length of 'secretsEncryptionKey'"
      else ok key

  -- `getSecretsEncryptionKey`
  unfoldable pub secrets_encryption_key : Result Bytes
  unfolding check_key
  secrets_encryption_key =
      if not (nat_eq (len c.encryption_key) 24)
      then err "empty or invalid 'secretsEncryptionKey' value in configuration file"
      else check_key (c.decode_base64 c.encryption_key)

  with_key : Result Bytes → Result Bytes
  with_key (ok key) = elim (c.new_cipher key) [ none ↦ ok key | some e ↦ err e ]
  with_key r = r

  -- `getSecretsCipher`: the key of the cipher, which stands for the cipher.
  unfoldable pub secrets_cipher : Result Bytes
  unfolding with_key secrets_encryption_key
  secrets_cipher = with_key secrets_encryption_key

  -- The end of `GetSecret`: a value that is missing or too short for a nonce is no secret, and an
  -- empty slice comes back for it.
  decrypt : Result Bytes → Bytes → Result Bytes
  decrypt (ok key) v = of_sum (c.unseal key (slice v 0 12) (drop 12 v))
  decrypt r v = r

  unfoldable pub decrypt_found : Option Bytes → Result Bytes
  unfolding decrypt
  decrypt_found none = ok []
  decrypt_found (some v) = if ltb (length v) 12 then ok [] else decrypt secrets_cipher v

module _ (S : StateStore) where
  -- `if state == nil { return errors.New("state not loaded") }`
  abbrev pub loaded_pointer : Option NodeState → Method S NodeState
  loaded_pointer none = fail "state not loaded"
  loaded_pointer (some n) = pure n

  abbrev pub loaded_state : Method S NodeState
  loaded_state m = loaded_pointer (state_of S m) m

  -- `if state.Secrets == nil { state.Secrets = make(map[string][]byte) }`
  abbrev pub make_secrets : NodeState → Option (Dict Bytes) → Method S Unit
  make_secrets n none = assign S (record n { secrets = some [] })
  make_secrets n (some d) = pure tt

  abbrev pub store_secret : Time → String → Bytes → Method S Unit
  store_secret now key value = do
    n ← loaded_state
    assign S (record n { secrets = some (insert key value (dict_of n.secrets)) })
    set_updated S now
    commit S

  abbrev pub erase_secret : Time → String → Method S Unit
  erase_secret now key = do
    n ← loaded_state
    assign S (record n { secrets = erase_from key n.secrets })
    set_updated S now
    commit S

  -- `DeleteSecret`
  unfoldable pub delete_secret : Time → String → Method S Unit
  delete_secret now key = locked S (erase_secret now key)

module _ (S : StateStore) (c : Crypto) where
  -- `GetSecret`
  unfoldable pub get_secret : String → Method S Bytes
  get_secret key = do
    n ← loaded_state S
    make_secrets S n n.secrets
    lift (decrypt_found c (lookup key (dict_of n.secrets)))

  -- `SetSecret`; `random` is what filling the twelve bytes of the nonce from `rand.Reader` gives.
  unfoldable pub set_secret : Time → Error ⊎ Bytes → String → Bytes → Method S Unit
  set_secret now random key value = do
    k ← lift (secrets_cipher c)
    nonce ← lift (of_sum random)
    locked S (store_secret S now key (nonce ++ c.seal k nonce value))
