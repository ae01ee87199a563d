-- ===== src/State/Manager/Certificates.antt =====
-- state/state.go: pairs of a key and a certificate, serialized into secrets.
pub mod Laws
pub mod RoundTrip
use Prim.Native.String.{len}
use Prim.Native.String
use text.Mathlib.Text.{starts_with}
use statiko.Base.{
  ℕ, ◌+◌, ◌*◌, ◌/◌, ◌%◌, ◌^◌, String, ◌<>◌, Bool, true, false, not, ltb, leb, nat_eq, ◌||◌, ◌&&◌,
  ◌⊎◌, Option, none, some, List, [], ◌∷◌, ◌++◌, length, drop, slice, ◌==◌, if◌then◌else◌,
}
use statiko.Base.Dict.{Dict}
use statiko.Base.Exec.{Error, Result, ok, err, panic, pure, fail, lift, ◌>>=◌, ◌>>◌}
use statiko.State.Types.{Time, Bytes, NodeState, tls_imported, tls_self_signed, tls_acme}
use statiko.State.Store.{StateStore}
use statiko.State.Manager.Locks.{Manager, Method, deref}
use statiko.State.Manager.Secrets.{Crypto, dict_of, get_secret, set_secret, delete_secret}

abbrev pub uint32_mod : ℕ
uint32_mod = 2 ^ 32

-- `binary.LittleEndian.PutUint32` of `uint32(n)`
unfoldable pub put_uint32 : ℕ → Bytes
put_uint32 n = n % 256 ∷ n / 256 % 256 ∷ n / 65536 % 256 ∷ n / 16777216 % 256 ∷ []

-- `binary.LittleEndian.Uint32` of a slice of four bytes
unfoldable pub uint32 : Bytes → ℕ
uint32 (a ∷ b ∷ c ∷ d ∷ r) = a + b * 256 + c * 65536 + d * 16777216
uint32 r = 0

-- The buffer that `SetCertificate` writes.
unfoldable pub serialize : Bytes → Bytes → Bytes
serialize key cert = put_uint32 (length key) ++ put_uint32 (length cert) ++ key ++ cert

-- `s[low:high]`, which panics out of range.
unfoldable pub checked_slice : Bytes → ℕ → ℕ → Result Bytes
checked_slice s low high =
    if leb low high && leb high (length s) then ok (slice s low high) else panic

-- `serialized[8:(keyLen + 8)]` and `serialized[(keyLen + 8):]`; the sum is one of `uint32`.
abbrev pub cut_pair : Bytes → ℕ → Result (Bytes × Bytes)
cut_pair s middle = elim (checked_slice s 8 middle) [
  | ok key ↦ elim (checked_slice s middle (length s)) [ ok cert ↦ ok (key, cert) | r ↦ panic ]
  | r ↦ panic
]

-- The part of `GetCertificate` behind `GetSecret`; two empty slices stand for no certificate.
unfoldable pub unserialize : Bytes → Result (Bytes × Bytes)
unfolding checked_slice
unserialize s =
    let key_len = uint32 (slice s 0 4) in
    let cert_len = uint32 (slice s 4 8) in
    let total = (8 + key_len + cert_len) % uint32_mod in
    let pair = cut_pair s ((key_len + 8) % uint32_mod) in
    if ltb (length s) 8
    then ok ([], [])
    else if ltb key_len 1 || ltb cert_len 1 || not (nat_eq (length s) total)
    then err "invalid serialized data"
    else pair

-- `strings.Join(l, ",")`
unfoldable pub join : List String → String
join [] = ""
join (s ∷ []) = s
join (s ∷ t ∷ l) = s <> "," <> join (t ∷ l)

abbrev pub imported_key : List String → String
imported_key (name ∷ []) = if nat_eq (len name) 0 then "" else "cert/imported/" <> name
imported_key l = ""

-- `certificateSecretKey`; the empty text stands for no key.
unfoldable pub certificate_secret_key : Crypto → String → List String → String
certificate_secret_key c typ names =
    if typ == tls_imported
    then imported_key names
    else if typ == tls_acme || typ == tls_self_signed
    then "cert/" <> typ <> "/" <> String.slice (c.sha256 (join names)) 0 15
    else ""

module _ (S : StateStore) (c : Crypto) where
  -- `GetCertificate`
  unfoldable pub get_certificate : String → List String → Method S (Bytes × Bytes)
  get_certificate typ names =
      let secret_key = certificate_secret_key c typ names in
      if secret_key == ""
      then fail "invalid name or domains"
      else do s ← get_secret S c secret_key; lift (unserialize s)

  -- `SetCertificate`
  unfoldable pub set_certificate :
      Time → Error ⊎ Bytes → String → List String → Bytes → Bytes → Method S Unit
  set_certificate now random typ names key cert =
      let secret_key = certificate_secret_key c typ names in
      if secret_key == ""
      then fail "invalid name or domains"
      else if ltb 204800 (length key) || ltb 204800 (length cert)
      then fail "key and/or certificate are too long"
      else set_secret S c now random secret_key (serialize key cert)

  -- `RemoveCertificate`
  unfoldable pub remove_certificate : Time → String → List String → Method S Unit
  remove_certificate now typ names =
      let secret_key = certificate_secret_key c typ names in
      if secret_key == "" then fail "invalid name or domains" else delete_secret S now secret_key

-- The loop of `ListImportedCertificates`
unfoldable pub imported_names : Dict Bytes → List String
imported_names [] = []
imported_names ((k, v) ∷ d) =
    let rest = imported_names d in
    if starts_with k "cert/imported/" then String.slice k 14 (len k) ∷ rest else rest

-- `ListImportedCertificates`
unfoldable pub list_imported_certificates : (S : StateStore) → Method S (List String)
list_imported_certificates S = do n ← deref S; pure (imported_names (dict_of n.secrets))
