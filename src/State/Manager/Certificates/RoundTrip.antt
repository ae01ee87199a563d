-- ===== src/State/Manager/Certificates/RoundTrip.antt =====
-- Certificates through the whole path: serialization, encryption, the map and back.
use statiko.Base.{
  ◌≡◌, ◌<◌, ◌≤◌, ◌∙◌, sym, ap, false, inr, length, arith, List, String, if◌then◌else◌, ◌==◌, some,
}
use statiko.Base.Exec.{Result, ok}
use statiko.State.Types.{Time, Bytes, NodeState}
use statiko.State.Store.{StateStore, IsLawful}
use statiko.State.Manager.Locks.{Manager, state_of}
use statiko.State.Manager.Secrets.{Crypto, IsSound, secrets_cipher, set_secret}
use statiko.State.Manager.Secrets.Laws.{get_secret-set_secret}
use statiko.State.Manager.Certificates.{
  certificate_secret_key, serialize, get_certificate, set_certificate,
}
use statiko.State.Manager.Certificates.Laws.{unserialize-serialize}

-- The tests that `SetCertificate` makes before it stores anything have passed.
record IsAccepted (secret_key : String) (key cert : Bytes) : Type 0 where
  keyed : (secret_key == "") ≡ false
  key_fits : length key ≤ 204800
  cert_fits : length cert ≤ 204800

self {ℓ} : {A : Type ℓ} (s : String) (x y : A) → (if s == s then x else y) ≡ x
self s x y = ground arith

module _ (S : StateStore) (L : IsLawful S) (c : Crypto) (sound : IsSound c) (now : Time)
    (m : Manager S) (n : NodeState) (loaded : state_of S m ≡ some n) (k nonce : Bytes)
    (usable : secrets_cipher c ≡ ok k) (twelve : length nonce ≡ 12) where
  accepted_lem :
      (typ : String) (names : List String) (key cert : Bytes)
      → (set_certificate S c now (inr nonce) typ names key cert m).0 ≡ ok tt
      → IsAccepted (certificate_secret_key c typ names) key cert
        × (set_certificate S c now (inr nonce) typ names key cert m
            ≡ set_secret S c now
                (inr nonce)
                (certificate_secret_key c typ names)
                (serialize key cert)
                m)
  unfolding set_certificate
  accepted_lem typ names key cert done = ground arith

  -- After `SetCertificate` has returned nil for a key and a certificate that are not empty,
  -- `GetCertificate` gives that key and that certificate back.
  pub get_certificate-set_certificate :
      (typ : String) (names : List String) (key cert : Bytes)
      → 0 < length key
      → 0 < length cert
      → (set_certificate S c now (inr nonce) typ names key cert m).0 ≡ ok tt
      → (get_certificate S c typ names
          (set_certificate S c now (inr nonce) typ names key cert m).1).0
        ≡ ok (key, cert)
  unfolding get_certificate
  get_certificate-set_certificate typ names key cert pk pc done =
      let (accepted, same) = accepted_lem typ names key cert done in
      let secret_key = certificate_secret_key c typ names in
      let done' : (set_secret S c now (inr nonce) secret_key (serialize key cert) m).0 ≡ ok tt =
        ap (λ (r : Result Unit × Manager S). r.0) (sym same) ∙ done in
      let got =
        get_secret-set_secret S L c now m n loaded k nonce usable sound twelve secret_key secret_key
          (serialize key cert) done'
        ∙ self secret_key (ok (serialize key cert)) _ in
      rw (same, accepted.keyed, get_certificate)
        (rw got (unserialize-serialize key cert accepted.key_fits accepted.cert_fits pk pc))
