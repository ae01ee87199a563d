-- ===== src/Certificates/RoundTrip.antt =====
-- A site without a certificate of its own gets the one that the job makes.
use Prim.Native.String
use statiko.Base.{
  ℕ, suc, ◌<◌, String, ◌<>◌, string_dec, nat_eq, length, true, false, ◌||◌, ◌≡◌, refl, sym, ap, ◌∙◌,
  inr, Option, none, some, List, [], arith,
}
use statiko.Base.Exec.{Result, ok, err, panic, continue, ◌>>◌}
use statiko.State.Types.{Time, Bytes, NodeState, SiteState, tls_self_signed}
use statiko.State.Store.{StateStore, IsLawful}
use statiko.State.Manager.Locks.{Manager, Method, state_of}
use statiko.State.Manager.Secrets.{Crypto, IsSound, secrets_cipher}
use statiko.State.Manager.Certificates.{
  get_certificate, set_certificate, certificate_secret_key, join,
}
use statiko.State.Manager.Certificates.RoundTrip.{get_certificate-set_certificate}
use statiko.Certificates.{X509, CertLib, site_names, inspect_certificate}
use statiko.Certificates.Jobs.{JobData, job_tls_certificate, split_names, process_tls, process_job}
use statiko.Certificates.Sites.{
  is_incomplete, parse_pem, is_usable, self_signed_job, get_self_signed_certificate,
}
use statiko.Certificates.Laws.{join-split_names}

-- The key of a secret depends on the names through their text alone.
key_lem :
    (c : Crypto) (a b : List String)
    → join a ≡ join b
    → certificate_secret_key c tls_self_signed a ≡ certificate_secret_key c tls_self_signed b
unfolding certificate_secret_key string_dec
key_lem c a b e = ap (λ x. "cert/" <> tls_self_signed <> "/" <> String.slice (c.sha256 x) 0 15) e

module _ (S : StateStore) (c : Crypto) where
  same_certificate :
      (a b : List String) (m : Manager S)
      → join a ≡ join b
      → get_certificate S c tls_self_signed a m ≡ get_certificate S c tls_self_signed b m
  unfolding get_certificate
  same_certificate a b m e = rw (key_lem c a b e) refl

module _ (S : StateStore) (L : IsLawful S) (c : Crypto) (sound : IsSound c) (now : Time)
    (nonce k : Bytes) (usable : secrets_cipher c ≡ ok k) (twelve : length nonce ≡ 12)
    (generate_tls : List String → Result (Bytes × Bytes))
    (generate_acme : List String → Method S (Bytes × Bytes)) where
  abbrev KeyPair : Type 0
  KeyPair = Bytes × Bytes

  abbrev perform : JobData → Method S Unit
  perform = process_job S c now (inr nonce) generate_tls generate_acme

  tls_lem :
      (content : String) (m : Manager S)
      → perform (record { kind = job_tls_certificate; content = content }) m
        ≡ process_tls S c now (inr nonce) generate_tls generate_acme content m
  unfolding process_job string_dec
  tls_lem content m = refl

  -- Where the secrets can be encrypted and decrypted and a state is loaded: after a job of the type
  -- "tlscert" for a list of names has made a key and a certificate, neither empty, and ended without
  -- an error, `GetCertificate` finds them under that list of names.
  pub get_certificate-process_job :
      (names : List String) (key cert : Bytes) (m : Manager S) (n : NodeState)
      → state_of S m ≡ some n
      → generate_tls (split_names (join names)) ≡ ok (key, cert)
      → 0 < length key
      → 0 < length cert
      → (process_job S c now
          (inr nonce)
          generate_tls
          generate_acme
          (record { kind = job_tls_certificate; content = join names })
          m).0
        ≡ ok tt
      → (get_certificate S c tls_self_signed names
          (process_job S c now
            (inr nonce)
            generate_tls
            generate_acme
            (record { kind = job_tls_certificate; content = join names })
            m).1).0
        ≡ ok (key, cert)
  unfolding process_tls
  get_certificate-process_job names key cert m n loaded made pk pc done =
      let same = tls_lem (join names) m in
      let set =
        set_certificate S c now (inr nonce) tls_self_signed (split_names (join names)) key cert m in
      let processed : process_tls S c now (inr nonce) generate_tls generate_acme (join names) m
          ≡ set =
        rw made refl in
      let stored : set.0 ≡ ok tt =
        ap (λ (r : Result Unit × Manager S). r.0) (sym (same ∙ processed)) ∙ done in
      ap (λ (r : Result Unit × Manager S). (get_certificate S c tls_self_signed names r.1).0)
        (same ∙ processed)
      ∙ ap (λ (r : Result (Bytes × Bytes) × Manager S). r.0)
          (same_certificate S c names (split_names (join names)) set.1
            (sym (join-split_names (join names))))
      ∙ get_certificate-set_certificate S L c sound now m n loaded k nonce usable twelve
          tls_self_signed (split_names (join names)) key cert pk pc stored

  -- The pair is one that the site can use.
  pub record IsGood (X : CertLib) (site : SiteState) (key cert : Bytes) : Type 0 where
    pub some_key : 0 < length key
    pub some_cert : 0 < length cert
    pub block : Bytes
    pub pem : X.pem_decode cert ≡ some block
    pub parsed : X509
    pub parses : X.parse_certificate block ≡ inr parsed
    pub inspected : inspect_certificate X now site parsed ≡ none

  good_lem :
      (X : CertLib) (site : SiteState) (key cert : Bytes)
      → IsGood X site key cert
      → is_usable S c X now perform site (key, cert) ≡ ok true
  unfolding is_incomplete parse_pem
  good_lem X site key cert g = rw (incomplete, g.pem, g.parses, g.inspected) refl
    where
      incomplete : (nat_eq (length key) 0 || nat_eq (length cert) 0) ≡ false
      incomplete = ground (arith, g.some_key, g.some_cert)

  -- One round that finds a pair which the site can use.
  second_round :
      (X : CertLib) (rounds : ℕ) (site : SiteState) (key cert : Bytes) (m : Manager S)
      → IsGood X site key cert
      → (get_certificate S c tls_self_signed (site_names site) m).0 ≡ ok (key, cert)
      → (get_self_signed_certificate S c X now perform (suc rounds) site m).0
        ≡ ok (some (key, cert))
  unfolding get_self_signed_certificate
  second_round X rounds site key cert m g found = rw (found, good_lem X site key cert g) refl

  first_round :
      (X : CertLib) (rounds : ℕ) (site : SiteState) (m : Manager S)
      → (get_certificate S c tls_self_signed (site_names site) m).0 ≡ ok ([], [])
      → get_self_signed_certificate S c X now perform (suc rounds) site m
        ≡ (perform (self_signed_job S c X now perform site)
              >> get_self_signed_certificate S c X now perform rounds site)
            (get_certificate S c tls_self_signed (site_names site) m).1
  unfolding get_self_signed_certificate is_incomplete
  first_round X rounds site m missing = rw missing refl

  performed :
      (r : Result (Unit {0}) × Manager S) (f : Manager S → Result (Option KeyPair) × Manager S)
      → r.0 ≡ ok tt
      → continue r.0 (λ _. f) r.1 ≡ f r.1
  performed (ok x, m) f h = refl
  performed (err e, m) f h = absurd cc
  performed (panic, m) f h = absurd cc

  -- Where the secrets can be encrypted and decrypted and a state is loaded: a site that has no
  -- self-signed certificate yet gets the pair that its job makes, in the second round of
  -- `GetSelfSignedCertificate`, if the job ends without an error and the pair is one that the site
  -- can use.
  pub get_self_signed_certificate_lem :
      (X : CertLib) (site : SiteState) (key cert : Bytes) (m : Manager S) (n : NodeState)
      → (get_certificate S c tls_self_signed (site_names site) m).0 ≡ ok ([], [])
      → state_of S (get_certificate S c tls_self_signed (site_names site) m).1 ≡ some n
      → generate_tls (split_names (join (site_names site))) ≡ ok (key, cert)
      → IsGood X site key cert
      → (perform
          (record { kind = job_tls_certificate; content = join (site_names site) })
          (get_certificate S c tls_self_signed (site_names site) m).1).0
        ≡ ok tt
      → (rounds : ℕ)
      → (get_self_signed_certificate S c X now perform (suc (suc rounds)) site m).0
        ≡ ok (some (key, cert))
  get_self_signed_certificate_lem X site key cert m n missing loaded made g done rounds =
      let m1 = (get_certificate S c tls_self_signed (site_names site) m).1 in
      let job = self_signed_job S c X now perform site in
      ap (λ (r : Result (Option KeyPair) × Manager S). r.0)
        (first_round X (suc rounds) site m missing
          ∙ performed (perform job m1)
              (get_self_signed_certificate S c X now perform (suc rounds) site) done)
      ∙ second_round X rounds site key cert (perform job m1).1 g (
          get_certificate-process_job (site_names site) key cert m1 n loaded made g.some_key
            g.some_cert done)
