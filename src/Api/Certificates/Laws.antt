-- ===== src/Api/Certificates/Laws.antt =====
-- Certificates over the API: what is imported can be read, and what is in use is not deleted.
use Prim.Native.String.{len}
use statiko.Base.{
  nat_eq, ◌≡◌, ◌<◌, refl, ap, ◌∙◌, String, Bool, true, false, inl, inr, some, List, [], ◌∷◌, length,
  get_elem?, ℕ, zero, suc, arith, Bool-cases, if◌then◌else◌,
}
use statiko.Base.Exec.{Result, ok, err, panic}
use statiko.State.Types.{Bytes, NodeState, SiteState, tls_imported}
use statiko.State.Store.{StateStore, IsLawful}
use statiko.State.Manager.Locks.{state_of}
use statiko.State.Manager.Secrets.{Crypto, IsSound, secrets_cipher}
use statiko.State.Manager.Sites.{get_sites}
use statiko.State.Manager.Certificates.{get_certificate}
use statiko.State.Manager.Certificates.RoundTrip.{get_certificate-set_certificate}
use statiko.Api.Handler
use statiko.Api.Handler.{Node, Flow, stop, go, of_result, call}
use statiko.Api.Sites.{Env, imported_exists}
use statiko.Api.Sites.Consistency.{Holds, imported_exists-Holds}
use statiko.Api.Certificates.{
  CertAddRequest, CertificateLib, check_request, uses_tls, in_use, import_certificate,
  store_request, removal, remove_unused, delete_certificate,
}

in_use-get_elem? :
    (name : String) (l : List SiteState) (i : ℕ) (s : SiteState)
    → get_elem? l i ≡ some s
    → uses_tls name s.tls ≡ true
    → in_use name l ≡ true
unfolding in_use
in_use-get_elem? name [] i s at used = cc
in_use-get_elem? name (x ∷ l) zero s at used = ground arith
in_use-get_elem? name (x ∷ l) (suc i) s at used =
    ground (arith, in_use-get_elem? name l i s at used)

-- A certificate that a site uses.
pub record IsUsed (name : String) (l : List SiteState) : Type 0 where
  pub index : ℕ
  pub site : SiteState
  pub at : get_elem? l index ≡ some site
  pub used : uses_tls name site.tls ≡ true

module _ (S : StateStore) (L : IsLawful S) (c : Crypto) (e : Env) (lib : CertificateLib) where
  of_result_lem : (r : Result (Unit {0})) → of_result r ≡ go tt → r ≡ ok tt
  of_result_lem (ok x) h = refl
  of_result_lem (err x) h = cc
  of_result_lem panic h = cc

  call_lem :
      (h : Flow (Unit {0}) × Node S)
      → (Handler.continue S h.0 (λ _. Handler.queue_run S) h.1).0 ≡ go tt
      → (h.0 ≡ go tt)
        × ((Handler.continue S h.0 (λ _. Handler.queue_run S) h.1).1.manager ≡ h.1.manager)
  call_lem (stop r, n) done = absurd cc
  call_lem (go x, n) done = (refl, refl)

  imported_lem :
      (nonce : Bytes) (input : CertAddRequest) (n : Node S) (r : Flow (Unit {0}))
      → check_request lib e.now input ≡ r
      → (import_certificate S c e lib (inr nonce) (inr input) n).0 ≡ go tt
      → ((store_request S c e lib (inr nonce) input n).0 ≡ go tt)
        × ((import_certificate S c e lib (inr nonce) (inr input) n).1.manager
            ≡ (store_request S c e lib (inr nonce) input n).1.manager)
  unfolding import_certificate
  imported_lem nonce input n (stop r) checked done = absurd (ground (arith, checked, done))
  imported_lem nonce input n (go x) checked done =
      rw checked (call_lem (store_request S c e lib (inr nonce) input n) (rw checked at done))

  -- After `POST /certificate` has been answered by 204, the certificate of that name, in lower
  -- case, is the pair that was sent.
  pub get_certificate-import_certificate :
      (sound : IsSound c) (n : Node S) (k : NodeState)
      → state_of S n.manager ≡ some k
      → (secret nonce : Bytes) → secrets_cipher c ≡ ok secret
      → length nonce ≡ 12
      → (input : CertAddRequest) → 0 < length (lib.to_bytes input.key)
      → 0 < length (lib.to_bytes input.certificate)
      → (import_certificate S c e lib (inr nonce) (inr input) n).0 ≡ go tt
      → (get_certificate S c tls_imported
          (lib.to_lower input.name ∷ [])
          (import_certificate S c e lib (inr nonce) (inr input) n).1.manager).0
        ≡ ok (lib.to_bytes input.key, lib.to_bytes input.certificate)
  get_certificate-import_certificate sound n k loaded secret nonce usable twelve input pk pc done =
      let (stored, same) = imported_lem nonce input n (check_request lib e.now input) refl done in
      ap (λ m. (get_certificate S c tls_imported (lib.to_lower input.name ∷ []) m).0) same
      ∙ get_certificate-set_certificate S L c sound e.now n.manager k loaded secret nonce usable
          twelve tls_imported (lib.to_lower input.name ∷ []) (lib.to_bytes input.key)
          (lib.to_bytes input.certificate) pk pc (of_result_lem _ stored)

  removal_lem :
      (name : String) (l : List SiteState) (n : Node S)
      → Holds S L l n.manager
      → IsUsed name l
      → ((r : Handler.Response) × ((remove_unused S c e lib name n).0 ≡ stop r))
        × Holds S L l (remove_unused S c e lib name n).1.manager
  unfolding get_sites
  removal_lem name l n (k, loaded, sites) u =
      let same : get_sites S n.manager ≡ l = rw (loaded, get_sites) sites in
      let used : in_use name (get_sites S n.manager) ≡ true =
        ap (in_use name) same ∙ in_use-get_elem? name l u.index u.site u.at u.used in
      if_inv_used (in_use name (get_sites S n.manager)) used
    where
      if_inv_used :
          (b : Bool)
          → b ≡ true
          → ((r : Handler.Response) × (((if b
                    then (λ m.
                        (Handler.abort 409 "TLS certificate is in use and can't be removed", m))
                    else removal S c e lib name)
                  n).0
                ≡ stop r))
            × Holds S L l
                ((if b
                    then (λ m.
                        (Handler.abort 409 "TLS certificate is in use and can't be removed", m))
                    else removal S c e lib name)
                  n).1.manager
      if_inv_used true h = ((_, refl), (k, loaded, sites))
      if_inv_used false h = absurd cc

  -- `DELETE /certificate/:name` of a certificate that a site uses is refused, and leaves the sites.
  pub delete_certificate_used :
      (name : String) (l : List SiteState) (n : Node S)
      → Holds S L l n.manager
      → IsUsed (lib.to_lower name) l
      → ((r : Handler.Response) × ((delete_certificate S c e lib name n).0 ≡ stop r))
        × Holds S L l (delete_certificate S c e lib name n).1.manager
  unfolding delete_certificate
  delete_certificate_used name l n held u = elim (Bool-cases (nat_eq (len name) 0)) [
    | inl empty ↦ rw empty ((_, refl), held)
    | inr named ↦ rw named (
        split (imported_exists S c e (lib.to_lower name) n).0
          (imported_exists S c e (lib.to_lower name) n).1
          (imported_exists-Holds S L c e (lib.to_lower name) l n held))
  ]
    where
      split :
          (r : Flow (Unit {0})) (k : Node S)
          → Holds S L l k.manager
          → ((x : Handler.Response) × ((Handler.continue S r
                  (λ _. remove_unused S c e lib (lib.to_lower name))
                  k).0
                ≡ stop x))
            × Holds S L l
                (Handler.continue S r
                  (λ _. remove_unused S c e lib (lib.to_lower name))
                  k).1.manager
      split (stop r) k kept = ((r, refl), kept)
      split (go x) k kept = removal_lem (lib.to_lower name) l k kept u
