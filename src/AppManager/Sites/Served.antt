-- ===== src/AppManager/Sites/Served.antt =====
-- Which folders of sites stay, where the certificates are those that the node has or makes.
use mathlib.Core.Path.{subst}
use statiko.Base.{
  ℕ, String, ◌==◌, Bool, true, ◌≡◌, refl, sym, ap, ◌∙◌, ◌⊎◌, inl, inr, Option, none, some, List, [],
  ◌∷◌, ◌++◌, map, arith,
}
use statiko.Base.Exec.{Error, Result, ok, pure, fail, ◌>>=◌}
use statiko.Base.Steps.{continued, kept_bind}
use statiko.State.Types.{Time, Bytes, SiteState}
use statiko.State.Store.{StateStore}
use statiko.State.Manager.Locks.{Manager, Method}
use statiko.State.Manager.Secrets.{Crypto}
use statiko.State.Manager.Sites.{string_in_slice}
use statiko.State.Manager.Status.{get_site_health}
use statiko.Api.Sites.Consistency.{string_in_slice-append}
use statiko.Os.{FileSystem}
use statiko.AppManager.Local.{Local}
use statiko.AppManager.Sites.{sync_site_folder, sync_listed, sync_unless}
use statiko.AppManager.Sites.Laws.{AreDistinct, P, Outcome, health_at, unless_lem, sync_listed_lem}
use statiko.Certificates.{CertLib}
use statiko.Certificates.Jobs.{process_job}
use statiko.Certificates.Sites.{get_site_certificate}
use statiko.Certificates.Health.{IsQuiet, process-IsQuiet, site-IsQuiet}

abbrev pub domains : List SiteState → List String
domains sites = map (λ (s : SiteState). s.domain) sites

module _ (S : StateStore) (F : FileSystem) (app_root : String)
    (get_certificate : SiteState → Method S (Bytes × Bytes))
    (quiet : (s : SiteState) → IsQuiet S (get_certificate s)) where
  out_lem :
      (s : SiteState) (l : List String) (t v : Local S F) (p : P S F app_root get_certificate quiet)
      (d : String)
      → Outcome S F app_root get_certificate quiet t.0.site_health s.domain l (ok p, v)
      → string_in_slice p.1 d ≡ true
      → (string_in_slice l d ≡ true) ⊎ ((s.domain == d) ≡ true)
  out_lem s l t v p d out named = elim (out p refl) [
    | inl (same, health) ↦ inl (subst (λ x. string_in_slice x d ≡ true) same named)
    | inr (added, health) ↦
        let named' : string_in_slice (l ++ s.domain ∷ []) d ≡ true =
          subst (λ x. string_in_slice x d ≡ true) added named in
        ground (arith, string_in_slice-append l s.domain d, named')
  ]

  later_lem :
      (s : SiteState) (sites : List SiteState) (l : List String) (d : String)
      → ((string_in_slice l d ≡ true) ⊎ ((s.domain == d) ≡ true))
        ⊎ (string_in_slice (domains sites) d ≡ true)
      → (string_in_slice l d ≡ true) ⊎ (string_in_slice (domains (s ∷ sites)) d ≡ true)
  unfolding string_in_slice
  later_lem s sites l d (inl (inl h)) = inl h
  later_lem s sites l d (inl (inr h)) = inr (ground (arith, h))
  later_lem s sites l d (inr h) = inr (ground (arith, h))

  pair_lem : {A B : Type 0} (r : A × B) (a : A) → r.0 ≡ a → r ≡ (a, r.1)
  pair_lem (r, b) a h = rw h refl

  names_lem :
      (sites : List SiteState) (p : P S F app_root get_certificate quiet) (t : Local S F)
      (q : P S F app_root get_certificate quiet) (d : String)
      → (sync_listed S F app_root get_certificate sites p t).0 ≡ ok q
      → string_in_slice q.1 d ≡ true
      → (string_in_slice p.1 d ≡ true) ⊎ (string_in_slice (domains sites) d ≡ true)
  unfolding sync_listed sync_site_folder get_site_health
  names_lem [] p t q d h named =
      let same : p ≡ q = cc in
      inl (
        subst (λ (x : P S F app_root get_certificate quiet). string_in_slice x.1 d ≡ true)
          (sym same) named)
  names_lem (s ∷ sites) (u, l) t q d h named =
      let o = health_at t.0.site_health s.domain in
      let r = sync_unless S F app_root get_certificate s (u, l) o t in
      let (p, done, same) = continued r (sync_listed S F app_root get_certificate sites) q h in
      let (out, cases) = unless_lem S F app_root get_certificate quiet s u l o t refl p done in
      later_lem s sites l d
        (elim (names_lem sites p r.1 q d
          (ap (λ (x : Result (P S F app_root get_certificate quiet) × Local S F). x.0) (sym same)
            ∙ h)
          named) [
            | inr later ↦ inr later
            | inl here ↦ inl (
                out_lem s l t r.1 p d
                  (subst
                    (λ x. Outcome S F app_root get_certificate quiet t.0.site_health s.domain l x)
                    (pair_lem r (ok p) done) out)
                  here)
          ])

  first_lem : (d : String) → string_in_slice ("_default" ∷ []) d ≡ true → d ≡ "_default"
  unfolding string_in_slice
  first_lem d h = ground (arith, h)

module _ (S : StateStore) (F : FileSystem) (app_root : String) (c : Crypto) (X : CertLib)
    (now : Time) (random : Error ⊎ Bytes) (generate_tls : List String → Result (Bytes × Bytes))
    (generate_acme : List String → Method S (Bytes × Bytes))
    (calm : (names : List String) → IsQuiet S (generate_acme names)) (rounds : ℕ) where
  abbrev ended : Option (Bytes × Bytes) → Method S (Bytes × Bytes)
  ended none = fail "no certificate after the given rounds"
  ended (some p) = pure p

  -- The certificate of a site, where the node performs the jobs itself. Where it takes more rounds than
  -- are given, that is an error here.
  abbrev pub certificate_for : SiteState → Method S (Bytes × Bytes)
  certificate_for site =
      get_site_certificate S c X now (process_job S c now random generate_tls generate_acme) rounds
        site
      >>= ended

  ended-IsQuiet : (o : Option (Bytes × Bytes)) → IsQuiet S (ended o)
  ended-IsQuiet none m = refl
  ended-IsQuiet (some p) m = refl

  certificate-IsQuiet : (site : SiteState) → IsQuiet S (certificate_for site)
  certificate-IsQuiet site m =
      kept_bind (λ (x : Manager S). x.site_health) m.site_health
        (get_site_certificate S c X now (process_job S c now random generate_tls generate_acme)
          rounds site m)
        ended
        (site-IsQuiet S c X now (process_job S c now random generate_tls generate_acme)
          (process-IsQuiet S c now random generate_tls generate_acme calm) rounds site m)
        (λ o s. ended-IsQuiet o s)

  abbrev Pass : Type 0
  Pass = Bool × List String

  -- When `SyncSiteFolders` has gone through sites with different domains, with the certificates of
  -- `GetCertificate` and jobs that the node performs itself, every folder that it then keeps is the
  -- default one, or that of one of these sites whose health is without an error at that time. The client
  -- of ACME does not change the health of the sites.
  pub sync_listed-AreServed :
      (sites : List SiteState) (u : Bool) (t : Local S F)
      → AreDistinct sites
      → (q : Pass)
      → (sync_listed S F app_root certificate_for sites (u, "_default" ∷ []) t).0 ≡ ok q
      → (d : String) → string_in_slice q.1 d ≡ true
      → (d ≡ "_default")
        ⊎ ((string_in_slice (domains sites) d ≡ true)
            × (health_at
                  (sync_listed S F app_root certificate_for sites
                    (u, "_default" ∷ [])
                    t).1.0.site_health
                  d
                ≡ none))
  sync_listed-AreServed sites u t distinct q h d named =
      elim (names_lem S F app_root certificate_for certificate-IsQuiet sites (u, "_default" ∷ []) t
        q d h named) [
          | inl first ↦ inl (first_lem S F app_root certificate_for certificate-IsQuiet d first)
          | inr site ↦
              elim (sync_listed_lem S F app_root certificate_for certificate-IsQuiet sites u t
                distinct q h d named) [ inl first ↦ inl first | inr healthy ↦ inr (site, healthy) ]
        ]
