-- ===== src/Api/Sites/Consistency.antt =====
-- No handler of /site lets a name belong to two sites.
use mathlib.Core.Path.{subst}
use statiko.Base.{
  ℕ, ◌≡◌, ◌⊎◌, inl, inr, refl, ap, sym, ◌∙◌, String, Bool, true, false, ◌||◌, ◌&&◌, not, Option,
  none, some, List, [], ◌∷◌, ◌++◌, swap_remove, find, find_index, find_index_lem, arith, Bool-cases,
  if◌then◌else◌, ◌==◌,
}
use statiko.Base.Exec.{Error, Result, ok, err, panic, lift, continue, ◌>>◌}
use statiko.Base.Dict.{Dict}
use statiko.State.Types.{
  Time, Bytes, SiteTls, SiteState, NodeState, tls_imported, tls_azure_key_vault, tls_self_signed,
  tls_acme,
}
use statiko.State.Store.{StateStore, IsLawful}
use statiko.State.Manager.Locks.{Manager, state_of}
use statiko.State.Manager.Frame.{Core, core, Outcome}
use statiko.State.Manager.Secrets.{Crypto, get_secret, make_secrets}
use statiko.State.Manager.Certificates.{get_certificate, certificate_secret_key, unserialize}
use statiko.State.Manager.Sites.{
  claims, string_in_slice, get_site, get_sites, add_site, delete_site,
}
use statiko.State.Manager.Sites.Effects.{
  with_sites, add_site-Outcome, delete_site-Outcome, deletion,
}
use statiko.State.Manager.Sites.Unique.{IsUnique, append-IsUnique, swap_remove-IsUnique}
use statiko.Api.Handler
use statiko.Api.Handler.{Node, Flow, stop, go, Handler, and_then, call}
use statiko.Api.Sites.{
  Env, settle_domain, none_exists, imported_exists, choose_tls, with_certificate, create_named,
  clear_version, create_site, requested_domain, delete_site_handler, delete_named, find_or_404,
}

module _ (S : StateStore) (L : IsLawful S) where
  -- The manager has loaded a state with these sites.
  abbrev pub Holds : List SiteState → Manager S → Type 0
  Holds l m = (n : NodeState) × (state_of S m ≡ some n) × (n.sites ≡ l)

  made-Holds :
      {A : Type 0} (l : List SiteState) (m : Manager S) (n : NodeState)
      → state_of S m ≡ some n
      → n.sites ≡ l
      → (d : Option (Dict Bytes)) (r : Result A) → Holds l ((make_secrets S n d >> lift r) m).1
  made-Holds l m n loaded sites none r = (record n { secrets = some [] }, L.get-modify _ _, sites)
  made-Holds l m n loaded sites (some d) r = (n, loaded, sites)

  get_secret-Holds :
      (c : Crypto) (key : String) (l : List SiteState) (m : Manager S)
      → Holds l m
      → Holds l (get_secret S c key m).1
  unfolding get_secret
  get_secret-Holds c key l m (n, loaded, sites) =
      rw loaded (made-Holds l m n loaded sites n.secrets _)

  continue-lift :
      {A B : Type 0} (r : Result A) (f : A → Result B) (m : Manager S)
      → (continue r (λ a. lift (f a)) m).1 ≡ m
  continue-lift (ok a) f m = refl
  continue-lift (err e) f m = refl
  continue-lift panic f m = refl

  -- Reading a certificate leaves the sites alone.
  pub get_certificate-Holds :
      (c : Crypto) (typ : String) (names : List String) (l : List SiteState) (m : Manager S)
      → Holds l m
      → Holds l (get_certificate S c typ names m).1
  unfolding get_certificate
  get_certificate-Holds c typ names l m h =
      let key = certificate_secret_key c typ names in
      elim (Bool-cases (key == "")) [
        | inl no_key ↦ rw (no_key, get_certificate) h
        | inr keyed ↦
            rw (keyed, get_certificate)
              (subst (Holds l) (sym (continue-lift (get_secret S c key m).0 unserialize _))
                (get_secret-Holds c key l m h))
      ]

  pub get_site_lem :
      (l : List SiteState) (m : Manager S)
      → Holds l m
      → (d : String) → get_site S d m ≡ find (claims d) l
  unfolding get_site
  get_site_lem l m (n, loaded, sites) d = rw (loaded, get_sites) (rw sites)

  -- What a writing operation on the sites leaves: the list of before, or the new one.
  Outcome-Holds :
      (l l' : List SiteState) (old new c : Core) (r : Result (Unit {0})) (n n' : NodeState)
      → old.state ≡ some n
      → n.sites ≡ l
      → new.state ≡ some n'
      → n'.sites ≡ l'
      → Outcome old (some new) r c
      → (k : NodeState) × (c.state ≡ some k) × ((k.sites ≡ l) ⊎ (k.sites ≡ l'))
  Outcome-Holds l l' old new c r n n' a sites b sites' (inl (failed, same)) =
      (n, ap (λ (x : Core). x.state) same ∙ a, inl sites)
  Outcome-Holds l l' old new c r n n' a sites b sites' (inr (done, changed)) =
      (n', ap (λ (x : Core). x.state) changed ∙ b, inr sites')

module _ (S : StateStore) (c : Crypto) (e : Env) where
  none_exists_same : (names : List String) (n : Node S) → (none_exists S c e names n).1 ≡ n
  unfolding none_exists
  none_exists_same [] n = refl
  none_exists_same (x ∷ l) n = ground (arith, none_exists_same l n)

  -- The names that the loop has passed are free.
  none_exists_free :
      (names : List String) (n : Node S) (d : String)
      → (none_exists S c e names n).0 ≡ go tt
      → string_in_slice names d ≡ true
      → get_site S d n.manager ≡ none
  unfolding none_exists string_in_slice
  none_exists_free [] n d h named = cc
  none_exists_free (x ∷ l) n d h named = ground (arith, none_exists_free l n d)

pub string_in_slice-append :
    (l : List String) (x d : String)
    → string_in_slice (l ++ x ∷ []) d ≡ (string_in_slice l d || x == d)
unfolding string_in_slice
string_in_slice-append [] x d = ground arith
string_in_slice-append (y ∷ l) x d = ground (arith, string_in_slice-append l x d)

-- All names of a site are among those that the handler checks.
claims_checked :
    (site : SiteState) (d : String)
    → claims d site ≡ true
    → string_in_slice (site.aliases ++ site.domain ∷ []) d ≡ true
unfolding claims
claims_checked site d claimed = ground (arith, string_in_slice-append site.aliases site.domain d)

claims-clear_version :
    (site : SiteState) (d : String) → claims d (clear_version site) ≡ claims d site
unfolding claims clear_version
claims-clear_version site d = ground arith

module _ (S : StateStore) where
  -- A property of the node through the steps of a handler.
  pub and_then_inv :
      {A B : Type 0} (Q : Node S → Type 0) (h : Handler S A) (f : A → Handler S B) (n : Node S)
      → Q (h n).1
      → ((a : A) → (h n).0 ≡ go a → Q (f a (h n).1).1)
      → Q (and_then S h f n).1
  and_then_inv {A} {B} Q h f n kept run = split (h n).0 refl
    where
      split : (r : Flow A) → (h n).0 ≡ r → Q (Handler.continue S r f (h n).1).1
      split (stop r) e = kept
      split (go a) e = run a e

  -- The state has been loaded, and no name in it belongs to two sites.
  pub record IsConsistent (m : Manager S) : Type 0 where
    pub node : NodeState
    pub loaded : state_of S m ≡ some node
    pub unique : IsUnique node.sites

  module _ (L : IsLawful S) (c : Crypto) (e : Env) where
    pub Holds-IsConsistent :
        (l : List SiteState) (m : Manager S) → IsUnique l → Holds S L l m → IsConsistent m
    Holds-IsConsistent l m unique (n, loaded, sites) = record {
      node = n;
      loaded = loaded;
      unique = subst IsUnique (sym sites) unique;
    }

    add_site-IsConsistent :
        (now : Time) (site : SiteState) (l : List SiteState) (m : Manager S)
        → Holds S L l m
        → IsUnique l
        → ((d : String) → claims d site ≡ true → find (claims d) l ≡ none)
        → IsConsistent (add_site S now site m).1
    add_site-IsConsistent now site l m (n, loaded, sites) unique free =
        finish (add_site-Outcome S L now m n loaded site)
      where
        finish :
            Outcome
              (core S m)
              (some (with_sites S L now m n loaded (n.sites ++ site ∷ []) (some now)))
              (add_site S now site m).0
              (core S (add_site S now site m).1)
            → IsConsistent (add_site S now site m).1
        finish (inl (failed, same)) = record {
          node = n;
          loaded = ap (λ (x : Core). x.state) same ∙ loaded;
          unique = subst IsUnique (sym sites) unique;
        }
        finish (inr (done, changed)) = record {
          node = record n { sites = n.sites ++ site ∷ [] };
          loaded = ap (λ (x : Core). x.state) changed;
          unique =
              subst (λ k. IsUnique (k ++ site ∷ [])) (sym sites)
                (append-IsUnique l site unique free);
        }

    pub imported_exists-Holds :
        (name : String) (l : List SiteState) (n : Node S)
        → Holds S L l n.manager
        → Holds S L l (imported_exists S c e name n).1.manager
    unfolding imported_exists
    imported_exists-Holds name l n h =
        let kept = get_certificate-Holds S L c tls_imported (name ∷ []) l n.manager h in
        and_then_inv (λ k. Holds S L l k.manager)
          (call S (get_certificate S c tls_imported (name ∷ []))) _ n kept (λ p e. kept)

    if_inv :
        {A : Type 0} (Q : Node S → Type 0) (b : Bool) (x y : Handler S A) (n : Node S)
        → Q (x n).1
        → Q (y n).1
        → Q ((if b then x else y) n).1
    if_inv Q true x y n p q = p
    if_inv Q false x y n p q = q

    with_certificate-Holds :
        (t : SiteTls) (o : Option String) (l : List SiteState) (n : Node S)
        → Holds S L l n.manager
        → Holds S L l (with_certificate S c e t o n).1.manager
    with_certificate-Holds t none l n h = h
    with_certificate-Holds t (some name) l n h =
        let Q : Node S → Type 0 = λ k. Holds S L l k.manager in
        if_inv Q (t.kind == tls_imported && not (name == "")) _ _ n
          (and_then_inv Q (imported_exists S c e name) _ n (imported_exists-Holds name l n h)
            (λ u x. imported_exists-Holds name l n h))
          (if_inv Q (t.kind == tls_azure_key_vault && not (name == "")) _ _ n h h)

    choose_tls-Holds :
        (t : Option SiteTls) (l : List SiteState) (n : Node S)
        → Holds S L l n.manager
        → Holds S L l (choose_tls S c e t n).1.manager
    unfolding choose_tls
    choose_tls-Holds none l n h = h
    choose_tls-Holds (some t) l n h =
        let Q : Node S → Type 0 = λ k. Holds S L l k.manager in
        if_inv Q (t.kind == "" || t.kind == tls_self_signed) _ _ n h
          (if_inv Q (t.kind == tls_acme) _ _ n h (with_certificate-Holds t t.certificate l n h))

    create_named-IsConsistent :
        (site : SiteState) (n : Node S)
        → IsConsistent n.manager
        → IsConsistent (create_named S c e site n).1.manager
    unfolding claims
    create_named-IsConsistent site n h =
        and_then_inv Q (none_exists S c e names) _ n (subst Q (sym same) h) (λ u passed.
          and_then_inv Q (choose_tls S c e site.tls) _ n1
            (Holds-IsConsistent l (choose_tls S c e site.tls n1).1.manager h.unique held)
            (λ t chosen.
              and_then_inv Q (call S (add_site S e.now (final t))) _
                (choose_tls S c e site.tls n1).1 (stored t passed) (λ v done. stored t passed)))
      where
        Q : Node S → Type 0
        Q k = IsConsistent k.manager

        l : List SiteState
        l = h.node.sites

        names : List String
        names = site.aliases ++ site.domain ∷ []

        n1 : Node S
        n1 = (none_exists S c e names n).1

        same : n1 ≡ n
        same = none_exists_same S c e names n

        held : Holds S L l (choose_tls S c e site.tls n1).1.manager
        held =
            choose_tls-Holds site.tls l n1
              (subst (λ (k : Node S). Holds S L l k.manager) (sym same) (h.node, h.loaded, refl))

        final : SiteTls → SiteState
        final t = clear_version (record site { tls = some t })

        stored :
            (t : SiteTls)
            → (none_exists S c e names n).0 ≡ go tt
            → IsConsistent (add_site S e.now (final t) (choose_tls S c e site.tls n1).1.manager).1
        stored t passed =
            add_site-IsConsistent e.now (final t) l (choose_tls S c e site.tls n1).1.manager held
              h.unique
              (λ d claimed.
                sym (get_site_lem S L l n.manager (h.node, h.loaded, refl) d)
                ∙ none_exists_free S c e names n d passed (
                    claims_checked site d
                      (sym (claims-clear_version (record site { tls = some t }) d) ∙ claimed)))

    -- `POST /site` keeps the sites consistent, whatever the body of the request and the outcome.
    pub create_site-IsConsistent :
        (input : Error ⊎ SiteState) (n : Node S)
        → IsConsistent n.manager
        → IsConsistent (create_site S c e input n).1.manager
    unfolding create_site
    create_site-IsConsistent (inl x) n h = h
    create_site-IsConsistent (inr site) n h = settled (settle_domain e site)
      where
        settled :
            (r : Flow SiteState)
            → IsConsistent (Handler.continue S r (create_named S c e) n).1.manager
        settled (stop r) = h
        settled (go s) = create_named-IsConsistent s n h

    delete_site-IsConsistent :
        (now : Time) (domain : String) (m : Manager S)
        → IsConsistent m
        → IsConsistent (delete_site S now domain m).1
    delete_site-IsConsistent now domain m h =
        finish (find_index (claims domain) h.node.sites) refl
          (delete_site-Outcome S L now m h.node h.loaded domain)
      where
        finish :
            (i : Option ℕ)
            → find_index (claims domain) h.node.sites ≡ i
            → Outcome
                (core S m)
                (deletion S L now m h.node h.loaded i)
                (delete_site S now domain m).0
                (core S (delete_site S now domain m).1)
            → IsConsistent (delete_site S now domain m).1
        finish none found (failed, same) = record {
          node = h.node;
          loaded = ap (λ (x : Core). x.state) same ∙ h.loaded;
          unique = h.unique;
        }
        finish (some i) found (inl (failed, same)) = record {
          node = h.node;
          loaded = ap (λ (x : Core). x.state) same ∙ h.loaded;
          unique = h.unique;
        }
        finish (some i) found (inr (done, changed)) =
            let (x, at, first, passes) = find_index_lem (claims domain) h.node.sites i found in
            record {
              node = record (h.node) { sites = swap_remove h.node.sites i };
              loaded = ap (λ (x : Core). x.state) changed;
              unique = swap_remove-IsUnique h.node.sites i x at h.unique;
            }

    -- `DELETE /site/:domain` keeps the sites consistent, whatever the request and the outcome.
    pub delete_site_handler-IsConsistent :
        (domain temporary : String) (n : Node S)
        → IsConsistent n.manager
        → IsConsistent (delete_site_handler S c e domain temporary n).1.manager
    unfolding delete_site_handler
    delete_site_handler-IsConsistent domain temporary n h =
        resolved (requested_domain S c e domain temporary)
      where
        Q : Node S → Type 0
        Q k = IsConsistent k.manager

        resolved :
            (r : Flow String) → IsConsistent (Handler.continue S r (delete_named S c e) n).1.manager
        resolved (stop r) = h
        resolved (go d) = and_then_inv Q (find_or_404 S c e d) _ n h (λ s there.
            and_then_inv Q (call S (delete_site S e.now d)) _ n
              (delete_site-IsConsistent e.now d n.manager h)
              (λ u done. delete_site-IsConsistent e.now d n.manager h))
