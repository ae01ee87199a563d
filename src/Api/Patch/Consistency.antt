-- ===== src/Api/Patch/Consistency.antt =====
-- PATCH /site/:domain lets no name belong to two sites.
use mathlib.Core.Path.{subst}
use statiko.Base.{
  ℕ, ◌≡◌, ◌⊎◌, inl, inr, refl, ap, sym, ◌∙◌, String, true, false, Option, none, some, List, set,
  find, find_index, Bool-cases,
}
use statiko.Base.Exec.{Error}
use statiko.State.Types.{Time, SiteState}
use statiko.State.Store.{StateStore, IsLawful}
use statiko.State.Manager.Locks.{Manager}
use statiko.State.Manager.Frame.{Core, core, Outcome}
use statiko.State.Manager.Secrets.{Crypto}
use statiko.State.Manager.Sites.{claims, has_domain, get_site, update_site}
use statiko.State.Manager.Sites.Effects.{update_site-Outcome, update}
use statiko.State.Manager.Sites.Unique.{IsUnique, IsFree, set-IsUnique}
use statiko.Api.Handler
use statiko.Api.Handler.{Node, Flow, stop, go, Handler, and_then, call}
use statiko.Api.Sites.{Env, requested_domain, or_404}
use statiko.Api.Sites.Consistency.{
  IsConsistent, Holds, Holds-IsConsistent, get_site_lem, and_then_inv,
}
use statiko.Api.Patch.{
  Value, Draft, patch_fields, store_draft, patch_found, patch_named, patch_site,
}
use statiko.Api.Patch.Steps.{Goes, Keeps, FitsDraft, patch_fields-Keeps, owned-IsFree}

module _ (S : StateStore) (L : IsLawful S) (c : Crypto) (e : Env) where
  update_site-IsConsistent :
      (now : Time) (site : SiteState) (m : Manager S) (h : IsConsistent S m)
      → IsFree h.node.sites site
      → IsConsistent S (update_site S now site true m).1
  update_site-IsConsistent now site m h free =
      finish (find_index (has_domain site.domain) h.node.sites) refl
        (update_site-Outcome S L now m h.node h.loaded site true)
    where
      finish :
          (i : Option ℕ)
          → find_index (has_domain site.domain) h.node.sites ≡ i
          → Outcome
              (core S m)
              (update S L now m h.node h.loaded site true i)
              (update_site S now site true m).0
              (core S (update_site S now site true m).1)
          → IsConsistent S (update_site S now site true m).1
      finish none found (failed, same) = record {
        node = h.node;
        loaded = ap (λ (x : Core). x.state) same ∙ h.loaded;
        unique = h.unique;
      }
      finish (some i) found (inl (failed, same)) = record {
        node = h.node;
        loaded = ap (λ (x : Core). x.state) same ∙ h.loaded;
        unique = h.unique;
      }
      finish (some i) found (inr (done, changed)) = record {
        node = record (h.node) { sites = set h.node.sites i site };
        loaded = ap (λ (x : Core). x.state) changed;
        unique = set-IsUnique h.node.sites i site found h.unique free;
      }

  module _ (to_lower : String → String) where
    -- Storing a draft that fits.
    store_draft-IsConsistent :
        (l : List SiteState) (d : Draft) (n : Node S)
        → IsUnique l
        → IsFree l d.site
        → Holds S L l n.manager
        → IsConsistent S (store_draft S c e to_lower d n).1.manager
    unfolding store_draft
    store_draft-IsConsistent l d n unique free (k, loaded, sites) = elim (Bool-cases d.updated) [
      | inl changed ↦ rw changed (
          and_then_inv S Q (call S (update_site S e.now d.site true)) _ n stored (λ u done. stored))
      | inr same ↦ rw same before
    ]
      where
        Q : Node S → Type 0
        Q m = IsConsistent S m.manager

        before : IsConsistent S n.manager
        before = record { node = k; loaded = loaded; unique = subst IsUnique (sym sites) unique }

        stored : IsConsistent S (update_site S e.now d.site true n.manager).1
        stored =
            update_site-IsConsistent e.now d.site n.manager before
              (subst (λ x. IsFree x d.site) (sym sites) free)

    found-IsConsistent :
        (input : Error ⊎ List (String × Value)) (site : SiteState) (d : String) (n : Node S)
        (h : IsConsistent S n.manager)
        → find (claims d) h.node.sites ≡ some site
        → IsConsistent S (patch_found S c e to_lower input site n).1.manager
    unfolding Goes
    found-IsConsistent (inl x) site d n h found = h
    found-IsConsistent (inr fields) site d n h found =
        let draft : Draft = record { site = site; updated = false } in
        finish (patch_fields S c e to_lower fields draft n).0
          (patch_fields S c e to_lower fields draft n).1
          (patch_fields-Keeps S L c e h.node.sites site.domain to_lower fields draft n
            (owned-IsFree h.node.sites d site h.unique found, refl) (h.node, h.loaded, refl))
      where
        finish :
            (r : Flow Draft) (k : Node S)
            → Keeps S L c e h.node.sites (FitsDraft S L c e h.node.sites site.domain) (r, k)
            → IsConsistent S (Handler.continue S r (store_draft S c e to_lower) k).1.manager
        finish (stop r) k (good, held) =
            Holds-IsConsistent S L c e h.node.sites k.manager h.unique held
        finish (go d') k (good, held) =
            store_draft-IsConsistent h.node.sites d' k h.unique good.0 held

    -- `PATCH /site/:domain` keeps the sites consistent, whatever the request, the order in which
    -- the fields of its body are gone through, and the outcome.
    pub patch_site-IsConsistent :
        (domain temporary : String) (input : Error ⊎ List (String × Value)) (n : Node S)
        → IsConsistent S n.manager
        → IsConsistent S (patch_site S c e to_lower domain temporary input n).1.manager
    unfolding patch_site
    patch_site-IsConsistent domain temporary input n h =
        resolved (requested_domain S c e domain temporary)
      where
        there :
            (d : String) (o : Option SiteState)
            → find (claims d) h.node.sites ≡ o
            → IsConsistent S
                (Handler.continue S (or_404 S c e o) (patch_found S c e to_lower input) n).1.manager
        there d none found = h
        there d (some site) found = found-IsConsistent input site d n h found

        resolved :
            (r : Flow String)
            → IsConsistent S (Handler.continue S r (patch_named S c e to_lower input) n).1.manager
        resolved (stop r) = h
        resolved (go d) =
            there d (get_site S d n.manager)
              (sym (get_site_lem S L h.node.sites n.manager (h.node, h.loaded, refl) d))
