-- ===== src/State/Manager/Sites/Effects.antt =====
-- What the operations on sites do to the manager, on every path.
use mathlib.Core.Path.{subst}
use statiko.Base.{
  ℕ, ◌≡◌, refl, ap, ◌∙◌, Bool, true, false, Option, none, some, List, [], ◌∷◌, ◌++◌, map, set,
  swap_remove, find_index, String, ◌⊎◌, inl, inr, ◌==◌, ◌||◌, if◌then◌else◌, arith, Bool-cases,
}
use statiko.State.Types.{Time, SiteTls, SiteState, NodeState}
use statiko.Base.Exec.{Error, err}
use statiko.State.Store.{StateStore, IsLawful}
use statiko.State.Manager.Locks.{Manager, state_of, commit}
use statiko.State.Manager.Frame.{Core, core, Ensures, Outcome, guarded-Outcome, commit_lem}
use statiko.State.Manager.Sites.{
  claims, has_domain, add_site, add_body, update_site, update_body, update_found, delete_site,
  delete_found, delete_body, replace_state, replace_body, normalize_tls,
}

-- The settings of a certificate after the name and the version have been taken off, unless it is
-- imported or from Azure Key Vault.
abbrev trimmed_tls : Option SiteTls → Option SiteTls
trimmed_tls none = none
trimmed_tls (some t) = some (
    if t.kind == "imported" || t.kind == "akv"
    then t
    else record { kind = t.kind; certificate = none; version = none })

-- One site after the other, with all but the settings of the certificate as they were.
abbrev pub AreTrimmed : List SiteState → List SiteState → Type 0
AreTrimmed [] k = k ≡ []
AreTrimmed (s ∷ l) [] = ⊥
AreTrimmed (s ∷ l) (r ∷ k) = (r ≡ record s { tls = trimmed_tls s.tls }) × AreTrimmed l k

trimmed_lem : (s : SiteState) → normalize_tls s ≡ record s { tls = trimmed_tls s.tls }
unfolding normalize_tls
trimmed_lem s = by_tls s.tls refl
  where
    by_tls : (o : Option SiteTls) → s.tls ≡ o → normalize_tls s ≡ record s { tls = trimmed_tls o }
    by_tls none e =
        let same : normalize_tls s ≡ s = rw e refl in same ∙ ap (λ o. record s { tls = o }) e
    by_tls (some t) e = elim (Bool-cases (t.kind == "imported" || t.kind == "akv")) [
      | inl kept ↦
          let same : normalize_tls s ≡ s = rw e (ground (arith, kept)) in
          rw kept (same ∙ ap (λ o. record s { tls = o }) e)
      | inr cut ↦ rw (cut, e) (ground (arith, cut))
    ]

map-AreTrimmed : (l : List SiteState) → AreTrimmed l (map normalize_tls l)
map-AreTrimmed [] = refl
map-AreTrimmed (s ∷ l) = (trimmed_lem s, map-AreTrimmed l)

module _ (S : StateStore) (L : IsLawful S) (now : Time) (m : Manager S) where
  -- The manager after `ReplaceState`.
  abbrev pub replaced : NodeState → Core
  replaced n = record (core S m) {
    state = some (record n { sites = map normalize_tls n.sites });
    updated = some now;
  }

  replace_state-Outcome :
      (n : NodeState) → Ensures S (Outcome (core S m) (some (replaced n))) (replace_state S now n m)
  unfolding replace_state
  replace_state-Outcome n =
      guarded-Outcome S L (some (replaced n)) (replace_body S now n) m (λ m' same.
        rw (L.set_total (record n { sites = map normalize_tls n.sites }) m'.store) (
          commit_lem S L _ _ m m' same
            (L.get-set (record n { sites = map normalize_tls n.sites }) m'.store) (some now)))

  -- `ReplaceState` either fails and changes nothing, or the state is the given one, with the time of
  -- the update, but for the certificates: the sites are the given ones in their order, where a
  -- certificate keeps its name and its version if it is imported or from Azure Key Vault, and loses
  -- both otherwise.
  pub replace_state_lem :
      (n : NodeState)
      → ((core S (replace_state S now n m).1 ≡ core S m)
          × ((e : Error) × ((replace_state S now n m).0 ≡ err e)))
        ⊎ ((m' : NodeState) × ((state_of S (replace_state S now n m).1 ≡ some m')
              × ((replace_state S now n m).1.updated ≡ some now)
              × AreTrimmed n.sites m'.sites
              × (m'.secrets ≡ n.secrets)
              × (m'.dhparams ≡ n.dhparams)))
  replace_state_lem n = by_outcome (replace_state-Outcome n)
    where
      by_outcome :
          Ensures S (Outcome (core S m) (some (replaced n))) (replace_state S now n m)
          → ((core S (replace_state S now n m).1 ≡ core S m)
              × ((e : Error) × ((replace_state S now n m).0 ≡ err e)))
            ⊎ ((m' : NodeState) × ((state_of S (replace_state S now n m).1 ≡ some m')
                  × ((replace_state S now n m).1.updated ≡ some now)
                  × AreTrimmed n.sites m'.sites
                  × (m'.secrets ≡ n.secrets)
                  × (m'.dhparams ≡ n.dhparams)))
      by_outcome (inl ((e, failed), same)) = inl (same, (e, failed))
      by_outcome (inr (done, changed)) = inr (
        record n { sites = map normalize_tls n.sites },
        (
          ap (λ (c : Core). c.state) changed,
          ap (λ (c : Core). c.updated) changed,
          map-AreTrimmed n.sites,
          refl,
          refl,
        ),
      )

module _ (S : StateStore) (L : IsLawful S) (now : Time) (m : Manager S) (n : NodeState)
    (loaded : state_of S m ≡ some n) where
  -- The manager after its list of sites has become `sites`, at the time `at`.
  abbrev pub with_sites : List SiteState → Option Time → Core
  with_sites sites at = record (core S m) {
    state = some (record n { sites = sites });
    updated = at;
  }

  state_same : (m' : Manager S) → core S m' ≡ core S m → state_of S m' ≡ some n
  state_same m' same = ap (λ (c : Core). c.state) same ∙ loaded

  -- Assigning the list of sites, and writing.
  sites_lem :
      (sites : List SiteState) (m' : Manager S)
      → core S m' ≡ core S m
      → (at : Option Time)
      → Ensures S (Outcome (core S m) (some (with_sites sites at))) (
          commit S
            (record m' { store = S.modify (record n { sites = sites }) m'.store; updated = at }))
  sites_lem sites m' same at =
      commit_lem S L (record n { sites = sites }) (S.modify (record n { sites = sites }) m'.store) m
        m' same (L.get-modify (record n { sites = sites }) m'.store) at

  -- `AddSite` appends the site and sets the time of the update, or fails and changes nothing.
  pub add_site-Outcome :
      (site : SiteState)
      → Ensures S
          (Outcome (core S m) (some (with_sites (n.sites ++ site ∷ []) (some now))))
          (add_site S now site m)
  unfolding add_site
  add_site-Outcome site =
      guarded-Outcome S L (some (with_sites (n.sites ++ site ∷ []) (some now)))
        (add_body S now site) m
        (λ m' same. rw (state_same m' same) (sites_lem (n.sites ++ site ∷ []) m' same (some now)))

  -- The list after a change at the index that was found, if one was.
  abbrev pub changed_at :
      (List SiteState → ℕ → List SiteState) → Option Time → Option ℕ → Option Core
  changed_at change at none = none
  changed_at change at (some i) = some (with_sites (change n.sites i) at)

  abbrev pub deletion : Option ℕ → Option Core
  deletion = changed_at swap_remove (some now)

  pub delete_site-Outcome :
      (domain : String)
      → Ensures S
          (Outcome (core S m) (deletion (find_index (claims domain) n.sites)))
          (delete_site S now domain m)
  unfolding delete_site
  delete_site-Outcome domain =
      guarded-Outcome S L (deletion (find_index (claims domain) n.sites)) (delete_body S now domain)
        m (λ m' same. rw (state_same m' same) (go m' same (find_index (claims domain) n.sites)))
    where
      go :
          (m' : Manager S)
          → core S m' ≡ core S m
          → (i : Option ℕ) → Ensures S (Outcome (core S m) (deletion i)) (delete_found S now n i m')
      go m' same none = (("site not found", refl), same)
      go m' same (some i) = sites_lem (swap_remove n.sites i) m' same (some now)

  abbrev pub marked : Bool → Option Time
  marked false = m.updated
  marked true = some now

  abbrev pub update : SiteState → Bool → Option ℕ → Option Core
  update site mark = changed_at (λ l i. set l i site) (marked mark)

  -- `UpdateSite` replaces the first site that has the same domain, and sets the time of the update
  -- if it is asked to, or fails and changes nothing. With no such site it fails.
  pub update_site-Outcome :
      (site : SiteState) (mark : Bool)
      → Ensures S
          (Outcome (core S m) (update site mark (find_index (has_domain site.domain) n.sites)))
          (update_site S now site mark m)
  unfolding update_site
  update_site-Outcome site mark =
      guarded-Outcome S L (update site mark (find_index (has_domain site.domain) n.sites))
        (update_body S now site mark) m
        (λ m' same.
          rw (state_same m' same) (go m' same mark (find_index (has_domain site.domain) n.sites)))
    where
      go :
          (m' : Manager S)
          → core S m' ≡ core S m
          → (mark : Bool) (i : Option ℕ)
          → Ensures S
              (Outcome (core S m) (update site mark i))
              (update_found S now site mark n i m')
      go m' same mark none = (("site not found", refl), same)
      go m' same false (some i) =
          subst
            (λ u.
              Ensures S (Outcome (core S m) (some (with_sites (set n.sites i site) u)))
                (update_found S now site false n (some i) m'))
            (ap (λ (c : Core). c.updated) same) (sites_lem (set n.sites i site) m' same m'.updated)
      go m' same true (some i) = sites_lem (set n.sites i site) m' same (some now)
