-- ===== src/State/Manager/Sites.antt =====
-- state/state.go: reading and changing the list of sites.
pub mod Effects
pub mod Unique
use mathlib.Core.Bool.{◌&&◌, ◌||◌}
use statiko.Base.{
  ℕ, ltb, String, Bool, true, false, not, Option, none, some, List, [], ◌∷◌, ◌++◌, map, length, set,
  swap_remove, find, find_index, ◌==◌, if◌then◌else◌,
}
use statiko.Base.Exec.{ok, of_error, fail, ◌>>=◌, ◌>>◌}
use statiko.State.Types.{Time, SiteState, NodeState, tls_imported, tls_azure_key_vault}
use statiko.State.Store.{StateStore}
use statiko.State.Manager.Locks.{
  Manager, Method, state_of, when_healthy, locked, deref, assign, set_updated, commit,
}

-- `utils.StringInSlice`
unfoldable pub string_in_slice : List String → String → Bool
string_in_slice [] a = false
string_in_slice (b ∷ l) a = if b == a then true else string_in_slice l a

-- The test of `GetSite` and `DeleteSite`.
unfoldable pub claims : String → SiteState → Bool
claims domain s =
    s.domain == domain || (ltb 0 (length s.aliases) && string_in_slice s.aliases domain)

-- The test of `UpdateSite`.
unfoldable pub has_domain : String → SiteState → Bool
has_domain domain s = s.domain == domain

-- The loop of `ReplaceState` over one site.
unfoldable pub normalize_tls : SiteState → SiteState
normalize_tls s = elim s.tls [
  | none ↦ s
  | some t ↦
      if not (t.kind == tls_imported) && not (t.kind == tls_azure_key_vault)
      then record s { tls = some (record t { certificate = none; version = none }) }
      else s
]

module _ (S : StateStore) where
  -- `GetSites`
  unfoldable pub get_sites : Manager S → List SiteState
  get_sites m = elim (state_of S m) [ none ↦ [] | some n ↦ n.sites ]

  -- `GetSite`
  unfoldable pub get_site : String → Manager S → Option SiteState
  unfolding get_sites
  get_site domain m = find (claims domain) (get_sites m)

  abbrev pub add_body : Time → SiteState → Method S Unit
  add_body now site = do
    n ← deref S
    assign S (record n { sites = n.sites ++ site ∷ [] })
    set_updated S now
    commit S

  -- `AddSite`
  unfoldable pub add_site : Time → SiteState → Method S Unit
  add_site now site = when_healthy S (locked S (add_body now site))

  -- `if setUpdated { m.setUpdated() }`
  abbrev pub mark_updated : Bool → Time → Method S Unit
  mark_updated false now m = (ok tt, m)
  mark_updated true now m = set_updated S now m

  abbrev pub update_found : Time → SiteState → Bool → NodeState → Option ℕ → Method S Unit
  update_found now site mark n none = fail "site not found"
  update_found now site mark n (some i) = do
    assign S (record n { sites = set n.sites i site })
    mark_updated mark now
    commit S

  abbrev pub update_body : Time → SiteState → Bool → Method S Unit
  update_body now site mark = do
    n ← deref S
    update_found now site mark n (find_index (has_domain site.domain) n.sites)

  -- `UpdateSite`
  unfoldable pub update_site : Time → SiteState → Bool → Method S Unit
  update_site now site mark = when_healthy S (locked S (update_body now site mark))

  abbrev pub delete_found : Time → NodeState → Option ℕ → Method S Unit
  delete_found now n none = fail "site not found"
  delete_found now n (some i) = do
    assign S (record n { sites = swap_remove n.sites i })
    set_updated S now
    commit S

  abbrev pub delete_body : Time → String → Method S Unit
  delete_body now domain = do n ← deref S; delete_found now n (find_index (claims domain) n.sites)

  -- `DeleteSite`
  unfoldable pub delete_site : Time → String → Method S Unit
  delete_site now domain = when_healthy S (locked S (delete_body now domain))

  -- `SetState`
  abbrev pub replace : NodeState → Method S Unit
  replace n m = let (e, s) = S.set_state n m.store in (of_error e, record m { store = s })

  abbrev pub replace_body : Time → NodeState → Method S Unit
  replace_body now n = do
    replace (record n { sites = map normalize_tls n.sites })
    set_updated S now
    commit S

  -- `ReplaceState`. The loop writes through the pointers of the given sites.
  unfoldable pub replace_state : Time → NodeState → Method S Unit
  replace_state now n = when_healthy S (locked S (replace_body now n))
