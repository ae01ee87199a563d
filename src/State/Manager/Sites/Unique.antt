-- ===== src/State/Manager/Sites/Unique.antt =====
-- The invariant of the list of sites: no name, be it a domain or an alias, belongs to two sites.
use statiko.Base.{
  ℕ, ◌≡◌, ◌≤◌, ◌⊎◌, inl, inr, String, true, none, some, List, [], ◌∷◌, ◌++◌, get_elem?, set,
  swap_remove, find, find_index, find_index_lem, find_lem, find-none, count, count-set,
  count-append, count-swap_remove, at_most_one, arith, Bool-cases,
}
use statiko.State.Types.{SiteState}
use statiko.State.Manager.Sites.{claims, has_domain}

abbrev pub IsUnique : List SiteState → Type 0
IsUnique sites = (d : String) → count (claims d) sites ≤ 1

-- Every name of the site is free, or belongs to a site with the same domain.
abbrev pub IsFree : List SiteState → SiteState → Type 0
IsFree sites site =
    (d : String)
    → claims d site ≡ true
    → (find (claims d) sites ≡ none)
      ⊎ ((y : SiteState) × (find (claims d) sites ≡ some y) × (y.domain ≡ site.domain))

-- A site claims its own domain.
pub claims_self : (s : SiteState) → claims s.domain s ≡ true
unfolding claims
claims_self s = ground arith

pub has_domain-claims : (d : String) (s : SiteState) → has_domain d s ≡ true → claims d s ≡ true
unfolding claims has_domain
has_domain-claims d s h = ground arith

pub has_domain-eq : (d : String) (s : SiteState) → has_domain d s ≡ true → s.domain ≡ d
unfolding has_domain
has_domain-eq d s h = ground arith

pub append-IsUnique :
    (sites : List SiteState) (site : SiteState)
    → IsUnique sites
    → ((d : String) → claims d site ≡ true → find (claims d) sites ≡ none)
    → IsUnique (sites ++ site ∷ [])
unfolding count
append-IsUnique sites site unique free d = elim (Bool-cases (claims d site)) [
  | inl claimed ↦ ground (
    arith,
    count-append (claims d) sites (site ∷ []),
    find-none (claims d) sites (free d claimed),
  )
  | inr unclaimed ↦ ground (arith, count-append (claims d) sites (site ∷ []), unique d)
]

pub swap_remove-IsUnique :
    (sites : List SiteState) (i : ℕ) (x : SiteState)
    → get_elem? sites i ≡ some x
    → IsUnique sites
    → IsUnique (swap_remove sites i)
swap_remove-IsUnique sites i x at unique d =
    omega (arith, count-swap_remove (claims d) sites i x at, unique d)

-- The site that is replaced claims whatever its successor claims, unless the name is free.
pub set-IsUnique :
    (sites : List SiteState) (i : ℕ) (site : SiteState)
    → find_index (has_domain site.domain) sites ≡ some i
    → IsUnique sites
    → IsFree sites site
    → IsUnique (set sites i site)
set-IsUnique sites i site found unique free d =
    let (old, at, first, same_domain) = find_index_lem (has_domain site.domain) sites i found in
    let balance = count-set (claims d) sites i old site at in
    elim (Bool-cases (claims d site)) [
      | inr unclaimed ↦ ground (arith, balance, unique d)
      | inl claimed ↦ elim (free d claimed) [
        | inl none_has ↦ ground (arith, balance, find-none (claims d) sites none_has)
        | inr owner ↦
            let (y, owns, domain) = owner in
            let (j, at', claims_y) = find_lem (claims d) sites y owns in
            let one : y ≡ old =
              at_most_one (claims site.domain) sites j i y old (unique site.domain) at' at
                (rw (← domain) (claims_self y)) (has_domain-claims site.domain old same_domain) in
            ground (arith, balance, unique d, one)
      ]
    ]
