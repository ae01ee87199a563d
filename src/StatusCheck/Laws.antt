-- ===== src/StatusCheck/Laws.antt =====
-- Every site is in the list of the health of the sites once.
use statiko.Base.{
  ℕ, ◌+◌, String, ◌==◌, Bool, ◌≡◌, refl, ap, ◌∙◌, ◌⊎◌, inl, inr, Option, none, some, List, [], ◌∷◌,
  ◌++◌, map, count, count-append, one_if, arith, Bool-cases,
}
use statiko.Base.Exec.{Error}
use statiko.State.Types.{SiteState, SiteApp, SiteHealth}
use statiko.State.Store.{StateStore}
use statiko.State.Manager.Locks.{Manager}
use statiko.State.Manager.Sites.{get_sites}
use statiko.State.Manager.Status.{get_site_health}
use statiko.StatusCheck.{CheckLib, Found, with_answer, request_health, add_site, collect, checked}

-- The answers of all requests arrive, and sorting keeps the entries.
pub record IsFair (X : CheckLib) : Type 0 where
  pub arrives : (p : SiteHealth → Bool) (l : List SiteHealth) → count p (X.arrive l) ≡ count p l
  pub sorts : (p : SiteHealth → Bool) (l : List SiteHealth) → count p (X.sort l) ≡ count p l

module _ (X : CheckLib) (fair : IsFair X) (S : StateStore) (d : String) where
  abbrev of_domain : SiteHealth → Bool
  of_domain h = h.domain == d

  abbrev is_domain : SiteState → Bool
  is_domain s = s.domain == d

  answer_domain :
      (domain app : String) (a : Error ⊎ (ℕ × (Error ⊎ ℕ)))
      → (with_answer X domain app a).domain ≡ domain
  answer_domain domain app (inl e) = refl
  answer_domain domain app (inr (code, inl e)) = ground arith
  answer_domain domain app (inr (code, inr n)) = ground arith

  request_domain : (domain app : String) → (request_health X (domain, app)).domain ≡ domain
  unfolding request_health
  request_domain domain app = answer_domain domain app (X.answer domain)

  abbrev total : Found X → ℕ
  total (l, jobs) = count of_domain l + count of_domain (map (request_health X) jobs)

  add_lem :
      (s : SiteState) (e : Option Error) (app : Option SiteApp) (f : Found X)
      → total (add_site X s e app f) ≡ one_if (is_domain s) + total f
  unfolding count
  add_lem s (some e) app (l, jobs) = omega arith
  add_lem s none none (l, jobs) = omega arith
  add_lem s none (some a) (l, jobs) = elim (Bool-cases (X.running s.domain)) [
    | inl running ↦ rw running (omega arith)
    | inr idle ↦ rw (idle, request_domain s.domain a.name) (omega arith)
  ]

  collect_lem : (l : List SiteState) (m : Manager S) → total (collect X S l m) ≡ count is_domain l
  unfolding collect count
  collect_lem [] m = refl
  collect_lem (s ∷ l) m =
      add_lem s (get_site_health S s.domain m) s.app (collect X S l m)
      ∙ ap (λ n. one_if (is_domain s) + n) (collect_lem l m)

  -- Where the answers of all requests arrive, in whatever order: a domain is in the list that
  -- `updateHealthCache` makes as often as it is among the sites, with an error, with an app or
  -- without.
  pub count-checked :
      (m : Manager S) → count of_domain (checked X S m) ≡ count is_domain (get_sites S m)
  unfolding checked
  count-checked m =
      let (l, jobs) = collect X S (get_sites S m) m in
      fair.sorts of_domain (l ++ X.arrive (map (request_health X) jobs))
      ∙ count-append of_domain l (X.arrive (map (request_health X) jobs))
      ∙ ap (λ n. count of_domain l + n) (fair.arrives of_domain (map (request_health X) jobs))
      ∙ collect_lem (get_sites S m) m
