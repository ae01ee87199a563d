-- ===== src/Api/Status/Laws.antt =====
-- What /status tells those who are not authenticated, and when it says that all sites are failing.
use mathlib.Core.Path.{subst}
use statiko.Base.{
  ℕ, zero, suc, ◌+◌, ◌-◌, String, ◌==◌, ltb, nat_eq, length, Bool, false, not, ◌&&◌, ◌≡◌, refl, ◌⊎◌,
  inl, inr, Option, none, some, List, [], ◌∷◌, get_elem?, count, arith, Bool-cases,
}
use statiko.State.Types.{SiteHealth, is_healthy}
use statiko.Api.Status.{
  Shown, censor_domain_name, hidden_app, hidden_error, without_numbers, hide, with_domain, shown_as,
  show_listed, cons_shown, show_all, has_no_app, tally, all_failing,
}

abbrev pub is_failing : SiteHealth → Bool
is_failing h = not (is_healthy h)

-- A site with an app that works.
abbrev pub is_serving : SiteHealth → Bool
is_serving h = is_healthy h && not (has_no_app h)

abbrev is_idle : SiteHealth → Bool
is_idle h = is_healthy h && has_no_app h

tally_lem :
    (l : List SiteHealth) (e t : ℕ) → tally l e t ≡ (e + count is_failing l, t - count is_idle l)
unfolding tally count
tally_lem [] e t = ground arith
tally_lem (h ∷ l) e t = elim (Bool-cases (is_healthy h)) [
  | inl good ↦ elim (Bool-cases (has_no_app h)) [
    | inl idle ↦ rw (good, idle, tally_lem l e (t - 1)) (ground arith)
    | inr app ↦ rw (good, app, tally_lem l e t) (ground arith)
  ]
  | inr bad ↦ rw (bad, tally_lem l (suc e) t) (ground arith)
]

length_lem :
    (l : List SiteHealth) → length l ≡ count is_failing l + count is_idle l + count is_serving l
unfolding count
length_lem [] = refl
length_lem (h ∷ l) =
    let rest = length_lem l in
    elim (Bool-cases (is_healthy h)) [
      | inl good ↦ elim (Bool-cases (has_no_app h)) [
        | inl idle ↦ rw (good, idle) (omega arith)
        | inr app ↦ rw (good, app) (omega arith)
      ]
      | inr bad ↦ rw bad (omega arith)
    ]

total_lem :
    (f i s : ℕ)
    → (ltb 0 (f + i + s - i) && nat_eq (0 + f) (f + i + s - i)) ≡ (ltb 0 f && nat_eq s 0)
total_lem f i s = ground arith

-- The status of the list of all sites says that they are failing exactly if one of them is and no
-- site with an app works.
pub all_failing_lem :
    (l : List SiteHealth)
    → all_failing l ≡ (ltb 0 (count is_failing l) && nat_eq (count is_serving l) 0)
unfolding all_failing
all_failing_lem l =
    rw (tally_lem l 0 (length l), length_lem l)
      (total_lem (count is_failing l) (count is_idle l) (count is_serving l))

module _ (first_two : String → Option String) where
  -- What an entry may say: its app and its error are hidden, its domain is censored, and there is no
  -- status code and no size.
  pub record IsHidden (h : SiteHealth) (s : Shown) : Type 0 where
    app : (s.health.app ≡ none) ⊎ (s.health.app ≡ some "<hidden>")
    error : (s.health.error ≡ "") ⊎ (s.health.error ≡ "<hidden error>")
    domain : some s.health.domain ≡ censor_domain_name first_two h.domain
    status_code : s.health.status_code ≡ none
    response_size : s.health.response_size ≡ none

  abbrev hidden_entry : SiteHealth → String → Shown
  hidden_entry h d = record {
    health = record (hide first_two (without_numbers first_two h)) { domain = d };
    healthy = is_healthy h;
  }

  app_lem :
      (a : Option String)
      → (hidden_app first_two a ≡ none) ⊎ (hidden_app first_two a ≡ some "<hidden>")
  app_lem none = inl refl
  app_lem (some a) = inr refl

  error_lem :
      (e : String) → (hidden_error first_two e ≡ "") ⊎ (hidden_error first_two e ≡ "<hidden error>")
  error_lem e = elim (Bool-cases (e == "")) [
    | inl good ↦ inl (rw good refl)
    | inr bad ↦ inr (rw bad refl)
  ]

  hidden_lem :
      (h : SiteHealth) (d : Option String) (s : Shown)
      → d ≡ censor_domain_name first_two h.domain
      → shown_as first_two
          (is_healthy h)
          (with_domain first_two (hide first_two (without_numbers first_two h)) d)
        ≡ some s
      → IsHidden h s
  hidden_lem h none s censored shown = absurd cc
  hidden_lem h (some d) s censored shown =
      let entry : hidden_entry h d ≡ s = cc in
      subst (IsHidden h) entry (record {
        app = app_lem h.app;
        error = error_lem h.error;
        domain = censored;
        status_code = refl;
        response_size = refl;
      })

  listed_lem : (h : SiteHealth) (s : Shown) → show_listed first_two false h ≡ some s → IsHidden h s
  unfolding show_listed
  listed_lem h s shown = hidden_lem h (censor_domain_name first_two h.domain) s refl shown

  cons_lem :
      (o : Option Shown) (r : Option (List Shown)) (y : Shown) (k : List Shown)
      → cons_shown first_two o r ≡ some (y ∷ k)
      → (o ≡ some y) × (r ≡ some k)
  cons_lem none r y k e = absurd cc
  cons_lem (some x) none y k e = absurd cc
  cons_lem (some x) (some l) y k e = (cc, cc)

  -- In the list of all sites for those who are not authenticated, the entry of each site is hidden.
  pub show_all-IsHidden :
      (l : List SiteHealth) (r : List Shown)
      → show_all first_two false l ≡ some r
      → (i : ℕ) (h : SiteHealth) (s : Shown) → get_elem? l i ≡ some h
      → get_elem? r i ≡ some s
      → IsHidden h s
  unfolding show_all
  show_all-IsHidden [] r shown i h s e f = absurd cc
  show_all-IsHidden (x ∷ l) [] shown i h s e f = absurd cc
  show_all-IsHidden (x ∷ l) (y ∷ r) shown zero h s e f =
      let (first, rest) =
        cons_lem (show_listed first_two false x) (show_all first_two false l) y r shown in
      listed_lem h s cc
  show_all-IsHidden (x ∷ l) (y ∷ r) shown (suc i) h s e f =
      let (first, rest) =
        cons_lem (show_listed first_two false x) (show_all first_two false l) y r shown in
      show_all-IsHidden l r rest i h s e f
