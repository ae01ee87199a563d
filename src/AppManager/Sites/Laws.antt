-- ===== src/AppManager/Sites/Laws.antt =====
-- Which folders of sites stay, for any certificates whose search leaves the health of the sites as it
-- is.
use mathlib.Core.Path.{subst}
use statiko.Base.{
  String, ◌<>◌, ◌==◌, Bool, true, false, ◌||◌, ◌≡◌, refl, sym, ap, ◌∙◌, ◌⊎◌, inl, inr, Option, none,
  some, List, [], ◌∷◌, ◌++◌, map, arith, Bool-cases,
}
use statiko.Base.Dict.{Dict, lookup, insert, lookup-insert}
use statiko.Base.Exec.{Error, Result, ok, err, panic, continue, ◌>>=◌}
use statiko.State.Types.{Bytes, SiteState}
use statiko.State.Store.{StateStore}
use statiko.State.Manager.Locks.{Manager, Method}
use statiko.State.Manager.Sites.{string_in_slice}
use statiko.State.Manager.Status.{get_site_health, set_site_health, error_of}
use statiko.Api.Sites.Consistency.{string_in_slice-append}
use statiko.Os.{FileSystem, Io}
use statiko.AppManager.Files.{ensure_folder_with_updated, write_file_if_changed, activate_app}
use statiko.AppManager.Local.{Local, Act, on_world, on_manager, or_unhealthy, attempt, attempt_or}
use statiko.AppManager.Sites.{
  site_path, publish, sync_healthy, sync_unless, bundle_of, sync_site_folder, sync_listed,
}

abbrev pub Health : Type 0
Health = Dict (Option Error)

abbrev pub health_at : Health → String → Option Error
health_at d k = error_of (lookup k d)

-- No two sites have the same domain.
abbrev pub AreDistinct : List SiteState → Type 0
AreDistinct [] = Unit
AreDistinct (s ∷ l) =
    (string_in_slice (map (λ (x : SiteState). x.domain) l) s.domain ≡ false) × AreDistinct l

module _ (S : StateStore) (F : FileSystem) (app_root : String)
    (get_certificate : SiteState → Method S (Bytes × Bytes))
    (quiet : (s : SiteState) (m : Manager S)
      → (get_certificate s m).1.site_health ≡ m.site_health) where
  abbrev pub P : Type 0
  P = Bool × List String

  -- The site has been published, or it has been left out.
  abbrev pub Outcome : Health → String → List String → Result P × Local S F → Type 0
  Outcome D dom l r =
      (p : P)
      → r.0 ≡ ok p
      → ((p.1 ≡ l)
          × ((r.1.0.site_health ≡ D) ⊎ ((e : Error) × (r.1.0.site_health ≡ insert dom (some e) D))))
        ⊎ ((p.1 ≡ l ++ dom ∷ []) × (r.1.0.site_health ≡ D))

  ok_lem : {A : Type 0} {a b : A} → ok a ≡ ok b → a ≡ b
  ok_lem h = cc

  or_unhealthy_lem :
      {A : Type 0} (D : Health) (dom : String) (l : List String) (b : Bool) (f : A → Act S F P)
      (r : Result A) (t : Local S F)
      → t.0.site_health ≡ D
      → ((a : A) (t : Local S F) → t.0.site_health ≡ D → Outcome D dom l (f a t))
      → Outcome D dom l (or_unhealthy S F dom (b, l) f r t)
  unfolding set_site_health
  or_unhealthy_lem D dom l b f (ok a) t same run p h = run a t same p h
  or_unhealthy_lem D dom l b f (err e) (m, w) same run p h =
      inl (ap (λ (x : P). x.1) (sym (ok_lem h)), inr (e, store_lem))
    where
      store_lem : (set_site_health S dom (some e) m).site_health ≡ insert dom (some e) D
      store_lem = ap (insert dom (some e)) same
  or_unhealthy_lem D dom l b f panic t same run p h = absurd cc

  abbrev IsQuiet : {A : Type 0} → Act S F A → Type 0
  IsQuiet h = (t : Local S F) → (h t).1.0.site_health ≡ t.0.site_health

  attempt_lem :
      {A : Type 0} (D : Health) (dom : String) (l : List String) (b : Bool) (h : Act S F A)
      (f : A → Act S F P) (t : Local S F)
      → IsQuiet h
      → t.0.site_health ≡ D
      → ((a : A) (t : Local S F) → t.0.site_health ≡ D → Outcome D dom l (f a t))
      → Outcome D dom l (attempt S F dom (b, l) h f t)
  attempt_lem D dom l b h f t silent same run =
      or_unhealthy_lem D dom l b f (h t).0 (h t).1 (silent t ∙ same) run

  on_world-IsQuiet : {A : Type 0} (f : Io F A) → IsQuiet (on_world S F f)
  on_world-IsQuiet f t = refl

  attempt_or-IsQuiet :
      {A : Type 0} (a : A) (h : Act S F A) → IsQuiet h → IsQuiet (attempt_or S F a h)
  attempt_or-IsQuiet a h silent t = silent t

  bind-Outcome :
      {A : Type 0} (D : Health) (dom : String) (l : List String) (h : Act S F A) (f : A → Act S F P)
      (t : Local S F)
      → IsQuiet h
      → t.0.site_health ≡ D
      → ((a : A) (t : Local S F) → t.0.site_health ≡ D → Outcome D dom l (f a t))
      → Outcome D dom l ((h >>= f) t)
  bind-Outcome {A} D dom l h f t silent same run = split (h t).0 (h t).1 (silent t ∙ same)
    where
      split :
          (r : Result A) (v : Local S F) → v.0.site_health ≡ D → Outcome D dom l (continue r f v)
      split (ok a) v e p h = run a v e p h
      split (err x) v e p h = absurd cc
      split panic v e p h = absurd cc

  publish_lem :
      (D : Health) (s : SiteState) (u : Bool) (l : List String) (c : Bytes × Bytes) (t : Local S F)
      → t.0.site_health ≡ D
      → Outcome D s.domain l (publish S F app_root get_certificate s (u, l) c t)
  publish_lem D s u l (key, cert) t same =
      bind-Outcome D s.domain l
        (attempt_or S F false (
          on_world S F (
            write_file_if_changed F
              (site_path S F app_root get_certificate s.domain <> "/tls/key.pem") key)))
        _ t (λ v. refl) same
        (λ a t1 same1.
          bind-Outcome D s.domain l
            (attempt_or S F false (
              on_world S F (
                write_file_if_changed F
                  (site_path S F app_root get_certificate s.domain <> "/tls/certificate.pem")
                  cert)))
            _ t1 (λ v. refl) same1
            (λ b t2 same2.
              attempt_lem D s.domain l (u || a || b)
                (on_world S F (activate_app F app_root (bundle_of s.app) s.domain)) _ t2 (λ v. refl)
                same2 (λ x t3 same3 p h. inr (ap (λ (x : P). x.1) (sym (ok_lem h)), same3))))

  site_lem :
      (s : SiteState) (u : Bool) (l : List String) (t : Local S F)
      → Outcome t.0.site_health s.domain l (sync_healthy S F app_root get_certificate s (u, l) t)
  site_lem s u l t =
      let D = t.0.site_health in
      let path = site_path S F app_root get_certificate s.domain in
      attempt_lem D s.domain l u (on_world S F (ensure_folder_with_updated F path)) _ t (λ v. refl)
        refl
        (λ a t1 same1.
          attempt_lem D s.domain l (u || a)
            (on_world S F (ensure_folder_with_updated F (path <> "/tls"))) _ t1 (λ v. refl) same1
            (λ b t2 same2.
              attempt_lem D s.domain l ((u || a) || b) (on_manager S F (get_certificate s)) _ t2
                (λ v. quiet s v.0) same2
                (λ c t3 same3. publish_lem D s ((u || a) || b) l c t3 same3)))

  -- Each name that is expected is the default one, or that of a site without an error.
  abbrev Served : Health → List String → Type 0
  Served D l = (d : String) → string_in_slice l d ≡ true → (d ≡ "_default") ⊎ (health_at D d ≡ none)

  pub unless_lem :
      (s : SiteState) (u : Bool) (l : List String) (o : Option Error) (t : Local S F)
      → health_at t.0.site_health s.domain ≡ o
      → (p : P) → (sync_unless S F app_root get_certificate s (u, l) o t).0 ≡ ok p
      → Outcome t.0.site_health s.domain l (sync_unless S F app_root get_certificate s (u, l) o t)
        × ((p.1 ≡ l) ⊎ (health_at t.0.site_health s.domain ≡ none))
  unless_lem s u l none t e p h = (site_lem s u l t, inr e)
  unless_lem s u l (some x) t e p h = (
    (λ q k. inl (ap (λ (x : P). x.1) (sym (ok_lem k)), inl refl)),
    inl (ap (λ (x : P). x.1) (sym (ok_lem h))),
  )

  -- A site that is in the list already can only be called like the default folder.
  Fresh : List String → List SiteState → Type 0
  Fresh l [] = Unit
  Fresh l (s ∷ sites) = (string_in_slice l s.domain ≡ true → s.domain ≡ "_default") × Fresh l sites

  Fresh-append :
      (l : List String) (dom : String) (sites : List SiteState)
      → string_in_slice (map (λ (x : SiteState). x.domain) sites) dom ≡ false
      → Fresh l sites
      → Fresh (l ++ dom ∷ []) sites
  unfolding Fresh string_in_slice
  Fresh-append l dom [] absent fresh = tt
  Fresh-append l dom (s ∷ sites) absent (here, later) = (
    (λ h. ground (arith, string_in_slice-append l dom s.domain, here)),
    Fresh-append l dom sites (ground arith) later,
  )

  same_lem :
      (D E : Health) (dom : String) (l : List String)
      → Served D l
      → (string_in_slice l dom ≡ true → dom ≡ "_default")
      → (E ≡ D) ⊎ ((e : Error) × (E ≡ insert dom (some e) D))
      → Served E l
  same_lem D E dom l served fresh (inl same) = subst (λ X. Served X l) (sym same) served
  same_lem D E dom l served fresh (inr (e, same)) =
      subst (λ X. Served X l) (sym same)
        (λ d named. elim (Bool-cases (dom == d)) [
          | inl it ↦ inl (default_lem d it named)
          | inr other ↦ elim (served d named) [
            | inl default ↦ inl default
            | inr healthy ↦ inr (rw (lookup-insert d dom (some e) D, other) healthy)
          ]
        ])
    where
      default_lem : (d : String) → (dom == d) ≡ true → string_in_slice l d ≡ true → d ≡ "_default"
      default_lem d it named =
          let equal : dom ≡ d = ground arith in
          subst (λ x. string_in_slice l x ≡ true → x ≡ "_default") equal fresh named

  added_lem :
      (D : Health) (dom : String) (l : List String)
      → Served D l
      → health_at D dom ≡ none
      → Served D (l ++ dom ∷ [])
  added_lem D dom l served healthy d named = elim (Bool-cases (dom == d)) [
    | inl it ↦ inr (subst (λ x. health_at D x ≡ none) (the_same it) healthy)
    | inr other ↦ served d (ground (arith, string_in_slice-append l dom d))
  ]
    where
      the_same : (dom == d) ≡ true → dom ≡ d
      the_same it = ground arith

  -- What the body of the loop keeps.
  abbrev Kept : String → List String → List SiteState → Result P × Local S F → Type 0
  Kept dom l sites r = (p : P) → r.0 ≡ ok p → Served r.1.0.site_health p.1 × Fresh p.1 sites

  step_lem :
      (s : SiteState) (sites : List SiteState) (u : Bool) (l : List String) (t : Local S F)
      → Served t.0.site_health l
      → Fresh l (s ∷ sites)
      → string_in_slice (map (λ (x : SiteState). x.domain) sites) s.domain ≡ false
      → Kept s.domain l sites (sync_site_folder S F app_root get_certificate s (u, l) t)
  unfolding sync_site_folder get_site_health Fresh
  step_lem s sites u l t served (here, later) absent p h =
      let o = health_at t.0.site_health s.domain in
      let (out, cases) = unless_lem s u l o t refl p h in finish (out p h) cases
    where
      r : Result P × Local S F
      r = sync_unless S F app_root get_certificate s (u, l) (health_at t.0.site_health s.domain) t

      finish :
          (((p.1 ≡ l)
              × ((r.1.0.site_health ≡ t.0.site_health)
                  ⊎ ((e : Error) × (r.1.0.site_health ≡ insert s.domain (some e) t.0.site_health))))
            ⊎ ((p.1 ≡ l ++ s.domain ∷ []) × (r.1.0.site_health ≡ t.0.site_health)))
          → ((p.1 ≡ l) ⊎ (health_at t.0.site_health s.domain ≡ none))
          → Served r.1.0.site_health p.1 × Fresh p.1 sites
      finish (inl (same, health)) cases = (
        subst (Served r.1.0.site_health) (sym same)
            (same_lem t.0.site_health r.1.0.site_health s.domain l served here health),
        subst (λ x. Fresh x sites) (sym same) later,
      )
      finish (inr (added, health)) (inl same) = (
        subst (Served r.1.0.site_health) (sym same) (subst (λ X. Served X l) (sym health) served),
        subst (λ x. Fresh x sites) (sym same) later,
      )
      finish (inr (added, health)) (inr healthy) = (
        subst (Served r.1.0.site_health) (sym added) (
            subst (λ X. Served X (l ++ s.domain ∷ [])) (sym health)
              (added_lem t.0.site_health s.domain l served healthy)),
        subst (λ x. Fresh x sites) (sym added) (Fresh-append l s.domain sites absent later),
      )

  listed_lem :
      (sites : List SiteState) (p : P) (t : Local S F)
      → Served t.0.site_health p.1
      → Fresh p.1 sites
      → AreDistinct sites
      → (q : P) → (sync_listed S F app_root get_certificate sites p t).0 ≡ ok q
      → Served (sync_listed S F app_root get_certificate sites p t).1.0.site_health q.1
  unfolding sync_listed
  listed_lem [] p t served fresh distinct q h =
      subst (λ (x : P). Served t.0.site_health x.1) (ok_lem h) served
  listed_lem (s ∷ sites) (u, l) t served fresh (absent, distinct) q h =
      split (sync_site_folder S F app_root get_certificate s (u, l) t).0
        (sync_site_folder S F app_root get_certificate s (u, l) t).1
        (step_lem s sites u l t served fresh absent)
        (λ p v served' fresh' done. listed_lem sites p v served' fresh' distinct q done) h
    where
      split :
          (r : Result P) (v : Local S F)
          → Kept s.domain l sites (r, v)
          → ((p : P) (v : Local S F)
              → Served v.0.site_health p.1
              → Fresh p.1 sites
              → (sync_listed S F app_root get_certificate sites p v).0 ≡ ok q
              → Served (sync_listed S F app_root get_certificate sites p v).1.0.site_health q.1)
          → (continue r (sync_listed S F app_root get_certificate sites) v).0 ≡ ok q
          → Served
              (continue r (sync_listed S F app_root get_certificate sites) v).1.0.site_health
              q.1
      split (ok p) v kept again done =
          let (served', fresh') = kept p refl in again p v served' fresh' done
      split (err e) v kept again done = absurd cc
      split panic v kept again done = absurd cc

  start_lem : (sites : List SiteState) → Fresh ("_default" ∷ []) sites
  unfolding Fresh string_in_slice
  start_lem [] = tt
  start_lem (s ∷ sites) = ((λ h. ground arith), start_lem sites)

  pub sync_listed_lem :
      (sites : List SiteState) (u : Bool) (t : Local S F)
      → AreDistinct sites
      → (q : P) → (sync_listed S F app_root get_certificate sites (u, "_default" ∷ []) t).0 ≡ ok q
      → (d : String) → string_in_slice q.1 d ≡ true
      → (d ≡ "_default")
        ⊎ (health_at
              (sync_listed S F app_root get_certificate sites
                (u, "_default" ∷ [])
                t).1.0.site_health
              d
            ≡ none)
  unfolding string_in_slice
  sync_listed_lem sites u t distinct q h d named =
      listed_lem sites (u, "_default" ∷ []) t (λ d named. inl (ground arith)) (start_lem sites)
        distinct q h d named
