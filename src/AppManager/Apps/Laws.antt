-- ===== src/AppManager/Apps/Laws.antt =====
-- The plan of the apps to stage: no app twice, and every app that a site has is kept.
use mathlib.Core.Path.{subst}
use statiko.Base.{
  ℕ, suc, ◌≤◌, String, ◌==◌, Bool, true, false, ◌||◌, ◌≡◌, refl, inl, inr, Option, none, some, List,
  [], ◌∷◌, ◌++◌, count, count-append, arith, Bool-cases, if◌then◌else◌,
}
use statiko.Base.Exec.{Result, ok, err, panic, continue}
use statiko.State.Types.{SiteState, SiteApp}
use statiko.State.Store.{StateStore}
use statiko.State.Manager.Sites.{string_in_slice}
use statiko.Api.Sites.Consistency.{string_in_slice-append}
use statiko.Os.{FileSystem}
use statiko.AppManager.Local.{Local, set_health}
use statiko.AppManager.Apps.{
  Plan, job_apps, expect_app, request_app, plan_app, plan_for, plan_apps, no_plan,
}

abbrev pub times : String → List (String × String) → ℕ
times name jobs = count (λ (j : String × String). j.1 == name) jobs

absent_lem :
    (jobs : List (String × String)) (name : String)
    → string_in_slice (job_apps jobs) name ≡ false
    → times name jobs ≡ 0
unfolding string_in_slice count
absent_lem [] name h = refl
absent_lem (j ∷ jobs) name h = ground (arith, absent_lem jobs name)

-- The names of the apps of the sites.
abbrev pub app_names : List SiteState → List String
app_names [] = []
app_names (s ∷ l) = elim s.app [ none ↦ app_names l | some a ↦ a.name ∷ app_names l ]

-- No app is sent to the workers twice, and each of the given names is expected.
pub record IsSound (names : List String) (p : Plan) : Type 0 where
  once : (name : String) → times name p.jobs ≤ 1
  kept : (name : String) → string_in_slice names name ≡ true → string_in_slice p.expect name ≡ true

request-once :
    (domain name : String) (p : Plan)
    → ((x : String) → times x p.jobs ≤ 1)
    → (x : String) → times x (request_app domain name p).jobs ≤ 1
unfolding count
request-once domain name p once x = elim (Bool-cases (string_in_slice (job_apps p.jobs) name)) [
  | inl there ↦ rw there (once x)
  | inr absent ↦ rw absent (
      ground (
        arith,
        count-append (λ (j : String × String). j.1 == x) p.jobs ((domain, name) ∷ []),
        absent_lem p.jobs name absent,
        once x,
      ))
]

expect-IsSound :
    (names : List String) (name : String) (i : ℕ) (p : Plan)
    → IsSound names p
    → IsSound (name ∷ names) (expect_app name i p)
unfolding string_in_slice
expect-IsSound names name i p sound = record {
  once = sound.once;
  kept = λ x h. ground (arith, string_in_slice-append p.expect name x, sound.kept x);
}

request-IsSound :
    (names : List String) (domain name : String) (p : Plan)
    → IsSound names p
    → IsSound names (request_app domain name p)
request-IsSound names domain name p sound = record {
  once = request-once domain name p sound.once;
  kept = λ x h. same (string_in_slice (job_apps p.jobs) name) x (sound.kept x h);
}
  where
    same :
        (b : Bool) (x : String)
        → string_in_slice p.expect x ≡ true
        → string_in_slice
            (if b then p else record p { jobs = p.jobs ++ (domain, name) ∷ [] }).expect
            x
          ≡ true
    same true x h = h
    same false x h = h

-- The same names in another order.
abbrev Covers : List String → List String → Type 0
Covers names others =
    (x : String) → string_in_slice others x ≡ true → string_in_slice names x ≡ true

cover-IsSound :
    (names others : List String) (p : Plan)
    → Covers names others
    → IsSound names p
    → IsSound others p
cover-IsSound names others p covers sound = record {
  once = sound.once;
  kept = λ x h. sound.kept x (covers x h);
}

module _ (S : StateStore) (F : FileSystem) (app_root : String) where
  -- What a step of the loop leaves, if it has not failed.
  abbrev Leaves : List String → Result Plan → Type 0
  Leaves names r = (q : Plan) → r ≡ ok q → IsSound names q

  ok_lem : {a b : Plan} → ok a ≡ ok b → a ≡ b
  ok_lem h = cc

  plan_app_lem :
      (names : List String) (domain name : String) (i : ℕ) (p : Plan) (r : Result Bool)
      → IsSound names p
      → Leaves (name ∷ names) (plan_app S F app_root domain name i p r)
  plan_app_lem names domain name i p (ok true) sound q h =
      subst (IsSound (name ∷ names)) (ok_lem h) (expect-IsSound names name i p sound)
  plan_app_lem names domain name i p (ok false) sound q h =
      subst (IsSound (name ∷ names)) (ok_lem h) (
        expect-IsSound names name i (request_app domain name p)
          (request-IsSound names domain name p sound))
  plan_app_lem names domain name i p (err e) sound q h = absurd cc
  plan_app_lem names domain name i p panic sound q h = absurd cc

  abbrev with_app : Option SiteApp → List String → List String
  with_app none names = names
  with_app (some a) names = a.name ∷ names

  plan_for_lem :
      (names : List String) (domain : String) (a : Option SiteApp) (i : ℕ) (p : Plan)
      (t : Local S F)
      → IsSound names p
      → Leaves (with_app a names) (plan_for S F app_root domain a i p t).0
  plan_for_lem names domain none i p t sound q h = subst (IsSound names) (ok_lem h) sound
  plan_for_lem names domain (some a) i p (m, w) sound q h =
      plan_app_lem names domain a.name i p _ sound q h

  -- The names that are covered after the loop, those of the sites that are left in front.
  abbrev after : List SiteState → List String → List String
  after [] names = names
  after (s ∷ l) names = after l (with_app s.app names)

  plan_apps_lem :
      (l : List SiteState) (names : List String) (i : ℕ) (p : Plan) (t : Local S F)
      → IsSound names p
      → Leaves (after l names) (plan_apps S F app_root l i p t).0
  unfolding plan_apps
  plan_apps_lem [] names i p t sound q h = subst (IsSound names) (ok_lem h) sound
  plan_apps_lem (s ∷ l) names i p t sound q h =
      split (plan_for S F app_root s.domain s.app i p (set_health S F s.domain none t).1).0
        (plan_for S F app_root s.domain s.app i p (set_health S F s.domain none t).1).1
        (plan_for_lem names s.domain s.app i p (set_health S F s.domain none t).1 sound)
        (λ p' v sound' done. plan_apps_lem l (with_app s.app names) (suc i) p' v sound' q done) h
    where
      split :
          (r : Result Plan) (v : Local S F)
          → Leaves (with_app s.app names) r
          → ((p' : Plan) (v : Local S F)
              → IsSound (with_app s.app names) p'
              → (plan_apps S F app_root l (suc i) p' v).0 ≡ ok q
              → IsSound (after (s ∷ l) names) q)
          → (continue r (plan_apps S F app_root l (suc i)) v).0 ≡ ok q
          → IsSound (after (s ∷ l) names) q
      split (ok p') v kept again done = again p' v (kept p' refl) done
      split (err e) v kept again done = absurd cc
      split panic v kept again done = absurd cc

  Covers-after :
      (l : List SiteState) (names : List String) (x : String)
      → (string_in_slice names x || string_in_slice (app_names l) x) ≡ true
      → string_in_slice (after l names) x ≡ true
  unfolding string_in_slice
  Covers-after [] names x h = ground arith
  Covers-after (s ∷ l) names x h = split s.app (λ names. Covers-after l names x) h
    where
      split :
          (a : Option SiteApp)
          (again : (names : List String)
            → (string_in_slice names x || string_in_slice (app_names l) x) ≡ true
            → string_in_slice (after l names) x ≡ true)
          → (string_in_slice names x
              || string_in_slice (elim a [ none ↦ app_names l | some a ↦ a.name ∷ app_names l ]) x)
            ≡ true
          → string_in_slice (after l (with_app a names)) x ≡ true
      split none again h = again names h
      split (some a) again h = again (a.name ∷ names) (ground arith)

  -- When the loop of `SyncApps` over the sites has not failed, no app has been sent to the workers
  -- twice, and the default app and each app that a site has are kept.
  pub plan_apps-IsSound :
      (sites : List SiteState) (t : Local S F) (q : Plan)
      → (plan_apps S F app_root sites 0 no_plan t).0 ≡ ok q
      → IsSound ("_default" ∷ app_names sites) q
  unfolding string_in_slice count
  plan_apps-IsSound sites t q h =
      cover-IsSound (after sites ("_default" ∷ [])) ("_default" ∷ app_names sites) q
        (λ x e. Covers-after sites ("_default" ∷ []) x (ground arith))
        (plan_apps_lem sites ("_default" ∷ []) 0 no_plan t
          (record { once = λ x. omega arith; kept = λ x e. e }) q h)
