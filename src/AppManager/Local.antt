-- ===== src/AppManager/Local.antt =====
-- appmanager/appmanager.go: what its methods act on, the state manager and the disk.
use statiko.Base.{String, Option, some}
use statiko.Base.Exec.{Error, Result, ok, err, panic, Exec}
use statiko.State.Store.{StateStore}
use statiko.State.Manager.Locks.{Manager, Method}
use statiko.State.Manager.Status.{set_site_health}
use statiko.Os.{FileSystem, Io}

module _ (S : StateStore) (F : FileSystem) where
  abbrev pub Local : Type 0
  Local = Manager S × F.World

  abbrev pub Act : Type 0 → Type 0
  Act A = Exec Local A

  abbrev pub on_world : {A : Type 0} → Io F A → Act A
  on_world f (m, w) = let (r, v) = f w in (r, (m, v))

  abbrev pub on_manager : {A : Type 0} → Method S A → Act A
  on_manager f (m, w) = let (r, k) = f m in (r, (k, w))

  -- `state.Instance.SetSiteHealth`
  abbrev pub set_health : String → Option Error → Act Unit
  set_health domain e (m, w) = (ok tt, (set_site_health S domain e m, w))

  -- An error is noted as the health of the site, and the given value is the result.
  abbrev pub or_unhealthy : {A B : Type 0} → String → B → (A → Act B) → Result A → Act B
  or_unhealthy domain b f (ok a) s = f a s
  or_unhealthy domain b f (err e) (m, w) = (ok b, (set_site_health S domain (some e) m, w))
  or_unhealthy domain b f panic s = (panic, s)

  abbrev pub attempt : {A B : Type 0} → String → B → Act A → (A → Act B) → Act B
  attempt domain b h f s = let (r, t) = h s in or_unhealthy domain b f r t

  -- An error is dropped, in favour of the given value.
  abbrev pub or_value : {A : Type 0} → A → Result A → Result A
  or_value a (ok x) = ok x
  or_value a (err e) = ok a
  or_value a panic = panic

  abbrev pub attempt_or : {A : Type 0} → A → Act A → Act A
  attempt_or a h s = let (r, t) = h s in (or_value a r, t)
