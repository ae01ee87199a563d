-- ===== src/AppManager/Sites.antt =====
-- appmanager/appmanager.go: the folders of the sites. `certificates.GetCertificate` is a parameter
-- of this module, which Sites/Served fills with the model of Certificates/Sites.
pub mod Laws
pub mod Served
mod Tests
use statiko.Base.{
  String, ◌<>◌, Bool, true, false, ◌||◌, ◌⊎◌, inl, inr, Option, none, some, List, [], ◌∷◌, ◌++◌,
  if◌then◌else◌,
}
use statiko.Base.Exec.{Error, Result, ok, err, panic, pure, continue, ◌>>=◌, ◌>>◌}
use statiko.State.Types.{Bytes, SiteState, SiteApp}
use statiko.State.Store.{StateStore}
use statiko.State.Manager.Locks.{Manager, Method}
use statiko.State.Manager.Sites.{string_in_slice}
use statiko.State.Manager.Status.{get_site_health}
use statiko.Os.{OsError, FileSystem, Io, run, ignore}
use statiko.AppManager.Files.{ensure_folder_with_updated, write_file_if_changed, activate_app}
use statiko.AppManager.Local.{Local, Act, on_world, on_manager, set_health, attempt, attempt_or}

-- The name of the bundle of an app, or the default one.
unfoldable pub bundle_of : Option SiteApp → String
bundle_of none = "_default"
bundle_of (some a) = a.name

module _ (S : StateStore) (F : FileSystem) (app_root : String)
    (get_certificate : SiteState → Method S (Bytes × Bytes)) where
  -- Whether something has been updated, and the folders to expect.
  abbrev pub Progress : Type 0
  Progress = Bool × List String

  abbrev pub site_path : String → String
  site_path domain = app_root <> "sites/" <> domain

  -- The end of the loop's body: the files of the certificate, whose errors are dropped, and the app.
  abbrev pub publish : SiteState → Progress → Bytes × Bytes → Act S F Progress
  publish s (u, l) (key, cert) = do
    a ←
        attempt_or S F false
          (on_world S F (write_file_if_changed F (site_path s.domain <> "/tls/key.pem") key))
    b ←
        attempt_or S F false (
          on_world S F
            (write_file_if_changed F (site_path s.domain <> "/tls/certificate.pem") cert))
    attempt S F s.domain (u || a || b, l)
        (on_world S F (activate_app F app_root (bundle_of s.app) s.domain))
        (λ _. pure (u || a || b, l ++ s.domain ∷ []))

  abbrev pub with_tls_folder : SiteState → Progress → Bool → Act S F Progress
  with_tls_folder s (u, l) b =
      attempt S F s.domain (u || b, l) (on_manager S F (get_certificate s)) (publish s (u || b, l))

  abbrev pub with_folder : SiteState → Progress → Bool → Act S F Progress
  with_folder s (u, l) b =
      attempt S F s.domain (u || b, l)
        (on_world S F (ensure_folder_with_updated F (site_path s.domain <> "/tls")))
        (with_tls_folder s (u || b, l))

  abbrev pub sync_healthy : SiteState → Progress → Act S F Progress
  sync_healthy s (u, l) =
      attempt S F s.domain (u, l) (on_world S F (ensure_folder_with_updated F (site_path s.domain)))
        (with_folder s (u, l))

  abbrev pub sync_unless : SiteState → Progress → Option Error → Act S F Progress
  sync_unless s p none t = sync_healthy s p t
  sync_unless s p (some e) t = (ok p, t)

  -- The body of the loop over the sites.
  unfoldable pub sync_site_folder : SiteState → Progress → Act S F Progress
  sync_site_folder s p t = sync_unless s p (get_site_health S s.domain t.0) t

  -- The loop over the sites.
  unfoldable pub sync_listed : List SiteState → Progress → Act S F Progress
  sync_listed [] p t = (ok p, t)
  sync_listed (s ∷ l) p t = (sync_site_folder s p >>= sync_listed l) t

  abbrev pub remove_entry : String → List String → String × Bool → Io F Bool
  remove_entry dir expect (name, true) w =
      (if string_in_slice expect name
          then (λ v. (ok false, v))
          else ignore F (F.remove_all (dir <> name)) >> pure true)
        w
  remove_entry dir expect (name, false) w = (ignore F (F.remove (dir <> name)) >> pure true) w

  -- The loop over the entries of a folder: whether any has been removed.
  unfoldable pub remove_extraneous : String → List String → List (String × Bool) → Io F Bool
  remove_extraneous dir expect [] w = (ok false, w)
  remove_extraneous dir expect (x ∷ l) w =
      (remove_entry dir expect x >>= λ a. remove_extraneous dir expect l >>= λ b. pure (a || b)) w

  abbrev pub remove_read : String → Progress → Error ⊎ List (String × Bool) → Io F Bool
  remove_read dir (u, expect) (inl e) w = (err e, w)
  remove_read dir (u, expect) (inr l) w = (remove_extraneous dir expect l >>= λ b. pure (u || b)) w

  abbrev pub clean_sites : Progress → Act S F Bool
  clean_sites p (m, w) =
      on_world S F (remove_read (app_root <> "sites/") p (F.read_dir (app_root <> "sites/") w))
        (m, w)

  -- `SyncSiteFolders`
  unfoldable pub sync_site_folders : List SiteState → Act S F Bool
  sync_site_folders sites = do
    u ← on_world S F (ensure_folder_with_updated F (app_root <> "sites/_default"))
    on_world S F (activate_app F app_root "_default" "_default")
    p ← sync_listed sites (u, "_default" ∷ [])
    clean_sites p
