-- ===== src/AppManager/Apps.antt =====
-- appmanager/appmanager.go: the folders of the apps, and the whole synchronization of the disk. The
-- three workers that stage apps take jobs from a channel; here the jobs are done one after another,
-- in the order in which they are sent, after the loop that sends them.
pub mod Laws
use statiko.Base.{
  ℕ, suc, String, ◌<>◌, Bool, true, false, ◌||◌, ◌⊎◌, inl, inr, Option, none, some, List, [], ◌∷◌,
  ◌++◌, map, if◌then◌else◌,
}
use statiko.Base.Dict.{Dict, lookup, insert}
use statiko.Base.Exec.{Error, Result, ok, err, panic, pure, continue, ◌>>=◌, ◌>>◌}
use statiko.State.Types.{Bytes, SiteState, SiteApp}
use statiko.State.Store.{StateStore}
use statiko.State.Manager.Locks.{Manager, Method}
use statiko.State.Manager.Sites.{string_in_slice}
use statiko.Os.{OsError, FileSystem, Io, run, ignore, path_exists, file_exists}
use statiko.AppManager.Archive.{ArchiveLib}
use statiko.AppManager.Bundles.{BundleEnv}
use statiko.AppManager.Staging.{stage_app}
use statiko.AppManager.Files.{init_app_root, write_default_app}
use statiko.AppManager.Local.{Local, Act, on_world, set_health, attempt}
use statiko.AppManager.Misc.{NodeTls, sync_misc_files}
use statiko.AppManager.Sites.{sync_site_folders}

-- `parse` is `yaml.Unmarshal` into a new manifest.
pub record ManifestLib : Type 1 where
  pub Manifest : Type 0
  pub file_name : String
  pub parse : Bytes → Option Error × Manifest

-- `jobs` are the domain and the app of the sites sent to the workers, whose apps are the keys of
-- `fetchAppsList`.
pub record Plan : Type 0 where
  pub jobs : List (String × String)
  pub expect : List String
  pub indexes : Dict ℕ

abbrev pub no_plan : Plan
no_plan = record { jobs = []; expect = "_default" ∷ []; indexes = [] }

abbrev pub job_apps : List (String × String) → List String
job_apps jobs = map (λ (j : String × String). j.1) jobs

abbrev pub expect_app : String → ℕ → Plan → Plan
expect_app name i p = record p { expect = p.expect ++ name ∷ []; indexes = insert name i p.indexes }

abbrev pub request_app : String → String → Plan → Plan
request_app domain name p =
    if string_in_slice (job_apps p.jobs) name
    then p
    else record p { jobs = p.jobs ++ (domain, name) ∷ [] }

module _ (S : StateStore) (F : FileSystem) (app_root : String) where
  abbrev pub plan_app : String → String → ℕ → Plan → Result Bool → Result Plan
  plan_app domain name i p (ok true) = ok (expect_app name i p)
  plan_app domain name i p (ok false) = ok (expect_app name i (request_app domain name p))
  plan_app domain name i p (err e) = err e
  plan_app domain name i p panic = panic

  abbrev pub plan_for : String → Option SiteApp → ℕ → Plan → Act S F Plan
  plan_for domain none i p t = (ok p, t)
  plan_for domain (some a) i p (m, w) =
      (plan_app domain a.name i p (path_exists (F.stat (app_root <> "apps/" <> a.name) w)), (m, w))

  -- The loop over the sites, from an index on.
  unfoldable pub plan_apps : List SiteState → ℕ → Plan → Act S F Plan
  plan_apps [] i p t = (ok p, t)
  plan_apps (s ∷ l) i p t =
      (set_health S F s.domain none >> plan_for s.domain s.app i p >>= plan_apps l (suc i)) t

  module _ (M : ManifestLib) where
    abbrev pub keep_manifest : ℕ → Option Error × M.Manifest → Result (List (ℕ × M.Manifest))
    keep_manifest i (none, x) = ok ((i, x) ∷ [])
    keep_manifest i (some e, x) = err e

    abbrev pub indexed_manifest : String → Bytes → Option ℕ → Result (List (ℕ × M.Manifest))
    indexed_manifest name b none = err ("Cannot find index for app " <> name)
    indexed_manifest name b (some i) = keep_manifest i (M.parse b)

    abbrev pub read_manifest : String → Dict ℕ → OsError ⊎ Bytes → Result (List (ℕ × M.Manifest))
    read_manifest name indexes (inl e) = err e.text
    read_manifest name indexes (inr b) = indexed_manifest name b (lookup name indexes)

    abbrev pub manifest_path : String → String
    manifest_path name = app_root <> "apps/" <> name <> "/" <> M.file_name

    abbrev pub manifest_if :
        String → Dict ℕ → F.World → Result Bool → Result (List (ℕ × M.Manifest))
    manifest_if name indexes w (ok true) =
        read_manifest name indexes (F.read_file (manifest_path name) w)
    manifest_if name indexes w (ok false) = ok []
    manifest_if name indexes w (err e) = err e
    manifest_if name indexes w panic = panic

    abbrev pub find_manifest : String → Dict ℕ → Io F (List (ℕ × M.Manifest))
    find_manifest name indexes w =
        (manifest_if name indexes w (file_exists (F.stat (manifest_path name) w)), w)

    abbrev pub scan_entry : Plan → String × Bool → Io F (List (ℕ × M.Manifest))
    scan_entry p (name, true) w =
        ((if string_in_slice p.expect name
              then pure tt
              else ignore F (F.remove_all (app_root <> "apps/" <> name)))
            >> find_manifest name p.indexes)
          w
    scan_entry p (name, false) w = (ignore F (F.remove (app_root <> "apps/" <> name)) >> pure []) w

    -- The loop over the entries of the folder of the apps: the manifests, each with the index of its
    -- site.
    unfoldable pub scan_apps : Plan → List (String × Bool) → Io F (List (ℕ × M.Manifest))
    scan_apps p [] w = (ok [], w)
    scan_apps p (x ∷ l) w = (scan_entry p x >>= λ a. scan_apps p l >>= λ b. pure (a ++ b)) w

    abbrev pub scan_read : Plan → Error ⊎ List (String × Bool) → Io F (List (ℕ × M.Manifest))
    scan_read p (inl e) w = (err e, w)
    scan_read p (inr l) w = scan_apps p l w

    abbrev pub scan : Plan → Act S F (List (ℕ × M.Manifest))
    scan p (m, w) = on_world S F (scan_read p (F.read_dir (app_root <> "apps/") w)) (m, w)

module _ (S : StateStore) (F : FileSystem) (E : BundleEnv F) (A : ArchiveLib)
    (to_string : Bytes → String) where
  -- `workerStageApp`, for all jobs.
  unfoldable pub stage_jobs : List (String × String) → Act S F Unit
  stage_jobs [] t = (ok tt, t)
  stage_jobs ((domain, name) ∷ l) t =
      (attempt S F domain tt (on_world S F (stage_app F E A to_string name)) pure >> stage_jobs l) t

  -- `SyncApps`: the manifests that are found, by the index of the site.
  unfoldable pub sync_apps : (M : ManifestLib) → List SiteState → Act S F (List (ℕ × M.Manifest))
  sync_apps M sites = do
    p ← plan_apps S F E.app_root sites 0 no_plan
    stage_jobs p.jobs
    scan S F E.app_root M p

  module _ (M : ManifestLib) (box : List (String × Bytes)) (default : String) (c : NodeTls)
      (get_certificate : SiteState → Method S (Bytes × Bytes)) where
    -- `SyncState`: whether something was updated, and whether the API server is to be restarted.
    unfoldable pub sync_state : List SiteState → Act S F (Bool × Bool)
    sync_state sites = do
      on_world S F (init_app_root F E.app_root)
      on_world S F (write_default_app F E.app_root box)
      p ← sync_misc_files S F E.app_root default E.to_bytes get_certificate c
      sync_apps M sites
      u ← sync_site_folders S F E.app_root get_certificate sites
      pure (p.0 || u, p.1)
