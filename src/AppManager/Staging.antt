-- ===== src/AppManager/Staging.antt =====
-- appmanager/appmanager.go: staging an app, from its bundle to its folder.
pub mod Laws
use statiko.Base.{
  ℕ, String, ◌<>◌, Bool, true, false, ◌⊎◌, inl, inr, Option, none, some, List, [], ◌∷◌,
  if◌then◌else◌,
}
use statiko.Base.Exec.{Error, Result, ok, err, panic, of_error, continue, ◌>>=◌, ◌>>◌}
use statiko.State.Types.{Bytes}
use statiko.Os.{OsError, FileSystem, Io, path_exists, file_exists, run, ensure_folder, os_text}
use statiko.AppManager.Archive.{Format, ArchiveLib, archive_type_by_extension, extract_archive}
use statiko.AppManager.Bundles.{BundleEnv, cache_path, type_path, fetch_bundle}

module _ (F : FileSystem) (E : BundleEnv F) (A : ArchiveLib) (to_string : Bytes → String) where
  abbrev pub staging_path : String → String
  staging_path bundle = E.app_root <> "apps/" <> bundle

  abbrev pub temporary_path : String → String
  temporary_path bundle = E.app_root <> "apps/__" <> bundle

  abbrev pub os_result : OsError ⊎ Bytes → Result Bytes
  os_result (inl e) = err e.text
  os_result (inr b) = ok b

  abbrev pub type_of_text : Bytes → Result (Option Format)
  type_of_text [] = err "File type object was empty"
  type_of_text (x ∷ b) = archive_type_by_extension A ("." <> to_string (x ∷ b))

  abbrev pub type_of_read : OsError ⊎ Bytes → Result (Option Format)
  type_of_read (inl e) = err e.text
  type_of_read (inr b) = type_of_text b

  abbrev pub type_of_file : String → Result Bool → F.World → Result (Option Format)
  type_of_file bundle (ok true) w = type_of_read (F.read_file (type_path F E bundle) w)
  type_of_file bundle (ok false) w = archive_type_by_extension A bundle
  type_of_file bundle (err e) w = err e
  type_of_file bundle panic w = panic

  -- "Get file type"
  unfoldable pub file_type : String → Io F (Option Format)
  file_type bundle w = (type_of_file bundle (file_exists (F.stat (type_path F E bundle) w)) w, w)

  abbrev pub read_archive : String → Io F Bytes
  read_archive bundle w = (os_result (F.read_file (cache_path F E bundle) w), w)

  abbrev pub drop_empty : String → Option OsError × F.World → Result (Unit {0}) × F.World
  drop_empty bundle (none, w) = (err "no files in the extracted folder", w)
  drop_empty bundle (some e, w) = (err e.text, w)

  -- One folder alone is moved one directory up.
  abbrev pub remove_staging : String → Io F Unit
  remove_staging bundle w =
      let (e, v) = F.remove (staging_path bundle) w in (of_error (os_text e), v)

  abbrev pub lift_folder : String → String → Io F Unit
  lift_folder bundle name =
      run F (F.rename (staging_path bundle <> "/" <> name) (temporary_path bundle))
      >> (remove_staging bundle >> run F (F.rename (temporary_path bundle) (staging_path bundle)))

  abbrev pub tidy_listed : String → Error ⊎ List (String × Bool) → Io F Unit
  tidy_listed bundle (inl e) w = (err e, w)
  tidy_listed bundle (inr []) w = drop_empty bundle (F.remove (staging_path bundle) w)
  tidy_listed bundle (inr ((name, true) ∷ [])) w = lift_folder bundle name w
  tidy_listed bundle (inr ((name, false) ∷ [])) w = (ok tt, w)
  tidy_listed bundle (inr (x ∷ y ∷ l)) w = (ok tt, w)

  -- "Check how many filles were extracted"
  unfoldable pub tidy : String → Io F Unit
  tidy bundle w = tidy_listed bundle (F.read_dir (staging_path bundle) w) w

  -- From the bundle in the cache to the folder.
  unfoldable pub unpack : String → Io F Unit
  unpack bundle = do
    format ← file_type bundle
    ensure_folder F (staging_path bundle)
    archive ← read_archive bundle
    extract_archive A F (staging_path bundle) archive format
    tidy bundle

  abbrev pub fetch_unless : String → Result Bool → Io F Unit
  fetch_unless bundle (ok true) w = (ok tt, w)
  fetch_unless bundle (ok false) w = fetch_bundle F E bundle w
  fetch_unless bundle (err e) w = (err e, w)
  fetch_unless bundle panic w = (panic, w)

  abbrev pub fetch_if_needed : String → Io F Unit
  fetch_if_needed bundle w = fetch_unless bundle (path_exists (F.stat (cache_path F E bundle) w)) w

  abbrev pub stage_unless : String → Result Bool → Io F Unit
  stage_unless bundle (ok true) w = (ok tt, w)
  stage_unless bundle (ok false) w = (fetch_if_needed bundle >> unpack bundle) w
  stage_unless bundle (err e) w = (err e, w)
  stage_unless bundle panic w = (panic, w)

  -- `StageApp`
  unfoldable pub stage_app : String → Io F Unit
  stage_app bundle w = stage_unless bundle (path_exists (F.stat (staging_path bundle) w)) w
