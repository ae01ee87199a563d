-- ===== src/AppManager/Files.antt =====
-- appmanager/appmanager.go: the folders and the files that the app manager keeps.
pub mod Laws
use Prim.Native.Char.{code}
use Prim.Native.String
use statiko.Base.{
  ℕ, String, ◌<>◌, ◌==◌, nat_eq, ltb, length, Bool, true, false, not, ◌&&◌, ◌||◌, ◌⊎◌, inl, inr,
  Option, none, some, List, [], ◌∷◌, if◌then◌else◌,
}
use statiko.Base.Exec.{Error, Result, ok, err, panic, of_error, pure, continue, ◌>>=◌, ◌>>◌}
use statiko.State.Types.{Bytes}
use statiko.Os.{OsError, FileSystem, Io, run, folder_exists, ensure_folder, remove_contents}
use statiko.AppManager.Bundles.{bytes_eq}

module _ (F : FileSystem) where
  abbrev pub updated_after : Option Error × F.World → Result Bool × F.World
  updated_after (none, w) = (ok true, w)
  updated_after (some e, w) = (err e, w)

  abbrev pub write_unless_same : String → Bytes → Bytes → Io F Bool
  write_unless_same p val read w =
      if ltb 0 (length read) && bytes_eq read val
      then (ok false, w)
      else updated_after (F.write_file p val w)

  abbrev pub write_after_read : String → Bytes → OsError ⊎ Bytes → Io F Bool
  write_after_read p val (inl e) w =
      if e.is_not_exist then write_unless_same p val [] w else (err e.text, w)
  write_after_read p val (inr b) w = write_unless_same p val b w

  -- `writeFileIfChanged`
  unfoldable pub write_file_if_changed : String → Bytes → Io F Bool
  write_file_if_changed p val w = write_after_read p val (F.read_file p w) w

  abbrev pub ensure_unless : String → Result Bool → Io F Bool
  ensure_unless p (ok true) w = (ok false, w)
  ensure_unless p (ok false) w = (ensure_folder F p >> pure true) w
  ensure_unless p (err e) w = (err e, w)
  ensure_unless p panic w = (panic, w)

  -- `ensureFolderWithUpdated`
  unfoldable pub ensure_folder_with_updated : String → Io F Bool
  ensure_folder_with_updated p w = ensure_unless p (folder_exists (F.stat p w)) w

  module _ (app_root : String) where
    -- `InitAppRoot`
    unfoldable pub init_app_root : Io F Unit
    init_app_root = do
      ensure_folder F app_root
      ensure_folder F (app_root <> "cache")
      ensure_folder F (app_root <> "apps")
      ensure_folder F (app_root <> "sites")
      ensure_folder F (app_root <> "misc")

    -- `ActivateApp`
    unfoldable pub activate_app : String → String → Io F Unit
    activate_app app domain =
        run F (F.symlink (app_root <> "apps/" <> app) (app_root <> "sites/" <> domain <> "/www"))

    -- The text before the last slash.
    unfoldable pub before_slash : String → Option String
    before_slash String.[] = none
    before_slash (String.◌∷◌ c s) = elim (before_slash s) [
      | some p ↦ some (String.◌∷◌ c p)
      | none ↦ if nat_eq (code c) b'/' then some "" else none
    ]

    abbrev pub folder_for : Option String → Io F Unit
    folder_for none w = (ok tt, w)
    folder_for (some p) w =
        (if p == "" then (λ v. (ok tt, v)) else ensure_folder F (app_root <> "apps/_default/" <> p))
          w

    -- The walk over the files of the default app; `box` is what is built in.
    unfoldable pub write_box : List (String × Bytes) → Io F Unit
    write_box [] w = (ok tt, w)
    write_box ((path, b) ∷ box) w =
        (folder_for (before_slash path)
            >> (run F (F.write_file (app_root <> "apps/_default/" <> path) b) >> write_box box))
          w

    -- `WriteDefaultApp`
    unfoldable pub write_default_app : List (String × Bytes) → Io F Unit
    write_default_app box = do
      ensure_folder F (app_root <> "apps/_default")
      remove_contents F (app_root <> "apps/_default/")
      write_box box
