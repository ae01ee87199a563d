-- ===== src/Os.antt =====
-- The file system of the operating system, as an interface over an unknown state, and the helpers
-- of utils/fs.go.
pub mod Memory
use statiko.Base.{
  String, ◌<>◌, Bool, true, false, ◌≡◌, ◌≢◌, ◌⊎◌, inl, inr, Option, none, some, List, [], ◌∷◌,
  if◌then◌else◌,
}
use statiko.Base.Exec.{Error, Result, ok, err, panic, of_error, Exec}
use statiko.State.Types.{Bytes}

-- An error of a system call; `is_not_exist` is `os.IsNotExist`.
pub record OsError : Type 0 where
  pub is_not_exist : Bool
  pub text : Error

-- `stat` says whether there is a folder; `read_dir` does so for each name. `write_file` creates the
-- file or replaces what it holds, and may leave a part of it when it fails; `overwrite` does not
-- cut a longer file.
pub record FileSystem : Type 1 where
  pub World : Type 0
  pub stat : String → World → OsError ⊎ Bool
  pub read_file : String → World → OsError ⊎ Bytes
  pub read_dir : String → World → Error ⊎ List (String × Bool)
  pub write_file : String → Bytes → World → Option Error × World
  pub overwrite : String → Bytes → World → Option Error × World
  pub mkdir : String → World → Option Error × World
  pub mkdir_all : String → World → Option Error × World
  pub remove : String → World → Option OsError × World
  pub remove_all : String → World → Option Error × World
  pub rename : String → String → World → Option Error × World
  pub symlink : String → String → World → Option Error × World

-- A call has ended with an error that says that there is no file.
abbrev pub IsMissing {ℓ} : {A : Type ℓ} → OsError ⊎ A → Type ℓ
IsMissing {A = A} r = (e : OsError) × (r ≡ inl e) × (e.is_not_exist ≡ true)

-- What the program relies on, where different texts are paths of different files: a call changes
-- the file that it names and no other.
pub record IsLawful (F : FileSystem) : Type 0 where
  pub read-write :
      (p : String) (b : Bytes) (w : F.World)
      → (F.write_file p b w).0 ≡ none
      → F.read_file p (F.write_file p b w).1 ≡ inr b
  pub read-write_other :
      (p q : String) (b : Bytes) (w : F.World)
      → p ≢ q
      → F.read_file q (F.write_file p b w).1 ≡ F.read_file q w
  pub read-remove :
      (p : String) (w : F.World)
      → (F.remove p w).0 ≡ none
      → IsMissing (F.read_file p (F.remove p w).1)
  pub read-remove_other :
      (p q : String) (w : F.World) → p ≢ q → F.read_file q (F.remove p w).1 ≡ F.read_file q w
  pub remove_missing :
      (p : String) (w : F.World) (e : OsError)
      → (F.remove p w).0 ≡ some e
      → e.is_not_exist ≡ true
      → IsMissing (F.read_file p (F.remove p w).1)
  pub stat-read :
      (p : String) (b : Bytes) (w : F.World) → F.read_file p w ≡ inr b → F.stat p w ≡ inr false
  pub stat-write_other :
      (p q : String) (b : Bytes) (w : F.World)
      → p ≢ q
      → F.stat q (F.write_file p b w).1 ≡ F.stat q w
  pub stat-remove_other :
      (p q : String) (w : F.World) → p ≢ q → F.stat q (F.remove p w).1 ≡ F.stat q w
  pub stat_missing :
      (p : String) (w : F.World) → IsMissing (F.stat p w) → IsMissing (F.read_file p w)
  pub read-mkdir_all :
      (p q : String) (b : Bytes) (w : F.World)
      → F.read_file q w ≡ inr b
      → F.read_file q (F.mkdir_all p w).1 ≡ inr b
  pub read-mkdir :
      (p q : String) (b : Bytes) (w : F.World)
      → F.read_file q w ≡ inr b
      → F.read_file q (F.mkdir p w).1 ≡ inr b

-- `PathExists`
unfoldable pub path_exists : OsError ⊎ Bool → Result Bool
path_exists (inl e) = if e.is_not_exist then ok false else err e.text
path_exists (inr folder) = ok true

-- `FileExists`
unfoldable pub file_exists : OsError ⊎ Bool → Result Bool
file_exists (inl e) = if e.is_not_exist then ok false else err e.text
file_exists (inr true) = ok false
file_exists (inr false) = ok true

-- `FolderExists`
unfoldable pub folder_exists : OsError ⊎ Bool → Result Bool
folder_exists (inl e) = if e.is_not_exist then ok false else err e.text
folder_exists (inr folder) = ok folder

-- `err` in place of an error of a system call.
abbrev pub os_text : Option OsError → Option Error
os_text none = none
os_text (some e) = some e.text

module _ (F : FileSystem) where
  abbrev pub Io : Type 0 → Type 0
  Io A = Exec F.World A

  -- A system call whose error is passed on.
  abbrev pub run : (F.World → Option Error × F.World) → Io Unit
  run f w = let (e, w') = f w in (of_error e, w')

  -- A system call whose error is dropped.
  abbrev pub ignore {ℓ} : {E : Type ℓ} → (F.World → E × F.World) → Io Unit
  ignore f w = (ok tt, (f w).1)

  abbrev pub make_unless : String → Result Bool → Io Unit
  make_unless p (ok true) w = (ok tt, w)
  make_unless p (ok false) w = run (F.mkdir p) w
  make_unless p (err e) w = (err e, w)
  make_unless p panic w = (panic, w)

  -- `EnsureFolder`
  unfoldable pub ensure_folder : String → Io Unit
  ensure_folder p w = make_unless p (folder_exists (F.stat p w)) w

  -- The loop of `RemoveContents`
  unfoldable pub remove_names : String → List (String × Bool) → Io Unit
  remove_names dir [] w = (ok tt, w)
  remove_names dir ((name, folder) ∷ l) w =
      let (e, w') = F.remove_all (dir <> name) w in
      elim e [ none ↦ remove_names dir l w' | some x ↦ (err x, w') ]

  abbrev pub remove_listed : String → Error ⊎ List (String × Bool) → Io Unit
  remove_listed dir (inl e) w = (err e, w)
  remove_listed dir (inr l) w = remove_names dir l w

  -- `RemoveContents` of a path that ends in a slash.
  unfoldable pub remove_contents : String → Io Unit
  remove_contents dir w = remove_listed dir (F.read_dir dir w) w
