-- ===== src/AppManager/Staging/Laws.antt =====
-- What a newly staged app was made from.
use statiko.Base.{String, ◌≡◌, inr, Option, none, some, List, [], ◌∷◌}
use statiko.Base.Exec.{Result, ok, ◌>>=◌, ◌>>◌}
use statiko.State.Types.{Bytes}
use statiko.Os.{FileSystem, Io, IsLawful, ensure_folder}
use statiko.AppManager.Archive.{Format, Element, ArchiveLib, extract_element, extract_archive}
use statiko.AppManager.Bundles.{BundleEnv}
use statiko.AppManager.Bundles.Laws.{IsVerified}
use statiko.AppManager.Staging.{staging_path, file_type, read_archive, tidy}

module _ (F : FileSystem) (A : ArchiveLib) (dst : String) where
  -- Each element has been extracted without an error, one after another.
  abbrev pub AreExtracted : Format → List Element → F.World → F.World → Type 0
  AreExtracted format [] v v' = v ≡ v'
  AreExtracted format (f ∷ l) v v' =
      (u : F.World) × ((extract_element A F dst format f v ≡ (ok tt, u))
        × AreExtracted format l u v')

  -- A text was an archive that could be read to its end, and its elements have been extracted.
  pub record IsExtracted (o : Option Format) (b : Bytes) (v v' : F.World) : Type 0 where
    format : Format
    known : o ≡ some format
    elements : List Element
    opened : A.open_archive format b ≡ inr (elements, none)
    extracted : AreExtracted format elements v v'

module _ (F : FileSystem) (L : IsLawful F) (E : BundleEnv F) (A : ArchiveLib)
    (to_string : Bytes → String) (bundle : String) where
  abbrev dst : String
  dst = staging_path F E A to_string bundle

  -- A bundle was fetched and verified, and what was extracted to the app's folder, after that was made,
  -- is the content of that bundle, as an archive of the type that the bundle has.
  pub record IsStaged (w w' : F.World) : Type 0 where
    between : F.World
    fetched : IsVerified F L E bundle w between
    format : Option Format
    chosen : (file_type F E A to_string bundle between).0 ≡ ok format
    made : F.World
    folder : ensure_folder F dst between ≡ (ok tt, made)
    filled : F.World
    extracted : IsExtracted F A dst format fetched.content made filled
    tidied : tidy F E A to_string bundle filled ≡ (ok tt, w')

  abbrev After : Type 0
  After = Result (Unit {0}) × F.World

  abbrev fill : Option Format → Bytes → Io F Unit
  fill o b = extract_archive A F dst b o >> tidy F E A to_string bundle

  abbrev read_and_fill : Option Format → Io F Unit
  read_and_fill o = read_archive F E A to_string bundle >>= fill o

  abbrev make_and_fill : Option Format → Io F Unit
  make_and_fill o = ensure_folder F dst >> read_and_fill o
