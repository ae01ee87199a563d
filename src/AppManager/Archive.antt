-- ===== src/AppManager/Archive.antt =====
-- utils/archive.go: unpacking an archive. The decoders and the functions of path/filepath are
-- parameters.
use Prim.Native.String.{len}
use Prim.Native.String
use text.Mathlib.Text.{starts_with}
use statiko.Base.{
  ℕ, ◌-◌, String, ◌<>◌, ◌==◌, ltb, nat_eq, Bool, false, not, ◌||◌, ◌⊎◌, inl, inr, Option, none,
  some, List, [], ◌∷◌, if◌then◌else◌,
}
use statiko.Base.Exec.{Error, Result, ok, err, panic, ◌>>◌}
use statiko.State.Types.{Bytes}
use statiko.Os.{FileSystem, Io, run, ensure_folder}

pub data Format : Type 0 where
  tar tar_bz2 tar_gz tar_lz4 tar_sz tar_xz zip rar : Format

-- `name` is missing where the header has none that can be read; `typeflag` is that of a header of
-- a tar archive.
pub record Element : Type 0 where
  pub name : Option String
  pub is_dir : Bool
  pub typeflag : Option ℕ
  pub content : Bytes

-- `open_archive` gives the elements that the decoder reads, and the error that it ends with, if there is
-- one. `join`, `clean` and `parent` are `Join`, `Clean` and `Dir` of path/filepath.
pub record ArchiveLib : Type 0 where
  pub to_lower : String → String
  pub open_archive : Format → Bytes → Error ⊎ (List Element × Option Error)
  pub join : String → String → String
  pub clean : String → String
  pub parent : String → String

-- The switch on the last four characters.
unfoldable pub format_of : String → Option Format
format_of e =
    if e == ".tar"
    then some tar
    else if e == ".bz2" || e == "tbz2"
    then some tar_bz2
    else if e == "r.gz" || e == ".tgz"
    then some tar_gz
    else if e == ".lz4" || e == "tlz4"
    then some tar_lz4
    else if e == "r.sz" || e == ".tsz"
    then some tar_sz
    else if e == "r.xz" || e == ".txz"
    then some tar_xz
    else if e == ".zip"
    then some zip
    else if e == ".rar"
    then some rar
    else none

-- The types of elements of a tar archive that are written: `TypeReg`, `TypeRegA`, `TypeChar`,
-- `TypeBlock`, `TypeFifo` and `TypeGNUSparse`.
unfoldable pub is_tar_file : Option ℕ → Bool
is_tar_file none = false
is_tar_file (some t) =
    nat_eq t b'0' || nat_eq t 0 || nat_eq t b'3' || nat_eq t b'4' || nat_eq t b'6' || nat_eq t b'S'

-- `isRegularFile`
unfoldable pub is_regular_file : Format → Element → Bool
is_regular_file zip f = not f.is_dir
is_regular_file rar f = not f.is_dir
is_regular_file tar f = is_tar_file f.typeflag
is_regular_file tar_bz2 f = is_tar_file f.typeflag
is_regular_file tar_gz f = is_tar_file f.typeflag
is_regular_file tar_lz4 f = is_tar_file f.typeflag
is_regular_file tar_sz f = is_tar_file f.typeflag
is_regular_file tar_xz f = is_tar_file f.typeflag

module _ (A : ArchiveLib) where
  -- `ArchiveTypeByExtension`: a name of less than four bytes is a panic.
  unfoldable pub archive_type_by_extension : String → Result (Option Format)
  archive_type_by_extension name =
      let s = A.to_lower name in
      if ltb (len s) 4 then panic else ok (format_of (String.slice s (len s - 4) (len s)))

  -- `extractPathValid`
  unfoldable pub extract_path_valid : String → String → Bool
  extract_path_valid file_path destination =
      starts_with (A.join destination file_path) (A.clean destination <> "/")

  module _ (F : FileSystem) where
    abbrev pub write_element : String → Format → Element → Io F Unit
    write_element target format f =
        if f.is_dir
        then ensure_folder F target
        else if is_regular_file format f
        then ensure_folder F (A.parent target) >> run F (F.overwrite target f.content)
        else (λ w. (ok tt, w))

    abbrev pub checked_element : String → String → Format → Element → Io F Unit
    checked_element dst target format f =
        if target == "" || target == "/"
        then (λ w. (err "target is empty", w))
        else if not (extract_path_valid target dst)
        then (λ w. (err ("illegal target: " <> target), w))
        else write_element target format f

    abbrev pub named_element : String → Format → Element → Option String → Io F Unit
    named_element dst format f none w = (ok tt, w)
    named_element dst format f (some name) w =
        (if starts_with name "__MACOSX"
            then (λ v. (ok tt, v))
            else checked_element dst (A.join dst name) format f)
          w

    -- `extractElement`
    unfoldable pub extract_element : String → Format → Element → Io F Unit
    extract_element dst format f = named_element dst format f f.name

    abbrev pub ended : Option Error → Result (Unit {0})
    ended none = ok tt
    ended (some e) = err ("error opening file: " <> e)

    abbrev pub after_element : Result (Unit {0}) → Io F Unit → Io F Unit
    after_element (ok x) rest w = rest w
    after_element (err e) rest w = (err ("error extracting file: " <> e), w)
    after_element panic rest w = (panic, w)

    -- The loop of `ExtractArchive`
    unfoldable pub extract_elements : String → Format → List Element → Option Error → Io F Unit
    extract_elements dst format [] e w = (ended e, w)
    extract_elements dst format (f ∷ l) e w =
        let (r, v) = extract_element dst format f w in
        after_element r (extract_elements dst format l e) v

    abbrev pub extract_opened : String → Format → Error ⊎ (List Element × Option Error) → Io F Unit
    extract_opened dst format (inl e) w = (err e, w)
    extract_opened dst format (inr (l, e)) w = extract_elements dst format l e w

    -- `ExtractArchive`
    unfoldable pub extract_archive : String → Bytes → Option Format → Io F Unit
    extract_archive dst b none w = (err "invalid archive format", w)
    extract_archive dst b (some format) w = extract_opened dst format (A.open_archive format b) w
