-- ===== src/Os/Memory.antt =====
-- A file system of files in memory, which meets what the program relies on.
use Prim.Native.String.{len}
use Prim.Native.String
use text.Mathlib.Text.{starts_with}
use statiko.Base.{
  String, Bool, true, false, ◌⊎◌, inl, inr, refl, Option, none, some, List, [], ◌∷◌, arith, ◌++◌,
  drop, length, if◌then◌else◌,
}
use statiko.Base.Dict.{Dict, lookup, insert, erase, lookup-insert, lookup-erase}
use statiko.State.Types.{Bytes}
use statiko.Os.{OsError, FileSystem, IsMissing, IsLawful}

abbrev missing : OsError
missing = record { is_not_exist = true; text = "no such file or directory" }

abbrev read : Option Bytes → OsError ⊎ Bytes
read none = inl missing
read (some b) = inr b

abbrev kind : Option Bytes → OsError ⊎ Bool
kind none = inl missing
kind (some b) = inr false

abbrev removal : Option Bytes → Option OsError
removal none = some missing
removal (some b) = none

abbrev content : Option Bytes → Bytes
content none = []
content (some b) = b

-- The files whose paths begin like that.
abbrev under : String → Dict Bytes → List (String × Bool)
under p [] = []
under p ((q, b) ∷ w) =
    let rest = under p w in
    if starts_with q p then (String.slice q (len p) (len q), false) ∷ rest else rest

abbrev pub memory : FileSystem
memory = record {
  World = Dict Bytes;
  stat = λ p w. kind (lookup p w);
  read_file = λ p w. read (lookup p w);
  read_dir = λ p w. inr (under p w);
  write_file = λ p b w. (none, insert p b w);
  overwrite = λ p b w. (none, insert p (b ++ drop (length b) (content (lookup p w))) w);
  mkdir = λ p w. (none, w);
  mkdir_all = λ p w. (none, w);
  remove = λ p w. (removal (lookup p w), erase p w);
  remove_all = λ p w. (none, erase p w);
  rename = λ p q w. (none, w);
  symlink = λ p q w. (none, w);
}

erased_lem : (p : String) (w : Dict Bytes) → IsMissing (read (lookup p (erase p w)))
erased_lem p w = (missing, ground (arith, lookup-erase p p w), refl)

missing_lem : (o : Option Bytes) → IsMissing (kind o) → IsMissing (read o)
missing_lem none h = (missing, refl, refl)
missing_lem (some b) (e, h, k) = cc

pub memory-IsLawful : IsLawful memory
memory-IsLawful = record {
  read-write = λ p b w h. ground (arith, lookup-insert p p b w);
  read-write_other = λ p q b w h. ground (arith, lookup-insert q p b w);
  read-remove = λ p w h. erased_lem p w;
  read-remove_other = λ p q w h. ground (arith, lookup-erase q p w);
  remove_missing = λ p w e h k. erased_lem p w;
  stat-read = λ p b w h. ground arith;
  stat-write_other = λ p q b w h. ground (arith, lookup-insert q p b w);
  stat-remove_other = λ p q w h. ground (arith, lookup-erase q p w);
  stat_missing = λ p w h. missing_lem (lookup p w) h;
  read-mkdir_all = λ p q b w h. h;
  read-mkdir = λ p q b w h. h;
}
