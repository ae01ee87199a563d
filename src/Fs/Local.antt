-- ===== src/Fs/Local.antt =====
-- fs/fs-local.go: bundles in a folder of the local disk, each with its metadata in a file of its
-- own. JSON and `path.Dir` are parameters.
pub mod Laws
pub mod RoundTrip
use text.Mathlib.Text.{starts_with}
use statiko.Base.{
  ℕ, String, ◌<>◌, ◌==◌, Bool, true, false, ◌||◌, ◌⊎◌, inl, inr, Option, none, some, List, [], ◌∷◌,
  length, if◌then◌else◌,
}
use statiko.Base.Dict.{Dict}
use statiko.Base.Exec.{Error, Result, ok, err, panic, of_error, pure, continue, ◌>>=◌, ◌>>◌}
use statiko.State.Types.{Bytes}
use statiko.Os.{OsError, FileSystem, Io, run, file_exists}

abbrev pub err_name : Error
err_name = "name is empty or invalid"

abbrev pub err_exist : Error
err_exist = "file already exists"

abbrev pub err_not_exist : Error
err_not_exist = "file does not exist"

-- `base_path` is the field of `Local`; `parent` is `path.Dir`.
pub record LocalLib : Type 0 where
  pub base_path : String
  pub parent : String → String
  pub marshal : Dict String → Error ⊎ Bytes
  pub unmarshal : Bytes → Error ⊎ Dict String

-- The names that every method refuses.
unfoldable pub is_invalid : String → Bool
is_invalid name = name == "" || starts_with name ".metadata."

module _ (F : FileSystem) (J : LocalLib) where
  abbrev pub data_path : String → String
  data_path name = J.base_path <> name

  abbrev pub metadata_path : String → String
  metadata_path name = J.base_path <> (".metadata." <> name)

  abbrev pub decoded : Error ⊎ Dict String → Result (Option (Dict String))
  decoded (inl e) = err e
  decoded (inr d) = ok (some d)

  abbrev pub decode : Bytes → Result (Option (Dict String))
  decode [] = ok none
  decode (x ∷ b) = decoded (J.unmarshal (x ∷ b))

  -- The metadata that reading the file gives; nil stands for none.
  unfoldable pub metadata_of : OsError ⊎ Bytes → Result (Option (Dict String))
  metadata_of (inl e) = if e.is_not_exist then ok none else err e.text
  metadata_of (inr b) = decode b

  abbrev pub Found : Type 0
  Found = Bytes × Option (Dict String)

  abbrev pub with_metadata : Bytes → Result (Option (Dict String)) → Result (Option Found)
  with_metadata b (ok d) = ok (some (b, d))
  with_metadata b (err e) = err e
  with_metadata b panic = panic

  abbrev pub found : OsError ⊎ Bytes → OsError ⊎ Bytes → Result (Option Found)
  found (inl e) m = if e.is_not_exist then ok none else err e.text
  found (inr []) m = ok none
  found (inr (x ∷ b)) m = with_metadata (x ∷ b) (metadata_of m)

  -- `Get`: an empty file counts as none.
  unfoldable pub get : String → F.World → Result (Option Found)
  get name w =
      if is_invalid name
      then err err_name
      else found (F.read_file (data_path name) w) (F.read_file (metadata_path name) w)

  abbrev pub removed : Option OsError → Option OsError → Result (Unit {0})
  removed (some e) f = if e.is_not_exist then err err_not_exist else err e.text
  removed none none = ok tt
  removed none (some f) = if f.is_not_exist then ok tt else err f.text

  abbrev pub remove_both : String → Io F Unit
  remove_both name w =
      let (e, v) = F.remove (data_path name) w in
      let (f, u) = F.remove (metadata_path name) v in (removed e f, u)

  -- `Delete`
  unfoldable pub delete : String → Io F Unit
  delete name = if is_invalid name then (λ w. (err err_name, w)) else remove_both name

  -- A failure after which the file is deleted again.
  abbrev pub undo : String → Option Error × F.World → Result (Unit {0}) × F.World
  undo name (none, w) = (ok tt, w)
  undo name (some e, w) = (err e, (delete name w).1)

  abbrev pub store_encoded : String → Error ⊎ Bytes → Io F Unit
  store_encoded name (inl e) w = undo name (some e, w)
  store_encoded name (inr b) w = undo name (F.write_file (metadata_path name) b w)

  abbrev pub store_metadata : String → Dict String → Io F Unit
  store_metadata name [] w = (ok tt, w)
  store_metadata name (x ∷ d) w = store_encoded name (J.marshal (x ∷ d)) w

  abbrev pub create_unless : String → Bytes → Dict String → Result Bool → Io F Unit
  create_unless name b d (ok true) w = (err err_exist, w)
  create_unless name b d (ok false) w =
      (run F (F.write_file (data_path name) b) >> store_metadata name d) w
  create_unless name b d (err e) w = (err e, w)
  create_unless name b d panic w = (panic, w)

  abbrev pub create : String → Bytes → Dict String → Io F Unit
  create name b d w = create_unless name b d (file_exists (F.stat (data_path name) w)) w

  abbrev pub make_parent : String → Io F Unit
  make_parent dir w =
      (if dir == "" then (λ v. (ok tt, v)) else run F (F.mkdir_all (J.base_path <> dir))) w

  -- `SetWithContext`; an empty dictionary stands for nil.
  unfoldable pub set_with_context : String → Bytes → Dict String → Io F Unit
  set_with_context name b d =
      if is_invalid name
      then (λ w. (err err_name, w))
      else make_parent (J.parent name) >> create name b d

  abbrev pub if_there : {A : Type 0} → Io F A → Result Bool → Io F A
  if_there f (ok true) w = f w
  if_there f (ok false) w = (err err_not_exist, w)
  if_there f (err e) w = (err e, w)
  if_there f panic w = (panic, w)

  abbrev pub when_there : {A : Type 0} → String → Io F A → Io F A
  when_there name f w = if_there f (file_exists (F.stat (data_path name) w)) w

  -- `GetMetadata`
  unfoldable pub get_metadata : String → Io F (Option (Dict String))
  get_metadata name =
      if is_invalid name
      then (λ w. (err err_name, w))
      else when_there name (λ w. (metadata_of (F.read_file (metadata_path name) w), w))

  abbrev pub error_text : Option OsError → Result (Unit {0})
  error_text none = ok tt
  error_text (some e) = err e.text

  abbrev pub drop_file : String → Io F Unit
  drop_file p w = let (e, v) = F.remove p w in (error_text e, v)

  abbrev pub drop_if : String → Result Bool → Io F Unit
  drop_if p (ok true) w = drop_file p w
  drop_if p (ok false) w = (ok tt, w)
  drop_if p (err e) w = (err e, w)
  drop_if p panic w = (panic, w)

  abbrev pub write_encoded : String → Error ⊎ Bytes → Io F Unit
  write_encoded name (inl e) w = (err e, w)
  write_encoded name (inr b) w = run F (F.write_file (metadata_path name) b) w

  abbrev pub replace_metadata : String → Dict String → Io F Unit
  replace_metadata name [] w =
      drop_if (metadata_path name) (file_exists (F.stat (metadata_path name) w)) w
  replace_metadata name (x ∷ d) w = write_encoded name (J.marshal (x ∷ d)) w

  -- `SetMetadata`
  unfoldable pub set_metadata : String → Dict String → Io F Unit
  set_metadata name d =
      if is_invalid name
      then (λ w. (err err_name, w))
      else when_there name (replace_metadata name d)

  abbrev pub is_data : String → Bool
  is_data name = if starts_with name ".metadata." then false else true

  -- The loop of `List` over the names.
  unfoldable pub data_names : List (String × Bool) → List String
  data_names [] = []
  data_names ((name, folder) ∷ l) =
      let rest = data_names l in if is_data name then name ∷ rest else rest

  abbrev pub listed : Error ⊎ List (String × Bool) → Result (List String)
  listed (inl e) = err e
  listed (inr l) = ok (data_names l)

  -- The names that `List` gives.
  unfoldable pub list : F.World → Result (List String)
  list w = listed (F.read_dir J.base_path w)
