-- ===== src/Api/Apps.antt =====
-- api/routes/app.go: the handlers of the repository of bundles, over the repository on the local disk.
pub mod Laws
pub mod Updates
mod Tests
use Prim.Native.Char.{code}
use Prim.Native.String
use statiko.Base.{
  ℕ, ◌+◌, String, ◌<>◌, ◌==◌, ltb, leb, nat_eq, Bool, true, false, not, ◌&&◌, ◌||◌, ◌⊎◌, inl, inr,
  Option, none, some, List, [], ◌∷◌, if◌then◌else◌,
}
use statiko.Base.Dict.{Dict, insert}
use statiko.Base.Exec.{Error, Result, ok, err, panic}
use statiko.State.Types.{Bytes}
use statiko.Os.{FileSystem}
use statiko.Fs.Local.{
  LocalLib, err_exist, err_not_exist, set_with_context, get_metadata, set_metadata, delete, list,
}
use statiko.Api.Handler.{Flow, stop, go, abort, abort_500, bind_flow, of_result}
use statiko.State.Manager.Sites.{string_in_slice}
use statiko.Api.Certificates.{is_lower}

unfoldable pub is_app_char : ℕ → Bool
is_app_char c =
    is_lower c
    || (leb b'A' c && leb c b'Z')
    || (leb b'0' c && leb c b'9')
    || nat_eq c b'.'
    || nat_eq c b'-'

unfoldable pub all_app_chars : String → Bool
all_app_chars String.[] = true
all_app_chars (String.◌∷◌ c s) = is_app_char (code c) && all_app_chars s

-- A match of `appNameRegEx`.
unfoldable pub is_app_name : String → Bool
is_app_name String.[] = false
is_app_name (String.◌∷◌ c s) = is_lower (code c) && all_app_chars s

-- `ArchiveExtensions`
abbrev pub archive_extensions : List String
archive_extensions =
    ".zip" ∷ ".tar" ∷ ".tar.bz2" ∷ ".tbz2" ∷ ".tar.gz" ∷ ".tgz" ∷ ".tar.lz4" ∷ ".tlz4" ∷ ".tar.sz"
    ∷ ".tsz" ∷ ".tar.xz" ∷ ".txz" ∷ ".rar" ∷ []

abbrev pub char_length : ℕ → ℕ
char_length c = if ltb c 128 then 1 else if ltb c 2048 then 2 else if ltb c 65536 then 3 else 4

-- `len` of a string, which counts the bytes of its encoding in UTF-8.
unfoldable pub byte_length : String → ℕ
byte_length String.[] = 0
byte_length (String.◌∷◌ c s) = char_length (code c) + byte_length s

-- The form of an upload; `file` is what `c.FormFile` gives, and then what opening it gives. An error
-- that comes while the opened file is read is not modelled.
pub record UploadRequest : Type 0 where
  pub file : Error ⊎ (Error ⊎ Bytes)
  pub name : String
  pub kind : String
  pub signature : String
  pub hash : String

-- `appUpdateRequest`
pub record UpdateRequest : Type 0 where
  pub signature : String
  pub hash : String

abbrev pub or_500 {ℓ} : {A : Type ℓ} → Error ⊎ A → Flow A
or_500 (inl e) = abort_500
or_500 (inr a) = go a

-- A field of the form that is stored with the bundle, where it is not empty.
unfoldable pub with_field : String → ℕ → String → String → Dict String → Flow (Dict String)
with_field key limit digits v d =
    if v == ""
    then go d
    else if ltb limit (byte_length v)
    then abort 400 ("Value for '" <> key <> "' cannot be longer than " <> digits <> " characters")
    else go (insert key v d)

abbrev pub with_fields : String → String → Dict String → Flow (Dict String)
with_fields signature hash d =
    bind_flow (with_field "signature" 1024 "1024" signature d) (with_field "hash" 64 "64" hash)

abbrev pub conflict_or_500 : Result (Unit {0}) → Flow (Unit {0})
conflict_or_500 (ok x) = go tt
conflict_or_500 (err e) = if e == err_exist then abort 409 "File already exists" else abort_500
conflict_or_500 panic = abort_500

abbrev pub missing_or_500 {ℓ} : {A : Type ℓ} → Result A → Flow A
missing_or_500 (ok a) = go a
missing_or_500 (err e) = if e == err_not_exist then abort 404 "File does not exist" else abort_500
missing_or_500 panic = abort_500

-- `lower` is `strings.ToLower`.
module _ (lower : String → String) where
  -- `SanitizeAppName`
  unfoldable pub sanitize_app_name : String → String
  sanitize_app_name name = if is_app_name (lower name) then lower name else ""

  abbrev pub named : String → String → Flow String
  named text name =
      if sanitize_app_name name == "" then abort 400 text else go (sanitize_app_name name)

  abbrev pub typed : String → Flow (Unit {0})
  typed kind =
      if kind == "" || not (string_in_slice archive_extensions ("." <> kind))
      then abort 400 "File extension is empty or invalid"
      else go tt

  -- The name, the content and the metadata of the bundle to store.
  unfoldable pub check_upload : UploadRequest → Flow (String × (Bytes × Dict String))
  check_upload input = bind_flow (or_500 input.file) (λ file.
      bind_flow (named "Filename for the file is empty or invalid" input.name) (λ name.
        bind_flow (typed input.kind) (λ _. bind_flow (or_500 file) (λ content.
          bind_flow (with_fields input.signature input.hash (("type", input.kind) ∷ []))
            (λ d. go (name, (content, d)))))))

  module _ (F : FileSystem) (J : LocalLib) where
    -- A handler, over the disk.
    abbrev pub OnDisk : Type 0 → Type 0
    OnDisk A = F.World → Flow A × F.World

    abbrev pub then_on : {A B : Type 0} → Flow A → (A → OnDisk B) → OnDisk B
    then_on (stop r) f w = (stop r, w)
    then_on (go a) f w = f a w

    abbrev pub store_upload : String × (Bytes × Dict String) → OnDisk Unit
    store_upload (name, (content, d)) w =
        let (r, v) = set_with_context F J name content d w in (conflict_or_500 r, v)

    -- `AppUploadHandler`. The 500 that follows a 409 comes when the response has been written.
    unfoldable pub app_upload : UploadRequest → OnDisk Unit
    app_upload input = then_on (check_upload input) store_upload

    abbrev pub value_of : Option (Dict String) → Dict String
    value_of none = []
    value_of (some d) = d

    abbrev pub reset : Dict String → Dict String
    reset d = insert "hash" "" (insert "signature" "" d)

    abbrev pub store_update : String → Dict String → OnDisk Unit
    store_update name d w = let (r, v) = set_metadata F J name d w in (missing_or_500 r, v)

    abbrev pub update_from : String → UpdateRequest → Option (Dict String) → OnDisk Unit
    update_from name input d =
        then_on (with_fields input.signature input.hash (reset (value_of d))) (store_update name)

    abbrev pub read_update : UpdateRequest → String → OnDisk Unit
    read_update input name w =
        let (r, v) = get_metadata F J name w in
        then_on (missing_or_500 r) (update_from name input) v

    abbrev pub bound : Error ⊎ UpdateRequest → String → OnDisk Unit
    bound (inl e) name w = (abort 400 ("Invalid request body: " <> e), w)
    bound (inr input) name w = read_update input name w

    -- `AppUpdateHandler`; `input` is what `c.Bind` makes of the body.
    unfoldable pub app_update : String → Error ⊎ UpdateRequest → OnDisk Unit
    app_update name input = then_on (named "Invalid parameter 'name' (app name)" name) (bound input)

    -- `AppListHandler`
    unfoldable pub app_list : OnDisk (List String)
    app_list w = (of_result (list F J w), w)

    abbrev pub delete_named : String → OnDisk Unit
    delete_named name w = let (r, v) = delete F J name w in (missing_or_500 r, v)

    -- `AppDeleteHandler`
    unfoldable pub app_delete : String → OnDisk Unit
    app_delete name = then_on (named "Invalid parameter 'name' (app name)" name) delete_named
