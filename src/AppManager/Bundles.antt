-- ===== src/AppManager/Bundles.antt =====
-- appmanager/appmanager.go: fetching the bundle of an app into the cache. The repository of
-- bundles, base64, SHA-256 and RSA are parameters.
pub mod Laws
pub mod Required
use statiko.Base.{
  ℕ, String, ◌<>◌, ◌==◌, nat_eq, Bool, true, false, ◌&&◌, ◌⊎◌, inl, inr, Option, none, some, List,
  [], ◌∷◌, length, if◌then◌else◌,
}
use statiko.Base.Dict.{Dict, lookup}
use statiko.Base.Exec.{Error, Result, ok, err, panic, of_error}
use statiko.State.Types.{Bytes}
use statiko.Os.{FileSystem, Io}

-- `bytes.Compare(a, b) == 0`
unfoldable pub bytes_eq : Bytes → Bytes → Bool
bytes_eq [] [] = true
bytes_eq [] (y ∷ b) = false
bytes_eq (x ∷ a) [] = false
bytes_eq (x ∷ a) (y ∷ b) = nat_eq x y && bytes_eq a b

-- `key` is what `LoadSigningKey` has left, and `verify` is `rsa.VerifyPKCS1v15`. `get` is `Get` of
-- `fs.Instance`: a bundle with its metadata, if there is one.
pub record BundleEnv (F : FileSystem) : Type 1 where
  pub Key : Type 0
  pub app_root : String
  pub key : Option Key
  pub sign_required : Bool
  pub decode_base64 : String → Error ⊎ Bytes
  pub sha256 : Bytes → Bytes
  pub verify : Key → Bytes → Bytes → Option Error
  pub to_bytes : String → Bytes
  pub get : String → F.World → Result (Option (Bytes × Dict String))

-- A value of a fixed length, or no value.
abbrev pub of_length : ℕ → Error ⊎ Bytes → Result (Option Bytes)
of_length n (inl e) = err e
of_length n (inr b) = if nat_eq (length b) n then ok (some b) else ok none

module _ (F : FileSystem) (E : BundleEnv F) where
  abbrev pub cache_path : String → String
  cache_path bundle = E.app_root <> "cache/" <> bundle

  abbrev pub type_path : String → String
  type_path bundle = E.app_root <> "cache/.type." <> bundle

  abbrev pub decode_entry : ℕ → Option String → Result (Option Bytes)
  decode_entry n none = ok none
  decode_entry n (some s) = if s == "" then ok none else of_length n (E.decode_base64 s)

  -- The hash in the metadata.
  unfoldable pub wanted_hash : Dict String → Result (Option Bytes)
  wanted_hash meta = decode_entry 32 (lookup "hash" meta)

  abbrev pub signature_for : Option E.Key → Dict String → Result (Option Bytes)
  signature_for none meta = ok none
  signature_for (some k) meta = decode_entry 512 (lookup "signature" meta)

  -- The signature in the metadata, which is left aside without a key.
  unfoldable pub wanted_signature : Dict String → Result (Option Bytes)
  wanted_signature meta = signature_for E.key meta

  unfoldable pub check_hash : Option Bytes → Bytes → Result (Unit {0})
  check_hash none hashed = ok tt
  check_hash (some h) hashed = if bytes_eq h hashed then ok tt else err "hash does not match"

  unfoldable pub check_signature : Option E.Key → Option Bytes → Bytes → Result (Unit {0})
  check_signature k none hashed = ok tt
  check_signature none (some s) hashed = panic
  check_signature (some k) (some s) hashed = of_error (E.verify k hashed s)

  -- The deferred function of `FetchBundle`, with `deleteFile` set.
  abbrev pub delete_and : String → Result (Unit {0}) → Io F Unit
  delete_and bundle r w = (r, (F.remove (cache_path bundle) w).1)

  abbrev pub typed : String → Option Error × F.World → Result (Unit {0}) × F.World
  typed bundle (none, w) = (ok tt, w)
  typed bundle (some e, w) = delete_and bundle (err e) w

  -- "Write the file type to disk"
  unfoldable pub write_type : String → Option String → Io F Unit
  write_type bundle none w = (ok tt, w)
  write_type bundle (some t) w =
      if t == ""
      then (ok tt, w)
      else typed bundle (F.write_file (type_path bundle) (E.to_bytes t) w)

  abbrev pub after_signature : String → Dict String → Result (Unit {0}) → Io F Unit
  after_signature bundle meta (ok x) w = write_type bundle (lookup "type" meta) w
  after_signature bundle meta (err e) w = delete_and bundle (err e) w
  after_signature bundle meta panic w = (panic, w)

  abbrev pub after_hash :
      String → Dict String → Option Bytes → Bytes → Result (Unit {0}) → Io F Unit
  after_hash bundle meta sign hashed (ok x) w =
      after_signature bundle meta (check_signature E.key sign hashed) w
  after_hash bundle meta sign hashed (err e) w = delete_and bundle (err e) w
  after_hash bundle meta sign hashed panic w = (panic, w)

  -- What follows the copy of the stream. A copy that fails leaves its file.
  abbrev pub written :
      String
      → Bytes × Dict String
      → Option Bytes
      → Option Bytes
      → Option Error × F.World
      → Result (Unit {0}) × F.World
  written bundle (b, meta) hash sign (some e, w) = (err e, w)
  written bundle (b, meta) hash sign (none, w) =
      after_hash bundle meta sign (E.sha256 b) (check_hash hash (E.sha256 b)) w

  abbrev pub has_none : Option Bytes → Bool
  has_none none = true
  has_none (some s) = false

  abbrev pub unless_refused :
      String → Bytes × Dict String → Option Bytes → Option Bytes → Bool → Io F Unit
  unless_refused bundle got hash sign true w = (
    err
        "Bundle does not have a signature, but unsigned apps are not allowed by this node's configuration",
    w,
  )
  unless_refused bundle (b, meta) hash sign false w =
      written bundle (b, meta) hash sign (F.write_file (cache_path bundle) b w)

  unfoldable pub store_bundle :
      String → Bytes × Dict String → Option Bytes → Option Bytes → Io F Unit
  store_bundle bundle got hash sign w =
      unless_refused bundle got hash sign (has_none sign && E.sign_required) w

  abbrev pub with_signature :
      String → Bytes × Dict String → Option Bytes → Result (Option Bytes) → Io F Unit
  with_signature bundle got hash (ok sign) w = store_bundle bundle got hash sign w
  with_signature bundle got hash (err e) w = (err e, w)
  with_signature bundle got hash panic w = (panic, w)

  abbrev pub with_hash : String → Bytes × Dict String → Result (Option Bytes) → Io F Unit
  with_hash bundle (b, meta) (ok hash) w =
      with_signature bundle (b, meta) hash (wanted_signature meta) w
  with_hash bundle got (err e) w = (err e, w)
  with_hash bundle got panic w = (panic, w)

  abbrev pub with_bundle : String → Result (Option (Bytes × Dict String)) → Io F Unit
  with_bundle bundle (ok none) w = (err "bundle not found in store", w)
  with_bundle bundle (ok (some (b, meta))) w = with_hash bundle (b, meta) (wanted_hash meta) w
  with_bundle bundle (err e) w = (err e, w)
  with_bundle bundle panic w = (panic, w)

  -- `FetchBundle`
  unfoldable pub fetch_bundle : String → Io F Unit
  fetch_bundle bundle w = with_bundle bundle (E.get bundle w) w
