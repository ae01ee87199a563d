-- ===== src/AppManager/Bundles/Required.antt =====
-- Where the configuration requires signatures, nothing unsigned gets into the cache.
use statiko.Base.{String, true, ◌≡◌, ◌≢◌, refl, inr, Option, none, some}
use statiko.Base.Exec.{Error, ok}
use statiko.State.Types.{Bytes}
use statiko.Os.{FileSystem, IsLawful}
use statiko.AppManager.Signing.{KeyLib, CodesignConfig, load_signing_key}
use statiko.AppManager.Bundles.{BundleEnv, cache_path, fetch_bundle}
use statiko.AppManager.Bundles.Laws.{fetch_bundle-IsVerified}

module _ (F : FileSystem) (L : IsLawful F) (E : BundleEnv F) (K : KeyLib)
    (verify : K.Key → Bytes → Bytes → Option Error) where
  -- What `FetchBundle` uses once `LoadSigningKey` has left a key.
  abbrev pub with_key : CodesignConfig → Option K.Key → BundleEnv F
  with_key c k = record {
    Key = K.Key;
    app_root = E.app_root;
    key = k;
    sign_required = c.required;
    decode_base64 = E.decode_base64;
    sha256 = E.sha256;
    verify = verify;
    to_bytes = E.to_bytes;
    get = E.get;
  }

  -- A file in the cache that the key has signed.
  pub record IsSigned (key : Option K.Key) (bundle : String) (w : F.World) : Type 0 where
    content : Bytes
    cached : F.read_file (cache_path F E bundle) w ≡ inr content
    k : K.Key
    loaded : key ≡ some k
    signature : Bytes
    valid : verify k (E.sha256 content) signature ≡ none

  some_lem : {A : Type 0} → (o : Option A) → o ≢ none → (x : A) × (o ≡ some x)
  some_lem none h = absurd (h refl)
  some_lem (some x) h = (x, refl)

  -- If `codesign.required` is set, `LoadSigningKey` has returned no error and `FetchBundle` returns
  -- nil, then the file in the cache has a signature by the key that was loaded.
  pub fetch_bundle-IsSigned :
      (c : CodesignConfig) (w : F.World) (key : Option K.Key)
      → c.required ≡ true
      → load_signing_key F K c w ≡ ok key
      → (bundle : String) (v : F.World) → (fetch_bundle F (with_key c key) bundle v).0 ≡ ok tt
      → IsSigned key bundle (fetch_bundle F (with_key c key) bundle v).1
  fetch_bundle-IsSigned c w key required loaded bundle v h =
      let verified = fetch_bundle-IsVerified F L (with_key c key) bundle v h in
      let (s, found) = some_lem verified.signature (verified.present required) in
      let (k, same, valid) = verified.signed s found in
      record {
        content = verified.content;
        cached = verified.cached;
        k = k;
        loaded = same;
        signature = s;
        valid = valid;
      }
