-- ===== src/AppManager/Tests.antt =====
-- The theorems about the app manager on a small disk.
use statiko.Base.{
  ℕ, zero, suc, ◌<>◌, ◌==◌, string_dec, true, false, ◌≡◌, ◌≢◌, refl, inr, none, some, List, [], ◌∷◌,
  if◌then◌else◌,
}
use statiko.Base.Dict.{lookup, insert}
use statiko.Base.Exec.{ok, err}
use statiko.State.Types.{Bytes, SiteState}
use statiko.State.Samples.{files, manager_with, two_sites, plain_site}
use statiko.State.Manager.Sites.{string_in_slice}
use statiko.Os.{IsMissing, path_exists}
use statiko.Os.Memory.{memory, memory-IsLawful}
use statiko.AppManager.Signing.{KeyLib, CodesignConfig, load_signing_key, pem_key, parse_key}
use statiko.AppManager.Bundles.{
  BundleEnv, bytes_eq, cache_path, wanted_hash, wanted_signature, fetch_bundle, store_bundle,
  check_hash, check_signature, write_type,
}
use statiko.AppManager.Bundles.Laws.{IsVerified, fetch_bundle-IsVerified, fetch_bundle_rejected}
use statiko.AppManager.Bundles.Required.{with_key, IsSigned, fetch_bundle-IsSigned}
use statiko.AppManager.Archive.{ArchiveLib}
use statiko.AppManager.Files.{write_file_if_changed}
use statiko.AppManager.Apps.{Plan, plan_apps, no_plan}
use statiko.AppManager.Apps.Laws.{IsSound, plan_apps-IsSound}

abbrev zeros : ℕ → Bytes
zeros zero = []
zeros (suc n) = 0 ∷ zeros n

-- Bundles with a signature of the right length and a hash of zeros.
abbrev bundles : (Bytes → Bytes) → BundleEnv memory
bundles hash = record {
  Key = Unit;
  app_root = "/r/";
  key = some tt;
  sign_required = true;
  decode_base64 = λ s. inr (if s == "h" then zeros 32 else zeros 512);
  sha256 = hash;
  verify = λ k h s. none;
  to_bytes = λ s. 1 ∷ [];
  get = λ name w. ok (some (5 ∷ [], ("hash", "h") ∷ ("signature", "s") ∷ []));
}

abbrev good : BundleEnv memory
good = bundles (λ b. zeros 32)

abbrev bad : BundleEnv memory
bad = bundles (λ b. 1 ∷ zeros 31)

fetched_lem : (fetch_bundle memory good "app" []).0 ≡ ok tt
unfolding fetch_bundle wanted_hash lookup string_dec wanted_signature store_bundle check_hash
    bytes_eq check_signature write_type
fetched_lem = refl

fetch_bundle-IsVerified_example :
    IsVerified memory memory-IsLawful good "app" [] (fetch_bundle memory good "app" []).1
fetch_bundle-IsVerified_example =
    fetch_bundle-IsVerified memory memory-IsLawful good "app" [] fetched_lem

differ_lem : zeros 32 ≢ (1 ∷ zeros 31)
differ_lem e = cc

fetch_bundle_rejected_example :
    ((fetch_bundle memory bad "app" []).0 ≡ err "hash does not match")
    × IsMissing
        (memory.read_file (cache_path memory bad "app") (fetch_bundle memory bad "app" []).1)
unfolding wanted_hash wanted_signature lookup string_dec insert
fetch_bundle_rejected_example =
    fetch_bundle_rejected memory memory-IsLawful bad "app" [] (5 ∷ [])
      (("hash", "h") ∷ ("signature", "s") ∷ []) (zeros 32) (some (zeros 512)) refl refl refl refl _
      refl differ_lem refl

-- Keys are never found.
abbrev no_keys : KeyLib
no_keys = record {
  Key = Unit;
  pem_decode = λ s. some (record { kind = "PUBLIC KEY"; content = 1 ∷ [] });
  parse_pkcs1 = λ b. none;
  parse_pkix = λ b. some tt;
  to_string = λ b. "";
}

abbrev codesign : CodesignConfig
codesign = record { public_key = "-----BEGIN"; required = true }

loaded_lem : load_signing_key memory no_keys codesign [] ≡ ok (some tt)
unfolding load_signing_key parse_key pem_key string_dec
loaded_lem = refl

signed_lem :
    (fetch_bundle memory
      (with_key memory memory-IsLawful good no_keys (λ k h s. none) codesign (some tt))
      "app"
      []).0
    ≡ ok tt
unfolding fetch_bundle wanted_hash lookup string_dec wanted_signature store_bundle check_hash
    bytes_eq check_signature write_type
signed_lem = refl

fetch_bundle-IsSigned_example :
    IsSigned memory memory-IsLawful good no_keys
      (λ k h s. none)
      (some tt)
      "app"
      (fetch_bundle memory
        (with_key memory memory-IsLawful good no_keys (λ k h s. none) codesign (some tt))
        "app"
        []).1
fetch_bundle-IsSigned_example =
    fetch_bundle-IsSigned memory memory-IsLawful good no_keys (λ k h s. none) codesign [] (some tt)
      refl loaded_lem "app" [] signed_lem

-- One file in each archive.
abbrev archives : ArchiveLib
archives = record {
  to_lower = λ s. s;
  open_archive = λ t b. inr (
    record { name = some "index.html"; is_dir = false; typeflag = some 48; content = b } ∷ [],
    none,
  );
  join = λ d n. d <> "/" <> n;
  clean = λ p. p;
  parent = λ p. "/r/apps/x.tar";
}

write_lem : (write_file_if_changed memory "/f" (1 ∷ []) []).0 ≡ ok true
unfolding write_file_if_changed lookup
write_lem = refl

-- Two sites with the same app.
abbrev app_sites : List SiteState
app_sites =
    record (plain_site "a.example" []) { app = some (record { name = "x.tar" }) }
    ∷ record (plain_site "b.example" []) { app = some (record { name = "x.tar" }) }
    ∷ []

abbrev one_job : Plan
one_job = record {
  jobs = ("a.example", "x.tar") ∷ [];
  expect = "_default" ∷ "x.tar" ∷ "x.tar" ∷ [];
  indexes = ("x.tar", 1) ∷ [];
}

planned_lem :
    (plan_apps files memory "/r/" app_sites 0 no_plan (manager_with two_sites, [])).0 ≡ ok one_job
unfolding plan_apps path_exists lookup string_in_slice insert string_dec
planned_lem = refl

plan_apps-IsSound_example : IsSound ("_default" ∷ "x.tar" ∷ "x.tar" ∷ []) one_job
plan_apps-IsSound_example =
    plan_apps-IsSound files memory "/r/" app_sites (manager_with two_sites, []) one_job planned_lem
