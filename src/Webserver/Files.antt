-- ===== src/Webserver/Files.antt =====
-- webserver/nginx.go: the files that the web server should have, those that it has, and how the
-- second are made into the first.
pub mod Laws
use Prim.Native.String
use Prim.Native.String.{len}
use text.Mathlib.Text.{starts_with}
use statiko.Base.{
  ℕ, ◌-◌, String, ◌<>◌, ◌==◌, Bool, true, false, not, ◌&&◌, ◌||◌, ◌⊎◌, inl, inr, Option, none, some,
  List, [], ◌∷◌, if◌then◌else◌,
}
use statiko.Base.Dict.{Dict, lookup, insert}
use statiko.Base.Exec.{Error, Result, ok, err, panic, pure, continue, ◌>>=◌, ◌>>◌}
use statiko.State.Types.{Bytes, SiteState}
use statiko.State.Store.{StateStore}
use statiko.State.Manager.Status.{get_site_health}
use statiko.Os.{OsError, FileSystem, Io, run, ensure_folder}
use statiko.AppManager.Bundles.{bytes_eq}
use statiko.AppManager.Local.{Local, Act, on_world, set_health}
use statiko.Webserver.Manifest.{TextLib, AppManifest, empty_manifest, validate_manifest}
use statiko.Webserver.Server.{Shell, config_test}

-- `execute_template` is the template of that name, for a site with its manifest or for none.
-- `manifest` is what has been found for the app of a site. The files of a map are visited in any
-- order, here that of `visit`.
pub record NginxLib : Type 0 where
  pub config_path : String
  pub execute_template : String → Option (SiteState × AppManifest) → Error ⊎ Bytes
  pub manifest : SiteState → Option AppManifest
  pub visit : Dict Bytes → List (String × Bytes)

abbrev pub default_key : String
default_key = "conf.d/_default.conf"

abbrev pub site_key : String → String
site_key domain = "conf.d/" <> domain <> ".conf"

-- An empty buffer is nil.
abbrev pub valid_file : String → Error ⊎ Bytes → Result Bytes
valid_file key (inl e) = err e
valid_file key (inr []) = err ("Invalid configuration generated for file " <> key)
valid_file key (inr (x ∷ b)) = ok (x ∷ b)

module _ (X : TextLib) (N : NginxLib) where
  abbrev pub manifest_or_empty : Option AppManifest → AppManifest
  manifest_or_empty none = empty_manifest
  manifest_or_empty (some a) = a

  abbrev pub for_site : SiteState → Result AppManifest → Result Bytes
  for_site s (ok a) = valid_file (site_key s.domain) (N.execute_template "site.conf" (some (s, a)))
  for_site s (err e) = err e
  for_site s panic = panic

  -- `createConfigurationFile` of a site
  unfoldable pub create_configuration_file : SiteState → Result Bytes
  create_configuration_file s = for_site s (validate_manifest X (manifest_or_empty (N.manifest s)))

module _ (S : StateStore) (F : FileSystem) (C : Shell F) (X : TextLib) (N : NginxLib) where
  abbrev pub put : Dict Bytes → String → Result Bytes → Result (Dict Bytes)
  put d key (ok b) = ok (insert key b d)
  put d key (err e) = err e
  put d key panic = panic

  abbrev pub template : String → String → Dict Bytes → Act S F (Dict Bytes)
  template name key d t = (put d key (valid_file key (N.execute_template name none)), t)

  abbrev pub configure_unless : SiteState → Dict Bytes → Option Error → Result (Dict Bytes)
  configure_unless s d none = put d (site_key s.domain) (create_configuration_file X N s)
  configure_unless s d (some e) = ok d

  abbrev pub configure_site : SiteState → Dict Bytes → Act S F (Dict Bytes)
  configure_site s d t = (configure_unless s d (get_site_health S s.domain t.0), t)

  unfoldable pub configure_sites : List SiteState → Dict Bytes → Act S F (Dict Bytes)
  configure_sites [] d t = (ok d, t)
  configure_sites (s ∷ l) d t = (configure_site s d >>= configure_sites l) t

  -- `DesiredConfiguration`
  unfoldable pub desired_configuration : List SiteState → Act S F (Dict Bytes)
  desired_configuration sites = do
    a ← template "nginx.conf" "nginx.conf" []
    b ← template "mime.types" "mime.types" a
    d ← template "default-site.conf" default_key b
    configure_sites sites d

  -- The files that are there, where `none` is one that is expected, and whether any was removed.
  abbrev pub Existing : Type 0
  Existing = Dict (Option Bytes) × Bool

  abbrev pub path_of : String → String
  path_of key = N.config_path <> key

  abbrev pub read_key : String → Existing → Io F Existing
  read_key key (d, u) w = (
    elim (F.read_file (path_of key) w) [
      | inl e ↦ err e.text
      | inr b ↦ ok (insert key (some b) d, u)
    ],
    w,
  )

  abbrev pub drop_folder : String → Existing → Io F Existing
  drop_folder key (d, u) = run F (F.remove_all (path_of key)) >> (λ w. (ok (d, true), w))

  abbrev pub drop_key : String → Existing → Io F Existing
  drop_key key (d, u) w =
      let (e, v) = F.remove (path_of key) w in
      (elim e [ none ↦ ok (d, true) | some x ↦ err x.text ], v)

  abbrev pub scan_root_entry : String × Bool → Existing → Io F Existing
  scan_root_entry (name, true) x = if name == "conf.d" then (λ w. (ok x, w)) else drop_folder name x
  scan_root_entry (name, false) x =
      if name == "nginx.conf" || name == "mime.types" then read_key name x else drop_key name x

  abbrev pub is_expected : String → Existing → Bool
  is_expected key (d, u) = elim (lookup key d) [ none ↦ false | some x ↦ true ]

  abbrev pub scan_site_entry : String × Bool → Existing → Io F Existing
  scan_site_entry (name, true) x = drop_folder ("conf.d/" <> name) x
  scan_site_entry (name, false) x =
      if is_expected ("conf.d/" <> name) x
      then read_key ("conf.d/" <> name) x
      else drop_key ("conf.d/" <> name) x

  -- The loops over the two folders.
  unfoldable pub scan_entries :
      (String × Bool → Existing → Io F Existing) → List (String × Bool) → Existing → Io F Existing
  scan_entries f [] x w = (ok x, w)
  scan_entries f (p ∷ l) x w = (f p x >>= scan_entries f l) w

  abbrev pub listed :
      (String × Bool → Existing → Io F Existing)
      → Error ⊎ List (String × Bool)
      → Existing
      → Io F Existing
  listed f (inl e) x w = (err e, w)
  listed f (inr l) x w = scan_entries f l x w

  abbrev pub scan_folder :
      (String × Bool → Existing → Io F Existing) → String → Existing → Io F Existing
  scan_folder f path x w = listed f (F.read_dir path w) x w

  abbrev pub expect_unless : String → Dict (Option Bytes) → Option Error → Dict (Option Bytes)
  expect_unless domain d none = insert (site_key domain) none d
  expect_unless domain d (some e) = d

  -- The files that the folder of the sites should have.
  unfoldable pub expect_sites : List SiteState → Dict (Option Bytes) → Act S F (Dict (Option Bytes))
  expect_sites [] d t = (ok d, t)
  expect_sites (s ∷ l) d t =
      expect_sites l (expect_unless s.domain d (get_site_health S s.domain t.0)) t

  -- `ExistingConfiguration`
  unfoldable pub existing_configuration : List SiteState → Act S F Existing
  existing_configuration sites = do
    x ← on_world S F (scan_folder scan_root_entry N.config_path ([], false))
    d ← expect_sites sites (insert default_key none x.0)
    on_world S F (scan_folder scan_site_entry (path_of "conf.d") (d, x.1))

  abbrev pub marked : String → List SiteState → Act S F Unit
  marked site [] t = (ok tt, t)
  marked site (s ∷ l) t =
      let rest = marked site l t in
      if s.domain == site
      then set_health S F s.domain (some "invalid nginx configuration - check manifest") t
      else rest

  abbrev pub remove_key : String → Io F Unit
  remove_key key w =
      let (e, v) = F.remove (path_of key) w in (elim e [ none ↦ ok tt | some x ↦ err x.text ], v)

  -- A file of a site that the test has refused is removed.
  abbrev pub keep_or_remove : List SiteState → String → Bool → Act S F Unit
  keep_or_remove sites key true t = (ok tt, t)
  keep_or_remove sites key false t =
      (marked (String.slice key 7 (len key - 5)) sites >> on_world S F (remove_key key)) t

  abbrev pub is_site_key : String → Bool
  is_site_key key = starts_with key "conf.d/" && not (key == default_key)

  abbrev pub test_key : List SiteState → String → Act S F Unit
  test_key sites key t =
      if is_site_key key
      then (on_world S F (config_test F C) >>= keep_or_remove sites key) t
      else (ok tt, t)

  abbrev pub write_key : List SiteState → String → Bytes → Act S F Bool
  write_key sites key b = do
    on_world S F (run F (F.write_file (path_of key) b))
    test_key sites key
    pure true

  abbrev pub sync_key : List SiteState → String → Bytes → Option (Option Bytes) → Act S F Bool
  sync_key sites key b none = write_key sites key b
  sync_key sites key b (some none) = write_key sites key b
  sync_key sites key b (some (some old)) =
      if bytes_eq b old then pure false else write_key sites key b

  abbrev pub go_on : (Bool → Act S F Bool) → Bool → Bool → Act S F Bool
  go_on f u b = f (u || b)

  -- The loop over the desired files.
  unfoldable pub sync_files :
      List SiteState → Dict (Option Bytes) → List (String × Bytes) → Bool → Act S F Bool
  sync_files sites existing [] u t = (ok u, t)
  sync_files sites existing ((key, b) ∷ l) u t =
      (sync_key sites key b (lookup key existing) >>= go_on (sync_files sites existing l) u) t

  -- `SyncConfiguration`
  unfoldable pub sync_configuration : List SiteState → Act S F Bool
  sync_configuration sites = do
    desired ← desired_configuration sites
    on_world S F (ensure_folder F N.config_path)
    on_world S F (ensure_folder F (path_of "conf.d"))
    x ← existing_configuration sites
    sync_files sites x.0 (N.visit desired) x.1
