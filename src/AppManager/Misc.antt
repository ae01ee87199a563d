-- ===== src/AppManager/Misc.antt =====
-- appmanager/appmanager.go: the DH parameters and the certificate of the node itself.
use statiko.Base.{
  String, ◌<>◌, ◌==◌, Bool, false, ◌||◌, ◌⊎◌, inl, inr, Option, none, some, [], if◌then◌else◌,
}
use statiko.Base.Exec.{Result, ok, err, panic, pure, ◌>>=◌}
use statiko.State.Types.{Bytes, SiteState, tls_self_signed, tls_acme}
use statiko.State.Store.{StateStore}
use statiko.State.Manager.Locks.{Method}
use statiko.State.Manager.Status.{get_dhparams}
use statiko.Os.{OsError, FileSystem}
use statiko.AppManager.Files.{write_file_if_changed}
use statiko.AppManager.Local.{Act, on_world, on_manager}

-- The options below `tls.node`; `address` is `utils.NodeAddress`.
pub record NodeTls : Type 0 where
  pub enabled : Bool
  pub certificate : String
  pub key : String
  pub acme : Bool
  pub address : String

-- The site that stands for the node.
unfoldable pub node_site : NodeTls → SiteState
node_site c = record {
  domain = c.address;
  aliases = [];
  temporary = false;
  tls = some (record {
    kind = if c.acme then tls_acme else tls_self_signed;
    certificate = none;
    version = none;
  });
  app = none;
}

module _ (S : StateStore) (F : FileSystem) (app_root default : String) (to_bytes : String → Bytes)
    (get_certificate : SiteState → Method S (Bytes × Bytes)) (c : NodeTls) where
  abbrev pub with_key : Bytes → OsError ⊎ Bytes → Result (Option (Bytes × Bytes))
  with_key cert (inl e) = if e.is_not_exist then ok none else err e.text
  with_key cert (inr key) = ok (some (key, cert))

  abbrev pub with_cert : F.World → OsError ⊎ Bytes → Result (Option (Bytes × Bytes))
  with_cert w (inl e) = if e.is_not_exist then ok none else err e.text
  with_cert w (inr cert) = with_key cert (F.read_file c.key w)

  -- The key and the certificate in the files of the configuration, if both are there.
  unfoldable pub configured_pair : F.World → Result (Option (Bytes × Bytes))
  configured_pair w =
      if c.certificate == "" || c.key == ""
      then ok none
      else with_cert w (F.read_file c.certificate w)

  abbrev pub told : {A : Type 0} → Result A → Result A
  told (ok a) = ok a
  told (err e) = err ("error while obtaining certificate for node manager: " <> e)
  told panic = panic

  abbrev pub or_obtain : Option (Bytes × Bytes) → Act S F (Bytes × Bytes)
  or_obtain (some p) s = (ok p, s)
  or_obtain none s = let (r, t) = on_manager S F (get_certificate (node_site c)) s in (told r, t)

  abbrev pub read_pair : Act S F (Option (Bytes × Bytes))
  read_pair (m, w) = (configured_pair w, (m, w))

  abbrev pub write_pair : Bytes × Bytes → Act S F Bool
  write_pair (key, cert) = do
    a ← on_world S F (write_file_if_changed F (app_root <> "misc/node.cert.pem") cert)
    b ← on_world S F (write_file_if_changed F (app_root <> "misc/node.key.pem") key)
    pure (a || b)

  -- The certificate of the node: whether the API server is to be restarted.
  unfoldable pub sync_node_tls : Act S F Bool
  sync_node_tls =
      if c.enabled then (do o ← read_pair; p ← or_obtain o; write_pair p) else pure false

  -- `SyncMiscFiles`
  unfoldable pub sync_misc_files : Act S F (Bool × Bool)
  sync_misc_files = do
    p ← on_manager S F (get_dhparams S default)
    u ← on_world S F (write_file_if_changed F (app_root <> "misc/dhparams.pem") (to_bytes p.0))
    r ← sync_node_tls
    pure (u || r, r)
