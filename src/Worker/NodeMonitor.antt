-- ===== src/Worker/NodeMonitor.antt =====
-- worker/node-cert-monitor.go: the renewal of the certificate of the API server.
use statiko.Base.{
  ◌+◌, ◌*◌, String, ◌<>◌, ltb, Bool, true, false, ◌||◌, ◌⊎◌, inl, inr, Option, none, some, List, [],
  ◌∷◌, if◌then◌else◌,
}
use statiko.Base.Exec.{Error, Result, ok, err, panic}
use statiko.State.Types.{Time, Bytes}
use statiko.State.Store.{StateStore}
use statiko.State.Manager.Locks.{Method}
use statiko.Os.{OsError, FileSystem}
use statiko.Certificates.{X509, CertLib}
use statiko.Certificates.Jobs.{JobData, job_tls_certificate, job_acme}
use statiko.Worker.Monitor.{day, is_issued_by}

-- What the worker decides: a job, after which a synchronization is queued, a notification, after
-- which the worker stops, or nothing.
pub data Decision : Type 0 where
  renew : JobData → Decision
  warn : Decision
  leave : Decision

-- Whether the worker stops, whether a synchronization has been queued, and the notifications.
pub record Outcome : Type 0 where
  pub stop : Bool
  pub queued : Bool
  pub notifications : List String

-- `acme` is the option `tls.node.acme`, `address` is `utils.NodeAddress`.
unfoldable pub decide : Time → Bool → String → X509 → Decision
decide now acme address cert =
    let self_signed = is_issued_by "statiko self-signed" cert.issuer_organization in
    if acme
    then (if ltb cert.not_after (now + 21 * day) || self_signed
        then renew (record { kind = job_acme; content = address })
        else leave)
    else if self_signed
    then (if ltb cert.not_after (now + 14 * day)
        then renew (record { kind = job_tls_certificate; content = address })
        else leave)
    else if ltb cert.not_after now
    then warn
    else leave

module _ (S : StateStore) (F : FileSystem) (X : CertLib) (app_root : String) (now : Time)
    (acme : Bool) (address node_name : String) (perform : JobData → Method S Unit) where
  abbrev after_job : Result (Unit {0}) → Result Outcome
  after_job (ok x) = ok (record { stop = false; queued = true; notifications = [] })
  after_job (err e) = err e
  after_job panic = panic

  unfoldable pub act : Decision → Method S Outcome
  act (renew j) m = let (r, k) = perform j m in (after_job r, k)
  act warn m = (
    ok (record {
      stop = true;
      queued = false;
      notifications = ("TLS certificate has expired for node " <> node_name) ∷ [];
    }),
    m,
  )
  act leave m = (ok (record { stop = false; queued = false; notifications = [] }), m)

  abbrev parsed : Error ⊎ X509 → Method S Outcome
  parsed (inl e) m = (err e, m)
  parsed (inr x) m = act (decide now acme address x) m

  abbrev decoded : Option Bytes → Method S Outcome
  decoded none m = (err "Could not parse PEM data", m)
  decoded (some b) m = parsed (X.parse_certificate b) m

  abbrev contents : OsError ⊎ Bytes → Method S Outcome
  contents (inl e) m = (err e.text, m)
  contents (inr b) m = decoded (X.pem_decode b) m

  -- `nodeCertMonitorWorker`
  unfoldable pub node_cert_monitor_worker : F.World → Method S Outcome
  node_cert_monitor_worker w = contents (F.read_file (app_root <> "misc/node.cert.pem") w)
