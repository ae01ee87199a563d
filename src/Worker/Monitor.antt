-- ===== src/Worker/Monitor.antt =====
-- worker/cert-monitor.go: which certificates are renewed and which notifications are sent.
use statiko.Base.{
  ℕ, suc, ◌+◌, ◌*◌, String, ◌<>◌, ◌==◌, ltb, Bool, true, false, ◌||◌, ◌&&◌, ◌⊎◌, inl, inr, Option,
  none, some, List, [], ◌∷◌, ◌++◌, ◌≤◌, ◌≡◌, refl, arith, Bool-cases, length, if◌then◌else◌,
}
use statiko.Base.Dict.{Dict, lookup, insert, lookup-insert}
use statiko.Base.Exec.{Result, ok, err, panic, Exec, continue, ◌>>=◌}
use statiko.State.Types.{
  Time, Bytes, SiteState, SiteTls, tls_imported, tls_azure_key_vault, tls_self_signed, tls_acme,
}
use statiko.State.Store.{StateStore}
use statiko.State.Manager.Locks.{Manager, Method}
use statiko.State.Manager.Sites.{get_sites}
use statiko.State.Manager.Certificates.{join}
use statiko.Os.{OsError, FileSystem}
use statiko.Certificates.{X509, CertLib, site_names}
use statiko.Certificates.Jobs.{JobData, job_tls_certificate, job_acme}

-- A limit in days: so many days ago, or in so many days.
pub data Check : Type 0 where
  ago : ℕ → Check
  ahead : ℕ → Check

-- `certMonitorChecks`
abbrev pub checks : List Check
checks = ago 2 ∷ ago 1 ∷ ahead 0 ∷ ahead 1 ∷ ahead 2 ∷ ahead 3 ∷ ahead 7 ∷ ahead 14 ∷ ahead 30 ∷ []

abbrev pub day : ℕ
day = 86400

-- `exp.Before` of now plus so many days
unfoldable pub is_before : Time → Time → Check → Bool
is_before now exp (ago d) = ltb (exp + d * day) now
is_before now exp (ahead d) = ltb exp (now + d * day)

-- The loop over the limits, from an index on: the index of the notification that is sent, if any.
unfoldable pub notification : Time → Time → ℕ → List Check → ℕ → Option ℕ
notification now exp sent [] i = none
notification now exp sent (c ∷ l) i =
    let rest = notification now exp sent l (suc i) in
    if is_before now exp c && ltb i sent then some i else rest

-- The notifications that have been sent last, by their index, for each site.
abbrev pub Sent : Type 0
Sent = Dict ℕ

abbrev sent_before : Option ℕ → ℕ
sent_before none = length checks
sent_before (some i) = i

-- Sites and indexes of the notifications that are sent.
abbrev pub Log : Type 0
Log = List (String × ℕ)

abbrev noted : String → Option ℕ → Sent → Sent × Log
noted domain none sent = (sent, [])
noted domain (some i) sent = (insert domain i sent, (domain, i) ∷ [])

-- What is done for an imported certificate.
unfoldable pub notify : Time → String → Time → Sent → Sent × Log
notify now domain exp sent =
    noted domain (notification now exp (sent_before (lookup domain sent)) checks 0) sent

-- From an index on that is not below that of the last notification, none is sent.
nothing_from :
    (now exp sent : ℕ) (l : List Check) (i : ℕ) → sent ≤ i → notification now exp sent l i ≡ none
unfolding notification
nothing_from now exp sent [] i h = refl
nothing_from now exp sent (c ∷ l) i h =
    ground (arith, h, nothing_from now exp sent l (suc i) (omega (arith, h)))

nothing_again :
    (now exp sent : ℕ) (l : List Check) (i n : ℕ)
    → notification now exp sent l i ≡ some n
    → notification now exp n l i ≡ none
unfolding notification
nothing_again now exp sent [] i n h = absurd cc
nothing_again now exp sent (c ∷ l) i n h = elim (Bool-cases (is_before now exp c)) [
  | inl due ↦ elim (Bool-cases (ltb i sent)) [
    | inl fresh ↦
        let same : i ≡ n = ground (arith, due, fresh, h) in
        ground (arith, due, same, nothing_from now exp n l (suc i) (omega (arith, same)))
    | inr old ↦
        absurd
          (ground (arith, due, old, h, nothing_from now exp sent l (suc i) (ground (arith, old))))
  ]
  | inr early ↦
      ground (arith, early, nothing_again now exp sent l (suc i) n (ground (arith, early, h)))
]

-- When the certificate is looked at again at the same time, no second notification is sent.
pub notify_twice :
    (now exp : Time) (domain : String) (sent : Sent)
    → (notify now domain exp (notify now domain exp sent).0).1 ≡ []
unfolding notify
notify_twice now exp domain sent =
    choose (notification now exp (sent_before (lookup domain sent)) checks 0) refl
  where
    choose :
        (o : Option ℕ)
        → notification now exp (sent_before (lookup domain sent)) checks 0 ≡ o
        → (noted domain
            (notification now exp (sent_before (lookup domain (noted domain o sent).0)) checks 0)
            (noted domain o sent).0).1
          ≡ []
    choose none e = rw e refl
    choose (some i) e =
        rw (found i, nothing_again now exp (sent_before (lookup domain sent)) checks 0 i e) refl
      where
        found : (n : ℕ) → lookup domain (insert domain n sent) ≡ some n
        found n = ground (arith, lookup-insert domain domain n sent)

abbrev pub is_issued_by : String → List String → Bool
is_issued_by name [] = false
is_issued_by name (x ∷ l) = x == name

-- The job that renews the certificate of a site, if it is needed.
unfoldable pub renewal : Time → SiteState → String → X509 → Option JobData
renewal now s kind cert =
    if kind == tls_self_signed
    then (if ltb cert.not_after (now + 14 * day)
        then some (record { kind = job_tls_certificate; content = join (site_names s) })
        else none)
    else if kind == tls_acme
    then (if ltb cert.not_after (now + 21 * day)
          || is_issued_by "statiko self-signed" cert.issuer_organization
        then some (record { kind = job_acme; content = join (site_names s) })
        else none)
    else none

abbrev is_external : String → Bool
is_external kind = kind == tls_imported || kind == tls_azure_key_vault

-- `perform` is `AddJob` followed by `WaitForJob`.
module _ (S : StateStore) (F : FileSystem) (X : CertLib) (app_root : String) (now : Time)
    (perform : JobData → Method S Unit) where
  -- The certificate on the disk; `none` for one that is not there.
  abbrev parse : Option Bytes → Result (Option X509)
  parse none = err "Could not parse PEM data"
  parse (some b) = elim (X.parse_certificate b) [ inl e ↦ err e | inr x ↦ ok (some x) ]

  unfoldable pub read_certificate : OsError ⊎ Bytes → Result (Option X509)
  read_certificate (inl e) = if e.is_not_exist then ok none else err e.text
  read_certificate (inr b) = parse (X.pem_decode b)

  -- The manager, the notifications sent and their log.
  abbrev pub Memory : Type 0
  Memory = Manager S × (Sent × Log)

  abbrev pub Task : Type 0 → Type 0
  Task A = Exec Memory A

  abbrev renewed : Bool → Option JobData → Task Bool
  renewed b none t = (ok b, t)
  renewed b (some j) (m, x) =
      let (r, k) = perform j m in
      (elim r [ ok u ↦ ok true | err e ↦ err e | panic ↦ panic ], (k, x))

  abbrev inspect : SiteState → String → Bool → Option X509 → Task Bool
  inspect s kind b none t = (ok b, t)
  inspect s kind b (some cert) (m, (sent, log)) =
      if is_external kind
      then (let (sent', new) = notify now s.domain cert.not_after sent in
          (ok b, (m, (sent', log ++ new))))
      else renewed b (renewal now s kind cert) (m, (sent, log))

  abbrev check_tls : F.World → SiteState → Option SiteTls → Bool → Task Bool
  check_tls w s none b t = (ok b, t)
  check_tls w s (some c) b t =
      if c.kind == ""
      then (ok b, t)
      else continue
          (read_certificate
            (F.read_file (app_root <> "sites/" <> s.domain <> "/tls/certificate.pem") w))
          (inspect s c.kind b) t

  -- The loop over the sites: whether a synchronization is needed.
  unfoldable pub check_sites : F.World → List SiteState → Bool → Task Bool
  check_sites w [] b t = (ok b, t)
  check_sites w (s ∷ l) b t = (check_tls w s s.tls b >>= check_sites w l) t

  -- `certMonitorWorker`, once no synchronization is running: whether one is queued.
  unfoldable pub cert_monitor_worker : F.World → Task Bool
  cert_monitor_worker w t = check_sites w (get_sites S t.0) false t
