-- ===== src/Worker/Controller.antt =====
-- worker/controller-etcd.go: the queue of jobs in etcd.
use statiko.Base.{
  ℕ, String, ◌<>◌, ltb, Bool, true, false, not, ◌&&◌, ◌⊎◌, inl, inr, Option, none, some, List, [],
  ◌∷◌, if◌then◌else◌,
}
use statiko.Base.Exec.{
  Error, Result, ok, err, panic, of_error, Exec, pure, fail, lift, continue, ◌>>=◌, ◌>>◌,
}
use statiko.State.Types.{Time, Bytes}
use statiko.State.Store.{StateStore}
use statiko.State.Manager.Locks.{Manager, Method}
use statiko.State.Etcd.{Etcd}
use statiko.State.StoreEtcd.{EtcdConfig, Task, of_sum}
use statiko.State.StoreEtcd.Data.{trim_prefix}
use statiko.State.Manager.Secrets.{Crypto}
use statiko.Certificates.Jobs.{JobData, create_job_id, process_job}

-- `json.Marshal` and `json.Unmarshal` of a job.
pub record JobCodec : Type 0 where
  pub marshal : JobData → Error ⊎ Bytes
  pub unmarshal : Bytes → Error ⊎ JobData

-- An event of a watcher that puts a key or, where `deletes` is set, deletes it. `revision` is
-- `ModRevision`.
pub record Event : Type 0 where
  pub key : String
  pub value : Bytes
  pub revision : ℕ
  pub is_create : Bool
  pub deletes : Bool

module _ (E : Etcd) (K : EtcdConfig) (J : JobCodec) where
  abbrev pub leader_key : String
  leader_key = K.prefix <> "/leader"

  abbrev pub jobs_prefix : String
  jobs_prefix = K.prefix <> "/jobs/"

  abbrev pub is_leader_value : Option Bytes → Bool
  is_leader_value none = false
  is_leader_value (some []) = false
  is_leader_value (some (x ∷ b)) = true

  abbrev pub get_value : String → Task E (Option Bytes)
  get_value k s = (of_sum (E.get k s).0, (E.get k s).1)

  -- `hasLeader`
  unfoldable pub has_leader : Task E Bool
  has_leader = get_value leader_key >>= λ o. pure (is_leader_value o)

  abbrev pub put_message : String → Bytes → Task E String
  put_message id b s =
      let (e, u) = E.put (jobs_prefix <> id) b s in (continue (of_error e) (λ _. pure id) u)

  -- `AddJob`, once it has been seen that there is a leader; `id` is the result of `CreateJobID`.
  unfoldable pub write_job : String → JobData → Task E String
  write_job id job = lift (of_sum (J.marshal job)) >>= put_message id

  abbrev pub when_led : String → JobData → Bool → Task E String
  when_led id job false = fail "cluster does not have a leader"
  when_led id job true = write_job id job

  -- `AddJob`
  unfoldable pub add_job : Crypto → String → JobData → Task E String
  add_job c random job = has_leader >>= when_led (create_job_id c random job) job

  -- `CompleteJob`
  unfoldable pub complete_job : String → Task E Unit
  complete_job id s = let (e, u) = E.delete (jobs_prefix <> id) s in (of_error e, u)

  -- What `WaitForJob` sends at once: an error or nil, or nothing while the job is there.
  abbrev pub sent_now : Error ⊎ Option Bytes → Option (Option Error)
  sent_now (inl e) = some (some e)
  sent_now (inr none) = some none
  sent_now (inr (some b)) = none

  unfoldable pub check_job : String → E.Server → Option (Option Error) × E.Server
  check_job id s = let (r, u) = E.get (jobs_prefix <> id) s in (sent_now r, u)

  abbrev pub has_delete : List Event → Bool
  has_delete [] = false
  has_delete (e ∷ l) = let rest = has_delete l in if e.deletes then true else rest

  abbrev pub or_later : Option (Option Error) → Bool → Option (Option Error)
  or_later later b = if b then some none else later

  -- What the watcher of `WaitForJob` sends: each answer is an error or some events.
  unfoldable pub watch_job : List (Error ⊎ List Event) → Option (Option Error)
  watch_job [] = none
  watch_job (inl e ∷ l) = some (some ("unrecoverable error from etcd watcher: " <> e))
  watch_job (inr events ∷ l) = or_later (watch_job l) (has_delete events)

  -- Jobs change the state of the manager; what they need for it is that of `process_job`.
  module _ (S : StateStore) (c : Crypto) (now : Time) (random : Error ⊎ Bytes)
      (generate_tls : List String → Result (Bytes × Bytes))
      (generate_acme : List String → Method S (Bytes × Bytes)) where
    abbrev pub Work : Type 0 → Type 0
    Work A = Exec (E.Server × Manager S) A

    abbrev pub process : JobData → Work Unit
    process job (s, m) =
        let (r, n) = process_job S c now random generate_tls generate_acme job m in (r, (s, n))

    abbrev pub on_cluster : {A : Type 0} → Task E A → Work A
    on_cluster f (s, w) = let (r, u) = f s in (r, (u, w))

    -- `receiveJob`
    unfoldable pub receive_job : String → Bytes → Work Unit
    receive_job id message = do
      job ← lift (of_sum (J.unmarshal message))
      process job
      on_cluster (complete_job id)

    -- An error is written to the log.
    abbrev pub logged : Result (Unit {0}) → Result (Unit {0})
    logged (ok x) = ok tt
    logged (err e) = ok tt
    logged panic = panic

    abbrev pub load_job : String → Bytes → Work Unit
    load_job key [] w = (ok tt, w)
    load_job key (x ∷ b) w =
        let (r, u) = receive_job (trim_prefix jobs_prefix key) (x ∷ b) w in (logged r, u)

    -- The loop over the jobs that are there at first.
    unfoldable pub load_jobs : List (String × Bytes) → Work Unit
    load_jobs [] = pure tt
    load_jobs ((key, b) ∷ l) = load_job key b >> load_jobs l

    abbrev pub process_listed :
        Error ⊎ List (String × Bytes) → E.Server → Manager S → Result ℕ × (E.Server × Manager S)
    process_listed r u w = (lift (of_sum r) >>= (λ l. load_jobs l >> pure (E.revision u))) (u, w)

    -- The first part of `listenForJobs`, with `lastJobRevision` as the result.
    unfoldable pub first_jobs : Work ℕ
    first_jobs (s, w) =
        process_listed (E.get_prefix jobs_prefix s).0 (E.get_prefix jobs_prefix s).1 w

    -- The revision is kept where the job ends with an error.
    abbrev pub after_job : ℕ → Event → Result (Unit {0}) → Result ℕ
    after_job last e (ok x) = ok e.revision
    after_job last e (err x) = ok last
    after_job last e panic = panic

    abbrev pub is_new_job : ℕ → Event → Bool
    is_new_job last e = ltb last e.revision && (e.is_create && not e.deletes)

    abbrev pub take_job : ℕ → Event → Work ℕ
    take_job last e w =
        let (r, u) = receive_job (trim_prefix jobs_prefix e.key) e.value w in
        (after_job last e r, u)

    -- The loop of the watcher over the events, with `lastJobRevision`.
    unfoldable pub watch_jobs : ℕ → List Event → Work ℕ
    watch_jobs last [] = pure last
    watch_jobs last (e ∷ l) =
        (if is_new_job last e then take_job last e else pure last) >>= λ n. watch_jobs n l
