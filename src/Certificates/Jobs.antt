-- ===== src/Certificates/Jobs.antt =====
-- worker/processor.go and utils/jobs.go: the jobs that make certificates.
use Prim.Native.Char.{code}
use Prim.Native.String
use statiko.Base.{String, ◌<>◌, ◌==◌, nat_eq, ◌⊎◌, List, [], ◌∷◌, if◌then◌else◌}
use statiko.Base.Exec.{Error, Result, fail, ◌>>=◌, ◌>>◌}
use statiko.State.Types.{Time, Bytes, tls_self_signed, tls_acme}
use statiko.State.Store.{StateStore}
use statiko.State.Manager.Locks.{Method}
use statiko.State.Manager.Secrets.{Crypto}
use statiko.State.Manager.Certificates.{set_certificate, remove_certificate}

pub record JobData : Type 0 where
  pub kind : String
  pub content : String

abbrev pub job_tls_certificate : String
job_tls_certificate = "tlscert"

abbrev pub job_acme : String
job_acme = "acme"

-- `CreateJobID`; `random` is a new UUID.
unfoldable pub create_job_id : Crypto → String → JobData → String
create_job_id c random job =
    if job.kind == job_tls_certificate
    then job.kind <> "/" <> String.slice (c.sha256 job.content) 0 15
    else if job.kind == job_acme
    then job.kind <> "/" <> String.slice (c.sha256 job.content) 0 15
    else job.kind <> "/" <> random

unfoldable pub prepend : String → List String → List String
prepend c [] = c ∷ []
prepend c (s ∷ l) = (c <> s) ∷ l

-- `strings.Split(s, ",")`
unfoldable pub split_names : String → List String
unfolding prepend
split_names String.[] = "" ∷ []
split_names (String.◌∷◌ c s) =
    let rest = split_names s in
    if nat_eq (code c) b',' then "" ∷ rest else prepend (String.◌∷◌ c "") rest

module _ (S : StateStore) (c : Crypto) (now : Time) (random : Error ⊎ Bytes)
    (generate_tls : List String → Result (Bytes × Bytes))
    (generate_acme : List String → Method S (Bytes × Bytes)) where
  abbrev pub made_tls : List String → Method S (Bytes × Bytes)
  made_tls names m = (generate_tls names, m)

  -- `processCertJobs` of a job of the type "tlscert"
  unfoldable pub process_tls : String → Method S Unit
  process_tls content = do
    p ← made_tls (split_names content)
    set_certificate S c now random tls_self_signed (split_names content) p.0 p.1

  -- `processCertJobs` of a job of the type "acme": the old self-signed certificate is deleted.
  unfoldable pub process_acme : String → Method S Unit
  process_acme content = do
    p ← generate_acme (split_names content)
    set_certificate S c now random tls_acme (split_names content) p.0 p.1
    remove_certificate S c now tls_self_signed (split_names content)

  -- `ProcessJob`
  unfoldable pub process_job : JobData → Method S Unit
  process_job job =
      if job.kind == job_tls_certificate
      then process_tls job.content
      else if job.kind == job_acme
      then process_acme job.content
      else fail "invalid job type"
