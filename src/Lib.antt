-- ===== src/Lib.antt =====
-- Statiko: a server that keeps a set of web sites and, on each node of a cluster, brings the web
-- server in the state that an administrator asks for over a REST API.
--
-- The API (api/) answers requests; its handlers call the state manager (state/state.go), which
-- keeps the desired state in a store (state/store-file.go or state/store-etcd.go), and ask for a
-- synchronization (sync/run.go), which applies the state to the node.
--
--   State/Types, State/Store: the data of state/types.go and utils/node-status.go, and the
--   interface `StateStore` with what its clients rely on (`IsLawful`).
--   State/StoreFile: state/store-file.go. A disk is what the configured path holds and the errors
--   of its system calls; JSON is a codec, a parameter.
--   State/Etcd is the client of etcd as an interface, with the documented behaviour in `IsKeyValue`;
--   State/Etcd/Memory is an instance. State/StoreEtcd: state/store-etcd.go over that interface, with
--   JSON and base64 as parameters. Data writes and reads the keys, Locks has the locks, Watch what
--   arrives from other nodes, Health the members. It is not made an instance of `StateStore`: while
--   its `AcquireLock` waits, the watcher may replace the state in memory.
--   State/Manager: state/state.go. A method takes the manager to a result and the manager after it
--   (Base/Exec); a result is a value, an error or a panic. Locks has the steps that the writing
--   methods share; Sites, Secrets, Certificates and Status have the methods. Time, the random nonce,
--   base64, AES-GCM and SHA-256 are parameters.
--   Os: utils/fs.go over an interface `FileSystem`, with what the program relies on in `IsLawful`;
--   Os/Memory is an instance. A system call gives a result and the disk after it.
--   Fs: fs/fs-local.go, the repository of bundles on the local disk. JSON is a parameter.
--   AppManager: appmanager/appmanager.go and utils/archive.go. Signing, Bundles and Staging take a
--   bundle from the repository to a folder of its own; Apps asks for the bundles that the sites
--   need; Sites, Files and Misc write the folders of the sites. Cryptography, the readers of
--   archives and the parser of manifests are parameters. The workers that stage apps run one
--   after another, in the order of the requests.
--   Certificates: certificates/ and worker/processor.go. Sites chooses the certificate of a site,
--   Jobs are the jobs that make certificates. AppManager/Sites/Served joins it to the folders of the
--   sites, with a number of rounds after which an error takes the place of another job. To wait for a
--   job is to perform it. X.509, ACME and
--   Azure Key Vault are parameters.
--   Webserver: webserver/nginx.go. Manifest has the rules of an app, with utils/headers.go and
--   utils/app-manifest.go; Files the configuration that there should be and the one on the disk;
--   Server the commands; Escape the texts in quoted strings, with a reader of such strings as the
--   web server has it. Templates, the shell, the regular expression and the parser of URLs are
--   parameters, and so is the order in which a map is visited.
--   Worker: worker/cert-monitor.go and worker/node-cert-monitor.go, with the notifications that they
--   send as a log. To wait for a job is to perform it, as in Certificates. Worker/Controller is the
--   queue of jobs of worker/controller-etcd.go over the client of etcd, and Worker/Election the
--   election of the leader, whose steps in all nodes interleave freely, those of a node's first
--   attempt with those of its watcher too. Worker/DhParams is
--   worker/dhparams.go, where what generates the parameters is a parameter.
--   Sync: sync/run.go. Every call of `QueueRun` and of `Run` is a thread; a step is one operation
--   on a channel or the code between two of them, and the steps of all threads interleave freely.
--   `version`, `requested` and `synced` are not fields of the program: they record when the state
--   changed, when a run was asked for and when a run began. Sync/Runner is what one run does, with
--   the app manager and the web server as parameters.
--   Api: api/routes/. A handler takes a node to a response or a value, and the node after it. A
--   panic is answered by status 500, as by the recovery handler of `gin.Default`. The calls of
--   `QueueRun` are counted in the node. Sites and Patch are routes/site.go, Certificates is
--   routes/certificate.go, DhParams is routes/dhparams.go, and Auth is middlewares/auth.go, where
--   the decoding and the verification of tokens are parameters. Apps is routes/app.go over the
--   repository on the local disk, and Status is routes/status.go.
--   StatusCheck: statuscheck/, whose variables are a record `Cache`. The HTTP client, the order in
--   which answers arrive and the sort are parameters.
--
-- Every loop is over a list and needs no fuel, but for `GetSelfSignedCertificate`, which goes back to
-- its start after each job; it is given a number of rounds, of which two are enough when the job
-- makes a certificate that the site can use. `AcquireLock` of the store in etcd makes forty attempts
-- with a timeout; without one, which no caller asks for, it is followed for as many as are given.
-- Handlers run one at a time, and no other node changes the state in memory while a method of the
-- manager runs. Integers of four bytes wrap around as in the source.
--
-- Not modelled: connecting to etcd, api/routes/deploy.go, api/routes/state.go and the small routes,
-- the templates of the web server's configuration, the repositories of bundles in the cloud, the
-- clients of certificate authorities and vaults, worker/controller-file.go, the timers of the
-- background workers, logging, and what a stream leaves on the disk whose reading fails.
pub mod Base
pub mod State
pub mod Os
pub mod Fs
pub mod Certificates
pub mod AppManager
pub mod Webserver
pub mod Worker
pub mod StatusCheck
pub mod Sync
pub mod Api
