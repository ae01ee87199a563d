-- ===== src/Webserver/Server.antt =====
-- webserver/nginx.go: the commands that test, start and restart the web server.
use statiko.Base.{String, ◌==◌, Bool, false, Option, none, some, if◌then◌else◌}
use statiko.Base.Exec.{Error, Result, ok, err, ◌>>=◌}
use statiko.Os.{FileSystem, Io}

-- The commands of the configuration. `execute` runs one in a shell and gives its output, in which
-- `trim_space` is `strings.TrimSpace`, and its error.
pub record Shell (F : FileSystem) : Type 0 where
  pub status : String
  pub test : String
  pub start : String
  pub restart : String
  pub execute : String → F.World → (String × Option Error) × F.World
  pub trim_space : String → String

module _ (F : FileSystem) (C : Shell F) where
  abbrev pub run_command : String → Io F Unit
  run_command c w = let (r, v) = C.execute c w in (elim r.1 [ none ↦ ok tt | some e ↦ err e ], v)

  abbrev pub running : String × Option Error → Result Bool
  running (s, none) = ok (C.trim_space s == "1")
  running (s, some e) = err e

  -- `Status`
  unfoldable pub status : Io F Bool
  status w = let (r, v) = C.execute C.status w in (running r, v)

  abbrev pub passed : String × Option Error → Result Bool
  passed (s, none) = ok (C.trim_space s == "")
  passed (s, some e) = if e == "exit status 1" then ok false else err e

  -- `ConfigTest`
  unfoldable pub config_test : Io F Bool
  config_test w = let (r, v) = C.execute C.test w in (passed r, v)

  -- `EnsureServerRunning`
  unfoldable pub ensure_server_running : Io F Unit
  ensure_server_running = do b ← status; if b then (λ w. (ok tt, w)) else run_command C.start

  -- `RestartServer`
  unfoldable pub restart_server : Io F Unit
  restart_server = do b ← status; if b then run_command C.restart else run_command C.start
