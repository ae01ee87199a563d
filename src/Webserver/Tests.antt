-- ===== src/Webserver/Tests.antt =====
-- The theorems about the configuration of the web server on a disk in memory.
use mathlib.Core.Path.{subst}
use statiko.Base.{
  String, ◌<>◌, string_dec, true, false, ◌≡◌, refl, ap, ◌∙◌, inr, Option, none, some, List, [], ◌∷◌,
  arith,
}
use statiko.Base.Dict.{Dict, lookup}
use statiko.Base.Exec.{ok}
use statiko.State.Types.{Bytes}
use statiko.State.Samples.{files, manager_with, two_sites}
use statiko.Os.Memory.{memory, memory-IsLawful}
use statiko.AppManager.Bundles.{bytes_eq}
use statiko.Webserver.Escape.{
  escape_config_string, read_quoted, plain, read_quoted-escape_config_string,
}
use statiko.Webserver.Manifest.{TextLib}
use statiko.Webserver.Server.{Shell, config_test}
use statiko.Webserver.Files.{NginxLib, sync_files}
use statiko.Base.Entries.{AreDifferent}
use statiko.Webserver.Files.Laws.{IsSettled, sync_files_lem}

read_quoted-escape_config_string_example :
    read_quoted plain (escape_config_string "a\"$b\\" <> String.◌∷◌ "\"" "; deny all")
    ≡ some ("a\"$b\\", "; deny all")
read_quoted-escape_config_string_example = read_quoted-escape_config_string "a\"$b\\" "; deny all"

-- A web server that finds every configuration valid.
abbrev shell : Shell memory
shell = record {
  status = "status";
  test = "test";
  start = "start";
  restart = "restart";
  execute = λ c w. (("", none), w);
  trim_space = λ s. s;
}

abbrev texts : TextLib
texts = record {
  to_lower = λ s. s;
  byte_count = λ s. 9;
  bars_for_commas = λ s. s;
  is_caching = λ s. true;
  scheme = λ s. some "https";
}

abbrev nginx : NginxLib
nginx = record {
  config_path = "/n/";
  execute_template = λ name x. inr (1 ∷ []);
  manifest = λ s. none;
  visit = λ d. d;
}

abbrev site_file : String
site_file = "conf.d/a.example.conf"

abbrev desired : List (String × Bytes)
desired = (site_file, 2 ∷ []) ∷ ("nginx.conf", 3 ∷ []) ∷ []

abbrev existing : Dict (Option Bytes)
existing = (site_file, some (1 ∷ [])) ∷ []

abbrev disk : Dict Bytes
disk = ("/n/conf.d/a.example.conf", 1 ∷ []) ∷ []

there_lem : memory.read_file ("/n/" <> site_file) disk ≡ inr (1 ∷ [])
unfolding lookup string_dec
there_lem = refl

found_lem :
    (key : String) (old : Bytes)
    → lookup key existing ≡ some (some old)
    → (site_file ≡ key) × ((1 ∷ []) ≡ old)
unfolding lookup
found_lem key old found = elim (string_dec site_file key) [
  | yes same ↦ (same, ground (arith, same, found))
  | no other ↦ absurd (ground (arith, other, found))
]

read_lem :
    (key : String) (b old : Bytes)
    → lookup key desired ≡ some b
    → lookup key existing ≡ some (some old)
    → memory.read_file ("/n/" <> key) disk ≡ inr old
read_lem key b old e found =
    let (same, held) = found_lem key old found in
    subst (λ x. memory.read_file ("/n/" <> x) disk ≡ inr old) same (there_lem ∙ ap inr held)

synced_lem :
    (sync_files files memory shell texts nginx two_sites.sites existing desired false
      (manager_with two_sites, disk)).0
    ≡ ok true
unfolding sync_files lookup bytes_eq config_test string_dec
synced_lem = refl

sync_files_lem_example :
    IsSettled files memory memory-IsLawful shell texts nginx
      (λ w q. refl)
      two_sites.sites
      (lookup site_file existing)
      site_file
      (2 ∷ [])
      (sync_files files memory shell texts nginx two_sites.sites existing desired false
        (manager_with two_sites, disk)).1.1
unfolding lookup AreDifferent string_dec
sync_files_lem_example =
    sync_files_lem files memory memory-IsLawful shell texts nginx (λ w q. refl) two_sites.sites
      existing desired false (manager_with two_sites, disk) (refl, (refl, tt)) read_lem true
      synced_lem site_file (2 ∷ []) refl
