-- ===== src/State/Types.antt =====
-- state/types.go and utils/node-status.go: the data that the node keeps.
use statiko.Base.{
  ℕ, String, Bool, ◌&&◌, Option, none, some, List, leb, ltb, ◌==◌, if◌then◌else◌, true, false,
}
use statiko.Base.Dict.{Dict}

-- A point in time, in seconds.
abbrev pub Time : Type 0
Time = ℕ

-- A slice of bytes.
abbrev pub Bytes : Type 0
Bytes = List ℕ

abbrev pub tls_imported : String
tls_imported = "imported"

abbrev pub tls_azure_key_vault : String
tls_azure_key_vault = "akv"

abbrev pub tls_self_signed : String
tls_self_signed = "selfsigned"

abbrev pub tls_acme : String
tls_acme = "acme"

-- `kind` is the field `Type`.
pub record SiteTls : Type 0 where
  pub kind : String
  pub certificate : Option String
  pub version : Option String

-- The field `Manifest` is filled in by the app manager and is not part of what is stored.
pub record SiteApp : Type 0 where
  pub name : String

pub record SiteState : Type 0 where
  pub domain : String
  pub aliases : List String
  pub temporary : Bool
  pub tls : Option SiteTls
  pub app : Option SiteApp

pub record NodeDhParams : Type 0 where
  pub date : Option Time
  pub pem : String

pub record NodeState : Type 0 where
  pub sites : List SiteState
  pub secrets : Option (Dict Bytes)
  pub dhparams : Option NodeDhParams

pub record SiteHealth : Type 0 where
  pub domain : String
  pub app : Option String
  pub status_code : Option ℕ
  pub response_size : Option ℕ
  pub error : String
  pub time : Option Time

-- `IsHealthy`
unfoldable pub is_healthy : SiteHealth → Bool
is_healthy h =
    if h.error == ""
    then elim h.app [
      | none ↦ true
      | some a ↦ elim h.status_code [
        | none ↦ false
        | some c ↦
            leb 200 c && ltb c 300 && elim h.response_size [ none ↦ false | some n ↦ ltb 0 n ]
      ]
    ]
    else false

pub record NodeSync : Type 0 where
  pub running : Bool
  pub last_sync : Option Time
  pub sync_error : String

pub record NodeStatus : Type 0 where
  pub node_name : String
  pub nginx_running : Bool
  pub sync : NodeSync
  pub store_healthy : Bool
  pub health : List SiteHealth
