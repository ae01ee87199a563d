-- ===== src/Api/Patch.antt =====
-- api/routes/site.go: the handler of PATCH /site/:domain.
pub mod Steps
pub mod Consistency
use statiko.Base.{
  ℕ, String, ◌<>◌, Bool, true, false, ◌⊎◌, inl, inr, Option, none, some, List, [], ◌∷◌, ◌++◌, ◌==◌,
  if◌then◌else◌,
}
use statiko.Base.Dict.{Dict, lookup}
use statiko.Base.Exec.{Error}
use statiko.State.Types.{
  SiteTls, SiteState, tls_imported, tls_azure_key_vault, tls_self_signed, tls_acme,
}
use statiko.State.Store.{StateStore}
use statiko.State.Manager.Secrets.{Crypto}
use statiko.State.Manager.Sites.{get_site, update_site}
use statiko.Api.Handler.{
  Node, Flow, stop, go, abort, abort_500, Handler, continue, and_then, call, queue_run, bind_flow,
}
use statiko.Api.Sites.{Env, bare_tls, no_empty, imported_exists, requested_domain, find_or_404}

-- A decoded JSON value inside a list or an object of the body: the handler tells only texts and
-- null from the rest.
pub data Scalar : Type 0 where
  null : Scalar
  string : String → Scalar
  other : Scalar

-- The decoded JSON value of a field of the body.
pub data Value : Type 0 where
  null_value : Value
  object : Dict Scalar → Value
  array : List Scalar → Value
  other_value : Value

-- The local variables `site` and `updated`.
pub record Draft : Type 0 where
  pub site : SiteState
  pub updated : Bool

abbrev string_of : Option Scalar → Option String
string_of none = none
string_of (some null) = none
string_of (some (string s)) = some s
string_of (some other) = none

-- `vMap[key].(string)`
unfoldable pub text_at : String → Dict Scalar → Option String
text_at key fields = string_of (lookup key fields)

-- The name in `tls.cert`.
unfoldable pub certificate_name : String → Option String → Flow String
certificate_name what none =
    abort 409 ("Missing or invalid key tls.cert for " <> what <> " certificate")
certificate_name what (some name) =
    if name == ""
    then abort 409 ("Missing or invalid key tls.cert for " <> what <> " certificate")
    else go name

-- The answer of `CertificateExists`.
unfoldable pub patch_akv : Error ⊎ Bool → Flow (Unit {0})
patch_akv (inl x) = abort_500
patch_akv (inr true) = go tt
patch_akv (inr false) = abort 409 "Certificate does not exist in Azure Key Vault"

abbrev pub named_tls : String → String → Option String → SiteTls
named_tls kind name version = record {
  kind = kind;
  certificate = some name;
  version = no_empty version;
}

module _ (S : StateStore) (c : Crypto) (e : Env) where
  abbrev pub patch_acme : SiteState → Flow SiteTls
  patch_acme site =
      if site.temporary
      then abort 400 "Temporary sites cannot request TLS certificates from ACME"
      else go (bare_tls tls_acme)

  abbrev pub patch_imported : Dict Scalar → Handler S SiteTls
  patch_imported fields = continue S (certificate_name "imported" (text_at "cert" fields)) (λ name.
      and_then S (imported_exists S c e name) (λ _ n. (go (named_tls tls_imported name none), n)))

  abbrev pub patch_key_vault : Dict Scalar → Flow SiteTls
  patch_key_vault fields =
      bind_flow (certificate_name "Azure Key Vault" (text_at "cert" fields)) (λ name.
        bind_flow (patch_akv (e.akv_exists name))
          (λ _. go (named_tls tls_azure_key_vault name (text_at "ver" fields))))

  -- The switch on `certType`.
  unfoldable pub patch_kind : SiteState → Dict Scalar → Option String → Handler S SiteTls
  patch_kind site fields none n = (abort 409 "Missing key tls.type", n)
  patch_kind site fields (some kind) n =
      (if kind == tls_acme
          then (λ k. (patch_acme site, k))
          else if kind == tls_self_signed
          then (λ k. (go (bare_tls kind), k))
          else if kind == tls_imported
          then patch_imported fields
          else if kind == tls_azure_key_vault
          then (λ k. (patch_key_vault fields, k))
          else (λ k. (abort 409 "Invalid TLS certificate type", k)))
        n

  -- The case "tls".
  unfoldable pub patch_tls : Value → Draft → Handler S Draft
  patch_tls (object fields) d n =
      and_then S (patch_kind d.site fields (text_at "type" fields))
        (λ t k. (go (record { site = record (d.site) { tls = some t }; updated = true }), k)) n
  patch_tls null_value d n = (go d, n)
  patch_tls (array l) d n = (go d, n)
  patch_tls other_value d n = (go d, n)

  abbrev pub add_alias : SiteState → String → SiteState
  add_alias site a = record site { aliases = site.aliases ++ a ∷ [] }

  abbrev pub alias_or_404 : SiteState → String → Option SiteState → Flow SiteState
  alias_or_404 site a none = go (add_alias site a)
  alias_or_404 site a (some o) =
      if o.domain == site.domain
      then go (add_alias site a)
      else abort 404 ("Alias " <> a <> " already exists")

  -- One element of the list of aliases. The kind of a nil type is asked for null, which panics.
  unfoldable pub patch_alias : SiteState → Scalar → Node S → Flow SiteState
  patch_alias site null n = abort_500
  patch_alias site other n = abort 400 "Invalid type for element in the aliases list"
  patch_alias site (string a) n = alias_or_404 site a (get_site S a n.manager)

  -- The loop over the list of aliases.
  unfoldable pub patch_list : List Scalar → SiteState → Handler S SiteState
  patch_list [] site n = (go site, n)
  patch_list (x ∷ l) site n = continue S (patch_alias site x n) (patch_list l) n

  abbrev pub no_aliases : SiteState → SiteState
  no_aliases site = record site { aliases = [] }

  abbrev pub patch_names : Value → Draft → Handler S Draft
  patch_names null_value d n = (go (record d { site = no_aliases d.site }), n)
  patch_names (array l) d n =
      and_then S (patch_list l (no_aliases d.site))
        (λ site k. (go (record { site = site; updated = true }), k)) n
  patch_names (object fields) d n = (go d, n)
  patch_names other_value d n = (go d, n)

  -- The case "aliases".
  unfoldable pub patch_aliases : Value → Draft → Handler S Draft
  patch_aliases v d =
      if d.site.temporary
      then (λ n. (abort 400 "Cannot set aliases for a temporary site", n))
      else patch_names v d

  module _ (to_lower : String → String) where
    abbrev pub patch_field : String → Value → Draft → Handler S Draft
    patch_field key v d =
        if to_lower key == "tls"
        then patch_tls v d
        else if to_lower key == "aliases"
        then patch_aliases v d
        else (λ n. (go d, n))

    -- The loop over the fields of the body. Go's order of a map is any order.
    unfoldable pub patch_fields : List (String × Value) → Draft → Handler S Draft
    patch_fields [] d n = (go d, n)
    patch_fields ((key, v) ∷ l) d n = and_then S (patch_field key v d) (patch_fields l) n

    -- The end of `PatchSiteHandler`.
    unfoldable pub store_draft : Draft → Handler S SiteState
    store_draft d =
        if d.updated
        then and_then S (call S (update_site S e.now d.site true))
            (λ _. and_then S (queue_run S) (λ _ n. (go d.site, n)))
        else (λ n. (go d.site, n))

    abbrev pub patch_found : Error ⊎ List (String × Value) → SiteState → Handler S SiteState
    patch_found (inl x) site n = (abort 400 ("Invalid request body: " <> x), n)
    patch_found (inr update) site n =
        and_then S (patch_fields update (record { site = site; updated = false })) store_draft n

    abbrev pub patch_named : Error ⊎ List (String × Value) → String → Handler S SiteState
    patch_named input domain = and_then S (find_or_404 S c e domain) (patch_found input)

    -- `PatchSiteHandler`; `input` is what `c.Bind` makes of the body.
    unfoldable pub patch_site :
        String → String → Error ⊎ List (String × Value) → Node S → Flow SiteState × Node S
    patch_site domain temporary input n =
        continue S (requested_domain S c e domain temporary) (patch_named input) n
