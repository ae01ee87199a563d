-- ===== src/Api/Sites.antt =====
-- api/routes/site.go: the handlers of /site.
pub mod Consistency
use Prim.Native.String.{len, char_at}
use Prim.Native.Char.{code}
use Prim.Native.String
use statiko.Base.{
  ℕ, suc, String, ◌<>◌, Bool, true, false, not, ◌&&◌, ◌||◌, nat_eq, ltb, ◌⊎◌, inl, inr, Option,
  none, some, is_some, List, [], ◌∷◌, ◌++◌, length, ◌==◌, if◌then◌else◌,
}
use statiko.Base.Exec.{Error}
use statiko.State.Types.{
  Time, Bytes, SiteTls, SiteState, tls_imported, tls_azure_key_vault, tls_self_signed, tls_acme,
}
use statiko.State.Store.{StateStore}
use statiko.State.Manager.Locks.{Manager}
use statiko.State.Manager.Secrets.{Crypto}
use statiko.State.Manager.Certificates.{get_certificate}
use statiko.State.Manager.Sites.{get_site, get_sites, add_site, delete_site}
use statiko.Api.Handler.{
  Response, Node, Flow, stop, go, abort, abort_500, Handler, continue, and_then, call, queue_run,
  respond, bind_flow, Body,
}

-- `temp_domain` is the option `temporarySites.domain`; `random_name` is the pet name with its
-- number; `akv_exists` is `CertificateExists` of Azure Key Vault.
pub record Env : Type 0 where
  pub temp_domain : String
  pub random_name : String
  pub akv_exists : String → Error ⊎ Bool
  pub now : Time

-- `utils.IsTruthy`
unfoldable pub is_truthy : String → Bool
is_truthy v = v == "1" || v == "true" || v == "t" || v == "y" || v == "yes"

-- Ensure there's a dot at the beginning; the text is not empty.
unfoldable pub dotted : String → String
dotted String.[] = ""
dotted (String.◌∷◌ c s) = if nat_eq (code c) b'.' then String.◌∷◌ c s else "." <> String.◌∷◌ c s

abbrev is_acme : Option SiteTls → Bool
is_acme none = false
is_acme (some t) = t.kind == tls_acme

-- The part of `CreateSiteHandler` that settles the domain.
unfoldable pub settle_domain : Env → SiteState → Flow SiteState
settle_domain e site =
    if site.temporary
    then if e.temp_domain == ""
      then abort 500
          "Configuration option `temporarySites.domain` must be set before creating a temporary site"
      else if not (site.domain == "") || ltb 0 (length site.aliases)
      then abort 400 "Temporary sites cannot have a defined domain name or alias"
      else if is_acme site.tls
      then abort 400 "Temporary sites cannot request TLS certificates from ACME"
      else go (record site { domain = e.random_name <> dotted e.temp_domain })
    else if site.domain == ""
    then abort 400 "Field 'domain' is required"
    else go site

abbrev pub bare_tls : String → SiteTls
bare_tls kind = record { kind = kind; certificate = none; version = none }

-- Ensure an empty version is stored as nil.
abbrev pub no_empty : Option String → Option String
no_empty none = none
no_empty (some v) = if v == "" then none else some v

unfoldable pub clear_version : SiteState → SiteState
clear_version site = elim site.tls [
  | none ↦ site
  | some t ↦ record site { tls = some (record t { version = no_empty t.version }) }
]

module _ (S : StateStore) (c : Crypto) (e : Env) where
  -- The loop over the names of a new site.
  unfoldable pub none_exists : List String → Handler S Unit
  none_exists [] n = (go tt, n)
  none_exists (d ∷ l) n =
      let rest = none_exists l n in
      if is_some (get_site S d n.manager)
      then (abort 409 "Domain or alias already exists", n)
      else rest

  check_pair : Bytes × Bytes → Flow (Unit {0})
  check_pair (key, cert) =
      if nat_eq (length key) 0 || nat_eq (length cert) 0
      then abort 409 "TLS certificate does not exist in store"
      else go tt

  unfoldable pub check_akv : Error ⊎ Bool → Flow (Unit {0})
  check_akv (inl x) = abort_500
  check_akv (inr true) = go tt
  check_akv (inr false) = abort 409 "TLS certificate does not exist in Azure Key Vault"

  -- The imported certificate of that name is in the store.
  unfoldable pub imported_exists : String → Handler S Unit
  unfolding check_pair
  imported_exists name =
      and_then S (call S (get_certificate S c tls_imported (name ∷ []))) (λ p n. (check_pair p, n))

  abbrev pub with_certificate : SiteTls → Option String → Handler S SiteTls
  with_certificate t none = λ n. (abort 409 "Invalid TLS configuration", n)
  with_certificate t (some name) =
      if t.kind == tls_imported && not (name == "")
      then and_then S (imported_exists name) (λ _ n. (go t, n))
      else if t.kind == tls_azure_key_vault && not (name == "")
      then (λ n. (bind_flow (check_akv (e.akv_exists name)) (λ _. go t), n))
      else (λ n. (abort 409 "Invalid TLS configuration", n))

  abbrev pub given_tls : SiteTls → Handler S SiteTls
  given_tls t =
      if t.kind == "" || t.kind == tls_self_signed
      then (λ n. (go (bare_tls tls_self_signed), n))
      else if t.kind == tls_acme
      then (λ n. (go (bare_tls tls_acme), n))
      else with_certificate t t.certificate

  -- The part of `CreateSiteHandler` that settles the TLS configuration.
  unfoldable pub choose_tls : Option SiteTls → Handler S SiteTls
  choose_tls none n = (go (bare_tls tls_self_signed), n)
  choose_tls (some t) n = given_tls t n

  -- The end of `CreateSiteHandler`.
  abbrev pub store_site : SiteState → Handler S SiteState
  store_site site =
      and_then S (call S (add_site S e.now site))
        (λ _. and_then S (queue_run S) (λ _ n. (go site, n)))

  abbrev pub create_named : SiteState → Handler S SiteState
  create_named site = and_then S (none_exists (site.aliases ++ site.domain ∷ [])) (λ _.
      and_then S (choose_tls site.tls)
        (λ t. store_site (clear_version (record site { tls = some t }))))

  -- `CreateSiteHandler`; `input` is what `c.Bind` makes of the body.
  unfoldable pub create_site : Error ⊎ SiteState → Node S → Flow SiteState × Node S
  create_site (inl x) n = (abort 400 ("Invalid request body: " <> x), n)
  create_site (inr site) n = continue S (settle_domain e site) create_named n

  -- The domain that a path parameter with the query parameter `temporary` stands for.
  unfoldable pub requested_domain : String → String → Flow String
  requested_domain domain temporary =
      if nat_eq (len domain) 0
      then abort 400 "Invalid parameter 'domain'"
      else if is_truthy temporary
      then if e.temp_domain == ""
        then abort 500
            "Configuration option `temporarySites.domain` must be set before requesting a temporary site"
        else go (domain <> dotted e.temp_domain)
      else go domain

  abbrev pub or_404 : Option SiteState → Flow SiteState
  or_404 none = abort 404 "Domain name not found"
  or_404 (some s) = go s

  abbrev pub find_or_404 : String → Handler S SiteState
  find_or_404 domain n = (or_404 (get_site S domain n.manager), n)

  -- `ShowSiteHandler`
  unfoldable pub show_site : String → String → Node S → Flow SiteState × Node S
  show_site domain temporary n = continue S (requested_domain domain temporary) find_or_404 n

  -- `ListSiteHandler`
  unfoldable pub list_sites : Node S → Response
  list_sites n = record { status = 200; body = Body.sites (get_sites S n.manager) }

  abbrev pub delete_named : String → Handler S Unit
  delete_named domain =
      and_then S (find_or_404 domain)
        (λ _. and_then S (call S (delete_site S e.now domain)) (λ _. queue_run S))

  -- `DeleteSiteHandler`
  unfoldable pub delete_site_handler : String → String → Node S → Flow (Unit {0}) × Node S
  delete_site_handler domain temporary n =
      continue S (requested_domain domain temporary) delete_named n
