-- ===== src/Api/Auth.antt =====
-- api/middlewares/auth.go: who may call the API. Tokens are decoded and verified by a library, and
-- keys are fetched over the network: both are parameters.
pub mod Keys
pub mod Laws
use Prim.Native.String.{len}
use Prim.Native.String
use text.Mathlib.Text.{starts_with}
use statiko.Base.{
  ℕ, ◌+◌, String, ◌<>◌, ◌==◌, Bool, true, false, not, ◌&&◌, ◌||◌, ltb, nat_eq, ◌⊎◌, inl, inr,
  Option, none, some, List, [], ◌∷◌, if◌then◌else◌,
}
use statiko.Base.Dict.{Dict, lookup, insert}
use statiko.Base.Exec.{Error, Result, ok, err, panic, Exec}
use statiko.State.Types.{Time}
use statiko.Api.Handler.{Flow, go, stop, abort, abort_500}

pub data Provider : Type 0 where
  auth0 azure_ad : Provider

-- The options below `auth`.
pub record AuthConfig : Type 0 where
  pub psk_enabled : Bool
  pub psk_key : String
  pub auth0_enabled : Bool
  pub auth0_client_id : String
  pub auth0_domain : String
  pub azure_ad_enabled : Bool
  pub azure_ad_client_id : String
  pub azure_ad_tenant : String

-- The value of a claim: the code tells only texts apart.
pub data Claim : Type 0 where
  text_claim : String → Claim
  other_claim : Claim

-- A token that has been decoded and not yet verified. `kid` is missing where the header holds no
-- text under that name.
pub record Token : Type 0 where
  pub alg : String
  pub kid : Option String
  pub claims : Dict Claim

pub record JwksKey : Type 0 where
  pub kty : String
  pub use_for : String
  pub kid : String
  pub n : String
  pub e : String
  pub issuer : String

-- `decode` and `is_valid` are the parts of `jwt.Parse` before and behind the key function, and
-- `request` is `utils.RequestJSON`.
pub record Tokens : Type 1 where
  pub Key : Type 0
  pub decode : String → Option Token
  pub is_valid : Key → Token → Bool
  pub request : String → Error ⊎ List JwksKey
  pub parse_key : String → String → Error ⊎ Key
  pub trim : String → String

-- `keyCache` and `jwksLastFetch`
pub record KeyStore (T : Tokens) : Type 0 where
  pub key_cache : Dict T.Key
  pub last_fetch : Time

-- `claims[name] == value`
unfoldable pub claim_is : Option Claim → String → Bool
claim_is none value = false
claim_is (some (text_claim s)) value = s == value
claim_is (some other_claim) value = false

unfoldable pub issuer_of : AuthConfig → Provider → String
issuer_of a auth0 = "https://" <> a.auth0_domain <> "/"
issuer_of a azure_ad = "https://login.microsoftonline.com/" <> a.azure_ad_tenant <> "/v2.0"

abbrev pub audience_of : AuthConfig → Provider → String
audience_of a auth0 = a.auth0_client_id
audience_of a azure_ad = a.azure_ad_client_id

abbrev pub start_claim : Provider → String
start_claim auth0 = "iat"
start_claim azure_ad = "nbf"

-- `validateClaimFuncGenerator`
unfoldable pub validate_claims : AuthConfig → Provider → Dict Claim → Bool
validate_claims a p claims =
    claim_is (lookup "iss" claims) (issuer_of a p)
    && claim_is (lookup "aud" claims) (audience_of a p)
    && not (claim_is (lookup "exp" claims) "")
    && not (claim_is (lookup (start_claim p) claims) "")

unfoldable pub jwks_url : AuthConfig → Provider → String
jwks_url a auth0 = "https://" <> a.auth0_domain <> "/.well-known/jwks.json"
jwks_url a azure_ad =
    "https://login.microsoftonline.com/" <> a.azure_ad_tenant <> "/discovery/v2.0/keys"

-- The issuer that the fetched keys must name; the keys of Auth0 name none.
abbrev pub key_issuer : AuthConfig → Provider → String
key_issuer a auth0 = ""
key_issuer a azure_ad = issuer_of a azure_ad

-- The test for keys to skip.
unfoldable pub is_skipped : String → JwksKey → Bool
is_skipped issuer k =
    not (k.kty == "RSA")
    || not (k.use_for == "sig")
    || (not (issuer == "") && not (k.issuer == issuer))
    || k.n == ""
    || k.e == ""
    || k.kid == ""

-- The provider in use; both at once is a panic when the server starts.
unfoldable pub provider_of : AuthConfig → Result (Option Provider)
provider_of a =
    if a.auth0_enabled && a.azure_ad_enabled
    then panic
    else if a.auth0_enabled
    then ok (some auth0)
    else if a.azure_ad_enabled
    then ok (some azure_ad)
    else ok none

module _ (T : Tokens) (a : AuthConfig) where
  abbrev pub store_key : JwksKey → KeyStore T → T.Key → KeyStore T
  store_key k s key = record s { key_cache = insert k.kid key s.key_cache }

  -- The loop over the fetched keys.
  unfoldable pub add_keys : String → List JwksKey → KeyStore T → Option Error × KeyStore T
  add_keys issuer [] s = (none, s)
  add_keys issuer (k ∷ l) s =
      if is_skipped issuer k then add_keys issuer l s else elim (T.parse_key k.n k.e) [
        | inl x ↦ (some x, s)
        | inr key ↦ add_keys issuer l (store_key k s key)
      ]

  abbrev pub look_up : String → Option Error × KeyStore T → Result (Option T.Key) × KeyStore T
  look_up kid (none, s) = (ok (lookup kid s.key_cache), s)
  look_up kid (some x, s) = (err x, s)

  abbrev pub keep_keys :
      Time → String → Provider → Error ⊎ List JwksKey → Exec (KeyStore T) (Option T.Key)
  keep_keys now kid p (inl x) s = (err x, s)
  keep_keys now kid p (inr []) s = (err "empty JWKS keybag", record s { last_fetch = now })
  keep_keys now kid p (inr (k ∷ l)) s =
      look_up kid (add_keys (key_issuer a p) (k ∷ l) (record s { last_fetch = now }))

  -- `getTokenSigningKey`
  unfoldable pub signing_key : Time → String → Provider → Exec (KeyStore T) (Option T.Key)
  signing_key now kid p s = elim (lookup kid s.key_cache) [
    | some key ↦ (ok (some key), s)
    | none ↦
        if ltb now (s.last_fetch + 300)
        then (ok none, s)
        else keep_keys now kid p (T.request (jwks_url a p)) s
  ]

  abbrev pub found_key : Result (Option T.Key) → Result T.Key
  found_key (ok none) = err "key not found"
  found_key (ok (some key)) = ok key
  found_key (err x) = err x
  found_key panic = panic

  abbrev pub key_by_id : Time → Provider → Option String → Exec (KeyStore T) T.Key
  key_by_id now p none s = (panic, s)
  key_by_id now p (some kid) s = let (r, s') = signing_key now kid p s in (found_key r, s')

  -- `tokenKeyFuncGenerator`
  unfoldable pub token_key : Time → Provider → Token → Exec (KeyStore T) T.Key
  token_key now p t s =
      if not (t.alg == "RS256")
      then (err ("unexpected signing method: " <> t.alg), s)
      else key_by_id now p t.kid s

  abbrev pub verified : Provider → Token → Result T.Key → Flow Bool
  verified p t (ok key) = go (T.is_valid key t && validate_claims a p t.claims)
  verified p t (err x) = go false
  verified p t panic = abort_500

  abbrev pub check_decoded : Time → Provider → Option Token → KeyStore T → Flow Bool × KeyStore T
  check_decoded now p none s = (go false, s)
  check_decoded now p (some t) s = let (r, s') = token_key now p t s in (verified p t r, s')

  -- The part for an authentication provider.
  unfoldable pub check_token : Time → Option Provider → String → KeyStore T → Flow Bool × KeyStore T
  check_token now none auth s = (go false, s)
  check_token now (some p) auth s = check_decoded now p (T.decode auth) s

  -- The value of the header, without "Bearer ".
  unfoldable pub bearer : String → String
  bearer header =
      let auth = T.trim header in
      if starts_with auth "Bearer " then String.slice auth 7 (len auth) else auth

  abbrev pub is_psk : String → Bool
  is_psk auth = a.psk_enabled && auth == a.psk_key

  unfoldable pub authenticate :
      Time → Option Provider → String → KeyStore T → Flow Bool × KeyStore T
  authenticate now p auth s =
      if nat_eq (len auth) 0
      then (go false, s)
      else if is_psk auth
      then (go true, s)
      else check_token now p auth s

  abbrev pub or_401 : Bool → Flow Bool → Flow Bool
  or_401 required (stop r) = stop r
  or_401 required (go true) = go true
  or_401 required (go false) =
      if required then abort 401 "Invalid Authorization header" else go false

  -- `Auth`: the request goes on, authenticated or not, or it is answered.
  unfoldable pub auth_handler :
      Bool → Time → Option Provider → String → KeyStore T → Flow Bool × KeyStore T
  auth_handler required now p header s =
      let (r, s') = authenticate now p (bearer header) s in (or_401 required r, s')
