-- ===== src/Api/Auth/Laws.antt =====
-- What it takes to be authenticated.
use Prim.Native.String.{len}
use statiko.Base.{
  ◌≡◌, refl, String, Bool, true, false, nat_eq, ◌⊎◌, inl, inr, Option, none, some, arith,
  Bool-cases,
}
use statiko.Base.Exec.{Result, ok, err, panic}
use statiko.State.Types.{Time}
use statiko.Api.Handler.{Flow, go, stop}
use statiko.Base.{◌<>◌, ap, ◌∙◌}
use statiko.Base.Dict.{Dict, lookup}
use statiko.Api.Auth.Keys.{AreTrusted, IsKeyOf, token_key_lem}
use statiko.Api.Auth.{
  Claim, text_claim, other_claim, claim_is, issuer_of, audience_of, auth0, azure_ad, Provider,
  AuthConfig, Token, Tokens, KeyStore, validate_claims, token_key, verified, check_token,
  check_decoded, bearer, is_psk, authenticate, or_401, auth_handler,
}

-- The issuer and the audience that a token of the provider names.
abbrev issuer_name : AuthConfig → Provider → String
issuer_name a auth0 = "https://" <> a.auth0_domain <> "/"
issuer_name a azure_ad = "https://login.microsoftonline.com/" <> a.azure_ad_tenant <> "/v2.0"

abbrev audience_name : AuthConfig → Provider → String
audience_name a auth0 = a.auth0_client_id
audience_name a azure_ad = a.azure_ad_client_id

claim_lem : (o : Option Claim) (v : String) → claim_is o v ≡ true → o ≡ some (text_claim v)
unfolding claim_is
claim_lem none v h = absurd cc
claim_lem (some (text_claim s)) v h = ap (λ x. some (text_claim x)) (ground (arith, h))
claim_lem (some other_claim) v h = absurd cc

issuer_lem : (a : AuthConfig) (p : Provider) → issuer_of a p ≡ issuer_name a p
unfolding issuer_of
issuer_lem a auth0 = refl
issuer_lem a azure_ad = refl

audience_lem : (a : AuthConfig) (p : Provider) → audience_of a p ≡ audience_name a p
audience_lem a auth0 = refl
audience_lem a azure_ad = refl

claims_lem :
    (a : AuthConfig) (p : Provider) (d : Dict Claim)
    → validate_claims a p d ≡ true
    → (lookup "iss" d ≡ some (text_claim (issuer_name a p)))
      × (lookup "aud" d ≡ some (text_claim (audience_name a p)))
unfolding validate_claims
claims_lem a p d h = (
  claim_lem (lookup "iss" d) (issuer_of a p) (ground (arith, h))
      ∙ ap (λ x. some (text_claim x)) (issuer_lem a p),
  claim_lem (lookup "aud" d) (audience_of a p) (ground (arith, h))
      ∙ ap (λ x. some (text_claim x)) (audience_lem a p),
)

module _ (T : Tokens) (a : AuthConfig) where
  -- A token of the provider, for this application, that is valid under a key which the provider
  -- publishes under the name that the token gives.
  pub record IsSigned (p : Option Provider) (auth : String) : Type 0 where
    provider : Provider
    enabled : p ≡ some provider
    token : Token
    decoded : T.decode auth ≡ some token
    key : T.Key
    of_provider : IsKeyOf T a provider token key
    valid : T.is_valid key token ≡ true
    issuer : lookup "iss" token.claims ≡ some (text_claim (issuer_name a provider))
    audience : lookup "aud" token.claims ≡ some (text_claim (audience_name a provider))

  verified_lem :
      (p : Provider) (t : Token) (r : Result T.Key)
      → verified T a p t r ≡ go true
      → (key : T.Key) × (r ≡ ok key)
        × (T.is_valid key t ≡ true)
        × (validate_claims a p t.claims ≡ true)
  verified_lem p t (ok key) h = (key, refl, ground arith, ground arith)
  verified_lem p t (err x) h = cc
  verified_lem p t panic h = cc

  check_decoded_lem :
      (now : Time) (p : Provider) (auth : String) (s : KeyStore T) (o : Option Token)
      → T.decode auth ≡ o
      → AreTrusted T a p s
      → (check_decoded T a now p o s).0 ≡ go true
      → IsSigned (some p) auth
  check_decoded_lem now p auth s none e trusted h = cc
  check_decoded_lem now p auth s (some t) e trusted h =
      let (key, granted, valid, claims) = verified_lem p t (token_key T a now p t s).0 h in
      let (issuer, audience) = claims_lem a p t.claims claims in
      record {
        provider = p;
        enabled = refl;
        token = t;
        decoded = e;
        key = key;
        of_provider = (token_key_lem T a now p t s trusted).0 key granted;
        valid = valid;
        issuer = issuer;
        audience = audience;
      }

  check_token_lem :
      (now : Time) (p : Option Provider) (auth : String) (s : KeyStore T)
      → ((q : Provider) → p ≡ some q → AreTrusted T a q s)
      → (check_token T a now p auth s).0 ≡ go true
      → IsSigned p auth
  unfolding check_token
  check_token_lem now none auth s trusted h = cc
  check_token_lem now (some p) auth s trusted h =
      check_decoded_lem now p auth s (T.decode auth) refl (trusted p refl) h

  or_401_lem : (required : Bool) (r : Flow Bool) → or_401 T a required r ≡ go true → r ≡ go true
  or_401_lem required (stop r) h = h
  or_401_lem required (go true) h = refl
  or_401_lem true (go false) h = cc
  or_401_lem false (go false) h = h

  -- Where the keys in the cache are published by the provider in use: a request is authenticated only if
  -- its header holds the pre-shared key, where that is enabled, or a token for this application and of
  -- that provider, signed by RS256 and valid under an RSA key for signatures that the provider
  -- publishes, at its own address, under the name that the token gives.
  pub auth_handler_lem :
      (required : Bool) (now : Time) (p : Option Provider) (header : String) (s : KeyStore T)
      → ((q : Provider) → p ≡ some q → AreTrusted T a q s)
      → (auth_handler T a required now p header s).0 ≡ go true
      → ((a.psk_enabled ≡ true) × (bearer T a header ≡ a.psk_key)) ⊎ IsSigned p (bearer T a header)
  unfolding auth_handler authenticate
  auth_handler_lem required now p header s trusted h =
      let auth = bearer T a header in
      let h' = or_401_lem required (authenticate T a now p auth s).0 h in
      elim (Bool-cases (nat_eq (len auth) 0)) [
        | inl empty ↦ absurd (ground (arith, h'))
        | inr some_text ↦ elim (Bool-cases (is_psk T a auth)) [
          | inl psk ↦ inl (ground (arith, psk), ground (arith, psk))
          | inr no_psk ↦ inr (check_token_lem now p auth s trusted (ground (arith, h')))
        ]
      ]

  decoded_trusted :
      (now : Time) (p : Provider) (o : Option Token) (s : KeyStore T)
      → AreTrusted T a p s
      → AreTrusted T a p (check_decoded T a now p o s).1
  decoded_trusted now p none s trusted = trusted
  decoded_trusted now p (some t) s trusted = (token_key_lem T a now p t s trusted).1

  -- Whatever the request is: when all keys in the cache are published by the provider in use, then so
  -- they are after it.
  pub auth_handler-AreTrusted :
      (required : Bool) (now : Time) (p : Provider) (header : String) (s : KeyStore T)
      → AreTrusted T a p s
      → AreTrusted T a p (auth_handler T a required now (some p) header s).1
  unfolding auth_handler authenticate check_token
  auth_handler-AreTrusted required now p header s trusted =
      let auth = bearer T a header in
      elim (Bool-cases (nat_eq (len auth) 0)) [
        | inl empty ↦ rw empty trusted
        | inr some_text ↦ elim (Bool-cases (is_psk T a auth)) [
          | inl psk ↦ rw (some_text, psk) trusted
          | inr no_psk ↦ rw (some_text, no_psk) (decoded_trusted now p (T.decode auth) s trusted)
        ]
      ]
