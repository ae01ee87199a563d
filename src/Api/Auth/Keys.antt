-- ===== src/Api/Auth/Keys.antt =====
-- Which keys are in the cache of the keys of an authentication provider.
use text.Mathlib.Text.{starts_with}
use text.Mathlib.TextPositions.{starts_with-append}
use statiko.Base.{
  ℕ, zero, suc, ◌+◌, String, ◌<>◌, ◌==◌, Bool, true, false, ◌≡◌, refl, sym, ap, ◌∙◌, ◌⊎◌, inl, inr,
  Option, none, some, List, [], ◌∷◌, get_elem?, ltb, arith, Bool-cases, if◌then◌else◌,
}
use statiko.Base.Dict.{lookup, lookup-insert}
use statiko.Base.Exec.{Error, Result, ok, err, panic}
use statiko.State.Types.{Time}
use statiko.Api.Auth.{
  Provider, auth0, azure_ad, AuthConfig, JwksKey, Tokens, Token, KeyStore, issuer_of, jwks_url,
  key_issuer, is_skipped, store_key, add_keys, look_up, keep_keys, signing_key, found_key,
  key_by_id, token_key,
}

-- Where a provider publishes its keys.
abbrev published_at : AuthConfig → Provider → String
published_at a auth0 = "https://" <> a.auth0_domain <> "/.well-known/jwks.json"
published_at a azure_ad =
    "https://login.microsoftonline.com/" <> a.azure_ad_tenant <> "/discovery/v2.0/keys"

-- The keys of Azure AD name the tenant.
abbrev IsOfTenant : AuthConfig → Provider → JwksKey → Type 0
IsOfTenant a auth0 j = Unit
IsOfTenant a azure_ad j =
    j.issuer ≡ "https://login.microsoftonline.com/" <> a.azure_ad_tenant <> "/v2.0"

not_empty : (p k : String) → starts_with "" p ≡ false → ((p <> k) == "") ≡ true → ⊥
not_empty p k differs h =
    let same : (p <> k) ≡ "" = ground (arith, h) in
    cc (sym (starts_with-append p k) ∙ ap (λ s. starts_with s p) same ∙ differs)

module _ (T : Tokens) (a : AuthConfig) where
  -- The provider publishes the key under that name, as an RSA key for signatures.
  pub record IsPublished (p : Provider) (kid : String) (key : T.Key) : Type 0 where
    pub keys : List JwksKey
    pub fetched : T.request (published_at a p) ≡ inr keys
    pub at : ℕ
    pub jwk : JwksKey
    pub listed : get_elem? keys at ≡ some jwk
    pub named : jwk.kid ≡ kid
    pub kty : jwk.kty ≡ "RSA"
    pub use_for : jwk.use_for ≡ "sig"
    pub tenant : IsOfTenant a p jwk
    pub parsed : T.parse_key jwk.n jwk.e ≡ inr key

  -- All keys in the cache are published by the provider.
  abbrev pub AreTrusted : Provider → KeyStore T → Type 0
  AreTrusted p s =
      (kid : String) (key : T.Key) → lookup kid s.key_cache ≡ some key → IsPublished p kid key

  abbrev AreListed : List JwksKey → List JwksKey → Type 0
  AreListed keys l =
      (j : JwksKey) (i : ℕ) → get_elem? l i ≡ some j → (n : ℕ) × (get_elem? keys n ≡ some j)

  kept_lem :
      (issuer : String) (j : JwksKey)
      → is_skipped issuer j ≡ false
      → (j.kty ≡ "RSA") × (j.use_for ≡ "sig") × ((issuer == "") ≡ true ⊎ (j.issuer ≡ issuer))
  unfolding is_skipped
  kept_lem issuer j h = (
    ground (arith, h),
    ground (arith, h),
    elim (Bool-cases (issuer == "")) [
      | inl none_given ↦ inl none_given
      | inr given ↦ inr (ground (arith, h, given))
    ],
  )

  tenant_lem :
      (p : Provider) (j : JwksKey)
      → ((key_issuer a p == "") ≡ true) ⊎ (j.issuer ≡ key_issuer a p)
      → IsOfTenant a p j
  unfolding issuer_of
  tenant_lem auth0 j h = tt
  tenant_lem azure_ad j (inl empty) =
      absurd
        (not_empty "https://login.microsoftonline.com/" (a.azure_ad_tenant <> "/v2.0") refl empty)
  tenant_lem azure_ad j (inr same) = same

  url_lem : (p : Provider) → jwks_url a p ≡ published_at a p
  unfolding jwks_url
  url_lem auth0 = refl
  url_lem azure_ad = refl

  added_lem :
      (p : Provider) (keys : List JwksKey) (n : ℕ) (j : JwksKey) (s : KeyStore T) (key : T.Key)
      → T.request (published_at a p) ≡ inr keys
      → get_elem? keys n ≡ some j
      → is_skipped (key_issuer a p) j ≡ false
      → T.parse_key j.n j.e ≡ inr key
      → AreTrusted p s
      → AreTrusted p (store_key T a j s key)
  added_lem p keys n j s key fetched at kept parsed trusted kid k found =
      elim (Bool-cases (j.kid == kid)) [
        | inl same ↦
            let (kty, use_for, issuer) = kept_lem (key_issuer a p) j kept in
            let it : key ≡ k =
              ground (arith, lookup-insert kid j.kid key s.key_cache, found, same) in
            record {
              keys = keys;
              fetched = fetched;
              at = n;
              jwk = j;
              listed = at;
              named = ground (arith, same);
              kty = kty;
              use_for = use_for;
              tenant = tenant_lem p j issuer;
              parsed = parsed ∙ ap inr it;
            }
        | inr other ↦
            trusted kid k (ground (arith, lookup-insert kid j.kid key s.key_cache, found, other))
      ]

  -- The loop over the fetched keys.
  add_keys-AreTrusted :
      (p : Provider) (keys l : List JwksKey) (s : KeyStore T)
      → T.request (published_at a p) ≡ inr keys
      → AreListed keys l
      → AreTrusted p s
      → AreTrusted p (add_keys T a (key_issuer a p) l s).1
  unfolding add_keys
  add_keys-AreTrusted p keys [] s fetched listed trusted = trusted
  add_keys-AreTrusted p keys (j ∷ l) s fetched listed trusted =
      elim (Bool-cases (is_skipped (key_issuer a p) j)) [
        | inl skipped ↦ rw skipped (add_keys-AreTrusted p keys l s fetched rest trusted)
        | inr kept ↦ rw kept (
            parsed kept (λ u. add_keys-AreTrusted p keys l u fetched rest) (T.parse_key j.n j.e)
              refl)
      ]
    where
      rest : AreListed keys l
      rest k i e = listed k (suc i) e

      parsed :
          is_skipped (key_issuer a p) j ≡ false
          → ((u : KeyStore T) → AreTrusted p u → AreTrusted p (add_keys T a (key_issuer a p) l u).1)
          → (r : Error ⊎ T.Key) → T.parse_key j.n j.e ≡ r
          → AreTrusted p
              (elim r as (λ _. Option Error × KeyStore T) [
                | inl x ↦ (some x, s)
                | inr key ↦ add_keys T a (key_issuer a p) l (store_key T a j s key)
              ]).1
      parsed kept again (inl x) e = trusted
      parsed kept again (inr key) e =
          let (n, at) = listed j zero refl in
          again (store_key T a j s key) (added_lem p keys n j s key fetched at kept e trusted)

  -- A key that has been found is published, and the cache holds such keys alone.
  abbrev Finds : Provider → String → Result (Option T.Key) × KeyStore T → Type 0
  Finds p kid r = ((key : T.Key) → r.0 ≡ ok (some key) → IsPublished p kid key) × AreTrusted p r.1

  look_up_lem :
      (p : Provider) (kid : String) (x : Option Error × KeyStore T)
      → AreTrusted p x.1
      → Finds p kid (look_up T a kid x)
  look_up_lem p kid (none, s) trusted =
      (λ key e. trusted kid key (ok_lem (lookup kid s.key_cache) (some key) e), trusted)
    where
      ok_lem : (o q : Option T.Key) → ok o ≡ ok q → o ≡ q
      ok_lem o q e = cc
  look_up_lem p kid (some x, s) trusted = (λ key e. absurd cc, trusted)

  keep_keys_lem :
      (now : Time) (p : Provider) (kid : String) (r : Error ⊎ List JwksKey) (s : KeyStore T)
      → T.request (published_at a p) ≡ r
      → AreTrusted p s
      → Finds p kid (keep_keys T a now kid p r s)
  keep_keys_lem now p kid (inl x) s fetched trusted = (λ key e. absurd cc, trusted)
  keep_keys_lem now p kid (inr []) s fetched trusted = (λ key e. absurd cc, trusted)
  keep_keys_lem now p kid (inr (k ∷ l)) s fetched trusted =
      look_up_lem p kid (add_keys T a (key_issuer a p) (k ∷ l) (record s { last_fetch = now })) (
        add_keys-AreTrusted p (k ∷ l) (k ∷ l) (record s { last_fetch = now }) fetched
          (λ j i e. (i, e)) trusted)

  signing_key_lem :
      (now : Time) (kid : String) (p : Provider) (s : KeyStore T)
      → AreTrusted p s
      → Finds p kid (signing_key T a now kid p s)
  unfolding signing_key
  signing_key_lem now kid p s trusted = cached (lookup kid s.key_cache) refl
    where
      fetch :
          (b : Bool)
          → Finds p kid
              (if b then (ok none, s) else keep_keys T a now kid p (T.request (jwks_url a p)) s)
      fetch true = (λ key e. absurd cc, trusted)
      fetch false =
          rw (url_lem p) (keep_keys_lem now p kid (T.request (published_at a p)) s refl trusted)

      cached :
          (o : Option T.Key)
          → lookup kid s.key_cache ≡ o
          → Finds p kid (elim o as (λ _. Result (Option T.Key) × KeyStore T) [
            | some key ↦ (ok (some key), s)
            | none ↦
                if ltb now (s.last_fetch + 300)
                then (ok none, s)
                else keep_keys T a now kid p (T.request (jwks_url a p)) s
          ])
      cached none e = fetch (ltb now (s.last_fetch + 300))
      cached (some k) e = (λ key f. trusted kid key (e ∙ same key f), trusted)
        where
          same : (key : T.Key) → ok (some k) ≡ ok (some key) → some k ≡ some key
          same key f = cc

  -- The key of a token that is signed in the one way that is accepted.
  pub record IsKeyOf (p : Provider) (t : Token) (key : T.Key) : Type 0 where
    alg : t.alg ≡ "RS256"
    kid : String
    has_kid : t.kid ≡ some kid
    published : IsPublished p kid key

  found_lem :
      (r : Result (Option T.Key)) (key : T.Key) → found_key T a r ≡ ok key → r ≡ ok (some key)
  found_lem (ok none) key h = absurd cc
  found_lem (ok (some k)) key h = cc
  found_lem (err x) key h = absurd cc
  found_lem panic key h = absurd cc

  by_id_lem :
      (now : Time) (p : Provider) (o : Option String) (s : KeyStore T)
      → AreTrusted p s
      → ((key : T.Key)
          → (key_by_id T a now p o s).0 ≡ ok key
          → (kid : String) × ((o ≡ some kid) × IsPublished p kid key))
        × AreTrusted p (key_by_id T a now p o s).1
  by_id_lem now p none s trusted = (λ key e. absurd cc, trusted)
  by_id_lem now p (some kid) s trusted =
      let (finds, after) = signing_key_lem now kid p s trusted in
      (λ key e. (kid, (refl, finds key (found_lem (signing_key T a now kid p s).0 key e))), after)

  pub token_key_lem :
      (now : Time) (p : Provider) (t : Token) (s : KeyStore T)
      → AreTrusted p s
      → ((key : T.Key) → (token_key T a now p t s).0 ≡ ok key → IsKeyOf p t key)
        × AreTrusted p (token_key T a now p t s).1
  unfolding token_key
  token_key_lem now p t s trusted = elim (Bool-cases (t.alg == "RS256")) [
    | inr other ↦ rw other (λ key e. absurd cc, trusted)
    | inl right ↦
        let (finds, after) = by_id_lem now p t.kid s trusted in
        rw right (
          λ key e.
              (let (kid, (has_kid, published)) = finds key e in
                record {
                  alg = ground (arith, right);
                  kid = kid;
                  has_kid = has_kid;
                  published = published;
                }),
          after,
        )
  ]
