-- ===== src/Api/Patch/Steps.antt =====
-- The steps of PATCH /site/:domain keep the sites, and what they make of the site may take its place.
use mathlib.Core.Path.{subst}
use statiko.Base.{
  ltb, length, ◌≡◌, ◌⊎◌, inl, inr, refl, ap, sym, ◌∙◌, String, Bool, true, false, Option, none,
  some, List, [], ◌∷◌, ◌++◌, find, find_lem, at_most_one, arith, Bool-cases, Option-cases,
  if◌then◌else◌, ◌==◌,
}
use statiko.Base.Dict.{Dict}
use statiko.State.Types.{
  SiteTls, SiteState, tls_imported, tls_azure_key_vault, tls_self_signed, tls_acme,
}
use statiko.State.Store.{StateStore, IsLawful}
use statiko.State.Manager.Secrets.{Crypto}
use statiko.State.Manager.Sites.{claims, string_in_slice, get_site}
use statiko.State.Manager.Sites.Unique.{IsUnique, IsFree}
use statiko.Api.Handler
use statiko.Api.Handler.{Node, Flow, stop, go, Handler, and_then, call}
use statiko.Api.Sites.{Env, imported_exists}
use statiko.Api.Sites.Consistency.{
  Holds, imported_exists-Holds, get_site_lem, string_in_slice-append,
}
use statiko.Api.Patch.{
  Scalar, null, string, other, Value, null_value, object, array, other_value, Draft, text_at,
  certificate_name, patch_kind, patch_imported, patch_tls, alias_or_404, patch_alias, patch_list,
  no_aliases, patch_names, patch_aliases, patch_field, patch_fields,
}

claims-no_aliases :
    (s : SiteState) (d : String) → claims d (record s { aliases = [] }) ≡ true → claims d s ≡ true
unfolding claims
claims-no_aliases s d h = ground arith

claims-tls :
    (s : SiteState) (t : Option SiteTls) (d : String) → claims d (record s { tls = t }) ≡ claims d s
unfolding claims
claims-tls s t d = refl

string_in_slice-ltb :
    (l : List String) (d : String) → string_in_slice l d ≡ true → ltb 0 (length l) ≡ true
unfolding string_in_slice
string_in_slice-ltb [] d h = cc
string_in_slice-ltb (x ∷ l) d h = ground arith

claims-add_alias :
    (s : SiteState) (a d : String)
    → claims d (record s { aliases = s.aliases ++ a ∷ [] }) ≡ true
    → (claims d s ≡ true) ⊎ (a ≡ d)
unfolding claims string_in_slice
claims-add_alias s a d h =
    ground (arith, string_in_slice-append s.aliases a d, string_in_slice-ltb s.aliases d)

-- A site of the list owns its names in it.
pub owned-IsFree :
    (l : List SiteState) (d : String) (site : SiteState)
    → IsUnique l
    → find (claims d) l ≡ some site
    → IsFree l site
owned-IsFree l d site unique found e claimed = elim (Option-cases (find (claims e) l)) [
  | inl nobody ↦ inl nobody
  | inr owner ↦
      let (y, there) = owner in
      let (i, at, passes) = find_lem (claims d) l site found in
      let (j, at', passes') = find_lem (claims e) l y there in
      let same = at_most_one (claims e) l j i y site (unique e) at' at passes' claimed in
      inr (y, there, ap (λ (x : SiteState). x.domain) same)
]

module _ (S : StateStore) (L : IsLawful S) (c : Crypto) (e : Env) (l : List SiteState) where
  -- What a step leaves: the same sites, and a value with the property unless it has stopped.
  unfoldable pub Goes : {A : Type 0} → (A → Type 0) → Flow A → Type 0
  Goes G (stop r) = Unit
  Goes G (go a) = G a

  abbrev pub Keeps : {A : Type 0} → (A → Type 0) → Flow A × Node S → Type 0
  Keeps G r = Goes G r.0 × Holds S L l r.1.manager

  continue-Keeps :
      {A B : Type 0} (G : A → Type 0) (H : B → Type 0) (r : Flow A) (f : A → Handler S B)
      (n : Node S)
      → Keeps G (r, n)
      → ((a : A) → G a → Keeps H (f a n))
      → Keeps H (Handler.continue S r f n)
  unfolding Goes
  continue-Keeps G H (stop r) f n (good, held) run = (tt, held)
  continue-Keeps G H (go a) f n (good, held) run = run a good

  and_then-Keeps :
      {A B : Type 0} (G : A → Type 0) (H : B → Type 0) (h : Handler S A) (f : A → Handler S B)
      (n : Node S)
      → Keeps G (h n)
      → ((a : A) (k : Node S) → G a → Holds S L l k.manager → Keeps H (f a k))
      → Keeps H (and_then S h f n)
  and_then-Keeps G H h f n kept run =
      continue-Keeps G H (h n).0 f (h n).1 kept (λ a good. run a (h n).1 good kept.1)

  if-Keeps :
      {A : Type 0} (G : A → Type 0) (b : Bool) (x y : Handler S A) (n : Node S)
      → (b ≡ true → Keeps G (x n))
      → (b ≡ false → Keeps G (y n))
      → Keeps G ((if b then x else y) n)
  if-Keeps G true x y n p q = p refl
  if-Keeps G false x y n p q = q refl

  abbrev Any : {A : Type 0} → A → Type 0
  Any a = Unit

  any : {A : Type 0} (r : Flow A) → Goes Any r
  unfolding Goes
  any (stop r) = tt
  any (go a) = tt

  patch_imported-Keeps :
      (fields : Dict Scalar) (n : Node S)
      → Holds S L l n.manager
      → Keeps Any (patch_imported S c e fields n)
  patch_imported-Keeps fields n held =
      continue-Keeps Any Any (certificate_name "imported" (text_at "cert" fields)) _ n (any _, held)
        (λ name _.
          and_then-Keeps Any Any (imported_exists S c e name) _ n
            (any _, imported_exists-Holds S L c e name l n held) (λ u k _ kept. (any _, kept)))

  patch_kind-Keeps :
      (site : SiteState) (fields : Dict Scalar) (o : Option String) (n : Node S)
      → Holds S L l n.manager
      → Keeps Any (patch_kind S c e site fields o n)
  unfolding patch_kind
  patch_kind-Keeps site fields none n held = (any _, held)
  patch_kind-Keeps site fields (some kind) n held =
      if-Keeps Any (kind == tls_acme) _ _ n (λ _. (any _, held))
        (λ _.
          if-Keeps Any (kind == tls_self_signed) _ _ n (λ _. (any _, held))
            (λ _.
              if-Keeps Any (kind == tls_imported) _ _ n (λ _. patch_imported-Keeps fields n held)
                (λ _.
                  if-Keeps Any (kind == tls_azure_key_vault) _ _ n (λ _. (any _, held))
                    (λ _. (any _, held)))))

  module _ (domain : String) where
    -- A draft of the site with that domain that may take its place.
    abbrev pub Fits : SiteState → Type 0
    Fits site = IsFree l site × (site.domain ≡ domain)

    abbrev pub FitsDraft : Draft → Type 0
    FitsDraft d = Fits d.site

    no_aliases-Fits : (site : SiteState) → Fits site → Fits (record site { aliases = [] })
    no_aliases-Fits site (free, same) =
        ((λ d claimed. free d (claims-no_aliases site d claimed)), same)

    tls-Fits : (site : SiteState) (t : Option SiteTls) → Fits site → Fits (record site { tls = t })
    tls-Fits site t (free, same) =
        ((λ d claimed. free d (sym (claims-tls site t d) ∙ claimed)), same)

    patch_tls-Keeps :
        (v : Value) (d : Draft) (n : Node S)
        → FitsDraft d
        → Holds S L l n.manager
        → Keeps FitsDraft (patch_tls S c e v d n)
    unfolding patch_tls Goes
    patch_tls-Keeps (object fields) d n fits held =
        and_then-Keeps Any FitsDraft (patch_kind S c e d.site fields (text_at "type" fields)) _ n
          (patch_kind-Keeps d.site fields (text_at "type" fields) n held)
          (λ t k _ kept. (tls-Fits d.site (some t) fits, kept))
    patch_tls-Keeps null_value d n fits held = (fits, held)
    patch_tls-Keeps (array xs) d n fits held = (fits, held)
    patch_tls-Keeps other_value d n fits held = (fits, held)

    -- The alias is free, or the site has it already.
    add_alias-Fits :
        (site : SiteState) (a : String)
        → Fits site
        → (find (claims a) l ≡ none)
          ⊎ ((y : SiteState) × (find (claims a) l ≡ some y) × (y.domain ≡ site.domain))
        → Fits (record site { aliases = site.aliases ++ a ∷ [] })
    add_alias-Fits site a (free, same) owner = (allowed, same)
      where
        allowed : IsFree l (record site { aliases = site.aliases ++ a ∷ [] })
        allowed d claimed = elim (claims-add_alias site a d claimed) [
          | inl before ↦ free d before
          | inr new ↦
              subst
                (λ (x : String).
                  (find (claims x) l ≡ none)
                  ⊎ ((y : SiteState) × (find (claims x) l ≡ some y) × (y.domain ≡ site.domain)))
                new owner
        ]

    alias_or_404-Goes :
        (site : SiteState) (a : String) (o : Option SiteState)
        → find (claims a) l ≡ o
        → Fits site
        → Goes Fits (alias_or_404 S c e site a o)
    unfolding Goes
    alias_or_404-Goes site a none found fits = add_alias-Fits site a fits (inl found)
    alias_or_404-Goes site a (some o) found fits = elim (Bool-cases (o.domain == site.domain)) [
      | inl same ↦ rw same (add_alias-Fits site a fits (inr (o, found, ground arith)))
      | inr differs ↦ rw differs tt
    ]

    patch_alias-Goes :
        (site : SiteState) (x : Scalar) (n : Node S)
        → Fits site
        → Holds S L l n.manager
        → Goes Fits (patch_alias S c e site x n)
    unfolding patch_alias Goes
    patch_alias-Goes site null n fits held = tt
    patch_alias-Goes site other n fits held = tt
    patch_alias-Goes site (string a) n fits held =
        alias_or_404-Goes site a (get_site S a n.manager)
          (sym (get_site_lem S L l n.manager held a)) fits

    patch_list-Keeps :
        (xs : List Scalar) (site : SiteState) (n : Node S)
        → Fits site
        → Holds S L l n.manager
        → Keeps Fits (patch_list S c e xs site n)
    unfolding patch_list Goes
    patch_list-Keeps [] site n fits held = (fits, held)
    patch_list-Keeps (x ∷ xs) site n fits held =
        continue-Keeps Fits Fits (patch_alias S c e site x n) (patch_list S c e xs) n
          (patch_alias-Goes site x n fits held, held) (λ s good. patch_list-Keeps xs s n good held)

    patch_names-Keeps :
        (v : Value) (d : Draft) (n : Node S)
        → FitsDraft d
        → Holds S L l n.manager
        → Keeps FitsDraft (patch_names S c e v d n)
    unfolding Goes
    patch_names-Keeps null_value d n fits held = (no_aliases-Fits d.site fits, held)
    patch_names-Keeps (array xs) d n fits held =
        and_then-Keeps Fits FitsDraft (patch_list S c e xs (no_aliases S c e d.site)) _ n
          (patch_list-Keeps xs (no_aliases S c e d.site) n (no_aliases-Fits d.site fits) held)
          (λ s k good kept. (good, kept))
    patch_names-Keeps (object fields) d n fits held = (fits, held)
    patch_names-Keeps other_value d n fits held = (fits, held)

    module _ (to_lower : String → String) where
      patch_field-Keeps :
          (key : String) (v : Value) (d : Draft) (n : Node S)
          → FitsDraft d
          → Holds S L l n.manager
          → Keeps FitsDraft (patch_field S c e to_lower key v d n)
      unfolding Goes patch_aliases
      patch_field-Keeps key v d n fits held =
          if-Keeps FitsDraft (to_lower key == "tls") _ _ n (λ _. patch_tls-Keeps v d n fits held)
            (λ _.
              if-Keeps FitsDraft (to_lower key == "aliases") _ _ n
                (λ _.
                  if-Keeps FitsDraft d.site.temporary _ _ n (λ _. (tt, held))
                    (λ _. patch_names-Keeps v d n fits held))
                (λ _. (fits, held)))

      pub patch_fields-Keeps :
          (fields : List (String × Value)) (d : Draft) (n : Node S)
          → FitsDraft d
          → Holds S L l n.manager
          → Keeps FitsDraft (patch_fields S c e to_lower fields d n)
      unfolding patch_fields Goes
      patch_fields-Keeps [] d n fits held = (fits, held)
      patch_fields-Keeps ((key, v) ∷ fields) d n fits held =
          and_then-Keeps FitsDraft FitsDraft (patch_field S c e to_lower key v d)
            (patch_fields S c e to_lower fields) n (patch_field-Keeps key v d n fits held)
            (λ d' k good kept. patch_fields-Keeps fields d' k good kept)
