-- ===== src/Api/Apps/Laws.antt =====
-- What is in the repository after an upload and after an update.
use mathlib.Core.Path.{subst}
use statiko.Base.{
  ℕ, String, ◌==◌, string_dec, false, ◌≡◌, ◌≢◌, refl, sym, ap, ◌∙◌, ◌⊎◌, inl, inr, Option, none,
  some, [], ◌∷◌, arith, if◌then◌else◌,
}
use statiko.Base.Dict.{Dict, lookup, insert, lookup-insert}
use statiko.Base.Exec.{Error, Result, ok, err, panic}
use statiko.State.Types.{Bytes}
use statiko.Os.{FileSystem, IsLawful}
use statiko.Fs.Local.{LocalLib, get, set_with_context}
use statiko.Fs.Local.RoundTrip.{IsFaithful, get-set_with_context}
use statiko.Api.Handler.{Flow, stop, go, bind_flow}
use statiko.Api.Apps.{
  UploadRequest, or_500, with_field, with_fields, conflict_or_500, missing_or_500,
  sanitize_app_name, named, typed, check_upload, then_on, store_upload, app_upload,
}

bind_flow_inv {ℓ κ} :
    {A : Type ℓ} {B : Type κ} (r : Flow A) (f : A → Flow B) (b : B)
    → bind_flow r f ≡ go b
    → (a : A) × (r ≡ go a) × (f a ≡ go b)
bind_flow_inv (stop r) f b h = absurd cc
bind_flow_inv (go a) f b h = (a, refl, h)

-- What is stored of a field that may be empty.
abbrev pub set_field : String → String → Dict String → Dict String
set_field key v d = if v == "" then d else insert key v d

with_field_lem :
    (key : String) (limit : ℕ) (digits v : String) (d d' : Dict String)
    → with_field key limit digits v d ≡ go d'
    → d' ≡ set_field key v d
unfolding with_field
with_field_lem key limit digits v d d' h = ground (arith, h)

pub with_fields_lem :
    (signature hash : String) (d d' : Dict String)
    → with_fields signature hash d ≡ go d'
    → d' ≡ set_field "hash" hash (set_field "signature" signature d)
with_fields_lem signature hash d d' h =
    let (e, first, second) =
      bind_flow_inv (with_field "signature" 1024 "1024" signature d)
        (with_field "hash" 64 "64" hash) d' h in
    with_field_lem "hash" 64 "64" hash e d' second
    ∙ ap (set_field "hash" hash) (with_field_lem "signature" 1024 "1024" signature d e first)

pub field_lem :
    (key v : String) (d : Dict String)
    → lookup key (set_field key v d) ≡ (if v == "" then lookup key d else some v)
field_lem key v d = ground (arith, lookup-insert key key v d)

pub other_field_lem :
    (k key v : String) (d : Dict String)
    → (key == k) ≡ false
    → lookup k (set_field key v d) ≡ lookup k d
other_field_lem k key v d differ = ground (arith, lookup-insert k key v d, differ)

-- A field that is not stored where it is empty.
abbrev pub text_of : String → Option String
text_of v = if v == "" then none else some v

-- The metadata of an upload.
pub record IsMetadata (input : UploadRequest) (d : Dict String) : Type 0 where
  pub kind : lookup "type" d ≡ some input.kind
  pub signature : lookup "signature" d ≡ text_of input.signature
  pub hash : lookup "hash" d ≡ text_of input.hash

fields-IsMetadata :
    (input : UploadRequest)
    → IsMetadata input (
        set_field "hash" input.hash
          (set_field "signature" input.signature (("type", input.kind) ∷ [])))
unfolding lookup string_dec
fields-IsMetadata input =
    let stored = ("type", input.kind) ∷ [] in
    let signed = set_field "signature" input.signature stored in
    record {
      kind =
          other_field_lem "type" "hash" input.hash signed refl
          ∙ other_field_lem "type" "signature" input.signature stored refl;
      signature =
          other_field_lem "signature" "hash" input.hash signed refl
          ∙ field_lem "signature" input.signature stored;
      hash =
          field_lem "hash" input.hash signed
          ∙ ap (λ o. if input.hash == "" then o else some input.hash)
              (other_field_lem "hash" "signature" input.signature stored refl);
    }

or_500_lem {ℓ} : {A : Type ℓ} (r : Error ⊎ A) (a b : A) → r ≡ inr a → or_500 r ≡ go b → b ≡ a
or_500_lem (inl e) a b h g = absurd cc
or_500_lem (inr x) a b h g = cc

conflict_lem : (r : Result (Unit {0})) → conflict_or_500 r ≡ go tt → r ≡ ok tt
conflict_lem (ok x) h = refl
conflict_lem (err e) h = absurd (ground (arith, h))
conflict_lem panic h = absurd cc

pub missing_lem {ℓ} : {A : Type ℓ} (r : Result A) (a : A) → missing_or_500 r ≡ go a → r ≡ ok a
missing_lem (ok x) a h = cc
missing_lem (err e) a h = absurd (ground (arith, h))
missing_lem panic a h = absurd cc

no_metadata : (input : UploadRequest) → IsMetadata input [] → ⊥
unfolding lookup
no_metadata input m = let h = m.kind in cc

module _ (lower : String → String) where
  pub named_lem :
      (text name n : String) → named lower text name ≡ go n → n ≡ sanitize_app_name lower name
  named_lem text name n h = ground (arith, h)

  check_lem :
      (input : UploadRequest) (content : Bytes) (n : String) (b : Bytes) (d : Dict String)
      → input.file ≡ inr (inr content)
      → check_upload lower input ≡ go (n, (b, d))
      → (n ≡ sanitize_app_name lower input.name) × (b ≡ content) × IsMetadata input d
  unfolding check_upload
  check_lem input content n b d file h =
      let (file', opened, h1) = bind_flow_inv (or_500 input.file) _ (n, (b, d)) h in
      let (name, is_named, h2) = bind_flow_inv (named lower _ input.name) _ (n, (b, d)) h1 in
      let (u, is_typed, h3) = bind_flow_inv (typed lower input.kind) _ (n, (b, d)) h2 in
      let (content', is_read, h4) = bind_flow_inv (or_500 file') _ (n, (b, d)) h3 in
      let (d', fields, h5) =
        bind_flow_inv (with_fields input.signature input.hash (("type", input.kind) ∷ [])) _
          (n, (b, d)) h4 in
      let text : String = "Filename for the file is empty or invalid" in
      let same : d ≡ d' = cc in
      let read =
        or_500_lem file' content content' (or_500_lem input.file (inr content) file' file opened)
          is_read in
      let is_name = named_lem text input.name name is_named in
      (
        cc,
        cc,
        subst (IsMetadata input)
            (sym (
              same
              ∙ with_fields_lem input.signature input.hash (("type", input.kind) ∷ []) d' fields))
            (fields-IsMetadata input),
      )

  module _ (F : FileSystem) (L : IsLawful F) (J : LocalLib) where
    -- What a reader finds of an upload.
    abbrev pub Stores :
        UploadRequest → Bytes → Result (Option (Bytes × Option (Dict String))) → Type 0
    Stores input b r = (d : Dict String) × ((r ≡ ok (some (b, some d))) × IsMetadata input d)

    stored_lem :
        (input : UploadRequest) (content : Bytes) (n : String) (d : Dict String) (w : F.World)
        → IsFaithful J
        → content ≢ []
        → IsMetadata input d
        → (set_with_context F J n content d w).0 ≡ ok tt
        → Stores input content (get F J n (set_with_context F J n content d w).1)
    stored_lem input content n [] w faithful nonempty m h = absurd (no_metadata input m)
    stored_lem input content n ((k, v) ∷ d) w faithful nonempty m h =
        let (d', found, same) = get-set_with_context F L J faithful n content k v d w nonempty h in
        (
          d',
          (
            found,
            record {
              kind = same "type" ∙ m.kind;
              signature = same "signature" ∙ m.signature;
              hash = same "hash" ∙ m.hash;
            },
          ),
        )

    checked_lem :
        (input : UploadRequest) (content : Bytes) (r : Flow (String × (Bytes × Dict String)))
        (w : F.World)
        → IsFaithful J
        → content ≢ []
        → input.file ≡ inr (inr content)
        → check_upload lower input ≡ r
        → (then_on lower F J r (store_upload lower F J) w).0 ≡ go tt
        → Stores input content (
            get F J
              (sanitize_app_name lower input.name)
              (then_on lower F J r (store_upload lower F J) w).1)
    checked_lem input content (stop r) w faithful nonempty file checked h = absurd cc
    checked_lem input content (go (n, (b, d))) w faithful nonempty file checked h =
        let (is_name, is_content, m) = check_lem input content n b d file checked in
        rw (sym is_name, is_content)
          (stored_lem input content n d w faithful nonempty m
            (conflict_lem (set_with_context F J n content d w).0 (rw (sym is_content) h)))

    -- Where metadata can be decoded after it has been encoded: when the upload of a file that is not
    -- empty has been answered without an error, `Get` of the sanitized name gives the file, with the
    -- type of the upload, and with its signature and its hash where they are not empty.
    pub get-app_upload :
        IsFaithful J
        → (input : UploadRequest) (content : Bytes) (w : F.World) → content ≢ []
        → input.file ≡ inr (inr content)
        → (app_upload lower F J input w).0 ≡ go tt
        → Stores input content
            (get F J (sanitize_app_name lower input.name) (app_upload lower F J input w).1)
    unfolding app_upload
    get-app_upload faithful input content w nonempty file h =
        checked_lem input content (check_upload lower input) w faithful nonempty file refl h
