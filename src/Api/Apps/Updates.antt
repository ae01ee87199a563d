-- ===== src/Api/Apps/Updates.antt =====
-- What is in the repository after an update.
use mathlib.Core.Path.{subst}
use statiko.Base.{
  String, ◌==◌, string_dec, Bool, true, false, ◌≡◌, refl, sym, ◌∙◌, inl, inr, Option, some, [], ◌∷◌,
  arith, Bool-cases, if◌then◌else◌,
}
use statiko.Base.Dict.{Dict, lookup, insert, lookup-insert}
use statiko.Base.Exec.{Result, ok, err, panic}
use statiko.Os.{FileSystem, IsLawful, file_exists}
use statiko.Fs.Local.{
  LocalLib, is_invalid, metadata_of, metadata_path, data_path, if_there, get_metadata, set_metadata,
}
use statiko.Fs.Local.RoundTrip.{IsFaithful, get_metadata-set_metadata}
use statiko.Api.Handler.{Flow, stop, go}
use statiko.Api.Apps.{
  UpdateRequest, with_fields, sanitize_app_name, named, then_on, value_of, reset, store_update,
  read_update, bound, app_update,
}
use statiko.Api.Apps.Laws.{
  set_field, with_fields_lem, field_lem, other_field_lem, named_lem, missing_lem,
}

-- The metadata after an update of `old`.
pub record IsUpdated (input : UpdateRequest) (old d : Dict String) : Type 0 where
  pub signature : lookup "signature" d ≡ some input.signature
  pub hash : lookup "hash" d ≡ some input.hash
  pub others :
      (k : String) → ("signature" == k) ≡ false → ("hash" == k) ≡ false → lookup k d ≡ lookup k old

other_insert :
    (k key v : String) (d : Dict String)
    → (key == k) ≡ false
    → lookup k (insert key v d) ≡ lookup k d
other_insert k key v d differ = ground (arith, lookup-insert k key v d, differ)

-- A field is stored, as the empty text where it is empty.
stored_text :
    (v : String) (o : Option String) → o ≡ some "" → (if v == "" then o else some v) ≡ some v
stored_text v o h = elim (string_dec v "") [
  | yes e ↦ ground (arith, h, e)
  | no e ↦ ground (arith, e)
]

no_metadata : (input : UpdateRequest) (old : Dict String) → IsUpdated input old [] → ⊥
unfolding lookup
no_metadata input old u = let h = u.hash in cc

module _ (lower : String → String) (F : FileSystem) (L : IsLawful F) (J : LocalLib) where
  abbrev updated : UpdateRequest → Dict String → Dict String
  updated input old =
      set_field "hash" input.hash (set_field "signature" input.signature (reset lower F J old))

  updated-IsUpdated :
      (input : UpdateRequest) (old : Dict String) → IsUpdated input old (updated input old)
  unfolding string_dec
  updated-IsUpdated input old =
      let blank : Dict String = reset lower F J old in
      let half : Dict String = set_field "signature" input.signature blank in
      let no_signature = insert "signature" "" old in
      record {
        signature =
            other_field_lem "signature" "hash" input.hash half refl
            ∙ field_lem "signature" input.signature blank
            ∙ stored_text input.signature _ (
                other_insert "signature" "hash" "" no_signature refl
                ∙ lookup-insert "signature" "signature" "" old);
        hash =
            field_lem "hash" input.hash half
            ∙ stored_text input.hash _ (
                other_field_lem "hash" "signature" input.signature blank refl
                ∙ lookup-insert "hash" "hash" "" no_signature);
        others = λ k a b.
            other_field_lem k "hash" input.hash half b
            ∙ other_field_lem k "signature" input.signature blank a
            ∙ other_insert k "hash" "" no_signature b
            ∙ other_insert k "signature" "" old a;
      }

  -- Reading metadata leaves the disk as it is.
  world_lem : (n : String) (w : F.World) → (get_metadata F J n w).1 ≡ w
  unfolding get_metadata
  world_lem n w = elim (Bool-cases (is_invalid n)) [
    | inl bad ↦ rw bad refl
    | inr good ↦ rw good (there (file_exists (F.stat (data_path F J n) w)))
  ]
    where
      there :
          (r : Result Bool)
          → (if_there F J (λ u. (metadata_of F J (F.read_file (metadata_path F J n) u), u)) r w).1
            ≡ w
      there (ok true) = refl
      there (ok false) = refl
      there (err e) = refl
      there panic = refl

  abbrev pub Holds : UpdateRequest → Dict String → Result (Option (Dict String)) → Type 0
  Holds input old r = (d : Dict String) × ((r ≡ ok (some d)) × IsUpdated input old d)

  set_lem :
      (input : UpdateRequest) (old d : Dict String) (n : String) (w : F.World)
      → IsFaithful J
      → IsUpdated input old d
      → (set_metadata F J n d w).0 ≡ ok tt
      → Holds input old (get_metadata F J n (set_metadata F J n d w).1).0
  set_lem input old [] n w faithful u h = absurd (no_metadata input old u)
  set_lem input old ((k, v) ∷ d) n w faithful u h =
      let (d', found, same) = get_metadata-set_metadata F L J faithful n k v d w h in
      (
        d',
        (
          found,
          record {
            signature = same "signature" ∙ u.signature;
            hash = same "hash" ∙ u.hash;
            others = λ j a b. same j ∙ u.others j a b;
          },
        ),
      )

  stored_lem :
      (input : UpdateRequest) (old : Dict String) (n : String) (r : Flow (Dict String))
      (w : F.World)
      → IsFaithful J
      → with_fields input.signature input.hash (reset lower F J old) ≡ r
      → (then_on lower F J r (store_update lower F J n) w).0 ≡ go tt
      → Holds input old (get_metadata F J n (then_on lower F J r (store_update lower F J n) w).1).0
  stored_lem input old n (stop r) w faithful e h = absurd cc
  stored_lem input old n (go d) w faithful e h =
      let same = with_fields_lem input.signature input.hash (reset lower F J old) d e in
      set_lem input old d n w faithful
        (subst (IsUpdated input old) (sym same) (updated-IsUpdated input old))
        (missing_lem (set_metadata F J n d w).0 tt h)

  read_lem :
      (input : UpdateRequest) (old : Option (Dict String)) (n : String) (w : F.World)
      → IsFaithful J
      → (get_metadata F J n w).0 ≡ ok old
      → (read_update lower F J input n w).0 ≡ go tt
      → Holds input
          (value_of lower F J old)
          (get_metadata F J n (read_update lower F J input n w).1).0
  read_lem input old n w faithful e h =
      rw (e, world_lem n w)
        (stored_lem input (value_of lower F J old) n _ w faithful refl (rw (e, world_lem n w) at h))

  named_update :
      IsFaithful J
      → (name : String) (input : UpdateRequest) (old : Option (Dict String)) (r : Flow String)
        (w : F.World)
      → named lower "Invalid parameter 'name' (app name)" name ≡ r
      → (get_metadata F J (sanitize_app_name lower name) w).0 ≡ ok old
      → (then_on lower F J r (bound lower F J (inr input)) w).0 ≡ go tt
      → Holds input
          (value_of lower F J old)
          (get_metadata F J
            (sanitize_app_name lower name)
            (then_on lower F J r (bound lower F J (inr input)) w).1).0
  named_update faithful name input old (stop r) w is_name e h = absurd cc
  named_update faithful name input old (go n) w is_name e h =
      let same = named_lem lower "Invalid parameter 'name' (app name)" name n is_name in
      rw (sym same) (read_lem input old n w faithful (rw same e) h)

  -- Where metadata can be decoded after it has been encoded: when an update of a bundle, whose
  -- metadata could be read before, has been answered without an error, its metadata has the signature
  -- and the hash of the request, empty ones too, and all else as before.
  pub get_metadata-app_update :
      IsFaithful J
      → (name : String) (input : UpdateRequest) (old : Option (Dict String)) (w : F.World)
      → (get_metadata F J (sanitize_app_name lower name) w).0 ≡ ok old
      → (app_update lower F J name (inr input) w).0 ≡ go tt
      → Holds input
          (value_of lower F J old)
          (get_metadata F J
            (sanitize_app_name lower name)
            (app_update lower F J name (inr input) w).1).0
  unfolding app_update
  get_metadata-app_update faithful name input old w e h =
      named_update faithful name input old _ w refl e h
