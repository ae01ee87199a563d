-- ===== src/Api/Apps/Tests.antt =====
-- The theorems about the repository of bundles on a disk in memory.
use statiko.Base.{String, string_dec, ◌≡◌, ◌≢◌, refl, sym, ap, ◌⊎◌, inl, inr, some, [], ◌∷◌}
use statiko.Base.Dict.{Dict, lookup, insert}
use statiko.Base.Exec.{Error, ok}
use statiko.State.Types.{Bytes}
use statiko.Os.{file_exists}
use statiko.Os.Memory.{memory, memory-IsLawful}
use statiko.State.Manager.Sites.{string_in_slice}
use statiko.Fs.Local.{
  LocalLib, is_invalid, get, metadata_of, get_metadata, set_metadata, set_with_context,
}
use statiko.Fs.Local.RoundTrip.{IsFaithful}
use statiko.Api.Handler.{go}
use statiko.Api.Certificates.{is_lower}
use statiko.Api.Apps.{
  UploadRequest, UpdateRequest, is_app_char, all_app_chars, is_app_name, byte_length,
  sanitize_app_name, with_field, check_upload, app_upload, app_update,
}
use statiko.Api.Apps.Laws.{Stores, get-app_upload}
use statiko.Api.Apps.Updates.{Holds, get_metadata-app_update}

unfoldable both :
    {k j v u : String} {d e : Dict String}
    → Dec (k ≡ j)
    → Dec (v ≡ u)
    → Dec (d ≡ e)
    → Dec (◌≡◌ {A = Dict String} ((k, v) ∷ d) ((j, u) ∷ e))
both (yes p) (yes q) (yes r) = yes (rw (p, q, r) refl)
both (yes p) (yes q) (no r) = no (λ h. r cc)
both (yes p) (no q) r = no (λ h. q cc)
both (no p) q r = no (λ h. p cc)

unfoldable dict_dec : Discrete (Dict String)
dict_dec [] [] = yes refl
dict_dec [] (y ∷ e) = no (λ h. cc)
dict_dec (x ∷ d) [] = no (λ h. cc)
dict_dec ((k, v) ∷ d) ((j, u) ∷ e) = both (string_dec k j) (string_dec v u) (dict_dec d e)

abbrev encoded : {d e : Dict String} → Dec (d ≡ e) → Error ⊎ Bytes
encoded (yes p) = inr (1 ∷ [])
encoded (no p) = inl "refused"

-- Only the metadata `one` can be encoded.
abbrev only : Dict String → LocalLib
only one = record {
  base_path = "/r/";
  parent = λ name. "";
  marshal = λ d. encoded (dict_dec d one);
  unmarshal = λ b. inr one;
}

only_lem :
    (one d : Dict String) (c : Dec (d ≡ one)) (b : Bytes)
    → encoded c ≡ inr b
    → (b ≢ [])
      × ((d' : Dict String) × ((only one).unmarshal b ≡ inr d')
          × ((k : String) → lookup k d' ≡ lookup k d))
only_lem one d (yes e) b h = (λ f. cc, (one, refl, λ k. ap (lookup k) (sym e)))
only_lem one d (no e) b h = absurd cc

only-IsFaithful : (one : Dict String) → IsFaithful (only one)
only-IsFaithful one = record { decodes = λ d. only_lem one d (dict_dec d one) }

abbrev disk : Dict Bytes
disk = ("/r/app", 5 ∷ []) ∷ ("/r/.metadata.app", 1 ∷ []) ∷ []

abbrev lower : String → String
lower s = s

abbrev upload : UploadRequest
upload = record {
  file = inr (inr (7 ∷ []));
  name = "new";
  kind = "zip";
  signature = "";
  hash = "h";
}

abbrev uploaded : Dict String
uploaded = ("type", "zip") ∷ ("hash", "h") ∷ []

uploaded_lem : (app_upload lower memory (only uploaded) upload disk).0 ≡ go tt
unfolding app_upload check_upload string_dec sanitize_app_name is_app_name is_lower all_app_chars
    is_app_char string_in_slice with_field byte_length set_with_context is_invalid file_exists
    lookup insert dict_dec both
uploaded_lem = refl

get-app_upload_example : Stores lower memory memory-IsLawful (only uploaded) upload (7 ∷ []) (
    get memory
      (only uploaded)
      (sanitize_app_name lower "new")
      (app_upload lower memory (only uploaded) upload disk).1)
get-app_upload_example =
    get-app_upload lower memory memory-IsLawful (only uploaded) (only-IsFaithful uploaded) upload
      (7 ∷ []) disk (λ e. cc) refl uploaded_lem

abbrev stored : Dict String
stored = ("type", "zip") ∷ ("signature", "s") ∷ ("hash", "") ∷ []

abbrev update : UpdateRequest
update = record { signature = "s"; hash = "" }

old_lem :
    (get_metadata memory (only stored) (sanitize_app_name lower "app") disk).0 ≡ ok (some stored)
unfolding get_metadata is_invalid string_dec sanitize_app_name is_app_name is_lower all_app_chars
    is_app_char file_exists lookup metadata_of
old_lem = refl

updated_lem : (app_update lower memory (only stored) "app" (inr update) disk).0 ≡ go tt
unfolding app_update string_dec sanitize_app_name is_app_name is_lower all_app_chars is_app_char
    get_metadata is_invalid file_exists lookup metadata_of with_field byte_length set_metadata
    insert dict_dec both
updated_lem = refl

get_metadata-app_update_example :
    Holds lower memory memory-IsLawful
      (only stored)
      update
      stored
      (get_metadata memory
        (only stored)
        (sanitize_app_name lower "app")
        (app_update lower memory (only stored) "app" (inr update) disk).1).0
get_metadata-app_update_example =
    get_metadata-app_update lower memory memory-IsLawful (only stored) (only-IsFaithful stored)
      "app" update (some stored) disk old_lem updated_lem
