-- ===== src/Webserver/Manifest.antt =====
-- webserver/nginx.go, utils/headers.go and utils/app-manifest.go: the rules in the manifest of an
-- app, and the options that are left out of the configuration.
use text.Mathlib.Text.{starts_with}
use Prim.Native.String
use Prim.Native.String.{len}
use statiko.Base.{
  ℕ, String, ◌<>◌, ◌==◌, ltb, Bool, true, false, not, ◌&&◌, ◌||◌, Option, none, some, List, [], ◌∷◌,
  if◌then◌else◌,
}
use statiko.Base.Dict.{Dict, insert}
use statiko.Base.Exec.{Result, ok, err, panic}
use statiko.Webserver.Escape.{escape_config_string}

pub record RuleOptions : Type 0 where
  pub deny : Bool
  pub client_caching : String
  pub headers : Dict String
  pub clean_headers : Dict String
  pub proxy : String

pub record Rule : Type 0 where
  pub exact : String
  pub prefix : String
  pub matches : String
  pub case_sensitive : Bool
  pub file : String
  pub options : RuleOptions

pub record AppManifest : Type 0 where
  pub rules : List Rule
  pub rewrite : Dict String
  pub page403 : String
  pub page404 : String
  pub locations : Dict RuleOptions

abbrev pub empty_manifest : AppManifest
empty_manifest = record { rules = []; rewrite = []; page403 = ""; page404 = ""; locations = [] }

-- `to_lower` is `strings.ToLower`, `byte_count` the length of a text in bytes, `bars_for_commas`
-- replaces each comma by a bar, `is_caching` is the regular expression of `clientCaching`, and
-- `scheme` is that of a URL if the text is one.
pub record TextLib : Type 0 where
  pub to_lower : String → String
  pub byte_count : String → ℕ
  pub bars_for_commas : String → String
  pub is_caching : String → Bool
  pub scheme : String → Option String

abbrev is_listed : String → Bool
is_listed name =
    name == "expires"
    || name == "cache-control"
    || name == "content-disposition"
    || name == "content-encoding"
    || name == "content-language"
    || name == "content-md5"
    || name == "content-security-policy"
    || name == "content-type"
    || name == "last-modified"
    || name == "link"
    || name == "location"
    || name == "p3p"
    || name == "pragma"
    || name == "refresh"
    || name == "set-cookie"
    || name == "vary"
    || name == "warning"

-- The first two bytes are taken whatever the length of the name.
unfoldable pub header_is_allowed : TextLib → String → Result Bool
header_is_allowed X name =
    if ltb (X.byte_count (X.to_lower name)) 2
    then panic
    else ok (starts_with (X.to_lower name) "x-" || is_listed (X.to_lower name))

abbrev add_header : String → String → Result Bool → Result (Dict String) → Result (Dict String)
add_header k v (ok true) (ok d) = ok (insert (escape_config_string k) (escape_config_string v) d)
add_header k v (ok false) r = r
add_header k v (ok true) (err e) = err e
add_header k v (ok true) panic = panic
add_header k v (err e) r = err e
add_header k v panic r = panic

-- The loop over the headers.
unfoldable pub clean : TextLib → Dict String → Result (Dict String)
clean X [] = ok []
clean X ((k, v) ∷ d) = add_header k v (header_is_allowed X k) (clean X d)

abbrev is_http : Option String → Bool
is_http none = false
is_http (some s) = s == "http" || s == "https"

abbrev with_headers : TextLib → RuleOptions → Result (Dict String) → Result RuleOptions
with_headers X v (ok d) = ok (record v {
  client_caching = if X.is_caching v.client_caching then v.client_caching else "";
  clean_headers = d;
  proxy = if is_http (X.scheme v.proxy) then v.proxy else "";
})
with_headers X v (err e) = err e
with_headers X v panic = panic

-- `sanitizeManifestRuleOptions`; no clean headers stand for nil too.
unfoldable pub sanitize_manifest_rule_options : TextLib → RuleOptions → Result RuleOptions
sanitize_manifest_rule_options X v = with_headers X v (clean X v.headers)

-- A rule with more than one type of match.
unfoldable pub has_several_types : Rule → Bool
has_several_types v =
    not (v.matches == "") && (not (v.exact == "") || not (v.file == "") || not (v.prefix == ""))
    || not (v.exact == "") && (not (v.matches == "") || not (v.file == "") || not (v.prefix == ""))
    || not (v.file == "") && (not (v.matches == "") || not (v.exact == "") || not (v.prefix == ""))
    || not (v.prefix == "") && (not (v.matches == "") || not (v.exact == "") || not (v.file == ""))

abbrev file_pattern : TextLib → String → String
file_pattern X f =
    if f == "_images"
    then " ~* \\.(jpg|jpeg|png|gif|ico|svg|svgz|webp|tif|tiff|dng|psd|heif|bmp)$"
    else if f == "_videos"
    then "~* \\.(mp4|m4v|mkv|webm|avi|mpg|mpeg|ogg|wmv|flv|mov)$"
    else if f == "_audios"
    then "~* \\.(mp3|mp4|aac|m4a|flac|wav|ogg|wma)$"
    else if f == "_fonts"
    then "~* \\.(woff|woff2|eot|otf|ttf)$"
    else "~* \\.(" <> X.bars_for_commas f <> ")$"

-- The block for a rule, if it has a type of match.
unfoldable pub location_of : TextLib → Rule → Option String
location_of X v =
    if not (v.exact == "")
    then some ("= " <> v.exact)
    else if not (v.prefix == "")
    then some (if v.prefix == "/" then "/" else "^~ " <> v.prefix)
    else if not (v.matches == "")
    then some (if v.case_sensitive then "~ " <> v.matches else "~* " <> v.matches)
    else if not (v.file == "")
    then some (file_pattern X v.file)
    else none

abbrev put_location :
    Option String → Result RuleOptions → Dict RuleOptions → Result (Dict RuleOptions)
put_location none r d = ok d
put_location (some l) (ok o) d = ok (insert l o d)
put_location (some l) (err e) d = err e
put_location (some l) panic d = panic

abbrev put_rule : TextLib → Rule → Dict RuleOptions → Result (Dict RuleOptions)
put_rule X v d =
    if has_several_types v
    then ok d
    else put_location (location_of X v) (sanitize_manifest_rule_options X v.options) d

abbrev and_then :
    Result (Dict RuleOptions)
    → (Dict RuleOptions → Result (Dict RuleOptions))
    → Result (Dict RuleOptions)
and_then (ok d) f = f d
and_then (err e) f = err e
and_then panic f = panic

-- The loop over the rules, whose later ones replace earlier ones with the same block.
unfoldable pub locations_of : TextLib → List Rule → Dict RuleOptions → Result (Dict RuleOptions)
locations_of X [] d = ok d
locations_of X (v ∷ l) d = and_then (put_rule X v d) (locations_of X l)

-- The page of an error, without a slash in front.
unfoldable pub page_path : String → String
page_path p = if ltb 1 (len p) && starts_with p "/" then String.slice p 1 (len p) else p

abbrev pub with_locations : AppManifest → Result (Dict RuleOptions) → Result AppManifest
with_locations a (ok d) =
    ok (record a { locations = d; page404 = page_path a.page404; page403 = page_path a.page403 })
with_locations a (err e) = err e
with_locations a panic = panic

-- What `createConfigurationFile` does with the manifest.
unfoldable pub validate_manifest : TextLib → AppManifest → Result AppManifest
validate_manifest X a = with_locations a (locations_of X a.rules [])
