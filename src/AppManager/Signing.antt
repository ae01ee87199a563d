-- ===== src/AppManager/Signing.antt =====
-- appmanager/appmanager.go: loading the key that apps are signed with. PEM and X.509 are parameters.
use text.Mathlib.Text.{starts_with}
use statiko.Base.{
  String, ◌==◌, Bool, true, false, ◌≡◌, ◌≢◌, ◌⊎◌, inl, inr, Option, none, some, [], ◌∷◌,
  if◌then◌else◌,
}
use statiko.Base.Exec.{Result, ok, err, panic}
use statiko.State.Types.{Bytes}
use statiko.Os.{OsError, FileSystem, file_exists}

pub record PemBlock : Type 0 where
  pub kind : String
  pub content : Bytes

-- `parse_pkcs1` and `parse_pkix` give a key of RSA or none: an error, a nil and a key of another
-- kind all count as none.
pub record KeyLib : Type 1 where
  pub Key : Type 0
  pub pem_decode : String → Option PemBlock
  pub parse_pkcs1 : Bytes → Option Key
  pub parse_pkix : Bytes → Option Key
  pub to_string : Bytes → String

-- The options `codesign.publicKey` and `codesign.required`.
pub record CodesignConfig : Type 0 where
  pub public_key : String
  pub required : Bool

module _ (F : FileSystem) (K : KeyLib) where
  abbrev pub contents : OsError ⊎ Bytes → Option String
  contents (inl e) = none
  contents (inr []) = none
  contents (inr (x ∷ b)) = some (K.to_string (x ∷ b))

  -- The key in PEM, from the option itself or from the file that it names.
  unfoldable pub pem_key : String → F.World → Option String
  pem_key key w =
      if key == ""
      then none
      else if starts_with key "-----BEGIN"
      then some key
      else elim (file_exists (F.stat key w)) [
        | ok true ↦ contents (F.read_file key w)
        | ok false ↦ none
        | err e ↦ none
        | panic ↦ none
      ]

  abbrev pub parse_block : String → Bytes → Option K.Key
  parse_block kind [] = none
  parse_block kind (x ∷ b) =
      if kind == "RSA PUBLIC KEY"
      then K.parse_pkcs1 (x ∷ b)
      else if kind == "PUBLIC KEY"
      then K.parse_pkix (x ∷ b)
      else none

  abbrev pub key_of_block : Option PemBlock → Option K.Key
  key_of_block none = none
  key_of_block (some p) = parse_block p.kind p.content

  unfoldable pub parse_key : Option String → Option K.Key
  parse_key none = none
  parse_key (some pem) = key_of_block (K.pem_decode pem)

  abbrev pub key_or_error : Bool → Option K.Key → Result (Option K.Key)
  key_or_error required (some k) = ok (some k)
  key_or_error required none =
      if required
      then err "codesign.required is true, but no valid key found in codesign.publicKey"
      else ok none

  -- `LoadSigningKey`: the key that the manager has afterwards.
  unfoldable pub load_signing_key : CodesignConfig → F.World → Result (Option K.Key)
  load_signing_key c w = key_or_error c.required (parse_key (pem_key c.public_key w))

  key_or_error_lem : (o r : Option K.Key) → key_or_error true o ≡ ok r → r ≢ none
  key_or_error_lem none r h = absurd cc
  key_or_error_lem (some k) r h = cc

  -- Where signatures are required, a manager that has loaded its settings without an error has a
  -- key.
  pub load_signing_key_required :
      (c : CodesignConfig) (w : F.World) (k : Option K.Key)
      → c.required ≡ true
      → load_signing_key c w ≡ ok k
      → k ≢ none
  unfolding load_signing_key
  load_signing_key_required c w k required h =
      key_or_error_lem (parse_key (pem_key c.public_key w)) k (rw required at h)
