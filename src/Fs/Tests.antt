-- ===== src/Fs/Tests.antt =====
-- The theorems about the local repository on a disk in memory.
use statiko.Base.{
  String, ◌==◌, string_dec, ◌&&◌, ◌≡◌, ◌≢◌, refl, ap, ◌⊎◌, inl, inr, [], ◌∷◌, arith, if◌then◌else◌,
}
use statiko.Base.Dict.{Dict, lookup, erase}
use statiko.Base.Exec.{Error, ok}
use statiko.State.Types.{Bytes}
use statiko.Os.Memory.{memory}
use statiko.Fs.Local.{LocalLib, is_invalid, delete}
use statiko.Fs.Local.RoundTrip.{IsFaithful}

abbrev k_dict : Dict String
k_dict = ("k", "v") ∷ []

-- Only one dictionary can be encoded.
abbrev encode : Dict String → Error ⊎ Bytes
encode [] = inl "refused"
encode ((k, v) ∷ []) = if k == "k" && v == "v" then inr (1 ∷ []) else inl "refused"
encode (x ∷ y ∷ d) = inl "refused"

abbrev local : LocalLib
local = record {
  base_path = "/r/";
  parent = λ name. "";
  marshal = encode;
  unmarshal = λ b. inr k_dict;
}

encode_lem :
    (d : Dict String) (b : Bytes)
    → encode d ≡ inr b
    → (b ≢ [])
      × ((d' : Dict String) × (local.unmarshal b ≡ inr d')
          × ((k : String) → lookup k d' ≡ lookup k d))
encode_lem [] b h = absurd cc
encode_lem ((k, v) ∷ []) b h = elim (string_dec k "k") [
  | yes a ↦ elim (string_dec v "v") [
    | yes c ↦ (
      nonempty (ground (arith, a, c, h)),
      (
        k_dict,
        refl,
        λ q. ap (λ (p : String × String). lookup q ((p.0, p.1) ∷ [])) (rw (a, c) refl),
      ),
    )
    | no c ↦ absurd (ground (arith, a, c, h))
  ]
  | no a ↦ absurd (ground (arith, a, h))
]
  where
    nonempty : {x : Bytes} → (1 ∷ []) ≡ x → x ≢ []
    nonempty e f = cc
encode_lem (x ∷ y ∷ d) b h = absurd cc

local-IsFaithful : IsFaithful local
local-IsFaithful = record { decodes = encode_lem }

abbrev disk : Dict Bytes
disk = ("/r/app", 5 ∷ []) ∷ ("/r/.metadata.app", 1 ∷ []) ∷ ("/r/other", 6 ∷ []) ∷ []

deleted_lem : (delete memory local "app" disk).0 ≡ ok tt
unfolding delete is_invalid lookup string_dec erase
deleted_lem = refl
