-- ===== src/Base/Entries.antt =====
-- A map entry by entry: the first one and the others.
use Prim.Native.String.{String}
use mathlib.Core.Path.{◌≡◌, refl, ◌∙◌}
use mathlib.Core.Logic.{◌≢◌, inl, inr}
use mathlib.Core.Option.{none, some}
use mathlib.Core.List.{[], ◌∷◌}
use native.Mathlib.Omega.{arith}
use statiko.Base.Tests.{◌==◌, string_dec, Bool-cases}
use statiko.Base.Dict.{Dict, lookup, insert, lookup-insert}

module _ {ℓ} {V : Type ℓ} where
  pub in_tail :
      (k key : String) (v b : V) (l : Dict V)
      → k ≢ key
      → lookup key l ≡ some b
      → lookup key ((k, v) ∷ l) ≡ some b
  unfolding lookup string_dec
  in_tail k key v b l differs e = ground (arith, differs, e)

  pub of_tail :
      (k key : String) (v b : V) (l : Dict V)
      → k ≢ key
      → lookup key ((k, v) ∷ l) ≡ some b
      → lookup key l ≡ some b
  unfolding lookup string_dec
  of_tail k key v b l differs e = ground (arith, differs, e)

  pub nothing : (key : String) (b : V) → lookup key [] ≡ some b → ⊥
  unfolding lookup
  nothing key b e = cc

  pub at_head : (k : String) (v : V) (l : Dict V) → lookup k ((k, v) ∷ l) ≡ some v
  unfolding lookup
  at_head k v l = elim (Bool-cases (k == k)) [
    | inl same ↦ rw same refl
    | inr other ↦ absurd (ground (arith, other))
  ]

  pub of_head :
      (k key : String) (v b : V) (l : Dict V) → k ≡ key → lookup key ((k, v) ∷ l) ≡ some b → v ≡ b
  of_head k key v b l same e = cc (at_head k v l, same, e)

  -- The keys are different, as those of a map are.
  unfoldable pub AreDifferent : Dict V → Type ℓ
  AreDifferent [] = Unit
  AreDifferent ((key, b) ∷ l) = (lookup key l ≡ none) × AreDifferent l

  pub other_key :
      (k key : String) (b : V) (l : Dict V) → lookup k l ≡ none → lookup key l ≡ some b → k ≢ key
  other_key k key b l absent present same = cc

  pub at_insert : (k : String) (v : V) (d : Dict V) → lookup k (insert k v d) ≡ some v
  at_insert k v d = elim (Bool-cases (k == k)) [
    | inl same ↦ lookup-insert k k v d ∙ rw same refl
    | inr other ↦ absurd (ground (arith, other))
  ]

  pub other_insert :
      (i k : String) (v : V) (d : Dict V) → i ≢ k → lookup k (insert i v d) ≡ lookup k d
  unfolding string_dec
  other_insert i k v d differs = ground (arith, differs, lookup-insert k i v d)
