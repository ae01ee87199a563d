-- ===== src/Base/Counts.antt =====
-- How often a test passes in a slice, through the writes that the program makes to slices: with
-- every test at once this is equality as multisets.
use Prim.Native.Nat.{ℕ, zero, suc, ◌+◌, ◌-◌, ◌<◌, ◌≤◌}
use mathlib.Core.Path.{◌≡◌, refl}
use mathlib.Core.Bool.{Bool, true}
use mathlib.Core.Option.{none, some}
use mathlib.Core.List.{List, [], ◌∷◌, ◌++◌}
use native.Mathlib.Omega.{arith}
use mathlib.Core.Logic.{inl, inr}
use statiko.Base.Tests.{one_if, Bool-cases}
use statiko.Base.Lists.{length, take, get_elem?, set, count, find, find_index, length-set}

module _ {ℓ} {A : Type ℓ} (p : A → Bool) where
  pub count-append : (xs ys : List A) → count p (xs ++ ys) ≡ count p xs + count p ys
  unfolding count
  count-append [] ys = omega arith
  count-append (x ∷ xs) ys = omega (arith, count-append xs ys)

  pub count-set :
      (xs : List A) (i : ℕ) (x v : A)
      → get_elem? xs i ≡ some x
      → count p (set xs i v) + one_if (p x) ≡ count p xs + one_if (p v)
  unfolding count
  count-set [] i x v h = cc
  count-set (y ∷ xs) zero x v h = ground arith
  count-set (y ∷ xs) (suc i) x v h = omega (arith, count-set xs i x v h)

  count-take :
      (xs : List A) (k : ℕ) (last : A)
      → suc k ≡ length xs
      → get_elem? xs k ≡ some last
      → count p (take k xs) + one_if (p last) ≡ count p xs
  unfolding count
  count-take [] k last e h = cc
  count-take (x ∷ []) zero last e h = ground arith
  count-take (x ∷ y ∷ xs) zero last e h = absurd (omega arith)
  count-take (x ∷ xs) (suc k) last e h = omega (arith, count-take xs k last (omega arith) h)

module _ {ℓ} {A : Type ℓ} where
  get_elem?-set_last :
      (xs : List A) (i k : ℕ) (last : A)
      → get_elem? xs k ≡ some last
      → get_elem? (set xs i last) k ≡ some last
  get_elem?-set_last [] i k last h = h
  get_elem?-set_last (x ∷ xs) zero zero last h = refl
  get_elem?-set_last (x ∷ xs) zero (suc k) last h = h
  get_elem?-set_last (x ∷ xs) (suc i) zero last h = h
  get_elem?-set_last (x ∷ xs) (suc i) (suc k) last h = get_elem?-set_last xs i k last h

  -- `xs[i] = xs[len(xs)-1]; xs = xs[:len(xs)-1]`
  unfoldable pub swap_remove : List A → ℕ → List A
  swap_remove l i = elim (get_elem? l (length l - 1)) [
    | none ↦ l
    | some last ↦ take (length l - 1) (set l i last)
  ]

  get_last : (xs : List A) (k : ℕ) → suc k ≡ length xs → (a : A) × (get_elem? xs k ≡ some a)
  get_last [] k e = absurd (omega arith)
  get_last (x ∷ xs) zero e = (x, refl)
  get_last (x ∷ xs) (suc k) e = get_last xs k (omega arith)

  length-pos :
      (xs : List A) (i : ℕ) (x : A) → get_elem? xs i ≡ some x → suc (length xs - 1) ≡ length xs
  length-pos [] i x h = cc
  length-pos (y ∷ xs) i x h = omega arith

  -- Removing by a swap with the end takes away that element and no other.
  pub count-swap_remove :
      (p : A → Bool) (xs : List A) (i : ℕ) (x : A)
      → get_elem? xs i ≡ some x
      → count p (swap_remove xs i) + one_if (p x) ≡ count p xs
  unfolding swap_remove
  count-swap_remove p xs i x h =
      let k = length xs - 1 in
      let pos : suc k ≡ length xs = length-pos xs i x h in
      let (last, at) = get_last xs k pos in
      rw (at, swap_remove)
        (omega (
          arith,
          count-set p xs i x last h,
          count-take p (set xs i last) k last (omega (arith, length-set xs i last, pos))
              (get_elem?-set_last xs i k last at),
        ))

  -- `find` gives the element at the index that `find_index` gives, and it passes the test.
  pub find_index_lem :
      (p : A → Bool) (xs : List A) (i : ℕ)
      → find_index p xs ≡ some i
      → (x : A) × (get_elem? xs i ≡ some x) × (find p xs ≡ some x) × (p x ≡ true)
  unfolding find find_index
  find_index_lem p [] i h = cc
  find_index_lem p (x ∷ xs) zero h = (x, refl, ground arith, ground arith)
  find_index_lem p (x ∷ xs) (suc i) h =
      let (y, at, found, passes) = find_index_lem p xs i (ground arith) in
      (y, at, ground arith, passes)

  pub find_index-none :
      (p : A → Bool) (xs : List A) → find_index p xs ≡ none → (count p xs ≡ 0) × (find p xs ≡ none)
  unfolding find find_index count
  find_index-none p [] h = (refl, refl)
  find_index-none p (x ∷ xs) h = ground (arith, find_index-none p xs)

  pub count-pos :
      (p : A → Bool) (xs : List A)
      → 0 < count p xs
      → (i : ℕ) × (x : A) × (get_elem? xs i ≡ some x) × (p x ≡ true)
  unfolding count
  count-pos p [] h = elim h [ ]
  count-pos p (x ∷ xs) h = elim (Bool-cases (p x)) [
    | inl passes ↦ (0, x, refl, passes)
    | inr fails ↦ let (i, y, at, passes) = count-pos p xs (ground arith) in (suc i, y, at, passes)
  ]

  -- A sum over a slice.
  unfoldable pub sum_by : (A → ℕ) → List A → ℕ
  sum_by f [] = 0
  sum_by f (x ∷ xs) = f x + sum_by f xs

  pub sum_by-set :
      (f : A → ℕ) (xs : List A) (i : ℕ) (x v : A)
      → get_elem? xs i ≡ some x
      → sum_by f (set xs i v) + f x ≡ sum_by f xs + f v
  unfolding sum_by
  sum_by-set f [] i x v h = cc
  sum_by-set f (y ∷ xs) zero x v h = ground arith
  sum_by-set f (y ∷ xs) (suc i) x v h = omega (arith, sum_by-set f xs i x v h)

  pub find_lem :
      (p : A → Bool) (xs : List A) (x : A)
      → find p xs ≡ some x
      → (i : ℕ) × (get_elem? xs i ≡ some x) × (p x ≡ true)
  unfolding find
  find_lem p [] x h = cc
  find_lem p (y ∷ xs) x h = elim (Bool-cases (p y)) [
    | inl passes ↦ (0, ground arith, ground arith)
    | inr fails ↦ let (i, at, passes) = find_lem p xs x (ground arith) in (suc i, at, passes)
  ]

  pub find-none : (p : A → Bool) (xs : List A) → find p xs ≡ none → count p xs ≡ 0
  unfolding find count
  find-none p [] h = refl
  find-none p (x ∷ xs) h = ground (arith, find-none p xs)

  pub count-zero : (p : A → Bool) (xs : List A) → count p xs ≡ 0 → find p xs ≡ none
  unfolding find count
  count-zero p [] h = refl
  count-zero p (x ∷ xs) h = ground (arith, count-zero p xs)

  count-get :
      (p : A → Bool) (xs : List A) (i : ℕ) (x : A)
      → get_elem? xs i ≡ some x
      → p x ≡ true
      → 0 < count p xs
  unfolding count
  count-get p [] i x h passes = cc
  count-get p (y ∷ xs) zero x h passes = ground arith
  count-get p (y ∷ xs) (suc i) x h passes = omega (arith, count-get p xs i x h passes)

  -- Where a test passes at most once, whatever passes it is one element.
  pub at_most_one :
      (p : A → Bool) (xs : List A) (i j : ℕ) (x y : A)
      → count p xs ≤ 1
      → get_elem? xs i ≡ some x
      → get_elem? xs j ≡ some y
      → p x ≡ true
      → p y ≡ true
      → x ≡ y
  unfolding count
  at_most_one p [] i j x y one hi hj px py = cc
  at_most_one p (z ∷ xs) zero zero x y one hi hj px py = cc
  at_most_one p (z ∷ xs) zero (suc j) x y one hi hj px py = ground (arith, count-get p xs j y hj py)
  at_most_one p (z ∷ xs) (suc i) zero x y one hi hj px py = ground (arith, count-get p xs i x hi px)
  at_most_one p (z ∷ xs) (suc i) (suc j) x y one hi hj px py =
      at_most_one p xs i j x y (omega arith) hi hj px py
