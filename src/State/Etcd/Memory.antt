-- ===== src/State/Etcd/Memory.antt =====
-- A cluster of keys in memory, which meets what the program relies on.
use text.Mathlib.Text.{starts_with}
use text.Mathlib.TextEquality.{starts_with_iff}
use text.Mathlib.TextPositions.{starts_with-append}
use mathlib.Core.Path.{subst}
use statiko.Base.{
  String, ◌<>◌, ◌==◌, Bool, true, false, not, ◌≡◌, ◌≢◌, inl, inr, refl, sym, ap, ◌∙◌, Option, none,
  some, List, [], ◌∷◌, arith, Bool-cases, if◌then◌else◌,
}
use statiko.Base.Dict.{Dict, lookup, insert, erase, lookup-erase}
use statiko.Base.Entries.{at_insert, other_insert}
use statiko.State.Types.{Bytes}
use statiko.AppManager.Bundles.{bytes_eq}
use statiko.State.Etcd.{Etcd, Transaction, IsKeyValue, AreUnder}

abbrev answer : Bool → Transaction
answer b = record { succeeded = b; revision = 1 }

abbrev absent : String → Bytes → Option Bytes → Dict Bytes → Transaction × Dict Bytes
absent k b none s = (answer true, insert k b s)
absent k b (some x) s = (answer false, s)

abbrev other : String → Bytes → Option Bytes → Dict Bytes → Transaction × Dict Bytes
other k b none s = (answer false, s)
other k b (some x) s = (answer (not (bytes_eq x b)), insert k b s)

-- The entries whose keys begin with a prefix.
unfoldable pub range : String → Dict Bytes → List (String × Bytes)
range p [] = []
range p ((j, b) ∷ d) = let rest = range p d in if starts_with j p then (j, b) ∷ rest else rest

abbrev pub memory_etcd : Etcd
memory_etcd = record {
  Server = Dict Bytes;
  grant = λ ttl s. (inr 1, s);
  keep_alive = λ l s. (none, s);
  revoke = λ l s. (none, s);
  put_if_absent = λ k b l s. (inr (absent k b (lookup k s) s).0, (absent k b (lookup k s) s).1);
  put_if_other = λ k b l s. (inr (other k b (lookup k s) s).0, (other k b (lookup k s) s).1);
  put = λ k b s. (none, insert k b s);
  delete = λ k s. (none, erase k s);
  get = λ k s. (inr (lookup k s), s);
  get_prefix = λ p s. (inr (range p s), s);
  revision = λ s. 1;
  connection = λ s. none;
  sleep = λ s. s;
}

absent_lem :
    (k : String) (b : Bytes) (o : Option Bytes) (s : Dict Bytes)
    → lookup k s ≡ o
    → (absent k b o s).0.succeeded ≡ true
    → lookup k (absent k b o s).1 ≡ some b
absent_lem k b none s e h = at_insert k b s
absent_lem k b (some x) s e h = absurd cc

present_lem :
    (k : String) (b : Bytes) (o : Option Bytes) (s : Dict Bytes)
    → lookup k s ≡ o
    → (absent k b o s).0.succeeded ≡ false
    → (x : Bytes) × (lookup k (absent k b o s).1 ≡ some x)
present_lem k b none s e h = absurd cc
present_lem k b (some x) s e h = (x, e)

absent_frame :
    (k j : String) (b : Bytes) (o : Option Bytes) (s : Dict Bytes)
    → k ≢ j
    → lookup j (absent k b o s).1 ≡ lookup j s
absent_frame k j b none s h = other_insert k j b s h
absent_frame k j b (some x) s h = refl

other_frame :
    (k j : String) (b : Bytes) (o : Option Bytes) (s : Dict Bytes)
    → k ≢ j
    → lookup j (other k b o s).1 ≡ lookup j s
other_frame k j b none s h = refl
other_frame k j b (some x) s h = other_insert k j b s h

prefix_lem : (j p : String) → starts_with j p ≡ true → (k : String) × (j ≡ p <> k)
prefix_lem j p h = let (k, e) = (starts_with_iff j p).0 h in (k, sym e)

same_lem : (a b : String) → (a == b) ≡ true → a ≡ b
same_lem a b h = ground (arith, h)

outside_lem : (j p k : String) → starts_with j p ≡ false → j ≢ (p <> k)
outside_lem j p k outside e =
    cc (sym outside ∙ ap (λ x. starts_with x p) e ∙ starts_with-append p k)

range_lem : (p k : String) (d : Dict Bytes) → lookup (p <> k) (range p d) ≡ lookup (p <> k) d
unfolding range lookup
range_lem p k [] = refl
range_lem p k ((j, b) ∷ d) = elim (Bool-cases (starts_with j p)) [
  | inl under ↦ rw (under, range_lem p k d) refl
  | inr outside ↦ elim (Bool-cases (j == (p <> k))) [
    | inl same ↦ absurd (outside_lem j p k outside (same_lem j (p <> k) same))
    | inr differs ↦ rw (outside, differs) (range_lem p k d)
  ]
]

range-AreUnder : (p : String) (d : Dict Bytes) → AreUnder p (range p d)
unfolding AreUnder range
range-AreUnder p [] = tt
range-AreUnder p ((j, b) ∷ d) = elim (Bool-cases (starts_with j p)) [
  | inl under ↦ rw under (prefix_lem j p under, range-AreUnder p d)
  | inr outside ↦ rw outside (range-AreUnder p d)
]

erased : (k : String) (d : Dict Bytes) → lookup k (erase k d) ≡ none
erased k d = ground (arith, lookup-erase k k d)

erased_none : (k j : String) (d : Dict Bytes) → lookup j d ≡ none → lookup j (erase k d) ≡ none
erased_none k j d h = ground (arith, lookup-erase j k d, h)

erased_other : (k j : String) (d : Dict Bytes) → k ≢ j → lookup j (erase k d) ≡ lookup j d
erased_other k j d differs = ground (arith, lookup-erase j k d, differs)

pub memory_etcd-IsKeyValue : IsKeyValue memory_etcd
memory_etcd-IsKeyValue = record {
  value = λ k s. lookup k s;
  absent = λ k b l s t put h. absent_lem k b (lookup k s) s refl (ground (arith, put, h));
  present = λ k b l s t put h. present_lem k b (lookup k s) s refl (ground (arith, put, h));
  absent_other = λ k j b l s differs. absent_frame k j b (lookup k s) s differs;
  other = λ k b x l s t there put. rw there (at_insert k b s);
  other_other = λ k j b l s differs. other_frame k j b (lookup k s) s differs;
  put = λ k b s e. at_insert k b s;
  deleted = λ k s e. erased k s;
  still_none = λ k j s e. erased_none k j s e;
  deleted_other = λ k j s e. erased_other k j s e;
  got = λ k s o h. ground (arith, h);
  value-get = λ k j s. refl;
  listed = λ p k s l h. ap (lookup (p <> k)) (ground (arith, h)) ∙ range_lem p k s;
  under = λ p s l h. subst (AreUnder p) (ground (arith, h)) (range-AreUnder p s);
  value-get_prefix = λ p j s. refl;
}

pub value_lem : (k : String) (s : Dict Bytes) → memory_etcd-IsKeyValue.value k s ≡ lookup k s
unfolding memory_etcd-IsKeyValue
value_lem k s = refl
