-- ===== src/Certificates/Laws.antt =====
-- A job stores a certificate where the site looks for it, and the site then gets it.
use Prim.Native.Char.{Char, code}
use text.Mathlib.TextLemmas.{append_assoc, cons-append, nil-append}
use text.Mathlib.TextEquality.{Char-path}
use statiko.Base.{
  String, ◌<>◌, nat_eq, Bool, true, false, ◌≡◌, ◌≢◌, refl, sym, ap, ◌∙◌, List, [], ◌∷◌, arith,
  if◌then◌else◌,
}
use statiko.State.Manager.Certificates.{join}
use statiko.Certificates.Jobs.{split_names, prepend}

prepend-join : (c : String) (l : List String) → l ≢ [] → join (prepend c l) ≡ c <> join l
unfolding prepend join
prepend-join c [] h = absurd (h refl)
prepend-join c (s ∷ []) h = refl
prepend-join c (s ∷ t ∷ l) h = append_assoc c s ("," <> join (t ∷ l))

prepend-nonempty : (c : String) (l : List String) → prepend c l ≢ []
unfolding prepend
prepend-nonempty c [] e = cc
prepend-nonempty c (s ∷ l) e = cc

split-nonempty : (s : String) → split_names s ≢ []
unfolding split_names
split-nonempty String.[] = λ e. cc
split-nonempty (String.◌∷◌ c s) = choose (nat_eq (code c) b',')
  where
    choose :
        (b : Bool)
        → (if b then "" ∷ split_names s else prepend (String.◌∷◌ c "") (split_names s)) ≢ []
    choose true e = cc
    choose false e = prepend-nonempty (String.◌∷◌ c "") (split_names s) e

join-empty : (l : List String) → l ≢ [] → join ("" ∷ l) ≡ "," <> join l
unfolding join
join-empty [] h = absurd (h refl)
join-empty (s ∷ l) h = nil-append ("," <> join (s ∷ l))

-- A character in front of a text.
front : (c : Char) (s : String) → (String.◌∷◌ c "" <> s) ≡ String.◌∷◌ c s
front c s = cons-append c "" s ∙ ap (λ x. String.◌∷◌ c x) (nil-append s)

comma_lem : (c : Char) (s : String) → code c ≡ b',' → ("," <> s) ≡ String.◌∷◌ c s
comma_lem c s e = front "," s ∙ ap (λ x. String.◌∷◌ x s) (sym (Char-path c "," e))

-- The names of a job, joined again, are its text.
pub join-split_names : (s : String) → join (split_names s) ≡ s
unfolding split_names join
join-split_names String.[] = refl
join-split_names (String.◌∷◌ c s) = choose (join-split_names s) (nat_eq (code c) b',') refl
  where
    choose :
        join (split_names s) ≡ s
        → (b : Bool) → nat_eq (code c) b',' ≡ b
        → join (if b then "" ∷ split_names s else prepend (String.◌∷◌ c "") (split_names s))
          ≡ String.◌∷◌ c s
    choose again true comma =
        join-empty (split_names s) (split-nonempty s)
        ∙ ap (λ x. "," <> x) again
        ∙ comma_lem c s (ground arith)
    choose again false other =
        prepend-join (String.◌∷◌ c "") (split_names s) (split-nonempty s)
        ∙ ap (λ x. String.◌∷◌ c "" <> x) again
        ∙ front c s
