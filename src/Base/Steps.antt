-- ===== src/Base/Steps.antt =====
-- Methods one after another: what is known when the whole has ended, and what the whole keeps.
use mathlib.Core.Path.{◌≡◌, refl, ◌∙◌}
use statiko.Base.Exec.{Result, ok, err, panic, Exec, continue}

pub continued {ℓ} :
    {S A B : Type ℓ}
    → (p : Result A × S) (f : A → Exec S B) (r : B) → (continue p.0 f p.1).0 ≡ ok r
    → (a : A) × (p.0 ≡ ok a) × (continue p.0 f p.1 ≡ f a p.1)
continued (ok a, s) f r h = (a, refl, refl)
continued (err e, s) f r h = absurd cc
continued (panic, s) f r h = absurd cc

-- A part of the state that two steps leave as it is.
pub kept_bind {ℓ} :
    {S A B X : Type ℓ}
    → (v : S → X) (x : X) (p : Result A × S) (f : A → Exec S B) → v p.1 ≡ x
    → ((a : A) (s : S) → v (f a s).1 ≡ v s)
    → v (continue p.0 f p.1).1 ≡ x
kept_bind v x (ok a, s) f e h = h a s ∙ e
kept_bind v x (err _, s) f e h = e
kept_bind v x (panic, s) f e h = e
