-- ===== src/Worker/DhParams/Laws.antt =====
-- New DH parameters are made once.
use statiko.Base.{
  ℕ, ◌≤◌, String, false, ◌≡◌, refl, ap, ◌∙◌, inl, inr, Option, none, some, arith, Bool-cases,
}
use statiko.Base.Exec.{Result, ok, err, panic}
use statiko.State.Types.{Time, NodeState}
use statiko.State.Store.{StateStore, IsLawful}
use statiko.State.Manager.Locks.{Manager, state_of}
use statiko.State.Manager.Status.{get_dhparams, set_dhparams, dhparams_or_default}
use statiko.State.Manager.Status.Laws.{get_dhparams-set_dhparams}
use statiko.Api.Handler.{Node}
use statiko.Worker.DhParams.{
  made, is_old, is_due, queued_if, store_generated, regenerate_if, dhparams_worker,
}

not_old : (age : Option ℕ) (now date : Time) → now ≤ date → is_old age now date ≡ false
not_old none now date h = refl
not_old (some a) now date h = ground arith

module _ (S : StateStore) (L : IsLawful S) (default : String) (age : Option ℕ) where
  -- Parameters that are not the default ones, and not too old at that time.
  abbrev pub IsFresh : Time → Result (String × Option Time) → Type 0
  IsFresh now r =
      (pem : String) × ((date : Time) × ((r ≡ ok (pem, some date)) × (is_old age now date ≡ false)))

  queued_lem :
      (r : Result (Unit {0})) (n : Node S)
      → (queued_if S default r n).0 ≡ ok tt
      → (r ≡ ok tt) × ((queued_if S default r n).1.manager ≡ n.manager)
  queued_lem (ok x) n h = (refl, refl)
  queued_lem (err e) n h = absurd cc
  queued_lem panic n h = absurd cc

  stored_lem :
      (now later : Time) (pem : String) (n : Node S) (s : NodeState)
      → state_of S n.manager ≡ some s
      → now ≤ later
      → (store_generated S default later (made pem) n).0 ≡ ok tt
      → IsFresh now
          (get_dhparams S default (store_generated S default later (made pem) n).1.manager).0
  stored_lem now later pem n s loaded after done =
      let p = set_dhparams S default later pem n.manager in
      let (stored, same) = queued_lem p.0 (record n { manager = p.1 }) done in
      (
        pem,
        (
          later,
          (
            ap (λ m. (get_dhparams S default m).0) same
                ∙ get_dhparams-set_dhparams S L default later n.manager s loaded pem stored,
            not_old age now later after,
          ),
        ),
      )

  current_lem :
      (now later : Time) (pem : String) (n : Node S) (s : NodeState) (p : String × Option Time)
      → state_of S n.manager ≡ some s
      → now ≤ later
      → (get_dhparams S default n.manager).0 ≡ ok p
      → (regenerate_if S default (is_due age now p.1) later (made pem) n).0 ≡ ok tt
      → IsFresh now
          (get_dhparams S default
            (regenerate_if S default (is_due age now p.1) later (made pem) n).1.manager).0
  unfolding is_due
  current_lem now later pem n s (x, none) loaded after got done =
      stored_lem now later pem n s loaded after done
  current_lem now later pem n s (x, some d) loaded after got done =
      elim (Bool-cases (is_old age now d)) [
        | inl old ↦ rw old (stored_lem now later pem n s loaded after (rw old at done))
        | inr young ↦ rw young (x, (d, (got, young)))
      ]

  got_lem :
      (m : Manager S) (s : NodeState)
      → state_of S m ≡ some s
      → get_dhparams S default m ≡ (ok (dhparams_or_default default s.dhparams), m)
  unfolding get_dhparams
  got_lem m s loaded = rw loaded refl

  -- Where a state is loaded, and new parameters are made if they are asked for: when the worker has
  -- returned nil, the parameters in use are not the default ones, and they are not too old for the
  -- time when it began.
  pub dhparams_worker-IsFresh :
      (now later : Time) (pem : String) (n : Node S) (s : NodeState)
      → state_of S n.manager ≡ some s
      → now ≤ later
      → (dhparams_worker S default age now later (made pem) n).0 ≡ ok tt
      → IsFresh now
          (get_dhparams S default
            (dhparams_worker S default age now later (made pem) n).1.manager).0
  unfolding dhparams_worker
  dhparams_worker-IsFresh now later pem n s loaded after done =
      let got = got_lem n.manager s loaded in
      rw got (
        current_lem now later pem n s (dhparams_or_default default s.dhparams) loaded after
          (ap (λ (r : Result (String × Option Time) × Manager S). r.0) got) (rw got at done))
