-- ===== src/State/Manager/Status/Laws.antt =====
-- The DH parameters that are stored are the ones that are used.
use statiko.Base.{◌≡◌, ◌∙◌, refl, ap, String, ◌==◌, false, ◌||◌, some, arith}
use statiko.Base.Exec.{ok}
use statiko.State.Types.{Time, NodeState}
use statiko.State.Store.{StateStore, IsLawful}
use statiko.State.Manager.Locks.{Manager, state_of}
use statiko.State.Manager.Frame.{
  Core, core, Ensures, Outcome, Outcome-ok, locked-Outcome, commit_lem,
}
use statiko.State.Manager.Status.{dhparams_or_default, get_dhparams, set_dhparams, store_dhparams}

module _ (S : StateStore) (L : IsLawful S) (default : String) (now : Time) (m : Manager S)
    (n : NodeState) (loaded : state_of S m ≡ some n) where
  abbrev with_dhparams : String → Core
  with_dhparams val = record (core S m) {
    state = some (record n { dhparams = some (record { date = some now; pem = val }) });
    updated = some now;
  }

  state_same : (m' : Manager S) → core S m' ≡ core S m → state_of S m' ≡ some n
  state_same m' same = ap (λ (c : Core). c.state) same ∙ loaded

  set_dhparams-Outcome :
      (val : String)
      → (val == "" || val == default) ≡ false
      → Ensures S (Outcome (core S m) (some (with_dhparams val))) (set_dhparams S default now val m)
  unfolding set_dhparams
  set_dhparams-Outcome val given = rw given (
      locked-Outcome S L (some (with_dhparams val)) (store_dhparams S now val) m (λ m' same.
        rw (state_same m' same) (
          commit_lem S L _ _ m m' same
            (L.get-modify (record n { dhparams = some (record { date = some now; pem = val }) })
              m'.store)
            (some now))))

  given_lem :
      (val : String)
      → (set_dhparams S default now val m).0 ≡ ok tt
      → (val == "" || val == default) ≡ false
  unfolding set_dhparams
  given_lem val done = ground (arith, done)

  not_empty_lem : (val : String) → (val == "" || val == default) ≡ false → (val == "") ≡ false
  not_empty_lem val h = ground arith

  -- After `SetDHParams` has returned nil, `GetDHParams` gives the parameters that were stored, and
  -- the time of the call.
  pub get_dhparams-set_dhparams :
      (val : String)
      → (set_dhparams S default now val m).0 ≡ ok tt
      → (get_dhparams S default (set_dhparams S default now val m).1).0 ≡ ok (val, some now)
  unfolding get_dhparams dhparams_or_default
  get_dhparams-set_dhparams val done =
      let given = given_lem val done in
      let stored =
        ap (λ (x : Core). x.state)
          (Outcome-ok (core S m) _ _ _ (set_dhparams-Outcome val given) done) in
      rw (stored, not_empty_lem val given) refl
