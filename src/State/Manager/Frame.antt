-- ===== src/State/Manager/Frame.antt =====
-- What the shared frame of the writing operations keeps: everything but the inner parts of the
-- store, whatever the store answers.
use mathlib.Core.Path.{subst}
use statiko.Base.{
  ◌≡◌, ◌≢◌, ◌⊎◌, inl, inr, refl, sym, ap, ◌∙◌, Bool, true, false, Option, none, some,
}
use statiko.Base.Dict.{Dict}
use statiko.Base.Exec.{Error, Result, ok, err, of_error}
use statiko.State.Types.{Time, NodeState, NodeStatus}
use statiko.State.Store.{StateStore, IsLawful}
use statiko.State.Manager.Locks.{
  Manager, Method, state_of, after_health, when_healthy, after_acquire, locked, commit,
}

-- What a reader of the manager can tell.
pub record Core : Type 0 where
  pub state : Option NodeState
  pub updated : Option Time
  pub site_health : Dict (Option Error)
  pub node_health : Option NodeStatus
  pub dhparams_generating : Bool
  pub refresh_health : Bool
  pub refresh_certs : Bool

-- All or nothing: either an error comes back and nothing has changed, or the change has been made
-- and what comes back is the result of the final write. With no change to make, only the former.
abbrev pub Outcome : Core → Option Core → Result (Unit {0}) → Core → Type 0
Outcome old none r c = ((e : Error) × (r ≡ err e)) × (c ≡ old)
Outcome old (some new) r c =
    (((e : Error) × (r ≡ err e)) × (c ≡ old))
    ⊎ (((e : Option Error) × (r ≡ of_error e)) × (c ≡ new))

-- No error came back, so the change has been made.
pub Outcome-ok :
    (old new c : Core) (r : Result (Unit {0})) → Outcome old (some new) r c → r ≡ ok tt → c ≡ new
Outcome-ok old new c r (inl ((e, failed), same)) h = cc
Outcome-ok old new c r (inr (done, changed)) h = changed

failed-Outcome : (old : Core) (new : Option Core) (e : Error) → Outcome old new (err e) old
failed-Outcome old none e = ((e, refl), refl)
failed-Outcome old (some c) e = inl ((e, refl), refl)

module _ (S : StateStore) where
  abbrev pub core : Manager S → Core
  core m = record {
    state = state_of S m;
    updated = m.updated;
    site_health = m.site_health;
    node_health = m.node_health;
    dhparams_generating = m.dhparams_generating;
    refresh_health = m.refresh_health;
    refresh_certs = m.refresh_certs;
  }

  -- A postcondition of a method: of its result and of what can be read afterwards.
  abbrev pub Ensures : {A : Type 0} → (Result A → Core → Type 0) → Result A × Manager S → Type 0
  Ensures P r = P r.0 (core r.1)

  -- A store with the same state in memory makes no difference.
  core_store :
      (m : Manager S) (s : S.Store)
      → S.get_state s ≡ state_of S m
      → core (record m { store = s }) ≡ core m
  core_store m s e = ap (λ (st : Option NodeState). record (core m) { state = st }) e

  module _ (L : IsLawful S) where
    pub when_healthy_lem :
        (P : Result Unit → Core → Type 0) (body : Method S Unit) (m : Manager S)
        → ((m' : Manager S) → core m' ≡ core m → Ensures P (body m'))
        → ((e : Error) → P (err e) (core m))
        → Ensures P (when_healthy S body m)
    unfolding when_healthy
    when_healthy_lem P body m run failed =
        go (S.healthy m.store).0.0 (S.healthy m.store).0.1 (L.healthy_error m.store)
      where
        m' : Manager S
        m' = record m { store = (S.healthy m.store).1 }

        same : core m' ≡ core m
        same = core_store m (S.healthy m.store).1 (L.get-healthy m.store)

        go :
            (b : Bool) (e : Option Error)
            → (b ≡ false → e ≢ none)
            → Ensures P (after_health S body b e m')
        go true e h = run m' same
        go false none h = absurd (h refl refl)
        go false (some e) h = subst (P (err e)) (sym same) (failed e)

    pub locked_lem :
        {A : Type 0} (P : Result A → Core → Type 0) (body : Method S A) (m : Manager S)
        → ((m' : Manager S) → core m' ≡ core m → Ensures P (body m'))
        → ((e : Error) → P (err e) (core m))
        → Ensures P (locked S body m)
    unfolding locked
    locked_lem P body m run failed = go (S.acquire_lock "state" true m.store).0
      where
        m' : Manager S
        m' = record m { store = (S.acquire_lock "state" true m.store).1 }

        same : core m' ≡ core m
        same =
            core_store m (S.acquire_lock "state" true m.store).1
              (L.get-acquire "state" true m.store)

        go : (r : Error ⊎ S.Lease) → Ensures P (after_acquire S body r m')
        go (inl e) = subst (P (err e)) (sym same) (failed e)
        go (inr l) =
            subst (P (body m').0)
              (sym (
                core_store (body m').1 (S.release_lock l (body m').1.store)
                  (L.get-release l (body m').1.store)))
              (run m' same)

    -- Where a failure leaves everything as it was.
    pub locked-Outcome :
        (new : Option Core) (body : Method S Unit) (m : Manager S)
        → ((m' : Manager S) → core m' ≡ core m → Ensures (Outcome (core m) new) (body m'))
        → Ensures (Outcome (core m) new) (locked S body m)
    locked-Outcome new body m run =
        locked_lem (Outcome (core m) new) body m run (failed-Outcome (core m) new)

    -- The health test and the lock together.
    pub guarded-Outcome :
        (new : Option Core) (body : Method S Unit) (m : Manager S)
        → ((m' : Manager S) → core m' ≡ core m → Ensures (Outcome (core m) new) (body m'))
        → Ensures (Outcome (core m) new) (when_healthy S (locked S body) m)
    guarded-Outcome new body m run =
        when_healthy_lem (Outcome (core m) new) (locked S body) m
          (λ m' same.
            locked_lem (Outcome (core m) new) body m' (λ m'' same'. run m'' (same' ∙ same))
              (λ e.
                subst (Outcome (core m) new (err e)) (sym same) (failed-Outcome (core m) new e)))
          (failed-Outcome (core m) new)

    -- The end of every writing operation: the new state is in memory, and it is written.
    pub commit_lem :
        (n : NodeState) (s : S.Store) (m m' : Manager S)
        → core m' ≡ core m
        → S.get_state s ≡ some n
        → (at : Option Time)
        → Ensures
            (Outcome (core m) (some (record (core m) { state = some n; updated = at })))
            (commit S (record m' { store = s; updated = at }))
    commit_lem n s m m' same loaded at = inr (
      ((S.write_state s).0, refl),
      ap (λ (st : Option NodeState). record (core m') { state = st; updated = at })
            (L.get-write s ∙ loaded)
          ∙ ap (λ (c : Core). record c { state = some n; updated = at }) same,
    )
