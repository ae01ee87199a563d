-- ===== src/Sync/Invariant.antt =====
-- What holds in every state that can be reached: each flag has one owner, and a request that no run
-- has answered yet has a thread that is about to.
use mathlib.Core.Path.{subst}
use mathlib.Core.Option.{some-injective}
use statiko.Base.{
  ℕ, ◌≡◌, ◌≤◌, ◌<◌, ◌⊎◌, refl, Bool, true, false, Option, none, some, List, [], ◌∷◌, get_elem?, set,
  count, one_if, count-set, count-append, arith,
}
use statiko.Sync.{
  Phase, queued, run_called, waiting, admitted, launched, running, Sync, init, advance, settle,
  step_at, step_thread, Step, change, queue_run, run, thread, Reach, here, next,
}

-- In or around `runner`, behind the semaphore.
abbrev pub holds : Phase → Bool
holds admitted = true
holds launched = true
holds running = true
holds _ = false

-- Between the two operations on `isWaiting`.
abbrev pub waits : Phase → Bool
waits waiting = true
waits admitted = true
waits _ = false

-- Still to call `runner`.
abbrev pub pending : Phase → Bool
pending queued = true
pending waiting = true
pending admitted = true
pending launched = true
pending _ = false

pub record IsSound (s : Sync) : Type 0 where
  pub semaphore : count holds s.threads ≡ one_if s.semaphore
  pub is_waiting : count waits s.threads ≡ one_if s.is_waiting
  pub past : s.requested ≤ s.version
  pub covered : (s.requested ≤ s.synced) ⊎ (0 < count pending s.threads)

count-waits-le-pending : (l : List Phase) → count waits l ≤ count pending l
unfolding count
count-waits-le-pending [] = omega arith
count-waits-le-pending (p ∷ l) = ground (arith, count-waits-le-pending l)

pub moved-IsSound :
    (i : ℕ) (p q : Phase) (s t : Sync)
    → get_elem? s.threads i ≡ some p
    → advance p s ≡ some (q, t)
    → IsSound s
    → IsSound (record t { threads = set s.threads i q })
unfolding advance
moved-IsSound i queued q s t at e h = ground (
  arith,
  count-set holds s.threads i queued q at,
  count-set waits s.threads i queued q at,
  count-set pending s.threads i queued q at,
  count-waits-le-pending (set s.threads i q),
)
moved-IsSound i p q s t at e h = ground (
  arith,
  count-set holds s.threads i p q at,
  count-set waits s.threads i p q at,
  count-set pending s.threads i p q at,
)

pub threads-advance : (p q : Phase) (s t : Sync) → advance p s ≡ some (q, t) → t.threads ≡ s.threads
unfolding advance
threads-advance queued q s t e = ground arith
threads-advance p q s t e = ground arith

step_at-IsSound :
    (i : ℕ) (p : Phase) (s t : Sync) (r : Option (Phase × Sync))
    → get_elem? s.threads i ≡ some p
    → advance p s ≡ r
    → settle i r ≡ some t
    → IsSound s
    → IsSound t
step_at-IsSound i p s t none at e st h = cc
step_at-IsSound i p s t (some (q, u)) at e st h =
    subst IsSound (some-injective _ _ st)
      (rw (threads-advance p q s u e) (moved-IsSound i p q s u at e h))

step_thread-IsSound :
    (i : ℕ) (s t : Sync) (p : Option Phase)
    → get_elem? s.threads i ≡ p
    → step_at i s p ≡ some t
    → IsSound s
    → IsSound t
step_thread-IsSound i s t none at st h = cc
step_thread-IsSound i s t (some p) at st h = step_at-IsSound i p s t (advance p s) at refl st h

-- Every step keeps the invariant.
pub Step-IsSound : {s t : Sync} → Step s t → IsSound s → IsSound t
unfolding step_thread count
Step-IsSound (change s) h = record {
  semaphore = h.semaphore;
  is_waiting = h.is_waiting;
  past = omega arith;
  covered = h.covered;
}
Step-IsSound (queue_run s) h = ground (
  arith,
  count-append holds s.threads (queued ∷ []),
  count-append waits s.threads (queued ∷ []),
  count-append pending s.threads (queued ∷ []),
)
Step-IsSound (run s) h = ground (
  arith,
  count-append holds s.threads (run_called ∷ []),
  count-append waits s.threads (run_called ∷ []),
  count-append pending s.threads (run_called ∷ []),
)
Step-IsSound (thread i s t e) h = step_thread-IsSound i s t (get_elem? s.threads i) refl e h

init-IsSound : IsSound init
unfolding count
init-IsSound = omega arith

-- Every state that can be reached is sound.
pub Reach-IsSound : {s : Sync} → Reach init s → IsSound s
Reach-IsSound here = init-IsSound
Reach-IsSound (next r st) = Step-IsSound st (Reach-IsSound r)
