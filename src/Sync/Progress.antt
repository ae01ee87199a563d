-- ===== src/Sync/Progress.antt =====
-- What the callers of the queue rely on: runs do not overlap, nothing blocks for ever, and a
-- request is answered by a run that began after it.
use mathlib.Core.Option.{some-injective}
use mathlib.Core.Path.{subst}
use statiko.Base.{
  ℕ, suc, zero, ◌+◌, ◌≡◌, ◌≤◌, ◌<◌, inl, inr, refl, ap, ◌∙◌, Bool, true, false, Option, none, some,
  List, [], ◌∷◌, get_elem?, set, count, count-pos, sum_by, sum_by-set, arith, Bool-cases, ltb, ◌⊎◌,
}
use statiko.Sync.{
  Phase, queued, run_called, waiting, admitted, launched, running, finished, Sync, init, advance,
  settle, step_at, step_thread, Reach,
}
use statiko.Sync.Invariant.{
  holds, waits, pending, IsSound, threads-advance, moved-IsSound, Reach-IsSound,
}

abbrev pub is_running : Phase → Bool
is_running running = true
is_running _ = false

abbrev pub unfinished : Phase → Bool
unfinished finished = false
unfinished _ = true

count-running-le : (l : List Phase) → count is_running l ≤ count holds l
unfolding count
count-running-le [] = omega arith
count-running-le (p ∷ l) = ground (arith, count-running-le l)

-- In every state that can be reached at most one thread is inside `runner`, and at most one call
-- of `QueueRun` waits for it.
pub runs_exclude :
    {s : Sync} → Reach init s → (count is_running s.threads ≤ 1) × (count waits s.threads ≤ 1)
runs_exclude {s} r =
    let h = Reach-IsSound r in ground (arith, h.semaphore, h.is_waiting, count-running-le s.threads)

-- How many steps a thread has left at most.
abbrev weight : Phase → ℕ
weight queued = 5
weight waiting = 4
weight admitted = 3
weight run_called = 3
weight launched = 2
weight running = 1
weight finished = 0

step_weight :
    (i : ℕ) (p q : Phase) (s t : Sync)
    → get_elem? s.threads i ≡ some p
    → advance p s ≡ some (q, t)
    → suc (sum_by weight (set s.threads i q)) ≤ sum_by weight s.threads
unfolding advance
step_weight i queued q s t at e = ground (arith, sum_by-set weight s.threads i queued q at)
step_weight i p q s t at e = ground (arith, sum_by-set weight s.threads i p q at)

-- What a step of a thread leaves alone.
step_keeps :
    (p q : Phase) (s t : Sync)
    → advance p s ≡ some (q, t)
    → (t.requested ≡ s.requested) × (t.version ≡ s.version)
unfolding advance
step_keeps queued q s t e = ground arith
step_keeps p q s t e = ground arith

free_advance :
    (p : Phase) (s : Sync)
    → unfinished p ≡ true
    → s.semaphore ≡ false
    → (q : Phase) × (t : Sync) × (advance p s ≡ some (q, t))
unfolding advance
free_advance queued s u f = elim (Bool-cases s.is_waiting) [
  | inl w ↦ (finished, s, rw w)
  | inr w ↦ (waiting, record s { is_waiting = true }, rw w)
]
free_advance run_called s u f = (launched, record s { semaphore = true }, rw f)
free_advance waiting s u f = (admitted, record s { semaphore = true }, rw f)
free_advance admitted s u f = (launched, record s { is_waiting = false }, refl)
free_advance launched s u f = (running, record s { synced = s.version }, refl)
free_advance running s u f =
    (finished, record s { semaphore = false; startup_complete = true }, refl)
free_advance finished s u f = cc

holder_advance :
    (p : Phase) (s : Sync) → holds p ≡ true → (q : Phase) × (t : Sync) × (advance p s ≡ some (q, t))
unfolding advance
holder_advance admitted s h = (launched, record s { is_waiting = false }, refl)
holder_advance launched s h = (running, record s { synced = s.version }, refl)
holder_advance running s h =
    (finished, record s { semaphore = false; startup_complete = true }, refl)
holder_advance queued s h = cc
holder_advance _ s h = cc

-- A sound state with an unfinished thread has a thread that can go on.
enabled :
    (s : Sync)
    → IsSound s
    → 0 < count unfinished s.threads
    → (i : ℕ) × (p q : Phase) × (t : Sync) × (get_elem? s.threads i ≡ some p)
      × (advance p s ≡ some (q, t))
enabled s h some_left = elim (Bool-cases s.semaphore) [
  | inl taken ↦
      let (i, p, at, held) = count-pos holds s.threads (ground (arith, h.semaphore)) in
      let (q, t, e) = holder_advance p s held in (i, p, q, t, at, e)
  | inr free ↦
      let (i, p, at, left) = count-pos unfinished s.threads some_left in
      let (q, t, e) = free_advance p s left free in (i, p, q, t, at, e)
]

-- Steps of the threads alone: no new call, and no change of the desired state.
pub data Runs (s : Sync) : Sync → Type 0 where
  done : Runs s s
  more : {t u : Sync} → Runs s t → (i : ℕ) → step_thread i t ≡ some u → Runs s u

abbrev pub steps : {s t : Sync} → Runs s t → ℕ
steps done = 0
steps (more r i e) = suc (steps r)

abbrev pub left : Sync → ℕ
left s = sum_by weight s.threads

moved_at :
    (i : ℕ) (p q : Phase) (s t : Sync)
    → get_elem? s.threads i ≡ some p
    → advance p s ≡ some (q, t)
    → step_thread i s ≡ some (record t { threads = set s.threads i q })
unfolding step_thread
moved_at i p q s t at e = rw (at, step_at) (rw (e, settle) (rw (threads-advance p q s t e)))

-- An inversion of one step of a thread.
moved_inv :
    (i : ℕ) (s u : Sync)
    → step_thread i s ≡ some u
    → (p q : Phase) × (t : Sync) × (get_elem? s.threads i ≡ some p)
      × (advance p s ≡ some (q, t))
      × (record t { threads = set s.threads i q } ≡ u)
unfolding step_thread
moved_inv i s u e = go (get_elem? s.threads i) refl e
  where
    go :
        (o : Option Phase)
        → get_elem? s.threads i ≡ o
        → step_at i s o ≡ some u
        → (p q : Phase) × (t : Sync) × (get_elem? s.threads i ≡ some p)
          × (advance p s ≡ some (q, t))
          × (record t { threads = set s.threads i q } ≡ u)
    go none at e = cc
    go (some p) at e = go' (advance p s) refl e
      where
        go' :
            (o : Option (Phase × Sync))
            → advance p s ≡ o
            → settle i o ≡ some u
            → (p q : Phase) × (t : Sync) × (get_elem? s.threads i ≡ some p)
              × (advance p s ≡ some (q, t))
              × (record t { threads = set s.threads i q } ≡ u)
        go' none ad e = cc
        go' (some (q, t)) ad e =
            (p, q, t, at, ad, rw (← threads-advance p q s t ad) (some-injective _ _ e))

Runs_bounded : {s t : Sync} (r : Runs s t) → steps r + left t ≤ left s
Runs_bounded done = omega arith
Runs_bounded (more {t} {u} r i e) =
    let (p, q, v, at, ad, same) = moved_inv i t u e in
    omega (arith, Runs_bounded r, step_weight i p q t v at ad, ap left same)

before : {s u t : Sync} (i : ℕ) → step_thread i s ≡ some u → Runs u t → Runs s t
before i e done = more done i e
before i e (more r j f) = more (before i e r) j f

drain :
    (k : ℕ) (s : Sync)
    → IsSound s
    → left s ≤ k
    → (t : Sync) × Runs s t
      × IsSound t
      × (count unfinished t.threads ≡ 0)
      × (t.requested ≡ s.requested)
drain zero s h fits = elim (Bool-cases (ltb 0 (count unfinished s.threads))) [
  | inr none_left ↦ (s, done, h, ground arith, refl)
  | inl some_left ↦
      let (i, p, q, t, at, e) = enabled s h (ground arith) in
      absurd (omega (arith, step_weight i p q s t at e, fits))
]
drain (suc k) s h fits = elim (Bool-cases (ltb 0 (count unfinished s.threads))) [
  | inr none_left ↦ (s, done, h, ground arith, refl)
  | inl some_left ↦
      let (i, p, q, t, at, e) = enabled s h (ground arith) in
      let (v, runs, sound, none_left, kept) =
        drain k (record t { threads = set s.threads i q }) (moved-IsSound i p q s t at e h)
          (omega (arith, step_weight i p q s t at e, fits)) in
      (
        v,
        before i (moved_at i p q s t at e) runs,
        sound,
        none_left,
        kept ∙ (step_keeps p q s t e).0,
      )
]

blocked : {A : Type 0} (o : Option A) (a : A) → o ≡ some a → o ≡ none → ⊥
blocked o a e f = cc

count-pending-le : (l : List Phase) → count pending l ≤ count unfinished l
unfolding count
count-pending-le [] = omega arith
count-pending-le (p ∷ l) = ground (arith, count-pending-le l)

-- From every state that can be reached the threads can run until all calls have returned, and then
-- the last run of `runner` began at or after the last request.
pub requests_answered :
    {s : Sync}
    → Reach init s
    → (t : Sync) × Runs s t × (count unfinished t.threads ≡ 0) × (s.requested ≤ t.synced)
requests_answered {s} r =
    let (t, runs, sound, none_left, kept) = drain (left s) s (Reach-IsSound r) (omega arith) in
    (t, runs, none_left, ground (arith, sound.covered, none_left, kept, count-pending-le t.threads))

-- Whenever all calls have returned, the last run of `runner` began at or after the last request,
-- also where calls of `QueueRun` returned at once because another one was waiting.
pub idle_is_synced :
    {s : Sync} → Reach init s → count unfinished s.threads ≡ 0 → s.requested ≤ s.synced
idle_is_synced {s} r idle =
    let h = Reach-IsSound r in ground (arith, h.covered, idle, count-pending-le s.threads)

-- From every state that can be reached, however the threads are scheduled: they take no more steps
-- than `left` says, and where none of them can take another step, all calls have returned, so that
-- they are never stuck.
pub runs_end :
    {s t : Sync}
    → Reach init s
    → (r : Runs s t)
    → (steps r + left t ≤ left s)
      × (((i : ℕ) → step_thread i t ≡ none) → count unfinished t.threads ≡ 0)
runs_end {s} {t} reached r =
    (Runs_bounded r, λ still. ended still (Bool-cases (ltb 0 (count unfinished t.threads))))
  where
    sound : {u : Sync} → Runs s u → IsSound u
    sound done = Reach-IsSound reached
    sound (more {t = u} {u = v} q i e) =
        let (p, p', w, at, ad, same) = moved_inv i u v e in
        subst IsSound same (moved-IsSound i p p' u w at ad (sound q))

    ended :
        ((i : ℕ) → step_thread i t ≡ none)
        → (ltb 0 (count unfinished t.threads) ≡ true) ⊎ (ltb 0 (count unfinished t.threads) ≡ false)
        → count unfinished t.threads ≡ 0
    ended still (inr none_left) = ground arith
    ended still (inl some_left) =
        let (i, p, q, u, at, e) = enabled t (sound r) (ground arith) in
        absurd (
          blocked (step_thread i t) (record u { threads = set t.threads i q })
            (moved_at i p q t u at e) (still i))
