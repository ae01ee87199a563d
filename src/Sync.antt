-- ===== src/Sync.antt =====
-- sync/run.go: the queue of state synchronizations. Every call of `QueueRun` and of `Run` is a
-- thread; the two channels with a buffer of one place are the flags `semaphore` and `is_waiting`,
-- and a step is one channel operation or the body between two of them.
pub mod Invariant
pub mod Progress
pub mod Runner
mod Tests
use statiko.Base.{
  ℕ, ◌+◌, ◌≡◌, Bool, true, false, Option, none, some, List, [], ◌∷◌, ◌++◌, get_elem?, set,
}

-- Where a thread stands. `queued` is the entry of `QueueRun` and `run_called` that of `Run`;
-- `waiting` has sent to `isWaiting`, `admitted` has sent to `semaphore` too, `launched` is about to
-- call `runner`, and `running` is in it. `QueueRun` returns at `launched`, where the goroutine goes
-- on in its place.
pub data Phase : Type 0 where
  queued run_called waiting admitted launched running finished : Phase

-- `version` counts the changes of the desired state. `requested` is its value at the last call of
-- `QueueRun`, and `synced` its value when a run of `runner` began last.
pub record Sync : Type 0 where
  pub semaphore : Bool
  pub is_waiting : Bool
  pub startup_complete : Bool
  pub threads : List Phase
  pub version : ℕ
  pub requested : ℕ
  pub synced : ℕ

abbrev pub init : Sync
init = record {
  semaphore = false;
  is_waiting = false;
  startup_complete = false;
  threads = [];
  version = 0;
  requested = 0;
  synced = 0;
}

-- The next operation of a thread, or nothing where it blocks or has ended: the new phase, and the
-- object without the thread's new phase.
unfoldable pub advance : Phase → Sync → Option (Phase × Sync)
advance queued s = elim s.is_waiting [
  | true ↦ some (finished, s)
  | false ↦ some (waiting, record s { is_waiting = true })
]
advance run_called s = elim s.semaphore [
  | true ↦ none
  | false ↦ some (launched, record s { semaphore = true })
]
advance waiting s = elim s.semaphore [
  | true ↦ none
  | false ↦ some (admitted, record s { semaphore = true })
]
advance admitted s = some (launched, record s { is_waiting = false })
advance launched s = some (running, record s { synced = s.version })
advance running s = some (finished, record s { semaphore = false; startup_complete = true })
advance finished s = none

abbrev pub settle : ℕ → Option (Phase × Sync) → Option Sync
settle i none = none
settle i (some (p, s)) = some (record s { threads = set s.threads i p })

abbrev pub step_at : ℕ → Sync → Option Phase → Option Sync
step_at i s none = none
step_at i s (some p) = settle i (advance p s)

-- One step of the thread `i`.
unfoldable pub step_thread : ℕ → Sync → Option Sync
step_thread i s = step_at i s (get_elem? s.threads i)

-- The scheduler and the callers choose what happens next.
pub data Step : Sync → Sync → Type 0 where
  change : (s : Sync) → Step s (record s { version = s.version + 1 })
  queue_run :
      (s : Sync) → Step s (record s { threads = s.threads ++ queued ∷ []; requested = s.version })
  run : (s : Sync) → Step s (record s { threads = s.threads ++ run_called ∷ [] })
  thread : (i : ℕ) (s t : Sync) → step_thread i s ≡ some t → Step s t

pub data Reach (s : Sync) : Sync → Type 0 where
  here : Reach s s
  next : {t u : Sync} → Reach s t → Step t u → Reach s u
