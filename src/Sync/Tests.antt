-- ===== src/Sync/Tests.antt =====
-- The theorems about the queue on one run: a call of `QueueRun`, one that waits behind it, and one
-- that returns at once because another is waiting.
use statiko.Base.{ℕ, ◌≡◌, ◌≤◌, ◌+◌, refl, true, false, [], ◌∷◌, count}
use statiko.Sync.{
  Phase, Sync, init, queue_run, change, thread, step_thread, advance, Reach, here, next, finished,
  running, waiting, launched, admitted,
}
use statiko.Sync.Invariant.{waits}
use statiko.Sync.Progress.{
  is_running, unfinished, Runs, done, more, steps, left, runs_exclude, requests_answered,
  idle_is_synced, runs_end,
}
use statiko.Base.{inr, none, some}
use statiko.State.Samples.{files, manager_with, two_sites}
use statiko.State.Manager.Locks.{Manager}
use statiko.State.Manager.Status.{default_status}
use statiko.Sync.Runner.{System, Log}

abbrev called : Sync
called = record init { threads = Phase.queued ∷ [] }

abbrev changed : Sync
changed = record called { version = 1 }

abbrev called_again : Sync
called_again = record changed { threads = Phase.queued ∷ Phase.queued ∷ []; requested = 1 }

called_again_reached : Reach init called_again
called_again_reached = next (next (next here (queue_run init)) (change called)) (queue_run changed)

runs_exclude_example :
    (count is_running called_again.threads ≤ 1) × (count waits called_again.threads ≤ 1)
runs_exclude_example = runs_exclude called_again_reached

requests_answered_example :
    (t : Sync) × Runs called_again t × (count unfinished t.threads ≡ 0) × (1 ≤ t.synced)
requests_answered_example = requests_answered called_again_reached

abbrev one_waits : Sync
one_waits = record called_again { threads = waiting ∷ Phase.queued ∷ []; is_waiting = true }

abbrev one_returned : Sync
one_returned = record one_waits { threads = waiting ∷ finished ∷ [] }

abbrev one_admitted : Sync
one_admitted = record one_returned { threads = admitted ∷ finished ∷ []; semaphore = true }

abbrev one_launched : Sync
one_launched = record one_admitted { threads = launched ∷ finished ∷ []; is_waiting = false }

abbrev one_runs : Sync
one_runs = record one_launched { threads = running ∷ finished ∷ []; synced = 1 }

abbrev idle : Sync
idle = record one_runs {
  threads = finished ∷ finished ∷ [];
  semaphore = false;
  startup_complete = true;
}

idle_runs : Runs called_again idle
unfolding step_thread advance
idle_runs =
    more {t = one_runs}
      (more {t = one_launched}
        (more {t = one_admitted}
          (more {t = one_returned}
            (more {t = one_waits} (more {t = called_again} done 0 refl) 1 refl) 0 refl)
          0 refl)
        0 refl)
      0 refl

idle_reached : Reach init idle
unfolding step_thread advance
idle_reached =
    next {t = one_runs}
      (next {t = one_launched}
        (next {t = one_admitted}
          (next {t = one_returned}
            (next {t = one_waits} (next called_again_reached (thread 0 called_again one_waits refl))
              (thread 1 one_waits one_returned refl))
            (thread 0 one_returned one_admitted refl))
          (thread 0 one_admitted one_launched refl))
        (thread 0 one_launched one_runs refl))
      (thread 0 one_runs idle refl)

all_returned : count unfinished idle.threads ≡ 0
unfolding count
all_returned = refl

idle_is_synced_example : idle.requested ≤ idle.synced
idle_is_synced_example = idle_is_synced idle_reached all_returned

runs_end_example :
    (steps idle_runs + left idle ≤ left called_again)
    × (((i : ℕ) → step_thread i idle ≡ none) → count unfinished idle.threads ≡ 0)
runs_end_example = runs_end called_again_reached idle_runs

-- The apps change at each run, and the server restarts.
abbrev system : System files
system = record {
  World = Unit;
  sync_apps = λ sites s. (inr (true, false), s);
  sync_configuration = λ sites s. (inr false, s);
  restart = λ w. (none, w);
}

abbrev reporting : Manager files
reporting = record (manager_with two_sites) { node_health = some default_status }

abbrev restarted : Log
restarted = record { notified = []; web_restarted = true; api_restarted = false }
