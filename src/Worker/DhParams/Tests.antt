-- ===== src/Worker/DhParams/Tests.antt =====
-- The theorem about the worker on a node without DH parameters.
use statiko.Base.{◌≡◌, refl, some, string_dec, arith}
use statiko.Base.Exec.{ok}
use statiko.State.Manager.Locks.{locked}
use statiko.State.Manager.Status.{get_dhparams, dhparams_or_default, set_dhparams}
use statiko.State.StoreFile.{file_store-IsLawful, write_state}
use statiko.State.Samples.{any_codec, any_files, any_manager, two_sites}
use statiko.Api.Handler.{Node}
use statiko.Worker.DhParams.{made, is_due, dhparams_worker}
use statiko.Worker.DhParams.Laws.{IsFresh, dhparams_worker-IsFresh}

abbrev node : Node any_files
node = record { manager = any_manager; queued = 0 }

made_lem : (dhparams_worker any_files "default" (some 700) 5 9 (made "mine") node).0 ≡ ok tt
unfolding dhparams_worker get_dhparams dhparams_or_default is_due set_dhparams locked write_state
    string_dec
made_lem = refl

dhparams_worker-IsFresh_example :
    IsFresh any_files
      (file_store-IsLawful any_codec)
      "default"
      (some 700)
      5
      (get_dhparams any_files "default"
        (dhparams_worker any_files "default" (some 700) 5 9 (made "mine") node).1.manager).0
dhparams_worker-IsFresh_example =
    dhparams_worker-IsFresh any_files (file_store-IsLawful any_codec) "default" (some 700) 5 9
      "mine" node two_sites refl (omega arith) made_lem
