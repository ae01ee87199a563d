-- ===== src/Worker/DhParams.antt =====
-- worker/dhparams.go: new DH parameters when there are none or when they are old. What generates them
-- is a parameter.
pub mod Laws
mod Tests
use statiko.Base.{
  ℕ, suc, ◌+◌, ◌*◌, String, ltb, nat_eq, Bool, true, false, not, ◌&&◌, ◌||◌, Option, none, some,
  if◌then◌else◌,
}
use statiko.Base.Exec.{Error, Result, ok, err, panic}
use statiko.State.Types.{Time}
use statiko.State.Store.{StateStore}
use statiko.State.Manager.Locks.{Manager}
use statiko.State.Manager.Status.{get_dhparams, set_dhparams}
use statiko.Api.Handler.{Node}

-- What `GenerateWithContext` and `ToPEM` give; `canceled` when the time ran out or when other
-- parameters arrived in the meantime.
pub data Generated : Type 0 where
  canceled : Generated
  failed : Error → Generated
  made : String → Generated

-- The configured number of bits and the age in days, of which `none` is a negative number.
pub record DhConfig : Type 0 where
  pub bits : ℕ
  pub max_age_days : Option ℕ

-- `dhparamsMaxAge` in seconds; `none` where `dhparamsRegeneration` is false.
abbrev pub max_age_of : Option ℕ → Result (Option ℕ)
max_age_of none = ok none
max_age_of (some d) = if ltb d 7 || ltb 720 d then panic else ok (some (d * 24 * 3600))

-- The tests of `startDHParamsWorker`, which panics.
unfoldable pub start_dhparams_worker : DhConfig → Result (Option ℕ)
start_dhparams_worker c =
    if not (nat_eq c.bits 1024) && not (nat_eq c.bits 2048) && not (nat_eq c.bits 4096)
    then panic
    else max_age_of c.max_age_days

-- `dhparamsRegeneration && date.Before(beforeTime)`
abbrev pub is_old : Option ℕ → Time → Time → Bool
is_old none now date = false
is_old (some age) now date = ltb (date + age) now

-- Whether new parameters are needed.
unfoldable pub is_due : Option ℕ → Time → Option Time → Bool
is_due age now none = true
is_due age now (some date) = is_old age now date

module _ (S : StateStore) (default : String) where
  -- `now` is the time when the worker begins, and `later` when it has made the parameters.
  abbrev pub queued_if : Result (Unit {0}) → Node S → Result (Unit {0}) × Node S
  queued_if (ok x) n = (ok tt, record n { queued = suc n.queued })
  queued_if (err e) n = (err e, n)
  queued_if panic n = (panic, n)

  abbrev pub store_generated : Time → Generated → Node S → Result (Unit {0}) × Node S
  store_generated later canceled n = (ok tt, n)
  store_generated later (failed e) n = (err e, n)
  store_generated later (made pem) n =
      let (r, m) = set_dhparams S default later pem n.manager in
      queued_if r (record n { manager = m })

  abbrev pub regenerate_if : Bool → Time → Generated → Node S → Result (Unit {0}) × Node S
  regenerate_if b later g n = if b then store_generated later g n else (ok tt, n)

  abbrev pub with_current :
      Option ℕ
      → Time
      → Time
      → Generated
      → Result (String × Option Time)
      → Node S
      → Result (Unit {0}) × Node S
  with_current age now later g (ok (pem, date)) n = regenerate_if (is_due age now date) later g n
  with_current age now later g (err e) n = (err e, n)
  with_current age now later g panic n = (panic, n)

  -- `dhparamsWorker`
  unfoldable pub dhparams_worker :
      Option ℕ → Time → Time → Generated → Node S → Result (Unit {0}) × Node S
  dhparams_worker age now later g n =
      let (r, m) = get_dhparams S default n.manager in
      with_current age now later g r (record n { manager = m })
