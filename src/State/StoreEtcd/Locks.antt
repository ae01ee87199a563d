-- ===== src/State/StoreEtcd/Locks.antt =====
-- state/store-etcd.go: the locks, which are keys with a lease of twenty seconds.
use statiko.Base.{
  ℕ, zero, suc, String, ◌<>◌, Bool, true, false, ◌≡◌, refl, ◌⊎◌, inl, inr, Option, none, some,
  if◌then◌else◌,
}
use statiko.Base.Exec.{Error, Result, ok, err, lift, ◌>>=◌}
use statiko.State.Etcd.{Etcd, Transaction}
use statiko.State.StoreEtcd.{EtcdConfig, Task, wrapped, wrap, locks_prefix}

-- `EtcdLockDuration`, in seconds
abbrev pub lock_duration : ℕ
lock_duration = 20

abbrev pub succeeded_of : Error ⊎ Transaction → Result Bool
succeeded_of (inl e) = err (wrap e)
succeeded_of (inr t) = ok t.succeeded

module _ (E : Etcd) (K : EtcdConfig) where
  -- `tryLockAcquisition`
  unfoldable pub try_lock_acquisition : String → ℕ → Task E Bool
  try_lock_acquisition key lease s = (
    succeeded_of (E.put_if_absent key K.lock_value (some lease) s).0,
    (E.put_if_absent key K.lock_value (some lease) s).1,
  )

  abbrev pub or_retry : ℕ → Task E (Option ℕ) → Bool → Task E (Option ℕ)
  or_retry lease again true s = (ok (some lease), s)
  or_retry lease again false s = again (E.sleep s)

  -- The loop of `AcquireLock`, for a number of attempts; `none` if all have been made in vain.
  unfoldable pub attempt : ℕ → String → ℕ → Task E (Option ℕ)
  attempt zero key lease s = (ok none, s)
  attempt (suc i) key lease s =
      (try_lock_acquisition key lease >>= or_retry lease (attempt i key lease)) s

  abbrev pub timed : Bool → Option ℕ → Result (Option ℕ)
  timed true none = err "could not obtain a state lock - timeout occurred"
  timed true (some l) = ok (some l)
  timed false o = ok o

  abbrev pub grant : ℕ → Task E ℕ
  grant ttl s = (wrapped (E.grant ttl s).0, (E.grant ttl s).1)

  -- `AcquireLock`. Without a timeout it waits for as long as it takes; it is followed here for so
  -- many attempts as `patience` says, after which the result is `none`.
  unfoldable pub acquire_lock : ℕ → String → Bool → Task E (Option ℕ)
  acquire_lock patience name timeout = do
    lease ← grant lock_duration
    o ← attempt (if timeout then 40 else patience) (locks_prefix K <> name) lease
    lift (timed timeout o)

  -- `ReleaseLock`
  unfoldable pub release_lock : ℕ → Task E Unit
  release_lock lease s =
      (elim (E.revoke lease s).0 [ none ↦ ok tt | some e ↦ err (wrap e) ], (E.revoke lease s).1)

  -- The cluster after so many attempts that were refused, with a second after each.
  abbrev pub waited : ℕ → String → ℕ → E.Server → E.Server
  waited zero key lease s = s
  waited (suc i) key lease s =
      waited i key lease (E.sleep (E.put_if_absent key K.lock_value (some lease) s).1)

  -- The transaction is refused each time.
  abbrev pub IsRefused : ℕ → String → ℕ → E.Server → Type 0
  IsRefused zero key lease s = Unit
  IsRefused (suc i) key lease s =
      (succeeded_of (E.put_if_absent key K.lock_value (some lease) s).0 ≡ ok false)
      × IsRefused i key lease (E.sleep (E.put_if_absent key K.lock_value (some lease) s).1)

  attempt_refused :
      (i : ℕ) (key : String) (lease : ℕ) (s : E.Server)
      → IsRefused i key lease s
      → attempt i key lease s ≡ (ok none, waited i key lease s)
  unfolding attempt try_lock_acquisition
  attempt_refused zero key lease s h = refl
  attempt_refused (suc i) key lease s (no_luck, h) =
      rw no_luck (
        attempt_refused i key lease (E.sleep (E.put_if_absent key K.lock_value (some lease) s).1) h)

  -- A lock that is refused each time is given up after forty attempts, with a second after each, and
  -- the result is the error of a timeout.
  pub acquire_lock_refused :
      (patience : ℕ) (name : String) (lease : ℕ) (s : E.Server)
      → (E.grant lock_duration s).0 ≡ inr lease
      → IsRefused 40 (locks_prefix K <> name) lease (E.grant lock_duration s).1
      → acquire_lock patience name true s ≡ (
        err "could not obtain a state lock - timeout occurred",
        waited 40 (locks_prefix K <> name) lease (E.grant lock_duration s).1,
      )
  unfolding acquire_lock
  acquire_lock_refused patience name lease s granted h =
      rw (granted, attempt_refused 40 (locks_prefix K <> name) lease (E.grant lock_duration s).1 h)
        refl
