-- ===== src/Api/Handler.antt =====
-- What the handlers of api/routes/ share: a node to act on, and a response that ends the handler
-- early. A panic ends the request with status 500, by the recovery handler of `gin.Default`.
use statiko.Base.{ℕ, suc, String, List}
use statiko.Base.Exec.{Result, ok, err, panic}
use statiko.State.Types.{SiteState}
use statiko.State.Store.{StateStore}
use statiko.State.Manager.Locks.{Manager, Method}

pub data Body : Type 0 where
  empty : Body
  message : String → Body
  site : SiteState → Body
  sites : List SiteState → Body
  names : List String → Body

pub record Response : Type 0 where
  pub status : ℕ
  pub body : Body

-- `queued` counts the calls of `sync.QueueRun`.
pub record Node (S : StateStore) : Type 0 where
  pub manager : Manager S
  pub queued : ℕ

pub data Flow {ℓ} (A : Type ℓ) : Type ℓ where
  stop : Response → Flow A
  go : A → Flow A

-- `c.AbortWithStatusJSON` with an error message, and `c.AbortWithError`.
abbrev pub abort {ℓ} : {A : Type ℓ} → ℕ → String → Flow A
abort status text = stop (record { status = status; body = message text })

abbrev pub abort_500 {ℓ} : {A : Type ℓ} → Flow A
abort_500 = stop (record { status = 500; body = empty })

abbrev pub of_result {ℓ} : {A : Type ℓ} → Result A → Flow A
of_result (ok a) = go a
of_result (err e) = abort_500
of_result panic = abort_500

abbrev pub bind_flow {ℓ κ} : {A : Type ℓ} {B : Type κ} → Flow A → (A → Flow B) → Flow B
bind_flow (stop r) f = stop r
bind_flow (go a) f = f a

module _ (S : StateStore) where
  abbrev pub Handler : Type 0 → Type 0
  Handler A = Node S → Flow A × Node S

  abbrev pub continue : {A B : Type 0} → Flow A → (A → Handler B) → Handler B
  continue (stop r) f n = (stop r, n)
  continue (go a) f n = f a n

  abbrev pub and_then : {A B : Type 0} → Handler A → (A → Handler B) → Handler B
  and_then h f n = let (r, n') = h n in continue r f n'

  -- A method of the manager whose error is answered by status 500.
  abbrev pub call : {A : Type 0} → Method S A → Handler A
  call f n = let (r, m) = f n.manager in (of_result r, record n { manager = m })

  -- `sync.QueueRun()`
  abbrev pub queue_run : Handler Unit
  queue_run n = (go tt, record n { queued = suc n.queued })

  -- The response of a handler that has run to its end.
  abbrev pub respond : {A : Type 0} → (A → Response) → Flow A → Response
  respond f (stop r) = r
  respond f (go a) = f a
