-- ===== src/Api/Status.antt =====
-- api/routes/status.go: the handler of /status, which shows less to those who are not authenticated.
pub mod Laws
mod Tests
use Prim.Native.Char.{code}
use Prim.Native.String
use statiko.Base.{
  ℕ, suc, ◌-◌, String, ◌<>◌, ◌==◌, ltb, nat_eq, length, Bool, true, false, not, ◌&&◌, ◌||◌, Option,
  none, some, List, [], ◌∷◌, if◌then◌else◌,
}
use statiko.Base.Exec.{Error, Result}
use statiko.State.Types.{SiteState, SiteHealth, NodeSync, NodeStatus, is_healthy}
use statiko.StatusCheck.{
  CheckLib, Cache, get_health_cache, reset_health_cache, update_stored_node_health,
}
use statiko.State.Store.{StateStore}
use statiko.State.Manager.Locks.{Manager, Method}
use statiko.State.Manager.Sites.{get_site}
use statiko.Certificates.Jobs.{prepend}
use statiko.Api.Handler.{Node, Flow, stop, go, abort, abort_500, continue, and_then, Handler}
use statiko.Api.Sites.{is_truthy}

-- `strings.Split(s, ".")`
unfoldable pub split_dots : String → List String
split_dots String.[] = "" ∷ []
split_dots (String.◌∷◌ c s) =
    let rest = split_dots s in
    if nat_eq (code c) b'.' then "" ∷ rest else prepend (String.◌∷◌ c "") rest

-- A `SiteHealth` with its field `Healthy`.
pub record Shown : Type 0 where
  pub health : SiteHealth
  pub healthy : Bool

-- `health` is the list in the body; `none` is a list that is left out.
pub record StatusResponse : Type 0 where
  pub status : ℕ
  pub node : NodeStatus
  pub health : Option (List Shown)

abbrev pub has_no_app : SiteHealth → Bool
has_no_app h = elim h.app [ none ↦ true | some a ↦ false ]

-- The counts of errors and of sites after an entry: a site without an app and without an error is
-- taken off the total.
abbrev pub after_entry : SiteHealth → ℕ → ℕ → ℕ × ℕ
after_entry h errors total = (
  if is_healthy h then errors else suc errors,
  if is_healthy h && has_no_app h then total - 1 else total,
)

-- The counts of the loop over all sites.
unfoldable pub tally : List SiteHealth → ℕ → ℕ → ℕ × ℕ
tally [] errors total = (errors, total)
tally (h ∷ l) errors total = let (e, t) = after_entry h errors total in tally l e t

-- All the sites are failing.
unfoldable pub all_failing : List SiteHealth → Bool
all_failing l = let (errors, total) = tally l 0 (length l) in ltb 0 total && nat_eq errors total

unfoldable pub find_health : String → List SiteHealth → Option SiteHealth
find_health d [] = none
find_health d (h ∷ l) = let rest = find_health d l in if h.domain == d then some h else rest

-- `first_two` gives the first two bytes of a text that has as many.
module _ (first_two : String → Option String) where
  abbrev pub censored : Option String → Option String → Option String
  censored none rest = none
  censored (some t) none = none
  censored (some t) (some rest) = some (t <> "**." <> rest)

  abbrev pub starred : Option String → Option String
  starred none = none
  starred (some t) = some (t <> "**")

  -- The parts of a domain of several parts, the last of which is kept.
  unfoldable pub censor_parts : List String → Option String
  censor_parts [] = some ""
  censor_parts (x ∷ []) = some x
  censor_parts (x ∷ y ∷ l) = censored (first_two x) (censor_parts (y ∷ l))

  abbrev pub censor_split : List String → Option String
  censor_split [] = some ""
  censor_split (x ∷ []) = starred (first_two x)
  censor_split (x ∷ y ∷ l) = censor_parts (x ∷ y ∷ l)

  -- `censorDomainName`; `none` is a panic.
  unfoldable pub censor_domain_name : String → Option String
  censor_domain_name d = censor_split (split_dots d)

  abbrev pub hidden_app : Option String → Option String
  hidden_app none = none
  hidden_app (some a) = some "<hidden>"

  abbrev pub hidden_error : String → String
  hidden_error e = if e == "" then "" else "<hidden error>"

  abbrev pub without_numbers : SiteHealth → SiteHealth
  without_numbers h = record h { status_code = none; response_size = none }

  abbrev pub hide : SiteHealth → SiteHealth
  hide h = record h { app = hidden_app h.app; error = hidden_error h.error }

  -- An entry for a domain that was asked for.
  unfoldable pub show_one : Bool → SiteHealth → Shown
  show_one authenticated h = record {
    health = if authenticated then without_numbers h else hide (without_numbers h);
    healthy = is_healthy h;
  }

  abbrev pub with_domain : SiteHealth → Option String → Option SiteHealth
  with_domain h none = none
  with_domain h (some d) = some (record h { domain = d })

  abbrev pub shown_as : Bool → Option SiteHealth → Option Shown
  shown_as b none = none
  shown_as b (some h) = some (record { health = h; healthy = b })

  -- An entry of the list of all sites.
  unfoldable pub show_listed : Bool → SiteHealth → Option Shown
  show_listed authenticated h = shown_as (is_healthy h) (
      if authenticated
      then some (without_numbers h)
      else with_domain (hide (without_numbers h)) (censor_domain_name h.domain))

  abbrev pub cons_shown : Option Shown → Option (List Shown) → Option (List Shown)
  cons_shown none r = none
  cons_shown (some x) none = none
  cons_shown (some x) (some l) = some (x ∷ l)

  unfoldable pub show_all : Bool → List SiteHealth → Option (List Shown)
  show_all authenticated [] = some []
  show_all authenticated (h ∷ l) =
      cons_shown (show_listed authenticated h) (show_all authenticated l)

  abbrev pub code_of : Bool → ℕ
  code_of failing = if failing then 503 else 200

  abbrev pub respond_with : NodeStatus → Bool → Option (List Shown) → StatusResponse
  respond_with n failing l = record {
    status = if n.nginx_running then code_of failing else 503;
    node = record n { health = [] };
    health = l;
  }

  abbrev pub one_found : Bool → NodeStatus → Option SiteHealth → StatusResponse
  one_found authenticated n none = respond_with n false (some [])
  one_found authenticated n (some h) =
      respond_with n (not n.store_healthy) (some (show_one authenticated h ∷ []))

  abbrev pub of_site : Bool → NodeStatus → Option SiteState → Flow StatusResponse
  of_site authenticated n none = abort 404 ""
  of_site authenticated n (some s) =
      if s.domain == ""
      then abort 404 ""
      else go (one_found authenticated n (find_health s.domain n.health))

  abbrev pub of_list : NodeStatus → Option (List Shown) → Flow StatusResponse
  of_list n none = abort_500
  of_list n (some []) = go (respond_with n false none)
  of_list n (some (x ∷ l)) = go (respond_with n (all_failing n.health) (some (x ∷ l)))

  -- The answer for the health that is stored.
  unfoldable pub status_of :
      (S : StateStore) → Bool → String → Manager S → Option NodeStatus → Flow StatusResponse
  status_of S authenticated domain m none = abort_500
  status_of S authenticated domain m (some n) =
      if domain == ""
      then of_list n (show_all authenticated n.health)
      else of_site authenticated n (get_site S domain m)

  -- `X` stands for the sites that answer, `nginx`, `sync` and `running` for the state of the web server
  -- and of the synchronization, and `cache` for the status check's variables.
  module _ (S : StateStore) (X : CheckLib) (name : String) (nginx : Bool) (sync : NodeSync)
      (running : Bool) (cache : Cache) where
    abbrev pub store_health : Handler S Unit
    store_health n =
        let (h, s) = S.healthy n.manager.store in
        (
          if h.0 then go tt else abort 500 "State is not healthy",
          record n { manager = record n.manager { store = s } },
        )

    -- The health is checked anew, and the error of storing it is dropped.
    abbrev pub refresh : Manager S → Manager S
    refresh m =
        let (health, rest) = get_health_cache X S running m (reset_health_cache cache) in
        (update_stored_node_health X S name nginx sync health m).1

    abbrev pub refresh_if : String → Handler S Unit
    refresh_if force n =
        (go tt, record n { manager = if is_truthy force then refresh n.manager else n.manager })

    -- `StatusHandler`
    unfoldable pub status_handler : Bool → String → String → Handler S StatusResponse
    status_handler authenticated force domain = and_then S store_health (λ _.
        and_then S (refresh_if force)
          (λ _ n. (status_of S authenticated domain n.manager n.manager.node_health, n)))
