-- ===== src/StatusCheck.antt =====
-- statuscheck/: the health of the sites, by a request to each, and of the node. The answers of the
-- sites and the order in which they arrive are parameters.
pub mod Laws
mod Tests
use statiko.Base.{
  ℕ, ◌+◌, String, ◌<>◌, ◌==◌, ltb, nat_eq, Bool, true, false, not, ◌&&◌, ◌||◌, ◌⊎◌, inl, inr,
  Option, none, some, List, [], ◌∷◌, ◌++◌, map, if◌then◌else◌,
}
use statiko.Base.Dict.{Dict, lookup, insert}
use statiko.Base.Exec.{Error, Result, ok, err, panic, of_error, continue, ◌>>=◌}
use statiko.State.Types.{Time, SiteState, SiteApp, SiteHealth, NodeSync, NodeStatus}
use statiko.State.Store.{StateStore}
use statiko.State.Manager.Locks.{Manager, Method}
use statiko.State.Manager.Sites.{get_sites}
use statiko.State.Manager.Status.{get_site_health, set_node_health}

-- An answer is an error or a status code, and then an error or the length of the body. `arrive` is
-- the order in which the answers of the three workers arrive, `sort` is `sort.Slice` by domain, and
-- `running` is what `sync.IsRunning` says when a site's turn has come.
pub record CheckLib : Type 0 where
  pub answer : String → Error ⊎ (ℕ × (Error ⊎ ℕ))
  pub show : ℕ → String
  pub arrive : List SiteHealth → List SiteHealth
  pub sort : List SiteHealth → List SiteHealth
  pub running : String → Bool
  pub now : Time

-- The last error that was notified for each site.
abbrev pub Notified : Type 0
Notified = Dict String

-- The package's variables; `none` for `tested` is the zero time. `updated` stands for the pointer
-- that `LastUpdated` returned, which is another one after each update.
pub record Cache : Type 0 where
  pub health : Option (List SiteHealth)
  pub updated : Option Time
  pub tested : Option Time
  pub notified : Notified

-- `ResetHealthCache`
unfoldable pub reset_health_cache : Cache → Cache
reset_health_cache c = record c { health = none }

module _ (X : CheckLib) where
  abbrev pub answered : String → String → ℕ → ℕ → Error → SiteHealth
  answered domain app code size e = record {
    domain = domain;
    app = some app;
    status_code = some code;
    response_size = some size;
    error = e;
    time = some X.now;
  }

  abbrev pub with_body : String → String → ℕ → Error ⊎ ℕ → SiteHealth
  with_body domain app code (inl e) = answered domain app code 0 e
  with_body domain app code (inr n) =
      answered domain app code n (if ltb n 1 then "Invalid response size: " <> X.show n else "")

  abbrev pub with_answer : String → String → Error ⊎ (ℕ × (Error ⊎ ℕ)) → SiteHealth
  with_answer domain app (inl e) = answered domain app 0 0 e
  with_answer domain app (inr (code, body)) =
      if ltb code 200 || ltb 299 code
      then answered domain app code 0 ("Invalid status code: " <> X.show code)
      else with_body domain app code body

  -- `RequestHealth`
  unfoldable pub request_health : String × String → SiteHealth
  request_health (domain, app) = with_answer domain app (X.answer domain)

  abbrev pub app_name : Option SiteApp → Option String
  app_name none = none
  app_name (some a) = some a.name

  abbrev pub listed : String → Option String → Error → SiteHealth
  listed domain app e = record {
    domain = domain;
    app = app;
    status_code = none;
    response_size = none;
    error = e;
    time = none;
  }

  -- What the loop over the sites gives: entries of the cache, and the requests to make.
  abbrev pub Found : Type 0
  Found = List SiteHealth × List (String × String)

  abbrev pub add_site : SiteState → Option Error → Option SiteApp → Found → Found
  add_site s (some e) app (l, jobs) = (listed s.domain (app_name app) e ∷ l, jobs)
  add_site s none none (l, jobs) = (listed s.domain none "" ∷ l, jobs)
  add_site s none (some a) (l, jobs) =
      if X.running s.domain
      then (listed s.domain none "" ∷ l, jobs)
      else (l, (s.domain, a.name) ∷ jobs)

  unfoldable pub collect : (S : StateStore) → List SiteState → Manager S → Found
  collect S [] m = ([], [])
  collect S (s ∷ l) m = add_site s (get_site_health S s.domain m) s.app (collect S l m)

  abbrev pub error_text : SiteHealth → String
  error_text h = "Status check failed for domain " <> h.domain <> ": " <> h.error

  abbrev pub same_text : Option String → String → Bool
  same_text none t = t == ""
  same_text (some s) t = s == t

  -- The loop over the answers: whether there was an error, the notifications noted, and those sent.
  unfoldable pub note :
      List SiteHealth → Bool × (Notified × List String) → Bool × (Notified × List String)
  note [] x = x
  note (h ∷ l) (b, (d, sent)) = note l (
      if h.error == "" then (b, (insert h.domain "" d, sent)) else (
        true,
        (
          insert h.domain (error_text h) d,
          if same_text (lookup h.domain d) (error_text h) then sent else sent ++ error_text h ∷ [],
        ),
      ))

  -- The list that `updateHealthCache` makes.
  unfoldable pub checked : (S : StateStore) → Manager S → List SiteHealth
  checked S m =
      let (l, jobs) = collect S (get_sites S m) m in
      X.sort (l ++ X.arrive (map request_health jobs))

  -- `updateHealthCache`: the cache, whether there was an error, and the notifications sent.
  unfoldable pub update_health_cache :
      (S : StateStore) → Manager S → Cache → Cache × (Bool × List String)
  update_health_cache S m c =
      let (b, (d, sent)) =
        note (X.arrive (map request_health (collect S (get_sites S m) m).1))
          (false, (c.notified, [])) in
      (record c { health = some (checked S m); notified = d }, (b, sent))

  abbrev pub same_time : Option Time → Option Time → Bool
  same_time none none = true
  same_time none (some t) = false
  same_time (some s) none = false
  same_time (some s) (some t) = nat_eq s t

  abbrev pub current : Option Time → Cache → Cache
  current u c = if same_time u c.updated then c else record c { health = none; updated = u }

  abbrev pub outdated : Option Time → Bool
  outdated none = true
  outdated (some t) = ltb (t + 299) X.now

  abbrev pub forget_if : Bool → Cache → Cache
  forget_if b c = if b then reset_health_cache c else c

  abbrev pub value_of : Option (List SiteHealth) → List SiteHealth
  value_of none = []
  value_of (some l) = l

  abbrev pub regenerate :
      (S : StateStore) → Bool → Manager S → Cache → List SiteHealth × (Cache × List String)
  regenerate S running m c =
      let (d, (b, sent)) =
        update_health_cache S m (record c { tested = if running then none else some X.now }) in
      (value_of d.health, (forget_if b d, sent))

  abbrev pub from_cache :
      (S : StateStore)
      → Bool
      → Manager S
      → Cache
      → Option (List SiteHealth)
      → List SiteHealth × (Cache × List String)
  from_cache S running m c none = regenerate S running m c
  from_cache S running m c (some l) =
      if outdated c.tested then regenerate S running m c else (l, (c, []))

  -- `GetHealthCache`: the health of the sites, the cache and the notifications sent.
  unfoldable pub get_health_cache :
      (S : StateStore) → Bool → Manager S → Cache → List SiteHealth × (Cache × List String)
  get_health_cache S running m c = let d = current m.updated c in from_cache S running m d d.health

  -- `GetNodeHealth`, from the parts that it asks for.
  unfoldable pub get_node_health : String → Bool → NodeSync → Bool → List SiteHealth → NodeStatus
  get_node_health name nginx sync store health = record {
    node_name = name;
    nginx_running = nginx;
    sync = sync;
    store_healthy = store;
    health = health;
  }

  abbrev pub store_healthy : {S : StateStore} → Method S Bool
  store_healthy {S = S} m = let (h, s) = S.healthy m.store in (ok h.0, record m { store = s })

  -- `UpdateStoredNodeHealth`, for the name of the node, the status of the web server and of the
  -- synchronization, and the health of the sites.
  unfoldable pub update_stored_node_health :
      (S : StateStore) → String → Bool → NodeSync → List SiteHealth → Method S Unit
  update_stored_node_health S name nginx sync health = store_healthy {S = S} >>= λ store.
      set_node_health S (some (get_node_health name nginx sync store health))
