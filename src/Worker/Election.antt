-- ===== src/Worker/Election.antt =====
-- worker/controller-etcd.go, acquireLeadership: which node leads. Each node watches a key that holds
-- the leader's identifier, here a number, for as long as the leader's lease lasts. A step is what
-- etcd or one goroutine of a node does at once, and the steps of all nodes interleave freely, those of
-- a node's first attempt with those of its watcher too.
pub mod Laws
mod Tests
use statiko.Base.{
  ℕ, nat_eq, Bool, true, false, ◌≡◌, Option, none, some, List, [], ◌∷◌, ◌++◌, if◌then◌else◌,
}

-- `pending` are the events that the watcher has not handled, and `refused` says that the first attempt
-- has found another leader and is about to call `setLeader(false)`. `last` and `late`, which are no
-- variables of the program, are the last event that the watcher has handled, and whether that call has
-- been made since.
pub record Node : Type 0 where
  pub watching : Bool
  pub attempted : Bool
  pub refused : Bool
  pub pending : List (Option ℕ)
  pub last : Option (Option ℕ)
  pub late : Bool
  pub is_leader : Bool

pub record Election : Type 0 where
  pub key : Option ℕ
  pub nodes : ℕ → Node

abbrev pub update : ℕ → Node → (ℕ → Node) → ℕ → Node
update i n f j = if nat_eq i j then n else f j

abbrev pub new_node : Node
new_node = record {
  watching = false;
  attempted = false;
  refused = false;
  pending = [];
  last = none;
  late = false;
  is_leader = false;
}

unfoldable pub start : Election
start = record { key = none; nodes = λ i. new_node }

abbrev pub receive : Option ℕ → Node → Node
receive e n = if n.watching then record n { pending = n.pending ++ e ∷ [] } else n

-- The key changes, and all who watch it are told.
unfoldable pub publish : Option ℕ → Election → Election
publish e s = record { key = e; nodes = λ j. receive e (s.nodes j) }

-- `setLeader`
unfoldable pub set_leader : ℕ → Bool → Election → Election
set_leader i b s = record s { nodes = update i (record (s.nodes i) { is_leader = b }) s.nodes }

-- The function `acquireLeadership` inside. Where `reached` is not set, the lease or the transaction has
-- failed without effect.
unfoldable pub acquire : ℕ → Bool → Election → Election
acquire i false s = s
acquire i true s = elim s.key [ none ↦ publish (some i) s | some k ↦ set_leader i false s ]

unfoldable pub watch : ℕ → Election → Election
watch i s = record s { nodes = update i (record (s.nodes i) { watching = true }) s.nodes }

abbrev pub refuse : ℕ → Election → Election
refuse i s = record s { nodes = update i (record (s.nodes i) { refused = true }) s.nodes }

abbrev pub attempt : ℕ → Bool → Election → Election
attempt i false s = s
attempt i true s = elim s.key [ none ↦ publish (some i) s | some k ↦ refuse i s ]

-- The transaction of the first attempt, in a goroutine of its own.
unfoldable pub first_attempt : ℕ → Bool → Election → Election
first_attempt i reached s =
    attempt i reached
      (record s { nodes = update i (record (s.nodes i) { attempted = true }) s.nodes })

-- The call `setLeader(false)` of the first attempt.
unfoldable pub give_way : ℕ → Election → Election
give_way i s = record s {
  nodes = update i (record (s.nodes i) { refused = false; late = true; is_leader = false }) s.nodes;
}

-- The watcher has some events, of which `e` is the last.
unfoldable pub take : ℕ → Option ℕ → List (Option ℕ) → Election → Election
take i e rest s = record s {
  nodes = update i (record (s.nodes i) { pending = rest; last = some e; late = false }) s.nodes;
}

abbrev pub on_event : ℕ → Option ℕ → Bool → Election → Election
on_event i none reached s = acquire i reached s
on_event i (some k) reached s = set_leader i (nat_eq k i) s

-- The watcher of `acquireLeadership`
unfoldable pub handle : ℕ → Option ℕ → List (Option ℕ) → Bool → Election → Election
handle i e rest reached s = on_event i e reached (take i e rest s)

pub data Step : Election → Election → Type 0 where
  expires : (s : Election) (k : ℕ) → s.key ≡ some k → Step s (publish none s)
  watches : (s : Election) (i : ℕ) → Step s (watch i s)
  attempts :
      (s : Election) (i : ℕ) (reached : Bool)
      → (s.nodes i).attempted ≡ false
      → Step s (first_attempt i reached s)
  gives_way : (s : Election) (i : ℕ) → (s.nodes i).refused ≡ true → Step s (give_way i s)
  handles :
      (s : Election) (i : ℕ) (before : List (Option ℕ)) (e : Option ℕ) (rest : List (Option ℕ))
      (reached : Bool)
      → (s.nodes i).pending ≡ before ++ e ∷ rest
      → Step s (handle i e rest reached s)

pub data Reachable : Election → Type 0 where
  at_start : Reachable start
  after : {s t : Election} → Reachable s → Step s t → Reachable t
