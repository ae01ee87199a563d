-- ===== src/Worker/Election/Laws.antt =====
-- Who takes itself for the leader.
use mathlib.Core.Path.{subst}
use statiko.Base.{
  ℕ, nat_eq, Bool, true, false, ◌≡◌, refl, sym, ap, ◌∙◌, inl, inr, Option, none, some, List, [],
  ◌∷◌, ◌++◌, arith, Bool-cases,
}
use statiko.Worker.Election.{
  Node, Election, update, start, receive, publish, set_leader, acquire, watch, attempt, refuse,
  first_attempt, give_way, take, handle, Step, expires, watches, attempts, gives_way, handles,
  Reachable, at_start, after,
}

-- The last event that a node will have seen when it has handled all that are pending.
unfoldable final : List (Option ℕ) → Option (Option ℕ) → Option (Option ℕ)
final [] o = o
final (e ∷ l) o = final l (some e)

final-append :
    (l : List (Option ℕ)) (e : Option ℕ) (r : List (Option ℕ)) (o : Option (Option ℕ))
    → final (l ++ e ∷ r) o ≡ final r (some e)
unfolding final
final-append [] e r o = refl
final-append (x ∷ l) e r o = final-append l e r (some x)

-- What a node has been told is what the key holds.
record IsInformed (key : Option ℕ) (n : Node) : Type 0 where
  idle : n.watching ≡ false → (n.pending ≡ []) × (n.last ≡ none)
  current : (e : Option ℕ) → final n.pending n.last ≡ some e → e ≡ key

-- A node follows the last event that it has handled: it leads only if the event names it, and it does
-- lead then, unless its first attempt has made it give way since.
abbrev Follows : ℕ → Node → Type 0
Follows i n =
    (k : ℕ)
    → n.last ≡ some (some k)
    → (n.is_leader ≡ true → nat_eq k i ≡ true) × (n.late ≡ false → n.is_leader ≡ nat_eq k i)

same_node : (i j : ℕ) → nat_eq i j ≡ true → i ≡ j
same_node i j h = ground (arith, h)

update_all :
    (Q : ℕ → Node → Type 0) (i : ℕ) (n : Node) (f : ℕ → Node)
    → Q i n
    → ((j : ℕ) → nat_eq i j ≡ false → Q j (f j))
    → (j : ℕ) → Q j (update i n f j)
update_all Q i n f new old j = elim (Bool-cases (nat_eq i j)) [
  | inl same ↦ rw (same) (subst (λ m. Q m n) (same_node i j same) new)
  | inr differs ↦ rw differs (old j differs)
]

update_same : (i : ℕ) (n : Node) (f : ℕ → Node) → update i n f i ≡ n
update_same i n f = ground arith

abbrev AreInformed : Election → Type 0
AreInformed s = (j : ℕ) → IsInformed s.key (s.nodes j)

abbrev Follow : Election → Type 0
Follow s = (j : ℕ) → Follows j (s.nodes j)

same_value {ℓ} : {A : Type ℓ} (a b : A) → some a ≡ some b → a ≡ b
same_value a b h = cc

nothing_told :
    (l : List (Option ℕ)) (o : Option (Option ℕ)) (x : Option ℕ)
    → l ≡ []
    → o ≡ none
    → final l o ≡ some x
    → ⊥
unfolding final
nothing_told [] o x e f h = cc
nothing_told (y ∷ l) o x e f h = cc

received : (key e : Option ℕ) (n : Node) → IsInformed key n → IsInformed e (receive e n)
unfolding final
received key e n h = elim (Bool-cases n.watching) [
  | inl on ↦ rw on (record {
    idle = λ w. absurd cc;
    current = λ x c. same_value x e (sym c ∙ final-append n.pending e [] n.last);
  })
  | inr off ↦ rw off (record { idle = λ w. h.idle off; current = λ x c. absurd (untold x c off) })
]
  where
    untold : (x : Option ℕ) → final n.pending n.last ≡ some x → n.watching ≡ false → ⊥
    untold x c off = nothing_told n.pending n.last x (h.idle off).0 (h.idle off).1 c

publish-AreInformed : (e : Option ℕ) (s : Election) → AreInformed s → AreInformed (publish e s)
unfolding publish
publish-AreInformed e s h j = received s.key e (s.nodes j) (h j)

publish-Follow : (e : Option ℕ) (s : Election) → Follow s → Follow (publish e s)
unfolding publish
publish-Follow e s h j k last = elim (Bool-cases (s.nodes j).watching) [
  | inl on ↦ rw on (h j k (rw on at last))
  | inr off ↦ rw off (h j k (rw off at last))
]

set_leader-AreInformed :
    (i : ℕ) (b : Bool) (s : Election) → AreInformed s → AreInformed (set_leader i b s)
unfolding set_leader
set_leader-AreInformed i b s h =
    update_all (λ j n. IsInformed s.key n) i (record (s.nodes i) { is_leader = b }) s.nodes
      (record { idle = (h i).idle; current = (h i).current }) (λ j d. h j)

-- The others follow.
abbrev OthersFollow : ℕ → Election → Type 0
OthersFollow i s = (j : ℕ) → nat_eq i j ≡ false → Follows j (s.nodes j)

set_leader-Follow :
    (i : ℕ) (b : Bool) (s : Election)
    → OthersFollow i s
    → ((k : ℕ) → (s.nodes i).last ≡ some (some k) → b ≡ nat_eq k i)
    → Follow (set_leader i b s)
unfolding set_leader
set_leader-Follow i b s others h =
    update_all Follows i (record (s.nodes i) { is_leader = b }) s.nodes
      (λ k last. (λ leads. sym (h k last) ∙ leads, λ early. h k last)) others

acquire-AreInformed :
    (i : ℕ) (reached : Bool) (s : Election) → AreInformed s → AreInformed (acquire i reached s)
unfolding acquire
acquire-AreInformed i false s h = h
acquire-AreInformed i true s h = by_key s.key
  where
    by_key :
        (o : Option ℕ)
        → AreInformed (elim o [ none ↦ publish (some i) s | some k ↦ set_leader i false s ])
    by_key none = publish-AreInformed (some i) s h
    by_key (some k) = set_leader-AreInformed i false s h

acquire-Follow :
    (i : ℕ) (reached : Bool) (s : Election)
    → Follow s
    → ((k : ℕ) → (s.nodes i).last ≡ some (some k) → ⊥)
    → Follow (acquire i reached s)
unfolding acquire
acquire-Follow i false s h blank = h
acquire-Follow i true s h blank = by_key s.key
  where
    by_key :
        (o : Option ℕ)
        → Follow (elim o [ none ↦ publish (some i) s | some k ↦ set_leader i false s ])
    by_key none = publish-Follow (some i) s h
    by_key (some k) = set_leader-Follow i false s (λ j d. h j) (λ k last. absurd (blank k last))

-- A change of one node that leaves what it has been told.
changed :
    (i : ℕ) (n : Node) (s : Election)
    → AreInformed s
    → IsInformed s.key n
    → AreInformed (record s { nodes = update i n s.nodes })
changed i n s h informed = update_all (λ j m. IsInformed s.key m) i n s.nodes informed (λ j d. h j)

watch-AreInformed : (i : ℕ) (s : Election) → AreInformed s → AreInformed (watch i s)
unfolding watch
watch-AreInformed i s h =
    changed i (record (s.nodes i) { watching = true }) s h
      (record { idle = λ w. absurd cc; current = (h i).current })

watch-Follow : (i : ℕ) (s : Election) → Follow s → Follow (watch i s)
unfolding watch
watch-Follow i s h =
    update_all Follows i (record (s.nodes i) { watching = true }) s.nodes (h i) (λ j d. h j)

abbrev tried : ℕ → Election → Node
tried i s = record (s.nodes i) { attempted = true }

attempt-AreInformed :
    (i : ℕ) (reached : Bool) (s : Election) → AreInformed s → AreInformed (attempt i reached s)
attempt-AreInformed i false s h = h
attempt-AreInformed i true s h = by_key s.key
  where
    by_key :
        (o : Option ℕ) → AreInformed (elim o [ none ↦ publish (some i) s | some k ↦ refuse i s ])
    by_key none = publish-AreInformed (some i) s h
    by_key (some k) =
        changed i (record (s.nodes i) { refused = true }) s h
          (record { idle = (h i).idle; current = (h i).current })

attempt-Follow : (i : ℕ) (reached : Bool) (s : Election) → Follow s → Follow (attempt i reached s)
attempt-Follow i false s h = h
attempt-Follow i true s h = by_key s.key
  where
    by_key : (o : Option ℕ) → Follow (elim o [ none ↦ publish (some i) s | some k ↦ refuse i s ])
    by_key none = publish-Follow (some i) s h
    by_key (some k) =
        update_all Follows i (record (s.nodes i) { refused = true }) s.nodes (h i) (λ j d. h j)

first_attempt-AreInformed :
    (i : ℕ) (reached : Bool) (s : Election)
    → AreInformed s
    → AreInformed (first_attempt i reached s)
unfolding first_attempt
first_attempt-AreInformed i reached s h =
    attempt-AreInformed i reached (record s { nodes = update i (tried i s) s.nodes })
      (changed i (tried i s) s h (record { idle = (h i).idle; current = (h i).current }))

first_attempt-Follow :
    (i : ℕ) (reached : Bool) (s : Election) → Follow s → Follow (first_attempt i reached s)
unfolding first_attempt
first_attempt-Follow i reached s h =
    attempt-Follow i reached (record s { nodes = update i (tried i s) s.nodes })
      (update_all Follows i (tried i s) s.nodes (h i) (λ j d. h j))

abbrev gone : ℕ → Election → Node
gone i s = record (s.nodes i) { refused = false; late = true; is_leader = false }

give_way-AreInformed : (i : ℕ) (s : Election) → AreInformed s → AreInformed (give_way i s)
unfolding give_way
give_way-AreInformed i s h =
    changed i (gone i s) s h (record { idle = (h i).idle; current = (h i).current })

give_way-Follow : (i : ℕ) (s : Election) → Follow s → Follow (give_way i s)
unfolding give_way
give_way-Follow i s h =
    update_all Follows i (gone i s) s.nodes (λ k last. (λ leads. absurd cc, λ early. absurd cc))
      (λ j d. h j)

module _ (i : ℕ) (before : List (Option ℕ)) (e : Option ℕ) (rest : List (Option ℕ)) (reached : Bool)
    (s : Election) (informed : AreInformed s)
    (pending : (s.nodes i).pending ≡ before ++ e ∷ rest) where
  abbrev taken : Node
  taken = record (s.nodes i) { pending = rest; last = some e; late = false }

  last_lem : ((take i e rest s).nodes i).last ≡ some e
  unfolding take
  last_lem = ap (λ (n : Node). n.last) (update_same i taken s.nodes)

  take-AreInformed : AreInformed (take i e rest s)
  unfolding take
  take-AreInformed = changed i taken s informed (record {
    idle = λ w. absurd (not_empty before ((sym pending) ∙ ((informed i).idle w).0));
    current = λ x c. (informed i).current x (
        ap (λ l. final l (s.nodes i).last) pending
        ∙ final-append before e rest (s.nodes i).last
        ∙ c);
  })
    where
      not_empty : (l : List (Option ℕ)) → (l ++ e ∷ rest) ≡ [] → ⊥
      not_empty [] h = cc
      not_empty (x ∷ l) h = cc

  take-OthersFollow : Follow s → OthersFollow i (take i e rest s)
  unfolding take
  take-OthersFollow h j d = rw d (h j)

handle-AreInformed :
    (i : ℕ) (e : Option ℕ) (rest : List (Option ℕ)) (reached : Bool) (s : Election)
    → AreInformed (take i e rest s)
    → AreInformed (handle i e rest reached s)
unfolding handle
handle-AreInformed i none rest reached s h = acquire-AreInformed i reached (take i none rest s) h
handle-AreInformed i (some k) rest reached s h =
    set_leader-AreInformed i (nat_eq k i) (take i (some k) rest s) h

handle-Follow :
    (i : ℕ) (e : Option ℕ) (rest : List (Option ℕ)) (reached : Bool) (s : Election)
    → OthersFollow i (take i e rest s)
    → ((take i e rest s).nodes i).last ≡ some e
    → Follow (handle i e rest reached s)
unfolding handle
handle-Follow i none rest reached s others last =
    acquire-Follow i reached (take i none rest s)
      (λ j. elim (Bool-cases (nat_eq i j)) [
        | inl same ↦ λ k told. absurd (
            apart k (
              sym last ∙ ap (λ m. ((take i none rest s).nodes m).last) (same_node i j same) ∙ told))
        | inr differs ↦ others j differs
      ])
      (λ k told. absurd (apart k (sym last ∙ told)))
  where
    apart : (k : ℕ) → ◌≡◌ {A = Option (Option ℕ)} (some none) (some (some k)) → ⊥
    apart k h = cc
handle-Follow i (some k) rest reached s others last =
    set_leader-Follow i (nat_eq k i) (take i (some k) rest s) others
      (λ j told. ap (λ n. nat_eq n i) (same_leader j (sym last ∙ told)))
  where
    same_leader : (j : ℕ) → ◌≡◌ {A = Option (Option ℕ)} (some (some k)) (some (some j)) → k ≡ j
    same_leader j h = cc

abbrev IsSound : Election → Type 0
IsSound s = AreInformed s × Follow s

step-IsSound : (s t : Election) → Step s t → IsSound s → IsSound t
step-IsSound s t (expires _ k held) (informed, follow) =
    (publish-AreInformed none s informed, publish-Follow none s follow)
step-IsSound s t (watches _ i) (informed, follow) =
    (watch-AreInformed i s informed, watch-Follow i s follow)
step-IsSound s t (attempts _ i reached fresh) (informed, follow) =
    (first_attempt-AreInformed i reached s informed, first_attempt-Follow i reached s follow)
step-IsSound s t (gives_way _ i refused) (informed, follow) =
    (give_way-AreInformed i s informed, give_way-Follow i s follow)
step-IsSound s t (handles _ i before e rest reached pending) (informed, follow) = (
  handle-AreInformed i e rest reached s
      (take-AreInformed i before e rest reached s informed pending),
  handle-Follow i e rest reached s
      (take-OthersFollow i before e rest reached s informed pending follow)
      (last_lem i before e rest reached s informed pending),
)

start-IsSound : IsSound start
unfolding start final
start-IsSound =
    (λ j. record { idle = λ w. (refl, refl); current = λ e c. absurd cc }, λ j k last. absurd cc)

reachable-IsSound : {s : Election} → Reachable s → IsSound s
reachable-IsSound at_start = start-IsSound
reachable-IsSound (after {s = s} {t = t} r step) = step-IsSound s t step (reachable-IsSound r)

-- The node has handled an event, and all that it has been told.
pub record IsRested (n : Node) : Type 0 where
  pub handled : (e : Option ℕ) × (n.last ≡ some e)
  pub all : n.pending ≡ []

-- Whatever the order of the steps, those of a node's first attempt and of its watcher too, and
-- whichever attempts fail: while the key names a leader, a node that has handled an event and has none
-- pending takes itself for the leader only if the key names it. If it has not called `setLeader(false)`
-- for its first attempt since the last event, it does so whenever the key names it.
pub is_leader_lem :
    (s : Election)
    → Reachable s
    → (k i : ℕ) → s.key ≡ some k
    → IsRested (s.nodes i)
    → ((s.nodes i).is_leader ≡ true → nat_eq k i ≡ true)
      × ((s.nodes i).late ≡ false → (s.nodes i).is_leader ≡ nat_eq k i)
unfolding final
is_leader_lem s r k i held rested =
    let (informed, follow) = reachable-IsSound r in
    let (e, last) = rested.handled in
    let told : e ≡ s.key =
      (informed i).current e (ap (λ l. final l (s.nodes i).last) rested.all ∙ last) in
    follow i k (last ∙ ap some (told ∙ held))
