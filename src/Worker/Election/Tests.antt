-- ===== src/Worker/Election/Tests.antt =====
-- The theorem about leaders for two nodes, the first of which has become the leader.
use statiko.Base.{false, nat_eq, true, ◌≡◌, refl, some, []}
use statiko.Worker.Election.{
  Election, start, publish, set_leader, acquire, watch, first_attempt, take, handle, watches,
  attempts, handles, Reachable, at_start, after,
}
use statiko.Worker.Election.Laws.{IsRested, is_leader_lem}

-- Both watch, the first makes its attempt, and then the second.
abbrev tried : Election
tried = first_attempt 1 true (first_attempt 0 true (watch 1 (watch 0 start)))

-- Each has handled the event.
abbrev settled : Election
settled = handle 1 (some 0) [] true (handle 0 (some 0) [] true tried)

tried-Reachable : Reachable tried
unfolding start watch first_attempt acquire publish set_leader
tried-Reachable =
    after
      (after (after (after at_start (watches start 0)) (watches (watch 0 start) 1))
        (attempts (watch 1 (watch 0 start)) 0 true refl))
      (attempts (first_attempt 0 true (watch 1 (watch 0 start))) 1 true refl)

settled-Reachable : Reachable settled
unfolding start watch first_attempt acquire publish set_leader handle take
settled-Reachable =
    after (after tried-Reachable (handles tried 0 [] (some 0) [] true refl))
      (handles (handle 0 (some 0) [] true tried) 1 [] (some 0) [] true refl)

settled-IsRested : IsRested (settled.nodes 1)
unfolding start watch first_attempt acquire publish set_leader handle take
settled-IsRested = record { handled = (some 0, refl); all = refl }

is_leader_lem_example :
    ((settled.nodes 1).is_leader ≡ true → nat_eq 0 1 ≡ true)
    × ((settled.nodes 1).late ≡ false → (settled.nodes 1).is_leader ≡ nat_eq 0 1)
unfolding start watch first_attempt acquire publish set_leader handle take
is_leader_lem_example = is_leader_lem settled settled-Reachable 0 1 refl settled-IsRested
