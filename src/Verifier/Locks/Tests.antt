-- ===== src/Verifier/Locks/Tests.antt =====
-- A run and an instance of the locks.
use gateway_auth.Prelude.{◌≡◌, refl, List, [], ◌∷◌, true, false, none, some, map}
use gateway_auth.Verifier.Locks.{
  Task, accepted, answered, cached, round, locks_of, all_free, turn, run_tasks,
}

-- A call that asks the endpoint, one that has the cookie and a cached entry, and a refresh.
abbrev tasks : List Task
tasks = accepted false (some answered) ∷ accepted true (some cached) ∷ round true ∷ []

-- The refresh has its answer and waits to write while the first call reads the keys.
write_waits_run :
    turn 2
      (run_tasks (2 ∷ 0 ∷ []) (all_free, map locks_of tasks)).0
      (run_tasks (2 ∷ 0 ∷ []) (all_free, map locks_of tasks)).1
    ≡ none
unfolding turn run_tasks
write_waits_run = refl
