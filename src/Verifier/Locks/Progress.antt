-- ===== src/Verifier/Locks/Progress.antt =====
-- No schedule of requests and refreshes comes to a stop before all have ended.
use gateway_auth.Prelude.{ℕ, ◌≡◌, List, [], some, All, length}
use gateway_auth.Verifier.Locks.{Locks, all_free, Tasks, turn, run_tasks}
use gateway_auth.Verifier.Locks.Kept.{IsPlaced, size, Accounts}

-- Some task can go on.
abbrev pub CanTurn : Locks → Tasks → Type 0
CanTurn l ts = (n : ℕ) × (s : Locks × Tasks) × (turn n l ts ≡ some s)

record IsSound (s : Locks × Tasks) : Type 0 where
  placed : All IsPlaced s.1
  accounts : Accounts all_free s.0 s.1

-- Every task has ended.
abbrev pub AllEnded : Tasks → Type 0
AllEnded ts = All (λ t. t ≡ []) ts

-- What is left to do: a schedule that ends every task, in as many turns as there are instructions left.
abbrev pub Completes : Locks × Tasks → Type 0
Completes s = (more : List ℕ) × (length more ≡ size s.1) × AllEnded (run_tasks more s).1
