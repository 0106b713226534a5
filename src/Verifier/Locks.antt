-- ===== src/Verifier/Locks.antt =====
-- The locks and the waits of keyset.go and userinfo.go: what can hold a request, or the refresh loop, up.
pub mod Kept
pub mod Progress
pub mod Tests
use gateway_auth.Prelude.{
  ℕ, zero, suc, ◌+◌, ◌-◌, ◌*◌, ◌++◌, ◌==◌, Bool, true, false, ◌&&◌, List, [], ◌∷◌, Option, none,
  some, if◌then◌else◌, map,
}
use gateway_auth.KeySet.Timing.{second, key_set_fetch_timeout}

-- `discoveryTimeout`, and the `Timeout` of the client that `newHTTPClient` makes and the userinfo
-- fetcher uses.
abbrev pub discovery_timeout : ℕ
discovery_timeout = 15 * second

abbrev pub client_timeout : Option ℕ
client_timeout = some discovery_timeout

-- What may wait: the calls on the key set's RWMutex, those on the userinfo cache's Mutex, and an
-- exchange with the network, under its timeout, or under none.
pub data Instr : Type 0 where
  read_lock : Instr
  read_unlock : Instr
  write_lock : Instr
  write_unlock : Instr
  lock : Instr
  unlock : Instr
  exchange : Option ℕ → Instr

-- `Set()`.
abbrev pub set_locks : List Instr
set_locks = read_lock ∷ read_unlock ∷ []

-- `refresh`; it writes the keys where it fetched a set.
abbrev pub refresh_locks : Bool → List Instr
refresh_locks fetched =
    exchange (some key_set_fetch_timeout) ∷ (if fetched then write_lock ∷ write_unlock ∷ [] else [])

-- How a call of `fill` ends: with a cached entry, with no request, with no answer that it can use, or
-- with one that it stores.
pub data Course : Type 0 where
  cached : Course
  not_sent : Course
  no_answer : Course
  answered : Course

abbrev pub fill_locks : Course → List Instr
fill_locks cached = lock ∷ unlock ∷ []
fill_locks not_sent = lock ∷ unlock ∷ []
fill_locks no_answer = lock ∷ unlock ∷ exchange client_timeout ∷ []
fill_locks answered = lock ∷ unlock ∷ exchange client_timeout ∷ lock ∷ unlock ∷ []

-- One call of `Authenticate`: with no token; rejected; or accepted, and then it may parse the display
-- cookie, and it may call `fill`. One round of `refreshLoop`.
pub data Task : Type 0 where
  no_token : Task
  rejected : Task
  accepted : Bool → Option Course → Task
  round : Bool → Task

abbrev pub filled_locks : Option Course → List Instr
filled_locks none = []
filled_locks (some course) = fill_locks course

abbrev pub locks_of : Task → List Instr
locks_of no_token = []
locks_of rejected = set_locks
locks_of (accepted cookie course) =
    set_locks ++ (if cookie then set_locks else []) ++ filled_locks course
locks_of (round fetched) = refresh_locks fetched

-- How many hold each lock: the readers and writers of the RWMutex, and the holders of the Mutex.
pub record Locks : Type 0 where
  pub readers : ℕ
  pub writers : ℕ
  pub holders : ℕ

abbrev pub all_free : Locks
all_free = record { readers = 0; writers = 0; holders = 0 }

-- An instruction, where it does not have to wait; one with no timeout may wait forever. Go lets no new
-- reader in while a writer waits, which then needs only the readers there are to go.
abbrev pub effect : Instr → Locks → Option Locks
effect read_lock l = if l.writers == 0 then some (record l { readers = suc l.readers }) else none
effect read_unlock l = some (record l { readers = l.readers - 1 })
effect write_lock l =
    if (l.writers == 0) && (l.readers == 0) then some (record l { writers = 1 }) else none
effect write_unlock l = some (record l { writers = l.writers - 1 })
effect lock l = if l.holders == 0 then some (record l { holders = 1 }) else none
effect unlock l = some (record l { holders = l.holders - 1 })
effect (exchange none) l = none
effect (exchange (some limit)) l = some l

-- The locks, and what each task still has to do.
abbrev pub Tasks : Type 0
Tasks = List (List Instr)

abbrev pub resumed : List Instr → Tasks → Option Locks → Option (Locks × Tasks)
resumed p ts none = none
resumed p ts (some l) = some (l, p ∷ ts)

abbrev pub behind : List Instr → Option (Locks × Tasks) → Option (Locks × Tasks)
behind t none = none
behind t (some (l, ts)) = some (l, t ∷ ts)

-- The next instruction of the `n`-th task, unless it has to wait or there is none.
unfoldable pub turn : ℕ → Locks → Tasks → Option (Locks × Tasks)
turn n l [] = none
turn zero l ([] ∷ ts) = none
turn zero l ((i ∷ p) ∷ ts) = resumed p ts (effect i l)
turn (suc n) l (t ∷ ts) = behind t (turn n l ts)

-- What a schedule comes to; a task that has to wait stays where it is.
abbrev pub or_stay : Locks × Tasks → Option (Locks × Tasks) → Locks × Tasks
or_stay s none = s
or_stay s (some r) = r

unfoldable pub run_tasks : List ℕ → Locks × Tasks → Locks × Tasks
unfolding turn
run_tasks [] s = s
run_tasks (n ∷ ns) (l, ts) = run_tasks ns (or_stay (l, ts) (turn n l ts))
