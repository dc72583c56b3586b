-- ===== src/Tasks/System.antt =====
-- ipapp/task/db.py: the task managers of one database as a step relation. A step is one statement or
-- transaction, so the statements of concurrent `schedule`, `cancel`, `_scan` and `_exec`, of one
-- process or of several, come in any order.
use ipapp.Common.{ℕ, ◌≡◌, Bool, Option, none, some, List, [], ◌∷◌, ◌++◌, map, eqb, if◌then◌else◌}
use ipapp.Tasks.{Row, Tables, task_add, task_search, empty}
use ipapp.Tasks.Manager.{Request, Outcome, new_task, cancel, exec_log, exec_finish}

-- A task that an `_exec` works on: the row that the scan handed out, and how its handler ended, once
-- that is in the log.
pub record Running : Type 0 where
  pub task : Row
  pub outcome : Option Outcome

pub record System : Type 0 where
  pub db : Tables
  pub running : List Running

abbrev pub begun : Row → Running
begun r = record { task = r; outcome = none }

abbrev pub run_at : ℕ → List Running → Option Running
run_at i [] = none
run_at i (x ∷ xs) = if eqb x.task.id i then some x else run_at i xs

abbrev pub set_outcome : ℕ → Outcome → List Running → List Running
set_outcome i o [] = []
set_outcome i o (x ∷ xs) =
    (if eqb x.task.id i then record x { outcome = some o } else x) ∷ set_outcome i o xs

abbrev pub forget : ℕ → List Running → List Running
forget i [] = []
forget i (x ∷ xs) = let rest = forget i xs in if eqb x.task.id i then rest else x ∷ rest

pub data Step (s u : System) : Type 0 where
  -- a `schedule`
  scheduled :
      (now : ℕ) (q : Request) → u ≡ record s { db = (task_add now (new_task q) s.db).1 } → Step s u
  -- a `cancel`
  canceled : (now id : ℕ) → u ≡ record s { db = (cancel now id s.db).1 } → Step s u
  -- the search of `_search_and_exec`, which begins an `_exec` for each row
  scanned :
      (now : ℕ) (locked : ℕ → Bool) (batch_size : ℕ)
      → u ≡ record {
        db = (task_search now locked batch_size s.db).1;
        running = s.running ++ map begun (task_search now locked batch_size s.db).0;
      }
      → Step s u
  -- a handler has ended, and `_exec` writes the log
  logged :
      (id begin finish : ℕ) (o : Outcome) (x : Running)
      → run_at id s.running ≡ some x
      → x.outcome ≡ none
      → u
        ≡ record { db = exec_log x.task begin finish o s.db; running = set_outcome id o s.running }
      → Step s u
  -- `_exec` ends
  finished :
      (now id : ℕ) (o : Outcome) (x : Running)
      → run_at id s.running ≡ some x
      → x.outcome ≡ some o
      → u ≡ record { db = (exec_finish now x.task o s.db).1; running = forget id s.running }
      → Step s u
  -- every process dies
  crashed : u ≡ record s { running = [] } → Step s u

abbrev pub initial : System
initial = record { db = empty; running = [] }

-- What can come about from empty tables.
pub data Reachable : System → Type 0 where
  here : Reachable initial
  next : {s u : System} → Reachable s → Step s u → Reachable u
