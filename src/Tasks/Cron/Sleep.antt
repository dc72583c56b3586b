-- ===== src/Tasks/Cron/Sleep.antt =====
-- How long `_tick` of ipapp/task/db.py sleeps: not past the next time of any crontab.
use ipapp.Common.{
  ℕ, ◌+◌, ◌≤◌, ◌≡◌, refl, Bool, Option, none, some, List, [], ◌∷◌, ◌++◌, map, arith, inl, inr,
  Bool-cases,
}
use ipapp.Common.Lists.{All}
use ipapp.Tasks.Cron.{PeriodicTask, tick_task, sooner, tick_tasks}
use ipapp.Tasks.Cron.Exact.{IsCrontab, tick_task-strict, tick_task-lax}

-- A task with a crontab.
pub record IsPeriodic (task : PeriodicTask) : Type 0 where
  pub fires : ℕ → Bool
  pub crontab : IsCrontab fires task.next

-- A time is set, and it is no later than this one.
abbrev pub NoLater : Option ℕ → ℕ → Type 0
NoLater none b = ⊥
NoLater (some s) b = s ≤ b

-- Whatever its kind, a task is next due at the next time of its crontab.
tick_task-next :
    (boot : Bool) (now last : ℕ) (task : PeriodicTask)
    → IsPeriodic task
    → last ≤ now
    → (ts : List ℕ) × (tick_task boot now last task ≡ some (ts, now + task.next now))
tick_task-next boot now last task p h = elim (Bool-cases task.strict) [
  | inl strict ↦
      let t = tick_task-strict p.fires task.next p.crontab boot now last task refl strict h in
      (t.0, t.1)
  | inr lax ↦ (_, tick_task-lax p.fires task.next p.crontab boot now last task refl lax h)
]

record Sleeps (now : ℕ) (tasks : List PeriodicTask) (before : Option ℕ)
    (r : Option (List (PeriodicTask × ℕ) × Option ℕ)) : Type 0 where
  to_exec : List (PeriodicTask × ℕ)
  sleep : Option ℕ
  returns : r ≡ some (to_exec, sleep)
  kept : (b : ℕ) → NoLater before b → NoLater sleep b
  soon : All (λ t. NoLater sleep (t.next now)) tasks

tick_tasks-Sleeps :
    (boot : Bool) (now last : ℕ) (tasks : List PeriodicTask) (before : Option ℕ)
    → All IsPeriodic tasks
    → last ≤ now
    → Sleeps now tasks before (tick_tasks boot now last tasks before)
unfolding tick_tasks sooner
tick_tasks-Sleeps boot now last [] before p h = record {
  to_exec = [];
  sleep = before;
  returns = refl;
  kept = λ b k. k;
  soon = tt;
}
tick_tasks-Sleeps boot now last (task ∷ tasks) before p h =
    let (ts, e) = tick_task-next boot now last task p.0 h in
    let rest =
      tick_tasks-Sleeps boot now last tasks (sooner now (now + task.next now) before) p.1 h in
    record {
      to_exec = map (λ t. (task, t)) ts ++ rest.to_exec;
      sleep = rest.sleep;
      returns = rw (e, tick_tasks) (rw rest.returns);
      kept = λ b k. rest.kept b (ground arith);
      soon = (rest.kept (task.next now) (ground (arith, p.0.crontab.next_pos now)), rest.soon);
    }

-- A round of the loop over the periodic tasks ends, for crontabs that name a next time and a last tick
-- that is not in the future; and the time that it sets to sleep is set, and ends no later than the next
-- time of any of the crontabs.
pub tick_tasks-sleep :
    (boot : Bool) (now last : ℕ) (tasks : List PeriodicTask)
    → All IsPeriodic tasks
    → last ≤ now
    → (to_exec : List (PeriodicTask × ℕ)) × (sleep : Option ℕ) × (tick_tasks boot now last tasks
          none
        ≡ some (to_exec, sleep))
      × All (λ t. NoLater sleep (t.next now)) tasks
tick_tasks-sleep boot now last tasks p h =
    let r = tick_tasks-Sleeps boot now last tasks none p h in
    (r.to_exec, r.sleep, r.returns, r.soon)
