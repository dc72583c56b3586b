-- ===== src/Tasks/Cron/Exact.antt =====
-- The periodic tasks of ipapp/task/db.py run at the times of their crontabs: a strict one at each of them.
use ipapp.Common.{
  ℕ, zero, suc, ◌+◌, ◌≤◌, ◌<◌, ◌≡◌, Bool, true, false, not, ◌&&◌, ◌||◌, Option, some, List, [], ◌∷◌,
  arith, ltb, leb, eqb, if◌then◌else◌, inl, inr, Bool-cases, ◌∙◌,
}
use ipapp.Tasks.Cron.{PeriodicTask, missed, missed_once, tick_task}

-- What a crontab promises: `next t` leads from `t` to the first time after `t` that it names.
pub record IsCrontab (fires : ℕ → Bool) (next : ℕ → ℕ) : Type 0 where
  pub next_pos : (t : ℕ) → 0 < next t
  pub next_fires : (t : ℕ) → fires (t + next t) ≡ true
  pub next_least : (t u : ℕ) → t < u → u < t + next t → fires u ≡ false

abbrev pub mem : ℕ → List ℕ → Bool
mem u [] = false
mem u (t ∷ ts) = eqb t u || mem u ts

abbrev pub IsIncreasing : ℕ → List ℕ → Type 0
IsIncreasing lo [] = Unit
IsIncreasing lo (t ∷ ts) = (lo < t) × IsIncreasing t ts

-- The stamps of a run of the loop that starts at a time of the crontab, and where it stops.
record Exact (fires : ℕ → Bool) (next : ℕ → ℕ) (now next_dt : ℕ) (r : Option (List ℕ × ℕ))
    : Type 0 where
  stamps : List ℕ
  end : ℕ
  returns : r ≡ some (stamps, end)
  exact : (u : ℕ) → mem u stamps ≡ (leb next_dt u && leb u now && fires u)
  increasing : (lo : ℕ) → lo < next_dt → IsIncreasing lo stamps
  later : end ≡ now + next now

module _ (boot : Bool) (now last : ℕ) (task : PeriodicTask) where
  tick_task_strict :
      task.strict ≡ true
      → tick_task boot now last task ≡ missed (suc now) task.next now (last + task.next last)
  unfolding tick_task
  tick_task_strict strict = ground arith

  tick_task_lax :
      task.strict ≡ false
      → tick_task boot now last task
        ≡ some (
            missed_once task.next now (if boot then now + task.next now else last + task.next last))
  unfolding tick_task
  tick_task_lax lax = ground arith

module _ (fires : ℕ → Bool) (next : ℕ → ℕ) (c : IsCrontab fires next) where
  -- Between two stamps with no time of the crontab in between, the second is the next one.
  next_unique :
      (now t : ℕ)
      → now < t
      → fires t ≡ true
      → ((u : ℕ) → now < u → u < t → fires u ≡ false)
      → t ≡ now + next now
  next_unique now t h f gap =
      ground (arith, gap (now + next now), c.next_pos now, c.next_fires now, c.next_least now t)

  IsIncreasing-weaken :
      (lo lo' : ℕ) (ts : List ℕ) → lo ≤ lo' → IsIncreasing lo' ts → IsIncreasing lo ts
  IsIncreasing-weaken lo lo' [] h i = tt
  IsIncreasing-weaken lo lo' (t ∷ ts) h i = (omega (arith, i.0), i.1)

  missed-Exact :
      (fuel now next_dt : ℕ)
      → 0 < fuel
      → fires next_dt ≡ true
      → ((u : ℕ) → now < u → u < next_dt → fires u ≡ false)
      → suc now < fuel + next_dt
      → Exact fires next now next_dt (missed fuel next now next_dt)
  unfolding missed
  missed-Exact zero now next_dt some_fuel f gap enough = absurd (omega arith)
  missed-Exact (suc fuel) now next_dt some_fuel f gap enough = elim (Bool-cases (leb next_dt now)) [
    | inl round ↦
        let next_dt' = next_dt + next next_dt in
        let rest =
          missed-Exact fuel now next_dt' (ground arith) (c.next_fires next_dt)
            (λ u h h'. c.next_least next_dt u (ground arith) h')
            (omega (arith, c.next_pos next_dt)) in
        record {
          stamps = next_dt ∷ rest.stamps;
          end = rest.end;
          returns = rw round (rw rest.returns);
          exact = λ u. ground (arith, rest.exact u, c.next_least next_dt u, c.next_pos next_dt);
          increasing = λ lo h. (h, rest.increasing next_dt (omega (arith, c.next_pos next_dt)));
          later = rest.later;
        }
    | inr over ↦ record {
      stamps = [];
      end = next_dt;
      returns = rw over;
      exact = λ u. ground arith;
      increasing = λ lo h. tt;
      later = next_unique now next_dt (ground arith) f gap;
    }
  ]

  -- A strict task: the loop ends, and it runs at exactly the times of its crontab after the last tick
  -- and up to now, each once and in order, at the start of the process as later.
  pub tick_task-strict :
      (boot : Bool) (now last : ℕ) (task : PeriodicTask)
      → task.next ≡ next
      → task.strict ≡ true
      → last ≤ now
      → (ts : List ℕ) × (tick_task boot now last task ≡ some (ts, now + next now))
        × ((u : ℕ) → mem u ts ≡ (ltb last u && leb u now && fires u))
        × IsIncreasing last ts
  tick_task-strict boot now last task same strict h =
      let e =
        missed-Exact (suc now) now (last + next last) (omega arith) (c.next_fires last)
          (λ u a b. c.next_least last u (omega arith) b) (omega (arith, c.next_pos last)) in
      (
        e.stamps,
        tick_task_strict boot now last task strict ∙ rw same (e.returns ∙ rw e.later),
        λ u. ground (arith, e.exact u, c.next_least last u, c.next_pos last),
        e.increasing last (omega (arith, c.next_pos last)),
      )

  -- A task that is not strict runs at most once in a tick: not at the start of the process, and later if its
  -- crontab names a time after the last tick and up to now, at the first such time.
  pub tick_task-lax :
      (boot : Bool) (now last : ℕ) (task : PeriodicTask)
      → task.next ≡ next
      → task.strict ≡ false
      → last ≤ now
      → tick_task boot now last task
        ≡ some (
          if not boot && leb (last + next last) now then (last + next last) ∷ [] else [],
          now + next now,
        )
  tick_task-lax boot now last task same lax h =
      tick_task_lax boot now last task lax
      ∙ rw same (
          ground
            (arith, c.next_pos now, next_unique now (last + next last), c.next_fires last, gap))
    where
      gap : (u : ℕ) → now < u → u < last + next last → fires u ≡ false
      gap u a b = c.next_least last u (omega arith) b
