-- ===== src/Task/Reach.antt =====
-- The operations of src/kernel/task/scheduler.cc one behind the other, and what they all keep.
use mathlib.Core.Option.{some-injective}
use mathlib.Core.Path.{subst}
use slayer_os.Base.{ℕ, ◌+◌, ◌^◌, ◌<◌, ◌≡◌, ◌∙◌, sym, Option, some, List, []}
use slayer_os.Base.Distinct.{Avoids}
use slayer_os.Task.{Scheduler, spawn_process}
use slayer_os.Task.Schedule.{
  kill_process, yield, kill_current, sleep, start_scheduler, stop_scheduler,
}
use slayer_os.Task.Tasks.{IsTasks}
use slayer_os.Task.Keeps.{Ends, spawn-IsTasks, operations_end}

-- Memory that is that of no task in the list, or null.
abbrev pub Fresh : Scheduler → ℕ → Type 0
Fresh s a = (xs : List ℕ) → IsTasks s xs → Avoids a xs

-- One operation of the scheduler; `spawn_process` with what its calls of `kmalloc` return.
pub data Step : Scheduler → Scheduler → Type 0 where
  spawned :
      {s : Scheduler} (task stack entry name priority : ℕ)
      → Fresh s task
      → s.count + 1 < 2 ^ 32
      → Step s (spawn_process s task stack entry name priority).1
  killed : {s s' : Scheduler} (pid : ℕ) → kill_process s pid ≡ some s' → Step s s'
  killed_current : {s s' : Scheduler} → kill_current s ≡ some s' → Step s s'
  yielded : {s s' : Scheduler} → yield s ≡ some s' → Step s s'
  slept : {s s' : Scheduler} → sleep s ≡ some s' → Step s s'
  began : {s s' : Scheduler} → start_scheduler s ≡ some s' → Step s s'
  stopped : {s : Scheduler} → Step s (stop_scheduler s)

-- The states that operations lead to, one behind the other.
pub data Reached (s0 : Scheduler) : Scheduler → Type 0 where
  here : Reached s0 s0
  onward : {s s' : Scheduler} → Reached s0 s → Step s s' → Reached s0 s'

Ends-same :
    {o : Option Scheduler} {s' : Scheduler} → Ends o → o ≡ some s' → (ys : List ℕ) × IsTasks s' ys
Ends-same {s'} (s1, e, (ys, is)) e' =
    (ys, subst (λ s2. IsTasks s2 ys) (some-injective s1 s' (sym e ∙ e')) is)

Step-IsTasks :
    {s s' : Scheduler} (xs : List ℕ) → Step s s' → IsTasks s xs → (ys : List ℕ) × IsTasks s' ys
unfolding stop_scheduler
Step-IsTasks {s} xs (spawned task stack entry name priority fresh few) is =
    spawn-IsTasks s xs task stack entry name priority is (fresh xs is) few
Step-IsTasks {s} xs (killed pid e) is = Ends-same ((operations_end s xs is).0 pid) e
Step-IsTasks {s} xs (killed_current e) is = Ends-same (operations_end s xs is).2 e
Step-IsTasks {s} xs (yielded e) is = Ends-same (operations_end s xs is).1 e
Step-IsTasks {s} xs (slept e) is = Ends-same (operations_end s xs is).3 e
Step-IsTasks {s} xs (began e) is = Ends-same (operations_end s xs is).4 e
Step-IsTasks xs stopped is = (
  xs,
  record { circle = is.circle; counted = is.counted; small = is.small; current_in = is.current_in },
)

-- Whatever operations are done on a scheduler without tasks, where each spawn gets from its first
-- call of `kmalloc` memory of no task in the list, or null, and the count of tasks stays below
-- 2 ^ 32: the list stays a circle of as many tasks as it counts, and the current task, where there
-- is one, is on it.
pub Reached-IsTasks :
    (s0 s : Scheduler) → IsTasks s0 [] → Reached s0 s → (xs : List ℕ) × IsTasks s xs
Reached-IsTasks s0 s is here = ([], is)
Reached-IsTasks s0 s is (onward r step) =
    let (xs, is') = Reached-IsTasks s0 _ is r in Step-IsTasks xs step is'
