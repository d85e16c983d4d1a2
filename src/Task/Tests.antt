-- ===== src/Task/Tests.antt =====
-- A ring of two tasks that `spawn_process` of src/kernel/task/scheduler.cc makes, and the theorems
-- about it.
use slayer_os.Base.{
  ℕ, ◌≡◌, ◌≢◌, ◌<◌, ◌+◌, ◌^◌, refl, inl, inr, false, true, some, List, [], ◌∷◌, ◌++◌, arith,
}
use slayer_os.Task.{
  Scheduler, Task, waiting, terminated, spawn_process, set_state, cleanup_terminated,
}
use slayer_os.Task.Schedule.{kill_process, start_scheduler, switch_to, yield, kill_current, sleep}
use slayer_os.Task.Ring.{IsRing, first_or_head}
use slayer_os.Task.Trail.{IsCircle}
use slayer_os.Task.Tasks.{IsTasks, spawn_process-IsTasks}
use slayer_os.Task.Cleanup.{Cleaned, kept, cleanup_terminated-Cleaned}
use slayer_os.Task.Turns.{IsTurn}
use slayer_os.Task.Round.{AllRunnable}
use slayer_os.Task.Fair.{yields, entry_points, yields_lem}
use slayer_os.Task.Keeps.{Ends, ReadsEnd, operations_end}
use slayer_os.Task.Reach.{Fresh, spawned, began, here, onward, Reached-IsTasks}

abbrev no_task : Task
no_task = record {
  ctx = record { general = λ _. 7; rip = 7; cs = 7; rflags = 7; rsp = 7; ss = 7 };
  stack = 7;
  pid = 7;
  state = waiting;
  next = 0;
  prev = 0;
  name = 0;
  priority = 0;
  start_time = 0;
  cpu_time = 0;
}

abbrev empty : Scheduler
empty = record {
  tasks = λ _. no_task;
  head = 0;
  tail = 0;
  current = 0;
  count = 0;
  next_pid = 1;
  scheduler_running = false;
  freed = [];
  started = [];
}

abbrev two : Scheduler
two = (spawn_process (spawn_process empty 0x1000 0x2000 0x400 0 1).1 0x3000 0x4000 0x500 0 1).1

two-IsRing : IsRing two (0x3000 ∷ [])
unfolding spawn_process
two-IsRing = record {
  not_null = λ e. omega arith;
  linked = (refl, (λ e. omega arith), (λ e. omega arith), refl);
  counted = refl;
  small = omega arith;
}

-- Both tasks wait.
abbrev idle : Scheduler
idle = record two { tasks = set_state (set_state two.tasks 0x1000 waiting) 0x3000 waiting }

idle-IsRing : IsRing idle (0x3000 ∷ [])
unfolding spawn_process
idle-IsRing = record {
  not_null = λ e. omega arith;
  linked = (refl, (λ e. omega arith), (λ e. omega arith), refl);
  counted = refl;
  small = omega arith;
}

idle_head : first_or_head idle (idle.head ∷ 0x3000 ∷ []) ≢ 0
unfolding spawn_process
idle_head e = omega arith

pair-IsCircle :
    (tasks : ℕ → Task)
    → (tasks 0x1000).next ≡ 0x3000
    → (tasks 0x3000).next ≡ 0x1000
    → (tasks 0x1000).prev ≡ 0x3000
    → (tasks 0x3000).prev ≡ 0x1000
    → IsCircle tasks 0x1000 (0x3000 ∷ [])
pair-IsCircle tasks next next' prev prev' = record {
  path = (next, prev', tt);
  closes = next';
  opens = prev;
  distinct = (((λ e. omega arith), tt), (tt, tt));
  not_null = ((λ e. omega arith), ((λ e. omega arith), tt));
}

two-IsTasks : IsTasks two (0x1000 ∷ 0x3000 ∷ [])
unfolding spawn_process
two-IsTasks = record {
  circle = (refl, refl, pair-IsCircle two.tasks refl refl refl refl);
  counted = refl;
  small = omega arith;
  current_in = inl refl;
}

few : two.count + 1 < 2 ^ 32
unfolding spawn_process
few = omega arith

spawn_process-IsTasks_example :
    let (t, s') = spawn_process two 0x5000 0x6000 0x700 0 1 in
    (t ≡ 0x5000) × IsTasks s' ((0x1000 ∷ 0x3000 ∷ []) ++ (0x5000 ∷ []))
spawn_process-IsTasks_example =
    spawn_process-IsTasks two (0x1000 ∷ 0x3000 ∷ []) 0x5000 0x6000 0x700 0 1 two-IsTasks
      (λ e. omega arith) (λ e. omega arith) ((λ e. omega arith), ((λ e. omega arith), tt)) few

-- The second task has ended.
abbrev ended : Scheduler
ended = record two { tasks = set_state two.tasks 0x3000 terminated }

ended-IsTasks : IsTasks ended (0x1000 ∷ 0x3000 ∷ [])
unfolding spawn_process
ended-IsTasks = record {
  circle = (refl, refl, pair-IsCircle ended.tasks refl refl refl refl);
  counted = refl;
  small = omega arith;
  current_in = inl refl;
}

cleanup_terminated-Cleaned_example :
    (s' : Scheduler) × (cleanup_terminated ended ≡ some s')
    × Cleaned ended (kept ended (0x1000 ∷ 0x3000 ∷ [])) s'
cleanup_terminated-Cleaned_example =
    cleanup_terminated-Cleaned ended (0x1000 ∷ 0x3000 ∷ []) ended-IsTasks

operations_end_example :
    ((pid : ℕ) → Ends (kill_process ended pid))
    × Ends (yield ended)
    × Ends (kill_current ended)
    × Ends (sleep ended)
    × Ends (start_scheduler ended)
    × ReadsEnd ended
operations_end_example = operations_end ended (0x1000 ∷ 0x3000 ∷ []) ended-IsTasks

-- The first of the two tasks runs.
abbrev busy : Scheduler
busy = switch_to two 0x1000

busy-IsTasks : IsTasks busy (0x1000 ∷ 0x3000 ∷ [])
unfolding spawn_process switch_to
busy-IsTasks = record {
  circle = (refl, refl, pair-IsCircle busy.tasks refl refl refl refl);
  counted = refl;
  small = omega arith;
  current_in = inr (inl refl);
}

busy-IsTurn : IsTurn busy 0x1000 (0x3000 ∷ [])
unfolding spawn_process switch_to
busy-IsTurn = record {
  at = refl;
  set = λ e. omega arith;
  follows = (refl, refl);
  counted = refl;
  apart = ((λ e. omega arith), tt);
}

at_work : (busy.current ≡ 0x1000) × AllRunnable busy (0x1000 ∷ 0x3000 ∷ [])
unfolding spawn_process switch_to
at_work = (refl, (refl, (refl, tt)))

yields_lem_example :
    (s' : Scheduler) × (yields 1 busy ≡ some s')
    × (s'.current ≡ 0x3000)
    × (s'.started ≡ busy.started ++ entry_points busy (0x3000 ∷ []))
yields_lem_example =
    yields_lem busy [] 0x1000 (0x3000 ∷ []) [] 0x3000 [] busy-IsTasks at_work.0 at_work.1 refl

empty-IsTasks : IsTasks empty []
empty-IsTasks = record { circle = refl; counted = refl; small = omega arith; current_in = inl refl }

empty-Fresh : (a : ℕ) → Fresh empty a
empty-Fresh a [] is = tt
empty-Fresh a (h ∷ ts) is = let (head, _, c) = is.circle in absurd (c.not_null.0 head)

abbrev one : Scheduler
one = (spawn_process empty 0x1000 0x2000 0x400 0 1).1

abbrev one_works : Scheduler
one_works = switch_to (record one { scheduler_running = true }) 0x1000

one_starts : start_scheduler one ≡ some one_works
unfolding spawn_process start_scheduler
one_starts = refl

Reached-IsTasks_example : (xs : List ℕ) × IsTasks one_works xs
Reached-IsTasks_example = Reached-IsTasks empty one_works empty-IsTasks (
    onward (onward here (spawned 0x1000 0x2000 0x400 0 1 (empty-Fresh 0x1000) (omega arith)))
      (began one_starts))
