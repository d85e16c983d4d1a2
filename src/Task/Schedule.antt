-- ===== src/Task/Schedule.antt =====
-- The operations of src/kernel/task/scheduler.cc that walk the ring of tasks.
use slayer_os.Base.{
  ℕ, zero, suc, ◌+◌, Bool, true, false, ◌||◌, Option, none, some, List, [], ◌∷◌, ◌++◌, ◌==◌,
  if◌then◌else◌, u32,
}
use slayer_os.Task.{
  Scheduler, State, Task, spawn_process, active, waiting, terminated, ready, set_state,
  cleanup_terminated,
}

-- The test for ACTIVE or READY.
abbrev pub is_runnable : State → Bool
is_runnable active = true
is_runnable ready = true
is_runnable _ = false

-- The loop of `get_by_pid`, with the rounds left. `none`: they ran out.
unfoldable pub find_pid : Scheduler → ℕ → ℕ → ℕ → Option ℕ
find_pid s pid zero t = none
find_pid s pid (suc n) t =
    let rest = find_pid s pid n (s.tasks t).next in
    if (s.tasks t).pid == pid then some t else (if (s.tasks t).next == s.head then some 0 else rest)

unfoldable pub get_by_pid : Scheduler → ℕ → Option ℕ
unfolding find_pid
get_by_pid s pid = if s.head == 0 then some 0 else find_pid s pid s.count s.head

unfoldable pub kill_process : Scheduler → ℕ → Option Scheduler
unfolding get_by_pid
kill_process s pid = elim (get_by_pid s pid) [
  | none ↦ none
  | some t ↦ some (if t == 0 then s else record s { tasks = set_state s.tasks t terminated })
]

-- The loop of `yield` with the rounds left: the task that it stops at, and the rounds left then.
unfoldable pub next_runnable : Scheduler → ℕ → ℕ → ℕ × ℕ
next_runnable s zero t = (t, zero)
next_runnable s (suc n) t =
    let rest = next_runnable s n (s.tasks t).next in
    if is_runnable (s.tasks t).state then (t, suc n) else rest

-- The last lines of `yield` and `start_scheduler`.
unfoldable pub switch_to : Scheduler → ℕ → Scheduler
switch_to s t = record s {
  current = t;
  tasks = set_state s.tasks t active;
  started = s.started ++ ((s.tasks t).ctx.rip ∷ []);
}

-- `yield` behind `cleanup_terminated`.
unfoldable pub pass_on : Scheduler → Scheduler
unfolding next_runnable switch_to
pass_on s =
    let (next, left) = next_runnable s s.count (s.tasks s.current).next in
    if s.current == 0 || s.count == 0 || left == 0 || next == s.current then s else switch_to s next

unfoldable pub yield : Scheduler → Option Scheduler
unfolding pass_on
yield s = elim (cleanup_terminated s) [ none ↦ none | some s' ↦ some (pass_on s') ]

unfoldable pub kill_current : Scheduler → Option Scheduler
unfolding yield
kill_current s =
    if s.current == 0
    then some s
    else yield (record s { tasks = set_state s.tasks s.current terminated })

-- `sleep`, whose argument the code does not use.
unfoldable pub sleep : Scheduler → Option Scheduler
unfolding yield
sleep s =
    if s.current == 0
    then some s
    else yield (record s { tasks = set_state s.tasks s.current waiting })

-- The loop of `start_scheduler`, with the rounds left. `none`: they ran out.
unfoldable pub first_runnable : Scheduler → ℕ → ℕ → Option ℕ
first_runnable s zero t = none
first_runnable s (suc n) t =
    let next = (s.tasks t).next in
    let rest = first_runnable s n next in
    if t == 0 || is_runnable (s.tasks t).state
    then some t
    else (if next == s.head then some next else rest)

unfoldable pub start_scheduler : Scheduler → Option Scheduler
unfolding first_runnable switch_to
start_scheduler s = if s.count == 0 then some s else (elim (first_runnable s s.count s.head) [
  | none ↦ none
  | some t ↦ some (
      if t == 0
      then record s { scheduler_running = true }
      else switch_to (record s { scheduler_running = true }) t)
])

unfoldable pub stop_scheduler : Scheduler → Scheduler
stop_scheduler s = record s { scheduler_running = false }

-- The loop of `get_active_count`, with the rounds left and the count so far.
unfoldable pub count_active : Scheduler → ℕ → ℕ → ℕ → Option ℕ
count_active s zero t sum = none
count_active s (suc n) t sum =
    let sum' = if is_runnable (s.tasks t).state then u32 (sum + 1) else sum in
    let rest = count_active s n (s.tasks t).next sum' in
    if (s.tasks t).next == s.head then some sum' else rest

unfoldable pub get_active_count : Scheduler → Option ℕ
unfolding count_active
get_active_count s = if s.head == 0 then some 0 else count_active s s.count s.head 0

-- A line of `list_processes`.
pub record ProcessLine : Type 0 where
  pub pid : ℕ
  pub name : ℕ
  pub state : State
  pub priority : ℕ

abbrev pub line_of : Task → ProcessLine
line_of t = record { pid = t.pid; name = t.name; state = t.state; priority = t.priority }

-- The loop of `list_processes`, with the rounds left. `none`: they ran out.
unfoldable pub list_from : Scheduler → ℕ → ℕ → Option (List ProcessLine)
list_from s zero t = none
list_from s (suc n) t =
    let rest = list_from s n (s.tasks t).next in
    if (s.tasks t).next == s.head
    then some (line_of (s.tasks t) ∷ [])
    else (elim rest [ none ↦ none | some lines ↦ some (line_of (s.tasks t) ∷ lines) ])

-- `list_processes`, with the lines that it prints.
unfoldable pub list_processes : Scheduler → Option (List ProcessLine)
unfolding list_from
list_processes s = if s.head == 0 then some [] else list_from s s.count s.head

abbrev pub get_current : Scheduler → ℕ
get_current s = s.current

abbrev pub get_process_count : Scheduler → ℕ
get_process_count s = s.count

-- `add_task`, where `name` is the address of the text "legacy_task".
unfoldable pub add_task : Scheduler → (task stack entry name : ℕ) → ℕ × Scheduler
unfolding spawn_process
add_task s task stack entry name = spawn_process s task stack entry name 1
