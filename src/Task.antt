-- ===== src/Task.antt =====
-- src/kernel/task/scheduler.cc and src/include/task/man.h: the ring of tasks.
-- A task is a record under its address, and the null pointer is 0. The heap's part in a call stands
-- in the arguments: the addresses that its `kmalloc` returns; what goes to `kfree` is noted in
-- `freed`. The entry points that the scheduler calls are noted in `started`.
pub mod Schedule
pub mod Ring
pub mod Trail
pub mod Link
pub mod Unlink
pub mod Tasks
pub mod Removal
pub mod Cleanup
pub mod Turns
pub mod Round
pub mod Fair
pub mod Keeps
pub mod Reach
mod Tests
use slayer_os.Base.{
  ℕ, zero, suc, ◌+◌, Bool, true, false, not, ◌&&◌, ◌||◌, Option, none, some, List, [], ◌∷◌, ◌++◌,
  ◌==◌, ltb, if◌then◌else◌, update, u32, u64, sub32,
}

-- `Taskman::Context`; `general` is the registers from r15 to rax.
pub record Context : Type 0 where
  pub general : ℕ → ℕ
  pub rip : ℕ
  pub cs : ℕ
  pub rflags : ℕ
  pub rsp : ℕ
  pub ss : ℕ

-- `Taskman::State`
pub data State : Type 0 where
  active waiting terminated ready : State

pub record Task : Type 0 where
  pub ctx : Context
  pub stack : ℕ
  pub pid : ℕ
  pub state : State
  pub next : ℕ
  pub prev : ℕ
  pub name : ℕ
  pub priority : ℕ
  pub start_time : ℕ
  pub cpu_time : ℕ

-- `Taskman::ProcessList`, the tasks that it leads to, and the rest of the file's state.
pub record Scheduler : Type 0 where
  pub tasks : ℕ → Task
  pub head : ℕ
  pub tail : ℕ
  pub current : ℕ
  pub count : ℕ
  pub next_pid : ℕ
  pub scheduler_running : Bool
  pub freed : List ℕ
  pub started : List ℕ

abbrev pub stack_size : ℕ
stack_size = 32768

abbrev pub set_next : (ℕ → Task) → ℕ → ℕ → ℕ → Task
set_next tasks t a = update tasks t (record (tasks t) { next = a })

abbrev pub set_prev : (ℕ → Task) → ℕ → ℕ → ℕ → Task
set_prev tasks t a = update tasks t (record (tasks t) { prev = a })

abbrev pub set_state : (ℕ → Task) → ℕ → State → ℕ → Task
set_state tasks t st = update tasks t (record (tasks t) { state = st })

unfoldable pub link_process : Scheduler → ℕ → Scheduler
link_process s t =
    if s.head == 0
    then record s {
      head = t;
      tail = t;
      tasks = set_prev (set_next s.tasks t t) t t;
      count = u32 (s.count + 1);
    }
    else record s {
      tasks = set_prev (set_next (set_prev (set_next s.tasks t s.head) t s.tail) s.tail t) s.head t;
      tail = t;
      count = u32 (s.count + 1);
    }

-- The two writes that take a task out of the ring.
unfoldable pub bypass : (ℕ → Task) → ℕ → ℕ → Task
bypass tasks t =
    let tasks1 = set_next tasks (tasks t).prev (tasks t).next in
    set_prev tasks1 (tasks1 t).next (tasks1 t).prev

unfoldable pub unlink_process : Scheduler → ℕ → Scheduler
unfolding bypass
unlink_process s t =
    let tasks' = bypass s.tasks t in
    if s.count == 1
    then record s { head = 0; tail = 0; current = 0; count = sub32 s.count 1 }
    else record s {
      tasks = tasks';
      head = if s.head == t then (tasks' t).next else s.head;
      tail = if s.tail == t then (tasks' t).prev else s.tail;
      current = if s.current == t then (tasks' t).next else s.current;
      count = sub32 s.count 1;
    }

abbrev pub is_terminated : State → Bool
is_terminated terminated = true
is_terminated _ = false

-- The body of the loop of `cleanup_terminated` for one task.
abbrev pub reap : Scheduler → ℕ → Scheduler
reap s t =
    if is_terminated (s.tasks t).state
    then (let s' = unlink_process s t in
        record s' { freed = s'.freed ++ ((s'.tasks t).stack ∷ t ∷ []) })
    else s

-- The loop on fuel. `none`: the fuel ran out.
unfoldable pub cleanup_from : ℕ → Scheduler → ℕ → Option Scheduler
unfolding unlink_process
cleanup_from zero s t = none
cleanup_from (suc n) s t =
    let next = (s.tasks t).next in
    let s' = reap s t in
    let rest = cleanup_from n s' next in
    if not (next == s'.head) && ltb 0 s'.count then rest else some s'

-- The fuel is a round for each task.
unfoldable pub cleanup_terminated : Scheduler → Option Scheduler
unfolding cleanup_from
cleanup_terminated s = if s.head == 0 then some s else cleanup_from s.count s s.head

-- The fields that `spawn_process` fills in before it links the task.
abbrev pub prepare : Scheduler → (task stack entry name priority : ℕ) → Scheduler
prepare s task stack entry name priority = record s {
  tasks = update s.tasks task (record (s.tasks task) {
    ctx = record {
      general = λ _. 0;
      rip = entry;
      cs = 0x08;
      rflags = 0x202;
      rsp = u64 (stack + stack_size);
      ss = 0x10;
    };
    stack = stack;
    pid = s.next_pid;
    state = ready;
    name = name;
    priority = priority;
    start_time = 0;
    cpu_time = 0;
  });
  next_pid = u32 (s.next_pid + 1);
}

-- `spawn_process`, with the task that it returns; `task` and `stack` are what the two calls of
-- `kmalloc` return.
unfoldable pub spawn_process : Scheduler → (task stack entry name priority : ℕ) → ℕ × Scheduler
unfolding link_process
spawn_process s task stack entry name priority =
    if task == 0
    then (0, s)
    else (if stack == 0
        then (0, record s { freed = s.freed ++ (task ∷ []) })
        else (task, link_process (prepare s task stack entry name priority) task))
