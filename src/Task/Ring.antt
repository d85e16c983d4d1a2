-- ===== src/Task/Ring.antt =====
-- The walks of src/kernel/task/scheduler.cc around a ring of tasks, against the list of the tasks.
use slayer_os.Base.{
  ℕ, suc, ◌+◌, ◌≡◌, ◌≢◌, ◌<◌, ◌≤◌, ◌^◌, ◌∙◌, refl, sym, ap, Bool, true, false, some, List, [], ◌∷◌,
  ◌==◌, if◌then◌else◌, inl, inr, Bool-cases, eq→==, ne→==, arith, length, u32,
}
use slayer_os.Task.{Scheduler}
use slayer_os.Task.Schedule.{
  is_runnable, find_pid, get_by_pid, ProcessLine, line_of, list_from, list_processes, count_active,
  get_active_count, first_runnable, start_scheduler, switch_to,
}

-- From task `t` the pointers lead through `ts` and then to the head, which is not among `ts`.
abbrev pub Linked : Scheduler → ℕ → List ℕ → Type 0
Linked s t [] = (s.tasks t).next ≡ s.head
Linked s t (x ∷ ts) = ((s.tasks t).next ≡ x) × (x ≢ s.head) × (x ≢ 0) × Linked s x ts

-- The ring of the head and `ts`.
pub record IsRing (s : Scheduler) (ts : List ℕ) : Type 0 where
  pub not_null : s.head ≢ 0
  pub linked : Linked s s.head ts
  pub counted : s.count ≡ suc (length ts)
  pub small : s.count < 2 ^ 32

-- The first task with a pid, or null.
abbrev pub first_pid : Scheduler → ℕ → List ℕ → ℕ
first_pid s pid [] = 0
first_pid s pid (t ∷ ts) = if (s.tasks t).pid == pid then t else first_pid s pid ts

find_pid_lem :
    (s : Scheduler) (pid t : ℕ) (ts : List ℕ)
    → Linked s t ts
    → find_pid s pid (suc (length ts)) t ≡ some (first_pid s pid (t ∷ ts))
unfolding find_pid
find_pid_lem s pid t [] e = elim (Bool-cases ((s.tasks t).pid == pid)) [
  | inl found ↦ rw found refl
  | inr other ↦ rw (other, eq→== (s.tasks t).next s.head e) refl
]
find_pid_lem s pid t (x ∷ ts) (e, ne, _, rest) = elim (Bool-cases ((s.tasks t).pid == pid)) [
  | inl found ↦ rw found refl
  | inr other ↦ rw (other, e, ne→== x s.head ne) (find_pid_lem s pid x ts rest)
]

-- On a ring `get_by_pid` ends with the first task that has the pid, from the head on, or with null,
-- where no task has it.
pub get_by_pid_lem :
    (s : Scheduler) (ts : List ℕ) (pid : ℕ)
    → IsRing s ts
    → get_by_pid s pid ≡ some (first_pid s pid (s.head ∷ ts))
unfolding get_by_pid
get_by_pid_lem s ts pid ring =
    ap (λ b. if b then some 0 else find_pid s pid s.count s.head) (ne→== s.head 0 ring.not_null)
    ∙ ap (λ n. find_pid s pid n s.head) ring.counted
    ∙ find_pid_lem s pid s.head ts ring.linked

abbrev pub runnable_tasks : Scheduler → List ℕ → ℕ
runnable_tasks s [] = 0
runnable_tasks s (t ∷ ts) = (if is_runnable (s.tasks t).state then 1 else 0) + runnable_tasks s ts

runnable_tasks-le : (s : Scheduler) (ts : List ℕ) → runnable_tasks s ts ≤ length ts
runnable_tasks-le s [] = omega arith
runnable_tasks-le s (t ∷ ts) = ground (arith, runnable_tasks-le s ts)

add_runnable :
    (b : Bool) (sum : ℕ)
    → sum + 1 < 2 ^ 32
    → (if b then u32 (sum + 1) else sum) ≡ sum + (if b then 1 else 0)
add_runnable true sum h = omega arith
add_runnable false sum h = omega arith

count_active_lem :
    (s : Scheduler) (t sum : ℕ) (ts : List ℕ)
    → Linked s t ts
    → sum + suc (length ts) < 2 ^ 32
    → count_active s (suc (length ts)) t sum ≡ some (sum + runnable_tasks s (t ∷ ts))
unfolding count_active
count_active_lem s t sum [] e small =
    let sum' = add_runnable (is_runnable (s.tasks t).state) sum (omega arith) in
    let end : sum + (if is_runnable (s.tasks t).state then 1 else 0)
        ≡ sum + ((if is_runnable (s.tasks t).state then 1 else 0) + 0) =
      omega arith in
    rw (eq→== (s.tasks t).next s.head e, sum') (ap some end)
count_active_lem s t sum (x ∷ ts) (e, ne, _, rest) small =
    let sum' = add_runnable (is_runnable (s.tasks t).state) sum (omega arith) in
    let one : ℕ = if is_runnable (s.tasks t).state then 1 else 0 in
    let few : one ≤ 1 = ground arith in
    rw (e, ne→== x s.head ne, sum')
      (count_active_lem s x (sum + one) ts rest (omega (arith, few)) ∙ ap some (omega arith))

-- On a ring `get_active_count` ends with the number of the tasks that are ACTIVE or READY.
pub get_active_count_lem :
    (s : Scheduler) (ts : List ℕ)
    → IsRing s ts
    → get_active_count s ≡ some (runnable_tasks s (s.head ∷ ts))
unfolding get_active_count
get_active_count_lem s ts ring =
    ap (λ b. if b then some 0 else count_active s s.count s.head 0) (ne→== s.head 0 ring.not_null)
    ∙ ap (λ n. count_active s n s.head 0) ring.counted
    ∙ count_active_lem s s.head 0 ts ring.linked (omega (arith, ring.counted, ring.small))
    ∙ ap some (omega arith)

-- The first task that is ACTIVE or READY; where there is none, the head.
abbrev pub first_or_head : Scheduler → List ℕ → ℕ
first_or_head s [] = s.head
first_or_head s (t ∷ ts) = if is_runnable (s.tasks t).state then t else first_or_head s ts

first_runnable_lem :
    (s : Scheduler) (t : ℕ) (ts : List ℕ)
    → t ≢ 0
    → Linked s t ts
    → first_runnable s (suc (length ts)) t ≡ some (first_or_head s (t ∷ ts))
unfolding first_runnable
first_runnable_lem s t [] set e = elim (Bool-cases (is_runnable (s.tasks t).state)) [
  | inl run ↦ rw (ne→== t 0 set, run) refl
  | inr idle ↦ rw (ne→== t 0 set, idle, eq→== (s.tasks t).next s.head e) (ap some e)
]
first_runnable_lem s t (x ∷ ts) set (e, ne, set', rest) =
    elim (Bool-cases (is_runnable (s.tasks t).state)) [
      | inl run ↦ rw (ne→== t 0 set, run) refl
      | inr idle ↦
          rw (ne→== t 0 set, idle, e, ne→== x s.head ne) (first_runnable_lem s x ts set' rest)
    ]

-- On a ring without null pointers `start_scheduler` starts the first task that is ACTIVE or READY,
-- from the head on; where no task is, it makes the head ACTIVE and starts it, whatever its state
-- was.
pub start_scheduler_lem :
    (s : Scheduler) (ts : List ℕ)
    → IsRing s ts
    → first_or_head s (s.head ∷ ts) ≢ 0
    → start_scheduler s
      ≡ some (switch_to (record s { scheduler_running = true }) (first_or_head s (s.head ∷ ts)))
unfolding start_scheduler
start_scheduler_lem s ts ring set =
    rw
      (
        ne→== s.count 0 (λ e. omega (arith, ring.counted)),
        ap (λ n. first_runnable s n s.head) ring.counted,
        first_runnable_lem s s.head ts ring.not_null ring.linked,
        ne→== (first_or_head s (s.head ∷ ts)) 0 set,
      )
      refl

abbrev pub lines_of : Scheduler → List ℕ → List ProcessLine
lines_of s [] = []
lines_of s (t ∷ ts) = line_of (s.tasks t) ∷ lines_of s ts

list_from_lem :
    (s : Scheduler) (t : ℕ) (ts : List ℕ)
    → Linked s t ts
    → list_from s (suc (length ts)) t ≡ some (lines_of s (t ∷ ts))
unfolding list_from
list_from_lem s t [] e = rw (eq→== (s.tasks t).next s.head e) refl
list_from_lem s t (x ∷ ts) (e, ne, _, rest) =
    let on : ((s.tasks t).next == s.head) ≡ false = ne→== _ _ (λ h. ne (sym e ∙ h)) in
    let next : list_from s (suc (length ts)) (s.tasks t).next ≡ some (lines_of s (x ∷ ts)) =
      ap (λ a. list_from s (suc (length ts)) a) e ∙ list_from_lem s x ts rest in
    rw (on, next) refl

-- On a ring `list_processes` ends and prints each task once, from the head on.
pub list_processes_lem :
    (s : Scheduler) (ts : List ℕ) → IsRing s ts → list_processes s ≡ some (lines_of s (s.head ∷ ts))
unfolding list_processes
list_processes_lem s ts ring =
    ap (λ b. if b then some [] else list_from s s.count s.head) (ne→== s.head 0 ring.not_null)
    ∙ ap (λ n. list_from s n s.head) ring.counted
    ∙ list_from_lem s s.head ts ring.linked
