-- ===== src/Task/Keeps.antt =====
-- Each operation of src/kernel/task/scheduler.cc ends, and keeps the list of tasks.
use mathlib.Core.Path.{subst}
use slayer_os.Base.{
  ℕ, ◌+◌, ◌^◌, ◌<◌, ◌≡◌, ◌≢◌, ◌⊎◌, ◌∙◌, refl, sym, ap, inl, inr, true, Option, some, List, [], ◌∷◌,
  ◌++◌, ◌==◌, if◌then◌else◌, eq→==, ==→ne, Bool-cases, Option-cases, arith,
}
use slayer_os.Base.Distinct.{Among, Avoids, Avoids-Among}
use slayer_os.Task.{Scheduler, State, active, waiting, terminated, set_state, spawn_process}
use slayer_os.Task.Schedule.{
  is_runnable, get_by_pid, kill_process, switch_to, pass_on, yield, kill_current, sleep,
  start_scheduler, ProcessLine, list_processes, get_active_count,
}
use slayer_os.Task.Ring.{
  first_pid, first_or_head, get_by_pid_lem, start_scheduler_lem, get_active_count_lem,
  list_processes_lem,
}
use slayer_os.Task.Tasks.{IsTasks, Circle-ext, spawn_process-IsTasks}
use slayer_os.Task.Cleanup.{kept, cleanup_terminated-Cleaned}
use slayer_os.Task.Turns.{pick, pick-Among, pass_on_lem}
use slayer_os.Task.Round.{IsTasks-IsRing, IsTasks-IsTurn}

-- Where an element stands in a list.
record Place (a : ℕ) (xs : List ℕ) : Type 0 where
  front : List ℕ
  back : List ℕ
  joined : front ++ (a ∷ back) ≡ xs

place : (a : ℕ) (xs : List ℕ) → Among a xs → Place a xs
place a [] am = absurd am
place a (x ∷ xs) (inl e) = record { front = []; back = xs; joined = ap (λ y. y ∷ xs) e }
place a (x ∷ xs) (inr am) =
    let p = place a xs am in
    record { front = x ∷ p.front; back = p.back; joined = ap (λ l. x ∷ l) p.joined }

-- The scheduler with another state for one task.
abbrev with_state : Scheduler → ℕ → State → Scheduler
with_state s t st = record s { tasks = set_state s.tasks t st }

state-IsTasks :
    (s : Scheduler) (xs : List ℕ) (t : ℕ) (st : State)
    → IsTasks s xs
    → IsTasks (with_state s t st) xs
state-IsTasks s xs t st is = record {
  circle =
      Circle-ext s.tasks (set_state s.tasks t st) s.head s.tail xs
        (λ x. (ground arith, ground arith)) is.circle;
  counted = is.counted;
  small = is.small;
  current_in = is.current_in;
}

switch-IsTasks :
    (s : Scheduler) (xs : List ℕ) (t : ℕ) → IsTasks s xs → Among t xs → IsTasks (switch_to s t) xs
unfolding switch_to
switch-IsTasks s xs t is am =
    let is' = state-IsTasks s xs t active is in
    record { circle = is'.circle; counted = is.counted; small = is.small; current_in = inr am }

Among-swap : (a c : ℕ) (xs ys : List ℕ) → Among a (ys ++ xs) → Among a (xs ++ (c ∷ ys))
Among-swap a c [] [] am = absurd am
Among-swap a c (x ∷ xs) [] (inl e) = inl e
Among-swap a c (x ∷ xs) [] (inr am) = inr (Among-swap a c xs [] am)
Among-swap a c xs (y ∷ ys) (inl e) = behind xs
  where
    behind : (xs : List ℕ) → Among a (xs ++ (c ∷ y ∷ ys))
    behind [] = inr (inl e)
    behind (x ∷ xs) = inr (behind xs)
Among-swap a c xs (y ∷ ys) (inr am) = wider xs (Among-swap a c xs ys am)
  where
    wider : (xs : List ℕ) → Among a (xs ++ (c ∷ ys)) → Among a (xs ++ (c ∷ y ∷ ys))
    wider [] (inl e) = inl e
    wider [] (inr am) = inr (inr am)
    wider (x ∷ xs) (inl e) = inl e
    wider (x ∷ xs) (inr am) = inr (wider xs am)

-- `yield` behind `cleanup_terminated`.
pass_on-IsTasks : (s : Scheduler) (xs : List ℕ) → IsTasks s xs → IsTasks (pass_on s) xs
unfolding pass_on
pass_on-IsTasks s xs is = elim is.current_in [
  | inl none_runs ↦ rw (eq→== s.current 0 none_runs) is
  | inr am ↦
      let p = place s.current xs am in
      let turn =
        IsTasks-IsTurn s p.front s.current p.back (subst (λ l. IsTasks s l) (sym p.joined) is)
          refl in
      subst (λ s'. IsTasks s' xs) (sym (pass_on_lem s s.current (p.back ++ p.front) turn))
        (elim (Option-cases (pick s (p.back ++ p.front))) [
          | inl no_other ↦ rw no_other is
          | inr (t, e) ↦
              let am' = pick-Among s (p.back ++ p.front) t e in
              rw e (
                switch-IsTasks s xs t is
                  (subst (λ l. Among t l) p.joined (Among-swap t s.current p.front p.back am')))
        ])
]

-- `yield` ends, and the tasks are those that `cleanup_terminated` leaves.
yield-IsTasks :
    (s : Scheduler) (xs : List ℕ)
    → IsTasks s xs
    → (s' : Scheduler) × (yield s ≡ some s') × IsTasks s' (kept s xs)
unfolding yield
yield-IsTasks s xs is =
    let (s1, e, c) = cleanup_terminated-Cleaned s xs is in
    (pass_on s1, rw (e, yield) refl, pass_on-IsTasks s1 (kept s xs) c.tasks)

-- `kill_process` ends, and the tasks stay.
kill_process-IsTasks :
    (s : Scheduler) (xs : List ℕ) (pid : ℕ)
    → IsTasks s xs
    → (s' : Scheduler) × (kill_process s pid ≡ some s') × IsTasks s' xs
unfolding kill_process
kill_process-IsTasks s [] pid is =
    (s, rw (eq→== s.head 0 is.circle, get_by_pid, kill_process) refl, is)
kill_process-IsTasks s (h ∷ ts) pid is =
    let found = get_by_pid_lem s ts pid (IsTasks-IsRing s h ts is) in
    let t = first_pid s pid (s.head ∷ ts) in
    (
      if t == 0 then s else with_state s t terminated,
      rw (found, kill_process) refl,
      elim (Bool-cases (t == 0)) [
        | inl e ↦ rw e is
        | inr e ↦ rw e (state-IsTasks s (h ∷ ts) t terminated is)
      ],
    )

-- An operation that ends with a list of tasks.
abbrev pub Ends : Option Scheduler → Type 0
Ends o = (s' : Scheduler) × (o ≡ some s') × ((ys : List ℕ) × IsTasks s' ys)

-- The two operations that change the current task's state and then `yield`.
yield_with-Ends :
    (s : Scheduler) (xs : List ℕ) (st : State)
    → IsTasks s xs
    → Ends (if s.current == 0 then some s else yield (with_state s s.current st))
yield_with-Ends s xs st is = elim (Bool-cases (s.current == 0)) [
  | inl e ↦ rw e (s, refl, (xs, is))
  | inr e ↦
      let s1 = with_state s s.current st in
      let (s', run, is') = yield-IsTasks s1 xs (state-IsTasks s xs s.current st is) in
      rw e (s', run, (kept s1 xs, is'))
]

kill_current-Ends : (s : Scheduler) (xs : List ℕ) → IsTasks s xs → Ends (kill_current s)
unfolding kill_current
kill_current-Ends s xs is = yield_with-Ends s xs terminated is

sleep-Ends : (s : Scheduler) (xs : List ℕ) → IsTasks s xs → Ends (sleep s)
unfolding sleep
sleep-Ends s xs is = yield_with-Ends s xs waiting is

first_or_head-Among :
    (s : Scheduler) (h : ℕ) (l : List ℕ)
    → s.head ≡ h
    → (first_or_head s l ≡ h) ⊎ Among (first_or_head s l) l
first_or_head-Among s h [] e = inl e
first_or_head-Among s h (x ∷ xs) e = elim (Bool-cases (is_runnable (s.tasks x).state)) [
  | inl run ↦ inr (rw run (inl refl))
  | inr idle ↦
      let same : first_or_head s (x ∷ xs) ≡ first_or_head s xs = rw idle refl in
      elim (first_or_head-Among s h xs e) [
        | inl head ↦ inl (same ∙ head)
        | inr am ↦ inr (inr (subst (λ a. Among a xs) (sym same) am))
      ]
]

start_scheduler-Ends : (s : Scheduler) (xs : List ℕ) → IsTasks s xs → Ends (start_scheduler s)
unfolding start_scheduler
start_scheduler-Ends s [] is = (s, rw (eq→== s.count 0 is.counted) refl, ([], is))
start_scheduler-Ends s (h ∷ ts) is =
    let (head, _, c) = is.circle in
    let t = first_or_head s (s.head ∷ ts) in
    let am : Among t (h ∷ ts) = elim (first_or_head-Among s h (s.head ∷ ts) head) [
      | inl e ↦ inl e
      | inr am ↦ subst (λ a. Among t (a ∷ ts)) head am
    ] in
    let set : t ≢ 0 = λ e. Avoids-Among 0 t (h ∷ ts) c.not_null am (sym e) in
    let s1 = record s { scheduler_running = true } in
    (
      switch_to s1 t,
      start_scheduler_lem s ts (IsTasks-IsRing s h ts is) set,
      (
        h ∷ ts,
        switch-IsTasks s1 (h ∷ ts) t
            (record {
              circle = is.circle;
              counted = is.counted;
              small = is.small;
              current_in = is.current_in;
            })
            am,
      ),
    )

pub spawn-IsTasks :
    (s : Scheduler) (xs : List ℕ) (task stack entry name priority : ℕ)
    → IsTasks s xs
    → Avoids task xs
    → s.count + 1 < 2 ^ 32
    → (ys : List ℕ) × IsTasks (spawn_process s task stack entry name priority).1 ys
unfolding spawn_process
spawn-IsTasks s xs task stack entry name priority is av few = elim (Bool-cases (task == 0)) [
  | inl e ↦ (xs, rw e is)
  | inr e ↦ elim (Bool-cases (stack == 0)) [
    | inl e' ↦ (
      xs,
      rw (e, e')
          (record {
            circle = is.circle;
            counted = is.counted;
            small = is.small;
            current_in = is.current_in;
          }),
    )
    | inr e' ↦ (
      xs ++ (task ∷ []),
      (spawn_process-IsTasks s xs task stack entry name priority is (==→ne task 0 e)
          (==→ne stack 0 e') av few).1,
    )
  ]
]

-- The operations that only read the list end.
abbrev pub ReadsEnd : Scheduler → Type 0
ReadsEnd s =
    ((pid : ℕ) → (t : ℕ) × (get_by_pid s pid ≡ some t))
    × ((n : ℕ) × (get_active_count s ≡ some n))
    × ((lines : List ProcessLine) × (list_processes s ≡ some lines))

reads_end : (s : Scheduler) (xs : List ℕ) → IsTasks s xs → ReadsEnd s
unfolding get_by_pid get_active_count list_processes
reads_end s [] is =
    let null = eq→== s.head 0 is.circle in
    ((λ pid. (0, rw null refl)), (0, rw null refl), ([], rw null refl))
reads_end s (h ∷ ts) is =
    let ring = IsTasks-IsRing s h ts is in
    (
      (λ pid. (_, get_by_pid_lem s ts pid ring)),
      (_, get_active_count_lem s ts ring),
      (_, list_processes_lem s ts ring),
    )

-- On a well-formed list `kill_process`, for every pid, `yield`, `kill_current`, `sleep` and
-- `start_scheduler` end, and each leaves a well-formed list; `get_by_pid`, for every pid,
-- `get_active_count` and `list_processes` end.
pub operations_end :
    (s : Scheduler) (xs : List ℕ)
    → IsTasks s xs
    → ((pid : ℕ) → Ends (kill_process s pid))
      × Ends (yield s)
      × Ends (kill_current s)
      × Ends (sleep s)
      × Ends (start_scheduler s)
      × ReadsEnd s
operations_end s xs is = (
  (λ pid. let (s', e, is') = kill_process-IsTasks s xs pid is in (s', e, (xs, is'))),
  (let (s', e, is') = yield-IsTasks s xs is in (s', e, (kept s xs, is'))),
  kill_current-Ends s xs is,
  sleep-Ends s xs is,
  start_scheduler-Ends s xs is,
  reads_end s xs is,
)
