-- ===== src/Task/Tasks.antt =====
-- What holds of the scheduler's state of src/kernel/task/scheduler.cc between two of its operations,
-- and how `spawn_process` and `unlink_process` keep it.
use slayer_os.Base.{
  ℕ, ◌+◌, ◌^◌, ◌<◌, ◌≡◌, ◌≢◌, ◌⊎◌, ◌∙◌, refl, sym, inl, inr, List, [], ◌∷◌, ◌++◌, eq→==, ne→==,
  arith, length, length-append,
}
use slayer_os.Base.Distinct.{Among, Avoids, last, last-append}
use slayer_os.Task.{Scheduler, Task, link_process, spawn_process, prepare}
use slayer_os.Task.Trail.{Trail, IsCircle}
use slayer_os.Task.Link.{linked-IsCircle}

-- The pointers of the list lead around the tasks.
abbrev pub Circle : (ℕ → Task) → (head tail : ℕ) → List ℕ → Type 0
Circle tasks head tail [] = head ≡ 0
Circle tasks head tail (h ∷ ts) = (head ≡ h) × (tail ≡ last h ts) × IsCircle tasks h ts

-- The tasks of the scheduler are `xs`, from the head on; one of them is the current one, or none.
pub record IsTasks (s : Scheduler) (xs : List ℕ) : Type 0 where
  pub circle : Circle s.tasks s.head s.tail xs
  pub counted : s.count ≡ length xs
  pub small : s.count < 2 ^ 32
  pub current_in : (s.current ≡ 0) ⊎ Among s.current xs

-- The pointers are what matters.
Trail-ext :
    (f g : ℕ → Task) (a : ℕ) (xs : List ℕ)
    → ((x : ℕ) → ((g x).next ≡ (f x).next) × ((g x).prev ≡ (f x).prev))
    → Trail f a xs
    → Trail g a xs
Trail-ext f g a [] same path = tt
Trail-ext f g a (x ∷ xs) same (e, e', path) =
    ((same a).0 ∙ e, (same x).1 ∙ e', Trail-ext f g x xs same path)

IsCircle-ext :
    (f g : ℕ → Task) (h : ℕ) (ts : List ℕ)
    → ((x : ℕ) → ((g x).next ≡ (f x).next) × ((g x).prev ≡ (f x).prev))
    → IsCircle f h ts
    → IsCircle g h ts
IsCircle-ext f g h ts same c = record {
  path = Trail-ext f g h ts same c.path;
  closes = (same (last h ts)).0 ∙ c.closes;
  opens = (same h).1 ∙ c.opens;
  distinct = c.distinct;
  not_null = c.not_null;
}

pub Circle-ext :
    (f g : ℕ → Task) (head tail : ℕ) (xs : List ℕ)
    → ((x : ℕ) → ((g x).next ≡ (f x).next) × ((g x).prev ≡ (f x).prev))
    → Circle f head tail xs
    → Circle g head tail xs
Circle-ext f g head tail [] same c = c
Circle-ext f g head tail (h ∷ ts) same (e, e', c) = (e, e', IsCircle-ext f g h ts same c)

Among-append : (a : ℕ) (xs ys : List ℕ) → Among a xs → Among a (xs ++ ys)
Among-append a [] ys am = absurd am
Among-append a (x ∷ xs) ys (inl e) = inl e
Among-append a (x ∷ xs) ys (inr am) = inr (Among-append a xs ys am)

still_in : {a : ℕ} (xs ys : List ℕ) → (a ≡ 0) ⊎ Among a xs → (a ≡ 0) ⊎ Among a (xs ++ ys)
still_in xs ys (inl e) = inl e
still_in {a} xs ys (inr am) = inr (Among-append a xs ys am)

link-IsTasks :
    (s : Scheduler) (xs : List ℕ) (t : ℕ)
    → IsTasks s xs
    → Avoids t xs
    → t ≢ 0
    → s.count + 1 < 2 ^ 32
    → IsTasks (link_process s t) (xs ++ (t ∷ []))
unfolding link_process
link-IsTasks s [] t is av set few = rw (eq→== s.head 0 is.circle) (record {
  circle = (
    refl,
    refl,
    record {
      path = tt;
      closes = ground arith;
      opens = ground arith;
      distinct = (tt, tt);
      not_null = ((λ e. set (sym e)), tt);
    },
  );
  counted = omega (arith, is.counted);
  small = omega arith;
  current_in = still_in [] (t ∷ []) is.current_in;
})
link-IsTasks s (h ∷ ts) t is av set few =
    let (head, tail, c) = is.circle in
    let some_head : s.head ≢ 0 = λ e. c.not_null.0 (sym e ∙ head) in
    let c' = linked-IsCircle s.tasks h ts t c av set in
    rw (ne→== s.head 0 some_head) (record {
      circle = (head, sym (last-append h ts t []), rw (head, tail) c');
      counted = omega (arith, is.counted, length-append (h ∷ ts) (t ∷ []));
      small = omega arith;
      current_in = still_in (h ∷ ts) (t ∷ []) is.current_in;
    })

-- `spawn_process` with memory of its own for a task puts that task, READY and with the next pid,
-- behind the others.
pub spawn_process-IsTasks :
    (s : Scheduler) (xs : List ℕ) (task stack entry name priority : ℕ)
    → IsTasks s xs
    → task ≢ 0
    → stack ≢ 0
    → Avoids task xs
    → s.count + 1 < 2 ^ 32
    → let (t, s') = spawn_process s task stack entry name priority in
      (t ≡ task) × IsTasks s' (xs ++ (task ∷ []))
unfolding spawn_process
spawn_process-IsTasks s xs task stack entry name priority is set set' av few =
    rw (ne→== task 0 set, ne→== stack 0 set')
      (
        refl,
        link-IsTasks (prepare s task stack entry name priority) xs task
            (record {
              circle =
                  Circle-ext s.tasks (prepare s task stack entry name priority).tasks s.head s.tail
                    xs (λ x. (ground arith, ground arith)) is.circle;
              counted = is.counted;
              small = is.small;
              current_in = is.current_in;
            })
            av set few,
      )
