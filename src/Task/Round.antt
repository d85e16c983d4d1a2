-- ===== src/Task/Round.antt =====
-- A round of `yield` of src/kernel/task/scheduler.cc, while no task waits or ends.
use mathlib.Core.List.{append-nil}
use mathlib.Core.Path.{subst}
use slayer_os.Base.{
  ℕ, suc, ◌≡◌, ◌<◌, ◌∙◌, refl, sym, ap, inl, inr, true, false, some, List, [], ◌∷◌, ◌++◌, ◌==◌,
  if◌then◌else◌, eq→==, ne→==, lt→ltb, arith, length, length-append,
}
use slayer_os.Base.Distinct.{
  Among, Avoids, last, Avoids-Among, Avoids-append, Distinct-middle, Distinct, last-append,
}
use slayer_os.Task.{Scheduler, is_terminated, cleanup_from, cleanup_terminated}
use slayer_os.Task.Schedule.{is_runnable, switch_to, yield}
use slayer_os.Task.Trail.{Trail, Trail-split}
use slayer_os.Task.Ring.{Linked, IsRing}
use slayer_os.Task.Tasks.{IsTasks}
use slayer_os.Task.Turns.{Follows, IsTurn, pass_on_lem}

Trail-Linked :
    (s : Scheduler) (a : ℕ) (xs : List ℕ)
    → Trail s.tasks a xs
    → (s.tasks (last a xs)).next ≡ s.head
    → Avoids s.head xs
    → Avoids 0 xs
    → Linked s a xs
Trail-Linked s a [] path closes av set = closes
Trail-Linked s a (x ∷ xs) (next, _, path) closes (ne, av) (ne', set) =
    (next, (λ e. ne (sym e)), (λ e. ne' (sym e)), Trail-Linked s x xs path closes av set)

-- The ring that the walks of `get_by_pid`, `get_active_count` and `start_scheduler` go around.
pub IsTasks-IsRing : (s : Scheduler) (h : ℕ) (ts : List ℕ) → IsTasks s (h ∷ ts) → IsRing s ts
IsTasks-IsRing s h ts is =
    let (head, _, c) = is.circle in
    record {
      not_null = λ e. c.not_null.0 (sym e ∙ head);
      linked =
          subst (λ a. Linked s a ts) (sym head)
            (Trail-Linked s h ts c.path (c.closes ∙ sym head) (rw head c.distinct.0) c.not_null.1);
      counted = is.counted;
      small = is.small;
    }

Trail-Follows :
    (s : Scheduler) (a : ℕ) (xs : List ℕ) (b : ℕ)
    → Trail s.tasks a xs
    → (s.tasks (last a xs)).next ≡ b
    → Follows s a xs b
Trail-Follows s a [] b path e = e
Trail-Follows s a (x ∷ xs) b (next, _, path) e = (next, Trail-Follows s x xs b path e)

Follows-join :
    (s : Scheduler) (a : ℕ) (xs : List ℕ) (y : ℕ) (ys : List ℕ) (b : ℕ)
    → Follows s a xs y
    → Follows s y ys b
    → Follows s a (xs ++ (y ∷ ys)) b
Follows-join s a [] y ys b f g = (f, g)
Follows-join s a (x ∷ xs) y ys b (e, f) g = (e, Follows-join s x xs y ys b f g)

-- The tasks behind the current one, once around the circle.
pub IsTasks-IsTurn :
    (s : Scheduler) (xs : List ℕ) (c : ℕ) (ys : List ℕ)
    → IsTasks s (xs ++ (c ∷ ys))
    → s.current ≡ c
    → IsTurn s c (ys ++ xs)
IsTasks-IsTurn s [] c ys is at =
    let (_, _, circle) = is.circle in
    rw (append-nil ys) (record {
      at = at;
      set = λ e. circle.not_null.0 (sym e);
      follows = Trail-Follows s c ys c circle.path circle.closes;
      counted = is.counted;
      apart = circle.distinct.0;
    })
IsTasks-IsTurn s (h ∷ xs) c ys is at =
    let (_, _, circle) = is.circle in
    let (front, next, _, back) = Trail-split s.tasks h xs c ys circle.path in
    let (out, behind) = Distinct-middle (h ∷ xs) c ys circle.distinct in
    record {
      at = at;
      set = λ e.
          Avoids-Among 0 c (h ∷ (xs ++ (c ∷ ys))) circle.not_null (inr (among xs c ys)) (sym e);
      follows =
          Follows-join s c ys h xs c
            (Trail-Follows s c ys h back (rw (last-append h xs c ys) at circle.closes))
            (Trail-Follows s h xs c front next);
      counted = omega (arith, is.counted, length-append xs (c ∷ ys), length-append ys (h ∷ xs));
      apart = Avoids-append c ys (h ∷ xs) behind out;
    }
  where
    among : (xs : List ℕ) (c : ℕ) (ys : List ℕ) → Among c (xs ++ (c ∷ ys))
    among [] c ys = inl refl
    among (x ∷ xs) c ys = inr (among xs c ys)

-- Every one of the tasks is ACTIVE or READY.
abbrev pub AllRunnable : Scheduler → List ℕ → Type 0
AllRunnable s [] = Unit
AllRunnable s (t ∷ ts) = (is_runnable (s.tasks t).state ≡ true) × AllRunnable s ts

runnable_lives :
    (s : Scheduler) (t : ℕ)
    → is_runnable (s.tasks t).state ≡ true
    → is_terminated (s.tasks t).state ≡ false
runnable_lives s t e = ground arith

-- Nothing is cleaned up where every task is ACTIVE or READY.
cleanup_from_none :
    (s : Scheduler) (t : ℕ) (ts : List ℕ)
    → Linked s t ts
    → AllRunnable s (t ∷ ts)
    → 0 < s.count
    → cleanup_from (suc (length ts)) s t ≡ some s
unfolding cleanup_from
cleanup_from_none s t [] e (run, _) some_left =
    simp (runnable_lives s t run, eq→== (s.tasks t).next s.head e)
cleanup_from_none s t (x ∷ ts) (next, ne, _, rest) (run, runs) some_left =
    let on : ((s.tasks t).next == s.head) ≡ false = ne→== _ _ (λ e. ne (sym next ∙ e)) in
    simp (runnable_lives s t run, on, lt→ltb 0 s.count some_left)
      (ap (λ n. cleanup_from (suc (length ts)) s n) next
        ∙ cleanup_from_none s x ts rest runs some_left)

-- A circle of which every task is ACTIVE or READY, and whose turn it is.
pub record IsRound (s : Scheduler) (ts : List ℕ) (c : ℕ) (others : List ℕ) : Type 0 where
  pub ring : IsRing s ts
  pub calm : AllRunnable s (s.head ∷ ts)
  pub turn : IsTurn s c others
  pub runs : AllRunnable s (c ∷ others)

cleanup-IsRound :
    {s : Scheduler} {ts : List ℕ} {c : ℕ} {others : List ℕ}
    → IsRound s ts c others
    → cleanup_terminated s ≡ some s
unfolding cleanup_terminated
cleanup-IsRound {s} {ts} r =
    ap (λ b. if b then some s else cleanup_from s.count s s.head) (ne→== s.head 0 r.ring.not_null)
    ∙ ap (λ n. cleanup_from n s s.head) r.ring.counted
    ∙ cleanup_from_none s s.head ts r.ring.linked r.calm (omega (arith, r.ring.counted))

pub yield-IsRound :
    {s : Scheduler} {ts : List ℕ} {c : ℕ} {t : ℕ} {others : List ℕ}
    → IsRound s ts c (t ∷ others)
    → yield s ≡ some (switch_to s t)
unfolding yield
yield-IsRound {s} {c} {t} {others} r =
    rw (cleanup-IsRound r, yield)
      (ap some (pass_on_lem s c (t ∷ others) r.turn ∙ rw r.runs.1.0 refl))

-- The pointers and the other states stay when a task is started.
switch-AllRunnable :
    (s : Scheduler) (t : ℕ) (l : List ℕ) → AllRunnable s l → AllRunnable (switch_to s t) l
unfolding switch_to
switch-AllRunnable s t [] h = tt
switch-AllRunnable s t (x ∷ xs) (run, runs) = (ground arith, switch-AllRunnable s t xs runs)

switch-Linked : (s : Scheduler) (t a : ℕ) (l : List ℕ) → Linked s a l → Linked (switch_to s t) a l
unfolding switch_to
switch-Linked s t a [] h = ground arith
switch-Linked s t a (x ∷ xs) (next, ne, ne', rest) =
    (ground arith, ne, ne', switch-Linked s t x xs rest)

switch-Follows :
    (s : Scheduler) (t a : ℕ) (l : List ℕ) (b : ℕ) → Follows s a l b → Follows (switch_to s t) a l b
unfolding switch_to
switch-Follows s t a [] b h = ground arith
switch-Follows s t a (x ∷ xs) b (next, rest) = (ground arith, switch-Follows s t x xs b rest)

pub AllRunnable-append :
    (s : Scheduler) (xs ys : List ℕ)
    → AllRunnable s xs
    → AllRunnable s ys
    → AllRunnable s (xs ++ ys)
AllRunnable-append s [] ys h k = k
AllRunnable-append s (x ∷ xs) ys (run, h) k = (run, AllRunnable-append s xs ys h k)

pub switch-IsRound :
    {s : Scheduler} {ts : List ℕ} {c t : ℕ} {others : List ℕ}
    → IsRound s ts c (t ∷ others)
    → Avoids 0 (t ∷ others)
    → Distinct (t ∷ others)
    → IsRound (switch_to s t) ts t (others ++ (c ∷ []))
unfolding switch_to
switch-IsRound {s} {ts} {c} {t} {others} r set d =
    let (run, runs) = r.runs in
    record {
      ring = record {
        not_null = r.ring.not_null;
        linked = switch-Linked s t s.head ts r.ring.linked;
        counted = r.ring.counted;
        small = r.ring.small;
      };
      calm = switch-AllRunnable s t (s.head ∷ ts) r.calm;
      turn = record {
        at = refl;
        set = λ e. set.0 (sym e);
        follows =
            switch-Follows s t t (others ++ (c ∷ [])) t
              (Follows-join s t others c [] t r.turn.follows.1 r.turn.follows.0);
        counted = omega (arith, r.turn.counted, length-append others (c ∷ []));
        apart = Avoids-append t others (c ∷ []) d.0 ((λ e. r.turn.apart.0 (sym e)), tt);
      };
      runs =
          switch-AllRunnable s t (t ∷ (others ++ (c ∷ [])))
            (runs.0, AllRunnable-append s others (c ∷ []) runs.1 (run, tt));
    }
