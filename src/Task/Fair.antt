-- ===== src/Task/Fair.antt =====
-- `yield` of src/kernel/task/scheduler.cc gives every task its turn, while no task waits or ends.
use mathlib.Core.List.{append_assoc}
use mathlib.Core.Path.{subst}
use slayer_os.Base.{
  ℕ, zero, suc, ◌≡◌, ◌∙◌, refl, ap, Option, none, some, List, [], ◌∷◌, ◌++◌, arith, length,
}
use slayer_os.Base.Distinct.{
  Avoids, Avoids-append, Distinct, Distinct-snoc, Distinct-rotate, Avoids-front, Avoids-back,
}
use slayer_os.Task.{Scheduler}
use slayer_os.Task.Schedule.{switch_to, yield}
use slayer_os.Task.Tasks.{IsTasks}
use slayer_os.Task.Turns.{IsTurn}
use slayer_os.Task.Round.{
  IsTasks-IsRing, IsTasks-IsTurn, AllRunnable, AllRunnable-append, IsRound, yield-IsRound,
  switch-IsRound,
}

-- `n` calls of `yield`, one behind the other.
abbrev pub yields : ℕ → Scheduler → Option Scheduler
yields zero s = some s
yields (suc n) s = elim (yield s) [ none ↦ none | some s' ↦ yields n s' ]

abbrev pub entry_points : Scheduler → List ℕ → List ℕ
entry_points s [] = []
entry_points s (t ∷ ts) = (s.tasks t).ctx.rip ∷ entry_points s ts

entry_points-switch :
    (s : Scheduler) (t : ℕ) (l : List ℕ) → entry_points (switch_to s t) l ≡ entry_points s l
unfolding switch_to
entry_points-switch s t [] = refl
entry_points-switch s t (x ∷ xs) = rw (entry_points-switch s t xs) (ground arith)

yields_step : (n : ℕ) (s s' : Scheduler) → yield s ≡ some s' → yields (suc n) s ≡ yields n s'
yields_step n s s' e = rw (e, yields) refl

turns :
    (ys : List ℕ) (s : Scheduler) (ts : List ℕ) (c t : ℕ) (zs : List ℕ)
    → IsRound s ts c (ys ++ (t ∷ zs))
    → Distinct (c ∷ (ys ++ (t ∷ zs)))
    → Avoids 0 (c ∷ (ys ++ (t ∷ zs)))
    → (s' : Scheduler) × (yields (suc (length ys)) s ≡ some s')
      × (s'.current ≡ t)
      × (s'.started ≡ s.started ++ entry_points s (ys ++ (t ∷ [])))
unfolding switch_to
turns [] s ts c t zs r d set =
    (switch_to s t, yields_step zero s (switch_to s t) (yield-IsRound r), refl, refl)
turns (y ∷ ys) s ts c t zs r d set =
    let round =
      subst (λ l. IsRound (switch_to s y) ts y l) (append_assoc ys (t ∷ zs) (c ∷ []))
        (switch-IsRound r set.1 d.1) in
    let d' =
      subst (λ l. Distinct (y ∷ l)) (append_assoc ys (t ∷ zs) (c ∷ []))
        (Distinct-snoc (y ∷ (ys ++ (t ∷ zs))) c d.1 d.0) in
    let set' =
      subst (λ l. Avoids 0 (y ∷ l)) (append_assoc ys (t ∷ zs) (c ∷ []))
        (Avoids-append 0 (y ∷ (ys ++ (t ∷ zs))) (c ∷ []) set.1 (set.0, tt)) in
    let (s', run, at, started) = turns ys (switch_to s y) ts y t (zs ++ (c ∷ [])) round d' set' in
    (
      s',
      yields_step (suc (length ys)) s (switch_to s y) (yield-IsRound r) ∙ run,
      at,
      started
          ∙ (ap (λ l. (switch_to s y).started ++ l) (entry_points-switch s y (ys ++ (t ∷ [])))
              ∙ append_assoc s.started ((s.tasks y).ctx.rip ∷ [])
                  (entry_points s (ys ++ (t ∷ [])))),
    )

AllRunnable-parts :
    (s : Scheduler) (xs ys : List ℕ)
    → AllRunnable s (xs ++ ys)
    → AllRunnable s xs × AllRunnable s ys
AllRunnable-parts s [] ys h = (tt, h)
AllRunnable-parts s (x ∷ xs) ys (run, h) =
    let (front, back) = AllRunnable-parts s xs ys h in ((run, front), back)

IsTasks-IsRound :
    (s : Scheduler) (xs : List ℕ) (c : ℕ) (ys : List ℕ)
    → IsTasks s (xs ++ (c ∷ ys))
    → s.current ≡ c
    → AllRunnable s (xs ++ (c ∷ ys))
    → (ts : List ℕ) × IsRound s ts c (ys ++ xs)
IsTasks-IsRound s xs c ys is at run =
    let turn = IsTasks-IsTurn s xs c ys is at in
    let (front, (runs, back)) = AllRunnable-parts s xs (c ∷ ys) run in
    around xs is run turn (runs, AllRunnable-append s ys xs back front)
  where
    around :
        (xs : List ℕ)
        → IsTasks s (xs ++ (c ∷ ys))
        → AllRunnable s (xs ++ (c ∷ ys))
        → {others : List ℕ} → IsTurn s c others
        → AllRunnable s (c ∷ others)
        → (ts : List ℕ) × IsRound s ts c others
    around [] is run turn runs = (
      ys,
      record {
        ring = IsTasks-IsRing s c ys is;
        calm = rw is.circle.0 run;
        turn = turn;
        runs = runs;
      },
    )
    around (h ∷ xs) is run turn runs = (
      xs ++ (c ∷ ys),
      record {
        ring = IsTasks-IsRing s h (xs ++ (c ∷ ys)) is;
        calm = rw is.circle.0 run;
        turn = turn;
        runs = runs;
      },
    )

not_null :
    (s : Scheduler) (xs : List ℕ) (c : ℕ) (ys : List ℕ)
    → IsTasks s (xs ++ (c ∷ ys))
    → Avoids 0 (xs ++ (c ∷ ys)) × Distinct (xs ++ (c ∷ ys))
not_null s [] c ys is = let (_, _, circle) = is.circle in (circle.not_null, circle.distinct)
not_null s (h ∷ xs) c ys is = let (_, _, circle) = is.circle in (circle.not_null, circle.distinct)

-- While every task is ACTIVE or READY, a task that lies some places behind the current one, around
-- the list, is the current one after as many calls of `yield`, each of which ends; and the entry
-- points that are called on the way are those of the tasks up to it, in the order of the list.
pub yields_lem :
    (s : Scheduler) (xs : List ℕ) (c : ℕ) (ys before : List ℕ) (t : ℕ) (after : List ℕ)
    → IsTasks s (xs ++ (c ∷ ys))
    → s.current ≡ c
    → AllRunnable s (xs ++ (c ∷ ys))
    → ys ++ xs ≡ before ++ (t ∷ after)
    → (s' : Scheduler) × (yields (suc (length before)) s ≡ some s')
      × (s'.current ≡ t)
      × (s'.started ≡ s.started ++ entry_points s (before ++ (t ∷ [])))
yields_lem s xs c ys before t after is at run e =
    let (set, apart) = not_null s xs c ys is in
    let (ts, round) = IsTasks-IsRound s xs c ys is at run in
    let some_set =
      Avoids-append 0 (c ∷ ys) xs (Avoids-back 0 xs (c ∷ ys) set)
        (Avoids-front 0 xs (c ∷ ys) set) in
    turns before s ts c t after (subst (λ l. IsRound s ts c l) e round)
      (subst (λ l. Distinct (c ∷ l)) e (Distinct-rotate xs (c ∷ ys) apart))
      (subst (λ l. Avoids 0 (c ∷ l)) e some_set)
