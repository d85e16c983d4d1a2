-- ===== src/Task/Cleanup.antt =====
-- `cleanup_terminated` of src/kernel/task/scheduler.cc: it ends, and which tasks it leaves.
use mathlib.Core.List.{append_assoc}
use mathlib.Core.Path.{subst}
use slayer_os.Base.{
  ℕ, suc, ◌≡◌, ◌≢◌, ◌∙◌, refl, sym, ap, inl, inr, Bool, true, false, not, ◌&&◌, some, List, [], ◌∷◌,
  ◌++◌, ◌==◌, ltb, if◌then◌else◌, eq→==, ne→==, lt→ltb, le→ltb, Bool-cases, arith, length,
}
use slayer_os.Base.Distinct.{Distinct-middle}
use slayer_os.Task.{
  Scheduler, bypass, is_terminated, reap, unlink_process, cleanup_from, cleanup_terminated,
}
use slayer_os.Task.Tasks.{IsTasks}
use slayer_os.Task.Removal.{follows, unlink_sole, unlink_head, unlink_behind}

-- The tasks that are not TERMINATED.
abbrev pub survivors : Scheduler → List ℕ → List ℕ
survivors s [] = []
survivors s (t ∷ ts) =
    if is_terminated (s.tasks t).state then survivors s ts else t ∷ survivors s ts

-- What the loop leaves: where the head is TERMINATED it alone goes, and the loop ends there.
abbrev pub kept : Scheduler → List ℕ → List ℕ
kept s [] = []
kept s (h ∷ ts) = if is_terminated (s.tasks h).state then ts else h ∷ survivors s ts

-- No task changes its state or its entry point.
pub record SameTasks (s s' : Scheduler) : Type 0 where
  pub state : (x : ℕ) → (s'.tasks x).state ≡ (s.tasks x).state
  pub rip : (x : ℕ) → (s'.tasks x).ctx.rip ≡ (s.tasks x).ctx.rip
  pub started : s'.started ≡ s.started

unlink-SameTasks : (s : Scheduler) (t : ℕ) → SameTasks s (unlink_process s t)
unfolding unlink_process bypass
unlink-SameTasks s t = record {
  state = λ x. ground arith;
  rip = λ x. ground arith;
  started = ground arith;
}

survivors-same :
    (s s' : Scheduler) (ts : List ℕ) → SameTasks s s' → survivors s' ts ≡ survivors s ts
survivors-same s s' [] same = refl
survivors-same s s' (t ∷ ts) same = rw (same.state t, survivors-same s s' ts same) refl

trans_same : {s s1 s' : Scheduler} → SameTasks s s1 → SameTasks s1 s' → SameTasks s s'
trans_same a b = record {
  state = λ x. b.state x ∙ a.state x;
  rip = λ x. b.rip x ∙ a.rip x;
  started = b.started ∙ a.started;
}

-- What one round behind the head leaves in front of the tasks that follow.
record Reaped (s : Scheduler) (h : ℕ) (ys : List ℕ) (t : ℕ) (zs : List ℕ) : Type 0 where
  front : List ℕ
  tasks : IsTasks (reap s t) (h ∷ (front ++ zs))
  same : SameTasks s (reap s t)
  joins :
      (ws : List ℕ) → front ++ ws ≡ ys ++ (if is_terminated (s.tasks t).state then ws else t ∷ ws)

reap-Reaped :
    (s : Scheduler) (h : ℕ) (ys : List ℕ) (t : ℕ) (zs : List ℕ)
    → IsTasks s (h ∷ (ys ++ (t ∷ zs)))
    → Reaped s h ys t zs
reap-Reaped s h ys t zs is = elim (Bool-cases (is_terminated (s.tasks t).state)) [
  | inl gone ↦
      let gone_now = unlink_behind s h ys t zs is in
      let same = unlink-SameTasks s t in
      record {
        front = ys;
        tasks = simp gone (record {
          circle = gone_now.circle;
          counted = gone_now.counted;
          small = gone_now.small;
          current_in = gone_now.current_in;
        });
        same = simp gone (record { state = same.state; rip = same.rip; started = same.started });
        joins = λ ws. rw gone refl;
      }
  | inr stays ↦ record {
    front = ys ++ (t ∷ []);
    tasks = simp stays (rw (append_assoc ys (t ∷ []) zs) is);
    same = simp stays (record { state = λ x. refl; rip = λ x. refl; started = refl });
    joins = λ ws. rw stays (append_assoc ys (t ∷ []) ws);
  }
]

-- What a cleanup leaves: the state, with the tasks `xs`.
pub record Cleaned (s : Scheduler) (xs : List ℕ) (s' : Scheduler) : Type 0 where
  pub tasks : IsTasks s' xs
  pub same : SameTasks s s'

-- The test at the end of a round.
cleanup_round :
    (n : ℕ) (s : Scheduler) (t : ℕ)
    → cleanup_from (suc n) s t ≡ (
        let next = (s.tasks t).next in
        let s' = reap s t in
        if not (next == s'.head) && ltb 0 s'.count then cleanup_from n s' next else some s')
unfolding cleanup_from
cleanup_round n s t = refl

cleanup_behind :
    (s : Scheduler) (h : ℕ) (ys : List ℕ) (t : ℕ) (zs : List ℕ)
    → IsTasks s (h ∷ (ys ++ (t ∷ zs)))
    → (s' : Scheduler) × (cleanup_from (suc (length zs)) s t ≡ some s')
      × Cleaned s (h ∷ (ys ++ survivors s (t ∷ zs))) s'
cleanup_behind s h ys t [] is =
    let r = reap-Reaped s h ys t [] is in
    let next = follows s.tasks h ys t [] is.circle.2 in
    let at : ((s.tasks t).next == (reap s t).head) ≡ true =
      eq→== _ _ (next ∙ sym r.tasks.circle.0) in
    (
      reap s t,
      cleanup_round 0 s t ∙ rw at refl,
      record {
        tasks = subst (λ l. IsTasks (reap s t) (h ∷ l)) (r.joins []) r.tasks;
        same = r.same;
      },
    )
cleanup_behind s h ys t (z ∷ zs) is =
    let r = reap-Reaped s h ys t (z ∷ zs) is in
    let next = follows s.tasks h ys t (z ∷ zs) is.circle.2 in
    let (head, _, c) = r.tasks.circle in
    let (away, _) = Distinct-middle (h ∷ r.front) z zs c.distinct in
    let on : ((s.tasks t).next == (reap s t).head) ≡ false =
      ne→== _ _ (λ e. away.0 (sym next ∙ e ∙ head)) in
    let more : ltb 0 (reap s t).count ≡ true = lt→ltb 0 _ (omega (arith, r.tasks.counted)) in
    let (s', e, cleaned) = cleanup_behind (reap s t) h r.front z zs r.tasks in
    let list =
      ap (λ l. r.front ++ l) (survivors-same s (reap s t) (z ∷ zs) r.same)
      ∙ r.joins (survivors s (z ∷ zs)) in
    (
      s',
      cleanup_round (suc (length zs)) s t
          ∙ rw (on, more) (ap (λ n. cleanup_from (suc (length zs)) (reap s t) n) next ∙ e),
      record {
        tasks = subst (λ l. IsTasks s' (h ∷ l)) list cleaned.tasks;
        same = trans_same r.same cleaned.same;
      },
    )

freed_too :
    {s : Scheduler} (xs : List ℕ) (f : List ℕ) → IsTasks s xs → IsTasks (record s { freed = f }) xs
freed_too xs f is = record {
  circle = is.circle;
  counted = is.counted;
  small = is.small;
  current_in = is.current_in;
}

and_none : (b : Bool) → (b && false) ≡ false
and_none true = refl
and_none false = refl

-- A head that is TERMINATED: the loop ends behind it.
cleanup_head :
    (n : ℕ) (s : Scheduler) (h : ℕ) (ts : List ℕ)
    → IsTasks s (h ∷ ts)
    → is_terminated (s.tasks h).state ≡ true
    → (s' : Scheduler) × (cleanup_from (suc n) s h ≡ some s') × Cleaned s ts s'
cleanup_head n s h [] is gone =
    let s1 : Scheduler = unlink_process s h in
    let left = unlink_sole s h is in
    let same = unlink-SameTasks s h in
    let none_left : ltb 0 s1.count ≡ false = le→ltb 0 s1.count (omega (arith, left.counted)) in
    (
      record s1 { freed = s1.freed ++ ((s1.tasks h).stack ∷ h ∷ []) },
      cleanup_round n s h ∙ simp (gone, none_left, and_none),
      record {
        tasks = freed_too [] _ left;
        same = record { state = same.state; rip = same.rip; started = same.started };
      },
    )
cleanup_head n s h (z ∷ zs) is gone =
    let s1 : Scheduler = unlink_process s h in
    let left = unlink_head s h z zs is in
    let same = unlink-SameTasks s h in
    let next : (s.tasks h).next ≡ z = is.circle.2.path.0 in
    let at : ((s.tasks h).next == s1.head) ≡ true = eq→== _ _ (next ∙ sym left.circle.0) in
    (
      record s1 { freed = s1.freed ++ ((s1.tasks h).stack ∷ h ∷ []) },
      cleanup_round n s h ∙ simp (gone, at),
      record {
        tasks = freed_too (z ∷ zs) _ left;
        same = record { state = same.state; rip = same.rip; started = same.started };
      },
    )

-- A head that stays: the loop goes on around the circle.
cleanup_from_head :
    (s : Scheduler) (h : ℕ) (ts : List ℕ)
    → IsTasks s (h ∷ ts)
    → is_terminated (s.tasks h).state ≡ false
    → (s' : Scheduler) × (cleanup_from (suc (length ts)) s h ≡ some s')
      × Cleaned s (h ∷ survivors s ts) s'
cleanup_from_head s h [] is stays =
    let at : ((s.tasks h).next == s.head) ≡ true =
      eq→== _ _ (is.circle.2.closes ∙ sym is.circle.0) in
    (
      s,
      cleanup_round 0 s h ∙ simp (stays, at),
      record { tasks = is; same = record { state = λ x. refl; rip = λ x. refl; started = refl } },
    )
cleanup_from_head s h (z ∷ zs) is stays =
    let (head, _, c) = is.circle in
    let next : (s.tasks h).next ≡ z = c.path.0 in
    let on : ((s.tasks h).next == s.head) ≡ false =
      ne→== _ _ (λ e. c.distinct.0.0 (sym head ∙ sym e ∙ next)) in
    let more : ltb 0 s.count ≡ true = lt→ltb 0 _ (omega (arith, is.counted)) in
    let (s', e, cleaned) = cleanup_behind s h [] z zs is in
    (
      s',
      cleanup_round (suc (length zs)) s h
          ∙ simp (stays, on, more) (ap (λ n. cleanup_from (suc (length zs)) s n) next ∙ e),
      cleaned,
    )

-- `cleanup_terminated` ends, in as many rounds as there are tasks, and keeps the state valid and
-- the states of the tasks. Of its tasks it leaves those that are not TERMINATED, in their order; but
-- where the head is TERMINATED it takes out the head only.
pub cleanup_terminated-Cleaned :
    (s : Scheduler) (xs : List ℕ)
    → IsTasks s xs
    → (s' : Scheduler) × (cleanup_terminated s ≡ some s') × Cleaned s (kept s xs) s'
unfolding cleanup_terminated
cleanup_terminated-Cleaned s [] is = (
  s,
  rw (eq→== s.head 0 is.circle) refl,
  record { tasks = is; same = record { state = λ x. refl; rip = λ x. refl; started = refl } },
)
cleanup_terminated-Cleaned s (h ∷ ts) is =
    let (head, _, c) = is.circle in
    let set : s.head ≢ 0 = λ e. c.not_null.0 (sym e ∙ head) in
    let start : (if s.head == 0 then some s else cleanup_from s.count s s.head)
        ≡ cleanup_from (suc (length ts)) s h =
      ap (λ b. if b then some s else cleanup_from s.count s s.head) (ne→== s.head 0 set)
      ∙ ap (λ n. cleanup_from n s s.head) is.counted
      ∙ ap (λ t. cleanup_from (suc (length ts)) s t) head in
    elim (Bool-cases (is_terminated (s.tasks h).state)) [
      | inl gone ↦
          let (s', e, cleaned) = cleanup_head (length ts) s h ts is gone in
          (s', start ∙ e, rw gone cleaned)
      | inr stays ↦
          let (s', e, cleaned) = cleanup_from_head s h ts is stays in
          (s', start ∙ e, rw stays cleaned)
    ]
