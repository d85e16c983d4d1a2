-- ===== src/Task/Turns.antt =====
-- `yield` of src/kernel/task/scheduler.cc: which task is next, and that every task gets its turn.
use mathlib.Core.Option.{some-injective}
use mathlib.Core.Path.{subst}
use slayer_os.Base.{
  ℕ, zero, suc, ◌≡◌, ◌≢◌, ◌⊎◌, ◌∙◌, refl, sym, ap, inl, inr, ◌||◌, Option, none, some, List, [],
  ◌∷◌, ◌++◌, ◌==◌, if◌then◌else◌, ne→==, Bool-cases, Option-cases, arith, length, length-append,
}
use slayer_os.Base.Distinct.{Among, Avoids, Avoids-Among}
use slayer_os.Task.{Scheduler}
use slayer_os.Task.Schedule.{is_runnable, next_runnable, pass_on, switch_to}

-- From `a` the `next` pointers lead through `xs` and then to `b`.
abbrev pub Follows : Scheduler → ℕ → List ℕ → ℕ → Type 0
Follows s a [] b = (s.tasks a).next ≡ b
Follows s a (x ∷ xs) b = ((s.tasks a).next ≡ x) × Follows s x xs b

-- The current task is `c`, and the tasks behind it on the circle are `others`.
pub record IsTurn (s : Scheduler) (c : ℕ) (others : List ℕ) : Type 0 where
  pub at : s.current ≡ c
  pub set : c ≢ 0
  pub follows : Follows s c others c
  pub counted : s.count ≡ suc (length others)
  pub apart : Avoids c others

-- The first that is ACTIVE or READY.
abbrev pub pick : Scheduler → List ℕ → Option ℕ
pick s [] = none
pick s (x ∷ xs) = if is_runnable (s.tasks x).state then some x else pick s xs

-- What the loop of `yield` finds on its way through `x ∷ xs`.
data Finds (s : Scheduler) (l : List ℕ) : Option ℕ → ℕ × ℕ → Type 0 where
  finds : {t : ℕ} (k : ℕ) → Among t l → Finds s l (some t) (t, suc k)
  misses : {t : ℕ} → Finds s l none (t, zero)

next_runnable-Finds :
    (s : Scheduler) (x : ℕ) (xs : List ℕ) (b : ℕ)
    → Follows s x xs b
    → Finds s (x ∷ xs) (pick s (x ∷ xs)) (next_runnable s (suc (length xs)) x)
unfolding next_runnable
next_runnable-Finds s x [] b f = elim (Bool-cases (is_runnable (s.tasks x).state)) [
  | inl run ↦ rw run (finds zero (inl refl))
  | inr idle ↦ rw idle misses
]
next_runnable-Finds s x (y ∷ ys) b (next, f) = elim (Bool-cases (is_runnable (s.tasks x).state)) [
  | inl run ↦ rw run (finds (suc (length ys)) (inl refl))
  | inr idle ↦ rw (idle, next) (later (next_runnable-Finds s y ys b f))
]
  where
    later : {o : Option ℕ} {r : ℕ × ℕ} → Finds s (y ∷ ys) o r → Finds s (x ∷ y ∷ ys) o r
    later (finds k am) = finds k (inr am)
    later misses = misses

Follows-snoc :
    (s : Scheduler) (x : ℕ) (xs : List ℕ) (c : ℕ)
    → Follows s x xs c
    → Follows s x (xs ++ (c ∷ [])) (s.tasks c).next
Follows-snoc s x [] c f = (f, refl)
Follows-snoc s x (y ∷ ys) c (e, f) = (e, Follows-snoc s y ys c f)

-- Where the loop of `yield` starts, and for how many rounds.
starts :
    (s : Scheduler) (c x n : ℕ) {others : List ℕ}
    → IsTurn s c others
    → (s.tasks c).next ≡ x
    → s.count ≡ suc n
    → next_runnable s s.count (s.tasks s.current).next ≡ next_runnable s (suc n) x
starts s c x n turn next counted =
    ap (λ k. next_runnable s k (s.tasks s.current).next) counted
    ∙ ap (λ a. next_runnable s (suc n) (s.tasks a).next) turn.at
    ∙ ap (λ a. next_runnable s (suc n) a) next

-- The walk from behind the current task, once around.
around :
    (s : Scheduler) (c : ℕ) (others : List ℕ)
    → IsTurn s c others
    → Finds s
        (others ++ (c ∷ []))
        (pick s (others ++ (c ∷ [])))
        (next_runnable s s.count (s.tasks s.current).next)
around s c [] turn =
    subst (λ r. Finds s (c ∷ []) (pick s (c ∷ [])) r)
      (sym (starts s c c 0 turn turn.follows turn.counted)) (next_runnable-Finds s c [] _ refl)
around s c (x ∷ xs) turn =
    let n : s.count ≡ suc (length (xs ++ (c ∷ []))) =
      omega (arith, turn.counted, length-append xs (c ∷ [])) in
    subst (λ r. Finds s (x ∷ (xs ++ (c ∷ []))) (pick s (x ∷ (xs ++ (c ∷ [])))) r)
      (sym (starts s c x (length (xs ++ (c ∷ []))) turn turn.follows.0 n))
      (next_runnable-Finds s x (xs ++ (c ∷ [])) _ (Follows-snoc s x xs c turn.follows.1))

pick-append :
    (s : Scheduler) (xs ys : List ℕ)
    → pick s (xs ++ ys) ≡ (elim (pick s xs) [ none ↦ pick s ys | some t ↦ some t ])
pick-append s [] ys = refl
pick-append s (x ∷ xs) ys = elim (Bool-cases (is_runnable (s.tasks x).state)) [
  | inl run ↦ rw run refl
  | inr idle ↦ rw idle (pick-append s xs ys)
]

pub pick-Among : (s : Scheduler) (xs : List ℕ) (t : ℕ) → pick s xs ≡ some t → Among t xs
pick-Among s [] t e = absurd (cc)
pick-Among s (x ∷ xs) t e = elim (Bool-cases (is_runnable (s.tasks x).state)) [
  | inl run ↦ inl (sym (some-injective x t (rw run at e)))
  | inr idle ↦ inr (pick-Among s xs t (rw idle at e))
]

-- The last lines of `yield`, for what its loop has found.
abbrev go_on : Scheduler → ℕ × ℕ → Scheduler
go_on s (next, left) =
    if s.current == 0 || s.count == 0 || left == 0 || next == s.current then s else switch_to s next

goes_to :
    (s : Scheduler) (c t : ℕ) (others l : List ℕ) (r : ℕ × ℕ)
    → IsTurn s c others
    → t ≢ c
    → Finds s l (some t) r
    → go_on s r ≡ switch_to s t
goes_to s c t others l r turn ne (finds k am) =
    let set : s.current ≢ 0 = λ e. turn.set (sym turn.at ∙ e) in
    rw
      (
        ne→== s.current 0 set,
        ne→== s.count 0 (λ e. omega (arith, turn.counted)),
        ne→== (suc k) 0 (λ e. omega arith),
        ne→== t s.current (λ e. ne (e ∙ turn.at)),
      )
      refl

stays_with :
    (s : Scheduler) (c : ℕ) (others l : List ℕ) (o : Option ℕ) (r : ℕ × ℕ)
    → IsTurn s c others
    → (o ≡ none) ⊎ (o ≡ some c)
    → Finds s l o r
    → go_on s r ≡ s
stays_with s c others l o r turn e misses = ground (arith)
stays_with s c others l o r turn (inr e) (finds {t} k am) =
    let same : t ≡ s.current = some-injective t c e ∙ sym turn.at in ground (arith, same)
stays_with s c others l o r turn (inl e) (finds k am) = absurd (cc)

-- What `yield` does where no task is TERMINATED and `c` is the current one: the next task on the
-- circle that is ACTIVE or READY becomes ACTIVE and is started; where there is no other, nothing
-- changes.
pub pass_on_lem :
    (s : Scheduler) (c : ℕ) (others : List ℕ)
    → IsTurn s c others
    → pass_on s ≡ (elim (pick s others) [ none ↦ s | some t ↦ switch_to s t ])
unfolding pass_on
pass_on_lem s c others turn = elim (Option-cases (pick s others)) [
  | inl no_other ↦
      let o : pick s (others ++ (c ∷ [])) ≡ pick s (c ∷ []) =
        pick-append s others (c ∷ []) ∙ rw no_other refl in
      rw no_other (
        stays_with s c others _ _ _ turn
          (elim (Bool-cases (is_runnable (s.tasks c).state)) [
            | inl run ↦ inr (o ∙ rw run refl)
            | inr idle ↦ inl (o ∙ rw idle refl)
          ])
          (around s c others turn))
  | inr (t, e) ↦
      let o : pick s (others ++ (c ∷ [])) ≡ some t = pick-append s others (c ∷ []) ∙ rw e refl in
      let ne : t ≢ c =
        λ same. Avoids-Among c t others turn.apart (pick-Among s others t e) (sym same) in
      rw e (
        goes_to s c t others _ _ turn ne (
          subst
            (λ x. Finds s (others ++ (c ∷ [])) x (next_runnable s s.count (s.tasks s.current).next))
            o (around s c others turn)))
]
