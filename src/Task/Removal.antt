-- ===== src/Task/Removal.antt =====
-- `unlink_process` of src/kernel/task/scheduler.cc on the whole state: the task is gone, and the others
-- stay, in their order.
use mathlib.Core.List.{append-nil}
use slayer_os.Base.{
  ℕ, suc, ◌+◌, ◌≡◌, ◌≢◌, ◌⊎◌, ◌∙◌, refl, sym, inl, inr, List, [], ◌∷◌, ◌++◌, ◌==◌, if◌then◌else◌,
  eq→==, ne→==, ==→ne, Bool-cases, arith, length, length-append,
}
use slayer_os.Base.Distinct.{
  Among, Avoids, last, last-Among, Avoids-Among, last-append, Distinct-middle,
}
use slayer_os.Task.{Scheduler, Task, unlink_process}
use slayer_os.Task.Trail.{IsCircle, Trail-split}
use slayer_os.Task.Unlink.{bypass_head, bypass-IsCircle, bypass_own}
use slayer_os.Task.Tasks.{IsTasks}

pub unlink_sole : (s : Scheduler) (t : ℕ) → IsTasks s (t ∷ []) → IsTasks (unlink_process s t) []
unfolding unlink_process
unlink_sole s t is = rw (eq→== s.count 1 is.counted) (record {
  circle = refl;
  counted = omega (arith, is.counted);
  small = omega arith;
  current_in = inl refl;
})

Among-drop :
    (a : ℕ) (xs : List ℕ) (t : ℕ) (ys : List ℕ)
    → Among a (xs ++ (t ∷ ys))
    → a ≢ t
    → Among a (xs ++ ys)
Among-drop a [] t ys (inl e) ne = absurd (ne e)
Among-drop a [] t ys (inr am) ne = am
Among-drop a (x ∷ xs) t ys (inl e) ne = inl e
Among-drop a (x ∷ xs) t ys (inr am) ne = inr (Among-drop a xs t ys am ne)

Among-back : (a : ℕ) (xs ys : List ℕ) → Among a ys → Among a (xs ++ ys)
Among-back a [] ys am = am
Among-back a (x ∷ xs) ys am = inr (Among-back a xs ys am)

-- The first of a list, or what follows it.
abbrev pub first_of : List ℕ → ℕ → ℕ
first_of [] h = h
first_of (z ∷ zs) h = z

-- The current task after a removal: the one behind the task that is gone, or the one from before.
moved_on :
    (current t n : ℕ) (xs ys : List ℕ)
    → (current ≡ 0) ⊎ Among current (xs ++ (t ∷ ys))
    → Among n (xs ++ ys)
    → let now = if current == t then n else current in (now ≡ 0) ⊎ Among now (xs ++ ys)
moved_on current t n xs ys was next = elim (Bool-cases (current == t)) [
  | inl same ↦ rw same (inr next)
  | inr other ↦ rw other (stays (==→ne current t other) was)
]
  where
    stays :
        current ≢ t
        → (current ≡ 0) ⊎ Among current (xs ++ (t ∷ ys))
        → (current ≡ 0) ⊎ Among current (xs ++ ys)
    stays ne (inl e) = inl e
    stays ne (inr am) = inr (Among-drop current xs t ys am ne)

pub unlink_head :
    (s : Scheduler) (h z : ℕ) (zs : List ℕ)
    → IsTasks s (h ∷ z ∷ zs)
    → IsTasks (unlink_process s h) (z ∷ zs)
unfolding unlink_process
unlink_head s h z zs is =
    let (head, tail, c) = is.circle in
    let (next, _, _) = c.path in
    let (av, _) = c.distinct in
    let away : h ≢ last z zs = Avoids-Among h (last z zs) (z ∷ zs) av (last-Among z zs) in
    let own = bypass_own s.tasks h (λ e. away (e ∙ c.opens)) (λ e. av.0 (e ∙ next)) in
    let several : s.count ≢ 1 = λ e. omega (arith, is.counted) in
    rw
      (
        ne→== s.count 1 several,
        eq→== s.head h head,
        ne→== s.tail h (λ e. away (sym e ∙ tail)),
        own.0 ∙ next,
      )
      (record {
        circle = (refl, tail, bypass_head s.tasks h z zs c);
        counted = omega (arith, is.counted, is.small);
        small = omega arith;
        current_in = moved_on s.current h z [] (z ∷ zs) is.current_in (inl refl);
      })

-- The task behind the one that goes is among those that stay.
next-Among : (h : ℕ) (ys zs : List ℕ) (n : ℕ) → n ≡ first_of zs h → Among n (h ∷ (ys ++ zs))
next-Among h ys [] n e = inl e
next-Among h ys (z ∷ zs) n e = inr (Among-back n ys (z ∷ zs) (inl e))

-- Where the list of a circle ends after a removal behind its head.
tail_after :
    (h : ℕ) (ys : List ℕ) (t : ℕ) (zs : List ℕ) (tail : ℕ)
    → Avoids t zs
    → tail ≡ last h (ys ++ (t ∷ zs))
    → (if tail == t then last h ys else tail) ≡ last h (ys ++ zs)
tail_after h ys t [] tail av e = rw (eq→== tail t (e ∙ last-append h ys t []), append-nil ys) refl
tail_after h ys t (z ∷ zs) tail av e =
    let end : tail ≡ last z zs = e ∙ last-append h ys t (z ∷ zs) in
    let other : tail ≢ t =
      λ same. Avoids-Among t (last z zs) (z ∷ zs) av (last-Among z zs) (sym same ∙ end) in
    rw (ne→== tail t other) (end ∙ sym (last-append h ys z zs))

-- The task that stands behind `t`.
pub follows :
    (tasks : ℕ → Task) (h : ℕ) (ys : List ℕ) (t : ℕ) (zs : List ℕ)
    → IsCircle tasks h (ys ++ (t ∷ zs))
    → (tasks t).next ≡ first_of zs h
follows tasks h ys t [] c = rw (last-append h ys t []) at c.closes
follows tasks h ys t (z ∷ zs) c = (Trail-split tasks h ys t (z ∷ zs) c.path).3.0

next_apart : (h t : ℕ) (zs : List ℕ) → t ≢ h → Avoids t zs → t ≢ first_of zs h
next_apart h t [] ne av = ne
next_apart h t (z ∷ zs) ne av = av.0

pub unlink_behind :
    (s : Scheduler) (h : ℕ) (ys : List ℕ) (t : ℕ) (zs : List ℕ)
    → IsTasks s (h ∷ (ys ++ (t ∷ zs)))
    → IsTasks (unlink_process s t) (h ∷ (ys ++ zs))
unfolding unlink_process
unlink_behind s h ys t zs is =
    let (head, tail, c) = is.circle in
    let (out, av) = Distinct-middle (h ∷ ys) t zs c.distinct in
    let (_, _, prev, _) = Trail-split s.tasks h ys t zs c.path in
    let next = follows s.tasks h ys t zs c in
    let away : t ≢ last h ys = Avoids-Among t (last h ys) (h ∷ ys) out (last-Among h ys) in
    let own =
      bypass_own s.tasks t (λ e. away (e ∙ prev)) (λ e. next_apart h t zs out.0 av (e ∙ next)) in
    let n : ℕ = length ys in
    let several : s.count ≡ suc (suc (n + length zs)) =
      omega (arith, is.counted, length-append ys (t ∷ zs)) in
    rw
      (
        ne→== s.count 1 (λ e. omega (arith, several)),
        ne→== s.head t (λ e. out.0 (sym e ∙ head)),
        own.1 ∙ prev,
        own.0 ∙ next,
      )
      (record {
        circle = (head, tail_after h ys t zs s.tail av tail, bypass-IsCircle s.tasks h ys t zs c);
        counted = omega (arith, several, is.small, length-append ys zs);
        small = omega arith;
        current_in =
            moved_on s.current t (first_of zs h) (h ∷ ys) zs is.current_in
              (next-Among h ys zs (first_of zs h) refl);
      })
