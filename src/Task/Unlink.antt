-- ===== src/Task/Unlink.antt =====
-- `unlink_process` of src/kernel/task/scheduler.cc takes a task out of the circle, wherever it stands.
use mathlib.Core.List.{append-nil}
use slayer_os.Base.{ℕ, ◌≡◌, ◌≢◌, ◌∙◌, sym, List, [], ◌∷◌, ◌++◌, arith}
use slayer_os.Base.Distinct.{
  Avoids, Distinct, last, last-Among, Avoids-Among, last-append, Avoids-append, Avoids-front,
  Avoids-back, Distinct-drop, Distinct-middle, Distinct-front, Distinct-across,
}
use slayer_os.Task.{Task, bypass}
use slayer_os.Task.Trail.{
  Trail, IsCircle, Relinked, Avoids-Inner, last-Inner, Trail-same, Trail-join, Trail-split,
}

bypass-Relinked :
    (tasks : ℕ → Task) (t p n : ℕ)
    → (tasks t).prev ≡ p
    → (tasks t).next ≡ n
    → t ≢ p
    → Relinked tasks (bypass tasks t) p n
unfolding bypass
bypass-Relinked tasks t p n e e' ne = record {
  forward = ground arith;
  backward = ground arith;
  next_same = λ x other. ground arith;
  prev_same = λ x other. ground arith;
  state_same = λ x. ground arith;
}

-- Without its head, a circle begins with the next task.
pub bypass_head :
    (tasks : ℕ → Task) (h z : ℕ) (zs : List ℕ)
    → IsCircle tasks h (z ∷ zs)
    → IsCircle (bypass tasks h) z zs
bypass_head tasks h z zs c =
    let (next, prev, path) = c.path in
    let (av, d) = c.distinct in
    let r =
      bypass-Relinked tasks h (last z zs) z c.opens next
        (Avoids-Among h (last z zs) (z ∷ zs) av (last-Among z zs)) in
    record {
      path = Trail-same z zs r path (last-Inner z zs d) d.0;
      closes = r.forward;
      opens = r.backward;
      distinct = d;
      not_null = c.not_null.1;
    }

module _ (tasks : ℕ → Task) (h : ℕ) (ys : List ℕ) (t : ℕ) (zs : List ℕ)
    (c : IsCircle tasks h (ys ++ (t ∷ zs))) where
  abbrev before : ℕ
  before = last h ys

  pieces :
      Trail tasks h ys × ((tasks before).next ≡ t) × ((tasks t).prev ≡ before) × Trail tasks t zs
  pieces = Trail-split tasks h ys t zs c.path

  apart : Avoids t (h ∷ ys) × Avoids t zs
  apart = Distinct-middle (h ∷ ys) t zs c.distinct

  not_before : t ≢ before
  not_before = Avoids-Among t before (h ∷ ys) apart.0 (last-Among h ys)

  -- The chain up to the task stays, whatever task comes next.
  front_stays :
      (n : ℕ) → Relinked tasks (bypass tasks t) before n → Avoids n ys → Trail (bypass tasks t) h ys
  front_stays n r av =
      Trail-same h ys r pieces.0 (last-Inner h ys (Distinct-front (h ∷ ys) (t ∷ zs) c.distinct)) av

  dropped : Distinct (h ∷ (ys ++ zs)) × Avoids 0 (h ∷ (ys ++ zs))
  dropped = (
    Distinct-drop (h ∷ ys) t zs c.distinct,
    Avoids-append 0 (h ∷ ys) zs (Avoids-front 0 (h ∷ ys) (t ∷ zs) c.not_null)
        (Avoids-back 0 (h ∷ ys) (t ∷ zs) c.not_null).1,
  )

-- Without its last task, a circle closes one task earlier.
bypass_last :
    (tasks : ℕ → Task) (h : ℕ) (ys : List ℕ) (t : ℕ)
    → IsCircle tasks h (ys ++ (t ∷ []))
    → IsCircle (bypass tasks t) h (ys ++ [])
bypass_last tasks h ys t c =
    let (_, _, prev, _) = pieces tasks h ys t [] c in
    let closes : (tasks t).next ≡ h = rw (last-append h ys t []) at c.closes in
    let r = bypass-Relinked tasks t (last h ys) h prev closes (not_before tasks h ys t [] c) in
    let out : Avoids h ys = Avoids-front h ys (t ∷ []) c.distinct.0 in
    let (d, set) = dropped tasks h ys t [] c in
    let same = append-nil ys in
    record {
      path = rw same (front_stays tasks h ys t [] c h r out);
      closes = rw same r.forward;
      opens = rw same r.backward;
      distinct = d;
      not_null = set;
    }

-- Without a task between others, a circle goes on behind it.
bypass_middle :
    (tasks : ℕ → Task) (h : ℕ) (ys : List ℕ) (t z : ℕ) (zs : List ℕ)
    → IsCircle tasks h (ys ++ (t ∷ z ∷ zs))
    → IsCircle (bypass tasks t) h (ys ++ (z ∷ zs))
bypass_middle tasks h ys t z zs c =
    let (_, _, prev, (next, _, back)) = pieces tasks h ys t (z ∷ zs) c in
    let p : ℕ = last h ys in
    let r = bypass-Relinked tasks t p z prev next (not_before tasks h ys t (z ∷ zs) c) in
    let (d, set) = dropped tasks h ys t (z ∷ zs) c in
    let (out, av) = Distinct-middle (h ∷ ys) z zs d in
    let far : Avoids p (z ∷ zs) = Distinct-across p (h ∷ ys) (z ∷ zs) d (last-Among h ys) in
    let end = last-append h ys z zs in
    let end' = last-append h ys t (z ∷ zs) in
    let final : last z zs ≢ p =
      λ e. Avoids-Among p (last z zs) (z ∷ zs) far (last-Among z zs) (sym e) in
    record {
      path =
          Trail-join (bypass tasks t) h ys z zs (front_stays tasks h ys t (z ∷ zs) c z r out.1)
            r.forward r.backward (Trail-same z zs r back (Avoids-Inner p z zs far) av);
      closes = rw end (r.next_same (last z zs) final ∙ rw end' at c.closes);
      opens = rw end (r.prev_same h (λ e. out.0 (sym e)) ∙ rw end' at c.opens);
      distinct = d;
      not_null = set;
    }

-- Without a task behind its head, a circle has the others, in their order.
pub bypass-IsCircle :
    (tasks : ℕ → Task) (h : ℕ) (ys : List ℕ) (t : ℕ) (zs : List ℕ)
    → IsCircle tasks h (ys ++ (t ∷ zs))
    → IsCircle (bypass tasks t) h (ys ++ zs)
bypass-IsCircle tasks h ys t [] c = bypass_last tasks h ys t c
bypass-IsCircle tasks h ys t (z ∷ zs) c = bypass_middle tasks h ys t z zs c

-- The task that is taken out keeps its own pointers.
pub bypass_own :
    (tasks : ℕ → Task) (t : ℕ)
    → t ≢ (tasks t).prev
    → t ≢ (tasks t).next
    → ((bypass tasks t t).next ≡ (tasks t).next) × ((bypass tasks t t).prev ≡ (tasks t).prev)
unfolding bypass
bypass_own tasks t ne ne' = (ground arith, ground arith)
