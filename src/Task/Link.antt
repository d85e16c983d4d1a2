-- ===== src/Task/Link.antt =====
-- `link_process` of src/kernel/task/scheduler.cc puts a task at the end of the circle.
use slayer_os.Base.{ℕ, ◌≢◌, sym, List, [], ◌∷◌, ◌++◌, arith}
use slayer_os.Base.Distinct.{
  Avoids, last, last-Among, Avoids-Among, last-append, Avoids-append, Distinct-snoc,
}
use slayer_os.Task.{Task, set_next, set_prev}
use slayer_os.Task.Trail.{IsCircle, Relinked, last-Inner, Inner-snoc, Trail-same, Trail-join}

-- The writes of `link_process` into a circle that is not empty.
abbrev pub linked : (ℕ → Task) → (head tail t : ℕ) → ℕ → Task
linked tasks head tail t =
    set_prev (set_next (set_prev (set_next tasks t head) t tail) tail t) head t

module _ (tasks : ℕ → Task) (head tail t : ℕ) (ne : t ≢ tail) (ne' : t ≢ head) where
  abbrev halfway : ℕ → Task
  halfway = set_prev (set_next tasks tail t) t tail

  halfway-Relinked : Relinked tasks halfway tail t
  halfway-Relinked = record {
    forward = ground arith;
    backward = ground arith;
    next_same = λ x other. ground arith;
    prev_same = λ x other. ground arith;
    state_same = λ x. ground arith;
  }

  linked-Relinked : Relinked halfway (linked tasks head tail t) t head
  linked-Relinked = record {
    forward = ground arith;
    backward = ground arith;
    next_same = λ x other. ground arith;
    prev_same = λ x other. ground arith;
    state_same = λ x. ground arith;
  }

-- A task that is not in the circle stands at its end afterwards.
pub linked-IsCircle :
    (tasks : ℕ → Task) (h : ℕ) (ts : List ℕ) (t : ℕ)
    → IsCircle tasks h ts
    → Avoids t (h ∷ ts)
    → t ≢ 0
    → IsCircle (linked tasks h (last h ts) t) h (ts ++ (t ∷ []))
linked-IsCircle tasks h ts t c av set =
    let ne : t ≢ last h ts = Avoids-Among t (last h ts) (h ∷ ts) av (last-Among h ts) in
    let one = halfway-Relinked tasks h (last h ts) t ne av.0 in
    let two = linked-Relinked tasks h (last h ts) t ne av.0 in
    let end = last-append h ts t [] in
    let half =
      Trail-join (halfway tasks h (last h ts) t ne av.0) h ts t []
        (Trail-same h ts one c.path (last-Inner h ts c.distinct) av.1) one.forward one.backward
        tt in
    record {
      path =
          Trail-same h (ts ++ (t ∷ [])) two half (Inner-snoc t h ts t av)
            (Avoids-append h ts (t ∷ []) c.distinct.0 ((λ e. av.0 (sym e)), tt));
      closes = rw end two.forward;
      opens = rw end two.backward;
      distinct = Distinct-snoc (h ∷ ts) t c.distinct av;
      not_null = Avoids-append 0 (h ∷ ts) (t ∷ []) c.not_null ((λ e. set (sym e)), tt);
    }
