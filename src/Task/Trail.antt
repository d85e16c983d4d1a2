-- ===== src/Task/Trail.antt =====
-- Chains of tasks of src/kernel/task/scheduler.cc, linked both ways, and what a write of one pointer
-- does to them.
use slayer_os.Base.{ℕ, ◌≡◌, ◌≢◌, ◌∙◌, sym, List, [], ◌∷◌, ◌++◌}
use slayer_os.Base.Distinct.{Avoids, Distinct, last, last-Among, Avoids-Among}
use slayer_os.Task.{Task}

-- The tasks `a ∷ xs` follow one another by `next`, and back by `prev`.
abbrev pub Trail : (ℕ → Task) → ℕ → List ℕ → Type 0
Trail tasks a [] = Unit
Trail tasks a (x ∷ xs) = ((tasks a).next ≡ x) × ((tasks x).prev ≡ a) × Trail tasks x xs

-- The chain closes to a circle of distinct tasks.
pub record IsCircle (tasks : ℕ → Task) (h : ℕ) (ts : List ℕ) : Type 0 where
  pub path : Trail tasks h ts
  pub closes : (tasks (last h ts)).next ≡ h
  pub opens : (tasks h).prev ≡ last h ts
  pub distinct : Distinct (h ∷ ts)
  pub not_null : Avoids 0 (h ∷ ts)

-- Two tables that differ in one `next` and one `prev` pointer.
pub record Relinked (before after : ℕ → Task) (p n : ℕ) : Type 0 where
  pub forward : (after p).next ≡ n
  pub backward : (after n).prev ≡ p
  pub next_same : (x : ℕ) → x ≢ p → (after x).next ≡ (before x).next
  pub prev_same : (x : ℕ) → x ≢ n → (after x).prev ≡ (before x).prev
  pub state_same : (x : ℕ) → (after x).state ≡ (before x).state

-- `p` is none of the tasks but perhaps the last.
abbrev pub Inner : ℕ → ℕ → List ℕ → Type 0
Inner p a [] = Unit
Inner p a (x ∷ xs) = (p ≢ a) × Inner p x xs

pub Avoids-Inner : (p a : ℕ) (xs : List ℕ) → Avoids p (a ∷ xs) → Inner p a xs
Avoids-Inner p a [] h = tt
Avoids-Inner p a (x ∷ xs) (ne, h) = (ne, Avoids-Inner p x xs h)

pub last-Inner : (a : ℕ) (xs : List ℕ) → Distinct (a ∷ xs) → Inner (last a xs) a xs
last-Inner a [] d = tt
last-Inner a (x ∷ xs) (av, d) =
    ((λ e. Avoids-Among a (last x xs) (x ∷ xs) av (last-Among x xs) (sym e)), last-Inner x xs d)

-- A chain that does not leave `p` and does not enter `n` is still one.
pub Trail-same :
    {before after : ℕ → Task} {p n : ℕ} (a : ℕ) (xs : List ℕ)
    → Relinked before after p n
    → Trail before a xs
    → Inner p a xs
    → Avoids n xs
    → Trail after a xs
Trail-same a [] r path inner av = tt
Trail-same a (x ∷ xs) r (next, prev, path) (ne, inner) (ne', av) = (
  r.next_same a (λ e. ne (sym e)) ∙ next,
  r.prev_same x (λ e. ne' (sym e)) ∙ prev,
  Trail-same x xs r path inner av,
)

pub Inner-snoc : (p a : ℕ) (xs : List ℕ) (y : ℕ) → Avoids p (a ∷ xs) → Inner p a (xs ++ (y ∷ []))
Inner-snoc p a [] y (ne, _) = (ne, tt)
Inner-snoc p a (x ∷ xs) y (ne, h) = (ne, Inner-snoc p x xs y h)

pub Trail-join :
    (tasks : ℕ → Task) (a : ℕ) (xs : List ℕ) (y : ℕ) (ys : List ℕ)
    → Trail tasks a xs
    → (tasks (last a xs)).next ≡ y
    → (tasks y).prev ≡ last a xs
    → Trail tasks y ys
    → Trail tasks a (xs ++ (y ∷ ys))
Trail-join tasks a [] y ys path next prev rest = (next, prev, rest)
Trail-join tasks a (x ∷ xs) y ys (e, e', path) next prev rest =
    (e, e', Trail-join tasks x xs y ys path next prev rest)

pub Trail-split :
    (tasks : ℕ → Task) (a : ℕ) (xs : List ℕ) (y : ℕ) (ys : List ℕ)
    → Trail tasks a (xs ++ (y ∷ ys))
    → Trail tasks a xs
      × ((tasks (last a xs)).next ≡ y)
      × ((tasks y).prev ≡ last a xs)
      × Trail tasks y ys
Trail-split tasks a [] y ys (next, prev, rest) = (tt, next, prev, rest)
Trail-split tasks a (x ∷ xs) y ys (e, e', path) =
    let (front, next, prev, rest) = Trail-split tasks x xs y ys path in
    ((e, e', front), next, prev, rest)
