-- ===== src/Base/Cells.antt =====
-- Arrays as functions of their index: the list of some cells, and copies.
use Prim.Native.Char.{code}
use Prim.Native.String.{String}
use mathlib.Core.Path.{subst}
use slayer_os.Base.{
  ℕ, zero, suc, ◌+◌, ◌-◌, ◌≡◌, ◌≤◌, ◌∙◌, refl, ap, List, [], ◌∷◌, ◌++◌, ◌&&◌, ltb, leb,
  if◌then◌else◌, update, eq→==, ne→==, arith, length,
}

-- The codes of a text.
abbrev pub codes : String → List ℕ
codes String.[] = []
codes (String.◌∷◌ c s) = code c ∷ codes s

-- `n` cells of an array, from `i` on.
abbrev pub cells : {A : Type 0} → (ℕ → A) → ℕ → ℕ → List A
cells f i zero = []
cells f i (suc n) = f i ∷ cells f (i + 1) n

-- `memcpy(dst + at, src + from, n)`
abbrev pub copy : (dst : ℕ → ℕ) → (at : ℕ) → (src : ℕ → ℕ) → (from n : ℕ) → ℕ → ℕ
copy dst at src from n k = if leb at k && ltb k (at + n) then src (from + (k - at)) else dst k

module _ {A : Type 0} where
  pub cells_beyond :
      (f : ℕ → A) (k : ℕ) (v : A) (i n : ℕ) → i + n ≤ k → cells (update f k v) i n ≡ cells f i n
  cells_beyond f k v i zero h = refl
  cells_beyond f k v i (suc n) h =
      rw (ne→== i k (λ e. omega arith))
        (ap (λ l. f i ∷ l) (cells_beyond f k v (i + 1) n (omega arith)))

  pub cells-update :
      (f : ℕ → A) (v : A) (i n : ℕ) → cells (update f (i + n) v) i (suc n) ≡ cells f i n ++ (v ∷ [])
  cells-update f v i zero = rw (eq→== i (i + 0) (omega arith)) refl
  cells-update f v i (suc n) =
      let on : cells (update f (i + suc n) v) (i + 1) (suc n) ≡ cells f (i + 1) n ++ (v ∷ []) =
        ap (λ k. cells (update f k v) (i + 1) (suc n)) (omega arith) ∙ cells-update f v (i + 1) n in
      rw (ne→== i (i + suc n) (λ e. omega arith)) (ap (λ l. f i ∷ l) on)

  -- The cell behind the first `n` of an array.
  pub cells-snoc :
      (f : ℕ → A) (v : A) (n : ℕ) → cells (update f n v) 0 (suc n) ≡ cells f 0 n ++ (v ∷ [])
  cells-snoc f v n =
      let at : n ≡ 0 + n = omega arith in
      ap (λ k. cells (update f k v) 0 (suc n)) at ∙ cells-update f v 0 n

-- An array holds a list from an index on.
abbrev pub Reads : (ℕ → ℕ) → ℕ → List ℕ → Type 0
Reads f i [] = Unit
Reads f i (c ∷ cs) = (f i ≡ c) × Reads f (i + 1) cs

pub Reads-parts :
    (f : ℕ → ℕ) (i : ℕ) (xs ys : List ℕ)
    → Reads f i (xs ++ ys)
    → Reads f i xs × Reads f (i + length xs) ys
Reads-parts f i [] ys r = (tt, subst (λ k. Reads f k ys) (omega arith) r)
Reads-parts f i (x ∷ xs) ys (e, r) =
    let (front, back) = Reads-parts f (i + 1) xs ys r in
    ((e, front), subst (λ k. Reads f k ys) (omega arith) back)

cells-copy_rest :
    (dst src : ℕ → ℕ) (from n k : ℕ) (xs : List ℕ)
    → k + length xs ≤ n
    → Reads src (from + k) xs
    → cells (copy dst 0 src from n) k (length xs) ≡ xs
cells-copy_rest dst src from n k [] h r = refl
cells-copy_rest dst src from n k (x ∷ xs) h (e, r) =
    let rest =
      cells-copy_rest dst src from n (k + 1) xs (omega arith)
        (subst (λ p. Reads src p xs) (omega arith) r) in
    let first : copy dst 0 src from n k ≡ src (from + k) = ground arith in
    rw (first, e) (ap (λ l. x ∷ l) rest)

-- A copy to the front of an array holds what the source holds.
pub cells-copy :
    (dst src : ℕ → ℕ) (from : ℕ) (xs : List ℕ)
    → Reads src from xs
    → cells (copy dst 0 src from (length xs)) 0 (length xs) ≡ xs
cells-copy dst src from xs r =
    cells-copy_rest dst src from (length xs) 0 xs (omega arith)
      (subst (λ p. Reads src p xs) (omega arith) r)
