-- ===== src/Mem/Heap/Chain.antt =====
-- The chain of segments of a page of src/kernel/mem/heap/heap.cc: the segments tile the page, also
-- after a segment is placed or released.
use slayer_os.Base.{
  ℕ, ◌+◌, ◌<◌, ◌≤◌, ◌^◌, ◌≡◌, true, ◌&&◌, Option, none, some, List, [], ◌∷◌, ◌++◌, arith, inl, inr,
  Bool-cases, ltb, leb, if◌then◌else◌, u64, sub64,
}
use slayer_os.Mem.Heap.{Segment, segment_header, split_segment, place}

-- The headers and the blocks of the segments follow one another from `lo` to `hi`.
abbrev pub Tiled : ℕ → ℕ → List Segment → Type 0
Tiled lo hi [] = lo ≡ hi
Tiled lo hi (g ∷ gs) =
    (g.at ≡ lo) × (g.addr ≡ lo + segment_header) × Tiled (lo + segment_header + g.size) hi gs

pub Tiled-le : (lo hi : ℕ) (gs : List Segment) → Tiled lo hi gs → lo ≤ hi
Tiled-le lo hi [] h = omega arith
Tiled-le lo hi (g ∷ gs) (_, _, rest) =
    omega (arith, Tiled-le (lo + segment_header + g.size) hi gs rest)

split-Tiled :
    (lo hi size : ℕ) (g : Segment) (gs : List Segment)
    → hi < 2 ^ 64
    → size ≤ g.size
    → Tiled lo hi (g ∷ gs)
    → let (used, tail) = split_segment g size in Tiled lo hi (used ∷ (tail ++ gs))
unfolding split_segment
split-Tiled lo hi size g gs small fits (at, addr, rest) =
    let top = Tiled-le (lo + segment_header + g.size) hi gs rest in
    elim (Bool-cases (ltb (u64 (size + segment_header)) g.size)) [
      | inl cut ↦
          let room : size + segment_header < g.size = ground arith in
          let same : lo
                + segment_header
                + size
                + segment_header
                + sub64 (sub64 g.size size) segment_header
              ≡ lo + segment_header + g.size =
            omega arith in
          rw cut (at, addr, (omega arith, omega arith, rw same rest))
      | inr whole ↦ rw whole (at, addr, rest)
    ]

-- A block is put into a list of blocks, anywhere.
pub data Inserted {A : Type 0} (x : A) : List A → List A → Type 0 where
  here : {xs : List A} → Inserted x xs (x ∷ xs)
  there : {y : A} {xs ys : List A} → Inserted x xs ys → Inserted x (y ∷ xs) (y ∷ ys)

-- The blocks that are in use, each with its address and size.
unfoldable pub live : List Segment → List (ℕ × ℕ)
live [] = []
live (g ∷ gs) = if g.free then live gs else (g.addr, g.size) ∷ live gs

-- What a call that places `size` bytes has done to a chain.
pub record Placed (lo hi size : ℕ) (gs : List Segment) (addr taken : ℕ) (gs' : List Segment)
    : Type 0 where
  pub tiled : Tiled lo hi gs'
  pub above : lo + segment_header ≤ addr
  pub below : addr + taken ≤ hi
  pub enough : size ≤ taken
  pub slack : taken ≤ size + segment_header
  pub one_more : Inserted (addr, taken) (live gs) (live gs')

split-Placed :
    (lo hi size : ℕ) (g : Segment) (gs : List Segment)
    → hi < 2 ^ 64
    → g.free ≡ true
    → size ≤ g.size
    → Tiled lo hi (g ∷ gs)
    → let (used, tail) = split_segment g size in
      Placed lo hi size (g ∷ gs) used.addr used.size (used ∷ (tail ++ gs))
unfolding live split_segment
split-Placed lo hi size g gs small free fits t =
    let top = Tiled-le (lo + segment_header + g.size) hi gs t.2 in
    let tiled = split-Tiled lo hi size g gs small fits t in
    elim (Bool-cases (ltb (u64 (size + segment_header)) g.size)) [
      | inl cut ↦
          let room : size + segment_header < g.size = ground arith in
          rw (cut, free)
            (record {
              tiled = rw cut at tiled;
              above = omega (arith, t.1);
              below = omega (arith, t.1);
              enough = omega arith;
              slack = omega arith;
              one_more = here;
            })
      | inr whole ↦
          let tight : g.size ≤ size + segment_header = ground arith in
          rw (whole, free)
            (record {
              tiled = rw whole at tiled;
              above = omega (arith, t.1);
              below = omega (arith, t.1);
              enough = fits;
              slack = tight;
              one_more = here;
            })
    ]

-- A chain behind one more segment.
Placed-cons :
    (lo hi size : ℕ) (g : Segment) (gs : List Segment) (addr taken : ℕ) (gs' : List Segment)
    → Tiled lo hi (g ∷ gs)
    → Placed (lo + segment_header + g.size) hi size gs addr taken gs'
    → Placed lo hi size (g ∷ gs) addr taken (g ∷ gs')
unfolding live
Placed-cons lo hi size g gs addr taken gs' (at, start, rest) d = record {
  tiled = (at, start, d.tiled);
  above = omega (arith, d.above);
  below = d.below;
  enough = d.enough;
  slack = d.slack;
  one_more = elim (Bool-cases g.free) [
    | inl free ↦ rw free d.one_more
    | inr used ↦ rw used (there d.one_more)
  ];
}

-- Every free segment is smaller than `size`.
abbrev pub NoFit : ℕ → List Segment → Type 0
NoFit size [] = Unit
NoFit size (g ∷ gs) = (g.free ≡ true → g.size < size) × NoFit size gs

pub data PlaceResult (lo hi size : ℕ) (gs : List Segment)
    : Option (ℕ × ℕ × List Segment) → Type 0 where
  placed :
      {addr taken : ℕ} {gs' : List Segment}
      → Placed lo hi size gs addr taken gs'
      → PlaceResult lo hi size gs (some (addr, taken, gs'))
  refused : NoFit size gs → PlaceResult lo hi size gs none

behind :
    (lo hi size : ℕ) (g : Segment) (gs : List Segment) (r : Option (ℕ × ℕ × List Segment))
    → Tiled lo hi (g ∷ gs)
    → (g.free ≡ true → g.size < size)
    → PlaceResult (lo + segment_header + g.size) hi size gs r
    → PlaceResult lo hi size
        (g ∷ gs)
        (elim r [ none ↦ none | some (addr, taken, gs') ↦ some (addr, taken, g ∷ gs') ])
behind lo hi size g gs r t no_fit (placed d) = placed (Placed-cons lo hi size g gs _ _ _ t d)
behind lo hi size g gs r t no_fit (refused rest) = refused (no_fit, rest)

-- What the inner loop of `kmalloc` takes from a chain that tiles its page: a block inside the page,
-- at least as large as asked for and at most a header larger, put among the blocks in use, which
-- stay; or nothing, where no free segment is large enough.
pub place-PlaceResult :
    (lo hi size : ℕ) (gs : List Segment)
    → hi < 2 ^ 64
    → Tiled lo hi gs
    → PlaceResult lo hi size gs (place size gs)
unfolding place
place-PlaceResult lo hi size [] small t = refused tt
place-PlaceResult lo hi size (g ∷ gs) small t = elim (Bool-cases (g.free && leb size g.size)) [
  | inl fit ↦ rw fit (placed (split-Placed lo hi size g gs small (ground arith) (ground arith) t))
  | inr skip ↦ rw skip (
      behind lo hi size g gs (place size gs) t (λ free. ground arith)
        (place-PlaceResult (lo + segment_header + g.size) hi size gs small t.2))
]
