-- ===== src/Mem/Heap/Free.antt =====
-- `kfree` of src/kernel/mem/heap/heap.cc on the whole heap, and after `kmalloc`.
use mathlib.Core.Option.{some-injective}
use mathlib.Core.Path.{subst}
use slayer_os.Base.{
  ℕ, suc, ◌+◌, ◌<◌, ◌≤◌, ◌^◌, ◌≡◌, ◌⊎◌, ◌&&◌, ◌∙◌, refl, sym, true, false, Option, none, some, List,
  [], ◌∷◌, ◌++◌, arith, inl, inr, Bool-cases, ltb, leb, if◌then◌else◌, u32, u64, sub32, sub64,
  ne→==, Option-cases,
}
use slayer_os.Mem.Frames.{FrameAllocator}
use slayer_os.Mem.Heap.{
  Segment, HeapPage, Heap, segment_header, returned, place, place_in_pages, ensure_page, kmalloc,
  release, kfree, kfree_from, split_segment, try_segment_merge,
}
use slayer_os.Mem.Heap.Chain.{Tiled, Tiled-le, live, Inserted}
use slayer_os.Mem.Heap.Release.{release-Released, release-skip, release-found}
use slayer_os.Mem.Heap.Whole.{IsTiled, live_pages}
use slayer_os.Mem.Heap.Total.{IsHeap}

abbrev heap : List HeapPage → FrameAllocator → Heap
heap pages s = record { pages = pages; allocator = s }

-- A null segment finds nothing, on whatever pages.
kfree_from-null : (addr : ℕ) (pages : List HeapPage) → kfree_from addr [] pages ≡ none
unfolding kfree_from release
kfree_from-null addr [] = refl
kfree_from-null addr (page ∷ pages) = rw (kfree_from-null addr pages) refl

-- Only the first page's chain is searched.
kfree_lem :
    (page : HeapPage) (pages : List HeapPage) (s : FrameAllocator) (addr : ℕ)
    → kfree (heap (page ∷ pages) s) addr ≡ elim (release addr page.segments) [
      | none ↦ some (false, heap (page ∷ pages) s)
      | some (segments, gained) ↦ some (
        true,
        heap
            (record page { segments = segments; free_size = u32 (page.free_size + gained) } ∷ pages)
            s,
      )
    ]
unfolding kfree kfree_from
kfree_lem page pages s addr =
    let behind = kfree_from-null addr pages in
    elim (Option-cases (release addr page.segments)) [
      | inl none_here ↦ rw (kfree, none_here, behind) refl
      | inr ((segments, gained), here) ↦ rw (kfree, here) refl
    ]

-- On a tiled heap over a pool of at most 4 GiB a block in use on the first page is freed: `kfree`
-- returns true, exactly that block is no longer in use, and the heap stays tiled.
pub kfree-first :
    (page : HeapPage) (pages : List HeapPage) (s : FrameAllocator) (addr n : ℕ) (xs : List (ℕ × ℕ))
    → IsHeap (heap (page ∷ pages) s)
    → Inserted (addr, n) xs (live page.segments)
    → (h' : Heap) × (kfree (heap (page ∷ pages) s) addr ≡ some (true, h'))
      × (live_pages h'.pages ≡ xs ++ live_pages pages)
      × IsHeap h'
unfolding live_pages
kfree-first page pages s addr n xs is i =
    let ((hi, t), ts) = is.tiled in
    let (gs', gained, e, d) =
      release-Released page.addr hi page.segments addr n xs t.small t.chain i in
    (
      heap (record page { segments = gs'; free_size = u32 (page.free_size + gained) } ∷ pages) s,
      kfree_lem page pages s addr ∙ rw e refl,
      rw d.others,
      record { tiled = ((hi, record { small = t.small; chain = d.tiled }), ts); pool = is.pool },
    )

release-none :
    (lo hi : ℕ) (gs : List Segment) (addr : ℕ)
    → Tiled lo hi gs
    → (addr < lo) ⊎ (hi < addr)
    → release addr gs ≡ none
unfolding release
release-none lo hi [] addr t out = refl
release-none lo hi (g ∷ gs) addr t out =
    let top = Tiled-le (lo + segment_header + g.size) hi gs t.2 in
    rw (
      ne→== g.addr addr (λ e. omega (arith, t.1)),
      release-none (lo + segment_header + g.size) hi gs addr t.2 (out' out),
      release,
    )
  where
    out' : (addr < lo) ⊎ (hi < addr) → (addr < lo + segment_header + g.size) ⊎ (hi < addr)
    out' (inl a) = inl (omega arith)
    out' (inr b) = inr b

-- Where the first page is tiled, an address outside of it is not freed, whatever pages follow:
-- `kfree` returns false and changes nothing.
pub kfree-later :
    (page : HeapPage) (pages : List HeapPage) (s : FrameAllocator) (hi addr : ℕ)
    → IsTiled page hi
    → (addr < page.addr) ⊎ (hi < addr)
    → kfree (heap (page ∷ pages) s) addr ≡ some (false, heap (page ∷ pages) s)
kfree-later page pages s hi addr t out =
    kfree_lem page pages s addr ∙ rw (release-none page.addr hi page.segments addr t.chain out) refl

-- The segment that `kmalloc` takes.
unfoldable pub first_fit : ℕ → List Segment → Option Segment
first_fit size [] = none
first_fit size (g ∷ gs) = if g.free && leb size g.size then some g else first_fit size gs

-- The chain after a block is cut from its segment, and after it is released again.
cut_and_merge :
    (size : ℕ) (g : Segment) (gs : List Segment)
    → g.free ≡ true
    → size + segment_header < g.size
    → g.size + segment_header < 2 ^ 64
    → ((split_segment g size).0.addr ≡ g.addr)
      × ((split_segment g size).0.size ≡ size)
      × (let (used, tail) = split_segment g size in
          release used.addr (used ∷ (tail ++ gs)) ≡ some (g ∷ gs, size + segment_header))
unfolding split_segment try_segment_merge
cut_and_merge size g gs free room small =
    let cut : ltb (u64 (size + segment_header)) g.size ≡ true = ground arith in
    let whole : u64 (size + (sub64 (sub64 g.size size) segment_header + segment_header)) ≡ g.size =
      omega arith in
    let was : true ≡ g.free = sym free in
    rw cut (
      refl,
      refl,
      release-found g.addr (record g { size = size; free = false }) _ refl ∙ λ i.
          some (record g { size = whole i; free = was i } ∷ gs, size + segment_header),
    )

-- What placing `size` bytes in segment `g`, and releasing them, does to a chain.
abbrev Returns : ℕ → ℕ → List Segment → Segment → Type 0
Returns lo size gs g =
    (gs' : List Segment) × (place size gs ≡ some (g.addr, size, gs'))
    × (release g.addr gs' ≡ some (gs, size + segment_header))
    × (lo + segment_header ≤ g.addr)

Returns-head :
    (lo hi size : ℕ) (f : Segment) (gs : List Segment)
    → hi < 2 ^ 64
    → Tiled lo hi (f ∷ gs)
    → (f.free && leb size f.size) ≡ true
    → size + segment_header < f.size
    → Returns lo size (f ∷ gs) f
unfolding place
Returns-head lo hi size f gs small t fit room =
    let top = Tiled-le (lo + segment_header + f.size) hi gs t.2 in
    let free : f.free ≡ true = ground arith in
    let (at, n, back) = cut_and_merge size f gs free room (omega arith) in
    let chain : List Segment = (split_segment f size).0 ∷ ((split_segment f size).1 ++ gs) in
    (chain, rw fit (λ i. some (at i, n i, chain)), rw at at back, omega (arith, t.1))

-- The chain comes back where the segment that is taken is cut, and the page gains a header more
-- than it lost.
place-release :
    (lo hi size : ℕ) (gs : List Segment) (g : Segment)
    → hi < 2 ^ 64
    → Tiled lo hi gs
    → first_fit size gs ≡ some g
    → size + segment_header < g.size
    → Returns lo size gs g
unfolding place first_fit
place-release lo hi size [] g small t e room = absurd (cc)
place-release lo hi size (f ∷ gs) g small t e room = elim (Bool-cases (f.free && leb size f.size)) [
  | inl fit ↦
      let both : some f ≡ some g = rw fit at e in
      let same : f ≡ g = some-injective f g both in
      subst (λ x. size + segment_header < x.size → Returns lo size (f ∷ gs) x) same
        (Returns-head lo hi size f gs small t fit) room
  | inr skip ↦
      let e' : first_fit size gs ≡ some g = rw skip at e in
      let (gs', p, r, above) =
        place-release (lo + segment_header + f.size) hi size gs g small t.2 e' room in
      (
        f ∷ gs',
        rw (skip, p),
        release-skip g.addr f gs' gs _ (λ same. omega (arith, t.1)) r,
        omega arith,
      )
]

-- Where the first page is tiled and its first free segment of `size` bytes has room for a header
-- and more, `kmalloc` cuts the block from it and returns that segment's address; when `kfree`
-- releases it, the chain is the one from before, and `free_size` has grown by a header of 32 bytes.
pub kfree-kmalloc :
    (n size : ℕ) (page : HeapPage) (pages : List HeapPage) (s : FrameAllocator) (hi : ℕ)
    (g : Segment)
    → IsTiled page hi
    → first_fit size page.segments ≡ some g
    → size + segment_header < g.size
    → (h' : Heap) × (kmalloc (suc n) (heap (page ∷ pages) s) size ≡ returned g.addr h')
      × (kfree h' g.addr
          ≡ some (
            true,
            heap (record page { free_size = u32 (page.free_size + segment_header) } ∷ pages) s,
          ))
unfolding kmalloc ensure_page place_in_pages
kfree-kmalloc n size page pages s hi g t e room =
    let (gs', p, r, _) = place-release page.addr hi size page.segments g t.small t.chain e room in
    let drift : u32 (sub32 page.free_size size + (size + segment_header))
        ≡ u32 (page.free_size + segment_header) =
      omega arith in
    (
      heap (record page { segments = gs'; free_size = sub32 page.free_size size } ∷ pages) s,
      rw (p, kmalloc, place_in_pages),
      kfree_lem _ pages s g.addr ∙ rw (r, drift) refl,
    )
