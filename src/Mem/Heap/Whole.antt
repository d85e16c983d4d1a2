-- ===== src/Mem/Heap/Whole.antt =====
-- `kmalloc` and `kfree` of src/kernel/mem/heap/heap.cc on the whole heap.
use slayer_os.Base.{ℕ, ◌+◌, ◌<◌, ◌≤◌, ◌^◌, Option, none, some, List, [], ◌∷◌, ◌++◌, sub32}
use slayer_os.Mem.Heap.{Segment, HeapPage, segment_header, place, place_in_pages}
use slayer_os.Mem.Heap.Chain.{
  Tiled, live, Inserted, here, there, PlaceResult, placed, refused, NoFit, place-PlaceResult,
}

-- The chain of a page begins behind the page's header and tiles a part of the address space.
pub record IsTiled (page : HeapPage) (hi : ℕ) : Type 0 where
  pub small : hi < 2 ^ 64
  pub chain : Tiled page.addr hi page.segments

-- Each page of the heap is tiled.
abbrev pub AllTiled : List HeapPage → Type 0
AllTiled [] = Unit
AllTiled (page ∷ pages) = ((hi : ℕ) × IsTiled page hi) × AllTiled pages

-- The blocks in use on all pages.
unfoldable pub live_pages : List HeapPage → List (ℕ × ℕ)
live_pages [] = []
live_pages (page ∷ pages) = live page.segments ++ live_pages pages

-- What `kmalloc` has done to the pages when it returns an address.
pub record Grown (size : ℕ) (pages : List HeapPage) (addr : ℕ) (pages' : List HeapPage)
    : Type 0 where
  pub taken : ℕ
  pub enough : size ≤ taken
  pub slack : taken ≤ size + segment_header
  pub one_more : Inserted (addr, taken) (live_pages pages) (live_pages pages')
  pub tiled : AllTiled pages'

Inserted-append :
    {A : Type 0} {x : A} {xs ys : List A} (zs : List A)
    → Inserted x xs ys
    → Inserted x (xs ++ zs) (ys ++ zs)
Inserted-append zs here = here
Inserted-append zs (there i) = there (Inserted-append zs i)

Inserted-behind :
    {A : Type 0} {x : A} {xs ys : List A} (zs : List A)
    → Inserted x xs ys
    → Inserted x (zs ++ xs) (zs ++ ys)
Inserted-behind [] i = i
Inserted-behind (z ∷ zs) i = there (Inserted-behind zs i)

-- No page has a free segment of `size` bytes.
abbrev pub AllNoFit : ℕ → List HeapPage → Type 0
AllNoFit size [] = Unit
AllNoFit size (page ∷ pages) = NoFit size page.segments × AllNoFit size pages

pub data PagesResult (size : ℕ) (pages : List HeapPage) : Option (ℕ × List HeapPage) → Type 0 where
  grown :
      {addr : ℕ} {pages' : List HeapPage}
      → Grown size pages addr pages'
      → PagesResult size pages (some (addr, pages'))
  full : AllNoFit size pages → PagesResult size pages none

behind :
    (size : ℕ) (page : HeapPage) (pages : List HeapPage) (r : Option (ℕ × List HeapPage))
    → (hi : ℕ) × IsTiled page hi
    → NoFit size page.segments
    → PagesResult size pages r
    → PagesResult size
        (page ∷ pages)
        (elim r [ none ↦ none | some (addr, pages') ↦ some (addr, page ∷ pages') ])
unfolding live_pages
behind size page pages r t no_fit (grown g) = grown (record {
  taken = g.taken;
  enough = g.enough;
  slack = g.slack;
  one_more = Inserted-behind (live page.segments) g.one_more;
  tiled = (t, g.tiled);
})
behind size page pages r t no_fit (full rest) = full (no_fit, rest)

in_page :
    (hi size : ℕ) (page : HeapPage) (pages : List HeapPage) (p : Option (ℕ × ℕ × List Segment))
    (r : Option (ℕ × List HeapPage))
    → IsTiled page hi
    → AllTiled pages
    → PlaceResult page.addr hi size page.segments p
    → PagesResult size pages r
    → PagesResult size (page ∷ pages) (elim p [
      | some (addr, taken, segments) ↦ some (
        addr,
        record page { segments = segments; free_size = sub32 page.free_size taken } ∷ pages,
      )
      | none ↦ elim r [ none ↦ none | some (addr, pages') ↦ some (addr, page ∷ pages') ]
    ])
unfolding live_pages
in_page hi size page pages p r t ts (placed {taken} d) rest = grown (record {
  taken = taken;
  enough = d.enough;
  slack = d.slack;
  one_more = Inserted-append (live_pages pages) d.one_more;
  tiled = ((hi, record { small = t.small; chain = d.tiled }), ts);
})
in_page hi size page pages p r t ts (refused no_fit) rest =
    behind size page pages r (hi, t) no_fit rest

pub place_in_pages-PagesResult :
    (size : ℕ) (pages : List HeapPage)
    → AllTiled pages
    → PagesResult size pages (place_in_pages size pages)
unfolding place_in_pages
place_in_pages-PagesResult size [] ts = full tt
place_in_pages-PagesResult size (page ∷ pages) ((hi, t), ts) =
    in_page hi size page pages (place size page.segments) (place_in_pages size pages) t ts
      (place-PlaceResult page.addr hi size page.segments t.small t.chain)
      (place_in_pages-PagesResult size pages ts)
