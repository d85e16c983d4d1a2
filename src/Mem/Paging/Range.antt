-- ===== src/Mem/Paging/Range.antt =====
-- `map_range` of src/kernel/mem/paging/paging.cc: it ends, and it maps the pages of the range and
-- no others.
use slayer_os.Base.{
  ℕ, zero, suc, ◌+◌, ◌*◌, ◌/◌, ◌^◌, ◌<◌, ◌≤◌, ◌≡◌, ◌≢◌, ◌∙◌, refl, sym, ap, some, arith, ne→==,
  eq→==, lt→ltb, le→ltb, bit_or, u32, u64,
}
use slayer_os.Boot.{BootCtx}
use slayer_os.Mem.Frames.{frame_size}
use slayer_os.Mem.Frames.Room.{room}
use slayer_os.Mem.Paging.{PageTables, map_page, map_pages, map_range, map_fuel, round_up}
use slayer_os.Mem.Paging.Walk.{IsPaged, Owner, leaf, page_number, lookup}
use slayer_os.Mem.Paging.Map.{Mapped, map_page-Mapped}

-- What `r` rounds of the loop from `i` on leave.
pub record Ranged (boot : BootCtx) (p : PageTables) (r i phys virt flags : ℕ) (p' : PageTables)
    (owner' : Owner) : Type 0 where
  pub root : p'.pml4 ≡ p.pml4
  pub paged : IsPaged boot p'.allocator p'.pml4 owner'
  pub left : room p.allocator ≤ 3 * r + room p'.allocator
  pub inside :
      (m w : ℕ)
      → m < r
      → page_number w ≡ page_number (u64 (virt + (i + m * frame_size)))
      → lookup boot p' w ≡ leaf (bit_or (u64 (phys + (i + m * frame_size))) flags)
  pub outside :
      (w : ℕ)
      → ((m : ℕ) → m < r → page_number w ≢ page_number (u64 (virt + (i + m * frame_size))))
      → lookup boot p' w ≡ lookup boot p w

-- Fewer than 2 ^ 36 pages on lies another page.
page_apart :
    (x i m : ℕ)
    → m < 2 ^ 36
    → 0 < m
    → page_number (u64 (x + (i + m * frame_size))) ≢ page_number (u64 (x + i))
page_apart x i m a b e = omega arith

shift : (i m : ℕ) → i + suc m * frame_size ≡ i + frame_size + m * frame_size
shift i m = omega arith

-- A round before `r` others.
Ranged-cons :
    (boot : BootCtx) (p p1 p' : PageTables) (o1 o' : Owner) (r i phys virt flags : ℕ)
    → suc r < 2 ^ 36
    → Mapped boot p (u64 (phys + i)) (u64 (virt + i)) flags p1 o1
    → Ranged boot p1 r (i + frame_size) phys virt flags p' o'
    → Ranged boot p (suc r) i phys virt flags p' o'
Ranged-cons boot p p1 p' o1 o' r i phys virt flags few mapped rest = record {
  root = rest.root ∙ mapped.root;
  paged = rest.paged;
  left = omega (arith, mapped.left, rest.left);
  inside = inside_cons;
  outside = λ w away.
      let here : page_number w ≢ page_number (u64 (virt + i)) =
        λ e. away 0 (omega arith) (e ∙ omega arith) in
      rest.outside w (λ m lt e.
        away (suc m) (omega arith) (e ∙ ap (λ x. page_number (u64 (virt + x))) (sym (shift i m))))
      ∙ mapped.looks_up w
      ∙ rw (ne→== (page_number w) (page_number (u64 (virt + i))) here);
}
  where
    inside_cons :
        (m w : ℕ)
        → m < suc r
        → page_number w ≡ page_number (u64 (virt + (i + m * frame_size)))
        → lookup boot p' w ≡ leaf (bit_or (u64 (phys + (i + m * frame_size))) flags)
    inside_cons zero w lt e =
        let same : page_number w ≡ page_number (u64 (virt + i)) = e ∙ omega arith in
        let start : i + 0 * frame_size ≡ i = omega arith in
        rest.outside w (λ m lt' e'.
          page_apart virt i (suc m) (omega arith) (omega arith)
            (ap (λ x. page_number (u64 (virt + x))) (shift i m) ∙ sym e' ∙ same))
        ∙ mapped.looks_up w
        ∙ rw (eq→== (page_number w) (page_number (u64 (virt + i))) same, start)
    inside_cons (suc m) w lt e =
        rest.inside m w (omega arith) (e ∙ ap (λ x. page_number (u64 (virt + x))) (shift i m))
        ∙ ap (λ x. leaf (bit_or (u64 (phys + x)) flags)) (sym (shift i m))

map_pages-stops :
    (boot : BootCtx) (n i phys virt size flags : ℕ) (p : PageTables)
    → size ≤ i
    → map_pages boot (suc n) i phys virt size flags p ≡ some p
unfolding map_pages
map_pages-stops boot n i phys virt size flags p h = rw (le→ltb i size h)

map_pages-goes_on :
    (boot : BootCtx) (n i phys virt size flags : ℕ) (p : PageTables)
    → i < size
    → i + frame_size < 2 ^ 64
    → map_pages boot (suc n) i phys virt size flags p
      ≡ map_pages boot n
          (i + frame_size)
          phys
          virt
          size
          flags
          (map_page boot p (u64 (phys + i)) (u64 (virt + i)) flags)
unfolding map_pages
map_pages-goes_on boot n i phys virt size flags p h fits =
    let e : u64 (i + frame_size) ≡ i + frame_size = omega arith in rw (lt→ltb i size h, e)

module _ (boot : BootCtx) (phys virt size flags : ℕ) (fits : size + frame_size ≤ 2 ^ 64) where
  map_pages-Ranged :
      (n r i : ℕ) (p : PageTables) (owner : Owner)
      → r < n
      → r < 2 ^ 36
      → size ≤ i + r * frame_size
      → i + r * frame_size < size + frame_size
      → IsPaged boot p.allocator p.pml4 owner
      → 3 * r ≤ room p.allocator
      → (p' : PageTables) × (owner' : Owner) × (map_pages boot n i phys virt size flags p ≡ some p')
        × Ranged boot p r i phys virt flags p' owner'
  map_pages-Ranged zero r i p owner fuel few enough no_more g spare = absurd (omega arith)
  map_pages-Ranged (suc n) zero i p owner fuel few enough no_more g spare = (
    p,
    owner,
    map_pages-stops boot n i phys virt size flags p (omega arith),
    record {
      root = refl;
      paged = g;
      left = omega arith;
      inside = λ m w lt e. absurd (omega arith);
      outside = λ w away. refl;
    },
  )
  map_pages-Ranged (suc n) (suc r) i p owner fuel few enough no_more g spare =
      let (o1, mapped) =
        map_page-Mapped boot p owner (u64 (phys + i)) (u64 (virt + i)) flags g (omega arith) in
      let p1 = map_page boot p (u64 (phys + i)) (u64 (virt + i)) flags in
      let (p', o', e, rest) =
        map_pages-Ranged n r (i + frame_size) p1 o1 (omega arith) (omega arith) (omega arith)
          (omega arith) mapped.paged (omega (arith, mapped.left)) in
      (
        p',
        o',
        map_pages-goes_on boot n i phys virt size flags p (omega arith) (omega arith) ∙ e,
        Ranged-cons boot p p1 p' o1 o' r i phys virt flags few mapped rest,
      )

-- On well-formed tables with frames for three tables for each page of a range that ends before
-- 2 ^ 48 bytes, `map_range` ends. It returns the number
-- of whole pages, keeps the tables well formed, translates each page of the range, the last one
-- whole, to its entry, and leaves the translation of every other page as it was.
pub map_range-Ranged :
    (boot : BootCtx) (p : PageTables) (owner : Owner) (phys virt size flags : ℕ)
    → size + frame_size ≤ 2 ^ 48
    → IsPaged boot p.allocator p.pml4 owner
    → 3 * round_up size frame_size ≤ room p.allocator
    → (p' : PageTables) × (owner' : Owner) × (map_range boot p phys virt size flags
        ≡ some (u32 (size / frame_size), p'))
      × Ranged boot p (round_up size frame_size) 0 phys virt flags p' owner'
unfolding map_range
map_range-Ranged boot p owner phys virt size flags fits g spare =
    let (p', owner', e, ranged) =
      map_pages-Ranged boot phys virt size flags (omega arith) (map_fuel size)
        (round_up size frame_size) 0 p owner (omega arith) (omega arith) (omega arith) (omega arith)
        g spare in
    (p', owner', rw (e, map_range), ranged)
