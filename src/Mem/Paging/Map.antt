-- ===== src/Mem/Paging/Map.antt =====
-- `map` of src/kernel/mem/paging/paging.cc against the walk of the processor.
use slayer_os.Base.{
  ℕ, ◌+◌, ◌*◌, ◌≤◌, ◌≡◌, ◌≢◌, ◌∙◌, refl, ap, some, arith, ◌==◌, ==→eq, ==→ne, inl, inr, Bool-cases,
  bit_or, if◌then◌else◌,
}
use slayer_os.Boot.{BootCtx}
use slayer_os.Mem.Frames.{FrameAllocator}
use slayer_os.Mem.Frames.Room.{room}
use slayer_os.Mem.Paging.{PageTables, slot, table_index, descend, enter, write_word, map_page}
use slayer_os.Mem.Paging.Words.{table_index_lem}
use slayer_os.Mem.Paging.Walk.{
  IsPaged, Owned, Owner, walk, leaf, digit, prefix, page_number, lookup,
}
use slayer_os.Mem.Paging.Steps.{Entered, digit-lt, walk-some}
use slayer_os.Mem.Paging.Enter.{enter_lem}
use slayer_os.Mem.Paging.Store.{descend-stored, Owned-stored, walk-stored_ne, walk-stored_self}

-- The indices that the code takes from an address are the digits of its page number.
pub table_index-digit :
    (virt : ℕ)
    → (table_index virt 39 ≡ digit 3 (page_number virt))
      × (table_index virt 30 ≡ digit 2 (page_number virt))
      × (table_index virt 21 ≡ digit 1 (page_number virt))
      × (table_index virt 12 ≡ digit 0 (page_number virt))
table_index-digit virt = (
  table_index_lem virt 39 ∙ omega arith,
  table_index_lem virt 30 ∙ omega arith,
  table_index_lem virt 21 ∙ omega arith,
  table_index_lem virt 12 ∙ omega arith,
)

pub prefix-page_number : (virt : ℕ) → 0 ≡ prefix 3 (page_number virt)
prefix-page_number virt = omega arith

-- What `map` leaves: the tree of tables, with at most three frames taken, and the walks.
pub record Mapped (boot : BootCtx) (p : PageTables) (phys virt flags : ℕ) (p' : PageTables)
    (owner' : Owner) : Type 0 where
  pub root : p'.pml4 ≡ p.pml4
  pub paged : IsPaged boot p'.allocator p'.pml4 owner'
  pub left : room p.allocator ≤ 3 + room p'.allocator
  pub looks_up :
      (w : ℕ)
      → lookup boot p' w
        ≡ (if page_number w == page_number virt then leaf (bit_or phys flags) else lookup boot p w)

module _ (boot : BootCtx) (p : PageTables) (owner : Owner) (phys virt flags : ℕ)
    (g : IsPaged boot p.allocator p.pml4 owner) (spare : 3 ≤ room p.allocator) where
  abbrev v : ℕ
  v = page_number virt

  abbrev r3 : ℕ × FrameAllocator
  r3 = enter boot p.allocator (slot p.pml4 (digit 3 v))

  abbrev r2 : ℕ × FrameAllocator
  r2 = enter boot r3.1 (slot r3.0 (digit 2 v))

  abbrev r1 : ℕ × FrameAllocator
  r1 = enter boot r2.1 (slot r2.0 (digit 1 v))

  e3 : (owner' : Owner) × Entered boot p.allocator owner p.pml4 (digit 3 v) 2 0 r3.0 r3.1 owner'
  e3 = enter_lem g.valid g.pool g.owned g.root_owner (digit-lt 3 v) (omega arith)

  e2 :
      (owner' : Owner) × Entered boot r3.1 e3.0 r3.0
        (digit 2 v)
        1
        (0 * 512 + digit 3 v)
        r2.0
        r2.1
        owner'
  e2 =
      enter_lem e3.1.valid e3.1.pool e3.1.owned e3.1.owner_c (digit-lt 2 v)
        (omega (arith, e3.1.left))

  e1 :
      (owner' : Owner) × Entered boot r2.1 e2.0 r2.0
        (digit 1 v)
        0
        ((0 * 512 + digit 3 v) * 512 + digit 2 v)
        r1.0
        r1.1
        owner'
  e1 =
      enter_lem e2.1.valid e2.1.pool e2.1.owned e2.1.owner_c (digit-lt 1 v)
        (omega (arith, e3.1.left, e2.1.left))

  abbrev last : FrameAllocator
  last = write_word r1.1 (slot r1.0 (digit 0 v)) (bit_or phys flags)

  map_page-allocator : (map_page boot p phys virt flags).allocator ≡ last
  unfolding map_page
  map_page-allocator = let (e39, e30, e21, e12) = table_index-digit virt in rw (e39, e30, e21, e12)

  map_page-pml4 : (map_page boot p phys virt flags).pml4 ≡ p.pml4
  unfolding map_page
  map_page-pml4 = refl

  o1 : Owned boot r1.1 e1.0
  o1 = e1.1.owned

  own : e1.0 r1.0 ≡ some (0, ((0 * 512 + digit 3 v) * 512 + digit 2 v) * 512 + digit 1 v)
  own = e1.1.owner_c

  -- The entries on the way lead to the tables, also after the last write.
  down3 : descend boot last.memory (slot p.pml4 (digit 3 v)) ≡ some r3.0
  down3 =
      let own2 = e3.1.stays _ _ _ g.root_owner in
      let own1 = e2.1.stays _ _ _ own2 in
      descend-stored (bit_or phys flags) o1 own (digit-lt 0 v) p.pml4 2 0 (digit 3 v)
        (e1.1.stays _ _ _ own1) (digit-lt 3 v)
      ∙ e1.1.keeps _ _ _ (digit 3 v) _ own1 (digit-lt 3 v)
          (e2.1.keeps _ _ _ (digit 3 v) _ own2 (digit-lt 3 v) e3.1.reached)

  down2 : descend boot last.memory (slot r3.0 (digit 2 v)) ≡ some r2.0
  down2 =
      let own1 = e2.1.stays _ _ _ e3.1.owner_c in
      descend-stored (bit_or phys flags) o1 own (digit-lt 0 v) r3.0 1 _ (digit 2 v)
        (e1.1.stays _ _ _ own1) (digit-lt 2 v)
      ∙ e1.1.keeps _ _ _ (digit 2 v) _ own1 (digit-lt 2 v) e2.1.reached

  down1 : descend boot last.memory (slot r2.0 (digit 1 v)) ≡ some r1.0
  down1 =
      descend-stored (bit_or phys flags) o1 own (digit-lt 0 v) r2.0 0 _ (digit 1 v)
        (e1.1.stays _ _ _ e2.1.owner_c) (digit-lt 1 v)
      ∙ e1.1.reached

  walk_self : walk boot last.memory 3 p.pml4 v ≡ leaf (bit_or phys flags)
  walk_self =
      walk-some boot last.memory 2 p.pml4 v down3
      ∙ walk-some boot last.memory 1 r3.0 v down2
      ∙ walk-some boot last.memory 0 r2.0 v down1
      ∙ walk-stored_self (bit_or phys flags) o1 own (digit-lt 0 v) v refl

  walk_ne :
      (w : ℕ) → page_number w ≢ v → walk boot last.memory 3 p.pml4 (page_number w) ≡ lookup boot p w
  walk_ne w ne =
      let own2 = e3.1.stays _ _ _ g.root_owner in
      let own1 = e2.1.stays _ _ _ own2 in
      walk-stored_ne (bit_or phys flags) o1 own (digit-lt 0 v) 3 p.pml4 0 (page_number w)
        (e1.1.stays _ _ _ own1) (prefix-page_number w) (λ e. ne (e ∙ omega arith))
      ∙ e1.1.same_walk 3 p.pml4 0 (page_number w) own1
      ∙ e2.1.same_walk 3 p.pml4 0 (page_number w) own2
      ∙ e3.1.same_walk 3 p.pml4 0 (page_number w) g.root_owner

  last-IsPaged : IsPaged boot last p.pml4 e1.0
  last-IsPaged = record {
    valid = omega (arith, e1.1.valid);
    pool = record {
      hhdm_page = e1.1.pool.hhdm_page;
      base_page = e1.1.pool.base_page;
      above = e1.1.pool.above;
      small = e1.1.pool.small;
      near = e1.1.pool.near;
      ends = e1.1.pool.ends;
    };
    owned = Owned-stored (bit_or phys flags) o1 own (digit-lt 0 v);
    root_owner = e1.1.stays _ _ _ (e2.1.stays _ _ _ (e3.1.stays _ _ _ g.root_owner));
  }

  looks_up_after :
      (w : ℕ)
      → walk boot last.memory 3 p.pml4 (page_number w)
        ≡ (if page_number w == v then leaf (bit_or phys flags) else lookup boot p w)
  looks_up_after w = elim (Bool-cases (page_number w == v)) [
    | inl same ↦
        rw same (ap (walk boot last.memory 3 p.pml4) (==→eq (page_number w) v same) ∙ walk_self)
    | inr other ↦ rw other (walk_ne w (==→ne (page_number w) v other))
  ]

  -- On well-formed tables with three frames left, `map` keeps the tables well formed, takes at most
  -- three frames, and changes the translation of one page, the one of `virt`, to the entry `phys |
  -- flags`.
  pub map_page-Mapped :
      (owner' : Owner) × Mapped boot p phys virt flags (map_page boot p phys virt flags) owner'
  map_page-Mapped = (
    e1.0,
    record {
      root = map_page-pml4;
      paged = rw (map_page-pml4, map_page-allocator) last-IsPaged;
      left = rw map_page-allocator (omega (arith, e3.1.left, e2.1.left, e1.1.left));
      looks_up = λ w. rw (map_page-pml4, map_page-allocator) (looks_up_after w);
    },
  )
