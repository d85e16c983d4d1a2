-- ===== src/Mem/Paging.antt =====
-- src/kernel/mem/paging/paging.cc and src/include/mem/paging.h: the four levels of page tables.
-- The tables are words of the machine's memory, which the frame allocator carries; a table is the
-- address at which the kernel sees it. `flushes` counts the calls of `flush_tlb`.
pub mod Words
pub mod Walk
pub mod Steps
pub mod Fresh
pub mod Enter
pub mod Store
pub mod Map
pub mod Unmap
pub mod Root
pub mod Range
mod Tests
use slayer_os.Base.{
  ℕ, zero, suc, ◌+◌, ◌-◌, ◌*◌, ◌/◌, Bool, true, false, not, Option, none, some, ◌==◌, ltb,
  if◌then◌else◌, update, bit_and, bit_or, ◌>>>◌, u32, u64, sub64,
}
use slayer_os.Boot.{BootCtx}
use slayer_os.Mem.Frames.{
  FrameAllocator, frame_size, phys_to_virt, virt_to_phys, clear_words, alloc,
}

abbrev pub page_present : ℕ
page_present = 1

abbrev pub page_write : ℕ
page_write = 2

abbrev pub page_user : ℕ
page_user = 4

abbrev pub page_uncache : ℕ
page_uncache = 16

abbrev pub page_nx : ℕ
page_nx = 0x8000_0000_0000_0000

abbrev pub pte_mask : ℕ
pte_mask = 0x0000_ffff_ffff_f000

pub record PageTables : Type 0 where
  pub allocator : FrameAllocator
  pub pml4 : ℕ
  pub flushes : ℕ

unfoldable pub is_present : ℕ → Bool
is_present entry = not (bit_and entry page_present == 0)

-- The address of entry `i` of a table.
abbrev pub slot : ℕ → ℕ → ℕ
slot table i = u64 (table + i * 8)

-- `(virt >> shift) & 0x1ff`
unfoldable pub table_index : ℕ → ℕ → ℕ
table_index virt shift = bit_and (virt >>> shift) 0x1ff

-- `(u64*)PHYS2VIRT(entry & PTE_MASK)`
unfoldable pub child_table : BootCtx → ℕ → ℕ
child_table boot entry = phys_to_virt boot (bit_and entry pte_mask)

abbrev pub write_word : FrameAllocator → ℕ → ℕ → FrameAllocator
write_word s at value = record s { memory = update s.memory at value }

-- The step of `map` from an entry to the next table: the table that a present entry names, or a
-- frame of its own that the entry then names.
unfoldable pub enter : BootCtx → FrameAllocator → ℕ → ℕ × FrameAllocator
unfolding is_present child_table
enter boot s at =
    if is_present (s.memory at)
    then (child_table boot (s.memory at), s)
    else (let (table, s') = alloc s in
        (
          table,
          write_word s' at (bit_or (bit_or (virt_to_phys boot table) page_present) page_write),
        ))

-- `Mem::Paging::map`
unfoldable pub map_page : BootCtx → PageTables → (phys virt flags : ℕ) → PageTables
unfolding is_present table_index enter
map_page boot p phys virt flags =
    let (pml3, s3) = enter boot p.allocator (slot p.pml4 (table_index virt 39)) in
    let (pml2, s2) = enter boot s3 (slot pml3 (table_index virt 30)) in
    let (pml1, s1) = enter boot s2 (slot pml2 (table_index virt 21)) in
    let at = slot pml1 (table_index virt 12) in
    record p {
      allocator = write_word s1 at (bit_or phys flags);
      flushes = if is_present (s1.memory at) then p.flushes + 1 else p.flushes;
    }

-- The loop of `map_range` on fuel, from `i` on. `none`: the fuel ran out.
unfoldable pub map_pages :
    BootCtx → ℕ → (i phys virt size flags : ℕ) → PageTables → Option PageTables
map_pages boot zero i phys virt size flags p = none
map_pages boot (suc n) i phys virt size flags p =
    let rest =
      map_pages boot n (u64 (i + frame_size)) phys virt size flags
        (map_page boot p (u64 (phys + i)) (u64 (virt + i)) flags) in
    if ltb i size then rest else some p

-- The fuel is one more than the rounds that the loop makes where `i` does not wrap.
abbrev pub map_fuel : ℕ → ℕ
map_fuel size = (size + (frame_size - 1)) / frame_size + 1

-- `Mem::Paging::map_range`, with the number that it returns.
unfoldable pub map_range :
    BootCtx → PageTables → (phys virt size flags : ℕ) → Option (ℕ × PageTables)
unfolding map_pages
map_range boot p phys virt size flags =
    elim (map_pages boot (map_fuel size) 0 phys virt size flags p) [
      | none ↦ none
      | some p' ↦ some (u32 (size / frame_size), p')
    ]

-- The table that a present entry names; `none` is the early return of `unmap`.
unfoldable pub descend : BootCtx → (ℕ → ℕ) → ℕ → Option ℕ
unfolding is_present child_table
descend boot memory at =
    if is_present (memory at) then some (child_table boot (memory at)) else none

unfoldable pub clear_entry : PageTables → ℕ → PageTables
clear_entry p at = record p { allocator = write_word p.allocator at 0; flushes = p.flushes + 1 }

-- `Mem::Paging::unmap`
unfoldable pub unmap : BootCtx → PageTables → ℕ → PageTables
unfolding descend clear_entry table_index
unmap boot p virt = elim (descend boot p.allocator.memory (slot p.pml4 (table_index virt 39))) [
  | none ↦ p
  | some pml3 ↦ elim (descend boot p.allocator.memory (slot pml3 (table_index virt 30))) [
    | none ↦ p
    | some pml2 ↦ elim (descend boot p.allocator.memory (slot pml2 (table_index virt 21))) [
      | none ↦ p
      | some pml1 ↦ clear_entry p (slot pml1 (table_index virt 12))
    ]
  ]
]

-- `ROUND_DOWN`, `ROUND_UP`, `ALIGN_UP` and `ALIGN_DOWN`, on values that do not wrap.
abbrev pub round_down : ℕ → ℕ
round_down x = x - bit_and x 0xfff

abbrev pub round_up : ℕ → ℕ → ℕ
round_up x y = (x + (y - 1)) / y

abbrev pub align_up : ℕ → ℕ → ℕ
align_up x y = round_up x y * y

abbrev pub align_down : ℕ → ℕ → ℕ
align_down x y = x / y * y

-- `Mem::Paging::map_mmio`, with the address that it returns.
unfoldable pub map_mmio : BootCtx → PageTables → (phys size : ℕ) → Option (ℕ × PageTables)
unfolding map_range
map_mmio boot p phys size =
    let aligned = round_down phys in
    let offset = sub64 phys aligned in
    let virt = phys_to_virt boot aligned in
    let flags = bit_or (bit_or page_present page_write) page_uncache in
    elim (map_range boot p aligned virt (align_up (u64 (size + offset)) frame_size) flags) [
      | none ↦ none
      | some (_, p') ↦ some (u64 (virt + offset), p')
    ]

-- The first lines of `Mem::Paging::init`: the root table.
unfoldable pub init_root : FrameAllocator → PageTables
init_root s =
    let (pml4, s') = alloc s in
    record {
      allocator = record s' { memory = clear_words s'.memory pml4 frame_size };
      pml4 = pml4;
      flushes = 0;
    }

-- The registers of the processor that switch paging on.
pub record ControlRegisters : Type 0 where
  pub cr0 : ℕ
  pub cr3 : ℕ
  pub cr4 : ℕ

unfoldable pub load_cr3 : BootCtx → ControlRegisters → ℕ → ControlRegisters
load_cr3 boot c cr3 = record c { cr3 = virt_to_phys boot cr3 }

unfoldable pub enable_paging : ControlRegisters → ControlRegisters
enable_paging c = record c { cr0 = bit_or c.cr0 0x8000_0000; cr4 = bit_or c.cr4 0x20 }
