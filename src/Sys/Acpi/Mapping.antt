-- ===== src/Sys/Acpi/Mapping.antt =====
-- `uacpi_kernel_map` of src/kernel/sys/acpi_kapi.cc: the memory that uACPI asks for.
use slayer_os.Base.{
  ℕ, ◌+◌, ◌-◌, ◌*◌, ◌/◌, ◌%◌, ◌^◌, ◌≡◌, ◌≤◌, ◌<◌, ◌∙◌, ap, Option, none, some, bit_or, u64, sub64,
  arith,
}
use slayer_os.Base.Bits.{bit_and_low_bits}
use slayer_os.Boot.{BootCtx}
use slayer_os.Mem.Frames.{frame_size, phys_to_virt}
use slayer_os.Mem.Frames.Room.{room}
use slayer_os.Mem.Paging.{
  PageTables, map_range, round_down, round_up, align_up, page_present, page_write,
}
use slayer_os.Mem.Paging.Walk.{IsPaged, Owner, lookup, leaf, page_number}
use slayer_os.Mem.Paging.Range.{map_range-Ranged}

-- `uacpi_kernel_map`, with the address that it returns.
unfoldable pub uacpi_kernel_map : BootCtx → PageTables → (addr len : ℕ) → Option (ℕ × PageTables)
unfolding map_range
uacpi_kernel_map boot p addr len =
    let offset = sub64 addr (round_down addr) in
    let total_len = align_up (u64 (len + offset)) frame_size in
    let virt = phys_to_virt boot addr in
    elim (map_range boot p addr virt total_len (bit_or page_present page_write)) [
      | none ↦ none
      | some (_, p') ↦ some (virt, p')
    ]

-- The area lies within the direct map.
pub record InArea (boot : BootCtx) (addr len : ℕ) : Type 0 where
  pub hhdm_page : boot.hhdm_addr % 2 ^ 12 ≡ 0
  pub small : len + 3 * frame_size ≤ 2 ^ 48
  pub ends : boot.hhdm_addr + addr + len + 3 * frame_size ≤ 2 ^ 64

abbrev pub pages_of : ℕ → ℕ → ℕ
pages_of addr len = (addr % 2 ^ 12 + len + (frame_size - 1)) / frame_size

abbrev pub map_flags : ℕ
map_flags = bit_or page_present page_write

-- The last line of `uacpi_kernel_map`.
abbrev returned : ℕ → Option (ℕ × PageTables) → Option (ℕ × PageTables)
returned virt result = elim result [ none ↦ none | some (_, p') ↦ some (virt, p') ]

uacpi_kernel_map-map_range :
    (boot : BootCtx) (p : PageTables) (addr len : ℕ)
    → InArea boot addr len
    → uacpi_kernel_map boot p addr len
      ≡ returned
          (boot.hhdm_addr + addr)
          (map_range boot p addr (boot.hhdm_addr + addr) (pages_of addr len * frame_size) map_flags)
unfolding uacpi_kernel_map
uacpi_kernel_map-map_range boot p addr len area =
    let offset : sub64 addr (round_down addr) ≡ addr % 2 ^ 12 =
      omega (arith, bit_and_low_bits 12 addr, area.ends) in
    let total : u64 (len + addr % 2 ^ 12) ≡ addr % 2 ^ 12 + len = omega (arith, area.small) in
    let virt : phys_to_virt boot addr ≡ boot.hhdm_addr + addr = omega (arith, area.ends) in
    ap
      (λ o. returned (phys_to_virt boot addr) (
        map_range boot p addr (phys_to_virt boot addr) (align_up (u64 (len + o)) frame_size)
          map_flags))
      offset
    ∙ ap
        (λ t.
          returned (phys_to_virt boot addr)
            (map_range boot p addr (phys_to_virt boot addr) (align_up t frame_size) map_flags))
        total
    ∙ ap (λ v. returned v (map_range boot p addr v (pages_of addr len * frame_size) map_flags)) virt

-- A byte is on the page that the loop of `map_range` reaches in its round.
same_page :
    (hhdm addr i : ℕ)
    → hhdm % 2 ^ 12 ≡ 0
    → hhdm + addr + i + frame_size < 2 ^ 64
    → page_number (hhdm + addr + i)
      ≡ page_number (u64 (hhdm + addr + (0 + (addr % 2 ^ 12 + i) / 2 ^ 12 * frame_size)))
same_page hhdm addr i page fits =
    let quotient : (hhdm + addr + i) / 2 ^ 12
        ≡ u64 (hhdm + addr + (0 + (addr % 2 ^ 12 + i) / 2 ^ 12 * frame_size)) / 2 ^ 12 =
      omega arith in
    ap (λ q. q % 2 ^ 36) quotient

-- On well-formed tables with frames for three tables for each page of an area that lies within the
-- direct map, `uacpi_kernel_map` ends and keeps the tables well formed. It returns the address of
-- the area in the direct map, and each byte of the area is on a page whose entry is the address of
-- that page plus the offset of the area in its first page, with the flags of a present page that is
-- written to: the low bits of the address are among the flags.
pub uacpi_kernel_map_lem :
    (boot : BootCtx) (p : PageTables) (owner : Owner) (addr len : ℕ)
    → InArea boot addr len
    → IsPaged boot p.allocator p.pml4 owner
    → 3 * pages_of addr len ≤ room p.allocator
    → (p' : PageTables) × (owner' : Owner) × (uacpi_kernel_map boot p addr len
        ≡ some (boot.hhdm_addr + addr, p'))
      × IsPaged boot p'.allocator p'.pml4 owner'
      × ((i : ℕ)
          → i < len
          → lookup boot p' (boot.hhdm_addr + addr + i)
            ≡ leaf (bit_or (addr + (addr % 2 ^ 12 + i) / 2 ^ 12 * frame_size) map_flags))
uacpi_kernel_map_lem boot p owner addr len area g spare =
    let virt : ℕ = boot.hhdm_addr + addr in
    let rounds : round_up (pages_of addr len * frame_size) frame_size ≡ pages_of addr len =
      omega arith in
    let (p', owner', run, r) =
      map_range-Ranged boot p owner addr virt (pages_of addr len * frame_size) map_flags
        (omega (arith, area.small)) g (omega (arith, rounds, spare)) in
    (
      p',
      owner',
      uacpi_kernel_map-map_range boot p addr len area ∙ ap (λ o. returned virt o) run,
      r.paged,
      λ i inside.
          let m : ℕ = (addr % 2 ^ 12 + i) / 2 ^ 12 in
          let entry : u64 (addr + (0 + m * frame_size)) ≡ addr + m * frame_size =
            omega (arith, area.ends, inside) in
          r.inside m (virt + i) (omega (arith, rounds, inside))
            (same_page boot.hhdm_addr addr i area.hhdm_page (omega (arith, area.ends, inside)))
          ∙ ap (λ e. leaf (bit_or e map_flags)) entry,
    )
