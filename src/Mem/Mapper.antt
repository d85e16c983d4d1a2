-- ===== src/Mem/Mapper.antt =====
-- src/kernel/mem/map/mapper.cc: the mappings that the kernel makes when it turns paging on.
-- The linker's symbols are the fields of `Sections`, which are arguments here.
pub mod Requests
pub mod Full
mod Tests
use slayer_os.Base.{
  ℕ, zero, suc, ◌+◌, ◌-◌, ◌*◌, ◌/◌, Bool, true, false, Option, none, some, List, [], ◌∷◌, ltb,
  if◌then◌else◌, bit_or, u64, sub64,
}
use slayer_os.Boot.{
  BootCtx, MemmapType, MemmapEntry, bootloader_reclaimable, framebuffer, is_usable,
}
use slayer_os.Mem.Frames.{frame_size, phys_to_virt}
use slayer_os.Mem.Paging.{
  PageTables, page_present, page_write, page_user, page_nx, align_up, align_down, map_page,
}

abbrev pub is_bootloader : MemmapType → Bool
is_bootloader bootloader_reclaimable = true
is_bootloader _ = false

abbrev pub is_framebuffer : MemmapType → Bool
is_framebuffer framebuffer = true
is_framebuffer _ = false

abbrev pub region_flags : ℕ
region_flags = bit_or (bit_or page_present page_write) page_user

-- The loop over the pages of an entry, with the rounds left.
unfoldable pub map_region : BootCtx → MemmapEntry → ℕ → ℕ → PageTables → PageTables
map_region boot entry zero page p = p
map_region boot entry (suc n) page p = map_region boot entry n (page + 1) (
    map_page boot p (u64 (entry.base + u64 (page * frame_size)))
      (u64 (phys_to_virt boot entry.base + u64 (page * frame_size))) region_flags)

-- The loop over the memory map, for the entries of the types that `pick` is true of.
unfoldable pub map_regions :
    BootCtx → (MemmapType → Bool) → List MemmapEntry → PageTables → PageTables
unfolding map_region
map_regions boot pick [] p = p
map_regions boot pick (entry ∷ entries) p =
    map_regions boot pick entries
      (if pick entry.type then map_region boot entry (entry.len / frame_size) 0 p else p)

abbrev pub map_found_memory : BootCtx → PageTables → PageTables
map_found_memory boot p = map_regions boot is_usable boot.memmap_entries p

abbrev pub map_hhdm_memory : BootCtx → PageTables → PageTables
map_hhdm_memory boot p = map_regions boot is_usable boot.memmap_entries p

abbrev pub map_bootloader_memory : BootCtx → PageTables → PageTables
map_bootloader_memory boot p = map_regions boot is_bootloader boot.memmap_entries p

abbrev pub map_framebuffer_memory : BootCtx → PageTables → PageTables
map_framebuffer_memory boot p = map_regions boot is_framebuffer boot.memmap_entries p

-- The symbols of the linker, each an address.
pub record Sections : Type 0 where
  pub text_start : ℕ
  pub text_end : ℕ
  pub rodata_start : ℕ
  pub rodata_end : ℕ
  pub data_start : ℕ
  pub data_end : ℕ

-- The loop over the pages of a section on fuel. `none`: the fuel ran out.
unfoldable pub map_section : BootCtx → ℕ → (addr end flags : ℕ) → PageTables → Option PageTables
map_section boot zero addr end flags p = none
map_section boot (suc n) addr end flags p =
    let rest = map_section boot n (u64 (addr + frame_size)) end flags (
      map_page boot p (u64 (sub64 addr boot.kern_address_virt + boot.kern_address_phys)) addr
        flags) in
    if ltb addr end then rest else some p

-- One more than the rounds of the loop, where the end does not wrap.
abbrev pub section_fuel : ℕ → ℕ → ℕ
section_fuel start end = (end - start) / frame_size + 1

abbrev pub text_flags : ℕ
text_flags = bit_or page_present page_user

abbrev pub rodata_flags : ℕ
rodata_flags = bit_or (bit_or page_present page_nx) page_user

abbrev pub data_flags : ℕ
data_flags = bit_or (bit_or (bit_or page_present page_write) page_nx) page_user

-- One of the three loops, between the aligned ends.
unfoldable pub map_aligned : BootCtx → (start end flags : ℕ) → PageTables → Option PageTables
unfolding map_section
map_aligned boot start end flags p =
    let from = align_down start frame_size in
    let to = align_up end frame_size in map_section boot (section_fuel from to) from to flags p

unfoldable pub map_kernel_code : BootCtx → Sections → PageTables → Option PageTables
unfolding map_aligned
map_kernel_code boot s p = elim (map_aligned boot s.text_start s.text_end text_flags p) [
  | none ↦ none
  | some p1 ↦ elim (map_aligned boot s.rodata_start s.rodata_end rodata_flags p1) [
    | none ↦ none
    | some p2 ↦ map_aligned boot s.data_start s.data_end data_flags p2
  ]
]

-- `Mem::Mapper::full_map`
unfoldable pub full_map : BootCtx → Sections → PageTables → Option PageTables
unfolding map_regions map_kernel_code
full_map boot s p = map_kernel_code boot s (
    map_hhdm_memory boot
      (map_found_memory boot (map_framebuffer_memory boot (map_bootloader_memory boot p))))
