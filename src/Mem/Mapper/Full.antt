-- ===== src/Mem/Mapper/Full.antt =====
-- `full_map` of src/kernel/mem/map/mapper.cc: its loops as one list of requests, and the page
-- tables that it leaves.
use slayer_os.Base.{
  ℕ, zero, suc, ◌+◌, ◌-◌, ◌*◌, ◌/◌, ◌^◌, ◌<◌, ◌≤◌, ◌≡◌, ◌∙◌, refl, sym, Bool, some, arith, List, [],
  ◌∷◌, ◌++◌, inl, inr, Bool-cases, lt→ltb, le→ltb, if◌then◌else◌, u64, sub64, length, ap,
}
use slayer_os.Boot.{BootCtx, MemmapType, MemmapEntry, is_usable}
use slayer_os.Mem.Frames.{frame_size, phys_to_virt}
use slayer_os.Mem.Frames.Room.{room}
use slayer_os.Mem.Paging.{PageTables, align_up, align_down}
use slayer_os.Mem.Paging.Walk.{IsPaged, Owner}
use slayer_os.Mem.Mapper.{
  Sections, is_bootloader, is_framebuffer, region_flags, map_region, map_regions, map_section,
  section_fuel, text_flags, rodata_flags, data_flags, map_aligned, map_kernel_code, full_map,
}
use slayer_os.Mem.Mapper.Requests.{Request, map_all, map_all-append, Requested, map_all-Requested}

-- `n` pages of an entry from page `page` on, as requests.
abbrev pub region_requests : BootCtx → MemmapEntry → ℕ → ℕ → List Request
region_requests boot entry zero page = []
region_requests boot entry (suc n) page =
    record {
      phys = u64 (entry.base + u64 (page * frame_size));
      virt = u64 (phys_to_virt boot entry.base + u64 (page * frame_size));
      flags = region_flags;
    }
    ∷ region_requests boot entry n (page + 1)

abbrev pub regions_requests : BootCtx → (MemmapType → Bool) → List MemmapEntry → List Request
regions_requests boot pick [] = []
regions_requests boot pick (entry ∷ entries) =
    (if pick entry.type then region_requests boot entry (entry.len / frame_size) 0 else [])
    ++ regions_requests boot pick entries

-- `n` pages of the kernel from address `addr` on.
abbrev pub section_requests : BootCtx → ℕ → ℕ → ℕ → List Request
section_requests boot zero addr flags = []
section_requests boot (suc n) addr flags =
    record {
      phys = u64 (sub64 addr boot.kern_address_virt + boot.kern_address_phys);
      virt = addr;
      flags = flags;
    }
    ∷ section_requests boot n (addr + frame_size) flags

abbrev pub aligned_requests : BootCtx → ℕ → ℕ → ℕ → List Request
aligned_requests boot start end flags =
    let from = align_down start frame_size in
    section_requests boot ((align_up end frame_size - from) / frame_size) from flags

abbrev pub kernel_requests : BootCtx → Sections → List Request
kernel_requests boot s =
    aligned_requests boot s.text_start s.text_end text_flags
    ++ (aligned_requests boot s.rodata_start s.rodata_end rodata_flags
        ++ aligned_requests boot s.data_start s.data_end data_flags)

-- All requests of `full_map`, in their order.
abbrev pub full_requests : BootCtx → Sections → List Request
full_requests boot s =
    regions_requests boot is_bootloader boot.memmap_entries
    ++ (regions_requests boot is_framebuffer boot.memmap_entries
        ++ (regions_requests boot is_usable boot.memmap_entries
            ++ (regions_requests boot is_usable boot.memmap_entries ++ kernel_requests boot s)))

map_region-map_all :
    (boot : BootCtx) (entry : MemmapEntry) (n page : ℕ) (p : PageTables)
    → map_region boot entry n page p ≡ map_all boot p (region_requests boot entry n page)
unfolding map_region map_all
map_region-map_all boot entry zero page p = refl
map_region-map_all boot entry (suc n) page p = map_region-map_all boot entry n (page + 1) _

map_regions-map_all :
    (boot : BootCtx) (pick : MemmapType → Bool) (entries : List MemmapEntry) (p : PageTables)
    → map_regions boot pick entries p ≡ map_all boot p (regions_requests boot pick entries)
unfolding map_regions map_all
map_regions-map_all boot pick [] p = refl
map_regions-map_all boot pick (entry ∷ entries) p = elim (Bool-cases (pick entry.type)) [
  | inl picked ↦ rw picked (
      map_regions-map_all boot pick entries _
      ∙ ap (λ q. map_all boot q (regions_requests boot pick entries))
          (map_region-map_all boot entry (entry.len / frame_size) 0 p)
      ∙ sym (map_all-append boot p (region_requests boot entry (entry.len / frame_size) 0) _))
  | inr other ↦ rw other (map_regions-map_all boot pick entries p)
]

map_section-map_all :
    (boot : BootCtx) (n addr end flags : ℕ) (p : PageTables)
    → addr + n * frame_size ≡ end
    → end < 2 ^ 64
    → map_section boot (suc n) addr end flags p
      ≡ some (map_all boot p (section_requests boot n addr flags))
unfolding map_section map_all
map_section-map_all boot zero addr end flags p e fits = rw (le→ltb addr end (omega arith)) refl
map_section-map_all boot (suc n) addr end flags p e fits =
    let next : u64 (addr + frame_size) ≡ addr + frame_size = omega arith in
    rw (lt→ltb addr end (omega arith), next)
      (map_section-map_all boot n (addr + frame_size) end flags _ (omega arith) fits)

map_aligned-map_all :
    (boot : BootCtx) (start end flags : ℕ) (p : PageTables)
    → start ≤ end
    → end + frame_size < 2 ^ 64
    → map_aligned boot start end flags p
      ≡ some (map_all boot p (aligned_requests boot start end flags))
unfolding map_aligned
map_aligned-map_all boot start end flags p le fits =
    let from = align_down start frame_size in
    let to = align_up end frame_size in
    let n : section_fuel from to ≡ suc ((to - from) / frame_size) = omega arith in
    ap (λ m. map_section boot m from to flags p) n
    ∙ map_section-map_all boot ((to - from) / frame_size) from to flags p (omega arith)
        (omega arith)

-- Each section ends behind its start and before the last page of the address space.
pub record AreSections (s : Sections) : Type 0 where
  pub text : s.text_start ≤ s.text_end
  pub text_fits : s.text_end + frame_size < 2 ^ 64
  pub rodata : s.rodata_start ≤ s.rodata_end
  pub rodata_fits : s.rodata_end + frame_size < 2 ^ 64
  pub datas : s.data_start ≤ s.data_end
  pub datas_fits : s.data_end + frame_size < 2 ^ 64

map_kernel_code-map_all :
    (boot : BootCtx) (s : Sections) (p : PageTables)
    → AreSections s
    → map_kernel_code boot s p ≡ some (map_all boot p (kernel_requests boot s))
unfolding map_kernel_code
map_kernel_code-map_all boot s p a = rw (
  map_aligned-map_all boot s.text_start s.text_end text_flags p a.text a.text_fits,
  map_kernel_code,
  map_aligned-map_all boot s.rodata_start s.rodata_end rodata_flags _ a.rodata a.rodata_fits,
  map_aligned-map_all boot s.data_start s.data_end data_flags _ a.datas a.datas_fits,
  map_all-append boot p (aligned_requests boot s.text_start s.text_end text_flags) _,
  map_all-append boot _ (aligned_requests boot s.rodata_start s.rodata_end rodata_flags) _,
)

-- Where the sections of the kernel do not wrap, `full_map` ends, and is the calls of `map` that its
-- five loops list, in their order.
pub full_map-map_all :
    (boot : BootCtx) (s : Sections) (p : PageTables)
    → AreSections s
    → full_map boot s p ≡ some (map_all boot p (full_requests boot s))
unfolding full_map
full_map-map_all boot s p a =
    map_kernel_code-map_all boot s _ a
    ∙ ap (λ q. some (map_all boot q (kernel_requests boot s)))
        (map_regions-map_all boot is_usable boot.memmap_entries _
          ∙ ap (λ q. map_all boot q (regions_requests boot is_usable boot.memmap_entries))
              (map_regions-map_all boot is_usable boot.memmap_entries _
                ∙ ap (λ q. map_all boot q (regions_requests boot is_usable boot.memmap_entries))
                    (map_regions-map_all boot is_framebuffer boot.memmap_entries _
                      ∙ ap
                          (λ q.
                            map_all boot q
                              (regions_requests boot is_framebuffer boot.memmap_entries))
                          (map_regions-map_all boot is_bootloader boot.memmap_entries p))))
    ∙ ap some (
        sym (
          map_all-append boot p (regions_requests boot is_bootloader boot.memmap_entries) _
          ∙ map_all-append boot _ (regions_requests boot is_framebuffer boot.memmap_entries) _
          ∙ map_all-append boot _ (regions_requests boot is_usable boot.memmap_entries) _
          ∙ map_all-append boot _ (regions_requests boot is_usable boot.memmap_entries) _))

-- On well-formed tables with frames for three tables for each page that is mapped, and with
-- sections that do not wrap, `full_map` ends, keeps the tables well formed, and translates each
-- address by the last of the requests for its page, or as before.
pub full_map-Requested :
    (boot : BootCtx) (s : Sections) (p : PageTables) (owner : Owner)
    → AreSections s
    → IsPaged boot p.allocator p.pml4 owner
    → 3 * length (full_requests boot s) ≤ room p.allocator
    → (p' : PageTables) × (owner' : Owner) × (full_map boot s p ≡ some p')
      × Requested boot p (full_requests boot s) p' owner'
full_map-Requested boot s p owner a g spare =
    let (owner', r) = map_all-Requested boot p owner (full_requests boot s) g spare in
    (map_all boot p (full_requests boot s), owner', full_map-map_all boot s p a, r)
