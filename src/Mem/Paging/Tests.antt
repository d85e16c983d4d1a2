-- ===== src/Mem/Paging/Tests.antt =====
-- The page tables of src/kernel/mem/paging/paging.cc over a pool of sixteen frames, and the
-- theorems about them at those tables.
use slayer_os.Base.{
  ℕ, suc, ◌≡◌, ◌+◌, ◌*◌, ◌/◌, ◌%◌, ◌^◌, ◌<◌, bit_or, refl, false, some, none, [], u32, arith,
}
use slayer_os.Boot.{BootCtx}
use slayer_os.Mem.Frames.{FrameAllocator, frame_size}
use slayer_os.Mem.Frames.Alloc.{IsValid}
use slayer_os.Mem.Frames.Room.{free_count, room}
use slayer_os.Mem.Paging.{
  PageTables, init_root, map_page, unmap, map_range, round_up, page_present, page_write,
}
use slayer_os.Mem.Paging.Walk.{IsPaged, InDirectMap, Owner, lookup, leaf}
use slayer_os.Sys.Acpi.Mapping.{InArea, map_flags, uacpi_kernel_map, uacpi_kernel_map_lem}
use slayer_os.Mem.Paging.Map.{Mapped, map_page-Mapped}
use slayer_os.Mem.Paging.Unmap.{Unmapped, unmap-Unmapped}
use slayer_os.Mem.Paging.Range.{Ranged, map_range-Ranged}
use slayer_os.Mem.Paging.Root.{init_root-IsPaged}

abbrev boot : BootCtx
boot = record {
  name = 0;
  version = 0;
  memmap_entries = [];
  hhdm_addr = 0xffff_8000_0000_0000;
  kern_address_virt = 0xffff_ffff_8000_0000;
  kern_address_phys = 0x20_0000;
  fb_info = 0;
  kernel_file = 0;
  rsdp_addr = 0;
}

abbrev pool : FrameAllocator
pool = record {
  frames = λ _. false;
  nframes = 16;
  latest_frame = 0;
  available_frames = 16;
  base_addr = 0xffff_8000_0010_0000;
  memory = λ _. 7;
}

pool-IsValid : IsValid pool
pool-IsValid = omega arith

pool-InDirectMap : InDirectMap boot pool
pool-InDirectMap = record {
  hhdm_page = refl;
  base_page = refl;
  above = omega arith;
  small = omega arith;
  near = omega arith;
  ends = omega arith;
}

pool-room : room pool ≡ 16
unfolding free_count
pool-room = refl

abbrev tables : PageTables
tables = init_root pool

root_tree :
    (owner : Owner) × IsPaged boot tables.allocator tables.pml4 owner
    × (room pool ≡ suc (room tables.allocator))
    × ((w : ℕ) → lookup boot tables w ≡ none)
root_tree =
    init_root-IsPaged {boot = boot} {s = pool} pool-IsValid pool-InDirectMap
      (omega (arith, pool-room))

abbrev owner : Owner
owner = root_tree.0

tables-IsPaged : IsPaged boot tables.allocator tables.pml4 owner
tables-IsPaged = root_tree.1

tables-room : room tables.allocator ≡ 15
tables-room = omega (arith, pool-room, root_tree.2)

map_page-Mapped_example :
    (owner' : Owner) × Mapped boot tables 0x5000 0x40_3000
      (page_present + page_write)
      (map_page boot tables 0x5000 0x40_3000 (page_present + page_write))
      owner'
map_page-Mapped_example =
    map_page-Mapped boot tables owner 0x5000 0x40_3000 (page_present + page_write) tables-IsPaged
      (omega (arith, tables-room))

unmap-Unmapped_example : Unmapped boot tables owner 0x40_3000 (unmap boot tables 0x40_3000)
unmap-Unmapped_example = unmap-Unmapped boot tables owner 0x40_3000 tables-IsPaged

map_range-Ranged_example :
    (p' : PageTables) × (owner' : Owner) × (map_range boot tables 0x5000 0x40_3000 0x1800 3
      ≡ some (u32 (0x1800 / frame_size), p'))
    × Ranged boot tables (round_up 0x1800 frame_size) 0 0x5000 0x40_3000 3 p' owner'
map_range-Ranged_example =
    map_range-Ranged boot tables owner 0x5000 0x40_3000 0x1800 3 (omega arith) tables-IsPaged
      (omega (arith, tables-room))

-- uACPI asks for 0x30 bytes at an address that is not that of a page, and that crosses one.
unaligned-InArea : InArea boot 0xffe4 0x30
unaligned-InArea = record { hhdm_page = refl; small = omega arith; ends = omega arith }

uacpi_kernel_map_lem_example :
    (p' : PageTables) × (owner' : Owner) × (uacpi_kernel_map boot tables 0xffe4 0x30
      ≡ some (boot.hhdm_addr + 0xffe4, p'))
    × IsPaged boot p'.allocator p'.pml4 owner'
    × ((i : ℕ)
        → i < 0x30
        → lookup boot p' (boot.hhdm_addr + 0xffe4 + i)
          ≡ leaf (bit_or (0xffe4 + (0xffe4 % 2 ^ 12 + i) / 2 ^ 12 * frame_size) map_flags))
uacpi_kernel_map_lem_example =
    uacpi_kernel_map_lem boot tables owner 0xffe4 0x30 unaligned-InArea tables-IsPaged
      (omega (arith, tables-room))
