-- ===== src/Mem/Mapper/Tests.antt =====
-- `full_map` of src/kernel/mem/map/mapper.cc at a memory map of two entries and a kernel of three
-- pages.
use slayer_os.Base.{ℕ, suc, ◌≡◌, refl, false, some, none, [], ◌∷◌, arith, length}
use slayer_os.Boot.{BootCtx, usable, framebuffer}
use slayer_os.Mem.Frames.{FrameAllocator}
use slayer_os.Mem.Frames.Alloc.{IsValid}
use slayer_os.Mem.Frames.Room.{free_count, room}
use slayer_os.Mem.Paging.{PageTables, init_root}
use slayer_os.Mem.Paging.Walk.{IsPaged, InDirectMap, Owner, lookup}
use slayer_os.Mem.Paging.Root.{init_root-IsPaged}
use slayer_os.Mem.Mapper.{Sections, full_map}
use slayer_os.Mem.Mapper.Requests.{Requested}
use slayer_os.Mem.Mapper.Full.{full_requests, AreSections, full_map-Requested}

abbrev boot : BootCtx
boot = record {
  name = 0;
  version = 0;
  memmap_entries =
      record { base = 0x10_0000; len = 0x2000; type = usable }
      ∷ record { base = 0xfd00_0000; len = 0x1000; type = framebuffer }
      ∷ [];
  hhdm_addr = 0xffff_8000_0000_0000;
  kern_address_virt = 0xffff_ffff_8000_0000;
  kern_address_phys = 0x20_0000;
  fb_info = 0;
  kernel_file = 0;
  rsdp_addr = 0;
}

abbrev kernel : Sections
kernel = record {
  text_start = 0xffff_ffff_8000_0000;
  text_end = 0xffff_ffff_8000_0800;
  rodata_start = 0xffff_ffff_8000_1000;
  rodata_end = 0xffff_ffff_8000_1010;
  data_start = 0xffff_ffff_8000_2000;
  data_end = 0xffff_ffff_8000_2020;
}

kernel-AreSections : AreSections kernel
kernel-AreSections = record {
  text = omega arith;
  text_fits = omega arith;
  rodata = omega arith;
  rodata_fits = omega arith;
  datas = omega arith;
  datas_fits = omega arith;
}

abbrev pool : FrameAllocator
pool = record {
  frames = λ _. false;
  nframes = 64;
  latest_frame = 0;
  available_frames = 64;
  base_addr = 0xffff_8000_0010_0000;
  memory = λ _. 7;
}

pool-IsValid : IsValid pool
pool-IsValid = omega arith

pool-InDirectMap : InDirectMap boot pool
pool-InDirectMap = record {
  hhdm_page = refl;
  base_page = refl;
  above = omega arith;
  small = omega arith;
  near = omega arith;
  ends = omega arith;
}

pool-room : room pool ≡ 64
unfolding free_count
pool-room = refl

abbrev tables : PageTables
tables = init_root pool

root :
    (owner : Owner) × IsPaged boot tables.allocator tables.pml4 owner
    × (room pool ≡ suc (room tables.allocator))
    × ((w : ℕ) → lookup boot tables w ≡ none)
root =
    init_root-IsPaged {boot = boot} {s = pool} pool-IsValid pool-InDirectMap
      (omega (arith, pool-room))

requests_length : length (full_requests boot kernel) ≡ 8
requests_length = refl

full_map-Requested_example :
    (p' : PageTables) × (owner' : Owner) × (full_map boot kernel tables ≡ some p')
    × Requested boot tables (full_requests boot kernel) p' owner'
full_map-Requested_example =
    full_map-Requested boot kernel tables root.0 kernel-AreSections root.1
      (omega (arith, requests_length, pool-room, root.2))
