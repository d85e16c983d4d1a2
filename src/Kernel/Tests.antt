-- ===== src/Kernel/Tests.antt =====
-- The start of src/kernel/kern.cc with a pool of 23 frames and an entry for their flags.
use slayer_os.Base.{ℕ, ◌+◌, ◌*◌, ◌/◌, ◌≡◌, refl, arith, false, none, [], ◌∷◌}
use slayer_os.Boot.{Responses, MemmapEntry, usable, sort_memmap, gather}
use slayer_os.Mem.Frames.{FrameAllocator, frame_size}
use slayer_os.Mem.Frames.Room.{room}
use slayer_os.Mem.Paging.{init_root}
use slayer_os.Mem.Paging.Walk.{IsPaged, Owner, lookup}
use slayer_os.Mem.Mapper.{Sections, full_map}
use slayer_os.Cpu.Gdt.{first_table}
use slayer_os.Cpu.Tss.{Tss}
use slayer_os.Cpu.Tss.Layout.{Laid}
use slayer_os.Kernel.{Statics, cleared_tss, setup_end, memory_setup}
use slayer_os.Kernel.Memory.{IsMemory, fresh, memory_setup_lem}

abbrev pool : MemmapEntry
pool = record { base = 0x10_0000; len = 0x1_7000; type = usable }

abbrev bitmap : MemmapEntry
bitmap = record { base = 0x1000; len = 0x1000; type = usable }

abbrev responses : Responses
responses = record {
  info_name = 0;
  info_version = 0;
  entries = pool ∷ bitmap ∷ [];
  hhdm_offset = 0xffff_8000_0000_0000;
  virtual_base = 0xffff_ffff_8000_0000;
  physical_base = 0x20_0000;
  framebuffers = 0;
  file = 0;
  rsdp_address = 0xffff_8000_000e_0000;
}

abbrev zeros : FrameAllocator
zeros = record {
  frames = λ _. false;
  nframes = 0;
  latest_frame = 0;
  available_frames = 0;
  base_addr = 0;
  memory = λ _. 0;
}

abbrev blank : Tss
blank = record {
  rsp0 = 0;
  rsp1 = 0;
  rsp2 = 0;
  ist = λ _. 0;
  iopb_offset = 104;
  ist_stacks = λ _. 0;
  allocator = zeros;
}

abbrev sections : Sections
sections = record {
  text_start = 0xffff_ffff_8000_0000;
  text_end = 0xffff_ffff_8000_0800;
  rodata_start = 0xffff_ffff_8000_1000;
  rodata_end = 0xffff_ffff_8000_1010;
  data_start = 0xffff_ffff_8000_2000;
  data_end = 0xffff_ffff_8000_2020;
}

responses-IsMemory : IsMemory responses zeros pool bitmap
unfolding sort_memmap
responses-IsMemory = record {
  first = refl;
  second = refl;
  index = refl;
  clear = λ i a b. refl;
  hhdm_page = refl;
  pool_page = refl;
  pool_behind = omega arith;
  small = omega arith;
  near = omega arith;
  ends = omega arith;
}

abbrev statics : Statics
statics = record {
  table_addr = 0xffff_ffff_8001_0000;
  tss_addr = 0xffff_ffff_8001_1000;
  idt_addr = 0xffff_ffff_8001_2000;
  stub = λ i. 0xffff_ffff_8000_1000 + i * 16;
  isr0xf0 = 0xffff_ffff_8000_2000;
  isr0xff = 0xffff_ffff_8000_2010;
  gdt = record {
    gp = record { limit = 0; base = 0 };
    table = first_table;
    tss = blank;
    loaded = [];
  };
  idt = λ _. record {
    offset_low = 0;
    selector = 0;
    ist = 0;
    type_attr = 0;
    offset_mid = 0;
    offset_high = 0;
    reserved = 0;
  };
  allocator = zeros;
}

memory_setup_lem_example :
    (tss : Tss) × (owner : Owner) × (memory_setup responses sections statics
      ≡ setup_end responses statics tss
          (full_map (gather responses) sections (init_root tss.allocator)))
    × Laid
        (0xffff_8000_0000_0000 + 0x10_0000)
        (0x1_7000 / frame_size)
        responses-IsMemory.small
        responses-IsMemory.ends
        0
        7
        (cleared_tss statics (fresh responses zeros pool bitmap responses-IsMemory))
        tss
    × IsPaged
        (gather responses)
        (init_root tss.allocator).allocator
        (init_root tss.allocator).pml4
        owner
    × (room (init_root tss.allocator).allocator + 23 ≡ 0x1_7000 / frame_size)
    × ((w : ℕ) → lookup (gather responses) (init_root tss.allocator) w ≡ none)
memory_setup_lem_example =
    memory_setup_lem responses sections statics pool bitmap responses-IsMemory (omega arith)
