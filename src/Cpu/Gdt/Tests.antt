-- ===== src/Cpu/Gdt/Tests.antt =====
-- The table of src/kernel/cpu/gdt/gdt.cc, for a task state segment in the kernel's half.
use slayer_os.Base.{ℕ, ◌-◌, ◌≡◌, ◌<◌, false, [], arith}
use slayer_os.Cpu.Tss.{Tss, tss_size}
use slayer_os.Cpu.Gdt.{Gdt, first_table, gdt_init}
use slayer_os.Cpu.Gdt.Segments.{base_of, limit_of, access_of, gdt_init_lem}

abbrev tss : Tss
tss = record {
  rsp0 = 7;
  rsp1 = 7;
  rsp2 = 7;
  ist = λ _. 7;
  iopb_offset = 7;
  ist_stacks = λ _. 0;
  allocator = record {
    frames = λ _. false;
    nframes = 16;
    latest_frame = 0;
    available_frames = 16;
    base_addr = 0xffff_8000_0010_0000;
    memory = λ _. 0;
  };
}

abbrev gdt : Gdt
gdt = record { gp = record { limit = 0; base = 0 }; table = first_table; tss = tss; loaded = [] }

gdt_init_lem_example :
    let table = (gdt_init 0xffff_ffff_8010_0000 0xffff_ffff_8012_3450 gdt).table in
    (base_of (table 5) (table 6) ≡ 0xffff_ffff_8012_3450)
    × (limit_of (table 5) ≡ tss_size - 1)
    × (access_of (table 5) ≡ 0x89)
    × ((i : ℕ) → i < 5 → table i ≡ gdt.table i)
gdt_init_lem_example = gdt_init_lem 0xffff_ffff_8010_0000 0xffff_ffff_8012_3450 gdt (omega arith)
