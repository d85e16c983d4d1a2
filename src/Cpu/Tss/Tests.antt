-- ===== src/Cpu/Tss/Tests.antt =====
-- The stacks of src/kernel/cpu/tss/tss.cc on a pool of 64 free frames.
use slayer_os.Base.{◌≡◌, refl, false, arith}
use slayer_os.Mem.Frames.{FrameAllocator, allocs}
use slayer_os.Cpu.Tss.{Tss, init_stacks, get_ist_stack}
use slayer_os.Cpu.Tss.Layout.{Stacked, Laid, init_stacks-Laid}

abbrev pool : FrameAllocator
pool = record {
  frames = λ _. false;
  nframes = 64;
  latest_frame = 0;
  available_frames = 64;
  base_addr = 0x10_0000;
  memory = λ _. 7;
}

abbrev blank : Tss
blank = record {
  rsp0 = 0;
  rsp1 = 0;
  rsp2 = 0;
  ist = λ _. 0;
  iopb_offset = 104;
  ist_stacks = λ _. 0;
  allocator = pool;
}

tops :
    (get_ist_stack (init_stacks blank) 1 ≡ 0x10_4000)
    × (get_ist_stack (init_stacks blank) 2 ≡ 0x10_7000)
    × (get_ist_stack (init_stacks blank) 3 ≡ 0)
unfolding init_stacks get_ist_stack allocs
tops = (refl, refl, refl)

pool-Stacked : Stacked 0x10_0000 64 0 pool
pool-Stacked = record {
  at = refl;
  pool = refl;
  index = refl;
  used = λ j a b. absurd (omega arith);
  free = λ j a b. refl;
}

init_stacks-Laid_example :
    Laid 0x10_0000 64 (omega arith) (omega arith) 0 7 blank (init_stacks blank)
init_stacks-Laid_example =
    init_stacks-Laid 0x10_0000 64 (omega arith) (omega arith) blank pool-Stacked (omega arith)
      (omega arith)
