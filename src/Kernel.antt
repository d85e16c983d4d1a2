-- ===== src/Kernel.antt =====
-- src/kernel/kern.cc: how the kernel starts.
-- `_kernel_pre_setup` calls the parts one after the other. The steps that set the memory up share
-- the frame allocator and are composed here with their states; the others are listed in their order.
pub mod Memory
pub mod Sleeps
mod Tests
use slayer_os.Base.{
  ℕ, ◌+◌, Bool, Option, none, some, List, [], ◌∷◌, ◌++◌, if◌then◌else◌, ◌&&◌, u64, sub64,
}
use slayer_os.Boot.{BootCtx, Responses, gather}
use slayer_os.Mem.Frames.{FrameAllocator, init}
use slayer_os.Mem.Paging.{PageTables, ControlRegisters, init_root, load_cr3, enable_paging}
use slayer_os.Mem.Mapper.{Sections, full_map}
use slayer_os.Cpu.Tss.{Tss, init_stacks}
use slayer_os.Cpu.Idt.{Gate, Table, idt_start}
use slayer_os.Cpu.Gdt.{Gdt, gdt_init}
use slayer_os.Sys.Timer.{Timer, timer_init, get_uptime_ms, sleep_ms}

-- `Mem::Paging::init` of src/kernel/mem/paging/paging.cc, up to the switch to the new tables.
unfoldable pub paging_init : BootCtx → Sections → FrameAllocator → Option PageTables
paging_init boot sections s = full_map boot sections (init_root s)

-- The switch: CR3 is the physical address of the root, and paging is on.
unfoldable pub paging_switch : BootCtx → PageTables → ControlRegisters → ControlRegisters
unfolding load_cr3 enable_paging
paging_switch boot p c = enable_paging (load_cr3 boot c p.pml4)

-- What the linker, the assembly and the statics give: the addresses of the GDT, the task state
-- segment and the IDT, the stubs, and what the statics hold before.
pub record Statics : Type 0 where
  pub table_addr : ℕ
  pub tss_addr : ℕ
  pub idt_addr : ℕ
  pub stub : ℕ → ℕ
  pub isr0xf0 : ℕ
  pub isr0xff : ℕ
  pub gdt : Gdt
  pub idt : ℕ → Gate
  pub allocator : FrameAllocator

-- What the steps that set the memory up leave: the allocator is that of the tables.
pub record MemorySetup : Type 0 where
  pub boot_ctx : BootCtx
  pub gdt : Gdt
  pub idt : Table × ((ℕ → ℕ) × (ℕ → Gate))
  pub tables : PageTables

-- The task state segment that `GDT::init` leaves, with the allocator behind `Frame::init`.
abbrev pub cleared_tss : Statics → FrameAllocator → Tss
cleared_tss statics s = record (gdt_init statics.table_addr statics.tss_addr statics.gdt).tss {
  allocator = s;
}

-- The calls of `_kernel_pre_setup` from gather to Paging::init, with the stacks that
-- TSS::init_stacks leaves.
abbrev pub setup_end : Responses → Statics → Tss → Option PageTables → Option MemorySetup
setup_end r statics tss none = none
setup_end r statics tss (some p) = some (record {
  boot_ctx = gather r;
  gdt = record (gdt_init statics.table_addr statics.tss_addr statics.gdt) { tss = tss };
  idt = idt_start statics.stub statics.isr0xf0 statics.isr0xff statics.idt_addr statics.idt;
  tables = p;
})

-- `_kernel_pre_setup` from gather to Paging::init. `none`: the memory map has no second entry, or an
-- index of full_map wraps.
unfoldable pub memory_setup : Responses → Sections → Statics → Option MemorySetup
memory_setup r sections statics = elim (init (gather r) statics.allocator) [
  | none ↦ none
  | some s ↦
      let tss = init_stacks (cleared_tss statics s) in
      setup_end r statics tss (paging_init (gather r) sections tss.allocator)
]

-- The end of `_kernel_pre_setup`: the timer, the test of a sleep, and the two delays, with the
-- interrupts that end each `hlt` of them; those that come between are left out. It gives the timer and
-- the time that the test shows.
unfoldable pub timer_setup :
    Timer → (during_test during_first during_second : List Bool) → Option (Timer × ℕ)
timer_setup t during_test during_first during_second = elim (timer_init t) [
  | none ↦ none
  | some t1 ↦ elim (sleep_ms 100 during_test t1) [
    | none ↦ none
    | some t2 ↦
        let elapsed = sub64 (get_uptime_ms t2) (get_uptime_ms t1) in
        elim (sleep_ms 200 during_first t2) [
          | none ↦ none
          | some t3 ↦ elim (sleep_ms 300 during_second t3) [
            | none ↦ none
            | some t4 ↦ some (t4, elapsed)
          ]
        ]
  ]
]
