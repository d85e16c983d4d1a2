-- ===== src/Cpu/Irq/Tests.antt =====
-- The timer's interrupt of src/kernel/cpu/interrupts/irq.cc, on a chip with 24 pins.
use slayer_os.Base.{◌+◌, ◌-◌, ◌*◌, ◌≡◌, refl, arith, false, some, u64, [], ◌==◌, if◌then◌else◌}
use slayer_os.Boot.{BootCtx}
use slayer_os.Mem.Frames.{phys_to_virt}
use slayer_os.Mem.Paging.{PageTables}
use slayer_os.Cpu.Idt.{Gate}
use slayer_os.Cpu.Idt.Gates.{LeadsTo}
use slayer_os.Cpu.Pit.{tick}
use slayer_os.Cpu.Irq.{Irqs, eoi, timer_handle, irq_common, irq_init}
use slayer_os.Cpu.Irq.Init.{irq_init_lem}
use slayer_os.Sys.IoApic.{IoApics, find_override, pin_of, decode}
use slayer_os.Sys.IoApic.Route.{routed}

abbrev boot : BootCtx
boot = record {
  name = 0;
  version = 0;
  memmap_entries = [];
  hhdm_addr = 0xffff_8000_0000_0000;
  kern_address_virt = 0xffff_ffff_8000_0000;
  kern_address_phys = 0x20_0000;
  fb_info = 0;
  kernel_file = 0;
  rsdp_addr = 0;
}

abbrev tables : PageTables
tables = record {
  allocator = record {
    frames = λ _. false;
    nframes = 16;
    latest_frame = 0;
    available_frames = 16;
    base_addr = 0xffff_8000_0010_0000;
    memory = λ _. 0;
  };
  pml4 = 0xffff_8000_0010_0000;
  flushes = 0;
}

abbrev zero_gate : Gate
zero_gate = record {
  offset_low = 0;
  selector = 0;
  ist = 0;
  type_attr = 0;
  offset_mid = 0;
  offset_high = 0;
  reserved = 0;
}

abbrev irqs : Irqs
irqs = record {
  idt = λ _. zero_gate;
  isr_handlers = λ i. 0x1000 + i * 16;
  irq_handlers = λ _. 0;
  timer_interrupt_count = 0;
  pit = record { ticks_since_boot = 0; timer_frequency = 1000; written = [] };
  eois = 0;
}

-- IRQ 0 is overridden to pin 2.
abbrev chips : IoApics
chips = record {
  pages = tables;
  chips = λ _. record { selected = 0; registers = λ reg. if reg == 1 then 0x17_0011 else 0 };
  apics = λ _. record { address = 0xfec0_0000; gsi_base = 0 };
  iso = λ _. record { source = 0; gsi = 2; flags = 0 };
  apic_ent = 1;
  iso_ent = 1;
}

irq_init_lem_example :
    let o = find_override chips.iso 0 1 0 in
    let entry = 0x10 + (pin_of 0 o - 0) * 2 in
    let (s', io') = irq_init boot 0x7000 1 irqs chips in
    let registers = (io'.chips (phys_to_virt boot 0xfec0_0000)).registers in
    (decode (registers entry) (registers (entry + 1)) ≡ routed 0x20 1 o)
    × LeadsTo (s'.idt 0x20) (irqs.isr_handlers 0x20) 2
    × (irq_common (λ x. x) eoi (λ _ _. timer_handle) 0x20 s'
        ≡ some
            (record s' { timer_interrupt_count = u64 (0 + 1); pit = tick irqs.pit; eois = 0 + 1 }))
unfolding find_override
irq_init_lem_example =
    irq_init_lem boot 0x7000 1 irqs chips (λ _. timer_handle) 0 (omega arith) (omega arith)
      (λ e. omega arith) (λ x. refl) (omega arith) (λ k h. absurd (omega arith)) refl
