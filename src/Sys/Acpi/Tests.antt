-- ===== src/Sys/Acpi/Tests.antt =====
-- The handlers of src/kernel/sys/acpi_kapi.cc for the IRQ 9.
use slayer_os.Base.{some, ◌+◌, ℕ, ◌≡◌, refl, false, true, [], ◌∷◌, ◌++◌, arith}
use slayer_os.Cpu.Idt.{Gate}
use slayer_os.Cpu.Idt.Gates.{LeadsTo}
use slayer_os.Cpu.Irq.{Irqs}
use slayer_os.Sys.Acpi.{System, null_handle, ok, already_exists, install, uninstall, interrupt}
use slayer_os.Sys.Acpi.Handlers.{acknowledged, interrupt-install, uninstall-install}
use slayer_os.Arch.Ports.{PortIo}
use slayer_os.Mem.Frames.{FrameAllocator}
use slayer_os.Sys.Acpi.Handles.{Kapi, PciConfig, Locks}

abbrev zero_gate : Gate
zero_gate = record {
  offset_low = 0;
  selector = 0;
  ist = 0;
  type_attr = 0;
  offset_mid = 0;
  offset_high = 0;
  reserved = 0;
}

abbrev irqs : Irqs
irqs = record {
  idt = λ _. zero_gate;
  isr_handlers = λ i. 0x1000;
  irq_handlers = λ _. 0;
  timer_interrupt_count = 0;
  pit = record { ticks_since_boot = 0; timer_frequency = 1000; written = [] };
  eois = 0;
}

abbrev system : System
system = record {
  irqs = irqs;
  uacpi_handlers = λ _. record { handler = 0; ctx = 0; irq = 0; installed = false };
  calls = [];
}

abbrev ignore : ℕ → System → System
ignore _ s = s

interrupt-install_example :
    let (status, handle, after) = install 0x5000 system 9 0x8000 77 true in
    (status ≡ ok)
    × (interrupt 0x5000 ignore (32 + 9) after
        ≡ some (acknowledged (record after { calls = [] ++ ((0x8000, 77) ∷ []) })))
    × (after.irqs.idt (32 + 9) ≡ irqs.idt (32 + 9))
    × LeadsTo (after.irqs.idt 9) (irqs.isr_handlers 9) 2
interrupt-install_example =
    interrupt-install 0x5000 ignore system 9 0x8000 77 (omega arith) (λ e. omega arith)
      (λ e. omega arith) refl (omega arith)

uninstall-install_example :
    let (_, handle, after) = install 0x5000 system 9 0x8000 77 true in
    let (status, gone) = uninstall after 0x8000 handle in
    (install 0x5000 after 9 0x8800 78 true ≡ (already_exists, null_handle, after))
    × (status ≡ ok)
    × (interrupt 0x5000 ignore (32 + 9) gone ≡ some (acknowledged gone))
    × ((gone.uacpi_handlers 9).installed ≡ false)
uninstall-install_example =
    uninstall-install 0x5000 ignore system 9 0x8000 77 (omega arith) (λ e. omega arith)
      (λ e. omega arith) refl 0x8800 78 (λ e. omega arith)

-- The heap of no page over 16 frames.
abbrev pool : FrameAllocator
pool = record {
  frames = λ _. false;
  nframes = 16;
  latest_frame = 0;
  available_frames = 16;
  base_addr = 0x10_0000;
  memory = λ _. 7;
}

abbrev kapi : Kapi
kapi = record {
  heap = record { pages = []; allocator = pool };
  ios = λ _. record { base = 0; len = 0 };
  pcis = λ _. record { bus = 0; device = 0; function = 0 };
}

abbrev no_ports : PortIo Unit
no_ports = record {
  inb = λ port w. (0xff, w);
  inw = λ port w. (0xffff, w);
  ind = λ port w. (0xffff_ffff, w);
  outb = λ port c w. w;
  outw = λ port c w. w;
  outd = λ port c w. w;
}

abbrev no_pci : PciConfig Unit
no_pci = record {
  read8 = λ b d f o w. (0xff, w);
  read16 = λ b d f o w. (0xffff, w);
  read32 = λ b d f o w. (0xffff_ffff, w);
  write8 = λ b d f o v w. w;
  write16 = λ b d f o v w. w;
  write32 = λ b d f o v w. w;
}

abbrev no_locks : Locks Unit
no_locks = record { create = λ w. (1, w); lock = λ h w. w; unlock = λ h w. w }
