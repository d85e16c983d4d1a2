-- ===== src/Sys/IoApic/Tests.antt =====
-- Two chips of src/kernel/sys/ioapic.cc, that a table of the firmware names, and the theorems about
-- them.
use slayer_os.Base.{
  ℕ, ◌+◌, ◌-◌, ◌*◌, ◌≡◌, ◌≢◌, ◌⊎◌, refl, false, some, List, [], ◌∷◌, ◌==◌, if◌then◌else◌, arith,
}
use slayer_os.Base.Cells.{cells}
use slayer_os.Boot.{BootCtx}
use slayer_os.Mem.Frames.{phys_to_virt}
use slayer_os.Mem.Paging.{PageTables}
use slayer_os.Sys.IoApic.{
  IoApic, Override, Madt, IoApics, find_override, pin_of, decode, set_route, io_apic_init,
}
use slayer_os.Sys.IoApic.Table.{
  Entry, chip_entry, override_entry, other_entry, IsMadt, Holds, map_chips, io_apic_init-Collected,
}
use slayer_os.Sys.IoApic.Route.{routed, set_route_lem}

abbrev boot : BootCtx
boot = record {
  name = 0;
  version = 0;
  memmap_entries = [];
  hhdm_addr = 0xffff_8000_0000_0000;
  kern_address_virt = 0xffff_ffff_8000_0000;
  kern_address_phys = 0x20_0000;
  fb_info = 0;
  kernel_file = 0;
  rsdp_addr = 0;
}

abbrev tables : PageTables
tables = record {
  allocator = record {
    frames = λ _. false;
    nframes = 16;
    latest_frame = 0;
    available_frames = 16;
    base_addr = 0xffff_8000_0010_0000;
    memory = λ _. 0;
  };
  pml4 = 0xffff_8000_0010_0000;
  flushes = 0;
}

abbrev first_chip : IoApic
first_chip = record { address = 0xfec0_0000; gsi_base = 0 }

abbrev second_chip : IoApic
second_chip = record { address = 0xfec1_0000; gsi_base = 24 }

-- The timer's interrupt is on pin 2, active low and by level.
abbrev timer_override : Override
timer_override = record { source = 0; gsi = 2; flags = 0xf }

-- A local APIC of 8 bytes, the two chips of 12 bytes, and the override of 10.
abbrev madt : Madt
madt = record {
  entries = 0x1000;
  length = 86;
  size = 44;
  io_apic_type = 1;
  override_type = 2;
  type_at = λ a. if a == 0x1000 then 0 else (if a == 0x1020 then 2 else 1);
  length_at = λ a. if a == 0x1000 then 8 else (if a == 0x1020 then 10 else 12);
  io_apic_at = λ a. if a == 0x1008 then first_chip else second_chip;
  override_at = λ _. timer_override;
}

abbrev listed : List Entry
listed =
    other_entry
    ∷ chip_entry first_chip
    ∷ chip_entry second_chip
    ∷ override_entry timer_override
    ∷ []

madt-Holds : Holds madt 0x1000 listed
madt-Holds = (
  omega arith,
  ((λ e. omega arith), (λ e. omega arith)),
  omega arith,
  omega arith,
  (
    omega arith,
    (refl, refl),
    omega arith,
    omega arith,
    (
      omega arith,
      (refl, refl),
      omega arith,
      omega arith,
      (omega arith, ((λ e. omega arith), refl, refl), omega arith, omega arith, omega arith),
    ),
  ),
)

madt-IsMadt : IsMadt madt
madt-IsMadt = record { size = omega arith; in_space = omega arith }

abbrev start : IoApics
start = record {
  pages = tables;
  chips = λ _. record { selected = 0; registers = λ reg. if reg == 1 then 0x17_0011 else 0 };
  apics = λ _. second_chip;
  iso = λ _. timer_override;
  apic_ent = 0;
  iso_ent = 0;
}

io_apic_init-Collected_example :
    (s' : IoApics) × (io_apic_init boot madt start ≡ some s')
    × (cells s'.apics 0 s'.apic_ent ≡ first_chip ∷ second_chip ∷ [])
    × (cells s'.iso 0 s'.iso_ent ≡ timer_override ∷ [])
    × (s'.pages ≡ map_chips boot (first_chip ∷ second_chip ∷ []) tables)
io_apic_init-Collected_example =
    io_apic_init-Collected boot madt start listed madt-IsMadt madt-Holds (omega arith) (omega arith)

-- Both chips, as `init` leaves them.
abbrev ready : IoApics
ready = record start {
  apics = λ i. if i == 0 then first_chip else second_chip;
  apic_ent = 2;
  iso_ent = 1;
}

-- IRQ 0 goes to pin 2, as vector 0x20 of the local APIC 1.
set_route_lem_example :
    let o = find_override ready.iso 0 1 0 in
    let virt = phys_to_virt boot 0xfec0_0000 in
    let entry = 0x10 + (pin_of 0 o - 0) * 2 in
    let s' = set_route boot ready 0x20 0 0 1 in
    let registers = (s'.chips virt).registers in
    (decode (registers entry) (registers (entry + 1)) ≡ routed 0x20 1 o)
    × ((x r : ℕ)
        → (x ≢ virt) ⊎ ((r ≢ entry) × (r ≢ entry + 1))
        → (s'.chips x).registers r ≡ (ready.chips x).registers r)
unfolding find_override
set_route_lem_example =
    set_route_lem boot ready 0x20 0 1 0 (omega arith) (omega arith) (omega arith) (omega arith)
      (λ k h. absurd (omega arith)) refl
