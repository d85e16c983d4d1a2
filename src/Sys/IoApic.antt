-- ===== src/Sys/IoApic.antt =====
-- src/kernel/sys/ioapic.cc and src/include/sys/ioapic.h: the I/O APICs.
-- A chip is a record under the address at which the kernel sees it. The table that uACPI finds is an
-- argument, the view of its bytes through the structures of uACPI's acpi.h included.
-- The arrays have no end here; in the code they have 24 cells, which no write is tested against.
pub mod Table
pub mod Route
mod Tests
use slayer_os.Base.{
  ℕ, zero, suc, ◌+◌, ◌*◌, ◌==◌, Bool, true, false, not, ◌&&◌, ◌||◌, Option, none, some, List, [],
  ◌∷◌, ◌++◌, ltb, leb, if◌then◌else◌, update, bit_and, bit_or, u8, u32, u64, sub32, sub64, ◌<<<◌,
  ◌>>>◌,
}
use slayer_os.Boot.{BootCtx}
use slayer_os.Mem.Frames.{phys_to_virt}
use slayer_os.Mem.Paging.{PageTables, page_present, page_write, map_page}

-- The fields of `acpi_madt_ioapic` and `acpi_madt_interrupt_source_override` that the code reads.
pub record IoApic : Type 0 where
  pub address : ℕ
  pub gsi_base : ℕ

pub record Override : Type 0 where
  pub source : ℕ
  pub gsi : ℕ
  pub flags : ℕ

-- `acpi_madt`: the address of its `entries`, its length and size, and what stands at an address.
pub record Madt : Type 0 where
  pub entries : ℕ
  pub length : ℕ
  pub size : ℕ
  pub io_apic_type : ℕ
  pub override_type : ℕ
  pub type_at : ℕ → ℕ
  pub length_at : ℕ → ℕ
  pub io_apic_at : ℕ → IoApic
  pub override_at : ℕ → Override

-- The register that the first word of a chip selects, and the registers.
pub record Chip : Type 0 where
  pub selected : ℕ
  pub registers : ℕ → ℕ

pub record IoApics : Type 0 where
  pub pages : PageTables
  pub chips : ℕ → Chip
  pub apics : ℕ → IoApic
  pub iso : ℕ → Override
  pub apic_ent : ℕ
  pub iso_ent : ℕ

-- `IOAPIC::write`
unfoldable pub io_apic_write : BootCtx → IoApics → (base reg value : ℕ) → IoApics
io_apic_write boot s base reg value =
    let virt = phys_to_virt boot base in
    let chip = s.chips virt in
    record s {
      chips =
          update s.chips virt
            (record { selected = reg; registers = update chip.registers reg value });
    }

-- `IOAPIC::read`, with the value that it returns.
unfoldable pub io_apic_read : BootCtx → IoApics → (base reg : ℕ) → ℕ × IoApics
io_apic_read boot s base reg =
    let virt = phys_to_virt boot base in
    let chip = s.chips virt in
    (
      chip.registers reg,
      record s {
        chips = update s.chips virt (record { selected = reg; registers = chip.registers });
      },
    )

-- The switch of the loop of `init`.
unfoldable pub take_entry : BootCtx → Madt → ℕ → IoApics → IoApics
take_entry boot m current s =
    if m.type_at current == m.io_apic_type
    then (let apic = m.io_apic_at current in
        record s {
          pages =
              map_page boot s.pages apic.address (phys_to_virt boot apic.address)
                (bit_or page_present page_write);
          apics = update s.apics s.apic_ent apic;
          apic_ent = u8 (s.apic_ent + 1);
        })
    else (if m.type_at current == m.override_type
        then record s {
          iso = update s.iso s.iso_ent (m.override_at current);
          iso_ent = u8 (s.iso_ent + 1);
        }
        else s)

-- The loop over the table's entries, on fuel. `none`: the fuel ran out, on an entry of length 0.
unfoldable pub read_entries : BootCtx → Madt → ℕ → ℕ → IoApics → Option IoApics
unfolding take_entry
read_entries boot m zero current s = none
read_entries boot m (suc n) current s =
    let rest =
      read_entries boot m n (u64 (current + m.length_at current)) (take_entry boot m current s) in
    if leb (sub64 (m.entries + m.length) m.size) current then some s else rest

-- The last loop of `init`, with the rounds left.
unfoldable pub read_versions : BootCtx → ℕ → ℕ → IoApics → IoApics
unfolding io_apic_read
read_versions boot zero i s = s
read_versions boot (suc n) i s =
    let (_, s1) = io_apic_read boot s (s.apics i).address 1 in
    let (_, s2) = io_apic_read boot s1 (s1.apics i).address 0 in read_versions boot n (i + 1) s2

-- `IOAPIC::init` on the table that uACPI finds, with a round for each of its bytes.
unfoldable pub io_apic_init : BootCtx → Madt → IoApics → Option IoApics
unfolding read_entries read_versions
io_apic_init boot m s =
    elim (read_entries boot m (suc m.length) m.entries (record s { apic_ent = 0; iso_ent = 0 })) [
      | none ↦ none
      | some s' ↦ some (read_versions boot s'.apic_ent 0 s')
    ]

-- The search of `set` for an override, with the rounds left.
unfoldable pub find_override : (ℕ → Override) → ℕ → ℕ → ℕ → Option Override
find_override iso irq zero i = none
find_override iso irq (suc n) i =
    if (iso i).source == irq then some (iso i) else find_override iso irq n (i + 1)

-- `c_flags` of `set`.
unfoldable pub route_flags : (vec flags lapic : ℕ) → Option Override → ℕ
route_flags vec flags lapic none = bit_or (bit_or (u64 (lapic <<< 56)) flags) (bit_and vec 0xff)
route_flags vec flags lapic (some ciso) =
    let pol = if bit_and ciso.flags 0b11 == 0b11 then 1 else 0 in
    let mode = if bit_and (ciso.flags >>> 2) 0b11 == 0b11 then 1 else 0 in
    bit_or
      (bit_or (bit_or (bit_or (u64 (lapic <<< 56)) (mode <<< 15)) (pol <<< 13)) (bit_and vec 0xff))
      flags

-- The search of `set` for the chip of a pin, with the rounds left: the chip that it stops at, which
-- is `apic` where no round is left.
unfoldable pub find_apic :
    BootCtx → (actual_irq : ℕ) → ℕ → ℕ → Option IoApic → IoApics → Option IoApic × IoApics
unfolding io_apic_read
find_apic boot actual_irq zero i apic s = (apic, s)
find_apic boot actual_irq (suc n) i apic s =
    let next = s.apics i in
    let (ver, s') = io_apic_read boot s next.address 1 in
    let max = ver >>> 16 in
    let rest = find_apic boot actual_irq n (i + 1) (some next) s' in
    if leb next.gsi_base actual_irq && ltb actual_irq (u32 (next.gsi_base + max))
    then (some next, s')
    else rest

-- The GSI that `set` routes, which the code keeps in 8 bits.
abbrev pub pin_of : ℕ → Option Override → ℕ
pin_of irq none = irq
pin_of irq (some ciso) = u8 ciso.gsi

-- `IOAPIC::set`
unfoldable pub set_route : BootCtx → IoApics → (vec irq flags lapic : ℕ) → IoApics
unfolding find_override route_flags find_apic io_apic_write
set_route boot s vec irq flags lapic =
    let ciso = find_override s.iso irq s.iso_ent 0 in
    let actual_irq = pin_of irq ciso in
    let c_flags = route_flags vec flags lapic ciso in
    let (found, s') = find_apic boot actual_irq s.apic_ent 0 none s in
    elim found [
      | none ↦ s'
      | some apic ↦
          let irqreg = u32 (u32 (sub32 actual_irq apic.gsi_base * 2) + 0x10) in
          io_apic_write boot (io_apic_write boot s' apic.address irqreg (u32 c_flags)) apic.address
            (u32 (irqreg + 1)) (u32 (c_flags >>> 32))
    ]

-- The fields of an entry that `dump_entries` prints.
pub record Redirection : Type 0 where
  pub vector : ℕ
  pub delivery_mode : ℕ
  pub dest_mode : ℕ
  pub polarity : ℕ
  pub trigger : ℕ
  pub mask : ℕ
  pub dest : ℕ

unfoldable pub decode : (low high : ℕ) → Redirection
decode low high = record {
  vector = u8 (bit_and low 0xff);
  delivery_mode = u8 (bit_and (low >>> 8) 0x7);
  dest_mode = u8 (bit_and (low >>> 11) 0x1);
  polarity = u8 (bit_and (low >>> 13) 0x1);
  trigger = u8 (bit_and (low >>> 15) 0x1);
  mask = u8 (bit_and (low >>> 16) 0x1);
  dest = u8 (bit_and (high >>> 24) 0xff);
}

-- The inner loop of `dump_entries`, with the rounds left: the entries that it prints.
unfoldable pub dump_chip : BootCtx → IoApic → ℕ → ℕ → IoApics → List (ℕ × Redirection) × IoApics
unfolding io_apic_read decode
dump_chip boot apic zero entry s = ([], s)
dump_chip boot apic (suc n) entry s =
    let reg = u32 (u32 (entry * 2) + 0x10) in
    let (low, s1) = io_apic_read boot s apic.address reg in
    let (high, s2) = io_apic_read boot s1 apic.address (u32 (reg + 1)) in
    let r = decode low high in
    let (lines, s3) = dump_chip boot apic n (entry + 1) s2 in
    (if not (r.vector == 0) || (r.mask == 0) then (entry, r) ∷ lines else lines, s3)

-- The outer loop, with the rounds left: the lines of each chip.
unfoldable pub dump_chips : BootCtx → ℕ → ℕ → IoApics → List (List (ℕ × Redirection)) × IoApics
unfolding io_apic_read dump_chip
dump_chips boot zero i s = ([], s)
dump_chips boot (suc n) i s =
    let apic = s.apics i in
    let (ver, s1) = io_apic_read boot s apic.address 1 in
    let max = bit_and (ver >>> 16) 0xff in
    let (lines, s2) = dump_chip boot apic (max + 1) 0 s1 in
    let (rest, s3) = dump_chips boot n (i + 1) s2 in (lines ∷ rest, s3)

-- `IOAPIC::dump_entries`
unfoldable pub dump_entries : BootCtx → IoApics → List (List (ℕ × Redirection)) × IoApics
unfolding dump_chips
dump_entries boot s = dump_chips boot s.apic_ent 0 s
