-- ===== src/Sys/IoApic/Route.antt =====
-- `IOAPIC::set` of src/kernel/sys/ioapic.cc routes an interrupt, as `dump_entries` reads it.
use mathlib.Core.Path.{subst}
use slayer_os.Base.{
  ℕ, zero, suc, ◌+◌, ◌-◌, ◌*◌, ◌/◌, ◌%◌, ◌^◌, ◌≡◌, ◌≢◌, ◌⊎◌, ◌≤◌, ◌<◌, ◌∙◌, refl, sym, ap, Bool,
  true, false, ◌&&◌, Option, none, some, ◌==◌, leb, ltb, if◌then◌else◌, bit_or, bit_and, ◌<<<◌,
  ◌>>>◌, u8, u32, u64, sub32, arith,
}
use slayer_os.Base.Bits.{bit_or-zero, bit_or_disjoint, bit_and_low_bits}
use slayer_os.Boot.{BootCtx}
use slayer_os.Mem.Frames.{phys_to_virt}
use slayer_os.Sys.IoApic.{
  IoApic, Override, IoApics, Redirection, io_apic_read, io_apic_write, find_override, route_flags,
  find_apic, pin_of, set_route, decode,
}

-- 1 where the override asks for active low, and where it asks for a level.
abbrev pub low_active : Option Override → ℕ
low_active none = 0
low_active (some o) = if o.flags % 4 == 3 then 1 else 0

abbrev pub by_level : Option Override → ℕ
by_level none = 0
by_level (some o) = if o.flags / 4 % 4 == 3 then 1 else 0

-- The entry that `set` means to write.
abbrev pub routed : (vec lapic : ℕ) → Option Override → Redirection
routed vec lapic o = record {
  vector = vec;
  delivery_mode = 0;
  dest_mode = 0;
  polarity = low_active o;
  trigger = by_level o;
  mask = 0;
  dest = lapic;
}

low_active-le : (o : Option Override) → low_active o ≤ 1
low_active-le none = omega arith
low_active-le (some o) = ground arith

by_level-le : (o : Option Override) → by_level o ≤ 1
by_level-le none = omega arith
by_level-le (some o) = ground arith

or_disjoint : (k q r a : ℕ) → a ≡ q * 2 ^ k → r < 2 ^ k → bit_or a r ≡ q * 2 ^ k + r
or_disjoint k q r a e h = rw e (bit_or_disjoint k q r h)

low_byte : (v : ℕ) → v < 2 ^ 8 → bit_and v 0xff ≡ v
low_byte v h = bit_and_low_bits 8 v ∙ omega arith

-- Fields that do not overlap are put together by `|`.
join_fields :
    (l mode pol vec : ℕ)
    → mode ≤ 1
    → pol ≤ 1
    → vec < 2 ^ 8
    → bit_or (bit_or (bit_or (l * 2 ^ 56) (mode * 2 ^ 15)) (pol * 2 ^ 13)) vec
      ≡ l * 2 ^ 56 + mode * 2 ^ 15 + pol * 2 ^ 13 + vec
join_fields l mode pol vec h k j =
    let a : bit_or (l * 2 ^ 56) (mode * 2 ^ 15) ≡ (l * 2 ^ 41 + mode) * 2 ^ 15 =
      bit_or_disjoint 56 l (mode * 2 ^ 15) (omega arith) ∙ omega arith in
    let b : bit_or ((l * 2 ^ 41 + mode) * 2 ^ 15) (pol * 2 ^ 13)
        ≡ ((l * 2 ^ 41 + mode) * 4 + pol) * 2 ^ 13 =
      bit_or_disjoint 15 (l * 2 ^ 41 + mode) (pol * 2 ^ 13) (omega arith) ∙ omega arith in
    ap (λ x. bit_or (bit_or x (pol * 2 ^ 13)) vec) a
    ∙ ap (λ x. bit_or x vec) b
    ∙ bit_or_disjoint 13 ((l * 2 ^ 41 + mode) * 4 + pol) vec (omega arith)
    ∙ omega arith

route_flags-sum :
    (vec lapic : ℕ) (o : Option Override)
    → vec < 2 ^ 8
    → lapic < 2 ^ 8
    → route_flags vec 0 lapic o ≡ lapic * 2 ^ 56 + by_level o * 2 ^ 15 + low_active o * 2 ^ 13 + vec
unfolding route_flags
route_flags-sum vec lapic none h k =
    let top : u64 (lapic <<< 56) ≡ lapic * 2 ^ 56 = omega arith in
    rw (low_byte vec h, top, bit_or-zero (lapic * 2 ^ 56))
      (bit_or_disjoint 56 lapic vec (omega arith) ∙ omega arith)
route_flags-sum vec lapic (some o) h k =
    let top : u64 (lapic <<< 56) ≡ lapic * 2 ^ 56 = omega arith in
    let high : bit_and (o.flags >>> 2) 0b11 ≡ o.flags / 4 % 4 = bit_and_low_bits 2 (o.flags / 4) in
    let low : bit_and o.flags 0b11 ≡ o.flags % 4 = bit_and_low_bits 2 o.flags in
    bit_or-zero _
    ∙ rw (low_byte vec h, top, high, low)
        (join_fields lapic (by_level (some o)) (low_active (some o)) vec (by_level-le (some o))
          (low_active-le (some o)) h)

decode_fields :
    (l mode pol vec : ℕ)
    → mode ≤ 1
    → pol ≤ 1
    → vec < 2 ^ 8
    → l < 2 ^ 8
    → let flags = l * 2 ^ 56 + mode * 2 ^ 15 + pol * 2 ^ 13 + vec in
      decode (u32 flags) (u32 (flags >>> 32)) ≡ record {
        vector = vec;
        delivery_mode = 0;
        dest_mode = 0;
        polarity = pol;
        trigger = mode;
        mask = 0;
        dest = l;
      }
unfolding decode
decode_fields l mode pol vec h k j i =
    let low : u32 (l * 2 ^ 56 + mode * 2 ^ 15 + pol * 2 ^ 13 + vec)
        ≡ mode * 2 ^ 15 + pol * 2 ^ 13 + vec =
      omega arith in
    let high : u32 ((l * 2 ^ 56 + mode * 2 ^ 15 + pol * 2 ^ 13 + vec) >>> 32) ≡ l * 2 ^ 24 =
      omega arith in
    let w : ℕ = mode * 2 ^ 15 + pol * 2 ^ 13 + vec in
    let vector : u8 (bit_and w 0xff) ≡ vec = omega (arith, bit_and_low_bits 8 w) in
    let delivery_mode : u8 (bit_and (w >>> 8) 0x7) ≡ 0 =
      omega (arith, bit_and_low_bits 3 (w >>> 8)) in
    let dest_mode : u8 (bit_and (w >>> 11) 0x1) ≡ 0 =
      omega (arith, bit_and_low_bits 1 (w >>> 11)) in
    let polarity : u8 (bit_and (w >>> 13) 0x1) ≡ pol =
      omega (arith, bit_and_low_bits 1 (w >>> 13)) in
    let trigger : u8 (bit_and (w >>> 15) 0x1) ≡ mode =
      omega (arith, bit_and_low_bits 1 (w >>> 15)) in
    let mask : u8 (bit_and (w >>> 16) 0x1) ≡ 0 = omega (arith, bit_and_low_bits 1 (w >>> 16)) in
    let dest : u8 (bit_and ((l * 2 ^ 24) >>> 24) 0xff) ≡ l =
      omega (arith, bit_and_low_bits 8 ((l * 2 ^ 24) >>> 24)) in
    rw (low, high, vector, delivery_mode, dest_mode, polarity, trigger, mask, dest) refl

-- `dump_entries` reads off the two words that `set` writes what it means to write.
decode-routed :
    (vec lapic : ℕ) (o : Option Override)
    → vec < 2 ^ 8
    → lapic < 2 ^ 8
    → let flags = route_flags vec 0 lapic o in
      decode (u32 flags) (u32 (flags >>> 32)) ≡ routed vec lapic o
decode-routed vec lapic o h k =
    rw (route_flags-sum vec lapic o h k)
      (decode_fields lapic (by_level o) (low_active o) vec (by_level-le o) (low_active-le o) h k)

-- The test of `set` for the chip of a pin.
abbrev pub covers : BootCtx → IoApics → ℕ → IoApic → Bool
covers boot s pin a =
    leb a.gsi_base pin
    && ltb pin (u32 (a.gsi_base + ((s.chips (phys_to_virt boot a.address)).registers 1 >>> 16)))

-- Only which register is selected may differ.
record SameRegisters (s s' : IoApics) : Type 0 where
  registers : (x reg : ℕ) → (s'.chips x).registers reg ≡ (s.chips x).registers reg
  apics : s'.apics ≡ s.apics

SameRegisters-trans :
    {s s' s'' : IoApics} → SameRegisters s s' → SameRegisters s' s'' → SameRegisters s s''
SameRegisters-trans a b = record {
  registers = λ x r. b.registers x r ∙ a.registers x r;
  apics = b.apics ∙ a.apics;
}

read-SameRegisters :
    (boot : BootCtx) (s : IoApics) (base reg : ℕ) → SameRegisters s (io_apic_read boot s base reg).1
unfolding io_apic_read
read-SameRegisters boot s base reg = record { registers = λ x r. ground arith; apics = refl }

covers-same :
    (boot : BootCtx) (s s' : IoApics) (pin : ℕ) (a : IoApic)
    → SameRegisters s s'
    → covers boot s' pin a ≡ covers boot s pin a
covers-same boot s s' pin a same =
    ap (λ max. leb a.gsi_base pin && ltb pin (u32 (a.gsi_base + (max >>> 16))))
      (same.registers (phys_to_virt boot a.address) 1)

-- The search stops at the first chip that has the pin.
find_apic_lem :
    (boot : BootCtx) (pin n i j : ℕ) (acc : Option IoApic) (s : IoApics)
    → j < n
    → ((k : ℕ) → k < j → covers boot s pin (s.apics (i + k)) ≡ false)
    → covers boot s pin (s.apics (i + j)) ≡ true
    → (s' : IoApics) × (find_apic boot pin n i acc s ≡ (some (s.apics (i + j)), s'))
      × SameRegisters s s'
unfolding find_apic
find_apic_lem boot pin zero i j acc s inside others found = absurd (omega arith)
find_apic_lem boot pin (suc n) i zero acc s inside others found =
    let s1 = (io_apic_read boot s (s.apics i).address 1).1 in
    let at : i + 0 ≡ i = omega arith in
    let found' = subst (λ k. covers boot s pin (s.apics k) ≡ true) at found in
    (
      s1,
      rw found' (ap (λ k. (some (s.apics k), s1)) (sym at)),
      read-SameRegisters boot s (s.apics i).address 1,
    )
find_apic_lem boot pin (suc n) i (suc j) acc s inside others found =
    let s1 = (io_apic_read boot s (s.apics i).address 1).1 in
    let same = read-SameRegisters boot s (s.apics i).address 1 in
    let at : i + 0 ≡ i = omega arith in
    let first = subst (λ k. covers boot s pin (s.apics k) ≡ false) at (others 0 (omega arith)) in
    let on = λ (k : ℕ). ap (λ q. covers boot s pin (s.apics q)) (further i k) in
    let (s', run, same') =
      find_apic_lem boot pin n (i + 1) j (some (s.apics i)) s1 (omega arith)
        (λ k h.
          covers-same boot s s1 pin (s.apics (i + 1 + k)) same
          ∙ on k
          ∙ others (suc k) (omega arith))
        (covers-same boot s s1 pin (s.apics (i + 1 + j)) same ∙ on j ∙ found) in
    (
      s',
      rw first (run ∙ ap (λ k. (some (s.apics k), s')) (further i j)),
      SameRegisters-trans same same',
    )
  where
    further : (i k : ℕ) → i + 1 + k ≡ i + suc k
    further i k = omega arith

-- The chip that `set` writes to, and the words that it leaves there.
two_words :
    (boot : BootCtx) (s : IoApics) (base reg low high : ℕ)
    → let s' = io_apic_write boot (io_apic_write boot s base reg low) base (reg + 1) high in
      let registers = (s'.chips (phys_to_virt boot base)).registers in
      (registers reg ≡ low)
      × (registers (reg + 1) ≡ high)
      × ((x r : ℕ)
          → (x ≢ phys_to_virt boot base) ⊎ ((r ≢ reg) × (r ≢ reg + 1))
          → (s'.chips x).registers r ≡ (s.chips x).registers r)
unfolding io_apic_write
two_words boot s base reg low high = (ground arith, ground arith, λ x r ne. ground arith)

covers→base :
    (boot : BootCtx) (s : IoApics) (pin : ℕ) (a : IoApic)
    → covers boot s pin a ≡ true
    → a.gsi_base ≤ pin
covers→base boot s pin a h = ground arith

pin-small : (irq : ℕ) (o : Option Override) → irq < 2 ^ 8 → pin_of irq o < 2 ^ 8
pin-small irq none h = h
pin-small irq (some o) h = omega arith

routed_by :
    (boot : BootCtx) (s s1 : IoApics) (vec lapic entry : ℕ) (a : IoApic) (o : Option Override)
    → vec < 2 ^ 8
    → lapic < 2 ^ 8
    → SameRegisters s s1
    → (s' : IoApics)
    → s'
      ≡ io_apic_write boot
          (io_apic_write boot s1 a.address entry (u32 (route_flags vec 0 lapic o)))
          a.address
          (entry + 1)
          (u32 (route_flags vec 0 lapic o >>> 32))
    → let registers = (s'.chips (phys_to_virt boot a.address)).registers in
      (decode (registers entry) (registers (entry + 1)) ≡ routed vec lapic o)
      × ((x r : ℕ)
          → (x ≢ phys_to_virt boot a.address) ⊎ ((r ≢ entry) × (r ≢ entry + 1))
          → (s'.chips x).registers r ≡ (s.chips x).registers r)
routed_by boot s s1 vec lapic entry a o h i same s' written =
    let flags : ℕ = route_flags vec 0 lapic o in
    let (low, high, rest) = two_words boot s1 a.address entry (u32 flags) (u32 (flags >>> 32)) in
    rw written
      (rw (low, high) (decode-routed vec lapic o h i), (λ x r ne. rest x r ne ∙ same.registers x r))

-- The last lines of `set`, for what its search has found.
abbrev last_lines : BootCtx → (pin c_flags : ℕ) → Option IoApic × IoApics → IoApics
last_lines boot pin c_flags (found, s1) = elim found [
  | none ↦ s1
  | some a ↦
      let irqreg = u32 (u32 (sub32 pin a.gsi_base * 2) + 0x10) in
      io_apic_write boot (io_apic_write boot s1 a.address irqreg (u32 c_flags)) a.address
        (u32 (irqreg + 1)) (u32 (c_flags >>> 32))
]

-- The two words that `set` writes, once the chip is found.
set_route-writes :
    (boot : BootCtx) (s s1 : IoApics) (vec irq flags lapic entry : ℕ) (a : IoApic)
    → let o = find_override s.iso irq s.iso_ent 0 in
      let c_flags = route_flags vec flags lapic o in
      find_apic boot (pin_of irq o) s.apic_ent 0 none s ≡ (some a, s1)
      → u32 (u32 (sub32 (pin_of irq o) a.gsi_base * 2) + 0x10) ≡ entry
      → u32 (entry + 1) ≡ entry + 1
      → set_route boot s vec irq flags lapic
        ≡ io_apic_write boot
            (io_apic_write boot s1 a.address entry (u32 c_flags))
            a.address
            (entry + 1)
            (u32 (c_flags >>> 32))
unfolding set_route
set_route-writes boot s s1 vec irq flags lapic entry a run reg reg' =
    let o : Option Override = find_override s.iso irq s.iso_ent 0 in
    let c_flags : ℕ = route_flags vec flags lapic o in
    let write = λ (r r' : ℕ).
      io_apic_write boot (io_apic_write boot s1 a.address r (u32 c_flags)) a.address r'
        (u32 (c_flags >>> 32)) in
    ap (λ found. last_lines boot (pin_of irq o) c_flags found) run
    ∙ ap (λ r. write r (u32 (r + 1))) reg
    ∙ ap (λ r. write entry r) reg'

-- Where the `j`-th chip is the first one that has the pin of an interrupt, by the test of the code,
-- `set` without flags writes the entry of that pin: `dump_entries` reads off it the vector, the
-- local APIC, and the polarity and trigger of the override, where there is one. No other register
-- of any chip changes.
pub set_route_lem :
    (boot : BootCtx) (s : IoApics) (vec irq lapic j : ℕ)
    → vec < 2 ^ 8
    → irq < 2 ^ 8
    → lapic < 2 ^ 8
    → j < s.apic_ent
    → let o = find_override s.iso irq s.iso_ent 0 in
      let a = s.apics j in
      let virt = phys_to_virt boot a.address in
      let entry = 0x10 + (pin_of irq o - a.gsi_base) * 2 in
      let s' = set_route boot s vec irq 0 lapic in
      let registers = (s'.chips virt).registers in
      ((k : ℕ) → k < j → covers boot s (pin_of irq o) (s.apics k) ≡ false)
      → covers boot s (pin_of irq o) a ≡ true
      → (decode (registers entry) (registers (entry + 1)) ≡ routed vec lapic o)
        × ((x r : ℕ)
            → (x ≢ virt) ⊎ ((r ≢ entry) × (r ≢ entry + 1))
            → (s'.chips x).registers r ≡ (s.chips x).registers r)
set_route_lem boot s vec irq lapic j h k i inside others found =
    let o : Option Override = find_override s.iso irq s.iso_ent 0 in
    let pin : ℕ = pin_of irq o in
    let a = s.apics j in
    let entry : ℕ = 0x10 + (pin - a.gsi_base) * 2 in
    let base = covers→base boot s pin a found in
    let small = pin-small irq o k in
    let reg : u32 (u32 (sub32 pin a.gsi_base * 2) + 0x10) ≡ entry = omega arith in
    let reg' : u32 (entry + 1) ≡ entry + 1 = omega arith in
    let from_zero : (q : ℕ) → s.apics (0 + q) ≡ s.apics q = λ q. ap s.apics (omega arith) in
    let (s1, run, same) =
      find_apic_lem boot pin s.apic_ent 0 j none s inside
        (λ q less. ap (λ c. covers boot s pin c) (from_zero q) ∙ others q less)
        (ap (λ c. covers boot s pin c) (from_zero j) ∙ found) in
    let written =
      set_route-writes boot s s1 vec irq 0 lapic entry a
        (run ∙ ap (λ c. (some c, s1)) (from_zero j)) reg reg' in
    routed_by boot s s1 vec lapic entry a o h i same _ written
