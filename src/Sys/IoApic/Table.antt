-- ===== src/Sys/IoApic/Table.antt =====
-- `IOAPIC::init` of src/kernel/sys/ioapic.cc reads the table of the firmware.
use mathlib.Core.List.{append-nil, append_assoc}
use slayer_os.Base.{
  ℕ, zero, suc, ◌+◌, ◌-◌, ◌^◌, ◌≡◌, ◌≢◌, ◌≤◌, ◌<◌, ◌∙◌, refl, sym, ap, true, false, some, List, [],
  ◌∷◌, ◌++◌, leb, update, bit_or, u8, u64, sub64, arith, length, eq→==, ne→==,
}
use slayer_os.Base.Cells.{cells, cells-snoc}
use slayer_os.Boot.{BootCtx}
use slayer_os.Mem.Frames.{phys_to_virt}
use slayer_os.Mem.Paging.{PageTables, page_present, page_write, map_page}
use slayer_os.Sys.IoApic.{
  IoApic, Override, Madt, IoApics, io_apic_read, take_entry, read_entries, read_versions,
  io_apic_init,
}

-- What an entry of the table says.
pub data Entry : Type 0 where
  chip_entry : IoApic → Entry
  override_entry : Override → Entry
  other_entry : Entry

abbrev pub end_of : Madt → ℕ
end_of m = m.entries + (m.length - m.size)

-- The entry that stands at an address.
abbrev pub Stands : Madt → ℕ → Entry → Type 0
Stands m a (chip_entry apic) = (m.type_at a ≡ m.io_apic_type) × (m.io_apic_at a ≡ apic)
Stands m a (override_entry o) =
    (m.type_at a ≢ m.io_apic_type) × (m.type_at a ≡ m.override_type) × (m.override_at a ≡ o)
Stands m a other_entry = (m.type_at a ≢ m.io_apic_type) × (m.type_at a ≢ m.override_type)

-- The entries from an address to the end of the table, one behind the other.
abbrev pub Holds : Madt → ℕ → List Entry → Type 0
Holds m a [] = end_of m ≤ a
Holds m a (e ∷ es) =
    (a < end_of m)
    × Stands m a e
    × (0 < m.length_at a)
    × (m.length_at a < 2 ^ 8)
    × Holds m (a + m.length_at a) es

abbrev pub chips_of : List Entry → List IoApic
chips_of [] = []
chips_of (chip_entry apic ∷ es) = apic ∷ chips_of es
chips_of (_ ∷ es) = chips_of es

abbrev pub overrides_of : List Entry → List Override
overrides_of [] = []
overrides_of (override_entry o ∷ es) = o ∷ overrides_of es
overrides_of (_ ∷ es) = overrides_of es

-- The registers of each chip, mapped where the kernel sees physical memory.
abbrev pub map_chips : BootCtx → List IoApic → PageTables → PageTables
map_chips boot [] p = p
map_chips boot (apic ∷ apics) p =
    map_chips boot apics (
      map_page boot p apic.address (phys_to_virt boot apic.address)
        (bit_or page_present page_write))

-- The entries `l` have been read into the arrays, behind what they held.
pub record Collected (boot : BootCtx) (s : IoApics) (l : List Entry) (s' : IoApics) : Type 0 where
  pub apics : cells s'.apics 0 s'.apic_ent ≡ cells s.apics 0 s.apic_ent ++ chips_of l
  pub iso : cells s'.iso 0 s'.iso_ent ≡ cells s.iso 0 s.iso_ent ++ overrides_of l
  pub pages : s'.pages ≡ map_chips boot (chips_of l) s.pages

-- A table of the firmware that lies within the address space.
pub record IsMadt (m : Madt) : Type 0 where
  pub size : m.size ≤ m.length
  pub in_space : m.entries + m.length + 2 ^ 8 < 2 ^ 64

-- What the switch does with each kind of entry.
abbrev with_chip : BootCtx → IoApics → IoApic → IoApics
with_chip boot s apic = record s {
  pages = map_chips boot (apic ∷ []) s.pages;
  apics = update s.apics s.apic_ent apic;
  apic_ent = u8 (s.apic_ent + 1);
}

abbrev with_override : IoApics → Override → IoApics
with_override s o = record s { iso = update s.iso s.iso_ent o; iso_ent = u8 (s.iso_ent + 1) }

abbrev with_entry : BootCtx → IoApics → Entry → IoApics
with_entry boot s (chip_entry apic) = with_chip boot s apic
with_entry boot s (override_entry o) = with_override s o
with_entry boot s other_entry = s

take_entry-with_entry :
    (boot : BootCtx) (m : Madt) (a : ℕ) (s : IoApics) (e : Entry)
    → Stands m a e
    → take_entry boot m a s ≡ with_entry boot s e
unfolding take_entry
take_entry-with_entry boot m a s (chip_entry apic) (t, e) =
    rw (eq→== (m.type_at a) m.io_apic_type t) (ap (λ v. with_chip boot s v) e)
take_entry-with_entry boot m a s (override_entry o) (ne, t, e) =
    rw (ne→== (m.type_at a) m.io_apic_type ne, eq→== (m.type_at a) m.override_type t)
      (ap (λ v. with_override s v) e)
take_entry-with_entry boot m a s other_entry (ne, ne') =
    rw (ne→== (m.type_at a) m.io_apic_type ne, ne→== (m.type_at a) m.override_type ne') refl

-- One more cell of an array whose number of cells is a u8.
cells-push :
    {A : Type 0} (f : ℕ → A) (n : ℕ) (v : A) (l : List A)
    → n < 2 ^ 8 - 1
    → cells (update f n v) 0 (u8 (n + 1)) ++ l ≡ cells f 0 n ++ (v ∷ l)
cells-push f n v l few =
    let count : u8 (n + 1) ≡ suc n = omega arith in
    ap (λ k. cells (update f n v) 0 k ++ l) count
    ∙ ap (λ c. c ++ l) (cells-snoc f v n)
    ∙ append_assoc (cells f 0 n) (v ∷ []) l

Collected-with_entry :
    (boot : BootCtx) (s : IoApics) (e : Entry) (es : List Entry) {s' : IoApics}
    → s.apic_ent + length (chips_of (e ∷ es)) < 2 ^ 8
    → s.iso_ent + length (overrides_of (e ∷ es)) < 2 ^ 8
    → Collected boot (with_entry boot s e) es s'
    → Collected boot s (e ∷ es) s'
Collected-with_entry boot s (chip_entry apic) es few few' c = record {
  apics = c.apics ∙ cells-push s.apics s.apic_ent apic (chips_of es) (omega arith);
  iso = c.iso;
  pages = c.pages;
}
Collected-with_entry boot s (override_entry o) es few few' c = record {
  apics = c.apics;
  iso = c.iso ∙ cells-push s.iso s.iso_ent o (overrides_of es) (omega arith);
  pages = c.pages;
}
Collected-with_entry boot s other_entry es few few' c = record {
  apics = c.apics;
  iso = c.iso;
  pages = c.pages;
}

-- The counters after an entry.
with_entry-few :
    (boot : BootCtx) (s : IoApics) (e : Entry) (es : List Entry)
    → s.apic_ent + length (chips_of (e ∷ es)) < 2 ^ 8
    → s.iso_ent + length (overrides_of (e ∷ es)) < 2 ^ 8
    → ((with_entry boot s e).apic_ent + length (chips_of es) < 2 ^ 8)
      × ((with_entry boot s e).iso_ent + length (overrides_of es) < 2 ^ 8)
with_entry-few boot s (chip_entry apic) es h k = (omega arith, k)
with_entry-few boot s (override_entry o) es h k = (h, omega arith)
with_entry-few boot s other_entry es h k = (h, k)

end_in_space : (m : Madt) → IsMadt m → sub64 (m.entries + m.length) m.size ≡ end_of m
end_in_space m is = omega (arith, is.size, is.in_space)

read_entries-Collected :
    (boot : BootCtx) (m : Madt) (n a : ℕ) (s : IoApics) (l : List Entry)
    → IsMadt m
    → Holds m a l
    → length l < n
    → s.apic_ent + length (chips_of l) < 2 ^ 8
    → s.iso_ent + length (overrides_of l) < 2 ^ 8
    → (s' : IoApics) × (read_entries boot m n a s ≡ some s') × Collected boot s l s'
unfolding read_entries
read_entries-Collected boot m zero a s l is holds fuel few few' = absurd (omega arith)
read_entries-Collected boot m (suc n) a s [] is holds fuel few few' =
    let stop : leb (sub64 (m.entries + m.length) m.size) a ≡ true =
      ground (arith, end_in_space m is) in
    (
      s,
      rw stop refl,
      record {
        apics = sym (append-nil (cells s.apics 0 s.apic_ent));
        iso = sym (append-nil (cells s.iso 0 s.iso_ent));
        pages = refl;
      },
    )
read_entries-Collected boot m (suc n) a s (e ∷ es) is (before, st, _, byte, holds) fuel few few' =
    let on : leb (sub64 (m.entries + m.length) m.size) a ≡ false =
      ground (arith, end_in_space m is) in
    let next : u64 (a + m.length_at a) ≡ a + m.length_at a = omega (arith, is.in_space, is.size) in
    let (few1, few1') = with_entry-few boot s e es few few' in
    let (s', run, c) =
      read_entries-Collected boot m n (a + m.length_at a) (with_entry boot s e) es is holds
        (omega arith) few1 few1' in
    (
      s',
      rw (on, next, take_entry-with_entry boot m a s e st) run,
      Collected-with_entry boot s e es few few' c,
    )

-- There is at most an entry for each byte.
Holds-length : (m : Madt) (a : ℕ) (l : List Entry) → Holds m a l → length l ≤ end_of m - a
Holds-length m a [] h = omega arith
Holds-length m a (e ∷ es) (before, _, some_bytes, _, rest) =
    omega (arith, Holds-length m (a + m.length_at a) es rest)

-- What the loop that reads the versions leaves.
record SameTables (s s' : IoApics) : Type 0 where
  pages : s'.pages ≡ s.pages
  apics : s'.apics ≡ s.apics
  iso : s'.iso ≡ s.iso
  apic_ent : s'.apic_ent ≡ s.apic_ent
  iso_ent : s'.iso_ent ≡ s.iso_ent

read_versions-SameTables :
    (boot : BootCtx) (n i : ℕ) (s : IoApics) → SameTables s (read_versions boot n i s)
unfolding read_versions io_apic_read
read_versions-SameTables boot zero i s = record {
  pages = refl;
  apics = refl;
  iso = refl;
  apic_ent = refl;
  iso_ent = refl;
}
read_versions-SameTables boot (suc n) i s =
    let (_, s1) = io_apic_read boot s (s.apics i).address 1 in
    let (_, s2) = io_apic_read boot s1 (s1.apics i).address 0 in
    let rest = read_versions-SameTables boot n (i + 1) s2 in
    record {
      pages = rest.pages;
      apics = rest.apics;
      iso = rest.iso;
      apic_ent = rest.apic_ent;
      iso_ent = rest.iso_ent;
    }

-- Where the table lies within the address space, is made of entries of one to 255 bytes, and names
-- at most 24 chips and 24 overrides, which the arrays have room for, `init` ends: the arrays hold
-- the chips and the overrides of the table, in its order, and the registers of each chip have been
-- mapped.
pub io_apic_init-Collected :
    (boot : BootCtx) (m : Madt) (s : IoApics) (l : List Entry)
    → IsMadt m
    → Holds m m.entries l
    → length (chips_of l) ≤ 24
    → length (overrides_of l) ≤ 24
    → (s' : IoApics) × (io_apic_init boot m s ≡ some s')
      × (cells s'.apics 0 s'.apic_ent ≡ chips_of l)
      × (cells s'.iso 0 s'.iso_ent ≡ overrides_of l)
      × (s'.pages ≡ map_chips boot (chips_of l) s.pages)
unfolding io_apic_init
io_apic_init-Collected boot m s l is holds few few' =
    let (s1, run, c) =
      read_entries-Collected boot m (suc m.length) m.entries
        (record s { apic_ent = 0; iso_ent = 0 }) l is holds
        (omega (arith, Holds-length m m.entries l holds)) (omega arith) (omega arith) in
    let same = read_versions-SameTables boot s1.apic_ent 0 s1 in
    (
      read_versions boot s1.apic_ent 0 s1,
      rw (run, io_apic_init) refl,
      rw (same.apics, same.apic_ent) c.apics,
      rw (same.iso, same.iso_ent) c.iso,
      same.pages ∙ c.pages,
    )
