-- ===== src/Cpu/Gdt/Segments.antt =====
-- What the processor reads from the table of segments that src/kernel/cpu/gdt/gdt.cc loads.
use slayer_os.Base.{
  ℕ, ◌+◌, ◌-◌, ◌*◌, ◌/◌, ◌%◌, ◌^◌, ◌≡◌, ◌<◌, ◌∙◌, bit_or, bit_and, u8, u16, u64, ◌<<<◌, ◌>>>◌,
  arith,
}
use slayer_os.Base.Bits.{bit_and_low_bits, disjoint-bit_or, zero-bit_or}
use slayer_os.Cpu.Tss.{create_tss_descriptor, create_tss_descriptor_high, tss_size}
use slayer_os.Cpu.Gdt.{Gdt, gdt_init}

-- The parts of the descriptor of a system segment: its base, from two entries, its limit and its
-- type, as the processor puts them together.
abbrev pub base_of : (low high : ℕ) → ℕ
base_of low high = low / 2 ^ 16 % 2 ^ 24 + low / 2 ^ 56 % 2 ^ 8 * 2 ^ 24 + high % 2 ^ 32 * 2 ^ 32

abbrev pub limit_of : ℕ → ℕ
limit_of low = low % 2 ^ 16 + low / 2 ^ 48 % 2 ^ 4 * 2 ^ 16

abbrev pub access_of : ℕ → ℕ
access_of low = low / 2 ^ 40 % 2 ^ 8

-- The fields of the first entry, put together by `|`.
join_fields :
    (low mid high : ℕ)
    → low < 2 ^ 16
    → mid < 2 ^ 8
    → high < 2 ^ 8
    → bit_or
        (bit_or
          (bit_or (bit_or (bit_or (bit_or 0 103) (low * 2 ^ 16)) (mid * 2 ^ 32)) (137 * 2 ^ 40))
          (0 * 2 ^ 48))
        (high * 2 ^ 56)
      ≡ 103 + low * 2 ^ 16 + mid * 2 ^ 32 + 137 * 2 ^ 40 + high * 2 ^ 56
join_fields low mid high h k j =
    let r1 : bit_or 0 103 ≡ 103 = zero-bit_or 103 in
    let r2 = disjoint-bit_or 16 low 103 (omega arith) in
    let r3 = disjoint-bit_or 32 mid (103 + low * 2 ^ 16) (omega arith) in
    let r4 = disjoint-bit_or 40 137 (103 + low * 2 ^ 16 + mid * 2 ^ 32) (omega arith) in
    let r5 =
      disjoint-bit_or 48 0 (103 + low * 2 ^ 16 + mid * 2 ^ 32 + 137 * 2 ^ 40) (omega arith) in
    let r6 =
      disjoint-bit_or 56 high (103 + low * 2 ^ 16 + mid * 2 ^ 32 + 137 * 2 ^ 40 + 0 * 2 ^ 48)
        (omega arith) in
    rw (r1, r2, r3, r4, r5, r6) (omega arith)

create_tss_descriptor-sum :
    (tss_addr : ℕ)
    → create_tss_descriptor tss_addr
      ≡ 103
        + tss_addr % 2 ^ 16 * 2 ^ 16
        + tss_addr / 2 ^ 16 % 2 ^ 8 * 2 ^ 32
        + 137 * 2 ^ 40
        + tss_addr / 2 ^ 24 % 2 ^ 8 * 2 ^ 56
unfolding create_tss_descriptor
create_tss_descriptor-sum tss_addr =
    let low : u64 (u16 (bit_and tss_addr 0xffff) <<< 16) ≡ tss_addr % 2 ^ 16 * 2 ^ 16 =
      omega (arith, bit_and_low_bits 16 tss_addr) in
    let mid : u64 (u8 (bit_and (tss_addr >>> 16) 0xff) <<< 32)
        ≡ tss_addr / 2 ^ 16 % 2 ^ 8 * 2 ^ 32 =
      omega (arith, bit_and_low_bits 8 (tss_addr / 2 ^ 16)) in
    let high : u64 (u8 (bit_and (tss_addr >>> 24) 0xff) <<< 56)
        ≡ tss_addr / 2 ^ 24 % 2 ^ 8 * 2 ^ 56 =
      omega (arith, bit_and_low_bits 8 (tss_addr / 2 ^ 24)) in
    rw (low, mid, high)
      (join_fields (tss_addr % 2 ^ 16) (tss_addr / 2 ^ 16 % 2 ^ 8) (tss_addr / 2 ^ 24 % 2 ^ 8)
        (omega arith) (omega arith) (omega arith))

create_tss_descriptor_high_lem :
    (tss_addr : ℕ) → create_tss_descriptor_high tss_addr ≡ tss_addr / 2 ^ 32 % 2 ^ 32
unfolding create_tss_descriptor_high
create_tss_descriptor_high_lem tss_addr =
    zero-bit_or (bit_and (tss_addr >>> 32) 0xffff_ffff) ∙ bit_and_low_bits 32 (tss_addr / 2 ^ 32)

-- The two entries that `init` writes give back the address and the size of the task state segment,
-- as an available one; the segments of the kernel and of the user stay as they were.
pub gdt_init_lem :
    (table_addr tss_addr : ℕ) (g : Gdt)
    → tss_addr < 2 ^ 64
    → let table = (gdt_init table_addr tss_addr g).table in
      (base_of (table 5) (table 6) ≡ tss_addr)
      × (limit_of (table 5) ≡ tss_size - 1)
      × (access_of (table 5) ≡ 0x89)
      × ((i : ℕ) → i < 5 → table i ≡ g.table i)
unfolding gdt_init
gdt_init_lem table_addr tss_addr g fits =
    let low = create_tss_descriptor-sum tss_addr in
    let high = create_tss_descriptor_high_lem tss_addr in
    (rw (low, high) (omega arith), rw low (omega arith), rw low (omega arith), λ i h. ground arith)
