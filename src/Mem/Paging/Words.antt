-- ===== src/Mem/Paging/Words.antt =====
-- The masks and flags of src/kernel/mem/paging/paging.cc as arithmetic.
use slayer_os.Base.{
  ℕ, ◌+◌, ◌-◌, ◌*◌, ◌/◌, ◌%◌, ◌^◌, ◌<◌, ◌≤◌, ◌≡◌, refl, true, false, arith, bit_and, bit_or, ◌∙◌,
  ap,
}
use slayer_os.Base.Bits.{bit_or_low, bit_or_disjoint, bit_and_low_bits, bit_and_high_bits}
use slayer_os.Boot.{BootCtx}
use slayer_os.Mem.Frames.{virt_to_phys}
use slayer_os.Mem.Paging.{page_present, page_write, pte_mask, is_present, table_index, child_table}

-- Bits 12 to 47 of a word.
pub bit_and-pte_mask : (x : ℕ) → bit_and x pte_mask ≡ x / 2 ^ 12 % 2 ^ 36 * 2 ^ 12
bit_and-pte_mask x =
    omega (arith, bit_and_high_bits 12 x (2 ^ 36 - 1), bit_and_low_bits 36 (x / 2 ^ 12))

pub bit_and-page_present : (x : ℕ) → bit_and x page_present ≡ x % 2
bit_and-page_present x = bit_and_low_bits 1 x

set_lowest : (x : ℕ) → x % 2 ≡ 0 → bit_or x 1 ≡ x + 1
set_lowest x h =
    let e : x ≡ x / 2 ^ 1 * 2 ^ 1 = omega arith in
    ap (λ y. bit_or y 1) e ∙ omega (arith, bit_or_disjoint 1 (x / 2 ^ 1) 1 (omega arith))

-- The flags that `map` gives a table, beside the address of a frame.
pub table_flags : (x : ℕ) → x % 2 ^ 12 ≡ 0 → bit_or (bit_or x page_present) page_write ≡ x + 3
table_flags x h = rw (set_lowest x (omega arith)) (
    omega (
      arith,
      bit_or_low (x + 1) 2,
      ap (λ y. bit_or y 1) (half x h),
      set_lowest (x / 2) (omega arith),
    ))
  where
    half : (x : ℕ) → x % 2 ^ 12 ≡ 0 → (x + 1) / 2 ≡ x / 2
    half x h = omega arith

pub table_index_lem : (virt shift : ℕ) → table_index virt shift ≡ virt / 2 ^ shift % 512
unfolding table_index
table_index_lem virt shift = bit_and_low_bits 9 (virt / 2 ^ shift)

pub table_index-lt : (virt shift : ℕ) → table_index virt shift < 512
table_index-lt virt shift = omega (arith, table_index_lem virt shift)

pub is_present-odd : (e : ℕ) → e % 2 ≡ 1 → is_present e ≡ true
unfolding is_present
is_present-odd e h = ground (arith, bit_and-page_present e)

pub is_present-zero : is_present 0 ≡ false
unfolding is_present
is_present-zero = refl

-- The entry that `map` writes for a table leads back to that table.
pub child_table-entry :
    (boot : BootCtx) (table : ℕ)
    → boot.hhdm_addr ≤ table
    → table % 2 ^ 12 ≡ 0
    → boot.hhdm_addr % 2 ^ 12 ≡ 0
    → table < boot.hhdm_addr + 2 ^ 48
    → table < 2 ^ 64
    → let e = bit_or (bit_or (virt_to_phys boot table) page_present) page_write in
      (is_present e ≡ true) × (child_table boot e ≡ table)
unfolding child_table
child_table-entry boot table above page page' near small =
    let phys : virt_to_phys boot table ≡ table - boot.hhdm_addr = omega arith in
    rw (phys, table_flags (table - boot.hhdm_addr) (omega arith))
      (
        is_present-odd (table - boot.hhdm_addr + 3) (omega arith),
        omega (arith, bit_and-pte_mask (table - boot.hhdm_addr + 3)),
      )
