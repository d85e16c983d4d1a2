-- ===== src/Arch/Cpuid.antt =====
-- src/kernel/arch/cpuid.cc and src/kernel/arch/sse.cc. The instruction `cpuid` is an argument: the
-- four registers for the values of EAX and ECX. A text is its bytes; a register is stored with the
-- low byte first.
pub mod Texts
use slayer_os.Base.{
  ℕ, ◌+◌, ◌-◌, ◌*◌, ◌/◌, ◌%◌, ◌^◌, Bool, true, false, not, ◌&&◌, ◌||◌, List, [], ◌∷◌, ◌++◌, ◌==◌,
  if◌then◌else◌, bit_and, bit_or, ◌>>>◌, ◌<<<◌, u64,
}

pub record Registers : Type 0 where
  pub eax : ℕ
  pub ebx : ℕ
  pub ecx : ℕ
  pub edx : ℕ

abbrev pub Cpuid : Type 0
Cpuid = (eax_in ecx_in : ℕ) → Registers

-- The four bytes of a register in memory.
abbrev pub bytes_of : ℕ → List ℕ
bytes_of r = r % 256 ∷ (r >>> 8) % 256 ∷ (r >>> 16) % 256 ∷ (r >>> 24) % 256 ∷ []

-- `CPUID::cpu_vendor`, with the null character
unfoldable pub cpu_vendor : Cpuid → List ℕ
cpu_vendor cpuid =
    let r = cpuid 0 0 in bytes_of r.ebx ++ (bytes_of r.edx ++ (bytes_of r.ecx ++ (0 ∷ [])))

-- A round of the loop of `cpu_brand`.
unfoldable pub brand_part : Cpuid → ℕ → List ℕ
brand_part cpuid i =
    let r = cpuid (0x8000_0002 + i) 0 in
    bytes_of r.eax ++ (bytes_of r.ebx ++ (bytes_of r.ecx ++ bytes_of r.edx))

-- `CPUID::cpu_brand`
unfoldable pub cpu_brand : Cpuid → List ℕ
unfolding brand_part
cpu_brand cpuid = brand_part cpuid 0 ++ (brand_part cpuid 1 ++ (brand_part cpuid 2 ++ (0 ∷ [])))

-- `CPUID::tsc_freq`
unfoldable pub tsc_freq : Cpuid → ℕ
tsc_freq cpuid =
    let r = cpuid 0x15 0 in
    if not (r.eax == 0) && not (r.ebx == 0)
    then (let base = if r.ecx == 0 then 1 else r.ecx in u64 (base * r.ebx) / r.eax)
    else 0

-- What `SSE::enable` reads and writes.
pub record Control : Type 0 where
  pub cs : ℕ
  pub cr0 : ℕ
  pub cr4 : ℕ

abbrev pub bit : ℕ → ℕ → Bool
bit k r = not (bit_and (r >>> k) 1 == 0)

-- `bits & ~(1 << k)`
abbrev pub clear_bit : ℕ → ℕ → ℕ
clear_bit k r = r - (bit_and (r >>> k) 1 <<< k)

-- `SSE::enable`
unfoldable pub sse_enable : Cpuid → Control → Bool × Control
sse_enable cpuid s =
    let r = cpuid 1 0 in
    if not (bit_and s.cs 3 == 0)
    then (false, s)
    else (if not (bit 25 r.edx) || not (bit 0 r.ecx) || not (bit 19 r.ecx) || not (bit 20 r.ecx)
        then (false, s)
        else (
          true,
          record s {
            cr0 = bit_or (clear_bit 2 s.cr0) (1 <<< 1);
            cr4 = bit_or s.cr4 (bit_or (1 <<< 9) (1 <<< 10));
          },
        ))

-- `SSE::test`
abbrev pub sse_test : Cpuid → Bool
sse_test cpuid = bit 25 (cpuid 1 0).edx
