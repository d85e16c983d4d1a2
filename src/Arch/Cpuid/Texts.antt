-- ===== src/Arch/Cpuid/Texts.antt =====
-- The texts of src/kernel/arch/cpuid.cc against the registers that they are made of.
use slayer_os.Base.{
  ℕ, zero, suc, ◌∙◌, get_elem?, some, ◌+◌, ◌*◌, ◌%◌, ◌^◌, ◌<◌, ◌≡◌, refl, ap, arith, List, [], ◌∷◌,
  ◌++◌, length, ◌>>>◌,
}
use slayer_os.Arch.Cpuid.{Cpuid, Registers, cpu_vendor, brand_part, cpu_brand}

-- The register that four bytes in memory are read as, and the bytes behind them.
abbrev pub word : List ℕ → ℕ × List ℕ
word (a ∷ b ∷ c ∷ d ∷ rest) = (a + b * 2 ^ 8 + c * 2 ^ 16 + d * 2 ^ 24, rest)
word rest = (0, rest)

-- All the registers of a text.
abbrev pub words : ℕ → List ℕ → List ℕ
words zero text = []
words (suc n) text = let (w, rest) = word text in w ∷ words n rest

-- The number that the four bytes of a register stand for.
abbrev value : ℕ → ℕ
value r = r % 256 + (r >>> 8) % 256 * 2 ^ 8 + (r >>> 16) % 256 * 2 ^ 16 + (r >>> 24) % 256 * 2 ^ 24

value_lem : (r : ℕ) → r < 2 ^ 32 → value r ≡ r
value_lem r h = omega arith

abbrev pub IsWords : Registers → Type 0
IsWords r = (r.eax < 2 ^ 32) × (r.ebx < 2 ^ 32) × (r.ecx < 2 ^ 32) × (r.edx < 2 ^ 32)

abbrev pub registers : Registers → List ℕ
registers r = r.eax ∷ r.ebx ∷ r.ecx ∷ r.edx ∷ []

words-brand_part :
    (cpuid : Cpuid) (i n : ℕ) (rest : List ℕ)
    → IsWords (cpuid (0x8000_0002 + i) 0)
    → words (suc (suc (suc (suc n)))) (brand_part cpuid i ++ rest)
      ≡ (cpuid (0x8000_0002 + i) 0).eax
        ∷ (cpuid (0x8000_0002 + i) 0).ebx
        ∷ (cpuid (0x8000_0002 + i) 0).ecx
        ∷ (cpuid (0x8000_0002 + i) 0).edx
        ∷ words n rest
unfolding brand_part
words-brand_part cpuid i n rest (ha, hb, hc, hd) =
    λ j. value_lem _ ha j ∷ value_lem _ hb j ∷ value_lem _ hc j ∷ value_lem _ hd j ∷ words n rest

words-cpu_vendor :
    (cpuid : Cpuid)
    → IsWords (cpuid 0 0)
    → words 3 (cpu_vendor cpuid) ≡ (cpuid 0 0).ebx ∷ (cpuid 0 0).edx ∷ (cpuid 0 0).ecx ∷ []
unfolding cpu_vendor
words-cpu_vendor cpuid (ha, hb, hc, hd) =
    λ j. value_lem _ hb j ∷ value_lem _ hd j ∷ value_lem _ hc j ∷ []

-- Where `cpuid` fills registers of 32 bits, the text of the vendor has 13 characters, of which the
-- last one is null, and its words are EBX, EDX and ECX of leaf 0; and the text of the brand has 49,
-- of which the last one is null, and its words are the registers of the leaves from 0x80000002 to
-- 0x80000004 in their order.
pub words-cpu_brand :
    (cpuid : Cpuid)
    → ((leaf : ℕ) → IsWords (cpuid leaf 0))
    → ((length (cpu_vendor cpuid) ≡ 13)
        × (words 3 (cpu_vendor cpuid) ≡ (cpuid 0 0).ebx ∷ (cpuid 0 0).edx ∷ (cpuid 0 0).ecx ∷ [])
        × (get_elem? (cpu_vendor cpuid) 12 ≡ some 0))
      × (length (cpu_brand cpuid) ≡ 49)
      × (words 12 (cpu_brand cpuid)
          ≡ registers (cpuid 0x8000_0002 0)
            ++ (registers (cpuid 0x8000_0003 0) ++ registers (cpuid 0x8000_0004 0)))
      × (get_elem? (cpu_brand cpuid) 48 ≡ some 0)
unfolding cpu_vendor cpu_brand brand_part
words-cpu_brand cpuid fits =
    let third = words-brand_part cpuid 2 0 (0 ∷ []) (fits 0x8000_0004) in
    let second = words-brand_part cpuid 1 4 (brand_part cpuid 2 ++ (0 ∷ [])) (fits 0x8000_0003) in
    let first =
      words-brand_part cpuid 0 8 (brand_part cpuid 1 ++ (brand_part cpuid 2 ++ (0 ∷ [])))
        (fits 0x8000_0002) in
    (
      (refl, words-cpu_vendor cpuid (fits 0), refl),
      refl,
      first
          ∙ ap (λ l. registers (cpuid 0x8000_0002 0) ++ l)
              (second ∙ ap (λ l. registers (cpuid 0x8000_0003 0) ++ l) third),
      refl,
    )
