-- ===== src/Err/Dump/Copy.antt =====
-- `__memcpy_chk` of src/kernel/err/dump.cc where its areas overlap.
use slayer_os.Base.{ℕ, zero, suc, ◌+◌, ◌≤◌, ◌≡◌, ◌⊎◌, ◌∙◌, ap, arith, inl, inr, update}
use slayer_os.Base.Cells.{copy}
use slayer_os.Err.Dump.{memcpy_from, memcpy_chk}

-- What the rounds from `i` on leave at one address: the source's byte at its place, where the
-- source lies at or behind the target or the areas are apart.
memcpy_from_lem :
    (dest src n i : ℕ) (memory : ℕ → ℕ) (k : ℕ)
    → (dest ≤ src) ⊎ (src + (i + n) ≤ dest)
    → memcpy_from dest src n i memory k ≡ copy memory (dest + i) memory (src + i) n k
unfolding memcpy_from
memcpy_from_lem dest src zero i memory k apart = ground arith
memcpy_from_lem dest src (suc n) i memory k apart =
    let rest =
      memcpy_from_lem dest src n (i + 1) (update memory (dest + i) (memory (src + i))) k
        (elim apart [ inl h ↦ inl h | inr h ↦ inr (omega arith) ]) in
    rest ∙ elim apart [ inl h ↦ ground arith | inr h ↦ ground arith ]

-- Where the source lies at or behind the target, or the two areas are apart, `__memcpy_chk` leaves
-- at each address of the target what the source held before, and at any other address what was there.
pub memcpy_chk-copy :
    (dest src len destlen : ℕ) (memory : ℕ → ℕ) (k : ℕ)
    → (dest ≤ src) ⊎ (src + len ≤ dest)
    → memcpy_chk dest src len destlen memory k ≡ copy memory dest memory src len k
unfolding memcpy_chk
memcpy_chk-copy dest src len destlen memory k apart =
    let zeros : copy memory (dest + 0) memory (src + 0) len k ≡ copy memory dest memory src len k =
      ap (λ d. copy memory d memory (src + 0) len k) (omega arith)
      ∙ ap (λ s. copy memory dest memory s len k) (omega arith) in
    memcpy_from_lem dest src len 0 memory k
      (elim apart [ inl h ↦ inl h | inr h ↦ inr (omega arith) ])
    ∙ zeros
