-- ===== src/Err/Dump/Listing/Sweep.antt =====
-- The instructions of a function in memory, one behind the other, for `dump_at_addr` of
-- src/kernel/err/dump.cc.
use mathlib.Core.Path.{subst}
use slayer_os.Base.{
  ℕ, ◌+◌, ◌-◌, ◌≤◌, ◌<◌, ◌^◌, ◌≡◌, ◌∙◌, ap, arith, some, List, [], ◌∷◌, ◌++◌, length, u64, sub64,
}
use slayer_os.Err.Symbols.{Symbol}
use slayer_os.Err.Dump.Listing.{Decoder, Instruction, decode_at}

-- Zydis decodes at least a byte, and no more than it is given.
pub record IsDecoder (decode : Decoder) : Type 0 where
  pub reads :
      (runtime_address at n : ℕ) (instruction : Instruction)
      → decode runtime_address at n ≡ some instruction
      → (0 < instruction.length) × (instruction.length ≤ n)

-- The instructions that lie one behind the other from an offset on.
pub data Sweep (decode : Decoder) (entry : Symbol) : ℕ → List Instruction → Type 0 where
  ends : {offset : ℕ} → Sweep decode entry offset []
  next :
      {offset : ℕ} {instruction : Instruction} {rest : List Instruction}
      → decode (entry.address + offset) (entry.address + offset) (entry.size - offset)
        ≡ some instruction
      → Sweep decode entry (offset + instruction.length) rest
      → Sweep decode entry offset (instruction ∷ rest)

-- The bytes of some instructions.
abbrev pub total : List Instruction → ℕ
total [] = 0
total (instruction ∷ rest) = instruction.length + total rest

module _ (decode : Decoder) (laws : IsDecoder decode) (entry : Symbol)
    (fits : entry.address + entry.size < 2 ^ 64) where
  -- The first instruction of a sweep is what the code decodes there, and it ends in the function.
  pub Sweep-head :
      (offset : ℕ) (x : Instruction) (xs : List Instruction)
      → offset ≤ entry.size
      → Sweep decode entry offset (x ∷ xs)
      → (decode_at decode entry (entry.address + offset) offset ≡ some x)
        × (0 < x.length)
        × (offset + x.length ≤ entry.size)
        × Sweep decode entry (offset + x.length) xs
  Sweep-head offset x xs h (next e rest) =
      let at : u64 (entry.address + offset) ≡ entry.address + offset = omega arith in
      let left : sub64 entry.size offset ≡ entry.size - offset = omega arith in
      let (more, less) = laws.reads _ _ _ _ e in
      (
        ap (λ a. decode (entry.address + offset) a (sub64 entry.size offset)) at
            ∙ ap (decode (entry.address + offset) (entry.address + offset)) left
            ∙ e,
        more,
        omega arith,
        rest,
      )

  -- A sweep behind some of its instructions, which end in the function and have a byte each.
  pub Sweep-append :
      (offset : ℕ) (xs ys : List Instruction)
      → offset ≤ entry.size
      → Sweep decode entry offset (xs ++ ys)
      → (offset + total xs ≤ entry.size)
        × (length xs ≤ total xs)
        × Sweep decode entry (offset + total xs) ys
  Sweep-append offset [] ys h s =
      (omega arith, omega arith, subst (λ o. Sweep decode entry o ys) (omega arith) s)
  Sweep-append offset (x ∷ xs) ys h s =
      let (_, more, less, rest) = Sweep-head offset x (xs ++ ys) h s in
      let (inside, bytes, behind) = Sweep-append (offset + x.length) xs ys less rest in
      (omega arith, omega arith, subst (λ o. Sweep decode entry o ys) (omega arith) behind)

  -- The same address and offset, the way the code goes on.
  pub step_address :
      (offset n : ℕ)
      → offset + n ≤ entry.size
      → (u64 (entry.address + offset + n) ≡ entry.address + (offset + n))
        × (u64 (offset + n) ≡ offset + n)
  step_address offset n h = (omega arith, omega arith)
