-- ===== src/Err/Dump.antt =====
-- src/kernel/err/dump.cc: `dump_address`, `backtrace`, and the copy that the compiler calls.
-- A string in memory is an array of character codes, and the memory of the stack a function from
-- addresses to u64 values. What klib's DWARF reader finds for an address is an argument, and so is
-- what `search_repr` writes (Symbols.Repr models it): a text is the array of its characters.
pub mod Digits
pub mod Chain
pub mod Copy
pub mod Listing
pub mod Samples
mod Tests
use slayer_os.Base.{
  ℕ, zero, suc, ◌+◌, ◌-◌, ◌==◌, Option, none, some, List, [], ◌∷◌, ◌++◌, ltb, if◌then◌else◌, update,
  bit_and, ◌>>>◌, u64, sub64,
}
use slayer_os.Base.Cells.{cells, codes}
use slayer_os.Err.Symbols.{Symbol, SearchResult, resolve_address}

-- The bytes that `__memcpy_chk` copies from round `i` on, with the rounds left.
unfoldable pub memcpy_from : (dest src : ℕ) → ℕ → ℕ → (ℕ → ℕ) → ℕ → ℕ
memcpy_from dest src zero i memory = memory
memcpy_from dest src (suc n) i memory =
    memcpy_from dest src n (i + 1) (update memory (dest + i) (memory (src + i)))

-- `__memcpy_chk`, which does not read `destlen`
unfoldable pub memcpy_chk : (dest src len destlen : ℕ) → (ℕ → ℕ) → ℕ → ℕ
unfolding memcpy_from
memcpy_chk dest src len destlen memory = memcpy_from dest src len 0 memory

unfoldable pub digit : ℕ → ℕ
digit nibble = if ltb nibble 10 then b'0' + nibble else b'A' + nibble - 10

-- The loop of `dump_address` down from `i`, which is one less than the rounds left.
unfoldable pub write_digits : ℕ → ℕ → (ℕ → ℕ) → ℕ → ℕ
unfolding digit
write_digits zero value buf = buf
write_digits (suc i) value buf =
    write_digits i (value >>> 4) (update buf i (digit (bit_and value 0xf)))

-- The characters of a string of at most `n` characters, up to the null character.
unfoldable pub until_null : List ℕ → List ℕ
until_null [] = []
until_null (c ∷ cs) = let rest = until_null cs in if c == 0 then [] else c ∷ rest

-- What `dump_address` prints between the two codes of the colour; `buf` is what the stack holds.
unfoldable pub dump_address : (buf : ℕ → ℕ) → ℕ → List ℕ
unfolding until_null write_digits
dump_address buf value = until_null (cells (write_digits 16 value (update buf 16 0)) 0 17)

-- `Addr2LineResult` of an address that is found.
pub record Addr2LineResult : Type 0 where
  pub address : ℕ
  pub file : ℕ
  pub line : ℕ

-- A line of the backtrace: the function, the file and the line, or the address alone.
pub data BacktraceLine : Type 0 where
  resolved : (i : ℕ) → (fn_repr : ℕ → ℕ) → (file line : ℕ) → BacktraceLine
  unresolved : (i rip : ℕ) → BacktraceLine

module _ (addr2line_lookup : ℕ → Option Addr2LineResult) (search_repr : ℕ → SearchResult → ℕ → ℕ)
    (table : List Symbol) where
  -- The line of frame `i`, which returns to `rip`.
  unfoldable pub backtrace_line : ℕ → ℕ → BacktraceLine
  backtrace_line i rip = elim (addr2line_lookup (sub64 rip 1)) [
    | none ↦ unresolved i rip
    | some r ↦ resolved i (search_repr r.address (resolve_address r.address table)) r.file r.line
  ]

  module _ (memory : ℕ → ℕ) where
    -- The loop of `backtrace` from frame `i` on, with the rounds left.
    unfoldable pub backtrace_from : ℕ → ℕ → ℕ → List BacktraceLine
    unfolding backtrace_line
    backtrace_from zero i rbp = []
    backtrace_from (suc n) i rbp =
        let rip = memory (u64 (rbp + 8)) in
        let rest = backtrace_from n (i + 1) (memory rbp) in
        if rbp == 0
        then []
        else (if rip == 0
            then []
            else (if ltb 0xffff_ffff_8000_0000 rip then backtrace_line i rip ∷ [] else []) ++ rest)

    unfoldable pub backtrace : ℕ → List BacktraceLine
    unfolding backtrace_from
    backtrace rbp = backtrace_from 16 0 rbp
