-- ===== src/Err/Symbols.antt =====
-- src/kernel/err/meta_resolver.cc and src/include/err/handler.h: the table of the kernel's
-- functions and the search in it. The table is the list of the entries before the first null
-- pointer, at most 1024 of them. The symbols of the ELF file (klib/elf.h, a submodule) are an
-- argument.
pub mod Sort
pub mod Resolve
pub mod Repr
pub mod Named
mod Tests
use slayer_os.Base.{
  ℕ, zero, suc, Bool, true, false, not, ◌&&◌, ◌||◌, Option, none, some, List, [], ◌∷◌, ◌==◌, ltb,
  if◌then◌else◌, length, ◌+◌, u64,
}

-- `symbol_entry_t`; a name is the number of its address.
pub record Symbol : Type 0 where
  pub address : ℕ
  pub name : ℕ
  pub size : ℕ

-- The fields of `elf_sym` that the kernel reads; `type` is `ELF64_ST_TYPE(st_info)`.
pub record ElfSym : Type 0 where
  pub st_name : ℕ
  pub st_info : ℕ
  pub type : ℕ
  pub st_value : ℕ
  pub st_size : ℕ

-- The loop of `init_symbols`: `stt_func` is the type of functions, `strtab` the address of the
-- names.
unfoldable pub collect : ℕ → ℕ → List ElfSym → List Symbol
collect stt_func strtab [] = []
collect stt_func strtab (sym ∷ syms) =
    if sym.st_name == 0 || sym.st_info == 0 || not (sym.type == stt_func)
    then collect stt_func strtab syms
    else record { address = sym.st_value; name = u64 (strtab + sym.st_name); size = sym.st_size }
      ∷ collect stt_func strtab syms

-- The inner loop of the sort at a fixed `i`: `x` is entry `i`, the list is the entries after it.
unfoldable pub symbol_pass : Symbol → List Symbol → Symbol × List Symbol
symbol_pass x [] = (x, [])
symbol_pass x (y ∷ ys) =
    let swap = ltb y.address x.address in
    let (x', ys') = symbol_pass (if swap then y else x) ys in (x', (if swap then x else y) ∷ ys')

-- The outer loop, with the rounds that it has left.
unfoldable pub symbol_rounds : ℕ → List Symbol → List Symbol
symbol_rounds zero ss = ss
symbol_rounds (suc n) [] = []
symbol_rounds (suc n) (x ∷ ys) = let (x', ys') = symbol_pass x ys in x' ∷ symbol_rounds n ys'

unfoldable pub sort_symbol_table : List Symbol → List Symbol
unfolding symbol_pass symbol_rounds
sort_symbol_table ss = symbol_rounds (length ss) ss

-- `init_symbols`, on the symbols of the ELF file
unfoldable pub init_symbols : (stt_func strtab : ℕ) → List ElfSym → List Symbol
unfolding collect sort_symbol_table
init_symbols stt_func strtab syms = sort_symbol_table (collect stt_func strtab syms)

-- `search_result`; a null entry is `none`.
pub record SearchResult : Type 0 where
  pub entry : Option Symbol
  pub exact : Bool

-- The loop of `resolve_address`, with the entry that it has kept.
unfoldable pub resolve_from : ℕ → Option Symbol → List Symbol → SearchResult
resolve_from address kept [] = record { entry = kept; exact = false }
resolve_from address kept (s ∷ ss) =
    let rest = resolve_from address (some s) ss in
    if s.address == address
    then record { entry = some s; exact = true }
    else (if ltb address s.address then record { entry = kept; exact = false } else rest)

unfoldable pub resolve_address : ℕ → List Symbol → SearchResult
unfolding resolve_from
resolve_address address table = resolve_from address none table
