-- ===== src/Err/Symbols/Repr.antt =====
-- `search_repr` and `addrsym_repr` of src/kernel/err/meta_resolver.cc: an address as text.
-- A name is the array of its characters. klib's `sprintf` is an argument, the text of "%s + %p", and
-- `stack` is what the array of 128 characters holds at first.
use slayer_os.Base.{ℕ, ◌+◌, none, some, List, [], ◌∷◌, leb, if◌then◌else◌, update, length, sub64}
use slayer_os.Base.Cells.{copy}
use slayer_os.Err.Demangle.{Klib, demangle_alloc_symbol}
use slayer_os.Err.Symbols.{Symbol, SearchResult, resolve_address}

-- What `search_repr` returns: the text that says that nothing is found, or an array and how much of
-- it is written; or a write behind the end of its own array. `endless`: the fuel of
-- `demangle_alloc_symbol` ran out.
pub data ReprResult : Type 0 where
  failed_to_resolve : ReprResult
  text_in : (ℕ → ℕ) → ℕ → ReprResult
  overflow : ReprResult
  endless : ReprResult

-- A text with its null character in an array, from an index on.
abbrev pub put_text : (ℕ → ℕ) → ℕ → List ℕ → ℕ → ℕ
put_text buffer i [] = update buffer i 0
put_text buffer i (c ∷ cs) = put_text (update buffer i c) (i + 1) cs

module _ (k : Klib) (sprintf : (ℕ → ℕ) → ℕ → List ℕ) (name_at : ℕ → ℕ → ℕ) (stack : ℕ → ℕ)
    (fuel : ℕ) where
  -- `demangle_alloc_symbol` of the array.
  abbrev pub demangled : (ℕ → ℕ) → ReprResult
  demangled buffer = elim (demangle_alloc_symbol k buffer fuel) [
    | none ↦ endless
    | some (text, n) ↦ text_in text n
  ]

  -- `search_repr` of an entry that begins at the address.
  unfoldable pub exact_repr : Symbol → ReprResult
  exact_repr entry =
      let name = name_at entry.name in
      let n = k.strlen name in
      if leb 128 n then overflow else demangled (update (copy stack 0 name 0 n) n 0)

  -- `search_repr` of an entry in front of the address.
  unfoldable pub offset_repr : ℕ → Symbol → ReprResult
  offset_repr address entry =
      let text = sprintf (name_at entry.name) (sub64 address entry.address) in
      if leb 128 (length text) then overflow else demangled (put_text stack 0 text)

  -- `search_repr`
  unfoldable pub search_repr : ℕ → SearchResult → ReprResult
  unfolding exact_repr offset_repr
  search_repr address result = elim result.entry [
    | none ↦ failed_to_resolve
    | some entry ↦ if result.exact then exact_repr entry else offset_repr address entry
  ]

  -- `addrsym_repr`
  unfoldable pub addrsym_repr : List Symbol → ℕ → ReprResult
  unfolding search_repr
  addrsym_repr table address = search_repr address (resolve_address address table)
