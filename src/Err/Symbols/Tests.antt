-- ===== src/Err/Symbols/Tests.antt =====
-- The search of src/kernel/err/meta_resolver.cc in a table of three functions.
use slayer_os.Base.{ℕ, ◌≡◌, List, [], ◌∷◌, refl, none, some, false, get_elem?}
use slayer_os.Base.Cells.{codes}
use slayer_os.Err.Demangle.{Klib}
use slayer_os.Err.Symbols.{Symbol, sort_symbol_table, resolve_address}
use slayer_os.Err.Symbols.Resolve.{Found, resolve_address-sort_symbol_table}

abbrev function : ℕ → Symbol
function a = record { address = a; name = 0; size = 16 }

abbrev table : List Symbol
table = function 0x300 ∷ function 0x100 ∷ function 0x200 ∷ []

resolve_address-sort_symbol_table_example :
    Found 0x208 table (resolve_address 0x208 (sort_symbol_table table))
resolve_address-sort_symbol_table_example = resolve_address-sort_symbol_table 0x208 table

finds :
    resolve_address 0x208 (sort_symbol_table table)
    ≡ record { entry = some (function 0x200); exact = false }
unfolding sort_symbol_table resolve_address
finds = refl

-- The symbol `_Z3mapPvm` at the address 0x5000.
abbrev map_name : ℕ → ℕ
map_name i = elim (get_elem? (codes "_Z3mapPvm") i) [ none ↦ 0 | some c ↦ c ]

abbrev klib : Klib
klib = record {
  atoi = λ l. elim l [ [] ↦ 0 | d ∷ _ ↦ 3 ];
  strlen = λ _. 9;
  fresh = λ _. 7;
  name_str = λ _. 7;
  old_str = λ _. 7;
  latest_str = λ _. 7;
}

abbrev map_symbol : Symbol
map_symbol = record { address = 0x5000; name = 1; size = 0x40 }
