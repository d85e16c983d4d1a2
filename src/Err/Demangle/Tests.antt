-- ===== src/Err/Demangle/Tests.antt =====
-- A name that src/kernel/err/mangle.cc reads: `_Z3mapPvm`, the function `map(*void, u64)`.
use slayer_os.Base.{ℕ, ◌≡◌, refl, some, List, [], ◌∷◌, none, get_elem?}
use slayer_os.Base.Cells.{codes}
use slayer_os.Err.Demangle.{Klib, type_text}
use slayer_os.Err.Demangle.Parameters.{shown}

abbrev char_of : List ℕ → ℕ → ℕ
char_of l i = elim (get_elem? l i) [ none ↦ 0 | some c ↦ c ]

abbrev name : ℕ → ℕ
name = char_of (codes "_Z3mapPvm")

abbrev klib : Klib
klib = record {
  atoi = λ l. elim l [ [] ↦ 0 | d ∷ _ ↦ 3 ];
  strlen = λ _. 9;
  fresh = λ _. 7;
  name_str = λ _. 7;
  old_str = λ _. 7;
  latest_str = λ _. 7;
}

shown_params : shown (codes "Pvm") ≡ codes "*void, u64"
unfolding type_text
shown_params = refl
