-- ===== src/Err/Demangle/Names.antt =====
-- `demangle_alloc_symbol` of src/kernel/err/mangle.cc, for functions with plain parameters.
use slayer_os.Base.{ℕ, ◌+◌, ◌≡◌, ◌≢◌, ◌≤◌, true, List, [], ◌∷◌, length}
use slayer_os.Err.Demangle.{is_digit}
use slayer_os.Err.Demangle.Parameters.{shown}

abbrev pub AllDigits : List ℕ → Type 0
AllDigits [] = Unit
AllDigits (c ∷ cs) = (is_digit c ≡ true) × AllDigits cs

abbrev pub NoneNull : List ℕ → Type 0
NoneNull [] = Unit
NoneNull (c ∷ cs) = (c ≢ 0) × NoneNull cs

-- The code stays within its arrays on a name: the digits of the length in `length_str`, the text in the
-- buffer of 128 bytes, the types in `latest_type`, and in the rows of `old_params`, of which the last
-- one that is written begins 64 bytes or more before the end.
pub record FitsArrays (ds f cs rem : List ℕ) : Type 0 where
  pub digits : length ds ≤ 14
  pub text : length f + length (shown cs) + length rem + 3 ≤ 128
  pub types : length (shown cs) ≤ 64
  pub rows : length cs ≤ 60

-- The first character of a string.
abbrev pub first_of : List ℕ → ℕ
first_of [] = 0
first_of (c ∷ cs) = c
