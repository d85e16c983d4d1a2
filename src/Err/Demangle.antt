-- ===== src/Err/Demangle.antt =====
-- src/kernel/err/mangle.cc: a mangled name as the text of a declaration.
-- A string is an array of character codes. The arrays on the stack and the buffer of `kmalloc` hold
-- anything at first; `old_params` is the array of 64 rows of 16 characters as it lies in memory.
-- Every loop that runs up to a character is on fuel. `none` is that the fuel ran out, or that the code
-- wrote past the end of an array: what the buffer of 128 bytes, `latest_type`, `old_params` and the
-- digits of a number hold is measured at the end of each step.
pub mod Names
pub mod Parameters
mod Tests
use slayer_os.Base.{
  ℕ, zero, suc, ◌+◌, ◌*◌, Bool, true, false, not, ◌&&◌, ◌||◌, Option, none, some, List, [], ◌∷◌,
  ◌==◌, ltb, leb, if◌then◌else◌, update, u32, length,
}
use slayer_os.Base.Cells.{codes, copy}

-- klib's `atoi` and `strlen`, and what the buffer of `kmalloc` and the arrays on the stack
-- hold at first.
pub record Klib : Type 0 where
  pub atoi : List ℕ → ℕ
  pub strlen : (ℕ → ℕ) → ℕ
  pub fresh : ℕ → ℕ
  pub name_str : ℕ → ℕ
  pub old_str : ℕ → ℕ
  pub latest_str : ℕ → ℕ

unfoldable pub is_mangled : (ℕ → ℕ) → Bool
is_mangled name = (name 0 == b'_') && (name 1 == b'Z')

abbrev pub is_digit : ℕ → Bool
is_digit c = leb b'0' c && leb c b'9'

abbrev pub is_end_of_parameters : ℕ → Bool
is_end_of_parameters c = (c == b'E') || (c == 0) || (c == b' ')

-- The variables of `demangle_alloc_symbol`.
pub record Demangler : Type 0 where
  pub buffer : ℕ → ℕ
  pub i : ℕ
  pub j : ℕ
  pub old_params : ℕ → ℕ
  pub old_params_i : ℕ
  pub latest_type : ℕ → ℕ
  pub latest_size : ℕ

-- What is written ends within the buffer and the arrays of types, where the null character of the
-- type is counted in `old_params`.
abbrev pub in_arrays : Demangler → Bool
in_arrays s = leb s.j 128 && leb s.latest_size 64 && ltb (s.old_params_i * 16 + s.latest_size) 1024

-- One character for the buffer and for the latest type.
unfoldable pub push : ℕ → Demangler → Demangler
push c s = record s {
  buffer = update s.buffer s.j c;
  j = u32 (s.j + 1);
  latest_type = update s.latest_type s.latest_size c;
  latest_size = u32 (s.latest_size + 1);
}

-- `append_to_buffer`, of a string constant.
unfoldable pub append_to_buffer : List ℕ → Demangler → Demangler
unfolding push
append_to_buffer [] s = s
append_to_buffer (c ∷ cs) s = append_to_buffer cs (push c s)

-- `append_to_buffer`, and the last loop of `handle_repeated_type`, of a string in memory.
unfoldable pub append_until : (ℕ → Bool) → ℕ → (ℕ → ℕ) → ℕ → Demangler → Option Demangler
unfolding push
append_until stop zero str at s = none
append_until stop (suc n) str at s =
    let rest = append_until stop n str (at + 1) (push (str at) s) in
    if stop (str at) then some s else rest

-- The cases of `demangle_single_parameter` that append a constant.
unfoldable pub type_text : ℕ → Option (List ℕ)
type_text c =
    if c == b'P'
    then some (codes "*")
    else (if c == b'v'
        then some (codes "void")
        else (if c == b'm'
            then some (codes "u64")
            else (if c == b'j'
                then some (codes "u32")
                else (if c == b't'
                    then some (codes "u16")
                    else (if c == b'h'
                        then some (codes "u8")
                        else (if c == b'y'
                            then some (codes "u64")
                            else (if c == b'x'
                                then some (codes "long long")
                                else (if c == b'i'
                                    then some (codes "int")
                                    else (if c == b'l'
                                        then some (codes "long")
                                        else (if c == b'c'
                                            then some (codes "char")
                                            else (if c == b'b'
                                                then some (codes "bool")
                                                else (if c == b'f'
                                                    then some (codes "float")
                                                    else (if c == b'd'
                                                        then some (codes "double")
                                                        else (if c == b's'
                                                            then some (codes "short")
                                                            else (if c == b'K'
                                                            then some (codes "const ")
                                                            else (if c == b'z'
                                                            then some (codes "...")
                                                            else none))))))))))))))))

module _ (k : Klib) (name : ℕ → ℕ) (fuel : ℕ) where
  -- The loop of `parse_function_length`, with the rounds left.
  unfoldable pub read_digits : ℕ → ℕ → Option (List ℕ × ℕ)
  read_digits zero i = none
  read_digits (suc n) i =
      let rest = read_digits n (u32 (i + 1)) in
      if is_digit (name i)
      then elim rest [ none ↦ none | some (digits, i') ↦ some (name i ∷ digits, i') ]
      else some ([], i)

  unfoldable pub parse_function_length : ℕ → Option (ℕ × ℕ)
  unfolding read_digits
  parse_function_length i = elim (read_digits fuel i) [
    | none ↦ none
    | some (digits, i') ↦ if ltb (length digits) 16 then some (u32 (k.atoi digits), i') else none
  ]

  -- The loop of `unmangle_name`, with the rounds left: the buffer, `i` and `j`.
  unfoldable pub unmangle_parts : ℕ → (ℕ → ℕ) → ℕ → ℕ → Option ((ℕ → ℕ) × ℕ × ℕ)
  unfolding parse_function_length
  unmangle_parts zero buffer i j = none
  unmangle_parts (suc n) buffer i j =
      if name i == b'E' then some (buffer, i, j) else (elim (parse_function_length i) [
        | none ↦ none
        | some (length, i1) ↦
            let buffer1 = copy buffer j name i1 length in
            let j1 = u32 (j + length) in
            let i2 = u32 (i1 + length) in
            let last = name i2 == b'E' in
            let buffer2 =
              if last then buffer1 else update (update buffer1 j1 b':') (u32 (j1 + 1)) b':' in
            unmangle_parts n buffer2 i2 (if last then j1 else u32 (j1 + 2))
      ])

  -- `unmangle_name`, with the buffer and `i`.
  unfoldable pub unmangle_name : (ℕ → ℕ) → ℕ → Option ((ℕ → ℕ) × ℕ)
  unfolding parse_function_length unmangle_parts
  unmangle_name buffer i =
      let ns = name i == b'N' in
      elim (parse_function_length (if ns then u32 (i + 1) else i)) [
        | none ↦ none
        | some (length, i1) ↦
            let buffer1 = copy buffer 0 name i1 length in
            let i2 = u32 (i1 + length) in
            if ns
            then (let separated = update (update buffer1 length b':') (u32 (length + 1)) b':' in
                elim (unmangle_parts fuel separated i2 (u32 (length + 2))) [
                  | none ↦ none
                  | some (buffer3, i3, j3) ↦ some (update buffer3 j3 0, u32 (i3 + 1))
                ])
            else some (update buffer1 length 0, i2)
      ]

  -- `copy_function_name`
  unfoldable pub copy_function_name : ℕ → Demangler → Demangler
  copy_function_name length s = record s {
    buffer = update (copy s.buffer 0 name s.i length) length b'(';
    j = u32 (length + 1);
    i = u32 (s.i + length);
  }

  -- `append_remaining_name`, with the rounds left.
  unfoldable pub append_remaining_name : ℕ → Demangler → Option Demangler
  append_remaining_name zero s = none
  append_remaining_name (suc n) s =
      let rest = append_remaining_name n (record s {
        buffer = update s.buffer s.j (name s.i);
        j = u32 (s.j + 1);
        i = u32 (s.i + 1);
      }) in
      if name s.i == 0 then some s else rest

  -- The first loop of `handle_repeated_type`, with the rounds left.
  unfoldable pub read_index : ℕ → ℕ → Option (List ℕ × ℕ)
  read_index zero i = none
  read_index (suc n) i =
      if name i == b'_' then some ([], i) else (elim (read_index n (u32 (i + 1))) [
        | none ↦ none
        | some (digits, i') ↦ some (name i ∷ digits, i')
      ])

  unfoldable pub handle_repeated_type : Demangler → Option Demangler
  unfolding read_index append_until
  handle_repeated_type s = elim (read_index fuel (u32 (s.i + 1))) [
    | none ↦ none
    | some (digits, i') ↦
        let repeat : ℕ = elim digits [ [] ↦ 0 | d ∷ ds ↦ u32 (k.atoi (d ∷ ds)) ] in
        if ltb (length digits) 16 && ltb repeat 64
        then append_until (λ c. (c == 0) || (c == b' ')) fuel s.old_params (repeat * 16)
            (record s { i = i' })
        else none
  ]

  unfoldable pub handle_objstruct : Demangler → Option Demangler
  unfolding unmangle_name append_until
  handle_objstruct s = elim (unmangle_name k.name_str s.i) [
    | none ↦ none
    | some (name_str, i') ↦ append_until (λ c. c == 0) fuel name_str 0 (record s { i = i' })
  ]

  unfoldable pub demangle_single_parameter : Demangler → Option Demangler
  unfolding type_text append_to_buffer append_until handle_repeated_type handle_objstruct
  demangle_single_parameter s =
      let c = name s.i in
      elim (type_text c) [
        | some text ↦ some (append_to_buffer text s)
        | none ↦
            if c == b'S'
            then handle_repeated_type s
            else (if is_digit c || (c == b'N')
                then handle_objstruct s
                else append_until (λ x. x == 0) fuel name s.i s)
      ]

  -- `add_separator`
  unfoldable pub add_separator : Demangler → Demangler
  add_separator s = if is_end_of_parameters (name s.i) then s else record s {
    buffer = update (update s.buffer s.j b',') (u32 (s.j + 1)) b' ';
    j = u32 (s.j + 2);
  }

  -- What `demangle_parameters` does at the end of a type.
  abbrev pub end_type : Demangler → Demangler
  end_type s =
      let row = s.old_params_i * 16 in
      let ended = update s.old_params (row + s.latest_size) 0 in
      record s {
        i = u32 (s.i + 1);
        old_params = copy ended row s.latest_type 0 s.latest_size;
        old_params_i = u32 (s.old_params_i + 1);
        latest_size = 0;
      }

  unfoldable pub store_type : Demangler → Demangler
  unfolding add_separator
  store_type s = add_separator (end_type s)

  -- `demangle_parameters`, with the rounds left.
  unfoldable pub demangle_parameters : ℕ → Demangler → Option Demangler
  unfolding demangle_single_parameter store_type
  demangle_parameters zero s = none
  demangle_parameters (suc n) s =
      if is_end_of_parameters (name s.i) then some s else (elim (demangle_single_parameter s) [
        | none ↦ none
        | some s' ↦
            let c = name s'.i in
            let rest = demangle_parameters n (
              if (c == b'P') || (c == b'K')
              then record s' { i = u32 (s'.i + 1) }
              else store_type s') in
            if in_arrays s' then rest else none
      ])

  -- The name of the function, in front of its parameters.
  unfoldable pub demangle_name : Demangler → Option Demangler
  unfolding unmangle_name parse_function_length copy_function_name
  demangle_name s =
      if name s.i == b'N'
      then (elim (unmangle_name s.buffer s.i) [
        | none ↦ none
        | some (buffer, i') ↦
            let j = u32 (k.strlen buffer) in
            if ltb j 128
            then some (record s { buffer = update buffer j b'('; j = u32 (j + 1); i = i' })
            else none
      ])
      else (elim (parse_function_length s.i) [
        | none ↦ none
        | some (n, i') ↦
            if ltb n 128 then some (copy_function_name n (record s { i = i' })) else none
      ])

  -- What `demangle_alloc_symbol` does behind the name of a function.
  unfoldable pub demangle_rest : Demangler → Option Demangler
  unfolding demangle_parameters append_remaining_name
  demangle_rest s = elim (demangle_parameters fuel s) [
    | none ↦ none
    | some s' ↦
        elim (append_remaining_name fuel
          (record s' { buffer = update s'.buffer s'.j b')'; j = u32 (s'.j + 1) })) [
            | none ↦ none
            | some s2 ↦ if leb s2.j 128 then some s2 else none
          ]
  ]

  -- `demangle_alloc_symbol`, with the buffer that it returns and how much of it is written.
  unfoldable pub demangle_alloc_symbol : Option ((ℕ → ℕ) × ℕ)
  unfolding is_mangled demangle_name demangle_rest
  demangle_alloc_symbol =
      let start : Demangler = record {
        buffer = k.fresh;
        i = 2;
        j = 0;
        old_params = k.old_str;
        old_params_i = 0;
        latest_type = k.latest_str;
        latest_size = 0;
      } in
      if is_mangled name
      then (elim (demangle_name start) [
        | none ↦ none
        | some s ↦ elim (demangle_rest s) [ none ↦ none | some s' ↦ some (s'.buffer, s'.j) ]
      ])
      else (if leb (k.strlen name) 128
          then some (copy k.fresh 0 name 0 (k.strlen name), k.strlen name)
          else none)
