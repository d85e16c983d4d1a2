-- ===== src/Err/Demangle/Parameters.antt =====
-- The parameters of a mangled name: `demangle_parameters` of src/kernel/err/mangle.cc.
use mathlib.Core.List.{append-nil, append_assoc}
use mathlib.Core.Path.{subst}
use slayer_os.Base.{
  ℕ, zero, suc, ◌+◌, ◌^◌, ◌≡◌, ◌≢◌, ◌⊎◌, ◌*◌, ◌<◌, ◌≤◌, ◌∙◌, refl, sym, ap, inl, inr, Bool, true,
  false, ◌||◌, Option, none, some, List, [], ◌∷◌, ◌++◌, ◌==◌, if◌then◌else◌, update, u32, arith,
  length, length-append, Bool-cases,
}
use slayer_os.Base.Cells.{codes, cells, cells-snoc, Reads}
use slayer_os.Err.Demangle.{
  Klib, Demangler, in_arrays, is_end_of_parameters, push, append_to_buffer, type_text,
  demangle_single_parameter, add_separator, end_type, store_type, demangle_parameters,
}

-- `out` has been written to the buffer.
pub record Written (s : Demangler) (out : List ℕ) : Type 0 where
  pub size : s.j ≡ length out
  pub text : cells s.buffer 0 (length out) ≡ out

-- One more character in the buffer.
pub Written-snoc :
    (f : ℕ → ℕ) (j c : ℕ) (out : List ℕ)
    → j ≡ length out
    → cells f 0 (length out) ≡ out
    → cells (update f j c) 0 (length (out ++ (c ∷ []))) ≡ out ++ (c ∷ [])
Written-snoc f j c out size text =
    let n : length (out ++ (c ∷ [])) ≡ suc (length out) =
      omega (arith, length-append out (c ∷ [])) in
    ap (λ m. cells (update f m c) 0 (length (out ++ (c ∷ [])))) size
    ∙ ap (λ m. cells (update f (length out) c) 0 m) n
    ∙ cells-snoc f c (length out)
    ∙ ap (λ l. l ++ (c ∷ [])) text

push-Written :
    (s : Demangler) (out : List ℕ) (c : ℕ)
    → Written s out
    → length out + 1 < 2 ^ 32
    → Written (push c s) (out ++ (c ∷ []))
unfolding push
push-Written s out c w few = record {
  size = omega (arith, w.size, length-append out (c ∷ []));
  text = Written-snoc s.buffer s.j c out w.size w.text;
}

append_to_buffer-Written :
    (s : Demangler) (out cs : List ℕ)
    → Written s out
    → length out + length cs < 2 ^ 32
    → Written (append_to_buffer cs s) (out ++ cs)
unfolding append_to_buffer
append_to_buffer-Written s out [] w few = subst (λ l. Written s l) (sym (append-nil out)) w
append_to_buffer-Written s out (c ∷ cs) w few =
    subst (λ l. Written (append_to_buffer cs (push c s)) l) (append_assoc out (c ∷ []) cs)
      (append_to_buffer-Written (push c s) (out ++ (c ∷ [])) cs
        (push-Written s out c w (omega arith)) (omega (arith, length-append out (c ∷ []))))

-- Where the name is read stays.
append_to_buffer-i : (cs : List ℕ) (s : Demangler) → (append_to_buffer cs s).i ≡ s.i
unfolding append_to_buffer push
append_to_buffer-i [] s = refl
append_to_buffer-i (c ∷ cs) s = append_to_buffer-i cs (push c s)

append_to_buffer-latest_size :
    (cs : List ℕ) (s : Demangler)
    → s.latest_size + length cs < 2 ^ 32
    → (append_to_buffer cs s).latest_size ≡ s.latest_size + length cs
unfolding append_to_buffer push
append_to_buffer-latest_size [] s few = omega arith
append_to_buffer-latest_size (c ∷ cs) s few =
    let next : u32 (s.latest_size + 1) ≡ s.latest_size + 1 = omega arith in
    append_to_buffer-latest_size cs (push c s) (omega arith) ∙ omega arith

append_to_buffer-old_params_i :
    (cs : List ℕ) (s : Demangler) → (append_to_buffer cs s).old_params_i ≡ s.old_params_i
unfolding append_to_buffer push
append_to_buffer-old_params_i [] s = refl
append_to_buffer-old_params_i (c ∷ cs) s = append_to_buffer-old_params_i cs (push c s)

abbrev pub is_prefix : ℕ → Bool
is_prefix c = (c == b'P') || (c == b'K')

abbrev pub text_or_empty : Option (List ℕ) → List ℕ
text_or_empty none = []
text_or_empty (some text) = text

-- What stands between a type and the codes behind it.
abbrev pub separator : List ℕ → List ℕ
separator [] = []
separator (_ ∷ _) = codes ", "

-- The text of the parameters that some codes name.
abbrev pub shown : List ℕ → List ℕ
shown [] = []
shown (c ∷ cs) =
    text_or_empty (type_text c) ++ ((if is_prefix c then [] else separator cs) ++ shown cs)

-- Codes of types and prefixes whose text is a constant.
abbrev pub AllPlain : List ℕ → Type 0
AllPlain [] = Unit
AllPlain (c ∷ cs) = ((text : List ℕ) × (type_text c ≡ some text)) × AllPlain cs

end_cases : (c : ℕ) → is_end_of_parameters c ≡ true → (c ≡ b'E') ⊎ ((c ≡ 0) ⊎ (c ≡ b' '))
end_cases c e = ground arith

-- The three characters that end the parameters have no text.
plain_goes_on : (c : ℕ) {text : List ℕ} → type_text c ≡ some text → is_end_of_parameters c ≡ false
unfolding type_text
plain_goes_on c {text} e = elim (Bool-cases (is_end_of_parameters c)) [
  | inr on ↦ on
  | inl ends ↦ elim (end_cases c ends) [
    | inl at ↦ absurd (no_text b'E' refl at)
    | inr (inl at) ↦ absurd (no_text 0 refl at)
    | inr (inr at) ↦ absurd (no_text b' ' refl at)
  ]
]
  where
    no_text : (a : ℕ) → type_text a ≡ none → c ≢ a
    no_text a without at = absurd (clash (sym without ∙ ap type_text (sym at) ∙ e))
      where
        clash : {l : List ℕ} → none ≢ some l
        clash h = subst (λ o. elim o [ none ↦ Unit | some _ ↦ ⊥ ]) h tt

add_separator-Written :
    (k : Klib) (name : ℕ → ℕ) (fuel : ℕ) (s : Demangler) (out : List ℕ)
    → Written s out
    → length out + 2 < 2 ^ 32
    → Written
        (add_separator k name fuel s)
        (out ++ (if is_end_of_parameters (name s.i) then [] else codes ", "))
unfolding add_separator
add_separator-Written k name fuel s out w few =
    elim (Bool-cases (is_end_of_parameters (name s.i))) [
      | inl ends ↦ rw ends (subst (λ l. Written s l) (sym (append-nil out)) w)
      | inr on ↦
          let next : u32 (s.j + 1) ≡ length (out ++ (b',' ∷ [])) =
            omega (arith, w.size, length-append out (b',' ∷ [])) in
          let text =
            Written-snoc (update s.buffer s.j b',') (u32 (s.j + 1)) b' ' (out ++ (b',' ∷ [])) next
              (Written-snoc s.buffer s.j b',' out w.size w.text) in
          rw on (record {
            size = omega (arith, w.size, length-append out (codes ", "));
            text =
                subst
                  (λ l.
                    cells (update (update s.buffer s.j b',') (u32 (s.j + 1)) b' ') 0 (length l) ≡ l)
                  (append_assoc out (b',' ∷ []) (b' ' ∷ [])) text;
          })
    ]

add_separator-i :
    (k : Klib) (name : ℕ → ℕ) (fuel : ℕ) (s : Demangler) → (add_separator k name fuel s).i ≡ s.i
unfolding add_separator
add_separator-i k name fuel s = ground arith

-- What `demangle_parameters` does behind a code.
abbrev behind : Klib → (ℕ → ℕ) → ℕ → ℕ → Demangler → Demangler
behind k name fuel c s =
    if is_prefix c then record s { i = u32 (s.i + 1) } else store_type k name fuel s

add_separator-sizes :
    (k : Klib) (name : ℕ → ℕ) (fuel : ℕ) (s : Demangler)
    → ((add_separator k name fuel s).latest_size ≡ s.latest_size)
      × ((add_separator k name fuel s).old_params_i ≡ s.old_params_i)
unfolding add_separator
add_separator-sizes k name fuel s = elim (Bool-cases (is_end_of_parameters (name s.i))) [
  | inl ends ↦ rw ends (refl, refl)
  | inr on ↦ rw on (refl, refl)
]

-- The arrays of types hold no more behind a code than a type more.
behind-sizes :
    (k : Klib) (name : ℕ → ℕ) (fuel c : ℕ) (s : Demangler)
    → ((behind k name fuel c s).latest_size ≤ s.latest_size)
      × ((behind k name fuel c s).old_params_i ≤ s.old_params_i + 1)
unfolding store_type
behind-sizes k name fuel c s = elim (Bool-cases (is_prefix c)) [
  | inl prefix ↦ rw prefix (omega arith, omega arith)
  | inr last ↦
      let (size, rows) = add_separator-sizes k name fuel (end_type k name fuel s) in
      rw last (omega (arith, size), omega (arith, rows))
]

module _ (k : Klib) (name : ℕ → ℕ) (fuel : ℕ) where
  behind-Written :
      (c : ℕ) (s : Demangler) (out cs : List ℕ) (e : ℕ)
      → Written s out
      → length out + 2 < 2 ^ 32
      → s.i + 1 < 2 ^ 32
      → is_end_of_parameters e ≡ true
      → AllPlain cs
      → Reads name (s.i + 1) (cs ++ (e ∷ []))
      → Written (behind k name fuel c s) (out ++ (if is_prefix c then [] else separator cs))
        × ((behind k name fuel c s).i ≡ s.i + 1)
  unfolding store_type
  behind-Written c s out cs e w few few' ends plain reads = elim (Bool-cases (is_prefix c)) [
    | inl prefix ↦ rw prefix (
      subst (λ l. Written (record s { i = u32 (s.i + 1) }) l) (sym (append-nil out))
          (record { size = w.size; text = w.text }),
      omega arith,
    )
    | inr last ↦
        let s1 : Demangler = end_type k name fuel s in
        let at : s1.i ≡ s.i + 1 = omega arith in
        let sep : (if is_end_of_parameters (name s1.i) then [] else codes ", ") ≡ separator cs =
          separates s1.i cs plain (subst (λ p. Reads name p (cs ++ (e ∷ []))) (sym at) reads) in
        let w' : Written s1 out = record { size = w.size; text = w.text } in
        rw last (
          subst (λ l. Written (store_type k name fuel s) (out ++ l)) sep
              (add_separator-Written k name fuel s1 out w' few),
          add_separator-i k name fuel s1 ∙ at,
        )
  ]
    where
      separates :
          (p : ℕ) (cs : List ℕ)
          → AllPlain cs
          → Reads name p (cs ++ (e ∷ []))
          → (if is_end_of_parameters (name p) then [] else codes ", ") ≡ separator cs
      separates p [] plain (at, _) = rw (at, ends) refl
      separates p (d ∷ cs) ((_, text), _) (at, _) = rw (at, plain_goes_on d text) refl

  single_plain :
      (s : Demangler) (text : List ℕ)
      → type_text (name s.i) ≡ some text
      → demangle_single_parameter k name fuel s ≡ some (append_to_buffer text s)
  unfolding demangle_single_parameter
  single_plain s text e = rw (e, demangle_single_parameter) refl

  one_round :
      (n : ℕ) (s s1 : Demangler)
      → is_end_of_parameters (name s.i) ≡ false
      → demangle_single_parameter k name fuel s ≡ some s1
      → in_arrays s1 ≡ true
      → demangle_parameters k name fuel (suc n) s
        ≡ demangle_parameters k name fuel n (behind k name fuel (name s1.i) s1)
  unfolding demangle_parameters
  one_round n s s1 on e inside = rw (on, e, demangle_parameters, inside) refl

  abbrev sep : ℕ → List ℕ → List ℕ
  sep c cs = if is_prefix c then [] else separator cs

  sep-short : (c : ℕ) (cs : List ℕ) → length (sep c cs) ≤ 2
  sep-short c [] = ground arith
  sep-short c (d ∷ cs) = ground arith

  -- One round of the loop, for a plain code.
  one_code :
      (n : ℕ) (s : Demangler) (out : List ℕ) (c : ℕ) (text cs : List ℕ) (e : ℕ)
      → Written s out
      → length out + length text ≤ 128
      → s.latest_size + length text ≤ 64
      → s.old_params_i < 60
      → s.i + 1 < 2 ^ 32
      → is_end_of_parameters e ≡ true
      → type_text c ≡ some text
      → AllPlain cs
      → Reads name s.i (c ∷ (cs ++ (e ∷ [])))
      → (s' : Demangler) × (demangle_parameters k name fuel (suc n) s
          ≡ demangle_parameters k name fuel n s')
        × Written s' ((out ++ text) ++ sep c cs)
        × (s'.i ≡ s.i + 1)
        × (s'.latest_size ≤ s.latest_size + length text)
        × (s'.old_params_i ≤ s.old_params_i + 1)
  one_code n s out c text cs e w few types rows few' ends plain plains (at, reads) =
      let s1 = append_to_buffer text s in
      let same : s1.i ≡ s.i = append_to_buffer-i text s in
      let so_far : length (out ++ text) ≡ length out + length text = length-append out text in
      let w1 = append_to_buffer-Written s out text w (omega arith) in
      let (w2, i2) =
        behind-Written c s1 (out ++ text) cs e w1 (omega arith) (omega arith) ends plains
          (subst (λ p. Reads name (p + 1) (cs ++ (e ∷ []))) (sym same) reads) in
      let latest = append_to_buffer-latest_size text s (omega arith) in
      let old = append_to_buffer-old_params_i text s in
      let (latest', old') = behind-sizes k name fuel c s1 in
      let j_in : s1.j ≤ 128 = omega (arith, w1.size, so_far) in
      let type_in : s1.latest_size ≤ 64 = omega (arith, latest) in
      let row_in : s1.old_params_i * 16 + s1.latest_size < 1024 = omega (arith, old, type_in) in
      let inside : in_arrays s1 ≡ true = ground arith in
      (
        behind k name fuel c s1,
        one_round n s s1 (rw at (plain_goes_on c plain))
              (single_plain s text (ap type_text at ∙ plain)) inside
            ∙ ap (λ d. demangle_parameters k name fuel n (behind k name fuel d s1))
                (ap name same ∙ at),
        w2,
        i2 ∙ ap (λ p. p + 1) same,
        omega (arith, latest', latest),
        omega (arith, old', old),
      )

  shown-long :
      (c : ℕ) (text cs : List ℕ)
      → type_text c ≡ some text
      → (shown (c ∷ cs) ≡ text ++ (sep c cs ++ shown cs))
        × (length (shown (c ∷ cs)) ≡ length text + (length (sep c cs) + length (shown cs)))
  shown-long c text cs plain =
      let same : shown (c ∷ cs) ≡ text ++ (sep c cs ++ shown cs) = rw plain refl in
      (
        same,
        ap length same
            ∙ length-append text (sep c cs ++ shown cs)
            ∙ ap (λ m. length text + m) (length-append (sep c cs) (shown cs)),
      )

  -- The parameters are codes of types and prefixes, up to the first character that ends them: the
  -- loop ends there, and their text stands behind what was in the buffer.
  pub demangle_parameters-Written :
      (n : ℕ) (s : Demangler) (out cs : List ℕ) (e : ℕ)
      → Written s out
      → length cs < n
      → length out + length (shown cs) ≤ 128
      → s.latest_size + length (shown cs) ≤ 64
      → s.old_params_i + length cs ≤ 60
      → s.i + length cs < 2 ^ 32
      → is_end_of_parameters e ≡ true
      → AllPlain cs
      → Reads name s.i (cs ++ (e ∷ []))
      → (s' : Demangler) × (demangle_parameters k name fuel n s ≡ some s')
        × Written s' (out ++ shown cs)
        × (s'.i ≡ s.i + length cs)
  unfolding demangle_parameters
  demangle_parameters-Written zero s out cs e w fuel few types rows few' ends plain reads =
      absurd (omega arith)
  demangle_parameters-Written (suc n) s out [] e w fuel few types rows few' ends plain (at, _) =
      (s, rw (at, ends) refl, subst (λ l. Written s l) (sym (append-nil out)) w, omega arith)
  demangle_parameters-Written (suc n) s out (c ∷ cs) e w rounds few types rows few' ends
        ((text, plain), plains) reads =
      let (same, long) = shown-long c text cs plain in
      let (s1, round, w1, i1, latest, old) =
        one_code n s out c text cs e w (omega arith) (omega arith) (omega arith) (omega arith) ends
          plain plains reads in
      let so_far : length ((out ++ text) ++ sep c cs)
          ≡ length out + length text + length (sep c cs) =
        omega (arith, length-append (out ++ text) (sep c cs), length-append out text) in
      let (s', run, w', i') =
        demangle_parameters-Written n s1 ((out ++ text) ++ sep c cs) cs e w1 (omega arith)
          (omega arith) (omega (arith, latest)) (omega (arith, old)) (omega arith) ends plains
          (subst (λ p. Reads name p (cs ++ (e ∷ []))) (sym i1) reads.1) in
      (
        s',
        round ∙ run,
        subst (λ l. Written s' l)
            (append_assoc (out ++ text) (sep c cs) (shown cs)
              ∙ append_assoc out text (sep c cs ++ shown cs)
              ∙ ap (λ l. out ++ l) (sym same))
            w',
        omega (arith, i', i1),
      )
