-- ===== src/Err/Symbols/Sort.antt =====
-- `sort_symbol_table` of src/kernel/err/meta_resolver.cc: the table is in order afterwards, and has
-- the entries from before.
use mathlib.Core.List.{Perm}
use mathlib.Core.List.Perm
use slayer_os.Base.{
  ℕ, zero, suc, ◌≡◌, ◌≤◌, Bool, true, false, List, [], ◌∷◌, ltb, if◌then◌else◌, length, arith, inl,
  inr, refl, Bool-cases,
}
use slayer_os.Base.Perms.{swap-perm}
use slayer_os.Err.Symbols.{Symbol, symbol_pass, symbol_rounds, sort_symbol_table}

-- No entry lies below an address.
abbrev pub AllFrom : ℕ → List Symbol → Type 0
AllFrom a [] = Unit
AllFrom a (s ∷ ss) = (a ≤ s.address) × AllFrom a ss

-- The addresses do not fall.
abbrev pub IsSorted : List Symbol → Type 0
IsSorted [] = Unit
IsSorted (s ∷ ss) = AllFrom s.address ss × IsSorted ss

symbol_pass-perm :
    (x : Symbol) (ys : List Symbol) → Perm ((symbol_pass x ys).0 ∷ (symbol_pass x ys).1) (x ∷ ys)
unfolding symbol_pass
symbol_pass-perm x [] = Perm.refl (x ∷ [])
symbol_pass-perm x (y ∷ ys) =
    let b : Bool = ltb y.address x.address in
    swap-perm b x y _ _ ys (symbol_pass-perm (if b then y else x) ys)

-- The entry that stays in front does not lie behind the other one.
pick_least :
    (b : Bool) (x y : Symbol)
    → ltb y.address x.address ≡ b
    → ((if b then y else x).address ≤ x.address)
      × ((if b then y else x).address ≤ (if b then x else y).address)
pick_least true x y e = (ground arith, ground arith)
pick_least false x y e = (omega arith, ground arith)

-- The entry that a pass brings to the front lies below the first one and below all others.
symbol_pass-least :
    (x : Symbol) (ys : List Symbol)
    → ((symbol_pass x ys).0.address ≤ x.address)
      × AllFrom (symbol_pass x ys).0.address (symbol_pass x ys).1
unfolding symbol_pass
symbol_pass-least x [] = (omega arith, tt)
symbol_pass-least x (y ∷ ys) =
    let b : Bool = ltb y.address x.address in
    let (le, le') = pick_least b x y refl in
    let (low, all) = symbol_pass-least (if b then y else x) ys in
    (omega (arith, low, le), (omega (arith, low, le'), all))

symbol_pass-AllFrom :
    (a : ℕ) (x : Symbol) (ys : List Symbol)
    → AllFrom a (x ∷ ys)
    → AllFrom a ((symbol_pass x ys).0 ∷ (symbol_pass x ys).1)
unfolding symbol_pass
symbol_pass-AllFrom a x [] h = h
symbol_pass-AllFrom a x (y ∷ ys) (le, (le', h)) = elim (Bool-cases (ltb y.address x.address)) [
  | inl below ↦ let (low, all) = symbol_pass-AllFrom a y ys (le', h) in rw below (low, (le, all))
  | inr above ↦ let (low, all) = symbol_pass-AllFrom a x ys (le, h) in rw above (low, (le', all))
]

symbol_rounds-AllFrom : (a n : ℕ) (ss : List Symbol) → AllFrom a ss → AllFrom a (symbol_rounds n ss)
unfolding symbol_rounds
symbol_rounds-AllFrom a zero ss h = h
symbol_rounds-AllFrom a (suc n) [] h = tt
symbol_rounds-AllFrom a (suc n) (x ∷ ys) h =
    let (low, all) = symbol_pass-AllFrom a x ys h in (low, symbol_rounds-AllFrom a n _ all)

symbol_rounds-perm : (n : ℕ) (ss : List Symbol) → Perm (symbol_rounds n ss) ss
unfolding symbol_rounds
symbol_rounds-perm zero ss = Perm.refl ss
symbol_rounds-perm (suc n) [] = Perm.refl []
symbol_rounds-perm (suc n) (x ∷ ys) =
    Perm.trans (Perm.cons _ (symbol_rounds-perm n (symbol_pass x ys).1)) (symbol_pass-perm x ys)

length-pass : (x : Symbol) (ys : List Symbol) → length (symbol_pass x ys).1 ≡ length ys
unfolding symbol_pass
length-pass x [] = refl
length-pass x (y ∷ ys) = omega (arith, length-pass (if ltb y.address x.address then y else x) ys)

symbol_rounds-IsSorted : (n : ℕ) (ss : List Symbol) → length ss ≡ n → IsSorted (symbol_rounds n ss)
unfolding symbol_rounds
symbol_rounds-IsSorted zero [] e = tt
symbol_rounds-IsSorted zero (s ∷ ss) e = absurd (omega arith)
symbol_rounds-IsSorted (suc n) [] e = tt
symbol_rounds-IsSorted (suc n) (x ∷ ys) e = (
  symbol_rounds-AllFrom _ n (symbol_pass x ys).1 (symbol_pass-least x ys).1,
  symbol_rounds-IsSorted n (symbol_pass x ys).1 (omega (arith, length-pass x ys)),
)

-- The sort puts the table in the order of the addresses, and keeps every entry, as often as it
-- stands there.
pub sort_symbol_table-IsSorted :
    (ss : List Symbol) → IsSorted (sort_symbol_table ss) × Perm (sort_symbol_table ss) ss
unfolding sort_symbol_table
sort_symbol_table-IsSorted ss =
    (symbol_rounds-IsSorted (length ss) ss refl, symbol_rounds-perm (length ss) ss)
