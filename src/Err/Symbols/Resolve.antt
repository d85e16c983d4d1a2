-- ===== src/Err/Symbols/Resolve.antt =====
-- `resolve_address` of src/kernel/err/meta_resolver.cc on a table in the order of the addresses.
use mathlib.Core.List.{
  Perm, Mem, mem-cons_self, mem-cons_of_mem, eq-or-mem_of_mem-cons, not-mem-nil,
}
use mathlib.Core.List.Perm
use mathlib.Core.Logic.Or
use mathlib.Core.Path.{subst}
use native.Mathlib.Bridge.{le_prop}
use slayer_os.Base.{
  ℕ, ◌≡◌, ◌≤◌, ◌<◌, ◌⊎◌, true, false, some, none, List, [], ◌∷◌, ltb, ◌==◌, arith, inl, inr, refl,
  Bool-cases,
}
use slayer_os.Err.Symbols.{Symbol, SearchResult, resolve_from, resolve_address, sort_symbol_table}
use slayer_os.Err.Symbols.Sort.{AllFrom, IsSorted, sort_symbol_table-IsSorted}

abbrev pub Occurs : Symbol → List Symbol → Type 0
Occurs s [] = ⊥
Occurs s (t ∷ ts) = (s ≡ t) ⊎ Occurs s ts

-- No entry lies between `s` and `a`.
abbrev pub NoneBetween : Symbol → ℕ → List Symbol → Type 0
NoneBetween s a [] = Unit
NoneBetween s a (t ∷ ts) = ((t.address ≤ s.address) ⊎ (a < t.address)) × NoneBetween s a ts

abbrev pub AllAbove : ℕ → List Symbol → Type 0
AllAbove a [] = Unit
AllAbove a (t ∷ ts) = (a < t.address) × AllAbove a ts

-- What a search for `a` may find: an entry at `a`; the last entry before `a`; or nothing, because
-- all entries lie behind `a`.
pub data Resolved (a : ℕ) (table : List Symbol) : SearchResult → Type 0 where
  exactly :
      {s : Symbol}
      → Occurs s table
      → s.address ≡ a
      → Resolved a table (record { entry = some s; exact = true })
  before :
      {s : Symbol}
      → Occurs s table
      → s.address < a
      → NoneBetween s a table
      → Resolved a table (record { entry = some s; exact = false })
  nothing : AllAbove a table → Resolved a table (record { entry = none; exact = false })

AllFrom-AllAbove : (a b : ℕ) (ts : List Symbol) → a < b → AllFrom b ts → AllAbove a ts
AllFrom-AllAbove a b [] lt h = tt
AllFrom-AllAbove a b (t ∷ ts) lt (le, h) = (omega arith, AllFrom-AllAbove a b ts lt h)

AllAbove-NoneBetween : (s : Symbol) (a : ℕ) (ts : List Symbol) → AllAbove a ts → NoneBetween s a ts
AllAbove-NoneBetween s a [] h = tt
AllAbove-NoneBetween s a (t ∷ ts) (lt, h) = (inr lt, AllAbove-NoneBetween s a ts h)

AllFrom-Occurs :
    (a : ℕ) (s : Symbol) (ts : List Symbol) → AllFrom a ts → Occurs s ts → a ≤ s.address
AllFrom-Occurs a s [] h o = absurd o
AllFrom-Occurs a s (t ∷ ts) (le, h) (inl e) = rw e le
AllFrom-Occurs a s (t ∷ ts) (le, h) (inr o) = AllFrom-Occurs a s ts h o

-- An entry in front of a search that goes on.
Resolved-cons :
    (a : ℕ) (k s : Symbol) (ss : List Symbol) (r : SearchResult)
    → AllFrom k.address (s ∷ ss)
    → s.address < a
    → Resolved a (s ∷ ss) r
    → Resolved a (k ∷ s ∷ ss) r
Resolved-cons a k s ss r h lt (exactly o e) = exactly (inr o) e
Resolved-cons a k s ss r h lt (before {s = t} o below between) =
    before (inr o) below (inl (AllFrom-Occurs k.address t (s ∷ ss) h o), between)
Resolved-cons a k s ss r h lt (nothing (above, _)) = absurd (omega arith)

resolve_from-Resolved :
    (a : ℕ) (k : Symbol) (ss : List Symbol)
    → k.address < a
    → IsSorted (k ∷ ss)
    → Resolved a (k ∷ ss) (resolve_from a (some k) ss)
unfolding resolve_from
resolve_from-Resolved a k [] lt h = before (inl refl) lt (inl (omega arith), tt)
resolve_from-Resolved a k (s ∷ ss) lt (from, sorted) = elim (Bool-cases (s.address == a)) [
  | inl here ↦ rw here (exactly (inr (inl refl)) (ground arith))
  | inr other ↦ elim (Bool-cases (ltb a s.address)) [
    | inl past ↦
        let above : a < s.address = ground arith in
        rw (other, past)
          (before (inl refl) lt (
            inl (omega arith),
            (
              inr above,
              AllAbove-NoneBetween k a ss (AllFrom-AllAbove a s.address ss above sorted.0),
            ),
          ))
    | inr on ↦
        let below : s.address < a = ground arith in
        rw (other, on)
          (Resolved-cons a k s ss _ from below (resolve_from-Resolved a s ss below sorted))
  ]
]

-- On a table in order, `resolve_address` finds an entry at the address, or the last one before it,
-- or nothing, because every entry lies behind it.
pub resolve_address-Resolved :
    (a : ℕ) (table : List Symbol) → IsSorted table → Resolved a table (resolve_address a table)
unfolding resolve_address resolve_from
resolve_address-Resolved a [] h = nothing tt
resolve_address-Resolved a (s ∷ ss) h = elim (Bool-cases (s.address == a)) [
  | inl here ↦ rw here (exactly (inl refl) (ground arith))
  | inr other ↦ elim (Bool-cases (ltb a s.address)) [
    | inl past ↦
        let above : a < s.address = ground arith in
        rw (other, past) (nothing (above, AllFrom-AllAbove a s.address ss above h.0))
    | inr on ↦
        let below : s.address < a = ground arith in
        rw (other, on) (resolve_from-Resolved a s ss below h)
  ]
]

-- What a search for `a` may find among the entries of an unsorted table: an entry at `a`; an entry
-- before `a` that none before `a` lies behind; or nothing, because all entries lie behind `a`.
pub data Found (a : ℕ) (table : List Symbol) : SearchResult → Type 0 where
  at_entry :
      {s : Symbol}
      → Mem s table
      → s.address ≡ a
      → Found a table (record { entry = some s; exact = true })
  last_before :
      {s : Symbol}
      → Mem s table
      → s.address < a
      → ((t : Symbol) → Mem t table → t.address ≤ a → t.address ≤ s.address)
      → Found a table (record { entry = some s; exact = false })
  none_before :
      ((t : Symbol) → Mem t table → a < t.address)
      → Found a table (record { entry = none; exact = false })

Occurs-Mem : (s : Symbol) (ts : List Symbol) → Occurs s ts → Mem s ts
Occurs-Mem s [] o = absurd o
Occurs-Mem s (t ∷ ts) (inl e) = rw (← e) mem-cons_self
Occurs-Mem s (t ∷ ts) (inr o) = mem-cons_of_mem t (Occurs-Mem s ts o)

NoneBetween-Mem :
    (s : Symbol) (a : ℕ) (ts : List Symbol) (t : Symbol)
    → NoneBetween s a ts
    → Mem t ts
    → t.address ≤ a
    → t.address ≤ s.address
NoneBetween-Mem s a [] t h m low = absurd (not-mem-nil m)
NoneBetween-Mem s a (u ∷ ts) t (here, h) m low =
    Or.elim le_prop (eq-or-mem_of_mem-cons m)
      (λ e. elim here [
        | inl le ↦ rw e le
        | inr past ↦
            let below : u.address ≤ a = subst (λ v. v.address ≤ a) e low in absurd (omega arith)
      ])
      (λ m'. NoneBetween-Mem s a ts t h m' low)

AllAbove-Mem : (a : ℕ) (ts : List Symbol) (t : Symbol) → AllAbove a ts → Mem t ts → a < t.address
AllAbove-Mem a [] t h m = absurd (not-mem-nil m)
AllAbove-Mem a (u ∷ ts) t (above, h) m =
    Or.elim le_prop (eq-or-mem_of_mem-cons m) (λ e. rw e above) (λ m'. AllAbove-Mem a ts t h m')

-- A table and its permutation have the same entries.
Resolved-Found :
    (a : ℕ) (table ss : List Symbol) (r : SearchResult)
    → Perm table ss
    → Resolved a table r
    → Found a ss r
Resolved-Found a table ss _ p (exactly {s} o e) =
    at_entry ((Perm.mem_iff p).0 (Occurs-Mem s table o)) e
Resolved-Found a table ss _ p (before {s} o below between) =
    last_before ((Perm.mem_iff p).0 (Occurs-Mem s table o)) below
      (λ t m. NoneBetween-Mem s a table t between ((Perm.mem_iff p).1 m))
Resolved-Found a table ss _ p (nothing above) =
    none_before (λ t m. AllAbove-Mem a table t above ((Perm.mem_iff p).1 m))

-- After the sort of a table, in whatever order it was, `resolve_address` finds an entry of that table
-- at the address; or one before the address, where no entry of the table at or before the address
-- lies behind it; or nothing, because every entry of the table lies behind the address.
pub resolve_address-sort_symbol_table :
    (a : ℕ) (ss : List Symbol) → Found a ss (resolve_address a (sort_symbol_table ss))
resolve_address-sort_symbol_table a ss =
    let (sorted, same) = sort_symbol_table-IsSorted ss in
    Resolved-Found a (sort_symbol_table ss) ss _ same
      (resolve_address-Resolved a (sort_symbol_table ss) sorted)
