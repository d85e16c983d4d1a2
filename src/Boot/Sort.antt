-- ===== src/Boot/Sort.antt =====
-- What `sort_memmap` of src/kernel/bootloader/limine.cc keeps, and what it does not order.
use mathlib.Core.List.{Perm}
use mathlib.Core.List.Perm
use slayer_os.Base.{
  ℕ, zero, suc, ◌≡◌, refl, Bool, true, not, ◌&&◌, List, [], ◌∷◌, ltb, if◌then◌else◌, length, ap,
}
use slayer_os.Base.Perms.{swap-perm}
use slayer_os.Boot.{MemmapEntry, is_usable, sort_pass, sort_rounds, sort_memmap}

sort_pass-perm :
    (x : MemmapEntry) (ys : List MemmapEntry)
    → Perm ((sort_pass x ys).0 ∷ (sort_pass x ys).1) (x ∷ ys)
unfolding sort_pass
sort_pass-perm x [] = Perm.refl (x ∷ [])
sort_pass-perm x (y ∷ ys) =
    let b : Bool = not (is_usable x.type) && ltb x.len y.len in
    swap-perm b x y _ _ ys (sort_pass-perm (if b then y else x) ys)

sort_rounds-perm : (n : ℕ) (es : List MemmapEntry) → Perm (sort_rounds n es) es
unfolding sort_rounds
sort_rounds-perm zero es = Perm.refl es
sort_rounds-perm (suc n) [] = Perm.refl []
sort_rounds-perm (suc n) (x ∷ ys) =
    Perm.trans (Perm.cons _ (sort_rounds-perm n (sort_pass x ys).1)) (sort_pass-perm x ys)

-- Sorting keeps every entry of the memory map, as often as it stands there.
pub sort_memmap-perm : (es : List MemmapEntry) → Perm (sort_memmap es) es
unfolding sort_memmap
sort_memmap-perm es = sort_rounds-perm (length es) es

-- All entries are usable memory.
abbrev pub AllUsable : List MemmapEntry → Type 0
AllUsable [] = Unit
AllUsable (e ∷ es) = (is_usable e.type ≡ true) × AllUsable es

sort_pass-usable :
    (x : MemmapEntry) (ys : List MemmapEntry) → is_usable x.type ≡ true → sort_pass x ys ≡ (x, ys)
unfolding sort_pass
sort_pass-usable x [] h = refl
sort_pass-usable x (y ∷ ys) h = rw (h, sort_pass-usable x ys h)

sort_rounds-usable : (n : ℕ) (es : List MemmapEntry) → AllUsable es → sort_rounds n es ≡ es
unfolding sort_rounds
sort_rounds-usable zero es h = refl
sort_rounds-usable (suc n) [] h = refl
sort_rounds-usable (suc n) (x ∷ ys) h =
    rw (sort_pass-usable x ys h.0) (ap (λ es. x ∷ es) (sort_rounds-usable n ys h.1))

-- A map of usable entries is left in the order in which it came, whatever their sizes.
pub sort_memmap-usable : (es : List MemmapEntry) → AllUsable es → sort_memmap es ≡ es
unfolding sort_memmap
sort_memmap-usable es h = sort_rounds-usable (length es) es h
