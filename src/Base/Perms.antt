-- ===== src/Base/Perms.antt =====
-- The step that the exchange sorts of the kernel share: two neighbours change places, or stay.
use mathlib.Core.List.{Perm}
use mathlib.Core.List.Perm
use slayer_os.Base.{Bool, true, false, List, ◌∷◌, if◌then◌else◌}

pub swap-perm {ℓ} :
    {A : Type ℓ} (b : Bool) (x y : A) (z : A) (zs ys : List A)
    → Perm (z ∷ zs) ((if b then y else x) ∷ ys)
    → Perm (z ∷ (if b then x else y) ∷ zs) (x ∷ y ∷ ys)
swap-perm true x y z zs ys h = Perm.trans (Perm.swap _ _ _) (Perm.cons x h)
swap-perm false x y z zs ys h =
    Perm.trans (Perm.swap _ _ _) (Perm.trans (Perm.cons y h) (Perm.swap _ _ _))
