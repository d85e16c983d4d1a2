-- ===== src/Boot/Tests.antt =====
-- `sort_memmap` of src/kernel/bootloader/limine.cc at a map of two usable entries.
use slayer_os.Base.{◌≡◌, refl, List, [], ◌∷◌}
use mathlib.Core.List.{Perm}
use slayer_os.Boot.{MemmapEntry, MemmapType, usable, framebuffer, sort_memmap}
use slayer_os.Boot.Sort.{sort_memmap-perm}

abbrev entry : MemmapType → MemmapEntry
entry t = record { base = 0x1000; len = 0x1000; type = t }

abbrev small_first : List MemmapEntry
small_first = entry usable ∷ record { base = 0x10_0000; len = 0x8000; type = usable } ∷ []

-- An entry that is not usable is.
moves_behind :
    sort_memmap (entry framebuffer ∷ record (entry usable) { len = 0x2000 } ∷ [])
    ≡ record (entry usable) { len = 0x2000 } ∷ entry framebuffer ∷ []
unfolding sort_memmap
moves_behind = refl

sort_memmap-perm_example : Perm (sort_memmap small_first) small_first
sort_memmap-perm_example = sort_memmap-perm small_first
