-- ===== src/Mem/Mapper/Requests.antt =====
-- A sequence of calls of `map` as a list, for the loops of src/kernel/mem/map/mapper.cc: the page
-- tables that it leaves.
use slayer_os.Base.{
  ℕ, ◌+◌, ◌*◌, ◌≤◌, ◌≡◌, ◌∙◌, refl, ap, Option, arith, List, [], ◌∷◌, ◌++◌, ◌==◌, if◌then◌else◌,
  bit_or, length,
}
use slayer_os.Boot.{BootCtx}
use slayer_os.Mem.Frames.Room.{room}
use slayer_os.Mem.Paging.{PageTables, map_page}
use slayer_os.Mem.Paging.Walk.{IsPaged, Owner, leaf, page_number, lookup}
use slayer_os.Mem.Paging.Map.{map_page-Mapped}

-- The arguments of a call of `map`.
pub record Request : Type 0 where
  pub phys : ℕ
  pub virt : ℕ
  pub flags : ℕ

unfoldable pub map_all : BootCtx → PageTables → List Request → PageTables
map_all boot p [] = p
map_all boot p (r ∷ rs) = map_all boot (map_page boot p r.phys r.virt r.flags) rs

pub map_all-append :
    (boot : BootCtx) (p : PageTables) (rs qs : List Request)
    → map_all boot p (rs ++ qs) ≡ map_all boot (map_all boot p rs) qs
unfolding map_all
map_all-append boot p [] qs = refl
map_all-append boot p (r ∷ rs) qs =
    map_all-append boot (map_page boot p r.phys r.virt r.flags) rs qs

-- The translation of an address after the requests: that of the last one for its page, or the one
-- from before.
unfoldable pub last_request : List Request → ℕ → Option ℕ → Option ℕ
last_request [] w before = before
last_request (r ∷ rs) w before =
    last_request rs w
      (if page_number w == page_number r.virt then leaf (bit_or r.phys r.flags) else before)

-- What the requests leave.
pub record Requested (boot : BootCtx) (p : PageTables) (rs : List Request) (p' : PageTables)
    (owner' : Owner) : Type 0 where
  pub root : p'.pml4 ≡ p.pml4
  pub paged : IsPaged boot p'.allocator p'.pml4 owner'
  pub left : room p.allocator ≤ 3 * length rs + room p'.allocator
  pub looks_up : (w : ℕ) → lookup boot p' w ≡ last_request rs w (lookup boot p w)

pub map_all-Requested :
    (boot : BootCtx) (p : PageTables) (owner : Owner) (rs : List Request)
    → IsPaged boot p.allocator p.pml4 owner
    → 3 * length rs ≤ room p.allocator
    → (owner' : Owner) × Requested boot p rs (map_all boot p rs) owner'
unfolding map_all last_request
map_all-Requested boot p owner [] g spare =
    (owner, record { root = refl; paged = g; left = omega arith; looks_up = λ w. refl })
map_all-Requested boot p owner (r ∷ rs) g spare =
    let (o1, mapped) = map_page-Mapped boot p owner r.phys r.virt r.flags g (omega arith) in
    let (o', rest) =
      map_all-Requested boot (map_page boot p r.phys r.virt r.flags) o1 rs mapped.paged
        (omega (arith, mapped.left)) in
    (
      o',
      record {
        root = rest.root ∙ mapped.root;
        paged = rest.paged;
        left = omega (arith, rest.left, mapped.left);
        looks_up = λ w. rest.looks_up w ∙ ap (last_request rs w) (mapped.looks_up w);
      },
    )
