-- ===== src/Mem/Paging/Unmap.antt =====
-- `unmap` and the root table of src/kernel/mem/paging/paging.cc against the walk of the processor.
use slayer_os.Base.{
  ℕ, ◌+◌, ◌*◌, ◌≡◌, ◌∙◌, refl, ap, none, some, arith, ◌==◌, ==→eq, ==→ne, inl, inr, Bool-cases,
  Option-cases, if◌then◌else◌,
}
use slayer_os.Boot.{BootCtx}
use slayer_os.Mem.Frames.Room.{room}
use slayer_os.Mem.Paging.{PageTables, slot, descend, unmap, clear_entry}
use slayer_os.Mem.Paging.Words.{is_present-zero}
use slayer_os.Mem.Paging.Walk.{IsPaged, Owner, walk, leaf, digit, page_number, lookup}
use slayer_os.Mem.Paging.Steps.{digit-lt, walk-some, walk-none}
use slayer_os.Mem.Paging.Store.{descend-stored, Owned-stored, walk-stored_ne, walk-stored_self}
use slayer_os.Mem.Paging.Map.{table_index-digit, prefix-page_number}

-- What `unmap` leaves: the same tree of tables, and the walks.
pub record Unmapped (boot : BootCtx) (p : PageTables) (owner : Owner) (virt : ℕ) (p' : PageTables)
    : Type 0 where
  pub paged : IsPaged boot p'.allocator p'.pml4 owner
  pub left : room p'.allocator ≡ room p.allocator
  pub looks_up :
      (w : ℕ)
      → lookup boot p' w ≡ (if page_number w == page_number virt then none else lookup boot p w)

leaf-zero : leaf 0 ≡ none
unfolding leaf
leaf-zero = rw is_present-zero

module _ (boot : BootCtx) (p : PageTables) (owner : Owner) (virt : ℕ)
    (g : IsPaged boot p.allocator p.pml4 owner) where
  abbrev v : ℕ
  v = page_number virt

  abbrev memory : ℕ → ℕ
  memory = p.allocator.memory

  -- Nothing is to be done where the walk ends before the lowest table.
  unchanged : walk boot memory 3 p.pml4 v ≡ none → Unmapped boot p owner virt p
  unchanged gone = record {
    paged = g;
    left = refl;
    looks_up = λ w. elim (Bool-cases (page_number w == v)) [
      | inl same ↦ rw same (ap (walk boot memory 3 p.pml4) (==→eq (page_number w) v same) ∙ gone)
      | inr other ↦ rw other
    ];
  }

  module _ {t3 t2 t1 : ℕ} (d3 : descend boot memory (slot p.pml4 (digit 3 v)) ≡ some t3)
      (d2 : descend boot memory (slot t3 (digit 2 v)) ≡ some t2)
      (d1 : descend boot memory (slot t2 (digit 1 v)) ≡ some t1) where
    own3 : owner t3 ≡ some (2, 0 * 512 + digit 3 v)
    own3 = g.owned.child p.pml4 2 0 (digit 3 v) t3 g.root_owner (digit-lt 3 v) d3

    own2 : owner t2 ≡ some (1, (0 * 512 + digit 3 v) * 512 + digit 2 v)
    own2 = g.owned.child t3 1 _ (digit 2 v) t2 own3 (digit-lt 2 v) d2

    own1 : owner t1 ≡ some (0, ((0 * 512 + digit 3 v) * 512 + digit 2 v) * 512 + digit 1 v)
    own1 = g.owned.child t2 0 _ (digit 1 v) t1 own2 (digit-lt 1 v) d1

    abbrev cleared : PageTables
    cleared = clear_entry p (slot t1 (digit 0 v))

    abbrev after : ℕ → ℕ
    after = cleared.allocator.memory

    walk_self : walk boot after 3 p.pml4 v ≡ none
    unfolding clear_entry
    walk_self =
        walk-some boot after 2 p.pml4 v (
          descend-stored 0 g.owned own1 (digit-lt 0 v) p.pml4 2 0 (digit 3 v) g.root_owner
            (digit-lt 3 v)
          ∙ d3)
        ∙ walk-some boot after 1 t3 v (
            descend-stored 0 g.owned own1 (digit-lt 0 v) t3 1 _ (digit 2 v) own3 (digit-lt 2 v)
            ∙ d2)
        ∙ walk-some boot after 0 t2 v (
            descend-stored 0 g.owned own1 (digit-lt 0 v) t2 0 _ (digit 1 v) own2 (digit-lt 1 v)
            ∙ d1)
        ∙ walk-stored_self 0 g.owned own1 (digit-lt 0 v) v refl
        ∙ leaf-zero

    clearing : Unmapped boot p owner virt cleared
    unfolding clear_entry
    clearing = record {
      paged = record {
        valid = record { latest_in = g.valid.latest_in; fits = g.valid.fits };
        pool = record {
          hhdm_page = g.pool.hhdm_page;
          base_page = g.pool.base_page;
          above = g.pool.above;
          small = g.pool.small;
          near = g.pool.near;
          ends = g.pool.ends;
        };
        owned = Owned-stored 0 g.owned own1 (digit-lt 0 v);
        root_owner = g.root_owner;
      };
      left = refl;
      looks_up = λ w. elim (Bool-cases (page_number w == v)) [
        | inl same ↦
            rw same (ap (walk boot after 3 p.pml4) (==→eq (page_number w) v same) ∙ walk_self)
        | inr other ↦ rw other (
            walk-stored_ne 0 g.owned own1 (digit-lt 0 v) 3 p.pml4 0 (page_number w) g.root_owner
              (prefix-page_number w) (λ e. ==→ne (page_number w) v other (e ∙ omega arith)))
      ];
    }

  -- On well-formed tables `unmap` keeps them well formed and takes no frame; afterwards the page of
  -- `virt` has no translation, and every other page has the one from before.
  pub unmap-Unmapped : Unmapped boot p owner virt (unmap boot p virt)
  unfolding unmap
  unmap-Unmapped =
      let (e39, e30, e21, e12) = table_index-digit virt in
      elim (Option-cases (descend boot memory (slot p.pml4 (digit 3 v)))) [
        | inl gone ↦ rw (e39, gone, unmap) (unchanged (walk-none boot memory 2 p.pml4 v gone))
        | inr (t3, d3) ↦ elim (Option-cases (descend boot memory (slot t3 (digit 2 v)))) [
          | inl gone ↦
              rw (e39, d3, e30, gone, unmap)
                (unchanged
                  (walk-some boot memory 2 p.pml4 v d3 ∙ walk-none boot memory 1 t3 v gone))
          | inr (t2, d2) ↦ elim (Option-cases (descend boot memory (slot t2 (digit 1 v)))) [
            | inl gone ↦
                rw (e39, d3, e30, d2, e21, gone, unmap)
                  (unchanged (
                    walk-some boot memory 2 p.pml4 v d3
                    ∙ walk-some boot memory 1 t3 v d2
                    ∙ walk-none boot memory 0 t2 v gone))
            | inr (t1, d1) ↦ rw (e39, d3, e30, d2, e21, d1, e12, unmap) (clearing d3 d2 d1)
          ]
        ]
      ]
