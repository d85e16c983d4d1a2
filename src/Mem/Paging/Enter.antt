-- ===== src/Mem/Paging/Enter.antt =====
-- One step of `map` of src/kernel/mem/paging/paging.cc: the next table is reached, it is the table
-- of the longer prefix, and no walk changes.
use slayer_os.Base.{ℕ, suc, ◌<◌, ◌≡◌, refl, true, false, some, arith, inl, inr, Bool-cases}
use slayer_os.Boot.{BootCtx}
use slayer_os.Mem.Frames.{FrameAllocator}
use slayer_os.Mem.Frames.Alloc.{IsValid}
use slayer_os.Mem.Frames.Room.{room, alloc-room}
use slayer_os.Mem.Paging.{is_present, slot, enter}
use slayer_os.Mem.Paging.Walk.{InDirectMap, Owned, Owner}
use slayer_os.Mem.Paging.Steps.{Entered, descend-present}
use slayer_os.Mem.Paging.Fresh.{owner_after, entered}

module _ {boot : BootCtx} {s : FrameAllocator} {owner : Owner} {t i l p : ℕ} (v : IsValid s)
    (d : InDirectMap boot s) (o : Owned boot s owner) (own : owner t ≡ some (suc l, p))
    (lt : i < 512) (spare : 0 < room s) where
  enter-present :
      is_present (s.memory (slot t i)) ≡ true
      → (owner' : Owner) × Entered boot s owner t i l p
          (enter boot s (slot t i)).0
          (enter boot s (slot t i)).1
          owner'
  unfolding enter
  enter-present h =
      let down = descend-present boot s.memory (slot t i) h in
      (
        owner,
        rw h (record {
          valid = v;
          pool = d;
          owned = o;
          left = omega arith;
          reached = down;
          owner_c = o.child t l p i _ own lt down;
          stays = λ u m q e. e;
          keeps = λ u m q j c e b f. f;
          same_walk = λ m u q w e. refl;
        }),
      )

  enter-absent :
      is_present (s.memory (slot t i)) ≡ false
      → (owner' : Owner) × Entered boot s owner t i l p
          (enter boot s (slot t i)).0
          (enter boot s (slot t i)).1
          owner'
  unfolding enter
  enter-absent h =
      let (k, in_pool, free, e, one_less) = alloc-room v spare in
      (
        owner_after k v d o own lt h in_pool free,
        rw (h, e) (entered k v d o own lt h in_pool free one_less),
      )

  -- `enter` at an entry of a table of the tree reaches the table of the longer prefix.
  pub enter_lem :
      (owner' : Owner) × Entered boot s owner t i l p
        (enter boot s (slot t i)).0
        (enter boot s (slot t i)).1
        owner'
  enter_lem = elim (Bool-cases (is_present (s.memory (slot t i)))) [
    | inl h ↦ enter-present h
    | inr h ↦ enter-absent h
  ]
