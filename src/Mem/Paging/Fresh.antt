-- ===== src/Mem/Paging/Fresh.antt =====
-- The step of `map` of src/kernel/mem/paging/paging.cc that takes a frame for a new table.
use slayer_os.Base.{
  ℕ, zero, suc, ◌+◌, ◌*◌, ◌%◌, ◌^◌, ◌<◌, ◌≤◌, ◌≡◌, ◌≢◌, ◌∙◌, refl, sym, ap, true, false, none, some,
  arith, ◌==◌, ==→eq, ==→ne, update, inl, inr, Bool-cases, Option-cases, eq→==, ne→==, bit_or,
}
use slayer_os.Boot.{BootCtx}
use slayer_os.Mem.Frames.{FrameAllocator, frame_size, frame_address, virt_to_phys}
use slayer_os.Mem.Frames.Alloc.{IsValid, taking}
use slayer_os.Mem.Frames.Room.{room}
use slayer_os.Mem.Paging.{
  is_present, slot, descend, child_table, write_word, page_present, page_write,
}
use slayer_os.Mem.Paging.Words.{child_table-entry, is_present-zero}
use slayer_os.Mem.Paging.Walk.{InDirectMap, Owned, Owner, walk, leaf, digit}
use slayer_os.Mem.Paging.Steps.{
  Entered, slot_eq, digit-lt, descend-present, descend-absent, descend-eq, walk-none, walk-some,
}

module _ {boot : BootCtx} {s : FrameAllocator} {owner : Owner} {t i l p : ℕ} (k : ℕ) (v : IsValid s)
    (d : InDirectMap boot s) (o : Owned boot s owner) (own : owner t ≡ some (suc l, p))
    (lt : i < 512) (absent : is_present (s.memory (slot t i)) ≡ false)
    (in_pool : k < s.available_frames) (free : s.frames k ≡ false) where
  abbrev pub fresh : ℕ
  fresh = frame_address s k

  abbrev pub entry : ℕ
  entry = bit_or (bit_or (virt_to_phys boot fresh) page_present) page_write

  abbrev pub after : FrameAllocator
  after = write_word (taking s k) (slot t i) entry

  abbrev pub owner_after : Owner
  owner_after = update owner fresh (some (l, p * 512 + i))

  fresh_page : (fresh % 2 ^ 12 ≡ 0) × (fresh + frame_size ≤ 2 ^ 64)
  fresh_page = omega (arith, d.hhdm_page, d.base_page, d.above, d.small, d.near, d.ends)

  fresh-entry : (is_present entry ≡ true) × (child_table boot entry ≡ fresh)
  fresh-entry =
      child_table-entry boot fresh (omega (arith, d.above, d.small, d.ends)) fresh_page.0
        d.hhdm_page (omega (arith, d.near, d.small, d.ends)) (omega (arith, fresh_page.1))

  ne_fresh : (u m q : ℕ) → owner u ≡ some (m, q) → u ≢ fresh
  ne_fresh u m q e h = o.taken u m q k e in_pool free (sym h)

  stays_after : (u m q : ℕ) → owner u ≡ some (m, q) → owner_after u ≡ some (m, q)
  stays_after u m q e = rw (ne→== u fresh (ne_fresh u m q e)) e

  written : after.memory (slot t i) ≡ entry
  written = rw (eq→== (slot t i) (slot t i) refl)

  unwritten :
      (u m q j : ℕ)
      → owner u ≡ some (m, q)
      → j < 512
      → slot u j ≢ slot t i
      → after.memory (slot u j) ≡ s.memory (slot u j)
  unwritten u m q j e b ne =
      let apart : u ≢ fresh = ne_fresh u m q e in ground (arith, o.page u m q e, fresh_page)

  cleared : (j : ℕ) → j < 512 → after.memory (slot fresh j) ≡ 0
  cleared j b =
      let apart : t ≢ fresh = ne_fresh t (suc l) p own in
      ground (arith, o.page t (suc l) p own, fresh_page)

  descend_written : descend boot after.memory (slot t i) ≡ some fresh
  descend_written =
      descend-present boot after.memory (slot t i) (rw written fresh-entry.0)
      ∙ ap some (ap (child_table boot) written ∙ fresh-entry.1)

  descend_unwritten :
      (u m q j : ℕ)
      → owner u ≡ some (m, q)
      → j < 512
      → slot u j ≢ slot t i
      → descend boot after.memory (slot u j) ≡ descend boot s.memory (slot u j)
  descend_unwritten u m q j e b ne =
      descend-eq boot after.memory s.memory (slot u j) (unwritten u m q j e b ne)

  descend_cleared : (j : ℕ) → j < 512 → descend boot after.memory (slot fresh j) ≡ none
  descend_cleared j b =
      descend-absent boot after.memory (slot fresh j) (rw (cleared j b) is_present-zero)

  owner_fresh : owner_after fresh ≡ some (l, p * 512 + i)
  owner_fresh = rw (eq→== fresh fresh refl)

  child_after :
      (u m q j c : ℕ)
      → owner_after u ≡ some (suc m, q)
      → j < 512
      → descend boot after.memory (slot u j) ≡ some c
      → owner_after c ≡ some (m, q * 512 + j)
  child_after u m q j c e b down = elim (Bool-cases (u == fresh)) [
    | inl new ↦ cc (descend_cleared j b, ==→eq u fresh new)
    | inr old ↦
        let e' : owner u ≡ some (suc m, q) = rw old at e in
        elim (Bool-cases (slot u j == slot t i)) [
          | inl same ↦
              let at : slot u j ≡ slot t i = ==→eq (slot u j) (slot t i) same in
              let (ut, ji) = slot_eq (o.page u (suc m) q e') (o.page t (suc l) p own) b lt at in
              cc (at, ut, ji, owner_fresh, descend_written)
          | inr other ↦ stays_after c m (q * 512 + j) (
              o.child u m q j c e' b (
                sym (descend_unwritten u (suc m) q j e' b (==→ne (slot u j) (slot t i) other))
                ∙ down))
        ]
  ]

  page_after :
      (u m q : ℕ) → owner_after u ≡ some (m, q) → (u % 2 ^ 12 ≡ 0) × (u + frame_size ≤ 2 ^ 64)
  page_after u m q e = elim (Bool-cases (u == fresh)) [
    | inl new ↦ rw (==→eq u fresh new) fresh_page
    | inr old ↦ o.page u m q (rw old at e)
  ]

  taken_after :
      (u m q n : ℕ)
      → owner_after u ≡ some (m, q)
      → n < s.available_frames
      → after.frames n ≡ false
      → frame_address s n ≢ u
  taken_after u m q n e b unused same =
      let other : (n == k) ≡ false = ground arith in
      let unused' : s.frames n ≡ false = rw other at unused in
      elim (Bool-cases (u == fresh)) [
        | inl new ↦ omega (arith, ==→ne n k other, ==→eq u fresh new, d.small, d.near, d.ends)
        | inr old ↦ o.taken u m q n (rw old at e) b unused' same
      ]

  owned_after : Owned boot after owner_after
  owned_after = record { child = child_after; page = page_after; taken = taken_after }

  walk-fresh : (m w : ℕ) → walk boot after.memory m fresh w ≡ none
  unfolding walk leaf
  walk-fresh zero w = rw (cleared (w % 512) (omega arith), is_present-zero)
  walk-fresh (suc m) w =
      walk-none boot after.memory m fresh w (descend_cleared _ (digit-lt (suc m) w))

  slot_ne : (u m q j : ℕ) → owner u ≡ some (m, q) → j < 512 → m ≢ suc l → slot u j ≢ slot t i
  slot_ne u m q j e b ne at =
      let (ut, _) = slot_eq (o.page u m q e) (o.page t (suc l) p own) b lt at in ne (cc (ut))

  walk_step :
      (m u q w : ℕ)
      → owner u ≡ some (suc m, q)
      → ((c : ℕ)
          → owner c ≡ some (m, q * 512 + digit (suc m) w)
          → walk boot after.memory m c w ≡ walk boot s.memory m c w)
      → walk boot after.memory (suc m) u w ≡ walk boot s.memory (suc m) u w
  walk_step m u q w e below =
      let j : ℕ = digit (suc m) w in
      let b : j < 512 = digit-lt (suc m) w in
      elim (Bool-cases (slot u j == slot t i)) [
        | inl same ↦
            let at : slot u j ≡ slot t i = ==→eq (slot u j) (slot t i) same in
            walk-some boot after.memory m u w {c = fresh} (rw at descend_written)
            ∙ walk-fresh m w
            ∙ sym (
                walk-none boot s.memory m u w
                  (rw at (descend-absent boot s.memory (slot t i) absent)))
        | inr other ↦
            let eq = descend_unwritten u (suc m) q j e b (==→ne (slot u j) (slot t i) other) in
            elim (Option-cases (descend boot s.memory (slot u j))) [
              | inl gone ↦
                  walk-none boot after.memory m u w (eq ∙ gone)
                  ∙ sym (walk-none boot s.memory m u w gone)
              | inr (c, down) ↦
                  walk-some boot after.memory m u w (eq ∙ down)
                  ∙ below c (o.child u m q j c e b down)
                  ∙ sym (walk-some boot s.memory m u w down)
            ]
      ]

  walk_after :
      (m u q w : ℕ)
      → owner u ≡ some (m, q)
      → walk boot after.memory m u w ≡ walk boot s.memory m u w
  unfolding walk
  walk_after zero u q w e = ap leaf (
      unwritten u zero q (w % 512) e (omega arith)
        (slot_ne u zero q (w % 512) e (omega arith) (λ h. omega arith)))
  walk_after (suc m) u q w e = walk_step m u q w e (λ c e'. walk_after m c _ w e')

  keeps_after :
      (u m q j c : ℕ)
      → owner u ≡ some (m, q)
      → j < 512
      → descend boot s.memory (slot u j) ≡ some c
      → descend boot after.memory (slot u j) ≡ some c
  keeps_after u m q j c e b down = elim (Bool-cases (slot u j == slot t i)) [
    | inl same ↦
        cc (==→eq (slot u j) (slot t i) same, descend-absent boot s.memory (slot t i) absent)
    | inr other ↦ descend_unwritten u m q j e b (==→ne (slot u j) (slot t i) other) ∙ down
  ]

  pub entered :
      room s ≡ suc (room (taking s k)) → Entered boot s owner t i l p fresh after owner_after
  entered one_less = record {
    valid = omega (arith, v.fits);
    pool = record {
      hhdm_page = d.hhdm_page;
      base_page = d.base_page;
      above = d.above;
      small = d.small;
      near = d.near;
      ends = d.ends;
    };
    owned = owned_after;
    left = omega arith;
    reached = descend_written;
    owner_c = owner_fresh;
    stays = stays_after;
    keeps = keeps_after;
    same_walk = walk_after;
  }
