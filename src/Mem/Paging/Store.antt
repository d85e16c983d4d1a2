-- ===== src/Mem/Paging/Store.antt =====
-- The write of an entry of a lowest table, which ends `map` and `unmap` of
-- src/kernel/mem/paging/paging.cc: it changes the walk of one page.
use slayer_os.Base.{
  ℕ, zero, suc, ◌+◌, ◌*◌, ◌%◌, ◌<◌, ◌≡◌, ◌≢◌, ◌∙◌, refl, sym, ap, some, arith, eq→==, ne→==, inl,
  inr, Option-cases,
}
use slayer_os.Boot.{BootCtx}
use slayer_os.Mem.Frames.{FrameAllocator}
use slayer_os.Mem.Paging.{slot, descend, write_word}
use slayer_os.Mem.Paging.Walk.{Owned, Owner, walk, leaf, digit, prefix}
use slayer_os.Mem.Paging.Steps.{slot_eq, digit-lt, prefix-digit, descend-eq, walk-none, walk-some}

module _ {boot : BootCtx} {s : FrameAllocator} {owner : Owner} {t i p : ℕ} (value : ℕ)
    (o : Owned boot s owner) (own : owner t ≡ some (0, p)) (lt : i < 512) where
  abbrev pub stored : FrameAllocator
  stored = write_word s (slot t i) value

  unwritten : (a : ℕ) → a ≢ slot t i → stored.memory a ≡ s.memory a
  unwritten a ne = rw (ne→== a (slot t i) ne)

  same_entry :
      (u m q j : ℕ)
      → owner u ≡ some (m, q)
      → j < 512
      → slot u j ≡ slot t i
      → (m ≡ 0) × (q ≡ p) × (j ≡ i)
  same_entry u m q j e b at =
      let (ut, ji) = slot_eq (o.page u m q e) (o.page t 0 p own) b lt at in (cc (ut), cc (ut), ji)

  -- Upper tables are not touched.
  pub descend-stored :
      (u m q j : ℕ)
      → owner u ≡ some (suc m, q)
      → j < 512
      → descend boot stored.memory (slot u j) ≡ descend boot s.memory (slot u j)
  descend-stored u m q j e b =
      descend-eq boot stored.memory s.memory (slot u j)
        (unwritten (slot u j) (λ at. omega (arith, same_entry u (suc m) q j e b at)))

  pub Owned-stored : Owned boot stored owner
  Owned-stored = record {
    child = λ u m q j c e b down. o.child u m q j c e b (sym (descend-stored u m q j e b) ∙ down);
    page = o.page;
    taken = o.taken;
  }

  other_step :
      (m u q w : ℕ)
      → owner u ≡ some (suc m, q)
      → ((c : ℕ)
          → owner c ≡ some (m, q * 512 + digit (suc m) w)
          → walk boot stored.memory m c w ≡ walk boot s.memory m c w)
      → walk boot stored.memory (suc m) u w ≡ walk boot s.memory (suc m) u w
  other_step m u q w e below =
      let b : digit (suc m) w < 512 = digit-lt (suc m) w in
      let eq = descend-stored u m q (digit (suc m) w) e b in
      elim (Option-cases (descend boot s.memory (slot u (digit (suc m) w)))) [
        | inl gone ↦
            walk-none boot stored.memory m u w (eq ∙ gone)
            ∙ sym (walk-none boot s.memory m u w gone)
        | inr (c, down) ↦
            walk-some boot stored.memory m u w (eq ∙ down)
            ∙ below c (o.child u m q (digit (suc m) w) c e b down)
            ∙ sym (walk-some boot s.memory m u w down)
      ]

  -- The walk of any page but that of the entry is what it was.
  pub walk-stored_ne :
      (m u q w : ℕ)
      → owner u ≡ some (m, q)
      → q ≡ prefix m w
      → w ≢ p * 512 + i
      → walk boot stored.memory m u w ≡ walk boot s.memory m u w
  unfolding walk
  walk-stored_ne zero u q w e at ne = ap leaf (
      unwritten (slot u (w % 512))
        (λ same. ne (omega (arith, same_entry u 0 q (w % 512) e (omega arith) same))))
  walk-stored_ne (suc m) u q w e at ne = other_step m u q w e (λ c e'.
      walk-stored_ne m c _ w e' (ap (λ x. x * 512 + digit (suc m) w) at ∙ prefix-digit m w) ne)

  -- The walk that reaches the entry ends with the value.
  pub walk-stored_self : (w : ℕ) → digit 0 w ≡ i → walk boot stored.memory 0 t w ≡ leaf value
  unfolding walk
  walk-stored_self w e = rw (e, eq→== (slot t i) (slot t i) refl)
