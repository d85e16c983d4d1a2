-- ===== src/Cpu/Tss/Layout.antt =====
-- Where `init_stacks` of src/kernel/cpu/tss/tss.cc puts the seven stacks in a pool that nothing has
-- been taken from.
use mathlib.Core.Path.{subst}
use slayer_os.Base.{
  ℕ, zero, suc, ◌+◌, ◌*◌, ◌^◌, ◌≤◌, ◌<◌, ◌≡◌, ◌≢◌, ◌∙◌, inl, inr, refl, ap, true, arith, ne→==,
  eq→==, leb, Bool-cases, update, u64, ◌==◌,
}
use slayer_os.Mem.Frames.{FrameAllocator, frame_size, frame_address, allocs}
use slayer_os.Mem.Frames.Alloc.{IsValid, AllUsed, AllFree}
use slayer_os.Mem.Frames.Runs.{mark_used_lem, reserving}
use slayer_os.Mem.Frames.Overlap.{allocs-free, allocs-used}
use slayer_os.Cpu.Tss.{Tss, ist_stack_size, init_stack, init_stacks_from, init_stacks}
use slayer_os.Cpu.Tss.Stacks.{init_stack-some}

-- The flags after `r` stacks: three frames for each, and one more.
abbrev pub frames_of : ℕ → ℕ
frames_of zero = 0
frames_of (suc r) = 3 * r + 4

frames_of_lem : (r : ℕ) → (3 * r ≤ frames_of r) × (frames_of r ≤ 3 * r + 4)
frames_of_lem zero = (omega arith, omega arith)
frames_of_lem (suc r) = (omega arith, omega arith)

-- A pool from which `r` stacks have been taken.
pub record Stacked (base frames r : ℕ) (s : FrameAllocator) : Type 0 where
  pub at : s.base_addr ≡ base
  pub pool : s.available_frames ≡ frames
  pub index : s.latest_frame ≡ r
  pub used : AllUsed s.frames 0 (frames_of r)
  pub free : AllFree s.frames (frames_of r) frames

module _ (base frames : ℕ) (small : frames ≤ 2 ^ 20)
    (ends : base + frames * frame_size < 2 ^ 64) where
  -- The address of the frame at which stack `r + 1` begins.
  abbrev pub stack_at : ℕ → ℕ
  stack_at r = base + 3 * r * frame_size

  frame_address_lem :
      (r : ℕ) (s : FrameAllocator)
      → Stacked base frames r s
      → 3 * r + 4 ≤ frames
      → frame_address s (3 * r) ≡ stack_at r
  frame_address_lem r s d room = omega (arith, d.at)

  -- The next stack begins with the last frame of the one before.
  allocs-Stacked :
      (r : ℕ) (s : FrameAllocator)
      → Stacked base frames r s
      → 3 * r + 4 ≤ frames
      → allocs s 4 ≡ (stack_at r, reserving s (3 * r) 4)
  allocs-Stacked zero s d room =
      let v : IsValid s = omega (arith, d.index, d.pool) in
      let first =
        allocs-free v 4 (omega arith) (omega (arith, d.index, d.pool))
          (λ j a b. d.free j (omega arith) (omega (arith, d.index))) in
      first
      ∙ ap (λ k. (frame_address s k, reserving s k 4)) d.index
      ∙ ap (λ a. (a, reserving s (3 * 0) 4)) (frame_address_lem 0 s d room)
  allocs-Stacked (suc r) s d room =
      let v : IsValid s = omega (arith, d.index, d.pool) in
      let start : s.latest_frame + (2 * r + 2) ≡ 3 * suc r = omega (arith, d.index) in
      let next =
        allocs-used v 4 (2 * r + 2) (omega arith) (omega (arith, d.index, d.pool))
          (λ j a b. d.used j (omega arith) (omega (arith, d.index)))
          (λ j a b. d.free j (omega (arith, d.index)) (omega (arith, d.index))) in
      next
      ∙ ap (λ k. (frame_address s k, reserving s k 4)) start
      ∙ ap (λ a. (a, reserving s (3 * suc r) 4)) (frame_address_lem (suc r) s d room)

  reserving-Stacked :
      (r : ℕ) (s : FrameAllocator)
      → Stacked base frames r s
      → Stacked base frames (suc r) (reserving s (3 * r) 4)
  reserving-Stacked r s d =
      let (low, high) = frames_of_lem r in
      record {
        at = d.at;
        pool = d.pool;
        index = omega (arith, d.index);
        used = λ j a b. mark_used_lem s.frames (3 * r) 4 j ∙ elim (Bool-cases (leb (3 * r) j)) [
          | inl here ↦ ground arith
          | inr before ↦ rw (before, d.used j a (ground arith)) refl
        ];
        free =
            λ j a b. mark_used_lem s.frames (3 * r) 4 j ∙ ground (arith, d.free j (omega arith) b);
      }

  -- The state behind a round that takes a stack.
  abbrev entered : Tss → (i stack top : ℕ) → FrameAllocator → Tss
  entered t i stack top s = record t {
    ist_stacks = update t.ist_stacks i stack;
    allocator = s;
    ist = update t.ist i top;
  }

  -- One round of `init_stacks` behind `r` others.
  init_stack-Stacked :
      (r : ℕ) (t : Tss)
      → Stacked base frames r t.allocator
      → 0 < base
      → 3 * r + 4 ≤ frames
      → init_stack (r + 1) t ≡ (
        true,
        entered t
            (r + 1)
            (stack_at r)
            (stack_at r + ist_stack_size)
            (reserving t.allocator (3 * r) 4),
      )
  init_stack-Stacked r t d low room =
      let e = allocs-Stacked r t.allocator d room in
      let first : (allocs t.allocator 4).0 ≡ stack_at r = ap (λ p. p.0) e in
      let top : u64 (stack_at r + ist_stack_size) ≡ stack_at r + ist_stack_size = omega arith in
      init_stack-some t (r + 1) (λ z. omega (arith, first))
      ∙ ap (λ (a, s). (true, entered t (r + 1) a (u64 (a + ist_stack_size)) s)) e
      ∙ ap (λ k. (true, entered t (r + 1) (stack_at r) k (reserving t.allocator (3 * r) 4))) top

  -- What `n` rounds behind `r` others leave.
  pub record Laid (r n : ℕ) (t t' : Tss) : Type 0 where
    pub stacked : Stacked base frames (r + n) t'.allocator
    pub stacks :
        (k : ℕ)
        → r ≤ k
        → k < r + n
        → (t'.ist_stacks (k + 1) ≡ stack_at k) × (t'.ist (k + 1) ≡ stack_at k + ist_stack_size)
    pub others : (k : ℕ) → k ≤ r → (t'.ist_stacks k ≡ t.ist_stacks k) × (t'.ist k ≡ t.ist k)

  Laid-round :
      (r n : ℕ) (t t' : Tss)
      → Laid
          (suc r)
          n
          (entered t
            (r + 1)
            (stack_at r)
            (stack_at r + ist_stack_size)
            (reserving t.allocator (3 * r) 4))
          t'
      → Laid r (suc n) t t'
  Laid-round r n t t' l = record {
    stacked =
        let count : suc r + n ≡ r + suc n = omega arith in
        subst (λ k. Stacked base frames k t'.allocator) count l.stacked;
    stacks = λ k a b. elim (Bool-cases (k == r)) [
      | inl here ↦
          let same : k ≡ r = ground arith in
          let at : k + 1 ≡ suc r = omega arith in
          let (stack, top) = l.others (suc r) (omega arith) in
          let own : suc r ≡ r + 1 = omega arith in
          rw (at, same)
            (stack ∙ rw (eq→== (suc r) (r + 1) own) refl, top ∙ rw (eq→== (suc r) (r + 1) own) refl)
      | inr past ↦ l.stacks k (ground arith) (omega arith)
    ];
    others = λ k a.
        let (stack, top) = l.others k (omega arith) in
        let other : k ≢ r + 1 = λ z. omega arith in
        (stack ∙ rw (ne→== k (r + 1) other) refl, top ∙ rw (ne→== k (r + 1) other) refl);
  }

  init_stacks_from-Laid :
      (n r : ℕ) (t : Tss)
      → Stacked base frames r t.allocator
      → 0 < base
      → 3 * (r + n) + 1 ≤ frames
      → Laid r n t (init_stacks_from n (r + 1) t)
  unfolding init_stacks_from
  init_stacks_from-Laid zero r t d low room = record {
    stacked =
        let count : r ≡ r + 0 = omega arith in
        subst (λ k. Stacked base frames k t.allocator) count d;
    stacks = λ k a b. absurd (omega arith);
    others = λ k a. (refl, refl);
  }
  init_stacks_from-Laid (suc n) r t d low room =
      let t1 =
        entered t (r + 1) (stack_at r) (stack_at r + ist_stack_size)
          (reserving t.allocator (3 * r) 4) in
      let rest =
        init_stacks_from-Laid n (suc r) t1 (reserving-Stacked r t.allocator d) low (omega arith) in
      let next : suc r + 1 ≡ r + 1 + 1 = omega arith in
      Laid-round r n t (init_stacks_from (suc n) (r + 1) t) (
        rw (init_stack-Stacked r t d low (omega arith))
          (subst (λ i. Laid (suc r) n t1 (init_stacks_from n i t1)) next rest))

  -- In a pool of at least 22 frames and at most 4 GiB that does not wrap, and from which nothing has
  -- been taken, `init_stacks` takes seven stacks: stack k + 1 begins three pages behind stack k, so
  -- its lowest page is the top page of the one before; each entry of the table is the end of its
  -- stack; and the 22 frames of the stacks are taken, and no other.
  pub init_stacks-Laid :
      (t : Tss)
      → Stacked base frames 0 t.allocator
      → 0 < base
      → 22 ≤ frames
      → Laid 0 7 t (init_stacks t)
  unfolding init_stacks
  init_stacks-Laid t d low room = init_stacks_from-Laid 7 0 t d low (omega arith)
