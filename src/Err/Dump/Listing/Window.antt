-- ===== src/Err/Dump/Listing/Window.antt =====
-- The two loops of `dump_at_addr` of src/kernel/err/dump.cc that find where a listing begins.
use slayer_os.Base.{
  ℕ, zero, suc, ◌+◌, ◌≤◌, ◌<◌, ◌^◌, ◌%◌, ◌≡◌, ◌∙◌, refl, ap, arith, List, [], ◌∷◌, ◌++◌, true,
  false, length, update, le→ltb, lt→ltb, leb,
}
use slayer_os.Err.Symbols.{Symbol}
use slayer_os.Err.Dump.Listing.{Decoder, Instruction, scan, advance, start_of}
use slayer_os.Err.Dump.Listing.Sweep.{IsDecoder, Sweep, total, Sweep-head, step_address}

le→leb : (a b : ℕ) → a ≤ b → leb a b ≡ true
le→leb a b h = ground arith

lt→leb : (a b : ℕ) → b < a → leb a b ≡ false
lt→leb a b h = ground arith

-- Four entries of the ring: the first is where the listing begins.
start_of-ring :
    (ring : ℕ → ℕ) (count a b c d : ℕ)
    → start_of (
      update
          (update
            (update (update ring (count % 32) a) ((count + 1) % 32) b)
            ((count + 1 + 1) % 32)
            c)
          ((count + 1 + 1 + 1) % 32)
          d,
      count + 1 + 1 + 1 + 1,
    )
      ≡ a
start_of-ring ring count a b c d = ground arith

module _ (decode : Decoder) (laws : IsDecoder decode) (entry : Symbol)
    (fits : entry.address + entry.size < 2 ^ 64) where
  -- `advance` goes over the instructions in front of its goal.
  pub advance-Sweep :
      (n offset end : ℕ) (xs ys : List Instruction)
      → length xs < n
      → offset ≤ entry.size
      → offset + total xs ≡ end
      → Sweep decode entry offset (xs ++ ys)
      → advance decode entry n (entry.address + end) (entry.address + offset) offset
        ≡ (entry.address + end, end)
  unfolding advance
  advance-Sweep zero offset end xs ys fuel h to s = absurd (omega arith)
  advance-Sweep (suc n) offset end [] ys fuel h to s =
      let here : offset ≡ end = omega arith in
      rw (le→ltb (entry.address + offset) (entry.address + end) (omega arith))
        (ap (λ o. (entry.address + o, o)) here)
  advance-Sweep (suc n) offset end (x ∷ xs) ys fuel h to s =
      let (e, more, less, rest) = Sweep-head decode laws entry fits offset x (xs ++ ys) h s in
      let (to_address, to_offset) = step_address decode laws entry fits offset x.length less in
      let on =
        advance-Sweep n (offset + x.length) end xs ys (omega arith) less (omega arith) rest in
      rw
        (
          lt→ltb (entry.address + offset) (entry.address + end) (omega arith),
          e,
          to_address,
          to_offset,
        )
        on

  module _ (disas_address : ℕ) where
    -- One round of `scan` in front of the address.
    scan_round :
        (n offset count : ℕ) (ring : ℕ → ℕ) (x : Instruction) (xs : List Instruction)
        → offset ≤ entry.size
        → Sweep decode entry offset (x ∷ xs)
        → entry.address + offset < disas_address
        → scan decode entry disas_address (suc n) (entry.address + offset) offset ring count
          ≡ scan decode entry disas_address n
              (entry.address + (offset + x.length))
              (offset + x.length)
              (update ring (count % 32) (entry.address + offset))
              (count + 1)
    unfolding scan
    scan_round n offset count ring x xs h s before =
        let (e, more, less, rest) = Sweep-head decode laws entry fits offset x xs h s in
        let (to_address, to_offset) = step_address decode laws entry fits offset x.length less in
        rw (e, scan, lt→leb disas_address (entry.address + offset) before, to_address, to_offset)
          refl

    -- The last round of `scan`, at the address.
    scan_last :
        (n offset count : ℕ) (ring : ℕ → ℕ) (x : Instruction) (xs : List Instruction)
        → offset ≤ entry.size
        → Sweep decode entry offset (x ∷ xs)
        → disas_address ≤ entry.address + offset
        → scan decode entry disas_address (suc n) (entry.address + offset) offset ring count
          ≡ (update ring (count % 32) (entry.address + offset), count + 1)
    unfolding scan
    scan_last n offset count ring x xs h s there =
        let (e, more, less, rest) = Sweep-head decode laws entry fits offset x xs h s in
        rw (e, scan, le→leb disas_address (entry.address + offset) there) refl

    -- Where three instructions stand between an offset and the address, the listing begins at the
    -- offset.
    start_of-four :
        (n offset count : ℕ) (ring : ℕ → ℕ) (a b c x : Instruction) (xs : List Instruction)
        → 3 < n
        → offset ≤ entry.size
        → Sweep decode entry offset (a ∷ b ∷ c ∷ x ∷ xs)
        → entry.address + (offset + (a.length + (b.length + c.length))) ≡ disas_address
        → start_of (scan decode entry disas_address n (entry.address + offset) offset ring count)
          ≡ entry.address + offset
    start_of-four zero offset count ring a b c x xs fuel h s to = absurd (omega arith)
    start_of-four (suc zero) offset count ring a b c x xs fuel h s to = absurd (omega arith)
    start_of-four (suc (suc zero)) offset count ring a b c x xs fuel h s to = absurd (omega arith)
    start_of-four (suc (suc (suc zero))) offset count ring a b c x xs fuel h s to =
        absurd (omega arith)
    start_of-four (suc (suc (suc (suc n)))) offset count ring a b c x xs fuel h s to =
        let o1 = offset + a.length in
        let o2 = o1 + b.length in
        let o3 = o2 + c.length in
        let (_, m1, l1, s1) = Sweep-head decode laws entry fits offset a (b ∷ c ∷ x ∷ xs) h s in
        let (_, m2, l2, s2) = Sweep-head decode laws entry fits o1 b (c ∷ x ∷ xs) l1 s1 in
        let (_, m3, l3, s3) = Sweep-head decode laws entry fits o2 c (x ∷ xs) l2 s2 in
        let at = entry.address in
        let ring1 = update ring (count % 32) (at + offset) in
        let ring2 = update ring1 ((count + 1) % 32) (at + o1) in
        let ring3 = update ring2 ((count + 1 + 1) % 32) (at + o2) in
        let e1 =
          scan_round (suc (suc (suc n))) offset count ring a (b ∷ c ∷ x ∷ xs) h s (omega arith) in
        let e2 = scan_round (suc (suc n)) o1 (count + 1) ring1 b (c ∷ x ∷ xs) l1 s1 (omega arith) in
        let e3 = scan_round (suc n) o2 (count + 1 + 1) ring2 c (x ∷ xs) l2 s2 (omega arith) in
        let e4 = scan_last n o3 (count + 1 + 1 + 1) ring3 x xs l3 s3 (omega arith) in
        ap start_of (e1 ∙ e2 ∙ e3 ∙ e4)
        ∙ start_of-ring ring count (at + offset) (at + o1) (at + o2) (at + o3)

    -- The same with more instructions in front of the three.
    pub start_of-Sweep :
        (n offset start count : ℕ) (ring : ℕ → ℕ) (xs : List Instruction) (a b c x : Instruction)
        (ys : List Instruction)
        → length xs + 3 < n
        → offset ≤ entry.size
        → offset + total xs ≡ start
        → Sweep decode entry offset (xs ++ (a ∷ b ∷ c ∷ x ∷ ys))
        → entry.address + (start + (a.length + (b.length + c.length))) ≡ disas_address
        → start_of (scan decode entry disas_address n (entry.address + offset) offset ring count)
          ≡ entry.address + start
    start_of-Sweep n offset start count ring [] a b c x ys fuel h to s at =
        let here : offset ≡ start = omega arith in
        start_of-four n offset count ring a b c x ys (omega arith) h s (omega arith)
        ∙ ap (λ o. entry.address + o) here
    start_of-Sweep zero offset start count ring (y ∷ xs) a b c x ys fuel h to s at =
        absurd (omega arith)
    start_of-Sweep (suc n) offset start count ring (y ∷ xs) a b c x ys fuel h to s at =
        let behind = xs ++ (a ∷ b ∷ c ∷ x ∷ ys) in
        let (_, m1, l1, s1) = Sweep-head decode laws entry fits offset y behind h s in
        let ring1 = update ring (count % 32) (entry.address + offset) in
        ap start_of (scan_round n offset count ring y behind h s (omega arith))
        ∙ start_of-Sweep n (offset + y.length) start (count + 1) ring1 xs a b c x ys (omega arith)
            l1 (omega arith) s1 at
