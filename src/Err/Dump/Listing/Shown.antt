-- ===== src/Err/Dump/Listing/Shown.antt =====
-- Which instructions `dump_at_addr` of src/kernel/err/dump.cc shows.
use mathlib.Core.Path.{subst}
use native.Mathlib.Decide.{dec_lt}
use slayer_os.Base.{
  ℕ, zero, suc, ◌+◌, ◌-◌, ◌≤◌, ◌<◌, ◌^◌, ◌≡◌, ◌∙◌, ◌⊎◌, inl, inr, ap, arith, true, false, List, [],
  ◌∷◌, ◌++◌, length, sub64, leb,
}
use slayer_os.Err.Symbols.{Symbol, SearchResult}
use slayer_os.Err.Dump.Listing.{
  Decoder, Instruction, Line, line, show, show_from, scan, start_of, advance, listing,
}
use slayer_os.Err.Dump.Listing.Sweep.{
  IsDecoder, Sweep, total, Sweep-head, Sweep-append, step_address,
}
use slayer_os.Err.Dump.Listing.Window.{advance-Sweep, start_of-Sweep}

abbrev pub NoneMarked : List Line → Type 0
NoneMarked [] = Unit
NoneMarked (l ∷ ls) = (l.marked ≡ false) × NoneMarked ls

module _ (search_repr : ℕ → SearchResult → ℕ → ℕ) (table : List Symbol) (buf : ℕ → ℕ) where
  -- The lines of instructions that lie one behind the other.
  abbrev pub lines_of : ℕ → Symbol → ℕ → List Instruction → List Line
  lines_of disas_address entry offset [] = []
  lines_of disas_address entry offset (x ∷ xs) =
      line search_repr table buf disas_address (entry.address + offset) x
      ∷ lines_of disas_address entry (offset + x.length) xs

  no_lines :
      (disas_address : ℕ) (decode : Decoder) (entry : Symbol) (offset : ℕ)
      → NoneMarked
          (show search_repr table buf disas_address decode entry 0 (entry.address + offset) offset)
  unfolding show
  no_lines disas_address decode entry offset = tt

  module _ (disas_address : ℕ) (decode : Decoder) (laws : IsDecoder decode) (entry : Symbol)
      (fits : entry.address + entry.size < 2 ^ 64) where
    abbrev pub show_lines : ℕ → ℕ → List Line
    show_lines n offset =
        show search_repr table buf disas_address decode entry n (entry.address + offset) offset

    show_round :
        (n offset : ℕ) (x : Instruction) (xs : List Instruction)
        → offset ≤ entry.size
        → Sweep decode entry offset (x ∷ xs)
        → show_lines (suc n) offset
          ≡ line search_repr table buf disas_address (entry.address + offset) x
            ∷ show_lines n (offset + x.length)
    unfolding show
    show_round n offset x xs h s =
        let (e, more, less, rest) = Sweep-head decode laws entry fits offset x xs h s in
        let (to_address, to_offset) = step_address decode laws entry fits offset x.length less in
        rw (e, show)
          (λ i.
            line search_repr table buf disas_address (entry.address + offset) x
            ∷ show search_repr table buf disas_address decode entry n (to_address i) (to_offset i))

    show-append :
        (n offset end : ℕ) (xs ys : List Instruction)
        → offset ≤ entry.size
        → offset + total xs ≡ end
        → Sweep decode entry offset (xs ++ ys)
        → show_lines (length xs + n) offset
          ≡ lines_of disas_address entry offset xs ++ show_lines n end
    show-append n offset end [] ys h to s =
        let here : offset ≡ end = omega arith in
        let rounds : 0 + n ≡ n = omega arith in λ i. show_lines (rounds i) (here i)
    show-append n offset end (x ∷ xs) ys h to s =
        let (e, more, less, rest) = Sweep-head decode laws entry fits offset x (xs ++ ys) h s in
        let on = show-append n (offset + x.length) end xs ys less (omega arith) rest in
        let rounds : suc (length xs) + n ≡ suc (length xs + n) = omega arith in
        ap (λ k. show_lines k offset) rounds
        ∙ show_round (length xs + n) offset x (xs ++ ys) h s
        ∙ ap (λ l. line search_repr table buf disas_address (entry.address + offset) x ∷ l) on

    -- A line is marked where the address is the one of its instruction.
    line-marked :
        (offset : ℕ) (x : Instruction)
        → 0 < x.length
        → offset + x.length ≤ entry.size
        → entry.address + offset ≡ disas_address
        → (line search_repr table buf disas_address disas_address x).marked ≡ true
    unfolding line
    line-marked offset x more less at = ground arith

    line-unmarked :
        (offset : ℕ) (x : Instruction)
        → offset + x.length ≤ entry.size
        → entry.address + (offset + x.length) ≤ disas_address
        → (line search_repr table buf disas_address (entry.address + offset) x).marked ≡ false
    unfolding line
    line-unmarked offset x less at = ground arith

    -- Instructions in front of the address are not marked.
    show-NoneMarked :
        (n offset : ℕ) (xs ys : List Instruction)
        → n ≤ length xs
        → offset ≤ entry.size
        → entry.address + (offset + total xs) ≤ disas_address
        → Sweep decode entry offset (xs ++ ys)
        → NoneMarked (show_lines n offset)
    show-NoneMarked zero offset xs ys few h at s = no_lines disas_address decode entry offset
    show-NoneMarked (suc n) offset [] ys few h at s = absurd (omega arith)
    show-NoneMarked (suc n) offset (x ∷ xs) ys few h at s =
        let (e, more, less, rest) = Sweep-head decode laws entry fits offset x (xs ++ ys) h s in
        let first = line-unmarked offset x less (omega arith) in
        let on =
          show-NoneMarked n (offset + x.length) xs ys (omega arith) less (omega arith) rest in
        rw (show_round n offset x (xs ++ ys) h s) (first, on)

    listing_near_lem :
        (ring : ℕ → ℕ) (offset : ℕ)
        → offset ≤ 96
        → offset ≤ entry.size
        → entry.address + offset ≡ disas_address
        → listing search_repr table buf disas_address decode entry ring ≡ show_lines 7 0
    unfolding listing
    listing_near_lem ring offset near h at =
        let start : entry.address ≡ entry.address + 0 = omega arith in
        let test : leb (sub64 disas_address entry.address) 96 ≡ true = ground arith in
        rw test (ap (λ a. show search_repr table buf disas_address decode entry 7 a 0) start)

    listing_far_lem :
        (ring : ℕ → ℕ) (xs : List Instruction) (a b c x : Instruction) (ys : List Instruction)
        → 96 < total xs + (a.length + (b.length + c.length))
        → entry.address + (total xs + (a.length + (b.length + c.length))) ≡ disas_address
        → length xs + 3 ≤ entry.size
        → total xs + (a.length + (b.length + c.length)) ≤ entry.size
        → Sweep decode entry 0 (xs ++ (a ∷ b ∷ c ∷ x ∷ ys))
        → listing search_repr table buf disas_address decode entry ring ≡ show_lines 7 (total xs)
    unfolding listing
    listing_far_lem ring xs a b c x ys far at fuel fits_in s =
        let start : entry.address ≡ entry.address + 0 = omega arith in
        let test : leb (sub64 disas_address entry.address) 96 ≡ false = ground arith in
        let n = entry.size + 1 in
        let starts =
          ap (λ k. start_of (scan decode entry disas_address n k 0 ring 0)) start
          ∙ start_of-Sweep decode laws entry fits disas_address n 0 (total xs) 0 ring xs a b c x ys
              (omega arith) (omega arith) (omega arith) s at in
        let moves =
          ap (λ k. advance decode entry n (entry.address + total xs) k 0) start
          ∙ advance-Sweep decode laws entry fits n 0 (total xs) xs (a ∷ b ∷ c ∷ x ∷ ys)
              (omega arith) (omega arith) (omega arith) s in
        rw test (
          ap (show_from search_repr table buf disas_address decode entry)
            (ap (λ k. advance decode entry n k entry.address 0) starts ∙ moves))

    -- Of a function that lies in memory as a sweep of instructions up to one at the address, where
    -- that one begins more than 96 bytes behind the start and at least three stand in front of it,
    -- the listing is the three in front of it, that one, marked, and what comes behind it.
    pub listing-far :
        (ring : ℕ → ℕ) (xs : List Instruction) (a b c x : Instruction) (ys : List Instruction)
        → 96 < total xs + (a.length + (b.length + c.length))
        → entry.address + (total xs + (a.length + (b.length + c.length))) ≡ disas_address
        → Sweep decode entry 0 (xs ++ (a ∷ b ∷ c ∷ x ∷ ys))
        → (listing search_repr table buf disas_address decode entry ring
            ≡ lines_of disas_address entry (total xs) (a ∷ b ∷ c ∷ x ∷ [])
              ++ show_lines 3 (total xs + (a.length + (b.length + (c.length + x.length)))))
          × ((line search_repr table buf disas_address disas_address x).marked ≡ true)
    listing-far ring xs a b c x ys far at s =
        let four = a ∷ b ∷ c ∷ x ∷ [] in
        let end = total xs + (a.length + (b.length + (c.length + x.length))) in
        let (inside, bytes, behind) =
          Sweep-append decode laws entry fits 0 xs (a ∷ b ∷ c ∷ x ∷ ys) (omega arith) s in
        let from : Sweep decode entry (total xs) (four ++ ys) =
          subst (λ o. Sweep decode entry o (four ++ ys)) (omega arith) behind in
        let (_, ma, la, sa) =
          Sweep-head decode laws entry fits (total xs) a (b ∷ c ∷ x ∷ ys) (omega arith) from in
        let (_, mb, lb, sb) =
          Sweep-head decode laws entry fits (total xs + a.length) b (c ∷ x ∷ ys) la sa in
        let (_, mc, lc, sc) =
          Sweep-head decode laws entry fits (total xs + a.length + b.length) c (x ∷ ys) lb sb in
        let (_, mx, lx, sx) =
          Sweep-head decode laws entry fits (total xs + a.length + b.length + c.length) x ys lc
            sc in
        (
          listing_far_lem ring xs a b c x ys far at (omega arith) (omega arith) s
              ∙ show-append 3 (total xs) end four ys (omega arith) (omega arith) from,
          line-marked (total xs + a.length + b.length + c.length) x mx lx (omega arith),
        )

    -- Where the instruction at the address begins at most 96 bytes behind the start of a function:
    -- with fewer than seven instructions in front of it, the listing is those, that one, marked, and
    -- the ones behind it, up to seven in all; with seven or more, the listing ends before it and no
    -- line of it is marked.
    pub listing-near :
        (ring : ℕ → ℕ) (xs : List Instruction) (x : Instruction) (ys : List Instruction)
        → total xs ≤ 96
        → entry.address + total xs ≡ disas_address
        → Sweep decode entry 0 (xs ++ (x ∷ ys))
        → ((length xs < 7)
            × (listing search_repr table buf disas_address decode entry ring
                ≡ lines_of disas_address entry 0 xs
                  ++ (line search_repr table buf disas_address disas_address x
                      ∷ show_lines (6 - length xs) (total xs + x.length)))
            × ((line search_repr table buf disas_address disas_address x).marked ≡ true))
          ⊎ ((7 ≤ length xs)
              × NoneMarked (listing search_repr table buf disas_address decode entry ring))
    listing-near ring xs x ys near at s =
        let (inside, bytes, behind) =
          Sweep-append decode laws entry fits 0 xs (x ∷ ys) (omega arith) s in
        let from : Sweep decode entry (total xs) (x ∷ ys) =
          subst (λ o. Sweep decode entry o (x ∷ ys)) (omega arith) behind in
        let (_, mx, lx, _) = Sweep-head decode laws entry fits (total xs) x ys (omega arith) from in
        let whole = listing_near_lem ring (total xs) near (omega arith) at in
        elim (dec_lt (length xs) 7) [
          | yes few ↦
              let rounds : 7 ≡ length xs + suc (6 - length xs) = omega arith in
              inl (
                few,
                (whole
                    ∙ ap (λ k. show_lines k 0) rounds
                    ∙ show-append (suc (6 - length xs)) 0 (total xs) xs (x ∷ ys) (omega arith)
                        (omega arith) s
                    ∙ ap (λ l. lines_of disas_address entry 0 xs ++ l)
                        (show_round (6 - length xs) (total xs) x ys (omega arith) from
                          ∙ ap
                              (λ k.
                                line search_repr table buf disas_address k x
                                ∷ show_lines (6 - length xs) (total xs + x.length))
                              at)),
                line-marked (total xs) x mx lx at,
              )
          | no many ↦ inr (
            omega arith,
            rw whole (show-NoneMarked 7 0 xs (x ∷ ys) (omega arith) (omega arith) (omega arith) s),
          )
        ]
