-- ===== src/Err/Dump/Tests.antt =====
-- The memory dump on a stack of three frames and on a function of instructions of 15 bytes.
use slayer_os.Base.{
  ◌<◌, ◌++◌, ◌+◌, ◌≤◌, ◌≡◌, ◌⊎◌, inl, refl, arith, true, false, some, [], ◌∷◌, length, map,
}
use slayer_os.Base.Cells.{codes, copy}
use slayer_os.Err.Dump.{unresolved, memcpy_chk, dump_address, backtrace}
use slayer_os.Err.Dump.Samples.{
  repr, nothing_found, stack, nop, nops, short_nop, short_nops, nops-IsDecoder,
  short_nops-IsDecoder, function, three, eight, three_short, frames, buf,
}
use slayer_os.Err.Dump.Digits.{hex_value, hex_value-dump_address}
use slayer_os.Err.Dump.Chain.{kernel_lines, backtrace-FrameChain}
use slayer_os.Err.Dump.Copy.{memcpy_chk-copy}
use slayer_os.Err.Dump.Listing.{Operand, immediate, kernel_target, line, listing}
use slayer_os.Err.Dump.Listing.Shown.{NoneMarked, lines_of, show_lines, listing-far, listing-near}

two_frames :
    backtrace nothing_found repr [] stack 0x100
    ≡ unresolved 0 0xffff_ffff_8000_1000 ∷ unresolved 2 0xffff_ffff_8000_2000 ∷ []
unfolding backtrace
two_frames = refl

beef : dump_address (λ _. 7) 0xdead_beef ≡ codes "00000000DEADBEEF"
unfolding dump_address
beef = refl

-- A call of an address 16 bytes further on.
abbrev near_call : Operand
near_call = record {
  type = immediate;
  is_relative = true;
  value = 0x10;
  base_is_rip = false;
  disp_size = 0;
  disp_value = 0;
}

call_target : kernel_target 0xffff_ffff_8000_0005 (near_call ∷ []) ≡ some 0xffff_ffff_8000_0015
unfolding kernel_target
call_target = refl

-- The fault is in the middle of the listing.
far_marks :
    map (λ l. l.marked) (listing repr [] (λ _. 0) (0x1000 + 105) nops function (λ _. 0))
    ≡ false ∷ false ∷ false ∷ true ∷ []
unfolding listing
far_marks = refl

-- Of a fault behind seven instructions of a byte each nothing is shown.
near_marks :
    map (λ l. l.marked) (listing repr [] (λ _. 0) 0x1007 short_nops function (λ _. 0))
    ≡ false ∷ false ∷ false ∷ false ∷ false ∷ false ∷ false ∷ []
unfolding listing
near_marks = refl

hex_value-dump_address_example :
    (length (dump_address (λ _. 7) 0xdead_beef) ≡ 16)
    × (hex_value (dump_address (λ _. 7) 0xdead_beef) ≡ some 0xdead_beef)
hex_value-dump_address_example = hex_value-dump_address (λ _. 7) 0xdead_beef (omega arith)

memcpy_chk-copy_example :
    memcpy_chk 0x100 0x102 5 0 (λ a. a) 0x103 ≡ copy (λ a. a) 0x100 (λ a. a) 0x102 5 0x103
memcpy_chk-copy_example = memcpy_chk-copy 0x100 0x102 5 0 (λ a. a) 0x103 (inl (omega arith))

backtrace-FrameChain_example :
    backtrace nothing_found repr [] stack 0x100
    ≡ kernel_lines nothing_found repr [] 16 0
        (0xffff_ffff_8000_1000 ∷ 0x40_0000 ∷ 0xffff_ffff_8000_2000 ∷ [])
backtrace-FrameChain_example =
    backtrace-FrameChain nothing_found repr [] stack 0x100
      (0xffff_ffff_8000_1000 ∷ 0x40_0000 ∷ 0xffff_ffff_8000_2000 ∷ []) frames

listing-far_example :
    (listing repr [] buf (0x1000 + 105) nops function buf
      ≡ lines_of repr [] buf (0x1000 + 105) function 60 (nop ∷ nop ∷ nop ∷ nop ∷ [])
        ++ show_lines repr [] buf (0x1000 + 105) nops nops-IsDecoder function (omega arith) 3 120)
    × ((line repr [] buf (0x1000 + 105) (0x1000 + 105) nop).marked ≡ true)
listing-far_example =
    listing-far repr [] buf (0x1000 + 105) nops nops-IsDecoder function (omega arith) buf
      (nop ∷ three) nop nop nop nop [] (omega arith) refl eight

listing-near_example :
    ((2 < 7)
      × (listing repr [] buf 0x1002 short_nops function buf
          ≡ lines_of repr [] buf 0x1002 function 0 (short_nop ∷ short_nop ∷ [])
            ++ (line repr [] buf 0x1002 0x1002 short_nop
                ∷ show_lines repr [] buf 0x1002 short_nops short_nops-IsDecoder function
                    (omega arith)
                    4
                    3))
      × ((line repr [] buf 0x1002 0x1002 short_nop).marked ≡ true))
    ⊎ ((7 ≤ 2) × NoneMarked (listing repr [] buf 0x1002 short_nops function buf))
listing-near_example =
    listing-near repr [] buf 0x1002 short_nops short_nops-IsDecoder function (omega arith) buf
      (short_nop ∷ short_nop ∷ []) short_nop [] (omega arith) refl three_short
