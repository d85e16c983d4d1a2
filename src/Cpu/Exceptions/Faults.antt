-- ===== src/Cpu/Exceptions/Faults.antt =====
-- A page fault of the kernel from the interrupt to the report: src/kernel/cpu/interrupts/handler.cc
-- over src/kernel/err/dump.cc.
use slayer_os.Base.{
  ℕ, ◌+◌, ◌%◌, ◌^◌, ◌<◌, ◌≡◌, ◌≢◌, ◌∙◌, refl, ap, Bool, true, false, Option, none, some, List, [],
  ◌∷◌, ◌++◌, ne→==, ltb, sub64, if◌then◌else◌, ◌==◌,
}
use slayer_os.Err.Symbols.{Symbol, SearchResult, resolve_address}
use slayer_os.Err.Dump.{Addr2LineResult, backtrace}
use slayer_os.Err.Dump.Chain.{FrameChain, kernel_lines, backtrace-FrameChain}
use slayer_os.Err.Dump.Listing.{Decoder, Dump, Instruction, line, listing, dump_of, dump_at_addr}
use slayer_os.Err.Dump.Listing.Sweep.{IsDecoder, Sweep, total}
use slayer_os.Err.Dump.Listing.Shown.{lines_of, show_lines, listing-far}
use slayer_os.Cpu.Exceptions.{IsrFrame, Message, find_rip, dump_registers, handle_page_fault}
use slayer_os.Cpu.Exceptions.Codes.{code_of, located, isr_handler-page_fault}
use slayer_os.Cpu.Exceptions.Report.{found_address, isr_report}

if-same : (b : Bool) (a : ℕ) → (if b then a else a) ≡ a
if-same true a = refl
if-same false a = refl

module _ (lookup : ℕ → Option Addr2LineResult) (search_repr : ℕ → SearchResult → ℕ → ℕ)
    (table : List Symbol) (decode : Decoder) (laws : IsDecoder decode) (memory buf ring : ℕ → ℕ)
    (frame_address : ℕ) where
  -- The dump at an address in a function, behind a frame pointer that is not null.
  dump_at_addr_lem :
      (address rbp : ℕ) (entry : Symbol)
      → (resolve_address address table).entry ≡ some entry
      → rbp ≢ 0
      → (dump : Dump) × (dump_at_addr lookup search_repr table decode memory buf ring frame_address
            address rbp address
          ≡ some dump)
        × (dump.frames ≡ backtrace lookup search_repr table memory rbp)
        × (dump.lines ≡ listing search_repr table buf address decode entry ring)
  unfolding dump_at_addr
  dump_at_addr_lem address rbp entry found there =
      let frame : (if rbp == 0 then frame_address else rbp) ≡ rbp = rw (ne→== rbp 0 there) refl in
      let at = if-same (address == 0) address in
      let opened : Option Symbol → Option Dump = λ o. elim o [
        | none ↦ none
        | some e ↦ some (
            dump_of lookup search_repr table decode memory buf ring frame_address address rbp
              address e)
      ] in
      (
        dump_of lookup search_repr table decode memory buf ring frame_address address rbp address
            entry,
        ap opened found,
        ap (backtrace lookup search_repr table memory) frame,
        ap (λ a. listing search_repr table buf a decode entry ring) at,
      )

  find_rip-none :
      (address : ℕ)
      → lookup (sub64 address 1) ≡ none
      → find_rip (found_address lookup) address ≡ address
  unfolding find_rip
  find_rip-none address e = rw (e, found_address, find_rip) refl

  -- For a page fault in a function that DWARF does not know, behind more than 96 bytes of
  -- instructions, with a frame pointer that is not null, on a stack whose frames end: the report's
  -- messages tell of the low seven bits of the error code, of each that is set and of no other; its
  -- backtrace has a line for each of the first 16 frames that returns into the kernel's half; and its listing is the three
  -- instructions in front of the fault, the fault, marked, and at most three behind it.
  pub isr_report-page_fault :
      (info : IsrFrame) (entry : Symbol)
      → info.int_num ≡ 0x0e
      → info.rbp ≢ 0
      → lookup (sub64 info.return_address 1) ≡ none
      → (resolve_address info.return_address table).entry ≡ some entry
      → (fits : entry.address + entry.size < 2 ^ 64) → (rips : List ℕ)
      → FrameChain memory info.rbp rips
      → (xs : List Instruction) (a b c x : Instruction) (ys : List Instruction)
      → 96 < total xs + (a.length + (b.length + c.length))
      → entry.address + (total xs + (a.length + (b.length + c.length))) ≡ info.return_address
      → Sweep decode entry 0 (xs ++ (a ∷ b ∷ c ∷ x ∷ ys))
      → (messages : List Message) × (dump : Dump) × (isr_report lookup search_repr table decode
            memory buf ring frame_address info
          ≡ some (messages, some dump))
        × (code_of messages ≡ info.error_code % 2 ^ 7)
        × (dump.frames ≡ kernel_lines lookup search_repr table 16 0 rips)
        × (dump.lines
            ≡ lines_of search_repr table buf info.return_address entry
                (total xs)
                (a ∷ b ∷ c ∷ x ∷ [])
              ++ show_lines search_repr table buf info.return_address decode laws entry fits 3
                  (total xs + (a.length + (b.length + (c.length + x.length)))))
        × ((line search_repr table buf info.return_address info.return_address x).marked ≡ true)
  unfolding isr_report
  isr_report-page_fault info entry fault there nothing found fits rips chain xs a b c x ys far at
        s =
      let (run, code) = isr_handler-page_fault (found_address lookup) info fault in
      let rip = find_rip-none info.return_address nothing in
      let (dump, dumps, frames, lines) =
        dump_at_addr_lem info.return_address info.rbp entry found there in
      let (shown, marked) =
        listing-far search_repr table buf info.return_address decode laws entry fits ring xs a b c x
          ys far at s in
      let at_rip : (if ltb
              (sub64 info.return_address (find_rip (found_address lookup) info.return_address)) 2
            then info.return_address
            else find_rip (found_address lookup) info.return_address)
          ≡ info.return_address =
        rw rip
          (if-same (ltb (sub64 info.return_address info.return_address) 2) info.return_address) in
      let messages =
        dump_registers (located (found_address lookup) info)
        ++ handle_page_fault (located (found_address lookup) info) in
      let at : (r d : ℕ) → Option (List Message × Option Dump) = λ r d. some (
        messages,
        dump_at_addr lookup search_repr table decode memory buf ring frame_address r info.rbp d,
      ) in
      (
        messages,
        dump,
        rw (run, isr_report) (λ i. at (rip i) (at_rip i)) ∙ ap (λ o. some (messages, o)) dumps,
        code,
        frames ∙ backtrace-FrameChain lookup search_repr table memory info.rbp rips chain,
        lines ∙ shown,
        marked,
      )
