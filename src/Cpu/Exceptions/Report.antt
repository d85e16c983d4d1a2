-- ===== src/Cpu/Exceptions/Report.antt =====
-- The whole report of `isr_handler` of src/kernel/cpu/interrupts/handler.cc, with the dump of
-- src/kernel/err/dump.cc that it ends with.
use slayer_os.Base.{ℕ, Option, none, some, List}
use slayer_os.Cpu.Exceptions.{IsrFrame, Message, isr_handler}
use slayer_os.Err.Symbols.{Symbol, SearchResult}
use slayer_os.Err.Dump.{Addr2LineResult}
use slayer_os.Err.Dump.Listing.{Decoder, Dump, dump_at_addr}

-- The address of what `addr2line_lookup` finds.
abbrev pub found_address : (ℕ → Option Addr2LineResult) → ℕ → Option ℕ
found_address lookup address = elim (lookup address) [ none ↦ none | some r ↦ some r.address ]

-- `isr_handler`, up to its `hlt`: `none` for the spurious interrupt, which returns.
unfoldable pub isr_report :
    (ℕ → Option Addr2LineResult)
    → (ℕ → SearchResult → ℕ → ℕ)
    → List Symbol
    → Decoder
    → (memory buf ring : ℕ → ℕ) → (frame_address : ℕ) → IsrFrame
    → Option (List Message × Option Dump)
isr_report lookup search_repr table decode memory buf ring frame_address info =
    elim (isr_handler (found_address lookup) info) [
      | none ↦ none
      | some (info', messages, disas_addr) ↦ some (
        messages,
        dump_at_addr lookup search_repr table decode memory buf ring frame_address info'.rip
            info'.rbp disas_addr,
      )
    ]
