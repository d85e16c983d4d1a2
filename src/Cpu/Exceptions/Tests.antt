-- ===== src/Cpu/Exceptions/Tests.antt =====
-- A page fault that src/kernel/cpu/interrupts/handler.cc reports: a write to a page that is not
-- present, from user mode.
use slayer_os.Base.{◌≡◌, ◌%◌, ◌^◌, refl, some, List, [], ◌∷◌, ◌++◌, ◌+◌, true, arith}
use slayer_os.Err.Symbols.{resolve_address}
use slayer_os.Err.Dump.Chain.{kernel_lines}
use slayer_os.Err.Dump.Listing.{Dump, line}
use slayer_os.Err.Dump.Listing.Shown.{lines_of, show_lines}
use slayer_os.Err.Dump.Samples.{
  repr, nothing_found, stack, buf, nop, nops, nops-IsDecoder, function, three, eight, frames,
}
use slayer_os.Cpu.Exceptions.{IsrFrame, Message}
use slayer_os.Cpu.Exceptions.Report.{isr_report}
use slayer_os.Cpu.Exceptions.Faults.{isr_report-page_fault}
use slayer_os.Cpu.Exceptions.Codes.{code_of}

abbrev frame : IsrFrame
frame = record {
  return_address = 0xffff_ffff_8000_1234;
  gs = 0;
  fs = 0;
  es = 0;
  ds = 0;
  cs = 0;
  ss = 0;
  cr0 = 0;
  cr2 = 0x1000;
  cr3 = 0;
  cr4 = 0;
  cr8 = 0;
  rip = 0;
  rax = 0;
  rbx = 0;
  rcx = 0;
  rdx = 0;
  rsi = 0;
  rdi = 0;
  rsp = 0;
  rbp = 0;
  r8 = 0;
  r9 = 0;
  r10 = 0;
  r11 = 0;
  r12 = 0;
  r13 = 0;
  r14 = 0;
  r15 = 0;
  int_num = 0x0e;
  error_code = 0b110;
}

-- The fault at offset 105 of the function of the samples.
abbrev fault : IsrFrame
fault = record frame { return_address = 0x1000 + 105; rbp = 0x100 }

resolves : (resolve_address (0x1000 + 105) (function ∷ [])).entry ≡ some function
unfolding resolve_address
resolves = refl

isr_report-page_fault_example :
    (messages : List Message) × (dump : Dump) × (isr_report nothing_found repr
        (function ∷ [])
        nops
        stack
        buf
        buf
        0x500
        fault
      ≡ some (messages, some dump))
    × (code_of messages ≡ 0b110 % 2 ^ 7)
    × (dump.frames
        ≡ kernel_lines nothing_found repr
            (function ∷ [])
            16
            0
            (0xffff_ffff_8000_1000 ∷ 0x40_0000 ∷ 0xffff_ffff_8000_2000 ∷ []))
    × (dump.lines
        ≡ lines_of repr (function ∷ []) buf (0x1000 + 105) function 60 (nop ∷ nop ∷ nop ∷ nop ∷ [])
          ++ show_lines repr
              (function ∷ [])
              buf
              (0x1000 + 105)
              nops
              nops-IsDecoder
              function
              (omega arith)
              3
              120)
    × ((line repr (function ∷ []) buf (0x1000 + 105) (0x1000 + 105) nop).marked ≡ true)
isr_report-page_fault_example =
    isr_report-page_fault nothing_found repr (function ∷ []) nops nops-IsDecoder stack buf buf 0x500
      fault function refl (λ e. omega arith) refl resolves (omega arith)
      (0xffff_ffff_8000_1000 ∷ 0x40_0000 ∷ 0xffff_ffff_8000_2000 ∷ []) frames (nop ∷ three) nop nop
      nop nop [] (omega arith) refl eight
