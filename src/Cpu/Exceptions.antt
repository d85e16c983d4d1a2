-- ===== src/Cpu/Exceptions.antt =====
-- src/kernel/cpu/interrupts/handler.cc: the reports of exceptions.
-- What is printed is a list of the messages that carry information; frames and blank lines are
-- left out. What the DWARF reader of klib finds for an address is an argument.
pub mod Codes
pub mod Report
pub mod Faults
mod Tests
use slayer_os.Base.{
  ℕ, ◌+◌, ◌==◌, Bool, true, false, not, ◌||◌, Option, none, some, List, [], ◌∷◌, ◌++◌, ltb,
  if◌then◌else◌, get_elem?, bit_and, ◌>>>◌, u8, u16, sub64,
}
use slayer_os.Base.Cells.{codes}

-- `isr_frame`
pub record IsrFrame : Type 0 where
  pub return_address : ℕ
  pub gs : ℕ
  pub fs : ℕ
  pub es : ℕ
  pub ds : ℕ
  pub cs : ℕ
  pub ss : ℕ
  pub cr0 : ℕ
  pub cr2 : ℕ
  pub cr3 : ℕ
  pub cr4 : ℕ
  pub cr8 : ℕ
  pub rip : ℕ
  pub rax : ℕ
  pub rbx : ℕ
  pub rcx : ℕ
  pub rdx : ℕ
  pub rsi : ℕ
  pub rdi : ℕ
  pub rsp : ℕ
  pub rbp : ℕ
  pub r8 : ℕ
  pub r9 : ℕ
  pub r10 : ℕ
  pub r11 : ℕ
  pub r12 : ℕ
  pub r13 : ℕ
  pub r14 : ℕ
  pub r15 : ℕ
  pub int_num : ℕ
  pub error_code : ℕ

-- The registers in the order of the report.
pub data Register : Type 0 where
  reg_rax reg_rbx reg_rcx reg_rdx reg_rsi reg_rdi reg_rsp reg_rbp reg_r8 reg_r9 reg_r10 reg_r11
        reg_r12 reg_r13 reg_r14 reg_r15 :
      Register
  reg_rip : Register
  reg_cr0 reg_cr2 reg_cr3 reg_cr4 reg_cr8 : Register
  reg_cs reg_ds reg_es reg_fs reg_gs reg_ss : Register

-- `messages`, up to the null pointers behind them.
abbrev pub message_texts : List (List ℕ)
message_texts =
    codes "Divide by zero"
    ∷ codes "Single step"
    ∷ codes "Non-maskable interrupt"
    ∷ codes "Breakpoint"
    ∷ codes "Overflow"
    ∷ codes "Bound range exceeded"
    ∷ codes "Invalid opcode"
    ∷ codes "Device not available"
    ∷ codes "Double fault"
    ∷ codes "Coprocessor segment overrun"
    ∷ codes "Invalid TSS"
    ∷ codes "Segment not present"
    ∷ codes "Stack-segment fault"
    ∷ codes "General protection fault"
    ∷ codes "Page fault"
    ∷ codes "Reserved"
    ∷ codes "x87 FPU error"
    ∷ codes "Alignment check"
    ∷ codes "Machine check"
    ∷ codes "SIMD floating-point exception"
    ∷ codes "Virtualization exception"
    ∷ codes "Control protection exception"
    ∷ []

pub data Message : Type 0 where
  interrupt : ℕ → Message
  message_of : List ℕ → Message
  register : Register → ℕ → Message
  error_code_of : ℕ → Message
  double_fault : Message
  external_interrupt internal_exception : Message
  global_table interrupt_table local_table : Message
  index_of : ℕ → Message
  invalid_tss : ℕ → Message
  invalid_segment : ℕ → Message
  protection_fault : ℕ → Message
  page_fault_at : ℕ → Message
  protection_violation page_not_present : Message
  write_operation read_operation : Message
  user_mode supervisor_mode : Message
  reserved_bit instruction_fetch protection_key shadow_stack : Message

-- The text of a message; the code reads it where there is one.
abbrev pub message_text : ℕ → List ℕ
message_text n = elim (get_elem? message_texts n) [ none ↦ [] | some text ↦ text ]

-- The registers of a report.
unfoldable pub register_lines : IsrFrame → List Message
register_lines info =
    register reg_rax info.rax
    ∷ register reg_rbx info.rbx
    ∷ register reg_rcx info.rcx
    ∷ register reg_rdx info.rdx
    ∷ register reg_rsi info.rsi
    ∷ register reg_rdi info.rdi
    ∷ register reg_rsp info.rsp
    ∷ register reg_rbp info.rbp
    ∷ register reg_r8 info.r8
    ∷ register reg_r9 info.r9
    ∷ register reg_r10 info.r10
    ∷ register reg_r11 info.r11
    ∷ register reg_r12 info.r12
    ∷ register reg_r13 info.r13
    ∷ register reg_r14 info.r14
    ∷ register reg_r15 info.r15
    ∷ register reg_rip info.rip
    ∷ register reg_cr0 info.cr0
    ∷ register reg_cr2 info.cr2
    ∷ register reg_cr3 info.cr3
    ∷ register reg_cr4 info.cr4
    ∷ register reg_cr8 info.cr8
    ∷ register reg_cs info.cs
    ∷ register reg_ds info.ds
    ∷ register reg_es info.es
    ∷ register reg_fs info.fs
    ∷ register reg_gs info.gs
    ∷ register reg_ss info.ss
    ∷ []

-- `dump_registers`
unfoldable pub dump_registers : IsrFrame → List Message
unfolding register_lines
dump_registers info =
    (interrupt info.int_num ∷ [])
    ++ ((if ltb info.int_num 22 then message_of (message_text info.int_num) ∷ [] else [])
        ++ ((if info.error_code == 0 then [] else error_code_of info.error_code ∷ [])
            ++ register_lines info))

unfoldable pub handle_double_fault : IsrFrame → List Message
handle_double_fault info =
    let ext = u8 (bit_and info.error_code 0x01) in
    let tbl = u8 (bit_and info.error_code 0x07 >>> 1) in
    let index = u16 (bit_and info.error_code 0xffff >>> 3) in
    double_fault
    ∷ (if ext == 0 then internal_exception else external_interrupt)
    ∷ (if tbl == 0b00
        then global_table
        else (if (tbl == 0b01) || (tbl == 0b11) then interrupt_table else local_table))
    ∷ index_of index
    ∷ []

-- A test of one bit of the attributes of a page fault.
abbrev pub has_bit : ℕ → ℕ → Bool
has_bit attrs k = not (bit_and (attrs >>> k) 0x1 == 0)

unfoldable pub handle_page_fault : IsrFrame → List Message
handle_page_fault info =
    let attrs = u8 (bit_and info.error_code 0x7f) in
    page_fault_at info.cr2
    ∷ (if has_bit attrs 0 then protection_violation else page_not_present)
    ∷ (if has_bit attrs 1 then write_operation else read_operation)
    ∷ (if has_bit attrs 2 then user_mode else supervisor_mode)
    ∷ ((if has_bit attrs 3 then reserved_bit ∷ [] else [])
        ++ ((if has_bit attrs 4 then instruction_fetch ∷ [] else [])
            ++ ((if has_bit attrs 5 then protection_key ∷ [] else [])
                ++ (if has_bit attrs 6 then shadow_stack ∷ [] else []))))

abbrev pub handle_invalid_tss : IsrFrame → List Message
handle_invalid_tss info = invalid_tss info.error_code ∷ []

abbrev pub handle_invalid_segment : IsrFrame → List Message
handle_invalid_segment info = invalid_segment info.error_code ∷ []

abbrev pub handle_gpf : IsrFrame → List Message
handle_gpf info = protection_fault info.error_code ∷ []

unfoldable pub handle_err_code : IsrFrame → List Message
unfolding handle_double_fault handle_page_fault
handle_err_code info =
    if info.int_num == 0x08
    then handle_double_fault info
    else (if info.int_num == 0x0a
        then handle_invalid_tss info
        else (if info.int_num == 0x0b
            then handle_invalid_segment info
            else (if info.int_num == 0x0d
                then handle_gpf info
                else (if info.int_num == 0x0e then handle_page_fault info else []))))

-- `find_rip`, where `lookup` is what `addr2line_lookup` finds.
unfoldable pub find_rip : (ℕ → Option ℕ) → ℕ → ℕ
find_rip lookup return_address = elim (lookup (sub64 return_address 1)) [
  | none ↦ return_address
  | some address ↦ address
]

-- The report of `isr_handler`: the frame with its `rip`, the messages, and the address that is
-- disassembled. `none`: the spurious interrupt, which is not reported.
unfoldable pub isr_handler : (ℕ → Option ℕ) → IsrFrame → Option (IsrFrame × List Message × ℕ)
unfolding find_rip dump_registers handle_err_code
isr_handler lookup info =
    if info.int_num == 0xff
    then none
    else some (
        let info' = record info { rip = find_rip lookup info.return_address } in
        let n = info.int_num in
        (
          info',
          dump_registers info'
              ++ (if (n == 0x08) || (n == 0x0a) || (n == 0x0b) || (n == 0x0d) || (n == 0x0e)
                  then handle_err_code info'
                  else []),
          if ltb (sub64 info.return_address info'.rip) 0x2 then info.return_address else info'.rip,
        ))
