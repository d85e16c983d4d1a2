-- ===== src/Cpu/Idt.antt =====
-- src/kernel/cpu/interrupts/idt.cc and src/include/cpu/idt.h: the table of interrupt gates. A
-- handler is the number of its address, and the null pointer is 0. The stubs isr0 to isr47, isr0xF0
-- and isr0xFF are assembly: their addresses are an argument.
pub mod Gates
mod Tests
use slayer_os.Base.{
  ℕ, zero, suc, ◌+◌, ◌-◌, ◌*◌, ltb, ◌==◌, if◌then◌else◌, update, bit_and, bit_or, ◌>>>◌, u8, u16,
  u32, u64,
}

abbrev pub int_gate : ℕ
int_gate = 0x8e

abbrev pub ist_exception : ℕ
ist_exception = 1

abbrev pub ist_irq : ℕ
ist_irq = 2

-- `IDT::Table`
pub record Table : Type 0 where
  pub size : ℕ
  pub offset : ℕ

-- `isr_handlers` before `init`, with the stubs isr0 to isr47.
abbrev pub isr_handlers : (ℕ → ℕ) → ℕ → ℕ
isr_handlers stub i = if ltb i 48 then stub i else 0

-- `idtr`, as `init` fills it, with the address of the table.
unfoldable pub idt_pointer : ℕ → Table
idt_pointer idt_at = record { size = u16 (16 * 256) - 1; offset = idt_at }

-- `IDT::Gate`
pub record Gate : Type 0 where
  pub offset_low : ℕ
  pub selector : ℕ
  pub ist : ℕ
  pub type_attr : ℕ
  pub offset_mid : ℕ
  pub offset_high : ℕ
  pub reserved : ℕ

unfoldable pub gate : (offset selector type ist : ℕ) → Gate
gate offset selector type ist = record {
  offset_low = u16 (bit_and offset 0xffff);
  selector = u16 selector;
  ist = u8 ist;
  type_attr = u8 (bit_or type 0x80);
  offset_mid = u16 (bit_and (offset >>> 16) 0xffff);
  offset_high = u32 (bit_and (offset >>> 32) 0xffff_ffff);
  reserved = 0;
}

-- `IDT::register_entry_with_ist`
abbrev pub register_entry_with_ist : (ℕ → Gate) → (index offset selector type ist : ℕ) → ℕ → Gate
register_entry_with_ist idt index offset selector type ist =
    update idt (u8 index) (gate offset selector type ist)

-- `IDT::register_entry`
abbrev pub register_entry : (ℕ → Gate) → (index offset selector type : ℕ) → ℕ → Gate
register_entry idt index offset selector type = update idt (u8 index) (gate offset selector type 0)

-- One entry of `init`, unless its handler is null.
abbrev pub register_handler : (ℕ → ℕ) → (ℕ → Gate) → ℕ → ℕ → Gate
register_handler isr_handlers idt i =
    if isr_handlers i == 0
    then idt
    else register_entry_with_ist idt i (isr_handlers i) 0x08 int_gate ist_exception

-- The loop of `init` over the exceptions, with the rounds left.
unfoldable pub register_exceptions : (ℕ → ℕ) → ℕ → ℕ → (ℕ → Gate) → ℕ → Gate
register_exceptions isr_handlers zero i idt = idt
register_exceptions isr_handlers (suc n) i idt =
    register_exceptions isr_handlers n (i + 1) (register_handler isr_handlers idt i)

-- `IDT::init`, with the two handlers that it enters into the table of stubs.
unfoldable pub idt_init : (ℕ → ℕ) → (isr0xf0 isr0xff : ℕ) → (ℕ → Gate) → (ℕ → ℕ) × (ℕ → Gate)
unfolding register_exceptions
idt_init isr_handlers isr0xf0 isr0xff idt =
    let handlers = update (update isr_handlers 0xf0 isr0xf0) 0xff isr0xff in
    let exceptions = register_exceptions handlers 32 0 idt in
    (handlers, register_handler handlers (register_handler handlers exceptions 0xf0) 0xff)

-- `IDT::init` on the kernel's own table of stubs, with what `lidt` loads.
unfoldable pub idt_start :
    (stub : ℕ → ℕ) (isr0xf0 isr0xff idt_at : ℕ) → (ℕ → Gate) → Table × ((ℕ → ℕ) × (ℕ → Gate))
unfolding idt_pointer idt_init
idt_start stub isr0xf0 isr0xff idt_at idt =
    (idt_pointer idt_at, idt_init (isr_handlers stub) isr0xf0 isr0xff idt)
