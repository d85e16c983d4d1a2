-- ===== src/Cpu/Idt/Tests.antt =====
-- The gates of src/kernel/cpu/interrupts/idt.cc at one table.
use slayer_os.Base.{
  ℕ, ◌+◌, ◌*◌, ◌≡◌, ◌==◌, ltb, ◌&&◌, ◌||◌, not, if◌then◌else◌, true, false, ◌<◌, ◌^◌, arith,
}
use slayer_os.Cpu.Idt.{Gate, idt_init}
use slayer_os.Cpu.Idt.Gates.{LeadsTo, idt_init_lem}

abbrev empty : ℕ → Gate
empty _ = record {
  offset_low = 0;
  selector = 0;
  ist = 0;
  type_attr = 0;
  offset_mid = 0;
  offset_high = 0;
  reserved = 0;
}

-- Stubs for the vectors 0 to 47.
abbrev stubs : ℕ → ℕ
stubs i = if ltb i 48 then 0xffff_ffff_8000_1000 + i * 16 else 0

stubs-fit : (i : ℕ) → stubs i < 2 ^ 64
stubs-fit i = ground arith

idt_init_lem_example :
    let (handlers, after) = idt_init stubs 0x7000 0x7010 empty in
    let set = (ltb 0x0e 32 || (0x0e == 0xf0) || (0x0e == 0xff)) && not (handlers 0x0e == 0) in
    (set ≡ true → LeadsTo (after 0x0e) (handlers 0x0e) 1) × (set ≡ false → after 0x0e ≡ empty 0x0e)
idt_init_lem_example =
    idt_init_lem stubs 0x7000 0x7010 empty stubs-fit (omega arith) (omega arith) 0x0e
