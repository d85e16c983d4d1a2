-- ===== src/Cpu/Irq/Init.antt =====
-- The way of a timer's interrupt that `IRQ::init` of src/kernel/cpu/interrupts/irq.cc sets up.
use slayer_os.Base.{
  ℕ, ◌+◌, ◌-◌, ◌*◌, ◌^◌, ◌≡◌, ◌<◌, ◌≢◌, refl, true, false, some, ne→==, u64, arith,
}
use slayer_os.Boot.{BootCtx}
use slayer_os.Mem.Frames.{phys_to_virt}
use slayer_os.Cpu.Idt.Gates.{LeadsTo, gate-LeadsTo}
use slayer_os.Cpu.Irq.{
  Irqs, register_irq, eoi, timer_handle, irq_error, irq_handler, irq_common, irq_init,
}
use slayer_os.Cpu.Pit.{tick}
use slayer_os.Sys.IoApic.{IoApics, find_override, pin_of, decode}
use slayer_os.Sys.IoApic.Route.{covers, routed, set_route_lem}

-- Where some chip has the pin of the timer, and the `j`-th is the first one, `init` sends the
-- interrupts of that pin to the local APIC as vector 0x20. The gate of that vector leads to its
-- stub, whose address has 64 bits, on the second stack; and what the stub pushes leads to the timer's
-- handler, where its address is not null: it counts the interrupt and the tick, and the interrupt is
-- acknowledged.
pub irq_init_lem :
    (boot : BootCtx) (timer id : ℕ) (s : Irqs) (io : IoApics) (call : ℕ → Irqs → Irqs) (j : ℕ)
    → id < 2 ^ 8
    → j < io.apic_ent
    → timer ≢ 0
    → ((x : Irqs) → call timer x ≡ timer_handle x)
    → s.isr_handlers 0x20 < 2 ^ 64
    → let o = find_override io.iso 0 io.iso_ent 0 in
      let a = io.apics j in
      let entry = 0x10 + (pin_of 0 o - a.gsi_base) * 2 in
      let (s', io') = irq_init boot timer id s io in
      let registers = (io'.chips (phys_to_virt boot a.address)).registers in
      ((k : ℕ) → k < j → covers boot io (pin_of 0 o) (io.apics k) ≡ false)
      → covers boot io (pin_of 0 o) a ≡ true
      → (decode (registers entry) (registers (entry + 1)) ≡ routed 0x20 id o)
        × LeadsTo (s'.idt 0x20) (s.isr_handlers 0x20) 2
        × (irq_common (λ x. x) eoi (λ _. call) 0x20 s'
            ≡ some (record s' {
              timer_interrupt_count = u64 (s.timer_interrupt_count + 1);
              pit = tick s.pit;
              eois = s.eois + 1;
            }))
unfolding irq_init register_irq irq_common irq_error irq_handler timer_handle eoi
irq_init_lem boot timer id s io call j small inside set handles fits others found = (
  (set_route_lem boot io 0x20 0 id j (omega arith) (omega arith) small inside others found).0,
  gate-LeadsTo (s.isr_handlers 0x20) 2 fits (omega arith),
  rw (ne→== timer 0 set, handles) refl,
)
