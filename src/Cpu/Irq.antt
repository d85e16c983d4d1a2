-- ===== src/Cpu/Irq.antt =====
-- src/kernel/cpu/interrupts/irq.cc, isr.s and src/include/cpu/irq.h: the dispatch of interrupts.
-- A handler is the number of its address, and the null pointer is 0. What a handler does when it is
-- called is an argument of `irq_handler`.
pub mod Init
mod Tests
use slayer_os.Base.{
  ℕ, ◌+◌, ◌-◌, ◌==◌, ◌&&◌, leb, ltb, Option, none, some, if◌then◌else◌, update, u8, u64,
}
use slayer_os.Cpu.Idt.{Gate, int_gate, ist_irq, register_entry_with_ist}
use slayer_os.Boot.{BootCtx}
use slayer_os.Cpu.Pit.{Pit, tick}
use slayer_os.Sys.IoApic.{IoApics, set_route}

-- The tables that the dispatch uses, the counter of timer interrupts, and the signals of the end of
-- an interrupt to the local APIC.
pub record Irqs : Type 0 where
  pub idt : ℕ → Gate
  pub isr_handlers : ℕ → ℕ
  pub irq_handlers : ℕ → ℕ
  pub timer_interrupt_count : ℕ
  pub pit : Pit
  pub eois : ℕ

-- `IRQ::register_entry`
unfoldable pub register_irq : Irqs → (irq handler : ℕ) → Irqs
register_irq s irq handler = record s {
  irq_handlers = update s.irq_handlers (u8 irq) handler;
  idt = register_entry_with_ist s.idt (u8 irq) (s.isr_handlers (u8 irq)) 0x08 int_gate ist_irq;
}

-- `Timer_Handle`
unfoldable pub timer_handle : Irqs → Irqs
timer_handle s = record s {
  timer_interrupt_count = u64 (s.timer_interrupt_count + 1);
  pit = tick s.pit;
}

-- `LAPIC::eoi`, counted.
unfoldable pub eoi : Irqs → Irqs
eoi s = record s { eois = s.eois + 1 }

-- `irq_handler`, for a frame with this `error`, on a state that holds more than the tables:
-- what the handler does, where there is one, and then the end of the interrupt.
unfoldable pub irq_handler {ℓ} : {S : Type ℓ} → (S → Irqs) → (S → S) → (ℕ → S → S) → ℕ → S → S
irq_handler irqs end call error s =
    let handler = (irqs s).irq_handlers error in end (if handler == 0 then s else call handler s)

-- What the stub of a vector pushes for the dispatch: the macro `IRQ` of isr.s for the vectors 32 to
-- 47. `none`: the stub, where there is one, leads to `isr_handler`.
unfoldable pub irq_error : ℕ → Option ℕ
irq_error vector = if leb 32 vector && ltb vector 48 then some (vector - 32) else none

-- An interrupt, from the stub of its vector on. `none`: it does not come to the dispatch.
unfoldable pub irq_common {ℓ} :
    {S : Type ℓ} → (S → Irqs) → (S → S) → (ℕ → ℕ → S → S) → ℕ → S → Option S
unfolding irq_error irq_handler
irq_common irqs end call vector s = elim (irq_error vector) [
  | none ↦ none
  | some error ↦ some (irq_handler irqs end (call error) error s)
]

-- `IRQ::init`, where `timer` is the address of `Timer_Handle` and `id` what `LAPIC::id` reads.
unfoldable pub irq_init : BootCtx → (timer id : ℕ) → Irqs → IoApics → Irqs × IoApics
unfolding register_irq
irq_init boot timer id s io =
    let s1 = register_irq s 0x20 timer in
    (record s1 { irq_handlers = update s1.irq_handlers 0 timer }, set_route boot io 0x20 0 0 id)
