-- ===== src/Sys/Acpi.antt =====
-- src/kernel/sys/acpi_kapi.cc: the interrupt handlers that uACPI installs, and their way from an
-- interrupt through the dispatch of src/kernel/cpu/interrupts/irq.cc.
-- A handler and its context are the numbers of their addresses. uACPI's handlers are not known: a
-- call of one is noted in `calls`. `bridge` is the address of `uacpi_irq_bridge`, and `others` what
-- the remaining handlers of the table do.
pub mod Handlers
pub mod Handles
pub mod Mapping
pub mod Start
mod Tests
use slayer_os.Base.{
  ℕ, ◌+◌, Bool, true, false, not, ◌&&◌, ◌||◌, Option, none, some, List, [], ◌∷◌, ◌++◌, ◌==◌, leb,
  if◌then◌else◌, update, u8, u32,
}
use slayer_os.Cpu.Irq.{Irqs, register_irq, irq_common, eoi}

-- `uacpi_irq_handler`
pub record UacpiIrqHandler : Type 0 where
  pub handler : ℕ
  pub ctx : ℕ
  pub irq : ℕ
  pub installed : Bool

-- A handle: null, or a pointer to an entry of the table or behind it.
pub data IrqHandle : Type 0 where
  null_handle : IrqHandle
  handler_at : ℕ → IrqHandle

pub data UacpiStatus : Type 0 where
  ok invalid_argument already_exists : UacpiStatus

pub record System : Type 0 where
  pub irqs : Irqs
  pub uacpi_handlers : ℕ → UacpiIrqHandler
  pub calls : List (ℕ × ℕ)

-- `uacpi_irq_bridge`
unfoldable pub uacpi_irq_bridge : ℕ → System → System
uacpi_irq_bridge error s =
    let irq = u32 error in
    let entry = s.uacpi_handlers irq in
    if leb 256 irq
    then s
    else (if not entry.installed || entry.handler == 0
        then s
        else record s { calls = s.calls ++ ((entry.handler, entry.ctx) ∷ []) })

-- `uacpi_kernel_install_interrupt_handler`, with the handle that it writes; `out` is whether
-- `out_irq_handle` is not null.
unfoldable pub install :
    ℕ → System → (irq handler ctx : ℕ) → Bool → UacpiStatus × IrqHandle × System
install bridge s irq handler ctx out =
    if leb 256 irq || handler == 0 || not out
    then (invalid_argument, null_handle, s)
    else (if (s.uacpi_handlers irq).installed then (already_exists, null_handle, s) else (
      ok,
      handler_at irq,
      record s {
        uacpi_handlers =
            update s.uacpi_handlers irq
              (record { handler = handler; ctx = ctx; irq = irq; installed = true });
        irqs = register_irq s.irqs (u8 irq) bridge;
      },
    ))

-- `uacpi_kernel_uninstall_interrupt_handler`
unfoldable pub uninstall : System → ℕ → IrqHandle → UacpiStatus × System
uninstall s handler null_handle = (invalid_argument, s)
uninstall s handler (handler_at i) =
    let entry = s.uacpi_handlers i in
    if handler == 0
    then (invalid_argument, s)
    else (if leb 256 i || not entry.installed || not (entry.handler == handler)
        then (invalid_argument, s)
        else (
          ok,
          record s {
            uacpi_handlers =
                update s.uacpi_handlers i
                  (record entry { installed = false; handler = 0; ctx = 0 });
          },
        ))

-- An interrupt, from the stub of its vector on. `none`: it does not come to the dispatch.
unfoldable pub interrupt : ℕ → (ℕ → System → System) → ℕ → System → Option System
unfolding irq_common uacpi_irq_bridge
interrupt bridge others vector s =
    irq_common (λ s. s.irqs) (λ s. record s { irqs = eoi s.irqs })
      (λ error handler s. if handler == bridge then uacpi_irq_bridge error s else others handler s)
      vector s
