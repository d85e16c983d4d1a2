-- ===== src/Sys/Acpi/Handlers.antt =====
-- The handlers that uACPI installs through src/kernel/sys/acpi_kapi.cc: which interrupts call them.
use slayer_os.Base.{
  ℕ, ◌+◌, ◌-◌, ◌^◌, ◌&&◌, ◌<◌, ◌≡◌, ◌≢◌, refl, true, false, some, [], ◌∷◌, ◌++◌, ◌==◌, leb, ltb,
  update, eq→==, ne→==, arith, u8, u32,
}
use slayer_os.Cpu.Idt.Gates.{LeadsTo, gate-LeadsTo}
use slayer_os.Cpu.Irq.{Irqs, register_irq, eoi, irq_handler, irq_error, irq_common}
use slayer_os.Sys.Acpi.{
  System, handler_at, null_handle, ok, already_exists, uacpi_irq_bridge, install, uninstall,
  interrupt,
}

leb-small : (i : ℕ) → i < 256 → leb 256 i ≡ false
leb-small i h = ground arith

-- The system with a handler entered, as `install` leaves it.
abbrev pub with_handler : ℕ → System → (irq handler ctx : ℕ) → System
with_handler bridge s irq handler ctx = record s {
  uacpi_handlers =
      update s.uacpi_handlers irq
        (record { handler = handler; ctx = ctx; irq = irq; installed = true });
  irqs = register_irq s.irqs (u8 irq) bridge;
}

abbrev pub acknowledged : System → System
acknowledged s = record s { irqs = eoi s.irqs }

module _ (bridge : ℕ) (others : ℕ → System → System) (s : System) (irq handler ctx : ℕ)
    (small : irq < 16) (some_bridge : bridge ≢ 0) (some_handler : handler ≢ 0)
    (room : (s.uacpi_handlers irq).installed ≡ false) where
  installs :
      install bridge s irq handler ctx true
      ≡ (ok, handler_at irq, with_handler bridge s irq handler ctx)
  unfolding install
  installs = rw (leb-small irq (omega arith), ne→== handler 0 some_handler, room) refl

  -- The stub of vector 32 + irq is one of those that lead to the dispatch.
  irq_common-stub :
      (irqs : System → Irqs) (end : System → System) (call : ℕ → ℕ → System → System) (x : System)
      → irq_common irqs end call (32 + irq) x ≡ some (irq_handler irqs end (call irq) irq x)
  unfolding irq_common irq_error
  irq_common-stub irqs end call x =
      let inside : (leb 32 (32 + irq) && ltb (32 + irq) 48) ≡ true = ground arith in
      let number : 32 + irq - 32 ≡ irq = omega arith in
      rw (irq_common, irq_error, inside, number) refl

  -- A handler that is not null is installed as that of an IRQ below 16 that has none, where the
  -- bridge's address is not null either, and that of the stub of vector irq has 64 bits. The stub of
  -- vector 32 + irq then calls it with its context, and nothing else, and acknowledges; but the gate
  -- of that vector is the one from before: the gate that is written is that of vector irq, one of the
  -- exceptions', which leads to the exception's stub, on the second stack.
  pub interrupt-install :
      s.irqs.isr_handlers irq < 2 ^ 64
      → let (status, handle, after) = install bridge s irq handler ctx true in
        (status ≡ ok)
        × (interrupt bridge others (32 + irq) after
            ≡ some (acknowledged (record after { calls = s.calls ++ ((handler, ctx) ∷ []) })))
        × (after.irqs.idt (32 + irq) ≡ s.irqs.idt (32 + irq))
        × LeadsTo (after.irqs.idt irq) (s.irqs.isr_handlers irq) 2
  unfolding interrupt irq_handler uacpi_irq_bridge register_irq
  interrupt-install fits =
      let cut : u8 (u8 irq) ≡ irq = omega arith in
      let cut2 : u8 (u8 (u8 irq)) ≡ irq = omega arith in
      let cut' : u32 irq ≡ irq = omega arith in
      let apart : (32 + irq == irq) ≡ false = ne→== (32 + irq) irq (λ e. omega arith) in
      rw installs (
        refl,
        rw
            (
              irq_common-stub,
              cut,
              eq→== irq irq refl,
              ne→== bridge 0 some_bridge,
              eq→== bridge bridge refl,
              cut',
              leb-small irq (omega arith),
              eq→== irq irq refl,
              ne→== handler 0 some_handler,
            )
            refl,
        rw (cut2, apart) refl,
        rw (cut2, cut, eq→== irq irq refl)
            (gate-LeadsTo (s.irqs.isr_handlers irq) 2 fits (omega arith)),
      )

  -- A handler that is not null, installed as that of an IRQ below 16 that has none, where the
  -- bridge's address is not null, stays until it is removed: a second install of one that is not
  -- null is refused there and changes nothing. With the handle that the install gave out it is
  -- removed; the stub of vector 32 + irq then only acknowledges, and the IRQ has no handler again.
  pub uninstall-install :
      (handler' ctx' : ℕ)
      → handler' ≢ 0
      → let (_, handle, after) = install bridge s irq handler ctx true in
        let (status, gone) = uninstall after handler handle in
        (install bridge after irq handler' ctx' true ≡ (already_exists, null_handle, after))
        × (status ≡ ok)
        × (interrupt bridge others (32 + irq) gone ≡ some (acknowledged gone))
        × ((gone.uacpi_handlers irq).installed ≡ false)
  unfolding interrupt irq_handler uacpi_irq_bridge register_irq install uninstall
  uninstall-install handler' ctx' some' =
      let cut : u8 (u8 irq) ≡ irq = omega arith in
      let cut' : u32 irq ≡ irq = omega arith in
      let same : (irq == irq) ≡ true = eq→== irq irq refl in
      let below = leb-small irq (omega arith) in
      rw installs (
        rw (below, ne→== handler' 0 some', same) refl,
        rw (ne→== handler 0 some_handler, below, same, eq→== handler handler refl) refl,
        rw
            (
              ne→== handler 0 some_handler,
              below,
              same,
              eq→== handler handler refl,
              irq_common-stub,
              cut,
              same,
              ne→== bridge 0 some_bridge,
              eq→== bridge bridge refl,
              cut',
              below,
              same,
            )
            refl,
        rw (ne→== handler 0 some_handler, below, same, eq→== handler handler refl) (rw same refl),
      )
