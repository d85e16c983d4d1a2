-- ===== src/Cpu/Idt/Gates.antt =====
-- What the processor reads from the gates that src/kernel/cpu/interrupts/idt.cc writes.
use slayer_os.Base.{
  ℕ, zero, suc, ◌+◌, ◌*◌, ◌^◌, ◌≤◌, ◌<◌, ◌≡◌, ◌∙◌, refl, ap, arith, Bool, true, false, ◌==◌, inl,
  inr, Bool-cases, if◌then◌else◌, update, eq→==, leb, ltb, ◌&&◌, ◌||◌, u8, not, ◌/◌, ◌%◌,
}
use slayer_os.Base.Bits.{bit_and_low_bits}
use slayer_os.Cpu.Idt.{
  Gate, gate, int_gate, ist_exception, register_handler, register_exceptions, idt_init,
}

-- The address that the processor puts together from the parts of a gate.
abbrev pub target : Gate → ℕ
target g = g.offset_low + g.offset_mid * 2 ^ 16 + g.offset_high * 2 ^ 32

-- The parts of a gate give back the address of its handler.
pub target-gate :
    (offset selector type ist : ℕ)
    → offset < 2 ^ 64
    → target (gate offset selector type ist) ≡ offset
unfolding gate
target-gate offset selector type ist fits = omega (
  arith,
  bit_and_low_bits 16 offset,
  bit_and_low_bits 16 (offset / 2 ^ 16),
  bit_and_low_bits 32 (offset / 2 ^ 32),
)

-- What the processor takes from a gate: the handler's address in the kernel's code segment, an
-- interrupt gate that is present and that only the kernel calls, and the stack's number.
pub record LeadsTo (g : Gate) (address stack : ℕ) : Type 0 where
  pub leads : target g ≡ address
  pub segment : g.selector ≡ 0x08
  pub kind : g.type_attr % 16 ≡ 0xe
  pub privilege : g.type_attr / 32 % 4 ≡ 0
  pub present : g.type_attr / 128 ≡ 1
  pub on : g.ist % 8 ≡ stack

pub gate-LeadsTo :
    (offset stack : ℕ)
    → offset < 2 ^ 64
    → stack < 8
    → LeadsTo (gate offset 0x08 int_gate stack) offset stack
unfolding gate
gate-LeadsTo offset stack fits few = record {
  leads = target-gate offset 0x08 int_gate stack fits;
  segment = refl;
  kind = refl;
  privilege = refl;
  present = refl;
  on = omega arith;
}

-- The gate of an exception.
abbrev pub exception_gate : ℕ → Gate
exception_gate handler = gate handler 0x08 int_gate ist_exception

register_handler-at :
    (handlers : ℕ → ℕ) (idt : ℕ → Gate) (i v : ℕ)
    → i < 256
    → register_handler handlers idt i v
      ≡ (if (v == i) && not (handlers v == 0) then exception_gate (handlers v) else idt v)
register_handler-at handlers idt i v small = elim (Bool-cases (v == i)) [
  | inl same ↦
      let e : v ≡ i = ground arith in
      let cut : u8 i ≡ i = omega arith in
      elim (Bool-cases (handlers i == 0)) [
        | inl null ↦ rw (e, null, eq→== i i refl) refl
        | inr set ↦ rw (e, set, cut, eq→== i i refl) refl
      ]
  | inr other ↦
      let cut : u8 i ≡ i = omega arith in
      elim (Bool-cases (handlers i == 0)) [
        | inl null ↦ rw (null, other) refl
        | inr set ↦ rw (set, cut, other) refl
      ]
]

register_exceptions-at :
    (handlers : ℕ → ℕ) (n i : ℕ) (idt : ℕ → Gate) (v : ℕ)
    → i + n ≤ 256
    → register_exceptions handlers n i idt v ≡ (
        if (leb i v && ltb v (i + n)) && not (handlers v == 0)
        then exception_gate (handlers v)
        else idt v)
unfolding register_exceptions
register_exceptions-at handlers zero i idt v small =
    let no_more : (leb i v && ltb v (i + zero)) ≡ false = ground arith in rw no_more refl
register_exceptions-at handlers (suc n) i idt v small =
    register_exceptions-at handlers n (i + 1) _ v (omega arith)
    ∙ ap
        (λ g.
          if (leb (i + 1) v && ltb v (i + 1 + n)) && not (handlers v == 0)
          then exception_gate (handlers v)
          else g)
        (register_handler-at handlers idt i v (omega arith))
    ∙ merge (leb (i + 1) v && ltb v (i + 1 + n)) (v == i) (not (handlers v == 0))
        (leb i v && ltb v (i + suc n)) (exception_gate (handlers v)) (idt v) (ground arith)
  where
    merge :
        (later here set all : Bool) (g h : Gate)
        → (later || here) ≡ all
        → (if later && set then g else (if here && set then g else h))
          ≡ (if all && set then g else h)
    merge true here true all g h e = rw (← e) refl
    merge true here false all g h e = ground arith
    merge false true true all g h e = rw (← e) refl
    merge false true false all g h e = ground arith
    merge false false set all g h e = rw (← e) refl

idt_init-at :
    (isr_handlers : ℕ → ℕ) (isr0xf0 isr0xff : ℕ) (idt : ℕ → Gate) (v : ℕ)
    → let (handlers, after) = idt_init isr_handlers isr0xf0 isr0xff idt in
      after v ≡ (
        if (ltb v 32 || (v == 0xf0) || (v == 0xff)) && not (handlers v == 0)
        then exception_gate (handlers v)
        else idt v)
unfolding idt_init
idt_init-at isr_handlers isr0xf0 isr0xff idt v =
    let handlers : ℕ → ℕ = update (update isr_handlers 0xf0 isr0xf0) 0xff isr0xff in
    let exceptions : ℕ → Gate = register_exceptions handlers 32 0 idt in
    register_handler-at handlers (register_handler handlers exceptions 0xf0) 0xff v (omega arith)
    ∙ ap (λ g. if (v == 0xff) && not (handlers v == 0) then exception_gate (handlers v) else g)
        (register_handler-at handlers exceptions 0xf0 v (omega arith)
          ∙ ap
              (λ g. if (v == 0xf0) && not (handlers v == 0) then exception_gate (handlers v) else g)
              (register_exceptions-at handlers 32 0 idt v (omega arith)))
    ∙ merge (leb 0 v && ltb v 32) (ltb v 32) (v == 0xf0) (v == 0xff) (not (handlers v == 0))
        (exception_gate (handlers v)) (idt v) (ground arith)
  where
    merge :
        (low small f0 ff set : Bool) (g h : Gate)
        → low ≡ small
        → (if ff && set then g else (if f0 && set then g else (if low && set then g else h)))
          ≡ (if (small || f0 || ff) && set then g else h)
    merge true small f0 ff set g h e = rw (← e) (both f0 ff set g h)
      where
        both :
            (f0 ff set : Bool) (g h : Gate)
            → (if ff && set then g else (if f0 && set then g else (if set then g else h)))
              ≡ (if set then g else h)
        both f0 ff true g h = ground arith
        both f0 ff false g h = ground arith
    merge false small f0 true true g h e = ground arith
    merge false small f0 true false g h e = ground arith
    merge false small f0 false set g h e = ground arith

-- After `init`, where the addresses of the stubs have 64 bits, each gate of the 32 exceptions and of
-- the vectors 0xF0 and 0xFF whose stub is not null leads to that stub: the processor reads its
-- address, the kernel's code segment, a present interrupt gate of the kernel, and the first stack.
-- All other gates are as before.
pub idt_init_lem :
    (isr_handlers : ℕ → ℕ) (isr0xf0 isr0xff : ℕ) (idt : ℕ → Gate)
    → ((i : ℕ) → isr_handlers i < 2 ^ 64)
    → isr0xf0 < 2 ^ 64
    → isr0xff < 2 ^ 64
    → (v : ℕ)
    → let (handlers, after) = idt_init isr_handlers isr0xf0 isr0xff idt in
      let set = (ltb v 32 || (v == 0xf0) || (v == 0xff)) && not (handlers v == 0) in
      (set ≡ true → LeadsTo (after v) (handlers v) 1) × (set ≡ false → after v ≡ idt v)
unfolding idt_init
idt_init_lem isr_handlers isr0xf0 isr0xff idt fits fits' fits'' v =
    let at = idt_init-at isr_handlers isr0xf0 isr0xff idt v in
    let handlers : ℕ → ℕ = update (update isr_handlers 0xf0 isr0xf0) 0xff isr0xff in
    let small : handlers v < 2 ^ 64 = ground (arith, fits v) in
    ((λ e. rw (at, e) (gate-LeadsTo (handlers v) 1 small (omega arith))), (λ e. rw (at, e) refl))
