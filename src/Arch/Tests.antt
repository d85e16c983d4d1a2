-- ===== src/Arch/Tests.antt =====
-- The vendor of a processor, and `PIC::disable` and `UART::init` on the writes that they make.
use slayer_os.Base.{ℕ, ◌≡◌, refl, none, List, [], ◌∷◌, ◌++◌}
use slayer_os.Base.Cells.{codes}
use slayer_os.Arch.Ports.{PortIo}
use slayer_os.Arch.Serial.{uart_init, pic_disable}
use slayer_os.Arch.Cpuid.{Cpuid, cpu_vendor}

-- A processor that answers every leaf with the vendor.
abbrev intel : Cpuid
intel leaf sub_leaf = record { eax = 2; ebx = 0x756e_6547; ecx = 0x6c65_746e; edx = 0x4965_6e69 }

intel_name : cpu_vendor intel ≡ codes "GenuineIntel" ++ (0 ∷ [])
unfolding cpu_vendor
intel_name = refl

-- A device that notes what is written and reads one byte back.
abbrev notes : ℕ → PortIo (List (ℕ × ℕ))
notes back = record {
  inb = λ port w. (back, w);
  inw = λ port w. (0, w);
  ind = λ port w. (0, w);
  outb = λ port c w. w ++ ((port, c) ∷ []);
  outw = λ port c w. w;
  outd = λ port c w. w;
}

both_masked : pic_disable (notes 0) [] ≡ (0x21, 0xff) ∷ (0xa1, 0xff) ∷ []
both_masked = refl

-- Without the byte that comes back, `UART::init` does not end.
no_loopback : uart_init (notes 0) [] ≡ none
unfolding uart_init
no_loopback = refl
