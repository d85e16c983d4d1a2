-- ===== src/Err/Dump/Samples.antt =====
-- A stack and a function for the tests of the reports of faults.
use mathlib.Core.Option.{some-injective, none-ne-some}
use slayer_os.Base.{
  ℕ, suc, ◌<◌, ◌≤◌, ◌≡◌, ◌∙◌, refl, ap, sym, arith, Bool, true, false, Option, none, some, List, [],
  ◌∷◌, ◌++◌, ◌==◌, leb, if◌then◌else◌,
}
use slayer_os.Err.Symbols.{Symbol, SearchResult}
use slayer_os.Err.Dump.{Addr2LineResult}
use slayer_os.Err.Dump.Chain.{FrameChain, no_frame, frame}
use slayer_os.Err.Dump.Listing.{Decoder, Instruction, other_mnemonic}
use slayer_os.Err.Dump.Listing.Sweep.{IsDecoder, Sweep, ends, next}

abbrev pub repr : ℕ → SearchResult → ℕ → ℕ
repr address result i = 0

abbrev pub nothing_found : ℕ → Option Addr2LineResult
nothing_found address = none

-- Two frames of the kernel and one of a program.
abbrev pub stack : ℕ → ℕ
stack a =
    if a == 0x100
    then 0x200
    else (if a == 0x108
        then 0xffff_ffff_8000_1000
        else (if a == 0x200
            then 0x300
            else (if a == 0x208
                then 0x40_0000
                else (if a == 0x308 then 0xffff_ffff_8000_2000 else 0))))

abbrev pub nop : Instruction
nop = record { length = 15; text = 1; mnemonic = other_mnemonic; operands = [] }

abbrev pub nops : Decoder
nops runtime_address at n = if leb 15 n then some nop else none

abbrev pub short_nop : Instruction
short_nop = record { length = 1; text = 2; mnemonic = other_mnemonic; operands = [] }

abbrev pub short_nops : Decoder
short_nops runtime_address at n = if leb 1 n then some short_nop else none

tested :
    (b : Bool) (x i : Instruction) → (if b then some x else none) ≡ some i → (b ≡ true) × (x ≡ i)
tested true x i e = (refl, some-injective x i e)
tested false x i e = absurd (none-ne-some i e)

decodes :
    (k : ℕ) (x : Instruction) (n : ℕ) (i : Instruction)
    → x.length ≡ suc k
    → (if leb (suc k) n then some x else none) ≡ some i
    → (0 < i.length) × (i.length ≤ n)
decodes k x n i size e =
    let (enough, same) = tested (leb (suc k) n) x i e in
    let bytes : i.length ≡ suc k = ap (λ j. j.length) (sym same) ∙ size in
    (omega arith, ground arith)

pub nops-IsDecoder : IsDecoder nops
nops-IsDecoder = record { reads = λ r a n i e. decodes 14 nop n i refl e }

pub short_nops-IsDecoder : IsDecoder short_nops
short_nops-IsDecoder = record { reads = λ r a n i e. decodes 0 short_nop n i refl e }

abbrev pub function : Symbol
function = record { address = 0x1000; name = 5; size = 120 }

abbrev pub three : List Instruction
three = nop ∷ nop ∷ nop ∷ []

pub eight : Sweep nops function 0 (nop ∷ three ++ (nop ∷ three))
eight =
    next refl
      (next refl (next refl (next refl (next refl (next refl (next refl (next refl ends)))))))

pub three_short : Sweep short_nops function 0 (short_nop ∷ short_nop ∷ short_nop ∷ [])
three_short = next refl (next refl (next refl ends))

pub frames : FrameChain stack 0x100 (0xffff_ffff_8000_1000 ∷ 0x40_0000 ∷ 0xffff_ffff_8000_2000 ∷ [])
frames =
    frame (λ e. omega arith) refl (λ e. omega arith)
      (frame (λ e. omega arith) refl (λ e. omega arith)
        (frame (λ e. omega arith) refl (λ e. omega arith) no_frame))

abbrev pub buf : ℕ → ℕ
buf i = 0
