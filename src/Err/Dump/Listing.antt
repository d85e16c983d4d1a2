-- ===== src/Err/Dump/Listing.antt =====
-- `dump_at_addr` of src/kernel/err/dump.cc: the instructions around an address.
-- Zydis is a submodule: `decode runtime_address at length` is what `ZydisDisassembleIntel` makes of
-- the `length` bytes at `at`. Addresses are u64 values, and a signed displacement is one modulo
-- 2 ^ 64. A loop over instructions is on fuel: `size + 1` rounds, since an instruction has a byte.
pub mod Sweep
pub mod Window
pub mod Shown
use slayer_os.Base.{
  ℕ, zero, suc, ◌+◌, ◌-◌, ◌%◌, ◌==◌, Bool, true, false, not, ◌&&◌, ◌||◌, Option, none, some, List,
  [], ◌∷◌, ◌++◌, ltb, leb, if◌then◌else◌, update, u64, sub64,
}
use slayer_os.Err.Symbols.{Symbol, SearchResult, resolve_address}
use slayer_os.Err.Dump.{Addr2LineResult, BacktraceLine, backtrace, dump_address}

-- The kinds of `ZydisMnemonic` and `ZydisOperandType` that the listing tells apart.
pub data Mnemonic : Type 0 where
  call lea jmp mov other_mnemonic : Mnemonic

pub data OperandType : Type 0 where
  immediate memory_operand other_operand : OperandType

-- The fields of `ZydisDecodedOperand` that are read. `value` is the one cell of `imm.value`.
pub record Operand : Type 0 where
  pub type : OperandType
  pub is_relative : Bool
  pub value : ℕ
  pub base_is_rip : Bool
  pub disp_size : ℕ
  pub disp_value : ℕ

-- The fields of `ZydisDisassembledInstruction` that are read, with as many operands as
-- `operand_count`.
pub record Instruction : Type 0 where
  pub length : ℕ
  pub text : ℕ
  pub mnemonic : Mnemonic
  pub operands : List Operand

abbrev pub Decoder : Type 0
Decoder = (runtime_address at length : ℕ) → Option Instruction

-- A line of the listing; `target` is the text of `search_repr` that is printed behind it.
pub record Line : Type 0 where
  pub marked : Bool
  pub address : List ℕ
  pub text : ℕ
  pub target : Option (ℕ → ℕ)

unfoldable pub has_target : Mnemonic → Bool
has_target call = true
has_target lea = true
has_target jmp = true
has_target mov = true
has_target other_mnemonic = false

-- The address that an operand of an instruction with this next address names.
unfoldable pub target_address : ℕ → Operand → Option ℕ
target_address next operand = elim operand.type [
  | immediate ↦ some (if operand.is_relative then u64 (next + operand.value) else operand.value)
  | memory_operand ↦
      if operand.base_is_rip && not (operand.disp_size == 0)
      then some (u64 (next + operand.disp_value))
      else none
  | other_operand ↦ none
]

-- The loop over the operands: the first target in the kernel's half.
unfoldable pub kernel_target : ℕ → List Operand → Option ℕ
unfolding target_address
kernel_target next [] = none
kernel_target next (operand ∷ operands) =
    let rest = kernel_target next operands in
    elim (target_address next operand) [
      | none ↦ rest
      | some target ↦ if leb 0xffff_ffff_8000_0000 target then some target else rest
    ]

module _ (decode : Decoder) (entry : Symbol) where
  -- What is decoded at an offset from the start of the function.
  abbrev pub decode_at : (runtime_address offset : ℕ) → Option Instruction
  decode_at runtime_address offset =
      decode runtime_address (u64 (entry.address + offset)) (sub64 entry.size offset)

  -- The loop that fills the ring of addresses: the ring and `instruction_count`.
  unfoldable pub scan :
      (disas_address : ℕ) → ℕ → (runtime_address offset : ℕ) → (ℕ → ℕ) → ℕ → (ℕ → ℕ) × ℕ
  scan disas_address zero runtime_address offset ring count = (ring, count)
  scan disas_address (suc n) runtime_address offset ring count =
      let ring' = update ring (count % 32) runtime_address in
      elim (decode_at runtime_address offset) [
        | none ↦ (ring, count)
        | some instruction ↦
            let rest =
              scan disas_address n (u64 (runtime_address + instruction.length))
                (u64 (offset + instruction.length)) ring' (count + 1) in
            if leb disas_address runtime_address then (ring', count + 1) else rest
      ]

  -- The loop that goes to `start_address`: the address and the offset.
  unfoldable pub advance : ℕ → (start_address runtime_address offset : ℕ) → ℕ × ℕ
  advance zero start_address runtime_address offset = (runtime_address, offset)
  advance (suc n) start_address runtime_address offset =
      if ltb runtime_address start_address
      then (elim (decode_at runtime_address offset) [
        | none ↦ (runtime_address, offset)
        | some instruction ↦
            advance n start_address (u64 (runtime_address + instruction.length))
              (u64 (offset + instruction.length))
      ])
      else (runtime_address, offset)

-- The address at which the listing begins, from the ring and its count.
abbrev pub start_of : (ℕ → ℕ) × ℕ → ℕ
start_of (ring, count) = ring ((if leb 4 count then count - 4 else 0) % 32)

module _ (search_repr : ℕ → SearchResult → ℕ → ℕ) (table : List Symbol) where
  -- The name that is printed for a target: that of a function that begins there.
  unfoldable pub target_name : ℕ → Option (ℕ → ℕ)
  target_name target =
      let result = resolve_address target table in
      let repr = search_repr target result in
      elim result.entry [
        | none ↦ none
        | some entry ↦
            if result.exact && not (repr 0 == 0) && (not (repr 0 == b'0') || not (repr 1 == b'x'))
            then some repr
            else none
      ]

  unfoldable pub instruction_target : ℕ → Instruction → Option (ℕ → ℕ)
  unfolding has_target kernel_target target_name
  instruction_target runtime_address instruction =
      if has_target instruction.mnemonic
      then (elim (kernel_target (runtime_address + instruction.length) instruction.operands) [
        | none ↦ none
        | some target ↦ target_name target
      ])
      else none

  module _ (buf : ℕ → ℕ) (disas_address : ℕ) where
    -- The line of an instruction; it is marked where `disas_address` is in it.
    unfoldable pub line : ℕ → Instruction → Line
    unfolding instruction_target
    line runtime_address instruction = record {
      marked =
          leb runtime_address disas_address
          && ltb disas_address (u64 (runtime_address + instruction.length));
      address = dump_address buf runtime_address;
      text = instruction.text;
      target = instruction_target runtime_address instruction;
    }

    module _ (decode : Decoder) (entry : Symbol) where
      -- The loop that prints, with the lines that it may still print.
      unfoldable pub show : (instructions_to_show runtime_address offset : ℕ) → List Line
      unfolding line
      show zero runtime_address offset = []
      show (suc n) runtime_address offset = elim (decode_at decode entry runtime_address offset) [
        | none ↦ []
        | some instruction ↦
            line runtime_address instruction
            ∷ show n (u64 (runtime_address + instruction.length))
                (u64 (offset + instruction.length))
      ]

      abbrev pub show_from : ℕ × ℕ → List Line
      show_from (runtime_address, offset) = show 7 runtime_address offset

      -- The listing of `dump_at_addr`; `ring` is what the stack holds.
      unfoldable pub listing : (ring : ℕ → ℕ) → List Line
      unfolding show scan advance
      listing ring =
          if leb (sub64 disas_address entry.address) 96
          then show 7 entry.address 0
          else (let start_address =
                start_of
                  (scan decode entry disas_address (entry.size + 1) entry.address 0 ring 0) in
              show_from (advance decode entry (entry.size + 1) start_address entry.address 0))

-- What `dump_at_addr` prints: the name of the function, its file and line, the backtrace, the
-- listing.
pub record Dump : Type 0 where
  pub fn_repr : ℕ → ℕ
  pub source_line : Option Addr2LineResult
  pub frames : List BacktraceLine
  pub lines : List Line

module _ (addr2line_lookup : ℕ → Option Addr2LineResult) (search_repr : ℕ → SearchResult → ℕ → ℕ)
    (table : List Symbol) (decode : Decoder) (memory buf ring : ℕ → ℕ)
    (frame_address address rbp disas_address : ℕ) where
  -- What is printed for an address in this function.
  abbrev pub dump_of : Symbol → Dump
  dump_of entry = record {
    fn_repr = search_repr address (resolve_address address table);
    source_line = addr2line_lookup address;
    frames =
        backtrace addr2line_lookup search_repr table memory
          (if rbp == 0 then frame_address else rbp);
    lines =
        listing search_repr table buf (if disas_address == 0 then address else disas_address) decode
          entry ring;
  }

  -- `dump_at_addr`; `none` is its result -1. `frame_address` is the frame pointer of the function
  -- itself, and `memory`, `buf` and `ring` are what the stack holds.
  unfoldable pub dump_at_addr : Option Dump
  dump_at_addr = elim (resolve_address address table).entry [
    | none ↦ none
    | some entry ↦ some (dump_of entry)
  ]
