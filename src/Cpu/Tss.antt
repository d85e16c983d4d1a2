-- ===== src/Cpu/Tss.antt =====
-- src/kernel/cpu/tss/tss.cc and src/include/cpu/tss.h: the task state segment, its descriptor and
-- the stacks of interrupts.
pub mod Stacks
pub mod Layout
mod Tests
use slayer_os.Base.{
  ℕ, zero, suc, ◌+◌, ◌-◌, ◌*◌, ◌/◌, Bool, true, false, ◌||◌, ◌==◌, ltb, if◌then◌else◌, update,
  bit_and, bit_or, ◌<<<◌, ◌>>>◌, u8, u16, u32, u64,
}
use slayer_os.Mem.Frames.{FrameAllocator, frame_size, allocs}

-- The size of `TaskStateSegment` in bytes, as it is packed.
abbrev pub tss_size : ℕ
tss_size = 104

abbrev pub ist_stack_size : ℕ
ist_stack_size = 16384

-- `TSS::TaskStateSegment`: `ist` holds ist1 to ist7 under 1 to 7; the reserved fields stay zero.
-- Beside it the stacks of the file, and the allocator that they come from.
pub record Tss : Type 0 where
  pub rsp0 : ℕ
  pub rsp1 : ℕ
  pub rsp2 : ℕ
  pub ist : ℕ → ℕ
  pub iopb_offset : ℕ
  pub ist_stacks : ℕ → ℕ
  pub allocator : FrameAllocator

-- `create_tss_descriptor`; each field of `Descriptor` is cut to its width.
unfoldable pub create_tss_descriptor : ℕ → ℕ
create_tss_descriptor tss_addr =
    let base_low = u16 (bit_and tss_addr 0xffff) in
    let base_mid = u8 (bit_and (tss_addr >>> 16) 0xff) in
    let base_high = u8 (bit_and (tss_addr >>> 24) 0xff) in
    let limit = u32 (tss_size - 1) in
    let limit_low = u16 (bit_and limit 0xffff) in
    let granularity = u8 (bit_and (limit >>> 16) 0x0f) in
    let access : ℕ = 0x89 in
    let r1 = bit_or 0 limit_low in
    let r2 = bit_or r1 (u64 (base_low <<< 16)) in
    let r3 = bit_or r2 (u64 (base_mid <<< 32)) in
    let r4 = bit_or r3 (u64 (access <<< 40)) in
    let r5 = bit_or r4 (u64 (granularity <<< 48)) in bit_or r5 (u64 (base_high <<< 56))

-- `create_tss_descriptor_high`
unfoldable pub create_tss_descriptor_high : ℕ → ℕ
create_tss_descriptor_high tss_addr = bit_or 0 (bit_and (tss_addr >>> 32) 0xffff_ffff)

-- `TSS::init`
unfoldable pub tss_init : Tss → Tss
tss_init t = record t { rsp0 = 0; rsp1 = 0; rsp2 = 0; ist = λ _. 0; iopb_offset = tss_size }

-- One round of the loop of `init_stacks`: false is its early return.
unfoldable pub init_stack : ℕ → Tss → Bool × Tss
init_stack i t =
    let (stack, s) = allocs t.allocator (u32 (ist_stack_size / frame_size)) in
    let t' = record t { ist_stacks = update t.ist_stacks i stack; allocator = s } in
    if stack == 0
    then (false, t')
    else (true, record t' { ist = update t'.ist i (u64 (stack + ist_stack_size)) })

-- The loop, with the rounds left.
unfoldable pub init_stacks_from : ℕ → ℕ → Tss → Tss
unfolding init_stack
init_stacks_from zero i t = t
init_stacks_from (suc n) i t =
    let (more, t') = init_stack i t in
    let rest = init_stacks_from n (i + 1) t' in if more then rest else t'

-- `TSS::init_stacks`
unfoldable pub init_stacks : Tss → Tss
unfolding init_stacks_from
init_stacks t = init_stacks_from 7 1 t

-- `TSS::set_kernel_stack`
abbrev pub set_kernel_stack : Tss → ℕ → Tss
set_kernel_stack t stack_ptr = record t { rsp0 = stack_ptr }

-- `TSS::get_ist_stack`
unfoldable pub get_ist_stack : Tss → ℕ → ℕ
get_ist_stack t index =
    if ltb index 1 || ltb 7 index
    then 0
    else (if index == 1 then t.ist 1 else (if index == 2 then t.ist 2 else 0))

-- The selector that `TSS::load_tss` loads.
abbrev pub load_tss : ℕ
load_tss = 0x28

-- `get_tss_descriptor_low` and `get_tss_descriptor_high`, of the address of the segment
abbrev pub get_tss_descriptor_low : ℕ → ℕ
get_tss_descriptor_low tss_addr = create_tss_descriptor tss_addr

abbrev pub get_tss_descriptor_high : ℕ → ℕ
get_tss_descriptor_high tss_addr = create_tss_descriptor_high tss_addr
