-- ===== src/Boot.antt =====
-- src/kernel/bootloader/limine.cc and src/include/bootloader/limine.h: what the boot loader hands
-- over. The responses are the boot loader's (limine.h, a submodule): they are arguments here.
-- A pointer that the kernel only passes on is the number of its address.
pub mod Sort
mod Tests
use slayer_os.Base.{
  ℕ, zero, suc, ◌≡◌, Bool, true, false, not, ◌&&◌, List, [], ◌∷◌, ltb, if◌then◌else◌, length, sub64,
}

-- The memory types that the kernel tests for, and the rest.
pub data MemmapType : Type 0 where
  usable bootloader_reclaimable framebuffer : MemmapType
  other : ℕ → MemmapType

-- `struct limine_memmap_entry`
pub record MemmapEntry : Type 0 where
  pub base : ℕ
  pub len : ℕ
  pub type : MemmapType

pub record BootCtx : Type 0 where
  pub name : ℕ
  pub version : ℕ
  pub memmap_entries : List MemmapEntry
  pub hhdm_addr : ℕ
  pub kern_address_virt : ℕ
  pub kern_address_phys : ℕ
  pub fb_info : ℕ
  pub kernel_file : ℕ
  pub rsdp_addr : ℕ

-- The fields of the boot loader's responses that `gather` reads.
pub record Responses : Type 0 where
  pub info_name : ℕ
  pub info_version : ℕ
  pub entries : List MemmapEntry
  pub hhdm_offset : ℕ
  pub virtual_base : ℕ
  pub physical_base : ℕ
  pub framebuffers : ℕ
  pub file : ℕ
  pub rsdp_address : ℕ

abbrev pub is_usable : MemmapType → Bool
is_usable usable = true
is_usable _ = false

-- The inner loop at a fixed `i`: `x` is entry `i`, the list is the entries after it.
unfoldable pub sort_pass : MemmapEntry → List MemmapEntry → MemmapEntry × List MemmapEntry
sort_pass x [] = (x, [])
sort_pass x (y ∷ ys) =
    let swap = not (is_usable x.type) && ltb x.len y.len in
    let (x', ys') = sort_pass (if swap then y else x) ys in (x', (if swap then x else y) ∷ ys')

-- The outer loop, with the rounds that it has left.
unfoldable pub sort_rounds : ℕ → List MemmapEntry → List MemmapEntry
sort_rounds zero es = es
sort_rounds (suc n) [] = []
sort_rounds (suc n) (x ∷ ys) = let (x', ys') = sort_pass x ys in x' ∷ sort_rounds n ys'

unfoldable pub sort_memmap : List MemmapEntry → List MemmapEntry
unfolding sort_pass sort_rounds
sort_memmap es = sort_rounds (length es) es

-- `BootloaderCtx::gather`
unfoldable pub gather : Responses → BootCtx
gather r = record {
  name = r.info_name;
  version = r.info_version;
  memmap_entries = sort_memmap r.entries;
  hhdm_addr = r.hhdm_offset;
  kern_address_virt = r.virtual_base;
  kern_address_phys = r.physical_base;
  fb_info = r.framebuffers;
  kernel_file = r.file;
  rsdp_addr = sub64 r.rsdp_address r.hhdm_offset;
}
