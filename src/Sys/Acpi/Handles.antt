-- ===== src/Sys/Acpi/Handles.antt =====
-- src/kernel/sys/acpi_kapi.cc: what uACPI holds handles of (PCI devices, port ranges, locks), the
-- memory that it asks for, and the calls that do nothing yet.
-- The objects behind handles live in blocks of the heap, which do not overlap: each kind of them is
-- a function from addresses. The PCI configuration space (drivers/pci.h) and the locks
-- (klib/spinlock.h) are submodules: their operations are arguments, on the machine's state `W`.
-- `none`: `kmalloc` has not returned. It never returns null, and no result of it is tested.
pub mod Ranges
use slayer_os.Base.{ℕ, ◌+◌, Bool, true, false, Option, none, some, update, u16, u64}
use slayer_os.Boot.{BootCtx}
use slayer_os.Arch.Ports.{PortIo}
use slayer_os.Mem.Heap.{Heap, Outcome, returned, halted, out_of_fuel, kmalloc, kfree}
use slayer_os.Sys.Acpi.{UacpiStatus, ok}
use slayer_os.Sys.Timer.{Timer, get_uptime_ns}

-- `uacpi_io`
pub record UacpiIo : Type 0 where
  pub base : ℕ
  pub len : ℕ

-- `uacpi_pci_address`, which is uACPI's.
pub record PciAddress : Type 0 where
  pub bus : ℕ
  pub device : ℕ
  pub function : ℕ

-- `Drivers::PCI::Config`
pub record PciConfig (W : Type 0) : Type 0 where
  pub read8 : (bus device function offset : ℕ) → W → ℕ × W
  pub read16 : (bus device function offset : ℕ) → W → ℕ × W
  pub read32 : (bus device function offset : ℕ) → W → ℕ × W
  pub write8 : (bus device function offset value : ℕ) → W → W
  pub write16 : (bus device function offset value : ℕ) → W → W
  pub write32 : (bus device function offset value : ℕ) → W → W

-- `Spinlock`: what `new` returns, and its operations.
pub record Locks (W : Type 0) : Type 0 where
  pub create : W → ℕ × W
  pub lock : ℕ → W → W
  pub unlock : ℕ → W → W

-- The heap and the objects in it.
pub record Kapi : Type 0 where
  pub heap : Heap
  pub ios : ℕ → UacpiIo
  pub pcis : ℕ → PciAddress

-- The width of an access.
pub data Width : Type 0 where
  byte word double : Width

-- `uacpi_kernel_get_rsdp`, with the address that it writes
abbrev pub get_rsdp : BootCtx → UacpiStatus × ℕ
get_rsdp boot_ctx = (ok, boot_ctx.rsdp_addr)

-- `uacpi_kernel_alloc`
unfoldable pub uacpi_alloc : ℕ → Kapi → ℕ → Option (ℕ × Kapi)
uacpi_alloc fuel k size = elim (kmalloc fuel k.heap size) [
  | returned addr h ↦ some (addr, record k { heap = h })
  | halted ↦ none
  | out_of_fuel ↦ none
]

-- `uacpi_kernel_free`, and `uacpi_kernel_pci_device_close`, `uacpi_kernel_io_unmap`,
-- `uacpi_kernel_free_mutex` and `uacpi_kernel_free_spinlock` likewise. `none`: the heap is null.
unfoldable pub uacpi_free : Kapi → ℕ → Option Kapi
uacpi_free k handle = elim (kfree k.heap handle) [
  | none ↦ none
  | some (_, h) ↦ some (record k { heap = h })
]

-- `uacpi_kernel_pci_device_open`; `size` is `sizeof(uacpi_pci_address)`.
unfoldable pub pci_device_open :
    ℕ → (size : ℕ) → Kapi → PciAddress → Option (UacpiStatus × ℕ × Kapi)
unfolding uacpi_alloc
pci_device_open fuel size k address = elim (uacpi_alloc fuel k size) [
  | none ↦ none
  | some (pci, k') ↦ some (ok, pci, record k' { pcis = update k'.pcis pci address })
]

-- `uacpi_kernel_io_map`
unfoldable pub io_map : ℕ → Kapi → (base len : ℕ) → Option (UacpiStatus × ℕ × Kapi)
unfolding uacpi_alloc
io_map fuel k base len = elim (uacpi_alloc fuel k 16) [
  | none ↦ none
  | some (iomap, k') ↦
      some (ok, iomap, record k' { ios = update k'.ios iomap (record { base = base; len = len }) })
]

-- The port of an access: the low 16 bits of the base, and the offset.
abbrev pub port_of : Kapi → (handle offset : ℕ) → ℕ
port_of k handle offset = u64 (u16 (k.ios handle).base + offset)

module _ {W : Type 0} (io : PortIo W) (pci : PciConfig W) (locks : Locks W) where
  -- `uacpi_kernel_io_read8`, `uacpi_kernel_io_read16`, `uacpi_kernel_io_read32`
  unfoldable pub io_read : Width → Kapi → (handle offset : ℕ) → W → UacpiStatus × (ℕ × W)
  io_read byte k handle offset w = (ok, io.inb (port_of k handle offset) w)
  io_read word k handle offset w = (ok, io.inw (port_of k handle offset) w)
  io_read double k handle offset w = (ok, io.ind (port_of k handle offset) w)

  -- `uacpi_kernel_io_write8`, `uacpi_kernel_io_write16`, `uacpi_kernel_io_write32`
  unfoldable pub io_write : Width → Kapi → (handle offset in_value : ℕ) → W → UacpiStatus × W
  io_write byte k handle offset in_value w = (ok, io.outb (port_of k handle offset) in_value w)
  io_write word k handle offset in_value w = (ok, io.outw (port_of k handle offset) in_value w)
  io_write double k handle offset in_value w = (ok, io.outd (port_of k handle offset) in_value w)

  -- `uacpi_kernel_pci_read8`, `uacpi_kernel_pci_read16`, `uacpi_kernel_pci_read32`
  unfoldable pub pci_read : Width → Kapi → (device offset : ℕ) → W → UacpiStatus × (ℕ × W)
  pci_read byte k device offset w =
      let a = k.pcis device in (ok, pci.read8 a.bus a.device a.function offset w)
  pci_read word k device offset w =
      let a = k.pcis device in (ok, pci.read16 a.bus a.device a.function offset w)
  pci_read double k device offset w =
      let a = k.pcis device in (ok, pci.read32 a.bus a.device a.function offset w)

  -- `uacpi_kernel_pci_write8`, `uacpi_kernel_pci_write16`, `uacpi_kernel_pci_write32`
  unfoldable pub pci_write : Width → Kapi → (device offset value : ℕ) → W → UacpiStatus × W
  pci_write byte k device offset value w =
      let a = k.pcis device in (ok, pci.write8 a.bus a.device a.function offset value w)
  pci_write word k device offset value w =
      let a = k.pcis device in (ok, pci.write16 a.bus a.device a.function offset value w)
  pci_write double k device offset value w =
      let a = k.pcis device in (ok, pci.write32 a.bus a.device a.function offset value w)

  -- `uacpi_kernel_create_mutex`, and `uacpi_kernel_create_spinlock` likewise
  abbrev pub create_lock : W → ℕ × W
  create_lock w = locks.create w

  -- `uacpi_kernel_acquire_mutex` and `uacpi_kernel_lock_spinlock`; the timeout is not read.
  abbrev pub acquire_lock : (handle timeout : ℕ) → W → UacpiStatus × W
  acquire_lock handle timeout w = (ok, locks.lock handle w)

  -- `uacpi_kernel_release_mutex` and `uacpi_kernel_unlock_spinlock`
  abbrev pub release_lock : ℕ → W → W
  release_lock handle w = locks.unlock handle w

-- `uacpi_kernel_get_nanoseconds_since_boot`
abbrev pub get_nanoseconds_since_boot : Timer → ℕ
get_nanoseconds_since_boot t = get_uptime_ns t

-- `uacpi_kernel_create_event` and `uacpi_kernel_get_thread_id`
abbrev pub create_event : ℕ
create_event = 1

abbrev pub get_thread_id : ℕ
get_thread_id = 0

-- `uacpi_kernel_wait_for_event`: every wait succeeds at once.
abbrev pub wait_for_event : (handle timeout : ℕ) → Bool
wait_for_event handle timeout = true

-- `uacpi_kernel_schedule_work`: the work is accepted, and nothing does it.
abbrev pub schedule_work : (work_type handler ctx : ℕ) → UacpiStatus
schedule_work work_type handler ctx = ok

-- `uacpi_kernel_wait_for_work_completion` and `uacpi_kernel_handle_firmware_request`
abbrev pub wait_for_work_completion : UacpiStatus
wait_for_work_completion = ok

abbrev pub handle_firmware_request : ℕ → UacpiStatus
handle_firmware_request request = ok
