-- ===== src/Sys/Acpi/Handles/Ranges.antt =====
-- The port ranges of src/kernel/sys/acpi_kapi.cc: the handles that uACPI gets are blocks of the heap.
use slayer_os.Base.{ℕ, [], ◌+◌, ◌≡◌, ◌≢◌, Option, none, some, u16, u64}
use slayer_os.Arch.Ports.{PortIo}
use slayer_os.Mem.Frames.{allocs}
use slayer_os.Mem.Heap.{page_frames}
use slayer_os.Mem.Heap.Whole.{Grown}
use slayer_os.Mem.Heap.Total.{IsHeap}
use slayer_os.Sys.Acpi.{UacpiStatus, ok}
use slayer_os.Sys.Acpi.Handles.{
  PciConfig, Locks, Kapi, Width, byte, word, double, io_read, io_write,
}

-- What a driver does for an access of a width at a port.
module _ {W : Type 0} (io : PortIo W) where
  abbrev pub port_read : Width → ℕ → W → ℕ × W
  port_read byte = io.inb
  port_read word = io.inw
  port_read double = io.ind

  abbrev pub port_write : Width → ℕ → ℕ → W → W
  port_write byte = io.outb
  port_write word = io.outw
  port_write double = io.outd

-- A range that `io_map` made: a new block of the heap, whose accesses go to the ports from `base` on,
-- while the other handles stay what they were.
pub record Mapped {W : Type 0} (io : PortIo W) (pci : PciConfig W) (locks : Locks W) (k : Kapi)
    (base handle : ℕ) (k' : Kapi) : Type 0 where
  pub block : Grown 16 k.heap.pages handle k'.heap.pages
  pub heap : IsHeap k'.heap
  pub reads :
      (width : Width) (offset : ℕ) (w : W)
      → io_read io pci locks width k' handle offset w
        ≡ (ok, port_read io width (u64 (u16 base + offset)) w)
  pub writes :
      (width : Width) (offset value : ℕ) (w : W)
      → io_write io pci locks width k' handle offset value w
        ≡ (ok, port_write io width (u64 (u16 base + offset)) value w)
  pub others : (other : ℕ) → other ≢ handle → k'.ios other ≡ k.ios other

-- What `io_map` does with the end of `kmalloc`.
pub data MapsRange {W : Type 0} (io : PortIo W) (pci : PciConfig W) (locks : Locks W) (k : Kapi)
    (base : ℕ) : Option (UacpiStatus × ℕ × Kapi) → Type 0 where
  maps :
      {handle : ℕ} {k' : Kapi}
      → Mapped io pci locks k base handle k'
      → MapsRange io pci locks k base (some (ok, handle, k'))
  stops :
      k.heap.pages ≡ []
      → (allocs k.heap.allocator (page_frames 16)).0 ≡ 0
      → MapsRange io pci locks k base none
