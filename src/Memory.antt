-- ===== src/Memory.antt =====
-- memory.rs: the kernel's view of physical memory and the frame allocator, and the interface to the
-- x86_64 and bootloader crates. An address is a number; a frame, a page or a page table goes by the
-- address where it starts. Page tables and the bytes of other frames are two parts of the state.
pub mod Frames
use vlad_os.Base.{
  ltb, ◌==◌, if◌then◌else◌, get_elem?, Result, ℕ, zero, suc, ◌+◌, ◌-◌, ◌/◌, ◌<◌, ◌≡◌, Bool, Option,
  some, List, [], ◌∷◌, ◌++◌, map,
}
use vlad_os.Words.{lower_half, page_size}

-- A region of the memory map that the bootloader hands over, `start_addr..end_addr`.
pub record MemoryRegion : Type 0 where
  pub start_addr : ℕ
  pub end_addr : ℕ
  pub is_usable : Bool

-- `BootInfoFrameAllocator`.
pub record FrameAllocator : Type 0 where
  pub memory_map : List MemoryRegion
  pub next : ℕ

-- `MemoryState`, with the memory that it reaches through the direct map: `tables f i` is the raw
-- entry `i` of the page table in frame `f`, and `bytes a` the byte at the physical address `a`.
pub record Memory : Type 0 where
  pub tables : ℕ → ℕ → ℕ
  pub bytes : ℕ → ℕ
  pub frame_allocator : FrameAllocator
  pub kernel_level_4_frame : ℕ

-- The functions of the x86_64 crate that the kernel calls.
pub record X86 : Type 0 where
  -- `VirtAddr::new`; `none` is its panic.
  pub virt_new : ℕ → Option ℕ
  -- `Page::containing_address(a)` and `PhysFrame::containing_address(a)`.
  pub page_containing : ℕ → ℕ
  pub frame_containing : ℕ → ℕ
  -- The indices of a page at the four levels.
  pub p4_index : ℕ → ℕ
  pub p3_index : ℕ → ℕ
  pub p2_index : ℕ → ℕ
  pub p1_index : ℕ → ℕ
  -- `PageTableFlags`.
  pub present : ℕ
  pub user_accessible : ℕ
  pub writable : ℕ
  pub flags_or : ℕ → ℕ → ℕ
  pub flags_contain : ℕ → ℕ → Bool
  pub flags_remove : ℕ → ℕ → ℕ
  -- `PageTableEntry`.
  pub entry_flags : ℕ → ℕ
  pub entry_frame : ℕ → Option ℕ
  pub entry_is_unused : ℕ → Bool
  pub entry_set_flags : ℕ → ℕ → ℕ
  -- `Mapper::map_to(page, frame, flags, allocator)` and `Mapper::unmap(page)` of the mapper over
  -- a level-4 table; an error is an opaque number.
  pub map_to : ℕ → ℕ → ℕ → ℕ → Memory → Result ℕ (Unit {0}) × Memory
  pub unmap : ℕ → ℕ → Memory → Result ℕ (Unit {0}) × Memory

-- What the x86_64 crate documents of `VirtAddr::new`: an address in the lower half is taken as it
-- is, and so is every address that it has returned.
pub record AddressLaws (x : X86) : Type 0 where
  pub low : (a : ℕ) → a < lower_half → x.virt_new a ≡ some a
  pub canonical : (a b : ℕ) → x.virt_new a ≡ some b → x.virt_new b ≡ some b

-- `(start..end).step_by(4096)`, with fuel.
unfoldable step_from : ℕ → ℕ → ℕ → List ℕ
step_from zero start end = []
step_from (suc f) start end =
    let rest = step_from f (start + page_size) end in if ltb start end then start ∷ rest else []

-- The addresses of a region: one in each 4096 bytes from its start.
abbrev region_addresses : MemoryRegion → List ℕ
region_addresses r =
    step_from ((r.end_addr + 4095 - r.start_addr) / page_size) r.start_addr r.end_addr

unfoldable addresses : List MemoryRegion → List ℕ
unfolding step_from
addresses [] = []
addresses (r ∷ rs) = if r.is_usable then region_addresses r ++ addresses rs else addresses rs

module _ (x : X86) where
  unfoldable pub usable_frames : FrameAllocator → List ℕ
  unfolding addresses
  usable_frames a = map x.frame_containing (addresses a.memory_map)

  -- The counter moves on also when no frame is left.
  unfoldable pub allocate_frame : Memory → Option ℕ × Memory
  unfolding usable_frames
  allocate_frame m =
      let a = m.frame_allocator in
      (
        get_elem? (usable_frames a) a.next,
        record m { frame_allocator = record a { next = a.next + 1 } },
      )

-- `slice.fill(value)` over the `n` bytes from an address, and `copy_nonoverlapping` to it.
abbrev pub write_bytes : (ℕ → ℕ) → ℕ → List ℕ → ℕ → ℕ
write_bytes mem at [] = mem
write_bytes mem at (b ∷ bs) = write_bytes (λ a. if a == at then b else mem a) (at + 1) bs

abbrev pub store : ℕ → List ℕ → Memory → Memory
store at bs m = record m { bytes = write_bytes m.bytes at bs }

-- `copy_nonoverlapping` from an address.
abbrev pub read_bytes : (ℕ → ℕ) → ℕ → ℕ → List ℕ
read_bytes mem at zero = []
read_bytes mem at (suc n) = mem at ∷ read_bytes mem (at + 1) n
