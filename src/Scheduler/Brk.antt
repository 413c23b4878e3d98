-- ===== src/Scheduler/Brk.antt =====
-- scheduler.rs: the program break.
pub mod Account
pub mod Break
pub mod Total
use vlad_os.Base.{ltb, ◌==◌, if◌then◌else◌, Result, ok, err, Exec, done, expect, and_then, ℕ}
use vlad_os.Words.{align_up}
use vlad_os.Memory.{X86, Memory}
use vlad_os.AddressSpace.{
  AddressSpaceError, frame_allocation_failed, kernel_user_slot_in_use, range_overflow, map_to_error,
  unmap_error, map_user_heap_pages, unmap_user_heap_pages,
}
use vlad_os.Process.Heap.{UserHeap, set_break}
use vlad_os.Process.{Process, put}
use vlad_os.Process
use vlad_os.Syscall.{SysError, SysResult}
use vlad_os.Scheduler.{Kernel, K}
use vlad_os.Scheduler.Files.{refuse, or_refuse, with_pid}

unfoldable pub map_heap_growth_error : AddressSpaceError → SysError
map_heap_growth_error frame_allocation_failed = SysError.no_memory
map_heap_growth_error (map_to_error _) = SysError.no_memory
map_heap_growth_error kernel_user_slot_in_use = SysError.invalid
map_heap_growth_error range_overflow = SysError.invalid
map_heap_growth_error (unmap_error _) = SysError.invalid

-- The last lines: the break is written, and returned.
abbrev commit : ℕ → Process → ℕ → ℕ → Kernel → K SysResult
commit pid p brk mapped_end k = done (
  ok brk,
  record k {
    processes = put k.processes pid (record p { heap = set_break p.heap brk mapped_end });
  },
)

-- A result of mapping or unmapping, and the memory that it leaves.
abbrev after_mapping :
    Exec (Result AddressSpaceError (Unit {0}) × Memory)
    → (AddressSpaceError → SysError)
    → Kernel
    → (Kernel → K SysResult)
    → K SysResult
after_mapping r map_error k f = and_then r λ mapped.
    let (outcome, memory) = mapped in
    let k' = record k { memory = memory } in
    elim outcome [ err e ↦ refuse (map_error e) k' | ok _ ↦ f k' ]

module _ (x : X86) where
  -- The break moves to another place of the range: pages are mapped above the mapped end, or
  -- unmapped below it.
  unfoldable pub move_break : ℕ → Process → ℕ → ℕ → Kernel → K SysResult
  move_break pid p requested new_mapped_end k =
      if ltb p.heap.brk requested
      then (if ltb p.heap.mapped_end new_mapped_end
          then after_mapping
              (map_user_heap_pages x p.address_space p.heap.mapped_end new_mapped_end k.memory)
              map_heap_growth_error k (commit pid p requested new_mapped_end)
          else commit pid p requested new_mapped_end k)
      else (if ltb new_mapped_end p.heap.mapped_end
          then after_mapping
              (unmap_user_heap_pages x p.address_space new_mapped_end p.heap.mapped_end k.memory)
              (λ _. SysError.invalid) k (commit pid p requested new_mapped_end)
          else commit pid p requested new_mapped_end k)

  unfoldable pub sys_brk_current : ℕ → Kernel → K SysResult
  unfolding move_break
  sys_brk_current requested k = with_pid SysError.invalid k λ pid.
      or_refuse (Process.get k.processes pid) SysError.invalid k λ p.
        if requested == 0
        then done (ok p.heap.brk, k)
        else if ltb requested p.heap.start
        then refuse SysError.invalid k
        else if ltb p.heap.limit requested
        then refuse SysError.no_memory k
        else (and_then (expect (x.virt_new requested)) λ address.
            if address == p.heap.brk
            then done (ok p.heap.brk, k)
            else (or_refuse (align_up requested) SysError.invalid k λ end.
                and_then (expect (x.virt_new end))
                  λ new_mapped_end. move_break pid p address new_mapped_end k))
