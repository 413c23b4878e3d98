-- ===== src/Tests/Calls.antt =====
-- The calls of scheduler.rs and syscall.rs on a parent and its child.
use vlad_os.Base.{length, replicate, Yields, ℕ, ◌≡◌, refl, none, some, List, [], ◌∷◌, arith}
use vlad_os.Fd.{entry, new_with_stdio}
use vlad_os.File.{alloc}
use vlad_os.File
use vlad_os.Process.Status.{
  exited, running, wait_status, wait_status_size, wait_status_bytes, read_status,
  read_status-wait_status_bytes,
}
use vlad_os.Process.Heap.{IsValid, Fits}
use vlad_os.Process.{Process, new_process}
use vlad_os.Process
use vlad_os.Scheduler.Brk.{sys_brk_current}
use vlad_os.Scheduler.Brk.Break.{sys_brk-Moves, Moves}
use vlad_os.Scheduler.Spawn.{spawn_user_process}
use vlad_os.Task.{TaskState, ready, running, finished, Task, new_kernel}
use vlad_os.Syscall.{SyscallNumber, to_raw, from_raw}
use vlad_os.Syscall.Numbers.{from_raw_lem}
use vlad_os.Scheduler.Sound.{Sound, Ensures, switch_from_interrupt-Sound}
use vlad_os.Scheduler.Schedule.{next_ready_after, switch_from_interrupt}
use vlad_os.Scheduler.Schedule.Choice.{Finds, next_ready_after-Finds}
use vlad_os.Scheduler.Spawn.Account.{spawn_user_process-Sound}
use vlad_os.Scheduler.Exit.{finish_current_from_interrupt}
use vlad_os.Scheduler.Exit.Release.{finish_current_from_interrupt-Sound}
use vlad_os.Scheduler.Files.{sys_write_current}
use vlad_os.UserMemory.Bytes.{user_bytes}
use vlad_os.Scheduler.Files.Exact.{SendsBytes, sys_write-SendsBytes}
use vlad_os.Scheduler.Dispatch.{dispatch}
use vlad_os.Scheduler.Dispatch.Account.{dispatch-Sound}
use vlad_os.Tests.Machine.{machine, platform, machine-AddressLaws, machine-PageLaws}
use vlad_os.Tests.Kernels.{user_init, family, family-Sound, family_current, family-CurrentRuns}

dispatch-Sound_example : Ensures Sound (dispatch machine 0x7000 family)
dispatch-Sound_example = dispatch-Sound machine 0x7000 family family-Sound family-CurrentRuns

finish_current_from_interrupt-Sound_example :
    Ensures Sound (finish_current_from_interrupt machine 0x7000 finished (some 3) none family)
finish_current_from_interrupt-Sound_example =
    finish_current_from_interrupt-Sound machine 0x7000 finished (some 3) none family family-Sound

spawn_user_process-Sound_example :
    Ensures Sound (spawn_user_process platform (some 1) (user_init 0x4000) 0x202 family)
spawn_user_process-Sound_example =
    spawn_user_process-Sound platform (some 1) (user_init 0x4000) 0x202 family family-Sound

switch_from_interrupt-Sound_example : Ensures Sound (switch_from_interrupt 0x7000 family)
switch_from_interrupt-Sound_example = switch_from_interrupt-Sound 0x7000 family family-Sound

abbrev kernel_task_in : ℕ → TaskState → Task
kernel_task_in id state = record (new_kernel platform id 0x9000 0x202).0 { state = state }

abbrev three_tasks : List Task
three_tasks = kernel_task_in 0 running ∷ kernel_task_in 1 finished ∷ kernel_task_in 2 ready ∷ []

next_ready_after-Finds_example : Finds three_tasks 0 3 1 (next_ready_after three_tasks 0)
next_ready_after-Finds_example = next_ready_after-Finds three_tasks 0

from_raw_lem_example :
    (from_raw 6 ≡ some SyscallNumber.read → to_raw SyscallNumber.read ≡ 6)
    × (to_raw SyscallNumber.read ≡ 6 → from_raw 6 ≡ some SyscallNumber.read)
from_raw_lem_example = from_raw_lem 6 SyscallNumber.read

read_status-wait_status_bytes_example :
    (length (wait_status_bytes (exited 0xffff_ffff)) ≡ wait_status_size)
    × (read_status (wait_status_bytes (exited 0xffff_ffff)) ≡ wait_status (exited 0xffff_ffff))
read_status-wait_status_bytes_example =
    read_status-wait_status_bytes (exited 0xffff_ffff) (omega arith)

-- Process 1 of `family`.
abbrev parent_process : Process
parent_process =
    record (new_process 1 none (user_init 0x2000).address_space (user_init 0x2000).heap
      (record { entries = some (entry 0) ∷ some (entry 1) ∷ some (entry 2) ∷ replicate 13 none })
      0) { children = 2 ∷ [] }

family_parent : Process.get family.processes 1 ≡ some parent_process
unfolding Process.get spawn_user_process Process.can_create new_with_stdio alloc File.ensure_slots
    Process.create Process.ensure_slots Process.put
family_parent = refl

parent_heap-IsValid : IsValid parent_process.heap
parent_heap-IsValid = record {
  start_le_brk = omega arith;
  brk_le_limit = omega arith;
  start_aligned = refl;
  limit_aligned = refl;
  limit_fits = omega arith;
  mapped = refl;
}

parent_heap-Fits : Fits parent_process.heap
parent_heap-Fits = (parent_heap-IsValid, omega arith)

sys_brk-Moves_example :
    Yields (Moves 1 parent_process 0x50_1800 family) (sys_brk_current machine 0x50_1800 family)
sys_brk-Moves_example =
    sys_brk-Moves machine machine-AddressLaws family 1 parent_process parent_heap-Fits family_parent
      0x50_1800 family_current

sys_write-SendsBytes_example :
    Yields
      (SendsBytes
        (user_bytes machine family.memory parent_process.address_space 0x80_0040_0000 3)
        3
        family)
      (sys_write_current machine 1 0x80_0040_0000 3 family)
sys_write-SendsBytes_example =
    sys_write-SendsBytes machine machine-PageLaws machine-AddressLaws 1 0x80_0040_0000 3 family 1
      parent_process family_current family_parent
