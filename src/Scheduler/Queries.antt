-- ===== src/Scheduler/Queries.antt =====
-- scheduler.rs: what the kernel tells of its tasks, processes and open files.
pub mod Answers
use vlad_os.Base.{get_elem?, Result, err, done, and_then, ℕ, Bool, false, Option, none, some, List}
use vlad_os.File
use vlad_os.Fd
use vlad_os.Memory.{X86, Memory}
use vlad_os.AddressSpace.{user_page_is_accessible}
use vlad_os.AddressSpace.Copy
use vlad_os.UserMemory.{UserMemoryError, unmapped, copy_to_user}
use vlad_os.Process.Heap.{UserHeap}
use vlad_os.Process.Status.{ProcessState}
use vlad_os.Process.{
  AddressSpace, fd_table_of, heap_of, address_space_of, state_of, parent_of, exists,
}
use vlad_os.Task.{UserFaultInfo, process_id}
use vlad_os.Scheduler.{Kernel, K}
use vlad_os.Scheduler.Schedule.{finished_count, failed_count, all_tasks_finished}

-- `option?` in a function that returns an option.
abbrev try {ℓ} : {A : Type ℓ} {B : Type 0} → Option A → (A → Option B) → Option B
try none f = none
try (some a) f = f a

unfoldable pub finished_task_count : Kernel → ℕ
finished_task_count k = finished_count k.tasks

unfoldable pub failed_task_count : Kernel → ℕ
failed_task_count k = failed_count k.tasks

unfoldable pub every_task_finished : Kernel → Bool
every_task_finished k = all_tasks_finished k.tasks

unfoldable pub task_exit_code : ℕ → Kernel → Option ℕ
task_exit_code task_id k = try (get_elem? k.tasks task_id) λ t. t.exit_code

unfoldable pub task_fault_info : ℕ → Kernel → Option UserFaultInfo
task_fault_info task_id k = try (get_elem? k.tasks task_id) λ t. t.fault_info

unfoldable pub task_process_id : ℕ → Kernel → Option ℕ
task_process_id task_id k = try (get_elem? k.tasks task_id) λ t. process_id t

unfoldable pub process_state : ℕ → Kernel → Option ProcessState
process_state pid k = state_of k.processes pid

unfoldable pub process_parent : ℕ → Kernel → Option (Option ℕ)
process_parent pid k = parent_of k.processes pid

unfoldable pub process_exists : ℕ → Kernel → Bool
process_exists pid k = exists k.processes pid

unfoldable pub process_fd_is_open : ℕ → ℕ → Kernel → Bool
process_fd_is_open pid fd k = elim (fd_table_of k.processes pid) [
  | none ↦ false
  | some table ↦ Fd.is_open table fd
]

unfoldable pub process_open_fd_count : ℕ → Kernel → ℕ
process_open_fd_count pid k = elim (fd_table_of k.processes pid) [
  | none ↦ 0
  | some table ↦ Fd.open_count table
]

unfoldable pub open_file_count : Kernel → ℕ
open_file_count k = File.active_count k.open_files

unfoldable pub open_file_offset_for_fd : ℕ → ℕ → Kernel → Option ℕ
open_file_offset_for_fd pid fd k = try (fd_table_of k.processes pid) λ table.
    try (Fd.get table fd)
      λ entry. try (File.get k.open_files entry.open_file) λ file. some file.offset

unfoldable pub process_heap_start : ℕ → Kernel → Option ℕ
process_heap_start pid k = try (heap_of k.processes pid) λ heap. some heap.start

unfoldable pub process_program_break : ℕ → Kernel → Option ℕ
process_program_break pid k = try (heap_of k.processes pid) λ heap. some heap.brk

unfoldable pub process_heap_mapped_end : ℕ → Kernel → Option ℕ
process_heap_mapped_end pid k = try (heap_of k.processes pid) λ heap. some heap.mapped_end

unfoldable pub process_heap_limit : ℕ → Kernel → Option ℕ
process_heap_limit pid k = try (heap_of k.processes pid) λ heap. some heap.limit

-- `.and_then(Task::process_id).ok_or(...)`, and the address space of that process.
abbrev space_of_task : ℕ → Kernel → Option AddressSpace
space_of_task task_id k =
    try (get_elem? k.tasks task_id) λ t. try (process_id t) λ pid. address_space_of k.processes pid

module _ (x : X86) where
  unfoldable pub user_page_is_mapped : ℕ → ℕ → Kernel → Bool
  user_page_is_mapped pid address k = elim (address_space_of k.processes pid) [
    | none ↦ false
    | some space ↦ user_page_is_accessible x k.memory space address
  ]

  unfoldable pub read_user_u64 : ℕ → ℕ → Kernel → Option ℕ
  read_user_u64 task_id address k =
      try (space_of_task task_id k) λ space. Copy.read_user_u64 x k.memory space address

  unfoldable pub copy_to_task : ℕ → ℕ → List ℕ → Kernel → K (Result UserMemoryError (Unit {0}))
  copy_to_task task_id address bytes k = elim (space_of_task task_id k) [
    | none ↦ done (err unmapped, k)
    | some space ↦
        and_then (copy_to_user x space address bytes k.memory)
          λ copied. done (copied.0, record k { memory = copied.1 })
  ]
