-- ===== src/Scheduler/Spawn.antt =====
-- scheduler.rs: starting tasks and processes.
pub mod Account
pub mod Total
use vlad_os.Base.{
  leb, if◌then◌else◌, length, get_elem?, Result, ok, err, done, and_then, ℕ, Bool, true, false,
  Option, none, some, [], ◌∷◌, ◌++◌,
}
use vlad_os.File.{FileError}
use vlad_os.Fd.{FdTable, new_with_stdio}
use vlad_os.Process.Heap.{UserHeap}
use vlad_os.Process.{AddressSpace, ProcessError, can_create, create}
use vlad_os.Process
use vlad_os.Task.{max_tasks, TrapFrame, Task, Platform, new_kernel, new_user, is_ready}
use vlad_os.Scheduler.{Kernel, K, put_frame}

-- `UserTaskInit` of user.rs.
pub record UserTaskInit : Type 0 where
  pub address_space : AddressSpace
  pub entry_point : ℕ
  pub user_stack_top : ℕ
  pub heap : UserHeap
  pub arg0 : ℕ

-- The error of loading an image is that of the loader, `E`.
pub data SpawnError : Type 0 where
  tasks_full : SpawnError
  process_error : ProcessError → SpawnError

pub record UserProcessHandle : Type 0 where
  pub pid : ℕ
  pub task_id : ℕ

abbrev pub add_task : Task × TrapFrame → Kernel → Kernel
add_task (t, frame) k = put_frame (record k { tasks = k.tasks ++ (t ∷ []) }) t.saved_rsp frame

module _ (p : Platform) where
  unfoldable pub spawn : ℕ → ℕ → Kernel → Result SpawnError ℕ × Kernel
  spawn entry initial_rflags k =
      let id = length k.tasks in
      if leb max_tasks id
      then (err tasks_full, k)
      else (ok id, add_task (new_kernel p id entry initial_rflags) k)

  -- From the creation of the process on, with its descriptors open.
  unfoldable pub spawn_with_fds :
      Option ℕ → UserTaskInit → ℕ → FdTable → Kernel → K (Result SpawnError UserProcessHandle)
  spawn_with_fds parent init initial_rflags fd_table k =
      let id = length k.tasks in
      and_then (create parent init.address_space init.heap fd_table id k.processes) λ created.
        let (r, processes) = created in
        let k' = record k { processes = processes } in
        elim r [
          | err e ↦ done (err (process_error e), k')
          | ok pid ↦ done (
            ok (record { pid = pid; task_id = id }),
            add_task
                (new_user p id pid init.entry_point init.user_stack_top init.arg0 initial_rflags)
                k',
          )
        ]

  unfoldable pub spawn_user_process :
      Option ℕ → UserTaskInit → ℕ → Kernel → K (Result SpawnError UserProcessHandle)
  unfolding spawn_with_fds
  spawn_user_process parent init initial_rflags k =
      if leb max_tasks (length k.tasks)
      then done (err tasks_full, k)
      else (elim (can_create k.processes parent) [
        | err e ↦ done (err (process_error e), k)
        | ok _ ↦
            let (r, files) = new_with_stdio k.open_files in
            let k' = record k { open_files = files } in
            elim r [
              | err e ↦ done (err (process_error (Process.file e)), k')
              | ok fd_table ↦ spawn_with_fds parent init initial_rflags fd_table k'
            ]
      ])

  unfoldable pub spawn_user : UserTaskInit → ℕ → Kernel → K (Result SpawnError UserProcessHandle)
  unfolding spawn_user_process
  spawn_user init initial_rflags k = spawn_user_process none init initial_rflags k

-- The argument of a task that has not run yet.
unfoldable pub set_task_initial_arg : ℕ → ℕ → Kernel → Bool × Kernel
set_task_initial_arg task_id arg0 k = elim (get_elem? k.tasks task_id) [
  | none ↦ (false, k)
  | some t ↦
      if is_ready t.state
      then (true, put_frame k t.saved_rsp (record (k.frames t.saved_rsp) { rdi = arg0 }))
      else (false, k)
]
