-- ===== src/Scheduler/Exit.antt =====
-- scheduler.rs: the end of a task, and what it does for a parent that waits.
pub mod Release
pub mod Total
pub mod Finish
use vlad_os.Base.{
  ◌==◌, if◌then◌else◌, position, Result, ok, err, Exec, done, panic, expect, and_then, ℕ, ◌%◌, ◌^◌,
  Bool, true, false, Option, none, some, List,
}
use vlad_os.Memory.{X86}
use vlad_os.UserMemory.{UserMemoryError, unmapped, copy_to_user}
use vlad_os.Process.Status.{ProcessExit, exited, faulted, zombie, wait_status_bytes}
use vlad_os.Process.{address_space_of, state_of, reap_child, mark_exited, reap_orphan_if_zombie}
use vlad_os.Process
use vlad_os.Task.{
  child_exit, TaskState, ready, finished, failed, blocked, UserFaultInfo, Task, process_id,
}
use vlad_os.Syscall.{SysError, raw_return}
use vlad_os.Scheduler.{Kernel, K, ◌>>>◌, Resume, task_at, put_task, set_state, set_saved_rax}
use vlad_os.Scheduler.Schedule.{run_next_or_leave}

-- The process that a waiting task waits for, and where it wants the status.
abbrev waits_for : ℕ → Task → Bool
waits_for child t = elim t.state [ blocked (child_exit waited _) ↦ waited == child | _ ↦ false ]

abbrev pub is_blocked : TaskState → Bool
is_blocked (blocked _) = true
is_blocked _ = false

abbrev status_ptr_of : TaskState → Option ℕ
status_ptr_of (blocked (child_exit _ status_ptr)) = status_ptr
status_ptr_of _ = none

-- The first task that waits for the child.
unfoldable pub find_waiter : ℕ → List Task → Option ℕ
find_waiter child tasks = position (waits_for child) tasks

-- How a process ended, by the final state of its task.
abbrev process_exit : TaskState → Option ℕ → Exec ProcessExit
process_exit finished none = done (exited 0)
process_exit finished (some code) = done (exited (code % 2 ^ 32))
process_exit failed code = done faulted
process_exit _ code = panic

abbrev or_else {ℓ} : {A : Type ℓ} → Option A → Option A → Option A
or_else none o = o
or_else (some a) o = some a

module _ (x : X86) where
  unfoldable pub write_wait_status :
      ℕ → ℕ → ProcessExit → Kernel → K (Result UserMemoryError (Unit {0}))
  write_wait_status parent status_ptr exit k = elim (address_space_of k.processes parent) [
    | none ↦ done (err unmapped, k)
    | some space ↦
        and_then (copy_to_user x space status_ptr (wait_status_bytes exit) k.memory)
          λ copied. let (r, memory) = copied in done (r, record k { memory = memory })
  ]

  -- The reaping at the end of `complete_wait`.
  unfoldable pub reap_for_wait : ℕ → ℕ → ℕ → Kernel → K (Unit {0})
  reap_for_wait index parent child k =
      let (r, processes) = reap_child k.processes parent child in
      let k' = record k { processes = processes } in
      elim r [
        | err _ ↦ set_saved_rax index (raw_return SysError.child) k'
        | ok _ ↦ set_saved_rax index child k'
      ]

  -- Writes the status if it is wanted, and reaps only if that went well.
  unfoldable pub deliver : ℕ → ℕ → ℕ → Option ℕ → ProcessExit → Kernel → K (Unit {0})
  unfolding reap_for_wait write_wait_status
  deliver index parent child none exit k = reap_for_wait index parent child k
  deliver index parent child (some status_ptr) exit k =
      write_wait_status parent status_ptr exit k >>> λ r k'. elim r [
        | err _ ↦ set_saved_rax index (raw_return SysError.fault) k'
        | ok _ ↦ reap_for_wait index parent child k'
      ]

  unfoldable pub complete_wait : ℕ → ℕ → Option ℕ → Kernel → K (Unit {0})
  unfolding deliver
  complete_wait index child status_ptr k = task_at k index λ t. elim (process_id t) [
    | none ↦ set_saved_rax index (raw_return SysError.child) k
    | some parent ↦ elim (state_of k.processes child) [
      | some (zombie exit) ↦ deliver index parent child status_ptr exit k
      | _ ↦ set_saved_rax index (raw_return SysError.child) k
    ]
  ]

  unfoldable pub wake_parent_waiting_for : ℕ → Kernel → K (Unit {0})
  unfolding complete_wait find_waiter
  wake_parent_waiting_for child k = elim (find_waiter child k.tasks) [
    | none ↦ done (tt, k)
    | some waiter ↦ task_at k waiter λ w.
        complete_wait waiter child (status_ptr_of w.state) k >>> λ _ k'.
        task_at k' waiter
          λ t. if is_blocked t.state then set_state waiter ready k' else done (tt, k')
  ]

  unfoldable pub end_process : ℕ → ProcessExit → Kernel → K (Unit {0})
  unfolding wake_parent_waiting_for
  end_process pid exit k =
      let (r, processes, files) = mark_exited k.processes pid exit k.open_files in
      elim r [
        | err _ ↦ panic
        | ok _ ↦
            wake_parent_waiting_for pid (record k { processes = processes; open_files = files })
            >>> λ _ k'. done (tt, record k' { processes = reap_orphan_if_zombie k'.processes pid })
      ]

  unfoldable pub finish_current_from_interrupt :
      ℕ → TaskState → Option ℕ → Option UserFaultInfo → Kernel → K Resume
  unfolding end_process run_next_or_leave
  finish_current_from_interrupt frame_rsp final exit_code fault_info k =
      and_then (expect k.current) λ current. task_at k current λ t.
        let ended = record t {
          saved_rsp = frame_rsp;
          state = final;
          exit_code = or_else exit_code t.exit_code;
          fault_info = or_else fault_info t.fault_info;
        } in
        let k₁ = put_task k current ended in
        elim (process_id t) [
          | none ↦ run_next_or_leave current k₁
          | some pid ↦
              and_then (process_exit final exit_code)
                λ exit. end_process pid exit k₁ >>> λ _ k₂. run_next_or_leave current k₂
        ]

  unfoldable pub exit_current_from_interrupt : ℕ → ℕ → Kernel → K Resume
  unfolding finish_current_from_interrupt
  exit_current_from_interrupt frame_rsp exit_code k =
      finish_current_from_interrupt frame_rsp finished (some exit_code) none k

  unfoldable pub fail_current_with_fault : ℕ → UserFaultInfo → Kernel → K Resume
  unfolding finish_current_from_interrupt
  fail_current_with_fault frame_rsp fault_info k =
      finish_current_from_interrupt frame_rsp failed none (some fault_info) k
