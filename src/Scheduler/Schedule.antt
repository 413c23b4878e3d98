-- ===== src/Scheduler/Schedule.antt =====
-- scheduler.rs: choosing the next task and switching to it.
pub mod Choice
use vlad_os.Base.{
  ◌==◌, if◌then◌else◌, length, get_elem?, is_empty, position, count_if, is_some, done, expect,
  and_then, ℕ, zero, suc, ◌+◌, ◌%◌, Bool, false, not, ◌&&◌, Option, none, some, List,
}
use vlad_os.Process.{address_space_of}
use vlad_os.Memory.{Memory}
use vlad_os.Task.{
  ready, running, finished, Task, process_id, is_ready, is_running, is_finished, is_failed,
  is_terminal,
}
use vlad_os.Scheduler.{Kernel, K, ◌>>>◌, Resume, resume, to_main, task_at, put_task, set_state}

abbrev pub is_ready_at : List Task → ℕ → Bool
is_ready_at tasks index = elim (get_elem? tasks index) [ none ↦ false | some t ↦ is_ready t.state ]

-- `for offset in 1..=len`; `left` rounds are left.
scan_ready : List Task → ℕ → ℕ → ℕ → Option ℕ
scan_ready tasks start zero offset = none
scan_ready tasks start (suc left) offset =
    let rest = scan_ready tasks start left (offset + 1) in
    let index = (start + offset) % length tasks in
    if is_ready_at tasks index then some index else rest

-- The first ready task behind `start`, going round once; `start` itself comes last.
unfoldable pub next_ready_after : List Task → ℕ → Option ℕ
unfolding scan_ready
next_ready_after tasks start =
    if is_empty tasks then none else scan_ready tasks start (length tasks) 1

unfoldable pub first_ready : List Task → Option ℕ
first_ready tasks = position (λ (t : Task). is_ready t.state) tasks

unfoldable pub finished_count : List Task → ℕ
finished_count tasks = count_if (λ (t : Task). is_finished t.state) tasks

unfoldable pub failed_count : List Task → ℕ
failed_count tasks = count_if (λ (t : Task). is_failed t.state) tasks

unfoldable pub terminal_count : List Task → ℕ
terminal_count tasks = count_if (λ (t : Task). is_terminal t.state) tasks

unfoldable pub all_tasks_finished : List Task → Bool
unfolding terminal_count
all_tasks_finished tasks = not (is_empty tasks) && terminal_count tasks == length tasks

-- `Cr3::write`, unless the table is loaded already.
unfoldable pub load_level_4 : ℕ → Kernel → Kernel
load_level_4 frame k = elim k.current_level_4_frame [
  | none ↦ record k { cr3 = frame; current_level_4_frame = some frame }
  | some loaded ↦
      if loaded == frame then k else record k { cr3 = frame; current_level_4_frame = some frame }
]

unfoldable pub switch_to_kernel_address_space : Kernel → Kernel
unfolding load_level_4
switch_to_kernel_address_space k = load_level_4 k.memory.kernel_level_4_frame k

unfoldable pub switch_to_task_address_space : ℕ → Kernel → K (Unit {0})
unfolding load_level_4
switch_to_task_address_space index k = task_at k index λ t. elim (process_id t) [
  | none ↦ done (tt, load_level_4 k.memory.kernel_level_4_frame k)
  | some pid ↦
      and_then (expect (address_space_of k.processes pid))
        λ space. done (tt, load_level_4 space.level_4_frame k)
]

-- `load_kernel_stack_for`, then `switch_to_task_address_space`.
unfoldable pub prepare_to_run : ℕ → Kernel → K (Unit {0})
unfolding switch_to_task_address_space
prepare_to_run index k =
    task_at k index
      λ t. switch_to_task_address_space index (record k { kernel_stack = t.kernel_stack_top })

-- Marks the task as running, makes it the current one, prepares the CPU and resumes it.
unfoldable pub run_next : ℕ → Kernel → K Resume
unfolding prepare_to_run
run_next next k = set_state next running k >>> λ _ k₁.
    prepare_to_run next (record k₁ { current = some next }) >>> λ _ k₂.
    task_at k₂ next λ t. done (resume t.saved_rsp, k₂)

-- With no task left, back to `run` in the kernel's address space.
unfoldable pub leave : Kernel → K Resume
unfolding switch_to_kernel_address_space
leave k = done (to_main, switch_to_kernel_address_space (record k { current = none }))

-- The end of the handlers after which the current task does not run on.
unfoldable pub run_next_or_leave : ℕ → Kernel → K Resume
unfolding run_next leave
run_next_or_leave current k = elim (next_ready_after k.tasks current) [
  | none ↦ leave k
  | some next ↦ run_next next k
]

-- Only a running task has its frame saved.
unfoldable pub save_current_frame : ℕ → Kernel → K (Option ℕ)
save_current_frame frame_rsp k = elim k.current [
  | none ↦ done (none, k)
  | some current ↦ task_at k current λ t.
      if is_running t.state
      then done (some current, put_task k current (record t { saved_rsp = frame_rsp }))
      else done (none, k)
]

unfoldable pub switch_from_interrupt : ℕ → Kernel → K Resume
unfolding save_current_frame run_next
switch_from_interrupt frame_rsp k = save_current_frame frame_rsp k >>> λ saved k₁. elim saved [
  | none ↦ done (resume frame_rsp, k₁)
  | some current ↦ elim (next_ready_after k₁.tasks current) [
    | none ↦ done (resume frame_rsp, k₁)
    | some next ↦ set_state current ready k₁ >>> λ _ k₂. run_next next k₂
  ]
]

unfoldable pub on_timer_interrupt : ℕ → Kernel → K Resume
unfolding switch_from_interrupt
on_timer_interrupt frame_rsp k =
    if k.preemption_enabled && is_some k.current
    then switch_from_interrupt frame_rsp k
    else done (resume frame_rsp, k)

-- `run`, up to the switch to the first task; `none` if no task is ready. `saved` is the stack pointer
-- that `switch_from_main` stores in the main context, and `cr3` is read from the CPU.
unfoldable pub run : ℕ → Kernel → K (Option Resume)
unfolding prepare_to_run
run saved k = elim (first_ready k.tasks) [
  | none ↦ done (none, k)
  | some next ↦ set_state next running (record k { current = some next }) >>> λ _ k₁.
      prepare_to_run next (record k₁ { current_level_4_frame = some k₁.cr3 }) >>> λ _ k₂.
      task_at k₂ next λ t. done (some (resume t.saved_rsp), record k₂ { main_context = saved })
]

-- `finish_current_task`: a kernel task has returned from its entry.
unfoldable pub finish_current_task : Kernel → K Resume
unfolding run_next_or_leave
finish_current_task k =
    and_then (expect k.current)
      λ current. set_state current finished k >>> λ _ k₁. run_next_or_leave current k₁
