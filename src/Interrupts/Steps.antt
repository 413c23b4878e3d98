-- ===== src/Interrupts/Steps.antt =====
-- The kernel as a machine that takes one step for each event: what interrupts.rs, syscall.rs and
-- scheduler.rs do on it.
pub mod Safety
use vlad_os.Base.{is_some, Exec, done, and_then, ℕ, ◌≡◌, Bool, true, Option, none, some, List, []}
use vlad_os.Memory.{X86, Memory}
use vlad_os.Process.Heap.{Fits}
use vlad_os.Task.{TrapFrame, Platform}
use vlad_os.Syscall.{SyscallNumber, from_raw}
use vlad_os.Scheduler.{Kernel, K, new}
use vlad_os.Scheduler.Schedule.{run, finish_current_task}
use vlad_os.Scheduler.Spawn.{UserTaskInit, spawn, spawn_user_process, set_task_initial_arg}
use vlad_os.Scheduler.Dispatch.Total.{Callable}
use vlad_os.Elf.Spawn.{spawn_user_elf_process_with_arg}
use vlad_os.Interrupts.{
  TrapFrameWithErrorCode, Cpu, Handled, timer_interrupt_rust, yield_interrupt_rust, from_user,
  syscall_interrupt_rust, general_protection_rust, page_fault_rust, keyboard_interrupt_handler,
}

-- `enable_preemption` and `disable_preemption`.
abbrev pub set_preemption : Bool → Kernel → Kernel
set_preemption enabled k = record k { preemption_enabled = enabled }

-- The events that enter the code. `program` stands for what user programs, kernel tasks and the
-- CPU do between them: any change of the bytes in memory, of the frames and of the faults.
pub data Event : Type 0 where
  program : (ℕ → ℕ) → (ℕ → TrapFrame) → (ℕ → TrapFrameWithErrorCode) → ℕ → Event
  timer_interrupt yield_interrupt syscall_interrupt protection_exception page_exception : ℕ → Event
  keyboard_interrupt : Event
  spawn_task : ℕ → ℕ → Event
  spawn_process : Option ℕ → UserTaskInit → ℕ → Event
  spawn_elf : Option ℕ → List ℕ → ℕ → ℕ → Event
  initial_arg : ℕ → ℕ → Event
  preemption : Bool → Event
  run_tasks : ℕ → Event
  task_returns : Event

-- What such code changes, outside of the kernel's tables.
abbrev after_program : (ℕ → ℕ) → (ℕ → TrapFrame) → (ℕ → TrapFrameWithErrorCode) → ℕ → Cpu → Cpu
after_program bytes frames fault_frames cr2 c = record c {
  kernel = record c.kernel { memory = record c.kernel.memory { bytes = bytes }; frames = frames };
  fault_frames = fault_frames;
  cr2 = cr2;
}

-- The state that a handler leaves.
abbrev leaves : Handled → Exec Cpu
leaves m = and_then m λ r. done r.1

abbrev in_scheduler : {A : Type 0} → Cpu → K A → Exec Cpu
in_scheduler c m = and_then m λ r. done (record c { kernel = r.1 })

abbrev pub at_start : Kernel → (ℕ → TrapFrameWithErrorCode) → ℕ → Cpu
at_start k fault_frames cr2 = record {
  kernel = k;
  timer_ticks = 0;
  acknowledged = [];
  fault_frames = fault_frames;
  cr2 = cr2;
}

module _ (x : X86) (p : Platform) where
  unfoldable pub handle : Event → Cpu → Exec Cpu
  handle (program bytes frames fault_frames cr2) c =
      done (after_program bytes frames fault_frames cr2 c)
  handle (timer_interrupt frame_rsp) c = leaves (timer_interrupt_rust frame_rsp c)
  handle (yield_interrupt frame_rsp) c = leaves (yield_interrupt_rust frame_rsp c)
  handle (syscall_interrupt frame_rsp) c = leaves (syscall_interrupt_rust x frame_rsp c)
  handle (protection_exception frame_rsp) c = leaves (general_protection_rust x frame_rsp c)
  handle (page_exception frame_rsp) c = leaves (page_fault_rust x frame_rsp c)
  handle keyboard_interrupt c = done (keyboard_interrupt_handler c)
  handle (spawn_task entry rflags) c =
      done (record c { kernel = (spawn p entry rflags c.kernel).1 })
  handle (spawn_process parent init rflags) c =
      in_scheduler c (spawn_user_process p parent init rflags c.kernel)
  handle (spawn_elf parent elf_bytes arg0 rflags) c =
      in_scheduler c (spawn_user_elf_process_with_arg x p parent elf_bytes arg0 rflags c.kernel)
  handle (initial_arg task_id arg0) c =
      done (record c { kernel = (set_task_initial_arg task_id arg0 c.kernel).1 })
  handle (preemption enabled) c = done (record c { kernel = set_preemption enabled c.kernel })
  handle (run_tasks saved) c = in_scheduler c (run saved c.kernel)
  handle task_returns c = in_scheduler c (finish_current_task c.kernel)

  -- When an event can occur. A fault in user mode has a current task, and so has the return of a
  -- kernel task; `run` is called where no task is current; a process that is made without an image has a
  -- valid heap in the lower half; the pointers of a system call are addresses that `VirtAddr::new` accepts.
  abbrev pub Enabled : Event → Cpu → Type 0
  Enabled (syscall_interrupt frame_rsp) c =
      (number : SyscallNumber)
      → from_raw (c.kernel.frames frame_rsp).rax ≡ some number
      → Callable x c.kernel number (c.kernel.frames frame_rsp)
  Enabled (protection_exception frame_rsp) c =
      from_user (c.fault_frames frame_rsp) ≡ true → is_some c.kernel.current ≡ true
  Enabled (page_exception frame_rsp) c =
      from_user (c.fault_frames frame_rsp) ≡ true → is_some c.kernel.current ≡ true
  Enabled (spawn_process parent init rflags) c = Fits init.heap
  Enabled (run_tasks saved) c = c.kernel.current ≡ none
  Enabled task_returns c = is_some c.kernel.current ≡ true
  Enabled _ c = Unit

  -- One step, and the states that a machine reaches from the start of the scheduler.
  pub data Step (c : Cpu) : Cpu → Type 0 where
    step : {c' : Cpu} (e : Event) → Enabled e c → handle e c ≡ done c' → Step c c'

  pub data Reachable : Cpu → Type 0 where
    start :
        (memory : Memory) (frames : ℕ → TrapFrame) (cr3 kernel_stack cr2 : ℕ)
        (fault_frames : ℕ → TrapFrameWithErrorCode)
        → Reachable (at_start (new memory frames cr3 kernel_stack) fault_frames cr2)
    further : {c c' : Cpu} → Reachable c → Step c c' → Reachable c'
