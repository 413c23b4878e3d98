-- ===== src/Scheduler.antt =====
-- scheduler.rs: the state of the scheduler, with the parts of the machine that it drives.
pub mod Schedule
pub mod Sound
pub mod Wired
pub mod Spawn
pub mod Exit
pub mod Wait
pub mod Files
pub mod Brk
pub mod Dispatch
pub mod Queries
use vlad_os.Base.{
  ◌==◌, if◌then◌else◌, get_elem?, set, Exec, done, panic, expect, and_then, ℕ, Bool, false, Option,
  none, some, List, [],
}
use vlad_os.File.{OpenFileTable}
use vlad_os.File
use vlad_os.Process.{ProcessTable}
use vlad_os.Process
use vlad_os.Memory.{Memory}
use vlad_os.Task.{TaskState, TrapFrame, Task, process_id}
use vlad_os.Syscall.{SysError, raw_return}

-- `Scheduler`, and below it: memory, the trap frames on the kernel stacks by their address, the CR3
-- register, the stack that the TSS gives interrupts from user mode, and the bytes sent to the serial
-- port. `current` and the entries of `tasks` are tied by their index.
pub record Kernel : Type 0 where
  pub tasks : List Task
  pub processes : ProcessTable
  pub open_files : OpenFileTable
  pub current : Option ℕ
  pub main_context : ℕ
  pub preemption_enabled : Bool
  pub current_level_4_frame : Option ℕ
  pub memory : Memory
  pub frames : ℕ → TrapFrame
  pub cr3 : ℕ
  pub kernel_stack : ℕ
  pub serial : List ℕ

-- A handler's outcome: a panic, or its result and the state that it leaves.
abbrev pub K : Type 0 → Type 0
K A = Exec (A × Kernel)

infixl 5 ◌>>>◌
abbrev pub ◌>>>◌ : {A B : Type 0} → K A → (A → Kernel → K B) → K B
done (a, k) >>> f = f a k
panic >>> f = panic

-- How an interrupt returns: through the trap frame at an address, or to the caller of `run` by
-- `restore_main`.
pub data Resume : Type 0 where
  resume : ℕ → Resume
  to_main : Resume

-- `self.tasks[index]`.
abbrev pub task_at : {A : Type 0} → Kernel → ℕ → (Task → Exec A) → Exec A
task_at k index f = and_then (expect (get_elem? k.tasks index)) f

abbrev pub put_task : Kernel → ℕ → Task → Kernel
put_task k index task = record k { tasks = set k.tasks index task }

abbrev pub put_frame : Kernel → ℕ → TrapFrame → Kernel
put_frame k at frame = record k { frames = λ a. if a == at then frame else k.frames a }

-- `set_state` on the task at an index.
abbrev pub set_state : ℕ → TaskState → Kernel → K (Unit {0})
set_state index state k =
    task_at k index λ t. done (tt, put_task k index (record t { state = state }))

abbrev pub set_saved_rsp : ℕ → ℕ → Kernel → K (Unit {0})
set_saved_rsp index rsp k =
    task_at k index λ t. done (tt, put_task k index (record t { saved_rsp = rsp }))

-- `set_saved_rax` writes into the saved trap frame of the task.
abbrev pub set_saved_rax : ℕ → ℕ → Kernel → K (Unit {0})
set_saved_rax index value k =
    task_at k index
      λ t. done (tt, put_frame k t.saved_rsp (record (k.frames t.saved_rsp) { rax = value }))

abbrev pub set_frame_rax : ℕ → ℕ → Kernel → Kernel
set_frame_rax frame_rsp value k =
    put_frame k frame_rsp (record (k.frames frame_rsp) { rax = value })

-- `return_sys_error`.
abbrev pub return_sys_error : ℕ → SysError → Kernel → K Resume
return_sys_error frame_rsp e k = done (resume frame_rsp, set_frame_rax frame_rsp (raw_return e) k)

unfoldable pub current_process_id : Kernel → Exec (Option ℕ)
current_process_id k = elim k.current [
  | none ↦ done none
  | some current ↦ task_at k current λ t. done (process_id t)
]

-- `SCHEDULER` at the start.
abbrev pub new : Memory → (ℕ → TrapFrame) → ℕ → ℕ → Kernel
new memory frames cr3 kernel_stack = record {
  tasks = [];
  processes = Process.new;
  open_files = File.new;
  current = none;
  main_context = 0;
  preemption_enabled = false;
  current_level_4_frame = none;
  memory = memory;
  frames = frames;
  cr3 = cr3;
  kernel_stack = kernel_stack;
  serial = [];
}
