-- ===== src/Tests/Steps.antt =====
-- A run of the machine: two processes start, the scheduler runs, and the first one writes.
use vlad_os.Base.{
  is_empty, Exec, done, panic, Yields, ℕ, ◌+◌, ◌≡◌, refl, not, ◌&&◌, none, some, List, [], ◌∷◌,
  arith,
}
use vlad_os.Fd.{new_with_stdio}
use vlad_os.File.{alloc}
use vlad_os.File
use vlad_os.Process.{can_create, create, address_space_of}
use vlad_os.Process
use vlad_os.Process.Heap.{Fits}
use vlad_os.Task.{TrapFrame, Task, new_kernel, new_user}
use vlad_os.Syscall.{SyscallNumber, from_raw}
use vlad_os.Scheduler.Spawn.{spawn_user_process}
use vlad_os.Scheduler.Schedule.{run, prepare_to_run, first_ready}
use vlad_os.Scheduler.Wired.{Wired, Leaves}
use vlad_os.Scheduler.Dispatch.Total.{Callable}
use vlad_os.Scheduler.Schedule.{terminal_count}
use vlad_os.Scheduler.Queries.{every_task_finished, finished_task_count, failed_task_count}
use vlad_os.Scheduler.Queries.Answers.{every_task_finished_lem, all_ended}
use vlad_os.Scheduler.Sound.{Sound}
use vlad_os.Elf.Load.{load_user_elf}
use vlad_os.Elf.Start.{Starts, load_user_elf-Starts}
use vlad_os.Elf.Spawn.{spawn_user_elf_process_with_arg, spawn_user_elf-Keeps}
use vlad_os.Tests.Images.{image}
use vlad_os.Interrupts.Timer.{Ticks, timer_interrupt_rust-Ticks}
use vlad_os.Interrupts.{TrapFrameWithErrorCode, Cpu, timer_interrupt_rust}
use vlad_os.Interrupts.Steps.{
  Event, program, syscall_interrupt, spawn_process, run_tasks, at_start, handle, step, Reachable,
  start, further,
}
use vlad_os.Interrupts.Steps.Safety.{SafeCpu, Reachable-Safe, Reachable-Handles}
use vlad_os.Tests.Machine.{machine, mapped_memory, platform, zero_frames, machine-AddressLaws}
use vlad_os.Tests.Kernels.{boot, user_init, family}

abbrev pub no_faults : ℕ → TrapFrameWithErrorCode
no_faults at = record { registers = zero_frames at; error_code = 0 }

abbrev pub state_after : Exec Cpu → Cpu → Cpu
state_after (done c) before = c
state_after panic before = before

abbrev pub at_boot : Cpu
at_boot = at_start boot no_faults 0

abbrev start_parent : Event
start_parent = spawn_process none (user_init 0x2000) 0x202

abbrev start_child : Event
start_child = spawn_process (some 1) (user_init 0x3000) 0x202

abbrev one_process : Cpu
one_process = state_after (handle machine platform start_parent at_boot) at_boot

abbrev two_processes : Cpu
two_processes = state_after (handle machine platform start_child one_process) one_process

abbrev running_parent : Cpu
running_parent =
    state_after (handle machine platform (run_tasks 0x6000) two_processes) two_processes

-- The parent asks to write three bytes from its page to its standard output.
abbrev write_frame : TrapFrame
write_frame = record (zero_frames 0) { rax = 2; rdi = 1; rsi = 0x80_0040_0000; rdx = 3 }

abbrev before_write : Cpu
before_write =
    state_after
      (handle machine platform (program (λ a. 65) (λ a. write_frame) no_faults 0) running_parent)
      running_parent

user_heap-Fits : (frame : ℕ) → Fits (user_init frame).heap
user_heap-Fits frame = (
  record {
    start_le_brk = omega arith;
    brk_le_limit = omega arith;
    start_aligned = refl;
    limit_aligned = refl;
    limit_fits = omega arith;
    mapped = refl;
  },
  omega arith,
)

start_parent-step : handle machine platform start_parent at_boot ≡ done one_process
unfolding handle spawn_user_process can_create new_with_stdio alloc File.ensure_slots create
    Process.ensure_slots Process.get new_user
start_parent-step = refl

start_child-step : handle machine platform start_child one_process ≡ done two_processes
unfolding handle spawn_user_process can_create new_with_stdio alloc File.ensure_slots create
    Process.ensure_slots Process.get Process.put new_user
start_child-step = refl

run-step : handle machine platform (run_tasks 0x6000) two_processes ≡ done running_parent
unfolding handle spawn_user_process can_create new_with_stdio alloc File.ensure_slots create
    Process.ensure_slots Process.get Process.put new_user run prepare_to_run first_ready
    address_space_of
run-step = refl

two_processes-Reachable : Reachable machine platform two_processes
two_processes-Reachable =
    further
      (further (start mapped_memory zero_frames 0x1000 0x8000 0 no_faults)
        (step start_parent (user_heap-Fits 0x2000) start_parent-step))
      (step start_child (user_heap-Fits 0x3000) start_child-step)

two_processes_rest : two_processes.kernel.current ≡ none
unfolding handle spawn_user_process can_create new_with_stdio alloc File.ensure_slots create
    Process.ensure_slots Process.get
two_processes_rest = refl

before_write-Reachable : Reachable machine platform before_write
unfolding handle
before_write-Reachable =
    further (further two_processes-Reachable (step (run_tasks 0x6000) two_processes_rest run-step))
      (step (program (λ a. 65) (λ a. write_frame) no_faults 0) tt refl)

Reachable-Safe_example : SafeCpu before_write
Reachable-Safe_example = Reachable-Safe machine machine-AddressLaws platform before_write-Reachable

-- The pointer of the write is accepted.
write-Callable :
    (number : SyscallNumber)
    → from_raw 2 ≡ some number
    → Callable machine before_write.kernel number write_frame
unfolding from_raw
write-Callable SyscallNumber.yield e = cc
write-Callable SyscallNumber.exit e = cc
write-Callable SyscallNumber.write e = (0x80_0040_0000, refl)
write-Callable SyscallNumber.get_pid e = cc
write-Callable SyscallNumber.wait_pid e = cc
write-Callable SyscallNumber.open_file e = cc
write-Callable SyscallNumber.read e = cc
write-Callable SyscallNumber.close e = cc
write-Callable SyscallNumber.brk e = cc

Reachable-Handles_example :
    Yields
      (Reachable machine platform)
      (handle machine platform (syscall_interrupt 0x7000) before_write)
unfolding handle
Reachable-Handles_example =
    Reachable-Handles machine machine-AddressLaws platform before_write (syscall_interrupt 0x7000)
      before_write-Reachable write-Callable

timer_interrupt_rust-Ticks_example :
    Yields (Ticks 0x7000 before_write) (timer_interrupt_rust 0x7000 before_write)
timer_interrupt_rust-Ticks_example =
    timer_interrupt_rust-Ticks 0x7000 before_write
      (Reachable-Safe machine machine-AddressLaws platform before_write-Reachable).1

abbrev pub first_task : List Task → Task
first_task [] = (new_kernel platform 0 0x9000 0x202).0
first_task (t ∷ ts) = t

every_task_finished_lem_example :
    (every_task_finished family ≡ (not (is_empty family.tasks) && all_ended family.tasks))
    × (terminal_count family.tasks ≡ finished_task_count family + failed_task_count family)
every_task_finished_lem_example = every_task_finished_lem family

load_user_elf-Starts_example : Starts machine image 7 (load_user_elf machine image 7 mapped_memory)
load_user_elf-Starts_example = load_user_elf-Starts machine image 7 mapped_memory

spawn_user_elf-Keeps_example :
    Leaves
      (λ k. Sound k × Wired k)
      (spawn_user_elf_process_with_arg machine platform (some 1) image 7 0x202 before_write.kernel)
spawn_user_elf-Keeps_example =
    spawn_user_elf-Keeps machine machine-AddressLaws platform (some 1) image 7 0x202
      before_write.kernel
      (Reachable-Safe machine machine-AddressLaws platform before_write-Reachable).0
      (Reachable-Safe machine machine-AddressLaws platform before_write-Reachable).1

abbrev waiting_parent : Task
waiting_parent = first_task before_write.kernel.tasks
