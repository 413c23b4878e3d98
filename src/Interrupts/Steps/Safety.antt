-- ===== src/Interrupts/Steps/Safety.antt =====
-- In every state that the kernel reaches its tables fit together, and no handler panics.
use vlad_os.Base.{
  leb, Bool-cases, Option-cases, length, get_elem?, is_some, Exec, done, panic, and_then, Yields, ℕ,
  ◌+◌, ◌%◌, ◌≡◌, refl, inl, inr, true, none, some, [], ◌∷◌, ◌++◌, arith,
}
use vlad_os.Memory.{X86, AddressLaws}
use vlad_os.Process.Follows.{Follows-refl}
use vlad_os.Process.Valid.{new-Valid}
use vlad_os.Task.{max_tasks, failed, UserFaultInfo, Platform, is_ready}
use vlad_os.Scheduler.{Kernel, K, Resume}
use vlad_os.Words.{u64_mod}
use vlad_os.Scheduler.Schedule.{on_timer_interrupt, finish_current_task}
use vlad_os.Scheduler.Sound.{
  Sound, Ensures, switch_from_interrupt-Sound, on_timer_interrupt-Sound, finish_current_task-Sound,
  run-Sound,
}
use vlad_os.Scheduler.Wired.{Wired, Wired-Steady, Leaves}
use vlad_os.Scheduler.Wired.Switch.{
  switch_from_interrupt-Wired, on_timer_interrupt-Wired, finish_current_task-Wired, run-Wired,
}
use vlad_os.Scheduler.Exit.{fail_current_with_fault}
use vlad_os.Scheduler.Exit.Total.{same-Steady}
use vlad_os.Scheduler.Exit.Finish.{finish_current_from_interrupt-Wired}
use vlad_os.Scheduler.Exit.Release.{finish_current_from_interrupt-Sound}
use vlad_os.Scheduler.Spawn.{spawn, set_task_initial_arg}
use vlad_os.Scheduler.Spawn.Account.{spawn_user_process-Sound}
use vlad_os.Scheduler.Spawn.Total.{spawn_user_process-Wired, spawn-Wired, new-Wired}
use vlad_os.Scheduler.Dispatch.Total.{dispatch-Keeps}
use vlad_os.Elf.Spawn.{spawn_user_elf-Keeps}
use vlad_os.Interrupts.{
  timer, as_u8, Cpu, Outcome, returns, Handled, in_kernel, timer_interrupt_rust,
  yield_interrupt_rust, from_user, syscall_interrupt_rust, general_protection_rust, page_fault_rust,
  keyboard_interrupt_handler,
}
use vlad_os.Interrupts.Steps.{
  Event, program, timer_interrupt, yield_interrupt, syscall_interrupt, protection_exception,
  page_exception, keyboard_interrupt, spawn_task, spawn_process, spawn_elf, initial_arg, preemption,
  run_tasks, task_returns, handle, Enabled, step, Reachable, start, further, leaves, in_scheduler,
}

-- The tables of the kernel fit together, and its open files are accounted for.
abbrev pub Safe : Kernel → Type 0
Safe k = Sound k × Wired k

abbrev pub SafeCpu : Cpu → Type 0
SafeCpu c = Safe c.kernel

both : {A : Type 0} (m : K A) → Ensures Sound m → Leaves Wired m → Leaves Safe m
both (done (a, k)) s w = (s, w)
both panic s w = w

in_kernel-Safe : (c : Cpu) (m : K Resume) → Leaves Safe m → Yields SafeCpu (leaves (in_kernel c m))
in_kernel-Safe c (done (next, k)) h = h
in_kernel-Safe c panic h = h

in_scheduler-Safe :
    {A : Type 0} (c : Cpu) (m : K A) → Leaves Safe m → Yields SafeCpu (in_scheduler c m)
in_scheduler-Safe c (done (a, k)) h = h
in_scheduler-Safe c panic h = h

-- What changes neither tasks nor processes nor open files.
idle-Safe :
    (k k' : Kernel)
    → k'.tasks ≡ k.tasks
    → k'.current ≡ k.current
    → k'.processes ≡ k.processes
    → k'.open_files ≡ k.open_files
    → Safe k
    → Safe k'
idle-Safe k k' tasks current processes files (s, w) = (
  rw (processes, files) s,
  Wired-Steady (same-Steady k k' tasks current (rw processes (Follows-refl k.processes))) w,
)

set_task_initial_arg-Safe :
    (task_id arg0 : ℕ) (k : Kernel) → Safe k → Safe (set_task_initial_arg task_id arg0 k).1
unfolding set_task_initial_arg
set_task_initial_arg-Safe task_id arg0 k h = elim (Option-cases (get_elem? k.tasks task_id)) [
  | inl n ↦ rw (n, set_task_initial_arg) h
  | inr (t, e) ↦
      rw (e, set_task_initial_arg)
        (elim (Bool-cases (is_ready t.state)) [
          | inl b ↦ rw b (idle-Safe k _ refl refl refl refl h)
          | inr b ↦ rw b h
        ])
]

spawn-Sound :
    (p : Platform) (entry initial_rflags : ℕ) (k : Kernel)
    → Sound k
    → Sound (spawn p entry initial_rflags k).1
unfolding spawn
spawn-Sound p entry initial_rflags k s = elim (Bool-cases (leb max_tasks (length k.tasks))) [
  | inl b ↦ rw (b, spawn) s
  | inr b ↦ rw (b, spawn) s
]

finish_current_task-Safe :
    (k : Kernel) → is_some k.current ≡ true → Safe k → Leaves Safe (finish_current_task k)
finish_current_task-Safe k some_task (s, w) = elim (Option-cases k.current) [
  | inl n ↦ cc (rw n at some_task)
  | inr (current, c) ↦
      both (finish_current_task k) (finish_current_task-Sound k s)
        (finish_current_task-Wired k current c w)
]

on_timer_interrupt-Safe :
    (frame_rsp : ℕ) (k : Kernel) → Safe k → Leaves Safe (on_timer_interrupt frame_rsp k)
on_timer_interrupt-Safe frame_rsp k (s, w) =
    both _ (on_timer_interrupt-Sound frame_rsp k s) (on_timer_interrupt-Wired frame_rsp k w)

-- The acknowledgement of a tick leaves the kernel.
timer-Safe :
    (c : Cpu) (m : K Resume) (acknowledge : Outcome → Cpu → Handled)
    → ((next : Outcome) (c' : Cpu) → SafeCpu c' → Yields SafeCpu (leaves (acknowledge next c')))
    → Leaves Safe m
    → Yields SafeCpu (leaves (and_then (in_kernel c m) λ r. acknowledge r.0 r.1))
timer-Safe c (done (r, k)) acknowledge g h = g (returns r) (record c { kernel = k }) h
timer-Safe c panic acknowledge g h = h

module _ (x : X86) (laws : AddressLaws x) (p : Platform) where
  fault-Safe :
      (frame_rsp : ℕ) (info : UserFaultInfo) (k : Kernel)
      → is_some k.current ≡ true
      → Safe k
      → Leaves Safe (fail_current_with_fault x frame_rsp info k)
  unfolding fail_current_with_fault
  fault-Safe frame_rsp info k some_task (s, w) = elim (Option-cases k.current) [
    | inl n ↦ cc (rw n at some_task)
    | inr (current, c) ↦
        both (fail_current_with_fault x frame_rsp info k)
          (finish_current_from_interrupt-Sound x frame_rsp failed none (some info) k s)
          (finish_current_from_interrupt-Wired x laws frame_rsp failed none (some info) k current
            refl c w)
  ]

  handle-Safe :
      (e : Event) (c : Cpu) → Enabled x p e c → SafeCpu c → Yields SafeCpu (handle x p e c)
  unfolding handle
  handle-Safe (program bytes frames fault_frames cr2) c en h =
      idle-Safe c.kernel _ refl refl refl refl h
  handle-Safe (timer_interrupt frame_rsp) c en h =
      unfold timer_interrupt_rust in
      timer-Safe (record c { timer_ticks = (c.timer_ticks + 1) % u64_mod })
        (on_timer_interrupt frame_rsp c.kernel)
        (λ next c'. done (next, record c' { acknowledged = c'.acknowledged ++ (as_u8 timer ∷ []) }))
        (λ r c' s. s) (on_timer_interrupt-Safe frame_rsp c.kernel h)
  handle-Safe (yield_interrupt frame_rsp) c en (s, w) =
      unfold yield_interrupt_rust in
      in_kernel-Safe c _ (
        both _ (switch_from_interrupt-Sound frame_rsp c.kernel s)
          (switch_from_interrupt-Wired frame_rsp c.kernel w))
  handle-Safe (syscall_interrupt frame_rsp) c en (s, w) =
      unfold syscall_interrupt_rust in
      in_kernel-Safe c _ (dispatch-Keeps x laws frame_rsp c.kernel s w en)
  handle-Safe (protection_exception frame_rsp) c en h =
      unfold general_protection_rust in
      elim (Bool-cases (from_user (c.fault_frames frame_rsp))) [
        | inl b ↦ rw b (in_kernel-Safe c _ (fault-Safe frame_rsp _ c.kernel (en b) h))
        | inr b ↦ rw b h
      ]
  handle-Safe (page_exception frame_rsp) c en h =
      unfold page_fault_rust in
      elim (Bool-cases (from_user (c.fault_frames frame_rsp))) [
        | inl b ↦ rw b (in_kernel-Safe c _ (fault-Safe frame_rsp _ c.kernel (en b) h))
        | inr b ↦ rw b h
      ]
  handle-Safe keyboard_interrupt c en h = unfold keyboard_interrupt_handler in h
  handle-Safe (spawn_task entry rflags) c en (s, w) =
      (spawn-Sound p entry rflags c.kernel s, spawn-Wired p entry rflags c.kernel w)
  handle-Safe (spawn_process parent init rflags) c en (s, w) = in_scheduler-Safe c _ (
      both _ (spawn_user_process-Sound p parent init rflags c.kernel s)
        (spawn_user_process-Wired p parent init rflags c.kernel s.valid en w))
  handle-Safe (spawn_elf parent elf_bytes arg0 rflags) c en (s, w) =
      in_scheduler-Safe c _
        (spawn_user_elf-Keeps x laws p parent elf_bytes arg0 rflags c.kernel s w)
  handle-Safe (initial_arg task_id arg0) c en h = set_task_initial_arg-Safe task_id arg0 c.kernel h
  handle-Safe (preemption enabled) c en h = idle-Safe c.kernel _ refl refl refl refl h
  handle-Safe (run_tasks saved) c en (s, w) =
      in_scheduler-Safe c _ (both _ (run-Sound saved c.kernel s) (run-Wired saved c.kernel en w))
  handle-Safe task_returns c en h = in_scheduler-Safe c _ (finish_current_task-Safe c.kernel en h)

  -- With `AddressLaws`: in every state that the kernel reaches, the current task is the one that
  -- runs, behind each user task that has not ended is its running process, the heaps of processes
  -- are valid and end in the lower half, and each open file has as many references as descriptors of
  -- processes refer to it.
  pub Reachable-Safe : {c : Cpu} → Reachable x p c → SafeCpu c
  Reachable-Safe (start memory frames cr3 kernel_stack cr2 fault_frames) =
      (record { valid = new-Valid; balanced = λ j. refl }, new-Wired memory frames cr3 kernel_stack)
  Reachable-Safe (further {c} r (step {c'} e en made)) =
      outcome (handle x p e c) made (handle-Safe e c en (Reachable-Safe r))
    where
      outcome : (m : Exec Cpu) → m ≡ done c' → Yields SafeCpu m → SafeCpu c'
      outcome (done b) same h = let is : b ≡ c' = ground (arith, same) in rw (← is) h
      outcome panic same h = elim h [ ]

  -- With `AddressLaws`: in every state that the kernel reaches, an event that can occur is handled
  -- without a panic, and leaves such a state. `Enabled` says when an event can occur: a system call
  -- when `VirtAddr::new` accepts its pointers.
  pub Reachable-Handles :
      (c : Cpu) (e : Event)
      → Reachable x p c
      → Enabled x p e c
      → Yields (Reachable x p) (handle x p e c)
  Reachable-Handles c e r en = outcome (handle x p e c) refl (handle-Safe e c en (Reachable-Safe r))
    where
      outcome : (m : Exec Cpu) → handle x p e c ≡ m → Yields SafeCpu m → Yields (Reachable x p) m
      outcome (done c') made h = further r (step e en made)
      outcome panic made h = h
