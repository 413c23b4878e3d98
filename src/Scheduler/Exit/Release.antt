-- ===== src/Scheduler/Exit/Release.antt =====
-- scheduler.rs: an end of a process and the wake-up of its parent keep the open files accounted for.
use vlad_os.Base.{
  Bool-cases, Option-cases, Result, ok, err, expect, Result-cases, ℕ, sym, ◌∙◌, inl, inr, Option,
  none, some, arith,
}
use vlad_os.Memory.{X86}
use vlad_os.UserMemory.{UserMemoryError, copy_to_user}
use vlad_os.Process.Status.{ProcessExit, running, zombie, wait_status_bytes}
use vlad_os.Process.{
  ProcessTable, address_space_of, state_of, reap_child, mark_exited, reap_orphan_if_zombie,
}
use vlad_os.Process.Valid.{
  Valid-Shrinks, reap_child-Reaps, Reaps-Shrinks, reap_orphan_if_zombie-Shrinks, mark_exited-Valid,
}
use vlad_os.Process.Holds.{mark_exited-holds, reap_child-holds, reap_orphan_if_zombie-holds}
use vlad_os.File.{OpenFileTable}
use vlad_os.Task.{TaskState, running, UserFaultInfo, process_id}
use vlad_os.Syscall.{SysError, raw_return}
use vlad_os.Scheduler.{Kernel, put_task, set_saved_rax}
use vlad_os.Scheduler.Sound.{
  Accounted, Sound, Ensures, >>>-Ensures, and_then-Ensures, task_at-Ensures,
  run_next_or_leave-Sound,
}
use vlad_os.Scheduler.Exit.{
  is_blocked, find_waiter, write_wait_status, reap_for_wait, deliver, complete_wait,
  wake_parent_waiting_for, end_process, finish_current_from_interrupt, status_ptr_of, process_exit,
  or_else,
}

reap_child-Accounted :
    (t : ProcessTable) (files : OpenFileTable) (parent child : ℕ)
    → Accounted t files
    → Accounted (reap_child t parent child).1 files
reap_child-Accounted t files parent child s = record {
  valid = Valid-Shrinks s.valid (Reaps-Shrinks (reap_child-Reaps t parent child));
  balanced = λ j. s.balanced j ∙ sym (reap_child-holds t parent child j s.valid);
}

reap_orphan-Accounted :
    (t : ProcessTable) (files : OpenFileTable) (pid : ℕ)
    → Accounted t files
    → Accounted (reap_orphan_if_zombie t pid) files
reap_orphan-Accounted t files pid s = record {
  valid = Valid-Shrinks s.valid (reap_orphan_if_zombie-Shrinks t pid);
  balanced = λ j. s.balanced j ∙ sym (reap_orphan_if_zombie-holds t pid j s.valid);
}

mark_exited-Accounted :
    (t : ProcessTable) (files : OpenFileTable) (pid : ℕ) (exit : ProcessExit)
    → Accounted t files
    → Accounted (mark_exited t pid exit files).1 (mark_exited t pid exit files).2
mark_exited-Accounted t files pid exit s = record {
  valid = mark_exited-Valid t pid exit files s.valid;
  balanced = λ j. omega (
    arith,
    s.balanced j,
    mark_exited-holds t pid exit files j s.valid (omega (arith, s.balanced j)),
  );
}

set_saved_rax-Sound :
    (index value : ℕ) (k : Kernel) → Sound k → Ensures Sound (set_saved_rax index value k)
set_saved_rax-Sound index value k s = task_at-Ensures Sound k index _ (λ t e. s)

module _ (x : X86) where
  reap_for_wait-Sound :
      (index parent child : ℕ) (k : Kernel)
      → Sound k
      → Ensures Sound (reap_for_wait x index parent child k)
  unfolding reap_for_wait
  reap_for_wait-Sound index parent child k s =
      let k' : Kernel = record k { processes = (reap_child k.processes parent child).1 } in
      let s' : Sound k' = reap_child-Accounted k.processes k.open_files parent child s in
      elim (Result-cases (reap_child k.processes parent child).0) [
        | inl (exit, e) ↦ rw (e, reap_for_wait) (set_saved_rax-Sound index _ k' s')
        | inr (error, e) ↦ rw (e, reap_for_wait) (set_saved_rax-Sound index _ k' s')
      ]

  deliver-Sound :
      (index parent child : ℕ) (status_ptr : Option ℕ) (exit : ProcessExit) (k : Kernel)
      → Sound k
      → Ensures Sound (deliver x index parent child status_ptr exit k)
  unfolding deliver
  deliver-Sound index parent child none exit k s = reap_for_wait-Sound index parent child k s
  deliver-Sound index parent child (some status_ptr) exit k s =
      >>>-Ensures Sound (write_wait_status x parent status_ptr exit k) _ written delivered
    where
      written : Ensures Sound (write_wait_status x parent status_ptr exit k)
      written = elim (Option-cases (address_space_of k.processes parent)) [
        | inl n ↦ rw (n, write_wait_status) s
        | inr (space, e) ↦
            rw (e, write_wait_status)
              (and_then-Ensures Sound
                (copy_to_user x space status_ptr (wait_status_bytes exit) k.memory) _
                (λ copied c. s))
      ]

      delivered :
          (r : Result UserMemoryError (Unit {0})) (k' : Kernel)
          → Sound k'
          → Ensures Sound {A = Unit {0}} (elim r [
            | err _ ↦ set_saved_rax index (raw_return SysError.fault) k'
            | ok _ ↦ reap_for_wait x index parent child k'
          ])
      delivered (ok _) k' s' = reap_for_wait-Sound index parent child k' s'
      delivered (err _) k' s' = set_saved_rax-Sound index _ k' s'

  pub complete_wait-Sound :
      (index child : ℕ) (status_ptr : Option ℕ) (k : Kernel)
      → Sound k
      → Ensures Sound (complete_wait x index child status_ptr k)
  unfolding complete_wait
  complete_wait-Sound index child status_ptr k s = task_at-Ensures Sound k index _ λ t e.
      elim (Option-cases (process_id t)) [
        | inl n ↦ rw n (set_saved_rax-Sound index _ k s)
        | inr (parent, at) ↦ rw at (elim (Option-cases (state_of k.processes child)) [
          | inl n ↦ rw n (set_saved_rax-Sound index _ k s)
          | inr (running, st) ↦ rw st (set_saved_rax-Sound index _ k s)
          | inr (zombie exit, st) ↦ rw st (deliver-Sound index parent child status_ptr exit k s)
        ])
      ]

  wake_parent_waiting_for-Sound :
      (child : ℕ) (k : Kernel) → Sound k → Ensures Sound (wake_parent_waiting_for x child k)
  unfolding wake_parent_waiting_for
  wake_parent_waiting_for-Sound child k s = elim (Option-cases (find_waiter child k.tasks)) [
    | inl n ↦ rw (n, wake_parent_waiting_for) s
    | inr (waiter, e) ↦
        rw (e, wake_parent_waiting_for)
          (task_at-Ensures Sound k waiter _ λ w at.
            >>>-Ensures Sound (complete_wait x waiter child (status_ptr_of w.state) k) _
              (complete_wait-Sound waiter child (status_ptr_of w.state) k s)
              λ _ k' s'. task_at-Ensures Sound k' waiter _ λ t at'.
                elim (Bool-cases (is_blocked t.state)) [
                  | inl b ↦ rw b (task_at-Ensures Sound k' waiter _ (λ t' at''. s'))
                  | inr b ↦ rw b s'
                ])
  ]

  end_process-Sound :
      (pid : ℕ) (exit : ProcessExit) (k : Kernel)
      → Sound k
      → Ensures Sound (end_process x pid exit k)
  unfolding end_process
  end_process-Sound pid exit k s =
      let marked = mark_exited k.processes pid exit k.open_files in
      let s' = mark_exited-Accounted k.processes k.open_files pid exit s in
      let k' : Kernel = record k { processes = marked.1; open_files = marked.2 } in
      elim (Result-cases marked.0) [
        | inr (error, e) ↦ rw (e, end_process) tt
        | inl (u, e) ↦
            rw (e, end_process)
              (>>>-Ensures Sound (wake_parent_waiting_for x pid k') _
                (wake_parent_waiting_for-Sound pid k' s')
                (λ _ k₁ s₁. reap_orphan-Accounted k₁.processes k₁.open_files pid s₁))
      ]

  -- Where each open file has as many references as descriptors of processes refer to it, the end of
  -- the current task, by exit or by a fault, leaves a kernel with such references, unless it panics;
  -- so the process that ended has given back what it had open.
  pub finish_current_from_interrupt-Sound :
      (frame_rsp : ℕ) (final : TaskState) (code : Option ℕ) (fault : Option UserFaultInfo)
      (k : Kernel)
      → Sound k
      → Ensures Sound (finish_current_from_interrupt x frame_rsp final code fault k)
  unfolding finish_current_from_interrupt
  finish_current_from_interrupt-Sound frame_rsp final code fault k s =
      and_then-Ensures Sound (expect k.current) _ λ current c.
        task_at-Ensures Sound k current _ λ t e.
          let k₁ : Kernel = put_task k current (record t {
            saved_rsp = frame_rsp;
            state = final;
            exit_code = or_else code t.exit_code;
            fault_info = or_else fault t.fault_info;
          }) in
          elim (Option-cases (process_id t)) [
            | inl n ↦ rw n (run_next_or_leave-Sound current k₁ s)
            | inr (pid, at) ↦ rw at (
                and_then-Ensures Sound (process_exit final code) _ λ exit ex.
                  >>>-Ensures Sound (end_process x pid exit k₁) _ (end_process-Sound pid exit k₁ s)
                    (λ _ k₂ s₂. run_next_or_leave-Sound current k₂ s₂))
          ]
