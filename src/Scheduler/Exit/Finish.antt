-- ===== src/Scheduler/Exit/Finish.antt =====
-- scheduler.rs: the end of the current task does not panic in a wired kernel, and leaves one.
use vlad_os.Base.{
  ==_self, Option-cases, get_elem?, get_elem?-set_at, done, expect, Yields-done, ℕ, ◌%◌, ◌^◌, ◌≡◌,
  refl, ap, ◌∙◌, inl, inr, true, false, Option, none, some, arith,
}
use vlad_os.Memory.{X86, AddressLaws}
use vlad_os.Process.Status.{ProcessExit, exited, faulted, running}
use vlad_os.Process.{mark_exited}
use vlad_os.Process.Lookup.{get-mark_exited}
use vlad_os.Process.Follows.{reap_orphan_if_zombie-Follows}
use vlad_os.Task.{
  TaskState, ready, running, finished, failed, blocked, UserFaultInfo, Task, process_id, is_running,
  is_terminal,
}
use vlad_os.Scheduler.{Kernel, put_task}
use vlad_os.Scheduler.Wired.{
  Backs, PointerFits, Wired, Idle, Idle-Steady, Leaves, >>>-Leaves, task_at-Leaves,
}
use vlad_os.Scheduler.Wired.Switch.{run_next_or_leave-Wired, set_aside-Idle}
use vlad_os.Scheduler.Exit.{
  wake_parent_waiting_for, end_process, finish_current_from_interrupt, process_exit, or_else,
}
use vlad_os.Scheduler.Exit.Total.{same-Steady, wake_parent_waiting_for-Idle, mark_exited-Idle}

process_exit-Returns :
    (final : TaskState) (code : Option ℕ)
    → is_terminal final ≡ true
    → (exit : ProcessExit) × (process_exit final code ≡ done exit)
process_exit-Returns finished none h = (exited 0, refl)
process_exit-Returns finished (some code) h = (exited (code % 2 ^ 32), refl)
process_exit-Returns failed code h = (faulted, refl)
process_exit-Returns ready code h = cc
process_exit-Returns running code h = cc
process_exit-Returns (blocked r) code h = cc

terminal-stopped : (s : TaskState) → is_terminal s ≡ true → (is_running s ≡ false) × PointerFits s
terminal-stopped finished h = (refl, tt)
terminal-stopped failed h = (refl, tt)
terminal-stopped ready h = cc
terminal-stopped running h = cc
terminal-stopped (blocked r) h = cc

module _ (x : X86) (laws : AddressLaws x) where
  end_process-Idle :
      (pid : ℕ) (exit : ProcessExit) (current : ℕ) (task : Task) (k : Kernel)
      → get_elem? k.tasks current ≡ some task
      → is_terminal task.state ≡ true
      → Backs k.processes pid current
      → Idle k
      → Leaves Idle (end_process x pid exit k)
  unfolding end_process
  end_process-Idle pid exit current task k at ended (p, e, runs, main) i =
      let marked = mark_exited k.processes pid exit k.open_files in
      let k' : Kernel = record k { processes = marked.1; open_files = marked.2 } in
      let (worked, there, closed) = get-mark_exited k.processes pid exit k.open_files pid e in
      rw (end_process, worked)
        (>>>-Leaves Idle Idle (wake_parent_waiting_for x pid k') _
          (wake_parent_waiting_for-Idle x laws pid k'
            (mark_exited-Idle k current pid exit task at ended (p, e, runs, main) i))
          λ _ k₁ i₁.
            Idle-Steady
              (same-Steady k₁ _ refl refl (reap_orphan_if_zombie-Follows k₁.processes pid)) i₁)

  -- In a wired kernel with a current task, ending it does not panic and leaves a wired kernel.
  pub finish_current_from_interrupt-Wired :
      (frame_rsp : ℕ) (final : TaskState) (code : Option ℕ) (fault : Option UserFaultInfo)
      (k : Kernel) (current : ℕ)
      → is_terminal final ≡ true
      → k.current ≡ some current
      → Wired k
      → Leaves Wired (finish_current_from_interrupt x frame_rsp final code fault k)
  unfolding finish_current_from_interrupt
  finish_current_from_interrupt-Wired frame_rsp final code fault k current terminal c w =
      let (t, at, runs) = w.current_runs current c in
      let ended : Task = record t {
        saved_rsp = frame_rsp;
        state = final;
        exit_code = or_else code t.exit_code;
        fault_info = or_else fault t.fault_info;
      } in
      let (stopped, fits) = terminal-stopped final terminal in
      let k₁ = put_task k current ended in
      let i = set_aside-Idle k current ended t at refl runs fits stopped w c in
      let at₁ : get_elem? k₁.tasks current ≡ some ended =
        get_elem?-set_at k.tasks current current ended at ∙ rw (==_self current) refl in
      Yields-done _ (expect k.current) _ (ap expect c) (
        task_at-Leaves Wired k current _ at (elim (Option-cases (process_id t)) [
          | inl n ↦ rw n (run_next_or_leave-Wired current k₁ i)
          | inr (pid, is) ↦
              let (exit, how) = process_exit-Returns final code terminal in
              rw is (
                Yields-done _ (process_exit final code) _ how (
                  >>>-Leaves Idle Wired (end_process x pid exit k₁) _
                    (end_process-Idle pid exit current ended k₁ at₁ terminal
                      (w.tied.linked current t pid at is (ground (arith, runs))) i)
                    (λ _ k₂ i₂. run_next_or_leave-Wired current k₂ i₂)))
        ]))
