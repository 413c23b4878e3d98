-- ===== src/Scheduler/Brk/Total.antt =====
-- scheduler.rs: brk does not panic in a wired kernel, and keeps the tasks.
use vlad_os.Base.{ok, err, Yields-map, ℕ, refl, inl, inr}
use vlad_os.Memory.{X86, AddressLaws}
use vlad_os.Process.{Process}
use vlad_os.Process.Heap.{set_break}
use vlad_os.Process.Follows.{Follows-refl, put-Follows}
use vlad_os.Process.Lookup.{get-put}
use vlad_os.Syscall.{SysResult}
use vlad_os.Scheduler.Files.{or_refuse}
use vlad_os.Scheduler.{Kernel}
use vlad_os.Scheduler.Wired.{Wired, Steady, Steady-refl, Leaves}
use vlad_os.Scheduler.Wired.Current.{Runs, current_process}
use vlad_os.Scheduler.Brk.{sys_brk_current}
use vlad_os.Scheduler.Brk.Break.{Moves, sys_brk-Moves}

Moves-Steady :
    (k : Kernel) (pid : ℕ) (p : Process) (requested : ℕ)
    → Runs k pid p
    → (o : SysResult × Kernel) → Moves pid p requested k o
    → Steady k o.1
Moves-Steady k pid p requested runs (err e, k') (same, (tasks, current, files)) = record {
  same_tasks = tasks;
  same_current = current;
  follows = rw same (Follows-refl k.processes);
}
Moves-Steady k pid p requested (e, alive, fits) (ok brk, k')
      (moved, (end, valid, got), (tasks, current, files)) =
    let p' : Process = record p { heap = set_break p.heap brk end } in
    record {
      same_tasks = tasks;
      same_current = current;
      follows = λ j.
          let s = put-Follows k.processes pid p' p e (λ r. r) refl (λ f. (valid, f.1)) j in
          rw (got j) (rw (get-put k.processes pid j p' e) at s);
    }

-- In a wired kernel brk does not panic; it keeps tasks and current task, and processes stay.
pub sys_brk-Steady :
    (x : X86)
    → AddressLaws x
    → (requested : ℕ) (k : Kernel) → Wired k
    → Leaves (Steady k) (sys_brk_current x requested k)
unfolding sys_brk_current
sys_brk-Steady x laws requested k w = elim (current_process k w) [
  | inl n ↦ rw (n, sys_brk_current, or_refuse) (Steady-refl k)
  | inr (pid, p, c, runs) ↦
      Yields-map (Moves pid p requested k) _ (Moves-Steady k pid p requested runs)
        (sys_brk_current x requested k) (sys_brk-Moves x laws k pid p runs.2 runs.0 requested c)
]
