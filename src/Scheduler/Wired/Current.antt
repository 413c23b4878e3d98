-- ===== src/Scheduler/Wired/Current.antt =====
-- scheduler.rs: the process of the current task in a wired kernel.
use vlad_os.Base.{Option-cases, done, ℕ, ◌≡◌, refl, ◌⊎◌, inl, inr, false, Option, none, some, arith}
use vlad_os.Process.{Process}
use vlad_os.Process
use vlad_os.Process.Status.{is_zombie}
use vlad_os.Process.Heap.{Fits}
use vlad_os.Task.{process_id}
use vlad_os.Syscall.{SysError, SysResult}
use vlad_os.Scheduler.{Kernel, K, current_process_id}
use vlad_os.Scheduler.Wired.{Wired, Leaves}
use vlad_os.Scheduler.Files.{with_pid, or_refuse}

-- A running process with a fit heap.
abbrev pub Runs : Kernel → ℕ → Process → Type 0
Runs k pid p = (Process.get k.processes pid ≡ some p) × (is_zombie p.state ≡ false) × Fits p.heap

-- There is no current process, or it runs.
pub current_process :
    (k : Kernel)
    → Wired k
    → (current_process_id k ≡ done none)
      ⊎ ((pid : ℕ) × (p : Process) × (current_process_id k ≡ done (some pid)) × Runs k pid p)
unfolding current_process_id
current_process k w = elim (Option-cases k.current) [
  | inl n ↦ inl (rw (current_process_id, n) refl)
  | inr (current, c) ↦
      let (t, at, runs) = w.current_runs current c in
      elim (Option-cases (process_id t)) [
        | inl n ↦ inl (rw (current_process_id, c, at, n) refl)
        | inr (pid, is) ↦
            let (p, e, alive, main) = w.tied.linked current t pid at is (ground (arith, runs)) in
            inr (pid, p, rw (current_process_id, c, at, is) refl, (e, alive, w.tied.heaps pid p e))
      ]
]

module _ (P : Kernel → Type 0) (k : Kernel) (holds : P k) where
  pub or_refuse-Leaves {ℓ} :
      {A : Type ℓ} (o : Option A) (e : SysError) (f : A → K SysResult)
      → ((a : A) → o ≡ some a → Leaves P (f a))
      → Leaves P (or_refuse o e k f)
  or_refuse-Leaves none e f h = holds
  or_refuse-Leaves (some a) e f h = h a refl

  pub with_pid-Leaves :
      (e : SysError) (f : ℕ → K SysResult)
      → Wired k
      → ((pid : ℕ) (p : Process) → Runs k pid p → Leaves P (f pid))
      → Leaves P (with_pid e k f)
  with_pid-Leaves e f w h = elim (current_process k w) [
    | inl n ↦ rw (n, or_refuse) holds
    | inr (pid, p, c, runs) ↦ rw (c, or_refuse) (h pid p runs)
  ]
