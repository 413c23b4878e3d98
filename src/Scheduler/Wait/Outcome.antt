-- ===== src/Scheduler/Wait/Outcome.antt =====
-- scheduler.rs: what waitpid answers, and what it leaves.
use vlad_os.Base.{
  ◌==◌, if◌then◌else◌, get_elem?, ok, err, and_then, ℕ, ◌≡◌, ◌≢◌, ◌⊎◌, true, false, not, ◌&&◌, ◌||◌,
  Option, none, some,
}
use vlad_os.Memory.{X86}
use vlad_os.Process.Status.{ProcessExit, running, zombie}
use vlad_os.Process.{state_of, is_child}
use vlad_os.Task.{child_exit, running, blocked, Task, process_id}
use vlad_os.Syscall.{SysError, raw_return, wnohang}
use vlad_os.Scheduler.{Kernel, K, Resume, resume, set_frame_rax, return_sys_error}
use vlad_os.Scheduler.Wired.{Wired}
use vlad_os.Scheduler.Wait.{wait_for, validate_status}
use vlad_os.Scheduler.Wait.Keeps.{Keeps}
use vlad_os.Scheduler.Wait.Ends.{Ends}

module _ (frame_rsp current parent child : ℕ) (status_ptr : Option ℕ) (options : ℕ)
    (k : Kernel) where
  -- The outcomes: an error with its cause, and nothing changed but rax of the caller's frame; the
  -- report that a child still runs; the caller blocked on a child that runs; or the end of the wait
  -- for a child that is a zombie.
  pub data Waits : Resume × Kernel → Type 0 where
    bad_options :
        options ≢ 0
        → options ≢ wnohang
        → Waits (resume frame_rsp, set_frame_rax frame_rsp (raw_return SysError.invalid) k)
    no_child :
        (child ≡ 0)
          ⊎ ((is_child k.processes parent child ≡ false) ⊎ (state_of k.processes child ≡ none))
        → Waits (resume frame_rsp, set_frame_rax frame_rsp (raw_return SysError.child) k)
    bad_pointer :
        (p : ℕ)
        → status_ptr ≡ some p
        → is_child k.processes parent child ≡ true
        → Waits (resume frame_rsp, set_frame_rax frame_rsp (raw_return SysError.fault) k)
    still_runs :
        options ≡ wnohang
        → is_child k.processes parent child ≡ true
        → state_of k.processes child ≡ some running
        → Waits (resume frame_rsp, set_frame_rax frame_rsp 0 k)
    blocks :
        options ≡ 0
        → is_child k.processes parent child ≡ true
        → state_of k.processes child ≡ some running
        → (waiting : Task) → waiting.state ≡ blocked (child_exit child status_ptr)
        → waiting.saved_rsp ≡ frame_rsp
        → (r : Resume) (k' : Kernel) → Keeps current waiting k k'
        → Waits (r, k')
    ends :
        (exit : ProcessExit)
        → is_child k.processes parent child ≡ true
        → state_of k.processes child ≡ some (zombie exit)
        → (k' : Kernel) → Ends frame_rsp parent child status_ptr exit k k'
        → Waits (resume frame_rsp, k')

module _ (x : X86) (frame_rsp child : ℕ) (status_ptr : Option ℕ) (options : ℕ) (k : Kernel) where
  -- What is left to do once the caller and its process are known.
  abbrev checks : ℕ → ℕ → K Resume
  checks current parent =
      if not (options == 0) && not (options == wnohang)
      then return_sys_error frame_rsp SysError.invalid k
      else if child == 0 || not (is_child k.processes parent child)
      then return_sys_error frame_rsp SysError.child k
      else (and_then (validate_status x parent status_ptr k) λ r. elim r [
        | err _ ↦ return_sys_error frame_rsp SysError.fault k
        | ok _ ↦ wait_for x frame_rsp current child status_ptr options k
      ])

  module _ (current parent : ℕ) (t : Task) (at : get_elem? k.tasks current ≡ some t)
      (of_parent : process_id t ≡ some parent) where
    abbrev Outcome : Resume × Kernel → Type 0
    Outcome = Waits frame_rsp current parent child status_ptr options k
