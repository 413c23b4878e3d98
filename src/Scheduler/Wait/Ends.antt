-- ===== src/Scheduler/Wait/Ends.antt =====
-- scheduler.rs: what the end of the wait for a zombie leaves.
use vlad_os.Base.{
  Option-cases, get_elem?, Result, ok, err, done, panic, ℕ, ◌≡◌, refl, sym, ap, ◌∙◌, subst, inl,
  inr, true, Option, none, some, arith,
}
use vlad_os.Memory.{X86}
use vlad_os.UserMemory.{UserMemoryError, copy_to_user}
use vlad_os.Process.Status.{ProcessExit, zombie, wait_status_bytes}
use vlad_os.Process.{Process, ProcessTable, state_of, is_child, address_space_of, reap_child}
use vlad_os.Process
use vlad_os.Process.Reap.{ReapOf, reap_child-ReapOf}
use vlad_os.Task.{TrapFrame, Task, process_id}
use vlad_os.Syscall.{SysError, raw_return}
use vlad_os.Scheduler.{Kernel, K, ◌>>>◌, set_saved_rax, set_frame_rax}
use vlad_os.Scheduler.Sound.{Ensures, and_then-Ensures, task_at-Ensures}
use vlad_os.Scheduler.Exit.{write_wait_status, reap_for_wait, deliver, complete_wait}

-- The frames, but for a value left in rax of one.
abbrev pub answered : ℕ → ℕ → Kernel → ℕ → TrapFrame
answered frame_rsp value k = (set_frame_rax frame_rsp value k).frames

-- What the end of the wait for a zombie leaves: the child is reaped, and its pid is the answer; or
-- its status could not be written, and it is not reaped.
pub data Ends (frame_rsp parent child : ℕ) (status_ptr : Option ℕ) (exit : ProcessExit) (k : Kernel)
    : Kernel → Type 0 where
  delivered :
      (k' : Kernel)
      → ReapOf k.processes parent child (ok exit, k'.processes)
      → k'.frames ≡ answered frame_rsp child k
      → Ends frame_rsp parent child status_ptr exit k k'
  not_written :
      (k' : Kernel) (p : ℕ)
      → status_ptr ≡ some p
      → k'.processes ≡ k.processes
      → k'.frames ≡ answered frame_rsp (raw_return SysError.fault) k
      → Ends frame_rsp parent child status_ptr exit k k'

chain-Ensures :
    {A B : Type 0} (P Q : Kernel → Type 0) (m : K A) (f : A → Kernel → K B)
    → Ensures P m
    → ((a : A) (k : Kernel) → P k → Ensures Q (f a k))
    → Ensures Q (m >>> f)
chain-Ensures P Q (done (a, k)) f h g = g a k h
chain-Ensures P Q panic f h g = tt

-- A zombie that is a child is reaped.
reap_child-zombie :
    (t : ProcessTable) (parent child : ℕ) (exit : ProcessExit)
    → is_child t parent child ≡ true
    → state_of t child ≡ some (zombie exit)
    → reap_child t parent child ≡ (ok exit, (reap_child t parent child).1)
unfolding reap_child state_of
reap_child-zombie t parent child exit h e = elim (Option-cases (Process.get t child)) [
  | inl n ↦ cc (rw n at e)
  | inr (p, f) ↦
      let state : p.state ≡ zombie exit = ground (arith, f, e) in
      rw (h, reap_child) (rw (f, reap_child) (rw state refl))
]

module _ (x : X86) (frame_rsp current parent child : ℕ) (status_ptr : Option ℕ) (exit : ProcessExit)
    (k : Kernel) (h : is_child k.processes parent child ≡ true)
    (z : state_of k.processes child ≡ some (zombie exit)) where
  -- A kernel in which the caller has its frame saved, and memory may have changed.
  abbrev Saved : Kernel → Type 0
  Saved k₁ =
      (k₁.processes ≡ k.processes)
      × (k₁.frames ≡ k.frames)
      × ((t : Task) × (get_elem? k₁.tasks current ≡ some t)
          × (t.saved_rsp ≡ frame_rsp)
          × (process_id t ≡ some parent))

  abbrev Ended : Kernel → Type 0
  Ended = Ends frame_rsp parent child status_ptr exit k

  set_saved_rax-frames :
      (value : ℕ) (k₁ : Kernel) (processes : ProcessTable)
      → Saved k₁
      → ((k' : Kernel)
          → k'.processes ≡ processes
          → k'.frames ≡ answered frame_rsp value k
          → Ended k')
      → Ensures Ended (set_saved_rax current value (record k₁ { processes = processes }))
  set_saved_rax-frames value k₁ processes (same, frames, (t, at, rsp, pid)) f =
      rw at (f _ refl (rw (rsp, frames) refl))

  reap_for_wait-Ends :
      (k₁ : Kernel) → Saved k₁ → Ensures Ended (reap_for_wait x current parent child k₁)
  unfolding reap_for_wait
  reap_for_wait-Ends k₁ s =
      let reaps = reap_child-zombie k₁.processes parent child exit (rw s.0 h) (rw s.0 z) in
      let after = (reap_child k₁.processes parent child).1 in
      let found : ReapOf k.processes parent child (ok exit, after) =
        subst (λ t. ReapOf t parent child (ok exit, after)) s.0
          (subst (ReapOf k₁.processes parent child) reaps
            (reap_child-ReapOf k₁.processes parent child)) in
      rw
        (
          ap (λ (o : Result Process.ProcessError ProcessExit × ProcessTable). o.0) reaps,
          reap_for_wait,
        )
        (set_saved_rax-frames child k₁ after s (λ k' same frames.
          delivered k' (subst (λ t. ReapOf k.processes parent child (ok exit, t)) (sym same) found)
            frames))

  deliver-Ends :
      (k₁ : Kernel) → Saved k₁ → Ensures Ended (deliver x current parent child status_ptr exit k₁)
  unfolding deliver write_wait_status
  deliver-Ends k₁ s = by_pointer status_ptr refl
    where
      written : (p : ℕ) → Ensures Saved (write_wait_status x parent p exit k₁)
      written p = elim (Option-cases (address_space_of k₁.processes parent)) [
        | inl n ↦ rw (n, write_wait_status) s
        | inr (space, e) ↦
            rw (e, write_wait_status)
              (and_then-Ensures Saved (copy_to_user x space p (wait_status_bytes exit) k₁.memory) _
                (λ copied c. s))
      ]

      delivered_or_not :
          (p : ℕ)
          → status_ptr ≡ some p
          → (r : Result UserMemoryError (Unit {0})) (k₂ : Kernel) → Saved k₂
          → Ensures Ended {A = Unit {0}} (elim r [
            | err _ ↦ set_saved_rax current (raw_return SysError.fault) k₂
            | ok _ ↦ reap_for_wait x current parent child k₂
          ])
      delivered_or_not p is (ok _) k₂ s₂ = reap_for_wait-Ends k₂ s₂
      delivered_or_not p is (err _) k₂ s₂ =
          set_saved_rax-frames _ k₂ k₂.processes s₂
            (λ k' same frames. not_written k' p is (same ∙ s₂.0) frames)

      by_pointer :
          (o : Option ℕ) → status_ptr ≡ o → Ensures Ended (deliver x current parent child o exit k₁)
      by_pointer none is = reap_for_wait-Ends k₁ s
      by_pointer (some p) is =
          chain-Ensures Saved Ended (write_wait_status x parent p exit k₁) _ (written p)
            (delivered_or_not p is)

  pub complete_wait-Ends :
      (k₁ : Kernel) → Saved k₁ → Ensures Ended (complete_wait x current child status_ptr k₁)
  unfolding complete_wait
  complete_wait-Ends k₁ s =
      let (same, frames, (t, at, rsp, pid)) = s in
      task_at-Ensures Ended k₁ current _ λ u e.
        let of_parent : process_id u ≡ some parent = ground (arith, e, at, pid) in
        rw of_parent
          (rw (ap (λ (ps : ProcessTable). state_of ps child) same ∙ z) (deliver-Ends k₁ s))
