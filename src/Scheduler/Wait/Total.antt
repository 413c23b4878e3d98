-- ===== src/Scheduler/Wait/Total.antt =====
-- scheduler.rs: waitpid does not panic in a wired kernel, and leaves one.
use vlad_os.Base.{
  ◌==◌, if◌then◌else◌, ==_self, Bool-cases, Option-cases, get_elem?, get_elem?-set_at, ok, err,
  done, and_then, Returns, and_then-Yields, Result-cases, ℕ, ◌≡◌, refl, ap, ◌∙◌, inl, inr, true,
  not, ◌&&◌, ◌||◌, Option, none, some, arith,
}
use vlad_os.Memory.{X86, AddressLaws}
use vlad_os.UserMemory.{
  UserMemoryError, validate_user_write_range, validate_user_range, user_stack_top,
}
use vlad_os.UserMemory
use vlad_os.UserMemory.Total.{validate_user_range-Returns}
use vlad_os.Process.Status.{running, zombie, wait_status_size}
use vlad_os.Process.{state_of, is_child, address_space_of}
use vlad_os.Process.Follows.{Follows-refl}
use vlad_os.Task.{child_exit, running, blocked, TrapFrame, Task, process_id, is_running}
use vlad_os.Syscall.{SysError, wnohang}
use vlad_os.Scheduler.{
  Kernel, Resume, task_at, put_task, put_frame, set_saved_rsp, return_sys_error,
}
use vlad_os.Scheduler.Wired.{
  PointerFits, Wired, Steady, Wired-Steady, Wired-put_task, Leaves, >>>-Leaves, task_at-Leaves,
}
use vlad_os.Scheduler.Wired.Switch.{run_next_or_leave-Wired, set_aside-Idle}
use vlad_os.Scheduler.Exit.{complete_wait}
use vlad_os.Scheduler.Exit.Total.{same-Steady, OptionFits, complete_wait-Steady}
use vlad_os.Scheduler.Wait.{
  validate_wait_status_target, block_on_child, wait_for, waitpid_from_interrupt, validate_status,
}

put_frame-Wired : (at : ℕ) (frame : TrapFrame) (k : Kernel) → Wired k → Wired (put_frame k at frame)
put_frame-Wired at frame k w =
    Wired-Steady (same-Steady k (put_frame k at frame) refl refl (Follows-refl k.processes)) w

-- A pointer that the check lets pass lies in the lower half.
validate_status-OptionFits :
    (x : X86) (parent : ℕ) (status_ptr : Option ℕ) (k : Kernel)
    → validate_status x parent status_ptr k ≡ done (ok tt)
    → OptionFits status_ptr
validate_status-OptionFits x parent none k h = tt
validate_status-OptionFits x parent (some p) k h =
    unfold validate_wait_status_target validate_user_range in ground (arith, h)

module _ (x : X86) (laws : AddressLaws x) where
  validate_status-Returns :
      (parent : ℕ) (status_ptr : Option ℕ) (k : Kernel)
      → Returns (validate_status x parent status_ptr k)
  unfolding validate_wait_status_target
  validate_status-Returns parent none k = tt
  validate_status-Returns parent (some p) k =
      elim (Option-cases (address_space_of k.processes parent)) [
        | inl n ↦ rw (n, validate_wait_status_target) tt
        | inr (space, e) ↦
            rw (e, validate_wait_status_target)
              (validate_user_range-Returns x laws k.memory space p wait_status_size
                UserMemory.write)
      ]

  module _ (frame_rsp child options current : ℕ) (status_ptr : Option ℕ) (k : Kernel) (t : Task)
      (c : k.current ≡ some current) (at : get_elem? k.tasks current ≡ some t)
      (runs : is_running t.state ≡ true) (w : Wired k) (fits : OptionFits status_ptr) where
    block_on_child-Wired :
        Leaves Wired (block_on_child x frame_rsp current child status_ptr options k)
    unfolding block_on_child
    block_on_child-Wired = elim (Bool-cases (options == wnohang)) [
      | inl b ↦ rw (b, block_on_child) (put_frame-Wired _ _ k w)
      | inr b ↦
          let waiting : Task = record t {
            saved_rsp = frame_rsp;
            state = blocked (child_exit child status_ptr);
          } in
          rw (b, block_on_child)
            (task_at-Leaves Wired k current _ at (
              run_next_or_leave-Wired current (put_task k current waiting) (
                set_aside-Idle k current waiting t at refl runs (pointer_fits status_ptr fits) refl
                  w c)))
    ]
      where
        pointer_fits : (o : Option ℕ) → OptionFits o → PointerFits (blocked (child_exit child o))
        pointer_fits none h = tt
        pointer_fits (some p) h = h

    wait_for-Wired : Leaves Wired (wait_for x frame_rsp current child status_ptr options k)
    unfolding wait_for
    wait_for-Wired = elim (Option-cases (state_of k.processes child)) [
      | inl n ↦ rw (n, wait_for) (put_frame-Wired _ _ k w)
      | inr (running, e) ↦ rw (e, wait_for) block_on_child-Wired
      | inr (zombie exit, e) ↦
          let t₁ : Task = record t { saved_rsp = frame_rsp } in
          let k₁ = put_task k current t₁ in
          let at₁ : get_elem? k₁.tasks current ≡ some t₁ =
            get_elem?-set_at k.tasks current current t₁ at ∙ rw (==_self current) refl in
          rw (e, wait_for)
            (>>>-Leaves HasCurrent Wired (set_saved_rsp current frame_rsp k) _
              (task_at-Leaves HasCurrent k current _ at
                (Wired-put_task k current t₁ t at refl refl w, (t₁, at₁)))
              λ _ k' (w', (t', at')).
                >>>-Leaves (Steady k') Wired (complete_wait x current child status_ptr k') _
                  (complete_wait-Steady x laws current child status_ptr k' at' fits)
                  (λ _ k₂ s. Wired-Steady s w'))
    ]
      where
        HasCurrent : Kernel → Type 0
        HasCurrent k' = Wired k' × ((t' : Task) × (get_elem? k'.tasks current ≡ some t'))

  -- In a wired kernel waitpid does not panic, and leaves a wired kernel.
  pub waitpid-Wired :
      (frame_rsp child : ℕ) (status_ptr : Option ℕ) (options : ℕ) (k : Kernel)
      → Wired k
      → Leaves Wired (waitpid_from_interrupt x frame_rsp child status_ptr options k)
  unfolding waitpid_from_interrupt
  waitpid-Wired frame_rsp child status_ptr options k w = elim (Option-cases k.current) [
    | inl n ↦ rw (n, waitpid_from_interrupt) (put_frame-Wired _ _ k w)
    | inr (current, c) ↦
        let (t, at, runs) = w.current_runs current c in
        rw (waitpid_from_interrupt, c) (with_task current t c at runs)
  ]
    where
      with_parent :
          (current parent : ℕ) (t : Task)
          → k.current ≡ some current
          → get_elem? k.tasks current ≡ some t
          → is_running t.state ≡ true
          → Leaves Wired {A = Resume} (
              if not (options == 0) && not (options == wnohang)
              then return_sys_error frame_rsp SysError.invalid k
              else if child == 0 || not (is_child k.processes parent child)
              then return_sys_error frame_rsp SysError.child k
              else (and_then (validate_status x parent status_ptr k) λ r. elim r [
                | err _ ↦ return_sys_error frame_rsp SysError.fault k
                | ok _ ↦ wait_for x frame_rsp current child status_ptr options k
              ]))
      with_parent current parent t c at runs =
          elim (Bool-cases (not (options == 0) && not (options == wnohang))) [
            | inl b ↦ rw b (put_frame-Wired _ _ k w)
            | inr b ↦
                rw b (elim (Bool-cases (child == 0 || not (is_child k.processes parent child))) [
                  | inl d ↦ rw d (put_frame-Wired _ _ k w)
                  | inr d ↦ rw d (
                      and_then-Yields _ (validate_status x parent status_ptr k) _
                        (validate_status-Returns parent status_ptr k)
                        λ r v. elim (Result-cases r) [
                          | inr (u, e) ↦ rw e (put_frame-Wired _ _ k w)
                          | inl (u, e) ↦ rw e (
                              wait_for-Wired frame_rsp child options current status_ptr k t c at
                                runs w
                                (validate_status-OptionFits x parent status_ptr k (v ∙ ap done e)))
                        ])
                ])
          ]

      with_task :
          (current : ℕ) (t : Task)
          → k.current ≡ some current
          → get_elem? k.tasks current ≡ some t
          → is_running t.state ≡ true
          → Leaves Wired {A = Resume} (
              task_at k current λ t. elim (process_id t) [
                | none ↦ return_sys_error frame_rsp SysError.child k
                | some parent ↦
                    if not (options == 0) && not (options == wnohang)
                    then return_sys_error frame_rsp SysError.invalid k
                    else if child == 0 || not (is_child k.processes parent child)
                    then return_sys_error frame_rsp SysError.child k
                    else (and_then (validate_status x parent status_ptr k) λ r. elim r [
                      | err _ ↦ return_sys_error frame_rsp SysError.fault k
                      | ok _ ↦ wait_for x frame_rsp current child status_ptr options k
                    ])
              ])
      with_task current t c at runs =
          task_at-Leaves Wired k current _ at (elim (Option-cases (process_id t)) [
            | inl n ↦ rw n (put_frame-Wired _ _ k w)
            | inr (parent, i) ↦ rw i (with_parent current parent t c at runs)
          ])
