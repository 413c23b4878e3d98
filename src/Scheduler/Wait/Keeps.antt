-- ===== src/Scheduler/Wait/Keeps.antt =====
-- scheduler.rs: the choice of another task leaves one alone that is not ready.
use vlad_os.Base.{
  ◌==◌, Bool-cases, Option-cases, get_elem?, get_elem?-set_at, expect, ℕ, ◌≡◌, ◌∙◌, inl, inr, false,
  none, some, arith,
}
use vlad_os.Process.{address_space_of}
use vlad_os.Task.{running, Task, process_id, is_ready}
use vlad_os.Scheduler.{Kernel, set_state}
use vlad_os.Scheduler.Schedule.{
  next_ready_after, load_level_4, switch_to_kernel_address_space, switch_to_task_address_space,
  prepare_to_run, run_next, leave, run_next_or_leave,
}
use vlad_os.Scheduler.Schedule.Choice.{next_ready_after-some}
use vlad_os.Scheduler.Sound.{Ensures, >>>-Ensures, and_then-Ensures, task_at-Ensures}

-- The task as it was set, the process table and the frames.
abbrev pub Keeps : ℕ → Task → Kernel → Kernel → Type 0
Keeps current t k k' =
    (get_elem? k'.tasks current ≡ some t) × (k'.processes ≡ k.processes) × (k'.frames ≡ k.frames)

module _ (current : ℕ) (t : Task) (k₀ : Kernel) where
  load_level_4-Keeps :
      (frame : ℕ) (k : Kernel) → Keeps current t k₀ k → Keeps current t k₀ (load_level_4 frame k)
  unfolding load_level_4
  load_level_4-Keeps frame k s = elim (Option-cases k.current_level_4_frame) [
    | inl n ↦ rw (n, load_level_4) s
    | inr (loaded, e) ↦
        rw (e, load_level_4)
          (elim (Bool-cases (loaded == frame)) [ inl b ↦ rw b s | inr b ↦ rw b s ])
  ]

  switch_to_task_address_space-Keeps :
      (index : ℕ) (k : Kernel)
      → Keeps current t k₀ k
      → Ensures (Keeps current t k₀) (switch_to_task_address_space index k)
  unfolding switch_to_task_address_space
  switch_to_task_address_space-Keeps index k s =
      task_at-Ensures (Keeps current t k₀) k index _ λ u e. elim (Option-cases (process_id u)) [
        | inl n ↦ rw n (load_level_4-Keeps k.memory.kernel_level_4_frame k s)
        | inr (pid, at) ↦ rw at (
            and_then-Ensures (Keeps current t k₀) (expect (address_space_of k.processes pid)) _
              (λ space found. load_level_4-Keeps space.level_4_frame k s))
      ]

  run_next-Keeps :
      (next : ℕ) (k : Kernel)
      → (next == current) ≡ false
      → Keeps current t k₀ k
      → Ensures (Keeps current t k₀) (run_next next k)
  unfolding run_next prepare_to_run
  run_next-Keeps next k other s =
      >>>-Ensures (Keeps current t k₀) (set_state next running k) _
        (task_at-Ensures (Keeps current t k₀) k next _ (λ u e. (
          get_elem?-set_at k.tasks next current (record u { state = running }) e ∙ rw other s.0,
          s.1,
          s.2,
        )))
        λ _ k₁ s₁.
          >>>-Ensures (Keeps current t k₀) (prepare_to_run next (record k₁ { current = some next }))
            _
            (task_at-Ensures (Keeps current t k₀) k₁ next _ (λ u e.
              switch_to_task_address_space-Keeps next
                (record k₁ { current = some next; kernel_stack = u.kernel_stack_top }) s₁))
            λ _ k₂ s₂. task_at-Ensures (Keeps current t k₀) k₂ next _ (λ u e. s₂)

  pub run_next_or_leave-Keeps :
      (k : Kernel)
      → is_ready t.state ≡ false
      → Keeps current t k₀ k
      → Ensures (Keeps current t k₀) (run_next_or_leave current k)
  unfolding run_next_or_leave leave switch_to_kernel_address_space
  run_next_or_leave-Keeps k idle s = elim (Option-cases (next_ready_after k.tasks current)) [
    | inl n ↦
        rw (n, run_next_or_leave)
          (load_level_4-Keeps k.memory.kernel_level_4_frame (record k { current = none }) s)
    | inr (next, e) ↦
        let (u, there, is) = next_ready_after-some k.tasks current e in
        let other : (next == current) ≡ false = elim (Bool-cases (next == current)) [
          | inl y ↦ ground (arith, y, there, is, idle, s.0)
          | inr y ↦ y
        ] in
        rw (e, run_next_or_leave) (run_next-Keeps next k other s)
  ]
