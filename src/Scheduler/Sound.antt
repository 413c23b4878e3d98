-- ===== src/Scheduler/Sound.antt =====
-- The invariant that ties the process table to the table of open files, and how the steps of
-- scheduler.rs that only move tasks keep it.
use vlad_os.Base.{
  ◌==◌, Bool-cases, Option-cases, get_elem?, is_some, Exec, done, panic, expect, and_then, ℕ, ◌≡◌,
  refl, inl, inr, ◌&&◌, Option, none, some,
}
use vlad_os.File.{OpenFileTable}
use vlad_os.File.Refs.{refs}
use vlad_os.Process.{ProcessTable, address_space_of}
use vlad_os.Process.Valid.{Valid}
use vlad_os.Process.Holds.{table_holds}
use vlad_os.Task.{TaskState, ready, running, finished, Task, process_id, is_running}
use vlad_os.Scheduler.{Kernel, K, ◌>>>◌, Resume, resume, task_at, set_state}
use vlad_os.Scheduler.Schedule.{
  next_ready_after, first_ready, load_level_4, switch_to_kernel_address_space,
  switch_to_task_address_space, prepare_to_run, run_next, leave, run_next_or_leave,
  save_current_frame, switch_from_interrupt, on_timer_interrupt, run, finish_current_task,
}

-- Each open file has as many references as descriptors of processes refer to it.
pub record Accounted (t : ProcessTable) (files : OpenFileTable) : Type 0 where
  pub valid : Valid t
  pub balanced : (j : ℕ) → refs files j ≡ table_holds t j

abbrev pub Sound : Kernel → Type 0
Sound k = Accounted k.processes k.open_files

-- What a handler leaves, if it does not panic.
abbrev pub Ensures {ℓ} : (Kernel → Type ℓ) → {A : Type 0} → K A → Type ℓ
Ensures P (done (a, k)) = P k
Ensures P panic = Unit

module _ (P : Kernel → Type 0) {A B : Type 0} where
  pub >>>-Ensures :
      (m : K A) (f : A → Kernel → K B)
      → Ensures P m
      → ((a : A) (k : Kernel) → P k → Ensures P (f a k))
      → Ensures P (m >>> f)
  >>>-Ensures (done (a, k)) f h g = g a k h
  >>>-Ensures panic f h g = tt

  pub and_then-Ensures :
      (m : Exec A) (f : A → K B)
      → ((a : A) → m ≡ done a → Ensures P (f a))
      → Ensures P (and_then m f)
  and_then-Ensures (done a) f g = g a refl
  and_then-Ensures panic f g = tt

module _ (P : Kernel → Type 0) {B : Type 0} where
  pub task_at-Ensures :
      (k : Kernel) (index : ℕ) (f : Task → K B)
      → ((t : Task) → get_elem? k.tasks index ≡ some t → Ensures P (f t))
      → Ensures P (task_at k index f)
  task_at-Ensures k index f g = elim (Option-cases (get_elem? k.tasks index)) [
    | inl n ↦ rw n tt
    | inr (t, e) ↦ rw e (g t e)
  ]

-- `Sound` reads neither tasks, frames nor the CPU's registers.
load_level_4-Sound : (frame : ℕ) (k : Kernel) → Sound k → Sound (load_level_4 frame k)
unfolding load_level_4
load_level_4-Sound frame k s = elim (Option-cases k.current_level_4_frame) [
  | inl n ↦ rw (n, load_level_4) s
  | inr (loaded, e) ↦
      rw (e, load_level_4) (elim (Bool-cases (loaded == frame)) [ inl b ↦ rw b s | inr b ↦ rw b s ])
]

set_state-Sound :
    (index : ℕ) (state : TaskState) (k : Kernel) → Sound k → Ensures Sound (set_state index state k)
set_state-Sound index state k s = task_at-Ensures Sound k index _ (λ t e. s)

switch_to_task_address_space-Sound :
    (index : ℕ) (k : Kernel) → Sound k → Ensures Sound (switch_to_task_address_space index k)
unfolding switch_to_task_address_space
switch_to_task_address_space-Sound index k s = task_at-Ensures Sound k index _ λ t e.
    elim (Option-cases (process_id t)) [
      | inl n ↦ rw n (load_level_4-Sound k.memory.kernel_level_4_frame k s)
      | inr (pid, at) ↦ rw at (
          and_then-Ensures Sound (expect (address_space_of k.processes pid)) _
            (λ space found. load_level_4-Sound space.level_4_frame k s))
    ]

run_next-Sound : (next : ℕ) (k : Kernel) → Sound k → Ensures Sound (run_next next k)
unfolding run_next prepare_to_run
run_next-Sound next k s =
    >>>-Ensures Sound (set_state next running k) _ (set_state-Sound next running k s) λ _ k₁ s₁.
      >>>-Ensures Sound (prepare_to_run next (record k₁ { current = some next })) _
        (task_at-Ensures Sound k₁ next _ (λ t e.
          switch_to_task_address_space-Sound next
            (record k₁ { current = some next; kernel_stack = t.kernel_stack_top }) s₁))
        λ _ k₂ s₂. task_at-Ensures Sound k₂ next _ (λ t e. s₂)

pub run_next_or_leave-Sound :
    (current : ℕ) (k : Kernel) → Sound k → Ensures Sound (run_next_or_leave current k)
unfolding run_next_or_leave leave switch_to_kernel_address_space
run_next_or_leave-Sound current k s = elim (Option-cases (next_ready_after k.tasks current)) [
  | inl n ↦
      rw (n, run_next_or_leave)
        (load_level_4-Sound k.memory.kernel_level_4_frame (record k { current = none }) s)
  | inr (next, e) ↦ rw (e, run_next_or_leave) (run_next-Sound next k s)
]

save_current_frame-Sound :
    (frame_rsp : ℕ) (k : Kernel) → Sound k → Ensures Sound (save_current_frame frame_rsp k)
unfolding save_current_frame
save_current_frame-Sound frame_rsp k s = elim (Option-cases k.current) [
  | inl n ↦ rw (n, save_current_frame) s
  | inr (current, e) ↦
      rw (e, save_current_frame)
        (task_at-Ensures Sound k current _
          (λ t at. elim (Bool-cases (is_running t.state)) [ inl b ↦ rw b s | inr b ↦ rw b s ]))
]

-- Where each open file has as many references as descriptors of processes refer to it, a switch of
-- tasks that does not panic leaves a kernel with such references.
pub switch_from_interrupt-Sound :
    (frame_rsp : ℕ) (k : Kernel) → Sound k → Ensures Sound (switch_from_interrupt frame_rsp k)
unfolding switch_from_interrupt
switch_from_interrupt-Sound frame_rsp k s =
    >>>-Ensures Sound (save_current_frame frame_rsp k) _ (save_current_frame-Sound frame_rsp k s)
      λ saved k₁ s₁. after saved k₁ s₁
  where
    after :
        (saved : Option ℕ) (k₁ : Kernel)
        → Sound k₁
        → Ensures Sound {A = Resume} (elim saved [
          | none ↦ done (resume frame_rsp, k₁)
          | some current ↦ elim (next_ready_after k₁.tasks current) [
            | none ↦ done (resume frame_rsp, k₁)
            | some next ↦ set_state current ready k₁ >>> λ _ k₂. run_next next k₂
          ]
        ])
    after none k₁ s₁ = s₁
    after (some current) k₁ s₁ = elim (Option-cases (next_ready_after k₁.tasks current)) [
      | inl n ↦ rw n s₁
      | inr (next, e) ↦ rw e (
          >>>-Ensures Sound (set_state current ready k₁) _ (set_state-Sound current ready k₁ s₁)
            (λ _ k₂ s₂. run_next-Sound next k₂ s₂))
    ]

pub on_timer_interrupt-Sound :
    (frame_rsp : ℕ) (k : Kernel) → Sound k → Ensures Sound (on_timer_interrupt frame_rsp k)
unfolding on_timer_interrupt
on_timer_interrupt-Sound frame_rsp k s =
    elim (Bool-cases (k.preemption_enabled && is_some k.current)) [
      | inl b ↦ rw (b, on_timer_interrupt) (switch_from_interrupt-Sound frame_rsp k s)
      | inr b ↦ rw (b, on_timer_interrupt) s
    ]

pub finish_current_task-Sound : (k : Kernel) → Sound k → Ensures Sound (finish_current_task k)
unfolding finish_current_task
finish_current_task-Sound k s = and_then-Ensures Sound (expect k.current) _ λ current e.
    >>>-Ensures Sound (set_state current finished k) _ (set_state-Sound current finished k s)
      λ _ k₁ s₁. run_next_or_leave-Sound current k₁ s₁

pub run-Sound : (saved : ℕ) (k : Kernel) → Sound k → Ensures Sound (run saved k)
unfolding run prepare_to_run
run-Sound saved k s = elim (Option-cases (first_ready k.tasks)) [
  | inl n ↦ rw (n, run) s
  | inr (next, e) ↦
      rw (e, run)
        (>>>-Ensures Sound (set_state next running (record k { current = some next })) _
          (set_state-Sound next running (record k { current = some next }) s)
          λ _ k₁ s₁.
            >>>-Ensures Sound
              (prepare_to_run next (record k₁ { current_level_4_frame = some k₁.cr3 })) _
              (task_at-Ensures Sound (record k₁ { current_level_4_frame = some k₁.cr3 }) next _
                (λ t at.
                  switch_to_task_address_space-Sound next
                    (record k₁ {
                      current_level_4_frame = some k₁.cr3;
                      kernel_stack = t.kernel_stack_top;
                    })
                    s₁))
              λ _ k₂ s₂. task_at-Ensures Sound k₂ next _ (λ t at. s₂))
]
