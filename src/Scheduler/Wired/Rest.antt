-- ===== src/Scheduler/Wired/Rest.antt =====
-- scheduler.rs: when the kernel goes back to `run`.
use vlad_os.Base.{
  Option-cases, get_elem?, get_elem?_lt, done, panic, expect, and_then, Yields, ℕ, ◌≡◌, inl, inr,
  false, Option, none, some, arith,
}
use vlad_os.Task.{running, Task, is_ready, is_running}
use vlad_os.Scheduler.{Kernel, K, ◌>>>◌, Resume, resume, to_main, set_state}
use vlad_os.Scheduler.Schedule.{
  run_next_or_leave, run_next, leave, next_ready_after, switch_to_kernel_address_space,
  prepare_to_run,
}
use vlad_os.Scheduler.Schedule.Choice.{next_ready_after-none, next_ready_after-some}
use vlad_os.Scheduler.Wired.{Wired, Idle, Leaves}
use vlad_os.Scheduler.Wired.Switch.{load_level_4-Steady, run_next-Wired}

-- Back in `run`, each task has ended or is blocked.
abbrev pub Rests : Resume × Kernel → Type 0
Rests (resume rsp, k') = Unit
Rests (to_main, k') =
    (index : ℕ) (t : Task)
    → get_elem? k'.tasks index ≡ some t
    → (is_ready t.state ≡ false) × (is_running t.state ≡ false)

>>>-Rests :
    {A : Type 0} (m : K A) (f : A → Kernel → K Resume)
    → ((a : A) (k : Kernel) → Leaves Wired (f a k) → Yields Rests (f a k))
    → Leaves Wired (m >>> f)
    → Yields Rests (m >>> f)
>>>-Rests (done (a, k)) f g h = g a k h
>>>-Rests panic f g h = h

by_task :
    (k : Kernel) (next : ℕ) (o : Option Task)
    → Leaves Wired {A = Resume} (and_then (expect o) λ t. done (resume t.saved_rsp, k))
    → Yields Rests (and_then (expect o) λ t. done (resume t.saved_rsp, k))
by_task k next none h = h
by_task k next (some t) h = tt

-- Where no task runs, the handlers that leave the current task go back to `run` only if every task
-- has ended or is blocked; and they do not panic.
pub run_next_or_leave-Rests :
    (current : ℕ) (k : Kernel) {t : Task}
    → Idle k
    → get_elem? k.tasks current ≡ some t
    → Yields Rests (run_next_or_leave current k)
unfolding run_next_or_leave run_next leave switch_to_kernel_address_space
run_next_or_leave-Rests current k i at = elim (Option-cases (next_ready_after k.tasks current)) [
  | inl n ↦ rw (n, run_next_or_leave) (left n)
  | inr (next, e) ↦
      let (t, there, is) = next_ready_after-some k.tasks current e in
      rw (e, run_next_or_leave) (resumed next (run_next-Wired next k t there is i))
]
  where
    left : next_ready_after k.tasks current ≡ none → Yields Rests (leave k)
    left n = λ index t there.
        let s = load_level_4-Steady k.memory.kernel_level_4_frame (record k { current = none }) in
        let was : get_elem? k.tasks index ≡ some t = rw s.same_tasks at there in
        let none_ready =
          next_ready_after-none k.tasks current index (get_elem?_lt k.tasks current at) n in
        (ground (arith, none_ready, was), i.none_runs index t was)

    resumed : (next : ℕ) → Leaves Wired (run_next next k) → Yields Rests (run_next next k)
    resumed next h =
        >>>-Rests (set_state next running k) _
          (λ _ k₁.
            >>>-Rests (prepare_to_run next (record k₁ { current = some next })) _
              (λ _ k₂. by_task k₂ next (get_elem? k₂.tasks next)))
          h
