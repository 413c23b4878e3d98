-- ===== src/Scheduler/Queries/Answers.antt =====
-- scheduler.rs: what the kernel tells of tasks that have ended.
use vlad_os.Base.{
  ◌==◌, Bool-cases, length, is_empty, count_if, count_if-le-length, ◌+◌, ◌≡◌, refl, ap, inl, inr,
  Bool, true, false, not, ◌&&◌, List, [], ◌∷◌, arith,
}
use vlad_os.Task.{
  TaskState, ready, running, finished, failed, blocked, Task, is_finished, is_failed, is_terminal,
}
use vlad_os.Scheduler.{Kernel}
use vlad_os.Scheduler.Schedule.{terminal_count, finished_count, failed_count, all_tasks_finished}
use vlad_os.Scheduler.Queries.{finished_task_count, failed_task_count, every_task_finished}

-- Each task has ended.
abbrev pub all_ended : List Task → Bool
all_ended [] = true
all_ended (t ∷ ts) = is_terminal t.state && all_ended ts

count_all :
    (ts : List Task) → (count_if (λ (t : Task). is_terminal t.state) ts == length ts) ≡ all_ended ts
count_all [] = refl
count_all (t ∷ ts) = elim (Bool-cases (is_terminal t.state)) [
  | inl y ↦ ground (arith, y, count_all ts)
  | inr n ↦ ground (arith, n, count_if-le-length (λ (t : Task). is_terminal t.state) ts)
]

-- A finished task has not failed.
not_both : (s : TaskState) → (is_finished s && is_failed s) ≡ false
not_both ready = refl
not_both running = refl
not_both finished = refl
not_both failed = refl
not_both (blocked r) = refl

counts_add : (ts : List Task) → terminal_count ts ≡ finished_count ts + failed_count ts
unfolding terminal_count finished_count failed_count
counts_add [] = refl
counts_add (t ∷ ts) = ground (arith, not_both t.state, counts_add ts)

-- All tasks count as finished exactly where there is a task and each one has ended; the tasks that
-- have ended are the finished and the failed ones.
pub every_task_finished_lem :
    (k : Kernel)
    → (every_task_finished k ≡ (not (is_empty k.tasks) && all_ended k.tasks))
      × (terminal_count k.tasks ≡ finished_task_count k + failed_task_count k)
unfolding every_task_finished all_tasks_finished terminal_count finished_task_count
    failed_task_count
every_task_finished_lem k =
    (ap (λ b. not (is_empty k.tasks) && b) (count_all k.tasks), counts_add k.tasks)
