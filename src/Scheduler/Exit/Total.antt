-- ===== src/Scheduler/Exit/Total.antt =====
-- scheduler.rs: the end of a task and the wake-up of its parent do not panic in a wired kernel.
use vlad_os.Base.{
  ◌==◌, Bool-cases, Option-cases, get_elem?, position-some, and_then-Yields, Yields-map,
  Result-cases, ℕ, ◌<◌, ◌≡◌, refl, ap, ◌∙◌, inl, inr, true, Option, none, some, List, arith,
}
use vlad_os.Words.{lower_half}
use vlad_os.Memory.{X86, AddressLaws}
use vlad_os.UserMemory.{copy_to_user}
use vlad_os.UserMemory.Total.{copy_to_user-Returns}
use vlad_os.Process.Status.{ProcessExit, running, zombie, wait_status_bytes}
use vlad_os.Process.{
  Process, ProcessTable, address_space_of, state_of, reap_child, mark_exited, reap_orphan_if_zombie,
}
use vlad_os.Process
use vlad_os.Process.Lookup.{get-mark_exited}
use vlad_os.Process.Follows.{Follows, Follows-refl, reap_child-Follows, mark_exited-Follows}
use vlad_os.File.{OpenFileTable}
use vlad_os.Task.{
  child_exit, TaskState, ready, running, finished, failed, blocked, Task, process_id, is_terminal,
}
use vlad_os.Scheduler.{Kernel, set_saved_rax}
use vlad_os.Scheduler.Wired.{
  Backs, HeapsFit, PointerFits, Idle, Steady, Steady-refl, Steady-trans, Backs-Follows, heap-Fits,
  Idle-Steady, Idle-put_task, Leaves, >>>-Leaves, task_at-Leaves,
}
use vlad_os.Scheduler.Exit.{
  is_blocked, find_waiter, write_wait_status, reap_for_wait, deliver, complete_wait,
  wake_parent_waiting_for, waits_for, status_ptr_of,
}

-- What leaves the tasks, and only follows the processes.
pub same-Steady :
    (k k' : Kernel)
    → k'.tasks ≡ k.tasks
    → k'.current ≡ k.current
    → Follows k.processes k'.processes
    → Steady k k'
same-Steady k k' a b f = record { same_tasks = a; same_current = b; follows = f }

pub set_saved_rax-Steady :
    (index value : ℕ) (k : Kernel) {t : Task}
    → get_elem? k.tasks index ≡ some t
    → Leaves (Steady k) (set_saved_rax index value k)
set_saved_rax-Steady index value k e =
    task_at-Leaves (Steady k) k index _ e (same-Steady k _ refl refl (Follows-refl k.processes))

-- A pointer to where a status is wanted, if there is one.
abbrev pub OptionFits : Option ℕ → Type 0
OptionFits none = Unit
OptionFits (some pointer) = pointer < lower_half

status_ptr_of-OptionFits : (s : TaskState) → PointerFits s → OptionFits (status_ptr_of s)
status_ptr_of-OptionFits ready h = tt
status_ptr_of-OptionFits running h = tt
status_ptr_of-OptionFits finished h = tt
status_ptr_of-OptionFits failed h = tt
status_ptr_of-OptionFits (blocked (child_exit child none)) h = tt
status_ptr_of-OptionFits (blocked (child_exit child (some p))) h = h

module _ (x : X86) (laws : AddressLaws x) where
  reap_for_wait-Steady :
      (index parent child : ℕ) (k : Kernel) {t : Task}
      → get_elem? k.tasks index ≡ some t
      → Leaves (Steady k) (reap_for_wait x index parent child k)
  unfolding reap_for_wait
  reap_for_wait-Steady index parent child k e =
      let k' : Kernel = record k { processes = (reap_child k.processes parent child).1 } in
      let reaped : Steady k k' =
        same-Steady k k' refl refl (reap_child-Follows k.processes parent child) in
      elim (Result-cases (reap_child k.processes parent child).0) [
        | inl (exit, r) ↦
            rw (r, reap_for_wait)
              (Yields-map _ _ (λ o. Steady-trans reaped) (set_saved_rax index _ k')
                (set_saved_rax-Steady index _ k' e))
        | inr (error, r) ↦
            rw (r, reap_for_wait)
              (Yields-map _ _ (λ o. Steady-trans reaped) (set_saved_rax index _ k')
                (set_saved_rax-Steady index _ k' e))
      ]

  write_wait_status-Steady :
      (parent status_ptr : ℕ) (exit : ProcessExit) (k : Kernel)
      → status_ptr < lower_half
      → Leaves (Steady k) (write_wait_status x parent status_ptr exit k)
  unfolding write_wait_status
  write_wait_status-Steady parent status_ptr exit k low =
      elim (Option-cases (address_space_of k.processes parent)) [
        | inl n ↦ rw (n, write_wait_status) (Steady-refl k)
        | inr (space, e) ↦
            rw (e, write_wait_status)
              (and_then-Yields _ (copy_to_user x space status_ptr (wait_status_bytes exit) k.memory)
                _
                (copy_to_user-Returns x laws space status_ptr (wait_status_bytes exit) k.memory
                  (laws.low status_ptr low))
                (λ copied c. same-Steady k _ refl refl (Follows-refl k.processes)))
      ]

  deliver-Steady :
      (index parent child : ℕ) (status_ptr : Option ℕ) (exit : ProcessExit) (k : Kernel) {t : Task}
      → get_elem? k.tasks index ≡ some t
      → OptionFits status_ptr
      → Leaves (Steady k) (deliver x index parent child status_ptr exit k)
  unfolding deliver
  deliver-Steady index parent child none exit k e h = reap_for_wait-Steady index parent child k e
  deliver-Steady index parent child (some status_ptr) exit k e h =
      >>>-Leaves (Steady k) (Steady k) (write_wait_status x parent status_ptr exit k) _
        (write_wait_status-Steady parent status_ptr exit k h)
        λ r k' s.
          let at = ap (λ (ts : List Task). get_elem? ts index) s.same_tasks ∙ e in
          elim (Result-cases r) [
            | inl (u, o) ↦ rw o (
                Yields-map _ _ (λ q. Steady-trans s) (reap_for_wait x index parent child k')
                  (reap_for_wait-Steady index parent child k' at))
            | inr (u, o) ↦ rw o (
                Yields-map _ _ (λ q. Steady-trans s) (set_saved_rax index _ k')
                  (set_saved_rax-Steady index _ k' at))
          ]

  pub complete_wait-Steady :
      (index child : ℕ) (status_ptr : Option ℕ) (k : Kernel) {t : Task}
      → get_elem? k.tasks index ≡ some t
      → OptionFits status_ptr
      → Leaves (Steady k) (complete_wait x index child status_ptr k)
  unfolding complete_wait
  complete_wait-Steady index child status_ptr k {t} e h =
      task_at-Leaves (Steady k) k index _ e (elim (Option-cases (process_id t)) [
        | inl n ↦ rw n (set_saved_rax-Steady index _ k e)
        | inr (parent, at) ↦ rw at (elim (Option-cases (state_of k.processes child)) [
          | inl n ↦ rw n (set_saved_rax-Steady index _ k e)
          | inr (running, st) ↦ rw st (set_saved_rax-Steady index _ k e)
          | inr (zombie exit, st) ↦ rw st (deliver-Steady index parent child status_ptr exit k e h)
        ])
      ])

  -- The wake-up of a waiting task.
  pub wake_parent_waiting_for-Idle :
      (child : ℕ) (k : Kernel) → Idle k → Leaves Idle (wake_parent_waiting_for x child k)
  unfolding wake_parent_waiting_for find_waiter
  wake_parent_waiting_for-Idle child k i = elim (Option-cases (find_waiter child k.tasks)) [
    | inl n ↦ rw (n, wake_parent_waiting_for) i
    | inr (waiter, e) ↦
        let (lt, (w, at, waits)) = position-some (waits_for child) k.tasks waiter e in
        rw (e, wake_parent_waiting_for)
          (task_at-Leaves Idle k waiter _ at (
            >>>-Leaves (Steady k) Idle (complete_wait x waiter child (status_ptr_of w.state) k) _
              (complete_wait-Steady waiter child (status_ptr_of w.state) k at
                (status_ptr_of-OptionFits w.state (i.tied.pointers waiter w at)))
              λ _ k' s.
                let at' = ap (λ (ts : List Task). get_elem? ts waiter) s.same_tasks ∙ at in
                let i' = Idle-Steady s i in
                task_at-Leaves Idle k' waiter _ at' (elim (Bool-cases (is_blocked w.state)) [
                  | inr b ↦ rw b i'
                  | inl b ↦ rw b (
                      task_at-Leaves Idle k' waiter _ at' (
                        Idle-put_task k' waiter (record w { state = ready }) w at' refl
                          (λ l. ground (arith, b)) tt refl i'.tied
                          (λ j other ne o. i'.none_runs j other o)))
                ])))
  ]

-- In a slot that an exit leaves filled the heap is the one from before.
mark_exited-heap :
    (t : ProcessTable) (pid : ℕ) (exit : ProcessExit) (files : OpenFileTable) {p : Process}
    → Process.get t pid ≡ some p
    → HeapsFit t
    → HeapsFit (mark_exited t pid exit files).1
mark_exited-heap t pid exit files {p} e h j q at = elim (Bool-cases (pid == j)) [
  | inr n ↦
      heap-Fits t (mark_exited t pid exit files).1 j (mark_exited-Follows t pid exit files j e n) h
        at
  | inl y ↦
      let (worked, there, closed) = get-mark_exited t pid exit files j e in
      let same : q.heap ≡ p.heap = ground (arith, y, there, at) in rw same (h pid p e)
]

-- After the exit of the process whose task has ended, the other ones are linked as before.
pub mark_exited-Idle :
    (k : Kernel) (current pid : ℕ) (exit : ProcessExit) (task : Task)
    → get_elem? k.tasks current ≡ some task
    → is_terminal task.state ≡ true
    → Backs k.processes pid current
    → Idle k
    → let (r, processes, files) = mark_exited k.processes pid exit k.open_files in
      Idle (record k { processes = processes; open_files = files })
mark_exited-Idle k current pid exit task at ended (p, e, runs, main) i =
    let t' = (mark_exited k.processes pid exit k.open_files).1 in
    record {
      tied = record {
        linked = λ j other pid' o is live.
            let (p', e', runs', main') = i.tied.linked j other pid' o is live in
            Backs-Follows k.processes t' pid' j
              (mark_exited-Follows k.processes pid exit k.open_files pid' e
                (elim (Bool-cases (pid == pid')) [
                  | inr n ↦ n
                  | inl y ↦ absurd (ground (arith, y, e, e', main, main', at, o, ended, live))
                ]))
              (p', e', runs', main');
        heaps = mark_exited-heap k.processes pid exit k.open_files e i.tied.heaps;
        pointers = i.tied.pointers;
      };
      none_runs = i.none_runs;
    }
