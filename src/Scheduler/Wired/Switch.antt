-- ===== src/Scheduler/Wired/Switch.antt =====
-- scheduler.rs: the switches of tasks do not panic in a wired kernel, and leave one.
use vlad_os.Base.{
  ◌==◌, if◌then◌else◌, ==_self, Bool-cases, Option-cases, get_elem?, is_some, get_elem?-set_at,
  position-some, done, expect, and_then, Yields-done, Yields-map, ℕ, ◌≡◌, refl, ap, ◌∙◌, inl, inr,
  true, false, ◌&&◌, Option, none, some, List, arith,
}
use vlad_os.Process.{address_space_of}
use vlad_os.Process.Follows.{Follows-refl}
use vlad_os.Task.{ready, running, finished, Task, process_id, is_ready, is_running, is_terminal}
use vlad_os.Scheduler.{Kernel, ◌>>>◌, Resume, resume, put_task, set_state}
use vlad_os.Scheduler.Schedule.{
  next_ready_after, first_ready, load_level_4, switch_to_kernel_address_space,
  switch_to_task_address_space, prepare_to_run, run_next, leave, run_next_or_leave,
  save_current_frame, switch_from_interrupt, on_timer_interrupt, run, finish_current_task,
}
use vlad_os.Scheduler.Schedule.Choice.{next_ready_after-some}
use vlad_os.Scheduler.Wired.{
  Backs, PointerFits, Tied, Wired, Idle, Steady, Steady-refl, Steady-trans, Wired-Steady,
  Tied-put_task, Wired-put_task, Idle-put_task, others_stopped, Leaves, >>>-Leaves, task_at-Leaves,
}

reloaded :
    (frame : ℕ) (k : Kernel)
    → Steady k (record k { cr3 = frame; current_level_4_frame = some frame })
reloaded frame k = record {
  same_tasks = refl;
  same_current = refl;
  follows = Follows-refl k.processes;
}

loaded-Steady :
    (frame : ℕ) (k : Kernel) (o : Option ℕ)
    → Steady k (elim o [
      | none ↦ record k { cr3 = frame; current_level_4_frame = some frame }
      | some loaded ↦
          if loaded == frame
          then k
          else record k { cr3 = frame; current_level_4_frame = some frame }
    ])
loaded-Steady frame k none = reloaded frame k
loaded-Steady frame k (some loaded) = elim (Bool-cases (loaded == frame)) [
  | inl b ↦ rw b (Steady-refl k)
  | inr b ↦ rw b (reloaded frame k)
]

pub load_level_4-Steady : (frame : ℕ) (k : Kernel) → Steady k (load_level_4 frame k)
unfolding load_level_4
load_level_4-Steady frame k = loaded-Steady frame k k.current_level_4_frame

switch_to_task_address_space-Steady :
    (index : ℕ) (k : Kernel) (t : Task)
    → get_elem? k.tasks index ≡ some t
    → is_terminal t.state ≡ false
    → Tied k
    → Leaves (Steady k) (switch_to_task_address_space index k)
unfolding switch_to_task_address_space
switch_to_task_address_space-Steady index k t e live tied =
    task_at-Leaves (Steady k) k index _ e (elim (Option-cases (process_id t)) [
      | inl n ↦ rw n (load_level_4-Steady k.memory.kernel_level_4_frame k)
      | inr (pid, i) ↦ rw i (in_process pid (tied.linked index t pid e i live))
    ])
  where
    in_process :
        (pid : ℕ)
        → Backs k.processes pid index
        → Leaves (Steady k) {A = Unit {0}} (
            and_then
              (expect (address_space_of k.processes pid))
              λ space. done (tt, load_level_4 space.level_4_frame k))
    in_process pid (p, found, runs, main) =
        let there : address_space_of k.processes pid ≡ some p.address_space =
          unfold address_space_of in rw found refl in
        rw there (load_level_4-Steady p.address_space.level_4_frame k)

prepare_to_run-Steady :
    (index : ℕ) (k : Kernel) (t : Task)
    → get_elem? k.tasks index ≡ some t
    → is_terminal t.state ≡ false
    → Tied k
    → Leaves (Steady k) (prepare_to_run index k)
unfolding prepare_to_run
prepare_to_run-Steady index k t e live tied =
    let k' : Kernel = record k { kernel_stack = t.kernel_stack_top } in
    let moved : Steady k k' = record {
      same_tasks = refl;
      same_current = refl;
      follows = Follows-refl k.processes;
    } in
    task_at-Leaves (Steady k) k index _ e (
      Yields-map _ _ (λ r. Steady-trans moved) (switch_to_task_address_space index k')
        (switch_to_task_address_space-Steady index k' t e live
          (record { linked = tied.linked; heaps = tied.heaps; pointers = tied.pointers })))

-- A kernel that is idle resumes a task that is ready.
pub start_running :
    (next : ℕ) (k : Kernel) (t : Task)
    → get_elem? k.tasks next ≡ some t
    → t.state ≡ ready
    → Idle k
    → Wired (record (put_task k next (record t { state = running })) { current = some next })
start_running next k t e is i =
    let t' : Task = record t { state = running } in
    let live : is_terminal t.state ≡ false = rw is refl in
    let tied = Tied-put_task k next t' t e refl (λ l. live) tt i.tied in
    record {
      tied = record { linked = tied.linked; heaps = tied.heaps; pointers = tied.pointers };
      only_current = λ j other at r.
          let got = get_elem?-set_at k.tasks next j t' e in
          elim (Bool-cases (next == j)) [
            | inl y ↦ ap some (ground (arith, y))
            | inr n ↦
                let stopped : is_running other.state ≡ false =
                  i.none_runs j other (ground (arith, n, at, got)) in
                absurd (cc (r, stopped))
          ];
      current_runs = λ j c.
          let here : next ≡ j = ground (arith, c) in
          (
            t',
            rw (← here) (get_elem?-set_at k.tasks next next t' e ∙ rw (==_self next) refl),
            refl,
          );
    }

pub run_next-Wired :
    (next : ℕ) (k : Kernel) (t : Task)
    → get_elem? k.tasks next ≡ some t
    → t.state ≡ ready
    → Idle k
    → Leaves Wired (run_next next k)
unfolding run_next
run_next-Wired next k t e is i =
    let t' : Task = record t { state = running } in
    let k₁ : Kernel = record (put_task k next t') { current = some next } in
    let w : Wired k₁ = start_running next k t e is i in
    let at : get_elem? k₁.tasks next ≡ some t' =
      get_elem?-set_at k.tasks next next t' e ∙ rw (==_self next) refl in
    rw (run_next, e)
      (>>>-Leaves (Steady k₁) Wired (prepare_to_run next k₁) _
        (prepare_to_run-Steady next k₁ t' at refl w.tied)
        λ _ k₂ s.
          task_at-Leaves Wired k₂ next _
            (ap (λ (ts : List Task). get_elem? ts next) s.same_tasks ∙ at) (Wired-Steady s w))

leave-Wired : (k : Kernel) → Idle k → Leaves Wired (leave k)
unfolding leave switch_to_kernel_address_space
leave-Wired k i =
    let k' : Kernel = record k { current = none } in
    Wired-Steady (load_level_4-Steady k.memory.kernel_level_4_frame k') (record {
      tied = record { linked = i.tied.linked; heaps = i.tied.heaps; pointers = i.tied.pointers };
      only_current =
          λ index task e r. let stopped = i.none_runs index task e in absurd (cc (r, stopped));
      current_runs = λ index c. absurd (cc (c));
    })

-- With the current task set aside, the scheduler goes on with another task or with `run`.
pub run_next_or_leave-Wired :
    (current : ℕ) (k : Kernel) → Idle k → Leaves Wired (run_next_or_leave current k)
unfolding run_next_or_leave
run_next_or_leave-Wired current k i = elim (Option-cases (next_ready_after k.tasks current)) [
  | inl n ↦ rw (n, run_next_or_leave) (leave-Wired k i)
  | inr (next, e) ↦
      let (t, at, is) = next_ready_after-some k.tasks current e in
      rw (e, run_next_or_leave) (run_next-Wired next k t at is i)
]

-- With its frame saved, the current task is set to a state in which it does not run.
pub set_aside-Idle :
    (k : Kernel) (current : ℕ) (task old : Task)
    → get_elem? k.tasks current ≡ some old
    → process_id task ≡ process_id old
    → is_running old.state ≡ true
    → PointerFits task.state
    → is_running task.state ≡ false
    → Wired k
    → k.current ≡ some current
    → Idle (put_task k current task)
set_aside-Idle k current task old e same ran fits stopped w c =
    Idle-put_task k current task old e same (λ l. ground (arith, ran)) fits stopped w.tied
      (others_stopped w c)

-- In a wired kernel a switch of tasks at an interrupt does not panic, and leaves a wired kernel.
pub switch_from_interrupt-Wired :
    (frame_rsp : ℕ) (k : Kernel) → Wired k → Leaves Wired (switch_from_interrupt frame_rsp k)
unfolding switch_from_interrupt save_current_frame
switch_from_interrupt-Wired frame_rsp k w = elim (Option-cases k.current) [
  | inl n ↦ rw (switch_from_interrupt, save_current_frame, n) w
  | inr (current, c) ↦
      let (t, at, runs) = w.current_runs current c in
      rw (switch_from_interrupt, save_current_frame, c, at, runs) (saved current t c at runs)
]
  where
    saved :
        (current : ℕ) (t : Task)
        → k.current ≡ some current
        → get_elem? k.tasks current ≡ some t
        → is_running t.state ≡ true
        → let k₁ = put_task k current (record t { saved_rsp = frame_rsp }) in
          Leaves Wired {A = Resume} (elim (next_ready_after k₁.tasks current) [
            | none ↦ done (resume frame_rsp, k₁)
            | some next ↦ set_state current ready k₁ >>> λ _ k₂. run_next next k₂
          ])
    saved current t c at runs =
        let t₁ : Task = record t { saved_rsp = frame_rsp } in
        let k₁ = put_task k current t₁ in
        let w₁ : Wired k₁ = Wired-put_task k current t₁ t at refl refl w in
        let at₁ : get_elem? k₁.tasks current ≡ some t₁ =
          get_elem?-set_at k.tasks current current t₁ at ∙ rw (==_self current) refl in
        elim (Option-cases (next_ready_after k₁.tasks current)) [
          | inl n ↦ rw n w₁
          | inr (next, e) ↦
              let (tn, there, is) = next_ready_after-some k₁.tasks current e in
              let t₂ : Task = record t₁ { state = ready } in
              let got = get_elem?-set_at k₁.tasks current next t₂ at₁ in
              rw (e, at₁)
                (run_next-Wired next (put_task k₁ current t₂) tn
                  (elim (Bool-cases (current == next)) [
                    | inl y ↦ absurd (ground (arith, y, at₁, there, is, runs))
                    | inr y ↦ got ∙ rw y there
                  ])
                  is (set_aside-Idle k₁ current t₂ t₁ at₁ refl runs tt refl w₁ c))
        ]

-- On a tick of the timer.
pub on_timer_interrupt-Wired :
    (frame_rsp : ℕ) (k : Kernel) → Wired k → Leaves Wired (on_timer_interrupt frame_rsp k)
unfolding on_timer_interrupt
on_timer_interrupt-Wired frame_rsp k w =
    elim (Bool-cases (k.preemption_enabled && is_some k.current)) [
      | inl b ↦ rw (b, on_timer_interrupt) (switch_from_interrupt-Wired frame_rsp k w)
      | inr b ↦ rw (b, on_timer_interrupt) w
    ]

-- At the return of a kernel task.
pub finish_current_task-Wired :
    (k : Kernel) (current : ℕ)
    → k.current ≡ some current
    → Wired k
    → Leaves Wired (finish_current_task k)
unfolding finish_current_task
finish_current_task-Wired k current c w =
    let (t, at, runs) = w.current_runs current c in
    let ended : Task = record t { state = finished } in
    Yields-done _ (expect k.current) _ (ap expect c) (
      rw at (
        run_next_or_leave-Wired current (put_task k current ended)
          (set_aside-Idle k current ended t at refl runs tt refl w c)))

-- With no current task no task runs.
pub Wired-Idle : (k : Kernel) → k.current ≡ none → Wired k → Idle k
Wired-Idle k c w = record {
  tied = w.tied;
  none_runs = λ index task e. elim (Bool-cases (is_running task.state)) [
    | inr n ↦ n
    | inl y ↦ cc (w.only_current index task e y, c)
  ];
}

-- The first switch from the kernel, with no current task.
pub run-Wired : (saved : ℕ) (k : Kernel) → k.current ≡ none → Wired k → Leaves Wired (run saved k)
unfolding run first_ready
run-Wired saved k c w = elim (Option-cases (first_ready k.tasks)) [
  | inl n ↦ rw (run, n) w
  | inr (next, e) ↦
      let (lt, (t, at, is)) = position-some (λ (t : Task). is_ready t.state) k.tasks next e in
      let ready_now : t.state ≡ ready = ground (arith, is) in
      let t' : Task = record t { state = running } in
      let k₁ : Kernel = record (put_task k next t') { current = some next } in
      let w₁ : Wired k₁ = start_running next k t at ready_now (Wired-Idle k c w) in
      let k₂ : Kernel = record k₁ { current_level_4_frame = some k.cr3 } in
      let at' : get_elem? k₁.tasks next ≡ some t' =
        get_elem?-set_at k.tasks next next t' at ∙ rw (==_self next) refl in
      let w₂ : Wired k₂ =
        Wired-Steady
          (record { same_tasks = refl; same_current = refl; follows = Follows-refl k.processes })
          w₁ in
      rw (run, e, at)
        (>>>-Leaves (Steady k₂) Wired (prepare_to_run next k₂) _
          (prepare_to_run-Steady next k₂ t' at' refl w₂.tied)
          λ _ k₃ s.
            task_at-Leaves Wired k₃ next _
              (ap (λ (ts : List Task). get_elem? ts next) s.same_tasks ∙ at')
              (let w₃ = Wired-Steady s w₂ in
                record {
                  tied = record {
                    linked = w₃.tied.linked;
                    heaps = w₃.tied.heaps;
                    pointers = w₃.tied.pointers;
                  };
                  only_current = w₃.only_current;
                  current_runs = w₃.current_runs;
                }))
]
