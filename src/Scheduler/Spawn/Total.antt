-- ===== src/Scheduler/Spawn/Total.antt =====
-- scheduler.rs: starting tasks and processes, and the first switch to one, in a wired kernel.
use vlad_os.Base.{
  leb, ◌==◌, Bool-cases, Option-cases, length, get_elem?, get_elem?_lt, get_elem?-append, ok,
  Result-cases, ℕ, ◌≡◌, refl, inl, inr, Option, some, arith,
}
use vlad_os.Fd.{FdTable, new_with_stdio}
use vlad_os.Process.Heap.{Fits}
use vlad_os.Process.{Process, can_create, create, new_process}
use vlad_os.Process
use vlad_os.Process.Valid.{Valid}
use vlad_os.Process.Life.{Created, create-Created}
use vlad_os.Process.Follows.{Follows-refl, Created-Follows}
use vlad_os.Task.{
  max_tasks, ready, TrapFrame, Task, Platform, new_kernel, new_user, process_id, is_ready,
}
use vlad_os.Memory.{Memory}
use vlad_os.Scheduler.{Kernel, new}
use vlad_os.Scheduler.Wired.{Backs, Tied, Wired, Backs-Follows, heap-Fits, Wired-Steady, Leaves}
use vlad_os.Scheduler.Exit.Total.{same-Steady}
use vlad_os.Scheduler.Spawn.{
  UserTaskInit, add_task, spawn, spawn_with_fds, spawn_user_process, set_task_initial_arg,
}

-- What a new task needs: it is ready, and a process that is its own stands behind it.
abbrev Starts : Kernel → Task → Type 0
Starts k t =
    (t.state ≡ ready)
    × ((pid : ℕ) → process_id t ≡ some pid → Backs k.processes pid (length k.tasks))

add_task-Wired :
    (k : Kernel) (t : Task) (frame : TrapFrame)
    → Starts k t
    → Wired k
    → Wired (add_task (t, frame) k)
add_task-Wired k t frame (is, backs) w = record {
  tied = record {
    linked = λ index task pid e of live. elim (Bool-cases (length k.tasks == index)) [
      | inl y ↦
          let here : length k.tasks ≡ index = ground arith in
          let same : t ≡ task = ground (arith, y, e, get_elem?-append k.tasks t index) in
          rw (← here) (backs pid (rw same of))
      | inr n ↦
          w.tied.linked index task pid (ground (arith, n, e, get_elem?-append k.tasks t index)) of
            live
    ];
    heaps = w.tied.heaps;
    pointers = λ index task e. elim (Bool-cases (length k.tasks == index)) [
      | inl y ↦
          let same : t ≡ task = ground (arith, y, e, get_elem?-append k.tasks t index) in
          rw (← same, is) tt
      | inr n ↦ w.tied.pointers index task (ground (arith, n, e, get_elem?-append k.tasks t index))
    ];
  };
  only_current = λ index task e r. elim (Bool-cases (length k.tasks == index)) [
    | inl y ↦
        let same : t ≡ task = ground (arith, y, e, get_elem?-append k.tasks t index) in
        cc (rw (← same, is) at r)
    | inr n ↦ w.only_current index task (ground (arith, n, e, get_elem?-append k.tasks t index)) r
  ];
  current_runs = λ index c.
      let (task, at, runs) = w.current_runs index c in
      let lt = get_elem?_lt k.tasks index at in
      (task, ground (arith, lt, at, get_elem?-append k.tasks t index), runs);
}

-- Other processes than the new one go on.
Created-Tied :
    (k : Kernel) (parent : Option ℕ) (p : Process) (t' : Process.ProcessTable)
    → Valid k.processes
    → Created k.processes parent p t'
    → Fits p.heap
    → Tied k
    → Tied (record k { processes = t' })
Created-Tied k parent p t' v c fits t = record {
  linked = λ index task pid e of live.
      let (q, there, runs, main) = t.linked index task pid e of live in
      let (same, lt) = v.fresh pid q there in
      Backs-Follows k.processes t' pid index (Created-Follows pid c (omega (arith, lt)))
        (q, there, runs, main);
  heaps = λ pid q e. elim (Bool-cases (pid == k.processes.next_pid)) [
    | inl y ↦
        let here : pid ≡ k.processes.next_pid = ground arith in
        let is : p ≡ q = ground (arith, rw here at e, c.there) in rw (← is) fits
    | inr n ↦ heap-Fits k.processes t' pid (Created-Follows pid c (ground arith)) t.heaps e
  ];
  pointers = t.pointers;
}

module _ (p : Platform) (parent : Option ℕ) (init : UserTaskInit) (initial_rflags : ℕ) where
  spawn_with_fds-Wired :
      (fds : FdTable) (k : Kernel)
      → Valid k.processes
      → can_create k.processes parent ≡ ok tt
      → Fits init.heap
      → Wired k
      → Leaves Wired (spawn_with_fds p parent init initial_rflags fds k)
  unfolding spawn_with_fds new_user
  spawn_with_fds-Wired fds k v can fits w =
      let id = length k.tasks in
      let new = new_process k.processes.next_pid parent init.address_space init.heap fds id in
      let (t', made, c) =
        create-Created k.processes parent init.address_space init.heap fds id v can in
      let k' : Kernel = record k { processes = t' } in
      let task =
        new_user p id k.processes.next_pid init.entry_point init.user_stack_top init.arg0
          initial_rflags in
      rw (made, spawn_with_fds)
        (add_task-Wired k' task.0 task.1
          (
            refl,
            λ pid of.
                let here : k.processes.next_pid ≡ pid = ground (arith, of) in
                (new, rw (← here) c.there, refl, refl),
          )
          (record {
            tied = Created-Tied k parent new t' v c fits w.tied;
            only_current = w.only_current;
            current_runs = w.current_runs;
          }))

  -- In a kernel where the tasks and processes fit together and the table of processes is valid,
  -- starting a process whose heap is valid and ends in the lower half does not panic, and leaves
  -- such a kernel, also where it fails.
  pub spawn_user_process-Wired :
      (k : Kernel)
      → Valid k.processes
      → Fits init.heap
      → Wired k
      → Leaves Wired (spawn_user_process p parent init initial_rflags k)
  unfolding spawn_user_process
  spawn_user_process-Wired k v fits w = elim (Bool-cases (leb max_tasks (length k.tasks))) [
    | inl b ↦ rw (b, spawn_user_process) w
    | inr b ↦
        rw (b, spawn_user_process)
          (elim (Result-cases (can_create k.processes parent)) [
            | inr (error, e) ↦ rw e w
            | inl (u, e) ↦
                let k' : Kernel = record k { open_files = (new_with_stdio k.open_files).1 } in
                let w' : Wired k' =
                  Wired-Steady (same-Steady k k' refl refl (Follows-refl k.processes)) w in
                rw e (elim (Result-cases (new_with_stdio k.open_files).0) [
                  | inl (fds, r) ↦ rw r (spawn_with_fds-Wired fds k' v e fits w')
                  | inr (error, r) ↦ rw r w'
                ])
          ])
  ]

-- Starting a kernel task.
pub spawn-Wired :
    (p : Platform) (entry initial_rflags : ℕ) (k : Kernel)
    → Wired k
    → Wired (spawn p entry initial_rflags k).1
unfolding spawn new_kernel
spawn-Wired p entry initial_rflags k w = elim (Bool-cases (leb max_tasks (length k.tasks))) [
  | inl b ↦ rw (b, spawn) w
  | inr b ↦
      let task = new_kernel p (length k.tasks) entry initial_rflags in
      rw (b, spawn) (add_task-Wired k task.0 task.1 (refl, λ pid of. cc) w)
]

pub set_task_initial_arg-Wired :
    (task_id arg0 : ℕ) (k : Kernel) → Wired k → Wired (set_task_initial_arg task_id arg0 k).1
unfolding set_task_initial_arg
set_task_initial_arg-Wired task_id arg0 k w = elim (Option-cases (get_elem? k.tasks task_id)) [
  | inl n ↦ rw (n, set_task_initial_arg) w
  | inr (t, e) ↦
      rw (e, set_task_initial_arg)
        (elim (Bool-cases (is_ready t.state)) [
          | inl b ↦ rw b (Wired-Steady (same-Steady k _ refl refl (Follows-refl k.processes)) w)
          | inr b ↦ rw b w
        ])
]

-- The kernel at its start.
pub new-Wired :
    (memory : Memory) (frames : ℕ → TrapFrame) (cr3 kernel_stack : ℕ)
    → Wired (new memory frames cr3 kernel_stack)
unfolding Process.get
new-Wired memory frames cr3 kernel_stack = record {
  tied = record {
    linked = λ index task pid e of live. cc;
    heaps = λ pid p e. cc;
    pointers = λ index task e. cc;
  };
  only_current = λ index task e r. cc;
  current_runs = λ index c. cc;
}
