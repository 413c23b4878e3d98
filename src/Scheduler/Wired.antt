-- ===== src/Scheduler/Wired.antt =====
-- scheduler.rs: how the tasks, the current task and the processes fit together between handlers.
pub mod Switch
pub mod Current
pub mod Rest
use vlad_os.Base.{
  ◌==◌, Bool-cases, Option-cases, get_elem?, get_elem?-set_at, done, panic, Yields, ℕ, ◌<◌, ◌≡◌,
  refl, sym, ap, ◌∙◌, ◌≢◌, inl, inr, true, false, some, List, arith,
}
use vlad_os.Words.{lower_half}
use vlad_os.Process.{Process, ProcessTable}
use vlad_os.Process
use vlad_os.Process.Status.{is_zombie}
use vlad_os.Process.Heap.{UserHeap, Fits}
use vlad_os.Process.Follows.{Succeeds, Follows, Follows-refl, Follows-trans}
use vlad_os.Task.{child_exit, TaskState, blocked, Task, process_id, is_running, is_terminal}
use vlad_os.Scheduler.{Kernel, K, ◌>>>◌, task_at, put_task}

-- A running process whose task is the one with that index.
abbrev pub Backs : ProcessTable → ℕ → ℕ → Type 0
Backs t pid index =
    (p : Process) × (Process.get t pid ≡ some p)
    × (is_zombie p.state ≡ false)
    × (p.main_task ≡ index)

-- Behind each user task that has not ended there is its process.
abbrev pub Linked : List Task → ProcessTable → Type 0
Linked tasks t =
    (index : ℕ) (task : Task) (pid : ℕ)
    → get_elem? tasks index ≡ some task
    → process_id task ≡ some pid
    → is_terminal task.state ≡ false
    → Backs t pid index

abbrev pub HeapsFit : ProcessTable → Type 0
HeapsFit t = (pid : ℕ) (p : Process) → Process.get t pid ≡ some p → Fits p.heap

-- Where a waiting task wants the status lies in the lower half of the addresses.
abbrev pub PointerFits : TaskState → Type 0
PointerFits (blocked (child_exit child (some pointer))) = pointer < lower_half
PointerFits _ = Unit

pub record Tied (k : Kernel) : Type 0 where
  pub linked : Linked k.tasks k.processes
  pub heaps : HeapsFit k.processes
  pub pointers :
      (index : ℕ) (task : Task) → get_elem? k.tasks index ≡ some task → PointerFits task.state

-- The current task is the one that runs; if there is none, no task runs.
pub record Wired (k : Kernel) : Type 0 where
  pub tied : Tied k
  pub only_current :
      (index : ℕ) (task : Task)
      → get_elem? k.tasks index ≡ some task
      → is_running task.state ≡ true
      → k.current ≡ some index
  pub current_runs :
      (index : ℕ)
      → k.current ≡ some index
      → (task : Task) × (get_elem? k.tasks index ≡ some task) × (is_running task.state ≡ true)

-- No task runs: in the middle of a handler, when the current one has been set aside.
pub record Idle (k : Kernel) : Type 0 where
  pub tied : Tied k
  pub none_runs :
      (index : ℕ) (task : Task)
      → get_elem? k.tasks index ≡ some task
      → is_running task.state ≡ false

-- A step that leaves the tasks and the current one, and that every running process survives.
pub record Steady (k k' : Kernel) : Type 0 where
  pub same_tasks : k'.tasks ≡ k.tasks
  pub same_current : k'.current ≡ k.current
  pub follows : Follows k.processes k'.processes

pub Steady-refl : (k : Kernel) → Steady k k
Steady-refl k = record {
  same_tasks = refl;
  same_current = refl;
  follows = Follows-refl k.processes;
}

pub Steady-trans : {k l m : Kernel} → Steady k l → Steady l m → Steady k m
Steady-trans {k} {l} {m} a b = record {
  same_tasks = b.same_tasks ∙ a.same_tasks;
  same_current = b.same_current ∙ a.same_current;
  follows = Follows-trans k.processes l.processes m.processes a.follows b.follows;
}

pub Backs-Follows :
    (t t' : ProcessTable) (pid index : ℕ)
    → Succeeds (Process.get t pid) (Process.get t' pid)
    → Backs t pid index
    → Backs t' pid index
Backs-Follows t t' pid index s (p, e, runs, task) = elim (Option-cases (Process.get t' pid)) [
  | inl n ↦ absurd (cc (rw (e, n) at s))
  | inr (q, e') ↦ let (still, same, fits) = rw (e, e') at s in (q, e', still runs, same ∙ task)
]

-- A heap of the later table was fit before.
pub heap-Fits :
    (t t' : ProcessTable) (j : ℕ) {q : Process}
    → Succeeds (Process.get t j) (Process.get t' j)
    → HeapsFit t
    → Process.get t' j ≡ some q
    → Fits q.heap
heap-Fits t t' j s h e' = elim (Option-cases (Process.get t j)) [
  | inl n ↦ elim (rw (n, e') at s) [ ]
  | inr (p, e) ↦ (rw (e, e') at s).2 (h j p e)
]

HeapsFit-Follows : (t t' : ProcessTable) → Follows t t' → HeapsFit t → HeapsFit t'
HeapsFit-Follows t t' f h pid q e' = heap-Fits t t' pid (f pid) h e'

Tied-Steady : {k k' : Kernel} → Steady k k' → Tied k → Tied k'
Tied-Steady {k} {k'} s t = record {
  linked = λ index task pid e i live.
      Backs-Follows k.processes k'.processes pid index (s.follows pid)
        (t.linked index task pid (rw s.same_tasks at e) i live);
  heaps = HeapsFit-Follows k.processes k'.processes s.follows t.heaps;
  pointers = λ index task e. t.pointers index task (rw s.same_tasks at e);
}

pub Wired-Steady : {k k' : Kernel} → Steady k k' → Wired k → Wired k'
Wired-Steady {k} {k'} s w = record {
  tied = Tied-Steady s w.tied;
  only_current =
      λ index task e r. s.same_current ∙ w.only_current index task (rw s.same_tasks at e) r;
  current_runs = λ index e.
      let (task, at, r) = w.current_runs index (sym s.same_current ∙ e) in
      (task, ap (λ (ts : List Task). get_elem? ts index) s.same_tasks ∙ at, r);
}

pub Idle-Steady : {k k' : Kernel} → Steady k k' → Idle k → Idle k'
Idle-Steady {k} {k'} s i = record {
  tied = Tied-Steady s i.tied;
  none_runs = λ index task e. i.none_runs index task (rw s.same_tasks at e);
}

-- A change of one task that keeps its process, and does not bring an ended task back.
pub Tied-put_task :
    (k : Kernel) (index : ℕ) (task old : Task)
    → get_elem? k.tasks index ≡ some old
    → process_id task ≡ process_id old
    → (is_terminal task.state ≡ false → is_terminal old.state ≡ false)
    → PointerFits task.state
    → Tied k
    → Tied (put_task k index task)
Tied-put_task k index task old e same live fits t = record {
  linked = λ j other pid at i l.
      let got = get_elem?-set_at k.tasks index j task e in
      elim (Bool-cases (index == j)) [
        | inl y ↦
            let here : index ≡ j = ground arith in
            let is : task ≡ other = ground (arith, y, at, got) in
            rw here at
              (t.linked index old pid e (sym same ∙ rw (← is) at i) (live (rw (← is) at l)))
        | inr n ↦ t.linked j other pid (ground (arith, n, at, got)) i l
      ];
  heaps = t.heaps;
  pointers = λ j other at.
      let got = get_elem?-set_at k.tasks index j task e in
      elim (Bool-cases (index == j)) [
        | inl y ↦ let is : task ≡ other = ground (arith, y, at, got) in rw is at fits
        | inr n ↦ t.pointers j other (ground (arith, n, at, got))
      ];
}

-- A change of one task that keeps its process and its state.
pub Wired-put_task :
    (k : Kernel) (index : ℕ) (task old : Task)
    → get_elem? k.tasks index ≡ some old
    → process_id task ≡ process_id old
    → task.state ≡ old.state
    → Wired k
    → Wired (put_task k index task)
Wired-put_task k index task old e same state w = record {
  tied =
      Tied-put_task k index task old e same (λ l. rw (← state) l)
        (rw state (w.tied.pointers index old e)) w.tied;
  only_current = λ j other at r.
      let got = get_elem?-set_at k.tasks index j task e in
      elim (Bool-cases (index == j)) [
        | inl y ↦
            let here : index ≡ j = ground arith in
            let is : task ≡ other = ground (arith, y, at, got) in
            rw here at (w.only_current index old e (rw (← state, is) r))
        | inr n ↦ w.only_current j other (ground (arith, n, at, got)) r
      ];
  current_runs = λ j c.
      let (other, at, r) = w.current_runs j c in
      let got = get_elem?-set_at k.tasks index j task e in
      elim (Bool-cases (index == j)) [
        | inl y ↦
            let here : index ≡ j = ground arith in
            let is : old ≡ other = ground (arith, here, at, e) in
            (task, got ∙ rw y refl, rw (state, is) r)
        | inr n ↦ (other, got ∙ rw n at, r)
      ];
}

-- When the task is set to a state that does not run, no task runs if it was the only one.
pub Idle-put_task :
    (k : Kernel) (index : ℕ) (task old : Task)
    → get_elem? k.tasks index ≡ some old
    → process_id task ≡ process_id old
    → (is_terminal task.state ≡ false → is_terminal old.state ≡ false)
    → PointerFits task.state
    → is_running task.state ≡ false
    → Tied k
    → ((j : ℕ) (other : Task)
        → j ≢ index
        → get_elem? k.tasks j ≡ some other
        → is_running other.state ≡ false)
    → Idle (put_task k index task)
Idle-put_task k index task old e same live fits stopped t others = record {
  tied = Tied-put_task k index task old e same live fits t;
  none_runs = λ j other at.
      let got = get_elem?-set_at k.tasks index j task e in
      elim (Bool-cases (index == j)) [
        | inl y ↦ let is : task ≡ other = ground (arith, y, at, got) in rw is at stopped
        | inr n ↦ others j other (ground (arith, n)) (ground (arith, n, at, got))
      ];
}

-- In a wired kernel only the current task runs.
pub others_stopped :
    {k : Kernel} {index : ℕ}
    → Wired k
    → k.current ≡ some index
    → (j : ℕ) (other : Task) → j ≢ index
    → get_elem? k.tasks j ≡ some other
    → is_running other.state ≡ false
others_stopped {k} {index} w c j other ne e = elim (Bool-cases (is_running other.state)) [
  | inr n ↦ n
  | inl y ↦ absurd (ne (ground (arith, w.only_current j other e y, c)))
]

-- A handler does not panic, and leaves such a kernel.
abbrev pub Leaves : (Kernel → Type 0) → {A : Type 0} → K A → Type 0
Leaves P m = Yields (λ r. P r.1) m

pub >>>-Leaves :
    {A B : Type 0} (P Q : Kernel → Type 0) (m : K A) (f : A → Kernel → K B)
    → Leaves P m
    → ((a : A) (k : Kernel) → P k → Leaves Q (f a k))
    → Leaves Q (m >>> f)
>>>-Leaves P Q (done (a, k)) f h g = g a k h
>>>-Leaves P Q panic f h g = elim h [ ]

pub task_at-Leaves :
    {B : Type 0} (P : Kernel → Type 0) (k : Kernel) (index : ℕ) (f : Task → K B) {t : Task}
    → get_elem? k.tasks index ≡ some t
    → Leaves P (f t)
    → Leaves P (task_at k index f)
task_at-Leaves P k index f e h = rw e h
