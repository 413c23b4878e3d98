-- ===== src/Process/Life.antt =====
-- The life of a process in process.rs: creation, and what makes it fail.
use vlad_os.Base.{
  ◌==◌, if◌then◌else◌, lt→ltb, Bool-cases, Option-cases, length, set, length-set, get_elem?-set,
  Result, ok, Exec, done, ℕ, ◌+◌, ◌≤◌, ◌<◌, ◌≡◌, refl, sym, ap, ◌∙◌, subst, ◌≢◌, ◌⊎◌, inl, inr,
  Option, none, some, List, [], ◌∷◌, ◌++◌, arith,
}
use mathlib.Core.Option
use mathlib.Core.Path.{ap₂}
use vlad_os.Fd.{FdTable}
use vlad_os.Process.Status.{running}
use vlad_os.Process.Heap.{UserHeap}
use vlad_os.Process.Lookup.{get-put, next_pid-put, length-put, get-ensure_slots}
use vlad_os.Process.Valid.{Valid}
use vlad_os.Process.{
  max_processes, AddressSpace, Process, ProcessError, ProcessTable, get, put, ensure_slots,
  can_create, new_process, create, insert,
}

-- How a creation changes another process: the parent has one child more.
abbrev pub adopted : Option ℕ → ℕ → ℕ → Option Process → Option Process
adopted none pid j o = o
adopted (some parent) pid j o =
    if parent == j
    then Option.map (λ (p : Process). record p { children = p.children ++ (pid ∷ []) }) o
    else o

pub can_create_next_pid :
    (t : ProcessTable) (parent : Option ℕ)
    → can_create t parent ≡ ok tt
    → t.next_pid ≤ max_processes
unfolding can_create
can_create_next_pid t parent h = ground arith

can_create_parent :
    (t : ProcessTable) (parent : ℕ)
    → can_create t (some parent) ≡ ok tt
    → (p : Process) × (get t parent ≡ some p)
unfolding can_create
can_create_parent t parent h = elim (Option-cases (get t parent)) [
  | inl n ↦ ground (arith, n)
  | inr found ↦ found
]

-- Only the children of an adopting parent change.
adopted_before :
    (parent : Option ℕ) (pid j : ℕ) (o : Option Process) (q : Process)
    → adopted parent pid j o ≡ some q
    → (q' : Process) × (o ≡ some q')
      × (q.pid ≡ q'.pid)
      × (q.state ≡ q'.state)
      × (q.fd_table ≡ q'.fd_table)
adopted_before none pid j o q e = (q, e, refl, refl, refl)
adopted_before (some parent) pid j none q e = ground arith
adopted_before (some parent) pid j (some p) q e =
    (p, refl, ground arith, ground arith, ground arith)

-- What a creation leaves.
pub record Created (t : ProcessTable) (parent : Option ℕ) (p : Process) (t' : ProcessTable)
    : Type 0 where
  pub next : t'.next_pid ≡ t.next_pid + 1
  pub slots : length t'.processes ≡ max_processes + 1
  pub there : get t' t.next_pid ≡ some p
  pub others : (j : ℕ) → j ≢ t.next_pid → get t' j ≡ adopted parent t.next_pid j (get t j)

-- The table with a new process in its slot.
abbrev pub inserted : ProcessTable → Process → ProcessTable
inserted t p = record { processes = set t.processes t.next_pid (some p); next_pid = t.next_pid + 1 }

module _ (t : ProcessTable) (p : Process) (slots : length t.processes ≡ max_processes + 1)
    (room : t.next_pid ≤ max_processes) where
  get-inserted : (j : ℕ) → get (inserted t p) j ≡ (if t.next_pid == j then some p else get t j)
  unfolding get
  get-inserted j =
      ground (arith, get_elem?-set t.processes t.next_pid j (some p) (omega (arith, slots, room)))

  inserted-Created : Created t none p (inserted t p)
  inserted-Created = record {
    next = refl;
    slots = length-set t.processes t.next_pid (some p) ∙ slots;
    there = ground (arith, get-inserted t.next_pid);
    others = λ j ne. ground (arith, get-inserted j, ne);
  }

  adopted-Created :
      (parent : ℕ) (q : Process)
      → get t parent ≡ some q
      → parent < t.next_pid
      → Created t
          (some parent)
          p
          (put (inserted t p) parent (record q { children = q.children ++ (t.next_pid ∷ []) }))
  adopted-Created parent q e lt =
      let q' : Process = record q { children = q.children ++ (t.next_pid ∷ []) } in
      let e' : get (inserted t p) parent ≡ some q = ground (arith, get-inserted parent, e, lt) in
      record {
        next = next_pid-put (inserted t p) parent q';
        slots =
            length-put (inserted t p) parent q'
            ∙ (length-set t.processes t.next_pid (some p) ∙ slots);
        there =
            ground
              (arith, get-put (inserted t p) parent t.next_pid q' e', get-inserted t.next_pid, lt);
        others =
            λ j ne. ground (arith, get-put (inserted t p) parent j q' e', get-inserted j, ne, e);
      }

pub length-ensure_slots :
    (t : ProcessTable) → Valid t → length (ensure_slots t).processes ≡ max_processes + 1
length-ensure_slots t v = of_list t.processes t.next_pid v.slots
  where
    of_list :
        (ps : List (Option Process)) (n : ℕ)
        → (length ps ≡ 0) ⊎ (length ps ≡ max_processes + 1)
        → length (ensure_slots (record { processes = ps; next_pid = n })).processes
          ≡ max_processes + 1
    of_list [] n h = unfold ensure_slots in refl
    of_list (x ∷ ps) n h = unfold ensure_slots in omega arith

pub next_pid-ensure_slots : (t : ProcessTable) → (ensure_slots t).next_pid ≡ t.next_pid
next_pid-ensure_slots t = of_list t.processes t.next_pid
  where
    of_list :
        (ps : List (Option Process)) (n : ℕ)
        → (ensure_slots (record { processes = ps; next_pid = n })).next_pid ≡ n
    of_list [] n = unfold ensure_slots in refl
    of_list (x ∷ ps) n = unfold ensure_slots in refl

abbrev Inserts : ProcessTable → Option ℕ → AddressSpace → UserHeap → FdTable → ℕ → Type 0
Inserts u parent space heap fds task =
    (t' : ProcessTable) × (insert parent space heap fds task u ≡ done (ok u.next_pid, t'))
    × Created u parent (new_process u.next_pid parent space heap fds task) t'

insert-Created :
    (u : ProcessTable) (parent : Option ℕ) (space : AddressSpace) (heap : UserHeap) (fds : FdTable)
    (task : ℕ)
    → length u.processes ≡ max_processes + 1
    → u.next_pid ≤ max_processes
    → ((q : ℕ) → parent ≡ some q → (p : Process) × (get u q ≡ some p) × (q < u.next_pid))
    → Inserts u parent space heap fds task
unfolding insert
insert-Created u none space heap fds task slots room there =
    let p = new_process u.next_pid none space heap fds task in
    (
      inserted u p,
      rw (lt→ltb u.next_pid (length u.processes) (omega (arith, slots, room))),
      inserted-Created u p slots room,
    )
insert-Created u (some parent) space heap fds task slots room there =
    let p = new_process u.next_pid (some parent) space heap fds task in
    let (q, e, lt) = there parent refl in
    (
      put (inserted u p) parent (record q { children = q.children ++ (u.next_pid ∷ []) }),
      rw (lt→ltb u.next_pid (length u.processes) (omega (arith, slots, room)))
          (ground (arith, get-inserted u p slots room parent, e, lt)),
      adopted-Created u p slots room parent q e lt,
    )

create_of_insert :
    (t : ProcessTable) (parent : Option ℕ) (space : AddressSpace) (heap : UserHeap) (fds : FdTable)
    (task : ℕ) {r : Exec (Result ProcessError ℕ × ProcessTable)}
    → can_create t parent ≡ ok tt
    → insert parent space heap fds task (ensure_slots t) ≡ r
    → create parent space heap fds task t ≡ r
unfolding create
create_of_insert t parent space heap fds task h e = rw (h, create) e

-- On a valid table, once `can_create` has passed, `create` neither fails nor panics: it gives out
-- the next pid, the new process runs in its slot with no children, its parent has it as its last
-- child, and nothing else changes.
pub create-Created :
    (t : ProcessTable) (parent : Option ℕ) (space : AddressSpace) (heap : UserHeap) (fds : FdTable)
    (task : ℕ)
    → Valid t
    → can_create t parent ≡ ok tt
    → (t' : ProcessTable) × (create parent space heap fds task t ≡ done (ok t.next_pid, t'))
      × Created t parent (new_process t.next_pid parent space heap fds task) t'
create-Created t parent space heap fds task v h =
    let next = next_pid-ensure_slots t in
    let (t', e, c) =
      insert-Created (ensure_slots t) parent space heap fds task (length-ensure_slots t v)
        (omega (arith, next, can_create_next_pid t parent h))
        λ q is.
          let (p, found) = can_create_parent t q (rw is at h) in
          (p, get-ensure_slots t q ∙ found, omega (arith, next, v.fresh q p found)) in
    (
      t',
      create_of_insert t parent space heap fds task h
          (e ∙ ap {B = Exec (Result ProcessError ℕ × ProcessTable)} (λ n. done (ok n, t')) next),
      record {
        next = omega (arith, c.next, next);
        slots = c.slots;
        there =
            subst (λ (n : ℕ). get t' n ≡ some (new_process n parent space heap fds task)) next
              c.there;
        others = λ j ne.
            c.others j (rw next ne)
            ∙ ap₂ (λ (n : ℕ) (o : Option Process). adopted parent n j o) next
                (get-ensure_slots t j);
      },
    )

-- A creation keeps the table valid.
pub Created-Valid :
    {t t' : ProcessTable} {parent : Option ℕ} {p : Process}
    → Valid t
    → Created t parent p t'
    → p.pid ≡ t.next_pid
    → p.state ≡ running
    → Valid t'
Created-Valid {t} {t'} {parent} {p} v c pid run = record {
  slots = inr c.slots;
  fresh = λ i q e. elim (Bool-cases (i == t.next_pid)) [
    | inl y ↦ ground (arith, y, e, c.there, pid, c.next)
    | inr y ↦
        let (q', e', same, st, fd) = before i q (ground (arith, y)) e in
        omega (arith, v.fresh i q' e', same, c.next)
  ];
  closed = λ i q e z j. elim (Bool-cases (i == t.next_pid)) [
    | inl y ↦ ground (arith, y, e, c.there, run, z)
    | inr y ↦
        let (q', e', same, st, fd) = before i q (ground (arith, y)) e in
        rw fd (v.closed i q' e' (rw (← st) z) j)
  ];
}
  where
    before :
        (i : ℕ) (q : Process)
        → i ≢ t.next_pid
        → get t' i ≡ some q
        → (q' : Process) × (get t i ≡ some q')
          × (q.pid ≡ q'.pid)
          × (q.state ≡ q'.state)
          × (q.fd_table ≡ q'.fd_table)
    before i q ne e = adopted_before parent t.next_pid i (get t i) q (sym (c.others i ne) ∙ e)
