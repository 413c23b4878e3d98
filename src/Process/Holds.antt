-- ===== src/Process/Holds.antt =====
-- The references that all processes together hold on open files, through each operation of
-- process.rs.
use vlad_os.Base.{
  ltb, ◌==◌, ltb→lt, Bool-cases, Option-cases, length, get_elem?, set, retain, get_elem?_of_lt,
  set_out_of_bounds, Result, ok, done, Result-cases, ℕ, zero, suc, ◌+◌, ◌≤◌, ◌<◌, ◌≡◌, refl, ap,
  ◌∙◌, inl, inr, true, not, ◌&&◌, Option, none, some, List, [], ◌∷◌, ◌++◌, arith,
}
use vlad_os.File.{OpenFileTable}
use vlad_os.File.Refs.{refs}
use vlad_os.Fd.{FdTable, close_all}
use vlad_os.Fd.Refs.{holds, refs-close_all}
use vlad_os.Process.Status.{ProcessExit, zombie, is_zombie}
use vlad_os.Process.Heap.{UserHeap}
use vlad_os.Process.Lookup.{get_slot, get-put, get-ensure_slots}
use vlad_os.Process.Valid.{
  Valid, Valid-Shrinks, orphan_child-Shrinks, remove_child-Shrinks, Reaps, refused, reaped,
  reap_child-Reaps, ended-Valid,
}
use vlad_os.Process.Life.{inserted, next_pid-ensure_slots}
use vlad_os.Process.{
  AddressSpace, Process, ProcessError, ProcessTable, get, put, clear, ensure_slots, can_create,
  new_process, create, orphan_child, orphan_children, mark_exited, remove_child, reap_child,
  reap_orphan_if_zombie, insert,
}

abbrev pub process_holds : ℕ → Option Process → ℕ
process_holds j none = 0
process_holds j (some p) = holds p.fd_table j

abbrev pub slots_hold : ℕ → List (Option Process) → ℕ
slots_hold j [] = 0
slots_hold j (p ∷ ps) = process_holds j p + slots_hold j ps

-- How many descriptors of all processes refer to the open file.
abbrev pub table_holds : ProcessTable → ℕ → ℕ
table_holds t j = slots_hold j t.processes

slots_hold-set :
    (j : ℕ) (ps : List (Option Process)) (i : ℕ) (v : Option Process) {old : Option Process}
    → get_elem? ps i ≡ some old
    → slots_hold j (set ps i v) + process_holds j old ≡ slots_hold j ps + process_holds j v
slots_hold-set j [] i v e = cc
slots_hold-set j (x ∷ ps) zero v {old} e =
    let same : x ≡ old = ground arith in rw same (omega arith)
slots_hold-set j (x ∷ ps) (suc i) v e = omega (arith, slots_hold-set j ps i v e)

pub table_holds-put :
    (t : ProcessTable) (i j : ℕ) (p : Process) {old : Process}
    → get t i ≡ some old
    → table_holds (put t i p) j + holds old.fd_table j ≡ table_holds t j + holds p.fd_table j
unfolding put
table_holds-put t i j p e = slots_hold-set j t.processes i (some p) (get_slot t i e)

-- A process holds no more than all do.
pub holds-le-table_holds :
    (t : ProcessTable) (i j : ℕ) {p : Process}
    → get t i ≡ some p
    → holds p.fd_table j ≤ table_holds t j
holds-le-table_holds t i j e = omega (arith, slots_hold-set j t.processes i none (get_slot t i e))

table_holds-clear :
    (t : ProcessTable) (i j : ℕ)
    → ((p : Process) → get t i ≡ some p → holds p.fd_table j ≡ 0)
    → table_holds (clear t i) j ≡ table_holds t j
unfolding clear
table_holds-clear t i j h = elim (Option-cases (get_elem? t.processes i)) [
  | inl n ↦ ap (slots_hold j) (set_out_of_bounds t.processes i none n)
  | inr (none, e) ↦ omega (arith, slots_hold-set j t.processes i none e)
  | inr (some p, e) ↦
      let here : get t i ≡ some p = unfold get in rw e in
      omega (arith, slots_hold-set j t.processes i none e, h p here)
]

table_holds-ensure_slots :
    (t : ProcessTable) (j : ℕ) → table_holds (ensure_slots t) j ≡ table_holds t j
table_holds-ensure_slots t j = of_list t.processes
  where
    of_list :
        (ps : List (Option Process))
        → table_holds (ensure_slots (record { processes = ps; next_pid = t.next_pid })) j
          ≡ slots_hold j ps
    of_list [] = unfold ensure_slots in refl
    of_list (x ∷ ps) = unfold ensure_slots in refl

orphan_child-holds :
    (c : ℕ) (t : ProcessTable) (j : ℕ)
    → Valid t
    → table_holds (orphan_child c t) j ≡ table_holds t j
unfolding orphan_child
orphan_child-holds c t j v = elim (Option-cases (get t c)) [
  | inl n ↦ rw (n, orphan_child)
  | inr (p, e) ↦
      let orphan : Process = record p { parent = none; orphaned = true } in
      let written = table_holds-put t c j orphan e in
      rw (e, orphan_child)
        (elim (Bool-cases (is_zombie p.state)) [
          | inl z ↦ rw z (
              table_holds-clear (put t c orphan) c j
                (λ q eq. ground (arith, eq, get-put t c c orphan e, v.closed c p e z j))
              ∙ omega (arith, written))
          | inr z ↦ rw z (omega (arith, written))
        ])
]

orphan_children-holds :
    (cs : List ℕ) (t : ProcessTable) (j : ℕ)
    → Valid t
    → table_holds (orphan_children cs t) j ≡ table_holds t j
unfolding orphan_children
orphan_children-holds [] t j v = refl
orphan_children-holds (c ∷ cs) t j v =
    orphan_children-holds cs (orphan_child c t) j (Valid-Shrinks v (orphan_child-Shrinks c t))
    ∙ orphan_child-holds c t j v

-- In a valid table whose processes hold no more references on an open file than it has, the end of
-- a process gives back as many references as it takes out of the table.
pub mark_exited-holds :
    (t : ProcessTable) (pid : ℕ) (exit : ProcessExit) (files : OpenFileTable) (j : ℕ)
    → Valid t
    → table_holds t j ≤ refs files j
    → let (r, t', files') = mark_exited t pid exit files in
      table_holds t' j + refs files j ≡ table_holds t j + refs files' j
unfolding mark_exited
mark_exited-holds t pid exit files j v h = elim (Option-cases (get t pid)) [
  | inl n ↦ rw (n, mark_exited)
  | inr (p, e) ↦
      let ended : Process = record p {
        state = zombie exit;
        fd_table = (close_all p.fd_table files).0;
        children = [];
      } in
      let closed = refs-close_all p.fd_table files j in
      let valid =
        ended-Valid t pid ended p v e refl (λ (i : ℕ). (refs-close_all p.fd_table files i).1) in
      rw (e, mark_exited)
        (omega (
          arith,
          h,
          closed,
          holds-le-table_holds t pid j e,
          table_holds-put t pid j ended e,
          orphan_children-holds p.children (put t pid ended) j valid,
        ))
]

remove_child-holds :
    (t : ProcessTable) (parent child j : ℕ)
    → table_holds (remove_child t parent child) j ≡ table_holds t j
unfolding remove_child
remove_child-holds t parent child j = elim (Option-cases (get t parent)) [
  | inl n ↦ rw (n, remove_child)
  | inr (p, e) ↦
      let p' : Process = record p { children = retain (λ pid. not (pid == child)) p.children } in
      rw (e, remove_child) (omega (arith, table_holds-put t parent j p' e))
]

-- Reaping frees only processes that hold nothing.
pub reap_child-holds :
    (t : ProcessTable) (parent child j : ℕ)
    → Valid t
    → table_holds (reap_child t parent child).1 j ≡ table_holds t j
reap_child-holds t parent child j v = by_outcome (reap_child-Reaps t parent child)
  where
    by_outcome :
        {r : Result ProcessError ProcessExit × ProcessTable}
        → Reaps t parent child r
        → table_holds r.1 j ≡ table_holds t j
    by_outcome (refused e) = refl
    by_outcome (reaped p exit h e z) =
        table_holds-clear (remove_child t parent child) child j (λ q eq.
          let (q', e', pid, zz, fd) = (remove_child-Shrinks t parent child).kept child q eq in
          let same : q' ≡ p = ground (arith, e', e) in
          rw fd (v.closed child q' e' (rw (same, z)) j))
        ∙ remove_child-holds t parent child j

pub reap_orphan_if_zombie-holds :
    (t : ProcessTable) (pid j : ℕ)
    → Valid t
    → table_holds (reap_orphan_if_zombie t pid) j ≡ table_holds t j
unfolding reap_orphan_if_zombie
reap_orphan_if_zombie-holds t pid j v = elim (Option-cases (get t pid)) [
  | inl n ↦ rw (n, reap_orphan_if_zombie)
  | inr (p, e) ↦
      rw (e, reap_orphan_if_zombie)
        (elim (Bool-cases (p.orphaned && is_zombie p.state)) [
          | inl h ↦
              let z : is_zombie p.state ≡ true = ground arith in
              rw h (table_holds-clear t pid j (λ q eq. ground (arith, eq, e, v.closed pid p e z j)))
          | inr h ↦ rw h
        ])
]

-- A filled slot adds what its process holds.
inserted-holds :
    (t : ProcessTable) (p : Process) (j : ℕ)
    → t.next_pid < length t.processes
    → get t t.next_pid ≡ none
    → table_holds (inserted t p) j ≡ table_holds t j + holds p.fd_table j
unfolding get
inserted-holds t p j room free =
    let (o, e) = get_elem?_of_lt t.processes t.next_pid room in
    let vacant : o ≡ none = rw e at free in
    omega (arith, slots_hold-set j t.processes t.next_pid (some p) (e ∙ ap some vacant))

insert-holds :
    (t : ProcessTable) (parent : Option ℕ) (space : AddressSpace) (heap : UserHeap) (fds : FdTable)
    (task j pid : ℕ) {t' : ProcessTable}
    → get t t.next_pid ≡ none
    → insert parent space heap fds task t ≡ done (ok pid, t')
    → table_holds t' j ≡ table_holds t j + holds fds j
unfolding insert
insert-holds t none space heap fds task j pid {t'} free h =
    elim (Bool-cases (ltb t.next_pid (length t.processes))) [
      | inl room ↦
          let p = new_process t.next_pid none space heap fds task in
          let is : t' ≡ inserted t p = ground (arith, room, h) in
          rw is (inserted-holds t p j (ltb→lt _ _ room) free)
      | inr beyond ↦ ground (arith, beyond, h)
    ]
insert-holds t (some parent) space heap fds task j pid {t'} free h =
    let p = new_process t.next_pid (some parent) space heap fds task in
    elim (Bool-cases (ltb t.next_pid (length t.processes))) [
      | inl room ↦ elim (Option-cases (get (inserted t p) parent)) [
        | inl n ↦ ground (arith, room, h, n)
        | inr (q, e) ↦
            let q' : Process = record q { children = q.children ++ (t.next_pid ∷ []) } in
            let is : t' ≡ put (inserted t p) parent q' = ground (arith, room, h, e) in
            rw is (
              omega (
                arith,
                table_holds-put (inserted t p) parent j q' e,
                inserted-holds t p j (ltb→lt _ _ room) free,
              ))
      ]
      | inr beyond ↦ ground (arith, beyond, h)
    ]

vacant_next : (t : ProcessTable) → Valid t → get t t.next_pid ≡ none
vacant_next t v = elim (Option-cases (get t t.next_pid)) [
  | inl n ↦ n
  | inr (p, e) ↦ absurd (omega (arith, v.fresh t.next_pid p e))
]

-- A created process adds what its descriptor table holds.
pub create-holds :
    (t : ProcessTable) (parent : Option ℕ) (space : AddressSpace) (heap : UserHeap) (fds : FdTable)
    (task j pid : ℕ) {t' : ProcessTable}
    → Valid t
    → create parent space heap fds task t ≡ done (ok pid, t')
    → table_holds t' j ≡ table_holds t j + holds fds j
unfolding create
create-holds t parent space heap fds task j pid {t'} v h =
    elim (Result-cases (can_create t parent)) [
      | inr (e, refuse) ↦ ground (arith, refuse, h)
      | inl (u, pass) ↦
          insert-holds (ensure_slots t) parent space heap fds task j pid {t' = t'}
            (get-ensure_slots t (ensure_slots t).next_pid
              ∙ (ap (get t) (next_pid-ensure_slots t) ∙ vacant_next t v))
            (ground (arith, pass, h))
          ∙ ap (λ (n : ℕ). n + holds fds j) (table_holds-ensure_slots t j)
    ]
