-- ===== src/Process/Valid.antt =====
-- What every operation of the process table of process.rs keeps.
use vlad_os.Base.{
  ◌==◌, Bool-cases, Option-cases, length, retain, length-set, Result, ok, err, ℕ, ◌+◌, ◌<◌, ◌≡◌,
  refl, sym, ◌∙◌, ◌⊎◌, inl, inr, true, not, ◌&&◌, none, some, List, [], ◌∷◌, arith,
}
use vlad_os.File.{OpenFileTable}
use vlad_os.Fd.{close_all}
use vlad_os.Fd.Refs.{holds, refs-close_all}
use vlad_os.Process.Status.{ProcessExit, ProcessState, running, zombie, is_zombie}
use vlad_os.Process.Lookup.{get-put, next_pid-put, length-put, get-clear}
use vlad_os.Process.{
  max_processes, Process, ProcessError, not_found, not_child, not_zombie, ProcessTable, new, get,
  put, clear, is_child, orphan_child, orphan_children, mark_exited, remove_child, reap_child,
  reap_orphan_if_zombie,
}

-- The slots are made at the first `create`; ids are the slots' indices, given out in order; an
-- ended process has given its descriptors back.
pub record Valid (t : ProcessTable) : Type 0 where
  pub slots : (length t.processes ≡ 0) ⊎ (length t.processes ≡ max_processes + 1)
  pub fresh : (i : ℕ) (p : Process) → get t i ≡ some p → (p.pid ≡ i) × (i < t.next_pid)
  pub closed :
      (i : ℕ) (p : Process)
      → get t i ≡ some p
      → is_zombie p.state ≡ true
      → (j : ℕ) → holds p.fd_table j ≡ 0

pub new-Valid : Valid new
unfolding get
new-Valid = record { slots = inl refl; fresh = λ i p e. cc; closed = λ i p e z j. cc }

-- Changes that only rewrite or free slots keep a table valid.
pub record Shrinks (t t' : ProcessTable) : Type 0 where
  pub same_slots : length t'.processes ≡ length t.processes
  pub same_next : t'.next_pid ≡ t.next_pid
  pub kept :
      (i : ℕ) (p : Process)
      → get t' i ≡ some p
      → (q : Process) × (get t i ≡ some q)
        × (p.pid ≡ q.pid)
        × (is_zombie p.state ≡ is_zombie q.state)
        × (p.fd_table ≡ q.fd_table)

pub Valid-Shrinks : {t t' : ProcessTable} → Valid t → Shrinks t t' → Valid t'
Valid-Shrinks {t} {t'} v s = record {
  slots = rw s.same_slots v.slots;
  fresh = λ i p e.
      let (q, eq, pid, z, f) = s.kept i p e in
      let h = v.fresh i q eq in omega (arith, h, pid, s.same_next);
  closed = λ i p e zombie j.
      let (q, eq, pid, z, f) = s.kept i p e in rw f (v.closed i q eq (sym z ∙ zombie) j);
}

pub clear-Shrinks : (t : ProcessTable) (i : ℕ) → Shrinks t (clear t i)
clear-Shrinks t i = record {
  same_slots = unfold clear in length-set t.processes i none;
  same_next = unfold clear in refl;
  kept = λ j p e. (p, ground (arith, e, get-clear t i j), refl, refl, refl);
}

pub put-Shrinks :
    (t : ProcessTable) (i : ℕ) (p old : Process)
    → get t i ≡ some old
    → p.pid ≡ old.pid
    → is_zombie p.state ≡ is_zombie old.state
    → p.fd_table ≡ old.fd_table
    → Shrinks t (put t i p)
put-Shrinks t i p old e pid z f = record {
  same_slots = unfold put in length-set t.processes i (some p);
  same_next = unfold put in refl;
  kept = λ j q eq.
      let got = get-put t i j p e in
      elim (Bool-cases (i == j)) [
        | inl h ↦ (
          old,
          ground (arith, h, e),
          ground (arith, h, eq, got, pid),
          ground (arith, h, eq, got, z),
          ground (arith, h, eq, got, f),
        )
        | inr h ↦ (q, ground (arith, h, eq, got), refl, refl, refl)
      ];
}

pub Shrinks-trans : {t u w : ProcessTable} → Shrinks t u → Shrinks u w → Shrinks t w
Shrinks-trans a b = record {
  same_slots = b.same_slots ∙ a.same_slots;
  same_next = b.same_next ∙ a.same_next;
  kept = λ i p e.
      let (q, eq, h1, h2, h3) = b.kept i p e in
      let (r, er, k1, k2, k3) = a.kept i q eq in (r, er, h1 ∙ k1, h2 ∙ k2, h3 ∙ k3);
}

pub Shrinks-refl : (t : ProcessTable) → Shrinks t t
Shrinks-refl t = record {
  same_slots = refl;
  same_next = refl;
  kept = λ i p e. (p, e, refl, refl, refl);
}

pub orphan_child-Shrinks : (c : ℕ) (t : ProcessTable) → Shrinks t (orphan_child c t)
unfolding orphan_child
orphan_child-Shrinks c t = elim (Option-cases (get t c)) [
  | inl n ↦ rw (n, orphan_child) (Shrinks-refl t)
  | inr (p, e) ↦
      let orphan : Process = record p { parent = none; orphaned = true } in
      let written = put-Shrinks t c orphan p e refl refl refl in
      rw (e, orphan_child)
        (elim (Bool-cases (is_zombie p.state)) [
          | inl z ↦ rw z (Shrinks-trans written (clear-Shrinks (put t c orphan) c))
          | inr z ↦ rw z written
        ])
]

pub orphan_children-Shrinks : (cs : List ℕ) (t : ProcessTable) → Shrinks t (orphan_children cs t)
unfolding orphan_children
orphan_children-Shrinks [] t = Shrinks-refl t
orphan_children-Shrinks (c ∷ cs) t =
    Shrinks-trans (orphan_child-Shrinks c t) (orphan_children-Shrinks cs (orphan_child c t))

pub remove_child-Shrinks :
    (t : ProcessTable) (parent child : ℕ) → Shrinks t (remove_child t parent child)
unfolding remove_child
remove_child-Shrinks t parent child = elim (Option-cases (get t parent)) [
  | inl n ↦ rw (n, remove_child) (Shrinks-refl t)
  | inr (p, e) ↦
      rw (e, remove_child)
        (put-Shrinks t parent
          (record p { children = retain (λ pid. not (pid == child)) p.children }) p e refl refl
          refl)
]

-- What `reap_child` returns and leaves: an error and the table unchanged, or the exit of a zombie
-- that is a child of the parent, and a table without either the link or the zombie.
pub data Reaps (t : ProcessTable) (parent child : ℕ)
    : Result ProcessError ProcessExit × ProcessTable → Type 0 where
  refused : (e : ProcessError) → Reaps t parent child (err e, t)
  reaped :
      (p : Process) (exit : ProcessExit)
      → is_child t parent child ≡ true
      → get t child ≡ some p
      → p.state ≡ zombie exit
      → Reaps t parent child (ok exit, clear (remove_child t parent child) child)

-- `reap_child` does one of two things. It fails and changes nothing; or the child is a zombie and a
-- child of the parent, and then the call returns how it ended, takes it out of the parent's children
-- and frees its slot.
pub reap_child-Reaps :
    (t : ProcessTable) (parent child : ℕ) → Reaps t parent child (reap_child t parent child)
unfolding reap_child
reap_child-Reaps t parent child = elim (Bool-cases (is_child t parent child)) [
  | inr h ↦ rw (h, reap_child) (refused not_child)
  | inl h ↦
      rw (h, reap_child)
        (elim (Option-cases (get t child)) [
          | inl n ↦ rw (n, reap_child) (refused not_found)
          | inr (p, e) ↦ rw (e, reap_child) (by_state p h e p.state refl)
        ])
]
  where
    by_state :
        (p : Process)
        → is_child t parent child ≡ true
        → get t child ≡ some p
        → (s : ProcessState) → p.state ≡ s
        → Reaps t parent child (elim s [
          | running ↦ (err not_zombie, t)
          | zombie exit ↦ (ok exit, clear (remove_child t parent child) child)
        ])
    by_state p h e running z = refused not_zombie
    by_state p h e (zombie exit) z = reaped p exit h e z

pub Reaps-Shrinks :
    {t : ProcessTable} {parent child : ℕ} {r : Result ProcessError ProcessExit × ProcessTable}
    → Reaps t parent child r
    → Shrinks t r.1
Reaps-Shrinks {t} (refused e) = Shrinks-refl t
Reaps-Shrinks {t} {parent} {child} (reaped p exit h e z) =
    Shrinks-trans (remove_child-Shrinks t parent child) (clear-Shrinks _ child)

pub reap_orphan_if_zombie-Shrinks :
    (t : ProcessTable) (pid : ℕ) → Shrinks t (reap_orphan_if_zombie t pid)
unfolding reap_orphan_if_zombie
reap_orphan_if_zombie-Shrinks t pid = elim (Option-cases (get t pid)) [
  | inl n ↦ rw (n, reap_orphan_if_zombie) (Shrinks-refl t)
  | inr (p, e) ↦
      rw (e, reap_orphan_if_zombie)
        (elim (Bool-cases (p.orphaned && is_zombie p.state)) [
          | inl h ↦ rw h (clear-Shrinks t pid)
          | inr h ↦ rw h (Shrinks-refl t)
        ])
]

pub ended-Valid :
    (t : ProcessTable) (pid : ℕ) (ended p : Process)
    → Valid t
    → get t pid ≡ some p
    → ended.pid ≡ p.pid
    → ((j : ℕ) → holds ended.fd_table j ≡ 0)
    → Valid (put t pid ended)
ended-Valid t pid ended p v e same h = record {
  slots = rw (length-put t pid ended) v.slots;
  fresh = λ i q eq.
      let got = get-put t pid i ended e in
      let was = v.fresh pid p e in
      elim (Bool-cases (pid == i)) [
        | inl y ↦ ground (arith, y, eq, got, was, same, next_pid-put t pid ended)
        | inr y ↦
            let there : get t i ≡ some q = ground (arith, y, eq, got) in
            omega (arith, v.fresh i q there, next_pid-put t pid ended)
      ];
  closed = λ i q eq z j.
      let got = get-put t pid i ended e in
      elim (Bool-cases (pid == i)) [
        | inl y ↦ ground (arith, y, eq, got, h j)
        | inr y ↦ v.closed i q (ground (arith, y, eq, got)) z j
      ];
}

-- The end of a process keeps the table valid: a zombie holds no references, pids stand in their
-- slots, below the next pid.
pub mark_exited-Valid :
    (t : ProcessTable) (pid : ℕ) (exit : ProcessExit) (files : OpenFileTable)
    → Valid t
    → Valid (mark_exited t pid exit files).1
unfolding mark_exited
mark_exited-Valid t pid exit files v = elim (Option-cases (get t pid)) [
  | inl n ↦ rw (n, mark_exited) v
  | inr (p, e) ↦
      let ended : Process = record p {
        state = zombie exit;
        fd_table = (close_all p.fd_table files).0;
        children = [];
      } in
      rw (e, mark_exited)
        (Valid-Shrinks
          (ended-Valid t pid ended p v e refl (λ j. (refs-close_all p.fd_table files j).1))
          (orphan_children-Shrinks p.children (put t pid ended)))
]
