-- ===== src/Process/Reap.antt =====
-- process.rs: what `reap_child` returns, and what a look-up finds after it.
use vlad_os.Base.{
  ◌==◌, if◌then◌else◌, Bool-cases, Option-cases, retain, Result, ok, err, ℕ, ◌≡◌, refl, ◌∙◌, ◌≢◌,
  inl, inr, true, false, not, ◌&&◌, none, some, List, [], ◌∷◌, arith,
}
use vlad_os.Process.Status.{ProcessExit, ProcessState, running, zombie}
use vlad_os.Process.Lookup.{get-put, get-clear}
use vlad_os.Process.{
  Process, ProcessError, not_found, not_child, not_zombie, ProcessTable, contains, get, put, clear,
  is_child, remove_child, reap_child,
}

-- A process of the table that lists the child.
pub record ParentOf (t : ProcessTable) (parent child : ℕ) (p : Process) : Type 0 where
  pub there : get t parent ≡ some p
  pub lists : contains p.children child ≡ true

-- The parent after the call: the child is no longer among its children, all others are, and
-- nothing else of it has changed.
pub record WithoutChild (child : ℕ) (before after : Process) : Type 0 where
  pub same : after ≡ record before { children = after.children }
  pub gone : contains after.children child ≡ false
  pub others : (j : ℕ) → j ≢ child → contains after.children j ≡ contains before.children j

-- The outcomes of the call: an error with its cause, and the table unchanged; or the exit of the
-- child, whose slot is free then.
pub data ReapOf (t : ProcessTable) (parent child : ℕ)
    : Result ProcessError ProcessExit × ProcessTable → Type 0 where
  refused_not_child :
      ((p : Process) → get t parent ≡ some p → contains p.children child ≡ false)
      → ReapOf t parent child (err not_child, t)
  refused_not_found :
      (p : Process)
      → ParentOf t parent child p
      → get t child ≡ none
      → ReapOf t parent child (err not_found, t)
  refused_not_zombie :
      (p q : Process)
      → ParentOf t parent child p
      → get t child ≡ some q
      → q.state ≡ running
      → ReapOf t parent child (err not_zombie, t)
  reaped :
      (p p' q : Process) (exit : ProcessExit) (t' : ProcessTable)
      → ParentOf t parent child p
      → get t child ≡ some q
      → q.state ≡ zombie exit
      → WithoutChild child p p'
      → ((j : ℕ)
          → get t' j ≡ (if j == child then none else if j == parent then some p' else get t j))
      → t'.next_pid ≡ t.next_pid
      → ReapOf t parent child (ok exit, t')

contains-retain :
    (xs : List ℕ) (child j : ℕ)
    → contains (retain (λ pid. not (pid == child)) xs) j ≡ (contains xs j && not (j == child))
contains-retain [] child j = refl
contains-retain (x ∷ xs) child j = ground (arith, contains-retain xs child j)

abbrev without : ℕ → Process → Process
without child p = record p { children = retain (λ pid. not (pid == child)) p.children }

without-WithoutChild : (child : ℕ) (p : Process) → WithoutChild child p (without child p)
without-WithoutChild child p = record {
  same = refl;
  gone = ground (arith, contains-retain p.children child child);
  others = λ j h. ground (arith, h, contains-retain p.children child j);
}

get-remove_child :
    (t : ProcessTable) (parent child j : ℕ) {p : Process}
    → get t parent ≡ some p
    → get (remove_child t parent child) j
      ≡ (if parent == j then some (without child p) else get t j)
unfolding remove_child
get-remove_child t parent child j {p} e =
    rw (e, remove_child) (get-put t parent j (without child p) e)

next_pid-remove_child :
    (t : ProcessTable) (parent child : ℕ) → (remove_child t parent child).next_pid ≡ t.next_pid
unfolding remove_child put
next_pid-remove_child t parent child = ground arith

next_pid-clear : (t : ProcessTable) (i : ℕ) → (clear t i).next_pid ≡ t.next_pid
unfolding clear
next_pid-clear t i = refl

is_child-none :
    (t : ProcessTable) (parent child : ℕ) → get t parent ≡ none → is_child t parent child ≡ false
unfolding is_child
is_child-none t parent child e = ground (arith, e)

is_child-contains :
    (t : ProcessTable) (parent child : ℕ) {p : Process}
    → get t parent ≡ some p
    → is_child t parent child ≡ contains p.children child
unfolding is_child
is_child-contains t parent child e = ground (arith, e)

-- `reap_child` fails without a change where the parent does not list the child, where no such
-- process is there, and where it still runs, with a different error each. Else it returns how the
-- child ended, frees its slot and takes it out of the parent's children; the parent's other fields and
-- children, and every other process, stay as they were.
pub reap_child-ReapOf :
    (t : ProcessTable) (parent child : ℕ) → ReapOf t parent child (reap_child t parent child)
unfolding reap_child
reap_child-ReapOf t parent child = elim (Option-cases (get t parent)) [
  | inl n ↦ rw (is_child-none t parent child n, reap_child) (refused_not_child (λ p e. cc))
  | inr (p, e) ↦ elim (Bool-cases (contains p.children child)) [
    | inr h ↦
        rw (is_child-contains t parent child e ∙ h, reap_child)
          (refused_not_child (λ p' e'. ground (arith, e, e', h)))
    | inl h ↦
        let link : ParentOf t parent child p = record { there = e; lists = h } in
        rw (is_child-contains t parent child e ∙ h, reap_child)
          (elim (Option-cases (get t child)) [
            | inl n ↦ rw (n, reap_child) (refused_not_found p link n)
            | inr (q, f) ↦ rw (f, reap_child) (by_state p q link f q.state refl)
          ])
  ]
]
  where
    by_state :
        (p q : Process)
        → ParentOf t parent child p
        → get t child ≡ some q
        → (s : ProcessState) → q.state ≡ s
        → ReapOf t parent child (elim s [
          | running ↦ (err not_zombie, t)
          | zombie exit ↦ (ok exit, clear (remove_child t parent child) child)
        ])
    by_state p q link f running z = refused_not_zombie p q link f z
    by_state p q link f (zombie exit) z =
        reaped p (without child p) q exit _ link f z (without-WithoutChild child p)
          (λ j. ground (
            arith,
            get-clear (remove_child t parent child) child j,
            get-remove_child t parent child j link.there,
          ))
          (next_pid-clear (remove_child t parent child) child
            ∙ next_pid-remove_child t parent child)
