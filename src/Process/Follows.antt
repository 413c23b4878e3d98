-- ===== src/Process/Follows.antt =====
-- How a process goes on through the changes of the process table: as long as it runs it keeps its
-- slot and its task, and its heap stays fit.
use vlad_os.Base.{
  ◌==◌, Bool-cases, Option-cases, retain, Result, ℕ, ◌≡◌, refl, ◌∙◌, ◌≢◌, inl, inr, true, false,
  not, ◌&&◌, Option, none, some, arith,
}
use vlad_os.File.{OpenFileTable}
use vlad_os.Process.Status.{ProcessExit, is_zombie}
use vlad_os.Process.Heap.{Fits}
use vlad_os.Process.Lookup.{get-put, get-clear, orphaned_view, get-mark_exited}
use vlad_os.Process.Valid.{Reaps, refused, reaped, reap_child-Reaps}
use vlad_os.Process.Life.{adopted, Created}
use vlad_os.Process.{
  Process, ProcessError, ProcessTable, contains, get, put, clear, mark_exited, remove_child,
  reap_child, reap_orphan_if_zombie,
}

-- What may stand in a slot later: only a zombie leaves it, and no process appears.
abbrev pub Succeeds : Option Process → Option Process → Type 0
Succeeds none none = Unit
Succeeds none (some q) = ⊥
Succeeds (some p) none = is_zombie p.state ≡ true
Succeeds (some p) (some q) =
    (is_zombie p.state ≡ false → is_zombie q.state ≡ false)
    × (q.main_task ≡ p.main_task)
    × (Fits p.heap → Fits q.heap)

abbrev pub Follows : ProcessTable → ProcessTable → Type 0
Follows t t' = (j : ℕ) → Succeeds (get t j) (get t' j)

Succeeds-refl : (o : Option Process) → Succeeds o o
Succeeds-refl none = tt
Succeeds-refl (some p) = (λ r. r, refl, λ f. f)

Succeeds-trans : (o p q : Option Process) → Succeeds o p → Succeeds p q → Succeeds o q
Succeeds-trans none none none a b = tt
Succeeds-trans none none (some q) a b = elim b [ ]
Succeeds-trans none (some p) q a b = elim a [ ]
Succeeds-trans (some o) none (some q) a b = elim b [ ]
Succeeds-trans (some o) none none a b = a
Succeeds-trans (some o) (some p) none (runs, task, fits) b = elim (Bool-cases (is_zombie o.state)) [
  | inl z ↦ z
  | inr n ↦ cc (runs n)
]
Succeeds-trans (some o) (some p) (some q) (r, s, f) (r', s', f') =
    (λ n. r' (r n), s' ∙ s, λ h. f' (f h))

pub Follows-refl : (t : ProcessTable) → Follows t t
Follows-refl t j = Succeeds-refl (get t j)

pub Follows-trans : (t u w : ProcessTable) → Follows t u → Follows u w → Follows t w
Follows-trans t u w a b j = Succeeds-trans (get t j) (get u j) (get w j) (a j) (b j)

pub put-Follows :
    (t : ProcessTable) (i : ℕ) (p old : Process)
    → get t i ≡ some old
    → (is_zombie old.state ≡ false → is_zombie p.state ≡ false)
    → p.main_task ≡ old.main_task
    → (Fits old.heap → Fits p.heap)
    → Follows t (put t i p)
put-Follows t i p old e runs task fits j = rw (get-put t i j p e) (elim (Bool-cases (i == j)) [
  | inl y ↦ let at : i ≡ j = ground arith in rw (y, ← at, e) (runs, task, fits)
  | inr n ↦ rw n (Succeeds-refl (get t j))
])

Succeeds-orphaned_view : (o : Option Process) → Succeeds o (orphaned_view o)
Succeeds-orphaned_view none = tt
Succeeds-orphaned_view (some p) = elim (Bool-cases (is_zombie p.state)) [
  | inl z ↦ rw z z
  | inr n ↦ rw n (λ r. r, refl, λ f. f)
]

-- A zombie may go.
pub clear-Follows :
    (t : ProcessTable) (i : ℕ) {p : Process}
    → get t i ≡ some p
    → is_zombie p.state ≡ true
    → Follows t (clear t i)
clear-Follows t i e z j = rw (get-clear t i j) (elim (Bool-cases (i == j)) [
  | inl y ↦ let at : i ≡ j = ground arith in rw (y, ← at, e) z
  | inr n ↦ rw n (Succeeds-refl (get t j))
])

pub reap_orphan_if_zombie-Follows :
    (t : ProcessTable) (pid : ℕ) → Follows t (reap_orphan_if_zombie t pid)
unfolding reap_orphan_if_zombie
reap_orphan_if_zombie-Follows t pid = elim (Option-cases (get t pid)) [
  | inl n ↦ rw (n, reap_orphan_if_zombie) (Follows-refl t)
  | inr (p, e) ↦
      rw (e, reap_orphan_if_zombie)
        (elim (Bool-cases (p.orphaned && is_zombie p.state)) [
          | inl b ↦ rw b (clear-Follows t pid e (ground (arith, b)))
          | inr b ↦ rw b (Follows-refl t)
        ])
]

remove_child-Follows :
    (t : ProcessTable) (parent child : ℕ) → Follows t (remove_child t parent child)
unfolding remove_child
remove_child-Follows t parent child = elim (Option-cases (get t parent)) [
  | inl n ↦ rw (n, remove_child) (Follows-refl t)
  | inr (p, e) ↦
      rw (e, remove_child)
        (put-Follows t parent
          (record p { children = retain (λ pid. not (pid == child)) p.children }) p e (λ r. r) refl
          (λ f. f))
]

-- After `remove_child` a process stands in its slot with the state that it had.
get-remove_child :
    (t : ProcessTable) (parent child i : ℕ) {p : Process}
    → get t i ≡ some p
    → (q : Process) × (get (remove_child t parent child) i ≡ some q) × (q.state ≡ p.state)
unfolding remove_child
get-remove_child t parent child i {p} e = elim (Option-cases (get t parent)) [
  | inl n ↦ rw (n, remove_child) (p, e, refl)
  | inr (o, h) ↦
      let o' : Process = record o { children = retain (λ pid. not (pid == child)) o.children } in
      rw (h, remove_child)
        (elim (Bool-cases (parent == i)) [
          | inl y ↦ (o', get-put t parent i o' h ∙ ground (arith, y), ground (arith, y, e, h))
          | inr n ↦ (p, get-put t parent i o' h ∙ ground (arith, n, e), refl)
        ])
]

Reaps-Follows :
    {t : ProcessTable} {parent child : ℕ} {r : Result ProcessError ProcessExit × ProcessTable}
    → Reaps t parent child r
    → Follows t r.1
Reaps-Follows {t} (refused e) = Follows-refl t
Reaps-Follows {t} {parent} {child} (reaped p exit h e z) =
    let (q, there, same) = get-remove_child t parent child child e in
    Follows-trans t (remove_child t parent child) _ (remove_child-Follows t parent child)
      (clear-Follows (remove_child t parent child) child there (rw (same, z) refl))

pub reap_child-Follows :
    (t : ProcessTable) (parent child : ℕ) → Follows t (reap_child t parent child).1
reap_child-Follows t parent child = Reaps-Follows (reap_child-Reaps t parent child)

-- What an exit of a process does to the other ones.
pub mark_exited-Follows :
    (t : ProcessTable) (pid : ℕ) (exit : ProcessExit) (files : OpenFileTable) (j : ℕ) {p : Process}
    → get t pid ≡ some p
    → (pid == j) ≡ false
    → Succeeds (get t j) (get (mark_exited t pid exit files).1 j)
mark_exited-Follows t pid exit files j {p} e other =
    let (worked, there, closed) = get-mark_exited t pid exit files j e in
    rw (there, other)
      (elim (Bool-cases (contains p.children j)) [
        | inl c ↦ rw c (Succeeds-orphaned_view (get t j))
        | inr c ↦ rw c (Succeeds-refl (get t j))
      ])

-- A new process in a free slot.
pub Created-Follows :
    {t t' : ProcessTable} {parent : Option ℕ} {p : Process} (j : ℕ)
    → Created t parent p t'
    → j ≢ t.next_pid
    → Succeeds (get t j) (get t' j)
Created-Follows {t} {t'} {parent} j c other = rw (c.others j other) (adopts parent)
  where
    adopting : (q : ℕ) (o : Option Process) → Succeeds o (adopted (some q) t.next_pid j o)
    adopting q none = elim (Bool-cases (q == j)) [ inl y ↦ rw y tt | inr n ↦ rw n tt ]
    adopting q (some o) = elim (Bool-cases (q == j)) [
      | inl y ↦ rw y (λ r. r, refl, λ f. f)
      | inr n ↦ rw n (λ r. r, refl, λ f. f)
    ]

    adopts : (parent : Option ℕ) → Succeeds (get t j) (adopted parent t.next_pid j (get t j))
    adopts none = Succeeds-refl (get t j)
    adopts (some q) = adopting q (get t j)
