-- ===== src/Process/Lookup.antt =====
-- What a look-up in the process table of process.rs finds after each change to it.
use vlad_os.Base.{
  ◌==◌, if◌then◌else◌, Option-cases, length, get_elem?, length-set, get_elem?-set_at,
  set_out_of_bounds, flatten-replicate, ok, ℕ, ◌≡◌, refl, ap, ◌∙◌, inl, inr, true, Option, none,
  some, List, [], ◌∷◌, arith,
}
use vlad_os.Fd.{close_all}
use vlad_os.File.{OpenFileTable}
use vlad_os.Process.Status.{ProcessExit, zombie, is_zombie}
use vlad_os.Process.{
  Process, ProcessTable, contains, get, put, clear, ensure_slots, orphan_child, orphan_children,
  mark_exited,
}

pub get_slot :
    (t : ProcessTable) (i : ℕ) {p : Process}
    → get t i ≡ some p
    → get_elem? t.processes i ≡ some (some p)
unfolding get
get_slot t i {p} e = elim (Option-cases (get_elem? t.processes i)) [
  | inl n ↦ cc (rw n at e)
  | inr (o, s) ↦ s ∙ ap some (rw s at e)
]

pub get-put :
    (t : ProcessTable) (i j : ℕ) (p : Process) {old : Process}
    → get t i ≡ some old
    → get (put t i p) j ≡ (if i == j then some p else get t j)
unfolding get put
get-put t i j p {old} e = ground (arith, get_elem?-set_at t.processes i j (some p) (get_slot t i e))

pub next_pid-put : (t : ProcessTable) (i : ℕ) (p : Process) → (put t i p).next_pid ≡ t.next_pid
unfolding put
next_pid-put t i p = refl

pub length-put :
    (t : ProcessTable) (i : ℕ) (p : Process) → length (put t i p).processes ≡ length t.processes
unfolding put
length-put t i p = length-set t.processes i (some p)

pub get-clear :
    (t : ProcessTable) (i j : ℕ) → get (clear t i) j ≡ (if i == j then none else get t j)
unfolding get clear
get-clear t i j = elim (Option-cases (get_elem? t.processes i)) [
  | inl n ↦ rw (set_out_of_bounds t.processes i none n) (ground (arith, n))
  | inr (o, s) ↦ ground (arith, get_elem?-set_at t.processes i j none s)
]

get-ensure_slots_of_list :
    (ps : List (Option Process)) (n j : ℕ)
    → get (ensure_slots (record { processes = ps; next_pid = n })) j
      ≡ get (record { processes = ps; next_pid = n }) j
unfolding get ensure_slots
get-ensure_slots_of_list [] n j = flatten-replicate 17 j
get-ensure_slots_of_list (p ∷ ps) n j = refl

pub get-ensure_slots : (t : ProcessTable) (j : ℕ) → get (ensure_slots t) j ≡ get t j
get-ensure_slots t j = get-ensure_slots_of_list t.processes t.next_pid j

-- What an exiting parent leaves of a child: an orphan if it still runs, nothing if it is a zombie.
abbrev pub orphaned_view : Option Process → Option Process
orphaned_view none = none
orphaned_view (some p) =
    if is_zombie p.state then none else some (record p { parent = none; orphaned = true })

orphaned_view_idempotent : (o : Option Process) → orphaned_view (orphaned_view o) ≡ orphaned_view o
orphaned_view_idempotent none = refl
orphaned_view_idempotent (some p) = ground arith

pub get-orphan_child :
    (c : ℕ) (t : ProcessTable) (j : ℕ)
    → get (orphan_child c t) j ≡ (if c == j then orphaned_view (get t j) else get t j)
unfolding orphan_child
get-orphan_child c t j = elim (Option-cases (get t c)) [
  | inl n ↦ rw (n, orphan_child) (ground arith)
  | inr (p, s) ↦ ground (
    arith,
    s,
    get-put t c j (record p { parent = none; orphaned = true }) s,
    get-clear (put t c (record p { parent = none; orphaned = true })) c j,
  )
]

pub get-orphan_children :
    (cs : List ℕ) (t : ProcessTable) (j : ℕ)
    → get (orphan_children cs t) j ≡ (if contains cs j then orphaned_view (get t j) else get t j)
unfolding orphan_children
get-orphan_children [] t j = refl
get-orphan_children (c ∷ cs) t j = ground (
  arith,
  get-orphan_children cs (orphan_child c t) j,
  get-orphan_child c t j,
  orphaned_view_idempotent (get t j),
)

-- `mark_exited` of a process that is there succeeds. It becomes a zombie without children or open
-- descriptors, those of its children that run become orphans, those that had ended are gone, and
-- every other process stays as it was; the open files are what `close_all` of its descriptors
-- leaves.
pub get-mark_exited :
    (t : ProcessTable) (pid : ℕ) (exit : ProcessExit) (files : OpenFileTable) (j : ℕ) {p : Process}
    → get t pid ≡ some p
    → let (r, t', files') = mark_exited t pid exit files in
      let ended = record p {
        state = zombie exit;
        fd_table = (close_all p.fd_table files).0;
        children = [];
      } in
      let before = if pid == j then some ended else get t j in
      (r ≡ ok tt)
      × (get t' j ≡ (if contains p.children j then orphaned_view before else before))
      × (files' ≡ (close_all p.fd_table files).1)
unfolding mark_exited
get-mark_exited t pid exit files j {p} e =
    let ended : Process = record p {
      state = zombie exit;
      fd_table = (close_all p.fd_table files).0;
      children = [];
    } in
    rw (e, mark_exited)
      (
        refl,
        get-orphan_children p.children (put t pid ended) j
            ∙ ap (λ (o : Option Process). if contains p.children j then orphaned_view o else o)
                (get-put t pid j ended e),
        refl,
      )
