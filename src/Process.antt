-- ===== src/Process.antt =====
-- process.rs: the process table, its family links and the life of a process.
pub mod Status
pub mod Heap
pub mod Lookup
pub mod Valid
pub mod Reap
pub mod Holds
pub mod Life
pub mod Follows
use vlad_os.Base.{
  ltb, leb, ◌==◌, if◌then◌else◌, length, get_elem?, set, replicate, count_if, retain, is_some,
  flatten, Result, ok, err, Exec, done, panic, fail_if, expect, ◌>>=◌, ◌>>◌, and_then, ℕ, ◌+◌, Bool,
  true, false, not, ◌&&◌, ◌||◌, Option, none, some, List, [], ◌∷◌, ◌++◌,
}
use vlad_os.File.{FileError, OpenFileTable}
use vlad_os.Fd.{FdTable, close_all}
use mathlib.Core.Option
use Status.{ProcessExit, ProcessState, running, zombie, is_zombie}
use Heap.{UserHeap}

abbrev pub max_processes : ℕ
max_processes = 16

-- `AddressSpace` of address_space.rs: the physical address of its level-4 page table.
pub record AddressSpace : Type 0 where
  pub level_4_frame : ℕ

pub record Process : Type 0 where
  pub pid : ℕ
  pub parent : Option ℕ
  pub children : List ℕ
  pub state : ProcessState
  pub address_space : AddressSpace
  pub heap : UserHeap
  pub fd_table : FdTable
  pub main_task : ℕ
  pub orphaned : Bool

pub data ProcessError : Type 0 where
  full : ProcessError
  file : FileError → ProcessError
  missing_parent not_found not_child not_zombie : ProcessError

pub record ProcessTable : Type 0 where
  pub processes : List (Option Process)
  pub next_pid : ℕ

abbrev pub new : ProcessTable
new = record { processes = []; next_pid = 1 }

-- `self.children.contains(&child)`.
abbrev pub contains : List ℕ → ℕ → Bool
contains [] c = false
contains (x ∷ xs) c = x == c || contains xs c

unfoldable pub get : ProcessTable → ℕ → Option Process
get t pid = flatten (get_elem? t.processes pid)

-- What is written through `get_mut(pid)`; a missing process is left missing.
unfoldable pub put : ProcessTable → ℕ → Process → ProcessTable
put t pid p = record t { processes = set t.processes pid (some p) }

-- `*slot = None`.
unfoldable pub clear : ProcessTable → ℕ → ProcessTable
clear t pid = record t { processes = set t.processes pid none }

pub active_count : ProcessTable → ℕ
active_count t = count_if is_some t.processes

unfoldable pub ensure_slots : ProcessTable → ProcessTable
ensure_slots t = elim t.processes [
  | [] ↦ record t { processes = replicate (max_processes + 1) none }
  | _ ∷ _ ↦ t
]

abbrev has_parent : ProcessTable → Option ℕ → Bool
has_parent t none = true
has_parent t (some parent) = is_some (get t parent)

unfoldable pub can_create : ProcessTable → Option ℕ → Result ProcessError (Unit {0})
unfolding active_count
can_create t parent = do
  fail_if (leb max_processes (active_count t)) full
  fail_if (ltb max_processes t.next_pid) full
  fail_if (not (has_parent t parent)) missing_parent

-- The child is appended to its parent's children.
add_child : Option ℕ → ℕ → ProcessTable → Exec ProcessTable
add_child none pid t = done t
add_child (some parent) pid t =
    and_then (expect (get t parent))
      λ p. done (put t parent (record p { children = p.children ++ (pid ∷ []) }))

abbrev pub new_process : ℕ → Option ℕ → AddressSpace → UserHeap → FdTable → ℕ → Process
new_process pid parent address_space heap fd_table main_task = record {
  pid = pid;
  parent = parent;
  children = [];
  state = running;
  address_space = address_space;
  heap = heap;
  fd_table = fd_table;
  main_task = main_task;
  orphaned = false;
}

-- The body of `create` behind its check.
insert :
    Option ℕ
    → AddressSpace
    → UserHeap
    → FdTable
    → ℕ
    → ProcessTable
    → Exec (Result ProcessError ℕ × ProcessTable)
unfolding add_child
insert parent address_space heap fd_table main_task t =
    let pid = t.next_pid in
    if ltb pid (length t.processes)
    then (and_then
        (add_child parent pid (record {
          processes =
              set t.processes pid
                (some (new_process pid parent address_space heap fd_table main_task));
          next_pid = pid + 1;
        }))
        λ t'. done (ok pid, t'))
    else panic

unfoldable pub create :
    Option ℕ
    → AddressSpace
    → UserHeap
    → FdTable
    → ℕ
    → ProcessTable
    → Exec (Result ProcessError ℕ × ProcessTable)
unfolding insert
create parent address_space heap fd_table main_task t = elim (can_create t parent) [
  | err e ↦ done (err e, t)
  | ok _ ↦ insert parent address_space heap fd_table main_task (ensure_slots t)
]

unfoldable pub exists : ProcessTable → ℕ → Bool
exists t pid = is_some (get t pid)

unfoldable pub state_of : ProcessTable → ℕ → Option ProcessState
state_of t pid = Option.map (λ (p : Process). p.state) (get t pid)

unfoldable pub parent_of : ProcessTable → ℕ → Option (Option ℕ)
parent_of t pid = Option.map (λ (p : Process). p.parent) (get t pid)

unfoldable pub address_space_of : ProcessTable → ℕ → Option AddressSpace
address_space_of t pid = Option.map (λ (p : Process). p.address_space) (get t pid)

unfoldable pub heap_of : ProcessTable → ℕ → Option UserHeap
heap_of t pid = Option.map (λ (p : Process). p.heap) (get t pid)

unfoldable pub fd_table_of : ProcessTable → ℕ → Option FdTable
fd_table_of t pid = Option.map (λ (p : Process). p.fd_table) (get t pid)

unfoldable pub is_child : ProcessTable → ℕ → ℕ → Bool
is_child t parent child = elim (get t parent) [ none ↦ false | some p ↦ contains p.children child ]

-- One round of the loop over the children of an exiting process.
unfoldable pub orphan_child : ℕ → ProcessTable → ProcessTable
orphan_child child t = elim (get t child) [
  | none ↦ t
  | some p ↦
      let t' = put t child (record p { parent = none; orphaned = true }) in
      if is_zombie p.state then clear t' child else t'
]

pub orphan_children : List ℕ → ProcessTable → ProcessTable
orphan_children [] t = t
orphan_children (c ∷ cs) t = orphan_children cs (orphan_child c t)

unfoldable pub mark_exited :
    ProcessTable
    → ℕ
    → ProcessExit
    → OpenFileTable
    → Result ProcessError (Unit {0}) × ProcessTable × OpenFileTable
mark_exited t pid exit files = elim (get t pid) [
  | none ↦ (err not_found, t, files)
  | some p ↦
      let (fd_table, files') = close_all p.fd_table files in
      (
        ok tt,
        orphan_children p.children
            (put t pid (record p { state = zombie exit; fd_table = fd_table; children = [] })),
        files',
      )
]

-- `remove_child`, on a parent that is there.
pub remove_child : ProcessTable → ℕ → ℕ → ProcessTable
remove_child t parent child = elim (get t parent) [
  | none ↦ t
  | some p ↦ put t parent (record p { children = retain (λ pid. not (pid == child)) p.children })
]

unfoldable pub reap_child : ProcessTable → ℕ → ℕ → Result ProcessError ProcessExit × ProcessTable
unfolding remove_child
reap_child t parent child =
    if not (is_child t parent child) then (err not_child, t) else (elim (get t child) [
      | none ↦ (err not_found, t)
      | some p ↦ elim p.state [
        | running ↦ (err not_zombie, t)
        | zombie exit ↦ (ok exit, clear (remove_child t parent child) child)
      ]
    ])

unfoldable pub reap_orphan_if_zombie : ProcessTable → ℕ → ProcessTable
reap_orphan_if_zombie t pid = elim (get t pid) [
  | none ↦ t
  | some p ↦ if p.orphaned && is_zombie p.state then clear t pid else t
]
