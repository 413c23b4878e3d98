-- ===== src/Tests/Tables.antt =====
-- The tables of files, descriptors and processes at concrete contents.
use vlad_os.Base.{
  ◌==◌, if◌then◌else◌, ok, err, done, ℕ, ◌+◌, ◌-◌, ◌≡◌, refl, none, some, [], ◌∷◌, arith,
}
use vlad_os.File.{
  read_only, write_only, null_input, console_stdout, OpenFileTable, fresh_file, alloc, dec_ref,
}
use vlad_os.File
use vlad_os.File.Refs.{refs, refs-alloc, dropped, freed_by_drop, get-dec_ref}
use vlad_os.Fd.{entry, FdTable, close_all, new_with_stdio, allocate_lowest, close}
use vlad_os.Fd
use vlad_os.Fd.Refs.{holds, refs-close_all, Accounts, new_with_stdio-Accounts}
use vlad_os.Fd.Table.{Allocates, Closes, allocate_lowest-Allocates, close-Closes}
use vlad_os.Process.Status.{exited, zombie, faulted}
use vlad_os.Process.{
  AddressSpace, Process, ProcessTable, contains, can_create, new_process, create, is_child,
  mark_exited, reap_child,
}
use vlad_os.Process
use vlad_os.Process.Heap.{UserHeap}
use vlad_os.Scheduler.Spawn.{spawn_user_process}
use vlad_os.Process.Lookup.{orphaned_view, get-mark_exited}
use vlad_os.Process.Reap.{ReapOf, reap_child-ReapOf}
use vlad_os.Process.Life.{Created, create-Created}
use vlad_os.Process.Holds.{table_holds, mark_exited-holds}
use vlad_os.Tests.Kernels.{family, family-Sound}

refs-alloc_example :
    refs (alloc console_stdout write_only File.new).1 0
    ≡ refs File.new 0 + elim (alloc console_stdout write_only File.new).0 [
      | ok id ↦ if id == 0 then 1 else 0
      | err _ ↦ 0
    ]
refs-alloc_example = refs-alloc console_stdout write_only File.new 0

abbrev one_file : OpenFileTable
one_file = record { files = some (fresh_file null_input read_only) ∷ none ∷ [] }

get-dec_ref_example :
    ((j : ℕ)
      → File.get (dec_ref one_file 0) j
        ≡ (if 0 == j then dropped (File.get one_file j) else File.get one_file j))
    × (File.active_count (dec_ref one_file 0) + freed_by_drop (File.get one_file 0)
        ≡ File.active_count one_file)
get-dec_ref_example = get-dec_ref one_file 0

abbrev one_descriptor : FdTable
one_descriptor = record { entries = some (entry 0) ∷ none ∷ [] }

new_with_stdio-Accounts_example : Accounts File.new (new_with_stdio File.new) 2
new_with_stdio-Accounts_example = new_with_stdio-Accounts File.new 2

refs-close_all_example :
    (refs (close_all one_descriptor one_file).1 0 ≡ refs one_file 0 - holds one_descriptor 0)
    × (holds (close_all one_descriptor one_file).0 0 ≡ 0)
refs-close_all_example = refs-close_all one_descriptor one_file 0

abbrev heap : UserHeap
heap = record { start = 0x4000; brk = 0x4000; limit = 0x8000; mapped_end = 0x4000 }

abbrev space : AddressSpace
space = record { level_4_frame = 0x3000 }

mark_exited-holds_example :
    table_holds (mark_exited family.processes 1 (exited 3) family.open_files).1 0
      + refs family.open_files 0
    ≡ table_holds family.processes 0
      + refs (mark_exited family.processes 1 (exited 3) family.open_files).2 0
mark_exited-holds_example =
    mark_exited-holds family.processes 1 (exited 3) family.open_files 0 family-Sound.valid
      (omega (arith, family-Sound.balanced 0))

can_create_child : can_create family.processes (some 1) ≡ ok tt
unfolding can_create spawn_user_process new_with_stdio alloc File.ensure_slots create
    Process.ensure_slots Process.get Process.put
can_create_child = refl

create-Created_example :
    (t' : ProcessTable) × (create (some 1) space heap one_descriptor 2 family.processes
      ≡ done (ok family.processes.next_pid, t'))
    × Created family.processes
        (some 1)
        (new_process family.processes.next_pid (some 1) space heap one_descriptor 2)
        t'
create-Created_example =
    create-Created family.processes (some 1) space heap one_descriptor 2 family-Sound.valid
      can_create_child

abbrev child_process : Process
child_process = record (new_process 2 (some 1) space heap one_descriptor 1) {
  state = zombie (exited 5);
}

abbrev parent_process : Process
parent_process = record (new_process 1 none space heap one_descriptor 0) { children = 2 ∷ [] }

abbrev two_processes : ProcessTable
two_processes = record {
  processes = none ∷ some parent_process ∷ some child_process ∷ none ∷ [];
  next_pid = 3;
}

two_processes_parent : Process.get two_processes 1 ≡ some parent_process
unfolding Process.get
two_processes_parent = refl

abbrev ended_parent : Process
ended_parent = record parent_process {
  state = zombie faulted;
  fd_table = (close_all one_descriptor one_file).0;
  children = [];
}

get-mark_exited_example :
    ((mark_exited two_processes 1 faulted one_file).0 ≡ ok tt)
    × (Process.get (mark_exited two_processes 1 faulted one_file).1 2 ≡ (
        if contains (2 ∷ []) 2
        then orphaned_view (if 1 == 2 then some ended_parent else Process.get two_processes 2)
        else (if 1 == 2 then some ended_parent else Process.get two_processes 2)))
    × ((mark_exited two_processes 1 faulted one_file).2 ≡ (close_all one_descriptor one_file).1)
get-mark_exited_example = get-mark_exited two_processes 1 faulted one_file 2 two_processes_parent

reap_child-ReapOf_example : ReapOf two_processes 1 2 (reap_child two_processes 1 2)
reap_child-ReapOf_example = reap_child-ReapOf two_processes 1 2

-- This call reaps the child.
reap_succeeds : (reap_child two_processes 1 2).0 ≡ ok (exited 5)
unfolding reap_child is_child Process.get
reap_succeeds = refl

allocate_lowest-Allocates_example : Allocates one_descriptor 4 (allocate_lowest one_descriptor 4)
allocate_lowest-Allocates_example = allocate_lowest-Allocates one_descriptor 4

close-Closes_example :
    Closes one_descriptor 0 one_file (Fd.get one_descriptor 0) (close one_descriptor 0 one_file)
close-Closes_example = close-Closes one_descriptor 0 one_file
