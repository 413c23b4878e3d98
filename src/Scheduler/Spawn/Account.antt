-- ===== src/Scheduler/Spawn/Account.antt =====
-- scheduler.rs: a spawn keeps the open files accounted for.
use vlad_os.Base.{
  leb, Bool-cases, length, ok, Result-cases, ℕ, ◌+◌, ◌≡◌, refl, inl, inr, Option, arith,
}
use vlad_os.File.Refs.{refs}
use vlad_os.Fd.{FdTable, new_with_stdio}
use vlad_os.Fd.Refs.{holds, new_with_stdio-Accounts}
use vlad_os.Process.{can_create}
use vlad_os.Process.Life.{create-Created, Created-Valid}
use vlad_os.Process.Valid.{Valid}
use vlad_os.Process.Holds.{table_holds, create-holds}
use vlad_os.Task.{Platform, max_tasks}
use vlad_os.Scheduler.{Kernel}
use vlad_os.Scheduler.Sound.{Sound, Ensures}
use vlad_os.Scheduler.Spawn.{UserTaskInit, spawn_with_fds, spawn_user_process}

module _ (p : Platform) (parent : Option ℕ) (init : UserTaskInit) (initial_rflags : ℕ) where
  spawn_with_fds-Sound :
      (fds : FdTable) (k : Kernel)
      → Valid k.processes
      → ((j : ℕ) → refs k.open_files j ≡ table_holds k.processes j + holds fds j)
      → can_create k.processes parent ≡ ok tt
      → Ensures Sound (spawn_with_fds p parent init initial_rflags fds k)
  unfolding spawn_with_fds
  spawn_with_fds-Sound fds k v balance can =
      let id = length k.tasks in
      let (t', made, c) =
        create-Created k.processes parent init.address_space init.heap fds id v can in
      rw (made, spawn_with_fds)
        (record {
          valid = Created-Valid v c refl refl;
          balanced = λ j. omega (
            arith,
            balance j,
            create-holds k.processes parent init.address_space init.heap fds id j
                k.processes.next_pid v made,
          );
        })

  -- Where each open file has as many references as descriptors of processes refer to it, starting
  -- a process leaves a kernel with such references, also where it fails.
  pub spawn_user_process-Sound :
      (k : Kernel) → Sound k → Ensures Sound (spawn_user_process p parent init initial_rflags k)
  unfolding spawn_user_process
  spawn_user_process-Sound k s = elim (Bool-cases (leb max_tasks (length k.tasks))) [
    | inl b ↦ rw (b, spawn_user_process) s
    | inr b ↦
        rw (b, spawn_user_process)
          (elim (Result-cases (can_create k.processes parent)) [
            | inr (error, e) ↦ rw e s
            | inl (u, e) ↦
                let opened = λ (j : ℕ). new_with_stdio-Accounts k.open_files j in
                rw e (elim (Result-cases (new_with_stdio k.open_files).0) [
                  | inl (fds, r) ↦ rw r (
                      spawn_with_fds-Sound fds
                        (record k { open_files = (new_with_stdio k.open_files).1 }) s.valid
                        (λ j. omega (arith, s.balanced j, rw r at (opened j))) e)
                  | inr (error, r) ↦ rw r (record {
                    valid = s.valid;
                    balanced = λ j. omega (arith, s.balanced j, rw r at (opened j));
                  })
                ])
          ])
  ]
