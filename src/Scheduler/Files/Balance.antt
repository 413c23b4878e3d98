-- ===== src/Scheduler/Files/Balance.antt =====
-- scheduler.rs: open and close keep the open files accounted for.
use vlad_os.Base.{
  ltb, ◌==◌, if◌then◌else◌, Bool-cases, Option-cases, ok, err, done, and_then, Result-cases, ℕ, ◌+◌,
  ◌≡◌, refl, ap, ◌∙◌, inl, inr, Bool, true, false, not, Option, none, some, List, arith,
}
use vlad_os.File.{max_path_len, read_only, embedded_file, alloc, find_embedded_file}
use vlad_os.File.Refs.{refs, refs-alloc, refs-dec_ref}
use vlad_os.Fd.{FdTable, allocate_lowest, close}
use vlad_os.Fd
use vlad_os.Fd.Refs.{holds, holds-allocate_lowest, refs-close}
use vlad_os.Memory.{X86}
use vlad_os.UserMemory.{copy_from_user}
use vlad_os.Process.Status.{is_zombie}
use vlad_os.Process.{Process, ProcessTable, put, address_space_of, fd_table_of}
use vlad_os.Process
use vlad_os.Process.Lookup.{get-put, next_pid-put, length-put}
use vlad_os.Process.Valid.{Valid}
use vlad_os.Process.Holds.{table_holds, table_holds-put, holds-le-table_holds}
use vlad_os.Syscall.{SysError, SysResult, o_rdonly}
use vlad_os.Scheduler.{Kernel, K, current_process_id}
use vlad_os.Scheduler.Sound.{Sound, Ensures, and_then-Ensures}
use vlad_os.Scheduler.Files.{
  map_file_error, refuse, or_refuse, with_pid, set_fd_table, install, open_path, sys_open_current,
  sys_close_current,
}

-- The current process, if there is one, has not ended.
abbrev pub CurrentRuns : Kernel → Type 0
CurrentRuns k =
    (pid : ℕ) (p : Process)
    → current_process_id k ≡ done (some pid)
    → Process.get k.processes pid ≡ some p
    → is_zombie p.state ≡ false

-- A running process may change its descriptors.
fd_update-Valid :
    (t : ProcessTable) (pid : ℕ) (p : Process) (table : FdTable)
    → Valid t
    → Process.get t pid ≡ some p
    → is_zombie p.state ≡ false
    → Valid (put t pid (record p { fd_table = table }))
fd_update-Valid t pid p table v e runs =
    let p' : Process = record p { fd_table = table } in
    record {
      slots = rw (length-put t pid p') v.slots;
      fresh = λ i q eq.
          let got = get-put t pid i p' e in
          let was = v.fresh pid p e in
          elim (Bool-cases (pid == i)) [
            | inl y ↦ ground (arith, y, eq, got, was, next_pid-put t pid p')
            | inr y ↦
                let there : Process.get t i ≡ some q = ground (arith, y, eq, got) in
                omega (arith, v.fresh i q there, next_pid-put t pid p')
          ];
      closed = λ i q eq z j.
          let got = get-put t pid i p' e in
          elim (Bool-cases (pid == i)) [
            | inl y ↦ ground (arith, y, eq, got, z, runs)
            | inr y ↦ v.closed i q (ground (arith, y, eq, got)) z j
          ];
    }

set_fd_table-Sound :
    (pid : ℕ) (table : FdTable) (k : Kernel) (p : Process)
    → Valid k.processes
    → Process.get k.processes pid ≡ some p
    → is_zombie p.state ≡ false
    → ((j : ℕ)
        → refs k.open_files j + Fd.Refs.holds p.fd_table j
          ≡ table_holds k.processes j + Fd.Refs.holds table j)
    → Sound (set_fd_table pid table k)
unfolding set_fd_table
set_fd_table-Sound pid table k p v e runs balance =
    rw (e, set_fd_table)
      (record {
        valid = fd_update-Valid k.processes pid p table v e runs;
        balanced = λ j.
            omega (
              arith,
              balance j,
              table_holds-put k.processes pid j (record p { fd_table = table }) e,
            );
      })

-- An open file that no table holds yet.
record Owes (id : ℕ) (k : Kernel) : Type 0 where
  valid : Valid k.processes
  balance : (j : ℕ) → refs k.open_files j ≡ table_holds k.processes j + (if id == j then 1 else 0)

install-Sound :
    (pid id : ℕ) (k : Kernel) (p : Process)
    → Owes id k
    → Process.get k.processes pid ≡ some p
    → is_zombie p.state ≡ false
    → Ensures Sound (install pid id k)
unfolding install fd_table_of
install-Sound pid id k p o e runs =
    let held = λ (j : ℕ). holds-allocate_lowest p.fd_table id j in
    elim (Result-cases (allocate_lowest p.fd_table id).0) [
      | inl (fd, r) ↦
          rw (e, install, or_refuse, r)
            (set_fd_table-Sound pid (allocate_lowest p.fd_table id).1 k p o.valid e runs
              (λ j. omega (arith, o.balance j, rw r at (held j))))
      | inr (error, r) ↦
          rw (e, install, or_refuse, r)
            (record {
              valid = o.valid;
              balanced = λ j. ground (arith, o.balance j, refs-dec_ref k.open_files id j);
            })
    ]

open_path-Sound :
    (pid : ℕ) (path : List ℕ) (k : Kernel) (p : Process)
    → Sound k
    → Process.get k.processes pid ≡ some p
    → is_zombie p.state ≡ false
    → Ensures Sound (open_path pid path k)
unfolding open_path
open_path-Sound pid path k p s e runs = elim (Option-cases (find_embedded_file path)) [
  | inl n ↦ rw (n, open_path, or_refuse) s
  | inr (file_id, found) ↦
      let kind = embedded_file file_id in
      let k' : Kernel = record k { open_files = (alloc kind read_only k.open_files).1 } in
      let opened = λ (j : ℕ). refs-alloc kind read_only k.open_files j in
      rw (found, open_path, or_refuse)
        (elim (Result-cases (alloc kind read_only k.open_files).0) [
          | inl (id, r) ↦ rw r (
              install-Sound pid id k' p
                (record {
                  valid = s.valid;
                  balance = λ j. omega (arith, s.balanced j, rw r at (opened j));
                })
                e runs)
          | inr (error, r) ↦ rw r (record {
            valid = s.valid;
            balanced = λ j. omega (arith, s.balanced j, rw r at (opened j));
          })
        ])
]

module _ (k : Kernel) (s : Sound k) where
  pub or_refuse-Sound {ℓ} :
      {A : Type ℓ} (o : Option A) (e : SysError) (f : A → K SysResult)
      → ((a : A) → o ≡ some a → Ensures Sound (f a))
      → Ensures Sound (or_refuse o e k f)
  or_refuse-Sound none e f g = s
  or_refuse-Sound (some a) e f g = g a refl

  pub with_pid-Sound :
      (e : SysError) (f : ℕ → K SysResult)
      → ((pid : ℕ) → current_process_id k ≡ done (some pid) → Ensures Sound (f pid))
      → Ensures Sound (with_pid e k f)
  with_pid-Sound e f g =
      and_then-Ensures Sound (current_process_id k) _
        λ o c. or_refuse-Sound o e f (λ pid at. g pid (c ∙ ap done at))

open_at-Sound :
    (x : X86) (pid path_ptr path_len : ℕ) (k : Kernel)
    → Sound k
    → CurrentRuns k
    → current_process_id k ≡ done (some pid)
    → Ensures Sound (
        or_refuse (address_space_of k.processes pid) SysError.bad_fd k λ space.
          and_then (copy_from_user x k.memory space path_ptr path_len) λ copied. elim copied [
            | err _ ↦ refuse SysError.fault k
            | ok path ↦ open_path pid path k
          ])
unfolding address_space_of
open_at-Sound x pid path_ptr path_len k s runs c =
    elim (Option-cases (Process.get k.processes pid)) [
      | inl n ↦ rw (n, address_space_of, or_refuse) s
      | inr (p, e) ↦
          rw (e, address_space_of, or_refuse)
            (and_then-Ensures Sound (copy_from_user x k.memory p.address_space path_ptr path_len) _
              λ copied h. elim (Result-cases copied) [
                | inl (path, r) ↦ rw r (open_path-Sound pid path k p s e (runs pid p c e))
                | inr (error, r) ↦ rw r s
              ])
    ]

pub sys_open-Sound :
    (x : X86) (path_ptr path_len flags : ℕ) (k : Kernel)
    → Sound k
    → CurrentRuns k
    → Ensures Sound (sys_open_current x path_ptr path_len flags k)
unfolding sys_open_current
sys_open-Sound x path_ptr path_len flags k s runs = checks (not (flags == o_rdonly)) _ _ (
    checks (path_len == 0) _ _ (
      checks (ltb max_path_len path_len) _ _ (
        with_pid-Sound k s SysError.bad_fd _
          (λ pid c. open_at-Sound x pid path_ptr path_len k s runs c))))
  where
    checks :
        (b : Bool) (e : SysError) (m : K SysResult)
        → Ensures Sound m
        → Ensures Sound (if b then refuse e k else m)
    checks true e m h = s
    checks false e m h = h

close_in-Sound :
    (pid fd : ℕ) (k : Kernel) (p : Process)
    → Sound k
    → Process.get k.processes pid ≡ some p
    → is_zombie p.state ≡ false
    → Ensures Sound {A = SysResult} (
        let (r, table', files) = close p.fd_table fd k.open_files in
        elim r [
          | err e ↦ refuse (map_file_error e) k
          | ok _ ↦ done (ok 0, set_fd_table pid table' (record k { open_files = files }))
        ])
close_in-Sound pid fd k p s e runs = elim (Result-cases (close p.fd_table fd k.open_files).0) [
  | inr (error, r) ↦ rw r s
  | inl (u, r) ↦ rw r (
      set_fd_table-Sound pid _ _ p s.valid e runs (λ j. omega (
        arith,
        s.balanced j,
        refs-close p.fd_table fd k.open_files j
            (omega (arith, s.balanced j, holds-le-table_holds k.processes pid j e)),
      )))
]

pub sys_close-Sound :
    (fd : ℕ) (k : Kernel) → Sound k → CurrentRuns k → Ensures Sound (sys_close_current fd k)
unfolding sys_close_current fd_table_of
sys_close-Sound fd k s runs = with_pid-Sound k s SysError.bad_fd _ λ pid c.
    elim (Option-cases (Process.get k.processes pid)) [
      | inl n ↦ rw (n, fd_table_of, or_refuse) s
      | inr (p, e) ↦ rw (e, fd_table_of, or_refuse) (close_in-Sound pid fd k p s e (runs pid p c e))
    ]
