-- ===== src/Scheduler/Files/Total.antt =====
-- scheduler.rs: open, read, write and close do not panic in a wired kernel, and keep the tasks.
pub mod Write
use vlad_os.Base.{
  ltb, leb, ◌==◌, Bool-cases, Option-cases, length, ok, done, and_then-Yields, Yields-map,
  Result-cases, ℕ, ◌≡◌, refl, inl, inr, not, some, List,
}
use vlad_os.File.{
  max_path_len, AccessMode, read_only, write_only, OpenFileKind, null_input, console_stdout,
  console_stderr, embedded_file, bad_fd, OpenFile, OpenFileTable, alloc, find_embedded_file,
  embedded_file_at,
}
use vlad_os.File
use vlad_os.Fd.{allocate_lowest, close, FdTable}
use vlad_os.Fd
use vlad_os.Memory.{X86, AddressLaws}
use vlad_os.UserMemory.{
  UserMemoryError, copy_from_user, copy_to_user, validate_user_range, user_stack_top,
}
use vlad_os.UserMemory
use vlad_os.UserMemory.Total.{IsCanonical, copy_from_user-Returns, copy_to_user-Returns}
use vlad_os.Process.{Process, address_space_of, fd_table_of, put}
use vlad_os.Process
use vlad_os.Process.Follows.{Follows-refl, put-Follows}
use vlad_os.Syscall.{SysError, SysResult, o_rdonly}
use vlad_os.Scheduler.{Kernel, K}
use vlad_os.Scheduler.Wired.{Wired, Steady, Steady-refl, Steady-trans, Leaves}
use vlad_os.Scheduler.Wired.Current.{or_refuse-Leaves, with_pid-Leaves}
use vlad_os.Scheduler.Exit.Total.{same-Steady}
use vlad_os.Scheduler.Files.{
  refuse, set_fd_table, install, open_path, sys_open_current, read_embedded, sys_read_current,
  sys_close_current, with_file,
}

set_fd_table-Steady : (pid : ℕ) (table : FdTable) (k : Kernel) → Steady k (set_fd_table pid table k)
unfolding set_fd_table
set_fd_table-Steady pid table k = elim (Option-cases (Process.get k.processes pid)) [
  | inl n ↦ rw (n, set_fd_table) (Steady-refl k)
  | inr (p, e) ↦
      rw (e, set_fd_table)
        (same-Steady k _ refl refl
          (put-Follows k.processes pid (record p { fd_table = table }) p e (λ r. r) refl (λ f. f)))
]

-- Another table of open files, and the same tasks and processes.
with_files : (k : Kernel) (files : OpenFileTable) → Steady k (record k { open_files = files })
with_files k files = same-Steady k _ refl refl (Follows-refl k.processes)

install-Steady : (pid open_file : ℕ) (k : Kernel) → Leaves (Steady k) (install pid open_file k)
unfolding install
install-Steady pid open_file k =
    or_refuse-Leaves (Steady k) k (Steady-refl k) (fd_table_of k.processes pid) _ _ λ table e.
      elim (Result-cases (allocate_lowest table open_file).0) [
        | inl (fd, r) ↦ rw r (set_fd_table-Steady pid _ k)
        | inr (error, r) ↦ rw r (with_files k _)
      ]

open_path-Steady : (pid : ℕ) (path : List ℕ) (k : Kernel) → Leaves (Steady k) (open_path pid path k)
unfolding open_path
open_path-Steady pid path k =
    or_refuse-Leaves (Steady k) k (Steady-refl k) (find_embedded_file path) _ _ λ file_id e.
      let made = alloc (embedded_file file_id) read_only k.open_files in
      let s = with_files k made.1 in
      elim (Result-cases made.0) [
        | inl (id, r) ↦ rw r (
            Yields-map _ _ (λ o. Steady-trans s) (install pid id (record k { open_files = made.1 }))
              (install-Steady pid id (record k { open_files = made.1 })))
        | inr (error, r) ↦ rw r s
      ]

pub sys_close-Steady : (fd : ℕ) (k : Kernel) → Wired k → Leaves (Steady k) (sys_close_current fd k)
unfolding sys_close_current
sys_close-Steady fd k w =
    with_pid-Leaves (Steady k) k (Steady-refl k) SysError.bad_fd _ w λ pid p runs.
      or_refuse-Leaves (Steady k) k (Steady-refl k) (fd_table_of k.processes pid) _ _ λ table e.
        let closed = close table fd k.open_files in
        elim (Result-cases closed.0) [
          | inl (u, r) ↦
              rw r (Steady-trans (with_files k closed.2) (set_fd_table-Steady pid closed.1 _))
          | inr (error, r) ↦ rw r (Steady-refl k)
        ]

-- The descriptor and the open file behind it.
pub with_file-Steady :
    (x : X86) (k : Kernel) (pid fd : ℕ) (f : ℕ → OpenFile → K SysResult)
    → ((id : ℕ) (file : OpenFile)
        → File.get k.open_files id ≡ some file
        → Leaves (Steady k) (f id file))
    → Leaves (Steady k) (with_file x pid fd k f)
with_file-Steady x k pid fd f h =
    or_refuse-Leaves (Steady k) k (Steady-refl k) (fd_table_of k.processes pid) _ _ λ table e.
      or_refuse-Leaves (Steady k) k (Steady-refl k) (Fd.get table fd) _ _ λ entry e₁.
        or_refuse-Leaves (Steady k) k (Steady-refl k) (File.get k.open_files entry.open_file) _ _
          λ file e₂. h entry.open_file file e₂

module _ (x : X86) (laws : AddressLaws x) where
  pub sys_open-Steady :
      (path_ptr path_len flags : ℕ) (k : Kernel)
      → IsCanonical x path_ptr
      → Wired k
      → Leaves (Steady k) (sys_open_current x path_ptr path_len flags k)
  unfolding sys_open_current
  sys_open-Steady path_ptr path_len flags k c w = elim (Bool-cases (not (flags == o_rdonly))) [
    | inl b ↦ rw (b, sys_open_current) (Steady-refl k)
    | inr b ↦
        rw (b, sys_open_current)
          (elim (Bool-cases (path_len == 0)) [
            | inl b₁ ↦ rw b₁ (Steady-refl k)
            | inr b₁ ↦ rw b₁ (elim (Bool-cases (ltb max_path_len path_len)) [
              | inl b₂ ↦ rw b₂ (Steady-refl k)
              | inr b₂ ↦ rw b₂ (
                  with_pid-Leaves (Steady k) k (Steady-refl k) SysError.bad_fd _ w λ pid p runs.
                    or_refuse-Leaves (Steady k) k (Steady-refl k) (address_space_of k.processes pid)
                      _ _
                      λ space e.
                        and_then-Yields _ (copy_from_user x k.memory space path_ptr path_len) _
                          (copy_from_user-Returns x laws k.memory space path_ptr path_len c)
                          λ copied r. elim (Result-cases copied) [
                            | inl (path, o) ↦ rw o (open_path-Steady pid path k)
                            | inr (error, o) ↦ rw o (Steady-refl k)
                          ])
            ])
          ])
  ]

  read_embedded-Steady :
      (pid open_file : ℕ) (file : OpenFile) (file_id user_buf len : ℕ) (k : Kernel)
      → IsCanonical x user_buf
      → File.get k.open_files open_file ≡ some file
      → Leaves (Steady k) (read_embedded x pid open_file file file_id user_buf len k)
  unfolding read_embedded
  read_embedded-Steady pid open_file file file_id user_buf len k c at =
      or_refuse-Leaves (Steady k) k (Steady-refl k) (embedded_file_at file_id) _ _ λ embedded e.
        elim (Bool-cases (leb (length embedded.bytes) file.offset)) [
          | inl b ↦ rw b (Steady-refl k)
          | inr b ↦ rw b (
              or_refuse-Leaves (Steady k) k (Steady-refl k) (address_space_of k.processes pid) _ _
                λ space e₁.
                  and_then-Yields _ (copy_to_user x space user_buf _ k.memory) _
                    (copy_to_user-Returns x laws space user_buf _ k.memory c)
                    λ copied r. elim (Result-cases copied.0) [
                      | inl (u, o) ↦
                          rw (o, at) (same-Steady k _ refl refl (Follows-refl k.processes))
                      | inr (error, o) ↦ rw o (same-Steady k _ refl refl (Follows-refl k.processes))
                    ])
        ]

  pub sys_read-Steady :
      (fd user_buf len : ℕ) (k : Kernel)
      → IsCanonical x user_buf
      → Wired k
      → Leaves (Steady k) (sys_read_current x fd user_buf len k)
  unfolding sys_read_current
  sys_read-Steady fd user_buf len k c w = elim (Bool-cases (len == 0)) [
    | inl b ↦ rw (b, sys_read_current) (Steady-refl k)
    | inr b ↦
        rw (b, sys_read_current)
          (with_pid-Leaves (Steady k) k (Steady-refl k) SysError.bad_fd _ w λ pid p runs.
            with_file-Steady x k pid fd _
              λ id file e. by_access pid id file e file.access file.kind)
  ]
    where
      by_access :
          (pid id : ℕ) (file : OpenFile)
          → File.get k.open_files id ≡ some file
          → (access : AccessMode) (kind : OpenFileKind)
          → Leaves (Steady k) {A = SysResult} (elim access [
            | write_only ↦ refuse SysError.bad_fd k
            | read_only ↦ elim kind [
              | null_input ↦ done (ok 0, k)
              | console_stdout ↦ refuse SysError.bad_fd k
              | console_stderr ↦ refuse SysError.bad_fd k
              | embedded_file file_id ↦ read_embedded x pid id file file_id user_buf len k
            ]
          ])
      by_access pid id file e write_only kind = Steady-refl k
      by_access pid id file e read_only null_input = Steady-refl k
      by_access pid id file e read_only console_stdout = Steady-refl k
      by_access pid id file e read_only console_stderr = Steady-refl k
      by_access pid id file e read_only (embedded_file file_id) =
          read_embedded-Steady pid id file file_id user_buf len k c e
