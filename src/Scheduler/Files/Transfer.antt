-- ===== src/Scheduler/Files/Transfer.antt =====
-- scheduler.rs: read and write keep the open files accounted for.
use vlad_os.Base.{
  ltb, leb, ◌==◌, Bool-cases, length, ok, done, expect, Result-cases, ℕ, zero, suc, ◌∙◌, inl, inr,
  ◌++◌,
}
use vlad_os.Words.{checked_add}
use vlad_os.File.{
  AccessMode, read_only, write_only, OpenFileKind, null_input, console_stdout, console_stderr,
  embedded_file, bad_fd, fault, OpenFile, embedded_file_at,
}
use vlad_os.File
use vlad_os.File.Refs.{refs-set_offset}
use vlad_os.Fd.{entry}
use vlad_os.Fd
use vlad_os.Memory.{X86}
use vlad_os.UserMemory.{UserMemoryError, copy_from_user, copy_to_user, validate_user_range}
use vlad_os.UserMemory
use vlad_os.Process.{Process, ProcessTable, put, address_space_of, fd_table_of}
use vlad_os.Process
use vlad_os.Syscall.{SysError, SysResult}
use vlad_os.Scheduler.{Kernel, K}
use vlad_os.Scheduler.Sound.{Sound, Ensures, and_then-Ensures}
use vlad_os.Scheduler.Files.{
  refuse, read_embedded, sys_read_current, write_console, sys_write_current, with_file, write_loop,
}
use vlad_os.Scheduler.Files.Balance.{or_refuse-Sound, with_pid-Sound}

-- A read moves an offset, which no count depends on.
read_embedded-Sound :
    (x : X86) (pid open_file : ℕ) (file : OpenFile) (file_id user_buf len : ℕ) (k : Kernel)
    → Sound k
    → Ensures Sound (read_embedded x pid open_file file file_id user_buf len k)
unfolding read_embedded
read_embedded-Sound x pid open_file file file_id user_buf len k s =
    or_refuse-Sound k s (embedded_file_at file_id) SysError.bad_fd _ λ embedded found.
      elim (Bool-cases (leb (length embedded.bytes) file.offset)) [
        | inl b ↦ rw b s
        | inr b ↦ rw b (
            or_refuse-Sound k s (address_space_of k.processes pid) SysError.bad_fd _ λ space at.
              and_then-Ensures Sound (copy_to_user x space user_buf _ k.memory) _ λ copied h.
                elim (Result-cases copied.0) [
                  | inl (u, r) ↦ rw r (
                      and_then-Ensures Sound (expect (File.get k.open_files open_file)) _ (λ f g.
                        record {
                          valid = s.valid;
                          balanced = λ j. refs-set_offset k.open_files open_file _ j ∙ s.balanced j;
                        }))
                  | inr (error, r) ↦ rw r s
                ])
      ]

with_file-Sound :
    (x : X86) (pid fd : ℕ) (k : Kernel) (f : ℕ → OpenFile → K SysResult)
    → Sound k
    → ((id : ℕ) (file : OpenFile) → Ensures Sound (f id file))
    → Ensures Sound (with_file x pid fd k f)
with_file-Sound x pid fd k f s g =
    or_refuse-Sound k s (fd_table_of k.processes pid) SysError.bad_fd _ λ table at.
      or_refuse-Sound k s (Fd.get table fd) SysError.bad_fd _ λ entry at'.
        or_refuse-Sound k s (File.get k.open_files entry.open_file) SysError.bad_fd _
          (λ file at''. g entry.open_file file)

pub sys_read-Sound :
    (x : X86) (fd user_buf len : ℕ) (k : Kernel)
    → Sound k
    → Ensures Sound (sys_read_current x fd user_buf len k)
unfolding sys_read_current
sys_read-Sound x fd user_buf len k s = elim (Bool-cases (len == 0)) [
  | inl b ↦ rw (b, sys_read_current) s
  | inr b ↦
      rw (b, sys_read_current)
        (with_pid-Sound k s SysError.bad_fd _ (λ pid c.
          with_file-Sound x pid fd k _ s (λ id file. by_access pid id file file.access file.kind)))
]
  where
    by_access :
        (pid id : ℕ) (file : OpenFile) (access : AccessMode) (kind : OpenFileKind)
        → Ensures Sound {A = SysResult} (elim access [
          | write_only ↦ refuse SysError.bad_fd k
          | read_only ↦ elim kind [
            | null_input ↦ done (ok 0, k)
            | console_stdout ↦ refuse SysError.bad_fd k
            | console_stderr ↦ refuse SysError.bad_fd k
            | embedded_file file_id ↦ read_embedded x pid id file file_id user_buf len k
          ]
        ])
    by_access pid id file write_only kind = s
    by_access pid id file read_only null_input = s
    by_access pid id file read_only console_stdout = s
    by_access pid id file read_only console_stderr = s
    by_access pid id file read_only (embedded_file file_id) =
        read_embedded-Sound x pid id file file_id user_buf len k s

write_loop-Sound :
    (x : X86) (fuel : ℕ) (space : Process.AddressSpace) (user_buf len written : ℕ) (k : Kernel)
    → Sound k
    → Ensures Sound (write_loop x fuel space user_buf len written k)
unfolding write_loop
write_loop-Sound x zero space user_buf len written k s = s
write_loop-Sound x (suc f) space user_buf len written k s = elim (Bool-cases (ltb written len)) [
  | inr b ↦ rw (b, write_loop) s
  | inl b ↦
      rw (b, write_loop)
        (or_refuse-Sound k s (checked_add user_buf written) SysError.fault _ λ address a.
          and_then-Ensures Sound (expect (x.virt_new address)) _ λ src v.
            and_then-Ensures Sound (copy_from_user x k.memory space src _) _ λ copied c.
              elim (Result-cases copied) [
                | inl (bytes, r) ↦ rw r (
                    write_loop-Sound x f space user_buf len _
                      (record k { serial = k.serial ++ bytes }) s)
                | inr (error, r) ↦ rw r s
              ])
]

write_console-Sound :
    (x : X86) (pid user_buf len : ℕ) (k : Kernel)
    → Sound k
    → Ensures Sound (write_console x pid user_buf len k)
unfolding write_console
write_console-Sound x pid user_buf len k s =
    or_refuse-Sound k s (address_space_of k.processes pid) SysError.bad_fd _ λ space at.
      and_then-Ensures Sound (validate_user_range x k.memory space user_buf len UserMemory.read) _
        λ r v. elim (Result-cases r) [
          | inl (u, e) ↦ rw e (write_loop-Sound x (suc len) space user_buf len 0 k s)
          | inr (u, e) ↦ rw e s
        ]

pub sys_write-Sound :
    (x : X86) (fd user_buf len : ℕ) (k : Kernel)
    → Sound k
    → Ensures Sound (sys_write_current x fd user_buf len k)
unfolding sys_write_current
sys_write-Sound x fd user_buf len k s = elim (Bool-cases (len == 0)) [
  | inl b ↦ rw (b, sys_write_current) s
  | inr b ↦
      rw (b, sys_write_current)
        (with_pid-Sound k s SysError.bad_fd _ (λ pid c.
          with_file-Sound x pid fd k _ s (λ id file. by_access pid file.access file.kind)))
]
  where
    by_access :
        (pid : ℕ) (access : AccessMode) (kind : OpenFileKind)
        → Ensures Sound {A = SysResult} (elim access [
          | read_only ↦ refuse SysError.bad_fd k
          | write_only ↦ elim kind [
            | console_stdout ↦ write_console x pid user_buf len k
            | console_stderr ↦ write_console x pid user_buf len k
            | null_input ↦ refuse SysError.bad_fd k
            | embedded_file _ ↦ refuse SysError.bad_fd k
          ]
        ])
    by_access pid read_only kind = s
    by_access pid write_only console_stdout = write_console-Sound x pid user_buf len k s
    by_access pid write_only console_stderr = write_console-Sound x pid user_buf len k s
    by_access pid write_only null_input = s
    by_access pid write_only (embedded_file _) = s
