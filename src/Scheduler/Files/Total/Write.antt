-- ===== src/Scheduler/Files/Total/Write.antt =====
-- scheduler.rs: write does not panic in a wired kernel, and keeps the tasks.
use vlad_os.Base.{
  ltb, ◌==◌, Bool-cases, ok, done, expect, and_then-Yields, Yields-done, Yields-map, Result-cases,
  ℕ, zero, suc, ◌+◌, ◌-◌, ◌<◌, min, ◌≡◌, refl, ap, ◌∙◌, inl, inr, false, ◌++◌, arith,
}
use vlad_os.Words.{lower_half, checked_add}
use vlad_os.File.{
  AccessMode, read_only, write_only, OpenFileKind, null_input, console_stdout, console_stderr,
  embedded_file,
}
use vlad_os.Memory.{X86, AddressLaws}
use vlad_os.UserMemory.{copy_from_user, validate_user_range, user_stack_top}
use vlad_os.UserMemory
use vlad_os.UserMemory.Total.{copy_from_user-Returns, validate_user_range-Returns}
use vlad_os.Process.{address_space_of}
use vlad_os.Process
use vlad_os.Process.Follows.{Follows-refl}
use vlad_os.Syscall.{SysError, SysResult}
use vlad_os.Scheduler.{Kernel}
use vlad_os.Scheduler.Wired.{Wired, Steady, Steady-refl, Steady-trans, Leaves}
use vlad_os.Scheduler.Wired.Current.{or_refuse-Leaves, with_pid-Leaves}
use vlad_os.Scheduler.Exit.Total.{same-Steady}
use vlad_os.Scheduler.Files.{write_chunk_size, refuse, write_console, sys_write_current, write_loop}
use vlad_os.Scheduler.Files.Total.{with_file-Steady}

module _ (x : X86) (laws : AddressLaws x) where
  -- The loop over a buffer that ends in the lower half.
  write_loop-Steady :
      (fuel : ℕ) (space : Process.AddressSpace) (user_buf len written : ℕ) (k : Kernel)
      → user_buf + len < lower_half
      → Leaves (Steady k) (write_loop x fuel space user_buf len written k)
  unfolding write_loop
  write_loop-Steady zero space user_buf len written k h = Steady-refl k
  write_loop-Steady (suc f) space user_buf len written k h = elim (Bool-cases (ltb written len)) [
    | inr b ↦ rw (b, write_loop) (Steady-refl k)
    | inl b ↦
        let count = min write_chunk_size (len - written) in
        rw (b, write_loop)
          (or_refuse-Leaves (Steady k) k (Steady-refl k) (checked_add user_buf written) _ _
            λ address e.
              let low : address < lower_half = ground (arith, b, e, h) in
              Yields-done _ (expect (x.virt_new address)) _ (ap expect (laws.low address low)) (
                and_then-Yields _ (copy_from_user x k.memory space address count) _
                  (copy_from_user-Returns x laws k.memory space address count
                    (laws.low address low))
                  λ copied r. elim (Result-cases copied) [
                    | inr (error, o) ↦ rw o (Steady-refl k)
                    | inl (bytes, o) ↦
                        let k' : Kernel = record k { serial = k.serial ++ bytes } in
                        rw o (
                          Yields-map _ _
                            (λ q.
                              Steady-trans (same-Steady k k' refl refl (Follows-refl k.processes)))
                            (write_loop x f space user_buf len (written + count) k')
                            (write_loop-Steady f space user_buf len (written + count) k' h))
                  ]))
  ]

  -- The check of the range leaves such a buffer.
  write_console-Steady :
      (pid user_buf len : ℕ) (k : Kernel)
      → (len == 0) ≡ false
      → Leaves (Steady k) (write_console x pid user_buf len k)
  unfolding write_console
  write_console-Steady pid user_buf len k n =
      or_refuse-Leaves (Steady k) k (Steady-refl k) (address_space_of k.processes pid) _ _
        λ space e.
          and_then-Yields _ (validate_user_range x k.memory space user_buf len UserMemory.read) _
            (validate_user_range-Returns x laws k.memory space user_buf len UserMemory.read)
            λ r v. elim (Result-cases r) [
              | inr (error, o) ↦ rw o (Steady-refl k)
              | inl (u, o) ↦ rw o (
                  write_loop-Steady (suc len) space user_buf len 0 k
                    (in_range space (v ∙ ap done o)))
            ]
    where
      in_range :
          (space : Process.AddressSpace) {u : Unit {0}}
          → validate_user_range x k.memory space user_buf len UserMemory.read ≡ done (ok u)
          → user_buf + len < lower_half
      in_range space v = unfold validate_user_range in ground (arith, n, v)

  pub sys_write-Steady :
      (fd user_buf len : ℕ) (k : Kernel)
      → Wired k
      → Leaves (Steady k) (sys_write_current x fd user_buf len k)
  unfolding sys_write_current
  sys_write-Steady fd user_buf len k w = elim (Bool-cases (len == 0)) [
    | inl b ↦ rw (b, sys_write_current) (Steady-refl k)
    | inr b ↦
        rw (b, sys_write_current)
          (with_pid-Leaves (Steady k) k (Steady-refl k) SysError.bad_fd _ w λ pid p runs.
            with_file-Steady x k pid fd _ λ id file e. by_access b pid file.access file.kind)
  ]
    where
      by_access :
          (len == 0) ≡ false
          → (pid : ℕ) (access : AccessMode) (kind : OpenFileKind)
          → Leaves (Steady k) {A = SysResult} (elim access [
            | read_only ↦ refuse SysError.bad_fd k
            | write_only ↦ elim kind [
              | console_stdout ↦ write_console x pid user_buf len k
              | console_stderr ↦ write_console x pid user_buf len k
              | null_input ↦ refuse SysError.bad_fd k
              | embedded_file _ ↦ refuse SysError.bad_fd k
            ]
          ])
      by_access b pid read_only kind = Steady-refl k
      by_access b pid write_only console_stdout = write_console-Steady pid user_buf len k b
      by_access b pid write_only console_stderr = write_console-Steady pid user_buf len k b
      by_access b pid write_only null_input = Steady-refl k
      by_access b pid write_only (embedded_file _) = Steady-refl k
