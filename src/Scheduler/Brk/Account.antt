-- ===== src/Scheduler/Brk/Account.antt =====
-- scheduler.rs: brk keeps the open files accounted for.
use vlad_os.Base.{
  ltb, ◌==◌, if◌then◌else◌, Bool-cases, Result, ok, Exec, done, expect, and_then, Result-cases, ℕ,
  ◌≡◌, refl, inl, inr, some, arith,
}
use vlad_os.Words.{align_up}
use vlad_os.Memory.{X86, Memory}
use vlad_os.AddressSpace.{AddressSpaceError}
use vlad_os.Process.Heap.{set_break}
use vlad_os.Process.{Process, put}
use vlad_os.Process
use vlad_os.Process.Valid.{Valid-Shrinks, put-Shrinks}
use vlad_os.Process.Holds.{table_holds-put}
use vlad_os.Syscall.{SysError, SysResult}
use vlad_os.Scheduler.{Kernel}
use vlad_os.Scheduler.Sound.{Sound, Ensures, and_then-Ensures}
use vlad_os.Scheduler.Files.{or_refuse}
use vlad_os.Scheduler.Files.Balance.{or_refuse-Sound, with_pid-Sound}
use vlad_os.Scheduler.Brk.{move_break, sys_brk_current, commit, after_mapping}

module _ (pid : ℕ) (p : Process) where
  commit-Sound :
      (brk mapped_end : ℕ) (k : Kernel)
      → Process.get k.processes pid ≡ some p
      → Sound k
      → Ensures Sound (commit pid p brk mapped_end k)
  commit-Sound brk mapped_end k e s =
      let p' : Process = record p { heap = set_break p.heap brk mapped_end } in
      record {
        valid = Valid-Shrinks s.valid (put-Shrinks k.processes pid p' p e refl refl refl);
        balanced = λ j. omega (arith, s.balanced j, table_holds-put k.processes pid j p' e);
      }

  after_mapping-Sound :
      (r : Exec (Result AddressSpaceError (Unit {0}) × Memory))
      (map_error : AddressSpaceError → SysError) (brk mapped_end : ℕ) (k : Kernel)
      → Process.get k.processes pid ≡ some p
      → Sound k
      → Ensures Sound (after_mapping r map_error k (commit pid p brk mapped_end))
  after_mapping-Sound r map_error brk mapped_end k e s = and_then-Ensures Sound r _ λ mapped h.
      elim (Result-cases mapped.0) [
        | inl (u, o) ↦ rw o (commit-Sound brk mapped_end (record k { memory = mapped.1 }) e s)
        | inr (error, o) ↦ rw o s
      ]

  module _ (x : X86) where
    move_break-Sound :
        (requested new_mapped_end : ℕ) (k : Kernel)
        → Process.get k.processes pid ≡ some p
        → Sound k
        → Ensures Sound (move_break x pid p requested new_mapped_end k)
    unfolding move_break
    move_break-Sound requested new_mapped_end k e s = elim (Bool-cases (ltb p.heap.brk requested)) [
      | inl b ↦
          rw (b, move_break)
            (elim (Bool-cases (ltb p.heap.mapped_end new_mapped_end)) [
              | inl c ↦ rw c (after_mapping-Sound _ _ requested new_mapped_end k e s)
              | inr c ↦ rw c (commit-Sound requested new_mapped_end k e s)
            ])
      | inr b ↦
          rw (b, move_break)
            (elim (Bool-cases (ltb new_mapped_end p.heap.mapped_end)) [
              | inl c ↦ rw c (after_mapping-Sound _ _ requested new_mapped_end k e s)
              | inr c ↦ rw c (commit-Sound requested new_mapped_end k e s)
            ])
    ]

module _ (x : X86) (k : Kernel) (s : Sound k) where
  move_to-Sound :
      (pid requested : ℕ) (p : Process)
      → Process.get k.processes pid ≡ some p
      → Ensures Sound {A = SysResult} (
          and_then (expect (x.virt_new requested)) λ address.
            if address == p.heap.brk
            then done (ok p.heap.brk, k)
            else (or_refuse (align_up requested) SysError.invalid k λ end.
                and_then
                  (expect (x.virt_new end))
                  λ new_mapped_end. move_break x pid p address new_mapped_end k))
  move_to-Sound pid requested p e =
      and_then-Ensures Sound (expect (x.virt_new requested)) _ λ address v.
        elim (Bool-cases (address == p.heap.brk)) [
          | inl b ↦ rw b s
          | inr b ↦ rw b (
              or_refuse-Sound k s (align_up requested) SysError.invalid _ λ end a.
                and_then-Ensures Sound (expect (x.virt_new end)) _
                  (λ new_mapped_end v'. move_break-Sound pid p x address new_mapped_end k e s))
        ]

  pub sys_brk-Sound : (requested : ℕ) → Ensures Sound (sys_brk_current x requested k)
  unfolding sys_brk_current
  sys_brk-Sound requested = with_pid-Sound k s SysError.invalid _ λ pid c.
      or_refuse-Sound k s (Process.get k.processes pid) SysError.invalid _ λ p e.
        elim (Bool-cases (requested == 0)) [
          | inl b ↦ rw b s
          | inr b ↦ rw b (elim (Bool-cases (ltb requested p.heap.start)) [
            | inl c ↦ rw c s
            | inr c ↦ rw c (elim (Bool-cases (ltb p.heap.limit requested)) [
              | inl d ↦ rw d s
              | inr d ↦ rw d (move_to-Sound pid requested p e)
            ])
          ])
        ]
