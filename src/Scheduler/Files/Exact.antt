-- ===== src/Scheduler/Files/Exact.antt =====
-- scheduler.rs: a write to the console sends what the program has in its buffer, or nothing.
use vlad_os.Base.{
  ltb, ◌==◌, Bool-cases, Option-cases, ok, err, done, expect, and_then, Yields, and_then-Yields,
  Result-cases, ℕ, zero, suc, ◌+◌, ◌-◌, ◌≤◌, ◌<◌, min, ◌≡◌, refl, sym, ap, ◌∙◌, subst, inl, inr,
  false, Option, none, some, List, [], ◌∷◌, ◌++◌, arith,
}
use vlad_os.Words.{checked_add}
use vlad_os.Memory.{X86, Memory, AddressLaws}
use vlad_os.AddressSpace.{UserTranslation, translate_user}
use vlad_os.UserMemory.{
  copy_from_user, validate_user_range, user_base, user_stack_top, UserMemoryError, Check,
}
use vlad_os.UserMemory
use vlad_os.UserMemory.Total.{validate_user_range-Returns}
use vlad_os.UserMemory.Pages.{PageLaws}
use vlad_os.UserMemory.Bytes.{user_bytes}
use vlad_os.UserMemory.Exact.{Exact, copy_from_user-Exact}
use vlad_os.UserMemory.Covers.{Checks, validate_user_range-Checks}
use vlad_os.File.{
  AccessMode, read_only, write_only, OpenFileKind, null_input, console_stdout, console_stderr,
  embedded_file, bad_fd,
}
use vlad_os.File
use vlad_os.Fd
use vlad_os.Process.{AddressSpace, Process, address_space_of, fd_table_of}
use vlad_os.Process
use vlad_os.Syscall.{SysError, SysResult}
use vlad_os.Scheduler.{Kernel, K, current_process_id}
use vlad_os.Scheduler.Files.{
  write_chunk_size, refuse, or_refuse, write_console, sys_write_current, write_loop,
}

append_nil : (xs : List ℕ) → xs ++ [] ≡ xs
append_nil [] = refl
append_nil (x ∷ xs) = ap (◌∷◌ x) (append_nil xs)

append_assoc : (xs ys zs : List ℕ) → (xs ++ ys) ++ zs ≡ xs ++ (ys ++ zs)
append_assoc [] ys zs = refl
append_assoc (x ∷ xs) ys zs = ap (◌∷◌ x) (append_assoc xs ys zs)

module _ (x : X86) (m : Memory) (space : AddressSpace) where
  -- Where each address is translated there are bytes to read.
  user_bytes_of :
      (n start : ℕ)
      → ((j : ℕ)
          → start ≤ j
          → j < start + n
          → (t : UserTranslation) × (translate_user x m space j ≡ some t))
      → (bytes : List ℕ) × (user_bytes x m space start n ≡ some bytes)
  unfolding user_bytes
  user_bytes_of zero start mapped = ([], refl)
  user_bytes_of (suc n) start mapped =
      let (t, e) = mapped start (omega arith) (omega arith) in
      let (bytes, r) =
        user_bytes_of n (start + 1) (λ j le lt. mapped j (omega (arith, le)) (omega (arith, lt))) in
      (m.bytes t.phys ∷ bytes, rw (user_bytes, e, r) refl)

  user_bytes-add :
      (n start more : ℕ) {first rest : List ℕ}
      → user_bytes x m space start n ≡ some first
      → user_bytes x m space (start + n) more ≡ some rest
      → user_bytes x m space start (n + more) ≡ some (first ++ rest)
  unfolding user_bytes
  user_bytes-add zero start more {first} {rest} e r =
      let empty : [] ≡ first = ground (arith, e) in
      let same : start + 0 ≡ start = omega arith in
      let count : 0 + more ≡ more = omega arith in rw (count, ← empty) (rw same at r)
  user_bytes-add (suc n) start more {first} {rest} e r =
      elim (Option-cases (translate_user x m space start)) [
        | inl none_here ↦ cc (rw (user_bytes, none_here) at e)
        | inr (t, here) ↦ elim (Option-cases (user_bytes x m space (start + 1) n)) [
          | inl no_more ↦ cc (rw (user_bytes, here, no_more) at e)
          | inr (bs, later) ↦
              let is : first ≡ m.bytes t.phys ∷ bs =
                ground (arith, rw (user_bytes, here, later) at e) in
              let on : start + suc n ≡ start + 1 + n = omega arith in
              let count : suc n + more ≡ suc (n + more) = omega arith in
              let ih = user_bytes-add n (start + 1) more later (rw on at r) in
              rw (count, user_bytes, here, ih, is) refl
        ]
      ]

module _ (x : X86) (pages : PageLaws x) (addresses : AddressLaws x) (space : AddressSpace)
    (user_buf len : ℕ) (lo : user_base ≤ user_buf) (hi : user_buf + len ≤ user_stack_top) where
  write_loop-ok :
      (f written : ℕ) (k : Kernel)
      → len - written < f
      → written ≤ len
      → ((j : ℕ)
          → user_buf ≤ j
          → j < user_buf + len
          → (t : UserTranslation) × (translate_user x k.memory space j ≡ some t))
      → (bytes : List ℕ) × (user_bytes x k.memory space (user_buf + written) (len - written)
          ≡ some bytes)
        × (write_loop x f space user_buf len written k
            ≡ done (ok len, record k { serial = k.serial ++ bytes }))
  unfolding write_loop
  write_loop-ok zero written k h le mapped = absurd (omega arith)
  write_loop-ok (suc f) written k h le mapped = elim (Bool-cases (ltb written len)) [
    | inr b ↦
        let all : written ≡ len = ground (arith, b, le) in
        let nothing : len - written ≡ 0 = omega (arith, all) in
        (
          [],
          rw nothing (unfold user_bytes in refl),
          rw (b, write_loop, all, append_nil k.serial) refl,
        )
    | inl b ↦
        let count = min write_chunk_size (len - written) in
        let start = user_buf + written in
        let sum : checked_add user_buf written ≡ some start = ground (arith, hi, b) in
        let low : x.virt_new start ≡ some start = addresses.low start (ground (arith, hi, b)) in
        let (first, e) =
          user_bytes_of x k.memory space count start
            (λ j from to. mapped j (omega (arith, from)) (ground (arith, to, b))) in
        let copied : copy_from_user x k.memory space start count ≡ done (ok first) =
          subst (λ o. Exact o (copy_from_user x k.memory space start count)) e
            (copy_from_user-Exact x addresses k.memory space start count pages (omega (arith, lo))
              (ground (arith, hi, b))) in
        let k' : Kernel = record k { serial = k.serial ++ first } in
        let (rest, r, w) =
          write_loop-ok f (written + count) k' (ground (arith, h, b)) (omega arith) mapped in
        let on : user_buf + (written + count) ≡ start + count = omega arith in
        let left : count + (len - (written + count)) ≡ len - written = ground (arith, b) in
        (
          first ++ rest,
          rw left at (
              user_bytes-add x k.memory space count start (len - (written + count)) e (rw on at r)),
          rw (b, write_loop, or_refuse, sum, and_then, expect, low, copied)
              (w
                ∙ ap (λ (s : List ℕ). done (ok len, record k { serial = s }))
                    (append_assoc k.serial first rest)),
        )
  ]

-- What a write to a console leaves: nothing changed where it fails, and else the bytes that the
-- program has in its buffer behind those sent before.
abbrev pub SendsBytes : Option (List ℕ) → ℕ → Kernel → SysResult × Kernel → Type 0
SendsBytes expected len k (err _, k') = k' ≡ k
SendsBytes expected len k (ok sent, k') =
    (sent ≡ len)
    × ((bytes : List ℕ) × (expected ≡ some bytes) × (k' ≡ record k { serial = k.serial ++ bytes }))

write_console-SendsBytes :
    (x : X86)
    → PageLaws x
    → AddressLaws x
    → (pid user_buf len : ℕ) (k : Kernel) {space : AddressSpace}
    → address_space_of k.processes pid ≡ some space
    → (len == 0) ≡ false
    → Yields
        (SendsBytes (user_bytes x k.memory space user_buf len) len k)
        (write_console x pid user_buf len k)
unfolding write_console
write_console-SendsBytes x pages addresses pid user_buf len k {space} e n =
    rw (e, write_console, or_refuse)
      (and_then-Yields (SendsBytes (user_bytes x k.memory space user_buf len) len k)
        (validate_user_range x k.memory space user_buf len UserMemory.read) _
        (validate_user_range-Returns x addresses k.memory space user_buf len UserMemory.read)
        λ r v. elim (Result-cases r) [
          | inr (error, o) ↦ rw o refl
          | inl (u, o) ↦ rw o (sent (v ∙ ap done o))
        ])
  where
    in_range :
        {u : Unit {0}}
        → validate_user_range x k.memory space user_buf len UserMemory.read ≡ done (ok u)
        → (user_base ≤ user_buf) × (user_buf + len ≤ user_stack_top)
    in_range v = unfold validate_user_range in (ground (arith, n, v), ground (arith, n, v))

    sent :
        {u : Unit {0}}
        → validate_user_range x k.memory space user_buf len UserMemory.read ≡ done (ok u)
        → Yields
            (SendsBytes (user_bytes x k.memory space user_buf len) len k)
            (write_loop x (suc len) space user_buf len 0 k)
    sent v =
        let (lo, hi) = in_range v in
        let reached = subst (Checks x k.memory space UserMemory.read user_buf (user_buf + len)) v (
          validate_user_range-Checks x pages addresses k.memory space user_buf len
            UserMemory.read) in
        let (bytes, read, w) =
          write_loop-ok x pages addresses space user_buf len lo hi (suc len) 0 k (omega arith)
            (omega arith) (λ j from to. let (t, found, p) = reached j from to in (t, found)) in
        let start : user_buf + 0 ≡ user_buf = omega arith in
        let all : len - 0 ≡ len = omega arith in
        subst (Yields (SendsBytes (user_bytes x k.memory space user_buf len) len k)) (sym w)
          (refl, (bytes, rw (start, all) at read, refl))

module _ (P : SysResult × Kernel → Type 0) (k : Kernel)
    (refused : (e : SysError) → P (err e, k)) where
  or_refuse-Yields {ℓ} :
      {A : Type ℓ} (o : Option A) (e : SysError) (f : A → K SysResult)
      → ((a : A) → o ≡ some a → Yields P (f a))
      → Yields P (or_refuse o e k f)
  or_refuse-Yields none e f h = refused e
  or_refuse-Yields (some a) e f h = h a refl

-- With `AddressLaws` and `PageLaws`: a write of the current process does not panic. It fails and changes nothing, or sends exactly the
-- bytes that the process reads in its buffer through its page tables.
pub sys_write-SendsBytes :
    (x : X86)
    → PageLaws x
    → AddressLaws x
    → (fd user_buf len : ℕ) (k : Kernel) (pid : ℕ) (p : Process)
    → current_process_id k ≡ done (some pid)
    → Process.get k.processes pid ≡ some p
    → Yields
        (SendsBytes (user_bytes x k.memory p.address_space user_buf len) len k)
        (sys_write_current x fd user_buf len k)
unfolding sys_write_current fd_table_of address_space_of
sys_write-SendsBytes x pages addresses fd user_buf len k pid p c e = elim (Bool-cases (len == 0)) [
  | inl b ↦
      let nothing : len ≡ 0 = ground (arith, b) in
      rw (b, sys_write_current, nothing)
        (refl, ([], unfold user_bytes in refl, rw (append_nil k.serial) refl))
  | inr b ↦
      rw (b, sys_write_current, c, or_refuse, e, fd_table_of, or_refuse)
        (or_refuse-Yields P k (λ error. refl) (Fd.get p.fd_table fd) _ _
          λ entry e₁.
            or_refuse-Yields P k (λ error. refl) (File.get k.open_files entry.open_file) _ _
              λ file e₂. by_access b file.access file.kind)
]
  where
    P : SysResult × Kernel → Type 0
    P = SendsBytes (user_bytes x k.memory p.address_space user_buf len) len k

    by_access :
        (len == 0) ≡ false
        → (access : AccessMode) (kind : OpenFileKind)
        → Yields P (elim access [
          | read_only ↦ refuse SysError.bad_fd k
          | write_only ↦ elim kind [
            | console_stdout ↦ write_console x pid user_buf len k
            | console_stderr ↦ write_console x pid user_buf len k
            | null_input ↦ refuse SysError.bad_fd k
            | embedded_file _ ↦ refuse SysError.bad_fd k
          ]
        ])
    by_access b read_only kind = refl
    by_access b write_only console_stdout =
        write_console-SendsBytes x pages addresses pid user_buf len k (rw e refl) b
    by_access b write_only console_stderr =
        write_console-SendsBytes x pages addresses pid user_buf len k (rw e refl) b
    by_access b write_only null_input = refl
    by_access b write_only (embedded_file _) = refl
