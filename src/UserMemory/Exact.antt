-- ===== src/UserMemory/Exact.antt =====
-- user_memory.rs: within the range of user addresses a copy is exactly what a program reads.
use vlad_os.Base.{
  ltb, leb, Bool-cases, Option-cases, ok, err, done, panic, Returns, ℕ, zero, suc, ◌+◌, ◌-◌, ◌≤◌,
  ◌<◌, ◌≡◌, refl, ap, ◌∙◌, subst, inl, inr, true, ◌&&◌, Option, none, some, List, [], ◌++◌, arith,
}
use vlad_os.Words.{checked_add}
use vlad_os.Memory.{Memory, X86, AddressLaws, read_bytes}
use vlad_os.Process.{AddressSpace}
use vlad_os.AddressSpace.{UserTranslation, translate_user}
use vlad_os.UserMemory.{
  user_base, user_stack_top, read, Check, checked_offset, validate_user_byte, chunk_at, chunk_size,
  copy_from_user, copy_from_loop,
}
use vlad_os.UserMemory.Total.{copy_from_user-Returns}
use vlad_os.UserMemory.Pages.{PageLaws}
use vlad_os.UserMemory.Bytes.{user_bytes, Reads, copy_from_user-Reads}

-- The copy returns the bytes, or an error where there are none to read.
abbrev pub Exact : Option (List ℕ) → Check (List ℕ) → Type 0
Exact (some bytes) r = r ≡ done (ok bytes)
Exact none (done (err _)) = Unit
Exact none (done (ok _)) = ⊥
Exact none panic = ⊥

both-Exact :
    (expected : Option (List ℕ)) (c : Check (List ℕ))
    → Returns c
    → Reads expected c
    → ((bytes : List ℕ) → expected ≡ some bytes → (copied : List ℕ) × (c ≡ done (ok copied)))
    → Exact expected c
both-Exact none (done (err e)) r same made = tt
both-Exact none (done (ok bytes)) r same made = cc
both-Exact none panic r same made = r
both-Exact (some bytes) c r same made =
    let (copied, e) = made bytes refl in
    let is : some bytes ≡ some copied = subst (Reads (some bytes)) e same in
    let equal : copied ≡ bytes = ground (arith, is) in e ∙ ap (λ (b : List ℕ). done (ok b)) equal

module _ (x : X86) (addresses : AddressLaws x) (m : Memory) (space : AddressSpace) where
  user_bytes-translate_user :
      (n start : ℕ) {bytes : List ℕ}
      → user_bytes x m space start n ≡ some bytes
      → (j : ℕ) → j < n
      → (t : UserTranslation) × (translate_user x m space (start + j) ≡ some t)
  unfolding user_bytes
  user_bytes-translate_user zero start e j h = absurd (omega arith)
  user_bytes-translate_user (suc n) start e j h =
      elim (Option-cases (translate_user x m space start)) [
        | inl none_here ↦ cc (rw (user_bytes, none_here) at e)
        | inr (t, here) ↦ elim (Option-cases (user_bytes x m space (start + 1) n)) [
          | inl no_more ↦ cc (rw (user_bytes, here, no_more) at e)
          | inr (bs, later) ↦ by_place t here (user_bytes-translate_user n (start + 1) later) j h
        ]
      ]
    where
      by_place :
          (t : UserTranslation)
          → translate_user x m space start ≡ some t
          → ((j : ℕ)
              → j < n
              → (t : UserTranslation) × (translate_user x m space (start + 1 + j) ≡ some t))
          → (j : ℕ) → j < suc n
          → (t : UserTranslation) × (translate_user x m space (start + j) ≡ some t)
      by_place t here later zero h = let same : start + 0 ≡ start = omega arith in (t, rw same here)
      by_place t here later (suc j) h =
          let same : start + suc j ≡ start + 1 + j = omega arith in
          rw same (later j (omega (arith, h)))

  module _ (src len : ℕ) (lo : user_base ≤ src) (hi : src + len ≤ user_stack_top) where
    chunk_at-ok :
        (copied : ℕ) {t : UserTranslation}
        → copied < len
        → translate_user x m space (src + copied) ≡ some t
        → chunk_at x m space src copied read ≡ done (ok t.phys)
    unfolding chunk_at checked_offset validate_user_byte
    chunk_at-ok copied {t} h e =
        let sum : checked_add src copied ≡ some (src + copied) = ground (arith, hi, h) in
        let low : x.virt_new (src + copied) ≡ some (src + copied) =
          addresses.low (src + copied) (omega (arith, hi, h)) in
        let inside : (leb user_base (src + copied) && ltb (src + copied) user_stack_top) ≡ true =
          ground (arith, lo, hi, h) in
        rw (chunk_at, sum, low, validate_user_byte, inside, e) refl

    copy_from_loop-ok :
        (f copied left : ℕ)
        → left < f
        → copied + left ≡ len
        → ((j : ℕ)
            → copied ≤ j
            → j < len
            → (t : UserTranslation) × (translate_user x m space (src + j) ≡ some t))
        → (bytes : List ℕ) × (copy_from_loop x f m space src copied left ≡ done (ok bytes))
    unfolding copy_from_loop
    copy_from_loop-ok zero copied left h sum mapped = absurd (omega arith)
    copy_from_loop-ok (suc f) copied left h sum mapped = elim (Bool-cases (ltb 0 left)) [
      | inr b ↦ ([], rw (b, copy_from_loop) refl)
      | inl b ↦
          let (t, e) = mapped copied (omega arith) (ground (arith, b, sum)) in
          let at = chunk_at-ok copied (ground (arith, b, sum)) e in
          let count = chunk_size x t.phys left in
          let (rest, r) =
            copy_from_loop-ok f (copied + count) (left - count) (ground (arith, b))
              (omega (arith, sum)) (λ j le lt. mapped j (omega (arith, le)) lt) in
          (read_bytes m.bytes t.phys count ++ rest, rw (b, copy_from_loop, at, r) refl)
    ]

  -- With `AddressLaws` and `PageLaws`: for a range of user addresses a copy from a user program returns exactly the bytes that the
  -- program reads there through its page tables, and an error where it cannot read one of them; it
  -- does not panic.
  pub copy_from_user-Exact :
      (src len : ℕ)
      → PageLaws x
      → user_base ≤ src
      → src + len ≤ user_stack_top
      → Exact (user_bytes x m space src len) (copy_from_user x m space src len)
  copy_from_user-Exact src len laws lo hi =
      both-Exact (user_bytes x m space src len) (copy_from_user x m space src len)
        (copy_from_user-Returns x addresses m space src len (addresses.low src (omega (arith, hi))))
        (copy_from_user-Reads x laws m space src len)
        λ bytes e.
          unfold copy_from_user in
          copy_from_loop-ok src len lo hi (suc len) 0 len (omega arith) (omega arith)
            (λ j le lt. user_bytes-translate_user len src e j lt)
