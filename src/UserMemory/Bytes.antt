-- ===== src/UserMemory/Bytes.antt =====
-- user_memory.rs: a copy from a user program reads the bytes behind its addresses.
use vlad_os.Base.{
  ltb, Bool-cases, Option-cases, ok, err, done, panic, ℕ, zero, suc, ◌+◌, ◌-◌, ◌%◌, ◌≤◌, ◌<◌, ◌≡◌,
  refl, ◌∙◌, subst, inl, inr, Option, none, some, List, [], ◌∷◌, ◌++◌, arith,
}
use vlad_os.Base.Fallible.{◌>>=◌}
use vlad_os.Words.{lower_half, page_size, checked_add}
use vlad_os.Memory.{Memory, X86, read_bytes}
use vlad_os.Process.{AddressSpace}
use vlad_os.AddressSpace.{UserTranslation, translate_user}
use vlad_os.UserMemory.{
  read, Check, checked_offset, validate_user_byte, chunk_at, chunk_size, copy_from_user,
  copy_from_loop,
}
use vlad_os.UserMemory.Pages.{PageLaws, translate_user-add}

-- The byte that a user program reads at an address: the one at the physical address behind it.
abbrev pub user_byte : X86 → Memory → AddressSpace → ℕ → Option ℕ
user_byte x m space address = elim (translate_user x m space address) [
  | none ↦ none
  | some t ↦ some (m.bytes t.phys)
]

-- Byte by byte: what the program reads from `start` on.
unfoldable pub user_bytes : X86 → Memory → AddressSpace → ℕ → ℕ → Option (List ℕ)
user_bytes x m space start zero = some []
user_bytes x m space start (suc n) = elim (user_byte x m space start) [
  | none ↦ none
  | some b ↦ elim (user_bytes x m space (start + 1) n) [ none ↦ none | some bs ↦ some (b ∷ bs) ]
]

-- A copy that succeeds has read these bytes.
abbrev pub Reads : Option (List ℕ) → Check (List ℕ) → Type 0
Reads expected (done (ok bytes)) = expected ≡ some bytes
Reads expected (done (err _)) = Unit
Reads expected panic = Unit

bind-Reads :
    {A : Type 0} (expected : Option (List ℕ)) (c : Check A) (g : A → Check (List ℕ))
    → ((a : A) → c ≡ done (ok a) → Reads expected (g a))
    → Reads expected (c >>= g)
bind-Reads expected panic g h = tt
bind-Reads expected (done (err e)) g h = tt
bind-Reads expected (done (ok a)) g h = h a refl

module _ (x : X86) (laws : PageLaws x) (m : Memory) (space : AddressSpace) where
  -- The bytes up to the end of a page lie behind one another.
  user_bytes-page :
      (a : ℕ) {t : UserTranslation}
      → translate_user x m space a ≡ some t
      → (n j more : ℕ) {rest : List ℕ} → a % page_size + j + n ≤ page_size
      → user_bytes x m space (a + (j + n)) more ≡ some rest
      → user_bytes x m space (a + j) (n + more) ≡ some (read_bytes m.bytes (t.phys + j) n ++ rest)
  unfolding user_bytes
  user_bytes-page a e zero j more h r =
      let same : j + 0 ≡ j = omega arith in
      let none_left : 0 + more ≡ more = omega arith in rw none_left (rw same at r)
  user_bytes-page a {t} e (suc n) j more {rest} h r =
      let (here, offset) = translate_user-add x laws m space a j e (omega (arith, h)) in
      let on : j + suc n ≡ j + 1 + n = omega arith in
      let next : a + j + 1 ≡ a + (j + 1) = omega arith in
      let further : t.phys + j + 1 ≡ t.phys + (j + 1) = omega arith in
      let count : suc n + more ≡ suc (n + more) = omega arith in
      let ih = user_bytes-page a e n (j + 1) more {rest = rest} (omega (arith, h)) (rw on at r) in
      rw (count, user_bytes, here, next, ih, further) refl

  -- The place of the next chunk.
  chunk_at-translate_user :
      (src copied phys : ℕ)
      → chunk_at x m space src copied read ≡ done (ok phys)
      → (t : UserTranslation) × (translate_user x m space (src + copied) ≡ some t) × (t.phys ≡ phys)
  unfolding chunk_at checked_offset validate_user_byte
  chunk_at-translate_user src copied phys h = elim (Option-cases (checked_add src copied)) [
    | inl n ↦ cc (rw (chunk_at, n) at h)
    | inr (a, c) ↦ elim (Option-cases (x.virt_new a)) [
      | inl n ↦ cc (rw (chunk_at, c, n) at h)
      | inr (b, v) ↦ elim (Option-cases (translate_user x m space b)) [
        | inl n ↦ ground (arith, rw (chunk_at, c, v, validate_user_byte, n) at h)
        | inr (t, e) ↦
            let found = rw (chunk_at, c, v, validate_user_byte, e) at h in
            let low : b < lower_half = ground (arith, found) in
            let sum : a ≡ src + copied = ground (arith, c) in
            let is : b ≡ src + copied = laws.new_low a v low ∙ sum in
            (t, rw is at e, ground (arith, found))
      ]
    ]
  ]

  copy_from_loop-Reads :
      (f src copied left : ℕ)
      → left < f
      → Reads
          (user_bytes x m space (src + copied) left)
          (copy_from_loop x f m space src copied left)
  unfolding copy_from_loop
  copy_from_loop-Reads zero src copied left h = absurd (omega arith)
  copy_from_loop-Reads (suc f) src copied left h = elim (Bool-cases (ltb 0 left)) [
    | inr b ↦
        let nothing : left ≡ 0 = ground (arith, b) in
        rw (b, copy_from_loop, nothing) (unfold user_bytes in refl)
    | inl b ↦
        let expected = user_bytes x m space (src + copied) left in
        rw (b, copy_from_loop)
          (bind-Reads expected (chunk_at x m space src copied read) _ λ phys at.
            let (t, e, same) = chunk_at-translate_user src copied phys at in
            let count = chunk_size x phys left in
            let later = copy_from_loop x f m space src (copied + count) (left - count) in
            bind-Reads expected later _ λ rest r.
              let on : src + (copied + count) ≡ src + copied + (0 + count) = omega arith in
              let all : count + (left - count) ≡ left = omega arith in
              let here : src + copied + 0 ≡ src + copied = omega arith in
              let there : t.phys + 0 ≡ phys = omega (arith, same) in
              let ih : user_bytes x m space (src + (copied + count)) (left - count) ≡ some rest =
                subst (Reads (user_bytes x m space (src + (copied + count)) (left - count))) r (
                  copy_from_loop-Reads f src (copied + count) (left - count) (ground (arith, b))) in
              let offset = (translate_user-add x laws m space (src + copied) 0 e (omega arith)).1 in
              rw (all, here, there) at
                (user_bytes-page (src + copied) e count 0 (left - count) {rest = rest}
                  (omega (arith, offset, same)) (rw on at ih)))
  ]

-- A copy from a user program that succeeds has read the bytes that the program reads itself, one by
-- one, through its page tables.
pub copy_from_user-Reads :
    (x : X86)
    → PageLaws x
    → (m : Memory) (space : AddressSpace) (src len : ℕ)
    → Reads (user_bytes x m space src len) (copy_from_user x m space src len)
unfolding copy_from_user
copy_from_user-Reads x laws m space src len =
    let start : src + 0 ≡ src = omega arith in
    rw start at (copy_from_loop-Reads x laws m space (suc len) src 0 len (omega arith))
