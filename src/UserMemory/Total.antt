-- ===== src/UserMemory/Total.antt =====
-- user_memory.rs: the checks and the copies return, whatever a user program passes.
use vlad_os.Base.{
  ltb, ◌==◌, Bool-cases, Option-cases, length, take, drop, is_empty, Result, ok, err, Exec, done,
  panic, expect, Returns, and_then-Returns, Result-cases, ℕ, zero, suc, ◌+◌, ◌-◌, ◌/◌, ◌≤◌, ◌<◌,
  ◌≡◌, refl, ap, inl, inr, false, ◌||◌, some, List, arith,
}
use vlad_os.Base.Fallible.{◌>>=◌}
use vlad_os.Words.{page_size, checked_add, align_down}
use vlad_os.Memory.{Memory, X86, AddressLaws, store}
use vlad_os.AddressSpace.{UserTranslation}
use vlad_os.Process.{AddressSpace}
use vlad_os.UserMemory.{
  user_base, user_stack_top, UserMemoryError, Access, read, write, Check, checked_offset,
  validate_user_byte, validate_user_range, chunk_at, chunk_size, copy_from_user, copy_to_user,
  validate_pages, copy_from_loop, copy_to_loop,
}

-- An address that `VirtAddr::new` takes as it is.
abbrev pub IsCanonical : X86 → ℕ → Type 0
IsCanonical x a = x.virt_new a ≡ some a

bind-Returns :
    {A B : Type 0} (c : Check A) (g : A → Check B)
    → Returns c
    → ((a : A) → c ≡ done (ok a) → Returns (g a))
    → Returns (c >>= g)
bind-Returns panic g r h = elim r [ ]
bind-Returns (done (err e)) g r h = tt
bind-Returns (done (ok a)) g r h = h a refl

module _ (x : X86) (laws : AddressLaws x) where
  -- A byte that passes the check lies below the top of the stack.
  validate_user_byte-below :
      (m : Memory) (space : AddressSpace) (address : ℕ) (access : Access) {t : UserTranslation}
      → validate_user_byte x m space address access ≡ ok t
      → address < user_stack_top
  unfolding validate_user_byte
  validate_user_byte-below m space address access h = ground arith

  chunk_at_canonical :
      (m : Memory) (space : AddressSpace) (start copied : ℕ) (access : Access)
      → IsCanonical x (start + copied)
      → Returns (chunk_at x m space start copied access)
        × ((phys : ℕ)
            → chunk_at x m space start copied access ≡ done (ok phys)
            → start + copied < user_stack_top)
  unfolding chunk_at checked_offset
  chunk_at_canonical m space start copied access c =
      elim (Option-cases (checked_add start copied)) [
        | inl n ↦ rw (chunk_at, checked_offset, n) (tt, λ phys h. cc)
        | inr (a, e) ↦
            let same : a ≡ start + copied = ground arith in
            rw (chunk_at, checked_offset, e, same, c)
              (elim (Result-cases (validate_user_byte x m space (start + copied) access)) [
                | inl (t, v) ↦
                    rw v (tt, λ phys h. validate_user_byte-below m space (start + copied) access v)
                | inr (error, v) ↦ rw v (tt, λ phys h. cc)
              ])
      ]

  -- Behind a chunk the next address is canonical again.
  next-IsCanonical :
      (start copied phys left : ℕ)
      → start + copied < user_stack_top
      → IsCanonical x (start + (copied + chunk_size x phys left))
  next-IsCanonical start copied phys left h = laws.low _ (omega arith)

  copy_from_loop-Returns :
      (f : ℕ) (m : Memory) (space : AddressSpace) (src copied left : ℕ)
      → IsCanonical x (src + copied)
      → Returns (copy_from_loop x f m space src copied left)
  unfolding copy_from_loop
  copy_from_loop-Returns zero m space src copied left c = tt
  copy_from_loop-Returns (suc f) m space src copied left c = elim (Bool-cases (ltb 0 left)) [
    | inr b ↦ rw (b, copy_from_loop) tt
    | inl b ↦
        let (returns, below) = chunk_at_canonical m space src copied read c in
        rw (b, copy_from_loop)
          (bind-Returns (chunk_at x m space src copied read) _ returns λ phys at.
            let count = chunk_size x phys left in
            bind-Returns (copy_from_loop x f m space src (copied + count) (left - count)) _
              (copy_from_loop-Returns f m space src (copied + count) (left - count)
                (next-IsCanonical src copied phys left (below phys at)))
              (λ rest e. tt))
  ]

  -- A copy from a canonical address returns.
  pub copy_from_user-Returns :
      (m : Memory) (space : AddressSpace) (src len : ℕ)
      → IsCanonical x src
      → Returns (copy_from_user x m space src len)
  unfolding copy_from_user
  copy_from_user-Returns m space src len c =
      copy_from_loop-Returns (suc len) m space src 0 len
        (let e : src ≡ src + 0 = omega arith in rw (← e) c)

  -- One round of the copy, behind its chunk.
  abbrev copy_chunk :
      ℕ
      → AddressSpace
      → ℕ
      → ℕ
      → List ℕ
      → Memory
      → Check ℕ
      → Exec (Result UserMemoryError (Unit {0}) × Memory)
  copy_chunk f space dst copied rest m panic = panic
  copy_chunk f space dst copied rest m (done (err e)) = done (err e, m)
  copy_chunk f space dst copied rest m (done (ok phys)) =
      let count = chunk_size x phys (length rest) in
      copy_to_loop x f space dst (copied + count) (drop count rest) (store phys (take count rest) m)

  copy_chunk-Returns :
      (f : ℕ) (space : AddressSpace) (dst copied : ℕ) (rest : List ℕ) (m : Memory) (r : Check ℕ)
      → Returns r
      → ((phys : ℕ)
          → r ≡ done (ok phys)
          → Returns (copy_chunk f space dst copied rest m (done (ok phys))))
      → Returns (copy_chunk f space dst copied rest m r)
  copy_chunk-Returns f space dst copied rest m panic returns h = returns
  copy_chunk-Returns f space dst copied rest m (done (err e)) returns h = tt
  copy_chunk-Returns f space dst copied rest m (done (ok phys)) returns h = h phys refl

  copy_to_loop-suc :
      (f : ℕ) (space : AddressSpace) (dst copied : ℕ) (rest : List ℕ) (m : Memory)
      → is_empty rest ≡ false
      → copy_to_loop x (suc f) space dst copied rest m
        ≡ copy_chunk f space dst copied rest m (chunk_at x m space dst copied write)
  unfolding copy_to_loop
  copy_to_loop-suc f space dst copied rest m b =
      rw (b, copy_to_loop) (by_chunk (chunk_at x m space dst copied write))
    where
      by_chunk :
          (r : Check ℕ)
          → (elim r [
            | panic ↦ panic
            | done (err e) ↦ done (err e, m)
            | done (ok phys) ↦
                let count = chunk_size x phys (length rest) in
                copy_to_loop x f space dst
                  (copied + count)
                  (drop count rest)
                  (store phys (take count rest) m)
          ])
            ≡ copy_chunk f space dst copied rest m r
      by_chunk panic = refl
      by_chunk (done (err e)) = refl
      by_chunk (done (ok phys)) = refl

  copy_to_loop-Returns :
      (f : ℕ) (space : AddressSpace) (dst copied : ℕ) (rest : List ℕ) (m : Memory)
      → IsCanonical x (dst + copied)
      → Returns (copy_to_loop x f space dst copied rest m)
  copy_to_loop-Returns zero space dst copied rest m c = unfold copy_to_loop in tt
  copy_to_loop-Returns (suc f) space dst copied rest m c = elim (Bool-cases (is_empty rest)) [
    | inl b ↦ unfold copy_to_loop in rw (b, copy_to_loop) tt
    | inr b ↦
        let (returns, below) = chunk_at_canonical m space dst copied write c in
        rw (copy_to_loop-suc f space dst copied rest m b) (
          copy_chunk-Returns f space dst copied rest m (chunk_at x m space dst copied write) returns
            λ phys e.
              copy_to_loop-Returns f space dst (copied + chunk_size x phys (length rest)) _ _
                (next-IsCanonical dst copied phys (length rest) (below phys e)))
  ]

  -- A copy to a canonical address returns.
  pub copy_to_user-Returns :
      (space : AddressSpace) (dst : ℕ) (src : List ℕ) (m : Memory)
      → IsCanonical x dst
      → Returns (copy_to_user x space dst src m)
  unfolding copy_to_user
  copy_to_user-Returns space dst src m c =
      copy_to_loop-Returns (suc (length src)) space dst 0 src m
        (let e : dst ≡ dst + 0 = omega arith in rw (← e) c)

  validate_pages-Returns :
      (f : ℕ) (m : Memory) (space : AddressSpace) (page end : ℕ) (access : Access)
      → end ≤ user_stack_top
      → Returns (validate_pages x f m space page end access)
  unfolding validate_pages
  validate_pages-Returns zero m space page end access h = tt
  validate_pages-Returns (suc f) m space page end access h = elim (Bool-cases (ltb page end)) [
    | inr b ↦ rw (b, validate_pages) tt
    | inl b ↦
        rw (b, validate_pages)
          (and_then-Returns (expect (x.virt_new page)) _
            (ap expect (laws.low page (ground (arith, b, h))))
            (elim (Result-cases (validate_user_byte x m space page access)) [
              | inr (error, e) ↦ rw e tt
              | inl (t, e) ↦ rw e (elim (Option-cases (checked_add page page_size)) [
                | inl n ↦ rw n tt
                | inr (next, s) ↦ rw s (validate_pages-Returns f m space next end access h)
              ])
            ]))
  ]

  -- The check of a range returns.
  pub validate_user_range-Returns :
      (m : Memory) (space : AddressSpace) (start len : ℕ) (access : Access)
      → Returns (validate_user_range x m space start len access)
  unfolding validate_user_range
  validate_user_range-Returns m space start len access = elim (Bool-cases (len == 0)) [
    | inl b ↦ rw (b, validate_user_range) tt
    | inr b ↦
        rw (b, validate_user_range)
          (elim (Option-cases (checked_add start len)) [
            | inl n ↦ rw n tt
            | inr (end, e) ↦
                rw e (elim (Bool-cases (ltb start user_base || ltb user_stack_top end)) [
                  | inl o ↦ rw o tt
                  | inr o ↦ rw o (
                      validate_pages-Returns (suc (len / page_size + 1)) m space (align_down start)
                        end access (ground (arith, o)))
                ])
          ])
  ]
