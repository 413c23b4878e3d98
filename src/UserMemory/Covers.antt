-- ===== src/UserMemory/Covers.antt =====
-- user_memory.rs: what the check of a range says of each of its addresses.
use vlad_os.Base.{
  ltb, ◌==◌, Bool-cases, Option-cases, ok, err, done, panic, expect, and_then, Result-cases, ℕ,
  zero, suc, ◌+◌, ◌-◌, ◌*◌, ◌/◌, ◌%◌, ◌≤◌, ◌<◌, ◌≡◌, subst, inl, inr, true, ◌||◌, some, arith,
}
use vlad_os.Words.{lower_half, page_size, checked_add, align_down}
use vlad_os.Memory.{Memory, X86, AddressLaws}
use vlad_os.Process.{AddressSpace}
use vlad_os.AddressSpace.{UserTranslation, translate_user}
use vlad_os.UserMemory.{
  user_base, user_stack_top, Access, read, write, Check, validate_user_byte, validate_user_range,
  validate_pages,
}
use vlad_os.UserMemory.Pages.{PageLaws, translate_user-add}

-- The page may be accessed so.
abbrev Permits : X86 → Access → UserTranslation → Type 0
Permits x read t = Unit
Permits x write t = x.flags_contain t.flags x.writable ≡ true

-- A user program reaches the address in this way.
abbrev pub Reaches : X86 → Memory → AddressSpace → Access → ℕ → Type 0
Reaches x m space access a =
    (t : UserTranslation) × (translate_user x m space a ≡ some t) × Permits x access t

-- A check that passes says so of each address.
abbrev pub Checks : X86 → Memory → AddressSpace → Access → ℕ → ℕ → Check (Unit {0}) → Type 0
Checks x m space access start end (done (ok _)) =
    (a : ℕ) → start ≤ a → a < end → Reaches x m space access a
Checks x m space access start end (done (err _)) = Unit
Checks x m space access start end panic = Unit

module _ (x : X86) (laws : PageLaws x) (addresses : AddressLaws x) (m : Memory)
    (space : AddressSpace) where
  byte-Reaches :
      (a : ℕ) (access : Access) {t : UserTranslation}
      → validate_user_byte x m space a access ≡ ok t
      → (translate_user x m space a ≡ some t) × Permits x access t
  unfolding validate_user_byte
  byte-Reaches a read {t} h = elim (Option-cases (translate_user x m space a)) [
    | inl n ↦ ground (arith, rw (validate_user_byte, n) at h)
    | inr (u, e) ↦ (ground (arith, rw (validate_user_byte, e) at h, e), tt)
  ]
  byte-Reaches a write {t} h = elim (Option-cases (translate_user x m space a)) [
    | inl n ↦ ground (arith, rw (validate_user_byte, n) at h)
    | inr (u, e) ↦
        let g = rw (validate_user_byte, e) at h in (ground (arith, g, e), ground (arith, g))
  ]

  -- The address of a page and any other of it.
  page-Reaches :
      (page j : ℕ) (access : Access)
      → page % page_size ≡ 0
      → j < page_size
      → Reaches x m space access page
      → Reaches x m space access (page + j)
  page-Reaches page j access aligned lt (t, e, p) = (
    record t { phys = t.phys + j },
    (translate_user-add x laws m space page j e (omega (arith, aligned, lt))).0,
    permits access p,
  )
    where
      permits :
          (access : Access) → Permits x access t → Permits x access (record t { phys = t.phys + j })
      permits read h = tt
      permits write h = h

  -- The page at the front, and the ones behind it.
  page-Checks :
      (page end : ℕ) (access : Access)
      → page % page_size ≡ 0
      → Reaches x m space access page
      → (c : Check (Unit {0})) → Checks x m space access (page + page_size) end c
      → Checks x m space access page end c
  page-Checks page end access aligned first panic ih = tt
  page-Checks page end access aligned first (done (err e)) ih = tt
  page-Checks page end access aligned first (done (ok u)) ih = λ a le lt.
      elim (Bool-cases (ltb a (page + page_size))) [
        | inr b ↦ ih a (ground (arith, b)) lt
        | inl b ↦
            let inside : a - page < page_size = ground (arith, b, le) in
            let same : page + (a - page) ≡ a = omega (arith, le) in
            subst (Reaches x m space access) same
              (page-Reaches page (a - page) access aligned inside first)
      ]

  validate_pages-Checks :
      (f page end : ℕ) (access : Access)
      → end ≤ page + f * page_size
      → page % page_size ≡ 0
      → end < lower_half
      → Checks x m space access page end (validate_pages x f m space page end access)
  unfolding validate_pages
  validate_pages-Checks zero page end access h aligned low =
      λ a le lt. absurd (omega (arith, h, le, lt))
  validate_pages-Checks (suc f) page end access h aligned low = elim (Bool-cases (ltb page end)) [
    | inr b ↦ rw (b, validate_pages) (λ a le lt. absurd (ground (arith, b, le, lt)))
    | inl b ↦
        let here : x.virt_new page ≡ some page = addresses.low page (ground (arith, b, low)) in
        rw (b, validate_pages, here)
          (elim (Result-cases (validate_user_byte x m space page access)) [
            | inr (error, e) ↦ rw (and_then, expect, e) tt
            | inl (t, e) ↦
                let sum : checked_add page page_size ≡ some (page + page_size) =
                  ground (arith, b, low) in
                let ih =
                  validate_pages-Checks f (page + page_size) end access (omega (arith, h))
                    (omega (arith, aligned)) low in
                let (found, permitted) = byte-Reaches page access e in
                rw (and_then, expect, e, sum)
                  (page-Checks page end access aligned (t, found, permitted)
                    (validate_pages x f m space (page + page_size) end access) ih)
          ])
  ]

  -- With `AddressLaws` and `PageLaws`: where the check of a range passes, a user program reaches each address of the range, and may
  -- write there if the check is for a write.
  pub validate_user_range-Checks :
      (start len : ℕ) (access : Access)
      → Checks x m space access start (start + len) (validate_user_range x m space start len access)
  unfolding validate_user_range
  validate_user_range-Checks start len access = elim (Bool-cases (len == 0)) [
    | inl b ↦ rw (b, validate_user_range) (λ a le lt. absurd (ground (arith, b, le, lt)))
    | inr b ↦
        rw (b, validate_user_range)
          (elim (Option-cases (checked_add start len)) [
            | inl n ↦ rw n tt
            | inr (end, e) ↦
                rw e (elim (Bool-cases (ltb start user_base || ltb user_stack_top end)) [
                  | inl out ↦ rw out tt
                  | inr inside ↦
                      let sum : end ≡ start + len = ground (arith, e) in
                      rw inside (
                        later _ (align_down start) (omega arith) sum (
                          validate_pages-Checks (suc (len / page_size + 1)) (align_down start) end
                            access (omega (arith, sum)) (omega arith) (ground (arith, inside))))
                ])
          ])
  ]
    where
      later :
          (c : Check (Unit {0})) (page : ℕ) {end : ℕ}
          → page ≤ start
          → end ≡ start + len
          → Checks x m space access page end c
          → Checks x m space access start (start + len) c
      later panic page le sum h = tt
      later (done (err e)) page le sum h = tt
      later (done (ok u)) page le sum h =
          λ a from to. h a (omega (arith, le, from)) (omega (arith, sum, to))
