-- ===== src/AddressSpace/Copy/Total.antt =====
-- address_space.rs: writing an image into the lower half of an address space does not panic.
use vlad_os.Base.{
  ltb, Bool-cases, Option-cases, length, drop, is_empty, length-drop, expect, Returns,
  and_then-Returns, ℕ, zero, suc, ◌+◌, ◌-◌, ◌≤◌, ◌<◌, ◌≡◌, ap, inl, inr, false, List, [], ◌∷◌,
  arith,
}
use vlad_os.Words.{lower_half, checked_add}
use vlad_os.Memory.{Memory, X86, AddressLaws}
use vlad_os.Process.{AddressSpace}
use vlad_os.AddressSpace.{translate_user}
use vlad_os.AddressSpace.Copy.{
  Copy, chunk, copy_to_user, zero_user_range, with_chunk, copy_loop, zero_loop,
}

module _ (x : X86) (laws : AddressLaws x) (space : AddressSpace) where
  with_chunk-Returns :
      (m : Memory) (dst copied : ℕ) (k : ℕ → Copy)
      → dst + copied < lower_half
      → ((phys : ℕ) → Returns (k phys))
      → Returns (with_chunk x m space dst copied k)
  with_chunk-Returns m dst copied k low h = elim (Option-cases (checked_add dst copied)) [
    | inl n ↦ rw (with_chunk, n) tt
    | inr (a, e) ↦
        rw (with_chunk, e)
          (and_then-Returns (expect (x.virt_new a)) _
            (ap expect (laws.low a (ground (arith, e, low))))
            (elim (Option-cases (translate_user x m space a)) [
              | inl n ↦ rw n tt
              | inr (t, found) ↦ rw found (h t.phys)
            ]))
  ]

  copy_loop-Returns :
      (f dst copied : ℕ) (rest : List ℕ) (m : Memory)
      → dst + copied + length rest ≤ lower_half
      → Returns (copy_loop x f space dst copied rest m)
  unfolding copy_loop
  copy_loop-Returns zero dst copied rest m h = tt
  copy_loop-Returns (suc f) dst copied rest m h = elim (Bool-cases (is_empty rest)) [
    | inl b ↦ rw (b, copy_loop) tt
    | inr b ↦
        rw (b, copy_loop)
          (with_chunk-Returns m dst copied _ (filled rest b h) λ phys.
            let count = chunk x phys (length rest) in
            copy_loop-Returns f dst (copied + count) (drop count rest) _
              (omega (arith, length-drop count rest, h)))
  ]
    where
      filled :
          (rest : List ℕ)
          → is_empty rest ≡ false
          → dst + copied + length rest ≤ lower_half
          → dst + copied < lower_half
      filled [] n h = cc
      filled (b ∷ bs) n h = omega (arith, h)

  pub copy_to_user-Returns :
      (dst : ℕ) (src : List ℕ) (m : Memory)
      → dst + length src ≤ lower_half
      → Returns (copy_to_user x space dst src m)
  unfolding copy_to_user
  copy_to_user-Returns dst src m h =
      copy_loop-Returns (suc (length src)) dst 0 src m (omega (arith, h))

  zero_loop-Returns :
      (f dst cleared len : ℕ) (m : Memory)
      → dst + len ≤ lower_half
      → Returns (zero_loop x f space dst cleared len m)
  unfolding zero_loop
  zero_loop-Returns zero dst cleared len m h = tt
  zero_loop-Returns (suc f) dst cleared len m h = elim (Bool-cases (ltb cleared len)) [
    | inr b ↦ rw (b, zero_loop) tt
    | inl b ↦
        rw (b, zero_loop)
          (with_chunk-Returns m dst cleared _ (ground (arith, b, h))
            λ phys. zero_loop-Returns f dst (cleared + chunk x phys (len - cleared)) len _ h)
  ]

  pub zero_user_range-Returns :
      (dst len : ℕ) (m : Memory)
      → dst + len ≤ lower_half
      → Returns (zero_user_range x space dst len m)
  unfolding zero_user_range
  zero_user_range-Returns dst len m h = zero_loop-Returns (suc len) dst 0 len m h
