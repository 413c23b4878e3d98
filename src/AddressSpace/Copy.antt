-- ===== src/AddressSpace/Copy.antt =====
-- address_space.rs: writing an image into a user address space, before it runs, and the accesses
-- to single words and frames.
pub mod Total
use vlad_os.Base.{
  ltb, if◌then◌else◌, length, take, drop, replicate, is_empty, Result, ok, err, Exec, done, expect,
  and_then, ℕ, zero, suc, ◌+◌, ◌-◌, ◌%◌, min, true, false, Option, none, some, List,
}
use vlad_os.Words.{page_size, checked_add, to_le_bytes, from_le_bytes}
use vlad_os.Memory.{Memory, X86, store, read_bytes}
use vlad_os.Process.{AddressSpace}
use vlad_os.AddressSpace.{
  AddressSpaceError, frame_allocation_failed, UserCopyError, copy_range_overflow, not_mapped,
  translate_user,
}

-- A copy loop that may stop with an error or panic, and what it has written.
abbrev pub Copy : Type 0
Copy = Exec (Result UserCopyError (Unit {0}) × Memory)

module _ (x : X86) where
  -- The address and the size of the next chunk: up to the end of the page, or of the `left` bytes.
  abbrev pub chunk : ℕ → ℕ → ℕ
  chunk phys left = min left (page_size - phys % page_size)

  -- `dst.checked_add(done)`, `VirtAddr::new`, `translate_user`, then the chunk.
  abbrev with_chunk : Memory → AddressSpace → ℕ → ℕ → (ℕ → Copy) → Copy
  with_chunk m space dst copied k = elim (checked_add dst copied) [
    | none ↦ done (err copy_range_overflow, m)
    | some address ↦ and_then (expect (x.virt_new address)) λ a. elim (translate_user x m space a) [
      | none ↦ done (err not_mapped, m)
      | some t ↦ k t.phys
    ]
  ]

  -- `while copied < src.len()`; `rest` is `src[copied..]`, and each round copies a byte or more.
  copy_loop : ℕ → AddressSpace → ℕ → ℕ → List ℕ → Memory → Copy
  copy_loop zero space dst copied rest m = done (ok tt, m)
  copy_loop (suc f) space dst copied rest m = elim (is_empty rest) [
    | true ↦ done (ok tt, m)
    | false ↦ with_chunk m space dst copied λ phys.
        let count = chunk phys (length rest) in
        copy_loop f space dst (copied + count) (drop count rest) (store phys (take count rest) m)
  ]

  unfoldable pub copy_to_user : AddressSpace → ℕ → List ℕ → Memory → Copy
  unfolding copy_loop
  copy_to_user space dst src m = copy_loop (suc (length src)) space dst 0 src m

  zero_loop : ℕ → AddressSpace → ℕ → ℕ → ℕ → Memory → Copy
  zero_loop zero space dst _ len m = done (ok tt, m)
  zero_loop (suc f) space dst zeroed len m = elim (ltb zeroed len) [
    | false ↦ done (ok tt, m)
    | true ↦ with_chunk m space dst zeroed λ phys.
        let count = chunk phys (len - zeroed) in
        zero_loop f space dst (zeroed + count) len (store phys (replicate count 0) m)
  ]

  unfoldable pub zero_user_range : AddressSpace → ℕ → ℕ → Memory → Copy
  unfolding zero_loop
  zero_user_range space dst len m = zero_loop (suc len) space dst 0 len m

  -- `write_frame_bytes` and `write_frame_u64`.
  unfoldable pub write_frame_bytes :
      ℕ → List ℕ → Memory → Result AddressSpaceError (Unit {0}) × Memory
  write_frame_bytes frame bs m =
      if ltb 4096 (length bs) then (err frame_allocation_failed, m) else (ok tt, store frame bs m)

  unfoldable pub write_frame_u64 : ℕ → ℕ → Memory → Memory
  write_frame_u64 frame value m = store frame (to_le_bytes 8 value) m

  -- A word that crosses the end of its page is not read.
  unfoldable pub read_user_u64 : Memory → AddressSpace → ℕ → Option ℕ
  read_user_u64 m space address = elim (translate_user x m space address) [
    | none ↦ none
    | some t ↦
        if ltb (4096 - 8) (t.phys % 4096)
        then none
        else some (from_le_bytes (read_bytes m.bytes t.phys 8))
  ]
