-- ===== src/UserMemory.antt =====
-- user_memory.rs: checked copies between the kernel and user memory.
pub mod Total
pub mod Pages
pub mod Bytes
pub mod Exact
pub mod Covers
use vlad_os.Base.{
  ltb, leb, ◌==◌, if◌then◌else◌, length, take, drop, is_empty, Result, ok, err, Exec, done, panic,
  ok_or, expect, and_then, ℕ, zero, suc, ◌+◌, ◌-◌, ◌*◌, ◌/◌, ◌%◌, ◌^◌, min, Bool, true, false, not,
  ◌&&◌, ◌||◌, none, some, List, [], ◌++◌,
}
use vlad_os.Base.Fallible.{◌>>=◌, ◌>>◌}
use vlad_os.Words.{page_size, checked_add, align_down}
use vlad_os.Memory.{Memory, X86, store, read_bytes}
use vlad_os.Process.{AddressSpace}
use vlad_os.AddressSpace.{user_p4_index, UserTranslation, translate_user}

-- user.rs: the user half is the slot `USER_P4_INDEX` of the level-4 table, `1 << 39`.
abbrev pub user_base : ℕ
user_base = user_p4_index * 2 ^ 39

abbrev pub user_stack_top : ℕ
user_stack_top = user_base + 0x80_0000

pub data UserMemoryError : Type 0 where
  address_overflow outside_user_range unmapped not_writable : UserMemoryError

pub data Access : Type 0 where
  read write : Access

abbrev is_write : Access → Bool
is_write read = false
is_write write = true

-- A check that may panic.
abbrev pub Check : Type 0 → Type 0
Check A = Exec (Result UserMemoryError A)

module _ (x : X86) where
  unfoldable pub checked_offset : ℕ → ℕ → Check ℕ
  checked_offset start offset = do
    address ← done (ok_or (checked_add start offset) address_overflow)
    and_then (expect (x.virt_new address)) λ a. done (ok a)

  unfoldable pub validate_user_byte :
      Memory → AddressSpace → ℕ → Access → Result UserMemoryError UserTranslation
  validate_user_byte m space address access =
      if not (leb user_base address && ltb address user_stack_top)
      then err outside_user_range
      else (elim (translate_user x m space address) [
        | none ↦ err unmapped
        | some t ↦
            if is_write access && not (x.flags_contain t.flags x.writable)
            then err not_writable
            else ok t
      ])

  -- `while page < end_addr`; the fuel counts pages.
  validate_pages : ℕ → Memory → AddressSpace → ℕ → ℕ → Access → Check (Unit {0})
  validate_pages zero m space page end access = done (ok tt)
  validate_pages (suc f) m space page end access = elim (ltb page end) [
    | false ↦ done (ok tt)
    | true ↦ and_then (expect (x.virt_new page)) λ a. elim (validate_user_byte m space a access) [
      | err e ↦ done (err e)
      | ok _ ↦ elim (checked_add page page_size) [
        | none ↦ done (err address_overflow)
        | some next ↦ validate_pages f m space next end access
      ]
    ]
  ]

  unfoldable pub validate_user_range : Memory → AddressSpace → ℕ → ℕ → Access → Check (Unit {0})
  unfolding validate_pages
  validate_user_range m space start len access =
      if len == 0 then done (ok tt) else (elim (checked_add start len) [
        | none ↦ done (err address_overflow)
        | some end ↦
            if ltb start user_base || ltb user_stack_top end
            then done (err outside_user_range)
            else validate_pages (suc (len / page_size + 1)) m space (align_down start) end access
      ])

  abbrev pub validate_user_read_range : Memory → AddressSpace → ℕ → ℕ → Check (Unit {0})
  validate_user_read_range m space start len = validate_user_range m space start len read

  abbrev pub validate_user_write_range : Memory → AddressSpace → ℕ → ℕ → Check (Unit {0})
  validate_user_write_range m space start len = validate_user_range m space start len write

  -- The next chunk of a copy: its physical address, if its first byte may be accessed.
  unfoldable pub chunk_at : Memory → AddressSpace → ℕ → ℕ → Access → Check ℕ
  unfolding checked_offset validate_user_byte
  chunk_at m space start copied access = do
    current ← checked_offset start copied
    translation ← done (validate_user_byte m space current access)
    done (ok translation.phys)

  -- The bytes up to the end of the page, or of the `left` bytes.
  abbrev pub chunk_size : ℕ → ℕ → ℕ
  chunk_size phys left = min left (page_size - phys % page_size)

  -- `while copied < dst.len()`: the bytes of `dst[copied..]`, `left` of them.
  copy_from_loop : ℕ → Memory → AddressSpace → ℕ → ℕ → ℕ → Check (List ℕ)
  copy_from_loop zero m space src copied left = done (ok [])
  copy_from_loop (suc f) m space src copied left = elim (ltb 0 left) [
    | false ↦ done (ok [])
    | true ↦ chunk_at m space src copied read >>= λ phys.
        let count = chunk_size phys left in
        copy_from_loop f m space src (copied + count) (left - count) >>= λ rest.
        done (ok (read_bytes m.bytes phys count ++ rest))
  ]

  -- The bytes that `copy_from_user` puts into a destination of `len` bytes.
  unfoldable pub copy_from_user : Memory → AddressSpace → ℕ → ℕ → Check (List ℕ)
  unfolding copy_from_loop
  copy_from_user m space src len = copy_from_loop (suc len) m space src 0 len

  -- `while copied < src.len()`; `rest` is `src[copied..]`. An error leaves what was written before.
  copy_to_loop :
      ℕ → AddressSpace → ℕ → ℕ → List ℕ → Memory → Exec (Result UserMemoryError (Unit {0}) × Memory)
  unfolding chunk_at
  copy_to_loop zero space dst copied rest m = done (ok tt, m)
  copy_to_loop (suc f) space dst copied rest m = elim (is_empty rest) [
    | true ↦ done (ok tt, m)
    | false ↦ elim (chunk_at m space dst copied write) [
      | panic ↦ panic
      | done (err e) ↦ done (err e, m)
      | done (ok phys) ↦
          let count = chunk_size phys (length rest) in
          copy_to_loop f space dst (copied + count) (drop count rest)
            (store phys (take count rest) m)
    ]
  ]

  unfoldable pub copy_to_user :
      AddressSpace → ℕ → List ℕ → Memory → Exec (Result UserMemoryError (Unit {0}) × Memory)
  unfolding copy_to_loop
  copy_to_user space dst src m = copy_to_loop (suc (length src)) space dst 0 src m
