-- ===== src/AddressSpace.antt =====
-- address_space.rs: user address spaces over the page tables.
pub mod Copy
pub mod Isolation
pub mod Total
use vlad_os.Base.{
  ltb, ◌==◌, if◌then◌else◌, replicate, is_some, Result, ok, err, Exec, done, panic, map_err, expect,
  and_then, ℕ, zero, suc, ◌+◌, ◌-◌, ◌/◌, ◌%◌, Bool, true, false, not, ◌||◌, Option, none, some,
}
use vlad_os.Base.Fallible.{◌>>=◌, ◌>>◌}
use vlad_os.Words.{page_size, checked_add, align_down, align_up, is_page_aligned}
use vlad_os.Memory.{Memory, X86, allocate_frame, store}
use vlad_os.Process.{AddressSpace}

abbrev pub user_p4_index : ℕ
user_p4_index = 1

pub data AddressSpaceError : Type 0 where
  frame_allocation_failed kernel_user_slot_in_use range_overflow : AddressSpaceError
  map_to_error unmap_error : ℕ → AddressSpaceError

pub data UserCopyError : Type 0 where
  copy_range_overflow not_mapped : UserCopyError

pub record UserTranslation : Type 0 where
  pub phys : ℕ
  pub flags : ℕ

pub record UserMapFlags : Type 0 where
  pub is_readable : Bool
  pub is_writable : Bool
  pub is_executable : Bool

abbrev pub read_execute : UserMapFlags
read_execute = record { is_readable = true; is_writable = false; is_executable = true }

abbrev pub read_write : UserMapFlags
read_write = record { is_readable = true; is_writable = true; is_executable = false }

-- A step that may change memory, return an error, or panic.
abbrev pub Step : Type 0 → Type 0
Step A = Exec (Result AddressSpaceError A × Memory)

-- What the loops below do after a mapping: go on, or stop with the error.
abbrev pub step_then :
    {A B : Type 0} → Step A → (A → Memory → Step B) → (AddressSpaceError → Memory → Step B) → Step B
step_then (done (ok a, m)) k h = k a m
step_then (done (err e, m)) k h = h e m
step_then panic k h = panic

abbrev pub stop : {B : Type 0} → AddressSpaceError → Memory → Step B
stop e m = done (err e, m)

unfoldable pub validate_page_range : ℕ → ℕ → Result AddressSpaceError (Unit {0})
validate_page_range start end =
    if ltb end start || not (is_page_aligned start) || not (is_page_aligned end)
    then err range_overflow
    else ok tt

module _ (x : X86) where
  unfoldable pub page_table_flags : UserMapFlags → ℕ
  page_table_flags f =
      let base = x.flags_or x.present x.user_accessible in
      if f.is_writable then x.flags_or base x.writable else base

  unfoldable pub entry_allows_user : ℕ → Bool
  entry_allows_user flags = x.flags_contain flags (x.flags_or x.present x.user_accessible)

  -- One level of the walk: the frame that a user-accessible entry points to.
  unfoldable pub walk_entry : ℕ → Option ℕ
  unfolding entry_allows_user
  walk_entry e = if entry_allows_user (x.entry_flags e) then x.entry_frame e else none

  abbrev next_level : Option ℕ → (ℕ → Option ℕ) → Option ℕ
  next_level none f = none
  next_level (some t) f = f t

  -- The walk down to the level-1 table of a page.
  unfoldable pub level_1_table : Memory → ℕ → ℕ → Option ℕ
  unfolding walk_entry
  level_1_table m level_4 page =
      next_level (walk_entry (m.tables level_4 (x.p4_index page))) λ level_3.
        next_level (walk_entry (m.tables level_3 (x.p3_index page)))
          λ level_2. walk_entry (m.tables level_2 (x.p2_index page))

  unfoldable pub translate_user : Memory → AddressSpace → ℕ → Option UserTranslation
  unfolding level_1_table
  translate_user m space address =
      let page = x.page_containing address in
      elim (level_1_table m space.level_4_frame page) [
        | none ↦ none
        | some level_1 ↦
            let e = m.tables level_1 (x.p1_index page) in
            elim (walk_entry e) [
              | none ↦ none
              | some frame ↦
                  some (record { phys = frame + address % 4096; flags = x.entry_flags e })
            ]
      ]

  unfoldable pub user_page_is_accessible : Memory → AddressSpace → ℕ → Bool
  unfolding translate_user
  user_page_is_accessible m space address = is_some (translate_user m space address)

  -- A kernel entry as a user table has it: without `USER_ACCESSIBLE`.
  abbrev kernel_entry : ℕ → ℕ
  kernel_entry e =
      if x.entry_is_unused e
      then e
      else x.entry_set_flags e (x.flags_remove (x.entry_flags e) x.user_accessible)

  -- The table after the loop of `new_user`: the zeroed slot of the user half stays, each other
  -- slot has the kernel's entry. `zeroed` is a zeroed table's entry, 0.
  abbrev user_table : (ℕ → ℕ) → ℕ → ℕ
  user_table kernel index = if index == user_p4_index then 0 else kernel_entry (kernel index)

  unfoldable pub new_user : Memory → Result AddressSpaceError AddressSpace × Memory
  unfolding allocate_frame
  new_user m =
      let (o, m') = allocate_frame x m in
      elim o [
        | none ↦ (err frame_allocation_failed, m')
        | some frame ↦
            let kernel = m'.tables m'.kernel_level_4_frame in
            if x.entry_is_unused (kernel user_p4_index)
            then (
              ok (record { level_4_frame = frame }),
              record m' {
                tables = λ f i. if f == frame then user_table kernel i else m'.tables f i;
              },
            )
            else (
              err kernel_user_slot_in_use,
              record m' {
                tables = λ f i.
                    if f == frame
                    then (if i == 0 then kernel_entry (kernel 0) else 0)
                    else m'.tables f i;
              },
            )
      ]

  unfoldable pub map_frame : AddressSpace → ℕ → ℕ → ℕ → Memory → Step (Unit {0})
  map_frame space address frame flags m =
      let (r, m') = x.map_to space.level_4_frame (x.page_containing address) frame flags m in
      done (map_err map_to_error r, m')

  unfoldable pub unmap_page : AddressSpace → ℕ → Memory → Step (Unit {0})
  unmap_page space address m =
      let (r, m') = x.unmap space.level_4_frame (x.page_containing address) m in
      done (map_err unmap_error r, m')

  unfoldable pub map_zeroed_user_page : AddressSpace → ℕ → ℕ → Memory → Step ℕ
  unfolding allocate_frame map_frame
  map_zeroed_user_page space address flags m =
      let (o, m') = allocate_frame x m in
      elim o [
        | none ↦ done (err frame_allocation_failed, m')
        | some frame ↦
            step_then (map_frame space address frame flags (store frame (replicate page_size 0) m'))
              (λ _ m''. done (ok frame, m'')) stop
      ]

  -- `VirtAddr::new(address)`, then the step.
  abbrev at_address : {A : Type 0} → ℕ → (ℕ → Step A) → Step A
  at_address address k = and_then (expect (x.virt_new address)) k

  -- `address = address.checked_add(PAGE_SIZE).ok_or(RangeOverflow)?`, then the rest of a loop.
  abbrev advance : ℕ → Memory → (ℕ → Step (Unit {0})) → Step (Unit {0})
  advance address m k = elim (checked_add address page_size) [
    | none ↦ done (err range_overflow, m)
    | some next ↦ k next
  ]

  -- `while address < end`; the fuel counts pages.
  unmap_loop : ℕ → AddressSpace → ℕ → ℕ → Memory → Step (Unit {0})
  unfolding unmap_page
  unmap_loop zero space address end m = done (ok tt, m)
  unmap_loop (suc f) space address end m = elim (ltb address end) [
    | false ↦ done (ok tt, m)
    | true ↦ at_address address λ a.
        step_then (unmap_page space a m)
          (λ _ m'. advance address m' (λ next. unmap_loop f space next end m')) stop
  ]

  abbrev pages : ℕ → ℕ → ℕ
  pages start end = suc ((end - start) / page_size)

  unfoldable pub unmap_user_heap_pages : AddressSpace → ℕ → ℕ → Memory → Step (Unit {0})
  unfolding unmap_loop
  unmap_user_heap_pages space start end m = elim (validate_page_range start end) [
    | err e ↦ done (err e, m)
    | ok _ ↦ unmap_loop (pages start end) space start end m
  ]

  -- When a page cannot be mapped, those mapped before it are unmapped; the error of that is dropped.
  map_heap_loop : ℕ → AddressSpace → ℕ → ℕ → ℕ → Memory → Step (Unit {0})
  unfolding map_zeroed_user_page unmap_user_heap_pages
  map_heap_loop zero space start address end m = done (ok tt, m)
  map_heap_loop (suc f) space start address end m = elim (ltb address end) [
    | false ↦ done (ok tt, m)
    | true ↦ at_address address λ a.
        step_then (map_zeroed_user_page space a (page_table_flags read_write) m)
          (λ _ m'. advance address m' (λ next. map_heap_loop f space start next end m'))
          (λ e m'. at_address address λ a'.
            step_then (unmap_user_heap_pages space start a' m') (λ _ m''. stop e m'')
              (λ _ m''. stop e m''))
  ]

  unfoldable pub map_user_heap_pages : AddressSpace → ℕ → ℕ → Memory → Step (Unit {0})
  unfolding map_heap_loop
  map_user_heap_pages space start end m = elim (validate_page_range start end) [
    | err e ↦ done (err e, m)
    | ok _ ↦ map_heap_loop (pages start end) space start start end m
  ]

  map_region_loop : ℕ → AddressSpace → ℕ → ℕ → ℕ → Memory → Step (Unit {0})
  unfolding map_zeroed_user_page
  map_region_loop zero space address end flags m = done (ok tt, m)
  map_region_loop (suc f) space address end flags m = elim (ltb address end) [
    | false ↦ done (ok tt, m)
    | true ↦ at_address address λ a.
        step_then (map_zeroed_user_page space a flags m)
          (λ _ m'. advance address m' (λ next. map_region_loop f space next end flags m')) stop
  ]

  unfoldable pub map_user_region : AddressSpace → ℕ → ℕ → UserMapFlags → Memory → Step (Unit {0})
  unfolding map_region_loop page_table_flags
  map_user_region space virt_start size flags m =
      if size == 0 then done (ok tt, m) else (elim (checked_add virt_start size) [
        | none ↦ done (err range_overflow, m)
        | some e ↦ elim (align_up e) [
          | none ↦ done (err range_overflow, m)
          | some end ↦
              let start = align_down virt_start in
              map_region_loop (pages start end) space start end (page_table_flags flags) m
        ]
      ])
