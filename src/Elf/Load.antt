-- ===== src/Elf/Load.antt =====
-- elf.rs and user.rs: mapping a parsed image into a new address space.
use vlad_os.Base.{
  ltb, if◌then◌else◌, Result, ok, err, Exec, done, ok_or, expect, ◌>>=◌, and_then, ℕ, ◌+◌, ◌-◌, ◌*◌,
  ◌||◌, List, [], ◌∷◌,
}
use vlad_os.Words.{page_size, align_up}
use vlad_os.Memory.{X86, Memory}
use vlad_os.AddressSpace.{
  AddressSpaceError, frame_allocation_failed, UserCopyError, UserMapFlags, read_write, new_user,
  map_user_region,
}
use vlad_os.AddressSpace.Copy.{copy_to_user, zero_user_range}
use vlad_os.Process.Heap.{UserHeap, UserHeapError, invalid_range}
use vlad_os.Process.Heap
use vlad_os.Process.{AddressSpace}
use vlad_os.Scheduler.Spawn.{UserTaskInit}
use vlad_os.UserMemory.{user_stack_top}
use vlad_os.Elf.{
  user_elf_load_start, user_elf_load_end, pf_x, pf_w, pf_r, ElfLoadError, no_heap_range,
  out_of_frames, map_failed, user_copy_failed, LoadSegment, ParsedElf, has_flag, parse_elf,
  max_segment_end,
}

-- `USER_HEAP_LIMIT` and `USER_STACK_PAGES` of user.rs.
abbrev pub user_heap_limit : ℕ
user_heap_limit = user_elf_load_end

abbrev pub user_stack_pages : ℕ
user_stack_pages = 2

unfoldable pub map_address_space_error : AddressSpaceError → ElfLoadError
map_address_space_error frame_allocation_failed = out_of_frames
map_address_space_error _ = map_failed

abbrev map_user_copy_error : UserCopyError → ElfLoadError
map_user_copy_error _ = user_copy_failed

unfoldable pub heap_for_loaded_image : ℕ → Result UserHeapError UserHeap
heap_for_loaded_image max_end = ok_or (align_up max_end) invalid_range >>= λ heap_start.
    if ltb heap_start user_elf_load_start || ltb user_heap_limit heap_start
    then err invalid_range
    else Heap.new heap_start user_heap_limit

abbrev pub user_flags : LoadSegment → UserMapFlags
user_flags s = record {
  is_readable = has_flag s.flags pf_r;
  is_writable = has_flag s.flags pf_w;
  is_executable = has_flag s.flags pf_x;
}

-- A step of the load: its result, and the memory that it leaves.
abbrev pub Load : Type 0 → Type 0
Load A = Exec (Result ElfLoadError A × Memory)

abbrev pub then_load {ℓ} :
    {E : Type ℓ} {A B : Type 0}
    → Exec (Result E A × Memory)
    → (E → ElfLoadError)
    → (A → Memory → Load B)
    → Load B
then_load r map_error f = and_then r λ step.
    let (outcome, m) = step in elim outcome [ err e ↦ done (err (map_error e), m) | ok a ↦ f a m ]

module _ (x : X86) where
  unfoldable pub map_user_stack :
      AddressSpace → Memory → Exec (Result AddressSpaceError (Unit {0}) × Memory)
  map_user_stack space m =
      let bottom = user_stack_top - user_stack_pages * page_size in
      and_then (expect (x.virt_new bottom))
        λ a. map_user_region x space a (user_stack_pages * page_size) read_write m

  -- One round of the loop over the segments: map, copy, and clear the rest.
  unfoldable pub load_segment : AddressSpace → LoadSegment → Memory → Load (Unit {0})
  load_segment space s m = and_then (expect (x.virt_new s.map_start)) λ start.
      then_load (map_user_region x space start (s.map_end - s.map_start) (user_flags s) m)
        map_address_space_error
        λ _ m₁. and_then (expect (x.virt_new s.vaddr)) λ target.
          then_load (copy_to_user x space target s.bytes m₁) map_user_copy_error λ _ m₂.
            if ltb s.filesz s.memsz
            then (and_then (expect (x.virt_new (s.vaddr + s.filesz))) λ rest.
                then_load (zero_user_range x space rest (s.memsz - s.filesz) m₂) map_user_copy_error
                  λ _ m₃. done (ok tt, m₃))
            else done (ok tt, m₂)

  unfoldable pub load_segments : AddressSpace → List LoadSegment → Memory → Load (Unit {0})
  unfolding load_segment
  load_segments space [] m = done (ok tt, m)
  load_segments space (s ∷ rest) m =
      then_load (load_segment space s m) (λ e. e) λ _ m'. load_segments space rest m'

  -- From the new address space on.
  unfoldable pub load_image : ParsedElf → UserHeap → ℕ → AddressSpace → Memory → Load UserTaskInit
  unfolding map_user_stack
  load_image elf heap arg0 space m =
      then_load (load_segments space elf.segments m) (λ e. e)
        λ _ m₁. then_load (map_user_stack space m₁) map_address_space_error λ _ m₂.
          and_then (expect (x.virt_new elf.entry)) λ entry.
            and_then (expect (x.virt_new user_stack_top)) λ top. done (
              ok (record {
                address_space = space;
                entry_point = entry;
                user_stack_top = top;
                heap = heap;
                arg0 = arg0;
              }),
              m₂,
            )

  unfoldable pub load_user_elf : List ℕ → ℕ → Memory → Load UserTaskInit
  unfolding load_image
  load_user_elf elf_bytes arg0 m = elim (parse_elf elf_bytes) [
    | err e ↦ done (err e, m)
    | ok elf ↦ elim (heap_for_loaded_image (max_segment_end elf.segments)) [
      | err _ ↦ done (err no_heap_range, m)
      | ok heap ↦
          let (r, m') = new_user x m in
          then_load (done (r, m')) map_address_space_error
            λ space m₁. load_image elf heap arg0 space m₁
    ]
  ]
