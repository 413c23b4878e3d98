-- ===== src/Tests/Machine.antt =====
-- A concrete machine: the functions of the x86_64 crate on addresses below 2 ^ 47, and a memory.
use vlad_os.Base.{
  ltb, ◌==◌, if◌then◌else◌, Result, ok, done, ℕ, ◌+◌, ◌-◌, ◌*◌, ◌/◌, ◌%◌, ◌^◌, ◌≡◌, refl, Bool,
  true, not, ◌&&◌, ◌||◌, none, some, [], ◌∷◌, arith,
}
use vlad_os.Words.{page_size, align_down}
use vlad_os.Memory.{X86, Memory, AddressLaws, allocate_frame}
use vlad_os.Memory.Frames.{allocated, no_regions, region, Disjoint, allocated-Disjoint}
use vlad_os.AddressSpace.{new_user, translate_user}
use vlad_os.UserMemory.{copy_from_user, validate_user_range, write, chunk_at}
use vlad_os.UserMemory.Pages.{PageLaws}
use vlad_os.UserMemory.Bytes.{user_bytes}
use vlad_os.UserMemory.Exact.{Exact, copy_from_user-Exact}
use vlad_os.UserMemory.Covers.{Checks, validate_user_range-Checks}
use vlad_os.AddressSpace.Isolation.{FlagLaws, Isolates, new_user-Isolates}
use vlad_os.Task.{Platform, TrapFrame, start_frame}

-- The entry of a page in its lowest table; a table stands for its pages.
abbrev map_entry : ℕ → ℕ → ℕ → ℕ → Memory → Result ℕ (Unit {0}) × Memory
map_entry table page frame flags m = (
  ok tt,
  record m {
    tables =
        λ f i. if f == table && i == page / page_size % 512 then frame + flags else m.tables f i;
  },
)

abbrev unmap_entry : ℕ → ℕ → Memory → Result ℕ (Unit {0}) × Memory
unmap_entry table page m = (
  ok tt,
  record m {
    tables = λ f i. if f == table && i == page / page_size % 512 then 0 else m.tables f i;
  },
)

-- The flags `present`, `writable` and `user_accessible` are bits 0, 1 and 2.
abbrev covers : ℕ → ℕ → ℕ → Bool
covers bit flags flag = not (flag / bit % 2 == 1) || flags / bit % 2 == 1

abbrev contains_flags : ℕ → ℕ → Bool
contains_flags flags flag = covers 1 flags flag && covers 2 flags flag && covers 4 flags flag

-- For a single flag.
abbrev remove_flag : ℕ → ℕ → ℕ
remove_flag flags flag = if flags / flag % 2 == 1 then flags - flag else flags

abbrev or_flag : ℕ → ℕ → ℕ
or_flag flags flag = if flags / flag % 2 == 1 then flags else flags + flag

abbrev pub machine : X86
machine = record {
  virt_new = λ a. if ltb a (2 ^ 47) then some a else none;
  page_containing = align_down;
  frame_containing = align_down;
  p4_index = λ page. page / 2 ^ 39 % 512;
  p3_index = λ page. page / 2 ^ 30 % 512;
  p2_index = λ page. page / 2 ^ 21 % 512;
  p1_index = λ page. page / 2 ^ 12 % 512;
  present = 1;
  writable = 2;
  user_accessible = 4;
  flags_or = or_flag;
  flags_contain = contains_flags;
  flags_remove = remove_flag;
  entry_flags = λ entry. entry % page_size;
  entry_frame = λ entry. if entry % 2 == 1 then some (align_down entry) else none;
  entry_is_unused = λ entry. entry == 0;
  entry_set_flags = λ entry flags. align_down entry + flags;
  map_to = map_entry;
  unmap = unmap_entry;
}

-- The page at 0x80_0040_0000 is mapped for user programs in the level-4 table at 0x2000.
abbrev pub mapped_memory : Memory
mapped_memory = record {
  tables = λ f i.
      if f == 0x2000 && i == 1
      then 0x3007
      else if f == 0x3000 && i == 0
      then 0x4007
      else if f == 0x4000 && i == 2
      then 0x5007
      else if f == 0x5000 && i == 0
      then 0x6007
      else 0;
  bytes = λ a. 0;
  frame_allocator = record {
    memory_map = record { start_addr = 0x10_0000; end_addr = 0x10_4000; is_usable = true } ∷ [];
    next = 0;
  };
  kernel_level_4_frame = 0x1000;
}

abbrev pub platform : Platform
platform = record {
  new_stack = λ id. 0x20_0000 + id * 0x2000;
  trampoline = 0x9000;
  kernel_cs = 8;
  kernel_ss = 16;
  user_cs = 0x23;
  user_ss = 0x1b;
}

abbrev pub zero_frames : ℕ → TrapFrame
zero_frames at = start_frame 0 0 0 0 0 0

pub machine-AddressLaws : AddressLaws machine
machine-AddressLaws = record { low = λ a h. ground arith; canonical = λ a b e. ground arith }

machine-FlagLaws : FlagLaws machine
machine-FlagLaws = record {
  flags_set = λ e. ground arith;
  removed = λ f g. ground arith;
  unused = λ e h. ground arith;
  no_flags = λ g. ground arith;
}

new_user-Isolates_example : Isolates machine mapped_memory (new_user machine mapped_memory)
new_user-Isolates_example = new_user-Isolates machine machine-FlagLaws mapped_memory

-- The copy above succeeds.
copy_succeeds :
    copy_from_user machine mapped_memory (record { level_4_frame = 0x2000 }) 0x80_0040_0000 3
    ≡ done (ok (0 ∷ 0 ∷ 0 ∷ []))
unfolding copy_from_user chunk_at translate_user
copy_succeeds = refl

allocated-Disjoint_example :
    Disjoint mapped_memory.frame_allocator.memory_map 0 (allocated machine 3 mapped_memory)
allocated-Disjoint_example =
    allocated-Disjoint machine (λ a. refl) mapped_memory
      (region 0 _ [] (omega arith) (omega arith) refl refl (no_regions _)) 3

-- These are three frames.
three_frames : allocated machine 3 mapped_memory ≡ 0x10_0000 ∷ 0x10_1000 ∷ 0x10_2000 ∷ []
unfolding allocate_frame
three_frames = refl

pub machine-PageLaws : PageLaws machine
machine-PageLaws = record {
  page = λ a. refl;
  frame = λ e h. ground arith;
  new_low = λ a e low. ground arith;
}

copy_from_user-Exact_example :
    Exact
      (user_bytes machine mapped_memory (record { level_4_frame = 0x2000 }) 0x80_0040_0000 3)
      (copy_from_user machine mapped_memory (record { level_4_frame = 0x2000 }) 0x80_0040_0000 3)
copy_from_user-Exact_example =
    copy_from_user-Exact machine machine-AddressLaws mapped_memory
      (record { level_4_frame = 0x2000 }) 0x80_0040_0000 3 machine-PageLaws (omega arith)
      (omega arith)

validate_user_range-Checks_example :
    Checks machine mapped_memory
      (record { level_4_frame = 0x2000 })
      write
      0x80_0040_0000
      (0x80_0040_0000 + 16)
      (validate_user_range machine mapped_memory
        (record { level_4_frame = 0x2000 })
        0x80_0040_0000
        16
        write)
validate_user_range-Checks_example =
    validate_user_range-Checks machine machine-PageLaws machine-AddressLaws mapped_memory
      (record { level_4_frame = 0x2000 }) 0x80_0040_0000 16 write
