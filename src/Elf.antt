-- ===== src/Elf.antt =====
-- elf.rs: the parser of static ELF64 images.
pub mod Segments
pub mod Load
pub mod Heap
pub mod Start
pub mod Spawn
pub mod Total
use vlad_os.Base.{
  ltb, leb, ◌==◌, if◌then◌else◌, length, get_elem?, take, drop, is_empty, Result, ok, err, ok_or,
  fail_if, ◌>>=◌, ◌>>◌, ℕ, zero, suc, ◌+◌, ◌*◌, ◌/◌, ◌%◌, Bool, false, not, ◌&&◌, ◌||◌, none, some,
  List, [], ◌∷◌, ◌++◌,
}
use vlad_os.Words.{page_size, checked_add, align_down, align_up, from_le_bytes}
use vlad_os.UserMemory.{user_base}
use Prim.Native.Nat.{bit_and, max}

-- user.rs: where an image may be loaded.
abbrev pub user_elf_load_start : ℕ
user_elf_load_start = user_base + 0x40_0000

abbrev pub user_elf_load_end : ℕ
user_elf_load_end = user_base + 0x70_0000

abbrev pub elf_header_size : ℕ
elf_header_size = 64

abbrev pub program_header_size : ℕ
program_header_size = 56

-- `PF_X`, `PF_W` and `PF_R`.
abbrev pub pf_x : ℕ
pf_x = 1

abbrev pub pf_w : ℕ
pf_w = 2

abbrev pub pf_r : ℕ
pf_r = 4

pub data ElfLoadError : Type 0 where
  bad_magic unsupported_class unsupported_endian unsupported_type : ElfLoadError
  unsupported_machine malformed_header malformed_program_header : ElfLoadError
  segment_outside_user_range segment_mem_size_less_than_file_size : ElfLoadError
  segment_overlap unaligned_segment entry_not_executable no_heap_range : ElfLoadError
  out_of_frames map_failed user_copy_failed : ElfLoadError

pub record LoadSegment : Type 0 where
  pub vaddr : ℕ
  pub filesz : ℕ
  pub memsz : ℕ
  pub flags : ℕ
  pub bytes : List ℕ
  pub map_start : ℕ
  pub map_end : ℕ

pub record ParsedElf : Type 0 where
  pub entry : ℕ
  pub segments : List LoadSegment

-- `bytes.get(offset..offset + n)`, read as a little-endian word.
unfoldable pub read_word : ℕ → List ℕ → ℕ → Result ElfLoadError ℕ
read_word n bytes offset =
    if leb (offset + n) (length bytes)
    then ok (from_le_bytes (take n (drop offset bytes)))
    else err malformed_header

abbrev read_u16 : List ℕ → ℕ → Result ElfLoadError ℕ
read_u16 = read_word 2

abbrev read_u32 : List ℕ → ℕ → Result ElfLoadError ℕ
read_u32 = read_word 4

abbrev read_u64 : List ℕ → ℕ → Result ElfLoadError ℕ
read_u64 = read_word 8

-- `flags & !(PF_R | PF_W | PF_X) != 0`: a bit above the low three is set.
abbrev pub has_unknown_flags : ℕ → Bool
has_unknown_flags flags = not (flags / 8 == 0)

-- `flags & bit != 0`.
abbrev pub has_flag : ℕ → ℕ → Bool
has_flag flags bit = not (bit_and flags bit == 0)

-- The checks of a header whose fields have been read.
unfoldable pub check_segment :
    (file_length flags file_offset vaddr filesz memsz align : ℕ)
    → List ℕ
    → Result ElfLoadError LoadSegment
check_segment file_length flags file_offset vaddr filesz memsz align bytes = do
  fail_if (ltb memsz filesz) segment_mem_size_less_than_file_size
  fail_if (memsz == 0) malformed_program_header
  fail_if
      (not (align == page_size)
        || not (vaddr % page_size == 0)
        || not (file_offset % page_size == 0))
      unaligned_segment
  fail_if (not (vaddr % align == file_offset % align)) unaligned_segment
  data_end ← ok_or (checked_add file_offset filesz) malformed_program_header
  fail_if (ltb file_length data_end) malformed_program_header
  segment_end ← ok_or (checked_add vaddr memsz) malformed_program_header
  map_end ← ok_or (align_up segment_end) malformed_program_header
  fail_if
      (ltb (align_down vaddr) user_elf_load_start
        || ltb user_elf_load_end map_end
        || leb map_end (align_down vaddr))
      segment_outside_user_range
  ok (record {
    vaddr = vaddr;
    filesz = filesz;
    memsz = memsz;
    flags = flags;
    bytes = take filesz (drop file_offset bytes);
    map_start = align_down vaddr;
    map_end = map_end;
  })

unfoldable pub parse_program_header : List ℕ → ℕ → Result ElfLoadError LoadSegment
unfolding check_segment
parse_program_header elf offset = do
  p_type ← read_u32 elf offset
  fail_if (not (p_type == 1)) malformed_program_header
  flags ← read_u32 elf (offset + 4)
  fail_if (has_unknown_flags flags) malformed_program_header
  file_offset ← read_u64 elf (offset + 8)
  vaddr ← read_u64 elf (offset + 16)
  filesz ← read_u64 elf (offset + 32)
  memsz ← read_u64 elf (offset + 40)
  align ← read_u64 elf (offset + 48)
  check_segment (length elf) flags file_offset vaddr filesz memsz align elf

abbrev pub overlaps : LoadSegment → LoadSegment → Bool
overlaps s existing = ltb s.map_start existing.map_end && ltb existing.map_start s.map_end

unfoldable pub check_segment_overlap :
    List LoadSegment → LoadSegment → Result ElfLoadError (Unit {0})
check_segment_overlap [] s = ok tt
check_segment_overlap (existing ∷ rest) s =
    let others = check_segment_overlap rest s in
    if overlaps s existing then err segment_overlap else others

-- `for index in 0..program_header_count`; `left` headers are left.
parse_segments : List ℕ → ℕ → ℕ → ℕ → List LoadSegment → Result ElfLoadError (List LoadSegment)
parse_segments elf table zero index segments = ok segments
parse_segments elf table (suc left) index segments =
    parse_program_header elf (table + index * program_header_size) >>= λ s.
    check_segment_overlap segments s >>= λ _.
    parse_segments elf table left (index + 1) (segments ++ (s ∷ []))

abbrev pub contains_entry : ℕ → LoadSegment → Bool
contains_entry entry s = has_flag s.flags pf_x && leb s.vaddr entry && ltb entry (s.vaddr + s.memsz)

abbrev pub any {ℓ} : {A : Type ℓ} → (A → Bool) → List A → Bool
any p [] = false
any p (a ∷ rest) = p a || any p rest

-- `bytes[index]`, behind a check of the length.
abbrev byte_at : List ℕ → ℕ → ℕ
byte_at bytes index = elim (get_elem? bytes index) [ none ↦ 0 | some b ↦ b ]

-- `elf_bytes[0..4] != b"\x7fELF"`.
abbrev is_elf_magic : List ℕ → Bool
is_elf_magic bytes =
    byte_at bytes 0 == 0x7f
    && byte_at bytes 1 == 0x45
    && byte_at bytes 2 == 0x4c
    && byte_at bytes 3 == 0x46

-- The checks of the file header, in order.
unfoldable pub check_header : List ℕ → Result ElfLoadError (Unit {0})
check_header elf = do
  fail_if (ltb (length elf) 4) malformed_header
  fail_if (not (is_elf_magic elf)) bad_magic
  fail_if (ltb (length elf) elf_header_size) malformed_header
  fail_if (not (byte_at elf 4 == 2)) unsupported_class
  fail_if (not (byte_at elf 5 == 1)) unsupported_endian
  fail_if (not (byte_at elf 6 == 1)) malformed_header
  version ← read_u32 elf 20
  fail_if (not (version == 1)) malformed_header
  type ← read_u16 elf 16
  fail_if (not (type == 2)) unsupported_type
  machine ← read_u16 elf 18
  fail_if (not (machine == 0x3e)) unsupported_machine
  header_size ← read_u16 elf 52
  fail_if (not (header_size == elf_header_size)) malformed_header
  entry_size ← read_u16 elf 54
  fail_if (not (entry_size == program_header_size)) malformed_program_header

unfoldable pub parse_elf : List ℕ → Result ElfLoadError ParsedElf
unfolding check_header parse_segments
parse_elf elf = do
  check_header elf
  entry ← read_u64 elf 24
  table ← read_u64 elf 32
  count ← read_u16 elf 56
  fail_if (count == 0) malformed_header
  table_end ← ok_or (checked_add table (program_header_size * count)) malformed_program_header
  fail_if (ltb (length elf) table_end) malformed_program_header
  segments ← parse_segments elf table count 0 []
  fail_if (is_empty segments) malformed_program_header
  fail_if (not (any (contains_entry entry) segments)) entry_not_executable
  ok (record { entry = entry; segments = segments })

-- `parse`.
unfoldable pub parse : List ℕ → Result ElfLoadError (Unit {0})
unfolding parse_elf
parse elf = parse_elf elf >>= λ _. ok tt

abbrev pub segment_end : LoadSegment → ℕ
segment_end s = s.vaddr + s.memsz

-- `segments.iter().map(segment_end).max()`; there is a segment.
unfoldable pub max_segment_end : List LoadSegment → ℕ
max_segment_end [] = 0
max_segment_end (s ∷ rest) = max (segment_end s) (max_segment_end rest)
