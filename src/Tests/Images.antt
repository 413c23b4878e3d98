-- ===== src/Tests/Images.antt =====
-- A static image with one segment: its headers and the zeroed memory behind them, executable.
use vlad_os.Base.{ok, ℕ, ◌+◌, ◌≤◌, ◌≡◌, refl, List, [], ◌∷◌}
use vlad_os.Words.{page_size}
use vlad_os.Words
use vlad_os.Process.Heap.{UserHeap, IsValid, new-IsValid}
use vlad_os.Process.Heap
use vlad_os.Elf.{
  user_elf_load_start, LoadSegment, ParsedElf, read_word, parse_program_header,
  check_segment_overlap, parse_elf, max_segment_end,
}
use vlad_os.Elf.Segments.{All, Any, IsLaid, HasEntry, parse_elf-IsLaid}
use vlad_os.Elf.Heap.{heap_above_image}
use vlad_os.Elf.Load.{heap_for_loaded_image, user_heap_limit}

abbrev pub image : List ℕ
image =
    127 ∷ 69 ∷ 76 ∷ 70 ∷ 2 ∷ 1 ∷ 1 ∷ 0 ∷ 0 ∷ 0 ∷ 0 ∷ 0 ∷ 0 ∷ 0 ∷ 0 ∷ 0 ∷ 2 ∷ 0 ∷ 62 ∷ 0 ∷ 1 ∷ 0 ∷ 0
    ∷ 0 ∷ 0 ∷ 0 ∷ 64 ∷ 0 ∷ 128 ∷ 0 ∷ 0 ∷ 0 ∷ 64 ∷ 0 ∷ 0 ∷ 0 ∷ 0 ∷ 0 ∷ 0 ∷ 0 ∷ 0 ∷ 0 ∷ 0 ∷ 0 ∷ 0 ∷ 0
    ∷ 0 ∷ 0 ∷ 0 ∷ 0 ∷ 0 ∷ 0 ∷ 64 ∷ 0 ∷ 56 ∷ 0 ∷ 1 ∷ 0 ∷ 0 ∷ 0 ∷ 0 ∷ 0 ∷ 0 ∷ 0 ∷ 1 ∷ 0 ∷ 0 ∷ 0 ∷ 5
    ∷ 0 ∷ 0 ∷ 0 ∷ 0 ∷ 0 ∷ 0 ∷ 0 ∷ 0 ∷ 0 ∷ 0 ∷ 0 ∷ 0 ∷ 0 ∷ 64 ∷ 0 ∷ 128 ∷ 0 ∷ 0 ∷ 0 ∷ 0 ∷ 0 ∷ 64 ∷ 0
    ∷ 128 ∷ 0 ∷ 0 ∷ 0 ∷ 120 ∷ 0 ∷ 0 ∷ 0 ∷ 0 ∷ 0 ∷ 0 ∷ 0 ∷ 0 ∷ 24 ∷ 0 ∷ 0 ∷ 0 ∷ 0 ∷ 0 ∷ 0 ∷ 0 ∷ 16
    ∷ 0 ∷ 0 ∷ 0 ∷ 0 ∷ 0 ∷ 0 ∷ []

abbrev image_segment : LoadSegment
image_segment = record {
  vaddr = user_elf_load_start;
  filesz = 120;
  memsz = 0x1800;
  flags = 5;
  bytes = image;
  map_start = user_elf_load_start;
  map_end = user_elf_load_start + 0x2000;
}

abbrev image_parsed : ParsedElf
image_parsed = record { entry = user_elf_load_start; segments = image_segment ∷ [] }

abbrev image_heap : UserHeap
image_heap = record {
  start = user_elf_load_start + 0x2000;
  brk = user_elf_load_start + 0x2000;
  limit = user_heap_limit;
  mapped_end = user_elf_load_start + 0x2000;
}

image-parses : parse_elf image ≡ ok image_parsed
unfolding parse_elf read_word Words.from_le_bytes parse_program_header check_segment_overlap
image-parses = refl

image-heap : heap_for_loaded_image (max_segment_end image_parsed.segments) ≡ ok image_heap
unfolding heap_for_loaded_image max_segment_end Heap.new
image-heap = refl

parse_elf-IsLaid_example :
    IsLaid (image_segment ∷ []) × Any (HasEntry user_elf_load_start) (image_segment ∷ [])
parse_elf-IsLaid_example = parse_elf-IsLaid image {p = image_parsed} image-parses

heap_above_image_example :
    IsValid image_heap
    × (image_heap.brk ≡ image_heap.start)
    × (image_heap.limit ≡ user_heap_limit)
    × All (λ s. s.map_end ≤ image_heap.start) (image_segment ∷ [])
heap_above_image_example =
    heap_above_image image {p = image_parsed} {h = image_heap} image-parses image-heap
