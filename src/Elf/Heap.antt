-- ===== src/Elf/Heap.antt =====
-- user.rs and elf.rs: where the heap of a loaded image begins.
use vlad_os.Base.{ok, ok_or, bind-ok, ℕ, ◌≤◌, ◌≡◌, sym, ◌∙◌, some, List, [], ◌∷◌, arith}
use vlad_os.Words.{align_up, align_up_lem}
use vlad_os.Process.Heap.{UserHeap, IsValid, new, new-IsValid}
use vlad_os.Elf.{LoadSegment, ParsedElf, parse_elf, max_segment_end}
use vlad_os.Elf.Segments.{All, IsLaid, parse_elf-IsLaid}
use vlad_os.Elf.Load.{heap_for_loaded_image, user_heap_limit}

segments_below :
    (segments : List LoadSegment) (bound end : ℕ)
    → max_segment_end segments ≤ bound
    → align_up bound ≡ some end
    → IsLaid segments
    → All (λ s. s.map_end ≤ end) segments
unfolding max_segment_end
segments_below [] bound end h e l = tt
segments_below (s ∷ rest) bound end h e l = (
  omega (arith, h, l.0, align_up_lem bound end e),
  segments_below rest bound end (omega arith) e l.2,
)

-- A heap that is made for an accepted image is empty and valid, starts at or above the end of
-- every segment's pages, and ends at the limit of user heaps.
pub heap_above_image :
    (elf : List ℕ) {p : ParsedElf} {h : UserHeap}
    → parse_elf elf ≡ ok p
    → heap_for_loaded_image (max_segment_end p.segments) ≡ ok h
    → IsValid h
      × (h.brk ≡ h.start)
      × (h.limit ≡ user_heap_limit)
      × All (λ s. s.map_end ≤ h.start) p.segments
unfolding heap_for_loaded_image
heap_above_image elf {p} {h} parsed made =
    let (start, up, h₁) = bind-ok (ok_or (align_up (max_segment_end p.segments)) _) _ made in
    let range : new start user_heap_limit ≡ ok h = ground (arith, h₁) in
    let (valid, starts, limit, empty) = new-IsValid start user_heap_limit (omega arith) range in
    let at : align_up (max_segment_end p.segments) ≡ some start = ground (arith, up) in
    (
      valid,
      empty ∙ sym starts,
      limit,
      rw starts (
          segments_below p.segments (max_segment_end p.segments) start (omega arith) at
            (parse_elf-IsLaid elf parsed).0),
    )
