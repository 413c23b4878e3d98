-- ===== src/Elf/Segments.antt =====
-- What an image accepted by elf.rs guarantees to the loader.
use vlad_os.Base.{
  ltb, ◌==◌, Bool-cases, length, drop, is_empty, length-take, length-drop, ok, ok_or, fail_if,
  ◌>>=◌, bind-ok, ℕ, zero, suc, ◌+◌, ◌*◌, ◌%◌, ◌≤◌, ◌<◌, ◌≡◌, refl, ◌⊎◌, inl, inr, Bool, true, not,
  List, [], ◌∷◌, ◌++◌, arith,
}
use vlad_os.Words.{page_size, checked_add}
use vlad_os.Elf.{
  user_elf_load_start, user_elf_load_end, program_header_size, pf_x, malformed_header,
  malformed_program_header, entry_not_executable, LoadSegment, ParsedElf, read_word,
  has_unknown_flags, has_flag, check_segment, parse_program_header, check_segment_overlap,
  contains_entry, any, check_header, parse_elf, parse_segments,
}

-- A segment whose pages lie in the load range and whose bytes fit in its memory.
pub record IsPlaced (s : LoadSegment) : Type 0 where
  pub start_le : user_elf_load_start ≤ s.map_start
  pub covers_start : s.map_start ≤ s.vaddr
  pub covers_end : s.vaddr + s.memsz ≤ s.map_end
  pub end_le : s.map_end ≤ user_elf_load_end
  pub tight : s.map_end < s.vaddr + s.memsz + page_size
  pub start_aligned : s.map_start % page_size ≡ 0
  pub end_aligned : s.map_end % page_size ≡ 0
  pub nonempty : 0 < s.memsz
  pub file_le : s.filesz ≤ s.memsz
  pub file_bytes : length s.bytes ≡ s.filesz

check_segment-IsPlaced :
    (file_length flags file_offset vaddr filesz memsz align : ℕ) (bytes : List ℕ) {s : LoadSegment}
    → file_length ≡ length bytes
    → check_segment file_length flags file_offset vaddr filesz memsz align bytes ≡ ok s
    → IsPlaced s
unfolding check_segment
check_segment-IsPlaced file_length flags file_offset vaddr filesz memsz align bytes fits h =
    ground (arith, length-take filesz (drop file_offset bytes), length-drop file_offset bytes)

-- Two segments that share no page.
abbrev pub Apart : LoadSegment → LoadSegment → Type 0
Apart a b = (a.map_end ≤ b.map_start) ⊎ (b.map_end ≤ a.map_start)

abbrev pub All : (LoadSegment → Type 0) → List LoadSegment → Type 0
All P [] = Unit {0}
All P (s ∷ rest) = P s × All P rest

abbrev pub Any : (LoadSegment → Type 0) → List LoadSegment → Type 0
Any P [] = ⊥
Any P (s ∷ rest) = P s ⊎ Any P rest

-- Segments in their places, no two of which share a page.
abbrev pub IsLaid : List LoadSegment → Type 0
IsLaid [] = Unit {0}
IsLaid (s ∷ rest) = IsPlaced s × All (Apart s) rest × IsLaid rest

check_segment_overlap-All :
    (segments : List LoadSegment) (s : LoadSegment)
    → check_segment_overlap segments s ≡ ok tt
    → All (λ e. Apart e s) segments
unfolding check_segment_overlap
check_segment_overlap-All [] s h = tt
check_segment_overlap-All (e ∷ rest) s h =
    (ground arith, check_segment_overlap-All rest s (ground arith))

All-append_one :
    (P : LoadSegment → Type 0) (xs : List LoadSegment) (a : LoadSegment)
    → All P xs
    → P a
    → All P (xs ++ (a ∷ []))
All-append_one P [] a h p = (p, tt)
All-append_one P (x ∷ xs) a h p = (h.0, All-append_one P xs a h.1 p)

IsLaid-append_one :
    (segments : List LoadSegment) (s : LoadSegment)
    → IsLaid segments
    → All (λ e. Apart e s) segments
    → IsPlaced s
    → IsLaid (segments ++ (s ∷ []))
IsLaid-append_one [] s l a p = (p, tt, tt)
IsLaid-append_one (e ∷ rest) s l a p =
    (l.0, All-append_one (Apart e) rest s l.1 a.0, IsLaid-append_one rest s l.2 a.1 p)

parse_program_header-IsPlaced :
    (elf : List ℕ) (offset : ℕ) {s : LoadSegment}
    → parse_program_header elf offset ≡ ok s
    → IsPlaced s
unfolding parse_program_header
parse_program_header-IsPlaced elf offset h =
    let (t, _, h₁) = bind-ok (read_word 4 elf offset) _ h in
    let (_, _, h₂) = bind-ok (fail_if (not (t == 1)) malformed_program_header) _ h₁ in
    let (flags, _, h₃) = bind-ok (read_word 4 elf (offset + 4)) _ h₂ in
    let (_, _, h₄) = bind-ok (fail_if (has_unknown_flags flags) malformed_program_header) _ h₃ in
    let (file_offset, _, h₅) = bind-ok (read_word 8 elf (offset + 8)) _ h₄ in
    let (vaddr, _, h₆) = bind-ok (read_word 8 elf (offset + 16)) _ h₅ in
    let (filesz, _, h₇) = bind-ok (read_word 8 elf (offset + 32)) _ h₆ in
    let (memsz, _, h₈) = bind-ok (read_word 8 elf (offset + 40)) _ h₇ in
    let (align, _, h₉) = bind-ok (read_word 8 elf (offset + 48)) _ h₈ in
    check_segment-IsPlaced (length elf) flags file_offset vaddr filesz memsz align elf refl h₉

parse_segments-IsLaid :
    (elf : List ℕ) (table left index : ℕ) (segments : List LoadSegment) {result : List LoadSegment}
    → IsLaid segments
    → parse_segments elf table left index segments ≡ ok result
    → IsLaid result
unfolding parse_segments
parse_segments-IsLaid elf table zero index segments l h = ground (arith, l, h)
parse_segments-IsLaid elf table (suc left) index segments l h =
    let (s, placed, h₁) =
      bind-ok (parse_program_header elf (table + index * program_header_size)) _ h in
    let (_, apart, h₂) = bind-ok (check_segment_overlap segments s) _ h₁ in
    parse_segments-IsLaid elf table left (index + 1) (segments ++ (s ∷ []))
      (IsLaid-append_one segments s l (check_segment_overlap-All segments s apart)
        (parse_program_header-IsPlaced elf _ placed))
      h₂

any-Any :
    (test : LoadSegment → Bool) (P : LoadSegment → Type 0)
    → ((s : LoadSegment) → test s ≡ true → P s)
    → (segments : List LoadSegment) → any test segments ≡ true
    → Any P segments
any-Any test P sound [] h = cc
any-Any test P sound (s ∷ rest) h = elim (Bool-cases (test s)) [
  | inl e ↦ inl (sound s e)
  | inr e ↦ inr (any-Any test P sound rest (ground arith))
]

-- The entry point lies in the memory of the segment, which is executable.
abbrev pub HasEntry : ℕ → LoadSegment → Type 0
HasEntry entry s = (has_flag s.flags pf_x ≡ true) × (s.vaddr ≤ entry) × (entry < s.vaddr + s.memsz)

-- The last check of `parse_elf`.
accepted :
    (segments : List LoadSegment) (entry : ℕ) {p : ParsedElf}
    → IsLaid segments
    → (fail_if (not (any (contains_entry entry) segments)) entry_not_executable >>= λ _.
        ok (record { entry = entry; segments = segments }))
      ≡ ok p
    → IsLaid p.segments × Any (HasEntry p.entry) p.segments
accepted segments entry {p} laid h = elim (Bool-cases (any (contains_entry entry) segments)) [
  | inl e ↦
      let is : p ≡ record { entry = entry; segments = segments } = ground (arith, e, h) in
      rw is (
        laid,
        any-Any (contains_entry entry) (HasEntry entry) (λ s t. ground (arith, t)) segments e,
      )
  | inr e ↦ ground (arith, e, h)
]

-- An image that is accepted has segments in their places, no two of which share a page, and its
-- entry point lies in the memory of an executable segment.
pub parse_elf-IsLaid :
    (elf : List ℕ) {p : ParsedElf}
    → parse_elf elf ≡ ok p
    → IsLaid p.segments × Any (HasEntry p.entry) p.segments
unfolding parse_elf
parse_elf-IsLaid elf h =
    let (_, _, h₁) = bind-ok (check_header elf) _ h in
    let (entry, _, h₂) = bind-ok (read_word 8 elf 24) _ h₁ in
    let (table, _, h₃) = bind-ok (read_word 8 elf 32) _ h₂ in
    let (count, _, h₄) = bind-ok (read_word 2 elf 56) _ h₃ in
    let (_, _, h₅) = bind-ok (fail_if (count == 0) malformed_header) _ h₄ in
    let (_, _, h₆) =
      bind-ok (ok_or (checked_add table (program_header_size * count)) malformed_program_header) _
        h₅ in
    let (_, _, h₇) = bind-ok (fail_if (ltb (length elf) _) malformed_program_header) _ h₆ in
    let (segments, parsed, h₈) = bind-ok (parse_segments elf table count 0 []) _ h₇ in
    let laid = parse_segments-IsLaid elf table count 0 [] tt parsed in
    let (_, _, h₉) = bind-ok (fail_if (is_empty segments) malformed_program_header) _ h₈ in
    accepted segments entry laid h₉
