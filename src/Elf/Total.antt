-- ===== src/Elf/Total.antt =====
-- elf.rs: loading an image, whatever its bytes, does not panic.
use vlad_os.Base.{
  ltb, Bool-cases, Result, ok, err, Exec, done, panic, expect, and_then, Returns, and_then-Returns,
  Result-cases, ℕ, ◌+◌, ◌-◌, ◌*◌, ◌<◌, ap, inl, inr, List, [], ◌∷◌, arith,
}
use vlad_os.Words.{lower_half, page_size}
use vlad_os.Memory.{X86, Memory, AddressLaws}
use vlad_os.AddressSpace.{read_write, new_user, map_user_region}
use vlad_os.AddressSpace.Total.{map_user_region-Returns}
use vlad_os.AddressSpace.Copy.{copy_to_user, zero_user_range}
use vlad_os.AddressSpace.Copy.Total.{copy_to_user-Returns, zero_user_range-Returns}
use vlad_os.Process.Heap.{UserHeap}
use vlad_os.Process.{AddressSpace}
use vlad_os.UserMemory.{user_stack_top}
use vlad_os.Elf.{ElfLoadError, LoadSegment, ParsedElf, parse_elf, max_segment_end}
use vlad_os.Elf.Segments.{IsPlaced, Any, IsLaid, HasEntry, parse_elf-IsLaid}
use vlad_os.Elf.Load.{
  user_stack_pages, heap_for_loaded_image, user_flags, Load, then_load, map_user_stack,
  load_segment, load_segments, load_image, load_user_elf,
}

then_load-Returns :
    {E A B : Type 0} (r : Exec (Result E A × Memory)) (map_error : E → ElfLoadError)
    (f : A → Memory → Load B)
    → Returns r
    → ((a : A) (m : Memory) → Returns (f a m))
    → Returns (then_load r map_error f)
then_load-Returns (done (ok a, m)) map_error f r h = h a m
then_load-Returns (done (err e, m)) map_error f r h = tt
then_load-Returns panic map_error f r h = elim r [ ]

module _ (x : X86) (laws : AddressLaws x) where
  at_low :
      {B : Type 0} (a : ℕ) (f : ℕ → Exec B)
      → a < lower_half
      → Returns (f a)
      → Returns (and_then (expect (x.virt_new a)) f)
  at_low a f low h = and_then-Returns (expect (x.virt_new a)) f (ap expect (laws.low a low)) h

  load_segment-Returns :
      (space : AddressSpace) (s : LoadSegment) (m : Memory)
      → IsPlaced s
      → Returns (load_segment x space s m)
  unfolding load_segment
  load_segment-Returns space s m p =
      let top = p.end_le in
      let inside = p.covers_end in
      let start = p.covers_start in
      let file = p.file_le in
      let bytes = p.file_bytes in
      at_low s.map_start _ (omega (arith, top, inside, start)) (
        then_load-Returns
          (map_user_region x space s.map_start (s.map_end - s.map_start) (user_flags s) m) _ _
          (map_user_region-Returns x laws space s.map_start (s.map_end - s.map_start) (user_flags s)
            m (omega (arith, top, inside, start)))
          λ _ m₁. at_low s.vaddr _ (omega (arith, top, inside)) (
            then_load-Returns (copy_to_user x space s.vaddr s.bytes m₁) _ _
              (copy_to_user-Returns x laws space s.vaddr s.bytes m₁
                (omega (arith, top, inside, file, bytes)))
              λ _ m₂. elim (Bool-cases (ltb s.filesz s.memsz)) [
                | inr b ↦ rw b tt
                | inl b ↦ rw b (
                    at_low (s.vaddr + s.filesz) _ (omega (arith, top, inside, file)) (
                      then_load-Returns
                        (zero_user_range x space (s.vaddr + s.filesz) (s.memsz - s.filesz) m₂) _ _
                        (zero_user_range-Returns x laws space (s.vaddr + s.filesz)
                          (s.memsz - s.filesz) m₂ (omega (arith, top, inside, file)))
                        (λ _ m₃. tt)))
              ]))

  load_segments-Returns :
      (space : AddressSpace) (segments : List LoadSegment) (m : Memory)
      → IsLaid segments
      → Returns (load_segments x space segments m)
  unfolding load_segments
  load_segments-Returns space [] m laid = tt
  load_segments-Returns space (s ∷ rest) m (placed, apart, laid) =
      then_load-Returns (load_segment x space s m) _ _ (load_segment-Returns space s m placed)
        (λ _ m'. load_segments-Returns space rest m' laid)

  entry_low :
      (entry : ℕ) (segments : List LoadSegment)
      → IsLaid segments
      → Any (HasEntry entry) segments
      → entry < lower_half
  entry_low entry [] laid h = elim h [ ]
  entry_low entry (s ∷ rest) (placed, apart, laid) (inl (flag, from, to)) =
      omega (arith, to, placed.covers_end, placed.end_le)
  entry_low entry (s ∷ rest) (placed, apart, laid) (inr later) = entry_low entry rest laid later

  map_user_stack-Returns : (space : AddressSpace) (m : Memory) → Returns (map_user_stack x space m)
  unfolding map_user_stack
  map_user_stack-Returns space m =
      let bottom = user_stack_top - user_stack_pages * page_size in
      at_low bottom _ (omega arith) (
        map_user_region-Returns x laws space bottom (user_stack_pages * page_size) read_write m
          (omega arith))

  load_image-Returns :
      (p : ParsedElf) (heap : UserHeap) (arg0 : ℕ) (space : AddressSpace) (m : Memory)
      → IsLaid p.segments
      → Any (HasEntry p.entry) p.segments
      → Returns (load_image x p heap arg0 space m)
  unfolding load_image
  load_image-Returns p heap arg0 space m laid entry =
      then_load-Returns (load_segments x space p.segments m) _ _
        (load_segments-Returns space p.segments m laid)
        λ _ m₁.
          then_load-Returns (map_user_stack x space m₁) _ _ (map_user_stack-Returns space m₁)
            λ _ m₂.
              at_low p.entry _ (entry_low p.entry p.segments laid entry)
                (at_low user_stack_top _ (omega arith) tt)

  -- Loading an image does not panic.
  pub load_user_elf-Returns :
      (elf : List ℕ) (arg0 : ℕ) (m : Memory) → Returns (load_user_elf x elf arg0 m)
  unfolding load_user_elf
  load_user_elf-Returns elf arg0 m = elim (Result-cases (parse_elf elf)) [
    | inr (error, e) ↦ rw (e, load_user_elf) tt
    | inl (p, e) ↦
        let (laid, entry) = parse_elf-IsLaid elf e in
        rw (e, load_user_elf)
          (elim (Result-cases (heap_for_loaded_image (max_segment_end p.segments))) [
            | inr (error, h) ↦ rw h tt
            | inl (heap, h) ↦ rw h (elim (Result-cases (new_user x m).0) [
              | inr (error, r) ↦ rw r tt
              | inl (space, r) ↦
                  rw r (load_image-Returns p heap arg0 space (new_user x m).1 laid entry)
            ])
          ])
  ]
