-- ===== src/Elf/Start.antt =====
-- elf.rs: a loaded image can be started.
use vlad_os.Base.{
  Result, ok, err, Exec, done, panic, expect, and_then, Result-cases, ℕ, ◌≤◌, ◌≡◌, refl, inl, inr,
  Option, none, some, List, arith,
}
use vlad_os.Memory.{X86, Memory}
use vlad_os.AddressSpace.{new_user}
use vlad_os.Process.Heap.{UserHeap, Fits}
use vlad_os.Process.{AddressSpace}
use vlad_os.Scheduler.Spawn.{UserTaskInit}
use vlad_os.UserMemory.{user_stack_top}
use vlad_os.Elf.{ElfLoadError, ParsedElf, parse_elf, max_segment_end}
use vlad_os.Elf.Segments.{All}
use vlad_os.Elf.Load.{
  heap_for_loaded_image, Load, then_load, map_user_stack, load_segments, load_image, load_user_elf,
}
use vlad_os.Elf.Heap.{heap_above_image}

-- What a loaded task starts with: a heap that is valid, empty, in the lower half and above the
-- image, at the entry point of the image, with the argument given.
abbrev pub Startable : X86 → List ℕ → ℕ → Result ElfLoadError UserTaskInit × Memory → Type 0
Startable x elf arg0 (err _, m) = Unit
Startable x elf arg0 (ok init, m) =
    (p : ParsedElf) × (parse_elf elf ≡ ok p)
    × Fits init.heap
    × (init.heap.brk ≡ init.heap.start)
    × All (λ s. s.map_end ≤ init.heap.start) p.segments
    × (x.virt_new p.entry ≡ some init.entry_point)
    × (init.arg0 ≡ arg0)

abbrev pub Starts : X86 → List ℕ → ℕ → Load UserTaskInit → Type 0
Starts x elf arg0 panic = Unit
Starts x elf arg0 (done o) = Startable x elf arg0 o

then_load-Starts :
    {E A : Type 0} (x : X86) (elf : List ℕ) (arg0 : ℕ) (r : Exec (Result E A × Memory))
    (map_error : E → ElfLoadError) (f : A → Memory → Load UserTaskInit)
    → ((a : A) (m : Memory) → Starts x elf arg0 (f a m))
    → Starts x elf arg0 (then_load r map_error f)
then_load-Starts x elf arg0 panic map_error f h = tt
then_load-Starts x elf arg0 (done (err e, m)) map_error f h = tt
then_load-Starts x elf arg0 (done (ok a, m)) map_error f h = h a m

and_then-Starts :
    (x : X86) (elf : List ℕ) (arg0 : ℕ) (o : Option ℕ) (f : ℕ → Load UserTaskInit)
    → ((a : ℕ) → o ≡ some a → Starts x elf arg0 (f a))
    → Starts x elf arg0 (and_then (expect o) f)
and_then-Starts x elf arg0 none f h = tt
and_then-Starts x elf arg0 (some a) f h = h a refl

load_image-Starts :
    (x : X86) (elf : List ℕ) (p : ParsedElf) (heap : UserHeap) (arg0 : ℕ) (space : AddressSpace)
    (m : Memory)
    → parse_elf elf ≡ ok p
    → Fits heap
    → heap.brk ≡ heap.start
    → All (λ s. s.map_end ≤ heap.start) p.segments
    → Starts x elf arg0 (load_image x p heap arg0 space m)
unfolding load_image
load_image-Starts x elf p heap arg0 space m e fits empty above =
    then_load-Starts x elf arg0 (load_segments x space p.segments m) _ _ λ _ m₁.
      then_load-Starts x elf arg0 (map_user_stack x space m₁) _ _ λ _ m₂.
        and_then-Starts x elf arg0 (x.virt_new p.entry) _ λ entry at.
          and_then-Starts x elf arg0 (x.virt_new user_stack_top) _
            λ top found. (p, e, fits, empty, above, at, refl)

-- An image that loads, without a panic, gives a task that starts at the image's entry point, with a heap that is valid
-- and empty, ends in the lower half, and begins above every segment.
pub load_user_elf-Starts :
    (x : X86) (elf : List ℕ) (arg0 : ℕ) (m : Memory)
    → Starts x elf arg0 (load_user_elf x elf arg0 m)
unfolding load_user_elf
load_user_elf-Starts x elf arg0 m = elim (Result-cases (parse_elf elf)) [
  | inr (error, e) ↦ rw (e, load_user_elf) tt
  | inl (p, e) ↦
      rw (e, load_user_elf)
        (elim (Result-cases (heap_for_loaded_image (max_segment_end p.segments))) [
          | inr (error, h) ↦ rw h tt
          | inl (heap, h) ↦
              let (valid, empty, limit, above) = heap_above_image elf e h in
              rw h (elim (Result-cases (new_user x m).0) [
                | inr (error, r) ↦ rw r tt
                | inl (space, r) ↦ rw r (
                    load_image-Starts x elf p heap arg0 space (new_user x m).1 e
                      (valid, omega (arith, limit)) empty above)
              ])
        ])
]
