-- ===== src/Memory/Frames.antt =====
-- memory.rs: the frames that the allocator hands out, one after another.
use vlad_os.Base.{
  ltb, ltb→lt, Bool-cases, get_elem?, take, drop, ℕ, zero, suc, ◌+◌, ◌-◌, ◌%◌, ◌≤◌, ◌≡◌, refl, sym,
  ap, ◌∙◌, subst, inl, inr, true, Option, none, some, List, [], ◌∷◌, ◌++◌, map, arith,
}
use vlad_os.Words.{page_size}
use vlad_os.Memory.{MemoryRegion, Memory, X86, usable_frames, allocate_frame, step_from, addresses}

abbrev pub with_found : Option ℕ → List ℕ → List ℕ
with_found none rest = rest
with_found (some frame) rest = frame ∷ rest

-- The frames of so many allocations, without the failed ones.
abbrev pub allocated : X86 → ℕ → Memory → List ℕ
allocated x zero m = []
allocated x (suc n) m = with_found (allocate_frame x m).0 (allocated x n (allocate_frame x m).1)

with_found-drop :
    (xs : List ℕ) (k n : ℕ)
    → with_found (get_elem? xs k) (take n (drop (suc k) xs)) ≡ take (suc n) (drop k xs)
with_found-drop [] zero zero = refl
with_found-drop [] zero (suc n) = refl
with_found-drop [] (suc k) zero = refl
with_found-drop [] (suc k) (suc n) = refl
with_found-drop (x ∷ xs) zero n = refl
with_found-drop (x ∷ xs) (suc k) n = with_found-drop xs k n

-- The frames of `n` allocations are the next `n` usable frames in their order.
allocated-take :
    (x : X86) (n : ℕ) (m : Memory)
    → allocated x n m ≡ take n (drop m.frame_allocator.next (usable_frames x m.frame_allocator))
unfolding allocate_frame usable_frames
allocated-take x zero m = refl
allocated-take x (suc n) m =
    let frames = usable_frames x m.frame_allocator in
    let next = m.frame_allocator.next in
    let moved : suc next ≡ next + 1 = omega arith in
    ap (with_found (allocate_frame x m).0) (allocated-take x n (allocate_frame x m).1)
    ∙ subst
        (λ (i : ℕ).
          with_found (get_elem? frames next) (take n (drop i frames))
          ≡ take (suc n) (drop next frames))
        moved (with_found-drop frames next n)

-- A memory map in order from an address on: its regions are made of whole pages, and none reaches
-- into the next.
pub data Regions : ℕ → List MemoryRegion → Type 0 where
  no_regions : (from : ℕ) → Regions from []
  region :
      (from : ℕ) (r : MemoryRegion) (rs : List MemoryRegion)
      → from ≤ r.start_addr
      → r.start_addr ≤ r.end_addr
      → r.start_addr % page_size ≡ 0
      → r.end_addr % page_size ≡ 0
      → Regions r.end_addr rs
      → Regions from (r ∷ rs)

-- The whole frame lies in a usable region of the memory map.
pub data InUsable (frame : ℕ) : List MemoryRegion → Type 0 where
  here :
      (r : MemoryRegion) (rs : List MemoryRegion)
      → r.is_usable ≡ true
      → r.start_addr ≤ frame
      → frame + page_size ≤ r.end_addr
      → InUsable frame (r ∷ rs)
  there : (r : MemoryRegion) (rs : List MemoryRegion) → InUsable frame rs → InUsable frame (r ∷ rs)

-- Frames that follow one another from an address on, each one page, aligned and in a usable region,
-- so that no two of them overlap.
pub data Disjoint (regions : List MemoryRegion) : ℕ → List ℕ → Type 0 where
  no_frames : (from : ℕ) → Disjoint regions from []
  frame_at :
      (from f : ℕ) (fs : List ℕ)
      → from ≤ f
      → f % page_size ≡ 0
      → InUsable f regions
      → Disjoint regions (f + page_size) fs
      → Disjoint regions from (f ∷ fs)

-- `PhysFrame::containing_address` rounds down to the frame.
abbrev pub FrameLaw : X86 → Type 0
FrameLaw x = (a : ℕ) → x.frame_containing a ≡ a - a % page_size

module _ {regions : List MemoryRegion} where
  Disjoint-le :
      {from to : ℕ} {fs : List ℕ} → from ≤ to → Disjoint regions to fs → Disjoint regions from fs
  Disjoint-le h (no_frames to) = no_frames _
  Disjoint-le h (frame_at to f fs le aligned usable rest) =
      frame_at _ f fs (omega arith) aligned usable rest

  Disjoint-take :
      (n : ℕ) {from : ℕ} {fs : List ℕ}
      → Disjoint regions from fs
      → Disjoint regions from (take n fs)
  Disjoint-take zero d = no_frames _
  Disjoint-take (suc n) (no_frames from) = no_frames _
  Disjoint-take (suc n) (frame_at from f fs le aligned usable rest) =
      frame_at from f (take n fs) le aligned usable (Disjoint-take n rest)

  Disjoint-drop :
      (n : ℕ) {from : ℕ} {fs : List ℕ}
      → Disjoint regions from fs
      → Disjoint regions from (drop n fs)
  Disjoint-drop zero d = d
  Disjoint-drop (suc n) (no_frames from) = no_frames _
  Disjoint-drop (suc n) (frame_at from f fs le aligned usable rest) =
      Disjoint-le (omega arith) (Disjoint-drop n rest)

  -- Rounding down leaves aligned frames.
  map-frame_containing :
      (x : X86)
      → FrameLaw x
      → {from : ℕ} {fs : List ℕ} → Disjoint regions from fs
      → map x.frame_containing fs ≡ fs
  map-frame_containing x law (no_frames from) = refl
  map-frame_containing x law (frame_at from f fs le aligned usable rest) =
      let same : x.frame_containing f ≡ f = omega (arith, law f) in
      ap (λ g. g ∷ map x.frame_containing fs) same ∙ ap (◌∷◌ f) (map-frame_containing x law rest)

  -- The addresses of a usable region, in front of later ones.
  step_from-Disjoint :
      (r : MemoryRegion)
      → ((f : ℕ) → r.start_addr ≤ f → f + page_size ≤ r.end_addr → InUsable f regions)
      → r.end_addr % page_size ≡ 0
      → (fuel at : ℕ) (later : List ℕ) → r.start_addr ≤ at
      → at ≤ r.end_addr
      → at % page_size ≡ 0
      → Disjoint regions r.end_addr later
      → Disjoint regions at (step_from fuel at r.end_addr ++ later)
  unfolding step_from
  step_from-Disjoint r usable whole zero at later above below aligned d = Disjoint-le below d
  step_from-Disjoint r usable whole (suc fuel) at later above below aligned d =
      elim (Bool-cases (ltb at r.end_addr)) [
        | inr h ↦ rw h (Disjoint-le below d)
        | inl h ↦
            let room : at + page_size ≤ r.end_addr =
              omega (arith, ltb→lt at r.end_addr h, whole, aligned) in
            let rest =
              step_from-Disjoint r usable whole fuel (at + page_size) later (omega arith) room
                (omega arith) d in
            rw h (frame_at at at _ (omega arith) aligned (usable at above room) rest)
      ]

  -- The addresses of the usable ones among these regions of the map.
  addresses-Disjoint :
      (from : ℕ) (rs : List MemoryRegion)
      → Regions from rs
      → ((f : ℕ) → InUsable f rs → InUsable f regions)
      → Disjoint regions from (addresses rs)
  unfolding addresses
  addresses-Disjoint from [] ordered part = no_frames from
  addresses-Disjoint from (r ∷ rs) (region _ _ _ le order start end later) part =
      let rest = addresses-Disjoint r.end_addr rs later (λ f u. part f (there r rs u)) in
      elim (Bool-cases r.is_usable) [
        | inr h ↦ rw h (Disjoint-le (omega arith) rest)
        | inl h ↦ rw h (
            Disjoint-le le (
              step_from-Disjoint r (λ f above room. part f (here r rs h above room)) end _
                r.start_addr (addresses rs) (omega arith) order start rest))
      ]

-- With `FrameLaw`: where the memory map lists regions of whole pages in order, each frame that the
-- allocator hands out lies as a whole in a usable region, and the frames of any number of allocations
-- follow one another without overlap, so that no part of memory is handed out twice.
pub allocated-Disjoint :
    (x : X86)
    → FrameLaw x
    → (m : Memory) → Regions 0 m.frame_allocator.memory_map
    → (n : ℕ) → Disjoint m.frame_allocator.memory_map 0 (allocated x n m)
unfolding usable_frames
allocated-Disjoint x law m regions n =
    let all = addresses-Disjoint 0 m.frame_allocator.memory_map regions (λ f u. u) in
    let frames : usable_frames x m.frame_allocator ≡ addresses m.frame_allocator.memory_map =
      map-frame_containing x law all in
    subst (Disjoint m.frame_allocator.memory_map 0)
      (sym (allocated-take x n m ∙ ap (λ fs. take n (drop m.frame_allocator.next fs)) frames))
      (Disjoint-take n (Disjoint-drop m.frame_allocator.next all))
