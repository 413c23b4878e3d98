-- ===== src/AddressSpace/Total.antt =====
-- address_space.rs: mapping and unmapping heap pages in the lower half returns.
use vlad_os.Base.{
  ltb, ◌==◌, Bool-cases, Option-cases, ok, err, done, panic, expect, Returns, and_then-Returns,
  Result-cases, ℕ, zero, suc, ◌+◌, ◌≤◌, ◌<◌, ap, inl, inr, arith,
}
use vlad_os.Words.{lower_half, page_size, checked_add, align_down, align_up}
use vlad_os.Memory.{Memory, X86, AddressLaws, allocate_frame}
use vlad_os.Process.{AddressSpace}
use vlad_os.AddressSpace.{
  AddressSpaceError, UserMapFlags, read_write, Step, step_then, stop, validate_page_range,
  page_table_flags, map_frame, unmap_page, map_zeroed_user_page, unmap_user_heap_pages,
  map_user_heap_pages, map_user_region, advance, unmap_loop, pages, map_heap_loop, map_region_loop,
}

step_then-Returns :
    {A B : Type 0} (s : Step A) (k : A → Memory → Step B) (h : AddressSpaceError → Memory → Step B)
    → Returns s
    → ((a : A) (m : Memory) → Returns (k a m))
    → ((e : AddressSpaceError) (m : Memory) → Returns (h e m))
    → Returns (step_then s k h)
step_then-Returns (done (ok a, m)) k h r good bad = good a m
step_then-Returns (done (err e, m)) k h r good bad = bad e m
step_then-Returns panic k h r good bad = elim r [ ]

module _ (x : X86) (laws : AddressLaws x) (space : AddressSpace) where
  advance-Returns :
      (address : ℕ) (m : Memory) (k : ℕ → Step (Unit {0}))
      → ((next : ℕ) → Returns (k next))
      → Returns (advance x address m k)
  advance-Returns address m k h = elim (Option-cases (checked_add address page_size)) [
    | inl n ↦ rw (advance, n) tt
    | inr (next, e) ↦ rw (advance, e) (h next)
  ]

  unmap_loop-Returns :
      (f address end : ℕ) (m : Memory)
      → end < lower_half
      → Returns (unmap_loop x f space address end m)
  unfolding unmap_loop unmap_page
  unmap_loop-Returns zero address end m h = tt
  unmap_loop-Returns (suc f) address end m h = elim (Bool-cases (ltb address end)) [
    | inr b ↦ rw (b, unmap_loop) tt
    | inl b ↦
        rw (b, unmap_loop)
          (and_then-Returns (expect (x.virt_new address)) _
            (ap expect (laws.low address (ground (arith, b, h))))
            (step_then-Returns (unmap_page x space address m) _ stop tt
              (λ u m'. advance-Returns address m' _ (λ next. unmap_loop-Returns f next end m' h))
              (λ e m'. tt)))
  ]

  pub unmap_user_heap_pages-Returns :
      (start end : ℕ) (m : Memory)
      → end < lower_half
      → Returns (unmap_user_heap_pages x space start end m)
  unfolding unmap_user_heap_pages
  unmap_user_heap_pages-Returns start end m h =
      elim (Result-cases (validate_page_range start end)) [
        | inl (u, e) ↦
            rw (e, unmap_user_heap_pages) (unmap_loop-Returns (pages x start end) start end m h)
        | inr (error, e) ↦ rw (e, unmap_user_heap_pages) tt
      ]

  map_zeroed_user_page-Returns :
      (address flags : ℕ) (m : Memory) → Returns (map_zeroed_user_page x space address flags m)
  unfolding map_zeroed_user_page map_frame
  map_zeroed_user_page-Returns address flags m = elim (Option-cases (allocate_frame x m).0) [
    | inl n ↦ rw (n, map_zeroed_user_page) tt
    | inr (frame, e) ↦
        rw (e, map_zeroed_user_page)
          (step_then-Returns (map_frame x space address frame flags _) _ stop tt (λ u m'. tt)
            (λ e m'. tt))
  ]

  map_heap_loop-Returns :
      (f start address end : ℕ) (m : Memory)
      → end < lower_half
      → Returns (map_heap_loop x f space start address end m)
  unfolding map_heap_loop
  map_heap_loop-Returns zero start address end m h = tt
  map_heap_loop-Returns (suc f) start address end m h = elim (Bool-cases (ltb address end)) [
    | inr b ↦ rw (b, map_heap_loop) tt
    | inl b ↦
        let low : address < lower_half = ground (arith, b, h) in
        let taken = ap expect (laws.low address low) in
        rw (b, map_heap_loop)
          (and_then-Returns (expect (x.virt_new address)) _ taken (
            step_then-Returns
              (map_zeroed_user_page x space address (page_table_flags x read_write) m) _ _
              (map_zeroed_user_page-Returns address _ m)
              (λ u m'.
                advance-Returns address m' _ (λ next. map_heap_loop-Returns f start next end m' h))
              (λ e m'. and_then-Returns (expect (x.virt_new address)) _ taken (
                step_then-Returns (unmap_user_heap_pages x space start address m') _ _
                  (unmap_user_heap_pages-Returns start address m' low) (λ u m''. tt)
                  (λ e' m''. tt)))))
  ]

  pub map_user_heap_pages-Returns :
      (start end : ℕ) (m : Memory)
      → end < lower_half
      → Returns (map_user_heap_pages x space start end m)
  unfolding map_user_heap_pages
  map_user_heap_pages-Returns start end m h = elim (Result-cases (validate_page_range start end)) [
    | inl (u, e) ↦
        rw (e, map_user_heap_pages) (map_heap_loop-Returns (pages x start end) start start end m h)
    | inr (error, e) ↦ rw (e, map_user_heap_pages) tt
  ]

  map_region_loop-Returns :
      (f address end flags : ℕ) (m : Memory)
      → end ≤ lower_half
      → Returns (map_region_loop x f space address end flags m)
  unfolding map_region_loop
  map_region_loop-Returns zero address end flags m h = tt
  map_region_loop-Returns (suc f) address end flags m h = elim (Bool-cases (ltb address end)) [
    | inr b ↦ rw (b, map_region_loop) tt
    | inl b ↦
        rw (b, map_region_loop)
          (and_then-Returns (expect (x.virt_new address)) _
            (ap expect (laws.low address (ground (arith, b, h))))
            (step_then-Returns (map_zeroed_user_page x space address flags m) _ stop
              (map_zeroed_user_page-Returns address flags m)
              (λ u m'.
                advance-Returns address m' _
                  (λ next. map_region_loop-Returns f next end flags m' h))
              (λ e m'. tt)))
  ]

  pub map_user_region-Returns :
      (start size : ℕ) (flags : UserMapFlags) (m : Memory)
      → start + size + page_size ≤ lower_half
      → Returns (map_user_region x space start size flags m)
  unfolding map_user_region
  map_user_region-Returns start size flags m h = elim (Bool-cases (size == 0)) [
    | inl b ↦ rw (b, map_user_region) tt
    | inr b ↦
        rw (b, map_user_region)
          (elim (Option-cases (checked_add start size)) [
            | inl n ↦ rw n tt
            | inr (e, sum) ↦ rw sum (elim (Option-cases (align_up e)) [
              | inl n ↦ rw n tt
              | inr (end, up) ↦
                  let low : end ≤ lower_half = ground (arith, sum, up, h) in
                  rw up (
                    map_region_loop-Returns (pages x (align_down start) end) (align_down start) end
                      (page_table_flags x flags) m low)
            ])
          ])
  ]
