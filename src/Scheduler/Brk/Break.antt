-- ===== src/Scheduler/Brk/Break.antt =====
-- scheduler.rs: what brk returns, and the heap that it leaves.
use vlad_os.Base.{
  ltb, ◌==◌, if◌then◌else◌, Bool-cases, Option-cases, Result, ok, err, Exec, done, expect, and_then,
  Returns, Yields, and_then-Yields, Yields-done, Result-cases, ℕ, ◌≤◌, ◌<◌, ◌≡◌, refl, sym, ap, inl,
  inr, false, some, arith,
}
use vlad_os.Words.{lower_half, align_up}
use vlad_os.Memory.{X86, Memory, AddressLaws}
use vlad_os.AddressSpace.{AddressSpaceError}
use vlad_os.AddressSpace.Total.{unmap_user_heap_pages-Returns, map_user_heap_pages-Returns}
use vlad_os.Process.Heap.{set_break, IsValid, Fits, mapped_end-le-limit}
use vlad_os.Process.{Process, ProcessTable, put}
use vlad_os.Process
use vlad_os.Process.Lookup.{get-put}
use vlad_os.Syscall.{SysError, SysResult}
use vlad_os.Scheduler.{Kernel, current_process_id}
use vlad_os.Scheduler.Files.{or_refuse}
use vlad_os.Scheduler.Brk.{move_break, sys_brk_current, commit, after_mapping}

-- The process whose heap has another break.
abbrev with_break : Process → ℕ → ℕ → Process
with_break p brk mapped_end = record p { heap = set_break p.heap brk mapped_end }

-- Tasks, current task and open files are as before.
abbrev pub SameElsewhere : Kernel → Kernel → Type 0
SameElsewhere k k' =
    (k'.tasks ≡ k.tasks) × (k'.current ≡ k.current) × (k'.open_files ≡ k.open_files)

-- A failed call leaves the process table as it was. A successful one returns the break that the
-- process then has: the old one when 0 is asked for, and else the one asked for. The heap is valid,
-- and no other process and nothing else of this one changes.
abbrev pub Moves : ℕ → Process → ℕ → Kernel → SysResult × Kernel → Type 0
Moves pid p requested k (err _, k') = (k'.processes ≡ k.processes) × SameElsewhere k k'
Moves pid p requested k (ok brk, k') =
    (brk ≡ (if requested == 0 then p.heap.brk else requested))
    × ((mapped_end : ℕ) × IsValid (set_break p.heap brk mapped_end)
        × ((j : ℕ)
            → Process.get k'.processes j ≡ (
                if pid == j
                then some (with_break p brk mapped_end)
                else Process.get k.processes j)))
    × SameElsewhere k k'

module _ (k₀ : Kernel) (pid : ℕ) (p : Process) (requested : ℕ) (fits : Fits p.heap)
    (e : Process.get k₀.processes pid ≡ some p) (nonzero : (requested == 0) ≡ false)
    (lo : p.heap.start ≤ requested) (hi : requested ≤ p.heap.limit) (mapped_end : ℕ)
    (up : align_up requested ≡ some mapped_end) where
  commit-Moves :
      (k : Kernel)
      → k.processes ≡ k₀.processes
      → SameElsewhere k₀ k
      → Yields (Moves pid p requested k₀) (commit pid p requested mapped_end k)
  commit-Moves k same rest = (
    rw nonzero refl,
    (
      mapped_end,
      record {
        start_le_brk = lo;
        brk_le_limit = hi;
        start_aligned = fits.0.start_aligned;
        limit_aligned = fits.0.limit_aligned;
        limit_fits = fits.0.limit_fits;
        mapped = up;
      },
      λ j. rw same (get-put k₀.processes pid j (with_break p requested mapped_end) e),
    ),
    rest,
  )

  after_mapping-Moves :
      (r : Exec (Result AddressSpaceError (Unit {0}) × Memory))
      (map_error : AddressSpaceError → SysError)
      → Returns r
      → Yields
          (Moves pid p requested k₀)
          (after_mapping r map_error k₀ (commit pid p requested mapped_end))
  after_mapping-Moves r map_error returns =
      and_then-Yields (Moves pid p requested k₀) r _ returns λ mapped h.
        elim (Result-cases mapped.0) [
          | inl (u, o) ↦
              rw o (commit-Moves (record k₀ { memory = mapped.1 }) refl (refl, refl, refl))
          | inr (error, o) ↦ rw o (refl, (refl, refl, refl))
        ]

  -- The new end of the mapped part lies in the lower half too, and so does the old one.
  mapped_low : (mapped_end < lower_half) × (p.heap.mapped_end < lower_half)
  mapped_low =
      let limit = fits.0.limit_aligned in
      let old = mapped_end-le-limit fits.0 in
      (ground (arith, hi, up, limit, fits.1), omega (arith, old, fits.1))

  move_break-Moves :
      (x : X86)
      → AddressLaws x
      → Yields (Moves pid p requested k₀) (move_break x pid p requested mapped_end k₀)
  unfolding move_break
  move_break-Moves x laws = elim (Bool-cases (ltb p.heap.brk requested)) [
    | inl b ↦
        rw (b, move_break)
          (elim (Bool-cases (ltb p.heap.mapped_end mapped_end)) [
            | inl c ↦ rw c (
                after_mapping-Moves _ _ (
                  map_user_heap_pages-Returns x laws p.address_space p.heap.mapped_end mapped_end
                    k₀.memory mapped_low.0))
            | inr c ↦ rw c (commit-Moves k₀ refl (refl, refl, refl))
          ])
    | inr b ↦
        rw (b, move_break)
          (elim (Bool-cases (ltb mapped_end p.heap.mapped_end)) [
            | inl c ↦ rw c (
                after_mapping-Moves _ _ (
                  unmap_user_heap_pages-Returns x laws p.address_space mapped_end p.heap.mapped_end
                    k₀.memory mapped_low.1))
            | inr c ↦ rw c (commit-Moves k₀ refl (refl, refl, refl))
          ])
  ]

module _ (x : X86) (laws : AddressLaws x) (k : Kernel) (pid : ℕ) (p : Process) (fits : Fits p.heap)
    (e : Process.get k.processes pid ≡ some p) (requested : ℕ) where
  -- A break that the process has stays.
  unmoved :
      (brk : ℕ)
      → brk ≡ p.heap.brk
      → (if requested == 0 then p.heap.brk else requested) ≡ brk
      → Moves pid p requested k (ok brk, k)
  unmoved brk same asked = (
    sym asked,
    (
      p.heap.mapped_end,
      rw same fits.0,
      λ j. elim (Bool-cases (pid == j)) [
        | inl y ↦ let at : pid ≡ j = ground arith in rw (y, same, ← at) e
        | inr n ↦ rw n refl
      ],
    ),
    (refl, refl, refl),
  )

  move_to-Moves :
      (requested == 0) ≡ false
      → p.heap.start ≤ requested
      → requested ≤ p.heap.limit
      → Yields (Moves pid p requested k) (
          and_then (expect (x.virt_new requested)) λ address.
            if address == p.heap.brk
            then done (ok p.heap.brk, k)
            else (or_refuse (align_up requested) SysError.invalid k λ end.
                and_then
                  (expect (x.virt_new end))
                  λ new_mapped_end. move_break x pid p address new_mapped_end k))
  move_to-Moves nz lo hi =
      Yields-done (Moves pid p requested k) (expect (x.virt_new requested)) _
        (ap expect (laws.low requested (omega (arith, hi, fits.1))))
        (elim (Bool-cases (requested == p.heap.brk)) [
          | inl b ↦ rw b (unmoved p.heap.brk refl (rw nz (ground arith)))
          | inr b ↦ rw b (elim (Option-cases (align_up requested)) [
            | inl n ↦ rw n (refl, (refl, refl, refl))
            | inr (end, up) ↦ rw up (
                Yields-done (Moves pid p requested k) (expect (x.virt_new end)) _
                  (ap expect (laws.low end (mapped_low k pid p requested fits e nz lo hi end up).0))
                  (move_break-Moves k pid p requested fits e nz lo hi end up x laws))
          ])
        ])

  -- With `AddressLaws`: for a process whose heap is valid and ends in the lower half, brk does not
  -- panic. It either fails and leaves the process table as it was, or returns the break that the
  -- process has then, which is the one asked for (the old one, when 0 is asked for); the heap stays
  -- valid, and nothing else of the process and no other process changes. Tasks, current task and
  -- open files stay in any case.
  pub sys_brk-Moves :
      current_process_id k ≡ done (some pid)
      → Yields (Moves pid p requested k) (sys_brk_current x requested k)
  unfolding sys_brk_current
  sys_brk-Moves c =
      rw (c, sys_brk_current, or_refuse, e, or_refuse)
        (elim (Bool-cases (requested == 0)) [
          | inl b ↦ rw b (unmoved p.heap.brk refl (rw b refl))
          | inr b ↦ rw b (elim (Bool-cases (ltb requested p.heap.start)) [
            | inl below ↦ rw below (refl, (refl, refl, refl))
            | inr above ↦ rw above (elim (Bool-cases (ltb p.heap.limit requested)) [
              | inl over ↦ rw over (refl, (refl, refl, refl))
              | inr within ↦ rw within (move_to-Moves b (ground arith) (ground arith))
            ])
          ])
        ])
