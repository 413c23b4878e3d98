-- ===== src/Process/Heap.antt =====
-- process.rs and user.rs: the heap range of a process.
use vlad_os.Base.{
  leb, if◌then◌else◌, Result, ok, err, ℕ, ◌%◌, ◌≤◌, ◌<◌, ◌≡◌, not, ◌||◌, some, arith,
}
use vlad_os.Words.{u64_mod, lower_half, page_size, align_up, is_page_aligned}

pub record UserHeap : Type 0 where
  pub start : ℕ
  pub brk : ℕ
  pub limit : ℕ
  pub mapped_end : ℕ

pub data UserHeapError : Type 0 where
  invalid_range : UserHeapError

unfoldable pub new : ℕ → ℕ → Result UserHeapError UserHeap
new start limit =
    if leb limit start || not (is_page_aligned start) || not (is_page_aligned limit)
    then err invalid_range
    else ok (record { start = start; brk = start; limit = limit; mapped_end = start })

abbrev pub set_break : UserHeap → ℕ → ℕ → UserHeap
set_break h brk mapped_end = record h { brk = brk; mapped_end = mapped_end }

-- The break lies in the range, and the mapped part ends at the page boundary at or above it.
pub record IsValid (h : UserHeap) : Type 0 where
  pub start_le_brk : h.start ≤ h.brk
  pub brk_le_limit : h.brk ≤ h.limit
  pub start_aligned : h.start % page_size ≡ 0
  pub limit_aligned : h.limit % page_size ≡ 0
  pub limit_fits : h.limit < u64_mod
  pub mapped : align_up h.brk ≡ some h.mapped_end

-- A valid heap in the lower half of the addresses.
abbrev pub Fits : UserHeap → Type 0
Fits h = IsValid h × (h.limit < lower_half)

-- A heap that `new` accepts, with a limit below 2 ^ 64, is valid, has the start and the limit
-- given, and its break at its start.
pub new-IsValid :
    (start limit : ℕ) {h : UserHeap}
    → limit < u64_mod
    → new start limit ≡ ok h
    → IsValid h × (h.start ≡ start) × (h.limit ≡ limit) × (h.brk ≡ start)
unfolding new
new-IsValid start limit fits e = ground arith

-- In a valid heap the mapped part stays within the limit.
pub mapped_end-le-limit : {h : UserHeap} → IsValid h → h.mapped_end ≤ h.limit
mapped_end-le-limit v = ground arith
