-- ===== src/Words.antt =====
-- 64-bit words as native numbers: checked addition, page alignment, little-endian bytes. These
-- operations recur in address_space.rs, elf.rs, process.rs, scheduler.rs, user.rs, user_memory.rs.
use vlad_os.Base.{
  ltb, ◌==◌, if◌then◌else◌, length, ℕ, zero, suc, ◌+◌, ◌-◌, ◌*◌, ◌/◌, ◌%◌, ◌^◌, ◌≤◌, ◌<◌, ◌≡◌, refl,
  ap, Bool, Option, none, some, List, [], ◌∷◌, arith,
}

abbrev pub u64_mod : ℕ
u64_mod = 2 ^ 64

-- Below it an address is canonical, in the lower half.
abbrev pub lower_half : ℕ
lower_half = 2 ^ 47

abbrev pub page_size : ℕ
page_size = 4096

-- `a.checked_add(b)`.
abbrev pub checked_add : ℕ → ℕ → Option ℕ
checked_add a b = if ltb (a + b) u64_mod then some (a + b) else none

-- `value & !(align - 1)`: for a power of two, the mask clears the remainder.
abbrev pub align_down : ℕ → ℕ
align_down value = value - value % page_size

-- `value.checked_add(align - 1)? & !(align - 1)`.
abbrev pub align_up : ℕ → Option ℕ
align_up value = elim (checked_add value (page_size - 1)) [
  | none ↦ none
  | some v ↦ some (align_down v)
]

-- `address & 0xfff == 0`.
abbrev pub is_page_aligned : ℕ → Bool
is_page_aligned address = address % page_size == 0

-- `word.to_le_bytes()` at `n` bytes.
unfoldable pub to_le_bytes : ℕ → ℕ → List ℕ
to_le_bytes zero word = []
to_le_bytes (suc n) word = (word % 256) ∷ to_le_bytes n (word / 256)

-- `from_le_bytes`.
unfoldable pub from_le_bytes : List ℕ → ℕ
from_le_bytes [] = 0
from_le_bytes (b ∷ bs) = b + 256 * from_le_bytes bs

pub length-to_le_bytes : (n word : ℕ) → length (to_le_bytes n word) ≡ n
unfolding to_le_bytes
length-to_le_bytes zero word = refl
length-to_le_bytes (suc n) word = ap suc (length-to_le_bytes n (word / 256))

-- Rounding up gives the least page boundary that is not below the value.
pub align_up_lem :
    (v a : ℕ)
    → align_up v ≡ some a
    → (v ≤ a) × (a < v + page_size) × (a % page_size ≡ 0) × (a < u64_mod)
align_up_lem v a h = ground arith
