-- ===== src/Syscall/Numbers.antt =====
-- What the numbers of syscall.rs tell apart.
use vlad_os.Base.{ℕ, ◌≡◌, some, arith}
use vlad_os.Syscall.{SyscallNumber, to_raw, from_raw}

-- A raw number is decoded to the call with that number, and to none if there is no such call.
pub from_raw_lem :
    (raw : ℕ) (n : SyscallNumber)
    → (from_raw raw ≡ some n → to_raw n ≡ raw) × (to_raw n ≡ raw → from_raw raw ≡ some n)
unfolding from_raw to_raw
from_raw_lem raw n = ground arith
