-- ===== src/Process/Status.antt =====
-- process.rs: how a process ended, and the status that waitpid writes for its parent.
use vlad_os.Base.{
  ◌==◌, if◌then◌else◌, length, take, drop, Exec, done, expect, and_then, ℕ, ◌^◌, ◌<◌, ◌≡◌, refl,
  Bool, true, false, Option, none, some, List, ◌++◌, arith,
}
use vlad_os.Words.{to_le_bytes, from_le_bytes}

-- The code of `exited` is an i32, kept as its bit pattern below 2 ^ 32.
pub data ProcessExit : Type 0 where
  exited : ℕ → ProcessExit
  faulted : ProcessExit

pub data ProcessState : Type 0 where
  running : ProcessState
  zombie : ProcessExit → ProcessState

pub record UserWaitStatus : Type 0 where
  pub kind : ℕ
  pub code : ℕ

abbrev pub wait_exited : ℕ
wait_exited = 0

abbrev pub wait_faulted : ℕ
wait_faulted = 1

abbrev pub wait_status : ProcessExit → UserWaitStatus
wait_status (exited code) = record { kind = wait_exited; code = code }
wait_status faulted = record { kind = wait_faulted; code = 0 }

-- Two 4-byte fields: `kind`, then `code`.
abbrev pub wait_status_size : ℕ
wait_status_size = 8

unfoldable pub wait_status_bytes : ProcessExit → List ℕ
wait_status_bytes exit =
    to_le_bytes 4 (wait_status exit).kind ++ to_le_bytes 4 (wait_status exit).code

-- `matches!(state, ProcessState::Zombie(_))`.
abbrev pub is_zombie : ProcessState → Bool
is_zombie running = false
is_zombie (zombie exit) = true

-- A null status pointer means that no status is wanted; `virt_new` is `VirtAddr::new`.
abbrev pub wait_status_address : (ℕ → Option ℕ) → ℕ → Exec (Option ℕ)
wait_status_address virt_new address =
    if address == 0 then done none else and_then (expect (virt_new address)) (λ a. done (some a))

-- How a parent reads the bytes of a status.
abbrev pub read_status : List ℕ → UserWaitStatus
read_status bs = record { kind = from_le_bytes (take 4 bs); code = from_le_bytes (drop 4 bs) }

-- Where an exit code fits in 32 bits, the bytes written for the parent are as many as a status
-- has, and read back as the status of the exit.
pub read_status-wait_status_bytes :
    (exit : ProcessExit)
    → (wait_status exit).code < 2 ^ 32
    → (length (wait_status_bytes exit) ≡ wait_status_size)
      × (read_status (wait_status_bytes exit) ≡ wait_status exit)
unfolding wait_status_bytes to_le_bytes from_le_bytes
read_status-wait_status_bytes (exited code) h = (refl, ground arith)
read_status-wait_status_bytes faulted h = (refl, refl)
