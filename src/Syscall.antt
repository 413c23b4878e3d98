-- ===== src/Syscall.antt =====
-- syscall.rs: the numbers of the system calls and of their errors.
pub mod Numbers
use vlad_os.Base.{◌==◌, if◌then◌else◌, Result, ok, err, ℕ, ◌-◌, Option, none, some}
use vlad_os.Words.{u64_mod}

pub data SyscallNumber : Type 0 where
  yield exit write get_pid wait_pid open_file read close brk : SyscallNumber

pub data SysError : Type 0 where
  no_entry bad_fd no_memory fault invalid system_file_limit process_file_limit : SysError
  name_too_long child no_sys : SysError

abbrev pub SysResult : Type 0
SysResult = Result SysError ℕ

abbrev pub syscall_vector : ℕ
syscall_vector = 0x80

abbrev pub wnohang : ℕ
wnohang = 1

abbrev pub o_rdonly : ℕ
o_rdonly = 0

unfoldable pub errno : SysError → ℕ
errno no_entry = 2
errno bad_fd = 9
errno no_memory = 12
errno fault = 14
errno invalid = 22
errno system_file_limit = 23
errno process_file_limit = 24
errno name_too_long = 36
errno child = 10
errno no_sys = 38

-- `(-(errno as i64)) as u64`.
unfoldable pub raw_return : SysError → ℕ
unfolding errno
raw_return e = u64_mod - errno e

-- The discriminant of a number.
unfoldable pub to_raw : SyscallNumber → ℕ
to_raw yield = 0
to_raw exit = 1
to_raw write = 2
to_raw get_pid = 3
to_raw wait_pid = 4
to_raw open_file = 5
to_raw read = 6
to_raw close = 7
to_raw brk = 8

unfoldable pub from_raw : ℕ → Option SyscallNumber
unfolding to_raw
from_raw raw =
    if raw == to_raw yield
    then some yield
    else if raw == to_raw exit
    then some exit
    else if raw == to_raw write
    then some write
    else if raw == to_raw get_pid
    then some get_pid
    else if raw == to_raw wait_pid
    then some wait_pid
    else if raw == to_raw open_file
    then some open_file
    else if raw == to_raw read
    then some read
    else if raw == to_raw close
    then some close
    else if raw == to_raw brk
    then some brk
    else none

-- `result.unwrap_or_else(SysError::raw_return)`: what a call leaves in `rax`.
abbrev pub to_rax : SysResult → ℕ
to_rax (ok value) = value
to_rax (err e) = raw_return e
