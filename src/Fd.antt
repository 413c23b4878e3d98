-- ===== src/Fd.antt =====
-- fd.rs: the file-descriptor table of a process.
pub mod Refs
pub mod Table
use vlad_os.Base.{
  get_elem?, set, replicate, position, count_if, is_none, is_some, flatten, Result, ok, err, ℕ,
  Bool, Option, none, some, List, [], ◌∷◌, map,
}
use vlad_os.File.{
  read_only, write_only, null_input, console_stdout, console_stderr, FileError, bad_fd,
  too_many_process_files, OpenFileTable, alloc, dec_ref,
}

abbrev pub stdin_fileno : ℕ
stdin_fileno = 0

abbrev pub stdout_fileno : ℕ
stdout_fileno = 1

abbrev pub stderr_fileno : ℕ
stderr_fileno = 2

abbrev pub max_fds_per_process : ℕ
max_fds_per_process = 16

pub record FdEntry : Type 0 where
  pub open_file : ℕ

abbrev pub entry : ℕ → FdEntry
entry id = record { open_file = id }

-- An array of `MAX_FDS_PER_PROCESS` slots.
pub record FdTable : Type 0 where
  pub entries : List (Option FdEntry)

abbrev pub empty : FdTable
empty = record { entries = replicate max_fds_per_process none }

-- The entries are visited in order; each that is filled is taken and its reference given back.
pub close_entries : List (Option FdEntry) → OpenFileTable → OpenFileTable
close_entries [] files = files
close_entries (none ∷ es) files = close_entries es files
close_entries (some e ∷ es) files = close_entries es (dec_ref files e.open_file)

unfoldable pub close_all : FdTable → OpenFileTable → FdTable × OpenFileTable
unfolding close_entries
close_all t files = (record { entries = map (λ _. none) t.entries }, close_entries t.entries files)

abbrev put : FdTable → ℕ → ℕ → FdTable
put t fd id = record { entries = set t.entries fd (some (entry id)) }

-- The rest of `new_with_stdio`, from the opening of standard error on.
open_stderr : FdTable → OpenFileTable → Result FileError FdTable × OpenFileTable
open_stderr table files =
    let (r, files') = alloc console_stderr write_only files in
    elim r [
      | ok stderr ↦ (ok (put table stderr_fileno stderr), files')
      | err error ↦ (err error, (close_all table files').1)
    ]

-- The rest of `new_with_stdio`, from the opening of standard output on.
open_stdout : FdTable → OpenFileTable → Result FileError FdTable × OpenFileTable
open_stdout table files =
    let (r, files') = alloc console_stdout write_only files in
    elim r [
      | ok stdout ↦ open_stderr (put table stdout_fileno stdout) files'
      | err error ↦ (err error, (close_all table files').1)
    ]

unfoldable pub new_with_stdio : OpenFileTable → Result FileError FdTable × OpenFileTable
unfolding open_stdout open_stderr
new_with_stdio files =
    let (r, files') = alloc null_input read_only files in
    elim r [
      | ok stdin ↦ open_stdout (put empty stdin_fileno stdin) files'
      | err error ↦ (err error, files')
    ]

unfoldable pub allocate_lowest : FdTable → ℕ → Result FileError ℕ × FdTable
allocate_lowest t id = elim (position is_none t.entries) [
  | none ↦ (err too_many_process_files, t)
  | some index ↦ (ok index, put t index id)
]

unfoldable pub get : FdTable → ℕ → Option FdEntry
get t fd = flatten (get_elem? t.entries fd)

unfoldable pub is_open : FdTable → ℕ → Bool
unfolding get
is_open t fd = is_some (get t fd)

unfoldable pub open_count : FdTable → ℕ
open_count t = count_if is_some t.entries

unfoldable pub close :
    FdTable → ℕ → OpenFileTable → Result FileError (Unit {0}) × FdTable × OpenFileTable
close t fd files = elim (get_elem? t.entries fd) [
  | none ↦ (err bad_fd, t, files)
  | some none ↦ (err bad_fd, t, files)
  | some (some e) ↦ (ok tt, record { entries = set t.entries fd none }, dec_ref files e.open_file)
]
