-- ===== src/Scheduler/Files.antt =====
-- scheduler.rs: open, read, write and close of the current process.
pub mod Balance
pub mod Transfer
pub mod Total
pub mod Exact
use vlad_os.Base.{
  ltb, leb, ◌==◌, if◌then◌else◌, length, take, drop, ok, err, done, expect, and_then, ℕ, zero, suc,
  ◌+◌, ◌-◌, min, true, false, not, Option, none, some, List, ◌++◌,
}
use vlad_os.Words.{checked_add}
use vlad_os.File.{
  max_path_len, read_only, write_only, null_input, console_stdout, console_stderr, embedded_file,
  FileError, bad_fd, no_entry, too_many_system_files, too_many_process_files, name_too_long,
  invalid, fault, OpenFile, alloc, set_offset, dec_ref, find_embedded_file, embedded_file_at,
}
use vlad_os.File
use vlad_os.Fd.{allocate_lowest, close, FdTable}
use vlad_os.Fd
use vlad_os.Memory.{X86}
use vlad_os.UserMemory.{UserMemoryError, copy_from_user, copy_to_user, validate_user_range}
use vlad_os.UserMemory
use vlad_os.Process.{Process, address_space_of, fd_table_of, put}
use vlad_os.Process
use vlad_os.Syscall.{SysError, SysResult, o_rdonly}
use vlad_os.Scheduler.{Kernel, K, current_process_id}

abbrev pub write_chunk_size : ℕ
write_chunk_size = 256

unfoldable pub map_file_error : FileError → SysError
map_file_error bad_fd = SysError.bad_fd
map_file_error no_entry = SysError.no_entry
map_file_error too_many_system_files = SysError.system_file_limit
map_file_error too_many_process_files = SysError.process_file_limit
map_file_error name_too_long = SysError.name_too_long
map_file_error invalid = SysError.invalid
map_file_error fault = SysError.fault

abbrev pub refuse : SysError → Kernel → K SysResult
refuse e k = done (err e, k)

-- `option.ok_or(error)?`.
abbrev pub or_refuse {ℓ} :
    {A : Type ℓ} → Option A → SysError → Kernel → (A → K SysResult) → K SysResult
or_refuse none e k f = refuse e k
or_refuse (some a) e k f = f a

-- `current_process_id().ok_or(error)?`.
abbrev pub with_pid : SysError → Kernel → (ℕ → K SysResult) → K SysResult
with_pid e k f = and_then (current_process_id k) λ o. or_refuse o e k f

-- Writes the descriptor table of a process back.
unfoldable pub set_fd_table : ℕ → FdTable → Kernel → Kernel
set_fd_table pid table k = elim (Process.get k.processes pid) [
  | none ↦ k
  | some p ↦ record k { processes = put k.processes pid (record p { fd_table = table }) }
]

-- Puts a new open file into the table of the process, or gives it back.
unfoldable pub install : ℕ → ℕ → Kernel → K SysResult
unfolding set_fd_table
install pid open_file k = or_refuse (fd_table_of k.processes pid) SysError.bad_fd k λ table.
    let (r, table') = allocate_lowest table open_file in
    elim r [
      | ok fd ↦ done (ok fd, set_fd_table pid table' k)
      | err e ↦
          done (err (map_file_error e), record k { open_files = dec_ref k.open_files open_file })
    ]

-- Opens an embedded file for the process.
unfoldable pub open_path : ℕ → List ℕ → Kernel → K SysResult
unfolding install
open_path pid path k = or_refuse (find_embedded_file path) SysError.no_entry k λ file_id.
    let (r, files) = alloc (embedded_file file_id) read_only k.open_files in
    let k' = record k { open_files = files } in
    elim r [ err e ↦ refuse (map_file_error e) k' | ok id ↦ install pid id k' ]

module _ (x : X86) where
  unfoldable pub sys_open_current : ℕ → ℕ → ℕ → Kernel → K SysResult
  unfolding open_path
  sys_open_current path_ptr path_len flags k =
      if not (flags == o_rdonly)
      then refuse SysError.invalid k
      else if path_len == 0
      then refuse SysError.no_entry k
      else if ltb max_path_len path_len
      then refuse SysError.name_too_long k
      else (with_pid SysError.bad_fd k λ pid.
          or_refuse (address_space_of k.processes pid) SysError.bad_fd k λ space.
            and_then (copy_from_user x k.memory space path_ptr path_len) λ copied. elim copied [
              | err _ ↦ refuse SysError.fault k
              | ok path ↦ open_path pid path k
            ])

  -- The open file behind a descriptor of the current process.
  abbrev with_file : ℕ → ℕ → Kernel → (ℕ → OpenFile → K SysResult) → K SysResult
  with_file pid fd k f = or_refuse (fd_table_of k.processes pid) SysError.bad_fd k λ table.
      or_refuse (Fd.get table fd) SysError.bad_fd k λ entry.
        or_refuse (File.get k.open_files entry.open_file) SysError.bad_fd k
          λ file. f entry.open_file file

  -- Copies what is left of a file, up to `len` bytes, and moves the offset on.
  unfoldable pub read_embedded : ℕ → ℕ → OpenFile → ℕ → ℕ → ℕ → Kernel → K SysResult
  read_embedded pid open_file file file_id user_buf len k =
      or_refuse (embedded_file_at file_id) SysError.bad_fd k λ embedded.
        let size = length embedded.bytes in
        if leb size file.offset
        then done (ok 0, k)
        else (let count = min len (size - file.offset) in
            or_refuse (address_space_of k.processes pid) SysError.bad_fd k λ space.
              and_then
                (copy_to_user x space user_buf (take count (drop file.offset embedded.bytes))
                  k.memory)
                λ copied.
                  let (r, memory) = copied in
                  let k' = record k { memory = memory } in
                  elim r [
                    | err _ ↦ refuse SysError.fault k'
                    | ok _ ↦ and_then (expect (File.get k.open_files open_file)) λ _. done (
                      ok count,
                      record k' {
                        open_files = set_offset k.open_files open_file (file.offset + count);
                      },
                    )
                  ])

  unfoldable pub sys_read_current : ℕ → ℕ → ℕ → Kernel → K SysResult
  unfolding read_embedded
  sys_read_current fd user_buf len k =
      if len == 0
      then done (ok 0, k)
      else (with_pid SysError.bad_fd k λ pid. with_file pid fd k λ open_file file.
          elim file.access [
            | write_only ↦ refuse SysError.bad_fd k
            | read_only ↦ elim file.kind [
              | null_input ↦ done (ok 0, k)
              | console_stdout ↦ refuse SysError.bad_fd k
              | console_stderr ↦ refuse SysError.bad_fd k
              | embedded_file file_id ↦ read_embedded pid open_file file file_id user_buf len k
            ]
          ])

  -- `while written < len`: a chunk at a time, each sent to the serial port when it has been copied.
  write_loop : ℕ → Process.AddressSpace → ℕ → ℕ → ℕ → Kernel → K SysResult
  write_loop zero space user_buf len written k = done (ok written, k)
  write_loop (suc f) space user_buf len written k = elim (ltb written len) [
    | false ↦ done (ok written, k)
    | true ↦
        let count = min write_chunk_size (len - written) in
        or_refuse (checked_add user_buf written) SysError.fault k λ address.
          and_then (expect (x.virt_new address)) λ src.
            and_then (copy_from_user x k.memory space src count) λ copied. elim copied [
              | err _ ↦ refuse SysError.fault k
              | ok bytes ↦
                  write_loop f space user_buf len (written + count)
                    (record k { serial = k.serial ++ bytes })
            ]
  ]

  -- A write to a console stream, behind the check of the whole range.
  unfoldable pub write_console : ℕ → ℕ → ℕ → Kernel → K SysResult
  unfolding write_loop
  write_console pid user_buf len k =
      or_refuse (address_space_of k.processes pid) SysError.bad_fd k λ space.
        and_then (validate_user_range x k.memory space user_buf len UserMemory.read) λ r. elim r [
          | err _ ↦ refuse SysError.fault k
          | ok _ ↦ write_loop (suc len) space user_buf len 0 k
        ]

  unfoldable pub sys_write_current : ℕ → ℕ → ℕ → Kernel → K SysResult
  unfolding write_console
  sys_write_current fd user_buf len k =
      if len == 0
      then done (ok 0, k)
      else (with_pid SysError.bad_fd k λ pid. with_file pid fd k λ open_file file.
          elim file.access [
            | read_only ↦ refuse SysError.bad_fd k
            | write_only ↦ elim file.kind [
              | console_stdout ↦ write_console pid user_buf len k
              | console_stderr ↦ write_console pid user_buf len k
              | null_input ↦ refuse SysError.bad_fd k
              | embedded_file _ ↦ refuse SysError.bad_fd k
            ]
          ])

unfoldable pub sys_close_current : ℕ → Kernel → K SysResult
unfolding set_fd_table
sys_close_current fd k = with_pid SysError.bad_fd k λ pid.
    or_refuse (fd_table_of k.processes pid) SysError.bad_fd k λ table.
      let (r, table', files) = close table fd k.open_files in
      elim r [
        | err e ↦ refuse (map_file_error e) k
        | ok _ ↦ done (ok 0, set_fd_table pid table' (record k { open_files = files }))
      ]
