-- ===== src/File.antt =====
-- file.rs: the kernel's table of open files and the registry of embedded files.
use vlad_os.Base.{
  ◌==◌, if◌then◌else◌, get_elem?, set, replicate, position, count_if, is_none, is_some, flatten,
  Result, ok, err, ℕ, ◌+◌, ◌-◌, ◌%◌, ◌^◌, Bool, true, false, ◌&&◌, Option, none, some, List, [],
  ◌∷◌,
}
use Prim.Native.Char.{code}
use Prim.Native.String.{String}
use mathlib.Core.Option
pub mod Refs

abbrev pub max_open_files : ℕ
max_open_files = 32

abbrev pub max_path_len : ℕ
max_path_len = 128

pub data AccessMode : Type 0 where
  read_only write_only : AccessMode

pub data OpenFileKind : Type 0 where
  null_input console_stdout console_stderr : OpenFileKind
  embedded_file : ℕ → OpenFileKind

pub data FileError : Type 0 where
  bad_fd no_entry too_many_system_files too_many_process_files name_too_long invalid fault :
      FileError

pub record OpenFile : Type 0 where
  pub kind : OpenFileKind
  pub access : AccessMode
  pub offset : ℕ
  pub ref_count : ℕ

-- `OpenFileId` is the index of a slot.
pub record OpenFileTable : Type 0 where
  pub files : List (Option OpenFile)

abbrev pub new : OpenFileTable
new = record { files = [] }

-- An empty vector is filled with `MAX_OPEN_FILES` free slots.
unfoldable pub ensure_slots : OpenFileTable → OpenFileTable
ensure_slots t = elim t.files [ [] ↦ record { files = replicate max_open_files none } | _ ∷ _ ↦ t ]

abbrev pub fresh_file : OpenFileKind → AccessMode → OpenFile
fresh_file kind access = record { kind = kind; access = access; offset = 0; ref_count = 1 }

unfoldable pub alloc :
    OpenFileKind → AccessMode → OpenFileTable → Result FileError ℕ × OpenFileTable
alloc kind access t =
    let t' = ensure_slots t in
    elim (position is_none t'.files) [
      | none ↦ (err too_many_system_files, t')
      | some index ↦
          (ok index, record { files = set t'.files index (some (fresh_file kind access)) })
    ]

unfoldable pub get : OpenFileTable → ℕ → Option OpenFile
get t id = flatten (get_elem? t.files id)

-- `file.set_offset(offset)` through `get_mut`: the slot is written back.
unfoldable pub set_offset : OpenFileTable → ℕ → ℕ → OpenFileTable
unfolding get
set_offset t id offset = elim (get t id) [
  | none ↦ t
  | some file ↦ record { files = set t.files id (some (record file { offset = offset })) }
]

unfoldable pub inc_ref : OpenFileTable → ℕ → OpenFileTable
unfolding get
inc_ref t id = elim (get t id) [
  | none ↦ t
  | some file ↦ record {
    files = set t.files id (some (record file { ref_count = (file.ref_count + 1) % 2 ^ 64 }));
  }
]

-- The slot of a file whose count reaches 0 is freed. `saturating_sub` is the subtraction of ℕ.
unfoldable pub dec_ref : OpenFileTable → ℕ → OpenFileTable
dec_ref t id = elim (get_elem? t.files id) [
  | none ↦ t
  | some none ↦ t
  | some (some file) ↦
      let n = file.ref_count - 1 in
      if n == 0
      then record { files = set t.files id none }
      else record { files = set t.files id (some (record file { ref_count = n })) }
]

unfoldable pub active_count : OpenFileTable → ℕ
active_count t = count_if is_some t.files

pub record EmbeddedFile : Type 0 where
  pub path : List ℕ
  pub bytes : List ℕ

-- The bytes of an ASCII text.
abbrev pub bytes_of : String → List ℕ
bytes_of String.[] = []
bytes_of (String.◌∷◌ c s) = code c ∷ bytes_of s

abbrev pub embedded_files : List EmbeddedFile
embedded_files =
    record { path = bytes_of "/hello.txt"; bytes = bytes_of "hello from embedded file\n" }
    ∷ record { path = bytes_of "/motd"; bytes = bytes_of "tiny kernel says hello\n" }
    ∷ []

-- Equality of byte slices.
abbrev pub bytes_eq : List ℕ → List ℕ → Bool
bytes_eq [] [] = true
bytes_eq [] (y ∷ ys) = false
bytes_eq (x ∷ xs) [] = false
bytes_eq (x ∷ xs) (y ∷ ys) = x == y && bytes_eq xs ys

unfoldable pub find_embedded_file : List ℕ → Option ℕ
find_embedded_file path = position (λ (f : EmbeddedFile). bytes_eq f.path path) embedded_files

unfoldable pub embedded_file_at : ℕ → Option EmbeddedFile
embedded_file_at id = get_elem? embedded_files id
