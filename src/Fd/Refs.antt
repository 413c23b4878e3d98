-- ===== src/Fd/Refs.antt =====
-- The references that the descriptors of a process hold on open files: every operation of fd.rs
-- takes and gives back references in step with the entries of the table.
use vlad_os.Base.{
  ◌==◌, if◌then◌else◌, Option-cases, get_elem?, set, replicate, position, is_none, get_elem?-set_at,
  position-some, Result, ok, err, Result-cases, ℕ, zero, suc, ◌+◌, ◌-◌, ◌≤◌, ◌≡◌, refl, inl, inr,
  Option, none, some, List, [], ◌∷◌, map, arith,
}
use vlad_os.File.{
  read_only, write_only, null_input, console_stdout, console_stderr, FileError, OpenFileTable,
  alloc, dec_ref,
}
use vlad_os.File.Refs.{refs, refs-alloc, refs-dec_ref}
use vlad_os.Fd.{
  stdin_fileno, stdout_fileno, stderr_fileno, FdEntry, entry, FdTable, empty, close_entries,
  close_all, new_with_stdio, allocate_lowest, close, put, open_stderr, open_stdout,
}

-- 1 for an entry that refers to the open file.
abbrev pub slot_holds : ℕ → Option FdEntry → ℕ
slot_holds j none = 0
slot_holds j (some e) = if e.open_file == j then 1 else 0

-- How many of the entries refer to the open file.
abbrev pub entries_hold : ℕ → List (Option FdEntry) → ℕ
entries_hold j [] = 0
entries_hold j (e ∷ es) = slot_holds j e + entries_hold j es

abbrev pub holds : FdTable → ℕ → ℕ
holds t j = entries_hold j t.entries

pub entries_hold-set :
    (j : ℕ) (es : List (Option FdEntry)) (fd : ℕ) (v : Option FdEntry) {old : Option FdEntry}
    → get_elem? es fd ≡ some old
    → entries_hold j (set es fd v) + slot_holds j old ≡ entries_hold j es + slot_holds j v
entries_hold-set j [] fd v e = cc
entries_hold-set j (x ∷ es) zero v {old} e =
    let same : x ≡ old = ground arith in rw same (omega arith)
entries_hold-set j (x ∷ es) (suc fd) v e = omega (arith, entries_hold-set j es fd v e)

entries_hold-replicate : (j n : ℕ) → entries_hold j (replicate n none) ≡ 0
entries_hold-replicate j zero = refl
entries_hold-replicate j (suc n) = omega (arith, entries_hold-replicate j n)

pub entries_hold-cleared :
    (j : ℕ) (es : List (Option FdEntry))
    → entries_hold j (map (λ (_ : Option FdEntry). none) es) ≡ 0
entries_hold-cleared j [] = refl
entries_hold-cleared j (e ∷ es) = omega (arith, entries_hold-cleared j es)

refs-close_entries :
    (es : List (Option FdEntry)) (files : OpenFileTable) (j : ℕ)
    → refs (close_entries es files) j ≡ refs files j - entries_hold j es
unfolding close_entries
refs-close_entries [] files j = omega arith
refs-close_entries (none ∷ es) files j = omega (arith, refs-close_entries es files j)
refs-close_entries (some e ∷ es) files j =
    ground
      (arith, refs-close_entries es (dec_ref files e.open_file) j, refs-dec_ref files e.open_file j)

-- `close_all` gives back, on every open file, as many references as the table holds, and leaves a
-- table that holds none.
pub refs-close_all :
    (t : FdTable) (files : OpenFileTable) (j : ℕ)
    → let (t', files') = close_all t files in
      (refs files' j ≡ refs files j - holds t j) × (holds t' j ≡ 0)
unfolding close_all
refs-close_all t files j = (refs-close_entries t.entries files j, entries_hold-cleared j t.entries)

-- What a table holds after a write to a free slot.
holds-put :
    (t : FdTable) (fd id j : ℕ)
    → get_elem? t.entries fd ≡ some none
    → entries_hold j (set t.entries fd (some (entry id))) ≡ holds t j + (if id == j then 1 else 0)
holds-put t fd id j e = omega (arith, entries_hold-set j t.entries fd (some (entry id)) e)

-- A failed call changes no count; a successful one adds the references that the table holds.
abbrev pub Accounts : OpenFileTable → Result FileError FdTable × OpenFileTable → ℕ → Type 0
Accounts files (ok t, files') j = refs files' j ≡ refs files j + holds t j
Accounts files (err _, files') j = refs files' j ≡ refs files j

module _ (files₀ : OpenFileTable) (j : ℕ) where
  open_stderr-Accounts :
      (t : FdTable) (files : OpenFileTable)
      → refs files j ≡ refs files₀ j + holds t j
      → get_elem? t.entries stderr_fileno ≡ some none
      → Accounts files₀ (open_stderr t files) j
  unfolding open_stderr
  open_stderr-Accounts t files h free =
      let opened = refs-alloc console_stderr write_only files j in
      elim (Result-cases (alloc console_stderr write_only files).0) [
        | inl (id, e) ↦
            rw (e, open_stderr)
              (omega (arith, h, holds-put t stderr_fileno id j free, rw e at opened))
        | inr (error, e) ↦
            rw (e, open_stderr)
              (omega (
                arith,
                h,
                refs-close_all t (alloc console_stderr write_only files).1 j,
                rw e at opened,
              ))
      ]

  open_stdout-Accounts :
      (t : FdTable) (files : OpenFileTable)
      → refs files j ≡ refs files₀ j + holds t j
      → get_elem? t.entries stdout_fileno ≡ some none
      → get_elem? t.entries stderr_fileno ≡ some none
      → Accounts files₀ (open_stdout t files) j
  unfolding open_stdout
  open_stdout-Accounts t files h free free' =
      let opened = refs-alloc console_stdout write_only files j in
      elim (Result-cases (alloc console_stdout write_only files).0) [
        | inl (id, e) ↦
            rw (e, open_stdout)
              (open_stderr-Accounts (put t stdout_fileno id)
                (alloc console_stdout write_only files).1
                (omega (arith, h, holds-put t stdout_fileno id j free, rw e at opened))
                (rw (get_elem?-set_at t.entries stdout_fileno stderr_fileno (some (entry id)) free)
                  free'))
        | inr (error, e) ↦
            rw (e, open_stdout)
              (omega (
                arith,
                h,
                refs-close_all t (alloc console_stdout write_only files).1 j,
                rw e at opened,
              ))
      ]

-- Opening the three standard streams either fails and changes no reference count, also where the
-- second or the third open fails, or yields a table and raises each count by the references that
-- the table holds.
pub new_with_stdio-Accounts :
    (files : OpenFileTable) (j : ℕ) → Accounts files (new_with_stdio files) j
unfolding new_with_stdio
new_with_stdio-Accounts files j =
    let opened = refs-alloc null_input read_only files j in
    elim (Result-cases (alloc null_input read_only files).0) [
      | inl (id, e) ↦
          rw (e, new_with_stdio)
            (open_stdout-Accounts files j (put empty stdin_fileno id)
              (alloc null_input read_only files).1
              (omega (arith, entries_hold-replicate j 15, rw e at opened)) refl refl)
      | inr (error, e) ↦ rw (e, new_with_stdio) (omega (arith, rw e at opened))
    ]

-- A successful `allocate_lowest` makes the table hold one reference more on the file, and none
-- more on another; a failed one leaves what it holds.
pub holds-allocate_lowest :
    (t : FdTable) (id j : ℕ)
    → let (r, t') = allocate_lowest t id in
      holds t' j ≡ holds t j + elim r [ ok fd ↦ if id == j then 1 else 0 | err _ ↦ 0 ]
unfolding allocate_lowest
holds-allocate_lowest t id j = elim (Option-cases (position is_none t.entries)) [
  | inl e ↦ rw (e, allocate_lowest) (omega arith)
  | inr (i, e) ↦
      let (lt, (a, at, free)) = position-some is_none t.entries i e in
      rw (e, allocate_lowest) (holds-put t i id j (ground (arith, at, free)))
]

-- Where an open file has at least the references that the table holds on it, `close` gives back
-- the references that go with the entry that it clears, and none where it fails.
pub refs-close :
    (t : FdTable) (fd : ℕ) (files : OpenFileTable) (j : ℕ)
    → holds t j ≤ refs files j
    → let (r, t', files') = close t fd files in
      refs files' j + holds t j ≡ refs files j + holds t' j
unfolding close
refs-close t fd files j h = elim (Option-cases (get_elem? t.entries fd)) [
  | inl e ↦ rw (e, close)
  | inr (none, e) ↦ rw (e, close)
  | inr (some en, e) ↦
      let cleared = entries_hold-set j t.entries fd none e in
      rw (e, close) (ground (arith, h, cleared, refs-dec_ref files en.open_file j))
]
