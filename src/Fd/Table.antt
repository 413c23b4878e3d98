-- ===== src/Fd/Table.antt =====
-- fd.rs: which descriptors an allocation and a close change.
use vlad_os.Base.{
  ◌==◌, if◌then◌else◌, Option-cases, length, get_elem?, position, is_none, get_elem?-none,
  get_elem?-set_at, position-some, position_before, position-none, Result, ok, err, ℕ, ◌<◌, ◌≡◌,
  refl, inl, inr, true, false, Option, none, some, arith,
}
use vlad_os.File.{FileError, OpenFileTable, bad_fd, too_many_process_files, dec_ref}
use vlad_os.Fd.{FdEntry, entry, FdTable, allocate_lowest, get, is_open, close}

-- An allocation takes the lowest free descriptor, below which all are open, and changes no other;
-- it fails only if every descriptor is open, and then changes nothing.
abbrev pub Allocates : FdTable → ℕ → Result FileError ℕ × FdTable → Type 0
Allocates t id (ok fd, t') =
    (is_open t fd ≡ false)
    × (fd < length t.entries)
    × ((j : ℕ) → j < fd → is_open t j ≡ true)
    × ((j : ℕ) → get t' j ≡ (if fd == j then some (entry id) else get t j))
Allocates t id (err e, t') =
    (e ≡ too_many_process_files) × (t' ≡ t) × ((j : ℕ) → j < length t.entries → is_open t j ≡ true)

-- A clear of an open descriptor and no other, with one reference of its file taken; or a refusal.
abbrev pub Closes :
    FdTable
    → ℕ
    → OpenFileTable
    → Option FdEntry
    → Result FileError (Unit {0}) × FdTable × OpenFileTable
    → Type 0
Closes t fd files none (r, t', files') = (r ≡ err bad_fd) × (t' ≡ t) × (files' ≡ files)
Closes t fd files (some e) (r, t', files') =
    (r ≡ ok tt)
    × ((j : ℕ) → get t' j ≡ (if fd == j then none else get t j))
    × (files' ≡ dec_ref files e.open_file)

is_open_from :
    (t : FdTable) (j : ℕ)
    → j < length t.entries
    → ((o : Option FdEntry) → get_elem? t.entries j ≡ some o → is_none o ≡ false)
    → is_open t j ≡ true
unfolding is_open get
is_open_from t j lt h = elim (Option-cases (get_elem? t.entries j)) [
  | inl n ↦ absurd (omega (arith, get_elem?-none t.entries j n))
  | inr (none, e) ↦ cc (h none e)
  | inr (some o, e) ↦ rw (e, is_open, get) refl
]

-- `allocate_lowest` takes the lowest free descriptor, below which all are open, and leaves every
-- other as it was; it fails only where all descriptors of the table are open, and then changes
-- nothing.
pub allocate_lowest-Allocates : (t : FdTable) (id : ℕ) → Allocates t id (allocate_lowest t id)
unfolding allocate_lowest get is_open
allocate_lowest-Allocates t id = elim (Option-cases (position is_none t.entries)) [
  | inl n ↦
      rw (n, allocate_lowest)
        (refl, refl, λ j lt. is_open_from t j lt (λ o e. position-none is_none t.entries j n e))
  | inr (fd, h) ↦
      let (lt, (a, at, free)) = position-some is_none t.entries fd h in
      let empty : get_elem? t.entries fd ≡ some none = ground (arith, at, free) in
      rw (h, allocate_lowest)
        (
          rw (is_open, get, empty) refl,
          lt,
          λ j below.
              is_open_from t j (omega (arith, lt))
                (λ o e. position_before is_none t.entries fd j h below e),
          λ j. (ground (arith, get_elem?-set_at t.entries fd j (some (entry id)) empty)),
        )
]

-- `close` clears an open descriptor and no other, and takes one reference of its file; it fails
-- where the descriptor is not open, and then changes nothing.
pub close-Closes :
    (t : FdTable) (fd : ℕ) (files : OpenFileTable) → Closes t fd files (get t fd) (close t fd files)
unfolding close get
close-Closes t fd files = elim (Option-cases (get_elem? t.entries fd)) [
  | inl n ↦ rw (get, close, n) (refl, refl, refl)
  | inr (none, h) ↦ rw (get, close, h) (refl, refl, refl)
  | inr (some e, h) ↦
      rw (get, close, h) (refl, λ j. ground (arith, get_elem?-set_at t.entries fd j none h), refl)
]
