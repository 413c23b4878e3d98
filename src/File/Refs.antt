-- ===== src/File/Refs.antt =====
-- The reference counts of the open-file table of file.rs.
use vlad_os.Base.{
  ltb, ◌==◌, if◌then◌else◌, Option-cases, get_elem?, replicate, position, is_none, is_some,
  get_elem?-set, get_elem?-set_at, position-some, count_if-set, ok, err, ℕ, zero, suc, ◌+◌, ◌-◌,
  ◌≡◌, refl, inl, inr, Option, none, some, List, [], ◌∷◌, arith,
}
use vlad_os.File.{
  AccessMode, OpenFileKind, OpenFile, OpenFileTable, ensure_slots, fresh_file, alloc, get,
  set_offset, dec_ref, active_count,
}

-- The count of the file in a slot, 0 for a free slot.
abbrev pub slot_refs : Option (Option OpenFile) → ℕ
slot_refs none = 0
slot_refs (some none) = 0
slot_refs (some (some file)) = file.ref_count

abbrev pub refs : OpenFileTable → ℕ → ℕ
refs t id = slot_refs (get_elem? t.files id)

slot_refs-replicate : (n j : ℕ) → slot_refs (get_elem? (replicate n none) j) ≡ 0
slot_refs-replicate zero j = refl
slot_refs-replicate (suc n) zero = refl
slot_refs-replicate (suc n) (suc j) = slot_refs-replicate n j

refs_of_files-ensure_slots :
    (files : List (Option OpenFile)) (j : ℕ)
    → refs (ensure_slots (record { files = files })) j ≡ refs (record { files = files }) j
unfolding ensure_slots
refs_of_files-ensure_slots [] j = slot_refs-replicate 32 j
refs_of_files-ensure_slots (f ∷ fs) j = refl

pub refs-ensure_slots : (t : OpenFileTable) (j : ℕ) → refs (ensure_slots t) j ≡ refs t j
refs-ensure_slots t j = refs_of_files-ensure_slots t.files j

-- `alloc` gives the new file one reference and leaves every other count alone; where it fails it
-- changes none.
pub refs-alloc :
    (kind : OpenFileKind) (access : AccessMode) (t : OpenFileTable) (j : ℕ)
    → let (r, t') = alloc kind access t in
      refs t' j ≡ refs t j + elim r [ ok id ↦ if id == j then 1 else 0 | err _ ↦ 0 ]
unfolding alloc
refs-alloc kind access t j = elim (Option-cases (position is_none (ensure_slots t).files)) [
  | inl e ↦ rw (e, alloc) (omega (arith, refs-ensure_slots t j))
  | inr (i, e) ↦
      let (lt, (a, at, free)) = position-some is_none (ensure_slots t).files i e in
      ground (
        arith,
        e,
        at,
        free,
        refs-ensure_slots t j,
        get_elem?-set (ensure_slots t).files i j (some (fresh_file kind access)) lt,
      )
]

-- One reference less: a file without references is no longer there.
abbrev pub dropped : Option OpenFile → Option OpenFile
dropped none = none
dropped (some file) =
    if ltb 1 file.ref_count then some (record file { ref_count = file.ref_count - 1 }) else none

-- Whether an open file goes with its reference.
abbrev pub freed_by_drop : Option OpenFile → ℕ
freed_by_drop none = 0
freed_by_drop (some file) = if ltb 1 file.ref_count then 0 else 1

-- `dec_ref` of an open file with several references takes one of them; one with no more than one
-- is removed, its slot is free, and one open file less is counted. Every other slot stays as it was,
-- and so does the table where no such file is open.
pub get-dec_ref :
    (t : OpenFileTable) (id : ℕ)
    → ((j : ℕ) → get (dec_ref t id) j ≡ (if id == j then dropped (get t j) else get t j))
      × (active_count (dec_ref t id) + freed_by_drop (get t id) ≡ active_count t)
unfolding dec_ref get active_count
get-dec_ref t id = elim (Option-cases (get_elem? t.files id)) [
  | inl e ↦ rw (e, dec_ref) (λ j. ground (arith, e), omega arith)
  | inr (none, e) ↦ rw (e, dec_ref) (λ j. ground (arith, e), omega arith)
  | inr (some file, e) ↦
      rw (e, dec_ref)
        (
          (λ j. ground (
            arith,
            e,
            get_elem?-set_at t.files id j none e,
            get_elem?-set_at t.files id j (some (record file { ref_count = file.ref_count - 1 })) e,
          )),
          ground (
            arith,
            e,
            count_if-set is_some t.files id none e,
            count_if-set is_some t.files id (some (record file { ref_count = file.ref_count - 1 }))
                e,
          ),
        )
]

pub refs-dec_ref :
    (t : OpenFileTable) (id j : ℕ)
    → refs (dec_ref t id) j ≡ (if id == j then refs t j - 1 else refs t j)
unfolding dec_ref
refs-dec_ref t id j = elim (Option-cases (get_elem? t.files id)) [
  | inl e ↦ rw (e, dec_ref) (ground arith)
  | inr (none, e) ↦ rw (e, dec_ref) (ground arith)
  | inr (some file, e) ↦
      rw (e, dec_ref)
        (ground (
          arith,
          e,
          get_elem?-set_at t.files id j none e,
          get_elem?-set_at t.files id j (some (record file { ref_count = file.ref_count - 1 })) e,
        ))
]

pub refs-set_offset :
    (t : OpenFileTable) (id offset j : ℕ) → refs (set_offset t id offset) j ≡ refs t j
unfolding set_offset
refs-set_offset t id offset j = elim (Option-cases (get_elem? t.files id)) [
  | inl e ↦ rw (e, set_offset)
  | inr (none, e) ↦ rw (e, set_offset)
  | inr (some file, e) ↦
      rw (e, set_offset)
        (ground
          (arith, e, get_elem?-set_at t.files id j (some (record file { offset = offset })) e))
]
