-- ===== src/AddressSpace/Isolation.antt =====
-- address_space.rs: what a user program can reach in a new address space.
use vlad_os.Base.{
  ◌==◌, ==_self, Bool-cases, Option-cases, get_elem?, Result, ok, err, ℕ, ◌≡◌, refl, inl, inr, true,
  false, none,
}
use vlad_os.Memory.{Memory, X86, usable_frames, allocate_frame}
use vlad_os.Process.{AddressSpace}
use vlad_os.AddressSpace.{
  user_p4_index, AddressSpaceError, entry_allows_user, walk_entry, level_1_table, translate_user,
  new_user, kernel_entry, user_table,
}

-- What the x86_64 crate documents of page-table flags: setting flags on an entry is read back,
-- removed flags are not contained, and an unused entry is 0 and has no flags.
pub record FlagLaws (x : X86) : Type 0 where
  pub flags_set :
      (e : ℕ)
      → let f = x.flags_remove (x.entry_flags e) x.user_accessible in
        x.entry_flags (x.entry_set_flags e f) ≡ f
  pub removed :
      (f g : ℕ)
      → x.flags_contain (x.flags_remove f x.user_accessible) (x.flags_or g x.user_accessible)
        ≡ false
  pub unused : (e : ℕ) → x.entry_is_unused e ≡ true → e ≡ 0
  pub no_flags :
      (g : ℕ) → x.flags_contain (x.entry_flags 0) (x.flags_or g x.user_accessible) ≡ false

module _ (x : X86) (laws : FlagLaws x) where
  walk_entry_zero : walk_entry x 0 ≡ none
  unfolding walk_entry entry_allows_user
  walk_entry_zero = rw (laws.no_flags x.present) refl

  walk_entry_closed :
      (e : ℕ)
      → walk_entry x (x.entry_set_flags e (x.flags_remove (x.entry_flags e) x.user_accessible))
        ≡ none
  unfolding walk_entry entry_allows_user
  walk_entry_closed e = rw (laws.flags_set e, laws.removed (x.entry_flags e) x.present) refl

  walk_entry-kernel_entry : (e : ℕ) → walk_entry x (kernel_entry x e) ≡ none
  walk_entry-kernel_entry e = elim (Bool-cases (x.entry_is_unused e)) [
    | inl b ↦ rw (b, laws.unused e b) walk_entry_zero
    | inr b ↦ rw b (walk_entry_closed e)
  ]

  walk_entry-user_table : (kernel : ℕ → ℕ) (i : ℕ) → walk_entry x (user_table x kernel i) ≡ none
  walk_entry-user_table kernel i = elim (Bool-cases (i == user_p4_index)) [
    | inl b ↦ rw b walk_entry_zero
    | inr b ↦ rw b (walk_entry-kernel_entry (kernel i))
  ]

  translate_user-closed :
      (m : Memory) (space : AddressSpace)
      → ((i : ℕ) → walk_entry x (m.tables space.level_4_frame i) ≡ none)
      → (address : ℕ) → translate_user x m space address ≡ none
  unfolding translate_user level_1_table
  translate_user-closed m space h address =
      rw (translate_user, level_1_table, h (x.p4_index (x.page_containing address))) refl

-- In a new address space no address is accessible to a user program, and making it changes neither
-- another page table nor a byte. A failure changes no byte.
abbrev pub Isolates : X86 → Memory → Result AddressSpaceError AddressSpace × Memory → Type 0
Isolates x m (ok space, m') =
    ((address : ℕ) → translate_user x m' space address ≡ none)
    × ((f i : ℕ) → (f == space.level_4_frame) ≡ false → m'.tables f i ≡ m.tables f i)
    × (m'.bytes ≡ m.bytes)
Isolates x m (err _, m') = m'.bytes ≡ m.bytes

-- Under the documented laws of page-table flags, no address at all is accessible to a user program
-- in an address space that `new_user` has made, although it shares the kernel's tables; neither a
-- page table in another frame nor a byte of memory has changed. A failure changes no byte either.
pub new_user-Isolates : (x : X86) → FlagLaws x → (m : Memory) → Isolates x m (new_user x m)
unfolding new_user allocate_frame
new_user-Isolates x laws m =
    elim (Option-cases (get_elem? (usable_frames x m.frame_allocator) m.frame_allocator.next)) [
      | inl n ↦ rw (n, new_user, allocate_frame) refl
      | inr (frame, e) ↦
          let kernel = m.tables m.kernel_level_4_frame in
          elim (Bool-cases (x.entry_is_unused (kernel user_p4_index))) [
            | inr b ↦ rw (new_user, allocate_frame, e, b) refl
            | inl b ↦
                rw (new_user, allocate_frame, e, b)
                  (
                    translate_user-closed x laws _ _
                        λ i. rw (==_self frame) (walk_entry-user_table x laws kernel i),
                    λ f i other. rw other refl,
                    refl,
                  )
          ]
    ]
