-- ===== src/UserMemory/Pages.antt =====
-- user_memory.rs and address_space.rs: addresses of one page are translated alike.
use vlad_os.Base.{Option-cases, ℕ, ◌+◌, ◌-◌, ◌%◌, ◌<◌, ◌≡◌, sym, ap, ◌∙◌, inl, inr, some, arith}
use vlad_os.Words.{lower_half, page_size}
use vlad_os.Memory.{X86, Memory}
use vlad_os.Process.{AddressSpace}
use vlad_os.AddressSpace.{UserTranslation, translate_user, walk_entry, level_1_table}

-- What the x86_64 crate documents of pages: `containing_address` rounds down to the page, the frame
-- of an entry is aligned, and an address of the lower half is made of itself only.
pub record PageLaws (x : X86) : Type 0 where
  pub page : (a : ℕ) → x.page_containing a ≡ a - a % page_size
  pub frame : (e : ℕ) {f : ℕ} → x.entry_frame e ≡ some f → f % page_size ≡ 0
  pub new_low : (a : ℕ) {b : ℕ} → x.virt_new a ≡ some b → b < lower_half → b ≡ a

module _ (x : X86) (laws : PageLaws x) where
  same_page :
      (a j : ℕ) → a % page_size + j < page_size → x.page_containing (a + j) ≡ x.page_containing a
  same_page a j h =
      let both : (a + j) - (a + j) % page_size ≡ a - a % page_size = omega (arith, h) in
      laws.page (a + j) ∙ (both ∙ sym (laws.page a))

  walk_entry-frame : (e : ℕ) {f : ℕ} → walk_entry x e ≡ some f → f % page_size ≡ 0
  unfolding walk_entry
  walk_entry-frame e h = laws.frame e (ground (arith, h))

  -- A translation of an address gives that of the ones behind it in its page.
  pub translate_user-add :
      (m : Memory) (space : AddressSpace) (a j : ℕ) {t : UserTranslation}
      → translate_user x m space a ≡ some t
      → a % page_size + j < page_size
      → (translate_user x m space (a + j) ≡ some (record t { phys = t.phys + j }))
        × (t.phys % page_size ≡ a % page_size)
  unfolding translate_user
  translate_user-add m space a j {t} e h =
      let page = x.page_containing a in
      rw (translate_user, same_page a j h)
        (elim (Option-cases (level_1_table x m space.level_4_frame page)) [
          | inl n ↦ cc (rw (translate_user, n) at e)
          | inr (table, up) ↦
              let entry = m.tables table (x.p1_index page) in
              rw up (elim (Option-cases (walk_entry x entry)) [
                | inl n ↦ cc (rw (translate_user, up, n) at e)
                | inr (frame, found) ↦
                    let aligned = walk_entry-frame entry found in
                    let is : record { phys = frame + a % 4096; flags = x.entry_flags entry } ≡ t =
                      ground (arith, rw (translate_user, up, found) at e) in
                    let offset : (a + j) % 4096 ≡ a % 4096 + j = omega (arith, h) in
                    rw (same_page a j h, found, offset, ← is)
                      (ap some (ground (arith, same_page a j h)), omega (arith, aligned))
              ])
        ])
