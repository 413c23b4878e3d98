-- ===== src/User.antt =====
-- user.rs: laying out a built-in program, whose code stands in the kernel's image.
use vlad_os.Base.{
  leb, if◌then◌else◌, length, Result, ok, err, Exec, done, panic, expect, and_then, ℕ, ◌+◌, ◌≡◌,
  Option, none, some, List, arith,
}
use vlad_os.Words.{page_size}
use vlad_os.Memory.{X86, Memory}
use vlad_os.AddressSpace.{range_overflow, new_user, map_zeroed_user_page, Step, step_then, stop}
use vlad_os.AddressSpace.Copy.{write_frame_bytes, write_frame_u64}
use vlad_os.Process.Heap.{UserHeap, UserHeapError, Fits, new-IsValid}
use vlad_os.Process.Heap
use vlad_os.Process.{AddressSpace}
use vlad_os.Scheduler.Spawn.{UserTaskInit}
use vlad_os.UserMemory.{user_base, user_stack_top}
use vlad_os.Elf.Load.{user_heap_limit, map_user_stack}

abbrev user_code_base : ℕ
user_code_base = user_base + 0x40_0000

abbrev user_data_base : ℕ
user_data_base = user_base + 0x60_0000

abbrev user_test_page_base : ℕ
user_test_page_base = user_base + 0x70_0000

pub data UserProgram : Type 0 where
  yield_then_exit privileged_hlt busy_counter write_read_aa write_read_bb read_arg_exit :
      UserProgram

unfoldable pub default_builtin_heap : Result UserHeapError UserHeap
default_builtin_heap = Heap.new (user_data_base + page_size) user_heap_limit

-- `code` has the bytes between the labels of a program, which the assembler places.
module _ (x : X86) (code : UserProgram → List ℕ) where
  -- `assert!(len <= 4096)`.
  unfoldable pub program_bytes : UserProgram → Exec (List ℕ)
  program_bytes program = if leb (length (code program)) 4096 then done (code program) else panic

  unfoldable pub user_data_flags : ℕ
  user_data_flags = x.flags_or (x.flags_or x.present x.writable) x.user_accessible

  unfoldable pub map_program : AddressSpace → UserProgram → Memory → Step ℕ
  unfolding program_bytes
  map_program space program m = and_then (expect (x.virt_new user_code_base)) λ base.
      step_then (map_zeroed_user_page x space base (x.flags_or x.present x.user_accessible) m)
        (λ frame m₁. and_then (program_bytes program) λ bytes.
          step_then (done (write_frame_bytes x frame bytes m₁))
            (λ _ m₂. and_then (expect (x.virt_new user_code_base)) λ entry. done (ok entry, m₂))
            stop)
        stop

  -- A zeroed page with a word at its start.
  abbrev map_word : AddressSpace → ℕ → ℕ → Memory → Step (Unit {0})
  map_word space address value m = and_then (expect (x.virt_new address)) λ a.
      step_then (map_zeroed_user_page x space a user_data_flags m)
        (λ frame m'. done (ok tt, write_frame_u64 x frame value m')) stop

  abbrev map_test_page : AddressSpace → Option ℕ → Memory → Step (Unit {0})
  map_test_page space none m = done (ok tt, m)
  map_test_page space (some value) m = map_word space user_test_page_base value m

  -- Behind the mapping of the stack.
  abbrev finish_task : AddressSpace → ℕ → ℕ → Memory → Step UserTaskInit
  finish_task space entry_point arg0 m = elim default_builtin_heap [
    | err _ ↦ done (err range_overflow, m)
    | ok heap ↦ and_then (expect (x.virt_new user_stack_top)) λ top. done (
      ok (record {
        address_space = space;
        entry_point = entry_point;
        user_stack_top = top;
        heap = heap;
        arg0 = arg0;
      }),
      m,
    )
  ]

  unfoldable pub create_user_task_with_test_page :
      UserProgram → ℕ → Option ℕ → Memory → Step UserTaskInit
  unfolding map_program user_data_flags default_builtin_heap
  create_user_task_with_test_page program arg0 test_page_value m =
      let (created, m₁) = new_user x m in
      step_then (done (created, m₁))
        (λ space m₂.
          step_then (map_program space program m₂)
            (λ entry_point m₃.
              step_then (map_word space user_data_base 0 m₃)
                (λ _ m₄.
                  step_then (map_test_page space test_page_value m₄)
                    (λ _ m₅.
                      step_then (map_user_stack x space m₅)
                        (λ _ m₆. finish_task space entry_point arg0 m₆) stop)
                    stop)
                stop)
            stop)
        stop

  unfoldable pub create_user_task : UserProgram → ℕ → Memory → Step UserTaskInit
  unfolding create_user_task_with_test_page
  create_user_task program arg0 m = create_user_task_with_test_page program arg0 none m

-- The heap of a built-in program is one that a process may be started with.
pub default_builtin_heap-Fits : {heap : UserHeap} → default_builtin_heap ≡ ok heap → Fits heap
unfolding default_builtin_heap
default_builtin_heap-Fits {heap} e =
    let (valid, start, limit, empty) =
      new-IsValid (user_data_base + page_size) user_heap_limit (omega arith) e in
    (valid, omega (arith, limit))
