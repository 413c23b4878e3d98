-- ===== src/Task.antt =====
-- task.rs and arch/x86_64/context.rs: tasks, their states and their saved trap frames.
use vlad_os.Base.{
  ◌==◌, if◌then◌else◌, ℕ, ◌+◌, ◌-◌, ◌*◌, ◌/◌, ◌%◌, Bool, true, false, ◌||◌, Option, none, some,
}

abbrev pub task_stack_size : ℕ
task_stack_size = 8 * 1024

abbrev pub max_tasks : ℕ
max_tasks = 8

pub data WaitReason : Type 0 where
  child_exit : ℕ → Option ℕ → WaitReason

pub data TaskState : Type 0 where
  ready running finished failed : TaskState
  blocked : WaitReason → TaskState

pub data UserFaultKind : Type 0 where
  general_protection page_fault : UserFaultKind

pub record UserFaultInfo : Type 0 where
  pub kind : UserFaultKind
  pub address : Option ℕ
  pub error_code : ℕ

pub data TaskKind : Type 0 where
  kernel_task : ℕ → TaskKind
  user_task : ℕ → ℕ → TaskKind

pub data TaskAddressSpace : Type 0 where
  kernel_space : TaskAddressSpace
  user_space : ℕ → TaskAddressSpace

-- The 20 words that an interrupt entry leaves on a kernel stack.
pub record TrapFrame : Type 0 where
  pub r15 : ℕ
  pub r14 : ℕ
  pub r13 : ℕ
  pub r12 : ℕ
  pub r11 : ℕ
  pub r10 : ℕ
  pub r9 : ℕ
  pub r8 : ℕ
  pub rsi : ℕ
  pub rdi : ℕ
  pub rbp : ℕ
  pub rdx : ℕ
  pub rcx : ℕ
  pub rbx : ℕ
  pub rax : ℕ
  pub rip : ℕ
  pub cs : ℕ
  pub rflags : ℕ
  pub rsp : ℕ
  pub ss : ℕ

abbrev pub trap_frame_size : ℕ
trap_frame_size = 20 * 8

-- `context.rsp` is `saved_rsp`. The stack itself is in memory.
pub record Task : Type 0 where
  pub id : ℕ
  pub state : TaskState
  pub saved_rsp : ℕ
  pub kind : TaskKind
  pub address_space : TaskAddressSpace
  pub kernel_stack_top : ℕ
  pub exit_code : Option ℕ
  pub fault_info : Option UserFaultInfo

-- What starting a task reads from outside: where the allocator puts the stack of the next task,
-- the address of `task_trampoline`, and the segment selectors of the CPU and of gdt.rs.
pub record Platform : Type 0 where
  pub new_stack : ℕ → ℕ
  pub trampoline : ℕ
  pub kernel_cs : ℕ
  pub kernel_ss : ℕ
  pub user_cs : ℕ
  pub user_ss : ℕ

-- `top & !(16 - 1)`.
abbrev pub align_16 : ℕ → ℕ
align_16 v = v - v % 16

unfoldable pub stack_top : ℕ → ℕ
stack_top base = align_16 (base + task_stack_size)

-- `rflags | 0x2`: bit 1 of the flags is always set.
abbrev pub with_reserved_bit : ℕ → ℕ
with_reserved_bit rflags = if rflags / 2 % 2 == 0 then rflags + 2 else rflags

abbrev pub start_frame : ℕ → ℕ → ℕ → ℕ → ℕ → ℕ → TrapFrame
start_frame arg0 rip cs rflags rsp ss = record {
  r15 = 0;
  r14 = 0;
  r13 = 0;
  r12 = 0;
  r11 = 0;
  r10 = 0;
  r9 = 0;
  r8 = 0;
  rsi = 0;
  rdi = arg0;
  rbp = 0;
  rdx = 0;
  rcx = 0;
  rbx = 0;
  rax = 0;
  rip = rip;
  cs = cs;
  rflags = with_reserved_bit rflags;
  rsp = rsp;
  ss = ss;
}

-- A new task, with the frame that it starts from and the address of that frame.
unfoldable pub new_kernel : Platform → ℕ → ℕ → ℕ → Task × TrapFrame
unfolding stack_top
new_kernel p id entry rflags =
    let top = stack_top (p.new_stack id) in
    let initial_rsp = top - 8 in
    (
      record {
        id = id;
        state = ready;
        saved_rsp = initial_rsp - trap_frame_size;
        kind = kernel_task entry;
        address_space = kernel_space;
        kernel_stack_top = top;
        exit_code = none;
        fault_info = none;
      },
      start_frame 0 p.trampoline p.kernel_cs rflags initial_rsp p.kernel_ss,
    )

unfoldable pub new_user : Platform → ℕ → ℕ → ℕ → ℕ → ℕ → ℕ → Task × TrapFrame
unfolding stack_top
new_user p id process_id entry_point user_stack_top arg0 rflags =
    let top = stack_top (p.new_stack id) in
    (
      record {
        id = id;
        state = ready;
        saved_rsp = top - trap_frame_size;
        kind = user_task entry_point user_stack_top;
        address_space = user_space process_id;
        kernel_stack_top = top;
        exit_code = none;
        fault_info = none;
      },
      start_frame arg0 entry_point p.user_cs rflags (align_16 user_stack_top - 8) p.user_ss,
    )

abbrev pub kernel_entry : Task → Option ℕ
kernel_entry t = elim t.kind [ kernel_task entry ↦ some entry | user_task _ _ ↦ none ]

abbrev pub process_id : Task → Option ℕ
process_id t = elim t.address_space [ kernel_space ↦ none | user_space pid ↦ some pid ]

-- `state == TaskState::Ready` and the other comparisons of states.
abbrev pub is_ready : TaskState → Bool
is_ready ready = true
is_ready _ = false

abbrev pub is_running : TaskState → Bool
is_running running = true
is_running _ = false

abbrev pub is_finished : TaskState → Bool
is_finished finished = true
is_finished _ = false

abbrev pub is_failed : TaskState → Bool
is_failed failed = true
is_failed _ = false

abbrev pub is_terminal : TaskState → Bool
is_terminal s = is_finished s || is_failed s
