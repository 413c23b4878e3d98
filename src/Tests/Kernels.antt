-- ===== src/Tests/Kernels.antt =====
-- A kernel with a parent and its child, made by the operations of scheduler.rs.
use vlad_os.Base.{
  Result, done, panic, ℕ, ◌≡◌, refl, sym, ap, ◌∙◌, Bool, false, Option, none, some, arith,
}
use vlad_os.Fd.{new_with_stdio}
use vlad_os.File.{alloc}
use vlad_os.File
use vlad_os.Process
use vlad_os.Process.Valid.{new-Valid}
use vlad_os.Process.Status.{is_zombie}
use vlad_os.Process.{Process, get, create, can_create, put}
use vlad_os.Task.{new_user}
use vlad_os.Scheduler.{Kernel, K, put_frame, current_process_id, new}
use vlad_os.Scheduler.Sound.{Sound, Ensures}
use vlad_os.Scheduler.Spawn.{UserTaskInit, SpawnError, UserProcessHandle, spawn_user_process}
use vlad_os.Scheduler.Spawn.Account.{spawn_user_process-Sound}
use vlad_os.Scheduler.Files.Balance.{CurrentRuns}
use vlad_os.Tests.Machine.{mapped_memory, platform, zero_frames}

abbrev pub boot : Kernel
boot = new mapped_memory zero_frames 0x1000 0x8000

abbrev pub boot-Sound : Sound boot
boot-Sound = record { valid = new-Valid; balanced = λ j. refl }

abbrev pub user_init : ℕ → UserTaskInit
user_init frame = record {
  address_space = record { level_4_frame = frame };
  entry_point = 0x40_0000;
  user_stack_top = 0x80_0000;
  heap = record { start = 0x50_0000; brk = 0x50_0000; limit = 0x70_0000; mapped_end = 0x50_0000 };
  arg0 = 7;
}

-- The state that a handler leaves.
abbrev pub after : {A : Type 0} → K A → Kernel → Kernel
after (done (a, k)) before = k
after panic before = before

pub after-Sound :
    {A : Type 0} (m : K A) (before : Kernel)
    → Sound before
    → Ensures Sound m
    → Sound (after m before)
after-Sound (done (a, k)) before s h = h
after-Sound panic before s h = s

abbrev spawn_parent : K (Result SpawnError UserProcessHandle)
spawn_parent = spawn_user_process platform none (user_init 0x2000) 0x202 boot

abbrev pub with_parent : Kernel
with_parent = after spawn_parent boot

abbrev pub with_parent-Sound : Sound with_parent
with_parent-Sound =
    after-Sound spawn_parent boot boot-Sound
      (spawn_user_process-Sound platform none (user_init 0x2000) 0x202 boot boot-Sound)

abbrev spawn_child : K (Result SpawnError UserProcessHandle)
spawn_child = spawn_user_process platform (some 1) (user_init 0x3000) 0x202 with_parent

-- The parent, pid 1, runs as task 0; its child, pid 2, is ready as task 1. The frame
-- at 0x7000 is that of a call to close descriptor 1.
abbrev pub family : Kernel
family =
    let k = after spawn_child with_parent in
    put_frame (record k { current = some 0; kernel_stack = 0x20_2000 }) 0x7000
      (record (zero_frames 0x7000) { rax = 7; rdi = 1 })

abbrev pub family-Sound : Sound family
family-Sound = after-Sound spawn_child with_parent with_parent-Sound (
    spawn_user_process-Sound platform (some 1) (user_init 0x3000) 0x202 with_parent
      with_parent-Sound)

pub family_current : current_process_id family ≡ done (some 1)
unfolding current_process_id spawn_user_process can_create new_with_stdio alloc File.ensure_slots
    create Process.ensure_slots get new_user
family_current = refl

abbrev state_is_zombie : Option Process → Bool
state_is_zombie none = false
state_is_zombie (some p) = is_zombie p.state

family_runs : state_is_zombie (get family.processes 1) ≡ false
unfolding spawn_user_process get can_create new_with_stdio alloc File.ensure_slots create
    Process.ensure_slots put
family_runs = refl

pub family-CurrentRuns : CurrentRuns family
family-CurrentRuns pid p c e =
    let same : 1 ≡ pid = ground (arith, family_current, c) in
    sym (ap state_is_zombie (rw (← same) at e)) ∙ family_runs
