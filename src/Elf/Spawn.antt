-- ===== src/Elf/Spawn.antt =====
-- scheduler.rs: starting a process from an image.
use vlad_os.Base.{
  Result, ok, err, done, panic, map_err, Returns, ℕ, refl, ◌⊎◌, inl, inr, Option, List,
}
use vlad_os.Memory.{X86, Memory, AddressLaws}
use vlad_os.Process.Follows.{Follows-refl}
use vlad_os.Task.{Platform}
use vlad_os.Scheduler.{Kernel, K, ◌>>>◌}
use vlad_os.Scheduler.Sound.{Sound, Ensures}
use vlad_os.Scheduler.Wired.{Wired, Wired-Steady, Leaves}
use vlad_os.Scheduler.Exit.Total.{same-Steady}
use vlad_os.Scheduler.Spawn.{UserTaskInit, SpawnError, UserProcessHandle, spawn_user_process}
use vlad_os.Scheduler.Spawn.Account.{spawn_user_process-Sound}
use vlad_os.Scheduler.Spawn.Total.{spawn_user_process-Wired}
use vlad_os.Elf.{ElfLoadError}
use vlad_os.Elf.Load.{Load, load_user_elf}
use vlad_os.Elf.Total.{load_user_elf-Returns}
use vlad_os.Elf.Start.{Starts, load_user_elf-Starts}

-- Behind the load: a process is started with what it gives.
abbrev spawn_loaded :
    Platform
    → Option ℕ
    → ℕ
    → Kernel
    → Load UserTaskInit
    → K (Result (ElfLoadError ⊎ SpawnError) UserProcessHandle)
spawn_loaded p parent initial_rflags k panic = panic
spawn_loaded p parent initial_rflags k (done (err e, m)) =
    done (err (inl e), record k { memory = m })
spawn_loaded p parent initial_rflags k (done (ok init, m)) =
    spawn_user_process p parent init initial_rflags (record k { memory = m }) >>> λ r k'.
    done (map_err inr r, k')

-- `spawn_user_elf_process_with_arg`, and `spawn_child_user_elf_process_with_arg` with a parent.
unfoldable pub spawn_user_elf_process_with_arg :
    X86
    → Platform
    → Option ℕ
    → List ℕ
    → ℕ
    → ℕ
    → Kernel
    → K (Result (ElfLoadError ⊎ SpawnError) UserProcessHandle)
spawn_user_elf_process_with_arg x p parent elf_bytes arg0 initial_rflags k =
    spawn_loaded p parent initial_rflags k (load_user_elf x elf_bytes arg0 k.memory)

-- With `AddressLaws`: in a kernel where tasks and processes fit together and each open file has as
-- many references as descriptors refer to it, starting a process from an image, whatever its bytes, does not panic and leaves such a
-- kernel, also where the image is refused or the process cannot be started.
pub spawn_user_elf-Keeps :
    (x : X86)
    → AddressLaws x
    → (p : Platform) (parent : Option ℕ) (elf_bytes : List ℕ) (arg0 initial_rflags : ℕ) (k : Kernel)
    → Sound k
    → Wired k
    → Leaves
        (λ k'. Sound k' × Wired k')
        (spawn_user_elf_process_with_arg x p parent elf_bytes arg0 initial_rflags k)
unfolding spawn_user_elf_process_with_arg
spawn_user_elf-Keeps x laws p parent elf_bytes arg0 initial_rflags k s w =
    loaded (load_user_elf x elf_bytes arg0 k.memory)
      (load_user_elf-Returns x laws elf_bytes arg0 k.memory)
      (load_user_elf-Starts x elf_bytes arg0 k.memory)
  where
    with_memory : (m : Memory) → Wired (record k { memory = m })
    with_memory m =
        Wired-Steady (same-Steady k (record k { memory = m }) refl refl (Follows-refl k.processes))
          w

    renamed :
        (m : K (Result SpawnError UserProcessHandle))
        → Ensures Sound m
        → Leaves Wired m
        → Leaves
            (λ k'. Sound k' × Wired k')
            (m >>> λ r k'.
              done (map_err {E = SpawnError} {F = ElfLoadError ⊎ SpawnError} inr r, k'))
    renamed (done (r, k')) h g = (h, g)
    renamed panic h g = g

    loaded :
        (load : Load UserTaskInit)
        → Returns load
        → Starts x elf_bytes arg0 load
        → Leaves (λ k'. Sound k' × Wired k') (spawn_loaded p parent initial_rflags k load)
    loaded panic r h = r
    loaded (done (err e, m)) r h = (s, with_memory m)
    loaded (done (ok init, m)) r (image, parsed, fits, empty, above, at, argument) =
        renamed _
          (spawn_user_process-Sound p parent init initial_rflags (record k { memory = m }) s)
          (spawn_user_process-Wired p parent init initial_rflags (record k { memory = m }) s.valid
            fits (with_memory m))
