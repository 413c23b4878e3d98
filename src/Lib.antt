-- ===== src/Lib.antt =====
-- vladOS: a model of the kernel and what is shown of it.
--
-- The kernel runs user processes that are loaded from static ELF images. A process has an address
-- space, a heap, a table of descriptors and one task; a child is started under its parent. The
-- scheduler switches tasks at timer interrupts and system calls. An interrupt leaves a trap frame on
-- a kernel stack and calls a handler with its address, which returns the address to resume from.
--
-- Which file models which part:
--   * Base: lists, options, `Result`, and `Exec`, a computation that may panic (an `expect`, an index
--     out of bounds). Words: checked addition, page alignment and little-endian bytes.
--   * File: src/file.rs, the table of open files with their reference counts, and the embedded files.
--   * Fd: src/fd.rs, the descriptors of a process, which hold references on open files.
--   * Process: src/process.rs. Process is the table, with `create`, `mark_exited`, `reap_child` and
--     `reap_orphan_if_zombie`; Process/Status the exits and `waitpid`'s status; Process/Heap the heap.
--   * Task: src/task.rs and the first trap frames of src/arch/x86_64/context.rs.
--   * Memory: src/memory.rs, the frame allocator, and `X86`, the functions of the x86_64 crate.
--   * AddressSpace, AddressSpace/Copy: src/address_space.rs. UserMemory: src/user_memory.rs.
--   * Elf: the parser of src/elf.rs. Elf/Load: the load of an image, with the parts of src/user.rs
--     that it uses. Elf/Spawn: the functions of src/scheduler.rs that start a process from an image.
--   * Syscall: the numbers of src/syscall.rs. Scheduler/Dispatch: its `dispatch`.
--   * Scheduler: src/scheduler.rs. `Kernel` is the state of `Scheduler` with the parts of the machine
--     that it drives: memory, frames, CR3, the kernel stack of the TSS and the serial output.
--     Scheduler/Schedule has the switches of tasks, Scheduler/Spawn the start of tasks and processes,
--     Scheduler/Exit the end of a task and the wake-up of its parent, Scheduler/Wait `waitpid`,
--     Scheduler/Files open, read, write and close, Scheduler/Brk the program break, and
--     Scheduler/Queries the functions that tell of the kernel's state.
--     Scheduler/Sound ties descriptors to open files; Scheduler/Wired ties tasks to processes, and the
--     current task to the one that runs. The modules named Total carry this through the handlers.
--   * Interrupts: the handlers of src/interrupts.rs. Interrupts/Gates: the entries that
--     `init_idt` sets. Interrupts/Steps: the kernel as a machine whose steps are
--     interrupts, faults, starts of tasks and processes, `run`, the return of a kernel task, and what
--     programs do in between. Handlers run with interrupts off, so one step is one handler.
--   * User: the layout of a built-in program, src/user.rs.
--   * VgaBuffer: the writer of src/vga_buffer.rs, with the memory of the screen.
--   * Tests: concrete inputs.
--
-- A handler takes the state and returns a panic or its result with the state that it leaves: `K A`.
-- What a mutable reference writes is returned. Words of 64 bits are natural numbers, with the checks
-- and the wrap-around of the source written out. The `x86_64` crate is the parameter `X86`: addresses,
-- flags, entries, and the mapper. Where a task's stack lies and which segment selectors it gets is the
-- parameter `Platform`. A process's address space is its level-4 frame. What the crate documents and
-- theorems rely on is a hypothesis of theirs: `AddressLaws` (`VirtAddr::new` keeps an address of the
-- lower half, and what it has returned), `PageLaws` (pages and frames are aligned), `FrameLaw` (the frame
-- of an address is its page) and `FlagLaws`.
--
-- Loops over memory run on fuel. The loops over bytes get one more than the bytes, and each round
-- takes one or more of them; the loops over pages get one more than the pages of their range;
-- `next_ready_after` takes as many rounds as there are tasks; the loops over ELF headers, children
-- and descriptors are recursions on what they go through.
--
-- Not modelled: the assembly entry points, the code of the built-in programs, the exceptions that
-- only print, the segment tables, the set-up of the PIC and the PIT through ports, the serial port, the global
-- allocator and the boot sequence, which are set-up through crates or output only; and build.rs,
-- which writes test images.
pub mod Base
pub mod File
pub mod Fd
pub mod Words
pub mod Process
pub mod Memory
pub mod AddressSpace
pub mod UserMemory
pub mod Syscall
pub mod Task
pub mod Scheduler
pub mod User
pub mod Interrupts
pub mod VgaBuffer
pub mod Elf
pub mod Tests
