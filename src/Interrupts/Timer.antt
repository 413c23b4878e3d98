-- ===== src/Interrupts/Timer.antt =====
-- interrupts.rs: what a tick of the timer does.
use vlad_os.Base.{
  Bool-cases, is_some, done, panic, and_then, Yields, ℕ, ◌+◌, ◌%◌, ◌≡◌, refl, inl, inr, Bool, true,
  false, ◌&&◌, [], ◌∷◌, ◌++◌,
}
use vlad_os.Words.{u64_mod}
use vlad_os.Scheduler.{K, Resume, resume}
use vlad_os.Scheduler.Schedule.{on_timer_interrupt, switch_from_interrupt}
use vlad_os.Scheduler.Wired.{Wired, Leaves}
use vlad_os.Scheduler.Wired.Switch.{switch_from_interrupt-Wired}
use vlad_os.Interrupts.{pic_1_offset, as_u8, Cpu, Outcome, returns, in_kernel, timer_interrupt_rust}

-- Without preemption, or without a current task, the interrupted code goes on in the same kernel.
abbrev GoesOn : Bool → ℕ → Cpu → Outcome × Cpu → Type 0
GoesOn true frame_rsp c o = Unit
GoesOn false frame_rsp c (next, c') = (next ≡ returns (resume frame_rsp)) × (c'.kernel ≡ c.kernel)

-- The tick is counted and acknowledged, and the kernel stays wired.
abbrev pub Ticks : ℕ → Cpu → Outcome × Cpu → Type 0
Ticks frame_rsp c (next, c') =
    (c'.timer_ticks ≡ (c.timer_ticks + 1) % u64_mod)
    × (c'.acknowledged ≡ c.acknowledged ++ (pic_1_offset ∷ []))
    × Wired c'.kernel
    × GoesOn (c.kernel.preemption_enabled && is_some c.kernel.current) frame_rsp c (next, c')

-- In a kernel where the tasks and processes fit together a timer interrupt does not panic, and
-- leaves such a kernel. The tick is counted, modulo 2 ^ 64, and acknowledged once. Without
-- preemption, or without a current task, the interrupted code goes on in the kernel as it was.
pub timer_interrupt_rust-Ticks :
    (frame_rsp : ℕ) (c : Cpu)
    → Wired c.kernel
    → Yields (Ticks frame_rsp c) (timer_interrupt_rust frame_rsp c)
unfolding timer_interrupt_rust as_u8 on_timer_interrupt
timer_interrupt_rust-Ticks frame_rsp c w =
    elim (Bool-cases (c.kernel.preemption_enabled && is_some c.kernel.current)) [
      | inl b ↦
          rw (timer_interrupt_rust, on_timer_interrupt, b)
            (switched b (switch_from_interrupt frame_rsp c.kernel)
              (switch_from_interrupt-Wired frame_rsp c.kernel w))
      | inr b ↦ rw (timer_interrupt_rust, on_timer_interrupt, b) (refl, refl, w, rw b (refl, refl))
    ]
  where
    switched :
        (c.kernel.preemption_enabled && is_some c.kernel.current) ≡ true
        → (m : K Resume) → Leaves Wired m
        → Yields (Ticks frame_rsp c) (
            and_then (in_kernel (record c { timer_ticks = (c.timer_ticks + 1) % u64_mod }) m) λ r.
              let (next, c') = r in
              done (next, record c' { acknowledged = c'.acknowledged ++ (pic_1_offset ∷ []) }))
    switched b (done (next, k)) h = (refl, refl, h, rw b tt)
    switched b panic h = elim h [ ]
