-- ===== src/Tests/Rest.antt =====
-- A run of the machine after which no task is left: the kernel goes back to `run` of scheduler.rs.
use vlad_os.Base.{get_elem?, done, Yields, ◌≡◌, refl, Bool, true, false, none, some}
use vlad_os.Task.{new_kernel}
use vlad_os.Scheduler.{K, Resume, to_main}
use vlad_os.Scheduler.Spawn.{spawn}
use vlad_os.Scheduler.Schedule.{
  run, prepare_to_run, first_ready, finish_current_task, next_ready_after, load_level_4,
  run_next_or_leave, leave,
}
use vlad_os.Scheduler.Wired.Switch.{Wired-Idle}
use vlad_os.Scheduler.Wired.Rest.{Rests, run_next_or_leave-Rests}
use vlad_os.Interrupts.{Cpu}
use vlad_os.Interrupts.Steps.{
  spawn_task, run_tasks, task_returns, handle, step, Reachable, start, further,
}
use vlad_os.Interrupts.Steps.Safety.{Reachable-Safe}
use vlad_os.Tests.Machine.{machine, mapped_memory, platform, zero_frames, machine-AddressLaws}
use vlad_os.Tests.Steps.{no_faults, state_after, at_boot, first_task}

-- A kernel task starts, runs, and returns from its entry.
abbrev one_task : Cpu
one_task = state_after (handle machine platform (spawn_task 0x9000 0x202) at_boot) at_boot

abbrev running_task : Cpu
running_task = state_after (handle machine platform (run_tasks 0x6000) one_task) one_task

abbrev task_ended : Cpu
task_ended = state_after (handle machine platform task_returns running_task) running_task

one_task-step : handle machine platform (spawn_task 0x9000 0x202) at_boot ≡ done one_task
unfolding handle
one_task-step = refl

running_task-step : handle machine platform (run_tasks 0x6000) one_task ≡ done running_task
unfolding handle spawn new_kernel run prepare_to_run first_ready
running_task-step = refl

task_ended-step : handle machine platform task_returns running_task ≡ done task_ended
unfolding handle spawn new_kernel run prepare_to_run first_ready finish_current_task
    next_ready_after
task_ended-step = refl

task_ended-Reachable : Reachable machine platform task_ended
unfolding handle spawn new_kernel run prepare_to_run first_ready
task_ended-Reachable =
    further
      (further
        (further (start mapped_memory zero_frames 0x1000 0x8000 0 no_faults)
          (step (spawn_task 0x9000 0x202) tt one_task-step))
        (step (run_tasks 0x6000) refl running_task-step))
      (step task_returns refl task_ended-step)

task_ended_rests : task_ended.kernel.current ≡ none
unfolding handle spawn new_kernel run prepare_to_run first_ready finish_current_task
    next_ready_after load_level_4
task_ended_rests = refl

task_ended_first : get_elem? task_ended.kernel.tasks 0 ≡ some (first_task task_ended.kernel.tasks)
unfolding handle spawn new_kernel run prepare_to_run first_ready finish_current_task
    next_ready_after load_level_4
task_ended_first = refl

abbrev goes_to_main : K Resume → Bool
goes_to_main (done (to_main, k)) = true
goes_to_main _ = false

-- Then the kernel goes back to `run`.
back_in_run : goes_to_main (run_next_or_leave 0 task_ended.kernel) ≡ true
unfolding handle spawn new_kernel run prepare_to_run first_ready finish_current_task
    next_ready_after load_level_4 run_next_or_leave leave
back_in_run = refl

run_next_or_leave-Rests_example : Yields Rests (run_next_or_leave 0 task_ended.kernel)
run_next_or_leave-Rests_example =
    run_next_or_leave-Rests 0 task_ended.kernel
      (Wired-Idle task_ended.kernel task_ended_rests
        (Reachable-Safe machine machine-AddressLaws platform task_ended-Reachable).1)
      task_ended_first
