-- ===== src/Schedule.antt =====
-- disastrOS_schedule.c: timers that have elapsed wake their processes, and the next process runs.
pub mod Due
pub mod WakeTimers
pub mod Turn
pub mod Schedules
pub mod Sleeps
use disastros_msg_queues.Base.{
  ℕ, List, [], ◌∷◌, if◌then◌else◌, ℤ, pos, ltb_ℤ, ◌+ℤ◌, wrap, Run, ok, ◌>>=◌, Ptr, null, is_null,
  update, true,
}
use disastros_msg_queues.Sequence.{insert_last, insert_after, detach}
use disastros_msg_queues.Os.{ProcessStatus, Os, valid, set_pcb, set_status}
use disastros_msg_queues.Timer

-- One round of the loop: the process of the item `t` becomes ready behind `previous_pcb`, in front
-- for null, and the first item is taken off the list and freed.
unfoldable pub wake_timer : Os → (previous_pcb t : Ptr) → Run Os
unfolding Timer.remove_current
wake_timer os previous_pcb t = do
  pcb_to_wake ← valid (os.timer_items t).pcb
  waiting ← detach os.waiting_list pcb_to_wake
  let os =
      set_pcb os pcb_to_wake
        (record (os.pcbs pcb_to_wake) { status = ProcessStatus.ready; timer = null })
  ready ← insert_after os.ready_list previous_pcb pcb_to_wake
  Timer.remove_current (record os { waiting_list = waiting; ready_list = ready })

-- while (elapsed_timer = TimerList_current(…)), over the items of the list
unfoldable pub wake_timers : Os → (previous_pcb : Ptr) → List Ptr → Run Os
unfolding wake_timer
wake_timers os previous_pcb [] = ok os
wake_timers os previous_pcb (t ∷ ts) =
    let pcb_to_wake = (os.timer_items t).pcb in
    if ltb_ℤ os.disastros_time (os.timer_items t).awakening_time
    then ok os
    else (do os ← wake_timer os previous_pcb t; wake_timers os pcb_to_wake ts)

-- The running process goes to the end of the ready list, and the first one runs; without a ready
-- process nothing changes.
unfoldable pub rotate : Os → List Ptr → Run Os
rotate os [] = ok os
rotate os (next_process ∷ rest) = do
  _ ← valid os.running
  let os = set_status os os.running ProcessStatus.ready
  ready ← insert_last rest os.running
  let os = set_status os next_process ProcessStatus.running
  ok (record os { ready_list = ready; running = next_process })

-- `internal_schedule`
unfoldable pub schedule : Os → Run Os
unfolding wake_timers rotate
schedule os = do os ← wake_timers os null os.timer_list; rotate os os.ready_list

-- `internal_preempt`
unfoldable pub preempt : Os → Run Os
preempt os = schedule os

-- `timerInterrupt`: the clock ticks. The process that runs then is read.
unfoldable pub timer_interrupt : Os → Run Os
unfolding schedule
timer_interrupt os = do
  os ← schedule (record os { disastros_time = wrap (os.disastros_time +ℤ pos 1) })
  _ ← valid os.running
  ok os

-- `internal_shutdown`
unfoldable pub shutdown : Os → Os
shutdown os = record os { shutdown_now = true }
