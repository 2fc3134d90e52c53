-- ===== src/Start.antt =====
-- `disastrOS_start` of disastrOS.c: the pools, the lists and the first process.
pub mod Pools
pub mod Ready
pub mod Boots
use disastros_msg_queues.Base.{[], if◌then◌else◌, Option, none, some, Run, ok, ◌>>=◌, Ptr, null}
use disastros_msg_queues.Os.{ProcessStatus, entry, Os, set_pcb}
use disastros_msg_queues.Process.{alloc}
use disastros_msg_queues.Start.Pools.{
  Layout, pcb_init, timer_init, resource_init, descriptor_init, message_queue_init, message_init,
}

unfoldable pub init_pools : Layout → Os → Run Os
init_pools l os = do
  os ← pcb_init l os
  os ← timer_init l os
  os ← resource_init l os
  os ← descriptor_init l os
  os ← message_queue_init l os
  message_init l os

-- No process and empty lists.
abbrev pub init_lists : Os → Os
init_lists os = record os {
  init_pcb = null;
  running = null;
  ready_list = [];
  waiting_list = [];
  zombie_list = [];
  resources_list = [];
  timer_list = [];
  mq_list = [];
}

-- The first process runs, and is the one that adopts orphans.
unfoldable pub start_first : Os → (f f_args : Ptr) → Run Os
unfolding alloc
start_first os f f_args = do
  (p, os) ← alloc os
  let first = record (os.pcbs p) { status = ProcessStatus.running; cpu_state = entry f f_args }
  ok (record (set_pcb os p first) { running = p; init_pcb = p })

-- `disastrOS_start` up to the switch to the first process, or no state where the program exits.
unfoldable pub start : Layout → Os → (f f_args : Ptr) → Run (Option Os)
start l os f f_args = do
  os ← init_pools l os
  let os = init_lists os
  if os.shutdown_now then ok none else (do os ← start_first os f f_args; ok (some os))
