-- ===== src/Spawn.antt =====
-- disastrOS_spawn.c and disastrOS_fork.c: the running process creates a child.
pub mod Born
pub mod Fork
use disastros_msg_queues.Base.{pos, pos_part, Run, ok, ◌>>=◌, Ptr}
use disastros_msg_queues.Sequence.{insert_last}
use disastros_msg_queues.Os.{ProcessStatus, entry, Os, valid, set_pcb}
use disastros_msg_queues.Process.{alloc, ptr_alloc, arg, return_value}

-- `internal_fork`: the child is the last in the ready list, its pid is the result. An exhausted
-- allocator is a fault inside `alloc`, ahead of the test for null.
unfoldable pub new_child : Os → Run (Ptr × Os)
unfolding alloc ptr_alloc
new_child os = do
  _ ← valid os.running
  (new_pcb, os) ← alloc os
  let os =
      set_pcb os new_pcb
        (record (os.pcbs new_pcb) { status = ProcessStatus.ready; parent = os.running })
  (new_pcb_ptr, os) ← ptr_alloc os new_pcb
  cs ← insert_last (os.pcbs os.running).children new_pcb_ptr
  let os = set_pcb os os.running (record (os.pcbs os.running) { children = cs })
  l ← insert_last os.ready_list new_pcb
  ok (new_pcb, return_value (record os { ready_list = l }) (pos (os.pcbs new_pcb).pid))

unfoldable pub fork : Os → Run Os
unfolding new_child
fork os = do (_, os) ← new_child os; ok os

-- `internal_spawn`: as `fork`, and the child starts at the function with the argument.
unfoldable pub spawn : Os → Run Os
unfolding new_child
spawn os = do
  (new_pcb, os) ← new_child os
  let state = entry (pos_part (arg os 0)) (pos_part (arg os 1))
  ok (set_pcb os new_pcb (record (os.pcbs new_pcb) { cpu_state = state }))
