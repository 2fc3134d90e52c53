-- ===== src/Wait.antt =====
-- disastrOS_wait.c: a process waits for the end of a child.
pub mod Awaited
pub mod Ended
pub mod Reaps
use disastros_msg_queues.Base.{
  List, [], ◌∷◌, Bool, true, false, ◌&&◌, not, if◌then◌else◌, ℤ, pos, pos_part, negsuc, eqb_ℤ,
  ltb_ℤ, Run, ok, ◌>>=◌, Ptr, null, is_null, update,
}
use disastros_msg_queues.Sequence.{detach}
use disastros_msg_queues.Os.{
  ProcessStatus, invalid, created, running, ready, waiting, suspended, zombie, Os, valid, set_pcb,
}
use disastros_msg_queues.Process
use disastros_msg_queues.Process.{arg, return_value, put_to_wait, next_ready, ptr_free}

abbrev pub is_zombie : ProcessStatus → Bool
is_zombie invalid = false
is_zombie created = false
is_zombie running = false
is_zombie ready = false
is_zombie waiting = false
is_zombie suspended = false
is_zombie zombie = true

-- DSOS_EWAIT
abbrev pub wait_error : ℤ
wait_error = negsuc 4

-- The scan stops at the first zombie for pid 0, and at the first child with the pid otherwise. The
-- item `last` is where it stands; at the end of the list it stays at the last child.
unfoldable pub awaited : Os → (pid_to_wait : ℤ) (last : Ptr) → List Ptr → Run Ptr
awaited os pid_to_wait last [] = ok last
awaited os pid_to_wait last (aux ∷ rest) = do
  p ← valid (os.pcb_ptrs aux)
  if eqb_ℤ pid_to_wait (pos 0)
      then if is_zombie (os.pcbs p).status then ok aux else awaited os pid_to_wait aux rest
      else if eqb_ℤ (pos (os.pcbs p).pid) pid_to_wait
      then ok aux
      else awaited os pid_to_wait aux rest

-- `*result = v` for a pointer that is not null
abbrev pub store_int : Os → (result : Ptr) → ℤ → Os
store_int os result v = if is_null result then os else record os { ints = update os.ints result v }

-- The child that ended is taken out of the lists, its value is handed over, and its blocks are freed.
unfoldable pub reap : Os → (awaited_pcb_ptr result : Ptr) → Run Os
unfolding ptr_free Process.free
reap os awaited_pcb_ptr result = do
  let awaited_pcb = os.pcb_ptrs awaited_pcb_ptr
  l ← detach (os.pcbs os.running).children awaited_pcb_ptr
  (_, os) ←
      ptr_free (set_pcb os os.running (record (os.pcbs os.running) { children = l }))
        awaited_pcb_ptr
  z ← detach os.zombie_list awaited_pcb
  let os = return_value (record os { zombie_list = z }) (pos (os.pcbs awaited_pcb).pid)
  let os = store_int os result (os.pcbs awaited_pcb).return_value
  (_, os) ← Process.free os awaited_pcb
  ok os

-- The process waits, and the first ready process runs with the status that it has.
unfoldable pub wait_on : Os → Run Os
unfolding put_to_wait next_ready
wait_on os = do
  os ← put_to_wait os
  (next_running, os) ← next_ready os
  ok (record os { running = next_running })

unfoldable pub wait_for : Os → (pid_to_wait : ℤ) (result : Ptr) → List Ptr → Run Os
unfolding awaited reap wait_on
wait_for os pid_to_wait result [] = ok (return_value os wait_error)
wait_for os pid_to_wait result (c ∷ cs) = do
  awaited_pcb_ptr ← awaited os pid_to_wait null (c ∷ cs)
  let awaited_pcb = os.pcb_ptrs awaited_pcb_ptr
  if ltb_ℤ (pos 0) pid_to_wait && is_null awaited_pcb
      then ok (return_value os wait_error)
      else if not (is_null awaited_pcb) && is_zombie (os.pcbs awaited_pcb).status
      then reap os awaited_pcb_ptr result
      else wait_on os

-- `internal_wait`
unfoldable pub wait : Os → Run Os
unfolding wait_for
wait os = do
  _ ← valid os.running
  wait_for os (arg os 0) (pos_part (arg os 1)) (os.pcbs os.running).children
