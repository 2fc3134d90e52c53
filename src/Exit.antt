-- ===== src/Exit.antt =====
-- disastrOS_exit.c: a process ends.
pub mod Reparent
pub mod Rounds
pub mod Ends
use Prim.Native.Nat.{bit_or, bit_and}
use disastros_msg_queues.Base.{
  ℕ, zero, suc, List, [], ◌∷◌, Bool, true, false, ◌&&◌, ◌||◌, if◌then◌else◌, ◌==◌, length, ℤ, pos,
  pos_part, eqb_ℤ, Run, ok, fault, failed_assert, out_of_rounds, ◌>>=◌, Ptr, null, is_null, update,
}
use disastros_msg_queues.Sequence.{insert_last, detach, detach_first}
use disastros_msg_queues.Os.{
  ProcessStatus, invalid, created, running, ready, waiting, suspended, zombie, Os, valid, set_pcb,
  set_mq, set_status,
}
use disastros_msg_queues.Process
use disastros_msg_queues.Process.{arg, ptr_by_pid, run_next}
use disastros_msg_queues.Descriptor
use disastros_msg_queues.Descriptor.{set_descriptors}
use disastros_msg_queues.Timer
use disastros_msg_queues.Wait.{store_int}

-- DSOS_SIGCHLD, DSOS_SIGHUP and DSOS_CALL_WAIT
abbrev pub sigchld : ℕ
sigchld = 1

abbrev pub sighup : ℕ
sighup = 2

abbrev pub call_wait : ℤ
call_wait = pos 3

-- `pcb->signals |= (signal & pcb->signals_mask)`
unfoldable pub send_signal : Os → (pcb : Ptr) (signal : ℕ) → Os
send_signal os pcb signal = set_pcb os pcb (record (os.pcbs pcb) {
  signals = bit_or (os.pcbs pcb).signals (bit_and signal (os.pcbs pcb).signals_mask);
})

-- The first child of the running process becomes the last of init's, and gets SIGHUP.
unfoldable pub reparent : Os → (item : Ptr) (rest : List Ptr) → Run Os
unfolding send_signal
reparent os item rest = do
  let os = set_pcb os os.running (record (os.pcbs os.running) { children = rest })
  l ← insert_last (os.pcbs os.init_pcb).children item
  let os = set_pcb os os.init_pcb (record (os.pcbs os.init_pcb) { children = l })
  pcb ← valid (os.pcb_ptrs item)
  ok (send_signal os pcb sighup)

-- while (running->children.first), with the rounds left
unfoldable pub reparent_all : (rounds : ℕ) → Os → List Ptr → Run Os
unfolding reparent
reparent_all rounds os [] = ok os
reparent_all zero os (item ∷ rest) = fault out_of_rounds
reparent_all (suc rounds) os (item ∷ rest) = do
  os ← reparent os item rest
  reparent_all rounds os (os.pcbs os.running).children

abbrev pub is_waiting : ProcessStatus → Bool
is_waiting invalid = false
is_waiting created = false
is_waiting running = false
is_waiting ready = false
is_waiting waiting = true
is_waiting suspended = false
is_waiting zombie = false

-- The parent called `wait` for any child, or for this one.
unfoldable pub is_awaited : Os → (parent : Ptr) → Bool
is_awaited os parent =
    is_waiting (os.pcbs parent).status
    && eqb_ℤ (os.pcbs parent).syscall_num call_wait
    && (eqb_ℤ ((os.pcbs parent).syscall_args 0) (pos 0)
        || eqb_ℤ ((os.pcbs parent).syscall_args 0) (pos (os.pcbs os.running).pid))

-- The loop over the list of timers: those of the running process are taken out and freed.
unfoldable pub release_timers : Os → List Ptr → Run Os
unfolding Timer.free
release_timers os [] = ok os
release_timers os (timer ∷ aux) =
    if (os.timer_items timer).pcb == os.running
    then (do
      l ← detach os.timer_list timer
      (_, os) ← Timer.free (record os { timer_list = l }) timer
      release_timers os aux)
    else release_timers os aux

-- while (running->descriptors.first): a descriptor that is not one of a queue is a fault.
unfoldable pub release_descriptors : Os → List Ptr → Run Os
unfolding Descriptor.free Descriptor.ptr_free
release_descriptors os [] = ok os
release_descriptors os (des ∷ rest) = do
  let os = set_descriptors os rest
  mq ← valid (os.descriptors des).mq
  let desptr = (os.descriptors des).ptr
  l ← detach (os.mqs mq).descriptors_ptrs desptr
  let os = set_mq os mq (record (os.mqs mq) { descriptors_ptrs = l })
  (_, os) ← Descriptor.ptr_free os desptr
  (_, os) ← Descriptor.free os des
  release_descriptors os rest

-- The parent gets the pid and the value, and runs; the process leaves nothing but its item in the
-- parent's list of children, which is detached and not freed.
unfoldable pub wake_parent : Os → (parent : Ptr) → Run Os
unfolding ptr_by_pid release_timers release_descriptors Process.free
wake_parent os parent = do
  w ← detach os.waiting_list parent
  let os = set_status (record os { waiting_list = w }) parent ProcessStatus.running
  let pid = (os.pcbs os.running).pid
  let self_in_parent = ptr_by_pid os (os.pcbs parent).children pid
  cs ← detach (os.pcbs parent).children self_in_parent
  let os = set_pcb os parent (record (os.pcbs parent) { children = cs; syscall_retvalue = pos pid })
  let result = pos_part ((os.pcbs parent).syscall_args 1)
  let os = store_int os result (os.pcbs os.running).return_value
  os ← release_timers os os.timer_list
  os ← release_descriptors os (os.pcbs os.running).descriptors
  z ← detach os.zombie_list os.running
  (_, os) ← Process.free (record os { zombie_list = z }) os.running
  ok (record os { running = parent })

-- `internal_exit`. The loop over the children is given a round for each child of the process.
unfoldable pub exit : Os → Run Os
unfolding reparent_all wake_parent is_awaited run_next send_signal
exit os = do
  _ ← valid os.running
  let os = set_pcb os os.running (record (os.pcbs os.running) { return_value = arg os 0 })
  let children = (os.pcbs os.running).children
  os ←
      if is_null os.init_pcb
      then fault failed_assert
      else reparent_all (length children) os children
  let os = set_status os os.running ProcessStatus.zombie
  z ← insert_last os.zombie_list os.running
  let os = record os { zombie_list = z }
  parent ← valid (os.pcbs os.running).parent
  let os = send_signal os parent sigchld
  if is_awaited os parent then wake_parent os parent else run_next os
