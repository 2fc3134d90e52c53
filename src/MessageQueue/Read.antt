-- ===== src/MessageQueue/Read.antt =====
-- disastrOS_read_mq.c: a process reads the first message of a queue.
use disastros_msg_queues.Base.{
  List, [], ◌∷◌, if◌then◌else◌, ℤ, pos, negsuc, pos_part, ltb_ℤ, ◌-ℤ◌, Run, ok, fault,
  failed_assert, ◌>>=◌, Ptr, is_null,
}
use disastros_msg_queues.PoolAllocator.{success}
use disastros_msg_queues.Sequence.{insert_last, detach}
use disastros_msg_queues.Os.{ProcessStatus, Os, valid, set_pcb, set_mq}
use disastros_msg_queues.Process.{ptr_alloc, ptr_free, arg, return_value, put_to_wait, run_next}
use disastros_msg_queues.MessageQueue.{by_id, readable, copy}
use disastros_msg_queues.MessageQueue.Write.{woken}

abbrev pub short_buffer : ℤ
short_buffer = negsuc 14

-- The queue is empty: the running process waits to read, and the next one runs.
unfoldable pub suspend_reader : Os → Ptr → Run Os
unfolding put_to_wait ptr_alloc run_next
suspend_reader os mq = do
  os ← put_to_wait os
  q ← valid mq
  (p, os) ← ptr_alloc os os.running
  l ← insert_last (os.mqs q).waiting_to_read p
  run_next (set_mq os q (record (os.mqs q) { waiting_to_read = l }))

-- One round of the loop: the writer behind the item `w` becomes ready, and the item is freed. The
-- assertion is that the result is not negative.
unfoldable pub wake_writer : Os → Ptr → Run Os
unfolding ptr_free
wake_writer os w = do
  w ← valid w
  let writer = os.pcb_ptrs w
  waiting ← detach os.waiting_list writer
  let os =
      set_pcb os writer
        (record (os.pcbs writer) { status = ProcessStatus.ready; syscall_retvalue = woken })
  ready ← insert_last os.ready_list writer
  (r, os) ← ptr_free (record os { waiting_list = waiting; ready_list = ready }) w
  elim r [ success ↦ ok os | _ ↦ fault failed_assert ]

-- while (mq->waiting_to_write.size > 0): each round takes the first item off the list.
unfoldable pub wake_writers : Os → Ptr → List Ptr → Run Os
unfolding wake_writer
wake_writers os q [] = ok os
wake_writers os q (w ∷ ws) = do
  os ← wake_writer (set_mq os q (record (os.mqs q) { waiting_to_write = ws })) w
  wake_writers os q ws

-- The first message is taken off the queue, all writers are woken, and its bytes are copied out.
unfoldable pub receive : Os → Ptr → (first_message : Ptr) (rest : List Ptr) (buf : Ptr) → Run Os
unfolding wake_writers copy
receive os q first_message rest buf = do
  let os = set_mq os q (record (os.mqs q) { messages = rest })
  os ← wake_writers os q (os.mqs q).waiting_to_write
  let m = os.messages first_message
  buf ← readable m.length buf
  let os = record os { bytes = copy (pos_part m.length) 0 m.message buf os.bytes }
  let os = set_mq os q (record (os.mqs q) { num_written = (os.mqs q).num_written -ℤ pos 1 })
  ok (return_value os m.length)

unfoldable pub read_from : Os → Ptr → List Ptr → (buf : Ptr) (buf_length : ℤ) → Run Os
unfolding suspend_reader receive
read_from os q [] buf buf_length = suspend_reader os q
read_from os q (m ∷ rest) buf buf_length =
    if ltb_ℤ buf_length (os.messages m).length
    then ok (return_value os short_buffer)
    else receive os q m rest buf

-- `internal_MessageQueue_read`; a queue that is not there has no first message
unfoldable pub read : Os → Run Os
unfolding read_from by_id
read os = do
  _ ← valid os.running
  let q = by_id os os.mq_list (arg os 0)
  read_from os q (if is_null q then [] else (os.mqs q).messages) (pos_part (arg os 1)) (arg os 2)
