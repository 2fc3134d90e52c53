-- ===== src/MessageQueue/Write.antt =====
-- disastrOS_write_mq.c: a process writes a message to a queue.
use disastros_msg_queues.Base.{
  List, [], ◌∷◌, if◌then◌else◌, ℤ, pos, negsuc, pos_part, ltb_ℤ, eqb_ℤ, ◌+ℤ◌, Run, ok, ◌>>=◌, Ptr,
  is_null,
}
use disastros_msg_queues.Sequence.{insert_last, detach}
use disastros_msg_queues.Os.{ProcessStatus, Os, valid, set_pcb, set_mq}
use disastros_msg_queues.Process.{ptr_alloc, arg, return_value, put_to_wait, run_next}
use disastros_msg_queues.MessageQueue.{max_len_message, max_num_messages, by_id, message_alloc}

-- DSOS_ERESOURCENOFD, and the codes that the handlers write as numbers.
abbrev pub no_fd : ℤ
no_fd = negsuc 10

abbrev pub too_long : ℤ
too_long = negsuc 145

abbrev pub woken : ℤ
woken = negsuc 19

-- The queue is full: the running process waits to write, and the next one runs.
unfoldable pub suspend_writer : Os → Ptr → Run Os
unfolding put_to_wait ptr_alloc run_next
suspend_writer os q = do
  os ← put_to_wait os
  (p, os) ← ptr_alloc os os.running
  l ← insert_last (os.mqs q).waiting_to_write p
  run_next (set_mq os q (record (os.mqs q) { waiting_to_write = l }))

-- One round of the loop: the reader behind the item `w` becomes ready. The item is not freed.
unfoldable pub wake_reader : Os → Ptr → Run Os
wake_reader os w = do
  w ← valid w
  let reader = os.pcb_ptrs w
  waiting ← detach os.waiting_list reader
  let os =
      set_pcb os reader
        (record (os.pcbs reader) { status = ProcessStatus.ready; syscall_retvalue = woken })
  ready ← insert_last os.ready_list reader
  ok (record os { waiting_list = waiting; ready_list = ready })

-- while (mq->waiting_to_read.size > 0): each round takes the first item off the list.
unfoldable pub wake_readers : Os → Ptr → List Ptr → Run Os
unfolding wake_reader
wake_readers os q [] = ok os
wake_readers os q (w ∷ ws) = do
  os ← wake_reader (set_mq os q (record (os.mqs q) { waiting_to_read = ws })) w
  wake_readers os q ws

-- The message goes to the end of the queue, all readers are woken, and the writer gets the length.
unfoldable pub deliver : Os → Ptr → (write_buffer : Ptr) (message_length : ℤ) → Run Os
unfolding message_alloc wake_readers
deliver os q write_buffer message_length = do
  (message, os) ← message_alloc os write_buffer message_length
  l ← insert_last (os.mqs q).messages message
  let os = set_mq os q (record (os.mqs q) { messages = l })
  os ← wake_readers os q (os.mqs q).waiting_to_read
  let os = set_mq os q (record (os.mqs q) { num_written = (os.mqs q).num_written +ℤ pos 1 })
  ok (return_value os message_length)

unfoldable pub write_to : Os → Ptr → (write_buffer : Ptr) (message_length : ℤ) → Run Os
unfolding suspend_writer deliver
write_to os q write_buffer message_length =
    if is_null q
    then ok (return_value os no_fd)
    else if eqb_ℤ (os.mqs q).num_written (pos max_num_messages)
    then suspend_writer os q
    else deliver os q write_buffer message_length

-- `internal_MessageQueue_write`
unfoldable pub write : Os → Run Os
unfolding write_to by_id
write os = do
  _ ← valid os.running
  let id = arg os 0
  let write_buffer = pos_part (arg os 1)
  let message_length = arg os 2
  if ltb_ℤ (pos max_len_message) message_length
      then ok (return_value os too_long)
      else write_to os (by_id os os.mq_list id) write_buffer message_length
