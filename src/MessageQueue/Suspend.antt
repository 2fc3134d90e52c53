-- ===== src/MessageQueue/Suspend.antt =====
-- How a process is put to wait at a queue, in one equation.
use disastros_msg_queues.Base.{
  ◌≡◌, ◌≢◌, refl, List, [], ◌∷◌, ◌++◌, ◌∉◌, ok, fault, null_dereference, Ptr, null, is_null-ne,
  update,
}
use disastros_msg_queues.PoolAllocator.{PoolAllocator, get_block}
use disastros_msg_queues.Sequence.{detach_first}
use disastros_msg_queues.Os.{ProcessStatus, Os, Pcb, MessageQueue}
use disastros_msg_queues.MessageQueue.Write.{suspend_writer}
use disastros_msg_queues.MessageQueue.Read.{suspend_reader}
use disastros_msg_queues.MessageQueue.Wake.{insert_last-new}

-- The old process waits, the next one runs.
abbrev pub switched : (Ptr → Pcb) → (old next : Ptr) → Ptr → Pcb
switched pcbs old next =
    let waits = update pcbs old (record (pcbs old) { status = ProcessStatus.waiting }) in
    update waits next (record (waits next) { status = ProcessStatus.running })

-- The state once the running process waits at the queue `q`, which is `mq` now, behind the item `p`.
abbrev pub suspended :
    Os
    → (q : Ptr) (mq : MessageQueue) (p : Ptr) (b : PoolAllocator) (next : Ptr) (rest : List Ptr)
    → Os
suspended os q mq p b next rest = record os {
  running = next;
  ready_list = rest;
  waiting_list = os.waiting_list ++ os.running ∷ [];
  pcbs = switched os.pcbs os.running next;
  pcb_ptrs = update os.pcb_ptrs p os.running;
  mqs = update os.mqs q mq;
  pcb_ptr_allocator = b;
}

module _ (os : Os) (q p : Ptr) (b : PoolAllocator) (next : Ptr) (rest : List Ptr)
    (exists : os.running ≢ null) (not_waiting : os.running ∉ os.waiting_list)
    (block : get_block os.pcb_ptr_allocator ≡ ok (p, b)) (ne : p ≢ null)
    (head : os.ready_list ≡ next ∷ rest) where
  pub suspend_writer-ok :
      p ∉ (os.mqs q).waiting_to_write
      → suspend_writer os q
        ≡ ok (
            suspended os q
              (record (os.mqs q) { waiting_to_write = (os.mqs q).waiting_to_write ++ p ∷ [] })
              p
              b
              next
              rest)
  unfolding suspend_writer detach_first
  suspend_writer-ok new =
      rw (insert_last-new os.waiting_list os.running exists not_waiting, block)
        (rw (is_null-ne p _ _ ne, insert_last-new (os.mqs q).waiting_to_write p ne new, head) refl)

  pub suspend_reader-ok :
      q ≢ null
      → p ∉ (os.mqs q).waiting_to_read
      → suspend_reader os q
        ≡ ok (
            suspended os q
              (record (os.mqs q) { waiting_to_read = (os.mqs q).waiting_to_read ++ p ∷ [] })
              p
              b
              next
              rest)
  unfolding suspend_reader detach_first
  suspend_reader-ok found new =
      rw
        (
          insert_last-new os.waiting_list os.running exists not_waiting,
          is_null-ne q _ _ found,
          block,
        )
        (rw (is_null-ne p _ _ ne, insert_last-new (os.mqs q).waiting_to_read p ne new, head) refl)

-- A reader of a queue that is not there: the handler reads through the null pointer.
pub suspend_reader-null :
    (os : Os)
    → os.running ≢ null
    → os.running ∉ os.waiting_list
    → suspend_reader os null ≡ fault null_dereference
unfolding suspend_reader
suspend_reader-null os exists not_waiting =
    rw (insert_last-new os.waiting_list os.running exists not_waiting)
