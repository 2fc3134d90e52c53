-- ===== src/MessageQueue/Invariant.antt =====
-- What holds of the message queues, the processes that wait at them and the scheduler's lists
-- between two system calls.
use disastros_msg_queues.Base.{
  ◌≡◌, ◌≢◌, ◌≤◌, ◌⊎◌, List, [], ◌++◌, length, ◌∈◌, ◌∉◌, Distinct, pos, pos_part, Ptr, null,
}
use disastros_msg_queues.PoolAllocator.{PoolAllocator}
use disastros_msg_queues.PoolAllocator.Live.{IsValid, Live}
use disastros_msg_queues.Os.{Os, MessageQueue, Message}
use disastros_msg_queues.MessageQueue.{max_len_message, max_num_messages}

-- The items of the processes that wait at a queue.
abbrev pub waiters : MessageQueue → List Ptr
waiters mq = mq.waiting_to_read ++ mq.waiting_to_write

-- Each message is an allocated object of at most 64 bytes.
abbrev pub IsStored : PoolAllocator → (Ptr → Message) → List Ptr → Type 0
IsStored a mem ms =
    (m : Ptr) → m ∈ ms → (m ≢ null) × Live a m × (pos_part (mem m).length ≤ max_len_message)

-- Each item is an allocated object whose process is on the waiting list.
abbrev pub IsWaiting : PoolAllocator → (Ptr → Ptr) → (waiting ws : List Ptr) → Type 0
IsWaiting a pcb_of waiting ws = (w : Ptr) → w ∈ ws → (w ≢ null) × Live a w × (pcb_of w ∈ waiting)

-- The counter is the number of messages, at most 256. Only an empty queue has readers that wait,
-- and only a full one has writers that wait.
pub record IsQueue (mq : MessageQueue) : Type 0 where
  pub counted : mq.num_written ≡ pos (length mq.messages)
  pub bounded : length mq.messages ≤ max_num_messages
  pub distinct : Distinct mq.messages
  pub readers : (mq.waiting_to_read ≡ []) ⊎ (mq.messages ≡ [])
  pub writers : (mq.waiting_to_write ≡ []) ⊎ (length mq.messages ≡ max_num_messages)
  pub in_line : Distinct (waiters mq)

-- The scheduler's lists hold distinct processes, none of them the running one.
pub record IsScheduled (running : Ptr) (ready waiting : List Ptr) : Type 0 where
  pub exists : running ≢ null
  pub not_ready : running ∉ ready
  pub not_waiting : running ∉ waiting
  pub ready_distinct : Distinct ready
  pub waiting_distinct : Distinct waiting
  pub apart : (p : Ptr) → p ∈ ready → p ∉ waiting
  pub ready_exist : (p : Ptr) → p ∈ ready → p ≢ null
  pub waiting_exist : (p : Ptr) → p ∈ waiting → p ≢ null

pub record Inv (os : Os) : Type 0 where
  pub message_pool : IsValid os.message_allocator
  pub pcb_ptr_pool : IsValid os.pcb_ptr_allocator
  pub scheduled : IsScheduled os.running os.ready_list os.waiting_list
  pub queues_exist : (q : Ptr) → q ∈ os.mq_list → q ≢ null
  pub queues : (q : Ptr) → q ∈ os.mq_list → IsQueue (os.mqs q)
  pub stored :
      (q : Ptr) → q ∈ os.mq_list → IsStored os.message_allocator os.messages (os.mqs q).messages
  pub waits :
      (q : Ptr)
      → q ∈ os.mq_list
      → IsWaiting os.pcb_ptr_allocator os.pcb_ptrs os.waiting_list (waiters (os.mqs q))
  -- no message is in two queues
  pub apart :
      (q r m : Ptr)
      → q ∈ os.mq_list
      → r ∈ os.mq_list
      → m ∈ (os.mqs q).messages
      → m ∈ (os.mqs r).messages
      → q ≡ r
  -- a process waits at one queue at most, once
  pub one_place :
      (q r w v : Ptr)
      → q ∈ os.mq_list
      → r ∈ os.mq_list
      → w ∈ waiters (os.mqs q)
      → v ∈ waiters (os.mqs r)
      → os.pcb_ptrs w ≡ os.pcb_ptrs v
      → (q ≡ r) × (w ≡ v)
