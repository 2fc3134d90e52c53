-- ===== src/MessageQueue.antt =====
-- disastrOS_mq.c: the allocation of queues and messages, and the search for a queue.
pub mod Write
pub mod Open
pub mod Destroy
pub mod Read
pub mod Wake
pub mod Bytes
pub mod Deliver
pub mod Invariant
pub mod Contents
pub mod Woken
pub mod Delivered
pub mod Suspend
pub mod Suspended
pub mod Lookup
pub mod DeliveredEffect
pub mod Writes
pub mod Waits
pub mod WriteWaits
pub mod WakeWriters
pub mod Received
pub mod Receive
pub mod Reads
pub mod Fifo
pub mod WriteCases
pub mod ReadCases
pub mod Keeps
pub mod Described
pub mod Opens
pub mod Closes
pub mod OpenClose
pub mod InUse
pub mod Creates
use disastros_msg_queues.Base.{
  ℕ, zero, suc, ◌+◌, Bool, true, false, List, [], ◌∷◌, ◌==◌, ltb, if◌then◌else◌, ℤ, pos, negsuc,
  pos_part, eqb_ℤ, Run, ok, fault, null_dereference, out_of_bounds, failed_assert, ◌>>=◌, Ptr, null,
  is_null, update,
}
use disastros_msg_queues.PoolAllocator.{
  PoolAllocator, PoolAllocatorResult, get_block, release_block,
}
use disastros_msg_queues.Os.{Os, MessageQueue, Message, valid}

abbrev pub max_len_message : ℕ
max_len_message = 64

abbrev pub max_num_messagequeues : ℕ
max_num_messagequeues = 4

abbrev pub max_num_messages : ℕ
max_num_messages = 256

abbrev pub messages_extra : ℕ
messages_extra = 32

abbrev pub fresh : ℤ → MessageQueue
fresh id = record {
  id = id;
  descriptors_ptrs = [];
  messages = [];
  num_written = pos 0;
  waiting_to_read = [];
  waiting_to_write = [];
}

-- Null, with the state unchanged, if there is no block left.
unfoldable pub alloc : Os → ℤ → Run (Ptr × Os)
alloc os id = do
  (r, a) ← get_block os.mq_allocator
  if is_null r
      then ok (null, os)
      else ok (r, record os { mq_allocator = a; mqs = update os.mqs r (fresh id) })

unfoldable pub is_empty : List Ptr → Bool
is_empty [] = true
is_empty (x ∷ xs) = false

unfoldable pub free : Os → Ptr → Run (PoolAllocatorResult × Os)
unfolding is_empty
free os q =
    if is_empty (os.mqs q).descriptors_ptrs
    then (do (r, a) ← release_block os.mq_allocator q; ok (r, record os { mq_allocator = a }))
    else fault failed_assert

-- The first queue of the list with the identifier, or null.
unfoldable pub by_id : Os → List Ptr → ℤ → Ptr
by_id os [] id = null
by_id os (q ∷ qs) id = if eqb_ℤ (os.mqs q).id id then q else by_id os qs id

-- for (i = …) to[i] = from[i], with the rounds left; the array `to` lies at the address `base`.
unfoldable pub copy : ℕ → ℕ → (from : ℕ → ℕ) (base : Ptr) (to : Ptr → ℕ) → Ptr → ℕ
copy zero i from base to = to
copy (suc rounds) i from base to = copy rounds (suc i) from base (update to (base + i) (from i))

-- A copy of bytes dereferences its buffer only if it makes a round.
abbrev pub readable : ℤ → Ptr → Run Ptr
readable length buffer = if pos_part length == 0 then ok buffer else valid buffer

-- Null, with the state unchanged, if there is no block left. The array holds 64 bytes.
unfoldable pub message_alloc : Os → (message : Ptr) (length : ℤ) → Run (Ptr × Os)
unfolding copy
message_alloc os message length = do
  (r, a) ← get_block os.message_allocator
  if is_null r
      then ok (null, os)
      else if ltb max_len_message (pos_part length)
      then fault out_of_bounds
      else (do
        buffer ← readable length message
        ok (
          r,
          record os {
            message_allocator = a;
            messages = update os.messages r (record {
              message =
                  copy (pos_part length) 0 (λ i. os.bytes (buffer + i)) 0 (os.messages r).message;
              length = length;
            });
          },
        ))

unfoldable pub message_free : Os → Ptr → Run (PoolAllocatorResult × Os)
message_free os m = do
  (r, a) ← release_block os.message_allocator m
  ok (r, record os { message_allocator = a })
