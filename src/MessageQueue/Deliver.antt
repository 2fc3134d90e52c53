-- ===== src/MessageQueue/Deliver.antt =====
-- What a write does to a queue that is not full, in one equation.
use disastros_msg_queues.Base.{
  ◌+◌, ◌≡◌, ◌≢◌, ◌≤◌, refl, ◌∙◌, ap, fun_ext, List, [], ◌∷◌, ◌++◌, arith, ◌∉◌, ℤ, pos, pos_part,
  ◌+ℤ◌, ok, Ptr, null, is_null-ne, update, ==_refl,
}
use disastros_msg_queues.PoolAllocator.{PoolAllocator, get_block}
use disastros_msg_queues.Os.{Os, MessageQueue, Message, set_mq}
use disastros_msg_queues.Process.{return_value}
use disastros_msg_queues.MessageQueue.{copy, readable, message_alloc, max_len_message}
use disastros_msg_queues.MessageQueue.Write.{deliver}
use disastros_msg_queues.MessageQueue.Wake.{
  Wakeable, no_readers, with_woken, wake_readers-ok, insert_last-new,
}

-- The message object that a write fills.
abbrev pub filled : Os → (m buffer : Ptr) (length : ℤ) → Message
filled os m buffer length = record {
  message = copy (pos_part length) 0 (λ i. os.bytes (buffer + i)) 0 (os.messages m).message;
  length = length;
}

abbrev pub with_message : Os → (m : Ptr) (b : PoolAllocator) (buffer : Ptr) (length : ℤ) → Os
with_message os m b buffer length = record os {
  message_allocator = b;
  messages = update os.messages m (filled os m buffer length);
}

message_alloc-ok :
    (os : Os) (m : Ptr) (b : PoolAllocator) (buffer : Ptr) (length : ℤ)
    → get_block os.message_allocator ≡ ok (m, b)
    → m ≢ null
    → pos_part length ≤ max_len_message
    → readable length buffer ≡ ok buffer
    → message_alloc os buffer length ≡ ok (m, with_message os m b buffer length)
unfolding message_alloc
message_alloc-ok os m b buffer length e ne short r = rw e (is_null-ne m _ _ ne ∙ ground arith)

-- The queue behind the write.
abbrev pub delivered_mq : MessageQueue → Ptr → MessageQueue
delivered_mq mq m = record mq {
  messages = mq.messages ++ m ∷ [];
  num_written = mq.num_written +ℤ pos 1;
  waiting_to_read = [];
}

-- The state behind the write.
abbrev pub delivered : Os → (q m : Ptr) (b : PoolAllocator) (buffer : Ptr) (length : ℤ) → Os
delivered os q m b buffer length =
    return_value
      (with_woken (with_message os m b buffer length) (update os.mqs q (delivered_mq (os.mqs q) m))
        (os.mqs q).waiting_to_read)
      length

with_item : Os → (q m : Ptr) (b : PoolAllocator) (buffer : Ptr) (length : ℤ) → Os
with_item os q m b buffer length =
    set_mq (with_message os m b buffer length) q
      (record (os.mqs q) { messages = (os.mqs q).messages ++ m ∷ [] })

-- The last two writes complete the queue.
counted :
    (ws : List Ptr) (mqs : Ptr → MessageQueue) (q m : Ptr)
    → (mqs q).waiting_to_read ≡ ws
    → (let mqs' =
          no_readers q ws
            (update mqs q (record (mqs q) { messages = (mqs q).messages ++ m ∷ [] })) in
        update mqs' q (record (mqs' q) { num_written = (mqs' q).num_written +ℤ pos 1 }))
      ≡ update mqs q (delivered_mq (mqs q) m)
counted [] mqs q m e = fun_ext λ r. ground arith
counted (w ∷ ws) mqs q m e = fun_ext λ r. ground arith

pub deliver-ok :
    (os : Os) (q m : Ptr) (b : PoolAllocator) (buffer : Ptr) (length : ℤ)
    → get_block os.message_allocator ≡ ok (m, b)
    → m ≢ null
    → pos_part length ≤ max_len_message
    → readable length buffer ≡ ok buffer
    → m ∉ (os.mqs q).messages
    → Wakeable os.pcb_ptrs os.waiting_list os.ready_list (os.mqs q).waiting_to_read
    → deliver os q buffer length ≡ ok (delivered os q m b buffer length)
unfolding deliver with_item
deliver-ok os q m b buffer length e ne short r new wake =
    rw
      (
        message_alloc-ok os m b buffer length e ne short r,
        insert_last-new (os.mqs q).messages m ne new,
        ==_refl q,
      )
      (rw (wake_readers-ok (os.mqs q).waiting_to_read (with_item os q m b buffer length) q wake) (
        ap ok (
          ap
            (λ mqs.
              return_value
                (with_woken (with_message os m b buffer length) mqs (os.mqs q).waiting_to_read)
                length)
            (counted (os.mqs q).waiting_to_read os.mqs q m refl))))
