-- ===== src/MessageQueue/Receive.antt =====
-- What a read does to a queue that holds a message, in one equation.
use disastros_msg_queues.Base.{fault, null_dereference}
use disastros_msg_queues.Base.{
  ◌≡◌, refl, ap, fun_ext, List, [], ◌∷◌, arith, pos, pos_part, ◌-ℤ◌, ok, Ptr, update, ==_refl,
}
use disastros_msg_queues.PoolAllocator.{PoolAllocator}
use disastros_msg_queues.Os.{Os, MessageQueue, set_mq}
use disastros_msg_queues.Process.{return_value}
use disastros_msg_queues.MessageQueue.{copy, readable}
use disastros_msg_queues.MessageQueue.Read.{wake_writers, receive}
use disastros_msg_queues.MessageQueue.Wake.{with_woken}
use disastros_msg_queues.MessageQueue.WakeWriters.{no_writers, with_ptrs}

-- The queue behind the read.
abbrev pub received_mq : MessageQueue → List Ptr → MessageQueue
received_mq mq rest = record mq {
  messages = rest;
  num_written = mq.num_written -ℤ pos 1;
  waiting_to_write = [];
}

abbrev pub with_bytes : Os → (m buffer : Ptr) → Os
with_bytes os m buffer = record os {
  bytes = copy (pos_part (os.messages m).length) 0 (os.messages m).message buffer os.bytes;
}

-- The state behind the read.
abbrev pub received : Os → (q m : Ptr) (rest : List Ptr) (b : PoolAllocator) (buffer : Ptr) → Os
received os q m rest b buffer =
    return_value
      (with_woken (with_bytes (with_ptrs os b) m buffer)
        (update os.mqs q (received_mq (os.mqs q) rest)) (os.mqs q).waiting_to_write)
      (os.messages m).length

-- The last two writes complete the queue.
counted :
    (ws : List Ptr) (mqs : Ptr → MessageQueue) (q : Ptr) (rest : List Ptr)
    → (mqs q).waiting_to_write ≡ ws
    → (let mqs' = no_writers q ws (update mqs q (record (mqs q) { messages = rest })) in
        update mqs' q (record (mqs' q) { num_written = (mqs' q).num_written -ℤ pos 1 }))
      ≡ update mqs q (received_mq (mqs q) rest)
counted [] mqs q rest e = fun_ext λ r. ground arith
counted (w ∷ ws) mqs q rest e = fun_ext λ r. ground arith

without_first : Os → (q : Ptr) (rest : List Ptr) → Os
without_first os q rest = set_mq os q (record (os.mqs q) { messages = rest })

pub receive-ok :
    (os : Os) (q m : Ptr) (rest : List Ptr) (b : PoolAllocator) (buffer : Ptr)
    → readable (os.messages m).length buffer ≡ ok buffer
    → wake_writers
        (set_mq os q (record (os.mqs q) { messages = rest }))
        q
        (os.mqs q).waiting_to_write
      ≡ ok (
          with_woken
            (with_ptrs os b)
            (no_writers q
              (os.mqs q).waiting_to_write
              (update os.mqs q (record (os.mqs q) { messages = rest })))
            (os.mqs q).waiting_to_write)
    → receive os q m rest buffer ≡ ok (received os q m rest b buffer)
unfolding receive
receive-ok os q m rest b buffer r wake = rw (==_refl q) (
    rw wake (
      rw r (
        ap
          (λ mqs. ok (
            return_value
              (with_woken (with_bytes (with_ptrs os b) m buffer) mqs (os.mqs q).waiting_to_write)
              (os.messages m).length))
          (counted (os.mqs q).waiting_to_write os.mqs q rest refl))))

-- The writers are awake when the handler finds that there is no buffer.
pub receive-unreadable :
    (os : Os) (q m : Ptr) (rest : List Ptr) (b : PoolAllocator) (buffer : Ptr)
    → readable (os.messages m).length buffer ≡ fault null_dereference
    → wake_writers
        (set_mq os q (record (os.mqs q) { messages = rest }))
        q
        (os.mqs q).waiting_to_write
      ≡ ok (
          with_woken
            (with_ptrs os b)
            (no_writers q
              (os.mqs q).waiting_to_write
              (update os.mqs q (record (os.mqs q) { messages = rest })))
            (os.mqs q).waiting_to_write)
    → receive os q m rest buffer ≡ fault null_dereference
unfolding receive
receive-unreadable os q m rest b buffer r wake = rw (==_refl q) (rw wake (rw r refl))
