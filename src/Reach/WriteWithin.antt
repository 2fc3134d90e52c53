-- ===== src/Reach/WriteWithin.antt =====
-- A write creates nothing.
use disastros_msg_queues.Base.{
  refl, List, [], ◌∷◌, ℤ, pos, pos_part, ltb, ltb_ℤ, eqb_ℤ, Holds, holds, stops, Holds-bind,
  Holds-if, Holds-any, Ptr, is_null,
}
use disastros_msg_queues.PoolAllocator.{get_block}
use disastros_msg_queues.Sequence.{insert_last}
use disastros_msg_queues.Os.{Os, valid, set_mq}
use disastros_msg_queues.Process.{arg}
use disastros_msg_queues.MessageQueue.{
  message_alloc, readable, by_id, max_len_message, max_num_messages,
}
use disastros_msg_queues.MessageQueue.Write.{
  suspend_writer, wake_reader, wake_readers, deliver, write_to, write,
}
use disastros_msg_queues.Reach.Within.{
  Within, Within-refl, Within-after, Within-bind, insert_last-has, detach-has, quiet,
  put_to_wait-Within, run_next-Within, ptr_alloc-Within, woken_among,
}

suspend_writer-Within : (os : Os) (q : Ptr) → Holds (Within os) (suspend_writer os q)
unfolding suspend_writer
suspend_writer-Within os q =
    Within-bind (λ s. s) (put_to_wait-Within os)
      λ os.
        Within-bind (λ (_, s). s) (ptr_alloc-Within os os.running)
          λ (p, os). Holds-bind (Holds-any (insert_last (os.mqs q).waiting_to_write p)) λ l _.
            Within-bind (λ s. s) (holds (quiet os _ refl refl refl refl refl)) run_next-Within

wake_reader-Within : (os : Os) (w : Ptr) → Holds (Within os) (wake_reader os w)
unfolding wake_reader
wake_reader-Within os w = Holds-bind (Holds-any (valid w)) λ w _.
    Holds-bind (detach-has os.waiting_list (os.pcb_ptrs w)) λ waiting (at, before).
      Holds-bind (insert_last-has os.ready_list (os.pcb_ptrs w)) λ ready joined. holds (record {
        same_pcbs = refl;
        same_mqs = refl;
        same_list = refl;
        same_timers = refl;
        among = λ p at'. woken_among os ready waiting p at joined before at';
      })

wake_readers-Within : (os : Os) (q : Ptr) (ws : List Ptr) → Holds (Within os) (wake_readers os q ws)
unfolding wake_readers
wake_readers-Within os q [] = holds (Within-refl os)
wake_readers-Within os q (w ∷ ws) =
    let next = set_mq os q (record (os.mqs q) { waiting_to_read = ws }) in
    Within-bind (λ s. s)
      (Within-after (wake_reader-Within next w) (quiet os next refl refl refl refl refl))
      λ s. wake_readers-Within s q ws

message_alloc-Within :
    (os : Os) (buffer : Ptr) (length : ℤ)
    → Holds (λ (_, s). Within os s) (message_alloc os buffer length)
unfolding message_alloc
message_alloc-Within os buffer length =
    Holds-bind (Holds-any (get_block os.message_allocator)) λ (block, a) _.
      Holds-if (is_null block) (λ _. holds (Within-refl os))
        λ _.
          Holds-if (ltb max_len_message (pos_part length)) (λ _. stops)
            λ _.
              Holds-bind (Holds-any (readable length buffer))
                λ p _. holds (quiet os _ refl refl refl refl refl)

deliver-Within :
    (os : Os) (q buffer : Ptr) (length : ℤ) → Holds (Within os) (deliver os q buffer length)
unfolding deliver
deliver-Within os q buffer length =
    Within-bind (λ (_, s). s) (message_alloc-Within os buffer length)
      λ (message, os). Holds-bind (Holds-any (insert_last (os.mqs q).messages message)) λ l _.
        let next = set_mq os q (record (os.mqs q) { messages = l }) in
        Within-bind (λ s. s)
          (Within-after (wake_readers-Within next q (next.mqs q).waiting_to_read)
            (quiet os next refl refl refl refl refl))
          λ s. holds (quiet s _ refl refl refl refl refl)

write_to-Within :
    (os : Os) (q buffer : Ptr) (length : ℤ) → Holds (Within os) (write_to os q buffer length)
unfolding write_to
write_to-Within os q buffer length =
    Holds-if (is_null q) (λ _. holds (quiet os _ refl refl refl refl refl))
      λ _.
        Holds-if (eqb_ℤ (os.mqs q).num_written (pos max_num_messages))
          (λ _. suspend_writer-Within os q) λ _. deliver-Within os q buffer length

pub write-Within : (os : Os) → Holds (Within os) (write os)
unfolding write
write-Within os = Holds-bind (Holds-any (valid os.running)) λ _ _.
    Holds-if (ltb_ℤ (pos max_len_message) (arg os 2))
      (λ _. holds (quiet os _ refl refl refl refl refl))
      λ _. write_to-Within os (by_id os os.mq_list (arg os 0)) (pos_part (arg os 1)) (arg os 2)
