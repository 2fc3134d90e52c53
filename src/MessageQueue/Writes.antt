-- ===== src/MessageQueue/Writes.antt =====
-- What `internal_MessageQueue_write` does, on each of its branches.
use disastros_msg_queues.Base.{
  ◌<◌, ◌≡◌, ◌≢◌, ◌≤◌, refl, sym, ◌∙◌, ap, arith, Distinct, Distinct-left, mem-ne, [], ◌∷◌, ◌++◌,
  map, length, ◌∈◌, ◌∉◌, has-append, ℤ, pos_part, ltb_ℤ-true, ltb_ℤ-false, ok, Returns, returns,
  Ptr, null, is_null-ne,
}
use disastros_msg_queues.PoolAllocator.Live.{Fresh, HasBlock, HasBlock-Fresh}
use disastros_msg_queues.Os.{ProcessStatus, Os}
use disastros_msg_queues.Process.{arg, return_value}
use disastros_msg_queues.MessageQueue.{max_len_message, max_num_messages, by_id, readable}
use disastros_msg_queues.MessageQueue.Write.{
  write, write_to, deliver, suspend_writer, too_long, no_fd, woken,
}
use disastros_msg_queues.MessageQueue.Invariant.{Inv, IsQueue, waiters}
use disastros_msg_queues.MessageQueue.Contents.{contents, bytes_at}
use disastros_msg_queues.MessageQueue.Woken.{woken-Wakeable, running-not-woken}
use disastros_msg_queues.MessageQueue.Deliver.{delivered, deliver-ok}
use disastros_msg_queues.MessageQueue.Delivered.{delivered-Inv, new_message}
use disastros_msg_queues.MessageQueue.DeliveredEffect.{
  contents-delivered, contents-delivered_ne, readers-delivered, woken-delivered, returned-delivered,
  by_id-delivered,
}
use disastros_msg_queues.MessageQueue.Lookup.{by_id-mem}

-- The queue that the running process names.
abbrev pub named : Os → Ptr
named os = by_id os os.mq_list (arg os 0)

pub write-short :
    (os : Os)
    → os.running ≢ null
    → pos_part (arg os 2) ≤ max_len_message
    → write os ≡ write_to os (named os) (pos_part (arg os 1)) (arg os 2)
unfolding write
write-short os exists short =
    rw (is_null-ne os.running _ _ exists, ltb_ℤ-false 64 (arg os 2) short) refl

pub write-long :
    (os : Os)
    → os.running ≢ null
    → max_len_message < pos_part (arg os 2)
    → write os ≡ ok (return_value os too_long)
unfolding write
write-long os exists long =
    rw (is_null-ne os.running _ _ exists, ltb_ℤ-true 64 (arg os 2) long) refl

write_to-null :
    (os : Os) (buffer : Ptr) (n : ℤ) → write_to os null buffer n ≡ ok (return_value os no_fd)
unfolding write_to
write_to-null os buffer n = refl

pub write-missing :
    (os : Os)
    → os.running ≢ null
    → pos_part (arg os 2) ≤ max_len_message
    → named os ≡ null
    → write os ≡ ok (return_value os no_fd)
write-missing os exists short none =
    write-short os exists short
    ∙ ap (λ q. write_to os q (pos_part (arg os 1)) (arg os 2)) none
    ∙ write_to-null os (pos_part (arg os 1)) (arg os 2)

pub write_to-room :
    (os : Os) (q : Ptr) (buffer : Ptr) (n : ℤ)
    → q ≢ null
    → IsQueue (os.mqs q)
    → length (os.mqs q).messages < max_num_messages
    → write_to os q buffer n ≡ deliver os q buffer n
unfolding write_to
write_to-room os q buffer n ne v room = rw (is_null-ne q _ _ ne, v.counted) (ground arith)

pub write_to-full :
    (os : Os) (q : Ptr) (buffer : Ptr) (n : ℤ)
    → q ≢ null
    → IsQueue (os.mqs q)
    → length (os.mqs q).messages ≡ max_num_messages
    → write_to os q buffer n ≡ suspend_writer os q
unfolding write_to
write_to-full os q buffer n ne v full = rw (is_null-ne q _ _ ne, v.counted, full) refl

-- The state behind a write that is carried out.
pub record Delivers (os : Os) (q : Ptr) (os' : Os) : Type 0 where
  pub valid : Inv os'
  pub appended :
      contents os' q ≡ contents os q ++ bytes_at os (pos_part (arg os 1)) (pos_part (arg os 2)) ∷ []
  pub others : (r : Ptr) → r ∈ os.mq_list → q ≢ r → contents os' r ≡ contents os r
  pub no_readers : (os'.mqs q).waiting_to_read ≡ []
  pub ready : os'.ready_list ≡ os.ready_list ++ map os.pcb_ptrs (os.mqs q).waiting_to_read
  pub woken_up :
      (p : Ptr)
      → p ∈ map os.pcb_ptrs (os.mqs q).waiting_to_read
      → ((os'.pcbs p).status ≡ ProcessStatus.ready) × ((os'.pcbs p).syscall_retvalue ≡ woken)
  pub runs_on : os'.running ≡ os.running
  pub returned : (os'.pcbs os.running).syscall_retvalue ≡ arg os 2
  pub same_names : (id : ℤ) → by_id os' os'.mq_list id ≡ by_id os os.mq_list id

module _ (os : Os) (inv : Inv os) (found : named os ≢ null)
    (short : pos_part (arg os 2) ≤ max_len_message) where
  listed : named os ∈ os.mq_list
  listed = by_id-mem os os.mq_list (arg os 0) found

  module _ (room : length (os.mqs (named os)).messages < max_num_messages)
      (block : HasBlock os.message_allocator)
      (buffer : readable (arg os 2) (pos_part (arg os 1)) ≡ ok (pos_part (arg os 1))) where
    fresh : Fresh os.message_allocator block.block block.rest
    fresh = HasBlock-Fresh os.message_allocator inv.message_pool block

    outside : (r : Ptr) → r ∈ os.mq_list → block.block ∉ (os.mqs r).messages
    outside r at =
        new_message os inv (named os) block.block block.rest (pos_part (arg os 1)) (arg os 2) listed
          fresh short room r at

    readers_in_line :
        (w : Ptr) → w ∈ (os.mqs (named os)).waiting_to_read → w ∈ waiters (os.mqs (named os))
    readers_in_line w at = ground (
      arith,
      has-append w (os.mqs (named os)).waiting_to_read (os.mqs (named os)).waiting_to_write,
    )

    in_line : Distinct (os.mqs (named os)).waiting_to_read
    in_line =
        Distinct-left (os.mqs (named os)).waiting_to_read (os.mqs (named os)).waiting_to_write
          (inv.queues (named os) listed).in_line

    not_woken : os.running ∉ map os.pcb_ptrs (os.mqs (named os)).waiting_to_read
    not_woken =
        running-not-woken os inv (named os) listed (os.mqs (named os)).waiting_to_read in_line
          readers_in_line

    result : Os
    result = delivered os (named os) block.block block.rest (pos_part (arg os 1)) (arg os 2)

    write-result : write os ≡ ok result
    unfolding result
    write-result =
        write-short os inv.scheduled.exists short
        ∙ write_to-room os (named os) (pos_part (arg os 1)) (arg os 2) found
            (inv.queues (named os) listed) room
        ∙ deliver-ok os (named os) block.block block.rest (pos_part (arg os 1)) (arg os 2)
            block.gets block.exists short buffer (outside (named os) listed)
            (woken-Wakeable os inv (named os) listed (os.mqs (named os)).waiting_to_read in_line
              readers_in_line)

    result-Delivers : Delivers os (named os) result
    unfolding result
    result-Delivers =
        let q = named os in
        let a = pos_part (arg os 1) in
        let n = arg os 2 in
        record {
          valid = delivered-Inv os inv q block.block block.rest a n listed fresh short room;
          appended = contents-delivered os q block.block block.rest a n (outside q listed);
          others =
              λ r at ne. contents-delivered_ne os q block.block block.rest a n r ne (outside r at);
          no_readers = readers-delivered os q block.block block.rest a n;
          ready = refl;
          woken_up = λ p at. woken-delivered os q block.block block.rest a n p at (λ e.
              mem-ne p os.running (map os.pcb_ptrs (os.mqs q).waiting_to_read) at not_woken
                (sym e));
          runs_on = refl;
          returned = returned-delivered os q block.block block.rest a n;
          same_names = by_id-delivered os q block.block block.rest a n os.mq_list;
        }

    -- With a message object left, and a buffer if there is a byte to copy, the running process writes
    -- a message of at most 64 bytes to a queue of less than 256 messages: no access fails, the invariant
    -- holds again, the bytes at its buffer are the last message of that queue, the contents of the other
    -- queues stay, each identifier finds the queue that it found, all readers that waited at the queue
    -- are at the end of the ready list with status ready and result -20, and the writer runs on with the
    -- length as its result.
    pub write-Delivers : Returns (Delivers os (named os)) (write os)
    write-Delivers = rw write-result (returns result-Delivers)
