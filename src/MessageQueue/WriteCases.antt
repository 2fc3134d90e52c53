-- ===== src/MessageQueue/WriteCases.antt =====
-- Everything that a write can do.
use disastros_msg_queues.Base.{
  ◌<◌, ◌≡◌, ◌≢◌, ◌≤◌, ◌⊎◌, inl, inr, refl, sym, ◌∙◌, subst, arith, Bool-cases, false, List, [], ◌∷◌,
  has, ◌∈◌, ◌∉◌, has-append, length, ltb, ◌==◌, ℤ, pos, pos_part, Run, ok, fault, null_dereference,
  Returns, returns, Ptr, null, is_null, is_null-ne,
}
use disastros_msg_queues.PoolAllocator.{get_block}
use disastros_msg_queues.PoolAllocator.Live.{HasBlock, HasBlock-Fresh, block_left, exhausted-size}
use disastros_msg_queues.Sequence.{insert_last, detach_first}
use disastros_msg_queues.Os.{Os}
use disastros_msg_queues.Process.{arg, return_value}
use disastros_msg_queues.MessageQueue.{max_len_message, max_num_messages, readable}
use disastros_msg_queues.MessageQueue.Write.{write, deliver, suspend_writer, too_long, no_fd}
use disastros_msg_queues.MessageQueue.Invariant.{Inv, waiters}
use disastros_msg_queues.MessageQueue.Lookup.{by_id-mem}
use disastros_msg_queues.MessageQueue.Wake.{insert_last-new}
use disastros_msg_queues.MessageQueue.Waits.{Waits}
use disastros_msg_queues.MessageQueue.WriteWaits.{write-Waits}
use disastros_msg_queues.MessageQueue.Writes.{
  named, write-long, write-missing, write-short, write_to-room, write_to-full, Delivers,
  write-Delivers,
}

-- The message may be sent, and the queue that is named is there.
pub record IsAccepted (os : Os) : Type 0 where
  pub short : pos_part (arg os 2) ≤ max_len_message
  pub found : named os ≢ null

abbrev pub stored_at : Os → Ptr → List Ptr
stored_at os q = (os.mqs q).messages

-- Each outcome of a write, with the states that have it.
pub data WriteCase (os : Os) : Run Os → Type 0 where
  refused_long :
      max_len_message < pos_part (arg os 2) → WriteCase os (ok (return_value os too_long))
  refused_missing :
      pos_part (arg os 2) ≤ max_len_message
      → named os ≡ null
      → WriteCase os (ok (return_value os no_fd))
  delivered :
      {os' : Os}
      → IsAccepted os
      → length (stored_at os (named os)) < max_num_messages
      → Delivers os (named os) os'
      → WriteCase os (ok os')
  no_message :
      IsAccepted os
      → length (stored_at os (named os)) < max_num_messages
      → os.message_allocator.size ≡ pos 0
      → WriteCase os (fault null_dereference)
  no_buffer :
      IsAccepted os
      → length (stored_at os (named os)) < max_num_messages
      → pos_part (arg os 2) ≢ 0
      → pos_part (arg os 1) ≡ null
      → WriteCase os (fault null_dereference)
  waits :
      {os' : Os} (next : Ptr) (rest : List Ptr)
      → IsAccepted os
      → length (stored_at os (named os)) ≡ max_num_messages
      → Waits (λ mq. mq.waiting_to_write) os (named os) next rest os'
      → WriteCase os (ok os')
  no_item :
      IsAccepted os
      → length (stored_at os (named os)) ≡ max_num_messages
      → os.pcb_ptr_allocator.size ≡ pos 0
      → WriteCase os (fault null_dereference)
  nobody_ready :
      IsAccepted os
      → length (stored_at os (named os)) ≡ max_num_messages
      → os.ready_list ≡ []
      → WriteCase os (fault null_dereference)

-- A byte is to be copied from or to null, or there is a buffer.
pub readable_cases :
    (n : ℤ) (p : Ptr)
    → (readable n p ≡ ok p)
      ⊎ ((readable n p ≡ fault null_dereference) × (pos_part n ≢ 0) × (p ≡ null))
readable_cases n p = elim (Bool-cases (pos_part n == 0)) [
  | inl e ↦ inl (ground arith)
  | inr e ↦ elim (Bool-cases (is_null p)) [
    | inl z ↦ inr (ground arith, ground arith, ground arith)
    | inr z ↦ inl (ground arith)
  ]
]

-- A list item and another process, or neither.
pub can_wait :
    (os : Os)
    → Inv os
    → (get_block os.pcb_ptr_allocator ≡ ok (null, os.pcb_ptr_allocator))
      ⊎ (HasBlock os.pcb_ptr_allocator
          × ((os.ready_list ≡ [])
              ⊎ ((next : Ptr) × (rest : List Ptr) × (os.ready_list ≡ next ∷ rest))))
can_wait os inv = elim (block_left os.pcb_ptr_allocator inv.pcb_ptr_pool) [
  | inl e ↦ inl e
  | inr block ↦ inr (block, cases os.ready_list)
]
  where
    cases : (l : List Ptr) → (l ≡ []) ⊎ ((next : Ptr) × (rest : List Ptr) × (l ≡ next ∷ rest))
    cases [] = inl refl
    cases (x ∷ xs) = inr (x, xs, refl)

deliver-exhausted :
    (os : Os) (q buffer : Ptr) (n : ℤ)
    → get_block os.message_allocator ≡ ok (null, os.message_allocator)
    → deliver os q buffer n ≡ fault null_dereference
unfolding deliver insert_last
deliver-exhausted os q buffer n e = rw e refl

deliver-unreadable :
    (os : Os) (q buffer : Ptr) (n : ℤ) (block : HasBlock os.message_allocator)
    → pos_part n ≤ max_len_message
    → readable n buffer ≡ fault null_dereference
    → deliver os q buffer n ≡ fault null_dereference
unfolding deliver
deliver-unreadable os q buffer n block short e =
    let fits : ltb max_len_message (pos_part n) ≡ false = ground arith in
    rw (block.gets, is_null-ne block.block _ _ block.exists) (rw fits (rw e refl))

-- A block that is handed out for an item is in no line.
pub free-item :
    (os : Os) (inv : Inv os) (q : Ptr) (block : HasBlock os.pcb_ptr_allocator)
    → q ∈ os.mq_list
    → block.block ∉ waiters (os.mqs q)
free-item os inv q block at = elim (Bool-cases (has block.block (waiters (os.mqs q)))) [
  | inl hit ↦
      let f = HasBlock-Fresh os.pcb_ptr_allocator inv.pcb_ptr_pool block in
      absurd (f.new (inv.waits q at block.block hit).1)
  | inr out ↦ out
]

module _ (os : Os) (inv : Inv os) (q : Ptr) where
  suspend_writer-exhausted :
      get_block os.pcb_ptr_allocator ≡ ok (null, os.pcb_ptr_allocator)
      → suspend_writer os q ≡ fault null_dereference
  unfolding suspend_writer
  suspend_writer-exhausted e =
      rw (insert_last-new os.waiting_list os.running inv.scheduled.exists inv.scheduled.not_waiting)
        (rw e refl)

  suspend_writer-alone :
      (block : HasBlock os.pcb_ptr_allocator)
      → q ∈ os.mq_list
      → os.ready_list ≡ []
      → suspend_writer os q ≡ fault null_dereference
  unfolding suspend_writer detach_first
  suspend_writer-alone block at e =
      let out : block.block ∉ (os.mqs q).waiting_to_write = ground (
        arith,
        free-item os inv q block at,
        has-append block.block (os.mqs q).waiting_to_read (os.mqs q).waiting_to_write,
      ) in
      rw (insert_last-new os.waiting_list os.running inv.scheduled.exists inv.scheduled.not_waiting)
        (rw (block.gets, is_null-ne block.block _ _ block.exists)
          (rw (insert_last-new (os.mqs q).waiting_to_write block.block block.exists out)
            (rw e refl)))

module _ (os : Os) (inv : Inv os) (a : IsAccepted os) where
  listed : named os ∈ os.mq_list
  listed = by_id-mem os os.mq_list (arg os 0) a.found

  write_full : length (stored_at os (named os)) ≡ max_num_messages → WriteCase os (write os)
  write_full full =
      let to : write os ≡ suspend_writer os (named os) =
        write-short os inv.scheduled.exists a.short
        ∙ write_to-full os (named os) _ _ a.found (inv.queues (named os) listed) full in
      elim (can_wait os inv) [
        | inl e ↦
            subst (WriteCase os) (sym (to ∙ suspend_writer-exhausted os inv (named os) e))
              (no_item a full (exhausted-size os.pcb_ptr_allocator inv.pcb_ptr_pool e))
        | inr (block, inl e) ↦
            subst (WriteCase os) (sym (to ∙ suspend_writer-alone os inv (named os) block listed e))
              (nobody_ready a full e)
        | inr (block, inr (next, rest, e)) ↦
            go next rest (write-Waits os inv a.found block next rest e a.short full)
      ]
    where
      go :
          (next : Ptr) (rest : List Ptr) {r : Run Os}
          → Returns (Waits (λ mq. mq.waiting_to_write) os (named os) next rest) r
          → WriteCase os r
      go next rest (returns w) = waits next rest a full w

  write_room : length (stored_at os (named os)) < max_num_messages → WriteCase os (write os)
  write_room room =
      let to : write os ≡ deliver os (named os) (pos_part (arg os 1)) (arg os 2) =
        write-short os inv.scheduled.exists a.short
        ∙ write_to-room os (named os) _ _ a.found (inv.queues (named os) listed) room in
      elim (block_left os.message_allocator inv.message_pool) [
        | inl e ↦
            subst (WriteCase os) (sym (to ∙ deliver-exhausted os (named os) _ _ e))
              (no_message a room (exhausted-size os.message_allocator inv.message_pool e))
        | inr block ↦ elim (readable_cases (arg os 2) (pos_part (arg os 1))) [
          | inl e ↦ go (write-Delivers os inv a.found a.short room block e)
          | inr (e, some_byte, none) ↦
              subst (WriteCase os) (sym (to ∙ deliver-unreadable os (named os) _ _ block a.short e))
                (no_buffer a room some_byte none)
        ]
      ]
    where
      go : {r : Run Os} → Returns (Delivers os (named os)) r → WriteCase os r
      go (returns d) = delivered a room d

-- Under the invariant, a write has one of eight outcomes, each in the states that are named:
-- more than 64 bytes are refused with -146; a queue that is not there with -11; a queue of less than
-- 256 messages gets the bytes, or no message object is free or there is a byte to copy from null, and
-- the write goes through null; at a queue of 256 messages the process waits, or no list item is free
-- or no process is ready, and the write goes through null.
pub write_cases : (os : Os) → Inv os → WriteCase os (write os)
write_cases os inv = elim (Bool-cases (ltb max_len_message (pos_part (arg os 2)))) [
  | inl e ↦
      let long : max_len_message < pos_part (arg os 2) = ground arith in
      subst (WriteCase os) (sym (write-long os inv.scheduled.exists long)) (refused_long long)
  | inr e ↦
      let short : pos_part (arg os 2) ≤ max_len_message = ground arith in
      elim (Bool-cases (is_null (named os))) [
        | inl z ↦
            let none : named os ≡ null = ground arith in
            subst (WriteCase os) (sym (write-missing os inv.scheduled.exists short none))
              (refused_missing short none)
        | inr z ↦
            let a : IsAccepted os = record { short = short; found = ground arith } in
            let q = inv.queues (named os) (listed os inv a) in
            elim (Bool-cases (length (stored_at os (named os)) == max_num_messages)) [
              | inl full ↦ write_full os inv a (ground arith)
              | inr other ↦ write_room os inv a (ground (arith, q.bounded))
            ]
      ]
]
