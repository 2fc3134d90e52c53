-- ===== src/MessageQueue/Delivered.antt =====
-- A write keeps the invariant.
use disastros_msg_queues.Base.{
  ◌<◌, ◌≡◌, ◌≢◌, ◌≤◌, ◌⊎◌, inl, inr, refl, sym, ◌∙◌, ap, subst, arith, Bool-cases, List, [], ◌∷◌,
  ◌++◌, map, length, length-append, has, ◌∈◌, ◌∉◌, has-append, Distinct, without, Distinct-append,
  Distinct-left, Distinct-right, Distinct-apart, mem-ne, ℤ, pos, pos_part, pos-suc, ◌+ℤ◌, Ptr, null,
  update, update_cases, update_ne, update_self,
}
use disastros_msg_queues.PoolAllocator.{PoolAllocator}
use disastros_msg_queues.PoolAllocator.Live.{Live, Fresh}
use disastros_msg_queues.Os.{Os, MessageQueue, Message}
use disastros_msg_queues.MessageQueue.{max_len_message, max_num_messages}
use disastros_msg_queues.MessageQueue.Invariant.{Inv, IsQueue, IsStored, IsWaiting, waiters}
use disastros_msg_queues.MessageQueue.Deliver.{filled, delivered_mq, delivered}
use disastros_msg_queues.MessageQueue.Woken.{woken_processes-IsScheduled, others_wait}

module _ (os : Os) (inv : Inv os) (q m : Ptr) (b : PoolAllocator) (buffer : Ptr)
    (message_length : ℤ) (here : q ∈ os.mq_list) (fresh : Fresh os.message_allocator m b)
    (short : pos_part message_length ≤ max_len_message)
    (room : length (os.mqs q).messages < max_num_messages) where
  readers : List Ptr
  readers = (os.mqs q).waiting_to_read

  mqs : Ptr → MessageQueue
  mqs = update os.mqs q (delivered_mq (os.mqs q) m)

  -- The new message is in no queue.
  pub new_message : (r : Ptr) → r ∈ os.mq_list → m ∉ (os.mqs r).messages
  new_message r at = elim (Bool-cases (has m (os.mqs r).messages)) [
    | inl in_queue ↦ absurd (fresh.new (inv.stored r at m in_queue).1)
    | inr out ↦ out
  ]

  readers-Distinct : Distinct readers
  unfolding readers
  readers-Distinct =
      Distinct-left (os.mqs q).waiting_to_read (os.mqs q).waiting_to_write
        (inv.queues q here).in_line

  readers-waiters : (w : Ptr) → w ∈ readers → w ∈ waiters (os.mqs q)
  unfolding readers
  readers-waiters w at =
      ground (arith, has-append w (os.mqs q).waiting_to_read (os.mqs q).waiting_to_write)

  no_writers : (os.mqs q).waiting_to_write ≡ []
  no_writers = elim (inv.queues q here).writers [ inl e ↦ e | inr full ↦ absurd (omega arith) ]

  delivered-IsQueue : IsQueue (delivered_mq (os.mqs q) m)
  delivered-IsQueue =
      let old = inv.queues q here in
      let ms = (os.mqs q).messages in
      record {
        counted =
            ap (λ k. k +ℤ pos 1) old.counted
            ∙ pos-suc (length ms)
            ∙ ap pos (omega (arith, length-append ms (m ∷ [])));
        bounded = omega (arith, length-append ms (m ∷ []));
        distinct =
            Distinct-append ms (m ∷ []) old.distinct (refl, tt)
              (λ p at. ground (arith, mem-ne p m ms at (new_message q here)));
        readers = inl refl;
        writers = inl no_writers;
        in_line = Distinct-right (os.mqs q).waiting_to_read (os.mqs q).waiting_to_write old.in_line;
      }

  queues : (r : Ptr) → r ∈ os.mq_list → IsQueue (mqs r)
  unfolding mqs
  queues r at =
      update_cases IsQueue os.mqs q (delivered_mq (os.mqs q) m) r (λ _. delivered-IsQueue)
        (λ _. inv.queues r at)

  memory : Ptr → Message
  memory = update os.messages m (filled os m buffer message_length)

  IsStored-before : (r : Ptr) → r ∈ os.mq_list → IsStored b memory (os.mqs r).messages
  unfolding memory
  IsStored-before r at x at' =
      let (ne, alive, size) = inv.stored r at x at' in
      let other : m ≢ x = λ e. mem-ne x m (os.mqs r).messages at' (new_message r at) (sym e) in
      (
        ne,
        fresh.keeps x alive,
        rw (update_ne os.messages m x (filled os m buffer message_length) other) size,
      )

  IsStored-now : IsStored b memory ((os.mqs q).messages ++ m ∷ [])
  unfolding memory
  IsStored-now x at = elim (Bool-cases (has x (os.mqs q).messages)) [
    | inl old ↦ IsStored-before q here x old
    | inr not_old ↦
        (let e : m ≡ x = ground (arith, has-append x (os.mqs q).messages (m ∷ [])) in
          subst (λ y. (y ≢ null) × Live b y × (pos_part (memory y).length ≤ max_len_message)) e
            (
              fresh.not_null,
              fresh.now,
              rw (update_self os.messages m (filled os m buffer message_length)) short,
            ))
  ]

  stored : (r : Ptr) → r ∈ os.mq_list → IsStored b memory (mqs r).messages
  unfolding mqs
  stored r at =
      update_cases (λ mq. IsStored b memory mq.messages) os.mqs q (delivered_mq (os.mqs q) m) r
        (λ _. IsStored-now) (λ _. IsStored-before r at)

  -- A waiter that is left waited before, and is not one of the readers of `q`.
  waiters_left :
      (r v : Ptr) → r ∈ os.mq_list → v ∈ waiters (mqs r) → (v ∈ waiters (os.mqs r)) × (v ∉ readers)
  unfolding mqs readers
  waiters_left r v at =
      update_cases (λ mq. v ∈ waiters mq → (v ∈ waiters (os.mqs r)) × (v ∉ readers)) os.mqs q
        (delivered_mq (os.mqs q) m) r
        (λ same at'.
          subst (λ s. (v ∈ waiters (os.mqs s)) × (v ∉ (os.mqs q).waiting_to_read)) same
            (
              ground (arith, has-append v (os.mqs q).waiting_to_read (os.mqs q).waiting_to_write),
              Distinct-apart (os.mqs q).waiting_to_read (os.mqs q).waiting_to_write v
                  (inv.queues q here).in_line at',
            ))
        (λ other at'. (
          at',
          elim (Bool-cases (has v (os.mqs q).waiting_to_read)) [
            | inl reads ↦
                absurd (other (inv.one_place q r v v here at (readers-waiters v reads) at' refl).0)
            | inr out ↦ out
          ],
        ))

  waits :
      (r : Ptr)
      → r ∈ os.mq_list
      → IsWaiting os.pcb_ptr_allocator os.pcb_ptrs
          (without (map os.pcb_ptrs readers) os.waiting_list)
          (waiters (mqs r))
  waits r at v at' =
      let (before, out) = waiters_left r v at at' in
      let (ne, alive, _) = inv.waits r at v before in
      (
        ne,
        alive,
        others_wait os inv q here readers readers-Distinct readers-waiters r v at before out,
      )

  -- What a queue holds it held before, or it is the new message.
  held : (r x : Ptr) → x ∈ (mqs r).messages → (x ∈ (os.mqs r).messages) ⊎ ((x ≡ m) × (q ≡ r))
  unfolding mqs
  held r x =
      update_cases (λ mq. x ∈ mq.messages → (x ∈ (os.mqs r).messages) ⊎ ((x ≡ m) × (q ≡ r))) os.mqs
        q (delivered_mq (os.mqs q) m) r
        (λ same at. elim (Bool-cases (has x (os.mqs q).messages)) [
          | inl old ↦ inl (subst (λ s. x ∈ (os.mqs s).messages) same old)
          | inr not_old ↦ inr (ground (arith, has-append x (os.mqs q).messages (m ∷ [])), same)
        ])
        (λ other at. inl at)

  apart_cases :
      (r s x : Ptr)
      → r ∈ os.mq_list
      → s ∈ os.mq_list
      → (x ∈ (os.mqs r).messages) ⊎ ((x ≡ m) × (q ≡ r))
      → (x ∈ (os.mqs s).messages) ⊎ ((x ≡ m) × (q ≡ s))
      → r ≡ s
  apart_cases r s x at at' (inl i) (inl j) = inv.apart r s x at at' i j
  apart_cases r s x at at' (inl i) (inr (e, j)) =
      absurd (mem-ne x m (os.mqs r).messages i (new_message r at) e)
  apart_cases r s x at at' (inr (e, i)) (inl j) =
      absurd (mem-ne x m (os.mqs s).messages j (new_message s at') e)
  apart_cases r s x at at' (inr (_, i)) (inr (_, j)) = sym i ∙ j

  -- A write of a message to a queue that is not full keeps the invariant.
  pub delivered-Inv : Inv (delivered os q m b buffer message_length)
  unfolding mqs readers memory
  delivered-Inv = record {
    message_pool = fresh.valid;
    pcb_ptr_pool = inv.pcb_ptr_pool;
    scheduled = woken_processes-IsScheduled os inv q here readers readers-Distinct readers-waiters;
    queues_exist = inv.queues_exist;
    queues = queues;
    stored = stored;
    waits = waits;
    apart = λ r s x at at' i j. apart_cases r s x at at' (held r x i) (held s x j);
    one_place = λ r s w v at at' i j.
        inv.one_place r s w v at at' (waiters_left r w at i).0 (waiters_left s v at' j).0;
  }
