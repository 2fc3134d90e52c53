-- ===== src/MessageQueue/Received.antt =====
-- A read keeps the invariant.
use mathlib.Core.List.{append-nil}
use disastros_msg_queues.Base.{
  ◌≡◌, inl, inr, refl, sym, ◌∙◌, ap, subst, arith, Bool-cases, List, ◌∷◌, map, length, has, ◌∈◌,
  ◌∉◌, has-append, Distinct, without, Distinct-left, Distinct-right, Distinct-apart, pos, pos-pred,
  ◌-ℤ◌, Ptr, update, update_cases,
}
use disastros_msg_queues.PoolAllocator.{PoolAllocator}
use disastros_msg_queues.Os.{Os, MessageQueue}
use disastros_msg_queues.MessageQueue.Invariant.{Inv, IsQueue, IsWaiting, waiters}
use disastros_msg_queues.MessageQueue.Receive.{received_mq, received}
use disastros_msg_queues.MessageQueue.WakeWriters.{FreedAll}
use disastros_msg_queues.MessageQueue.Woken.{woken_processes-IsScheduled, others_wait}

module _ (os : Os) (inv : Inv os) (q m : Ptr) (rest : List Ptr) (b : PoolAllocator) (buffer : Ptr)
    (here : q ∈ os.mq_list) (first : (os.mqs q).messages ≡ m ∷ rest)
    (freed : FreedAll os.pcb_ptr_allocator (os.mqs q).waiting_to_write b) where
  writers : List Ptr
  writers = (os.mqs q).waiting_to_write

  mqs : Ptr → MessageQueue
  mqs = update os.mqs q (received_mq (os.mqs q) rest)

  writers-Distinct : Distinct writers
  unfolding writers
  writers-Distinct =
      Distinct-right (os.mqs q).waiting_to_read (os.mqs q).waiting_to_write
        (inv.queues q here).in_line

  writers-waiters : (w : Ptr) → w ∈ writers → w ∈ waiters (os.mqs q)
  unfolding writers
  writers-waiters w at =
      ground (arith, has-append w (os.mqs q).waiting_to_read (os.mqs q).waiting_to_write)

  received-IsQueue : IsQueue (received_mq (os.mqs q) rest)
  received-IsQueue =
      let old = inv.queues q here in
      let mq = os.mqs q in
      record {
        counted =
            ap (λ k. k -ℤ pos 1) (old.counted ∙ ap (λ ms. pos (length ms)) first)
            ∙ pos-pred (length rest);
        bounded = ground (arith, old.bounded, ap length first);
        distinct = (subst Distinct first old.distinct).1;
        readers = elim old.readers [ inl e ↦ inl e | inr e ↦ absurd (ground (arith, first, e)) ];
        writers = inl refl;
        in_line =
            subst Distinct (sym (append-nil mq.waiting_to_read))
              (Distinct-left mq.waiting_to_read mq.waiting_to_write old.in_line);
      }

  queues : (r : Ptr) → r ∈ os.mq_list → IsQueue (mqs r)
  unfolding mqs
  queues r at =
      update_cases IsQueue os.mqs q (received_mq (os.mqs q) rest) r (λ _. received-IsQueue)
        (λ _. inv.queues r at)

  -- What a queue holds it held before.
  held : (r x : Ptr) → x ∈ (mqs r).messages → x ∈ (os.mqs r).messages
  unfolding mqs
  held r x =
      update_cases (λ mq. x ∈ mq.messages → x ∈ (os.mqs r).messages) os.mqs q
        (received_mq (os.mqs q) rest) r
        (λ same at.
          subst (λ s. x ∈ (os.mqs s).messages) same
            (subst (λ ms. x ∈ ms) (sym first) (ground arith)))
        (λ other at. at)

  -- A waiter that is left waited before, and is not one of the writers of `q`.
  waiters_left :
      (r v : Ptr) → r ∈ os.mq_list → v ∈ waiters (mqs r) → (v ∈ waiters (os.mqs r)) × (v ∉ writers)
  unfolding mqs writers
  waiters_left r v at =
      update_cases (λ mq. v ∈ waiters mq → (v ∈ waiters (os.mqs r)) × (v ∉ writers)) os.mqs q
        (received_mq (os.mqs q) rest) r
        (λ same at'.
          let reads = subst (λ l. v ∈ l) (append-nil (os.mqs q).waiting_to_read) at' in
          subst (λ s. (v ∈ waiters (os.mqs s)) × (v ∉ (os.mqs q).waiting_to_write)) same
            (
              ground (arith, has-append v (os.mqs q).waiting_to_read (os.mqs q).waiting_to_write),
              elim (Bool-cases (has v (os.mqs q).waiting_to_write)) [
                | inl writes ↦
                    (let out =
                        Distinct-apart (os.mqs q).waiting_to_read (os.mqs q).waiting_to_write v
                          (inv.queues q here).in_line writes in
                      ground arith)
                | inr out ↦ out
              ],
            ))
        (λ other at'. (
          at',
          elim (Bool-cases (has v (os.mqs q).waiting_to_write)) [
            | inl writes ↦
                absurd (other (inv.one_place q r v v here at (writers-waiters v writes) at' refl).0)
            | inr out ↦ out
          ],
        ))

  waits :
      (r : Ptr)
      → r ∈ os.mq_list
      → IsWaiting b os.pcb_ptrs
          (without (map os.pcb_ptrs writers) os.waiting_list)
          (waiters (mqs r))
  unfolding writers
  waits r at v at' =
      let (before, out) = waiters_left r v at at' in
      let (ne, alive, _) = inv.waits r at v before in
      (
        ne,
        freed.keeps v out alive,
        others_wait os inv q here writers writers-Distinct writers-waiters r v at before out,
      )

  -- A read of the first message of a queue keeps the invariant.
  pub received-Inv : Inv (received os q m rest b buffer)
  unfolding mqs writers
  received-Inv = record {
    message_pool = inv.message_pool;
    pcb_ptr_pool = freed.valid;
    scheduled = woken_processes-IsScheduled os inv q here writers writers-Distinct writers-waiters;
    queues_exist = inv.queues_exist;
    queues = queues;
    stored = λ r at x at'. inv.stored r at x (held r x at');
    waits = waits;
    apart = λ r s x at at' i j. inv.apart r s x at at' (held r x i) (held s x j);
    one_place = λ r s w v at at' i j.
        inv.one_place r s w v at at' (waiters_left r w at i).0 (waiters_left s v at' j).0;
  }
