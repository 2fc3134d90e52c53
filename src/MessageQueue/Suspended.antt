-- ===== src/MessageQueue/Suspended.antt =====
-- A process that is put to wait keeps the invariant.
use disastros_msg_queues.Base.{
  ◌≡◌, ◌≢◌, ◌⊎◌, inl, inr, refl, sym, ◌∙◌, ap, subst, arith, List, [], ◌∷◌, ◌++◌, ◌∈◌, has-append,
  Distinct-append, mem-ne, Ptr, null, update, update_cases, update_ne, update_self,
}
use disastros_msg_queues.PoolAllocator.{PoolAllocator}
use disastros_msg_queues.PoolAllocator.Live.{Live, Fresh}
use disastros_msg_queues.Os.{Os, MessageQueue}
use disastros_msg_queues.MessageQueue.Invariant.{
  Inv, IsQueue, IsStored, IsWaiting, IsScheduled, waiters,
}
use disastros_msg_queues.MessageQueue.Suspend.{suspended}

-- The running process goes to the end of the waiting list, and the first ready process runs.
pub switched-IsScheduled :
    (running next : Ptr) (rest waiting : List Ptr)
    → IsScheduled running (next ∷ rest) waiting
    → IsScheduled next rest (waiting ++ running ∷ [])
switched-IsScheduled running next rest waiting s = record {
  exists = s.ready_exist next (ground arith);
  not_ready = s.ready_distinct.0;
  not_waiting = ground (arith, has-append next waiting (running ∷ []), s.apart next, s.not_ready);
  ready_distinct = s.ready_distinct.1;
  waiting_distinct =
      Distinct-append waiting (running ∷ []) s.waiting_distinct (refl, tt)
        (λ p at. ground (arith, mem-ne p running waiting at s.not_waiting));
  apart = λ p at. ground (arith, has-append p waiting (running ∷ []), s.apart p, s.not_ready);
  ready_exist = λ p at. s.ready_exist p (ground arith);
  waiting_exist =
      λ p at. ground (arith, has-append p waiting (running ∷ []), s.waiting_exist p, s.exists);
}

module _ (os : Os) (inv : Inv os) (q p : Ptr) (b : PoolAllocator) (next : Ptr) (rest : List Ptr)
    (mq : MessageQueue) (here : q ∈ os.mq_list) (fresh : Fresh os.pcb_ptr_allocator p b)
    (head : os.ready_list ≡ next ∷ rest) (same : mq.messages ≡ (os.mqs q).messages)
    (is_queue : IsQueue mq)
    (joins : (w : Ptr) → w ∈ waiters mq → (w ∈ waiters (os.mqs q)) ⊎ (w ≡ p)) where
  mqs : Ptr → MessageQueue
  mqs = update os.mqs q mq

  pcb_ptrs : Ptr → Ptr
  pcb_ptrs = update os.pcb_ptrs p os.running

  messages_same : (r : Ptr) → (mqs r).messages ≡ (os.mqs r).messages
  unfolding mqs
  messages_same r =
      update_cases (λ v. v.messages ≡ (os.mqs r).messages) os.mqs q mq r
        (λ e. same ∙ ap (λ s. (os.mqs s).messages) e) (λ _. refl)

  queues : (r : Ptr) → r ∈ os.mq_list → IsQueue (mqs r)
  unfolding mqs
  queues r at = update_cases IsQueue os.mqs q mq r (λ _. is_queue) (λ _. inv.queues r at)

  -- The new item is the item of no other process.
  new_item : (r w : Ptr) → r ∈ os.mq_list → w ∈ waiters (os.mqs r) → p ≢ w
  new_item r w at at' e =
      fresh.new (subst (Live os.pcb_ptr_allocator) (sym e) (inv.waits r at w at').1)

  before : (r w : Ptr) → w ∈ waiters (mqs r) → (w ∈ waiters (os.mqs r)) ⊎ ((w ≡ p) × (q ≡ r))
  unfolding mqs
  before r w =
      update_cases (λ v. w ∈ waiters v → (w ∈ waiters (os.mqs r)) ⊎ ((w ≡ p) × (q ≡ r))) os.mqs q mq
        r
        (λ e at. elim (joins w at) [
          | inl old ↦ inl (subst (λ s. w ∈ waiters (os.mqs s)) e old)
          | inr new ↦ inr (new, e)
        ])
        (λ _ at. inl at)

  pcb_before : (r w : Ptr) → r ∈ os.mq_list → w ∈ waiters (os.mqs r) → pcb_ptrs w ≡ os.pcb_ptrs w
  unfolding pcb_ptrs
  pcb_before r w at at' = update_ne os.pcb_ptrs p w os.running (new_item r w at at')

  pcb_new : pcb_ptrs p ≡ os.running
  unfolding pcb_ptrs
  pcb_new = update_self os.pcb_ptrs p os.running

  waits :
      (r : Ptr)
      → r ∈ os.mq_list
      → IsWaiting b pcb_ptrs (os.waiting_list ++ os.running ∷ []) (waiters (mqs r))
  waits r at w at' = elim (before r w at') [
    | inl old ↦
        (let (ne, alive, on_list) = inv.waits r at w old in
          (
            ne,
            fresh.keeps w alive,
            rw (pcb_before r w at old)
                (ground (arith, has-append (os.pcb_ptrs w) os.waiting_list (os.running ∷ []))),
          ))
    | inr (e, _) ↦
        subst (λ v. (v ≢ null) × Live b v × (pcb_ptrs v ∈ os.waiting_list ++ os.running ∷ []))
          (sym e)
          (
            fresh.not_null,
            fresh.now,
            rw pcb_new (ground (arith, has-append os.running os.waiting_list (os.running ∷ []))),
          )
  ]

  -- The running process did not wait anywhere.
  not_running : (r w : Ptr) → r ∈ os.mq_list → w ∈ waiters (os.mqs r) → pcb_ptrs w ≢ os.running
  not_running r w at at' e =
      mem-ne (os.pcb_ptrs w) os.running os.waiting_list (inv.waits r at w at').2
        inv.scheduled.not_waiting (sym (pcb_before r w at at') ∙ e)

  one_place_cases :
      (r s w v : Ptr)
      → r ∈ os.mq_list
      → s ∈ os.mq_list
      → (w ∈ waiters (os.mqs r)) ⊎ ((w ≡ p) × (q ≡ r))
      → (v ∈ waiters (os.mqs s)) ⊎ ((v ≡ p) × (q ≡ s))
      → pcb_ptrs w ≡ pcb_ptrs v
      → (r ≡ s) × (w ≡ v)
  one_place_cases r s w v at at' (inl i) (inl j) e =
      inv.one_place r s w v at at' i j (sym (pcb_before r w at i) ∙ e ∙ pcb_before s v at' j)
  one_place_cases r s w v at at' (inl i) (inr (j, _)) e =
      absurd (not_running r w at i (e ∙ ap pcb_ptrs j ∙ pcb_new))
  one_place_cases r s w v at at' (inr (i, _)) (inl j) e =
      absurd (not_running s v at' j (sym e ∙ ap pcb_ptrs i ∙ pcb_new))
  one_place_cases r s w v at at' (inr (i, k)) (inr (j, l)) e = (sym k ∙ l, i ∙ sym j)

  pub suspended-Inv : Inv (suspended os q mq p b next rest)
  unfolding mqs pcb_ptrs
  suspended-Inv = record {
    message_pool = inv.message_pool;
    pcb_ptr_pool = fresh.valid;
    scheduled =
        switched-IsScheduled os.running next rest os.waiting_list
          (subst (λ l. IsScheduled os.running l os.waiting_list) head inv.scheduled);
    queues_exist = inv.queues_exist;
    queues = queues;
    stored = λ r at.
        subst (IsStored os.message_allocator os.messages) (sym (messages_same r)) (inv.stored r at);
    waits = waits;
    apart = λ r s x at at' i j.
        inv.apart r s x at at' (subst (λ l. x ∈ l) (messages_same r) i)
          (subst (λ l. x ∈ l) (messages_same s) j);
    one_place =
        λ r s w v at at' i j e. one_place_cases r s w v at at' (before r w i) (before s v j) e;
  }
