-- ===== src/MessageQueue/Waits.antt =====
-- What it means that a process waits at a queue, for the writers and for the readers.
use mathlib.Core.List.{map-append}
use disastros_msg_queues.Base.{
  ◌≡◌, ◌≢◌, ◌⊎◌, inl, inr, refl, ◌∙◌, ap, ap₂, arith, Bool-cases, List, [], ◌∷◌, ◌++◌, map, has,
  ◌∈◌, ◌∉◌, Ptr, update, update_cases, update_self,
}
use disastros_msg_queues.PoolAllocator.{PoolAllocator}
use disastros_msg_queues.PoolAllocator.Live.{Fresh}
use disastros_msg_queues.Os.{ProcessStatus, Os, MessageQueue}
use disastros_msg_queues.MessageQueue.Invariant.{Inv, IsQueue, waiters}
use disastros_msg_queues.MessageQueue.Contents.{payload, contents, map-update}
use disastros_msg_queues.MessageQueue.Suspend.{suspended}
use disastros_msg_queues.MessageQueue.Suspended.{suspended-Inv}

-- The state in which the process that ran waits in a line of the queue `q`, and `next` runs.
pub record Waits (line : MessageQueue → List Ptr) (os : Os) (q next : Ptr) (rest : List Ptr)
    (os' : Os) : Type 0 where
  pub valid : Inv os'
  pub runs : os'.running ≡ next
  pub is_running : (os'.pcbs next).status ≡ ProcessStatus.running
  pub ready : os'.ready_list ≡ rest
  pub is_waiting : (os'.pcbs os.running).status ≡ ProcessStatus.waiting
  pub on_list : os'.waiting_list ≡ os.waiting_list ++ os.running ∷ []
  pub last_in_line :
      map os'.pcb_ptrs (line (os'.mqs q)) ≡ map os.pcb_ptrs (line (os.mqs q)) ++ os.running ∷ []
  pub same_contents : (r : Ptr) → contents os' r ≡ contents os r

module _ (os : Os) (inv : Inv os) (q p : Ptr) (b : PoolAllocator) (next : Ptr) (rest : List Ptr)
    (here : q ∈ os.mq_list) (fresh : Fresh os.pcb_ptr_allocator p b)
    (head : os.ready_list ≡ next ∷ rest) where
  -- The new item is in no line.
  pub new_in_line : p ∉ waiters (os.mqs q)
  new_in_line = elim (Bool-cases (has p (waiters (os.mqs q)))) [
    | inl in_line ↦ absurd (fresh.new (inv.waits q here p in_line).1)
    | inr out ↦ out
  ]

  contents-suspended :
      (mq : MessageQueue)
      → mq.messages ≡ (os.mqs q).messages
      → (r : Ptr) → contents (suspended os q mq p b next rest) r ≡ contents os r
  contents-suspended mq same r =
      ap (λ ms. map (λ m. payload (os.messages m)) ms)
        (update_cases (λ v. v.messages ≡ (os.mqs r).messages) os.mqs q mq r
          (λ e. same ∙ ap (λ s. (os.mqs s).messages) e) (λ _. refl))

  pub suspended-Waits :
      (line : MessageQueue → List Ptr) (mq : MessageQueue)
      → mq.messages ≡ (os.mqs q).messages
      → line mq ≡ line (os.mqs q) ++ p ∷ []
      → p ∉ line (os.mqs q)
      → IsQueue mq
      → ((w : Ptr) → w ∈ waiters mq → (w ∈ waiters (os.mqs q)) ⊎ (w ≡ p))
      → Waits line os q next rest (suspended os q mq p b next rest)
  suspended-Waits line mq same longer out is_queue joins =
      let apart : os.running ≢ next = ground (arith, inv.scheduled.not_ready, head) in
      record {
        valid = suspended-Inv os inv q p b next rest mq here fresh head same is_queue joins;
        runs = refl;
        is_running = ground arith;
        ready = refl;
        is_waiting = ground arith;
        on_list = refl;
        last_in_line =
            ap (λ v. map (update os.pcb_ptrs p os.running) (line v)) (update_self os.mqs q mq)
            ∙ ap (map (update os.pcb_ptrs p os.running)) longer
            ∙ map-append (update os.pcb_ptrs p os.running) (line (os.mqs q)) (p ∷ [])
            ∙ ap₂ (λ xs x. xs ++ x ∷ [])
                (map-update (λ x. x) os.pcb_ptrs p os.running (line (os.mqs q)) out)
                (update_self os.pcb_ptrs p os.running);
        same_contents = contents-suspended mq same;
      }
