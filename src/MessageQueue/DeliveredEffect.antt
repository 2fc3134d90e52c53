-- ===== src/MessageQueue/DeliveredEffect.antt =====
-- What a write changes: the contents of its queue, and the processes that it wakes.
use mathlib.Core.List.{map-append}
use disastros_msg_queues.Base.{
  refl, ◌+◌, ◌≡◌, ◌≢◌, ◌∙◌, ap, ap₂, arith, List, [], ◌∷◌, ◌++◌, map, ◌∈◌, ◌∉◌, ℤ, pos_part, Ptr,
  update, update_ne, update_self, update_cases, eqb_ℤ, if◌then◌else◌,
}
use disastros_msg_queues.PoolAllocator.{PoolAllocator}
use disastros_msg_queues.Os.{ProcessStatus, Os, MessageQueue, Message}
use disastros_msg_queues.MessageQueue.{by_id}
use disastros_msg_queues.MessageQueue.Write.{woken}
use disastros_msg_queues.MessageQueue.Contents.{payload, contents, bytes_at, map-update}
use disastros_msg_queues.MessageQueue.Bytes.{bytes_from-copy_front}
use disastros_msg_queues.MessageQueue.Deliver.{filled, delivered_mq, delivered}

module _ (os : Os) (q m : Ptr) (b : PoolAllocator) (buffer : Ptr) (size : ℤ) where
  memory : Ptr → Message
  memory = update os.messages m (filled os m buffer size)

  new_payload : payload (memory m) ≡ bytes_at os buffer (pos_part size)
  unfolding memory
  new_payload =
      ap payload (update_self os.messages m (filled os m buffer size))
      ∙ bytes_from-copy_front (pos_part size) (λ i. os.bytes (buffer + i)) (os.messages m).message

  old_payloads :
      (ms : List Ptr)
      → m ∉ ms
      → map (λ x. payload (memory x)) ms ≡ map (λ x. payload (os.messages x)) ms
  unfolding memory
  old_payloads ms out = map-update payload os.messages m (filled os m buffer size) ms out

  pub contents-delivered :
      m ∉ (os.mqs q).messages
      → contents (delivered os q m b buffer size) q
        ≡ contents os q ++ bytes_at os buffer (pos_part size) ∷ []
  unfolding memory
  contents-delivered out =
      ap (λ (mq : MessageQueue). map (λ x. payload (memory x)) mq.messages)
        (update_self os.mqs q (delivered_mq (os.mqs q) m))
      ∙ map-append (λ x. payload (memory x)) (os.mqs q).messages (m ∷ [])
      ∙ ap₂ (λ xs ys. xs ++ ys ∷ []) (old_payloads (os.mqs q).messages out) new_payload

  pub contents-delivered_ne :
      (r : Ptr)
      → q ≢ r
      → m ∉ (os.mqs r).messages
      → contents (delivered os q m b buffer size) r ≡ contents os r
  unfolding memory
  contents-delivered_ne r ne out =
      ap (λ (mq : MessageQueue). map (λ x. payload (memory x)) mq.messages)
        (update_ne os.mqs q r (delivered_mq (os.mqs q) m) ne)
      ∙ old_payloads (os.mqs r).messages out

  pub readers-delivered : ((delivered os q m b buffer size).mqs q).waiting_to_read ≡ []
  readers-delivered =
      ap (λ (mq : MessageQueue). mq.waiting_to_read)
        (update_self os.mqs q (delivered_mq (os.mqs q) m))

  pub woken-delivered :
      (p : Ptr)
      → p ∈ map os.pcb_ptrs (os.mqs q).waiting_to_read
      → os.running ≢ p
      → (((delivered os q m b buffer size).pcbs p).status ≡ ProcessStatus.ready)
        × (((delivered os q m b buffer size).pcbs p).syscall_retvalue ≡ woken)
  woken-delivered p at ne = (ground arith, ground arith)

  pub returned-delivered :
      ((delivered os q m b buffer size).pcbs os.running).syscall_retvalue ≡ size
  returned-delivered = ground arith

  id-delivered : (r : Ptr) → ((delivered os q m b buffer size).mqs r).id ≡ (os.mqs r).id
  id-delivered r =
      update_cases (λ v. v.id ≡ (os.mqs r).id) os.mqs q (delivered_mq (os.mqs q) m) r
        (λ e. ap (λ s. (os.mqs s).id) e) (λ _. refl)

  pub by_id-delivered :
      (qs : List Ptr) (id : ℤ) → by_id (delivered os q m b buffer size) qs id ≡ by_id os qs id
  unfolding by_id
  by_id-delivered [] id = refl
  by_id-delivered (r ∷ qs) id =
      ap₂ (λ i p. if eqb_ℤ i id then r else p) (id-delivered r) (by_id-delivered qs id)
