-- ===== src/Reach/Bounds.antt =====
-- What the queues hold in every state that the kernel reaches.
use disastros_msg_queues.Base.{
  ℕ, ◌≡◌, ◌≤◌, inl, inr, refl, sym, ◌∙◌, subst, ap, suc, false, List, [], ◌∷◌, map, length, ◌∈◌,
  pos, pos_part, Ptr,
}
use disastros_msg_queues.Os.{Os, Message}
use disastros_msg_queues.MessageQueue.{max_num_messages, max_len_message}
use disastros_msg_queues.MessageQueue.Bytes.{length-bytes_from}
use disastros_msg_queues.MessageQueue.Contents.{contents, payload}
use disastros_msg_queues.Start.Pools.{Layout}
use disastros_msg_queues.Start.Ready.{IsLayout}
use disastros_msg_queues.Reach.Steps.{Reach}
use disastros_msg_queues.Reach.Safe.{none_in, Reach-IsSound}

length-map : (f : Ptr → List ℕ) (xs : List Ptr) → length (map f xs) ≡ length xs
length-map f [] = refl
length-map f (x ∷ xs) = ap suc (length-map f xs)

length-payload : (m : Message) → length (payload m) ≡ pos_part m.length
length-payload m = length-bytes_from (pos_part m.length) 0 m.message

module _ (l : Layout) (boot : Os) (f f_args : Ptr) (layout : IsLayout l)
    (no_shutdown : boot.shutdown_now ≡ false) where
  -- In every state that the kernel reaches from its start without a fault, the counter of each
  -- listed queue is the number of its messages, which is at most 256, each message that it holds
  -- has at most 64 bytes, and a process that waits to read waits at an empty queue, one that
  -- waits to write at a full one.
  pub Reach-bounded :
      {os : Os}
      → Reach l boot f f_args os
      → (q : Ptr) → q ∈ os.mq_list
      → ((os.mqs q).num_written ≡ pos (length (contents os q)))
        × (length (contents os q) ≤ max_num_messages)
        × ((m : Ptr) → m ∈ (os.mqs q).messages → length (payload (os.messages m)) ≤ max_len_message)
        × ((w : Ptr) → w ∈ (os.mqs q).waiting_to_read → contents os q ≡ [])
        × ((w : Ptr) → w ∈ (os.mqs q).waiting_to_write → length (contents os q) ≡ max_num_messages)
  Reach-bounded {os} r q at =
      let v = (Reach-IsSound l boot f f_args layout no_shutdown r).inv in
      let queue = v.queues q at in
      let same = length-map (λ m. payload (os.messages m)) (os.mqs q).messages in
      (
        queue.counted ∙ ap pos (sym same),
        subst (λ n. n ≤ max_num_messages) (sym same) queue.bounded,
        λ m at'.
            subst (λ n. n ≤ max_len_message) (sym (length-payload (os.messages m)))
              (v.stored q at m at').2,
        λ w at'. elim queue.readers [
          | inl e ↦ absurd (none_in w (os.mqs q).waiting_to_read e at')
          | inr e ↦ ap (map (λ m. payload (os.messages m))) e
        ],
        λ w at'. elim queue.writers [
          | inl e ↦ absurd (none_in w (os.mqs q).waiting_to_write e at')
          | inr e ↦ same ∙ e
        ],
      )
