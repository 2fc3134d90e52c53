-- ===== src/Reach/Unseen.antt =====
-- Changes of which the invariants do not speak.
use disastros_msg_queues.Base.{sym}
use disastros_msg_queues.Base.{◌≡◌, refl, List, ◌∈◌, ℕ, ℤ, Ptr, update, update_cases, subst}
use disastros_msg_queues.PoolAllocator.{PoolAllocator}
use disastros_msg_queues.Os.{Os, Pcb, MessageQueue, Descriptor, set_mq}
use disastros_msg_queues.MessageQueue.Invariant.{Inv, IsQueue, IsStored, IsWaiting, waiters}
use disastros_msg_queues.Reach.Sound.{IsSound}

-- The processes' fields, their memory and the descriptors.
pub unseen-IsSound :
    (os : Os) (last_pid : ℕ) (pcbs : Ptr → Pcb) (bytes : Ptr → ℕ) (ints : Ptr → ℤ)
    (descriptors : Ptr → Descriptor) (descriptor_ptrs : Ptr → Ptr) (a b : PoolAllocator)
    → IsSound os
    → IsSound (record os {
      last_pid = last_pid;
      pcbs = pcbs;
      bytes = bytes;
      ints = ints;
      descriptors = descriptors;
      descriptor_ptrs = descriptor_ptrs;
      descriptor_allocator = a;
      descriptor_ptr_allocator = b;
    })
unseen-IsSound os last_pid pcbs bytes ints descriptors descriptor_ptrs a b v =
    let inv = v.inv in
    record {
      inv = record {
        message_pool = inv.message_pool;
        pcb_ptr_pool = inv.pcb_ptr_pool;
        scheduled = inv.scheduled;
        queues_exist = inv.queues_exist;
        queues = inv.queues;
        stored = inv.stored;
        waits = inv.waits;
        apart = inv.apart;
        one_place = inv.one_place;
      };
      pcb_pool = v.pcb_pool;
      alive = v.alive;
      mq_pool = v.mq_pool;
      mqs_live = v.mqs_live;
      mqs_distinct = v.mqs_distinct;
      no_timer = v.no_timer;
    }

abbrev pub with_items : MessageQueue → List Ptr → MessageQueue
with_items mq l = record mq { descriptors_ptrs = l }

module _ (os : Os) (q : Ptr) (l : List Ptr) where
  same_messages :
      (r : Ptr) → (update os.mqs q (with_items (os.mqs q) l) r).messages ≡ (os.mqs r).messages
  same_messages r =
      update_cases (λ mq. mq.messages ≡ (os.mqs r).messages) os.mqs q (with_items (os.mqs q) l) r
        (λ e. subst (λ s. (os.mqs q).messages ≡ (os.mqs s).messages) e refl) (λ _. refl)

  same_waiters :
      (r : Ptr) → waiters (update os.mqs q (with_items (os.mqs q) l) r) ≡ waiters (os.mqs r)
  same_waiters r =
      update_cases (λ mq. waiters mq ≡ waiters (os.mqs r)) os.mqs q (with_items (os.mqs q) l) r
        (λ e. subst (λ s. waiters (os.mqs q) ≡ waiters (os.mqs s)) e refl) (λ _. refl)

  same-IsQueue :
      (r : Ptr) → IsQueue (os.mqs r) → IsQueue (update os.mqs q (with_items (os.mqs q) l) r)
  same-IsQueue r v =
      update_cases IsQueue os.mqs q (with_items (os.mqs q) l) r
        (λ e.
          (let w : IsQueue (os.mqs q) = subst (λ s. IsQueue (os.mqs s)) (sym e) v in
            record {
              counted = w.counted;
              bounded = w.bounded;
              distinct = w.distinct;
              readers = w.readers;
              writers = w.writers;
              in_line = w.in_line;
            }))
        (λ _. v)

  items-Inv : Inv os → Inv (set_mq os q (with_items (os.mqs q) l))
  items-Inv inv = record {
    message_pool = inv.message_pool;
    pcb_ptr_pool = inv.pcb_ptr_pool;
    scheduled = inv.scheduled;
    queues_exist = inv.queues_exist;
    queues = λ r at. same-IsQueue r (inv.queues r at);
    stored = λ r at.
        subst (IsStored os.message_allocator os.messages) (sym (same_messages r)) (inv.stored r at);
    waits = λ r at.
        subst (IsWaiting os.pcb_ptr_allocator os.pcb_ptrs os.waiting_list) (sym (same_waiters r))
          (inv.waits r at);
    apart = λ r s m at at' i j.
        inv.apart r s m at at' (subst (λ ms. m ∈ ms) (same_messages r) i)
          (subst (λ ms. m ∈ ms) (same_messages s) j);
    one_place = λ r s w u at at' i j.
        inv.one_place r s w u at at' (subst (λ ws. w ∈ ws) (same_waiters r) i)
          (subst (λ ws. u ∈ ws) (same_waiters s) j);
  }

  -- The items by which a queue is described.
  pub items-IsSound : IsSound os → IsSound (set_mq os q (with_items (os.mqs q) l))
  items-IsSound v = record {
    inv = items-Inv v.inv;
    pcb_pool = v.pcb_pool;
    alive = v.alive;
    mq_pool = v.mq_pool;
    mqs_live = v.mqs_live;
    mqs_distinct = v.mqs_distinct;
    no_timer = v.no_timer;
  }
