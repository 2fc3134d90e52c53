-- ===== src/MessageQueue/Destroy.antt =====
-- The destruction of a queue.
use disastros_msg_queues.Base.{
  ◌≡◌, ◌≢◌, refl, ◌∙◌, ap, arith, true, ◌∈◌, ◌∉◌, erase, not-mem-erase, not-mem-erase_self,
  Distinct, pos, ok, Returns, returns, Returns-ok, Ptr, null, is_null-ne,
}
use disastros_msg_queues.PoolAllocator.{PoolAllocator, success, release_block}
use disastros_msg_queues.PoolAllocator.Live.{IsValid, Live, Freed, release_block-Freed}
use disastros_msg_queues.Os.{Os, Pcb}
use disastros_msg_queues.Process.{arg, return_value}
use disastros_msg_queues.MessageQueue
use disastros_msg_queues.MessageQueue.{by_id, is_empty}
use disastros_msg_queues.MessageQueue.Invariant.{Inv}
use disastros_msg_queues.MessageQueue.Lookup.{by_id-mem}
use disastros_msg_queues.MessageQueue.Open.{destroy_mq}
use disastros_msg_queues.MessageQueue.Wake.{detach-mem}
use disastros_msg_queues.MessageQueue.Writes.{named}

-- The state behind the destruction of the queue `q`.
abbrev pub destroyed : Os → (q : Ptr) (b : PoolAllocator) → Os
destroyed os q b =
    return_value (record os { mq_list = erase q os.mq_list; mq_allocator = b }) (pos 0)

-- The invariant speaks of the listed queues only.
pub erased-Inv :
    (os : Os) (q : Ptr) (b : PoolAllocator) (pcbs : Ptr → Pcb)
    → Inv os
    → Inv (record os { mq_list = erase q os.mq_list; mq_allocator = b; pcbs = pcbs })
erased-Inv os q b pcbs inv =
    let before : (r : Ptr) → r ∈ erase q os.mq_list → r ∈ os.mq_list =
      λ r at. ground (arith, not-mem-erase r q os.mq_list) in
    record {
      message_pool = inv.message_pool;
      pcb_ptr_pool = inv.pcb_ptr_pool;
      scheduled = inv.scheduled;
      queues_exist = λ r at. inv.queues_exist r (before r at);
      queues = λ r at. inv.queues r (before r at);
      stored = λ r at. inv.stored r (before r at);
      waits = λ r at. inv.waits r (before r at);
      apart = λ r s m at at'. inv.apart r s m (before r at) (before s at');
      one_place = λ r s w v at at'. inv.one_place r s w v (before r at) (before s at');
    }

destroyed-Inv : (os : Os) (q : Ptr) (b : PoolAllocator) → Inv os → Inv (destroyed os q b)
destroyed-Inv os q b inv = erased-Inv os q b (destroyed os q b).pcbs inv

-- What holds behind a destruction that is carried out.
pub record Destroys (os : Os) (q : Ptr) (os' : Os) : Type 0 where
  pub valid : Inv os'
  pub unlisted : q ∉ os'.mq_list
  pub listed : (r : Ptr) → r ∈ os'.mq_list → r ∈ os.mq_list
  pub freed : Freed os.mq_allocator q os'.mq_allocator
  pub same_queues : os'.mqs ≡ os.mqs
  pub returned : (os'.pcbs os.running).syscall_retvalue ≡ pos 0

module _ (os : Os) (inv : Inv os) where
  module _ (found : named os ≢ null)
      (unused : is_empty (os.mqs (named os)).descriptors_ptrs ≡ true) where
    destroy-result :
        (b : PoolAllocator)
        → release_block os.mq_allocator (named os) ≡ ok (success, b)
        → destroy_mq os ≡ ok (destroyed os (named os) b)
    unfolding destroy_mq MessageQueue.free
    destroy-result b freed = rw (is_null-ne os.running _ _ inv.scheduled.exists) (
        rw (is_null-ne (named os) _ _ found) (
          rw unused (
            rw (detach-mem os.mq_list (named os) found (by_id-mem os os.mq_list (arg os 0) found))
              (rw freed refl))))

    -- The queue that is named, if no process has a descriptor of it and it is a live block of the
    -- valid pool of queues, is destroyed whatever it holds and whoever waits there: no access fails,
    -- the invariant holds again, the queue is in the list no more, which has no new queue, its block
    -- is released, and the result is 0.
    pub destroy-Destroys :
        IsValid os.mq_allocator
        → Live os.mq_allocator (named os)
        → Distinct os.mq_list
        → Returns (Destroys os (named os)) (destroy_mq os)
    destroy-Destroys v alive d =
        let ((r, b), eq, (done, f)) =
          Returns-ok (release_block-Freed os.mq_allocator (named os) v alive) in
        rw (destroy-result b (eq ∙ ap (λ s. ok (s, b)) done)) (
          returns (record {
            valid = destroyed-Inv os (named os) b inv;
            unlisted = not-mem-erase_self (named os) os.mq_list d;
            listed = λ q at. ground (arith, not-mem-erase q (named os) os.mq_list);
            freed = f;
            same_queues = refl;
            returned = ground arith;
          }))
