-- ===== src/Reach/Destroys.antt =====
-- The handlers that open and destroy a queue keep what holds in every state.
use disastros_msg_queues.Base.{has}
use disastros_msg_queues.Base.{ok}
use disastros_msg_queues.Base.{
  ◌≡◌, inl, inr, refl, sym, subst, arith, List, ◌∈◌, erase, not-mem-erase, not-mem-erase_self,
  Distinct-erase, ℤ, eqb_ℤ, Holds, holds, stops, Holds-bind, Holds-if, Holds-any, Returns-Holds,
  Ptr, null, is_null, is_null-ne,
}
use disastros_msg_queues.PoolAllocator.{get_block}
use disastros_msg_queues.PoolAllocator.Live.{HasBlock-Fresh, block_left, release_block-Freed}
use disastros_msg_queues.Sequence.{insert_last, detach}
use disastros_msg_queues.Os.{Os, valid}
use disastros_msg_queues.Process.{arg}
use disastros_msg_queues.MessageQueue
use disastros_msg_queues.MessageQueue.{by_id, is_empty}
use disastros_msg_queues.MessageQueue.Open.{create_mode, create, open_mq, destroy_mq}
use disastros_msg_queues.MessageQueue.Creates.{grown}
use disastros_msg_queues.MessageQueue.Destroy.{erased-Inv}
use disastros_msg_queues.MessageQueue.Wake.{insert_last-new}
use disastros_msg_queues.Reach.Sound.{IsSound}
use disastros_msg_queues.Reach.Opens.{returned-IsSound, open_found-IsSound}
use disastros_msg_queues.Reach.Creates.{unlisted, grown-IsSound}

create-exhausted :
    (os : Os) (id mode : ℤ)
    → get_block os.mq_allocator ≡ ok (null, os.mq_allocator)
    → Holds IsSound (create os id mode)
unfolding create MessageQueue.alloc insert_last
create-exhausted os id mode e = rw e stops

create-IsSound : (os : Os) (id mode : ℤ) → IsSound os → Holds IsSound (create os id mode)
unfolding MessageQueue.alloc create
create-IsSound os id mode v = elim (block_left os.mq_allocator v.mq_pool) [
  | inl e ↦ create-exhausted os id mode e
  | inr block ↦
      let f = HasBlock-Fresh os.mq_allocator v.mq_pool block in
      rw (block.gets, is_null-ne block.block _ _ block.exists)
        (rw
          (insert_last-new os.mq_list block.block block.exists
            (unlisted os v id block.block block.rest f))
          (open_found-IsSound (grown os id block.block block.rest) mode block.block
            (grown-IsSound os v id block.block block.rest f)))
]

pub open_mq-IsSound : (os : Os) → IsSound os → Holds IsSound (open_mq os)
unfolding open_mq
open_mq-IsSound os v =
    let q = by_id os os.mq_list (arg os 0) in
    Holds-bind (Holds-any (valid os.running)) λ _ _.
      Holds-if (eqb_ℤ (arg os 1) create_mode)
        (λ _.
          Holds-if (is_null q) (λ _. create-IsSound os (arg os 0) (arg os 1) v)
            (λ _. holds (returned-IsSound os _ v)))
        (λ _. open_found-IsSound os (arg os 1) q v)

-- The queue leaves the list, and then its pool.
unlist-IsSound :
    (os : Os) (q : Ptr)
    → IsSound os
    → q ∈ os.mq_list
    → Holds (λ (_, s). IsSound s) (MessageQueue.free (record os { mq_list = erase q os.mq_list }) q)
unfolding MessageQueue.free
unlist-IsSound os q v at =
    Holds-if (is_empty (os.mqs q).descriptors_ptrs)
      (λ _.
        Holds-bind
          (Returns-Holds (release_block-Freed os.mq_allocator q v.mq_pool (v.mqs_live q at)))
          λ (r, b) (_, f). holds (record {
            inv = erased-Inv os q b os.pcbs v.inv;
            pcb_pool = v.pcb_pool;
            alive = v.alive;
            mq_pool = f.valid;
            mqs_live = λ r at'.
                f.keeps r (λ e. ground (arith, not-mem-erase_self q os.mq_list v.mqs_distinct))
                  (v.mqs_live r (ground (arith, not-mem-erase r q os.mq_list)));
            mqs_distinct = Distinct-erase q os.mq_list v.mqs_distinct;
            no_timer = v.no_timer;
          }))
      (λ _. stops)

detach-erases : (xs : List Ptr) (x : Ptr) → Holds (λ ys. (x ∈ xs) × (ys ≡ erase x xs)) (detach xs x)
unfolding detach
detach-erases xs x =
    Holds-if (is_null x) (λ _. stops) λ _. Holds-if (has x xs) (λ e. holds (e, refl)) λ _. stops

pub destroy_mq-IsSound : (os : Os) → IsSound os → Holds IsSound (destroy_mq os)
unfolding destroy_mq
destroy_mq-IsSound os v =
    let q = by_id os os.mq_list (arg os 0) in
    Holds-bind (Holds-any (valid os.running)) λ _ _.
      Holds-if (is_null q) (λ _. holds (returned-IsSound os _ v))
        λ _.
          Holds-if (is_empty (os.mqs q).descriptors_ptrs)
            (λ _. Holds-bind (detach-erases os.mq_list q) λ l (at, e).
              Holds-bind
                (subst
                  (λ l.
                    Holds (λ (_, s). IsSound s) (MessageQueue.free (record os { mq_list = l }) q))
                  (sym e) (unlist-IsSound os q v at))
                λ (_, s) w. holds (returned-IsSound s _ w))
            (λ _. holds (returned-IsSound os _ v))
