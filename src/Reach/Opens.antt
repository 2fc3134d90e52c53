-- ===== src/Reach/Opens.antt =====
-- Opening, closing and destroying a queue keep what holds in every state.
use disastros_msg_queues.Base.{◌&&◌, not}
use disastros_msg_queues.Base.{
  ℤ, Holds, holds, Holds-bind, Holds-if, Holds-any, Ptr, is_null, eqb_ℤ,
}
use disastros_msg_queues.PoolAllocator.{get_block, release_block}
use disastros_msg_queues.Sequence.{insert_last, detach}
use disastros_msg_queues.Os.{Os, valid}
use disastros_msg_queues.Process.{arg, return_value}
use disastros_msg_queues.Descriptor
use disastros_msg_queues.Descriptor.{set_descriptors, next_fd, set_ptr}
use disastros_msg_queues.MessageQueue.{is_empty}
use disastros_msg_queues.MessageQueue.Open.{excl_mode, describe, open_found, close_found, close_mq}
use disastros_msg_queues.Reach.Sound.{IsSound}
use disastros_msg_queues.Reach.Unseen.{unseen-IsSound, items-IsSound}

pub returned-IsSound : (os : Os) (v : ℤ) → IsSound os → IsSound (return_value os v)
returned-IsSound os v s =
    unseen-IsSound os os.last_pid (return_value os v).pcbs os.bytes os.ints os.descriptors
      os.descriptor_ptrs os.descriptor_allocator os.descriptor_ptr_allocator s

alloc_mq-IsSound :
    (os : Os) (fd : _) (q pcb : Ptr)
    → IsSound os
    → Holds (λ (_, s). IsSound s) (Descriptor.alloc_mq os fd q pcb)
unfolding Descriptor.alloc_mq
alloc_mq-IsSound os fd q pcb v =
    Holds-bind (Holds-any (get_block os.descriptor_allocator)) λ (d, a) _.
      Holds-if (is_null d) (λ _. holds v)
        λ _. holds (
          unseen-IsSound os os.last_pid os.pcbs os.bytes os.ints _ os.descriptor_ptrs a
            os.descriptor_ptr_allocator v)

pub ptr_alloc-IsSound :
    (os : Os) (d : Ptr) → IsSound os → Holds (λ (_, s). IsSound s) (Descriptor.ptr_alloc os d)
unfolding Descriptor.ptr_alloc
ptr_alloc-IsSound os d v =
    Holds-bind (Holds-any (get_block os.descriptor_ptr_allocator)) λ (p, a) _.
      Holds-if (is_null p) (λ _. holds v)
        λ _. holds (
          unseen-IsSound os os.last_pid os.pcbs os.bytes os.ints os.descriptors _
            os.descriptor_allocator a v)

pub free-IsSound :
    (os : Os) (d : Ptr) → IsSound os → Holds (λ (_, s). IsSound s) (Descriptor.free os d)
unfolding Descriptor.free
free-IsSound os d v = Holds-bind (Holds-any (release_block os.descriptor_allocator d)) λ (r, a) _.
    holds (
      unseen-IsSound os os.last_pid os.pcbs os.bytes os.ints os.descriptors os.descriptor_ptrs a
        os.descriptor_ptr_allocator v)

pub ptr_free-IsSound :
    (os : Os) (d : Ptr) → IsSound os → Holds (λ (_, s). IsSound s) (Descriptor.ptr_free os d)
unfolding Descriptor.ptr_free
ptr_free-IsSound os d v =
    Holds-bind (Holds-any (release_block os.descriptor_ptr_allocator d)) λ (r, a) _. holds (
      unseen-IsSound os os.last_pid os.pcbs os.bytes os.ints os.descriptors os.descriptor_ptrs
        os.descriptor_allocator a v)

pub pcbs-IsSound : (os : Os) (pcbs : Ptr → _) → IsSound os → IsSound (record os { pcbs = pcbs })
pcbs-IsSound os pcbs v =
    unseen-IsSound os os.last_pid pcbs os.bytes os.ints os.descriptors os.descriptor_ptrs
      os.descriptor_allocator os.descriptor_ptr_allocator v

describe-IsSound : (os : Os) (q : Ptr) → IsSound os → Holds IsSound (describe os q)
unfolding describe
describe-IsSound os q v =
    Holds-bind (alloc_mq-IsSound os (os.pcbs os.running).last_fd q os.running v) λ (des, s) v.
      Holds-if (is_null des) (λ _. holds (returned-IsSound s _ v))
        λ _.
          Holds-bind (ptr_alloc-IsSound (next_fd s) des (pcbs-IsSound s (next_fd s).pcbs v))
            λ (desptr, s) v.
              Holds-bind (Holds-any (insert_last (s.pcbs s.running).descriptors des)) λ ds _.
                let s' = set_ptr (set_descriptors s ds) des desptr in
                let v' : IsSound s' =
                  unseen-IsSound s s.last_pid s'.pcbs s.bytes s.ints s'.descriptors
                    s.descriptor_ptrs s.descriptor_allocator s.descriptor_ptr_allocator v in
                Holds-bind (Holds-any (insert_last (s'.mqs q).descriptors_ptrs desptr))
                  λ l _. holds (returned-IsSound _ _ (items-IsSound s' q l v'))

pub open_found-IsSound :
    (os : Os) (mode : ℤ) (q : Ptr) → IsSound os → Holds IsSound (open_found os mode q)
unfolding open_found
open_found-IsSound os mode q v =
    Holds-if (is_null q) (λ _. holds (returned-IsSound os _ v))
      λ _.
        Holds-if (eqb_ℤ mode excl_mode && not (is_empty (os.mqs q).descriptors_ptrs))
          (λ _. holds (returned-IsSound os _ v)) λ _. describe-IsSound os q v

close_found-IsSound : (os : Os) (des : Ptr) → IsSound os → Holds IsSound (close_found os des)
unfolding close_found
close_found-IsSound os des v =
    Holds-bind (Holds-any (detach (os.pcbs os.running).descriptors des)) λ ds _.
      let s = set_descriptors os ds in
      Holds-bind (Holds-any (valid (s.descriptors des).mq)) λ q _.
        Holds-bind (Holds-any (detach (s.mqs q).descriptors_ptrs (s.descriptors des).ptr)) λ l _.
          Holds-bind (free-IsSound _ des (items-IsSound s q l (pcbs-IsSound os s.pcbs v)))
            λ (_, t) w.
              Holds-bind (ptr_free-IsSound t (s.descriptors des).ptr w)
                λ (_, t) w. holds (returned-IsSound t _ w)

pub close_mq-IsSound : (os : Os) → IsSound os → Holds IsSound (close_mq os)
unfolding close_mq
close_mq-IsSound os v = Holds-bind (Holds-any (valid os.running)) λ _ _.
    let des = Descriptor.by_fd os (os.pcbs os.running).descriptors (arg os 0) in
    Holds-if (is_null des) (λ _. holds (returned-IsSound os _ v)) λ _. close_found-IsSound os des v
