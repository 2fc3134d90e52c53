-- ===== src/Reach/Resources.antt =====
-- The calls on resources keep what holds in every state.
use disastros_msg_queues.Base.{
  ℤ, List, ◌&&◌, ◌||◌, not, Holds, holds, stops, Holds-bind, Holds-if, Holds-any, Ptr, is_null,
  eqb_ℤ,
}
use disastros_msg_queues.PoolAllocator.{PoolAllocator, get_block, release_block}
use disastros_msg_queues.Sequence.{insert_last, detach}
use disastros_msg_queues.Os.{Os, valid}
use disastros_msg_queues.Process.{arg}
use disastros_msg_queues.Descriptor
use disastros_msg_queues.Descriptor.{set_descriptors, next_fd, set_ptr}
use disastros_msg_queues.MessageQueue.{is_empty}
use disastros_msg_queues.Resource
use disastros_msg_queues.Resource.{
  has_bit, set_items, describe, open_found, create, open_resource, close_found, close_resource,
  destroy_resource,
}
use disastros_msg_queues.Reach.Sound.{IsSound}
use disastros_msg_queues.Reach.Unseen.{unseen-IsSound}
use disastros_msg_queues.Reach.Opens.{
  returned-IsSound, pcbs-IsSound, free-IsSound, ptr_alloc-IsSound, ptr_free-IsSound,
}

resources-IsSound :
    (os : Os) (resources : Ptr → _) (l : List Ptr) (a : PoolAllocator)
    → IsSound os
    → IsSound (record os { resources = resources; resources_list = l; resource_allocator = a })
resources-IsSound os resources l a v =
    let inv = v.inv in
    record {
      inv = record {
        message_pool = inv.message_pool;
        pcb_ptr_pool = inv.pcb_ptr_pool;
        scheduled = inv.scheduled;
        queues_exist = inv.queues_exist;
        queues = inv.queues;
        stored = inv.stored;
        waits = inv.waits;
        apart = inv.apart;
        one_place = inv.one_place;
      };
      pcb_pool = v.pcb_pool;
      alive = v.alive;
      mq_pool = v.mq_pool;
      mqs_live = v.mqs_live;
      mqs_distinct = v.mqs_distinct;
      no_timer = v.no_timer;
    }

alloc-IsSound :
    (os : Os) (fd : _) (res pcb : Ptr)
    → IsSound os
    → Holds (λ (_, s). IsSound s) (Descriptor.alloc os fd res pcb)
unfolding Descriptor.alloc
alloc-IsSound os fd res pcb v =
    Holds-bind (Holds-any (get_block os.descriptor_allocator)) λ (d, a) _.
      Holds-if (is_null d) (λ _. holds v)
        λ _. holds (
          unseen-IsSound os os.last_pid os.pcbs os.bytes os.ints _ os.descriptor_ptrs a
            os.descriptor_ptr_allocator v)

describe-IsSound : (os : Os) (res : Ptr) → IsSound os → Holds IsSound (describe os res)
unfolding describe
describe-IsSound os res v =
    Holds-bind (alloc-IsSound os (os.pcbs os.running).last_fd res os.running v) λ (des, s) v.
      Holds-if (is_null des) (λ _. holds (returned-IsSound s _ v))
        λ _.
          Holds-bind (ptr_alloc-IsSound (next_fd s) des (pcbs-IsSound s (next_fd s).pcbs v))
            λ (desptr, s) v.
              Holds-bind (Holds-any (insert_last (s.pcbs s.running).descriptors des)) λ ds _.
                let s' = set_ptr (set_descriptors s ds) des desptr in
                let v' : IsSound s' =
                  unseen-IsSound s s.last_pid s'.pcbs s.bytes s.ints s'.descriptors
                    s.descriptor_ptrs s.descriptor_allocator s.descriptor_ptr_allocator v in
                Holds-bind (Holds-any (insert_last (s'.resources res).descriptors_ptrs desptr))
                  λ l _. holds (
                    returned-IsSound _ _ (
                      resources-IsSound s' (set_items s' res l).resources s'.resources_list
                        s'.resource_allocator v'))

open_found-IsSound :
    (os : Os) (type mode : ℤ) (res : Ptr) → IsSound os → Holds IsSound (open_found os type mode res)
unfolding open_found
open_found-IsSound os type mode res v =
    Holds-if (is_null res || not (eqb_ℤ (os.resources res).type type))
      (λ _. holds (returned-IsSound os _ v))
      λ _.
        Holds-if (has_bit mode 4 && not (is_empty (os.resources res).descriptors_ptrs))
          (λ _. holds (returned-IsSound os _ v)) λ _. describe-IsSound os res v

resource_alloc-IsSound :
    (os : Os) (id type : ℤ) → IsSound os → Holds (λ (_, s). IsSound s) (Resource.alloc os id type)
unfolding Resource.alloc
resource_alloc-IsSound os id type v =
    Holds-bind (Holds-any (get_block os.resource_allocator)) λ (r, a) _.
      Holds-if (is_null r) (λ _. holds v) λ _. holds (resources-IsSound os _ os.resources_list a v)

create-IsSound : (os : Os) (id type mode : ℤ) → IsSound os → Holds IsSound (create os id type mode)
unfolding create
create-IsSound os id type mode v = Holds-bind (resource_alloc-IsSound os id type v) λ (res, s) w.
    Holds-bind (Holds-any (insert_last s.resources_list res)) λ l _.
      open_found-IsSound (record s { resources_list = l }) type mode res
        (resources-IsSound s s.resources l s.resource_allocator w)

pub open_resource-IsSound : (os : Os) → IsSound os → Holds IsSound (open_resource os)
unfolding open_resource
open_resource-IsSound os v =
    let res = Resource.by_id os os.resources_list (arg os 0) in
    Holds-bind (Holds-any (valid os.running)) λ _ _.
      Holds-if (has_bit (arg os 2) 1)
        (λ _.
          Holds-if (is_null res) (λ _. create-IsSound os (arg os 0) (arg os 1) (arg os 2) v)
            (λ _. holds (returned-IsSound os _ v)))
        (λ _. open_found-IsSound os (arg os 1) (arg os 2) res v)

close_found-IsSound : (os : Os) (des : Ptr) → IsSound os → Holds IsSound (close_found os des)
unfolding close_found
close_found-IsSound os des v =
    Holds-bind (Holds-any (detach (os.pcbs os.running).descriptors des)) λ ds _.
      let s = set_descriptors os ds in
      Holds-bind (Holds-any (valid (s.descriptors des).resource)) λ res _.
        Holds-bind (Holds-any (detach (s.resources res).descriptors_ptrs (s.descriptors des).ptr))
          λ l _.
            Holds-bind
              (free-IsSound _ des (
                resources-IsSound s (set_items s res l).resources s.resources_list
                  s.resource_allocator (pcbs-IsSound os s.pcbs v)))
              λ (_, t) w.
                Holds-bind (ptr_free-IsSound t (s.descriptors des).ptr w)
                  λ (_, t) w. holds (returned-IsSound t _ w)

pub close_resource-IsSound : (os : Os) → IsSound os → Holds IsSound (close_resource os)
unfolding close_resource
close_resource-IsSound os v = Holds-bind (Holds-any (valid os.running)) λ _ _.
    let des = Descriptor.by_fd os (os.pcbs os.running).descriptors (arg os 0) in
    Holds-if (is_null des) (λ _. holds (returned-IsSound os _ v)) λ _. close_found-IsSound os des v

resource_free-IsSound :
    (os : Os) (res : Ptr) → IsSound os → Holds (λ (_, s). IsSound s) (Resource.free os res)
unfolding Resource.free
resource_free-IsSound os res v =
    Holds-if (is_empty (os.resources res).descriptors_ptrs)
      (λ _.
        Holds-bind (Holds-any (release_block os.resource_allocator res))
          λ (_, a) _. holds (resources-IsSound os os.resources os.resources_list a v))
      (λ _. stops)

pub destroy_resource-IsSound : (os : Os) → IsSound os → Holds IsSound (destroy_resource os)
unfolding destroy_resource
destroy_resource-IsSound os v =
    let res = Resource.by_id os os.resources_list (arg os 0) in
    Holds-bind (Holds-any (valid os.running)) λ _ _.
      Holds-if (is_null res) (λ _. holds (returned-IsSound os _ v))
        λ _.
          Holds-if (is_empty (os.resources res).descriptors_ptrs)
            (λ _. Holds-bind (Holds-any (detach os.resources_list res)) λ l _.
              Holds-bind
                (resource_free-IsSound (record os { resources_list = l }) res
                  (resources-IsSound os os.resources l os.resource_allocator v))
                λ (_, s) w. holds (returned-IsSound s _ w))
            (λ _. holds (returned-IsSound os _ v))
