-- ===== src/MessageQueue/Described.antt =====
-- The descriptor that a process gets of a queue, in one equation.
use disastros_msg_queues.Base.{==_refl}
use disastros_msg_queues.Base.{
  ℕ, suc, ◌≡◌, ◌≢◌, ap₂, fun_ext, arith, [], ◌∷◌, ◌++◌, ◌∉◌, pos, ok, Ptr, null, is_null-ne, update,
}
use disastros_msg_queues.PoolAllocator.{PoolAllocator, get_block}
use disastros_msg_queues.Os.{Os, Pcb, Descriptor, MessageQueue}
use disastros_msg_queues.Descriptor
use disastros_msg_queues.MessageQueue.Open.{describe}
use disastros_msg_queues.MessageQueue.Wake.{insert_last-new}

-- The number that the running process's next descriptor gets.
abbrev pub next_number : Os → ℕ
next_number os = (os.pcbs os.running).last_fd

abbrev pub descriptor_of : Os → (q desptr : Ptr) → Descriptor
descriptor_of os q desptr = record {
  pcb = os.running;
  resource = null;
  mq = q;
  fd = next_number os;
  ptr = desptr;
}

abbrev pub holder : Os → (des : Ptr) → Pcb
holder os des = record (os.pcbs os.running) {
  last_fd = suc (next_number os);
  descriptors = (os.pcbs os.running).descriptors ++ des ∷ [];
  syscall_retvalue = pos (next_number os);
}

abbrev pub held : MessageQueue → (desptr : Ptr) → MessageQueue
held mq desptr = record mq { descriptors_ptrs = mq.descriptors_ptrs ++ desptr ∷ [] }

-- The state, given its maps of objects.
abbrev with_objects :
    Os
    → (d e : PoolAllocator) (descriptors : Ptr → Descriptor) (descriptor_ptrs : Ptr → Ptr)
      (mqs : Ptr → MessageQueue) (pcbs : Ptr → Pcb)
    → Os
with_objects os d e descriptors descriptor_ptrs mqs pcbs = record os {
  descriptor_allocator = d;
  descriptor_ptr_allocator = e;
  descriptors = descriptors;
  descriptor_ptrs = descriptor_ptrs;
  mqs = mqs;
  pcbs = pcbs;
}

-- The running process has the descriptor `des` of the queue `q`, which has the item `desptr`.
abbrev pub described :
    Os → (q des : Ptr) (d : PoolAllocator) (desptr : Ptr) (e : PoolAllocator) → Os
described os q des d desptr e =
    with_objects os d e (update os.descriptors des (descriptor_of os q desptr))
      (update os.descriptor_ptrs desptr des) (update os.mqs q (held (os.mqs q) desptr))
      (update os.pcbs os.running (holder os des))

pub describe-ok :
    (os : Os) (q des : Ptr) (d : PoolAllocator) (desptr : Ptr) (e : PoolAllocator)
    → get_block os.descriptor_allocator ≡ ok (des, d)
    → des ≢ null
    → get_block os.descriptor_ptr_allocator ≡ ok (desptr, e)
    → desptr ≢ null
    → des ∉ (os.pcbs os.running).descriptors
    → desptr ∉ (os.mqs q).descriptors_ptrs
    → describe os q ≡ ok (described os q des d desptr e)
unfolding describe Descriptor.alloc_mq Descriptor.ptr_alloc
describe-ok os q des d desptr e first exists second exists' new new' =
    rw (first, is_null-ne des _ _ exists)
      (rw (is_null-ne des _ _ exists, second)
        (rw (is_null-ne desptr _ _ exists', ==_refl os.running)
          (rw (insert_last-new (os.pcbs os.running).descriptors des exists new) (
            rw (insert_last-new (os.mqs q).descriptors_ptrs desptr exists' new') (
              ap₂
                (λ ds pcbs. ok (
                  with_objects os d e ds (update os.descriptor_ptrs desptr des)
                    (update os.mqs q (held (os.mqs q) desptr)) pcbs))
                (fun_ext λ p. ground arith) (fun_ext λ p. ground arith))))))
