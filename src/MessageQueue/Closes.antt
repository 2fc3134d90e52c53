-- ===== src/MessageQueue/Closes.antt =====
-- A process closes the descriptor that it was given last.
use disastros_msg_queues.Base.{
  ◌≡◌, ◌≢◌, ap, fun_ext, arith, ◌∈◌, erase, pos, ok, Ptr, null, is_null-ne, update,
}
use disastros_msg_queues.PoolAllocator.{PoolAllocator, PoolAllocatorResult, release_block}
use disastros_msg_queues.Os.{Os, Pcb, MessageQueue}
use disastros_msg_queues.Descriptor
use disastros_msg_queues.MessageQueue.Open.{close_found}
use disastros_msg_queues.MessageQueue.Wake.{detach-mem}

abbrev with_objects : Os → (d e : PoolAllocator) (mqs : Ptr → MessageQueue) (pcbs : Ptr → Pcb) → Os
with_objects os d e mqs pcbs = record os {
  descriptor_allocator = d;
  descriptor_ptr_allocator = e;
  mqs = mqs;
  pcbs = pcbs;
}

abbrev pub left_alone : Os → (des : Ptr) → Pcb
left_alone os des = record (os.pcbs os.running) {
  descriptors = erase des (os.pcbs os.running).descriptors;
  syscall_retvalue = pos 0;
}

abbrev pub let_go : MessageQueue → (desptr : Ptr) → MessageQueue
let_go mq desptr = record mq { descriptors_ptrs = erase desptr mq.descriptors_ptrs }

-- The descriptor `des` of the queue `q` is gone, and so is the queue's item `desptr`.
abbrev pub closed : Os → (q des : Ptr) (d : PoolAllocator) (desptr : Ptr) (e : PoolAllocator) → Os
closed os q des d desptr e =
    with_objects os d e (update os.mqs q (let_go (os.mqs q) desptr))
      (update os.pcbs os.running (left_alone os des))

pub close_found-ok :
    (os : Os) (q des : Ptr) (d : PoolAllocator) (desptr : Ptr) (e : PoolAllocator)
    (r r' : PoolAllocatorResult)
    → des ≢ null
    → des ∈ (os.pcbs os.running).descriptors
    → (os.descriptors des).mq ≡ q
    → q ≢ null
    → (os.descriptors des).ptr ≡ desptr
    → desptr ≢ null
    → desptr ∈ (os.mqs q).descriptors_ptrs
    → release_block os.descriptor_allocator des ≡ ok (r, d)
    → release_block os.descriptor_ptr_allocator desptr ≡ ok (r', e)
    → close_found os des ≡ ok (closed os q des d desptr e)
unfolding close_found Descriptor.free Descriptor.ptr_free
close_found-ok os q des d desptr e r r' exists held is_mq found is_ptr exists' in_queue freed
      freed' =
    rw (detach-mem (os.pcbs os.running).descriptors des exists held) (
      rw is_mq (
        rw (is_null-ne q _ _ found) (
          rw is_ptr (
            rw (detach-mem (os.mqs q).descriptors_ptrs desptr exists' in_queue) (
              rw freed (
                rw freed' (
                  ap
                    (λ pcbs.
                      ok (with_objects os d e (update os.mqs q (let_go (os.mqs q) desptr)) pcbs))
                    (fun_ext λ p. ground arith))))))))
