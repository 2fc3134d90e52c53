-- ===== src/Descriptor.antt =====
-- disastrOS_descriptor.c: the descriptors of a process, and list items that point to them.
use disastros_msg_queues.Base.{
  ℕ, suc, List, [], ◌∷◌, if◌then◌else◌, pos, ℤ, eqb_ℤ, Run, ok, ◌>>=◌, Ptr, null, is_null, update,
}
use disastros_msg_queues.PoolAllocator.{PoolAllocatorResult, get_block, release_block}
use disastros_msg_queues.Os.{Os}

-- A descriptor of a resource. The field `ptr` keeps what the block held.
unfoldable pub alloc : Os → (fd : ℕ) (res pcb : Ptr) → Run (Ptr × Os)
alloc os fd res pcb = do
  (d, a) ← get_block os.descriptor_allocator
  if is_null d
      then ok (null, os)
      else ok (
        d,
        record os {
          descriptor_allocator = a;
          descriptors =
              update os.descriptors d
                (record (os.descriptors d) { fd = fd; mq = null; resource = res; pcb = pcb });
        },
      )

-- A descriptor of a message queue.
unfoldable pub alloc_mq : Os → (fd : ℕ) (mq pcb : Ptr) → Run (Ptr × Os)
alloc_mq os fd mq pcb = do
  (d, a) ← get_block os.descriptor_allocator
  if is_null d
      then ok (null, os)
      else ok (
        d,
        record os {
          descriptor_allocator = a;
          descriptors =
              update os.descriptors d
                (record (os.descriptors d) { fd = fd; resource = null; mq = mq; pcb = pcb });
        },
      )

unfoldable pub free : Os → Ptr → Run (PoolAllocatorResult × Os)
free os d = do
  (r, a) ← release_block os.descriptor_allocator d
  ok (r, record os { descriptor_allocator = a })

-- The first descriptor of the list with the number, or null.
unfoldable pub by_fd : Os → List Ptr → ℤ → Ptr
by_fd os [] fd = null
by_fd os (d ∷ ds) fd = if eqb_ℤ (pos (os.descriptors d).fd) fd then d else by_fd os ds fd

unfoldable pub ptr_alloc : Os → Ptr → Run (Ptr × Os)
ptr_alloc os descriptor = do
  (d, a) ← get_block os.descriptor_ptr_allocator
  if is_null d
      then ok (null, os)
      else ok (
        d,
        record os {
          descriptor_ptr_allocator = a;
          descriptor_ptrs = update os.descriptor_ptrs d descriptor;
        },
      )

unfoldable pub ptr_free : Os → Ptr → Run (PoolAllocatorResult × Os)
ptr_free os d = do
  (r, a) ← release_block os.descriptor_ptr_allocator d
  ok (r, record os { descriptor_ptr_allocator = a })

-- `running->descriptors` with the descriptor at its end, and the number for the next one.
abbrev pub set_descriptors : Os → List Ptr → Os
set_descriptors os ds = record os {
  pcbs = update os.pcbs os.running (record (os.pcbs os.running) { descriptors = ds });
}

abbrev pub next_fd : Os → Os
next_fd os = record os {
  pcbs =
      update os.pcbs os.running
        (record (os.pcbs os.running) { last_fd = suc (os.pcbs os.running).last_fd });
}

-- `des->ptr = desptr`
abbrev pub set_ptr : Os → (des desptr : Ptr) → Os
set_ptr os des desptr = record os {
  descriptors = update os.descriptors des (record (os.descriptors des) { ptr = desptr });
}
