-- ===== src/Process.antt =====
-- disastrOS_pcb.c: process control blocks, and list items that point to them.
use disastros_msg_queues.Base.{
  ℕ, suc, List, [], ◌∷◌, ◌==◌, if◌then◌else◌, ℤ, pos, Run, ok, ◌>>=◌, Ptr, null, update,
}
use disastros_msg_queues.PoolAllocator.{PoolAllocatorResult, get_block, release_block}
use disastros_msg_queues.Sequence.{insert_last, detach_first}
use disastros_msg_queues.Os.{ProcessStatus, Os, Pcb, invalid, valid, set_pcb, set_status}

-- 0xFFFFFFFF
abbrev pub all_signals : ℕ
all_signals = 4294967295

-- What `PCB_alloc` writes into a block; the system call's fields and the context keep what they held.
abbrev pub fresh : Os → Pcb → Pcb
fresh os old = record old {
  pid = os.last_pid;
  return_value = pos 0;
  status = invalid;
  last_fd = 0;
  signals = 0;
  signals_mask = all_signals;
  descriptors = [];
  parent = null;
  timer = null;
  children = [];
}

-- An exhausted allocator hands out null, and the first write goes through it.
unfoldable pub alloc : Os → Run (Ptr × Os)
alloc os = do
  (block, a) ← get_block os.pcb_allocator
  p ← valid block
  ok (
    p,
    record os {
      pcb_allocator = a;
      last_pid = suc os.last_pid;
      pcbs = update os.pcbs p (fresh os (os.pcbs p));
    },
  )

unfoldable pub free : Os → Ptr → Run (PoolAllocatorResult × Os)
free os p = do (r, a) ← release_block os.pcb_allocator p; ok (r, record os { pcb_allocator = a })

unfoldable pub ptr_alloc : Os → Ptr → Run (Ptr × Os)
ptr_alloc os pcb = do
  (block, a) ← get_block os.pcb_ptr_allocator
  p ← valid block
  ok (p, record os { pcb_ptr_allocator = a; pcb_ptrs = update os.pcb_ptrs p pcb })

unfoldable pub ptr_free : Os → Ptr → Run (PoolAllocatorResult × Os)
ptr_free os p = do
  (r, a) ← release_block os.pcb_ptr_allocator p
  ok (r, record os { pcb_ptr_allocator = a })

-- The first process of the list with the given pid, or null.
unfoldable pub by_pid : Os → List Ptr → ℕ → Ptr
by_pid os [] pid = null
by_pid os (p ∷ ps) pid = if (os.pcbs p).pid == pid then p else by_pid os ps pid

-- The first item of the list whose process has the given pid, or null.
unfoldable pub ptr_by_pid : Os → List Ptr → ℕ → Ptr
ptr_by_pid os [] pid = null
ptr_by_pid os (p ∷ ps) pid =
    if (os.pcbs (os.pcb_ptrs p)).pid == pid then p else ptr_by_pid os ps pid

-- `running->syscall_args[i]`
abbrev pub arg : Os → ℕ → ℤ
arg os i = (os.pcbs os.running).syscall_args i

-- `running->syscall_retvalue = v`
abbrev pub return_value : Os → ℤ → Os
return_value os v = set_pcb os os.running (record (os.pcbs os.running) { syscall_retvalue = v })

-- The running process waits: its status changes, and it goes to the end of the waiting list.
unfoldable pub put_to_wait : Os → Run Os
put_to_wait os = do
  let os' = set_status os os.running ProcessStatus.waiting
  l ← insert_last os.waiting_list os.running
  ok (record os' { waiting_list = l })

-- `List_detach(&ready_list, ready_list.first)`
unfoldable pub next_ready : Os → Run (Ptr × Os)
next_ready os = do (next, l) ← detach_first os.ready_list; ok (next, record os { ready_list = l })

-- The first ready process runs.
unfoldable pub run_next : Os → Run Os
unfolding next_ready
run_next os = do
  (next, os) ← next_ready os
  ok (record (set_status os next ProcessStatus.running) { running = next })
