-- ===== src/Examples/State.antt =====
-- Small states of the kernel, and the invariant at each.
use disastros_msg_queues.Base.{
  ℕ, zero, suc, ◌<◌, ◌≡◌, ◌≢◌, ◌⊎◌, inl, inr, refl, subst, arith, false, List, [], ◌∷◌, length, ◌∈◌,
  get_elem?, some, to_int, ◌-ℤ◌, ℤ, pos, Ptr, null, ok,
}
use disastros_msg_queues.PoolAllocator
use disastros_msg_queues.PoolAllocator.{
  PoolAllocator, null_idx, detached_idx, populate, get_block, take_block,
}
use disastros_msg_queues.PoolAllocator.Chain.{IsPool, nil}
use disastros_msg_queues.PoolAllocator.Init.{init-IsPool}
use disastros_msg_queues.PoolAllocator.Live.{IsValid, HasBlock, Fresh, HasBlock-Fresh}
use disastros_msg_queues.Os.{ProcessStatus, unset, Os, Pcb, MessageQueue}
use disastros_msg_queues.MessageQueue.Invariant.{Inv, IsQueue, IsStored, IsWaiting, waiters}

abbrev pub cells : ℕ → List ℤ
cells zero = []
cells (suc n) = detached_idx ∷ cells n

length-cells : (n : ℕ) → length (cells n) ≡ n
length-cells zero = refl
length-cells (suc n) = omega (arith, length-cells n)

pub cells-detached : (n i : ℕ) → i < n → get_elem? (cells n) i ≡ some detached_idx
cells-detached zero i h = absurd (omega arith)
cells-detached (suc n) zero h = refl
cells-detached (suc n) (suc i) h = ground (arith, cells-detached n i)

-- A pool at 1024 whose blocks of 8 bytes are all handed out.
abbrev pub full_pool : ℕ → PoolAllocator
full_pool n = record {
  buffer = 1024;
  free_list = cells n;
  buffer_size = 8;
  size = pos 0;
  size_max = n;
  item_size = 8;
  first_idx = null_idx;
}

abbrev pub pool : PoolAllocator
pool = record {
  buffer = 1024;
  free_list = pos 1 ∷ null_idx ∷ [];
  buffer_size = 16;
  size = pos 2;
  size_max = 2;
  item_size = 8;
  first_idx = pos 0;
}

-- The pool with its first block handed out.
abbrev pub used : PoolAllocator
used = record {
  buffer = 1024;
  free_list = detached_idx ∷ null_idx ∷ [];
  buffer_size = 16;
  size = pos 1;
  size_max = 2;
  item_size = 8;
  first_idx = pos 1;
}

pub pool-init :
    PoolAllocator.init (full_pool 0) 8 2 1024 64 (cells 2) ≡ (PoolAllocator.success, pool)
unfolding PoolAllocator.init to_int
pool-init = refl

pub pool-IsPool : IsPool pool (0 ∷ 1 ∷ [])
pool-IsPool =
    subst (λ (r, b). IsPool b (0 ∷ 1 ∷ [])) pool-init
      (init-IsPool (full_pool 0) 8 1 1024 64 (cells 2) (omega arith) (omega arith) (omega arith)
        (omega arith) refl).1

pub pool-IsValid : IsValid pool
pool-IsValid = record { free = 0 ∷ 1 ∷ []; pool = pool-IsPool }

pub pool-exists : 1024 ≢ null
pool-exists = ground arith

pub pool-gets : get_block pool ≡ ok (1024, used)
unfolding get_block ◌-ℤ◌
pool-gets = refl

abbrev pub pool-HasBlock : HasBlock pool
pool-HasBlock = record { block = 1024; rest = used; gets = pool-gets; exists = pool-exists }

pub used-Fresh : Fresh pool 1024 used
used-Fresh = HasBlock-Fresh pool pool-IsValid pool-HasBlock

pub full_pool-IsPool : (n : ℕ) → n < 1000 → IsPool (full_pool n) []
full_pool-IsPool n small = record {
  chain = nil refl;
  count = refl;
  table = length-cells n;
  inside = λ i at. cc;
  detached = λ i lt out. cells-detached n i lt;
  item_pos = omega arith;
  not_null = omega arith;
  fits = omega arith;
}

abbrev pub no_bytes : ℕ → ℕ
no_bytes i = 0

abbrev pub pcb : ProcessStatus → (args : ℕ → ℤ) → Pcb
pcb status args = record {
  pid = 1;
  return_value = pos 0;
  status = status;
  signals = 0;
  signals_mask = 0;
  parent = null;
  children = [];
  cpu_state = unset;
  timer = null;
  last_fd = 0;
  descriptors = [];
  syscall_num = pos 0;
  syscall_args = args;
  syscall_retvalue = pos 0;
}

-- A call on queue 7 with the buffer at 5000.
abbrev pub args : ℤ → ℕ → ℤ
args n zero = pos 7
args n (suc zero) = pos 5000
args n (suc (suc i)) = n

abbrev pub queue : (messages : List Ptr) (counted : ℤ) (readers : List Ptr) → MessageQueue
queue ms counted readers = record {
  id = pos 7;
  descriptors_ptrs = [];
  messages = ms;
  num_written = counted;
  waiting_to_read = readers;
  waiting_to_write = [];
}

-- Process 11 runs, 12 waits, 13 is ready; the queue is at 100.
abbrev pub kernel :
    (messages items : PoolAllocator) (waiting : List Ptr) (mq : MessageQueue) (n : ℤ) → Os
kernel message_pool item_pool waiting mq n = record {
  init_pcb = 13;
  running = 11;
  last_pid = 3;
  ready_list = 13 ∷ [];
  waiting_list = waiting;
  zombie_list = [];
  resources_list = [];
  mq_list = 100 ∷ [];
  timer_list = [];
  disastros_time = pos 0;
  shutdown_now = false;
  pcbs = λ p. pcb ProcessStatus.running (args n);
  pcb_ptrs = λ p. 12;
  mqs = λ p. mq;
  messages = λ p. record { message = no_bytes; length = pos 2 };
  resources = λ p. record { id = pos 0; type = pos 0; descriptors_ptrs = [] };
  descriptors = λ p. record { pcb = 0; resource = 0; mq = 0; fd = 0; ptr = 0 };
  descriptor_ptrs = λ p. 0;
  timer_items = λ p. record { awakening_time = pos 0; pcb = 0 };
  pcb_allocator = pool;
  pcb_ptr_allocator = item_pool;
  mq_allocator = pool;
  message_allocator = message_pool;
  resource_allocator = pool;
  descriptor_allocator = pool;
  descriptor_ptr_allocator = pool;
  timer_allocator = pool;
  bytes = λ p. p;
  ints = λ p. pos 0;
}

-- A state with the one queue, at most one process waiting there.
pub kernel-Inv :
    (message_pool item_pool : PoolAllocator) (waiting : List Ptr) (mq : MessageQueue) (n : ℤ)
    → IsValid message_pool
    → IsValid item_pool
    → (waiting ≡ []) ⊎ (waiting ≡ 12 ∷ [])
    → IsQueue mq
    → IsStored message_pool (λ p. record { message = no_bytes; length = pos 2 }) mq.messages
    → IsWaiting item_pool (λ p. 12) waiting (waiters mq)
    → ((w v : Ptr) → w ∈ waiters mq → v ∈ waiters mq → w ≡ v)
    → Inv (kernel message_pool item_pool waiting mq n)
kernel-Inv message_pool item_pool waiting mq n v w one is_queue stored waits alone = record {
  message_pool = v;
  pcb_ptr_pool = w;
  scheduled = elim one [
    | inl e ↦ record {
      exists = ground arith;
      not_ready = refl;
      not_waiting = rw e refl;
      ready_distinct = (refl, tt);
      waiting_distinct = rw e tt;
      apart = λ p at. rw e refl;
      ready_exist = λ p at. ground arith;
      waiting_exist = λ p at. cc (e);
    }
    | inr e ↦ record {
      exists = ground arith;
      not_ready = refl;
      not_waiting = rw e refl;
      ready_distinct = (refl, tt);
      waiting_distinct = rw e (refl, tt);
      apart = λ p at. rw e (ground arith);
      ready_exist = λ p at. ground arith;
      waiting_exist = λ p at. ground (arith, e);
    }
  ];
  queues_exist = λ q at. ground arith;
  queues = λ q at. is_queue;
  stored = λ q at. stored;
  waits = λ q at. waits;
  apart = λ q r m at at' i j. ground arith;
  one_place = λ q r w v at at' i j e. (ground arith, alone w v i j);
}
