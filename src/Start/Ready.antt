-- ===== src/Start/Ready.antt =====
-- What the calls that set up the pools leave.
use disastros_msg_queues.Base.{
  ℕ, zero, suc, ◌*◌, ◌^◌, ◌<◌, ◌≤◌, ◌≡◌, refl, arith, length, Returns, returns, bind_lem,
}
use disastros_msg_queues.PoolAllocator.{PoolAllocator, PoolAllocatorResult}
use disastros_msg_queues.PoolAllocator.Chain.{IsPool}
use disastros_msg_queues.PoolAllocator.Init.{range_from, Inits, init-IsPool}
use disastros_msg_queues.MessageQueue.{max_num_messagequeues}
use disastros_msg_queues.Os.{Os}
use disastros_msg_queues.Start.Pools.{
  Buffer, Layout, zeros, room_for, check, set_up, max_num_processes, max_num_resources,
  max_num_descriptors, max_num_stored, pcb_init, timer_init, resource_init, descriptor_init,
  message_queue_init, message_init,
}

length-zeros : (n : ℕ) → length (zeros n) ≡ n
unfolding zeros
length-zeros zero = refl
length-zeros (suc n) = omega (arith, length-zeros n)

-- All `n` blocks are free, in order of address.
abbrev pub AllFree : ℕ → PoolAllocator → Type 0
AllFree n a = IsPool a (range_from 0 n)

-- The array exists, its objects have a size, and its own fits an `int`.
pub record Fits (n : ℕ) (b : Buffer) (memory_size : ℕ) : Type 0 where
  pub exists : 0 < b.address
  pub sized : 0 < b.item_size
  pub room : room_for n b ≤ memory_size
  pub small : memory_size < 2 ^ 31

check-success :
    (n : ℕ) (r : PoolAllocatorResult × PoolAllocator)
    → Inits n r
    → Returns (AllFree (suc n)) (check r)
check-success n (r, a) (e, v) = rw e (returns v)

set_up-AllFree :
    (a : PoolAllocator) (b : Buffer) (n memory_size : ℕ)
    → Fits (suc n) b memory_size
    → Returns (AllFree (suc n)) (set_up a b (suc n) memory_size)
unfolding set_up
set_up-AllFree a b n memory_size h = check-success n _ (
    init-IsPool a b.item_size n b.address memory_size (zeros (suc n)) h.sized h.exists h.room
      h.small (length-zeros (suc n)))

-- The layout fits the sizes that the kernel is configured with.
pub record IsLayout (l : Layout) : Type 0 where
  pub pcb : Fits max_num_processes l.pcb (room_for max_num_processes l.pcb)
  pub pcb_ptr : Fits max_num_processes l.pcb_ptr (room_for max_num_processes l.pcb_ptr)
  pub timer_item : Fits max_num_processes l.timer_item (room_for max_num_processes l.timer_item)
  pub resource : Fits max_num_resources l.resource (room_for max_num_resources l.resource)
  pub descriptor : Fits max_num_processes l.descriptor (room_for max_num_descriptors l.descriptor)
  pub descriptor_ptr :
      Fits max_num_processes l.descriptor_ptr (room_for max_num_descriptors l.descriptor_ptr)
  pub messagequeue :
      Fits max_num_messagequeues l.messagequeue (room_for max_num_messagequeues l.messagequeue * 10)
  pub message : Fits max_num_stored l.message (room_for max_num_stored l.message)

-- Every pool has all its blocks, and nothing else changes that the start goes on with.
pub record IsReady (os os' : Os) : Type 0 where
  pub pcb : AllFree max_num_processes os'.pcb_allocator
  pub pcb_ptr : AllFree max_num_processes os'.pcb_ptr_allocator
  pub timer_item : AllFree max_num_processes os'.timer_allocator
  pub resource : AllFree max_num_resources os'.resource_allocator
  pub descriptor : AllFree max_num_processes os'.descriptor_allocator
  pub descriptor_ptr : AllFree max_num_processes os'.descriptor_ptr_allocator
  pub messagequeue : AllFree max_num_messagequeues os'.mq_allocator
  pub message : AllFree max_num_stored os'.message_allocator
  pub same_pid : os'.last_pid ≡ os.last_pid
  pub same_flag : os'.shutdown_now ≡ os.shutdown_now

module _ (l : Layout) (h : IsLayout l) (os : Os) where
  pub pcb_init-then :
      {Q : Os → Type 0}
      → ((a b : PoolAllocator)
          → AllFree max_num_processes a
          → AllFree max_num_processes b
          → Q (record os { pcb_allocator = a; pcb_ptr_allocator = b }))
      → Returns Q (pcb_init l os)
  unfolding pcb_init
  pcb_init-then next = bind_lem (set_up-AllFree os.pcb_allocator l.pcb 2047 _ h.pcb) λ a v.
      bind_lem (set_up-AllFree os.pcb_ptr_allocator l.pcb_ptr 2047 _ h.pcb_ptr)
        λ b w. returns (next a b v w)

  pub timer_init-then :
      {Q : Os → Type 0}
      → ((a : PoolAllocator) → AllFree max_num_processes a → Q (record os { timer_allocator = a }))
      → Returns Q (timer_init l os)
  unfolding timer_init
  timer_init-then next =
      bind_lem (set_up-AllFree os.timer_allocator l.timer_item 2047 _ h.timer_item)
        λ a v. returns (next a v)

  pub resource_init-then :
      {Q : Os → Type 0}
      → ((a : PoolAllocator)
          → AllFree max_num_resources a
          → Q (record os { resource_allocator = a }))
      → Returns Q (resource_init l os)
  unfolding resource_init
  resource_init-then next =
      bind_lem (set_up-AllFree os.resource_allocator l.resource 2047 _ h.resource)
        λ a v. returns (next a v)

  pub descriptor_init-then :
      {Q : Os → Type 0}
      → ((a b : PoolAllocator)
          → AllFree max_num_processes a
          → AllFree max_num_processes b
          → Q (record os { descriptor_allocator = a; descriptor_ptr_allocator = b }))
      → Returns Q (descriptor_init l os)
  unfolding descriptor_init
  descriptor_init-then next =
      bind_lem (set_up-AllFree os.descriptor_allocator l.descriptor 2047 _ h.descriptor) λ a v.
        bind_lem
          (set_up-AllFree os.descriptor_ptr_allocator l.descriptor_ptr 2047 _ h.descriptor_ptr)
          λ b w. returns (next a b v w)

  pub message_queue_init-then :
      {Q : Os → Type 0}
      → ((a : PoolAllocator) → AllFree max_num_messagequeues a → Q (record os { mq_allocator = a }))
      → Returns Q (message_queue_init l os)
  unfolding message_queue_init
  message_queue_init-then next =
      bind_lem (set_up-AllFree os.mq_allocator l.messagequeue 3 _ h.messagequeue)
        λ a v. returns (next a v)

  pub message_init-then :
      {Q : Os → Type 0}
      → ((a : PoolAllocator) → AllFree max_num_stored a → Q (record os { message_allocator = a }))
      → Returns Q (message_init l os)
  unfolding message_init
  message_init-then next =
      bind_lem (set_up-AllFree os.message_allocator l.message 327679 _ h.message)
        λ a v. returns (next a v)
