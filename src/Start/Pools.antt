-- ===== src/Start/Pools.antt =====
-- The calls that set up the kernel's pools: `PCB_init`, `Timer_init`, `Resource_init`,
-- `Descriptor_init`, `MessageQueue_init` and `Message_init`.
use disastros_msg_queues.Base.{
  ℕ, zero, suc, ◌+◌, ◌*◌, List, [], ◌∷◌, ℤ, pos, Run, ok, fault, failed_assert, ◌>>=◌, Ptr,
}
use disastros_msg_queues.PoolAllocator.{
  PoolAllocator, PoolAllocatorResult, success, sizeof_int, init,
}
use disastros_msg_queues.Os.{Os}
use disastros_msg_queues.MessageQueue.{max_num_messages, max_num_messagequeues, messages_extra}

abbrev pub max_num_processes : ℕ
max_num_processes = 2048

abbrev pub max_num_resources : ℕ
max_num_resources = 2048

abbrev pub max_num_descriptors_per_process : ℕ
max_num_descriptors_per_process = 520

abbrev pub max_num_descriptors : ℕ
max_num_descriptors = max_num_descriptors_per_process * max_num_processes

-- The messages that all queues together have room for, and more.
abbrev pub max_num_stored : ℕ
max_num_stored = max_num_messages * max_num_messagequeues * messages_extra * 10

-- The address of a static array of bytes, and the size of the objects that it holds.
pub record Buffer : Type 0 where
  pub address : Ptr
  pub item_size : ℕ

-- What the compiler and the linker choose for each of the pools.
pub record Layout : Type 0 where
  pub pcb : Buffer
  pub pcb_ptr : Buffer
  pub timer_item : Buffer
  pub resource : Buffer
  pub descriptor : Buffer
  pub descriptor_ptr : Buffer
  pub messagequeue : Buffer
  pub message : Buffer

-- A static array holds zeros.
unfoldable pub zeros : ℕ → List ℤ
zeros zero = []
zeros (suc n) = pos 0 ∷ zeros n

-- The size of an array for `n` objects, each with its cell of the table.
abbrev pub room_for : ℕ → Buffer → ℕ
room_for n b = n * (b.item_size + sizeof_int)

-- `assert(! result)`
abbrev pub check : PoolAllocatorResult × PoolAllocator → Run PoolAllocator
check (success, a) = ok a
check (_, a) = fault failed_assert

unfoldable pub set_up : PoolAllocator → Buffer → (num_items memory_size : ℕ) → Run PoolAllocator
set_up a b num_items memory_size =
    check (init a b.item_size num_items b.address memory_size (zeros num_items))

-- `PCB_init`
unfoldable pub pcb_init : Layout → Os → Run Os
pcb_init l os = do
  a ← set_up os.pcb_allocator l.pcb max_num_processes (room_for max_num_processes l.pcb)
  b ← set_up os.pcb_ptr_allocator l.pcb_ptr max_num_processes (room_for max_num_processes l.pcb_ptr)
  ok (record os { pcb_allocator = a; pcb_ptr_allocator = b })

-- `Timer_init`
unfoldable pub timer_init : Layout → Os → Run Os
timer_init l os = do
  a ←
      set_up os.timer_allocator l.timer_item max_num_processes
        (room_for max_num_processes l.timer_item)
  ok (record os { timer_allocator = a })

-- `Resource_init`
unfoldable pub resource_init : Layout → Os → Run Os
resource_init l os = do
  a ←
      set_up os.resource_allocator l.resource max_num_resources
        (room_for max_num_resources l.resource)
  ok (record os { resource_allocator = a })

-- `Descriptor_init`: the arrays have room for the descriptors of all processes, the pools hold as
-- many as there are processes.
unfoldable pub descriptor_init : Layout → Os → Run Os
descriptor_init l os = do
  a ←
      set_up os.descriptor_allocator l.descriptor max_num_processes
        (room_for max_num_descriptors l.descriptor)
  b ←
      set_up os.descriptor_ptr_allocator l.descriptor_ptr max_num_processes
        (room_for max_num_descriptors l.descriptor_ptr)
  ok (record os { descriptor_allocator = a; descriptor_ptr_allocator = b })

-- `MessageQueue_init`, with an array of ten times the size
unfoldable pub message_queue_init : Layout → Os → Run Os
message_queue_init l os = do
  a ←
      set_up os.mq_allocator l.messagequeue max_num_messagequeues
        (room_for max_num_messagequeues l.messagequeue * 10)
  ok (record os { mq_allocator = a })

-- `Message_init`
unfoldable pub message_init : Layout → Os → Run Os
message_init l os = do
  a ← set_up os.message_allocator l.message max_num_stored (room_for max_num_stored l.message)
  ok (record os { message_allocator = a })
