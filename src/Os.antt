-- ===== src/Os.antt =====
-- The kernel's objects and its global state (disastrOS_pcb.h, disastrOS_mq.h, disastrOS_resource.h,
-- disastrOS_descriptor.h, disastros_timer.h, disastrOS_globals.h), and the access to both.
use disastros_msg_queues.Base.{
  ℕ, Bool, List, if◌then◌else◌, ℤ, Run, ok, fault, null_dereference, Ptr, is_null, update,
}
use disastros_msg_queues.PoolAllocator.{PoolAllocator}

pub data ProcessStatus : Type 0 where
  invalid created running ready waiting suspended zombie : ProcessStatus

-- Where a process starts: nowhere yet, or at a function with its argument.
pub data CpuState : Type 0 where
  unset : CpuState
  entry : (function argument : Ptr) → CpuState

pub record Pcb : Type 0 where
  pub pid : ℕ
  pub return_value : ℤ
  pub status : ProcessStatus
  pub signals : ℕ
  pub signals_mask : ℕ
  pub parent : Ptr
  pub children : List Ptr
  pub cpu_state : CpuState
  pub timer : Ptr
  pub last_fd : ℕ
  pub descriptors : List Ptr
  pub syscall_num : ℤ
  pub syscall_args : ℕ → ℤ
  pub syscall_retvalue : ℤ

pub record MessageQueue : Type 0 where
  pub id : ℤ
  pub descriptors_ptrs : List Ptr
  pub messages : List Ptr
  pub num_written : ℤ
  pub waiting_to_read : List Ptr
  pub waiting_to_write : List Ptr

-- The bytes of the array by index.
pub record Message : Type 0 where
  pub message : ℕ → ℕ
  pub length : ℤ

pub record Resource : Type 0 where
  pub id : ℤ
  pub type : ℤ
  pub descriptors_ptrs : List Ptr

pub record Descriptor : Type 0 where
  pub pcb : Ptr
  pub resource : Ptr
  pub mq : Ptr
  pub fd : ℕ
  pub ptr : Ptr

pub record TimerItem : Type 0 where
  pub awakening_time : ℤ
  pub pcb : Ptr

-- A memory for each type of object, the kernel's allocators, and the global variables. `bytes` and
-- `ints` are the memory of the processes.
pub record Os : Type 0 where
  pub init_pcb : Ptr
  pub running : Ptr
  pub last_pid : ℕ
  pub ready_list : List Ptr
  pub waiting_list : List Ptr
  pub zombie_list : List Ptr
  pub resources_list : List Ptr
  pub mq_list : List Ptr
  pub timer_list : List Ptr
  pub disastros_time : ℤ
  pub shutdown_now : Bool
  pub pcbs : Ptr → Pcb
  pub pcb_ptrs : Ptr → Ptr
  pub mqs : Ptr → MessageQueue
  pub messages : Ptr → Message
  pub resources : Ptr → Resource
  pub descriptors : Ptr → Descriptor
  pub descriptor_ptrs : Ptr → Ptr
  pub timer_items : Ptr → TimerItem
  pub pcb_allocator : PoolAllocator
  pub pcb_ptr_allocator : PoolAllocator
  pub mq_allocator : PoolAllocator
  pub message_allocator : PoolAllocator
  pub resource_allocator : PoolAllocator
  pub descriptor_allocator : PoolAllocator
  pub descriptor_ptr_allocator : PoolAllocator
  pub timer_allocator : PoolAllocator
  pub bytes : Ptr → ℕ
  pub ints : Ptr → ℤ

-- A pointer that is read through.
abbrev pub valid : Ptr → Run Ptr
valid p = if is_null p then fault null_dereference else ok p

abbrev pub set_pcb : Os → Ptr → Pcb → Os
set_pcb os p pcb = record os { pcbs = update os.pcbs p pcb }

abbrev pub set_mq : Os → Ptr → MessageQueue → Os
set_mq os q mq = record os { mqs = update os.mqs q mq }

abbrev pub set_status : Os → Ptr → ProcessStatus → Os
set_status os p s = set_pcb os p (record (os.pcbs p) { status = s })
