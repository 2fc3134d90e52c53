-- ===== src/Start/Boots.antt =====
-- The state in which the first process starts.
use disastros_msg_queues.MessageQueue.Opens.{IsDescribed}
use disastros_msg_queues.Base.{
  ℕ, Bool, sym, if◌then◌else◌, Returns-ok, subst, ◌∙◌, suc, ◌≡◌, refl, ◌≢◌, ap, fun_ext, arith,
  false, some, Option, [], pos, ok, Returns, returns, bind_lem, then_lem, ◌>>=◌, Run, Ptr, null,
  is_null-ne, update,
}
use disastros_msg_queues.PoolAllocator.{PoolAllocator, get_block}
use disastros_msg_queues.PoolAllocator.Chain.{IsPool}
use disastros_msg_queues.PoolAllocator.Init.{range_from, length-range_from}
use disastros_msg_queues.PoolAllocator.Blocks.{get_block-cons}
use disastros_msg_queues.PoolAllocator.Live.{HasBlock, HasBlock-Fresh, IsValid, Live}
use disastros_msg_queues.Process
use disastros_msg_queues.MessageQueue.{max_num_messagequeues}
use disastros_msg_queues.Os.{ProcessStatus, entry, Os, Pcb}
use disastros_msg_queues.MessageQueue.Invariant.{Inv, IsScheduled}
use disastros_msg_queues.Schedule.Schedules.{IsClock}
use disastros_msg_queues.Spawn.Born.{IsPopulated}
use disastros_msg_queues.Start.{init_pools, init_lists, start_first, start}
use disastros_msg_queues.Start.Pools.{Layout, max_num_processes, max_num_resources, max_num_stored}
use disastros_msg_queues.Start.Ready.{
  AllFree, IsLayout, IsReady, pcb_init-then, timer_init-then, resource_init-then,
  descriptor_init-then, message_queue_init-then, message_init-then,
}

-- The first block of a pool whose free blocks follow each other, and the pool without it.
AllFree-takes :
    (i n : ℕ) (a : PoolAllocator)
    → IsPool a (range_from i (suc n))
    → (h : HasBlock a) × IsPool h.rest (range_from (suc i) n)
AllFree-takes i n a v =
    let ((p, b), gets, (e, rest, same)) = Returns-ok (get_block-cons v) in
    (record { block = p; rest = b; gets = gets; exists = ground (arith, e, v.not_null) }, rest)

init_pools-IsReady : (l : Layout) (os : Os) → IsLayout l → Returns (IsReady os) (init_pools l os)
unfolding init_pools
init_pools-IsReady l os h = then_lem (
    pcb_init-then l h os λ a b v w. then_lem (
      timer_init-then l h _ λ c x. then_lem (
        resource_init-then l h _ λ d y. then_lem (
          descriptor_init-then l h _ λ e f z u. then_lem (
            message_queue_init-then l h _ λ g m. message_init-then l h _ λ i n. record {
              pcb = v;
              pcb_ptr = w;
              timer_item = x;
              resource = y;
              descriptor = z;
              descriptor_ptr = u;
              messagequeue = m;
              message = n;
              same_pid = refl;
              same_flag = refl;
            })))))

-- The state in which the process `p` starts, its block taken from the pool.
abbrev with_pcbs : Os → (p : Ptr) (a : PoolAllocator) (pcbs : Ptr → Pcb) → Os
with_pcbs os p a pcbs = record os {
  pcb_allocator = a;
  last_pid = suc os.last_pid;
  running = p;
  init_pcb = p;
  pcbs = pcbs;
}

abbrev first : Os → (f f_args p : Ptr) → Pcb
first os f f_args p = record (Process.fresh os (os.pcbs p)) {
  status = ProcessStatus.running;
  cpu_state = entry f f_args;
}

abbrev started : Os → (f f_args p : Ptr) (a : PoolAllocator) → Os
started os f f_args p a = with_pcbs os p a (update os.pcbs p (first os f f_args p))

start_first-ok :
    (os : Os) (f f_args p : Ptr) (a : PoolAllocator)
    → get_block os.pcb_allocator ≡ ok (p, a)
    → p ≢ null
    → start_first os f f_args ≡ ok (started os f f_args p a)
unfolding start_first
start_first-ok os f f_args p a gets exists = rw gets (
    rw (is_null-ne p _ _ exists)
      (ap (λ pcbs. ok (with_pcbs os p a pcbs)) (fun_ext λ q. ground arith)))

-- What the first process finds.
pub record Boots (os : Os) (f f_args : Ptr) (os' : Os) : Type 0 where
  pub queues : Inv os'
  pub clock : IsClock os'
  pub processes : IsPopulated os'
  pub described : IsDescribed os'
  pub pcb_block : HasBlock os'.pcb_allocator
  pub pcb_item : HasBlock os'.pcb_ptr_allocator
  pub queue_block : HasBlock os'.mq_allocator
  pub message_block : HasBlock os'.message_allocator
  pub descriptor_block : HasBlock os'.descriptor_allocator
  pub descriptor_item : HasBlock os'.descriptor_ptr_allocator
  pub adopts : os'.init_pcb ≡ os'.running
  pub pid : (os'.pcbs os'.running).pid ≡ os.last_pid
  pub runs : (os'.pcbs os'.running).status ≡ ProcessStatus.running
  pub enters : (os'.pcbs os'.running).cpu_state ≡ entry f f_args
  pub no_child : (os'.pcbs os'.running).children ≡ []
  pub no_descriptor : (os'.pcbs os'.running).descriptors ≡ []
  pub none_ready : os'.ready_list ≡ []
  pub none_waits : os'.waiting_list ≡ []
  pub no_zombie : os'.zombie_list ≡ []
  pub no_resource : os'.resources_list ≡ []
  pub no_queue : os'.mq_list ≡ []
  pub no_timer : os'.timer_list ≡ []
  pub resource_pool : IsValid os'.resource_allocator
  pub resource_block : HasBlock os'.resource_allocator
  pub timer_block : HasBlock os'.timer_allocator
  -- 2047 processes can be created, 2048 waits entered, 4 queues opened, 327680 messages written
  pub pcbs_left : os'.pcb_allocator.size ≡ pos 2047
  pub items_left : os'.pcb_ptr_allocator.size ≡ pos 2048
  pub queues_left : os'.mq_allocator.size ≡ pos 4
  pub messages_left : os'.message_allocator.size ≡ pos 327680
  -- and 2048 timers, resources and descriptors, with an item each
  pub timers_left : os'.timer_allocator.size ≡ pos 2048
  pub resources_left : os'.resource_allocator.size ≡ pos 2048
  pub descriptors_left : os'.descriptor_allocator.size ≡ pos 2048
  pub descriptor_items_left : os'.descriptor_ptr_allocator.size ≡ pos 2048

AllFree-IsValid : (n : ℕ) {a : PoolAllocator} → AllFree n a → IsValid a
AllFree-IsValid n v = record { free = range_from 0 n; pool = v }

size-AllFree : (i n : ℕ) (a : PoolAllocator) → IsPool a (range_from i n) → a.size ≡ pos n
size-AllFree i n a v = v.count ∙ ap pos (length-range_from i n)

alone-IsScheduled : (p : Ptr) → p ≢ null → IsScheduled p [] []
alone-IsScheduled p exists = record {
  exists = exists;
  not_ready = refl;
  not_waiting = refl;
  ready_distinct = tt;
  waiting_distinct = tt;
  apart = λ q at. cc;
  ready_exist = λ q at. cc;
  waiting_exist = λ q at. cc;
}

module _ (os s : Os) (r : IsReady os s) (f f_args : Ptr) (h : HasBlock s.pcb_allocator)
    (rest : IsPool h.rest (range_from 1 2047)) where
  abbrev last : Os
  last = started (init_lists s) f f_args h.block h.rest

  last-Inv : Inv last
  last-Inv = record {
    message_pool = AllFree-IsValid max_num_stored r.message;
    pcb_ptr_pool = AllFree-IsValid max_num_processes r.pcb_ptr;
    scheduled = alone-IsScheduled h.block h.exists;
    queues_exist = λ q at. cc;
    queues = λ q at. cc;
    stored = λ q at. cc;
    waits = λ q at. cc;
    apart = λ q t m at. cc;
    one_place = λ q t w v at. cc;
  }

  last-IsClock : IsClock last
  last-IsClock = record {
    timers = record {
      pool = AllFree-IsValid max_num_processes r.timer_item;
      alive = λ x at. cc;
      distinct = tt;
      sorted = tt;
    };
    scheduled = alone-IsScheduled h.block h.exists;
    sleeps = λ t at. cc;
    one_timer = λ t u at. cc;
  }

  last-IsPopulated : IsPopulated last
  last-IsPopulated =
      let fresh = HasBlock-Fresh s.pcb_allocator (AllFree-IsValid max_num_processes r.pcb) h in
      record {
        pcb_pool = fresh.valid;
        ptr_pool = AllFree-IsValid max_num_processes r.pcb_ptr;
        scheduled = alone-IsScheduled h.block h.exists;
        alive = λ p at. subst (Live h.rest) (ground (arith, at)) fresh.now;
        pids = λ p at. ground arith;
        items = λ c at. ground arith;
      }

  last-IsDescribed : IsDescribed last
  last-IsDescribed =
      let none : (last.pcbs last.running).descriptors ≡ [] = ground arith in
      record {
        exists = h.exists;
        mq_pool = AllFree-IsValid max_num_messagequeues r.messagequeue;
        mqs_live = λ q at. cc;
        pool = AllFree-IsValid max_num_processes r.descriptor;
        live = λ d at. ground arith;
        numbers = λ d at. ground arith;
        ptr_pool = AllFree-IsValid max_num_processes r.descriptor_ptr;
        ptrs_live = λ q p at. cc;
      }

  last-Boots : Boots os f f_args last
  last-Boots = record {
    queues = last-Inv;
    clock = last-IsClock;
    processes = last-IsPopulated;
    described = last-IsDescribed;
    pcb_block = (AllFree-takes 1 2046 h.rest rest).0;
    pcb_item = (AllFree-takes 0 2047 s.pcb_ptr_allocator r.pcb_ptr).0;
    queue_block = (AllFree-takes 0 3 s.mq_allocator r.messagequeue).0;
    message_block = (AllFree-takes 0 327679 s.message_allocator r.message).0;
    descriptor_block = (AllFree-takes 0 2047 s.descriptor_allocator r.descriptor).0;
    descriptor_item = (AllFree-takes 0 2047 s.descriptor_ptr_allocator r.descriptor_ptr).0;
    resource_pool = AllFree-IsValid max_num_resources r.resource;
    resource_block = (AllFree-takes 0 2047 s.resource_allocator r.resource).0;
    timer_block = (AllFree-takes 0 2047 s.timer_allocator r.timer_item).0;
    adopts = refl;
    pid = ground (arith, r.same_pid);
    runs = ground arith;
    enters = ground arith;
    no_child = ground arith;
    no_descriptor = ground arith;
    none_ready = refl;
    none_waits = refl;
    no_zombie = refl;
    no_resource = refl;
    no_queue = refl;
    no_timer = refl;
    pcbs_left = size-AllFree 1 2047 h.rest rest;
    items_left = size-AllFree 0 2048 s.pcb_ptr_allocator r.pcb_ptr;
    queues_left = size-AllFree 0 4 s.mq_allocator r.messagequeue;
    messages_left = size-AllFree 0 327680 s.message_allocator r.message;
    timers_left = size-AllFree 0 2048 s.timer_allocator r.timer_item;
    resources_left = size-AllFree 0 2048 s.resource_allocator r.resource;
    descriptors_left = size-AllFree 0 2048 s.descriptor_allocator r.descriptor;
    descriptor_items_left = size-AllFree 0 2048 s.descriptor_ptr_allocator r.descriptor_ptr;
  }

goes_on : {b : Bool} (x y : Run (Option Os)) → b ≡ false → (if b then x else y) ≡ y
goes_on x y e = rw e refl

-- Where the layout fits and no shutdown is pending, the start fails no access and no assertion and
-- ends in a state with a first process that runs with the next pid at the given function and adopts
-- orphans; there are no other processes, queues, resources or timers, the invariants of the queues,
-- the clock, the processes and the descriptors hold, the pool of resources is valid, and 2047 blocks
-- for processes, 2048 for their list items, for timers, for resources, for descriptors and for the
-- items of these, 4 for queues and 327680 for messages are left.
pub start-Boots :
    (l : Layout) (os : Os) (f f_args : Ptr)
    → IsLayout l
    → os.shutdown_now ≡ false
    → Returns (λ end. (os' : Os) × (end ≡ some os') × Boots os f f_args os') (start l os f f_args)
unfolding start
start-Boots l os f f_args layout running = bind_lem (init_pools-IsReady l os layout) λ s r.
    let (h, rest) = AllFree-takes 0 2047 s.pcb_allocator r.pcb in
    subst (Returns _)
      (sym (
        goes_on _ _ (r.same_flag ∙ running)
        ∙ ap (λ r. r >>= λ os'. ok (some os'))
            (start_first-ok (init_lists s) f f_args h.block h.rest h.gets h.exists)))
      (returns (last os s r f f_args h rest, refl, last-Boots os s r f f_args h rest))
