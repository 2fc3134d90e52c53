-- ===== src/Examples/Kernel.antt =====
-- Runs of the start of the kernel, and of the first calls that the first process makes.
use disastros_msg_queues.System.Wrappers.{wrappers_run}
use disastros_msg_queues.MessageQueue.{by_id}
use disastros_msg_queues.MessageQueue.Open.{create_mode}
use disastros_msg_queues.Base.{
  ◌<◌, ◌≡◌, ◌≤◌, refl, sym, ◌∙◌, ap, subst, arith, true, some, [], ◌∷◌, length, ◌∈◌, inr, pos,
  eqb_ℤ, ok, ◌>>=◌, Returns, Returns-ok, Ptr, null, update_self, has-append,
}
use disastros_msg_queues.Os.{Os, Pcb}
use disastros_msg_queues.Process.{arg}
use disastros_msg_queues.MessageQueue.{max_num_messages, max_len_message}
use disastros_msg_queues.MessageQueue.Open.{open_mq}
use disastros_msg_queues.MessageQueue.Opens.{IsDescribed}
use disastros_msg_queues.MessageQueue.Creates.{Creates, open-Creates}
use disastros_msg_queues.MessageQueue.Contents.{contents, payload}
use disastros_msg_queues.MessageQueue.Writes.{named}
use disastros_msg_queues.Start.{start}
use disastros_msg_queues.Start.Pools.{Layout}
use disastros_msg_queues.Start.Ready.{IsLayout}
use disastros_msg_queues.Start.Boots.{Boots, start-Boots}
use disastros_msg_queues.System.Wrappers.{passed, argument}
use disastros_msg_queues.System.Calls.{perform, opens, writes}
use disastros_msg_queues.System.Wrappers.{runs}
use disastros_msg_queues.MessageQueue.Write.{write}
use disastros_msg_queues.Reach.Sound.{IsSound}
use disastros_msg_queues.Reach.Steps.{Reach, starts, steps, calls}
use disastros_msg_queues.Reach.Safe.{Reach-IsSound}
use disastros_msg_queues.Reach.Bounds.{Reach-bounded}
use disastros_msg_queues.Examples.State.{pool, queue, kernel}

-- The sizes that a 64-bit machine gives the objects, and eight arrays.
abbrev layout : Layout
layout = record {
  pcb = record { address = 1048576; item_size = 17600 };
  pcb_ptr = record { address = 40000000; item_size = 24 };
  timer_item = record { address = 50000000; item_size = 32 };
  resource = record { address = 60000000; item_size = 48 };
  descriptor = record { address = 100000000; item_size = 56 };
  descriptor_ptr = record { address = 200000000; item_size = 24 };
  messagequeue = record { address = 300000000; item_size = 128 };
  message = record { address = 400000000; item_size = 88 };
}

layout-IsLayout : IsLayout layout
layout-IsLayout = record {
  pcb = record {
    exists = omega arith;
    sized = omega arith;
    room = omega arith;
    small = omega arith;
  };
  pcb_ptr = record {
    exists = omega arith;
    sized = omega arith;
    room = omega arith;
    small = omega arith;
  };
  timer_item = record {
    exists = omega arith;
    sized = omega arith;
    room = omega arith;
    small = omega arith;
  };
  resource = record {
    exists = omega arith;
    sized = omega arith;
    room = omega arith;
    small = omega arith;
  };
  descriptor = record {
    exists = omega arith;
    sized = omega arith;
    room = omega arith;
    small = omega arith;
  };
  descriptor_ptr = record {
    exists = omega arith;
    sized = omega arith;
    room = omega arith;
    small = omega arith;
  };
  messagequeue = record {
    exists = omega arith;
    sized = omega arith;
    room = omega arith;
    small = omega arith;
  };
  message = record {
    exists = omega arith;
    sized = omega arith;
    room = omega arith;
    small = omega arith;
  };
}

-- Memory as it is loaded.
abbrev loaded : Os
loaded = record (kernel pool pool [] (queue [] (pos 0) []) (pos 0)) { last_pid = 0; running = null }

-- The first process is the function at 5000 with the argument 0.
start-Boots_example :
    Returns
      (λ end. (os' : Os) × (end ≡ some os') × Boots loaded 5000 0 os')
      (start layout loaded 5000 0)
start-Boots_example = start-Boots layout loaded 5000 0 layout-IsLayout refl

booted : (os : Os) × (start layout loaded 5000 0 ≡ ok (some os)) × Boots loaded 5000 0 os
booted =
    let (end, e, (os, same, b)) =
      Returns-ok (start-Boots layout loaded 5000 0 layout-IsLayout refl) in
    (os, e ∙ ap ok same, b)

abbrev first : Os
first = booted.0

-- The first process creates the queue 7.
abbrev calling : Os
calling = passed first 11 (pos 7 ∷ pos 1 ∷ [])

called : calling.pcbs calling.running ≡ record (first.pcbs first.running) {
  syscall_args = argument (pos 7 ∷ pos 1 ∷ []) (first.pcbs first.running).syscall_args;
  syscall_num = pos 11;
}
called = update_self first.pcbs first.running _

calling-IsDescribed : IsDescribed calling
calling-IsDescribed =
    let b = booted.2 in
    let v = b.described in
    record {
      exists = v.exists;
      mq_pool = v.mq_pool;
      mqs_live = v.mqs_live;
      pool = v.pool;
      live = λ d at. v.live d (subst (λ (pcb : Pcb). d ∈ pcb.descriptors) called at);
      numbers = λ d at.
          subst (λ (pcb : Pcb). (first.descriptors d).fd < pcb.last_fd) (sym called)
            (v.numbers d (subst (λ (pcb : Pcb). d ∈ pcb.descriptors) called at));
      ptr_pool = v.ptr_pool;
      ptrs_live = v.ptrs_live;
    }

creates : eqb_ℤ (arg calling 1) create_mode ≡ true
creates = ap (λ (pcb : Pcb). eqb_ℤ (pcb.syscall_args 1) create_mode) called

nameless : named calling ≡ null
unfolding by_id
nameless = ap (λ l. by_id calling l (arg calling 0)) booted.2.no_queue

created : (os : Os) × (open_mq calling ≡ ok os) × Creates calling os
created =
    let b = booted.2 in
    Returns-ok (
      open-Creates calling calling-IsDescribed creates nameless b.queue_block b.descriptor_block
        b.descriptor_item)

open-Creates_example : Returns (Creates calling) (open_mq calling)
open-Creates_example =
    open-Creates calling calling-IsDescribed creates nameless booted.2.queue_block
      booted.2.descriptor_block booted.2.descriptor_item

abbrev second : Os
second = created.0

performed : perform (opens (pos 7) (pos 1)) first ≡ ok (inr second)
performed =
    wrappers_run first booted.2.clock.scheduled.exists (opens (pos 7) (pos 1))
    ∙ ap (λ r. r >>= λ os. ok (inr os)) created.1

wrappers_run_example :
    perform (writes (pos 7) 5000 (pos 3)) first
    ≡ runs write first 13 (pos 7 ∷ pos 5000 ∷ pos 3 ∷ [])
wrappers_run_example =
    wrappers_run first booted.2.clock.scheduled.exists (writes (pos 7) 5000 (pos 3))

reached : Reach layout loaded 5000 0 second
reached = steps (starts booted.1) (calls (opens (pos 7) (pos 1)) refl performed)

Reach-IsSound_example : IsSound second
Reach-IsSound_example = Reach-IsSound layout loaded 5000 0 layout-IsLayout refl reached

abbrev seven : Ptr
seven = created.2.queue

seven-listed : seven ∈ second.mq_list
seven-listed =
    subst (λ l. seven ∈ l) (sym created.2.listed)
      (ground (arith, has-append seven calling.mq_list (seven ∷ [])))

Reach-bounded_example :
    ((second.mqs seven).num_written ≡ pos (length (contents second seven)))
    × (length (contents second seven) ≤ max_num_messages)
    × ((m : Ptr)
        → m ∈ (second.mqs seven).messages
        → length (payload (second.messages m)) ≤ max_len_message)
    × ((w : Ptr) → w ∈ (second.mqs seven).waiting_to_read → contents second seven ≡ [])
    × ((w : Ptr)
        → w ∈ (second.mqs seven).waiting_to_write
        → length (contents second seven) ≡ max_num_messages)
Reach-bounded_example =
    Reach-bounded layout loaded 5000 0 layout-IsLayout refl reached seven seven-listed
