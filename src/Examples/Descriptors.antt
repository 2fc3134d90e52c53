-- ===== src/Examples/Descriptors.antt =====
-- Runs that open and close a queue, and that close the descriptor of a resource as a queue's.
use disastros_msg_queues.MessageQueue.Open.{excl_mode}
use disastros_msg_queues.Base.{update}
use disastros_msg_queues.MessageQueue.InUse.{Refuses, open-Refuses}
use disastros_msg_queues.Base.{
  ◌≡◌, ◌≢◌, refl, arith, [], ◌∷◌, pos, fault, null_dereference, ◌>>=◌, Returns, null,
}
use disastros_msg_queues.Os.{ProcessStatus, Os}
use disastros_msg_queues.Descriptor.{by_fd}
use disastros_msg_queues.MessageQueue.{by_id, is_empty}
use disastros_msg_queues.MessageQueue.Open.{open_mq, close_mq}
use disastros_msg_queues.MessageQueue.Writes.{named}
use disastros_msg_queues.MessageQueue.Fifo.{next_call}
use disastros_msg_queues.MessageQueue.Opens.{IsDescribed, Describes, open-Describes}
use disastros_msg_queues.MessageQueue.OpenClose.{target, close_mq-resource, Restored, open-close}
use disastros_msg_queues.Examples.State.{
  pool, pool-IsValid, pool-HasBlock, used-Fresh, queue, kernel, pcb, args,
}
use disastros_msg_queues.Examples.Queues.{used-Live}
use disastros_msg_queues.Examples.Processes.{one_queue}

one_queue-IsDescribed : IsDescribed one_queue
one_queue-IsDescribed = record {
  exists = ground arith;
  mq_pool = used-Fresh.valid;
  mqs_live = λ q at. (ground arith, used-Live q at);
  pool = pool-IsValid;
  live = λ d at. cc;
  numbers = λ d at. cc;
  ptr_pool = pool-IsValid;
  ptrs_live = λ q p at i. cc;
}

one_queue-named : named one_queue ≢ null
unfolding by_id
one_queue-named = ground arith

open-Describes_example : Returns (Describes one_queue (named one_queue)) (open_mq one_queue)
unfolding by_id is_empty
open-Describes_example =
    open-Describes one_queue one_queue-IsDescribed one_queue-named refl refl pool-HasBlock
      pool-HasBlock

open-close_example :
    Returns (Restored one_queue) (open_mq one_queue >>= λ s. close_mq (next_call s (λ i. pos 0)))
unfolding by_id is_empty
open-close_example =
    open-close one_queue one_queue-IsDescribed one_queue-named refl refl pool-HasBlock pool-HasBlock
      (λ i. pos 0) refl

-- The running process has the descriptor 7 of a resource.
abbrev has_resource : Os
has_resource = record (kernel pool pool [] (queue [] (pos 0) []) (pos 0)) {
  pcbs = λ p. record (pcb ProcessStatus.running (args (pos 0))) { descriptors = 2000 ∷ [] };
  descriptors = λ d. record { pcb = 11; resource = 3000; mq = null; fd = 7; ptr = 4000 };
}

has_resource-target : target has_resource ≢ null
unfolding by_fd
has_resource-target = ground arith

close_mq-resource_example : close_mq has_resource ≡ fault null_dereference
close_mq-resource_example = close_mq-resource has_resource (ground arith) has_resource-target refl

-- The process 12 runs next, with the number of the queue and DSOS_EXCL.
open-Refuses_example :
    Returns (λ s. Refuses s 12 (update (args (pos 0)) 1 excl_mode)) (open_mq one_queue)
unfolding by_id is_empty
open-Refuses_example =
    open-Refuses one_queue one_queue-IsDescribed one_queue-named refl refl pool-HasBlock
      pool-HasBlock 12 (ground arith) (update (args (pos 0)) 1 excl_mode) refl refl
