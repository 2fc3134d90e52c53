-- ===== src/Examples/Processes.antt =====
-- Runs of the scheduler, the timers, the trap, the destruction of a queue and the end of a process.
use disastros_msg_queues.Base.{
  wrap, ◌+ℤ◌, ◌-ℤ◌, pos_part, ℕ, ◌≡◌, ◌≢◌, ◌≤◌, ◌<◌, ◌⊎◌, inl, inr, refl, sym, subst, arith, ◌==◌,
  if◌then◌else◌, [], ◌∷◌, pos, negsuc, null, ok, fault, out_of_bounds, out_of_rounds, Returns,
}
use disastros_msg_queues.PoolAllocator.Live.{Live}
use disastros_msg_queues.Os.{ProcessStatus, Os}
use disastros_msg_queues.Process.{arg, return_value}
use disastros_msg_queues.MessageQueue.{by_id, is_empty}
use disastros_msg_queues.MessageQueue.Invariant.{Inv, IsScheduled}
use disastros_msg_queues.MessageQueue.Open.{destroy_mq}
use disastros_msg_queues.MessageQueue.Writes.{named}
use disastros_msg_queues.MessageQueue.Destroy.{Destroys, destroy-Destroys}
use disastros_msg_queues.Timer.{add, sleep, sleep_error}
use disastros_msg_queues.Schedule.Sleeps.{Sleeps, sleep-Sleeps}
use disastros_msg_queues.Timer.Sorted.{IsTimers}
use disastros_msg_queues.Timer.Add.{Exhausted, Adds, add-Adds}
use disastros_msg_queues.Schedule.{schedule}
use disastros_msg_queues.Schedule.Schedules.{IsClock, Schedules, schedule-Schedules}
use disastros_msg_queues.Exit.{reparent_all}
use disastros_msg_queues.Exit.Reparent.{CanMove, Moves}
use disastros_msg_queues.Exit.Rounds.{reparent_all-Moves, IsInit, reparent_all_endless}
use disastros_msg_queues.LinkedList.Segment.{last_or}
use disastros_msg_queues.Wait.{is_zombie, reap, wait_on, wait}
use disastros_msg_queues.Wait.Awaited.{wait_stranger}
use disastros_msg_queues.PoolAllocator.{get_block}
use disastros_msg_queues.Spawn.{fork}
use disastros_msg_queues.Spawn.Born.{IsPopulated, Born}
use disastros_msg_queues.Spawn.Fork.{fork-Born}
use disastros_msg_queues.System.{trap, out_of_range_error, not_implemented_error}
use disastros_msg_queues.System.Trap.{number, trap_refused}
use disastros_msg_queues.Examples.State.{
  pool-HasBlock, full_pool, pool, used, pool-IsValid, used-Fresh, queue, kernel, pcb, args,
}
use disastros_msg_queues.Examples.Queues.{used-Live}

-- Process 12 waits for its timer, which is due now; 13 is ready.
abbrev asleep : Os
asleep = record (kernel pool pool (12 ∷ []) (queue [] (pos 0) []) (pos 5)) {
  timer_list = 1024 ∷ [];
  timer_allocator = used;
  timer_items = λ p. record { awakening_time = pos 0; pcb = 12 };
}

asleep-IsTimers : IsTimers asleep
asleep-IsTimers = record {
  pool = used-Fresh.valid;
  alive = λ x at. (ground arith, used-Live x at);
  distinct = (refl, tt);
  sorted = (λ y at. cc, tt);
}

asleep-IsScheduled : IsScheduled 11 (13 ∷ []) (12 ∷ [])
asleep-IsScheduled = record {
  exists = ground arith;
  not_ready = refl;
  not_waiting = refl;
  ready_distinct = (refl, tt);
  waiting_distinct = (refl, tt);
  apart = λ p at. ground arith;
  ready_exist = λ p at. ground arith;
  waiting_exist = λ p at. ground arith;
}

asleep-IsClock : IsClock asleep
asleep-IsClock = record {
  timers = asleep-IsTimers;
  scheduled = asleep-IsScheduled;
  sleeps = λ t at. refl;
  one_timer = λ t u i j e. ground arith;
}

schedule-Schedules_example : Returns (Schedules asleep) (schedule asleep)
schedule-Schedules_example = schedule-Schedules asleep asleep-IsClock

-- The sum of two `int`s at both ends of the range, and a negative one.
wrap_above : wrap (pos 2147483647 +ℤ pos 1) ≡ negsuc 2147483647
unfolding wrap ◌+ℤ◌
wrap_above = refl

wrap_below : wrap (negsuc 2147483648) ≡ pos 2147483647
unfolding wrap
wrap_below = refl

wrap_inside : wrap (pos 3 +ℤ negsuc 7) ≡ negsuc 4
unfolding wrap ◌+ℤ◌
wrap_inside = refl

sleep-Sleeps_example :
    Returns
      (λ os'.
        ((asleep.timer_allocator.size ≡ pos 0) × (os' ≡ return_value asleep sleep_error))
        ⊎ Sleeps asleep 13 [] os')
      (sleep asleep)
sleep-Sleeps_example = sleep-Sleeps asleep asleep-IsClock refl 13 [] refl

add-Adds_example :
    Returns
      (λ (new, os'). Exhausted asleep new os' ⊎ Adds asleep (pos 3) 11 new os')
      (add asleep (pos 3) 11)
add-Adds_example = add-Adds asleep (pos 3) 11 asleep-IsTimers

trap_refused_example :
    ((n : ℕ) → number asleep ≡ negsuc n → trap asleep ≡ ok (return_value asleep out_of_range_error))
    × ((n : ℕ)
        → number asleep ≡ pos n
        → 32 < n
        → trap asleep ≡ ok (return_value asleep out_of_range_error))
    × ((n : ℕ)
        → number asleep ≡ pos n
        → (n ≡ 0) ⊎ ((16 ≤ n) × (n < 32))
        → trap asleep ≡ ok (return_value asleep not_implemented_error))
    × (number asleep ≡ pos 32 → trap asleep ≡ fault out_of_bounds)
trap_refused_example = trap_refused asleep (ground arith)

-- The queue 1024, with the identifier 7 and no descriptor.
abbrev pub one_queue : Os
one_queue = record (kernel pool pool [] (queue [] (pos 0) []) (pos 7)) {
  mq_list = 1024 ∷ [];
  mq_allocator = used;
}

one_queue-Inv : Inv one_queue
one_queue-Inv = record {
  message_pool = pool-IsValid;
  pcb_ptr_pool = pool-IsValid;
  scheduled = record {
    exists = ground arith;
    not_ready = refl;
    not_waiting = refl;
    ready_distinct = (refl, tt);
    waiting_distinct = tt;
    apart = λ p at. refl;
    ready_exist = λ p at. ground arith;
    waiting_exist = λ p at. cc;
  };
  queues_exist = λ q at. ground arith;
  queues = λ q at. record {
    counted = refl;
    bounded = omega arith;
    distinct = tt;
    readers = inr refl;
    writers = inl refl;
    in_line = tt;
  };
  stored = λ q at m i. cc;
  waits = λ q at w i. cc;
  apart = λ q r m at at' i j. cc;
  one_place = λ q r w v at at' i j e. cc;
}

named_queue : named one_queue ≡ 1024
unfolding by_id
named_queue = refl

destroy-Destroys_example : Returns (Destroys one_queue (named one_queue)) (destroy_mq one_queue)
unfolding is_empty
destroy-Destroys_example =
    destroy-Destroys one_queue one_queue-Inv
      (subst (λ q. q ≢ null) (sym named_queue) (ground arith)) refl used-Fresh.valid
      (subst (Live used) (sym named_queue) used-Fresh.now) (refl, tt)

-- Process 11 has the children 30 and 31, and init is 13.
abbrev parent : Os
parent = record asleep {
  pcbs = λ p. record (pcb ProcessStatus.running (args (pos 0))) {
    children = if p == 11 then 30 ∷ 31 ∷ [] else [];
  };
}

parent-CanMove : CanMove parent (30 ∷ 31 ∷ [])
parent-CanMove = record {
  not_init = ground arith;
  children = refl;
  distinct = (refl, (refl, tt));
  items = λ c at. (ground arith, ground arith, refl);
}

reparent_all-Moves_example :
    Returns (Moves parent (30 ∷ 31 ∷ [])) (reparent_all 2 parent (30 ∷ 31 ∷ []))
reparent_all-Moves_example = reparent_all-Moves (30 ∷ 31 ∷ []) 2 parent (omega arith) parent-CanMove

abbrev init_parent : Os
init_parent = record parent { init_pcb = 11 }

init_parent-IsInit : IsInit init_parent (30 ∷ 31 ∷ [])
init_parent-IsInit = record {
  is_init = refl;
  distinct = (refl, (refl, tt));
  items = λ c at. (ground arith, ground arith);
}

reparent_all_endless_example : reparent_all 100 init_parent (30 ∷ 31 ∷ []) ≡ fault out_of_rounds
reparent_all_endless_example = reparent_all_endless 100 init_parent 30 (31 ∷ []) init_parent-IsInit

wait_stranger_example : wait parent ≡ (
    if is_zombie (parent.pcbs (parent.pcb_ptrs (last_or 30 (31 ∷ [])))).status
    then reap parent (last_or 30 (31 ∷ [])) (pos_part (arg parent 1))
    else wait_on parent)
wait_stranger_example =
    wait_stranger parent 6 30 (31 ∷ []) (ground arith) refl refl
      (λ d at. (ground arith, ground arith))

-- Process 1024 runs alone.
abbrev lonely : Os
lonely = record (kernel pool pool [] (queue [] (pos 0) []) (pos 0)) {
  running = 1024;
  ready_list = [];
  pcb_allocator = used;
}

lonely-IsPopulated : IsPopulated lonely
lonely-IsPopulated = record {
  pcb_pool = used-Fresh.valid;
  ptr_pool = pool-IsValid;
  scheduled = record {
    exists = ground arith;
    not_ready = refl;
    not_waiting = refl;
    ready_distinct = tt;
    waiting_distinct = tt;
    apart = λ p at. refl;
    ready_exist = λ p at. cc;
    waiting_exist = λ p at. cc;
  };
  alive = used-Live;
  pids = λ p at. omega arith;
  items = λ c at. cc;
}

second_block : get_block used ≡ ok (1032, record (full_pool 2) { buffer_size = 16 })
unfolding get_block ◌-ℤ◌
second_block = refl

fork-Born_example : Returns (Born lonely 1032) (fork lonely)
fork-Born_example =
    fork-Born lonely lonely-IsPopulated
      (record {
        block = 1032;
        rest = record (full_pool 2) { buffer_size = 16 };
        gets = second_block;
        exists = ground arith;
      })
      pool-HasBlock
