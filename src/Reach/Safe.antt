-- ===== src/Reach/Safe.antt =====
-- What holds in every state that the kernel reaches.
use disastros_msg_queues.Base.{true}
use disastros_msg_queues.Base.{
  ℕ, ◌≡◌, ◌⊎◌, inl, inr, sym, Distinct, subst, false, some, Option, List, [], ◌∷◌, ◌∈◌, ℤ, pos,
  ◌+ℤ◌, wrap, ok, Holds, holds, Holds-bind, Holds-any, Holds-ok, Returns-Holds, Holds-map, none,
  Ptr,
}
use disastros_msg_queues.Os.{Os, valid}
use disastros_msg_queues.Schedule.{schedule, preempt, timer_interrupt}
use disastros_msg_queues.System.{Handler}
use disastros_msg_queues.System.Calls.{
  Call, forks, waits, exits, preempts, spawns, shuts_down, sleeps, opens_resource, closes_resource,
  destroys_resource, opens, closes, writes, reads, destroys, perform,
}
use disastros_msg_queues.System.Wrappers.{
  passed, runs, handler_of, number_of, given_by, wrappers_run,
}
use disastros_msg_queues.Reach.Steps.{
  is_covered, Step, computes, calls, ticks, Reach, starts, steps,
}
use disastros_msg_queues.Start.{start}
use disastros_msg_queues.Start.Pools.{Layout}
use disastros_msg_queues.Start.Ready.{IsLayout}
use disastros_msg_queues.Start.Boots.{Boots, start-Boots}
use disastros_msg_queues.Reach.Sound.{IsSound, write-IsSound, read-IsSound, preempt-IsSound}
use disastros_msg_queues.Reach.Opens.{close_mq-IsSound}
use disastros_msg_queues.Reach.Destroys.{open_mq-IsSound, destroy_mq-IsSound}
use disastros_msg_queues.Reach.Forks.{fork-IsSound, spawn-IsSound}
use disastros_msg_queues.Reach.Resources.{
  open_resource-IsSound, close_resource-IsSound, destroy_resource-IsSound,
}
use disastros_msg_queues.Reach.Unseen.{unseen-IsSound}

-- What a call leaves is sound, or the call is answered at once.
SoundAnswer : ℤ ⊎ Os → Type 0
SoundAnswer (inl e) = Unit {0}
SoundAnswer (inr os) = IsSound os

runs-IsSound :
    (handler : Handler) (os : Os) (n : ℕ) (given : List ℤ)
    → ((s : Os) → IsSound s → Holds IsSound (handler s))
    → IsSound os
    → Holds SoundAnswer (runs handler os n given)
unfolding SoundAnswer
runs-IsSound handler os n given keeps v =
    Holds-bind
      (keeps (passed os n given) (
        unseen-IsSound os os.last_pid (passed os n given).pcbs os.bytes os.ints os.descriptors
          os.descriptor_ptrs os.descriptor_allocator os.descriptor_ptr_allocator v))
      λ s w. holds w

handler-IsSound :
    (c : Call) → is_covered c ≡ true → (s : Os) → IsSound s → Holds IsSound (handler_of c s)
handler-IsSound forks covered = fork-IsSound
handler-IsSound preempts covered = preempt-IsSound
handler-IsSound (spawns _ _) covered = spawn-IsSound
handler-IsSound (opens _ _) covered = open_mq-IsSound
handler-IsSound (closes _) covered = close_mq-IsSound
handler-IsSound (writes _ _ _) covered = write-IsSound
handler-IsSound (reads _ _ _) covered = read-IsSound
handler-IsSound (destroys _) covered = destroy_mq-IsSound
handler-IsSound (waits _ _) covered = cc
handler-IsSound (exits _) covered = cc
handler-IsSound shuts_down covered = cc
handler-IsSound (sleeps _) covered = cc
handler-IsSound (opens_resource _ _ _) covered = open_resource-IsSound
handler-IsSound (closes_resource _) covered = close_resource-IsSound
handler-IsSound (destroys_resource _) covered = destroy_resource-IsSound

perform-IsSound :
    (c : Call) (os : Os) → is_covered c ≡ true → IsSound os → Holds SoundAnswer (perform c os)
perform-IsSound c os covered v =
    subst (Holds SoundAnswer) (sym (wrappers_run os v.inv.scheduled.exists c))
      (runs-IsSound (handler_of c) os (number_of c) (given_by c) (handler-IsSound c covered) v)

schedule-IsSound : (os : Os) → IsSound os → Holds IsSound (schedule os)
unfolding preempt
schedule-IsSound = preempt-IsSound

ticked-IsSound :
    (os : Os)
    → IsSound os
    → IsSound (record os { disastros_time = wrap (os.disastros_time +ℤ pos 1) })
ticked-IsSound os v =
    let inv = v.inv in
    record {
      inv = record {
        message_pool = inv.message_pool;
        pcb_ptr_pool = inv.pcb_ptr_pool;
        scheduled = inv.scheduled;
        queues_exist = inv.queues_exist;
        queues = inv.queues;
        stored = inv.stored;
        waits = inv.waits;
        apart = inv.apart;
        one_place = inv.one_place;
      };
      pcb_pool = v.pcb_pool;
      alive = v.alive;
      mq_pool = v.mq_pool;
      mqs_live = v.mqs_live;
      mqs_distinct = v.mqs_distinct;
      no_timer = v.no_timer;
    }

timer_interrupt-IsSound : (os : Os) → IsSound os → Holds IsSound (timer_interrupt os)
unfolding timer_interrupt
timer_interrupt-IsSound os v =
    Holds-bind
      (schedule-IsSound (record os { disastros_time = wrap (os.disastros_time +ℤ pos 1) })
        (ticked-IsSound os v))
      λ s w. Holds-bind (Holds-any (valid s.running)) λ _ _. holds w

Step-IsSound : {os os' : Os} → IsSound os → Step os os' → IsSound os'
unfolding SoundAnswer
Step-IsSound {os} v (computes bytes ints) =
    unseen-IsSound os os.last_pid os.pcbs bytes ints os.descriptors os.descriptor_ptrs
      os.descriptor_allocator os.descriptor_ptr_allocator v
Step-IsSound {os} v (calls c covered e) = Holds-ok (perform-IsSound c os covered v) e
Step-IsSound {os} v (ticks e) = Holds-ok (timer_interrupt-IsSound os v) e

pub none_in : (x : Ptr) (xs : List Ptr) → xs ≡ [] → x ∈ xs → ⊥
none_in x [] e at = cc
none_in x (y ∷ ys) e at = cc

-- No process but the first, and no queue.
Boots-IsSound : {os : Os} {f f_args : Ptr} {os' : Os} → Boots os f f_args os' → IsSound os'
Boots-IsSound {os'} b = record {
  inv = b.queues;
  pcb_pool = b.processes.pcb_pool;
  alive = b.processes.alive;
  mq_pool = b.described.mq_pool;
  mqs_live = λ q at. absurd (none_in q os'.mq_list b.no_queue at);
  mqs_distinct = subst Distinct (sym b.no_queue) tt;
  no_timer = b.no_timer;
}

SoundStart : Option Os → Type 0
SoundStart none = Unit {0}
SoundStart (some os) = IsSound os

module _ (l : Layout) (boot : Os) (f f_args : Ptr) (layout : IsLayout l)
    (no_shutdown : boot.shutdown_now ≡ false) where
  start-IsSound : {os : Os} → start l boot f f_args ≡ ok (some os) → IsSound os
  unfolding SoundStart
  start-IsSound e =
      Holds-ok {P = SoundStart}
        (Holds-map (Returns-Holds (start-Boots l boot f f_args layout no_shutdown))
          (λ end (os', same, b). subst SoundStart (sym same) (Boots-IsSound b)))
        e

  -- In every state that the kernel reaches from its start by calls that open, close, destroy, write
  -- and read queues, open, close and destroy resources, create processes and give way, by ticks of the clock and by what processes
  -- compute in their own memory, without a fault on the way, the queues and the scheduler's lists
  -- are in order, each process that is there and each listed queue is a live block of its pool, no
  -- queue is listed twice, and no timer is set.
  pub Reach-IsSound : {os : Os} → Reach l boot f f_args os → IsSound os
  Reach-IsSound (starts e) = start-IsSound e
  Reach-IsSound (steps r s) = Step-IsSound (Reach-IsSound r) s
