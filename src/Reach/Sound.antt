-- ===== src/Reach/Sound.antt =====
-- What holds in every state that the kernel reaches, and how it is kept.
use disastros_msg_queues.MessageQueue.Invariant.{IsScheduled}
use disastros_msg_queues.Base.{
  ◌≡◌, refl, sym, ◌∙◌, subst, List, [], ◌∷◌, ◌∈◌, Distinct, Holds, holds, Holds-map, Holds-both,
  ◌>>=◌, Ptr, null,
}
use disastros_msg_queues.PoolAllocator.Live.{IsValid, Live}
use disastros_msg_queues.Os.{Os}
use disastros_msg_queues.MessageQueue.Invariant.{Inv}
use disastros_msg_queues.MessageQueue.Write.{write}
use disastros_msg_queues.MessageQueue.Read.{read}
use disastros_msg_queues.MessageQueue.Keeps.{write-Keeps, read-Keeps}
use disastros_msg_queues.Schedule.{wake_timers, rotate, schedule, preempt}
use disastros_msg_queues.Schedule.Turn.{turn-IsScheduled, turned, rotate-ok}
use disastros_msg_queues.Spawn.Born.{present}
use disastros_msg_queues.Reach.Within.{Within}
use disastros_msg_queues.Reach.WriteWithin.{write-Within}
use disastros_msg_queues.Reach.ReadWithin.{read-Within, schedule-Within}

-- The queues and the scheduler's lists are in order, the processes that are there and the listed
-- queues are live blocks of their pools, no queue is listed twice, and no timer is set.
pub record IsSound (os : Os) : Type 0 where
  pub inv : Inv os
  pub pcb_pool : IsValid os.pcb_allocator
  pub alive : (p : Ptr) → p ∈ present os → Live os.pcb_allocator p
  pub mq_pool : IsValid os.mq_allocator
  pub mqs_live : (q : Ptr) → q ∈ os.mq_list → Live os.mq_allocator q
  pub mqs_distinct : Distinct os.mq_list
  pub no_timer : os.timer_list ≡ []

Within-IsSound : (os : Os) → IsSound os → (s : Os) → Inv s × Within os s → IsSound s
Within-IsSound os v s (inv, w) = record {
  inv = inv;
  pcb_pool = subst IsValid (sym w.same_pcbs) v.pcb_pool;
  alive = λ p at. subst (λ a. Live a p) (sym w.same_pcbs) (v.alive p (w.among p at));
  mq_pool = subst IsValid (sym w.same_mqs) v.mq_pool;
  mqs_live = λ q at.
      subst (λ a. Live a q) (sym w.same_mqs) (v.mqs_live q (subst (λ l. q ∈ l) w.same_list at));
  mqs_distinct = subst Distinct (sym w.same_list) v.mqs_distinct;
  no_timer = w.same_timers ∙ v.no_timer;
}

pub write-IsSound : (os : Os) → IsSound os → Holds IsSound (write os)
write-IsSound os v =
    Holds-map (Holds-both (write-Keeps os v.inv) (write-Within os)) (Within-IsSound os v)

pub read-IsSound : (os : Os) → IsSound os → Holds IsSound (read os)
read-IsSound os v =
    Holds-map (Holds-both (read-Keeps os v.inv) (read-Within os)) (Within-IsSound os v)

turned-Inv : (os : Os) (l : List Ptr) → os.ready_list ≡ l → Inv os → Inv (turned os l)
turned-Inv os [] e inv = inv
turned-Inv os (next ∷ rest) e inv = record {
  message_pool = inv.message_pool;
  pcb_ptr_pool = inv.pcb_ptr_pool;
  scheduled =
      turn-IsScheduled os.running (next ∷ rest) os.waiting_list
        (subst (λ l. IsScheduled os.running l os.waiting_list) e inv.scheduled);
  queues_exist = inv.queues_exist;
  queues = inv.queues;
  stored = inv.stored;
  waits = inv.waits;
  apart = inv.apart;
  one_place = inv.one_place;
}

schedule-Inv : (os : Os) → Inv os → os.timer_list ≡ [] → Holds Inv (schedule os)
unfolding schedule wake_timers
schedule-Inv os inv none =
    subst (λ l. Holds Inv (wake_timers os null l >>= λ s. rotate s s.ready_list)) (sym none)
      (subst (Holds Inv)
        (sym (rotate-ok os os.ready_list inv.scheduled.exists inv.scheduled.not_ready))
        (holds (turned-Inv os os.ready_list refl inv)))

pub preempt-IsSound : (os : Os) → IsSound os → Holds IsSound (preempt os)
unfolding preempt
preempt-IsSound os v =
    Holds-map (Holds-both (schedule-Inv os v.inv v.no_timer) (schedule-Within os v.no_timer))
      (Within-IsSound os v)
