-- ===== src/Schedule/Sleeps.antt =====
-- A process that sleeps.
use disastros_msg_queues.Base.{
  ◌≡◌, ◌≢◌, ◌⊎◌, inl, inr, refl, sym, ◌∙◌, ap, ap₂, subst, arith, ◌==◌, true, Bool-cases, List, [],
  ◌∷◌, ◌++◌, ◌∈◌, has-append, mem-ne, ℤ, ◌+ℤ◌, wrap, pos, ok, Returns, returns, Returns-ok, Ptr,
  null, is_null, is_null-ne,
}
use disastros_msg_queues.PoolAllocator.Live.{Fresh}
use disastros_msg_queues.Os.{ProcessStatus, Os, TimerItem, set_status}
use disastros_msg_queues.Process.{arg, return_value, put_to_wait}
use disastros_msg_queues.MessageQueue.Invariant.{IsScheduled}
use disastros_msg_queues.MessageQueue.Suspended.{switched-IsScheduled}
use disastros_msg_queues.MessageQueue.Wake.{insert_last-new}
use disastros_msg_queues.Timer.{add, sleep, sleep_error, run_ready}
use disastros_msg_queues.Timer.Add.{Adds, add-Adds}
use disastros_msg_queues.Schedule.WakeTimers.{sleeper}
use disastros_msg_queues.Schedule.Schedules.{IsClock}

-- When the running process wakes up, as an `int`.
abbrev pub wake_time : Os → ℤ
wake_time os = wrap (os.disastros_time +ℤ arg os 0)

-- The process that ran sleeps, and the first ready process runs.
pub record Sleeps (os : Os) (next : Ptr) (rest : List Ptr) (os' : Os) : Type 0 where
  pub valid : IsClock os'
  pub runs : os'.running ≡ next
  pub ready : os'.ready_list ≡ rest
  pub on_list : os'.waiting_list ≡ os.waiting_list ++ os.running ∷ []
  pub is_waiting : (os'.pcbs os.running).status ≡ ProcessStatus.waiting
  pub item : Ptr
  pub fresh : Fresh os.timer_allocator item os'.timer_allocator
  pub listed : item ∈ os'.timer_list
  pub others : (p : Ptr) → p ≢ os.running → os'.pcbs p ≡ os.pcbs p
  pub other_timers :
      (t : Ptr) → t ∈ os.timer_list → (t ∈ os'.timer_list) × (os'.timer_items t ≡ os.timer_items t)
  pub set : os'.timer_items item ≡ record { awakening_time = wake_time os; pcb = os.running }

module _ (os : Os) (v : IsClock os) (no_timer : (os.pcbs os.running).timer ≡ null) (next : Ptr)
    (rest : List Ptr) (head : os.ready_list ≡ next ∷ rest) where
  module _ (new : Ptr) (os1 : Os) (a : Adds os (wake_time os) os.running new os1) where
    timed : Os
    timed = record os {
      timer_allocator = os1.timer_allocator;
      timer_items = os1.timer_items;
      timer_list = os1.timer_list;
    }

    slept : Os
    slept = record (set_status timed os.running ProcessStatus.waiting) {
      waiting_list = os.waiting_list ++ os.running ∷ [];
      running = next;
      ready_list = rest;
    }

    new_listed : new ∈ os1.timer_list
    new_listed = rw a.after (ground (arith, has-append new a.left (new ∷ a.right)))

    old_listed : (t : Ptr) → t ∈ os1.timer_list → t ≢ new → t ∈ os.timer_list
    old_listed t at other = rw a.before (
        ground (
          arith,
          subst (λ l. t ∈ l) a.after at,
          has-append t a.left (new ∷ a.right),
          has-append t a.left a.right,
        ))

    still_listed : (t : Ptr) → t ∈ os.timer_list → t ∈ os1.timer_list
    still_listed t at = rw a.after (
        ground (
          arith,
          subst (λ l. t ∈ l) a.before at,
          has-append t a.left (new ∷ a.right),
          has-append t a.left a.right,
        ))

    new_sleeper : sleeper os1.timer_items new ≡ os.running
    new_sleeper = ap (λ (i : TimerItem). i.pcb) a.item

    old_sleeper :
        (t : Ptr) → t ∈ os.timer_list → sleeper os1.timer_items t ≡ sleeper os.timer_items t
    old_sleeper t at = ap (λ (i : TimerItem). i.pcb) (a.others t at)

    sleeps :
        (t : Ptr)
        → t ∈ os1.timer_list
        → sleeper os1.timer_items t ∈ os.waiting_list ++ os.running ∷ []
    sleeps t at = elim (Bool-cases (t == new)) [
      | inl here ↦
          (let e : t ≡ new = ground arith in
            rw (ap (sleeper os1.timer_items) e ∙ new_sleeper)
              (ground (arith, has-append os.running os.waiting_list (os.running ∷ []))))
      | inr there ↦
          (let old = old_listed t at (ground arith) in
            rw (old_sleeper t old) (
              ground (
                arith,
                v.sleeps t old,
                has-append (sleeper os.timer_items t) os.waiting_list (os.running ∷ []),
              )))
    ]

    -- The running process had no timer.
    not_asleep : (t : Ptr) → t ∈ os.timer_list → sleeper os.timer_items t ≢ os.running
    not_asleep t at =
        mem-ne (sleeper os.timer_items t) os.running os.waiting_list (v.sleeps t at)
          v.scheduled.not_waiting

    one_timer :
        (t u : Ptr)
        → t ∈ os1.timer_list
        → u ∈ os1.timer_list
        → sleeper os1.timer_items t ≡ sleeper os1.timer_items u
        → t ≡ u
    one_timer t u i j e = elim (Bool-cases (t == new)) [
      | inl here ↦
          (let et : t ≡ new = ground arith in
            elim (Bool-cases (u == new)) [
              | inl here' ↦ ground arith
              | inr there' ↦
                  (let old = old_listed u j (ground arith) in
                    absurd (
                      not_asleep u old (
                        sym (old_sleeper u old)
                        ∙ sym e
                        ∙ ap (sleeper os1.timer_items) et
                        ∙ new_sleeper)))
            ])
      | inr there ↦
          (let old = old_listed t i (ground arith) in
            elim (Bool-cases (u == new)) [
              | inl here' ↦
                  (let eu : u ≡ new = ground arith in
                    absurd (
                      not_asleep t old (
                        sym (old_sleeper t old)
                        ∙ e
                        ∙ ap (sleeper os1.timer_items) eu
                        ∙ new_sleeper)))
              | inr there' ↦
                  (let old' = old_listed u j (ground arith) in
                    v.one_timer t u old old' (sym (old_sleeper t old) ∙ e ∙ old_sleeper u old'))
            ])
    ]

    slept-Sleeps : Sleeps os next rest slept
    unfolding slept timed
    slept-Sleeps = record {
      valid = record {
        timers = record {
          pool = a.valid.pool;
          alive = a.valid.alive;
          distinct = a.valid.distinct;
          sorted = a.valid.sorted;
        };
        scheduled =
            switched-IsScheduled os.running next rest os.waiting_list
              (subst (λ l. IsScheduled os.running l os.waiting_list) head v.scheduled);
        sleeps = sleeps;
        one_timer = one_timer;
      };
      runs = refl;
      ready = refl;
      on_list = refl;
      is_waiting = ground arith;
      item = new;
      fresh = a.fresh;
      listed = new_listed;
      others = λ p ne. ground arith;
      other_timers = λ t at. (still_listed t at, a.others t at);
      set = a.item;
    }

    sleep-result : add os (wake_time os) os.running ≡ ok (new, os1) → sleep os ≡ ok slept
    unfolding sleep slept timed put_to_wait run_ready
    sleep-result added =
        let untimed : is_null (os.pcbs os.running).timer ≡ true = ground arith in
        rw (is_null-ne os.running _ _ v.scheduled.exists) (
          rw untimed (
            rw (added ∙ ap (λ s. ok (new, s)) a.only_timers) (
              rw (is_null-ne new _ _ (a.valid.alive new new_listed).0) (
                rw
                  (insert_last-new os.waiting_list os.running v.scheduled.exists
                    v.scheduled.not_waiting)
                  (rw head refl)))))

  sleep-exhausted :
      add os (wake_time os) os.running ≡ ok (null, os) → sleep os ≡ ok (return_value os sleep_error)
  unfolding sleep
  sleep-exhausted none =
      let untimed : is_null (os.pcbs os.running).timer ≡ true = ground arith in
      rw (is_null-ne os.running _ _ v.scheduled.exists) (rw untimed (rw none refl))

  -- In a state whose timers and lists fit, with another process ready, the running process, whose
  -- timer field is null, asks to sleep. Either no timer object is free, the result is -7 and nothing
  -- else changes; or no access fails, the timers and lists fit again, the process waits with a fresh
  -- timer that is due at the time plus the cycles it asked for, a sum that wraps around as an `int`,
  -- the first ready process runs, and no other process or timer changes.
  pub sleep-Sleeps :
      Returns
        (λ os'.
          ((os.timer_allocator.size ≡ pos 0) × (os' ≡ return_value os sleep_error))
          ⊎ Sleeps os next rest os')
        (sleep os)
  sleep-Sleeps =
      let ((new, os1), added, outcome) =
        Returns-ok (add-Adds os (wake_time os) os.running v.timers) in
      elim outcome [
        | inl e ↦
            rw (sleep-exhausted (added ∙ ap₂ (λ p s. ok (p, s)) e.null_result e.same))
              (returns (inl (e.none_free, refl)))
        | inr a ↦ rw (sleep-result new os1 a added) (returns (inr (slept-Sleeps new os1 a)))
      ]
