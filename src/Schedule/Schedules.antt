-- ===== src/Schedule/Schedules.antt =====
-- One run of the scheduler.
use disastros_msg_queues.Base.{
  ◌≡◌, refl, ◌≢◌, sym, ◌∙◌, ap, subst, fun_ext, arith, true, Bool-cases, inl, inr, List, [], ◌∷◌,
  ◌++◌, map, map-mem, has, ◌∈◌, ◌∉◌, has-append, without, mem-without, Distinct, Distinct-left,
  Distinct-right, Distinct-apart, Distinct-map, ltb_ℤ, ok, Returns, returns, Ptr, null,
}
use disastros_msg_queues.PoolAllocator.{PoolAllocator}
use disastros_msg_queues.Os.{ProcessStatus, Os, Pcb}
use disastros_msg_queues.MessageQueue.Invariant.{IsScheduled}
use disastros_msg_queues.MessageQueue.WakeWriters.{FreedAll}
use disastros_msg_queues.MessageQueue.Woken.{woken-IsScheduled}
use disastros_msg_queues.Timer.Sorted.{IsTimers}
use disastros_msg_queues.Schedule.{wake_timers, schedule}
use disastros_msg_queues.Schedule.Turn.{
  turn, turned, swapped-IsScheduled, turn-IsScheduled, rotate-ok, next-turned, running-turned,
  ready-turned, timer-turned, others-turned,
}
use disastros_msg_queues.Schedule.Due.{due, later, due-later, later_waits, Sorted-later}
use disastros_msg_queues.Schedule.WakeTimers.{sleeper, roused, loop_end, IsLoop, wake_timers-ok}

-- The timers and the lists of processes fit: the process of each timer waits, and has no other one.
pub record IsClock (os : Os) : Type 0 where
  pub timers : IsTimers os
  pub scheduled : IsScheduled os.running os.ready_list os.waiting_list
  pub sleeps : (t : Ptr) → t ∈ os.timer_list → sleeper os.timer_items t ∈ os.waiting_list
  pub one_timer :
      (t u : Ptr)
      → t ∈ os.timer_list
      → u ∈ os.timer_list
      → sleeper os.timer_items t ≡ sleeper os.timer_items u
      → t ≡ u

-- The timers that have elapsed, and their processes.
abbrev pub gone : Os → List Ptr
gone os = due os.disastros_time os.timer_items os.timer_list

abbrev pub woken_ones : Os → List Ptr
woken_ones os = map (sleeper os.timer_items) (gone os)

no_items : (xs ys : List Ptr) → xs ++ ys ≡ [] → xs ≡ []
no_items [] ys e = refl
no_items (x ∷ xs) ys e = cc

pub record Schedules (os os' : Os) : Type 0 where
  pub valid : IsClock os'
  pub same_time : os'.disastros_time ≡ os.disastros_time
  pub split : os.timer_list ≡ gone os ++ os'.timer_list
  pub pending :
      (t : Ptr)
      → t ∈ os'.timer_list
      → ltb_ℤ os.disastros_time (os'.timer_items t).awakening_time ≡ true
  pub in_turn : (os'.running, os'.ready_list) ≡ turn os.running (woken_ones os ++ os.ready_list)
  pub still_waiting : os'.waiting_list ≡ without (woken_ones os) os.waiting_list
  pub woken_up :
      (p : Ptr) → p ∈ woken_ones os → p ≢ os'.running → (os'.pcbs p).status ≡ ProcessStatus.ready
  pub no_timer : (p : Ptr) → p ∈ woken_ones os → (os'.pcbs p).timer ≡ null
  pub runs :
      (next : Ptr) (rest : List Ptr)
      → woken_ones os ++ os.ready_list ≡ next ∷ rest
      → ((os'.pcbs next).status ≡ ProcessStatus.running)
        × ((os'.pcbs os.running).status ≡ ProcessStatus.ready)
  pub alone : woken_ones os ++ os.ready_list ≡ [] → os'.pcbs ≡ os.pcbs
  pub others :
      (p : Ptr) → p ∉ woken_ones os → p ≢ os.running → p ≢ os'.running → os'.pcbs p ≡ os.pcbs p
  pub freed : FreedAll os.timer_allocator (gone os) os'.timer_allocator

module _ (os : Os) (v : IsClock os) where
  first_round : IsLoop os [] os.ready_list os.timer_list
  first_round = record {
    pool = v.timers.pool;
    alive = λ t at. (v.timers.alive t at).1;
    waits = λ t at.
        let waits = v.sleeps t at in
        (
          v.scheduled.waiting_exist (sleeper os.timer_items t) waits,
          waits,
          ground (arith, v.scheduled.apart (sleeper os.timer_items t)),
        );
    distinct = v.timers.distinct;
    apart = v.one_timer;
    ready_distinct = v.scheduled.ready_distinct;
    exist = v.scheduled.ready_exist;
  }

  left_over : List Ptr
  left_over = later os.disastros_time os.timer_items os.timer_list

  two_parts : gone os ++ left_over ≡ os.timer_list
  unfolding left_over
  two_parts = due-later os.disastros_time os.timer_items os.timer_list

  parts-Distinct : Distinct (gone os ++ left_over)
  parts-Distinct = subst Distinct (sym two_parts) v.timers.distinct

  was_gone : (t : Ptr) → t ∈ gone os → t ∈ os.timer_list
  was_gone t at = subst (λ l. t ∈ l) two_parts (ground (arith, has-append t (gone os) left_over))

  was_left : (t : Ptr) → t ∈ left_over → t ∈ os.timer_list
  was_left t at = subst (λ l. t ∈ l) two_parts (ground (arith, has-append t (gone os) left_over))

  not_gone : (t : Ptr) → t ∈ left_over → t ∉ gone os
  not_gone t at = Distinct-apart (gone os) left_over t parts-Distinct at

  -- The process of a timer that is left is not woken.
  sleeps_on :
      (t : Ptr) → t ∈ left_over → sleeper os.timer_items t ∈ without (woken_ones os) os.waiting_list
  sleeps_on t at =
      mem-without (sleeper os.timer_items t) (woken_ones os) os.waiting_list
        (v.sleeps t (was_left t at))
        (elim (Bool-cases (has (sleeper os.timer_items t) (woken_ones os))) [
          | inl hit ↦
              (let (u, at', e) =
                  map-mem (sleeper os.timer_items) (sleeper os.timer_items t) (gone os) hit in
                let same : t ≡ u = v.one_timer t u (was_left t at) (was_gone u at') e in
                let out = not_gone t at in ground arith)
          | inr miss ↦ miss
        ])

  woken_wait : (p : Ptr) → p ∈ woken_ones os → p ∈ os.waiting_list
  woken_wait p at =
      let (t, at', e) = map-mem (sleeper os.timer_items) p (gone os) at in
      rw e (v.sleeps t (was_gone t at'))

  all_ready : List Ptr
  all_ready = woken_ones os ++ os.ready_list

  before_turn : IsScheduled os.running all_ready (without (woken_ones os) os.waiting_list)
  unfolding all_ready
  before_turn =
      swapped-IsScheduled os.running os.ready_list (woken_ones os)
        (without (woken_ones os) os.waiting_list)
        (woken-IsScheduled os.running os.ready_list os.waiting_list (woken_ones os) v.scheduled
          (Distinct-map (sleeper os.timer_items) (gone os)
            (Distinct-left (gone os) left_over parts-Distinct)
            (λ t u at at' e. v.one_timer t u (was_gone t at) (was_gone u at') e))
          woken_wait)

  not_next : (next : Ptr) (rest : List Ptr) → all_ready ≡ next ∷ rest → os.running ≢ next
  not_next next rest e =
      let out : os.running ∉ next ∷ rest = subst (λ l. os.running ∉ l) e before_turn.not_ready in
      ground arith

  abbrev awake_pcbs : Ptr → Pcb
  awake_pcbs = roused (woken_ones os) os.pcbs

  roused-ready : (p : Ptr) → p ∈ woken_ones os → (awake_pcbs p).status ≡ ProcessStatus.ready
  roused-ready p at = rw at refl

  roused-timer : (p : Ptr) → p ∈ woken_ones os → (awake_pcbs p).timer ≡ null
  roused-timer p at = rw at refl

  roused-others : (p : Ptr) → p ∉ woken_ones os → awake_pcbs p ≡ os.pcbs p
  roused-others p out = rw out refl

  none_roused : woken_ones os ++ os.ready_list ≡ [] → awake_pcbs ≡ os.pcbs
  none_roused none =
      fun_ext λ p. roused-others p (rw (no_items (woken_ones os) os.ready_list none) refl)

  module _ (b : PoolAllocator) (freed : FreedAll os.timer_allocator (gone os) b) where
    awake : Os
    awake = loop_end os [] (woken_ones os) os.ready_list left_over b

    awake-IsTimers : IsTimers awake
    unfolding awake left_over
    awake-IsTimers = record {
      pool = freed.valid;
      alive = λ t at.
          let (ne, alive) = v.timers.alive t (was_left t at) in
          (ne, freed.keeps t (not_gone t at) alive);
      distinct = Distinct-right (gone os) left_over parts-Distinct;
      sorted = Sorted-later os.disastros_time os.timer_items os.timer_list v.timers.sorted;
    }

    awake-Schedules : (l : List Ptr) → all_ready ≡ l → Schedules os (turned awake l)
    unfolding awake left_over all_ready
    awake-Schedules [] e = record {
      valid = record {
        timers = awake-IsTimers;
        scheduled = before_turn;
        sleeps = sleeps_on;
        one_timer = λ t u i j. v.one_timer t u (was_left t i) (was_left u j);
      };
      same_time = refl;
      split = sym two_parts;
      pending =
          λ t at. later_waits os.disastros_time os.timer_items os.timer_list t v.timers.sorted at;
      in_turn = ap (λ l. (os.running, l)) e ∙ ap (turn os.running) (sym e);
      still_waiting = refl;
      woken_up = λ p at ne. roused-ready p at;
      no_timer = roused-timer;
      runs = λ next rest e'. cc (sym e ∙ e');
      alone = none_roused;
      others = λ p out a b. roused-others p out;
      freed = freed;
    }
    awake-Schedules (n ∷ l) e = record {
      valid = record {
        timers = record {
          pool = awake-IsTimers.pool;
          alive = awake-IsTimers.alive;
          distinct = awake-IsTimers.distinct;
          sorted = awake-IsTimers.sorted;
        };
        scheduled = turn-IsScheduled os.running (n ∷ l) (without (woken_ones os) os.waiting_list) (
            subst (λ r. IsScheduled os.running r (without (woken_ones os) os.waiting_list)) e
              before_turn);
        sleeps = sleeps_on;
        one_timer = λ t u i j. v.one_timer t u (was_left t i) (was_left u j);
      };
      same_time = refl;
      split = sym two_parts;
      pending =
          λ t at. later_waits os.disastros_time os.timer_items os.timer_list t v.timers.sorted at;
      in_turn = ap (turn os.running) (sym e);
      still_waiting = refl;
      woken_up = λ p at ne. ready-turned awake n l p ne (roused-ready p at);
      no_timer = λ p at. timer-turned awake n l p ∙ roused-timer p at;
      runs = λ next rest e'.
          let same : n ≡ next = cc (sym e ∙ e') in
          (
            subst (λ m. ((turned awake (n ∷ l)).pcbs m).status ≡ ProcessStatus.running) same
                (next-turned awake n l),
            running-turned awake n l (not_next n l e),
          );
      alone = λ none. cc (sym e ∙ none);
      others = λ p out a b. others-turned awake n l p a b ∙ roused-others p out;
      freed = freed;
    }

    schedule-result :
        wake_timers os null os.timer_list ≡ ok awake → schedule os ≡ ok (turned awake all_ready)
    unfolding schedule awake all_ready
    schedule-result woke = rw woke (
        rotate-ok (loop_end os [] (woken_ones os) os.ready_list left_over b) all_ready
          before_turn.exists before_turn.not_ready)

  -- In a state whose timers and lists fit, the scheduler fails no access and keeps this: exactly the
  -- timers that have elapsed are taken off the list and released, their processes leave the waiting
  -- list, stand in front of the ready list in the order of the timers, and are ready without a timer;
  -- then the first ready process runs, with that status, and the one that ran is ready and goes to
  -- the end; without a ready process the same one runs on, and no process changes. No other process
  -- changes.
  pub schedule-Schedules : Returns (Schedules os) (schedule os)
  unfolding awake left_over
  schedule-Schedules =
      let (b, woke, freed) = wake_timers-ok os.timer_list os [] os.ready_list first_round in
      rw (schedule-result b freed woke) (returns (awake-Schedules b freed all_ready refl))
