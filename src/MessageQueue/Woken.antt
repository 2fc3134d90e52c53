-- ===== src/MessageQueue/Woken.antt =====
-- What the invariant says of the processes that a loop wakes.
use disastros_msg_queues.Base.{
  ◌≡◌, inl, inr, sym, arith, Bool-cases, List, ◌++◌, map, has, ◌∈◌, ◌∉◌, has-append, Distinct,
  without, mem-without, not-mem-without, not-mem-without_mem, Distinct-without, Distinct-append,
  Distinct-map, map-mem, Ptr,
}
use disastros_msg_queues.Os.{Os}
use disastros_msg_queues.MessageQueue.Invariant.{Inv, IsScheduled, waiters}
use disastros_msg_queues.MessageQueue.Wake.{Wakeable, Wakeable-all}

-- The woken processes move from the waiting list to the end of the ready list.
pub woken-IsScheduled :
    (running : Ptr) (ready waiting ps : List Ptr)
    → IsScheduled running ready waiting
    → Distinct ps
    → ((p : Ptr) → p ∈ ps → p ∈ waiting)
    → IsScheduled running (ready ++ ps) (without ps waiting)
woken-IsScheduled running ready waiting ps s d from = record {
  exists = s.exists;
  not_ready = ground (arith, has-append running ready ps, from running, s.not_ready, s.not_waiting);
  not_waiting = not-mem-without running ps waiting s.not_waiting;
  ready_distinct =
      Distinct-append ready ps s.ready_distinct d (λ p at. ground (arith, s.apart p at, from p));
  waiting_distinct = Distinct-without ps waiting s.waiting_distinct;
  apart = λ p at. ground (
    arith,
    has-append p ready ps,
    s.apart p,
    not-mem-without p ps waiting,
    not-mem-without_mem p ps waiting s.waiting_distinct,
  );
  ready_exist =
      λ p at. ground (arith, has-append p ready ps, s.ready_exist p, s.waiting_exist p, from p);
  waiting_exist = λ p at. s.waiting_exist p (ground (arith, not-mem-without p ps waiting));
}

-- A queue `q` of the state, and some of its waiters `ws` that are woken.
module _ (os : Os) (inv : Inv os) (q : Ptr) (here : q ∈ os.mq_list) (ws : List Ptr)
    (d : Distinct ws) (from : (w : Ptr) → w ∈ ws → w ∈ waiters (os.mqs q)) where
  woken_injective : (w v : Ptr) → w ∈ ws → v ∈ ws → os.pcb_ptrs w ≡ os.pcb_ptrs v → w ≡ v
  woken_injective w v at at' e = (inv.one_place q q w v here here (from w at) (from v at') e).1

  pub woken-Wakeable : Wakeable os.pcb_ptrs os.waiting_list os.ready_list ws
  woken-Wakeable =
      Wakeable-all os.pcb_ptrs os.waiting_list os.ready_list ws
        (λ w at.
          let (ne, alive, waits) = inv.waits q here w (from w at) in
          (
            ne,
            inv.scheduled.waiting_exist (os.pcb_ptrs w) waits,
            waits,
            ground (arith, inv.scheduled.apart (os.pcb_ptrs w)),
          ))
        d woken_injective

  woken_wait : (p : Ptr) → p ∈ map os.pcb_ptrs ws → p ∈ os.waiting_list
  woken_wait p at =
      let (w, at', e) = map-mem os.pcb_ptrs p ws at in rw e (inv.waits q here w (from w at')).2

  pub woken_processes-IsScheduled :
      IsScheduled os.running
        (os.ready_list ++ map os.pcb_ptrs ws)
        (without (map os.pcb_ptrs ws) os.waiting_list)
  woken_processes-IsScheduled =
      woken-IsScheduled os.running os.ready_list os.waiting_list (map os.pcb_ptrs ws) inv.scheduled
        (Distinct-map os.pcb_ptrs ws d woken_injective) woken_wait

  -- Every waiter that is not woken still waits.
  pub others_wait :
      (r v : Ptr)
      → r ∈ os.mq_list
      → v ∈ waiters (os.mqs r)
      → v ∉ ws
      → os.pcb_ptrs v ∈ without (map os.pcb_ptrs ws) os.waiting_list
  others_wait r v there at out =
      mem-without (os.pcb_ptrs v) (map os.pcb_ptrs ws) os.waiting_list (inv.waits r there v at).2
        (elim (Bool-cases (has (os.pcb_ptrs v) (map os.pcb_ptrs ws))) [
          | inl hit ↦
              (let (w, at', e) = map-mem os.pcb_ptrs (os.pcb_ptrs v) ws hit in
                let same : w ≡ v = (inv.one_place q r w v here there (from w at') at (sym e)).1 in
                ground arith)
          | inr miss ↦ miss
        ])

  -- The running process is not among them.
  pub running-not-woken : os.running ∉ map os.pcb_ptrs ws
  running-not-woken = elim (Bool-cases (has os.running (map os.pcb_ptrs ws))) [
    | inl at ↦ ground (arith, woken_wait os.running at, inv.scheduled.not_waiting)
    | inr out ↦ out
  ]
