-- ===== src/Schedule/Turn.antt =====
-- The change of the running process.
use disastros_msg_queues.Base.{
  ◌≡◌, ◌≢◌, refl, arith, List, [], ◌∷◌, ◌++◌, ◌∉◌, has-append, Distinct, Distinct-append,
  Distinct-left, Distinct-right, Distinct-apart, mem-ne, ok, Ptr, null, is_null-ne,
}
use disastros_msg_queues.Os.{ProcessStatus, Os, set_status}
use disastros_msg_queues.MessageQueue.Invariant.{IsScheduled}
use disastros_msg_queues.MessageQueue.Wake.{insert_last-new}
use disastros_msg_queues.Schedule.{rotate}

-- Who runs, and the ready list, after a turn.
abbrev pub turn : Ptr → List Ptr → Ptr × List Ptr
turn running [] = (running, [])
turn running (next ∷ rest) = (next, rest ++ running ∷ [])

Distinct-swap : (xs ys : List Ptr) → Distinct (xs ++ ys) → Distinct (ys ++ xs)
Distinct-swap xs ys d =
    Distinct-append ys xs (Distinct-right xs ys d) (Distinct-left xs ys d)
      (λ p at. Distinct-apart xs ys p d at)

pub swapped-IsScheduled :
    (r : Ptr) (xs ys w : List Ptr) → IsScheduled r (xs ++ ys) w → IsScheduled r (ys ++ xs) w
swapped-IsScheduled r xs ys w s = record {
  exists = s.exists;
  not_ready = ground (arith, s.not_ready, has-append r xs ys, has-append r ys xs);
  not_waiting = s.not_waiting;
  ready_distinct = Distinct-swap xs ys s.ready_distinct;
  waiting_distinct = s.waiting_distinct;
  apart = λ p at. s.apart p (ground (arith, has-append p xs ys, has-append p ys xs));
  ready_exist = λ p at. s.ready_exist p (ground (arith, has-append p xs ys, has-append p ys xs));
  waiting_exist = s.waiting_exist;
}

pub turn-IsScheduled :
    (r : Ptr) (l w : List Ptr) → IsScheduled r l w → IsScheduled (turn r l).0 (turn r l).1 w
turn-IsScheduled r [] w s = s
turn-IsScheduled r (n ∷ l) w s = record {
  exists = s.ready_exist n (ground arith);
  not_ready = ground (arith, s.not_ready, s.ready_distinct, has-append n l (r ∷ []));
  not_waiting = s.apart n (ground arith);
  ready_distinct =
      Distinct-append l (r ∷ []) s.ready_distinct.1 (refl, tt)
        (λ p at. ground (arith, mem-ne p r l at, s.not_ready));
  waiting_distinct = s.waiting_distinct;
  apart = λ p at. ground (arith, has-append p l (r ∷ []), s.apart p, s.not_waiting);
  ready_exist = λ p at. ground (arith, has-append p l (r ∷ []), s.ready_exist p, s.exists);
  waiting_exist = s.waiting_exist;
}

-- The state behind the turn.
abbrev pub turned : Os → List Ptr → Os
turned os [] = os
turned os (next ∷ rest) =
    let os' = set_status os os.running ProcessStatus.ready in
    let os'' = set_status os' next ProcessStatus.running in
    record os'' { ready_list = rest ++ os.running ∷ []; running = next }

pub rotate-ok :
    (os : Os) (l : List Ptr) → os.running ≢ null → os.running ∉ l → rotate os l ≡ ok (turned os l)
unfolding rotate
rotate-ok os [] exists out = refl
rotate-ok os (n ∷ l) exists out =
    rw (is_null-ne os.running _ _ exists)
      (rw (insert_last-new l os.running exists (ground arith)) refl)

-- What the turn does to the processes.
module _ (os : Os) (next : Ptr) (rest : List Ptr) where
  pub next-turned : ((turned os (next ∷ rest)).pcbs next).status ≡ ProcessStatus.running
  next-turned = ground arith

  pub running-turned :
      os.running ≢ next → ((turned os (next ∷ rest)).pcbs os.running).status ≡ ProcessStatus.ready
  running-turned ne = ground arith

  pub ready-turned :
      (p : Ptr)
      → p ≢ next
      → (os.pcbs p).status ≡ ProcessStatus.ready
      → ((turned os (next ∷ rest)).pcbs p).status ≡ ProcessStatus.ready
  ready-turned p ne e = ground arith

  pub timer-turned : (p : Ptr) → ((turned os (next ∷ rest)).pcbs p).timer ≡ (os.pcbs p).timer
  timer-turned p = ground arith

  pub others-turned :
      (p : Ptr) → p ≢ os.running → p ≢ next → (turned os (next ∷ rest)).pcbs p ≡ os.pcbs p
  others-turned p a b = ground arith
