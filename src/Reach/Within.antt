-- ===== src/Reach/Within.antt =====
-- Handlers that create nothing: the processes behind them are among those before, and the pools of
-- processes and queues, the list of queues and the timers stay.
use disastros_msg_queues.Base.{
  ◌≡◌, ◌⊎◌, inl, inr, refl, sym, ◌∙◌, ap, ap₂, Holds-any, subst, arith, List, [], ◌∷◌, ◌++◌, has,
  ◌∈◌, has-append, not-mem-erase, Bool-cases, Run, Holds, ◌>>=◌, holds, stops, Holds-bind, Holds-if,
  Holds-map, Ptr, is_null,
}
use disastros_msg_queues.PoolAllocator.{get_block}
use disastros_msg_queues.Sequence.{insert_last, detach, detach_first}
use disastros_msg_queues.Os.{Os, valid}
use disastros_msg_queues.Process.{ptr_alloc, put_to_wait, run_next, next_ready}
use disastros_msg_queues.Spawn.Born.{present}

pub record Within (os os' : Os) : Type 0 where
  pub same_pcbs : os'.pcb_allocator ≡ os.pcb_allocator
  pub same_mqs : os'.mq_allocator ≡ os.mq_allocator
  pub same_list : os'.mq_list ≡ os.mq_list
  pub same_timers : os'.timer_list ≡ os.timer_list
  pub among : (p : Ptr) → p ∈ present os' → p ∈ present os

pub Within-refl : (os : Os) → Within os os
Within-refl os = record {
  same_pcbs = refl;
  same_mqs = refl;
  same_list = refl;
  same_timers = refl;
  among = λ p at. at;
}

pub Within-trans : {a b c : Os} → Within a b → Within b c → Within a c
Within-trans v w = record {
  same_pcbs = w.same_pcbs ∙ v.same_pcbs;
  same_mqs = w.same_mqs ∙ v.same_mqs;
  same_list = w.same_list ∙ v.same_list;
  same_timers = w.same_timers ∙ v.same_timers;
  among = λ p at. v.among p (w.among p at);
}

pub Within-after : {a b : Os} {r : Run Os} → Holds (Within b) r → Within a b → Holds (Within a) r
Within-after h v = Holds-map h (λ os' w. Within-trans v w)

-- One step more, from a state that is within.
pub Within-bind :
    {A : Type 0} {os : Os} {r : Run A} (state : A → Os) {k : A → Run Os}
    → Holds (λ a. Within os (state a)) r
    → ((a : A) → Holds (Within (state a)) (k a))
    → Holds (Within os) (r >>= k)
Within-bind state (holds p) next = Holds-map (next _) (λ os' w. Within-trans p w)
Within-bind state stops next = stops

pub insert_last-has :
    (xs : List Ptr) (x : Ptr)
    → Holds (λ ys. (p : Ptr) → p ∈ ys → (p ∈ xs) ⊎ (p ≡ x)) (insert_last xs x)
unfolding insert_last
insert_last-has xs x =
    Holds-if (is_null x) (λ _. stops)
      λ _.
        Holds-if (has x xs) (λ _. stops)
          λ _. holds (λ p at. elim (Bool-cases (has p xs)) [
            | inl old ↦ inl old
            | inr new ↦ inr (ground (arith, has-append p xs (x ∷ [])))
          ])

pub detach-has :
    (xs : List Ptr) (x : Ptr) → Holds (λ ys. (x ∈ xs) × ((p : Ptr) → p ∈ ys → p ∈ xs)) (detach xs x)
unfolding detach
detach-has xs x =
    Holds-if (is_null x) (λ _. stops)
      λ _.
        Holds-if (has x xs) (λ e. holds (e, λ p at. ground (arith, not-mem-erase p x xs)))
          λ _. stops

-- The pools of the list items and of the messages may change, and the objects.
pub quiet :
    (os os' : Os)
    → os'.pcb_allocator ≡ os.pcb_allocator
    → os'.mq_allocator ≡ os.mq_allocator
    → os'.mq_list ≡ os.mq_list
    → os'.timer_list ≡ os.timer_list
    → present os' ≡ present os
    → Within os os'
quiet os os' a b c d e = record {
  same_pcbs = a;
  same_mqs = b;
  same_list = c;
  same_timers = d;
  among = λ p at. subst (λ l. p ∈ l) e at;
}

pub put_to_wait-Within : (os : Os) → Holds (Within os) (put_to_wait os)
unfolding put_to_wait
put_to_wait-Within os = Holds-bind (insert_last-has os.waiting_list os.running) λ l has_all.
    holds (record {
      same_pcbs = refl;
      same_mqs = refl;
      same_list = refl;
      same_timers = refl;
      among = λ p at. ground (
        arith,
        has_all p,
        has-append p os.ready_list l,
        has-append p os.ready_list os.waiting_list,
      );
    })

detach_first-cons : (xs : List Ptr) → Holds (λ (x, l). xs ≡ x ∷ l) (detach_first xs)
unfolding detach_first
detach_first-cons [] = stops
detach_first-cons (x ∷ xs) = holds refl

next_ready-Within :
    (os : Os)
    → Holds
        (λ (next, s).
          (os.ready_list ≡ next ∷ s.ready_list) × (s ≡ record os { ready_list = s.ready_list }))
        (next_ready os)
unfolding next_ready
next_ready-Within os = Holds-bind (detach_first-cons os.ready_list) λ (x, l) e. holds (e, refl)

pub run_next-Within : (os : Os) → Holds (Within os) (run_next os)
unfolding run_next
run_next-Within os = Holds-bind (next_ready-Within os) λ (next, s) (e, same). holds (record {
  same_pcbs = ap (λ s. s.pcb_allocator) same;
  same_mqs = ap (λ s. s.mq_allocator) same;
  same_list = ap (λ s. s.mq_list) same;
  same_timers = ap (λ s. s.timer_list) same;
  among = λ p at.
      subst (λ l. p ∈ os.running ∷ l) (ap₂ (λ r w. r ++ w) (sym e) (ap (λ s. s.waiting_list) same))
        (ground (arith, at));
})

pub ptr_alloc-Within : (os : Os) (pcb : Ptr) → Holds (λ (_, s). Within os s) (ptr_alloc os pcb)
unfolding ptr_alloc
ptr_alloc-Within os pcb = Holds-bind (Holds-any (get_block os.pcb_ptr_allocator)) λ (block, a) _.
    Holds-bind (Holds-any (valid block)) λ p _. holds (quiet os _ refl refl refl refl refl)

-- A process leaves the waiting list for the ready list.
pub woken_among :
    (os : Os) {x : Ptr} (ready waiting : List Ptr) (p : Ptr)
    → x ∈ os.waiting_list
    → ((q : Ptr) → q ∈ ready → (q ∈ os.ready_list) ⊎ (q ≡ x))
    → ((q : Ptr) → q ∈ waiting → q ∈ os.waiting_list)
    → p ∈ os.running ∷ ready ++ waiting
    → p ∈ present os
woken_among os ready waiting p at joined before at' = ground (
  arith,
  joined p,
  before p,
  has-append p ready waiting,
  has-append p os.ready_list os.waiting_list,
)
