-- ===== src/Schedule/WakeTimers.antt =====
-- What the loop of the scheduler does to the processes whose timers have elapsed.
use mathlib.Core.List.{append_assoc, append-nil}
use disastros_msg_queues.Base.{
  ◌≡◌, ◌≢◌, refl, sym, ◌∙◌, ap, ap₂, subst, fun_ext, arith, ◌==◌, Bool-cases, inl, inr,
  if◌then◌else◌, List, [], ◌∷◌, ◌++◌, map, has, ◌∈◌, ◌∉◌, has-append, erase, mem-erase, without,
  Distinct, Distinct-insert, ltb_ℤ, ok, Returns-ok, Ptr, null, is_null-ne, update,
}
use disastros_msg_queues.PoolAllocator.{PoolAllocator, success, release_block}
use disastros_msg_queues.PoolAllocator.Live.{IsValid, Live, Freed, release_block-Freed}
use disastros_msg_queues.LinkedList.Segment.{last_or, last_or-append}
use disastros_msg_queues.Sequence.{detach_first}
use disastros_msg_queues.Os.{ProcessStatus, Os, Pcb, TimerItem}
use disastros_msg_queues.MessageQueue.Wake.{detach-mem}
use disastros_msg_queues.MessageQueue.WakeWriters.{FreedAll, FreedAll-cons}
use disastros_msg_queues.Timer
use disastros_msg_queues.Timer.Sorted.{insert_after-split}
use disastros_msg_queues.Schedule.{wake_timer, wake_timers}
use disastros_msg_queues.Schedule.Due.{due, later}

-- The process of a timer.
abbrev pub sleeper : (Ptr → TimerItem) → Ptr → Ptr
sleeper f t = (f t).pcb

abbrev pub rouse : Pcb → Pcb
rouse pcb = record pcb { status = ProcessStatus.ready; timer = null }

abbrev pub roused : List Ptr → (Ptr → Pcb) → Ptr → Pcb
roused ps pcbs p = if has p ps then rouse (pcbs p) else pcbs p

roused-cons :
    (p : Ptr) (ps : List Ptr) (pcbs : Ptr → Pcb)
    → roused ps (update pcbs p (rouse (pcbs p))) ≡ roused (p ∷ ps) pcbs
roused-cons p ps pcbs = fun_ext λ q. ground arith

-- The loop before a round: `front` was woken, `old` was ready before, the timers `ts` are left.
abbrev pub loop_state : Os → (front old ts : List Ptr) → Os
loop_state os front old ts = record os { ready_list = front ++ old; timer_list = ts }

-- The loop at its end, with the woken processes `ps` and the timers `ts` left.
abbrev pub loop_end : Os → (front ps old ts : List Ptr) (b : PoolAllocator) → Os
loop_end os front ps old ts b = record os {
  ready_list = (front ++ ps) ++ old;
  waiting_list = without ps os.waiting_list;
  pcbs = roused ps os.pcbs;
  timer_list = ts;
  timer_allocator = b;
}

-- Each timer is a live block, and its process waits and is not ready; the processes are different.
pub record IsLoop (os : Os) (front old ts : List Ptr) : Type 0 where
  pub pool : IsValid os.timer_allocator
  pub alive : (t : Ptr) → t ∈ ts → Live os.timer_allocator t
  pub waits :
      (t : Ptr)
      → t ∈ ts
      → (sleeper os.timer_items t ≢ null)
        × (sleeper os.timer_items t ∈ os.waiting_list)
        × (sleeper os.timer_items t ∉ front ++ old)
  pub distinct : Distinct ts
  pub apart :
      (t u : Ptr) → t ∈ ts → u ∈ ts → sleeper os.timer_items t ≡ sleeper os.timer_items u → t ≡ u
  pub ready_distinct : Distinct (front ++ old)
  pub exist : (x : Ptr) → x ∈ front ++ old → x ≢ null

-- The state behind one round.
abbrev round_end : Os → (front old ts : List Ptr) (p : Ptr) (b : PoolAllocator) → Os
round_end os front old ts p b = record os {
  ready_list = front ++ p ∷ old;
  waiting_list = erase p os.waiting_list;
  pcbs = update os.pcbs p (rouse (os.pcbs p));
  timer_list = ts;
  timer_allocator = b;
}

module _ (os : Os) (front old : List Ptr) (t : Ptr) (ts : List Ptr)
    (v : IsLoop os front old (t ∷ ts)) where
  wake_timer-ok :
      (b : PoolAllocator)
      → release_block os.timer_allocator t ≡ ok (success, b)
      → wake_timer (loop_state os front old (t ∷ ts)) (last_or null front) t
        ≡ ok (round_end os front old ts (os.timer_items t).pcb b)
  unfolding wake_timer Timer.remove_current Timer.free detach_first
  wake_timer-ok b freed =
      let (ne, at, out) = v.waits t (ground arith) in
      rw (is_null-ne (os.timer_items t).pcb _ _ ne) (
        rw (detach-mem os.waiting_list (os.timer_items t).pcb ne at) (
          rw (insert_after-split front old (os.timer_items t).pcb ne out v.ready_distinct v.exist)
            (rw freed refl)))

  round-IsLoop :
      (b : PoolAllocator)
      → Freed os.timer_allocator t b
      → IsLoop
          (round_end os front old ts (os.timer_items t).pcb b)
          (front ++ (os.timer_items t).pcb ∷ [])
          old
          ts
  round-IsLoop b f =
      let p = (os.timer_items t).pcb in
      let (ne, at, out) = v.waits t (ground arith) in
      let same : (front ++ p ∷ []) ++ old ≡ front ++ p ∷ old = append_assoc front (p ∷ []) old in
      record {
        pool = f.valid;
        alive = λ u at'. f.keeps u (ground (arith, v.distinct)) (v.alive u (ground arith));
        waits = λ u at'.
            let (ne', at'', out') = v.waits u (ground arith) in
            let other : sleeper os.timer_items u ≢ p =
              λ e. ground (arith, v.distinct, v.apart u t (ground arith) (ground arith) e) in
            (
              ne',
              mem-erase (sleeper os.timer_items u) p os.waiting_list at'' other,
              rw same (
                  ground (
                    arith,
                    has-append (sleeper os.timer_items u) front (p ∷ old),
                    has-append (sleeper os.timer_items u) front old,
                  )),
            );
        distinct = v.distinct.1;
        apart = λ u w i j e. v.apart u w (ground arith) (ground arith) e;
        ready_distinct = rw same (Distinct-insert front old p v.ready_distinct out);
        exist = λ x i. elim (Bool-cases (x == p)) [
          | inl here ↦ (let e : x ≡ p = ground arith in rw e ne)
          | inr there ↦ v.exist x (
              ground (
                arith,
                subst (λ l. x ∈ l) same i,
                has-append x front (p ∷ old),
                has-append x front old,
              ))
        ];
      }

same_end :
    (os : Os) {r r' w w' : List Ptr} {pcbs pcbs' : Ptr → Pcb} (ts : List Ptr) (b : PoolAllocator)
    → r ≡ r'
    → w ≡ w'
    → pcbs ≡ pcbs'
    → ◌≡◌ {A = Os}
        (record os {
          ready_list = r;
          waiting_list = w;
          pcbs = pcbs;
          timer_list = ts;
          timer_allocator = b;
        })
        (record os {
          ready_list = r';
          waiting_list = w';
          pcbs = pcbs';
          timer_list = ts;
          timer_allocator = b;
        })
same_end os ts b er ew ep = λ i. record os {
  ready_list = er i;
  waiting_list = ew i;
  pcbs = ep i;
  timer_list = ts;
  timer_allocator = b;
}

no_round :
    (os : Os) (front old ts : List Ptr)
    → loop_state os front old ts ≡ loop_end os front [] old ts os.timer_allocator
no_round os front old ts =
    same_end os ts os.timer_allocator (ap (λ l. l ++ old) (sym (append-nil front))) refl refl

-- The processes of the elapsed timers stand in front of the ready list, in the order of the timers.
pub wake_timers-ok :
    (ts : List Ptr) (os : Os) (front old : List Ptr)
    → IsLoop os front old ts
    → (let gone = due os.disastros_time os.timer_items ts in
        (b : PoolAllocator) × (wake_timers (loop_state os front old ts) (last_or null front) ts
          ≡ ok (
              loop_end os front
                (map (sleeper os.timer_items) gone)
                old
                (later os.disastros_time os.timer_items ts)
                b))
        × FreedAll os.timer_allocator gone b)
unfolding wake_timers
wake_timers-ok [] os front old v = (
  os.timer_allocator,
  ap ok (no_round os front old []),
  record { valid = v.pool; keeps = λ p _ l. l; only = λ p l. (l, refl) },
)
wake_timers-ok (t ∷ ts) os front old v =
    elim (Bool-cases (ltb_ℤ os.disastros_time (os.timer_items t).awakening_time)) [
      | inl stop ↦ rw stop (
        os.timer_allocator,
        ap ok (no_round os front old (t ∷ ts)),
        record { valid = v.pool; keeps = λ p _ l. l; only = λ p l. (l, refl) },
      )
      | inr on ↦
          (let ((r, b), freed, (done, f)) =
              Returns-ok
                (release_block-Freed os.timer_allocator t v.pool (v.alive t (ground arith))) in
            let p = (os.timer_items t).pcb in
            let first = wake_timer-ok os front old t ts v b (freed ∙ ap (λ s. ok (s, b)) done) in
            let (c, eq, fs) =
              wake_timers-ok ts (round_end os front old ts p b) (front ++ p ∷ []) old
                (round-IsLoop os front old t ts v b f) in
            rw on (
              c,
              rw first (
                  ap₂
                    (λ l q.
                      wake_timers (record (round_end os front old ts p b) { ready_list = l }) q ts)
                    (sym (append_assoc front (p ∷ []) old)) (sym (last_or-append null front p []))
                  ∙ eq
                  ∙ ap ok (
                      same_end os (later os.disastros_time os.timer_items ts) c
                        (ap (λ l. l ++ old)
                          (append_assoc front (p ∷ []) (
                            map (sleeper os.timer_items)
                              (due os.disastros_time os.timer_items ts))))
                        refl
                        (roused-cons p
                          (map (sleeper os.timer_items) (due os.disastros_time os.timer_items ts))
                          os.pcbs))),
              FreedAll-cons os.timer_allocator b c t (due os.disastros_time os.timer_items ts) f fs,
            ))
    ]
