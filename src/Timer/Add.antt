-- ===== src/Timer/Add.antt =====
-- What `TimerList_add` does to a sorted list.
use disastros_msg_queues.Base.{
  ◌≡◌, ◌≢◌, ◌⊎◌, inl, inr, refl, sym, ◌∙◌, ap, subst, arith, ◌==◌, true, Bool-cases, List, [], ◌∷◌,
  ◌++◌, has, ◌∈◌, ◌∉◌, has-append, Distinct, Distinct-append, Distinct-left, Distinct-right,
  Distinct-apart, mem-ne, ℤ, pos, ltb_ℤ, ◌≤ℤ◌, ok, Returns, returns, Ptr, null, is_null-ne, update,
  update_self, update_ne,
}
use disastros_msg_queues.PoolAllocator.{PoolAllocator, get_block}
use disastros_msg_queues.PoolAllocator.Live.{
  Live, Fresh, HasBlock-Fresh, block_left, exhausted-size,
}
use disastros_msg_queues.LinkedList.Segment.{last_or}
use disastros_msg_queues.Sequence.{insert_after}
use disastros_msg_queues.Os.{Os, TimerItem}
use disastros_msg_queues.Timer.{previous, alloc, add}
use disastros_msg_queues.Timer.Sorted.{Sorted, IsTimers, Stops, previous-Stops, insert_after-split}

Sorted-insert :
    (f : Ptr → TimerItem) (l r : List Ptr) (new : Ptr)
    → Sorted f (l ++ r)
    → ((x : Ptr) → x ∈ l → (f x).awakening_time ≤ℤ (f new).awakening_time)
    → ((x : Ptr) → x ∈ r → (f new).awakening_time ≤ℤ (f x).awakening_time)
    → Sorted f (l ++ new ∷ r)
Sorted-insert f [] r new s early late = (late, s)
Sorted-insert f (x ∷ l) r new (least, s) early late = (
  λ y at. elim (Bool-cases (y == new)) [
    | inl here ↦ (let e : y ≡ new = ground arith in rw e (early x (ground arith)))
    | inr there ↦ least y (ground (arith, has-append y l (new ∷ r), has-append y l r))
  ],
  Sorted-insert f l r new s (λ y at. early y (ground arith)) late,
)

Sorted-cong :
    (f g : Ptr → TimerItem) (xs : List Ptr)
    → ((x : Ptr) → x ∈ xs → g x ≡ f x)
    → Sorted f xs
    → Sorted g xs
Sorted-cong f g [] same s = tt
Sorted-cong f g (x ∷ xs) same (least, s) = (
  λ y at. rw (same x (ground arith), same y (ground arith)) (least y at),
  Sorted-cong f g xs (λ y at. same y (ground arith)) s,
)

-- The new item stands behind all that are due at the same time or earlier, and before the others.
pub record Adds (os : Os) (t : ℤ) (pcb new : Ptr) (os' : Os) : Type 0 where
  pub valid : IsTimers os'
  pub fresh : Fresh os.timer_allocator new os'.timer_allocator
  pub left : List Ptr
  pub right : List Ptr
  pub before : os.timer_list ≡ left ++ right
  pub after : os'.timer_list ≡ left ++ new ∷ right
  pub early : (x : Ptr) → x ∈ left → (os.timer_items x).awakening_time ≤ℤ t
  pub late : (x : Ptr) → x ∈ right → ltb_ℤ t (os.timer_items x).awakening_time ≡ true
  pub item : os'.timer_items new ≡ record { awakening_time = t; pcb = pcb }
  pub others : (x : Ptr) → x ∈ os.timer_list → os'.timer_items x ≡ os.timer_items x
  pub only_timers : os' ≡ record os {
    timer_allocator = os'.timer_allocator;
    timer_items = os'.timer_items;
    timer_list = os'.timer_list;
  }

module _ (os : Os) (t : ℤ) (pcb : Ptr) (v : IsTimers os) (new : Ptr) (b : PoolAllocator)
    (fresh : Fresh os.timer_allocator new b)
    (s : Stops os.timer_items t null (previous os t null os.timer_list) os.timer_list) where
  items : Ptr → TimerItem
  items = update os.timer_items new (record { awakening_time = t; pcb = pcb })

  result : Os
  result = record os {
    timer_allocator = b;
    timer_items = items;
    timer_list = s.left ++ new ∷ s.right;
  }

  new_out : new ∉ os.timer_list
  new_out = elim (Bool-cases (has new os.timer_list)) [
    | inl at ↦ absurd (fresh.new (v.alive new at).1)
    | inr out ↦ out
  ]

  ends : new ∉ s.left ++ s.right
  ends = subst (λ l. new ∉ l) s.whole new_out

  apart : Distinct (s.left ++ s.right)
  apart = subst Distinct s.whole v.distinct

  items_new : items new ≡ record { awakening_time = t; pcb = pcb }
  unfolding items
  items_new = update_self os.timer_items new (record { awakening_time = t; pcb = pcb })

  items_old : (x : Ptr) → x ∈ os.timer_list → items x ≡ os.timer_items x
  unfolding items
  items_old x at =
      update_ne os.timer_items new x (record { awakening_time = t; pcb = pcb })
        (λ e. mem-ne x new os.timer_list at new_out (sym e))

  was_listed : (x : Ptr) → x ∈ s.left ++ s.right → x ∈ os.timer_list
  was_listed x at = subst (λ l. x ∈ l) (sym s.whole) at

  result-Distinct : Distinct (s.left ++ new ∷ s.right)
  result-Distinct =
      Distinct-append s.left (new ∷ s.right) (Distinct-left s.left s.right apart)
        (ground (arith, ends, has-append new s.left s.right), Distinct-right s.left s.right apart)
        (λ p at. elim (Bool-cases (has p s.right)) [
          | inl behind ↦ (let out = Distinct-apart s.left s.right p apart behind in ground arith)
          | inr out ↦ ground (arith, ends, has-append new s.left s.right)
        ])

  result-Sorted : Sorted items (s.left ++ new ∷ s.right)
  result-Sorted =
      Sorted-insert items s.left s.right new
        (Sorted-cong os.timer_items items (s.left ++ s.right)
          (λ x at. items_old x (was_listed x at)) (subst (Sorted os.timer_items) s.whole v.sorted))
        (λ x at.
          rw (items_old x (was_listed x (ground (arith, has-append x s.left s.right))), items_new)
            (s.early x at))
        (λ x at.
          rw (items_new, items_old x (was_listed x (ground (arith, has-append x s.left s.right))))
            (ground (arith, s.late x at)))

  result-IsTimers : IsTimers result
  unfolding result
  result-IsTimers = record {
    pool = fresh.valid;
    alive = λ x at. elim (Bool-cases (x == new)) [
      | inl here ↦
          (let e : new ≡ x = ground arith in
            subst (λ y. (y ≢ null) × Live b y) e (fresh.not_null, fresh.now))
      | inr there ↦
          (let (ne, old) = v.alive x (
              was_listed x (
                ground
                  (arith, has-append x s.left (new ∷ s.right), has-append x s.left s.right))) in
            (ne, fresh.keeps x old))
    ];
    distinct = result-Distinct;
    sorted = result-Sorted;
  }

  result-Adds : Adds os t pcb new result
  unfolding result
  result-Adds = record {
    valid = result-IsTimers;
    fresh = fresh;
    left = s.left;
    right = s.right;
    before = s.whole;
    after = refl;
    early = s.early;
    late = s.late;
    item = items_new;
    others = items_old;
    only_timers = refl;
  }

  add-result : get_block os.timer_allocator ≡ ok (new, b) → add os t pcb ≡ ok (new, result)
  unfolding add alloc result items
  add-result taken =
      let place : insert_after os.timer_list (previous os t null os.timer_list) new
          ≡ ok (s.left ++ new ∷ s.right) =
        ap (λ p. insert_after os.timer_list p new) s.last
        ∙ ap (λ l. insert_after l (last_or null s.left) new) s.whole
        ∙ insert_after-split s.left s.right new fresh.not_null ends apart
            (λ x at. (v.alive x (was_listed x at)).0) in
      rw taken (
        rw (is_null-ne new _ _ fresh.not_null)
          (rw (is_null-ne new _ _ fresh.not_null) (rw place refl)))

add-exhausted :
    (os : Os) (t : ℤ) (pcb : Ptr)
    → get_block os.timer_allocator ≡ ok (null, os.timer_allocator)
    → add os t pcb ≡ ok (null, os)
unfolding add alloc
add-exhausted os t pcb e = rw e refl

-- No timer object is free, and null is returned with no effect.
pub record Exhausted (os : Os) (new : Ptr) (os' : Os) : Type 0 where
  pub none_free : os.timer_allocator.size ≡ pos 0
  pub null_result : new ≡ null
  pub same : os' ≡ os

-- A timer is added to a valid list. Either no timer object is free, null is returned and nothing
-- changes; or the new item is a fresh block, the list is valid again, and the item stands behind all
-- items that are due at the same time or earlier and before all that are due later.
pub add-Adds :
    (os : Os) (t : ℤ) (pcb : Ptr)
    → IsTimers os
    → Returns (λ (new, os'). Exhausted os new os' ⊎ Adds os t pcb new os') (add os t pcb)
add-Adds os t pcb v = elim (block_left os.timer_allocator v.pool) [
  | inl e ↦ rw (add-exhausted os t pcb e) (
      returns (
        inl (record {
          none_free = exhausted-size os.timer_allocator v.pool e;
          null_result = refl;
          same = refl;
        })))
  | inr block ↦
      let f = HasBlock-Fresh os.timer_allocator v.pool block in
      let s = previous-Stops os t null os.timer_list v.sorted in
      rw (add-result os t pcb v block.block block.rest f s block.gets)
        (returns (inr (result-Adds os t pcb v block.block block.rest f s)))
]
