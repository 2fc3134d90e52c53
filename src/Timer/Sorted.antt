-- ===== src/Timer/Sorted.antt =====
-- The list of timers is sorted by awakening time, first come first served.
use disastros_msg_queues.Base.{
  ◌≡◌, ◌≢◌, inl, inr, refl, ap, arith, ◌==◌, true, false, Bool-cases, List, [], ◌∷◌, ◌++◌, ◌∈◌, ◌∉◌,
  has-append, Distinct, mem-ne, ℤ, ltb_ℤ, ◌≤ℤ◌, ok, Ptr, null, is_null-ne,
}
use disastros_msg_queues.PoolAllocator.Live.{IsValid, Live}
use disastros_msg_queues.LinkedList.Segment.{last_or, last_or-mem}
use disastros_msg_queues.Sequence.{behind, insert_after}
use disastros_msg_queues.Os.{Os, TimerItem}
use disastros_msg_queues.Timer.{previous}

-- No item is due after one that follows it.
abbrev pub Sorted : (Ptr → TimerItem) → List Ptr → Type 0
Sorted f [] = Unit {0}
Sorted f (x ∷ xs) =
    ((y : Ptr) → y ∈ xs → (f x).awakening_time ≤ℤ (f y).awakening_time) × Sorted f xs

-- The items are distinct live blocks, and sorted.
pub record IsTimers (os : Os) : Type 0 where
  pub pool : IsValid os.timer_allocator
  pub alive : (x : Ptr) → x ∈ os.timer_list → (x ≢ null) × Live os.timer_allocator x
  pub distinct : Distinct os.timer_list
  pub sorted : Sorted os.timer_items os.timer_list

-- Where the scan stops: everything before is due at `t` or earlier, everything behind later.
pub record Stops (f : Ptr → TimerItem) (t : ℤ) (prev p : Ptr) (xs : List Ptr) : Type 0 where
  pub left : List Ptr
  pub right : List Ptr
  pub whole : xs ≡ left ++ right
  pub last : p ≡ last_or prev left
  pub early : (x : Ptr) → x ∈ left → (f x).awakening_time ≤ℤ t
  pub late : (x : Ptr) → x ∈ right → ltb_ℤ t (f x).awakening_time ≡ true

pub previous-Stops :
    (os : Os) (t : ℤ) (prev : Ptr) (xs : List Ptr)
    → Sorted os.timer_items xs
    → Stops os.timer_items t prev (previous os t prev xs) xs
unfolding previous
previous-Stops os t prev [] s = record {
  left = [];
  right = [];
  whole = refl;
  last = refl;
  early = λ x at. cc;
  late = λ x at. cc;
}
previous-Stops os t prev (x ∷ xs) (least, s) =
    elim (Bool-cases (ltb_ℤ t (os.timer_items x).awakening_time)) [
      | inl later ↦ record {
        left = [];
        right = x ∷ xs;
        whole = refl;
        last = ground arith;
        early = λ y at. cc;
        late = λ y at. elim (Bool-cases (y == x)) [
          | inl here ↦ (let e : y ≡ x = ground arith in rw e later)
          | inr there ↦ ground (arith, least y (ground arith))
        ];
      }
      | inr due ↦
          (let rest = previous-Stops os t x xs s in
            record {
              left = x ∷ rest.left;
              right = rest.right;
              whole = ap (λ l. x ∷ l) rest.whole;
              last = rw due rest.last;
              early = λ y at. elim (Bool-cases (y == x)) [
                | inl here ↦ (let e : y ≡ x = ground arith in rw e (ground arith))
                | inr there ↦ rest.early y (ground arith)
              ];
              late = rest.late;
            })
    ]

-- An insertion behind the last item of the first part.
behind-split :
    (x : Ptr) (l r : List Ptr) (new : Ptr)
    → Distinct ((x ∷ l) ++ r)
    → behind (last_or x l) new ((x ∷ l) ++ r) ≡ (x ∷ l) ++ new ∷ r
behind-split x [] r new d = ground arith
behind-split x (y ∷ l) r new (out, d) =
    let other : last_or y l ≢ x =
      ground (arith, last_or-mem y l, has-append x (y ∷ l) r, mem-ne (last_or y l) x (y ∷ l)) in
    let ih = behind-split y l r new d in
    let test : (last_or y l == x) ≡ false = ground arith in rw test (ap (λ zs. x ∷ zs) ih)

pub insert_after-split :
    (l r : List Ptr) (new : Ptr)
    → new ≢ null
    → new ∉ l ++ r
    → Distinct (l ++ r)
    → ((x : Ptr) → x ∈ l ++ r → x ≢ null)
    → insert_after (l ++ r) (last_or null l) new ≡ ok (l ++ new ∷ r)
unfolding insert_after
insert_after-split [] r new ne out d exist = ground arith
insert_after-split (x ∷ l) r new ne out d exist =
    let at : last_or x l ∈ (x ∷ l) ++ r =
      ground (arith, last_or-mem x l, has-append (last_or x l) (x ∷ l) r) in
    let exists : last_or x l ≢ null = exist (last_or x l) at in
    rw (is_null-ne new _ _ ne)
      (rw out (rw (is_null-ne (last_or x l) _ _ exists) (rw at (ap ok (behind-split x l r new d)))))
