-- ===== src/Schedule/Due.antt =====
-- The timers that have elapsed, and those that have not.
use disastros_msg_queues.Base.{
  ◌≡◌, refl, ap, arith, ◌==◌, true, Bool-cases, inl, inr, if◌then◌else◌, List, [], ◌∷◌, ◌++◌, ◌∈◌,
  ℤ, ltb_ℤ, ◌≤ℤ◌, Ptr,
}
use disastros_msg_queues.Os.{TimerItem}
use disastros_msg_queues.Timer.Sorted.{Sorted}

abbrev pub due : (now : ℤ) (f : Ptr → TimerItem) → List Ptr → List Ptr
due now f [] = []
due now f (t ∷ ts) = if ltb_ℤ now (f t).awakening_time then [] else t ∷ due now f ts

abbrev pub later : (now : ℤ) (f : Ptr → TimerItem) → List Ptr → List Ptr
later now f [] = []
later now f (t ∷ ts) = if ltb_ℤ now (f t).awakening_time then t ∷ ts else later now f ts

pub due-later :
    (now : ℤ) (f : Ptr → TimerItem) (ts : List Ptr) → due now f ts ++ later now f ts ≡ ts
due-later now f [] = refl
due-later now f (t ∷ ts) = elim (Bool-cases (ltb_ℤ now (f t).awakening_time)) [
  | inl stop ↦ rw stop refl
  | inr on ↦ rw on (ap (λ l. t ∷ l) (due-later now f ts))
]

pub due_elapsed :
    (now : ℤ) (f : Ptr → TimerItem) (ts : List Ptr) (x : Ptr)
    → x ∈ due now f ts
    → (f x).awakening_time ≤ℤ now
due_elapsed now f [] x at = cc
due_elapsed now f (t ∷ ts) x at = elim (Bool-cases (ltb_ℤ now (f t).awakening_time)) [
  | inl stop ↦ (let none : due now f (t ∷ ts) ≡ [] = rw stop refl in cc (none, at))
  | inr on ↦ elim (Bool-cases (x == t)) [
    | inl here ↦ (let e : x ≡ t = ground arith in rw e (ground arith))
    | inr there ↦ due_elapsed now f ts x (ground arith)
  ]
]

-- In a sorted list no elapsed timer is left.
pub later_waits :
    (now : ℤ) (f : Ptr → TimerItem) (ts : List Ptr) (x : Ptr)
    → Sorted f ts
    → x ∈ later now f ts
    → ltb_ℤ now (f x).awakening_time ≡ true
later_waits now f [] x s at = cc
later_waits now f (t ∷ ts) x (least, s) at = elim (Bool-cases (ltb_ℤ now (f t).awakening_time)) [
  | inl stop ↦ elim (Bool-cases (x == t)) [
    | inl here ↦ (let e : x ≡ t = ground arith in rw e stop)
    | inr there ↦ ground (arith, least x (ground arith))
  ]
  | inr on ↦ later_waits now f ts x s (ground arith)
]

pub Sorted-later :
    (now : ℤ) (f : Ptr → TimerItem) (ts : List Ptr) → Sorted f ts → Sorted f (later now f ts)
Sorted-later now f [] s = tt
Sorted-later now f (t ∷ ts) (least, s) = elim (Bool-cases (ltb_ℤ now (f t).awakening_time)) [
  | inl stop ↦ rw stop (least, s)
  | inr on ↦ rw on (Sorted-later now f ts s)
]
