-- ===== src/LinkedList/Find.antt =====
-- `List_find` decides membership.
use disastros_msg_queues.Base.{
  ℕ, zero, suc, ◌≡◌, ◌<◌, ◌==◌, is_null-ne, refl, ◌∙◌, List, [], ◌∷◌, arith, if◌then◌else◌, length,
  has, Ptr, null,
}
use disastros_msg_queues.LinkedList.{ListHead, Memory, find_loop, find, init}
use disastros_msg_queues.LinkedList.Segment.{first_or, Seg, IsList}

found-or :
    (x item : Ptr) (xs : List Ptr) (rest : Ptr)
    → rest ≡ (if has item xs then item else null)
    → (if x == item then item else rest) ≡ (if has item (x ∷ xs) then item else null)
found-or x item xs rest e = ground arith

find_loop-has :
    (m : Memory) (fuel : ℕ) (b : Ptr) (xs : List Ptr) (item : Ptr)
    → length xs < fuel
    → Seg m b xs null
    → find_loop fuel m (first_or xs null) item ≡ (if has item xs then item else null)
unfolding find_loop
find_loop-has m zero b xs item h s = absurd (omega arith)
find_loop-has m (suc fuel) b [] item h s = refl
find_loop-has m (suc fuel) b (x ∷ xs) item h s =
    is_null-ne x null _ s.0
    ∙ found-or x item xs _ (rw s.2 (find_loop-has m fuel x xs item (omega arith) s.4))

-- With more rounds than items the search ends: it returns the item if the list holds it, else null.
pub find-has :
    (m : Memory) (h : ListHead) (fuel : ℕ) (xs : List Ptr) (item : Ptr)
    → length xs < fuel
    → IsList m h xs
    → find fuel m h item ≡ (if has item xs then item else null)
unfolding find
find-has m h fuel xs item enough v = rw v.first (find_loop-has m fuel null xs item enough v.seg)

pub init-IsList : (m : Memory) → IsList m init []
unfolding init
init-IsList m = record { first = refl; last = refl; size = refl; seg = tt }
