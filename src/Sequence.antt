-- ===== src/Sequence.antt =====
-- The lists of the kernel, each seen as the sequence of its items (the contract of linked_list.c).
-- A use that the pointer code would answer with a crash or a broken list stops with a fault.
pub mod Refine
use disastros_msg_queues.Base.{
  ℕ, List, [], ◌∷◌, ◌++◌, ◌==◌, if◌then◌else◌, has, erase, Run, ok, fault, null_dereference,
  corrupt_list, Ptr, null, is_null,
}

-- `List_insert(&l, l.last, item)`
unfoldable pub insert_last : List Ptr → Ptr → Run (List Ptr)
insert_last xs item =
    if is_null item
    then fault null_dereference
    else if has item xs
    then fault corrupt_list
    else ok (xs ++ item ∷ [])

abbrev pub behind : Ptr → Ptr → List Ptr → List Ptr
behind prev item [] = []
behind prev item (x ∷ xs) = if prev == x then x ∷ item ∷ xs else x ∷ behind prev item xs

-- `List_insert(&l, prev, item)`: in front if `prev` is null
unfoldable pub insert_after : List Ptr → (prev item : Ptr) → Run (List Ptr)
insert_after xs prev item =
    if is_null item
    then fault null_dereference
    else if has item xs
    then fault corrupt_list
    else if is_null prev
    then ok (item ∷ xs)
    else if has prev xs
    then ok (behind prev item xs)
    else fault corrupt_list

-- `List_detach(&l, item)`
unfoldable pub detach : List Ptr → Ptr → Run (List Ptr)
detach xs item =
    if is_null item
    then fault null_dereference
    else if has item xs
    then ok (erase item xs)
    else fault corrupt_list

-- `List_detach(&l, l.first)`: the first item and the others
unfoldable pub detach_first : List Ptr → Run (Ptr × List Ptr)
detach_first [] = fault null_dereference
detach_first (x ∷ xs) = ok (x, xs)
