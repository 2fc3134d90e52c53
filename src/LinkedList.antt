-- ===== src/LinkedList.antt =====
-- linked_list.c: doubly linked lists whose links lie inside the items. The memory maps an item's
-- address to its links; a head lies outside it.
pub mod Segment
pub mod Insert
pub mod Detach
pub mod Find
use disastros_msg_queues.Base.{
  ℕ, zero, suc, Bool, true, false, ◌||◌, ◌&&◌, not, ◌==◌, if◌then◌else◌, ℤ, pos, ◌+ℤ◌, ◌-ℤ◌, Run,
  ok, fault, null_dereference, ◌>>=◌, Ptr, null, is_null,
}

pub record ListItem : Type 0 where
  pub prev : Ptr
  pub next : Ptr

pub record ListHead : Type 0 where
  pub first : Ptr
  pub last : Ptr
  pub size : ℤ

abbrev pub Memory : Type 0
Memory = Ptr → ListItem

unfoldable pub set_prev : Memory → Ptr → Ptr → Memory
set_prev m p v q = if p == q then record (m q) { prev = v } else m q

unfoldable pub set_next : Memory → Ptr → Ptr → Memory
set_next m p v q = if p == q then record (m q) { next = v } else m q

unfoldable pub init : ListHead
init = record { first = null; last = null; size = pos 0 }

-- The loop of `List_find`, with fuel; `none` of the fuel left counts as not found.
find_loop : ℕ → Memory → Ptr → Ptr → Ptr
find_loop zero m aux item = null
find_loop (suc fuel) m aux item =
    let rest = find_loop fuel m (m aux).next item in
    if is_null aux then null else if aux == item then item else rest

unfoldable pub find : ℕ → Memory → ListHead → Ptr → Ptr
unfolding find_loop
find fuel m head item = find_loop fuel m head.first item

-- `List_insert` behind its guard, with `next` read before any write.
link : Memory → ListHead → (prev next item : Ptr) → ListHead × Memory
unfolding set_prev set_next
link m head prev next item =
    let m = if is_null prev then m else set_next (set_prev m item prev) prev item in
    let m = if is_null next then m else set_prev (set_next m item next) next item in
    (
      record {
        first = if is_null prev then item else head.first;
        last = if is_null next then item else head.last;
        size = head.size +ℤ pos 1;
      },
      m,
    )

-- Returns the item, or null for an item that has a neighbour already.
unfoldable pub insert : Memory → ListHead → (prev item : Ptr) → Run (Ptr × ListHead × Memory)
unfolding link
insert m head prev item =
    if is_null item
    then fault null_dereference
    else if not (is_null (m item).next) || not (is_null (m item).prev)
    then ok (null, head, m)
    else (let (head', m') =
          link m head prev (if is_null prev then head.first else (m prev).next) item in
        ok (item, head', m'))

unlink : Memory → ListHead → (prev next item : Ptr) → ListHead × Memory
unfolding set_prev set_next
unlink m head prev next item =
    let m = if is_null prev then m else set_next m prev next in
    let m = if is_null next then m else set_prev m next prev in
    (
      record {
        first = if item == head.first then next else head.first;
        last = if item == head.last then prev else head.last;
        size = head.size -ℤ pos 1;
      },
      set_prev (set_next m item null) item null,
    )

unfoldable pub detach : Memory → ListHead → (item : Ptr) → Run (Ptr × ListHead × Memory)
unfolding unlink
detach m head item =
    if is_null item
    then fault null_dereference
    else (let (head', m') = unlink m head (m item).prev (m item).next item in ok (item, head', m'))
