-- ===== src/Examples/Lists.antt =====
-- Runs of the linked list.
use disastros_msg_queues.Base.{
  ◌≡◌, refl, arith, ◌==◌, if◌then◌else◌, [], ◌∷◌, has, pos, null, ok, Returns,
}
use disastros_msg_queues.LinkedList
use disastros_msg_queues.LinkedList.{ListHead, ListItem, Memory}
use disastros_msg_queues.LinkedList.Segment.{IsList, SameOutside}
use disastros_msg_queues.LinkedList.Find.{find-has}
use disastros_msg_queues.Sequence
use disastros_msg_queues.Sequence.Refine.{
  Implements, unlinked, insert_last_refines, insert_after_refines, detach_refines,
}

-- The items 10 and 20, in this order; 30 is in no list.
abbrev memory : Memory
memory p =
    if p == 10
    then record { prev = null; next = 20 }
    else if p == 20
    then record { prev = 10; next = null }
    else record { prev = null; next = null }

abbrev head : ListHead
head = record { first = 10; last = 20; size = pos 2 }

head-IsList : IsList memory head (10 ∷ 20 ∷ [])
head-IsList = record {
  first = refl;
  last = refl;
  size = refl;
  seg = (ground arith, refl, refl, refl, (ground arith, refl, refl, refl, tt));
}

find-has_example : LinkedList.find 3 memory head 20 ≡ (if has 20 (10 ∷ 20 ∷ []) then 20 else null)
find-has_example = find-has memory head 3 (10 ∷ 20 ∷ []) 20 (omega arith) head-IsList

at_end : Sequence.insert_last (10 ∷ 20 ∷ []) 30 ≡ ok (10 ∷ 20 ∷ 30 ∷ [])
unfolding Sequence.insert_last
at_end = refl

insert_last_refines_example :
    Returns
      (Implements memory (30 ∷ 10 ∷ 20 ∷ []) (10 ∷ 20 ∷ 30 ∷ []) 30)
      (LinkedList.insert memory head head.last 30)
insert_last_refines_example =
    insert_last_refines memory head (10 ∷ 20 ∷ []) (10 ∷ 20 ∷ 30 ∷ []) head-IsList 30 at_end refl

in_the_middle : Sequence.insert_after (10 ∷ 20 ∷ []) 10 30 ≡ ok (10 ∷ 30 ∷ 20 ∷ [])
unfolding Sequence.insert_after
in_the_middle = refl

insert_after_refines_example :
    Returns
      (Implements memory (30 ∷ 10 ∷ 20 ∷ []) (10 ∷ 30 ∷ 20 ∷ []) 30)
      (LinkedList.insert memory head 10 30)
insert_after_refines_example =
    insert_after_refines memory head (10 ∷ 20 ∷ []) (10 ∷ 30 ∷ 20 ∷ []) head-IsList 10 30
      in_the_middle refl

first_out : Sequence.detach (10 ∷ 20 ∷ []) 10 ≡ ok (20 ∷ [])
unfolding Sequence.detach
first_out = refl

detach_refines_example :
    Returns
      (λ (r, h', m').
        (r ≡ 10)
        × IsList m' h' (20 ∷ [])
        × (m' 10 ≡ unlinked)
        × SameOutside (10 ∷ 20 ∷ []) memory m')
      (LinkedList.detach memory head 10)
detach_refines_example =
    detach_refines memory head (10 ∷ 20 ∷ []) (20 ∷ []) head-IsList 10 first_out
