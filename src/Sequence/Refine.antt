-- ===== src/Sequence/Refine.antt =====
-- The pointer code of linked_list.c implements the operations on sequences.
use mathlib.Core.List.{append-nil, append_assoc}
use disastros_msg_queues.Base.{
  ◌≡◌, ◌≢◌, sym, ◌∙◌, ap, subst, arith, ◌==◌, List, [], ◌∷◌, ◌++◌, ◌∈◌, ◌∉◌, erase, Bool-cases, inl,
  inr, ok, Returns, Ptr, null,
}
use disastros_msg_queues.LinkedList
use disastros_msg_queues.LinkedList.{ListHead, ListItem, Memory}
use disastros_msg_queues.LinkedList.Segment.{last_or, last_or-append, IsList, SameOutside}
use disastros_msg_queues.LinkedList.Insert.{insert-IsList}
use disastros_msg_queues.LinkedList.Detach.{detach-IsList}
use disastros_msg_queues.Sequence.{insert_last, behind, insert_after, detach}

abbrev pub unlinked : ListItem
unlinked = record { prev = null; next = null }

-- The result is the item, the memory holds the sequence `ys`, and only `touched` items changed.
abbrev pub Implements :
    Memory → (touched ys : List Ptr) (item : Ptr) → Ptr × ListHead × Memory → Type 0
Implements m touched ys item (r, h', m') = (r ≡ item) × IsList m' h' ys × SameOutside touched m m'

-- The place of an item in a sequence, and what the operations there give.
record Place (item : Ptr) (xs : List Ptr) : Type 0 where
  left : List Ptr
  right : List Ptr
  whole : xs ≡ left ++ item ∷ right
  erased : erase item xs ≡ left ++ right
  followed : (p : Ptr) → behind item p xs ≡ (left ++ item ∷ []) ++ p ∷ right

place : (item : Ptr) (xs : List Ptr) → item ∈ xs → Place item xs
place item [] at = cc
place item (x ∷ xs) at = elim (Bool-cases (item == x)) [
  | inl here ↦ record {
    left = [];
    right = xs;
    whole = ground arith;
    erased = ground arith;
    followed = λ p. ground arith;
  }
  | inr there ↦
      (let rest = place item xs (ground arith) in
        record {
          left = x ∷ rest.left;
          right = rest.right;
          whole = ap (λ l. x ∷ l) rest.whole;
          erased = rw there (ap (λ l. x ∷ l) rest.erased);
          followed = λ p. rw there (ap (λ l. x ∷ l) (rest.followed p));
        })
]

insert_last-inv :
    (xs ys : List Ptr) (item : Ptr)
    → insert_last xs item ≡ ok ys
    → (item ≢ null) × (item ∉ xs) × (xs ++ item ∷ [] ≡ ys)
unfolding insert_last
insert_last-inv xs ys item e = ground arith

detach-inv :
    (xs ys : List Ptr) (item : Ptr) → detach xs item ≡ ok ys → (item ∈ xs) × (erase item xs ≡ ys)
unfolding detach
detach-inv xs ys item e = ground arith

insert_after-inv :
    (xs ys : List Ptr) (prev item : Ptr)
    → prev ≢ null
    → insert_after xs prev item ≡ ok ys
    → (item ≢ null) × (item ∉ xs) × (prev ∈ xs) × (behind prev item xs ≡ ys)
unfolding insert_after
insert_after-inv xs ys prev item ne e = ground arith

insert_front-inv :
    (xs ys : List Ptr) (item : Ptr)
    → insert_after xs null item ≡ ok ys
    → (item ≢ null) × (item ∉ xs) × (item ∷ xs ≡ ys)
unfolding insert_after
insert_front-inv xs ys item e = ground arith

module _ (m : Memory) (h : ListHead) (xs ys : List Ptr) (v : IsList m h xs) where
  -- `List_insert` behind the last item, of an item whose links are null, implements the insertion at
  -- the end of the sequence wherever that succeeds; no other item changes.
  pub insert_last_refines :
      (item : Ptr)
      → insert_last xs item ≡ ok ys
      → m item ≡ unlinked
      → Returns (Implements m (item ∷ xs) ys item) (LinkedList.insert m h h.last item)
  insert_last_refines item e free =
      let (ne, new, same) = insert_last-inv xs ys item e in
      let xs' = append-nil xs in
      subst (λ l. Returns (Implements m (item ∷ l) ys item) (LinkedList.insert m h h.last item)) xs'
        (subst
          (λ p. Returns (Implements m (item ∷ xs ++ []) ys item) (LinkedList.insert m h p item))
          (sym v.last)
          (subst
            (λ zs.
              Returns (Implements m (item ∷ xs ++ []) zs item)
                (LinkedList.insert m h (last_or null xs) item))
            same
            (insert-IsList m h xs [] item (subst (IsList m h) (sym xs') v) ne
              (subst (λ l. item ∉ l) (sym xs') new) free)))

  insert_at :
      (prev item : Ptr)
      → prev ≢ null
      → insert_after xs prev item ≡ ok ys
      → m item ≡ unlinked
      → (l : Place prev xs)
      → Returns (Implements m (item ∷ xs) ys item) (LinkedList.insert m h prev item)
  insert_at prev item exists e free l =
      let (ne, new, at, same) = insert_after-inv xs ys prev item exists e in
      let cut : xs ≡ (l.left ++ prev ∷ []) ++ l.right =
        l.whole ∙ sym (append_assoc l.left (prev ∷ []) l.right) in
      subst (λ zs. Returns (Implements m (item ∷ zs) ys item) (LinkedList.insert m h prev item))
        (sym cut)
        (subst
          (λ zs.
            Returns (Implements m (item ∷ (l.left ++ prev ∷ []) ++ l.right) zs item)
              (LinkedList.insert m h prev item))
          (sym (l.followed item) ∙ same)
          (subst
            (λ q.
              Returns
                (Implements m (item ∷ (l.left ++ prev ∷ []) ++ l.right)
                  ((l.left ++ prev ∷ []) ++ item ∷ l.right) item)
                (LinkedList.insert m h q item))
            (last_or-append null l.left prev [])
            (insert-IsList m h (l.left ++ prev ∷ []) l.right item (subst (IsList m h) cut v) ne
              (subst (λ zs. item ∉ zs) cut new) free)))

  insert_front :
      (item : Ptr)
      → insert_after xs null item ≡ ok ys
      → m item ≡ unlinked
      → Returns (Implements m (item ∷ xs) ys item) (LinkedList.insert m h null item)
  insert_front item e free =
      let (ne, new, same) = insert_front-inv xs ys item e in
      subst (λ zs. Returns (Implements m (item ∷ xs) zs item) (LinkedList.insert m h null item))
        same (insert-IsList m h [] xs item v ne new free)

  -- `List_insert` behind any item of the list, or in front of the list for null, of an item whose
  -- links are null, implements the insertion into the sequence wherever that succeeds; no other
  -- item changes.
  pub insert_after_refines :
      (prev item : Ptr)
      → insert_after xs prev item ≡ ok ys
      → m item ≡ unlinked
      → Returns (Implements m (item ∷ xs) ys item) (LinkedList.insert m h prev item)
  insert_after_refines prev item e free = elim (Bool-cases (prev == null)) [
    | inl front ↦
        (let n : prev ≡ null = ground arith in
          subst (λ p. Returns (Implements m (item ∷ xs) ys item) (LinkedList.insert m h p item))
            (sym n) (insert_front item (subst (λ p. insert_after xs p item ≡ ok ys) n e) free))
    | inr inside ↦
        (let exists : prev ≢ null = ground arith in
          let (ne, new, at, same) = insert_after-inv xs ys prev item exists e in
          insert_at prev item exists e free (place prev xs at))
  ]

  detach_at :
      (item : Ptr)
      → erase item xs ≡ ys
      → (l : Place item xs)
      → Returns
          (λ (r, h', m'). (r ≡ item) × IsList m' h' ys × (m' item ≡ unlinked) × SameOutside xs m m')
          (LinkedList.detach m h item)
  detach_at item same l =
      subst
        (λ zs.
          Returns
            (λ (r, h', m').
              (r ≡ item) × IsList m' h' ys × (m' item ≡ unlinked) × SameOutside zs m m')
            (LinkedList.detach m h item))
        (sym l.whole)
        (subst
          (λ zs.
            Returns
              (λ (r, h', m').
                (r ≡ item)
                × IsList m' h' zs
                × (m' item ≡ unlinked)
                × SameOutside (l.left ++ item ∷ l.right) m m')
              (LinkedList.detach m h item))
          (sym l.erased ∙ same)
          (detach-IsList m h l.left l.right item (subst (IsList m h) l.whole v)))

  -- `List_detach` implements the removal from the sequence wherever that succeeds, and clears the
  -- links of the item, so that it can be inserted again; no other item changes.
  pub detach_refines :
      (item : Ptr)
      → detach xs item ≡ ok ys
      → Returns
          (λ (r, h', m'). (r ≡ item) × IsList m' h' ys × (m' item ≡ unlinked) × SameOutside xs m m')
          (LinkedList.detach m h item)
  detach_refines item e =
      let (at, same) = detach-inv xs ys item e in detach_at item same (place item xs at)
