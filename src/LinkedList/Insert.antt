-- ===== src/LinkedList/Insert.antt =====
-- `List_insert` puts an item behind a given one.
use disastros_msg_queues.Base.{
  ◌≡◌, ◌≢◌, refl, sym, ap, ◌∙◌, List, [], ◌∷◌, ◌++◌, arith, inl, inr, ◌⊎◌, Bool-cases,
  if◌then◌else◌, length, length-append, has, ◌∈◌, ◌∉◌, has-append, pos, pos-suc, ◌+ℤ◌, Ptr, null,
  is_null, is_null-ne, Returns, returns,
}
use disastros_msg_queues.LinkedList.{ListItem, ListHead, Memory, link, insert}
use disastros_msg_queues.LinkedList.Segment.{
  first_or, last_or, Seg, IsList, SameOutside, last_or-mem, last_or-append, Seg-retarget,
  Seg-rebase, Seg-left, Seg-right, Seg-append, Seg-apart, Seg-ne-null, Seg-last,
}

-- The links after the writes of `List_insert`.
module _ (m : Memory) (h : ListHead) (p n item : Ptr) (ne : item ≢ null) where
  after : Memory
  after = (link m h p n item).1

  prev_same : (q : Ptr) → q ≢ item → q ≢ n → (after q).prev ≡ (m q).prev
  unfolding after link
  prev_same q a b = ground arith

  next_same : (q : Ptr) → q ≢ item → q ≢ p → (after q).next ≡ (m q).next
  unfolding after link
  next_same q a b = ground arith

  prev_next : p ≢ null → p ≢ item → (after p).next ≡ item
  unfolding after link
  prev_next a b = ground arith

  next_prev : n ≢ null → n ≢ item → (after n).prev ≡ item
  unfolding after link
  next_prev a b = ground arith

  at_item :
      m item ≡ record { prev = null; next = null }
      → p ≢ item
      → n ≢ item
      → after item ≡ record { prev = p; next = n }
  unfolding after link
  at_item free a b = ground arith

  same : (q : Ptr) → q ≢ item → (p ≡ null) ⊎ (q ≢ p) → (n ≡ null) ⊎ (q ≢ n) → after q ≡ m q
  unfolding after link
  same q a (inl b) (inl c) = ground arith
  same q a (inl b) (inr c) = ground arith
  same q a (inr b) (inl c) = ground arith
  same q a (inr b) (inr c) = ground arith

link-size :
    (m : Memory) (h : ListHead) (p n item : Ptr) → (link m h p n item).0.size ≡ h.size +ℤ pos 1
unfolding link
link-size m h p n item = refl

pub last-outside :
    (q : Ptr) (xs : List Ptr) → q ∉ xs → (last_or null xs ≡ null) ⊎ (q ≢ last_or null xs)
last-outside q [] out = inl refl
last-outside q (x ∷ xs) out = inr (λ e. ground (arith, last_or-mem x xs))

pub first-outside :
    (q : Ptr) (ys : List Ptr) → q ∉ ys → (first_or ys null ≡ null) ⊎ (q ≢ first_or ys null)
first-outside q [] out = inl refl
first-outside q (y ∷ ys) out = inr (ground arith)

pub first_or-mem : (ys : List Ptr) → first_or ys null ∈ null ∷ ys
first_or-mem [] = refl
first_or-mem (y ∷ ys) = ground arith

pub last_or-ne-null :
    (m : Memory) (b x : Ptr) (xs : List Ptr) (a : Ptr) → Seg m b (x ∷ xs) a → last_or x xs ≢ null
last_or-ne-null m b x xs a s = Seg-ne-null m b (x ∷ xs) a (last_or x xs) s (last_or-mem x xs)

-- The ends of the new head.
module _ (m : Memory) (h : ListHead) where
  link-first :
      (xs ys : List Ptr) (n item : Ptr)
      → Seg m null xs n
      → h.first ≡ first_or (xs ++ ys) null
      → (link m h (last_or null xs) n item).0.first ≡ first_or (xs ++ item ∷ ys) null
  unfolding link
  link-first [] ys n item s e = refl
  link-first (x ∷ xs) ys n item s e = ground (arith, last_or-ne-null m null x xs n s)

  link-last :
      (xs ys : List Ptr) (p item : Ptr)
      → Seg m p ys null
      → h.last ≡ last_or null (xs ++ ys)
      → (link m h p (first_or ys null) item).0.last ≡ last_or null (xs ++ item ∷ ys)
  unfolding link
  link-last xs [] p item s e = sym (last_or-append null xs item [])
  link-last xs (y ∷ ys) p item s e =
      is_null-ne y item h.last s.0
      ∙ e
      ∙ last_or-append null xs y ys
      ∙ sym (last_or-append null xs item (y ∷ ys))

  -- The `next` that `List_insert` reads.
  next_read :
      (xs ys : List Ptr)
      → Seg m null xs (first_or ys null)
      → h.first ≡ first_or (xs ++ ys) null
      → (if is_null (last_or null xs) then h.first else (m (last_or null xs)).next)
        ≡ first_or ys null
  next_read [] ys s e = e
  next_read (x ∷ xs) ys s e =
      is_null-ne (last_or x xs) h.first (m (last_or x xs)).next
        (last_or-ne-null m null x xs (first_or ys null) s)
      ∙ Seg-last m null x xs (first_or ys null) s

-- The list is `xs ++ ys`, and the item is linked between the two.
module _ (m : Memory) (h : ListHead) (xs ys : List Ptr) (item : Ptr) (v : IsList m h (xs ++ ys))
    (ne : item ≢ null) (new : item ∉ xs ++ ys)
    (free : m item ≡ record { prev = null; next = null }) where
  p : Ptr
  p = last_or null xs

  n : Ptr
  n = first_or ys null

  g : Memory
  unfolding p n after
  g = after m h p n item ne

  p-ne-item : p ≢ item
  unfolding p
  p-ne-item e = ground (arith, last_or-mem null xs, has-append item xs ys)

  n-ne-item : n ≢ item
  unfolding n
  n-ne-item e = ground (arith, first_or-mem ys, has-append item xs ys)

  not-left : (q : Ptr) → q ∈ xs → q ∉ item ∷ ys
  not-left q at = ground (arith, has-append item xs ys, Seg-apart m null xs ys null q v.seg at)

  n-not-left : (q : Ptr) → q ∈ xs → q ≢ n
  unfolding n
  n-not-left q at e = ground (
    arith,
    first_or-mem ys,
    Seg-apart m null xs ys null q v.seg at,
    Seg-ne-null m null xs n q (Seg-left m null xs ys null v.seg) at,
  )

  p-not-right : p ∉ ys
  unfolding p
  p-not-right = elim (Bool-cases (has p ys)) [
    | inl at ↦ absurd (
        ground (
          arith,
          last_or-mem null xs,
          Seg-apart m null xs ys null p v.seg,
          Seg-ne-null m p ys null p (Seg-right m null xs ys null v.seg) at,
        ))
    | inr out ↦ out
  ]

  left-Seg : Seg g null xs item
  unfolding g p
  left-Seg =
      Seg-retarget m g null xs n item (Seg-left m null xs ys null v.seg)
        (λ q at. prev_same m h p n item ne q (ground (arith, not-left q at)) (n-not-left q at))
        (λ q at other. next_same m h p n item ne q (ground (arith, not-left q at)) other)
        (λ q at end. ground (
          arith,
          prev_next m h p n item ne,
          p-ne-item,
          Seg-ne-null m null xs n q (Seg-left m null xs ys null v.seg) at,
        ))

  right-Seg :
      (zs : List Ptr)
      → Seg m p zs null
      → n ≡ first_or zs null
      → item ∉ zs
      → p ∉ zs
      → Seg g item zs null
  unfolding g
  right-Seg [] s e out out' = tt
  right-Seg (y ∷ zs) s e out out' =
      Seg-rebase m g p item y zs null s
        (rw (← e) (next_prev m h p n item ne (ground arith) n-ne-item))
        (next_same m h p n item ne y (ground arith) (ground arith))
        (λ q at. same m h p n item ne q (ground arith) (inr (ground arith)) (inr (ground arith)))

  linked-IsList : IsList g (link m h p n item).0 (xs ++ item ∷ ys)
  unfolding g p n
  linked-IsList =
      let links = at_item m h p n item ne free p-ne-item n-ne-item in
      let right = Seg-right m null xs ys null v.seg in
      let out : item ∉ ys = ground (arith, has-append item xs ys) in
      record {
        first = link-first m h xs ys n item (Seg-left m null xs ys null v.seg) v.first;
        last = link-last m h xs ys p item right v.last;
        size =
            link-size m h p n item
            ∙ ap (λ k. k +ℤ pos 1) v.size
            ∙ pos-suc (length (xs ++ ys))
            ∙ ap pos (omega (arith, length-append xs ys, length-append xs (item ∷ ys)));
        seg =
            Seg-append g null xs (item ∷ ys) null left-Seg
              (
                ne,
                ap (λ (i : ListItem). i.prev) links,
                ap (λ (i : ListItem). i.next) links,
                out,
                right-Seg ys right refl out p-not-right,
              )
              not-left;
      }

  -- A fresh item is linked behind the last item of `xs`, or in front if `xs` is empty.
  pub insert-IsList :
      Returns
        (λ (r, h', m').
          (r ≡ item) × IsList m' h' (xs ++ item ∷ ys) × SameOutside (item ∷ xs ++ ys) m m')
        (insert m h (last_or null xs) item)
  unfolding insert g p n
  insert-IsList =
      let next = next_read m h xs ys (Seg-left m null xs ys null v.seg) v.first in
      rw (is_null-ne item _ _ ne, free, next)
        (returns (
          refl,
          linked-IsList,
          λ q out.
              same m h p n item ne q (ground arith)
                (last-outside q xs (ground (arith, has-append q xs ys)))
                (first-outside q ys (ground (arith, has-append q xs ys))),
        ))
