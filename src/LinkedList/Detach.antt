-- ===== src/LinkedList/Detach.antt =====
-- `List_detach` takes an item out, wherever it stands.
use mathlib.Core.List.{append-nil}
use disastros_msg_queues.Base.{
  ◌≡◌, ◌≢◌, refl, sym, ap, ◌∙◌, subst, List, [], ◌∷◌, ◌++◌, arith, inl, inr, ◌⊎◌, Bool-cases,
  length, length-append, has, ◌∈◌, ◌∉◌, has-append, not-mem-ne, not-mem-tail, mem-ne, pos, pos-pred,
  ◌-ℤ◌, Ptr, null, is_null-ne, Returns, returns,
}
use disastros_msg_queues.LinkedList.{ListHead, Memory, unlink, detach}
use disastros_msg_queues.LinkedList.Segment.{
  first_or, last_or, Seg, IsList, SameOutside, last_or-mem, last_or-append, Seg-retarget,
  Seg-rebase, Seg-left, Seg-right, Seg-append, Seg-apart, Seg-ne-null,
}
use disastros_msg_queues.LinkedList.Insert.{first_or-mem, last-outside, first-outside}

-- The links after the writes of `List_detach`.
module _ (m : Memory) (h : ListHead) (p n item : Ptr) where
  after : Memory
  after = (unlink m h p n item).1

  prev_same : (q : Ptr) → q ≢ item → q ≢ n → (after q).prev ≡ (m q).prev
  unfolding after unlink
  prev_same q a b = ground arith

  next_same : (q : Ptr) → q ≢ item → q ≢ p → (after q).next ≡ (m q).next
  unfolding after unlink
  next_same q a b = ground arith

  prev_next : p ≢ null → p ≢ item → (after p).next ≡ n
  unfolding after unlink
  prev_next a b = ground arith

  next_prev : n ≢ null → n ≢ item → (after n).prev ≡ p
  unfolding after unlink
  next_prev a b = ground arith

  at_item : after item ≡ record { prev = null; next = null }
  unfolding after unlink
  at_item = ground arith

  same : (q : Ptr) → q ≢ item → (p ≡ null) ⊎ (q ≢ p) → (n ≡ null) ⊎ (q ≢ n) → after q ≡ m q
  unfolding after unlink
  same q a (inl b) (inl c) = ground arith
  same q a (inl b) (inr c) = ground arith
  same q a (inr b) (inl c) = ground arith
  same q a (inr b) (inr c) = ground arith

  unlink-size : (unlink m h p n item).0.size ≡ h.size -ℤ pos 1
  unfolding unlink
  unlink-size = refl

-- The ends of the new head.
module _ (m : Memory) (h : ListHead) (item : Ptr) where
  unlink-first :
      (xs ys : List Ptr) (p n : Ptr)
      → item ∉ xs
      → h.first ≡ first_or (xs ++ item ∷ ys) null
      → n ≡ first_or ys null
      → (unlink m h p n item).0.first ≡ first_or (xs ++ ys) null
  unfolding unlink
  unlink-first [] ys p n out e e' = ground arith
  unlink-first (x ∷ xs) ys p n out e e' = ground arith

  unlink-last :
      (xs ys : List Ptr) (p n : Ptr)
      → item ∉ ys
      → h.last ≡ last_or null (xs ++ item ∷ ys)
      → p ≡ last_or null xs
      → (unlink m h p n item).0.last ≡ last_or null (xs ++ ys)
  unfolding unlink
  unlink-last xs [] p n out e e' = ground (arith, last_or-append null xs item [], append-nil xs)
  unlink-last xs (y ∷ ys) p n out e e' =
      ground
        (arith, last_or-append null xs item (y ∷ ys), last_or-append null xs y ys, last_or-mem y ys)

module _ (m : Memory) (h : ListHead) (xs ys : List Ptr) (item : Ptr)
    (v : IsList m h (xs ++ item ∷ ys)) where
  right : Seg m (last_or null xs) (item ∷ ys) null
  right = Seg-right m null xs (item ∷ ys) null v.seg

  left : Seg m null xs item
  left = Seg-left m null xs (item ∷ ys) null v.seg

  p : Ptr
  p = (m item).prev

  n : Ptr
  n = (m item).next

  p-last : p ≡ last_or null xs
  unfolding p
  p-last = right.1

  n-first : n ≡ first_or ys null
  unfolding n
  n-first = right.2

  apart : (q : Ptr) → q ∈ xs → q ∉ item ∷ ys
  apart q at = Seg-apart m null xs (item ∷ ys) null q v.seg at

  out-left : item ∉ xs
  out-left = elim (Bool-cases (has item xs)) [ inl at ↦ ground (arith, apart item) | inr out ↦ out ]

  n-not-left : (q : Ptr) → q ∈ xs → q ≢ n
  n-not-left q at e =
      ground (arith, n-first, first_or-mem ys, apart q at, Seg-ne-null m null xs item q left at)

  p-not-right : p ∉ ys
  p-not-right = elim (Bool-cases (has p ys)) [
    | inl at ↦ absurd (
        ground
          (arith, p-last, last_or-mem null xs, apart p, Seg-ne-null m item ys null p right.4 at))
    | inr out ↦ out
  ]

  g : Memory
  unfolding p n after
  g = after m h p n item

  left-Seg : Seg g null xs n
  unfolding g
  left-Seg =
      Seg-retarget m g null xs item n left
        (λ q at. prev_same m h p n item q (ground (arith, apart q at)) (n-not-left q at))
        (λ q at other.
          next_same m h p n item q (ground (arith, apart q at)) (ground (arith, p-last)))
        (λ q at end.
          ground (
            arith,
            p-last,
            prev_next m h p n item,
            apart q at,
            Seg-ne-null m null xs item q left at,
          ))

  right-Seg :
      (zs : List Ptr)
      → Seg m item zs null
      → n ≡ first_or zs null
      → item ∉ zs
      → p ∉ zs
      → Seg g p zs null
  unfolding g
  right-Seg [] s e out out' = tt
  right-Seg (y ∷ zs) s e out out' =
      Seg-rebase m g item p y zs null s
        (rw (← e) (
          next_prev m h p n item (λ z. s.0 (sym e ∙ z))
            (λ z. not-mem-ne item y zs out (sym z ∙ e))))
        (next_same m h p n item y (λ z. not-mem-ne item y zs out (sym z))
          (λ z. not-mem-ne p y zs out' (sym z)))
        (λ q at.
          same m h p n item q (mem-ne q item zs at (not-mem-tail item y zs out))
            (inr (mem-ne q p zs at (not-mem-tail p y zs out')))
            (inr (λ z. mem-ne q y zs at s.3 (z ∙ e))))

  unlinked-IsList : IsList g (unlink m h p n item).0 (xs ++ ys)
  unfolding g
  unlinked-IsList = record {
    first = unlink-first m h item xs ys p n out-left v.first n-first;
    last = unlink-last m h item xs ys p n right.3 v.last p-last;
    size =
        unlink-size m h p n item
        ∙ ap (λ k. k -ℤ pos 1)
            (v.size ∙ ap pos (omega (arith, length-append xs ys, length-append xs (item ∷ ys))))
        ∙ pos-pred (length (xs ++ ys));
    seg =
        Seg-append g null xs ys null (subst (λ a. Seg g null xs a) n-first left-Seg)
          (subst (λ b. Seg g b ys null) p-last (right-Seg ys right.4 n-first right.3 p-not-right))
          (λ q at. ground (arith, apart q at));
  }

  -- The item is taken out, and both its links are cleared; the items keep their order.
  pub detach-IsList :
      Returns
        (λ (r, h', m').
          (r ≡ item)
          × IsList m' h' (xs ++ ys)
          × (m' item ≡ record { prev = null; next = null })
          × SameOutside (xs ++ item ∷ ys) m m')
        (detach m h item)
  unfolding detach g p n
  detach-IsList = rw (is_null-ne item _ _ right.0) (
      returns (
        refl,
        unlinked-IsList,
        at_item m h p n item,
        λ q out.
            same m h p n item q (ground (arith, has-append q xs (item ∷ ys)))
              (rw p-last (last-outside q xs (ground (arith, has-append q xs (item ∷ ys)))))
              (rw n-first (first-outside q ys (ground (arith, has-append q xs (item ∷ ys))))),
      ))
