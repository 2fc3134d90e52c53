-- ===== src/LinkedList/Segment.antt =====
-- Which sequence of items a list in memory stands for, and what changes of the memory keep it.
use disastros_msg_queues.Base.{
  ◌≡◌, ◌≢◌, refl, sym, ◌∙◌, List, [], ◌∷◌, ◌++◌, arith, length, ◌∈◌, ◌∉◌, has-append, pos, Ptr,
  null,
}
use disastros_msg_queues.LinkedList.{ListHead, Memory}

-- The first of the items, or the pointer that follows the list.
abbrev pub first_or : List Ptr → Ptr → Ptr
first_or [] a = a
first_or (x ∷ xs) a = x

-- The last of the items, or the pointer that stands before the list.
abbrev pub last_or : Ptr → List Ptr → Ptr
last_or b [] = b
last_or b (x ∷ xs) = last_or x xs

-- Distinct items, each linked to its two neighbours; `b` stands before them and `a` behind them.
abbrev pub Seg : Memory → Ptr → List Ptr → Ptr → Type 0
Seg m b [] a = Unit {0}
Seg m b (x ∷ xs) a =
    (x ≢ null) × ((m x).prev ≡ b) × ((m x).next ≡ first_or xs a) × (x ∉ xs) × Seg m x xs a

pub record IsList (m : Memory) (h : ListHead) (xs : List Ptr) : Type 0 where
  pub first : h.first ≡ first_or xs null
  pub last : h.last ≡ last_or null xs
  pub size : h.size ≡ pos (length xs)
  pub seg : Seg m null xs null

-- `g` differs from `m` at most at the addresses of `xs`.
abbrev pub SameOutside : List Ptr → Memory → Memory → Type 0
SameOutside xs m g = (q : Ptr) → q ∉ xs → g q ≡ m q

pub last_or-mem : (b : Ptr) (xs : List Ptr) → last_or b xs ∈ b ∷ xs
last_or-mem b [] = ground arith
last_or-mem b (x ∷ xs) = ground (arith, last_or-mem x xs)

pub last_or-append :
    (b : Ptr) (xs : List Ptr) (x : Ptr) (ys : List Ptr) → last_or b (xs ++ x ∷ ys) ≡ last_or x ys
last_or-append b [] x ys = refl
last_or-append b (z ∷ xs) x ys = last_or-append z xs x ys

pub first_or-append :
    (xs ys : List Ptr) (a : Ptr) → first_or (xs ++ ys) a ≡ first_or xs (first_or ys a)
first_or-append [] ys a = refl
first_or-append (x ∷ xs) ys a = refl

module _ (m g : Memory) where
  -- A segment survives a change elsewhere.
  pub Seg-frame :
      (b : Ptr) (xs : List Ptr) (a : Ptr)
      → Seg m b xs a
      → ((q : Ptr) → q ∈ xs → g q ≡ m q)
      → Seg g b xs a
  Seg-frame b [] a s same = tt
  Seg-frame b (x ∷ xs) a (ne, p, n, out, s) same =
      let e : g x ≡ m x = same x (ground arith) in
      (ne, rw e p, rw e n, out, Seg-frame x xs a s (λ q at. same q (ground arith)))

  -- What follows a segment may be linked anew, if its last item is.
  pub Seg-retarget :
      (b : Ptr) (xs : List Ptr) (a a' : Ptr)
      → Seg m b xs a
      → ((q : Ptr) → q ∈ xs → (g q).prev ≡ (m q).prev)
      → ((q : Ptr) → q ∈ xs → q ≢ last_or b xs → (g q).next ≡ (m q).next)
      → ((q : Ptr) → q ∈ xs → q ≡ last_or b xs → (g q).next ≡ a')
      → Seg g b xs a'
  Seg-retarget b [] a a' s prevs nexts end = tt
  Seg-retarget b (x ∷ []) a a' (ne, p, n, out, s) prevs nexts end =
      (ne, prevs x (ground arith) ∙ p, end x (ground arith) refl, out, tt)
  Seg-retarget b (x ∷ y ∷ xs) a a' (ne, p, n, out, s) prevs nexts end = (
    ne,
    prevs x (ground arith) ∙ p,
    nexts x (ground arith) (ground (arith, last_or-mem y xs)) ∙ n,
    out,
    Seg-retarget x (y ∷ xs) a a' s (λ q at. prevs q (ground arith)) (λ q at. nexts q (ground arith))
        (λ q at. end q (ground arith)),
  )

  -- What stands before a segment may be linked anew, if its first item is.
  pub Seg-rebase :
      (b b' x : Ptr) (xs : List Ptr) (a : Ptr)
      → Seg m b (x ∷ xs) a
      → (g x).prev ≡ b'
      → (g x).next ≡ (m x).next
      → ((q : Ptr) → q ∈ xs → g q ≡ m q)
      → Seg g b' (x ∷ xs) a
  Seg-rebase b b' x xs a (ne, p, n, out, s) p' n' same =
      (ne, p', n' ∙ n, out, Seg-frame x xs a s same)

module _ (m : Memory) where
  pub Seg-left :
      (b : Ptr) (xs ys : List Ptr) (a : Ptr) → Seg m b (xs ++ ys) a → Seg m b xs (first_or ys a)
  Seg-left b [] ys a s = tt
  Seg-left b (x ∷ xs) ys a (ne, p, n, out, s) =
      (ne, p, n ∙ first_or-append xs ys a, ground (arith, has-append x xs ys), Seg-left x xs ys a s)

  pub Seg-right :
      (b : Ptr) (xs ys : List Ptr) (a : Ptr) → Seg m b (xs ++ ys) a → Seg m (last_or b xs) ys a
  Seg-right b [] ys a s = s
  Seg-right b (x ∷ xs) ys a s = Seg-right x xs ys a s.4

  pub Seg-append :
      (b : Ptr) (xs ys : List Ptr) (a : Ptr)
      → Seg m b xs (first_or ys a)
      → Seg m (last_or b xs) ys a
      → ((q : Ptr) → q ∈ xs → q ∉ ys)
      → Seg m b (xs ++ ys) a
  Seg-append b [] ys a s t apart = t
  Seg-append b (x ∷ xs) ys a (ne, p, n, out, s) t apart = (
    ne,
    p,
    n ∙ sym (first_or-append xs ys a),
    ground (arith, has-append x xs ys, apart x),
    Seg-append x xs ys a s t (λ q at. apart q (ground arith)),
  )

  -- The two parts of a segment share no item.
  pub Seg-apart : (b : Ptr) (xs ys : List Ptr) (a q : Ptr) → Seg m b (xs ++ ys) a → q ∈ xs → q ∉ ys
  Seg-apart b [] ys a q s at = cc
  Seg-apart b (x ∷ xs) ys a q (ne, p, n, out, s) at =
      ground (arith, has-append x xs ys, Seg-apart x xs ys a q s)

  pub Seg-ne-null : (b : Ptr) (xs : List Ptr) (a q : Ptr) → Seg m b xs a → q ∈ xs → q ≢ null
  Seg-ne-null b [] a q s at = cc
  Seg-ne-null b (x ∷ xs) a q s at = ground (arith, Seg-ne-null x xs a q s.4)

  -- The last item of a list that is not empty leads to what follows it.
  pub Seg-last :
      (b x : Ptr) (xs : List Ptr) (a : Ptr) → Seg m b (x ∷ xs) a → (m (last_or x xs)).next ≡ a
  Seg-last b x [] a (ne, p, n, out, s) = n
  Seg-last b x (y ∷ xs) a (ne, p, n, out, s) = Seg-last x y xs a s
