-- ===== src/PoolAllocator/Live.antt =====
-- What a client of an allocator relies on, stated of block addresses: the live blocks are those
-- handed out and not released.
use mathlib.Core.Path.{subst₂}
use disastros_msg_queues.Base.{
  ℕ, ◌<◌, ◌≡◌, ◌≢◌, ◌⊎◌, inl, inr, refl, ◌∙◌, sym, List, [], ◌∷◌, pos, some, arith, get_elem?,
  get_elem?-lt, has, ◌∉◌, Bool-cases, ◌==◌, Run, ok, Returns, returns, Returns-ok, Ptr, null,
}
use disastros_msg_queues.PoolAllocator.{
  PoolAllocator, PoolAllocatorResult, success, detached_idx, get_block, release_block,
}
use disastros_msg_queues.PoolAllocator.Chain.{IsPool, Chain-link, Chain-new}
use disastros_msg_queues.PoolAllocator.Blocks.{
  block_at, SameShape, Gets, get_block-nil, get_block-cons, block_at-injective,
}
use disastros_msg_queues.PoolAllocator.Release.{Frees, release_block-detached}

pub record IsValid (a : PoolAllocator) : Type 0 where
  pub free : List ℕ
  pub pool : IsPool a free

-- The block at `p` is handed out.
pub data Live (a : PoolAllocator) (p : Ptr) : Type 0 where
  live : (i : ℕ) → p ≡ block_at a i → get_elem? a.free_list i ≡ some detached_idx → Live a p

Live-out :
    {a : PoolAllocator} {free : List ℕ} (v : IsPool a free) (i : ℕ)
    → get_elem? a.free_list i ≡ some detached_idx
    → (i < a.size_max) × (i ∉ free)
Live-out {a} {free} v i e = (
  omega (arith, get_elem?-lt a.free_list i e, v.table),
  elim (Bool-cases (has i free)) [
    | inl at ↦ (let (link, get, other) = Chain-link i v.chain at in ground arith)
    | inr out ↦ out
  ],
)

-- A block that is handed out was not live, is not null, and becomes the one more live block.
pub record Fresh (a : PoolAllocator) (p : Ptr) (b : PoolAllocator) : Type 0 where
  pub not_null : p ≢ null
  pub new : ¬ Live a p
  pub valid : IsValid b
  pub now : Live b p
  pub keeps : (q : Ptr) → Live a q → Live b q
  pub only : (q : Ptr) → Live b q → Live a q ⊎ (q ≡ p)

-- `PoolAllocator_getBlock` fails with null and no effect, or hands out a fresh block.
pub data Got (a : PoolAllocator) : Run (Ptr × PoolAllocator) → Type 0 where
  exhausted : Got a (ok (null, a))
  got : {p : Ptr} {b : PoolAllocator} → Fresh a p b → Got a (ok (p, b))

module _ (a : PoolAllocator) (i : ℕ) (free : List ℕ) (p : Ptr) (b : PoolAllocator)
    (v : IsPool a (i ∷ free)) (w : IsPool b free) (e : p ≡ block_at a i)
    (same : SameShape a b) where
  taken-new : ¬ Live a p
  taken-new (live j e' at) =
      let (lt, out) = Live-out v j at in
      let eq : i ≡ j = block_at-injective a i j v.item_pos (sym e ∙ e') in ground arith

  taken-now : Live b p
  taken-now = live i (ground arith) (w.detached i (ground (arith, v.inside i)) (Chain-new v.chain))

  taken-keeps : (q : Ptr) → Live a q → Live b q
  taken-keeps q (live j e' at) =
      let (lt, out) = Live-out v j at in
      live j (ground arith) (w.detached j (ground arith) (ground arith))

  taken-only : (q : Ptr) → Live b q → Live a q ⊎ (q ≡ p)
  taken-only q (live j e' at) =
      let (lt, out) = Live-out w j at in
      elim (Bool-cases (j == i)) [
        | inl here ↦ inr (ground arith)
        | inr other ↦ inl (live j (ground arith) (v.detached j (ground arith) (ground arith)))
      ]

  taken-Fresh : Fresh a p b
  taken-Fresh = record {
    not_null = ground (arith, v.not_null);
    new = taken-new;
    valid = record { free = free; pool = w };
    now = taken-now;
    keeps = taken-keeps;
    only = taken-only;
  }

pub get_block-Got : (a : PoolAllocator) → IsValid a → Got a (get_block a)
get_block-Got a v = go v.free v.pool
  where
    go : (free : List ℕ) → IsPool a free → Got a (get_block a)
    go [] w = rw (get_block-nil w) exhausted
    go (i ∷ free) w = take (get_block-cons w)
      where
        take : {r : Run (Ptr × PoolAllocator)} → Returns (Gets a i free) r → Got a r
        take (returns (e, u, same)) = got (taken-Fresh a i free _ _ w u e same)

-- The block is no longer live; the others are what they were.
pub record Freed (a : PoolAllocator) (p : Ptr) (b : PoolAllocator) : Type 0 where
  pub valid : IsValid b
  pub keeps : (q : Ptr) → q ≢ p → Live a q → Live b q
  pub only : (q : Ptr) → Live b q → Live a q × (q ≢ p)

module _ (a : PoolAllocator) (i : ℕ) (free : List ℕ) (p : Ptr) (b : PoolAllocator)
    (v : IsPool a free) (w : IsPool b (i ∷ free)) (e : p ≡ block_at a i)
    (same : SameShape a b) where
  given-keeps : (q : Ptr) → q ≢ p → Live a q → Live b q
  given-keeps q ne (live j e' at) =
      let (lt, out) = Live-out v j at in
      live j (ground arith) (w.detached j (ground arith) (ground arith))

  given-only : (q : Ptr) → Live b q → Live a q × (q ≢ p)
  given-only q (live j e' at) =
      let (lt, out) = Live-out w j at in
      (
        live j (ground arith) (v.detached j (ground arith) (ground arith)),
        λ z. ground (arith, block_at-injective a i j v.item_pos),
      )

-- A live block is released without error.
pub release_block-Freed :
    (a : PoolAllocator) (p : Ptr)
    → IsValid a
    → Live a p
    → Returns (λ (r, b). (r ≡ success) × Freed a p b) (release_block a p)
release_block-Freed a p v (live i e at) =
    let (lt, out) = Live-out v.pool i at in rw e (go (release_block-detached a v.pool i lt out))
  where
    go :
        {r : Run (PoolAllocatorResult × PoolAllocator)}
        → Returns (Frees a i v.free) r
        → Returns (λ (r, b). (r ≡ success) × Freed a (block_at a i) b) r
    go (returns {a = (_, b)} (done, w, same)) = returns (
      done,
      record {
        valid = record { free = i ∷ v.free; pool = w };
        keeps = given-keeps a i v.free _ b v.pool w refl same;
        only = given-only a i v.free _ b v.pool w refl same;
      },
    )

-- A block is left in the allocator, and this is what the next call returns.
pub record HasBlock (a : PoolAllocator) : Type 0 where
  pub block : Ptr
  pub rest : PoolAllocator
  pub gets : get_block a ≡ ok (block, rest)
  pub exists : block ≢ null

Got-Fresh :
    {a : PoolAllocator} {r : Run (Ptr × PoolAllocator)} (p : Ptr) (b : PoolAllocator)
    → Got a r
    → r ≡ ok (p, b)
    → p ≢ null
    → Fresh a p b
Got-Fresh p b exhausted e ne = absurd (ne (cc))
Got-Fresh {a} p b (got {p = p'} {b = b'} f) e ne =
    let ep : p' ≡ p = cc in let eb : b' ≡ b = cc in subst₂ (Fresh a) ep eb f

pub HasBlock-Fresh : (a : PoolAllocator) → IsValid a → (h : HasBlock a) → Fresh a h.block h.rest
HasBlock-Fresh a v h = Got-Fresh h.block h.rest (get_block-Got a v) h.gets h.exists

-- A pool that hands out null has no free block.
pub exhausted-size : (a : PoolAllocator) → IsValid a → get_block a ≡ ok (null, a) → a.size ≡ pos 0
exhausted-size a v none = go v.free v.pool
  where
    go : (free : List ℕ) → IsPool a free → a.size ≡ pos 0
    go [] w = w.count
    go (i ∷ free) w =
        let ((p, b), gets, (e, rest, same)) = Returns-ok (get_block-cons w) in
        let null_block : ◌≡◌ {A = Run (Ptr × PoolAllocator)} (ok (p, b)) (ok (null, a)) =
          sym gets ∙ none in
        let is_null : p ≡ null = cc in ground (arith, w.not_null)

-- A pool has a block left, or `PoolAllocator_getBlock` returns null.
pub block_left : (a : PoolAllocator) → IsValid a → (get_block a ≡ ok (null, a)) ⊎ HasBlock a
block_left a v = go (get_block-Got a v) refl
  where
    go :
        {r : Run (Ptr × PoolAllocator)}
        → Got a r
        → get_block a ≡ r
        → (get_block a ≡ ok (null, a)) ⊎ HasBlock a
    go exhausted e = inl e
    go (got {p = p} {b = b} f) e =
        inr (record { block = p; rest = b; gets = e; exists = f.not_null })
