-- ===== src/PoolAllocator/Roundtrip.antt =====
-- Getting a block and releasing it, and every outcome of a release.
use disastros_msg_queues.PoolAllocator.Blocks.{get_block-nil}
use disastros_msg_queues.Base.{[], Returns-ok}
use disastros_msg_queues.PoolAllocator.Live.{IsValid, HasBlock}
use native.Mathlib.Nat.{div-add-mod'}
use disastros_msg_queues.Base.{
  Ptr, ℕ, ◌+◌, ◌-◌, ◌*◌, ◌/◌, ◌%◌, ◌^◌, ◌≤◌, ◌<◌, ◌≡◌, ◌≢◌, refl, ◌∙◌, sym, subst, true, some, List,
  ◌∷◌, arith, ◌==◌, leb, length, get_elem?, set, get_elem?-set_self, get_elem?-lt, set-set_back,
  Bool-cases, inl, inr, ◌∈◌, ◌∉◌, has, ℤ, pos, pos-pred, pos-suc, to_int, ◌-ℤ◌, ok, Returns,
  returns,
}
use disastros_msg_queues.PoolAllocator.{
  PoolAllocator, detached_idx, success, out_of_range, double_free, unaligned_free, take_block,
  get_block, release_at, release_offset, release_block, offset,
}
use disastros_msg_queues.PoolAllocator.Chain.{Chain, cons, IsPool}
use disastros_msg_queues.PoolAllocator.Blocks.{
  block_at, release_block-at, block-fits, take_block-pos,
}
use disastros_msg_queues.PoolAllocator.Release.{
  Frees, release_at-outside, release_block-detached, release_block-free,
}

module _ (a : PoolAllocator) {i : ℕ} {free : List ℕ} (v : IsPool a (i ∷ free)) where
  restored :
      {next : ℤ}
      → get_elem? a.free_list i ≡ some next
      → a.first_idx ≡ pos i
      → release_at
          (record a {
            first_idx = next;
            size = a.size -ℤ pos 1;
            free_list = set a.free_list i detached_idx;
          })
          i
        ≡ ok (success, a)
  unfolding release_at
  restored {next} get first = ground (
    arith,
    get_elem?-set_self a.free_list i detached_idx,
    get_elem?-lt a.free_list i get,
    set-set_back a.free_list i detached_idx next,
    v.inside i,
    v.count,
    pos-pred (length free),
    pos-suc (length free),
  )

  -- A block that is handed out and released at once leaves the pool exactly as it was.
  pub release_block-get_block :
      Returns (λ (p, b). release_block b p ≡ ok (success, a)) (get_block a)
  unfolding get_block
  release_block-get_block = go v.chain refl
    where
      go :
          {k : ℤ}
          → Chain a.free_list k (i ∷ free)
          → a.first_idx ≡ k
          → Returns (λ (p, b). release_block b p ≡ ok (success, a)) (take_block a k)
      go (cons {next} e get new rest) first =
          subst (λ k. Returns (λ (p, b). release_block b p ≡ ok (success, a)) (take_block a k))
            (sym e)
            (rw (take_block-pos a i get) (
              returns (
                release_block-at _ i v.item_pos (block-fits a i (v.inside i (ground arith)) v.fits)
                ∙ restored get (first ∙ e))))

-- The four outcomes of a release, each with what identifies it and what the call returns.
pub data Outcome (a : PoolAllocator) (free : List ℕ) (p : Ptr) : Type 0 where
  unaligned :
      (p - a.buffer) % a.item_size ≢ 0
      → release_block a p ≡ ok (unaligned_free, a)
      → Outcome a free p
  outside :
      (i : ℕ)
      → p ≡ block_at a i
      → a.size_max ≤ i
      → release_block a p ≡ ok (out_of_range, a)
      → Outcome a free p
  free_already :
      (i : ℕ)
      → p ≡ block_at a i
      → i ∈ free
      → release_block a p ≡ ok (double_free, a)
      → Outcome a free p
  freed :
      (i : ℕ)
      → p ≡ block_at a i
      → i < a.size_max
      → i ∉ free
      → Returns (Frees a i free) (release_block a p)
      → Outcome a free p

module _ (a : PoolAllocator) {free : List ℕ} (v : IsPool a free) where
  block-Outcome : (i : ℕ) → i * a.item_size < 2 ^ 31 → Outcome a free (block_at a i)
  block-Outcome i small = elim (Bool-cases (leb a.size_max i)) [
    | inl out ↦
        outside i refl (ground arith)
          (release_block-at a i v.item_pos small ∙ release_at-outside a v i (ground arith))
    | inr in_pool ↦ elim (Bool-cases (has i free)) [
      | inl at ↦ free_already i refl at (release_block-free a v i at)
      | inr out ↦ freed i refl (ground arith) out (release_block-detached a v i (ground arith) out)
    ]
  ]

  offset_above :
      (p : Ptr) → a.buffer ≤ p → p < a.buffer + 2 ^ 31 → offset p a.buffer ≡ pos (p - a.buffer)
  unfolding to_int
  offset_above p lo hi = ground arith

  release_block-unaligned :
      (p : Ptr)
      → a.buffer ≤ p
      → p < a.buffer + 2 ^ 31
      → (p - a.buffer) % a.item_size ≢ 0
      → release_block a p ≡ ok (unaligned_free, a)
  unfolding release_block
  release_block-unaligned p lo hi ne = rw (offset_above p lo hi, release_offset) (ground arith)

  whole :
      (p : Ptr)
      → ((p - a.buffer) % a.item_size == 0) ≡ true
      → (p - a.buffer) / a.item_size * a.item_size ≡ p - a.buffer
  whole p e = ground (arith, div-add-mod' (p - a.buffer) a.item_size)

  -- For an address at most 2 ^ 31 - 1 bytes above the buffer, exactly the four outcomes are possible.
  pub release_block_cases : (p : Ptr) → a.buffer ≤ p → p < a.buffer + 2 ^ 31 → Outcome a free p
  release_block_cases p lo hi = elim (Bool-cases ((p - a.buffer) % a.item_size == 0)) [
    | inl aligned ↦
        subst (Outcome a free) (omega (arith, whole p aligned))
          (block-Outcome ((p - a.buffer) / a.item_size) (omega (arith, whole p aligned)))
    | inr ne ↦ unaligned (ground arith) (release_block-unaligned p lo hi (ground arith))
  ]

-- The next block of a valid pool, released at once, leaves the pool exactly as it was.
pub HasBlock-returned :
    (a : PoolAllocator)
    → IsValid a
    → (h : HasBlock a) → release_block h.rest h.block ≡ ok (success, a)
HasBlock-returned a v h = go v.free v.pool
  where
    go : (free : List ℕ) → IsPool a free → release_block h.rest h.block ≡ ok (success, a)
    go [] w = absurd (h.exists (let e = get_block-nil w in let e' = h.gets in cc))
    go (i ∷ free) w =
        let ((p, b), gets, back) = Returns-ok (release_block-get_block a w) in
        let gets' = h.gets in
        let same : b ≡ h.rest = cc in
        let same' : p ≡ h.block = cc in
        subst (λ c. release_block c h.block ≡ ok (success, a)) same
          (subst (λ q. release_block b q ≡ ok (success, a)) same' back)
