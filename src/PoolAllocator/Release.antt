-- ===== src/PoolAllocator/Release.antt =====
-- The contract of `PoolAllocator_releaseBlock`, on every branch.
use disastros_msg_queues.Base.{
  ℕ, ◌*◌, ◌^◌, ◌≤◌, ◌<◌, ◌≡◌, refl, ◌∙◌, List, ◌∷◌, arith, length, set, length-set,
  get_elem?-set_ne, get_elem?-set_self, ◌∈◌, ◌∉◌, pos, eqb_ℤ_iff, pos-suc, ◌+ℤ◌, ok, Returns,
  returns,
}
use disastros_msg_queues.PoolAllocator.{
  PoolAllocator, PoolAllocatorResult, detached_idx, success, out_of_range, double_free, release_at,
  release_block,
}
use disastros_msg_queues.PoolAllocator.Chain.{cons, IsPool, Chain-set, Chain-link}
use disastros_msg_queues.PoolAllocator.Blocks.{block_at, SameShape, release_block-at, block-fits}

-- The block `i` comes back as the first free one.
abbrev pub Frees : PoolAllocator → ℕ → List ℕ → PoolAllocatorResult × PoolAllocator → Type 0
Frees a i free (r, b) = (r ≡ success) × IsPool b (i ∷ free) × SameShape a b

module _ (a : PoolAllocator) {free : List ℕ} (v : IsPool a free) (i : ℕ) where
  released : PoolAllocator
  released = record a {
    free_list = set a.free_list i a.first_idx;
    first_idx = pos i;
    size = a.size +ℤ pos 1;
  }

  released-IsPool : i < a.size_max → i ∉ free → IsPool released (i ∷ free)
  unfolding released
  released-IsPool lt out = record {
    chain =
        cons refl (get_elem?-set_self a.free_list i a.first_idx (rw v.table lt)) out
          (Chain-set i a.first_idx v.chain out);
    count = rw v.count (pos-suc (length free));
    table = length-set a.free_list i a.first_idx ∙ v.table;
    inside = λ j at. ground (arith, v.inside j);
    detached =
        λ j below out'. ground (arith, v.detached j, get_elem?-set_ne a.free_list i j a.first_idx);
    item_pos = v.item_pos;
    not_null = v.not_null;
    fits = v.fits;
  }

  release_at-detached : i < a.size_max → i ∉ free → release_at a i ≡ ok (success, released)
  unfolding release_at released
  release_at-detached lt out = ground (arith, v.detached i)

  release_at-free : i ∈ free → release_at a i ≡ ok (double_free, a)
  unfolding release_at
  release_at-free at =
      let (link, get, other) = Chain-link i v.chain at in
      ground (arith, get, other, v.inside i at, eqb_ℤ_iff link detached_idx)

  pub release_at-outside : a.size_max ≤ i → release_at a i ≡ ok (out_of_range, a)
  unfolding release_at
  release_at-outside h = ground arith

  small : i < a.size_max → i * a.item_size < 2 ^ 31
  small lt = block-fits a i lt v.fits

  -- A block that was handed out is taken back.
  pub release_block-detached :
      i < a.size_max → i ∉ free → Returns (Frees a i free) (release_block a (block_at a i))
  unfolding released
  release_block-detached lt out =
      rw (release_block-at a i v.item_pos (small lt), release_at-detached lt out)
        (returns (refl, released-IsPool lt out, (refl, refl, refl)))

  -- A block that is free already is refused, and nothing changes.
  pub release_block-free : i ∈ free → release_block a (block_at a i) ≡ ok (double_free, a)
  release_block-free at =
      release_block-at a i v.item_pos (small (v.inside i at)) ∙ release_at-free at
