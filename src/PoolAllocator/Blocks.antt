-- ===== src/PoolAllocator/Blocks.antt =====
-- The contract of `PoolAllocator_getBlock` and `PoolAllocator_releaseBlock`.
use disastros_msg_queues.Base.{
  Ptr, null, ℕ, ◌+◌, ◌*◌, ◌^◌, ◌<◌, ◌≡◌, refl, ◌∙◌, sym, subst, some, List, [], ◌∷◌, arith, length,
  get_elem?, set, length-set, get_elem?-set_ne, get_elem?-set_self, ◌∉◌, ℤ, pos, pos-pred, to_int,
  ◌-ℤ◌, ok, Returns, returns,
}
use native.Mathlib.Nat.{mul-mod_left, mul-div_cancel}
use disastros_msg_queues.PoolAllocator.{
  PoolAllocator, detached_idx, take_block, get_block, release_at, release_offset, release_block,
  offset,
}
use disastros_msg_queues.PoolAllocator.Chain.{Chain, nil, cons, IsPool, Chain-set}

abbrev pub block_at : PoolAllocator → ℕ → Ptr
block_at a i = a.buffer + i * a.item_size

abbrev pub SameShape : PoolAllocator → PoolAllocator → Type 0
SameShape a b = (b.buffer ≡ a.buffer) × (b.item_size ≡ a.item_size) × (b.size_max ≡ a.size_max)

pub block_at-injective :
    (a : PoolAllocator) (i j : ℕ) → 0 < a.item_size → block_at a i ≡ block_at a j → i ≡ j
block_at-injective a i j h e = grind arith

pub take_block-pos :
    (a : PoolAllocator) (i : ℕ) {next : ℤ}
    → get_elem? a.free_list i ≡ some next
    → take_block a (pos i)
      ≡ ok (
        block_at a i,
        record a {
          first_idx = next;
          size = a.size -ℤ pos 1;
          free_list = set a.free_list i detached_idx;
        },
      )
unfolding take_block
take_block-pos a i e = ground arith

-- The first free block is handed out, and the pool keeps the others.
abbrev pub Gets : PoolAllocator → ℕ → List ℕ → Ptr × PoolAllocator → Type 0
Gets a i free (p, b) = (p ≡ block_at a i) × IsPool b free × SameShape a b

module _ {a : PoolAllocator} where
  -- With no free block `PoolAllocator_getBlock` returns null and changes nothing.
  pub get_block-nil : IsPool a [] → get_block a ≡ ok (null, a)
  unfolding get_block
  get_block-nil v = go v.chain
    where
      go : {i : ℤ} → Chain a.free_list i [] → take_block a i ≡ ok (null, a)
      go (nil e) = subst (λ i. take_block a i ≡ ok (null, a)) (sym e) refl

  pub IsPool-taken :
      {i : ℕ} {next : ℤ} {free : List ℕ}
      → IsPool a (i ∷ free)
      → i ∉ free
      → Chain a.free_list next free
      → IsPool
          (record a {
            first_idx = next;
            size = a.size -ℤ pos 1;
            free_list = set a.free_list i detached_idx;
          })
          free
  IsPool-taken {i} {free} v new rest = record {
    chain = Chain-set i detached_idx rest new;
    count = rw v.count (pos-pred (length free));
    table = length-set a.free_list i detached_idx ∙ v.table;
    inside = λ j at. v.inside j (ground arith);
    detached = λ j lt out. ground (
      arith,
      v.detached j,
      v.table,
      get_elem?-set_self a.free_list i detached_idx,
      get_elem?-set_ne a.free_list i j detached_idx,
    );
    item_pos = v.item_pos;
    not_null = v.not_null;
    fits = v.fits;
  }

  pub get_block-cons :
      {i : ℕ} {free : List ℕ} → IsPool a (i ∷ free) → Returns (Gets a i free) (get_block a)
  unfolding get_block
  get_block-cons {i} {free} v = go v.chain
    where
      go : {k : ℤ} → Chain a.free_list k (i ∷ free) → Returns (Gets a i free) (take_block a k)
      go (cons {next} e get new rest) =
          subst (λ k. Returns (Gets a i free) (take_block a k)) (sym e)
            (rw (take_block-pos a i get)
              (returns (refl, IsPool-taken v new rest, (refl, refl, refl))))

-- The address of block `i` has the offset and the index that it was computed from.
pub offset-block_at :
    (a : PoolAllocator) (i : ℕ)
    → i * a.item_size < 2 ^ 31
    → offset (block_at a i) a.buffer ≡ pos (i * a.item_size)
unfolding to_int
offset-block_at a i h = ground arith

pub release_block-at :
    (a : PoolAllocator) (i : ℕ)
    → 0 < a.item_size
    → i * a.item_size < 2 ^ 31
    → release_block a (block_at a i) ≡ release_at a i
unfolding release_block
release_block-at a i h small =
    rw (offset-block_at a i small, release_offset)
      (ground (arith, mul-mod_left i a.item_size, mul-div_cancel i h))

pub block-fits :
    (a : PoolAllocator) (i : ℕ)
    → i < a.size_max
    → a.size_max * a.item_size < 2 ^ 31
    → i * a.item_size < 2 ^ 31
block-fits a i h fits = grind arith
