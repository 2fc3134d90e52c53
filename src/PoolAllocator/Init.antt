-- ===== src/PoolAllocator/Init.antt =====
-- The contract of `PoolAllocator_init`.
use disastros_msg_queues.Base.{
  Ptr, ℕ, zero, suc, ◌+◌, ◌-◌, ◌*◌, ◌^◌, ◌≤◌, ◌<◌, ◌≡◌, refl, ◌∙◌, subst, true, false, some, List,
  [], ◌∷◌, arith, ◌==◌, length, get_elem?, set, length-set, get_elem?-set_ne, get_elem?-set_self,
  Bool-cases, inl, inr, ◌∈◌, ◌∉◌, ℤ, pos, to_int, ltb_ℤ, to_int_small,
}
use disastros_msg_queues.PoolAllocator.{
  PoolAllocator, PoolAllocatorResult, null_idx, success, not_enough_memory, sizeof_int, populate,
  init,
}
use disastros_msg_queues.PoolAllocator.Chain.{Chain, nil, cons, IsPool}

-- i, i + 1, …, i + n - 1
abbrev pub range_from : ℕ → ℕ → List ℕ
range_from i zero = []
range_from i (suc n) = i ∷ range_from (suc i) n

pub length-range_from : (i n : ℕ) → length (range_from i n) ≡ n
length-range_from i zero = refl
length-range_from i (suc n) = omega (arith, length-range_from (suc i) n)

pub not-mem-range_from : (j i n : ℕ) → j < i → j ∉ range_from i n
not-mem-range_from j i zero h = refl
not-mem-range_from j i (suc n) h = ground (arith, not-mem-range_from j (suc i) n)

pub mem-range_from : (j i n : ℕ) → j ∈ range_from i n → (i ≤ j) × (j < i + n)
mem-range_from j i zero h = cc
mem-range_from j i (suc n) h = ground (arith, mem-range_from j (suc i) n)

range_from-mem : (j i n : ℕ) → i ≤ j → j < i + n → j ∈ range_from i n
range_from-mem j i zero lo hi = absurd (omega arith)
range_from-mem j i (suc n) lo hi = ground (arith, range_from-mem j (suc i) n)

length-populate : (k i : ℕ) (cells : List ℤ) → length (populate k i cells) ≡ length cells
unfolding populate
length-populate zero i cells = refl
length-populate (suc k) i cells =
    length-populate k (suc i) (set cells i (pos (suc i))) ∙ length-set cells i (pos (suc i))

populate_before :
    (k i j : ℕ) (cells : List ℤ) → j < i → get_elem? (populate k i cells) j ≡ get_elem? cells j
unfolding populate
populate_before zero i j cells h = refl
populate_before (suc k) i j cells h =
    populate_before k (suc i) j (set cells i (pos (suc i))) (omega arith)
    ∙ get_elem?-set_ne cells i j (pos (suc i)) (omega arith)

-- After the loop each cell holds the index of the next one.
populate_at :
    (k i j : ℕ) (cells : List ℤ)
    → i ≤ j
    → j < i + k
    → i + k ≤ length cells
    → get_elem? (populate k i cells) j ≡ some (pos (suc j))
unfolding populate
populate_at zero i j cells lo hi room = absurd (omega arith)
populate_at (suc k) i j cells lo hi room = elim (Bool-cases (i == j)) [
  | inl here ↦ ground (
    arith,
    populate_before k (suc i) j (set cells i (pos (suc i))),
    get_elem?-set_self cells i (pos (suc i)),
  )
  | inr there ↦
      populate_at k (suc i) j (set cells i (pos (suc i))) (ground arith) (omega arith)
        (omega (arith, length-set cells i (pos (suc i))))
]

-- A table in which each cell but the last leads to the next one.
range-Chain :
    (cells : List ℤ) (n i : ℕ)
    → ((j : ℕ) → i ≤ j → j < i + n → get_elem? cells j ≡ some (pos (suc j)))
    → get_elem? cells (i + n) ≡ some null_idx
    → Chain cells (pos i) (range_from i (suc n))
range-Chain cells zero i next end = cons refl (ground arith) refl (nil refl)
range-Chain cells (suc n) i next end =
    cons refl (next i (omega arith) (omega arith))
      (not-mem-range_from i (suc i) (suc n) (omega arith))
      (range-Chain cells n (suc i) (λ j lo hi. next j (omega arith) (omega arith))
        (subst (λ m. get_elem? cells m ≡ some null_idx) (omega arith) end))

-- The call succeeds, and all blocks from 0 to `n` are free.
abbrev pub Inits : ℕ → PoolAllocatorResult × PoolAllocator → Type 0
Inits n (r, b) = (r ≡ success) × IsPool b (range_from 0 (suc n))

module _ (a : PoolAllocator) (item_size num_items : ℕ) (memory_block : Ptr) (memory_size : ℕ)
    (cells : List ℤ) where
  -- The requested size is compared as an `int`.
  pub init-small :
      ltb_ℤ (to_int memory_size) (to_int (num_items * (item_size + sizeof_int))) ≡ true
      → init a item_size num_items memory_block memory_size cells ≡ (not_enough_memory, a)
  unfolding init
  init-small h = rw h

module _ (a : PoolAllocator) (item_size n : ℕ) (memory_block : Ptr) (memory_size : ℕ)
    (cells : List ℤ) where
  table-Chain :
      length cells ≡ suc n
      → Chain (set (populate n 0 cells) n null_idx) (pos 0) (range_from 0 (suc n))
  table-Chain len =
      range-Chain _ n 0
        (λ j lo hi.
          get_elem?-set_ne (populate n 0 cells) n j null_idx (omega arith)
          ∙ populate_at n 0 j cells lo hi (omega arith))
        (subst (λ m. get_elem? (set (populate n 0 cells) n null_idx) m ≡ some null_idx)
          (omega arith)
          (get_elem?-set_self (populate n 0 cells) n null_idx
            (omega (arith, length-populate n 0 cells))))

  -- Given enough memory for the blocks and the table, every block is free, in order of address.
  pub init-IsPool :
      0 < item_size
      → 0 < memory_block
      → suc n * (item_size + sizeof_int) ≤ memory_size
      → memory_size < 2 ^ 31
      → length cells ≡ suc n
      → Inits n (init a item_size (suc n) memory_block memory_size cells)
  unfolding init
  init-IsPool item_pos not_null room small len =
      let fit : ltb_ℤ (to_int memory_size) (to_int (suc n * (item_size + sizeof_int))) ≡ false =
        rw
          (
            to_int_small memory_size small,
            to_int_small (suc n * (item_size + sizeof_int)) (omega arith),
          )
          (ground arith) in
      let last : suc n - 1 ≡ n = omega arith in
      rw (fit, last)
        (
          refl,
          record {
            chain = table-Chain len;
            count = ground (arith, length-range_from 1 n);
            table = length-set (populate n 0 cells) n null_idx ∙ length-populate n 0 cells ∙ len;
            inside = λ i at. omega (arith, mem-range_from i 0 (suc n) at);
            detached = λ i lt out. cc (range_from-mem i 0 (suc n) (omega arith) (omega arith), out);
            item_pos = item_pos;
            not_null = not_null;
            fits = grind arith;
          },
        )
