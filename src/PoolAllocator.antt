-- ===== src/PoolAllocator.antt =====
-- pool_allocator.c: a fixed number of blocks of one size, the free ones chained by index.
pub mod Chain
pub mod Init
pub mod Blocks
pub mod Release
pub mod Roundtrip
pub mod Live
use disastros_msg_queues.Base.{
  ℕ, zero, suc, ◌+◌, ◌-◌, ◌*◌, ◌/◌, ◌%◌, ◌^◌, ◌≡◌, Bool, true, false, ◌||◌, Option, none, some,
  List, [], ◌∷◌, arith, ltb, leb, ◌==◌, if◌then◌else◌, get_elem?, set, ℤ, pos, negsuc, pos_part,
  ◌+ℤ◌, ◌-ℤ◌, ltb_ℤ, eqb_ℤ, to_int, Run, ok, fault, out_of_bounds, ◌>>=◌, Ptr, null,
}

pub data PoolAllocatorResult : Type 0 where
  success not_enough_memory unaligned_free out_of_range double_free : PoolAllocatorResult

-- `buffer` is the address of the first block. The index table that lies behind the blocks is a list.
pub record PoolAllocator : Type 0 where
  pub buffer : Ptr
  pub free_list : List ℤ
  pub buffer_size : ℕ
  pub size : ℤ
  pub size_max : ℕ
  pub item_size : ℕ
  pub first_idx : ℤ

abbrev pub null_idx : ℤ
null_idx = negsuc 0

abbrev pub detached_idx : ℤ
detached_idx = negsuc 1

abbrev pub sizeof_int : ℕ
sizeof_int = 4

-- The loop that writes `i + 1` into cell `i`, with its rounds left.
pub populate : ℕ → ℕ → List ℤ → List ℤ
populate zero i cells = cells
populate (suc rounds) i cells = populate rounds (suc i) (set cells i (pos (suc i)))

-- `cells` is what the index table held before. The size test is made on `int`s.
unfoldable pub init :
    PoolAllocator
    → (item_size num_items : ℕ) (memory_block : Ptr) (memory_size : ℕ) (cells : List ℤ)
    → PoolAllocatorResult × PoolAllocator
unfolding populate
init a item_size num_items memory_block memory_size cells =
    if ltb_ℤ (to_int memory_size) (to_int (num_items * (item_size + sizeof_int)))
    then (not_enough_memory, a)
    else (
      success,
      record {
        buffer = memory_block;
        free_list = set (populate (num_items - 1) 0 cells) (num_items - 1) null_idx;
        buffer_size = item_size * num_items;
        size = pos num_items;
        size_max = num_items;
        item_size = item_size;
        first_idx = pos 0;
      },
    )

-- A read of the index table.
abbrev pub cell : PoolAllocator → ℕ → Run ℤ
cell a idx = elim (get_elem? a.free_list idx) [ none ↦ fault out_of_bounds | some v ↦ ok v ]

-- The head of the chain is taken off. -1 marks the empty chain; any other negative head is no index.
pub take_block : PoolAllocator → ℤ → Run (Ptr × PoolAllocator)
take_block a (negsuc n) = if n == 0 then ok (null, a) else fault out_of_bounds
take_block a (pos detached) = do
  next ← cell a detached
  ok (
    a.buffer + detached * a.item_size,
    record a {
      first_idx = next;
      size = a.size -ℤ pos 1;
      free_list = set a.free_list detached detached_idx;
    },
  )

-- The block's address, null if there is none, and the allocator after the call.
unfoldable pub get_block : PoolAllocator → Run (Ptr × PoolAllocator)
unfolding take_block
get_block a = take_block a a.first_idx

-- The difference of two pointers, stored in an `int`.
abbrev pub offset : Ptr → Ptr → ℤ
offset block buffer = to_int (block + 2 ^ 64 - buffer)

-- The block `idx`, whose cell holds `link`, becomes the first free one.
pub relink : PoolAllocator → ℕ → ℤ → PoolAllocatorResult × PoolAllocator
relink a idx link =
    if eqb_ℤ link detached_idx
    then (
      success,
      record a {
        free_list = set a.free_list idx a.first_idx;
        first_idx = pos idx;
        size = a.size +ℤ pos 1;
      },
    )
    else (double_free, a)

pub release_at : PoolAllocator → ℕ → Run (PoolAllocatorResult × PoolAllocator)
unfolding relink
release_at a idx =
    if leb a.size_max idx
    then ok (out_of_range, a)
    else (do link ← cell a idx; ok (relink a idx link))

-- A negative offset passes the alignment test where its size does, and then gives a negative index.
pub release_offset : PoolAllocator → ℤ → Run (PoolAllocatorResult × PoolAllocator)
unfolding release_at
release_offset a (pos off) =
    if off % a.item_size == 0 then release_at a (off / a.item_size) else ok (unaligned_free, a)
release_offset a (negsuc n) =
    if suc n % a.item_size == 0 then ok (out_of_range, a) else ok (unaligned_free, a)

unfoldable pub release_block : PoolAllocator → Ptr → Run (PoolAllocatorResult × PoolAllocator)
unfolding release_offset
release_block a block = release_offset a (offset block a.buffer)
