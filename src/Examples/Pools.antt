-- ===== src/Examples/Pools.antt =====
-- Runs of the pool allocator.
use disastros_msg_queues.Base.{◌≡◌, refl, arith, [], ◌∷◌, ok, Returns}
use disastros_msg_queues.PoolAllocator.{success, init, get_block, release_block}
use disastros_msg_queues.PoolAllocator.Init.{Inits, init-IsPool}
use disastros_msg_queues.PoolAllocator.Live.{Got, Freed, get_block-Got, release_block-Freed}
use disastros_msg_queues.PoolAllocator.Roundtrip.{
  Outcome, release_block-get_block, release_block_cases,
}
use disastros_msg_queues.Examples.State.{
  cells, full_pool, pool, used, pool-IsPool, pool-IsValid, used-Fresh,
}

init-IsPool_example : Inits 1 (init (full_pool 0) 8 2 1024 64 (cells 2))
init-IsPool_example =
    init-IsPool (full_pool 0) 8 1 1024 64 (cells 2) (omega arith) (omega arith) (omega arith)
      (omega arith) refl

get_block-Got_example : Got pool (get_block pool)
get_block-Got_example = get_block-Got pool pool-IsValid

release_block-Freed_example :
    Returns (λ (r, b). (r ≡ success) × Freed used 1024 b) (release_block used 1024)
release_block-Freed_example = release_block-Freed used 1024 used-Fresh.valid used-Fresh.now

release_block-get_block_example :
    Returns (λ (p, b). release_block b p ≡ ok (success, pool)) (get_block pool)
release_block-get_block_example = release_block-get_block pool pool-IsPool

release_block_cases_example : Outcome pool (0 ∷ 1 ∷ []) 1036
release_block_cases_example = release_block_cases pool pool-IsPool 1036 (omega arith) (omega arith)
