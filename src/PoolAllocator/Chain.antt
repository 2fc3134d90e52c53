-- ===== src/PoolAllocator/Chain.antt =====
-- The representation invariant of a pool: the free blocks form a chain without repetition.
use disastros_msg_queues.Base.{
  ℕ, ◌*◌, ◌^◌, ◌<◌, ◌≡◌, ◌≢◌, ◌∙◌, some, List, [], ◌∷◌, arith, ◌==◌, length, Bool-cases, inl, inr,
  get_elem?, set, get_elem?-set_ne, ◌∈◌, ◌∉◌, ℤ, pos,
}
use disastros_msg_queues.PoolAllocator.{PoolAllocator, null_idx, detached_idx}

-- From the index `i` the table leads through the blocks `xs` to the end mark.
pub data Chain (cells : List ℤ) : ℤ → List ℕ → Type 0 where
  nil : {i : ℤ} → i ≡ null_idx → Chain cells i []
  cons :
      {i next : ℤ} {n : ℕ} {xs : List ℕ}
      → i ≡ pos n
      → get_elem? cells n ≡ some next
      → n ∉ xs
      → Chain cells next xs
      → Chain cells i (n ∷ xs)

-- A pool whose free blocks are `free`, first to be handed out first.
pub record IsPool (a : PoolAllocator) (free : List ℕ) : Type 0 where
  pub chain : Chain a.free_list a.first_idx free
  pub count : a.size ≡ pos (length free)
  pub table : length a.free_list ≡ a.size_max
  pub inside : (i : ℕ) → i ∈ free → i < a.size_max
  pub detached : (i : ℕ) → i < a.size_max → i ∉ free → get_elem? a.free_list i ≡ some detached_idx
  pub item_pos : 0 < a.item_size
  pub not_null : 0 < a.buffer
  -- the blocks fit the address space, and their offsets fit an `int`
  pub fits : a.size_max * a.item_size < 2 ^ 31

-- A write to a cell outside the chain leaves the chain.
pub Chain-set :
    {cells : List ℤ} {i : ℤ} {xs : List ℕ} (m : ℕ) (v : ℤ)
    → Chain cells i xs
    → m ∉ xs
    → Chain (set cells m v) i xs
Chain-set m v (nil e) out = nil e
Chain-set {cells} m v (cons {n} {xs} e get new rest) out =
    cons e (get_elem?-set_ne cells m n v (ground arith) ∙ get) new
      (Chain-set m v rest (ground arith))

pub Chain-ne-detached : {cells : List ℤ} {i : ℤ} {xs : List ℕ} → Chain cells i xs → i ≢ detached_idx
Chain-ne-detached (nil e) h = ground arith
Chain-ne-detached (cons e get new rest) h = ground arith

-- Every block of a chain but the detached ones has a link that is not the detached mark.
pub Chain-link :
    {cells : List ℤ} {i : ℤ} {xs : List ℕ} (m : ℕ)
    → Chain cells i xs
    → m ∈ xs
    → (v : ℤ) × (get_elem? cells m ≡ some v) × (v ≢ detached_idx)
Chain-link m (nil e) at = cc
Chain-link m (cons {next} {n} {xs} e get new rest) at = elim (Bool-cases (m == n)) [
  | inl here ↦ (next, ground arith, Chain-ne-detached rest)
  | inr there ↦ Chain-link m rest (ground arith)
]

pub Chain-new : {cells : List ℤ} {i : ℤ} {n : ℕ} {xs : List ℕ} → Chain cells i (n ∷ xs) → n ∉ xs
Chain-new (cons e get new rest) = new
