-- ===== src/Examples/Queues.antt =====
-- Runs of the read and write handlers.
use disastros_msg_queues.Base.{
  ◌>>=◌, ℕ, zero, suc, ◌+◌, ◌*◌, ◌<◌, ◌≡◌, ◌≢◌, ◌≤◌, inl, inr, refl, sym, ap, subst, arith, ◌==◌,
  Bool-cases, List, [], ◌∷◌, length, ◌∈◌, ◌∉◌, Distinct, ℤ, pos, Ptr, null, fault, null_dereference,
  Returns,
}
use disastros_msg_queues.PoolAllocator.{PoolAllocator}
use disastros_msg_queues.PoolAllocator.Live.{Live, live}
use disastros_msg_queues.Os.{Os, MessageQueue}
use disastros_msg_queues.MessageQueue.{by_id}
use disastros_msg_queues.MessageQueue.Invariant.{Inv, IsQueue}
use disastros_msg_queues.MessageQueue.Write.{write}
use disastros_msg_queues.MessageQueue.Read.{read}
use disastros_msg_queues.MessageQueue.Writes.{named, Delivers, write-Delivers}
use disastros_msg_queues.MessageQueue.Waits.{Waits}
use disastros_msg_queues.MessageQueue.WriteWaits.{write-Waits, read-Waits}
use disastros_msg_queues.MessageQueue.Contents.{contents}
use disastros_msg_queues.MessageQueue.Fifo.{next_call, Handed, write-read}
use disastros_msg_queues.MessageQueue.WriteCases.{WriteCase, write_cases}
use disastros_msg_queues.MessageQueue.ReadCases.{ReadCase, read_cases}
use disastros_msg_queues.MessageQueue.Reads.{Takes, read_no_queue, read-Takes}
use disastros_msg_queues.Examples.State.{
  args, pool, used, full_pool, cells-detached, pool-IsValid, pool-HasBlock, used-Fresh,
  full_pool-IsPool, queue, kernel, kernel-Inv,
}

pub used-Live : (w : Ptr) → w ∈ 1024 ∷ [] → Live used w
used-Live w at = let e : 1024 ≡ w = ground arith in subst (Live used) e used-Fresh.now

-- The queue holds no message, and process 12 waits to read; 11 writes three bytes.
abbrev one_reader : Os
one_reader = kernel pool used (12 ∷ []) (queue [] (pos 0) (1024 ∷ [])) (pos 3)

one_reader-Inv : Inv one_reader
one_reader-Inv =
    kernel-Inv pool used (12 ∷ []) (queue [] (pos 0) (1024 ∷ [])) (pos 3) pool-IsValid
      used-Fresh.valid (inr refl)
      (record {
        counted = refl;
        bounded = omega arith;
        distinct = tt;
        readers = inr refl;
        writers = inl refl;
        in_line = (refl, tt);
      })
      (λ m at. cc) (λ w at. (ground arith, used-Live w at, refl)) (λ w v i j. ground arith)

found :
    (a b : PoolAllocator) (waiting : List Ptr) (mq : MessageQueue) (n : ℤ)
    → mq.id ≡ pos 7
    → named (kernel a b waiting mq n) ≢ null
unfolding by_id
found a b waiting mq n e = rw e (ground arith)

queue_at :
    (a b : PoolAllocator) (waiting : List Ptr) (mq : MessageQueue) (n : ℤ)
    → mq.id ≡ pos 7
    → named (kernel a b waiting mq n) ≡ 100
unfolding by_id
queue_at a b waiting mq n e = rw e refl

write-Delivers_example : Returns (Delivers one_reader (named one_reader)) (write one_reader)
write-Delivers_example =
    write-Delivers one_reader one_reader-Inv
      (found pool used (12 ∷ []) (queue [] (pos 0) (1024 ∷ [])) (pos 3) refl) (omega arith)
      (omega arith) pool-HasBlock refl

nothing_there : contents one_reader (named one_reader) ≡ []
nothing_there = refl

write-read_example :
    Returns
      (Handed one_reader 5000)
      (write one_reader >>= λ os'. read (next_call os' (args (pos 10))))
write-read_example =
    write-read one_reader (args (pos 10)) 10 nothing_there
      (found pool used (12 ∷ []) (queue [] (pos 0) (1024 ∷ [])) (pos 3) refl) refl refl
      (omega arith) (ground arith) one_reader-Inv (omega arith) pool-HasBlock refl

write_cases_example : WriteCase one_reader (write one_reader)
write_cases_example = write_cases one_reader one_reader-Inv

-- The queue is empty, and nobody waits.
abbrev idle : Os
idle = kernel pool pool [] (queue [] (pos 0) []) (pos 3)

idle-Inv : Inv idle
idle-Inv =
    kernel-Inv pool pool [] (queue [] (pos 0) []) (pos 3) pool-IsValid pool-IsValid (inl refl)
      (record {
        counted = refl;
        bounded = omega arith;
        distinct = tt;
        readers = inr refl;
        writers = inl refl;
        in_line = tt;
      })
      (λ m at. cc) (λ w at. cc) (λ w v i j. cc)

read-Waits_example : Returns (Waits (λ mq. mq.waiting_to_read) idle (named idle) 13 []) (read idle)
read-Waits_example =
    read-Waits idle idle-Inv (found pool pool [] (queue [] (pos 0) []) (pos 3) refl) pool-HasBlock
      13 [] refl refl

-- The queue holds a message of two bytes.
abbrev stocked : ℤ → Os
stocked n = kernel used pool [] (queue (1024 ∷ []) (pos 1) []) n

stocked-Inv : (n : ℤ) → Inv (stocked n)
stocked-Inv n =
    kernel-Inv used pool [] (queue (1024 ∷ []) (pos 1) []) n used-Fresh.valid pool-IsValid
      (inl refl)
      (record {
        counted = refl;
        bounded = omega arith;
        distinct = (refl, tt);
        readers = inl refl;
        writers = inl refl;
        in_line = tt;
      })
      (λ m at. (ground arith, used-Live m at, omega arith)) (λ w at. cc) (λ w v i j. cc)

read-Takes_example :
    Returns (Takes (stocked (pos 3)) (named (stocked (pos 3)))) (read (stocked (pos 3)))
read-Takes_example =
    read-Takes (stocked (pos 3)) (stocked-Inv (pos 3))
      (found used pool [] (queue (1024 ∷ []) (pos 1) []) (pos 3) refl) 1024 [] refl (omega arith)
      refl

-- The buffer is shorter than the message.
read_cases_example : ReadCase (stocked (pos 1)) (read (stocked (pos 1)))
read_cases_example = read_cases (stocked (pos 1)) (stocked-Inv (pos 1))

-- There is no queue 7.
abbrev no_queue : Os
no_queue = kernel pool pool [] (record (queue [] (pos 0) []) { id = pos 8 }) (pos 3)

no_queue-Inv : Inv no_queue
no_queue-Inv =
    kernel-Inv pool pool [] (record (queue [] (pos 0) []) { id = pos 8 }) (pos 3) pool-IsValid
      pool-IsValid (inl refl)
      (record {
        counted = refl;
        bounded = omega arith;
        distinct = tt;
        readers = inr refl;
        writers = inl refl;
        in_line = tt;
      })
      (λ m at. cc) (λ w at. cc) (λ w v i j. cc)

not_found : named no_queue ≡ null
unfolding by_id
not_found = refl

read_no_queue_example : read no_queue ≡ fault null_dereference
read_no_queue_example = read_no_queue no_queue no_queue-Inv not_found

-- The addresses of the blocks i, i + 1, … of a full pool.
abbrev blocks : ℕ → ℕ → List Ptr
blocks i zero = []
blocks i (suc n) = (1024 + i * 8) ∷ blocks (suc i) n

length-blocks : (i n : ℕ) → length (blocks i n) ≡ n
length-blocks i zero = refl
length-blocks i (suc n) = omega (arith, length-blocks (suc i) n)

blocks_before : (i j n : ℕ) → i < j → 1024 + i * 8 ∉ blocks j n
blocks_before i j zero h = refl
blocks_before i j (suc n) h = ground (arith, blocks_before i (suc j) n)

blocks-Distinct : (i n : ℕ) → Distinct (blocks i n)
blocks-Distinct i zero = tt
blocks-Distinct i (suc n) = (blocks_before i (suc i) n (omega arith), blocks-Distinct (suc i) n)

blocks-Live :
    (i n : ℕ) → i + n ≤ 256 → (m : Ptr) → m ∈ blocks i n → (m ≢ null) × Live (full_pool 256) m
blocks-Live i zero h m at = cc
blocks-Live i (suc n) h m at = elim (Bool-cases (m == 1024 + i * 8)) [
  | inl here ↦ (ground arith, live i (ground arith) (cells-detached 256 i (omega arith)))
  | inr there ↦ blocks-Live (suc i) n (omega arith) m (ground arith)
]

-- The queue holds 256 messages.
abbrev packed : Os
packed = kernel (full_pool 256) pool [] (queue (blocks 0 256) (pos 256) []) (pos 3)

packed-IsQueue : (ms : List Ptr) → length ms ≡ 256 → Distinct ms → IsQueue (queue ms (pos 256) [])
packed-IsQueue ms e d = record {
  counted = ap pos (sym e);
  bounded = omega arith;
  distinct = d;
  readers = inl refl;
  writers = inl refl;
  in_line = tt;
}

packed-Inv : Inv packed
packed-Inv =
    kernel-Inv (full_pool 256) pool [] (queue (blocks 0 256) (pos 256) []) (pos 3)
      (record { free = []; pool = full_pool-IsPool 256 (omega arith) }) pool-IsValid (inl refl)
      (packed-IsQueue (blocks 0 256) (length-blocks 0 256) (blocks-Distinct 0 256))
      (λ m at. let (ne, alive) = blocks-Live 0 256 (omega arith) m at in (ne, alive, omega arith))
      (λ w at. cc) (λ w v i j. cc)

write-Waits_example :
    Returns (Waits (λ mq. mq.waiting_to_write) packed (named packed) 13 []) (write packed)
write-Waits_example =
    write-Waits packed packed-Inv
      (found (full_pool 256) pool [] (queue (blocks 0 256) (pos 256) []) (pos 3) refl) pool-HasBlock
      13 [] refl (omega arith) (length-blocks 0 256)
