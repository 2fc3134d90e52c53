-- ===== src/MessageQueue/Contents.antt =====
-- The abstract view of a queue: the byte strings that it holds, oldest first.
use disastros_msg_queues.Base.{
  ℕ, ◌+◌, ◌≡◌, ap, ap₂, refl, arith, List, [], ◌∷◌, map, ◌∉◌, pos_part, Ptr, update, update_ne,
}
use disastros_msg_queues.Os.{Os, Message}
use disastros_msg_queues.MessageQueue.Bytes.{bytes_from}

-- The first `length` bytes of the array.
abbrev pub payload : Message → List ℕ
payload m = bytes_from (pos_part m.length) 0 m.message

abbrev pub contents : Os → Ptr → List (List ℕ)
contents os q = map (λ m. payload (os.messages m)) (os.mqs q).messages

-- The bytes of a process's memory from an address on.
abbrev pub bytes_at : Os → (buffer : Ptr) → ℕ → List ℕ
bytes_at os buffer n = bytes_from n 0 (λ i. os.bytes (buffer + i))

-- A write to an object that is not in the list leaves the view of the list.
pub map-update {ℓ ℓ'} :
    {A : Type ℓ} {B : Type ℓ'} (f : B → A) (mem : Ptr → B) (m : Ptr) (v : B) (ms : List Ptr)
    → m ∉ ms
    → map (λ x. f (update mem m v x)) ms ≡ map (λ x. f (mem x)) ms
map-update f mem m v [] out = refl
map-update f mem m v (x ∷ ms) out =
    ap₂ (λ y ys. y ∷ ys) (ap f (update_ne mem m x v (ground arith)))
      (map-update f mem m v ms (ground arith))
