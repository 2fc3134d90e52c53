-- ===== src/MessageQueue/Bytes.antt =====
-- The bytes of a message, as a list, and what a copy does to them.
use disastros_msg_queues.Base.{length}
use disastros_msg_queues.Base.{
  ℕ, zero, suc, ◌+◌, ◌<◌, ◌≤◌, ◌≡◌, ◌⊎◌, inl, inr, refl, ◌∙◌, ap, ap₂, List, [], ◌∷◌, ◌==◌,
  Bool-cases, arith, Ptr, update,
}
use disastros_msg_queues.MessageQueue.{copy}

-- f i, f (i + 1), …: `n` of them
abbrev pub bytes_from : ℕ → ℕ → (ℕ → ℕ) → List ℕ
bytes_from zero i f = []
bytes_from (suc n) i f = f i ∷ bytes_from n (suc i) f

pub bytes_from-cong :
    (n i : ℕ) (f g : ℕ → ℕ)
    → ((j : ℕ) → i ≤ j → j < i + n → f j ≡ g j)
    → bytes_from n i f ≡ bytes_from n i g
bytes_from-cong zero i f g h = refl
bytes_from-cong (suc n) i f g h =
    ap₂ (λ (x : ℕ) (xs : List ℕ). x ∷ xs) (h i (omega arith) (omega arith))
      (bytes_from-cong n (suc i) f g (λ j lo hi. h j (omega arith) (omega arith)))

-- A copy leaves what lies before or behind its target.
pub copy-outside :
    (n i : ℕ) (from : ℕ → ℕ) (base : Ptr) (to : Ptr → ℕ) (q : Ptr)
    → (q < base + i) ⊎ (base + i + n ≤ q)
    → copy n i from base to q ≡ to q
unfolding copy
copy-outside zero i from base to q h = refl
copy-outside (suc n) i from base to q h =
    copy-outside n (suc i) from base (update to (base + i) (from i)) q (omega arith) ∙ ground arith

pub copy-inside :
    (n i : ℕ) (from : ℕ → ℕ) (base : Ptr) (to : Ptr → ℕ) (j : ℕ)
    → i ≤ j
    → j < i + n
    → copy n i from base to (base + j) ≡ from j
unfolding copy
copy-inside zero i from base to j lo hi = absurd (omega arith)
copy-inside (suc n) i from base to j lo hi = elim (Bool-cases (i == j)) [
  | inl here ↦
      copy-outside n (suc i) from base (update to (base + i) (from i)) (base + j) (ground arith)
      ∙ ground arith
  | inr there ↦
      copy-inside n (suc i) from base (update to (base + i) (from i)) j (ground arith) (omega arith)
]

-- The target of a copy holds the bytes of its source.
pub bytes_from-copy :
    (n : ℕ) (from : ℕ → ℕ) (base : Ptr) (to : Ptr → ℕ)
    → bytes_from n 0 (λ i. copy n 0 from base to (base + i)) ≡ bytes_from n 0 from
bytes_from-copy n from base to =
    bytes_from-cong n 0 _ from (λ j lo hi. copy-inside n 0 from base to j lo (omega arith))

pub bytes_from-copy_front :
    (n : ℕ) (from to : ℕ → ℕ) → bytes_from n 0 (copy n 0 from 0 to) ≡ bytes_from n 0 from
bytes_from-copy_front n from to =
    bytes_from-cong n 0 (copy n 0 from 0 to) (λ i. copy n 0 from 0 to (0 + i))
      (λ j lo hi. ap (copy n 0 from 0 to) (omega arith))
    ∙ bytes_from-copy n from 0 to

pub length-bytes_from : (n i : ℕ) (f : ℕ → ℕ) → length (bytes_from n i f) ≡ n
length-bytes_from zero i f = refl
length-bytes_from (suc n) i f = omega (arith, length-bytes_from n (suc i) f)
