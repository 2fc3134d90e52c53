-- ===== src/Print/Queues.antt =====
-- What the print of a message reads.
use disastros_msg_queues.Base.{
  ℕ, zero, suc, ◌+◌, ◌<◌, ◌≤◌, ◌≡◌, ◌≢◌, refl, ap, subst, ◌==◌, false, arith, [], ◌∷◌, ok, fault,
  out_of_bounds, Ptr, null, is_null-ne, pos_part,
}
use disastros_msg_queues.Os.{Os}
use disastros_msg_queues.MessageQueue.{max_len_message}
use disastros_msg_queues.MessageQueue.Bytes.{bytes_from}
use disastros_msg_queues.MessageQueue.Contents.{payload}
use disastros_msg_queues.Print.{text, number, bytes}
use disastros_msg_queues.Print.Objects.{c_string, message}

not_zero : (n : ℕ) → n ≢ 0 → (n == 0) ≡ false
not_zero n ne = ground arith

-- Up to the first zero, in an array with room for one.
c_string-terminated :
    (n i left : ℕ) (from : ℕ → ℕ)
    → n < left
    → from (i + n) ≡ 0
    → ((j : ℕ) → i ≤ j → j < i + n → from j ≢ 0)
    → c_string left from i ≡ ok (bytes_from n i from)
unfolding c_string
c_string-terminated n i zero from room end other = absurd (omega arith)
c_string-terminated zero i (suc left) from room end other =
    let z : from i ≡ 0 = subst (λ k. from k ≡ 0) (omega arith) end in rw z refl
c_string-terminated (suc n) i (suc left) from room end other =
    let zero_not : (from i == 0) ≡ false =
      not_zero (from i) (other i (omega arith) (omega arith)) in
    rw zero_not (
      rw
        (c_string-terminated n (suc i) left from (omega arith)
          (subst (λ k. from k ≡ 0) (omega arith) end)
          (λ j lo hi. other j (omega arith) (omega arith)))
        refl)

c_string-open :
    (left i : ℕ) (from : ℕ → ℕ)
    → ((j : ℕ) → i ≤ j → j < i + left → from j ≢ 0)
    → c_string left from i ≡ fault out_of_bounds
unfolding c_string
c_string-open zero i from other = refl
c_string-open (suc left) i from other =
    let zero_not : (from i == 0) ≡ false =
      not_zero (from i) (other i (omega arith) (omega arith)) in
    rw zero_not
      (rw (c_string-open left (suc i) from (λ j lo hi. other j (omega arith) (omega arith))) refl)

module _ (os : Os) (m : Ptr) (exists : m ≢ null) where
  abbrev array : ℕ → ℕ
  array = (os.messages m).message

  -- A message whose array has its first zero byte right behind the message's bytes is printed with
  -- these bytes and its length.
  pub message-prints :
      (size : ℕ)
      → size ≡ pos_part (os.messages m).length
      → size < max_len_message
      → array size ≡ 0
      → ((j : ℕ) → j < size → array j ≢ 0)
      → message os m
        ≡ ok (
            text "MESSAGGIO: '"
            ∷ bytes (payload (os.messages m))
            ∷ text "' di lunghezza "
            ∷ number (os.messages m).length
            ∷ [])
  unfolding message
  message-prints size same room end other = rw (is_null-ne m _ _ exists) (
      rw
        (c_string-terminated size 0 max_len_message array room
          (subst (λ k. array k ≡ 0) (omega arith) end) (λ j lo hi. other j (omega arith)))
        (ap
          (λ n. ok (
            text "MESSAGGIO: '"
            ∷ bytes (bytes_from n 0 array)
            ∷ text "' di lunghezza "
            ∷ number (os.messages m).length
            ∷ []))
          same))

  -- A message of 64 bytes none of which is zero is printed with what lies behind its array.
  pub message_unterminated :
      ((j : ℕ) → j < max_len_message → array j ≢ 0) → message os m ≡ fault out_of_bounds
  unfolding message
  message_unterminated other =
      rw (is_null-ne m _ _ exists)
        (rw (c_string-open max_len_message 0 array (λ j lo hi. other j (omega arith))) refl)
