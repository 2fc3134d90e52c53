-- ===== src/System/Trap.antt =====
-- Which calls the trap refuses.
use disastros_msg_queues.Base.{
  ℕ, zero, suc, ◌⊎◌, inl, inr, none, some, ◌<◌, ◌≤◌, true, ◌≡◌, ◌≢◌, refl, ◌∙◌, arith, get_elem?, ℤ,
  pos, negsuc, ok, fault, out_of_bounds, ◌>>=◌, null, is_null-ne, subst, ◌-◌, ◌+◌,
}
use disastros_msg_queues.Os.{Os}
use disastros_msg_queues.Process.{return_value}
use disastros_msg_queues.System.{
  unset, syscall_vector, out_of_range_error, not_implemented_error, is_out_of_range, entry_at,
  run_handler, trap,
}

-- The number of the call that the running process makes.
abbrev pub number : Os → ℤ
number os = (os.pcbs os.running).syscall_num

pub trap-entry :
    (os : Os) (n : ℕ)
    → os.running ≢ null
    → number os ≡ pos n
    → n ≤ 32
    → trap os ≡ (entry_at syscall_vector n >>= run_handler os)
unfolding trap
trap-entry os n exists e small = rw (is_null-ne os.running _ _ exists) (rw e (ground arith))

unset_at : (m k : ℕ) → k < m → get_elem? (unset m) k ≡ some none
unset_at zero k h = absurd (omega arith)
unset_at (suc m) zero h = refl
unset_at (suc m) (suc k) h = unset_at m k (omega arith)

no_handler : (k : ℕ) → k < 16 → get_elem? syscall_vector (16 + k) ≡ some none
unfolding syscall_vector
no_handler k small =
    subst (λ n. get_elem? syscall_vector n ≡ some none)
      {x = suc
        (suc (suc (suc (suc (suc (suc (suc (suc (suc (suc (suc (suc (suc (suc (suc k)))))))))))))))}
      {y = 16 + k} (omega arith) (unset_at 16 k small)

entry_at-some :
    (n : ℕ) → get_elem? syscall_vector n ≡ some none → entry_at syscall_vector n ≡ ok none
unfolding entry_at syscall_vector
entry_at-some n h = rw h refl

trap-range :
    (os : Os)
    → os.running ≢ null
    → is_out_of_range (number os) ≡ true
    → trap os ≡ ok (return_value os out_of_range_error)
unfolding trap
trap-range os exists out = rw (is_null-ne os.running _ _ exists) (rw out refl)

trap-none :
    (os : Os) (n : ℕ)
    → os.running ≢ null
    → number os ≡ pos n
    → n ≤ 32
    → get_elem? syscall_vector n ≡ some none
    → trap os ≡ ok (return_value os not_implemented_error)
unfolding run_handler
trap-none os n exists e small h = trap-entry os n exists e small ∙ rw (entry_at-some n h) refl

zero_unset : get_elem? syscall_vector 0 ≡ some none
unfolding syscall_vector
zero_unset = refl

no_handler_at : (n : ℕ) → (n ≡ 0) ⊎ ((16 ≤ n) × (n < 32)) → get_elem? syscall_vector n ≡ some none
no_handler_at n (inl e) = rw e zero_unset
no_handler_at n (inr (lo, hi)) =
    subst (λ k. get_elem? syscall_vector k ≡ some none) (omega arith)
      (no_handler (n - 16) (omega arith))

-- A negative number and one above 32 are answered with -3, the numbers 0 and 16 to 31, which have no
-- handler, with -2, and 32 is behind the end of the table.
pub trap_refused :
    (os : Os)
    → os.running ≢ null
    → ((n : ℕ) → number os ≡ negsuc n → trap os ≡ ok (return_value os out_of_range_error))
      × ((n : ℕ) → number os ≡ pos n → 32 < n → trap os ≡ ok (return_value os out_of_range_error))
      × ((n : ℕ)
          → number os ≡ pos n
          → (n ≡ 0) ⊎ ((16 ≤ n) × (n < 32))
          → trap os ≡ ok (return_value os not_implemented_error))
      × (number os ≡ pos 32 → trap os ≡ fault out_of_bounds)
unfolding entry_at syscall_vector
trap_refused os exists = (
  λ n e. trap-range os exists (rw e (ground arith)),
  λ n e big. trap-range os exists (rw e (ground arith)),
  λ n e gap. trap-none os n exists e (omega arith) (no_handler_at n gap),
  λ e. trap-entry os 32 exists e (omega arith),
)
