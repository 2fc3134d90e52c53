-- ===== src/Wait/Awaited.antt =====
-- A wait for a process that is not a child.
use disastros_msg_queues.Base.{
  ℕ, suc, ◌≡◌, ◌≢◌, refl, ◌∙◌, ap, arith, ◌&&◌, not, true, false, if◌then◌else◌, List, [], ◌∷◌, ◌∈◌,
  pos, pos_part, eqb_ℤ, ltb_ℤ, Run, ok, ◌>>=◌, Ptr, null, is_null, is_null-ne,
}
use disastros_msg_queues.LinkedList.Segment.{last_or, last_or-mem}
use disastros_msg_queues.Os.{Os}
use disastros_msg_queues.Process.{arg, return_value}
use disastros_msg_queues.Wait.{wait_error, is_zombie, awaited, reap, wait_on, wait_for, wait}

-- The item points to a process with another pid.
abbrev pub IsOther : Os → ℕ → Ptr → Type 0
IsOther os pid c = (os.pcb_ptrs c ≢ null) × ((os.pcbs (os.pcb_ptrs c)).pid ≢ pid)

awaited-last :
    (os : Os) (k : ℕ) (last : Ptr) (cs : List Ptr)
    → ((c : Ptr) → c ∈ cs → IsOther os (suc k) c)
    → awaited os (pos (suc k)) last cs ≡ ok (last_or last cs)
unfolding awaited
awaited-last os k last [] other = refl
awaited-last os k last (c ∷ cs) other =
    let (ne, pid) = other c (ground arith) in
    let miss : eqb_ℤ (pos (os.pcbs (os.pcb_ptrs c)).pid) (pos (suc k)) ≡ false = ground arith in
    let one_pid : eqb_ℤ (pos (suc k)) (pos 0) ≡ false = ground arith in
    rw (is_null-ne (os.pcb_ptrs c) _ _ ne)
      (rw one_pid (rw miss (awaited-last os k c cs (λ d at. other d (ground arith)))))

-- What follows the scan.
abbrev chosen : Os → ℕ → (result : Ptr) → (c : Ptr) → Run Os
chosen os k result c =
    let p = os.pcb_ptrs c in
    if ltb_ℤ (pos 0) (pos (suc k)) && is_null p
    then ok (return_value os wait_error)
    else if not (is_null p) && is_zombie (os.pcbs p).status
    then reap os c result
    else wait_on os

chosen-exists :
    (os : Os) (k : ℕ) (result c : Ptr)
    → os.pcb_ptrs c ≢ null
    → chosen os k result c
      ≡ (if is_zombie (os.pcbs (os.pcb_ptrs c)).status then reap os c result else wait_on os)
chosen-exists os k result c ne =
    let exists : is_null (os.pcb_ptrs c) ≡ false = ground arith in
    let positive : ltb_ℤ (pos 0) (pos (suc k)) ≡ true = ground arith in rw positive (rw exists refl)

-- A process with children waits for a pid above 0 that none of them has: it gets no error, but the
-- last child if that is a zombie, whose value and blocks it takes, and waits otherwise.
pub wait_stranger :
    (os : Os) (k : ℕ) (c : Ptr) (cs : List Ptr)
    → os.running ≢ null
    → (os.pcbs os.running).children ≡ c ∷ cs
    → arg os 0 ≡ pos (suc k)
    → ((d : Ptr) → d ∈ c ∷ cs → IsOther os (suc k) d)
    → wait os ≡ (
        if is_zombie (os.pcbs (os.pcb_ptrs (last_or c cs))).status
        then reap os (last_or c cs) (pos_part (arg os 1))
        else wait_on os)
unfolding wait wait_for
wait_stranger os k c cs exists children pid other =
    let (ne, _) = other (last_or c cs) (last_or-mem c cs) in
    rw (is_null-ne os.running _ _ exists) (
      ap (wait_for os (arg os 0) (pos_part (arg os 1))) children
      ∙ ap (λ n. wait_for os n (pos_part (arg os 1)) (c ∷ cs)) pid
      ∙ ap (λ r. r >>= chosen os k (pos_part (arg os 1))) (awaited-last os k null (c ∷ cs) other)
      ∙ chosen-exists os k (pos_part (arg os 1)) (last_or c cs) ne)
