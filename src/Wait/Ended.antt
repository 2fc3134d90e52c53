-- ===== src/Wait/Ended.antt =====
-- A child that has ended, and the scan that finds it.
use disastros_msg_queues.Base.{
  ◌≡◌, ◌≢◌, refl, ◌∙◌, ap, arith, Bool, ◌&&◌, not, true, false, if◌then◌else◌, List, [], ◌∷◌, ◌++◌,
  ◌∈◌, Distinct, ℤ, pos, pos_part, eqb_ℤ, ltb_ℤ, Run, ok, ◌>>=◌, Ptr, null, is_null, is_null-ne,
}
use disastros_msg_queues.PoolAllocator.Live.{IsValid, Live}
use disastros_msg_queues.Os.{Os}
use disastros_msg_queues.Process.{arg, return_value}
use disastros_msg_queues.Wait.{wait_error, is_zombie, awaited, reap, wait_on, wait_for, wait}

-- A wait for 0 is for any child that has ended, and any other for the child with the pid.
abbrev pub is_meant : Os → (pid_to_wait : ℤ) (c : Ptr) → Bool
is_meant os pid_to_wait c =
    if eqb_ℤ pid_to_wait (pos 0)
    then is_zombie (os.pcbs (os.pcb_ptrs c)).status
    else eqb_ℤ (pos (os.pcbs (os.pcb_ptrs c)).pid) pid_to_wait

-- The first child that is meant has ended: its item is `c`, with `xs` before and `ys` behind it.
pub record HasEnded (os : Os) (xs : List Ptr) (c : Ptr) (ys : List Ptr) : Type 0 where
  pub exists : os.running ≢ null
  pub children : (os.pcbs os.running).children ≡ xs ++ c ∷ ys
  pub earlier : (x : Ptr) → x ∈ xs → (os.pcb_ptrs x ≢ null) × (is_meant os (arg os 0) x ≡ false)
  pub meant : is_meant os (arg os 0) c ≡ true
  pub item : c ≢ null
  pub item_pool : IsValid os.pcb_ptr_allocator
  pub item_live : Live os.pcb_ptr_allocator c
  pub child : os.pcb_ptrs c ≢ null
  pub ended : is_zombie (os.pcbs (os.pcb_ptrs c)).status ≡ true
  pub zombie : os.pcb_ptrs c ∈ os.zombie_list
  pub distinct : Distinct os.zombie_list
  pub pool : IsValid os.pcb_allocator
  pub live : Live os.pcb_allocator (os.pcb_ptrs c)

stops_here :
    (any ended named : Bool) (x y : Run Ptr)
    → (if any then ended else named) ≡ true
    → (if any then if ended then x else y else if named then x else y) ≡ x
stops_here true true named x y e = refl
stops_here true false named x y e = cc
stops_here false ended true x y e = refl
stops_here false ended false x y e = cc

goes_on :
    (any ended named : Bool) (x y : Run Ptr)
    → (if any then ended else named) ≡ false
    → (if any then if ended then x else y else if named then x else y) ≡ y
goes_on true true named x y e = cc
goes_on true false named x y e = refl
goes_on false ended true x y e = cc
goes_on false ended false x y e = refl

awaited-finds :
    (os : Os) (pid_to_wait : ℤ) (last : Ptr) (xs : List Ptr) (c : Ptr) (ys : List Ptr)
    → ((x : Ptr) → x ∈ xs → (os.pcb_ptrs x ≢ null) × (is_meant os pid_to_wait x ≡ false))
    → is_meant os pid_to_wait c ≡ true
    → os.pcb_ptrs c ≢ null
    → awaited os pid_to_wait last (xs ++ c ∷ ys) ≡ ok c
unfolding awaited
awaited-finds os n last [] c ys earlier meant child =
    rw (is_null-ne (os.pcb_ptrs c) _ _ child) (stops_here (eqb_ℤ n (pos 0)) _ _ _ _ meant)
awaited-finds os n last (x ∷ xs) c ys earlier meant child =
    let (ne, other) = earlier x (ground arith) in
    let rest = awaited-finds os n x xs c ys (λ y at. earlier y (ground arith)) meant child in
    rw (is_null-ne (os.pcb_ptrs x) _ _ ne) (goes_on (eqb_ℤ n (pos 0)) _ _ _ _ other ∙ rest)

-- What follows the scan for a child that has ended.
found-reaps :
    (os : Os) (pid_to_wait : ℤ) (result c : Ptr) {r : Run Ptr}
    → r ≡ ok c
    → os.pcb_ptrs c ≢ null
    → is_zombie (os.pcbs (os.pcb_ptrs c)).status ≡ true
    → (do
      c ← r
      if ltb_ℤ (pos 0) pid_to_wait && is_null (os.pcb_ptrs c)
          then ok (return_value os wait_error)
          else if not (is_null (os.pcb_ptrs c)) && is_zombie (os.pcbs (os.pcb_ptrs c)).status
          then reap os c result
          else wait_on os)
      ≡ reap os c result
found-reaps os n result c found child ended = rw found (
    chosen (ltb_ℤ (pos 0) n) (is_null (os.pcb_ptrs c)) _ _ _ _
      (is_null-ne (os.pcb_ptrs c) true false child) ended)
  where
    chosen :
        (positive none zombie : Bool) (x y z : Run Os)
        → (if none then true else false) ≡ false
        → zombie ≡ true
        → (if positive && none then x else if not none && zombie then y else z) ≡ y
    chosen true true zombie x y z e e' = cc
    chosen true false zombie x y z e e' = rw e' refl
    chosen false true zombie x y z e e' = cc
    chosen false false zombie x y z e e' = rw e' refl

wait_for-reaps :
    (os : Os) (n : ℤ) (result : Ptr) (xs : List Ptr) (c : Ptr) (ys : List Ptr)
    → awaited os n null (xs ++ c ∷ ys) ≡ ok c
    → os.pcb_ptrs c ≢ null
    → is_zombie (os.pcbs (os.pcb_ptrs c)).status ≡ true
    → wait_for os n result (xs ++ c ∷ ys) ≡ reap os c result
unfolding wait_for
wait_for-reaps os n result [] c ys found child ended = found-reaps os n result c found child ended
wait_for-reaps os n result (x ∷ xs) c ys found child ended =
    found-reaps os n result c found child ended

pub wait-reaps :
    (os : Os) (xs : List Ptr) (c : Ptr) (ys : List Ptr)
    → HasEnded os xs c ys
    → wait os ≡ reap os c (pos_part (arg os 1))
unfolding wait
wait-reaps os xs c ys h = rw (is_null-ne os.running _ _ h.exists) (
    ap (wait_for os (arg os 0) (pos_part (arg os 1))) h.children
    ∙ wait_for-reaps os (arg os 0) (pos_part (arg os 1)) xs c ys
        (awaited-finds os (arg os 0) null xs c ys h.earlier h.meant h.child) h.child h.ended)
