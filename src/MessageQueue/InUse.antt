-- ===== src/MessageQueue/InUse.antt =====
-- An open queue is neither opened for one process alone nor destroyed.
use disastros_msg_queues.Base.{
  ℕ, ◌≡◌, ◌≢◌, refl, sym, ◌∙◌, ap, ap₂, arith, ◌&&◌, false, not, if◌then◌else◌, List, [], ◌∷◌, ◌++◌,
  ℤ, eqb_ℤ, ok, Returns, returns, Ptr, null, is_null-ne, update_self, update_cases,
}
use disastros_msg_queues.PoolAllocator.Live.{HasBlock}
use disastros_msg_queues.Os.{Os, MessageQueue}
use disastros_msg_queues.Process.{arg, return_value}
use disastros_msg_queues.MessageQueue.{by_id, is_empty}
use disastros_msg_queues.MessageQueue.Open.{
  create_mode, excl_mode, excl_error, in_use_error, open_found, open_mq, destroy_mq,
}
use disastros_msg_queues.MessageQueue.Writes.{named}
use disastros_msg_queues.MessageQueue.Lookup.{by_id-mem}
use disastros_msg_queues.MessageQueue.Fifo.{next_call}
use disastros_msg_queues.MessageQueue.Described.{held}
use disastros_msg_queues.MessageQueue.Opens.{IsDescribed, result, describe-result, open-describes}

by_id-same :
    (a b : Os) (qs : List Ptr) (id : ℤ)
    → ((q : Ptr) → (a.mqs q).id ≡ (b.mqs q).id)
    → by_id a qs id ≡ by_id b qs id
unfolding by_id
by_id-same a b [] id same = refl
by_id-same a b (q ∷ qs) id same =
    ap₂ (λ n r. if eqb_ℤ n id then q else r) (same q) (by_id-same a b qs id same)

more_than_none : (xs : List Ptr) (x : Ptr) → is_empty (xs ++ x ∷ []) ≡ false
unfolding is_empty
more_than_none [] x = refl
more_than_none (y ∷ ys) x = refl

open_mq-excludes :
    (os : Os)
    → os.running ≢ null
    → named os ≢ null
    → arg os 1 ≡ excl_mode
    → is_empty (os.mqs (named os)).descriptors_ptrs ≡ false
    → open_mq os ≡ ok (return_value os excl_error)
unfolding open_mq open_found
open_mq-excludes os exists found mode used =
    rw (is_null-ne os.running _ _ exists)
      (rw mode (rw (is_null-ne (named os) _ _ found) (rw used refl)))

destroy_mq-refused :
    (os : Os)
    → os.running ≢ null
    → named os ≢ null
    → is_empty (os.mqs (named os)).descriptors_ptrs ≡ false
    → destroy_mq os ≡ ok (return_value os in_use_error)
unfolding destroy_mq
destroy_mq-refused os exists found used =
    rw (is_null-ne os.running _ _ exists) (rw (is_null-ne (named os) _ _ found) (rw used refl))

-- The process `p` runs, and makes a call with these arguments.
abbrev pub call_of : (p : Ptr) → Os → (args : ℕ → ℤ) → Os
call_of p os args = next_call (record os { running = p }) args

-- What is answered to whoever wants the queue for itself, or wants to destroy it.
pub record Refuses (os : Os) (p : Ptr) (args : ℕ → ℤ) : Type 0 where
  pub excludes : open_mq (call_of p os args) ≡ ok (return_value (call_of p os args) excl_error)
  pub keeps : destroy_mq (call_of p os args) ≡ ok (return_value (call_of p os args) in_use_error)

module _ (os : Os) (v : IsDescribed os) (found : named os ≢ null)
    (block : HasBlock os.descriptor_allocator) (item : HasBlock os.descriptor_ptr_allocator)
    (p : Ptr) (exists : p ≢ null) (args : ℕ → ℤ) (same : args 0 ≡ arg os 0)
    (mode : args 1 ≡ excl_mode) where
  abbrev afterwards : Os
  afterwards =
      call_of p (result os v (named os) (by_id-mem os os.mq_list (arg os 0) found) block item) args

  afterwards-args : (i : ℕ) → arg afterwards i ≡ args i
  afterwards-args i = ground arith

  afterwards-id : (q : Ptr) → (afterwards.mqs q).id ≡ (os.mqs q).id
  afterwards-id q =
      update_cases (λ mq. mq.id ≡ (os.mqs q).id) os.mqs (named os)
        (held (os.mqs (named os)) item.block) q (λ e. ap (λ r. (os.mqs r).id) e) (λ _. refl)

  afterwards-named : named afterwards ≡ named os
  afterwards-named =
      by_id-same afterwards os os.mq_list (arg afterwards 0) afterwards-id
      ∙ ap (by_id os os.mq_list) (afterwards-args 0 ∙ same)

  afterwards-used : is_empty (afterwards.mqs (named afterwards)).descriptors_ptrs ≡ false
  afterwards-used =
      ap (λ q. is_empty (afterwards.mqs q).descriptors_ptrs) afterwards-named
      ∙ ap (λ (mq : MessageQueue). is_empty mq.descriptors_ptrs)
          (update_self os.mqs (named os) (held (os.mqs (named os)) item.block))
      ∙ more_than_none (os.mqs (named os)).descriptors_ptrs item.block

  afterwards-Refuses :
      Refuses (result os v (named os) (by_id-mem os os.mq_list (arg os 0) found) block item) p args
  afterwards-Refuses = record {
    excludes =
        open_mq-excludes afterwards exists (λ e. found (sym afterwards-named ∙ e))
          (afterwards-args 1 ∙ mode) afterwards-used;
    keeps =
        destroy_mq-refused afterwards exists (λ e. found (sym afterwards-named ∙ e))
          afterwards-used;
  }

-- With a descriptor and an item left, a process opens a queue that is there, not to create one, and
-- not in exclusive mode unless nobody has it open. If then any process runs and opens the number in
-- exclusive mode, it gets DSOS_ERESOURCENOEXCL, if it destroys the number, it gets
-- DSOS_ERESOURCEINUSE, and nothing but its result changes.
pub open-Refuses :
    (os : Os)
    → IsDescribed os
    → named os ≢ null
    → eqb_ℤ (arg os 1) create_mode ≡ false
    → eqb_ℤ (arg os 1) excl_mode && not (is_empty (os.mqs (named os)).descriptors_ptrs) ≡ false
    → HasBlock os.descriptor_allocator
    → HasBlock os.descriptor_ptr_allocator
    → (p : Ptr) → p ≢ null
    → (args : ℕ → ℤ) → args 0 ≡ arg os 0
    → args 1 ≡ excl_mode
    → Returns (λ s. Refuses s p args) (open_mq os)
open-Refuses os v found mode allowed block item p exists args same excl =
    let at = by_id-mem os os.mq_list (arg os 0) found in
    rw (open-describes os v found mode allowed ∙ describe-result os v (named os) at block item)
      (returns (afterwards-Refuses os v found block item p exists args same excl))
