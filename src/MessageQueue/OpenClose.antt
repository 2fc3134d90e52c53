-- ===== src/MessageQueue/OpenClose.antt =====
-- Closing what was just opened, and closing a descriptor of another kind.
use disastros_msg_queues.Base.{
  ℕ, suc, ◌<◌, ◌≡◌, ◌≢◌, refl, sym, ◌∙◌, ap, ap₂, subst, arith, ◌&&◌, false, not, List, [], ◌∷◌,
  ◌++◌, ◌∈◌, ◌∉◌, has-append, erase, ℤ, pos, eqb_ℤ, ok, fault, null_dereference, Returns, returns,
  ◌>>=◌, Ptr, null, is_null-ne, update_self, update_ne, update_cases,
}
use disastros_msg_queues.PoolAllocator.{success}
use disastros_msg_queues.PoolAllocator.Live.{HasBlock}
use disastros_msg_queues.PoolAllocator.Roundtrip.{HasBlock-returned}
use disastros_msg_queues.Os.{Os, Pcb, MessageQueue, Descriptor}
use disastros_msg_queues.Process.{arg}
use disastros_msg_queues.Descriptor.{by_fd}
use disastros_msg_queues.MessageQueue.{is_empty}
use disastros_msg_queues.MessageQueue.Open.{create_mode, excl_mode, close_found, close_mq, open_mq}
use disastros_msg_queues.MessageQueue.Writes.{named}
use disastros_msg_queues.MessageQueue.Lookup.{by_id-mem}
use disastros_msg_queues.MessageQueue.Wake.{detach-mem}
use disastros_msg_queues.MessageQueue.Fifo.{next_call}
use disastros_msg_queues.MessageQueue.Described.{next_number, descriptor_of, held}
use disastros_msg_queues.MessageQueue.Opens.{
  fd_old, fd_new, IsDescribed, result, new_descriptor, new_item, describe-result, open-describes,
}
use disastros_msg_queues.MessageQueue.Closes.{left_alone, let_go, closed, close_found-ok}

by_fd-last :
    (os : Os) (ds : List Ptr) (des : Ptr) (n : ℕ)
    → ((d : Ptr) → d ∈ ds → (os.descriptors d).fd < n)
    → (os.descriptors des).fd ≡ n
    → by_fd os (ds ++ des ∷ []) (pos n) ≡ des
unfolding by_fd
by_fd-last os [] des n small e = ground (arith, e)
by_fd-last os (d ∷ ds) des n small e =
    ground (arith, small d, by_fd-last os ds des n (λ x at. small x (ground arith)) e)

erase-last : (x : Ptr) (xs : List Ptr) → x ∉ xs → erase x (xs ++ x ∷ []) ≡ xs
erase-last x [] out = ground arith
erase-last x (y ∷ ys) out = ground (arith, erase-last x ys)

by_fd-mem : (os : Os) (ds : List Ptr) (fd : ℤ) → by_fd os ds fd ≢ null → by_fd os ds fd ∈ ds
unfolding by_fd
by_fd-mem os [] fd ne = absurd (ne refl)
by_fd-mem os (d ∷ ds) fd ne = ground (arith, by_fd-mem os ds fd)

last_in : (x : Ptr) (xs : List Ptr) → x ∈ xs ++ x ∷ []
last_in x xs = ground (arith, has-append x xs (x ∷ []))

-- The descriptor that a call to close names.
abbrev pub target : Os → Ptr
target os = by_fd os (os.pcbs os.running).descriptors (arg os 0)

-- A process that closes as a queue what is the descriptor of a resource, and so of no queue, makes
-- the handler read through null.
pub close_mq-resource :
    (os : Os)
    → os.running ≢ null
    → target os ≢ null
    → (os.descriptors (target os)).mq ≡ null
    → close_mq os ≡ fault null_dereference
unfolding close_mq close_found
close_mq-resource os exists found none = rw (is_null-ne os.running _ _ exists) (
    rw (is_null-ne (target os) _ _ found) (
      rw
        (detach-mem (os.pcbs os.running).descriptors (target os) found
          (by_fd-mem os (os.pcbs os.running).descriptors (arg os 0) found))
        (rw none refl)))

close-found :
    (os : Os) → os.running ≢ null → target os ≢ null → close_mq os ≡ close_found os (target os)
unfolding close_mq
close-found os exists found =
    rw (is_null-ne os.running _ _ exists) (rw (is_null-ne (target os) _ _ found) refl)

-- What is left of a descriptor that is closed at once.
pub record Restored (os os' : Os) : Type 0 where
  pub pool : os'.descriptor_allocator ≡ os.descriptor_allocator
  pub ptr_pool : os'.descriptor_ptr_allocator ≡ os.descriptor_ptr_allocator
  pub descriptors : (os'.pcbs os.running).descriptors ≡ (os.pcbs os.running).descriptors
  pub queues : (r : Ptr) → os'.mqs r ≡ os.mqs r
  pub returned : (os'.pcbs os.running).syscall_retvalue ≡ pos 0
  pub next : next_number os' ≡ suc (next_number os)

module _ (os : Os) (v : IsDescribed os) (q : Ptr) (at : q ∈ os.mq_list)
    (block : HasBlock os.descriptor_allocator) (item : HasBlock os.descriptor_ptr_allocator)
    (args : ℕ → ℤ) (same : args 0 ≡ pos (next_number os)) where
  abbrev opened : Os
  opened = next_call (result os v q at block item) args

  now : (opened.pcbs os.running).descriptors ≡ (os.pcbs os.running).descriptors ++ block.block ∷ []
  now = ground arith

  is : opened.descriptors block.block ≡ descriptor_of os q item.block
  is = update_self os.descriptors block.block (descriptor_of os q item.block)

  called :
      opened.pcbs os.running
      ≡ record ((result os v q at block item).pcbs os.running) { syscall_args = args }
  called = update_self (result os v q at block item).pcbs os.running _

  finds : target opened ≡ block.block
  finds =
      ap₂ (by_fd opened) now (ap (λ (pcb : Pcb). pcb.syscall_args 0) called ∙ same)
      ∙ by_fd-last opened (os.pcbs os.running).descriptors block.block (next_number os)
          (λ d i.
            let e = fd_old os v q at block item d i in
            let lt = v.numbers d i in omega (arith, e, lt))
          (fd_new os v q at block item)

  close-result :
      close_mq opened
      ≡ ok (
          closed opened q block.block os.descriptor_allocator item.block
            os.descriptor_ptr_allocator)
  close-result =
      let exists : q ≢ null = (v.mqs_live q at).0 in
      close-found opened v.exists (λ e. block.exists (sym finds ∙ e))
      ∙ ap (close_found opened) finds
      ∙ close_found-ok opened q block.block os.descriptor_allocator item.block
          os.descriptor_ptr_allocator success success block.exists
          (subst (λ ds. block.block ∈ ds) (sym now)
            (last_in block.block (os.pcbs os.running).descriptors))
          (ap (λ (d : Descriptor). d.mq) is) exists (ap (λ (d : Descriptor). d.ptr) is) item.exists
          (subst (λ (mq : MessageQueue). item.block ∈ mq.descriptors_ptrs)
            (sym (update_self os.mqs q (held (os.mqs q) item.block)))
            (last_in item.block (os.mqs q).descriptors_ptrs))
          (HasBlock-returned os.descriptor_allocator v.pool block)
          (HasBlock-returned os.descriptor_ptr_allocator v.ptr_pool item)

  closed-Restored :
      Restored os
        (closed opened q block.block os.descriptor_allocator item.block os.descriptor_ptr_allocator)
  closed-Restored = record {
    pool = refl;
    ptr_pool = refl;
    descriptors =
        ap (λ (pcb : Pcb). pcb.descriptors)
          (update_self opened.pcbs os.running (left_alone opened block.block))
        ∙ ap (erase block.block) now
        ∙ erase-last block.block (os.pcbs os.running).descriptors
            (new_descriptor os v q at block item);
    queues = λ r.
        update_cases (λ mq. mq ≡ os.mqs r) opened.mqs q (let_go (opened.mqs q) item.block) r
          (λ e.
            ap (λ mq. let_go mq item.block) (update_self os.mqs q (held (os.mqs q) item.block))
            ∙ ap (λ l. record (os.mqs q) { descriptors_ptrs = l })
                (erase-last item.block (os.mqs q).descriptors_ptrs (new_item os v q at block item))
            ∙ ap os.mqs e)
          (λ ne. update_ne os.mqs q r (held (os.mqs q) item.block) ne);
    returned = ground arith;
    next = ground arith;
  }

-- With a descriptor and an item left, a process opens a queue that is there, not to create one, and
-- not in exclusive mode unless nobody has it open, and closes the number that it got: no access
-- fails, both pools, its list of descriptors and all queues are what they were, the result is 0, and
-- only the next number has moved on.
pub open-close :
    (os : Os)
    → IsDescribed os
    → named os ≢ null
    → eqb_ℤ (arg os 1) create_mode ≡ false
    → eqb_ℤ (arg os 1) excl_mode && not (is_empty (os.mqs (named os)).descriptors_ptrs) ≡ false
    → HasBlock os.descriptor_allocator
    → HasBlock os.descriptor_ptr_allocator
    → (args : ℕ → ℤ) → args 0 ≡ pos (next_number os)
    → Returns (Restored os) (open_mq os >>= λ s. close_mq (next_call s args))
open-close os v found mode allowed block item args same =
    let q = named os in
    let at = by_id-mem os os.mq_list (arg os 0) found in
    rw (open-describes os v found mode allowed ∙ describe-result os v q at block item) (
      rw (close-result os v q at block item args same)
        (returns (closed-Restored os v q at block item args same)))
