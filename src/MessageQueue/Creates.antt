-- ===== src/MessageQueue/Creates.antt =====
-- A process creates a queue.
use disastros_msg_queues.Os.{Descriptor, Pcb}
use disastros_msg_queues.Base.{
  ◌≡◌, ◌≢◌, ◌⊎◌, inl, inr, refl, sym, ◌∙◌, ap, subst, arith, ◌==◌, Bool-cases, true, List, [], ◌∷◌,
  ◌++◌, has, ◌∈◌, ◌∉◌, has-append, ℤ, pos, eqb_ℤ, eqb_ℤ_iff, Returns, returns, Ptr, null,
  is_null-ne, update, update_self, update_ne, update_cases, mem-ne,
}
use disastros_msg_queues.PoolAllocator.{PoolAllocator}
use disastros_msg_queues.PoolAllocator.Live.{Live, Fresh, HasBlock, HasBlock-Fresh}
use disastros_msg_queues.Os.{Os, MessageQueue}
use disastros_msg_queues.Process.{arg}
use disastros_msg_queues.MessageQueue
use disastros_msg_queues.MessageQueue.{by_id, is_empty}
use disastros_msg_queues.MessageQueue.Open.{create_mode, describe, open_found, create, open_mq}
use disastros_msg_queues.MessageQueue.Wake.{insert_last-new}
use disastros_msg_queues.MessageQueue.Writes.{named}
use disastros_msg_queues.MessageQueue.Lookup.{by_id-null}
use disastros_msg_queues.MessageQueue.Described.{held, holder, descriptor_of}
use disastros_msg_queues.MessageQueue.Opens.{IsDescribed, result, describe-result, result-Describes}

-- The state with the new queue `q` at the end of the list.
abbrev pub grown : Os → (id : ℤ) (q : Ptr) (a : PoolAllocator) → Os
grown os id q a = record os {
  mq_allocator = a;
  mqs = update os.mqs q (MessageQueue.fresh id);
  mq_list = os.mq_list ++ q ∷ [];
}

pub listed : (xs : List Ptr) (q r : Ptr) → r ∈ xs ++ q ∷ [] → ((r ∈ xs) × (q ≢ r)) ⊎ (q ≡ r)
listed xs q r at = elim (Bool-cases (q == r)) [
  | inl e ↦ inr (ground arith)
  | inr e ↦ inl (ground (arith, has-append r xs (q ∷ [])), ground arith)
]

by_id-last :
    (os : Os) (qs : List Ptr) (q : Ptr) (id : ℤ)
    → ((r : Ptr) → r ∈ qs → (os.mqs r).id ≢ id)
    → (os.mqs q).id ≡ id
    → by_id os (qs ++ q ∷ []) id ≡ q
unfolding by_id
by_id-last os [] q id other e = ground (arith, e, eqb_ℤ_iff (os.mqs q).id id)
by_id-last os (r ∷ qs) q id other e = ground (
  arith,
  other r,
  eqb_ℤ_iff (os.mqs r).id id,
  by_id-last os qs q id (λ x at. other x (ground arith)) e,
)

-- A queue that nobody has the number of, with one descriptor, is the last one of the list.
pub record Creates (os : Os) (os' : Os) : Type 0 where
  pub valid : IsDescribed os'
  pub queue : Ptr
  pub item : Ptr
  pub new : queue ∉ os.mq_list
  pub listed : os'.mq_list ≡ os.mq_list ++ queue ∷ []
  pub is : os'.mqs queue ≡ held (MessageQueue.fresh (arg os 0)) item
  pub found : by_id os' os'.mq_list (arg os 0) ≡ queue
  pub others : (r : Ptr) → r ∈ os.mq_list → os'.mqs r ≡ os.mqs r
  pub descriptor : Ptr
  pub last : (os'.pcbs os.running).descriptors ≡ (os.pcbs os.running).descriptors ++ descriptor ∷ []
  pub points : os'.descriptor_ptrs item ≡ descriptor
  pub of_queue : (os'.descriptors descriptor).mq ≡ queue
  pub number : (os'.pcbs os.running).syscall_retvalue ≡ pos (os'.descriptors descriptor).fd

module _ (os : Os) (v : IsDescribed os) (id : ℤ) (q : Ptr) (a : PoolAllocator)
    (f : Fresh os.mq_allocator q a) where
  pub unlisted : q ∉ os.mq_list
  unlisted = elim (Bool-cases (has q os.mq_list)) [
    | inl at ↦ absurd (f.new (v.mqs_live q at).1)
    | inr out ↦ out
  ]

  grown-IsDescribed : IsDescribed (grown os id q a)
  grown-IsDescribed = record {
    exists = v.exists;
    mq_pool = f.valid;
    mqs_live = λ r at. elim (listed os.mq_list q r at) [
      | inl (at', _) ↦ ((v.mqs_live r at').0, f.keeps r (v.mqs_live r at').1)
      | inr e ↦ subst (λ s. (s ≢ null) × Live a s) e (f.not_null, f.now)
    ];
    pool = v.pool;
    live = v.live;
    numbers = v.numbers;
    ptr_pool = v.ptr_pool;
    ptrs_live = λ r p at i.
        update_cases (λ mq. p ∈ mq.descriptors_ptrs → Live os.descriptor_ptr_allocator p) os.mqs q
          (MessageQueue.fresh id) r (λ _ j. cc)
          (λ ne j. elim (listed os.mq_list q r at) [
            | inl (at', _) ↦ v.ptrs_live r p at' j
            | inr e ↦ absurd (ne e)
          ])
          i;
  }

create-grows :
    (os : Os) (id mode : ℤ) (block : HasBlock os.mq_allocator)
    → block.block ∉ os.mq_list
    → create os id mode ≡ open_found (grown os id block.block block.rest) mode block.block
unfolding create MessageQueue.alloc
create-grows os id mode block new =
    rw (block.gets, is_null-ne block.block _ _ block.exists)
      (rw (insert_last-new os.mq_list block.block block.exists new) refl)

open_found-describes :
    (os : Os) (mode : ℤ) (q : Ptr)
    → q ≢ null
    → eqb_ℤ mode create_mode ≡ true
    → open_found os mode q ≡ describe os q
unfolding open_found
open_found-describes os mode q found creates =
    let e : mode ≡ create_mode = ground (arith, eqb_ℤ_iff mode create_mode) in
    rw (is_null-ne q _ _ found) (rw e refl)

open-creates :
    (os : Os)
    → os.running ≢ null
    → eqb_ℤ (arg os 1) create_mode ≡ true
    → named os ≡ null
    → open_mq os ≡ create os (arg os 0) (arg os 1)
unfolding open_mq
open-creates os exists creates none =
    rw (is_null-ne os.running _ _ exists) (rw creates (rw none refl))

-- With a queue, a descriptor and an item left, a process creates a queue with a number that no listed
-- queue has: no access fails, the pools fit again, the queue is new, the last of the list, empty, and
-- found by its number, the other queues stay, and the process has a descriptor of it, the last one
-- in its list, whose number is the result, and to which the queue's one item points.
pub open-Creates :
    (os : Os)
    → IsDescribed os
    → eqb_ℤ (arg os 1) create_mode ≡ true
    → named os ≡ null
    → HasBlock os.mq_allocator
    → HasBlock os.descriptor_allocator
    → HasBlock os.descriptor_ptr_allocator
    → Returns (Creates os) (open_mq os)
open-Creates os v creates none block des item =
    let q = block.block in
    let f = HasBlock-Fresh os.mq_allocator v.mq_pool block in
    let new = unlisted os v (arg os 0) q block.rest f in
    let s = grown os (arg os 0) q block.rest in
    let w = grown-IsDescribed os v (arg os 0) q block.rest f in
    let at : q ∈ os.mq_list ++ q ∷ [] = ground (arith, has-append q os.mq_list (q ∷ [])) in
    let d = result-Describes s w q at des item in
    let owner = update_self os.pcbs os.running (holder s des.block) in
    let entry = update_self os.descriptors des.block (descriptor_of s q item.block) in
    let fresh = update_self os.mqs q (MessageQueue.fresh (arg os 0)) in
    let is =
      update_self s.mqs q (held (s.mqs q) item.block) ∙ ap (λ mq. held mq item.block) fresh in
    let others : (r : Ptr) → r ∈ os.mq_list → (result s w q at des item).mqs r ≡ os.mqs r = λ r i.
      let ne : q ≢ r = λ e. mem-ne r q os.mq_list i new (sym e) in
      update_ne s.mqs q r (held (s.mqs q) item.block) ne
      ∙ update_ne os.mqs q r (MessageQueue.fresh (arg os 0)) ne in
    rw
      (open-creates os v.exists creates none
        ∙ create-grows os (arg os 0) (arg os 1) block new
        ∙ open_found-describes s (arg os 1) q block.exists creates
        ∙ describe-result s w q at des item)
      (returns (record {
        valid = d.valid;
        queue = q;
        item = item.block;
        new = new;
        listed = refl;
        is = is;
        found =
            by_id-last (result s w q at des item) os.mq_list q (arg os 0)
              (λ r i e.
                by_id-null os os.mq_list (arg os 0) r (λ x j. (v.mqs_live x j).0) none i
                  (sym (ap (λ (mq : MessageQueue). mq.id) (others r i)) ∙ e))
              (ap (λ (mq : MessageQueue). mq.id) is);
        others = others;
        descriptor = des.block;
        last = ap (λ (pcb : Pcb). pcb.descriptors) owner;
        points = update_self os.descriptor_ptrs item.block des.block;
        of_queue = ap (λ (x : Descriptor). x.mq) entry;
        number =
            ap (λ (pcb : Pcb). pcb.syscall_retvalue) owner
            ∙ ap (λ (x : Descriptor). pos x.fd) (sym entry);
      }))
