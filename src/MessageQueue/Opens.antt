-- ===== src/MessageQueue/Opens.antt =====
-- A process opens a queue that is there.
use disastros_msg_queues.Base.{
  suc, ◌<◌, ◌≡◌, ◌≢◌, ◌⊎◌, inl, inr, refl, sym, ◌∙◌, ap, subst, arith, ◌==◌, ◌&&◌, false, not,
  Bool-cases, List, [], ◌∷◌, ◌++◌, has, ◌∈◌, ◌∉◌, has-append, mem-ne, pos, eqb_ℤ, ok, Returns,
  returns, Ptr, null, is_null-ne, update_self, update_ne, update_cases,
}
use disastros_msg_queues.PoolAllocator.{PoolAllocator}
use disastros_msg_queues.PoolAllocator.Live.{IsValid, Live, Fresh, HasBlock, HasBlock-Fresh}
use disastros_msg_queues.Os.{Os, Descriptor}
use disastros_msg_queues.Process.{arg}
use disastros_msg_queues.MessageQueue.{is_empty}
use disastros_msg_queues.MessageQueue.Open.{create_mode, excl_mode, describe, open_found, open_mq}
use disastros_msg_queues.MessageQueue.Writes.{named}
use disastros_msg_queues.MessageQueue.Lookup.{by_id-mem}
use disastros_msg_queues.MessageQueue.Described.{
  next_number, descriptor_of, holder, held, described, describe-ok,
}

-- The pools of queues, descriptors and items fit: the listed queues, the descriptors of the running
-- process and the items of the queues are live blocks, and the numbers of its descriptors were given
-- out.
pub record IsDescribed (os : Os) : Type 0 where
  pub exists : os.running ≢ null
  pub mq_pool : IsValid os.mq_allocator
  pub mqs_live : (q : Ptr) → q ∈ os.mq_list → (q ≢ null) × Live os.mq_allocator q
  pub pool : IsValid os.descriptor_allocator
  pub live : (d : Ptr) → d ∈ (os.pcbs os.running).descriptors → Live os.descriptor_allocator d
  pub numbers :
      (d : Ptr) → d ∈ (os.pcbs os.running).descriptors → (os.descriptors d).fd < next_number os
  pub ptr_pool : IsValid os.descriptor_ptr_allocator
  pub ptrs_live :
      (q p : Ptr)
      → q ∈ os.mq_list
      → p ∈ (os.mqs q).descriptors_ptrs
      → Live os.descriptor_ptr_allocator p

-- The running process has a new descriptor of the queue `q`, the last one in its list, with the next
-- number as the result; the descriptor and the last item of the queue point to each other.
pub record Describes (os : Os) (q : Ptr) (os' : Os) : Type 0 where
  pub valid : IsDescribed os'
  pub descriptor : Ptr
  pub item : Ptr
  pub new : descriptor ∉ (os.pcbs os.running).descriptors
  pub last : (os'.pcbs os.running).descriptors ≡ (os.pcbs os.running).descriptors ++ descriptor ∷ []
  pub is : os'.descriptors descriptor ≡ descriptor_of os q item
  pub points : os'.descriptor_ptrs item ≡ descriptor
  pub in_queue : (os'.mqs q).descriptors_ptrs ≡ (os.mqs q).descriptors_ptrs ++ item ∷ []
  pub messages : (r : Ptr) → (os'.mqs r).messages ≡ (os.mqs r).messages
  pub returned : (os'.pcbs os.running).syscall_retvalue ≡ pos (next_number os)
  pub next : next_number os' ≡ suc (next_number os)
  pub runs_on : os'.running ≡ os.running
  pub same_list : os'.mq_list ≡ os.mq_list

not_live :
    {a : PoolAllocator} {p : Ptr} (xs : List Ptr)
    → ((x : Ptr) → x ∈ xs → Live a x)
    → ¬ Live a p
    → p ∉ xs
not_live {p} xs all out = elim (Bool-cases (has p xs)) [
  | inl at ↦ absurd (out (all p at))
  | inr new ↦ new
]

module _ (os : Os) (v : IsDescribed os) (q : Ptr) (at : q ∈ os.mq_list)
    (block : HasBlock os.descriptor_allocator) (item : HasBlock os.descriptor_ptr_allocator) where
  abbrev pub result : Os
  result = described os q block.block block.rest item.block item.rest

  f : Fresh os.descriptor_allocator block.block block.rest
  f = HasBlock-Fresh os.descriptor_allocator v.pool block

  g : Fresh os.descriptor_ptr_allocator item.block item.rest
  g = HasBlock-Fresh os.descriptor_ptr_allocator v.ptr_pool item

  pub new_descriptor : block.block ∉ (os.pcbs os.running).descriptors
  new_descriptor = not_live (os.pcbs os.running).descriptors v.live f.new

  pub new_item : item.block ∉ (os.mqs q).descriptors_ptrs
  new_item = not_live (os.mqs q).descriptors_ptrs (λ p i. v.ptrs_live q p at i) g.new

  pub describe-result : describe os q ≡ ok result
  describe-result =
      describe-ok os q block.block block.rest item.block item.rest block.gets block.exists item.gets
        item.exists new_descriptor new_item

  same_running : (result.pcbs os.running) ≡ holder os block.block
  same_running = update_self os.pcbs os.running (holder os block.block)

  was :
      (d : Ptr)
      → d ∈ (os.pcbs os.running).descriptors ++ block.block ∷ []
      → (d ∈ (os.pcbs os.running).descriptors) ⊎ (block.block ≡ d)
  was d i = elim (Bool-cases (block.block == d)) [
    | inl e ↦ inr (ground arith)
    | inr e ↦ inl (ground (arith, has-append d (os.pcbs os.running).descriptors (block.block ∷ [])))
  ]

  pub fd_old :
      (d : Ptr)
      → d ∈ (os.pcbs os.running).descriptors
      → (result.descriptors d).fd ≡ (os.descriptors d).fd
  fd_old d i =
      ap (λ (x : Descriptor). x.fd)
        (update_ne os.descriptors block.block d (descriptor_of os q item.block)
          (λ e. mem-ne d block.block (os.pcbs os.running).descriptors i new_descriptor (sym e)))

  pub fd_new : (result.descriptors block.block).fd ≡ next_number os
  fd_new =
      ap (λ (x : Descriptor). x.fd)
        (update_self os.descriptors block.block (descriptor_of os q item.block))

  result-IsDescribed : IsDescribed result
  result-IsDescribed = record {
    exists = v.exists;
    mq_pool = v.mq_pool;
    mqs_live = v.mqs_live;
    pool = f.valid;
    live = λ d i. elim (was d (subst (λ pcb. d ∈ pcb.descriptors) same_running i)) [
      | inl old ↦ f.keeps d (v.live d old)
      | inr new ↦ subst (Live block.rest) new f.now
    ];
    numbers = λ d i.
        subst (λ n. (result.descriptors d).fd < n) (sym (ap (λ pcb. pcb.last_fd) same_running))
          (elim (was d (subst (λ pcb. d ∈ pcb.descriptors) same_running i)) [
            | inl old ↦ (let e = fd_old d old in let lt = v.numbers d old in omega (arith, e, lt))
            | inr new ↦
                (let e = ap (λ x. (result.descriptors x).fd) (sym new) ∙ fd_new in omega (arith, e))
          ]);
    ptr_pool = g.valid;
    ptrs_live = λ r p i.
        update_cases (λ mq. p ∈ mq.descriptors_ptrs → Live item.rest p) os.mqs q
          (held (os.mqs q) item.block) r
          (λ _ j. elim (Bool-cases (item.block == p)) [
            | inl same ↦ (let z : item.block ≡ p = ground arith in subst (Live item.rest) z g.now)
            | inr other ↦ g.keeps p (
                v.ptrs_live q p at
                  (ground (arith, has-append p (os.mqs q).descriptors_ptrs (item.block ∷ []))))
          ])
          (λ ne j. g.keeps p (v.ptrs_live r p i j));
  }

  pub result-Describes : Describes os q result
  result-Describes = record {
    valid = result-IsDescribed;
    descriptor = block.block;
    item = item.block;
    new = new_descriptor;
    last = ap (λ pcb. pcb.descriptors) same_running;
    is = update_self os.descriptors block.block (descriptor_of os q item.block);
    points = update_self os.descriptor_ptrs item.block block.block;
    in_queue = ap (λ mq. mq.descriptors_ptrs) (update_self os.mqs q (held (os.mqs q) item.block));
    messages = λ r.
        update_cases (λ mq. mq.messages ≡ (os.mqs r).messages) os.mqs q (held (os.mqs q) item.block)
          r (λ e. ap (λ s. (os.mqs s).messages) e) (λ _. refl);
    returned = ap (λ pcb. pcb.syscall_retvalue) same_running;
    next = ap (λ pcb. pcb.last_fd) same_running;
    runs_on = refl;
    same_list = refl;
  }

module _ (os : Os) (v : IsDescribed os) (found : named os ≢ null)
    (mode : eqb_ℤ (arg os 1) create_mode ≡ false)
    (allowed : eqb_ℤ (arg os 1) excl_mode && not (is_empty (os.mqs (named os)).descriptors_ptrs)
      ≡ false) where
  pub open-describes : open_mq os ≡ describe os (named os)
  unfolding open_mq open_found
  open-describes =
      rw (is_null-ne os.running _ _ v.exists)
        (rw mode (rw (is_null-ne (named os) _ _ found) (rw allowed refl)))

  -- With a descriptor and an item left, a process opens a queue that is there, without the mode to
  -- create one, and not in exclusive mode unless nobody has the queue open: no access fails, the
  -- pools fit again, and it has a new descriptor of the queue, the last one in its list, with the
  -- next number, which is its result; the descriptor and the queue's last item point to each other,
  -- and no queue's messages change.
  pub open-Describes :
      HasBlock os.descriptor_allocator
      → HasBlock os.descriptor_ptr_allocator
      → Returns (Describes os (named os)) (open_mq os)
  open-Describes block item =
      let at = by_id-mem os os.mq_list (arg os 0) found in
      rw (open-describes ∙ describe-result os v (named os) at block item)
        (returns (result-Describes os v (named os) at block item))
