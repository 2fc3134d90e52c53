-- ===== src/Spawn/Born.antt =====
-- A process that is created.
use disastros_msg_queues.Base.{null}
use disastros_msg_queues.Base.{
  suc, ◌<◌, ◌≡◌, ◌≢◌, ◌⊎◌, inl, inr, refl, sym, ◌∙◌, ap, subst, arith, ◌==◌, Bool-cases, List, [],
  ◌∷◌, ◌++◌, has, ◌∈◌, ◌∉◌, has-append, Distinct-append, mem-ne, pos, ok, Ptr, is_null-ne, update,
}
use disastros_msg_queues.PoolAllocator.{PoolAllocator, get_block}
use disastros_msg_queues.PoolAllocator.Live.{IsValid, Live, Fresh}
use disastros_msg_queues.Os.{ProcessStatus, Os, set_pcb}
use disastros_msg_queues.Process
use disastros_msg_queues.Process.{ptr_alloc, return_value}
use disastros_msg_queues.MessageQueue.Invariant.{IsScheduled}

-- The processes that run, are ready or wait.
abbrev pub present : Os → List Ptr
present os = os.running ∷ os.ready_list ++ os.waiting_list

-- They are live blocks with pids that were given out, and so are the items of the running one's
-- children.
pub record IsPopulated (os : Os) : Type 0 where
  pub pcb_pool : IsValid os.pcb_allocator
  pub ptr_pool : IsValid os.pcb_ptr_allocator
  pub scheduled : IsScheduled os.running os.ready_list os.waiting_list
  pub alive : (p : Ptr) → p ∈ present os → Live os.pcb_allocator p
  pub pids : (p : Ptr) → p ∈ present os → (os.pcbs p).pid < os.last_pid
  pub items : (c : Ptr) → c ∈ (os.pcbs os.running).children → Live os.pcb_ptr_allocator c

-- The state behind the creation of the process `p` with the item `c`.
abbrev pub born : Os → (p : Ptr) (a : PoolAllocator) (c : Ptr) (b : PoolAllocator) → Os
born os p a c b =
    let started = record os {
      pcb_allocator = a;
      last_pid = suc os.last_pid;
      pcb_ptr_allocator = b;
      pcb_ptrs = update os.pcb_ptrs c p;
      ready_list = os.ready_list ++ p ∷ [];
      pcbs = update os.pcbs p (record (Process.fresh os (os.pcbs p)) {
        status = ProcessStatus.ready;
        parent = os.running;
      });
    } in
    return_value
      (set_pcb started os.running
        (record (os.pcbs os.running) { children = (os.pcbs os.running).children ++ c ∷ [] }))
      (pos os.last_pid)

-- The child `p` is the last one ready, and the last of its parent's children.
pub record Born (os : Os) (p : Ptr) (os' : Os) : Type 0 where
  pub valid : IsPopulated os'
  pub absent : p ∉ present os
  pub pid : (os'.pcbs p).pid ≡ os.last_pid
  pub new_pid : (q : Ptr) → q ∈ present os → (os'.pcbs q).pid ≢ os.last_pid
  pub parent : (os'.pcbs p).parent ≡ os.running
  pub is_ready : (os'.pcbs p).status ≡ ProcessStatus.ready
  pub runs_on : os'.running ≡ os.running
  pub ready : os'.ready_list ≡ os.ready_list ++ p ∷ []
  pub item : Ptr
  pub adopted : (os'.pcbs os.running).children ≡ (os.pcbs os.running).children ++ item ∷ []
  pub points : os'.pcb_ptrs item ≡ p
  pub returned : (os'.pcbs os.running).syscall_retvalue ≡ pos os.last_pid

-- A process that is in none of the lists joins the ready list.
pub joined-IsScheduled :
    (running : Ptr) (ready waiting : List Ptr) (p : Ptr)
    → IsScheduled running ready waiting
    → p ≢ null
    → p ≢ running
    → p ∉ ready
    → p ∉ waiting
    → IsScheduled running (ready ++ p ∷ []) waiting
joined-IsScheduled running ready waiting p s exists not_running not_ready not_waiting = record {
  exists = s.exists;
  not_ready = ground (arith, s.not_ready, has-append running ready (p ∷ []));
  not_waiting = s.not_waiting;
  ready_distinct =
      Distinct-append ready (p ∷ []) s.ready_distinct (refl, tt)
        (λ q at. ground (arith, mem-ne q p ready at not_ready));
  waiting_distinct = s.waiting_distinct;
  apart = λ q at. ground (arith, has-append q ready (p ∷ []), s.apart q);
  ready_exist = λ q at. ground (arith, has-append q ready (p ∷ []), s.ready_exist q, exists);
  waiting_exist = s.waiting_exist;
}

module _ (os : Os) (v : IsPopulated os) (p : Ptr) (a : PoolAllocator) (c : Ptr) (b : PoolAllocator)
    (f : Fresh os.pcb_allocator p a) (g : Fresh os.pcb_ptr_allocator c b) where
  pub p_absent : p ∉ present os
  p_absent = elim (Bool-cases (has p (present os))) [
    | inl at ↦ absurd (f.new (v.alive p at))
    | inr out ↦ out
  ]

  pub c_absent : c ∉ (os.pcbs os.running).children
  c_absent = elim (Bool-cases (has c (os.pcbs os.running).children)) [
    | inl at ↦ absurd (g.new (v.items c at))
    | inr out ↦ out
  ]

  pub p_apart : (p ≢ os.running) × (p ∉ os.ready_list) × (p ∉ os.waiting_list)
  p_apart =
      let out = p_absent in
      (
        ground arith,
        ground (arith, has-append p os.ready_list os.waiting_list),
        ground (arith, has-append p os.ready_list os.waiting_list),
      )

  born-IsScheduled : IsScheduled os.running (os.ready_list ++ p ∷ []) os.waiting_list
  born-IsScheduled =
      let (not_running, not_ready, not_waiting) = p_apart in
      joined-IsScheduled os.running os.ready_list os.waiting_list p v.scheduled f.not_null
        not_running not_ready not_waiting

  -- Who is there now was there before, or is the child.
  before : (q : Ptr) → q ∈ present (born os p a c b) → (q ∈ present os) ⊎ (q ≡ p)
  before q at = elim (Bool-cases (q == p)) [
    | inl same ↦ inr (ground arith)
    | inr other ↦ inl (
        ground (
          arith,
          has-append q (os.ready_list ++ p ∷ []) os.waiting_list,
          has-append q os.ready_list (p ∷ []),
          has-append q os.ready_list os.waiting_list,
        ))
  ]

  pub pid_new : ((born os p a c b).pcbs p).pid ≡ os.last_pid
  pid_new = let (other, _, _) = p_apart in ground arith

  pub pid_old : (q : Ptr) → q ∈ present os → ((born os p a c b).pcbs q).pid ≡ (os.pcbs q).pid
  pid_old q at =
      let other : p ≢ q = λ e. mem-ne q p (present os) at p_absent (sym e) in ground arith

  pub children_now :
      ((born os p a c b).pcbs os.running).children ≡ (os.pcbs os.running).children ++ c ∷ []
  children_now = ground arith

  pub born-IsPopulated : IsPopulated (born os p a c b)
  born-IsPopulated = record {
    pcb_pool = f.valid;
    ptr_pool = g.valid;
    scheduled = born-IsScheduled;
    alive = λ q at. elim (before q at) [
      | inl old ↦ f.keeps q (v.alive q old)
      | inr new ↦ subst (Live a) (sym new) f.now
    ];
    pids = λ q at. elim (before q at) [
      | inl old ↦ rw (pid_old q old) (ground (arith, v.pids q old))
      | inr new ↦ rw (ap (λ r. ((born os p a c b).pcbs r).pid) new ∙ pid_new) (omega arith)
    ];
    items = λ d at. elim (Bool-cases (d == c)) [
      | inl here ↦ (let e : c ≡ d = ground arith in subst (Live b) e g.now)
      | inr there ↦ g.keeps d (
          v.items d (
            ground (
              arith,
              subst (λ l. d ∈ l) children_now at,
              has-append d (os.pcbs os.running).children (c ∷ []),
            )))
    ];
  }

  pub alloc-ok :
      get_block os.pcb_allocator ≡ ok (p, a)
      → Process.alloc os
        ≡ ok (
          p,
          record os {
            pcb_allocator = a;
            last_pid = suc os.last_pid;
            pcbs = update os.pcbs p (Process.fresh os (os.pcbs p));
          },
        )
  unfolding Process.alloc
  alloc-ok first = rw first (rw (is_null-ne p _ _ f.not_null) refl)
