-- ===== src/Spawn/Fork.antt =====
-- What `fork` does.
use disastros_msg_queues.Base.{
  suc, ◌≡◌, ◌≢◌, refl, sym, ◌∙◌, ap, ap₂, fun_ext, subst, arith, List, [], ◌∷◌, ◌++◌, ◌∉◌, ℤ, pos,
  Run, ok, Returns, returns, ◌>>=◌, Ptr, null, is_null-ne, update,
}
use disastros_msg_queues.PoolAllocator.{PoolAllocator, get_block}
use disastros_msg_queues.PoolAllocator.Live.{Fresh, HasBlock, HasBlock-Fresh}
use disastros_msg_queues.Sequence.{insert_last}
use disastros_msg_queues.Os.{ProcessStatus, Os, Pcb, set_pcb}
use disastros_msg_queues.Process
use disastros_msg_queues.Process.{ptr_alloc, return_value}
use disastros_msg_queues.MessageQueue.Wake.{insert_last-new}
use disastros_msg_queues.Spawn.{new_child, fork}
use disastros_msg_queues.Spawn.Born.{
  IsPopulated, born, Born, p_absent, c_absent, p_apart, pid_new, pid_old, children_now,
  born-IsPopulated, alloc-ok,
}

ptr_alloc-ok :
    (s : Os) (p c : Ptr) (b : PoolAllocator)
    → get_block s.pcb_ptr_allocator ≡ ok (c, b)
    → c ≢ null
    → ptr_alloc s p ≡ ok (c, record s { pcb_ptr_allocator = b; pcb_ptrs = update s.pcb_ptrs c p })
unfolding ptr_alloc
ptr_alloc-ok s p c b second ne = rw second (rw (is_null-ne c _ _ ne) refl)

-- What follows the two allocations.
abbrev adopt : (new_pcb : Ptr) → Ptr × Os → Run (Ptr × Os)
adopt new_pcb (new_pcb_ptr, s) = insert_last (s.pcbs s.running).children new_pcb_ptr >>= λ cs.
    let s' = set_pcb s s.running (record (s.pcbs s.running) { children = cs }) in
    insert_last s'.ready_list new_pcb >>= λ l.
    ok (new_pcb, return_value (record s' { ready_list = l }) (pos (s'.pcbs new_pcb).pid))

abbrev set_up : Ptr × Os → Run (Ptr × Os)
set_up (new_pcb, s) =
    ptr_alloc
      (set_pcb s new_pcb
        (record (s.pcbs new_pcb) { status = ProcessStatus.ready; parent = s.running }))
      new_pcb
    >>= adopt new_pcb

new_child-steps : (os : Os) → os.running ≢ null → new_child os ≡ (Process.alloc os >>= set_up)
unfolding new_child
new_child-steps os exists = rw (is_null-ne os.running _ _ exists) refl

adopt-ok :
    (s : Os) (p c : Ptr)
    → p ≢ null
    → c ≢ null
    → p ∉ s.ready_list
    → c ∉ (s.pcbs s.running).children
    → (let cs = (s.pcbs s.running).children ++ c ∷ [] in
        let s' = set_pcb s s.running (record (s.pcbs s.running) { children = cs }) in
        adopt p (c, s)
        ≡ ok (
          p,
          return_value (record s' { ready_list = s.ready_list ++ p ∷ [] }) (pos (s'.pcbs p).pid),
        ))
adopt-ok s p c ne ne' new new' =
    rw (insert_last-new (s.pcbs s.running).children c ne' new')
      (rw (insert_last-new s.ready_list p ne new) refl)

module _ (os : Os) (v : IsPopulated os) (p : Ptr) (a : PoolAllocator) (c : Ptr) (b : PoolAllocator)
    (f : Fresh os.pcb_allocator p a) (g : Fresh os.pcb_ptr_allocator c b) where
  -- The state ahead of `adopt`.
  abbrev prepared : Os
  prepared =
      let started = record os {
        pcb_allocator = a;
        last_pid = suc os.last_pid;
        pcbs = update os.pcbs p (Process.fresh os (os.pcbs p));
      } in
      let named =
        set_pcb started p
          (record (started.pcbs p) { status = ProcessStatus.ready; parent = os.running }) in
      record named { pcb_ptr_allocator = b; pcb_ptrs = update os.pcb_ptrs c p }

  same_children : (prepared.pcbs os.running).children ≡ (os.pcbs os.running).children
  same_children = let (other, _, _) = p_apart os v p a c b f g in ground arith

  abbrev with_pcbs : (Ptr → Pcb) → Os
  with_pcbs pcbs = record os {
    pcb_allocator = a;
    last_pid = suc os.last_pid;
    pcb_ptr_allocator = b;
    pcb_ptrs = update os.pcb_ptrs c p;
    ready_list = os.ready_list ++ p ∷ [];
    pcbs = pcbs;
  }

  abbrev adopted_pcbs : (cs : List Ptr) (retvalue : ℤ) → Ptr → Pcb
  adopted_pcbs cs retvalue =
      let s' = set_pcb prepared os.running (record (prepared.pcbs os.running) { children = cs }) in
      update s'.pcbs os.running (record (s'.pcbs os.running) { syscall_retvalue = retvalue })

  end_pcbs :
      (q : Ptr)
      → adopted_pcbs ((os.pcbs os.running).children ++ c ∷ []) (pos os.last_pid) q
        ≡ (born os p a c b).pcbs q
  end_pcbs q = let (other, _, _) = p_apart os v p a c b f g in ground arith

  end_pid :
      ((set_pcb prepared os.running (record (prepared.pcbs os.running) {
        children = (prepared.pcbs os.running).children ++ c ∷ [];
      })).pcbs
        p).pid
      ≡ os.last_pid
  end_pid = let (other, _, _) = p_apart os v p a c b f g in ground arith

  new_child-ok :
      get_block os.pcb_allocator ≡ ok (p, a)
      → get_block os.pcb_ptr_allocator ≡ ok (c, b)
      → new_child os ≡ ok (p, born os p a c b)
  new_child-ok first second =
      let (other, not_ready, _) = p_apart os v p a c b f g in
      new_child-steps os v.scheduled.exists
      ∙ ap (λ r. r >>= set_up) (alloc-ok os v p a c b f g first)
      ∙ ap (λ r. r >>= adopt p) (ptr_alloc-ok _ p c b second g.not_null)
      ∙ adopt-ok prepared p c f.not_null g.not_null not_ready
          (subst (λ l. c ∉ l) (sym same_children) (c_absent os v p a c b f g))
      ∙ ap₂ (λ cs k. ok (p, with_pcbs (adopted_pcbs (cs ++ c ∷ []) (pos k)))) same_children end_pid
      ∙ ap (λ pcbs. ok (p, with_pcbs pcbs)) (fun_ext end_pcbs)

  new_child-Born : Born os p (born os p a c b)
  new_child-Born = record {
    valid = born-IsPopulated os v p a c b f g;
    absent = p_absent os v p a c b f g;
    pid = pid_new os v p a c b f g;
    new_pid = λ q at. rw (pid_old os v p a c b f g q at) (ground (arith, v.pids q at));
    parent = let (other, _, _) = p_apart os v p a c b f g in ground arith;
    is_ready = let (other, _, _) = p_apart os v p a c b f g in ground arith;
    runs_on = refl;
    ready = refl;
    item = c;
    adopted = children_now os v p a c b f g;
    points = ground arith;
    returned = ground arith;
  }

-- With a block left in both pools, the running process creates a child: no access fails, the
-- processes are live blocks with pids that were given out again, the child is none of the processes
-- that were there, its pid is the next one and none of theirs, it is the last one ready and the last
-- of the caller's children, and the caller runs on with the pid as its result.
pub fork-Born :
    (os : Os)
    → IsPopulated os
    → (block : HasBlock os.pcb_allocator) → HasBlock os.pcb_ptr_allocator
    → Returns (Born os block.block) (fork os)
unfolding fork
fork-Born os v block item =
    let f = HasBlock-Fresh os.pcb_allocator v.pcb_pool block in
    let g = HasBlock-Fresh os.pcb_ptr_allocator v.ptr_pool item in
    rw (new_child-ok os v block.block block.rest item.block item.rest f g block.gets item.gets)
      (returns (new_child-Born os v block.block block.rest item.block item.rest f g))
