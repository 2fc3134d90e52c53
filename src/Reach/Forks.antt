-- ===== src/Reach/Forks.antt =====
-- The creation of a process keeps what holds in every state.
use disastros_msg_queues.Base.{
  ℕ, ◌≡◌, ◌⊎◌, inl, inr, sym, ◌∙◌, subst, arith, ◌==◌, Bool-cases, [], ◌∷◌, ◌++◌, has, ◌∈◌, ◌∉◌,
  has-append, Holds, holds, stops, Holds-bind, Holds-any, Ptr, is_null-ne, update, update_ne,
}
use disastros_msg_queues.PoolAllocator.{PoolAllocator}
use disastros_msg_queues.PoolAllocator.Live.{Live, Fresh, HasBlock-Fresh, block_left}
use disastros_msg_queues.Sequence.{insert_last}
use disastros_msg_queues.Os.{Os, Pcb, valid}
use disastros_msg_queues.Process
use disastros_msg_queues.Process.{ptr_alloc}
use disastros_msg_queues.MessageQueue.Invariant.{Inv, waiters}
use disastros_msg_queues.MessageQueue.Wake.{insert_last-new}
use disastros_msg_queues.Spawn.{new_child, fork, spawn}
use disastros_msg_queues.Spawn.Born.{present, joined-IsScheduled}
use disastros_msg_queues.Reach.Sound.{IsSound}

module _ (os : Os) (v : IsSound os) (p : Ptr) (a : PoolAllocator) (c : Ptr) (b : PoolAllocator)
    (f : Fresh os.pcb_allocator p a) (g : Fresh os.pcb_ptr_allocator c b) where
  absent : p ∉ present os
  absent = elim (Bool-cases (has p (present os))) [
    | inl at ↦ absurd (f.new (v.alive p at))
    | inr out ↦ out
  ]

  pub not_ready : p ∉ os.ready_list
  not_ready = let out = absent in ground (arith, has-append p os.ready_list os.waiting_list)

  pub not_waiting : p ∉ os.waiting_list
  not_waiting = let out = absent in ground (arith, has-append p os.ready_list os.waiting_list)

  module _ (last_pid : ℕ) (pcbs : Ptr → Pcb) where
    abbrev pub joined : Os
    joined = record os {
      pcb_allocator = a;
      last_pid = last_pid;
      pcb_ptr_allocator = b;
      pcb_ptrs = update os.pcb_ptrs c p;
      ready_list = os.ready_list ++ p ∷ [];
      pcbs = pcbs;
    }

    same_item :
        (q w : Ptr)
        → q ∈ os.mq_list
        → w ∈ waiters (os.mqs q)
        → update os.pcb_ptrs c p w ≡ os.pcb_ptrs w
    same_item q w at at' =
        update_ne os.pcb_ptrs c w p
          (λ e. g.new (subst (Live os.pcb_ptr_allocator) (sym e) (v.inv.waits q at w at').1))

    joined-Inv : Inv joined
    joined-Inv =
        let inv = v.inv in
        let out = absent in
        record {
          message_pool = inv.message_pool;
          pcb_ptr_pool = g.valid;
          scheduled =
              joined-IsScheduled os.running os.ready_list os.waiting_list p inv.scheduled f.not_null
                (ground arith) not_ready not_waiting;
          queues_exist = inv.queues_exist;
          queues = inv.queues;
          stored = inv.stored;
          waits = λ q at w at'.
              let (exists, alive, waits) = inv.waits q at w at' in
              (
                exists,
                g.keeps w alive,
                subst (λ r. r ∈ os.waiting_list) (sym (same_item q w at at')) waits,
              );
          apart = inv.apart;
          one_place = λ q r w u at at' i j e.
              inv.one_place q r w u at at' i j (sym (same_item q w at i) ∙ e ∙ same_item r u at' j);
        }

    was : (q : Ptr) → q ∈ present joined → (q ∈ present os) ⊎ (p ≡ q)
    was q at = elim (Bool-cases (p == q)) [
      | inl same ↦ inr (ground arith)
      | inr other ↦ inl (
          ground (
            arith,
            has-append q (os.ready_list ++ p ∷ []) os.waiting_list,
            has-append q os.ready_list (p ∷ []),
            has-append q os.ready_list os.waiting_list,
          ))
    ]

    pub joined-IsSound : IsSound joined
    joined-IsSound = record {
      inv = joined-Inv;
      pcb_pool = f.valid;
      alive = λ q at. elim (was q at) [
        | inl old ↦ f.keeps q (v.alive q old)
        | inr new ↦ subst (Live a) new f.now
      ];
      mq_pool = v.mq_pool;
      mqs_live = v.mqs_live;
      mqs_distinct = v.mqs_distinct;
      no_timer = v.no_timer;
    }

-- The state, whatever the fields of the processes.
abbrev Spawned : Os → Type 0
Spawned os = (pcbs : Ptr → Pcb) → IsSound (record os { pcbs = pcbs })

new_child-IsSound : (os : Os) → IsSound os → Holds (λ (_, s). Spawned s) (new_child os)
unfolding new_child Process.alloc ptr_alloc
new_child-IsSound os v = Holds-bind (Holds-any (valid os.running)) λ _ _.
    elim (block_left os.pcb_allocator v.pcb_pool) [
      | inl e ↦ rw e stops
      | inr block ↦
          rw (block.gets, is_null-ne block.block _ _ block.exists)
            (elim (block_left os.pcb_ptr_allocator v.inv.pcb_ptr_pool) [
              | inl e ↦ rw e stops
              | inr item ↦
                  let f = HasBlock-Fresh os.pcb_allocator v.pcb_pool block in
                  let g = HasBlock-Fresh os.pcb_ptr_allocator v.inv.pcb_ptr_pool item in
                  rw (item.gets, is_null-ne item.block _ _ item.exists)
                    (Holds-bind (Holds-any (insert_last _ item.block)) λ cs _.
                      rw
                        (insert_last-new os.ready_list block.block block.exists
                          (not_ready os v block.block block.rest item.block item.rest f g))
                        (holds (λ pcbs.
                          joined-IsSound os v block.block block.rest item.block item.rest f g _
                            pcbs)))
            ])
    ]

pub fork-IsSound : (os : Os) → IsSound os → Holds IsSound (fork os)
unfolding fork
fork-IsSound os v = Holds-bind (new_child-IsSound os v) λ (_, s) w. holds (w s.pcbs)

pub spawn-IsSound : (os : Os) → IsSound os → Holds IsSound (spawn os)
unfolding spawn
spawn-IsSound os v = Holds-bind (new_child-IsSound os v) λ (_, s) w. holds (w _)
