-- ===== src/Reach/Creates.antt =====
-- A new queue, and the end of one, keep what holds in every state.
use disastros_msg_queues.Base.{
  ◌≡◌, ◌≢◌, inl, inr, refl, ◌∙◌, ap, subst, arith, Bool-cases, List, [], ◌∷◌, ◌++◌, has, ◌∈◌, ◌∉◌,
  Distinct-append, mem-ne, ℤ, Ptr, null, update, update_self, update_ne, update_cases,
}
use disastros_msg_queues.PoolAllocator.{PoolAllocator}
use disastros_msg_queues.PoolAllocator.Live.{Live, Fresh}
use disastros_msg_queues.Os.{Os, MessageQueue}
use disastros_msg_queues.MessageQueue
use disastros_msg_queues.MessageQueue.{by_id, is_empty}
use disastros_msg_queues.MessageQueue.Invariant.{Inv, IsQueue, IsStored, IsWaiting, waiters}
use disastros_msg_queues.MessageQueue.Creates.{grown, listed}
use disastros_msg_queues.Reach.Sound.{IsSound}

fresh-IsQueue : (id : ℤ) → IsQueue (MessageQueue.fresh id)
fresh-IsQueue id = record {
  counted = refl;
  bounded = omega arith;
  distinct = tt;
  readers = inl refl;
  writers = inl refl;
  in_line = tt;
}

module _ (os : Os) (v : IsSound os) (id : ℤ) (q : Ptr) (a : PoolAllocator)
    (f : Fresh os.mq_allocator q a) where
  abbrev pub mqs : Ptr → MessageQueue
  mqs = update os.mqs q (MessageQueue.fresh id)

  pub unlisted : q ∉ os.mq_list
  unlisted = elim (Bool-cases (has q os.mq_list)) [
    | inl at ↦ absurd (f.new (v.mqs_live q at))
    | inr out ↦ out
  ]

  -- What holds of the old queues and of an empty one holds of all.
  every :
      (P : MessageQueue → Type 0)
      → P (MessageQueue.fresh id)
      → ((r : Ptr) → r ∈ os.mq_list → P (os.mqs r))
      → (r : Ptr) → r ∈ os.mq_list ++ q ∷ []
      → P (mqs r)
  every P new old r at =
      update_cases P os.mqs q (MessageQueue.fresh id) r (λ _. new)
        (λ ne. elim (listed os.mq_list q r at) [ inl (at', _) ↦ old r at' | inr e ↦ absurd (ne e) ])

  was :
      (r x : Ptr) (items : MessageQueue → List Ptr)
      → r ∈ os.mq_list ++ q ∷ []
      → items (MessageQueue.fresh id) ≡ []
      → x ∈ items (mqs r)
      → (r ∈ os.mq_list) × (x ∈ items (os.mqs r))
  was r x items at none i = elim (listed os.mq_list q r at) [
    | inl (at', ne) ↦
        (at', subst (λ mq. x ∈ items mq) (update_ne os.mqs q r (MessageQueue.fresh id) ne) i)
    | inr e ↦
        let z : mqs r ≡ MessageQueue.fresh id =
          subst (λ s. mqs s ≡ MessageQueue.fresh id) e
            (update_self os.mqs q (MessageQueue.fresh id)) in
        absurd (none_in x (items (mqs r)) (ap items z ∙ none) i)
  ]
    where
      none_in : (x : Ptr) (xs : List Ptr) → xs ≡ [] → x ∈ xs → ⊥
      none_in x [] e at = cc
      none_in x (y ∷ ys) e at = cc

  grown-Inv : Inv (grown os id q a)
  grown-Inv =
      let inv = v.inv in
      record {
        message_pool = inv.message_pool;
        pcb_ptr_pool = inv.pcb_ptr_pool;
        scheduled = inv.scheduled;
        queues_exist = λ r at. elim (listed os.mq_list q r at) [
          | inl (at', _) ↦ inv.queues_exist r at'
          | inr e ↦ subst (λ s. s ≢ null) e f.not_null
        ];
        queues = every IsQueue (fresh-IsQueue id) inv.queues;
        stored =
            every (λ mq. IsStored os.message_allocator os.messages mq.messages) (λ m at. cc)
              inv.stored;
        waits =
            every (λ mq. IsWaiting os.pcb_ptr_allocator os.pcb_ptrs os.waiting_list (waiters mq))
              (λ w at. cc) inv.waits;
        apart = λ r s m at at' i j.
            let (old, i') = was r m (λ mq. mq.messages) at refl i in
            let (old', j') = was s m (λ mq. mq.messages) at' refl j in
            inv.apart r s m old old' i' j';
        one_place = λ r s w u at at' i j.
            let (old, i') = was r w waiters at refl i in
            let (old', j') = was s u waiters at' refl j in inv.one_place r s w u old old' i' j';
      }

  pub grown-IsSound : IsSound (grown os id q a)
  grown-IsSound = record {
    inv = grown-Inv;
    pcb_pool = v.pcb_pool;
    alive = v.alive;
    mq_pool = f.valid;
    mqs_live = λ r at. elim (listed os.mq_list q r at) [
      | inl (at', _) ↦ f.keeps r (v.mqs_live r at')
      | inr e ↦ subst (Live a) e f.now
    ];
    mqs_distinct =
        Distinct-append os.mq_list (q ∷ []) v.mqs_distinct (refl, tt)
          (λ p at. ground (arith, mem-ne p q os.mq_list at unlisted));
    no_timer = v.no_timer;
  }
