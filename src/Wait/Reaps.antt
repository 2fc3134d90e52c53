-- ===== src/Wait/Reaps.antt =====
-- A wait for a child that has ended.
use disastros_msg_queues.Base.{
  ◌≡◌, ◌≢◌, refl, sym, ◌∙◌, ap, inl, inr, arith, Bool-cases, if◌then◌else◌, List, [], ◌∷◌, ◌++◌,
  has, ◌∉◌, has-append, erase, not-mem-erase_self, ℤ, pos, pos_part, ok, ◌>>=◌, Returns, returns,
  Returns-ok, Ptr, is_null, update, update_self, update_ne, update_cases,
}
use disastros_msg_queues.PoolAllocator.{PoolAllocator, PoolAllocatorResult, release_block}
use disastros_msg_queues.PoolAllocator.Live.{Freed, release_block-Freed}
use disastros_msg_queues.Sequence.{detach}
use disastros_msg_queues.Os.{Os, Pcb, set_pcb}
use disastros_msg_queues.Process
use disastros_msg_queues.Process.{arg, return_value, ptr_free}
use disastros_msg_queues.MessageQueue.Wake.{detach-mem}
use disastros_msg_queues.Wait.{store_int, reap, wait}
use disastros_msg_queues.Wait.Ended.{HasEnded, wait-reaps}

-- The child is gone, and its pid and value are handed over.
pub record Reaps (os : Os) (xs : List Ptr) (c : Ptr) (ys : List Ptr) (os' : Os) : Type 0 where
  pub children : (os'.pcbs os.running).children ≡ xs ++ ys
  pub zombies : os'.zombie_list ≡ erase (os.pcb_ptrs c) os.zombie_list
  pub gone : os.pcb_ptrs c ∉ os'.zombie_list
  pub item : Freed os.pcb_ptr_allocator c os'.pcb_ptr_allocator
  pub process : Freed os.pcb_allocator (os.pcb_ptrs c) os'.pcb_allocator
  pub returned : (os'.pcbs os.running).syscall_retvalue ≡ pos (os.pcbs (os.pcb_ptrs c)).pid
  pub value : os'.ints ≡ (
      if is_null (pos_part (arg os 1))
      then os.ints
      else update os.ints (pos_part (arg os 1)) (os.pcbs (os.pcb_ptrs c)).return_value)
  pub others : (p : Ptr) → p ≢ os.running → os'.pcbs p ≡ os.pcbs p
  pub runs_on : os'.running ≡ os.running
  pub same_ready : os'.ready_list ≡ os.ready_list
  pub same_waiting : os'.waiting_list ≡ os.waiting_list
  pub same_mqs : os'.mqs ≡ os.mqs
  pub same_descriptors :
      (os'.descriptor_allocator ≡ os.descriptor_allocator)
      × (os'.descriptor_ptr_allocator ≡ os.descriptor_ptr_allocator)

erase-split : (x : Ptr) (xs ys : List Ptr) → x ∉ xs → erase x (xs ++ x ∷ ys) ≡ xs ++ ys
erase-split x [] ys out = ground arith
erase-split x (y ∷ xs) ys out = ground (arith, erase-split x xs ys)

-- The running process without the child, and with the pid as its result.
abbrev parted : Os → (l : List Ptr) (c : Ptr) → Ptr → Pcb
parted os l c =
    let without = set_pcb os os.running (record (os.pcbs os.running) { children = l }) in
    (return_value without (pos (without.pcbs (os.pcb_ptrs c)).pid)).pcbs

abbrev reaped :
    Os
    → (c : Ptr) (l : List Ptr) (a : PoolAllocator) (z : List Ptr) (b : PoolAllocator) (result : Ptr)
    → Os
reaped os c l a z b result = record os {
  pcb_ptr_allocator = a;
  pcb_allocator = b;
  zombie_list = z;
  pcbs = parted os l c;
  ints =
      if is_null result
      then os.ints
      else update os.ints result (parted os l c (os.pcb_ptrs c)).return_value;
}

-- The value is stored, and the process's block is released.
store-frees :
    (os : Os) (p : Ptr) (b : PoolAllocator) (result : Ptr) (value : ℤ) (r : PoolAllocatorResult)
    → release_block os.pcb_allocator p ≡ ok (r, b)
    → (Process.free (store_int os result value) p >>= λ (_, s). ok s)
      ≡ ok (record os {
        pcb_allocator = b;
        ints = if is_null result then os.ints else update os.ints result value;
      })
unfolding Process.free
store-frees os p b result value r process = elim (Bool-cases (is_null result)) [
  | inl e ↦ rw e (rw process refl)
  | inr e ↦ rw e (rw process refl)
]

reap-ok :
    (os : Os) (c : Ptr) (l : List Ptr) (a : PoolAllocator) (z : List Ptr) (b : PoolAllocator)
    (result : Ptr) (r r' : PoolAllocatorResult)
    → detach (os.pcbs os.running).children c ≡ ok l
    → release_block os.pcb_ptr_allocator c ≡ ok (r, a)
    → detach os.zombie_list (os.pcb_ptrs c) ≡ ok z
    → release_block os.pcb_allocator (os.pcb_ptrs c) ≡ ok (r', b)
    → reap os c result ≡ ok (reaped os c l a z b result)
unfolding reap ptr_free
reap-ok os c l a z b result r r' left item ended process = rw left (
    rw item (
      rw ended (
        store-frees (record os { pcb_ptr_allocator = a; zombie_list = z; pcbs = parted os l c })
          (os.pcb_ptrs c) b result (parted os l c (os.pcb_ptrs c)).return_value r' process)))

-- A field that the update leaves.
same_field {ℓ} :
    {A : Type ℓ} (field : Pcb → A) (pcbs : Ptr → Pcb) (p : Ptr) (pcb : Pcb) (q : Ptr)
    → field pcb ≡ field (pcbs p)
    → field (update pcbs p pcb q) ≡ field (pcbs q)
same_field field pcbs p pcb q same =
    update_cases (λ x. field x ≡ field (pcbs q)) pcbs p pcb q
      (λ e. same ∙ ap (λ r. field (pcbs r)) e) (λ _. refl)

module _ (os : Os) (xs : List Ptr) (c : Ptr) (ys : List Ptr) (h : HasEnded os xs c ys) where
  abbrev p : Ptr
  p = os.pcb_ptrs c

  not_earlier : c ∉ xs
  not_earlier = elim (Bool-cases (has c xs)) [
    | inl at ↦ (let (_, no_match) = h.earlier c at in let m = h.meant in cc)
    | inr out ↦ out
  ]

  left : detach (os.pcbs os.running).children c ≡ ok (xs ++ ys)
  left =
      ap (λ l. detach l c) h.children
      ∙ detach-mem (xs ++ c ∷ ys) c h.item (ground (arith, has-append c xs (c ∷ ys)))
      ∙ ap ok (erase-split c xs ys not_earlier)

  abbrev without : Ptr → Pcb
  without = update os.pcbs os.running (record (os.pcbs os.running) { children = xs ++ ys })

  same_pid : (without p).pid ≡ (os.pcbs p).pid
  same_pid = same_field (λ pcb. pcb.pid) os.pcbs os.running _ p refl

  same_value : (parted os (xs ++ ys) c p).return_value ≡ (os.pcbs p).return_value
  same_value =
      same_field (λ pcb. pcb.return_value) without os.running _ p refl
      ∙ same_field (λ pcb. pcb.return_value) os.pcbs os.running _ p refl

  same_others : (q : Ptr) → q ≢ os.running → parted os (xs ++ ys) c q ≡ os.pcbs q
  same_others q ne =
      update_ne without os.running q _ (λ e. ne (sym e))
      ∙ update_ne os.pcbs os.running q _ (λ e. ne (sym e))

  runner :
      parted os (xs ++ ys) c os.running
      ≡ record (without os.running) { syscall_retvalue = pos (without p).pid }
  runner = update_self without os.running _

  reaped-Reaps :
      (a b : PoolAllocator)
      → Freed os.pcb_ptr_allocator c a
      → Freed os.pcb_allocator p b
      → Reaps os xs c ys (reaped os c (xs ++ ys) a (erase p os.zombie_list) b (pos_part (arg os 1)))
  reaped-Reaps a b item process = record {
    children =
        ap (λ (pcb : Pcb). pcb.children) runner
        ∙ ap (λ (pcb : Pcb). pcb.children) (update_self os.pcbs os.running _);
    zombies = refl;
    gone = not-mem-erase_self p os.zombie_list h.distinct;
    item = item;
    process = process;
    returned = ap (λ (pcb : Pcb). pcb.syscall_retvalue) runner ∙ ap pos same_pid;
    value =
        ap
          (λ v.
            if is_null (pos_part (arg os 1))
            then os.ints
            else update os.ints (pos_part (arg os 1)) v)
          same_value;
    others = same_others;
    runs_on = refl;
    same_ready = refl;
    same_waiting = refl;
    same_mqs = refl;
    same_descriptors = (refl, refl);
  }

  reap-Reaps : Returns (Reaps os xs c ys) (reap os c (pos_part (arg os 1)))
  reap-Reaps =
      let ((r, a), item, (_, f)) =
        Returns-ok (release_block-Freed os.pcb_ptr_allocator c h.item_pool h.item_live) in
      let ((r', b), process, (_, g)) =
        Returns-ok (release_block-Freed os.pcb_allocator p h.pool h.live) in
      rw
        (reap-ok os c (xs ++ ys) a (erase p os.zombie_list) b (pos_part (arg os 1)) r r' left item
          (detach-mem os.zombie_list p h.child h.zombie) process)
        (returns (reaped-Reaps a b f g))

-- A process waits for a child that has ended, the first that is meant: with 0 the first of its
-- children that has ended, else the first with the pid. If its item and its block are live in valid
-- pools and it is among the zombies, which are distinct, no access fails: the child is in neither
-- list any more, both blocks are released, the result is its pid, and its value is stored at the
-- address that is given unless that is null; the other processes, who runs, is ready or waits, the
-- queues and the pools of descriptors stay, so what the child had open is not closed.
pub wait-Reaps :
    (os : Os) (xs : List Ptr) (c : Ptr) (ys : List Ptr)
    → HasEnded os xs c ys
    → Returns (Reaps os xs c ys) (wait os)
wait-Reaps os xs c ys h = rw (wait-reaps os xs c ys h) (reap-Reaps os xs c ys h)
