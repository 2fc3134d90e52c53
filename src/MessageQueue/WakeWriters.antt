-- ===== src/MessageQueue/WakeWriters.antt =====
-- What the loop does that wakes the writers of a queue: as for the readers, and it frees the items.
use mathlib.Core.List.{append_assoc, append-nil}
use disastros_msg_queues.Base.{
  ◌≡◌, ◌≢◌, refl, ◌∙◌, ap, sym, fun_ext, List, [], ◌∷◌, ◌++◌, map, arith, erase, ◌∈◌, ◌∉◌, Distinct,
  ok, Returns-ok, Ptr, null, is_null-ne, update,
}
use disastros_msg_queues.PoolAllocator.{PoolAllocator, success, release_block}
use disastros_msg_queues.PoolAllocator.Live.{IsValid, Live, Freed, release_block-Freed}
use disastros_msg_queues.Os.{Os, Pcb, MessageQueue, set_mq}
use disastros_msg_queues.MessageQueue.Read.{wake_writer, wake_writers}
use disastros_msg_queues.MessageQueue.Wake.{
  Wakeable, awake, with_woken, woken_pcbs-cons, insert_last-new, detach-mem,
}

abbrev pub no_writers : Ptr → List Ptr → (Ptr → MessageQueue) → Ptr → MessageQueue
no_writers q [] mqs = mqs
no_writers q (w ∷ ws) mqs = update mqs q (record (mqs q) { waiting_to_write = [] })

abbrev pub with_ptrs : Os → PoolAllocator → Os
with_ptrs os b = record os { pcb_ptr_allocator = b }

-- None of the blocks is live any more; the others are what they were.
pub record FreedAll (a : PoolAllocator) (ws : List Ptr) (b : PoolAllocator) : Type 0 where
  pub valid : IsValid b
  pub keeps : (p : Ptr) → p ∉ ws → Live a p → Live b p
  pub only : (p : Ptr) → Live b p → Live a p × (p ∉ ws)

wake_writer-ok :
    (os : Os) (w : Ptr)
    → w ≢ null
    → os.pcb_ptrs w ≢ null
    → os.pcb_ptrs w ∈ os.waiting_list
    → os.pcb_ptrs w ∉ os.ready_list
    → (b : PoolAllocator) → release_block os.pcb_ptr_allocator w ≡ ok (success, b)
    → wake_writer os w
      ≡ ok (record os {
        ready_list = os.ready_list ++ os.pcb_ptrs w ∷ [];
        waiting_list = erase (os.pcb_ptrs w) os.waiting_list;
        pcbs = update os.pcbs (os.pcb_ptrs w) (awake (os.pcbs (os.pcb_ptrs w)));
        pcb_ptr_allocator = b;
      })
unfolding wake_writer
wake_writer-ok os w ne ne' at out b freed = rw (is_null-ne w _ _ ne) (
    rw (detach-mem os.waiting_list (os.pcb_ptrs w) ne' at)
      (rw (insert_last-new os.ready_list (os.pcb_ptrs w) ne' out) (rw freed refl)))

pub same_but_ptrs :
    (os : Os) {r r' w w' : List Ptr} {pcbs pcbs' : Ptr → Pcb} {mqs mqs' : Ptr → MessageQueue}
    (b : PoolAllocator)
    → r ≡ r'
    → w ≡ w'
    → pcbs ≡ pcbs'
    → mqs ≡ mqs'
    → ◌≡◌ {A = Os}
        (record os {
          ready_list = r;
          waiting_list = w;
          pcbs = pcbs;
          mqs = mqs;
          pcb_ptr_allocator = b;
        })
        (record os {
          ready_list = r';
          waiting_list = w';
          pcbs = pcbs';
          mqs = mqs';
          pcb_ptr_allocator = b;
        })
same_but_ptrs os b er ew ep em = λ i. record os {
  ready_list = er i;
  waiting_list = ew i;
  pcbs = ep i;
  mqs = em i;
  pcb_ptr_allocator = b;
}

no_writers-cons :
    (q : Ptr) (ws : List Ptr) (mqs : Ptr → MessageQueue)
    → no_writers q ws (update mqs q (record (mqs q) { waiting_to_write = ws }))
      ≡ update mqs q (record (mqs q) { waiting_to_write = [] })
no_writers-cons q [] mqs = refl
no_writers-cons q (v ∷ ws) mqs = fun_ext λ r. ground arith

pub FreedAll-cons :
    (a b c : PoolAllocator) (w : Ptr) (ws : List Ptr)
    → Freed a w b
    → FreedAll b ws c
    → FreedAll a (w ∷ ws) c
FreedAll-cons a b c w ws f fs = record {
  valid = fs.valid;
  keeps = λ p out alive. fs.keeps p (ground arith) (f.keeps p (ground arith) alive);
  only = λ p alive.
      let (in_b, out) = fs.only p alive in
      let (in_a, other) = f.only p in_b in (in_a, ground arith);
}

-- The writers become ready in the order in which they began to wait, the queue has none left, and
-- their items are free.
pub wake_writers-ok :
    (ws : List Ptr) (os : Os) (q : Ptr)
    → Wakeable os.pcb_ptrs os.waiting_list os.ready_list ws
    → IsValid os.pcb_ptr_allocator
    → ((w : Ptr) → w ∈ ws → Live os.pcb_ptr_allocator w)
    → Distinct ws
    → (b : PoolAllocator) × (wake_writers os q ws
        ≡ ok (with_woken (with_ptrs os b) (no_writers q ws os.mqs) ws))
      × FreedAll os.pcb_ptr_allocator ws b
unfolding wake_writers
wake_writers-ok [] os q h v alive d = (
  os.pcb_ptr_allocator,
  ap ok (same_but_ptrs os os.pcb_ptr_allocator (sym (append-nil os.ready_list)) refl refl refl),
  record { valid = v; keeps = λ p _ l. l; only = λ p l. (l, refl) },
)
wake_writers-ok (w ∷ ws) os q (ne, ne', at, out, later) v alive (apart, d) =
    let ((r, b), freed, (done, f)) =
      Returns-ok (release_block-Freed os.pcb_ptr_allocator w v (alive w (ground arith))) in
    let os' = set_mq os q (record (os.mqs q) { waiting_to_write = ws }) in
    let first = wake_writer-ok os' w ne ne' at out b (freed ∙ ap (λ s. ok (s, b)) done) in
    let (c, eq, fs) =
      wake_writers-ok ws
        (record os' {
          ready_list = os.ready_list ++ os.pcb_ptrs w ∷ [];
          waiting_list = erase (os.pcb_ptrs w) os.waiting_list;
          pcbs = update os.pcbs (os.pcb_ptrs w) (awake (os.pcbs (os.pcb_ptrs w)));
          pcb_ptr_allocator = b;
        })
        q later f.valid (λ u at'. f.keeps u (ground arith) (alive u (ground arith))) d in
    (
      c,
      rw first (
          eq
          ∙ ap ok (
              same_but_ptrs os c
                (append_assoc os.ready_list (os.pcb_ptrs w ∷ []) (map os.pcb_ptrs ws)) refl
                (woken_pcbs-cons (os.pcb_ptrs w) (map os.pcb_ptrs ws) os.pcbs)
                (no_writers-cons q ws os.mqs))),
      FreedAll-cons os.pcb_ptr_allocator b c w ws f fs,
    )
