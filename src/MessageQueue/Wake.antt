-- ===== src/MessageQueue/Wake.antt =====
-- What the loops do that wake the waiting processes of a queue.
use mathlib.Core.List.{append_assoc, append-nil}
use disastros_msg_queues.Base.{
  ◌≡◌, ◌≢◌, refl, ◌∙◌, ap, sym, fun_ext, List, [], ◌∷◌, ◌++◌, map, if◌then◌else◌, arith, has, erase,
  without, ◌∈◌, ◌∉◌, has-append, mem-erase, Distinct, ok, Ptr, null, is_null-ne, update,
}
use disastros_msg_queues.Sequence.{insert_last, detach}
use disastros_msg_queues.Os.{ProcessStatus, Os, Pcb, MessageQueue, set_mq}
use disastros_msg_queues.MessageQueue.Write.{woken, wake_reader, wake_readers}

-- The processes behind the items can be woken one after the other: each waits and is not ready.
abbrev pub Wakeable : (Ptr → Ptr) → (waiting ready ws : List Ptr) → Type 0
Wakeable pcb_of waiting ready [] = Unit {0}
Wakeable pcb_of waiting ready (w ∷ ws) =
    (w ≢ null)
    × (pcb_of w ≢ null)
    × (pcb_of w ∈ waiting)
    × (pcb_of w ∉ ready)
    × Wakeable pcb_of (erase (pcb_of w) waiting) (ready ++ pcb_of w ∷ []) ws

-- A woken process is ready, and its call returns -20.
abbrev pub awake : Pcb → Pcb
awake pcb = record pcb { status = ProcessStatus.ready; syscall_retvalue = woken }

abbrev pub woken_pcbs : List Ptr → (Ptr → Pcb) → Ptr → Pcb
woken_pcbs ps pcbs p = if has p ps then awake (pcbs p) else pcbs p

-- The queue's readers are gone; the loop that makes no round writes nothing.
abbrev pub no_readers : Ptr → List Ptr → (Ptr → MessageQueue) → Ptr → MessageQueue
no_readers q [] mqs = mqs
no_readers q (w ∷ ws) mqs = update mqs q (record (mqs q) { waiting_to_read = [] })

-- The state behind the loop over the items `ws`.
abbrev pub with_woken : Os → (mqs : Ptr → MessageQueue) (ws : List Ptr) → Os
with_woken os mqs ws = record os {
  ready_list = os.ready_list ++ map os.pcb_ptrs ws;
  waiting_list = without (map os.pcb_ptrs ws) os.waiting_list;
  pcbs = woken_pcbs (map os.pcb_ptrs ws) os.pcbs;
  mqs = mqs;
}

pub woken_pcbs-cons :
    (p : Ptr) (ps : List Ptr) (pcbs : Ptr → Pcb)
    → woken_pcbs ps (update pcbs p (awake (pcbs p))) ≡ woken_pcbs (p ∷ ps) pcbs
woken_pcbs-cons p ps pcbs = fun_ext λ q. ground arith

-- Two states that differ in these parts at most are equal if the parts are.
pub same_parts :
    (os : Os) {r r' w w' : List Ptr} {pcbs pcbs' : Ptr → Pcb} {mqs mqs' : Ptr → MessageQueue}
    → r ≡ r'
    → w ≡ w'
    → pcbs ≡ pcbs'
    → mqs ≡ mqs'
    → ◌≡◌ {A = Os}
        (record os { ready_list = r; waiting_list = w; pcbs = pcbs; mqs = mqs })
        (record os { ready_list = r'; waiting_list = w'; pcbs = pcbs'; mqs = mqs' })
same_parts os er ew ep em =
    λ i. record os { ready_list = er i; waiting_list = ew i; pcbs = ep i; mqs = em i }

no_readers-cons :
    (q : Ptr) (ws : List Ptr) (mqs : Ptr → MessageQueue)
    → no_readers q ws (update mqs q (record (mqs q) { waiting_to_read = ws }))
      ≡ update mqs q (record (mqs q) { waiting_to_read = [] })
no_readers-cons q [] mqs = refl
no_readers-cons q (v ∷ ws) mqs = fun_ext λ r. ground arith

pub insert_last-new :
    (xs : List Ptr) (p : Ptr) → p ≢ null → p ∉ xs → insert_last xs p ≡ ok (xs ++ p ∷ [])
unfolding insert_last
insert_last-new xs p ne out = ground arith

pub detach-mem : (xs : List Ptr) (p : Ptr) → p ≢ null → p ∈ xs → detach xs p ≡ ok (erase p xs)
unfolding detach
detach-mem xs p ne at = ground arith

wake_reader-ok :
    (os : Os) (w : Ptr)
    → w ≢ null
    → os.pcb_ptrs w ≢ null
    → os.pcb_ptrs w ∈ os.waiting_list
    → os.pcb_ptrs w ∉ os.ready_list
    → wake_reader os w
      ≡ ok (record os {
        ready_list = os.ready_list ++ os.pcb_ptrs w ∷ [];
        waiting_list = erase (os.pcb_ptrs w) os.waiting_list;
        pcbs = update os.pcbs (os.pcb_ptrs w) (awake (os.pcbs (os.pcb_ptrs w)));
      })
unfolding wake_reader
wake_reader-ok os w ne ne' at out = rw (is_null-ne w _ _ ne) (
    ground (
      arith,
      detach-mem os.waiting_list (os.pcb_ptrs w) ne' at,
      insert_last-new os.ready_list (os.pcb_ptrs w) ne' out,
    ))

-- The readers become ready in the order in which they began to wait, and the queue has none left.
pub wake_readers-ok :
    (ws : List Ptr) (os : Os) (q : Ptr)
    → Wakeable os.pcb_ptrs os.waiting_list os.ready_list ws
    → wake_readers os q ws ≡ ok (with_woken os (no_readers q ws os.mqs) ws)
unfolding wake_readers
wake_readers-ok [] os q h = ap ok (same_parts os (sym (append-nil os.ready_list)) refl refl refl)
wake_readers-ok (w ∷ ws) os q (ne, ne', at, out, rest) =
    rw (wake_reader-ok (set_mq os q (record (os.mqs q) { waiting_to_read = ws })) w ne ne' at out) (
      wake_readers-ok ws _ q rest
      ∙ ap ok (
          same_parts os (append_assoc os.ready_list (os.pcb_ptrs w ∷ []) (map os.pcb_ptrs ws)) refl
            (woken_pcbs-cons (os.pcb_ptrs w) (map os.pcb_ptrs ws) os.pcbs)
            (no_readers-cons q ws os.mqs)))

-- Processes that wait, are not ready, and are all different can be woken one after the other.
pub Wakeable-all :
    (pcb_of : Ptr → Ptr) (waiting ready ws : List Ptr)
    → ((w : Ptr)
        → w ∈ ws
        → (w ≢ null) × (pcb_of w ≢ null) × (pcb_of w ∈ waiting) × (pcb_of w ∉ ready))
    → Distinct ws
    → ((w v : Ptr) → w ∈ ws → v ∈ ws → pcb_of w ≡ pcb_of v → w ≡ v)
    → Wakeable pcb_of waiting ready ws
Wakeable-all pcb_of waiting ready [] each d inj = tt
Wakeable-all pcb_of waiting ready (w ∷ ws) each (out, d) inj =
    let (ne, ne', at, new) = each w (ground arith) in
    (
      ne,
      ne',
      at,
      new,
      Wakeable-all pcb_of (erase (pcb_of w) waiting) (ready ++ pcb_of w ∷ []) ws
          (λ v at'.
            let (vne, vne', vat, vnew) = each v (ground arith) in
            let other : pcb_of v ≢ pcb_of w =
              λ e. ground (arith, inj v w (ground arith) (ground arith) e) in
            (
              vne,
              vne',
              mem-erase (pcb_of v) (pcb_of w) waiting vat other,
              ground (arith, has-append (pcb_of v) ready (pcb_of w ∷ [])),
            ))
          d (λ u v at' at''. inj u v (ground arith) (ground arith)),
    )
