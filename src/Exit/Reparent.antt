-- ===== src/Exit/Reparent.antt =====
-- The children of a process that ends.
use disastros_msg_queues.Base.{
  ◌≡◌, ◌≢◌, refl, arith, ◌==◌, false, List, [], ◌∷◌, ◌++◌, ◌∈◌, ◌∉◌, has-append, Distinct, ok, Ptr,
  null, is_null-ne,
}
use disastros_msg_queues.Os.{Os, set_pcb}
use disastros_msg_queues.MessageQueue.Wake.{insert_last-new}
use disastros_msg_queues.Exit.{send_signal, reparent, sighup}

-- The items can go to init: each is new there and has a process; nobody is init or ends here.
pub record CanMove (os : Os) (cs : List Ptr) : Type 0 where
  pub not_init : os.init_pcb ≢ os.running
  pub children : (os.pcbs os.running).children ≡ cs
  pub distinct : Distinct cs
  pub items :
      (c : Ptr)
      → c ∈ cs
      → (c ≢ null) × (os.pcb_ptrs c ≢ null) × (c ∉ (os.pcbs os.init_pcb).children)

-- The running process has no child left, and those that it had are the last of init's.
pub record Moves (os : Os) (cs : List Ptr) (os' : Os) : Type 0 where
  pub none_left : (os'.pcbs os.running).children ≡ []
  pub adopted : (os'.pcbs os.init_pcb).children ≡ (os.pcbs os.init_pcb).children ++ cs
  pub others :
      (p : Ptr) → p ≢ os.running → p ≢ os.init_pcb → (os'.pcbs p).children ≡ (os.pcbs p).children
  pub same_process : (os'.running ≡ os.running) × (os'.init_pcb ≡ os.init_pcb)
  pub same_items : os'.pcb_ptrs ≡ os.pcb_ptrs

module _ (os : Os) (c : Ptr) (cs : List Ptr) (v : CanMove os (c ∷ cs)) where
  -- The state behind one round.
  unfoldable pub with_running : Os
  with_running = set_pcb os os.running (record (os.pcbs os.running) { children = cs })

  unfoldable pub init_children : List Ptr
  init_children = (os.pcbs os.init_pcb).children ++ c ∷ []

  unfoldable pub round : Os
  round =
      send_signal
        (set_pcb with_running os.init_pcb
          (record (with_running.pcbs os.init_pcb) { children = init_children }))
        (os.pcb_ptrs c) sighup

  pub reparent-ok : reparent os c cs ≡ ok round
  unfolding reparent round with_running init_children
  reparent-ok =
      let (ne, ne', out) = v.items c (ground arith) in
      let other : (os.running == os.init_pcb) ≡ false = ground (arith, v.not_init) in
      rw other (
        rw (insert_last-new (os.pcbs os.init_pcb).children c ne out)
          (rw (is_null-ne (os.pcb_ptrs c) _ _ ne') refl))

  pub children_running : (round.pcbs os.running).children ≡ cs
  unfolding round with_running init_children send_signal
  children_running = ground (arith, v.not_init)

  pub children_init : (round.pcbs os.init_pcb).children ≡ (os.pcbs os.init_pcb).children ++ c ∷ []
  unfolding round with_running init_children send_signal
  children_init = ground (arith, v.not_init)

  pub children_others :
      (p : Ptr) → p ≢ os.running → p ≢ os.init_pcb → (round.pcbs p).children ≡ (os.pcbs p).children
  unfolding round with_running init_children send_signal
  children_others p a b = ground arith

  pub round-CanMove : CanMove round cs
  unfolding round with_running init_children send_signal
  round-CanMove = record {
    not_init = v.not_init;
    children = children_running;
    distinct = v.distinct.1;
    items = λ d at.
        let (ne, ne', out) = v.items d (ground arith) in
        (
          ne,
          ne',
          rw children_init
              (ground (arith, has-append d (os.pcbs os.init_pcb).children (c ∷ []), v.distinct)),
        );
  }
