-- ===== src/Exit/Ends.antt =====
-- A process without children ends while nobody waits for it.
use Prim.Native.Nat.{bit_or, bit_and}
use disastros_msg_queues.Base.{
  ◌≡◌, ◌≢◌, refl, ◌∙◌, ap, arith, false, length, if◌then◌else◌, ◌>>=◌, Run, List, [], ◌∷◌, ◌++◌,
  ◌∉◌, ok, Returns, returns, Ptr, null, is_null-ne,
}
use disastros_msg_queues.Os.{ProcessStatus, Os, valid, set_pcb, set_status}
use disastros_msg_queues.Process.{arg, next_ready, run_next}
use disastros_msg_queues.Sequence.{insert_last, detach_first}
use disastros_msg_queues.MessageQueue.Wake.{insert_last-new}
use disastros_msg_queues.Exit.{sigchld, send_signal, reparent_all, is_awaited, wake_parent, exit}

-- The process runs and is no zombie yet, its parent is another one that does not wait for it, and
-- `next` is the first one that is ready.
pub record CanEnd (os : Os) (next : Ptr) (rest : List Ptr) : Type 0 where
  pub exists : os.running ≢ null
  pub init : os.init_pcb ≢ null
  pub no_child : (os.pcbs os.running).children ≡ []
  pub parent : (os.pcbs os.running).parent ≢ null
  pub not_parent : (os.pcbs os.running).parent ≢ os.running
  pub not_awaited : is_awaited os (os.pcbs os.running).parent ≡ false
  pub new : os.running ∉ os.zombie_list
  pub is_ready : os.ready_list ≡ next ∷ rest
  pub not_ready : next ≢ os.running

-- The process is the last zombie, with its value, its parent has the signal, and `next` runs.
pub record Ends (os : Os) (next : Ptr) (rest : List Ptr) (os' : Os) : Type 0 where
  pub ended :
      os'.pcbs os.running
      ≡ record (os.pcbs os.running) { return_value = arg os 0; status = ProcessStatus.zombie }
  pub zombies : os'.zombie_list ≡ os.zombie_list ++ os.running ∷ []
  pub signals :
      (os'.pcbs (os.pcbs os.running).parent).signals
      ≡ bit_or
          (os.pcbs (os.pcbs os.running).parent).signals
          (bit_and sigchld (os.pcbs (os.pcbs os.running).parent).signals_mask)
  pub others :
      (p : Ptr)
      → p ≢ os.running
      → p ≢ (os.pcbs os.running).parent
      → p ≢ next
      → os'.pcbs p ≡ os.pcbs p
  pub runs_on : os'.running ≡ next
  pub runs : (os'.pcbs next).status ≡ ProcessStatus.running
  pub ready : os'.ready_list ≡ rest
  pub same_waiting : os'.waiting_list ≡ os.waiting_list
  pub same_mqs : os'.mqs ≡ os.mqs
  pub same_descriptors :
      (os'.descriptor_allocator ≡ os.descriptor_allocator)
      × (os'.descriptor_ptr_allocator ≡ os.descriptor_ptr_allocator)
  pub same_pools :
      (os'.pcb_allocator ≡ os.pcb_allocator) × (os'.pcb_ptr_allocator ≡ os.pcb_ptr_allocator)

-- What `exit` does with the parent.
abbrev tell : Os → (parent : Ptr) → Run Os
tell os parent =
    let os = send_signal os parent sigchld in
    if is_awaited os parent then wake_parent os parent else run_next os

-- What `exit` does behind its loop.
abbrev finish : Os → Run Os
finish os = do
  let os = set_status os os.running ProcessStatus.zombie
  z ← insert_last os.zombie_list os.running
  let os = record os { zombie_list = z }
  parent ← valid (os.pcbs os.running).parent
  tell os parent

-- The process has its value.
abbrev valued : Os → Os
valued os = set_pcb os os.running (record (os.pcbs os.running) { return_value = arg os 0 })

exit-loop :
    (os : Os)
    → os.running ≢ null
    → os.init_pcb ≢ null
    → exit os ≡ (
        let children = ((valued os).pcbs os.running).children in
        reparent_all (length children) (valued os) children >>= finish)
unfolding exit
exit-loop os exists init =
    rw (is_null-ne os.running _ _ exists) (rw (is_null-ne os.init_pcb _ _ init) refl)

no_round :
    (os : Os) (children : List Ptr)
    → children ≡ []
    → reparent_all (length children) os children ≡ ok os
unfolding reparent_all
no_round os children none = ap (λ l. reparent_all (length l) os l) none

next_runs :
    (os : Os) (next : Ptr) (rest : List Ptr)
    → os.ready_list ≡ next ∷ rest
    → run_next os
      ≡ ok (record (set_status (record os { ready_list = rest }) next ProcessStatus.running) {
        running = next;
      })
unfolding run_next next_ready detach_first
next_runs os next rest e = rw e refl

module _ (os : Os) (next : Ptr) (rest : List Ptr) (v : CanEnd os next rest) where
  abbrev parent : Ptr
  parent = (os.pcbs os.running).parent

  unfoldable marked : Os
  marked = record (set_status (valued os) os.running ProcessStatus.zombie) {
    zombie_list = os.zombie_list ++ os.running ∷ [];
  }

  -- Behind the signal to the parent.
  unfoldable signalled : Os
  signalled = send_signal marked parent sigchld

  unfoldable behind : Os
  behind = record (set_status (record signalled { ready_list = rest }) next ProcessStatus.running) {
    running = next;
  }

  still_not_awaited : is_awaited signalled parent ≡ false
  unfolding is_awaited signalled marked send_signal
  still_not_awaited = ground (arith, v.not_parent, v.not_awaited)

  same_parent : (marked.pcbs os.running).parent ≡ parent
  unfolding marked
  same_parent = ground arith

  still_ready : signalled.ready_list ≡ next ∷ rest
  unfolding signalled marked send_signal
  still_ready = v.is_ready

  tell-ok : tell marked parent ≡ ok behind
  unfolding signalled behind
  tell-ok =
      ap (λ b. if b then wake_parent signalled parent else run_next signalled) still_not_awaited
      ∙ next_runs signalled next rest still_ready

  parent-valid : valid (marked.pcbs os.running).parent ≡ ok parent
  parent-valid = ap valid same_parent ∙ is_null-ne parent _ _ v.parent

  finish-marks : finish (valued os) ≡ (valid (marked.pcbs os.running).parent >>= tell marked)
  unfolding marked
  finish-marks = rw (insert_last-new os.zombie_list os.running v.exists v.new) refl

  no_child-valued : ((valued os).pcbs os.running).children ≡ []
  no_child-valued = ground (arith, v.no_child)

  exit-ok : exit os ≡ ok behind
  exit-ok =
      exit-loop os v.exists v.init
      ∙ ap (λ r. r >>= finish)
          (no_round (valued os) ((valued os).pcbs os.running).children no_child-valued)
      ∙ finish-marks
      ∙ ap (λ r. r >>= tell marked) parent-valid
      ∙ tell-ok

  behind-Ends : Ends os next rest behind
  unfolding behind signalled marked send_signal
  behind-Ends = record {
    ended = ground (arith, v.not_parent, v.not_ready);
    zombies = refl;
    signals = ground (arith, v.not_parent);
    others = λ p a b c. ground arith;
    runs_on = refl;
    runs = ground arith;
    ready = refl;
    same_waiting = refl;
    same_mqs = refl;
    same_descriptors = (refl, refl);
    same_pools = (refl, refl);
  }

-- A process that has no children ends while its parent does not wait for it, and another process is
-- ready: the loop over its children ends and no access fails; it becomes the last zombie, with its
-- value and all that it held, so its descriptors stay open, its parent gets SIGCHLD unless masked,
-- and the first ready process runs. No other process, no queue and no pool of processes and
-- descriptors changes.
pub exit-Ends :
    (os : Os) (next : Ptr) (rest : List Ptr)
    → CanEnd os next rest
    → Returns (Ends os next rest) (exit os)
exit-Ends os next rest v = rw (exit-ok os next rest v) (returns (behind-Ends os next rest v))
