-- ===== src/Examples/Waits.antt =====
-- Runs that wait for a child that has ended, and that end.
use disastros_msg_queues.Base.{
  ◌≡◌, refl, subst, arith, false, ◌∈◌, Ptr, ◌==◌, if◌then◌else◌, [], ◌∷◌, pos, Returns,
}
use disastros_msg_queues.Os.{ProcessStatus, Os}
use disastros_msg_queues.Wait.{wait}
use disastros_msg_queues.Wait.Ended.{is_meant, HasEnded}
use disastros_msg_queues.Wait.Reaps.{Reaps, wait-Reaps}
use disastros_msg_queues.Exit.{is_awaited, exit}
use disastros_msg_queues.Exit.Ends.{CanEnd, Ends, exit-Ends}
use disastros_msg_queues.Examples.State.{pool, used, used-Fresh, queue, kernel, pcb}

-- Process 11 waits for any child: that of the item 30 is ready, that of the item 1024 has ended, and
-- the value goes to 5000.
abbrev waiting_parent : Os
waiting_parent = record (kernel pool used [] (queue [] (pos 0) []) (pos 0)) {
  pcb_allocator = used;
  zombie_list = 14 ∷ 1024 ∷ [];
  pcb_ptrs = λ c. if c == 30 then 13 else 1024;
  pcbs = λ p.
      record (pcb (if p == 1024 then ProcessStatus.zombie else ProcessStatus.ready)
        (λ i. if i == 0 then pos 0 else pos 5000)) {
          pid = p;
          children = if p == 11 then 30 ∷ 1024 ∷ 31 ∷ [] else [];
        };
}

earlier : (x : Ptr) → x ∈ 30 ∷ [] → is_meant waiting_parent (pos 0) x ≡ false
earlier x at =
    let e : 30 ≡ x = ground arith in subst (λ c. is_meant waiting_parent (pos 0) c ≡ false) e refl

waiting_parent-HasEnded : HasEnded waiting_parent (30 ∷ []) 1024 (31 ∷ [])
waiting_parent-HasEnded = record {
  exists = ground arith;
  children = refl;
  earlier = λ x at. (ground arith, earlier x at);
  meant = refl;
  item = ground arith;
  item_pool = used-Fresh.valid;
  item_live = used-Fresh.now;
  child = ground arith;
  ended = refl;
  zombie = refl;
  distinct = (refl, (refl, tt));
  pool = used-Fresh.valid;
  live = used-Fresh.now;
}

wait-Reaps_example : Returns (Reaps waiting_parent (30 ∷ []) 1024 (31 ∷ [])) (wait waiting_parent)
wait-Reaps_example = wait-Reaps waiting_parent (30 ∷ []) 1024 (31 ∷ []) waiting_parent-HasEnded

-- Process 11 ends with 7, a child of process 12, which is asleep; 13 is ready.
abbrev ending : Os
ending = record (kernel pool pool (12 ∷ []) (queue [] (pos 0) []) (pos 0)) {
  pcbs = λ p.
      record (pcb (if p == 12 then ProcessStatus.waiting else ProcessStatus.ready) (λ i. pos 7)) {
        parent = 12;
        syscall_num = if p == 12 then pos 6 else pos 4;
      };
}

ending-CanEnd : CanEnd ending 13 []
unfolding is_awaited
ending-CanEnd = record {
  exists = ground arith;
  init = ground arith;
  no_child = refl;
  parent = ground arith;
  not_parent = ground arith;
  not_awaited = refl;
  new = refl;
  is_ready = refl;
  not_ready = ground arith;
}

exit-Ends_example : Returns (Ends ending 13 []) (exit ending)
exit-Ends_example = exit-Ends ending 13 [] ending-CanEnd
