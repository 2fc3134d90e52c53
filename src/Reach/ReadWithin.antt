-- ===== src/Reach/ReadWithin.antt =====
-- A read and a turn of the scheduler create nothing.
use disastros_msg_queues.MessageQueue.Write.{woken}
use disastros_msg_queues.Os.{ProcessStatus, set_pcb}
use disastros_msg_queues.Base.{fault, failed_assert}
use disastros_msg_queues.Base.{
  ◌≡◌, refl, arith, List, [], ◌∷◌, ◌++◌, has-append, ◌∈◌, ℤ, ltb_ℤ, ◌>>=◌, ok, Holds, holds, stops,
  Holds-bind, Holds-if, Holds-any, Ptr, null, sym, subst,
}
use disastros_msg_queues.PoolAllocator.{
  PoolAllocatorResult, success, not_enough_memory, unaligned_free, out_of_range, double_free,
  release_block,
}
use disastros_msg_queues.Sequence.{insert_last}
use disastros_msg_queues.Os.{Os, valid, set_mq}
use disastros_msg_queues.Process.{ptr_free}
use disastros_msg_queues.MessageQueue.{readable}
use disastros_msg_queues.MessageQueue.Read.{
  suspend_reader, wake_writer, wake_writers, receive, read_from, read,
}
use disastros_msg_queues.Schedule.{wake_timers, rotate, schedule}
use disastros_msg_queues.Reach.Within.{
  Within, Within-refl, Within-after, Within-bind, insert_last-has, detach-has, quiet,
  put_to_wait-Within, run_next-Within, ptr_alloc-Within, woken_among,
}

suspend_reader-Within : (os : Os) (mq : Ptr) → Holds (Within os) (suspend_reader os mq)
unfolding suspend_reader
suspend_reader-Within os mq =
    Within-bind (λ s. s) (put_to_wait-Within os)
      λ os. Holds-bind (Holds-any (valid mq)) λ q _.
        Within-bind (λ (_, s). s) (ptr_alloc-Within os os.running)
          λ (p, os). Holds-bind (Holds-any (insert_last (os.mqs q).waiting_to_read p)) λ l _.
            Within-bind (λ s. s) (holds (quiet os _ refl refl refl refl refl)) run_next-Within

ptr_free-Within : (os : Os) (p : Ptr) → Holds (λ (_, s). Within os s) (ptr_free os p)
unfolding ptr_free
ptr_free-Within os p =
    Holds-bind (Holds-any (release_block os.pcb_ptr_allocator p))
      λ (r, a) _. holds (quiet os _ refl refl refl refl refl)

checked-Within :
    (os : Os) (r : PoolAllocatorResult)
    → Holds (Within os) (elim r [ success ↦ ok os | _ ↦ fault failed_assert ])
checked-Within os success = holds (Within-refl os)
checked-Within os not_enough_memory = stops
checked-Within os unaligned_free = stops
checked-Within os out_of_range = stops
checked-Within os double_free = stops

wake_writer-Within : (os : Os) (w : Ptr) → Holds (Within os) (wake_writer os w)
unfolding wake_writer
wake_writer-Within os w = Holds-bind (Holds-any (valid w)) λ w _.
    Holds-bind (detach-has os.waiting_list (os.pcb_ptrs w)) λ waiting (at, before).
      Holds-bind (insert_last-has os.ready_list (os.pcb_ptrs w)) λ ready joined.
        let next =
          record (set_pcb os (os.pcb_ptrs w) (record (os.pcbs (os.pcb_ptrs w)) {
            status = ProcessStatus.ready;
            syscall_retvalue = woken;
          })) { waiting_list = waiting; ready_list = ready } in
        let moves : Within os next = record {
          same_pcbs = refl;
          same_mqs = refl;
          same_list = refl;
          same_timers = refl;
          among = λ p at'. woken_among os ready waiting p at joined before at';
        } in
        Within-after
          (Within-bind (λ (_, s). s) (ptr_free-Within next w) (λ (r, s). checked-Within s r)) moves

wake_writers-Within : (os : Os) (q : Ptr) (ws : List Ptr) → Holds (Within os) (wake_writers os q ws)
unfolding wake_writers
wake_writers-Within os q [] = holds (Within-refl os)
wake_writers-Within os q (w ∷ ws) =
    let next = set_mq os q (record (os.mqs q) { waiting_to_write = ws }) in
    Within-bind (λ s. s)
      (Within-after (wake_writer-Within next w) (quiet os next refl refl refl refl refl))
      λ s. wake_writers-Within s q ws

receive-Within :
    (os : Os) (q m : Ptr) (rest : List Ptr) (buf : Ptr)
    → Holds (Within os) (receive os q m rest buf)
unfolding receive
receive-Within os q m rest buf =
    let next = set_mq os q (record (os.mqs q) { messages = rest }) in
    Within-bind (λ s. s)
      (Within-after (wake_writers-Within next q (next.mqs q).waiting_to_write)
        (quiet os next refl refl refl refl refl))
      λ s.
        Holds-bind (Holds-any (readable (s.messages m).length buf))
          λ b _. holds (quiet s _ refl refl refl refl refl)

read_from-Within :
    (os : Os) (q : Ptr) (ms : List Ptr) (buf : Ptr) (n : ℤ)
    → Holds (Within os) (read_from os q ms buf n)
unfolding read_from
read_from-Within os q [] buf n = suspend_reader-Within os q
read_from-Within os q (m ∷ rest) buf n =
    Holds-if (ltb_ℤ n (os.messages m).length) (λ _. holds (quiet os _ refl refl refl refl refl))
      λ _. receive-Within os q m rest buf

pub read-Within : (os : Os) → Holds (Within os) (read os)
unfolding read
read-Within os = Holds-bind (Holds-any (valid os.running)) λ _ _. read_from-Within os _ _ _ _

rotate-Within : (os : Os) (l : List Ptr) → os.ready_list ≡ l → Holds (Within os) (rotate os l)
unfolding rotate
rotate-Within os [] e = holds (Within-refl os)
rotate-Within os (next ∷ rest) e = Holds-bind (Holds-any (valid os.running)) λ _ _.
    Holds-bind (insert_last-has rest os.running) λ ready joined. holds (record {
      same_pcbs = refl;
      same_mqs = refl;
      same_list = refl;
      same_timers = refl;
      among = λ p at.
          subst (λ l. p ∈ os.running ∷ l ++ os.waiting_list) (sym e)
            (ground (
              arith,
              at,
              joined p,
              has-append p ready os.waiting_list,
              has-append p rest os.waiting_list,
            ));
    })

-- Where there is no timer.
pub schedule-Within : (os : Os) → os.timer_list ≡ [] → Holds (Within os) (schedule os)
unfolding schedule wake_timers
schedule-Within os none =
    subst (λ l. Holds (Within os) (wake_timers os null l >>= λ s. rotate s s.ready_list)) (sym none)
      (rotate-Within os os.ready_list refl)
