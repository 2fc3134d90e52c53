-- ===== src/MessageQueue/Fifo.antt =====
-- A message that is written to an empty queue is the message that is read from it.
use disastros_msg_queues.Base.{
  ℕ, ◌<◌, ◌≡◌, ◌≢◌, ◌≤◌, refl, sym, ◌∙◌, ap, arith, if◌then◌else◌, List, [], ◌∷◌, ◌++◌, map, length,
  ℤ, eqb_ℤ, pos, pos_part, ◌≤ℤ◌, ok, Returns, Returns-ok, returns, ◌>>=◌, Ptr, null,
}
use disastros_msg_queues.PoolAllocator.Live.{HasBlock}
use disastros_msg_queues.Os.{Os, set_pcb}
use disastros_msg_queues.Process.{arg}
use disastros_msg_queues.MessageQueue.{by_id, readable, max_len_message, max_num_messages}
use disastros_msg_queues.MessageQueue.Write.{write}
use disastros_msg_queues.MessageQueue.Read.{read}
use disastros_msg_queues.MessageQueue.Invariant.{Inv}
use disastros_msg_queues.MessageQueue.Bytes.{length-bytes_from}
use disastros_msg_queues.MessageQueue.Contents.{payload, contents, bytes_at}
use disastros_msg_queues.MessageQueue.Writes.{named, Delivers, write-Delivers}
use disastros_msg_queues.MessageQueue.Reads.{Takes, read-Takes}

-- The running process makes its next call, with these arguments.
abbrev pub next_call : Os → (ℕ → ℤ) → Os
next_call os args = set_pcb os os.running (record (os.pcbs os.running) { syscall_args = args })

-- The arguments of a process are no part of the invariant.
next_call-Inv : (os : Os) (args : ℕ → ℤ) → Inv os → Inv (next_call os args)
next_call-Inv os args inv = record {
  message_pool = inv.message_pool;
  pcb_ptr_pool = inv.pcb_ptr_pool;
  scheduled = inv.scheduled;
  queues_exist = inv.queues_exist;
  queues = inv.queues;
  stored = inv.stored;
  waits = inv.waits;
  apart = inv.apart;
  one_place = inv.one_place;
}

arg-next_call : (os : Os) (args : ℕ → ℤ) (i : ℕ) → arg (next_call os args) i ≡ args i
arg-next_call os args i = ground arith

by_id-next_call :
    (os : Os) (args : ℕ → ℤ) (qs : List Ptr) (id : ℤ)
    → by_id (next_call os args) qs id ≡ by_id os qs id
unfolding by_id
by_id-next_call os args [] id = refl
by_id-next_call os args (q ∷ qs) id =
    ap (λ r. if eqb_ℤ (os.mqs q).id id then q else r) (by_id-next_call os args qs id)

-- A list with one byte string comes from one message.
one_message :
    (f : Ptr → List ℕ) (ms : List Ptr) (x : List ℕ)
    → map f ms ≡ x ∷ []
    → (m : Ptr) × (ms ≡ m ∷ []) × (f m ≡ x)
one_message f [] x e = cc
one_message f (m ∷ []) x e = (m, refl, ground arith)
one_message f (m ∷ n ∷ ms) x e = cc

no_message : (f : Ptr → List ℕ) (ms : List Ptr) → map f ms ≡ [] → ms ≡ []
no_message f [] e = refl
no_message f (m ∷ ms) e = cc

readable-ok : (n : ℤ) (buffer : Ptr) → buffer ≢ null → readable n buffer ≡ ok buffer
readable-ok n buffer ne = ground arith

heads : (x y : List ℕ) (zs : List (List ℕ)) → x ∷ [] ≡ y ∷ zs → (x ≡ y) × (zs ≡ [])
heads x y zs e = (cc, cc)

-- What the reader gets: the bytes that were written, their number, and an empty queue.
pub record Handed (os : Os) (buf : Ptr) (os' : Os) : Type 0 where
  pub valid : Inv os'
  pub bytes :
      bytes_at os' buf (pos_part (arg os 2))
      ≡ bytes_at os (pos_part (arg os 1)) (pos_part (arg os 2))
  pub count : pos_part (os'.pcbs os'.running).syscall_retvalue ≡ pos_part (arg os 2)
  pub emptied : contents os' (named os) ≡ []

module _ (os : Os) (args : ℕ → ℤ) (k : ℕ) (empty : contents os (named os) ≡ [])
    (found : named os ≢ null) (same_queue : args 0 ≡ arg os 0) (space : args 2 ≡ pos k)
    (enough : pos_part (arg os 2) ≤ k) (target : pos_part (args 1) ≢ null) where
  module _ (os1 : Os) (d : Delivers os (named os) os1) where
    next : Os
    next = next_call os1 args

    same_name : named next ≡ named os
    unfolding next
    same_name =
        by_id-next_call os1 args os1.mq_list (arg (next_call os1 args) 0)
        ∙ ap (by_id os1 os1.mq_list) (arg-next_call os1 args 0 ∙ same_queue)
        ∙ d.same_names (arg os 0)

    written : List ℕ
    written = bytes_at os (pos_part (arg os 1)) (pos_part (arg os 2))

    holds : contents next (named next) ≡ written ∷ []
    unfolding next written
    holds =
        ap (contents os1) same_name
        ∙ d.appended
        ∙ ap (λ l. l ++ bytes_at os (pos_part (arg os 1)) (pos_part (arg os 2)) ∷ []) empty

    taken-Handed : (os2 : Os) → Takes next (named next) os2 → Handed os (pos_part (args 1)) os2
    unfolding next written
    taken-Handed os2 t =
        let buf = pos_part (args 1) in
        let (same, rest) = heads written _ _ (sym holds ∙ t.taken) in
        let ret = pos_part (os2.pcbs os1.running).syscall_retvalue in
        let same' : written ≡ bytes_at os2 buf ret =
          same ∙ ap (λ a. bytes_at os2 (pos_part a) ret) (arg-next_call os1 args 1) in
        let size : pos_part (arg os 2) ≡ ret =
          sym (length-bytes_from (pos_part (arg os 2)) 0 _)
          ∙ ap length same'
          ∙ length-bytes_from ret 0 _ in
        record {
          valid = t.valid;
          bytes = ap (bytes_at os2 buf) size ∙ sym same';
          count = ap (λ p. pos_part (os2.pcbs p).syscall_retvalue) t.runs_on ∙ sym size;
          emptied = ap (contents os2) (sym same_name) ∙ rest;
        }

    read-Handed : Returns (Handed os (pos_part (args 1))) (read next)
    unfolding next written
    read-Handed =
        let (m, first, bytes) =
          one_message (λ m. payload (os1.messages m)) (os1.mqs (named next)).messages written
            holds in
        let size : pos_part (os1.messages m).length ≡ pos_part (arg os 2) =
          sym (length-bytes_from (pos_part (os1.messages m).length) 0 (os1.messages m).message)
          ∙ ap length bytes
          ∙ length-bytes_from (pos_part (arg os 2)) 0 _ in
        let given : arg next 2 ≡ pos k = arg-next_call os1 args 2 ∙ space in
        let fits : (os1.messages m).length ≤ℤ arg next 2 = rw given (omega arith) in
        let exists : named next ≢ null = rw same_name found in
        let there : pos_part (arg next 1) ≢ null = rw (arg-next_call os1 args 1) target in
        let (os2, eq, t) = Returns-ok (
          read-Takes next (next_call-Inv os1 args d.valid) exists m [] first fits
            (readable-ok (os1.messages m).length (pos_part (arg next 1)) there)) in
        rw eq (returns (taken-Handed os2 t))

  -- The running process writes a message of at most 64 bytes to an empty queue, where no access
  -- fails, and then calls read for the same queue with a buffer that is long enough: the read returns,
  -- the bytes at its buffer are those that were written, the result is their number, the queue is
  -- empty again, and the invariant holds.
  pub write-read :
      Inv os
      → pos_part (arg os 2) ≤ max_len_message
      → HasBlock os.message_allocator
      → readable (arg os 2) (pos_part (arg os 1)) ≡ ok (pos_part (arg os 1))
      → Returns (Handed os (pos_part (args 1))) (write os >>= λ os'. read (next_call os' args))
  unfolding next
  write-read inv short block buffer =
      let none = no_message (λ m. payload (os.messages m)) (os.mqs (named os)).messages empty in
      let room : length (os.mqs (named os)).messages < max_num_messages = rw none (omega arith) in
      let (os1, eq, d) = Returns-ok (write-Delivers os inv found short room block buffer) in
      rw eq (read-Handed os1 d)
