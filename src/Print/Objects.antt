-- ===== src/Print/Objects.antt =====
-- The functions that print descriptors, resources, messages, queues and the whole state.
use Prim.Native.String.{String}
use disastros_msg_queues.Base.{
  ℕ, zero, suc, ◌==◌, List, [], ◌∷◌, ◌++◌, if◌then◌else◌, pos, Run, ok, fault, out_of_bounds, ◌>>=◌,
  Ptr, is_null,
}
use disastros_msg_queues.Os.{Os, valid}
use disastros_msg_queues.MessageQueue.{max_len_message, is_empty}
use disastros_msg_queues.Print.{
  Piece, text, number, bytes, separated, lines, pcb, pcb_list, timer_list,
}

-- `DescriptorList_print`
unfoldable pub descriptor_list : Os → List Ptr → Run (List Piece)
unfolding separated
descriptor_list os l = do
  o ←
      separated
        (λ d. do
          r ← valid (os.descriptors d).resource
          ok (
              text "(fd: "
              ∷ number (pos (os.descriptors d).fd)
              ∷ text ", rid:"
              ∷ number (os.resources r).id
              ∷ text ")"
              ∷ []))
        ", " l
  ok (text "[" ∷ o ++ text "]" ∷ [])

-- `DescriptorPtrList_print`: the number of the descriptor stands behind `pid`.
unfoldable pub descriptor_ptr_list : Os → List Ptr → Run (List Piece)
unfolding separated
descriptor_ptr_list os l = do
  o ←
      separated
        (λ x. do
          d ← valid (os.descriptor_ptrs x)
          p ← valid (os.descriptors d).pcb
          r ← valid (os.descriptors d).resource
          ok (
              text "(pid: "
              ∷ number (pos (os.descriptors d).fd)
              ∷ text ", fd: "
              ∷ number (pos (os.pcbs p).pid)
              ∷ text ", rid:"
              ∷ number (os.resources r).id
              ∷ text ")"
              ∷ []))
        ", " l
  ok (text "[" ∷ o ++ text "]" ∷ [])

-- `DescriptorPtrList_print_mq`
unfoldable pub descriptor_ptr_list_mq : Os → List Ptr → Run (List Piece)
unfolding separated
descriptor_ptr_list_mq os l = do
  o ←
      separated
        (λ x. do
          d ← valid (os.descriptor_ptrs x)
          p ← valid (os.descriptors d).pcb
          q ← valid (os.descriptors d).mq
          ok (
              text "(fd: "
              ∷ number (pos (os.descriptors d).fd)
              ∷ text ", pid: "
              ∷ number (pos (os.pcbs p).pid)
              ∷ text ", mqid:"
              ∷ number (os.mqs q).id
              ∷ text ")"
              ∷ []))
        ", " l
  ok (text "[" ∷ o ++ text "]" ∷ [])

-- What `%s` reads: the bytes up to the first zero, from the index `i`, with the bytes left in the
-- array.
unfoldable pub c_string : ℕ → (from : ℕ → ℕ) (i : ℕ) → Run (List ℕ)
c_string zero from i = fault out_of_bounds
c_string (suc left) from i =
    let rest = c_string left from (suc i) in
    if from i == 0 then ok [] else (do bs ← rest; ok (from i ∷ bs))

-- The loop over the messages, from the number `i`.
unfoldable pub messages_from : Os → (i : ℕ) → List Ptr → Run (List Piece)
unfolding c_string
messages_from os i [] = ok []
messages_from os i (m ∷ ms) = do
  s ← c_string max_len_message (os.messages m).message 0
  rest ← messages_from os (suc i) ms
  ok (text "        - messaggio " ∷ number (pos i) ∷ text ": " ∷ bytes s ∷ text " \n" ∷ rest)

-- The loops over the processes that wait.
unfoldable pub waiters_with : Os → (label : String) → List Ptr → Run (List Piece)
waiters_with os label [] = ok []
waiters_with os label (w ∷ ws) = do
  p ← valid (os.pcb_ptrs w)
  rest ← waiters_with os label ws
  ok (text label ∷ number (pos (os.pcbs p).pid) ∷ text "\n" ∷ rest)

abbrev pub nobody : (label : String) → List Ptr → List Piece
nobody label [] = text label ∷ []
nobody label (w ∷ ws) = []

-- `MessageQueue_print`; the test for null comes behind the first access.
unfoldable pub queue : Os → Ptr → Run (List Piece)
unfolding descriptor_ptr_list_mq messages_from waiters_with is_empty
queue os q = do
  r ← valid q
  let mq = os.mqs r
  ds ← descriptor_ptr_list_mq os mq.descriptors_ptrs
  ms ← messages_from os 0 mq.messages
  readers ← waiters_with os "        Un reader in attesa ha pid: " mq.waiting_to_read
  writers ← waiters_with os "        Un writer in attesa ha pid: " mq.waiting_to_write
  let state =
      if is_empty mq.messages
      then "        Message queue vuota.\n"
      else "        Lista dei messaggi contenuti nella MQ:\n"
  ok (
      text "mq di id: "
        ∷ number mq.id
        ∷ text ", contiene "
        ∷ number mq.num_written
        ∷ text " messaggi, i suoi valori sono:"
        ∷ ds
      ++ text "\n\n" ∷ text state ∷ ms
      ++ text "\n" ∷ nobody "        Non c'è nessun reader in attesa nella mq\n" mq.waiting_to_read
      ++ readers
      ++ nobody "        Non c'è nessun writer in attesa nella mq\n" mq.waiting_to_write
      ++ writers)

-- `MessageQueueList_print`
unfoldable pub queue_list : Os → List Ptr → Run (List Piece)
unfolding lines queue
queue_list os l = do o ← lines (queue os) l; ok (text "{\n" ∷ o ++ text "}\n" ∷ [])

-- `Message_print`
unfoldable pub message : Os → Ptr → Run (List Piece)
unfolding c_string
message os m = do
  m ← valid m
  s ← c_string max_len_message (os.messages m).message 0
  ok (text "MESSAGGIO: '" ∷ bytes s ∷ text "' di lunghezza " ∷ number (os.messages m).length ∷ [])

-- `MessageList_print`
unfoldable pub message_list : Os → List Ptr → Run (List Piece)
unfolding lines message
message_list os l = do o ← lines (message os) l; ok (text "{\n" ∷ o ++ text "}\n" ∷ [])

-- `Resource_print`
unfoldable pub resource : Os → Ptr → Run (List Piece)
unfolding descriptor_ptr_list
resource os r = do
  r ← valid r
  o ← descriptor_ptr_list os (os.resources r).descriptors_ptrs
  ok (
      text "id: "
      ∷ number (os.resources r).id
      ∷ text ", type:"
      ∷ number (os.resources r).type
      ∷ text ", pids:"
      ∷ o)

-- `ResourceList_print`
unfoldable pub resource_list : Os → List Ptr → Run (List Piece)
unfolding lines resource
resource_list os l = do o ← lines (resource os) l; ok (text "{\n" ∷ o ++ text "}\n" ∷ [])

-- `disastrOS_printStatus`
unfoldable pub status : Os → Run (List Piece)
unfolding pcb timer_list resource_list queue_list pcb_list
status os = do
  running ← if is_null os.running then ok [] else pcb os os.running
  timers ← timer_list os os.timer_list
  resources ← resource_list os os.resources_list
  queues ← queue_list os os.mq_list
  ready ← pcb_list os os.ready_list
  waiting ← pcb_list os os.waiting_list
  zombies ← pcb_list os os.zombie_list
  ok (
      text "\n****************** DisastrOS ******************\n" ∷ text "Running: " ∷ running
      ++ text "\n" ∷ text "Timers: " ∷ timers
      ++ text "\nResources: " ∷ resources
      ++ text "\nMessage Queues: " ∷ queues
      ++ text "\nReady: " ∷ ready
      ++ text "\nWaiting: " ∷ waiting
      ++ text "\nZombie: " ∷ zombies
      ++ text "\n***********************************************\n\n" ∷ [])
