-- ===== src/Examples/Printing.antt =====
-- Printed states.
use disastros_msg_queues.Base.{
  ◌≡◌, refl, arith, ltb, if◌then◌else◌, [], ◌∷◌, pos, ok, fault, out_of_bounds, Returns,
}
use disastros_msg_queues.Os.{ProcessStatus, Os}
use disastros_msg_queues.MessageQueue.Contents.{payload}
use disastros_msg_queues.Print.{text, number, bytes, pcb_list}
use disastros_msg_queues.Print.Objects.{message}
use disastros_msg_queues.Print.Processes.{numbers, all, family, pcb_list-numbers}
use disastros_msg_queues.Print.Queues.{message-prints, message_unterminated}
use disastros_msg_queues.Examples.State.{pool, queue, kernel, pcb, args}

-- Each process has a child, which the item 500 points to.
abbrev families : Os
families = record (kernel pool pool [] (queue [] (pos 0) []) (pos 0)) {
  pcbs = λ p. record (pcb ProcessStatus.running (args (pos 0))) { children = 500 ∷ [] };
}

pcb_list-numbers_example :
    Returns
      (λ o. numbers o ≡ all (family families) (11 ∷ 13 ∷ []))
      (pcb_list families (11 ∷ 13 ∷ []))
pcb_list-numbers_example =
    pcb_list-numbers families (11 ∷ 13 ∷ []) (λ p at. ground arith) (λ p c at at'. ground arith)

-- Two letters and a zero, and 64 letters.
abbrev two_letters : Os
two_letters = record (kernel pool pool [] (queue [] (pos 0) []) (pos 0)) {
  messages = λ m. record { message = λ i. if ltb i 2 then 65 else 0; length = pos 2 };
}

abbrev all_letters : Os
all_letters = record (kernel pool pool [] (queue [] (pos 0) []) (pos 0)) {
  messages = λ m. record { message = λ i. 65; length = pos 64 };
}

message-prints_example :
    message two_letters 1024
    ≡ ok (
        text "MESSAGGIO: '"
        ∷ bytes (payload (two_letters.messages 1024))
        ∷ text "' di lunghezza "
        ∷ number (two_letters.messages 1024).length
        ∷ [])
message-prints_example =
    message-prints two_letters 1024 (ground arith) 2 refl (omega arith) refl (λ j lt. ground arith)

message_unterminated_example : message all_letters 1024 ≡ fault out_of_bounds
message_unterminated_example =
    message_unterminated all_letters 1024 (ground arith) (λ j lt. ground arith)
