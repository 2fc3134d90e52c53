-- ===== src/MessageQueue/Keeps.antt =====
-- A write and a read keep the invariant on every branch on which they return.
use disastros_msg_queues.Base.{ℤ, Run, Holds, holds, stops}
use disastros_msg_queues.Os.{Os}
use disastros_msg_queues.Process.{return_value}
use disastros_msg_queues.MessageQueue.Write.{write}
use disastros_msg_queues.MessageQueue.Read.{read}
use disastros_msg_queues.MessageQueue.Invariant.{Inv}
use disastros_msg_queues.MessageQueue.WriteCases.{
  WriteCase, refused_long, refused_missing, delivered, no_message, write_cases,
}
use disastros_msg_queues.MessageQueue.WriteCases
use disastros_msg_queues.MessageQueue.ReadCases
use disastros_msg_queues.MessageQueue.ReadCases.{
  ReadCase, missing, refused_short, taken, read_cases,
}

-- The invariant does not speak of the results of calls.
pub returned-Inv : (os : Os) (v : ℤ) → Inv os → Inv (return_value os v)
returned-Inv os v inv = record {
  message_pool = inv.message_pool;
  pcb_ptr_pool = inv.pcb_ptr_pool;
  scheduled = inv.scheduled;
  queues_exist = inv.queues_exist;
  queues = inv.queues;
  stored = inv.stored;
  waits = inv.waits;
  apart = inv.apart;
  one_place = inv.one_place;
}

WriteCase-keeps : {os : Os} {r : Run Os} → Inv os → WriteCase os r → Holds Inv r
WriteCase-keeps {os} inv (refused_long long) = holds (returned-Inv os _ inv)
WriteCase-keeps {os} inv (refused_missing short none) = holds (returned-Inv os _ inv)
WriteCase-keeps inv (delivered a room d) = holds d.valid
WriteCase-keeps inv (no_message a room e) = stops
WriteCase-keeps inv (WriteCases.no_buffer a room some_byte none) = stops
WriteCase-keeps inv (WriteCases.waits next rest a full w) = holds w.valid
WriteCase-keeps inv (WriteCases.no_item a full e) = stops
WriteCase-keeps inv (WriteCases.nobody_ready a full e) = stops

pub write-Keeps : (os : Os) → Inv os → Holds Inv (write os)
write-Keeps os inv = WriteCase-keeps inv (write_cases os inv)

ReadCase-keeps : {os : Os} {r : Run Os} → Inv os → ReadCase os r → Holds Inv r
ReadCase-keeps inv (missing none) = stops
ReadCase-keeps {os} inv (refused_short m rest v short) = holds (returned-Inv os _ inv)
ReadCase-keeps inv (taken m rest v fits t) = holds t.valid
ReadCase-keeps inv (ReadCases.no_buffer m rest v some_byte none) = stops
ReadCase-keeps inv (ReadCases.waits next rest v w) = holds w.valid
ReadCase-keeps inv (ReadCases.no_item v e) = stops
ReadCase-keeps inv (ReadCases.nobody_ready v e) = stops

pub read-Keeps : (os : Os) → Inv os → Holds Inv (read os)
read-Keeps os inv = ReadCase-keeps inv (read_cases os inv)
