-- ===== src/Reach/Steps.antt =====
-- The calls that processes make, and the states that they reach from the start of the kernel.
use disastros_msg_queues.Base.{◌≡◌, inr, Bool, true, false, some, ℤ, ℕ, ok, Ptr}
use disastros_msg_queues.Os.{Os}
use disastros_msg_queues.Schedule.{timer_interrupt}
use disastros_msg_queues.Start.{start}
use disastros_msg_queues.Start.Pools.{Layout}
use disastros_msg_queues.System.Calls.{
  Call, forks, preempts, spawns, opens_resource, closes_resource, destroys_resource, opens, closes,
  writes, reads, destroys, perform,
}

-- The calls on queues and resources, the creation of processes and the change of the running one.
abbrev pub is_covered : Call → Bool
is_covered forks = true
is_covered preempts = true
is_covered (spawns _ _) = true
is_covered (opens_resource _ _ _) = true
is_covered (closes_resource _) = true
is_covered (destroys_resource _) = true
is_covered (opens _ _) = true
is_covered (closes _) = true
is_covered (writes _ _ _) = true
is_covered (reads _ _ _) = true
is_covered (destroys _) = true
is_covered _ = false

-- The running process computes in its own memory or makes such a call, or the clock ticks.
pub data Step (os : Os) : Os → Type 0 where
  computes : (bytes : Ptr → ℕ) (ints : Ptr → ℤ) → Step os (record os { bytes = bytes; ints = ints })
  calls : {os' : Os} (c : Call) → is_covered c ≡ true → perform c os ≡ ok (inr os') → Step os os'
  ticks : {os' : Os} → timer_interrupt os ≡ ok os' → Step os os'

-- From the start, without a fault on the way.
pub data Reach (l : Layout) (boot : Os) (f f_args : Ptr) : Os → Type 0 where
  starts : {os : Os} → start l boot f f_args ≡ ok (some os) → Reach l boot f f_args os
  steps : {os os' : Os} → Reach l boot f f_args os → Step os os' → Reach l boot f f_args os'
