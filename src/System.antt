-- ===== src/System.antt =====
-- disastrOS.c: the table of the system calls, the call of one and the trap that runs its handler.
pub mod Trap
pub mod Calls
pub mod Wrappers
use disastros_msg_queues.Base.{
  ℕ, zero, suc, List, [], ◌∷◌, ◌⊎◌, inl, inr, Option, none, some, ◌<◌, ltb, ◌==◌, Bool, true, false,
  ◌||◌, if◌then◌else◌, get_elem?, ℤ, pos, negsuc, pos_part, ltb_ℤ, Run, ok, fault, failed_assert,
  out_of_bounds, ◌>>=◌, Ptr, is_null, update,
}
use disastros_msg_queues.Os.{Os, valid, set_pcb}
use disastros_msg_queues.Process.{return_value}
use disastros_msg_queues.MessageQueue.Write.{write}
use disastros_msg_queues.MessageQueue.Read.{read}
use disastros_msg_queues.MessageQueue.Open.{open_mq, close_mq, destroy_mq}
use disastros_msg_queues.Resource.{open_resource, close_resource, destroy_resource}
use disastros_msg_queues.Timer.{sleep}
use disastros_msg_queues.Schedule.{preempt, shutdown}
use disastros_msg_queues.Wait.{wait}
use disastros_msg_queues.Exit.{exit}
use disastros_msg_queues.Spawn.{fork, spawn}

abbrev pub Handler : Type 0
Handler = Os → Run Os

abbrev pub max_syscalls : ℕ
max_syscalls = 32

-- The entries that the first loop of `disastrOS_start` sets to 0 and nothing else fills.
abbrev pub unset : ℕ → List (Option Handler)
unset zero = []
unset (suc n) = none ∷ unset n

-- The handlers by number, DSOS_CALL_PREEMPT = 1 to DSOS_CALL_DESTROY_MQ = 15; the rest is 0.
unfoldable pub syscall_vector : List (Option Handler)
syscall_vector =
    none
    ∷ some preempt
    ∷ some fork
    ∷ some wait
    ∷ some exit
    ∷ some spawn
    ∷ some sleep
    ∷ some open_resource
    ∷ some close_resource
    ∷ some destroy_resource
    ∷ some (λ os. ok (shutdown os))
    ∷ some open_mq
    ∷ some close_mq
    ∷ some write
    ∷ some read
    ∷ some destroy_mq
    ∷ unset 16

-- The number of arguments of each call; a static array starts with zeros.
unfoldable pub syscall_numarg : List ℕ
syscall_numarg =
    0 ∷ 0 ∷ 0 ∷ 2 ∷ 1 ∷ 2 ∷ 1 ∷ 3 ∷ 1 ∷ 1 ∷ 0 ∷ 2 ∷ 1 ∷ 3 ∷ 3 ∷ 1 ∷ 0 ∷ 0 ∷ 0 ∷ 0 ∷ 0 ∷ 0 ∷ 0 ∷ 0
    ∷ 0 ∷ 0 ∷ 0 ∷ 0 ∷ 0 ∷ 0 ∷ 0 ∷ 0 ∷ []

-- DSOS_ESYSCALL_OUT_OF_RANGE and DSOS_ESYSCALL_NOT_IMPLEMENTED
abbrev pub out_of_range_error : ℤ
out_of_range_error = negsuc 2

abbrev pub not_implemented_error : ℤ
not_implemented_error = negsuc 1

abbrev pub is_out_of_range : ℤ → Bool
is_out_of_range n = ltb_ℤ n (pos 0) || ltb_ℤ (pos max_syscalls) n

-- An access to an array of 32 entries.
unfoldable pub entry_at {ℓ} : {A : Type ℓ} → List A → ℕ → Run A
entry_at xs i = elim (get_elem? xs i) [ none ↦ fault out_of_bounds | some x ↦ ok x ]

-- The loop over the arguments, with the numbers left, from the index `i`; `va_arg` has no meaning
-- behind the last argument.
unfoldable pub read_args : ℕ → (given : List ℤ) (i : ℕ) (held : ℕ → ℤ) → Run (ℕ → ℤ)
read_args zero given i held = ok held
read_args (suc nargs) [] i held = fault out_of_bounds
read_args (suc nargs) (a ∷ given) i held = read_args nargs given (suc i) (update held i a)

-- `disastrOS_syscall` up to the switch to the trap; a number out of range is answered at once.
unfoldable pub enter : Os → (syscall_num : ℤ) (given : List ℤ) → Run (ℤ ⊎ Os)
unfolding entry_at syscall_numarg read_args
enter os syscall_num given =
    if is_null os.running
    then fault failed_assert
    else if is_out_of_range syscall_num
    then ok (inl out_of_range_error)
    else (do
      nargs ← entry_at syscall_numarg (pos_part syscall_num)
      let pcb = os.pcbs os.running
      syscall_args ← read_args nargs given 0 pcb.syscall_args
      ok (
          inr (
            set_pcb os os.running
              (record pcb { syscall_args = syscall_args; syscall_num = syscall_num }))))

pub run_handler : Os → Option Handler → Run Os
run_handler os none = ok (return_value os not_implemented_error)
run_handler os (some my_syscall) = my_syscall os

-- `disastrOS_trap`
unfoldable pub trap : Os → Run Os
unfolding entry_at syscall_vector run_handler
trap os = do
  _ ← valid os.running
  let syscall_num = (os.pcbs os.running).syscall_num
  if is_out_of_range syscall_num
      then ok (return_value os out_of_range_error)
      else (do h ← entry_at syscall_vector (pos_part syscall_num); run_handler os h)
