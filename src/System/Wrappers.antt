-- ===== src/System/Wrappers.antt =====
-- What the functions that a process calls do: they run their handler.
use disastros_msg_queues.Base.{
  ℕ, suc, ◌-◌, ◌<◌, ◌≡◌, ◌≢◌, ◌⊎◌, inl, inr, refl, ap, fun_ext, ◌∙◌, arith, Bool-cases, ◌==◌, false,
  some, none, List, [], ◌∷◌, length, get_elem?, if◌then◌else◌, ltb, ℤ, pos, Run, ok, ◌>>=◌, null,
  is_null-ne, update,
}
use disastros_msg_queues.Os.{Os, set_pcb}
use disastros_msg_queues.System.{
  Handler, syscall_vector, syscall_numarg, entry_at, read_args, is_out_of_range, enter, run_handler,
  trap,
}
use disastros_msg_queues.System.Trap.{trap-entry}
use disastros_msg_queues.System.Calls.{
  trapped, syscall, Call, forks, waits, exits, preempts, spawns, shuts_down, sleeps, opens_resource,
  closes_resource, destroys_resource, opens, closes, writes, reads, destroys, perform,
  disastros_fork, disastros_wait, disastros_exit, disastros_preempt, disastros_spawn,
  disastros_shutdown, disastros_sleep, disastros_open_resource, disastros_close_resource,
  disastros_destroy_resource, disastros_open_mq, disastros_close_mq, disastros_write,
  disastros_read, disastros_destroy_mq,
}
use disastros_msg_queues.MessageQueue.Write.{write}
use disastros_msg_queues.MessageQueue.Read.{read}
use disastros_msg_queues.MessageQueue.Open.{open_mq, close_mq, destroy_mq}
use disastros_msg_queues.Resource.{open_resource, close_resource, destroy_resource}
use disastros_msg_queues.Timer.{sleep}
use disastros_msg_queues.Schedule.{preempt, shutdown}
use disastros_msg_queues.Wait.{wait}
use disastros_msg_queues.Exit.{exit}
use disastros_msg_queues.Spawn.{fork, spawn}

-- The argument at the index, or what the process held there.
abbrev pub argument : (given : List ℤ) (held : ℕ → ℤ) → ℕ → ℤ
argument given held j = elim (get_elem? given j) [ none ↦ held j | some v ↦ v ]

abbrev from : (given : List ℤ) (i : ℕ) (held : ℕ → ℤ) → ℕ → ℤ
from given i held j =
    if ltb j i then held j else elim (get_elem? given (j - i)) [ none ↦ held j | some v ↦ v ]

from-cons :
    (a : ℤ) (given : List ℤ) (i : ℕ) (held : ℕ → ℤ) (j : ℕ)
    → from given (suc i) (update held i a) j ≡ from (a ∷ given) i held j
from-cons a given i held j = elim (Bool-cases (ltb j i)) [
  | inl before ↦ ground arith
  | inr e ↦ elim (Bool-cases (i == j)) [
    | inl here ↦ let z : j - i ≡ 0 = ground arith in rw z (ground arith)
    | inr there ↦ let z : j - i ≡ suc (j - suc i) = ground arith in rw z (ground arith)
  ]
]

read_args-from :
    (given : List ℤ) (i : ℕ) (held : ℕ → ℤ)
    → read_args (length given) given i held ≡ ok (from given i held)
unfolding read_args
read_args-from [] i held = ap ok (fun_ext λ j. ground arith)
read_args-from (a ∷ given) i held =
    read_args-from given (suc i) (update held i a) ∙ ap ok (fun_ext (from-cons a given i held))

-- The running process with its call's number and arguments.
abbrev pub passed : Os → (n : ℕ) (given : List ℤ) → Os
passed os n given =
    let pcb = os.pcbs os.running in
    set_pcb os os.running
      (record pcb { syscall_args = argument given pcb.syscall_args; syscall_num = pos n })

abbrev pub runs : (handler : Handler) → Os → (n : ℕ) (given : List ℤ) → Run (ℤ ⊎ Os)
runs handler os n given = handler (passed os n given) >>= λ os'. ok (inr os')

read_args-argument :
    (given : List ℤ) (held : ℕ → ℤ)
    → read_args (length given) given 0 held ≡ ok (argument given held)
read_args-argument given held = read_args-from given 0 held ∙ ap ok (fun_ext λ j. ground arith)

entry_at-found {ℓ} :
    {A : Type ℓ} (xs : List A) (i : ℕ) (x : A) → get_elem? xs i ≡ some x → entry_at xs i ≡ ok x
unfolding entry_at
entry_at-found xs i x e = rw (e, entry_at) refl

in_range : (n : ℕ) → n < 32 → is_out_of_range (pos n) ≡ false
in_range n small = ground arith

module _ (os : Os) (exists : os.running ≢ null) (n : ℕ) (small : n < 32) (given : List ℤ) where
  enter-passed :
      get_elem? syscall_numarg n ≡ some (length given)
      → enter os (pos n) given ≡ ok (inr (passed os n given))
  unfolding enter
  enter-passed counted = rw (is_null-ne os.running _ _ exists) (
      rw (in_range n small) (
        rw (entry_at-found syscall_numarg n (length given) counted)
          (rw (read_args-argument given (os.pcbs os.running).syscall_args) refl)))

  trap-passed :
      (handler : Handler)
      → get_elem? syscall_vector n ≡ some (some handler)
      → trap (passed os n given) ≡ handler (passed os n given)
  unfolding run_handler
  trap-passed handler found =
      trap-entry (passed os n given) n exists (ground arith) (omega arith)
      ∙ ap (λ r. r >>= run_handler (passed os n given))
          (entry_at-found syscall_vector n (some handler) found)

  pub syscall-runs :
      (handler : Handler)
      → get_elem? syscall_numarg n ≡ some (length given)
      → get_elem? syscall_vector n ≡ some (some handler)
      → syscall os (pos n) given ≡ runs handler os n given
  unfolding syscall
  syscall-runs handler counted found =
      ap (λ r. r >>= trapped) (enter-passed counted)
      ∙ ap (λ r. r >>= λ os'. ok (inr os')) (trap-passed handler found)

-- The handler that a call is for, its number and the arguments that the handler finds.
abbrev pub handler_of : Call → Handler
handler_of forks = fork
handler_of (waits _ _) = wait
handler_of (exits _) = exit
handler_of preempts = preempt
handler_of (spawns _ _) = spawn
handler_of shuts_down = λ os. ok (shutdown os)
handler_of (sleeps _) = sleep
handler_of (opens_resource _ _ _) = open_resource
handler_of (closes_resource _) = close_resource
handler_of (destroys_resource _) = destroy_resource
handler_of (opens _ _) = open_mq
handler_of (closes _) = close_mq
handler_of (writes _ _ _) = write
handler_of (reads _ _ _) = read
handler_of (destroys _) = destroy_mq

abbrev pub number_of : Call → ℕ
number_of forks = 2
number_of (waits _ _) = 3
number_of (exits _) = 4
number_of preempts = 1
number_of (spawns _ _) = 5
number_of shuts_down = 10
number_of (sleeps _) = 6
number_of (opens_resource _ _ _) = 7
number_of (closes_resource _) = 8
number_of (destroys_resource _) = 9
number_of (opens _ _) = 11
number_of (closes _) = 12
number_of (writes _ _ _) = 13
number_of (reads _ _ _) = 14
number_of (destroys _) = 15

abbrev pub given_by : Call → List ℤ
given_by forks = []
given_by (waits pid retval) = pid ∷ pos retval ∷ []
given_by (exits exitval) = exitval ∷ []
given_by preempts = []
given_by (spawns f args) = pos f ∷ pos args ∷ []
given_by shuts_down = []
given_by (sleeps sleep_time) = sleep_time ∷ []
given_by (opens_resource resource_id type mode) = resource_id ∷ type ∷ mode ∷ []
given_by (closes_resource fd) = fd ∷ []
given_by (destroys_resource resource_id) = resource_id ∷ []
given_by (opens id mode) = id ∷ mode ∷ []
given_by (closes fd) = fd ∷ []
given_by (writes id write_buffer len) = id ∷ pos write_buffer ∷ len ∷ []
given_by (reads id buf len) = id ∷ pos buf ∷ len ∷ []
given_by (destroys id) = id ∷ []

-- Where a process runs, each of the 15 functions runs its handler and nothing else: the running
-- process has the number and the arguments in its fields, each argument at its index and the rest of
-- the fields as before, no argument is missing, and the state behind the handler is the result.
pub wrappers_run :
    (os : Os)
    → os.running ≢ null
    → (c : Call) → perform c os ≡ runs (handler_of c) os (number_of c) (given_by c)
unfolding perform syscall_numarg syscall_vector disastros_fork disastros_wait disastros_exit
    disastros_preempt disastros_spawn disastros_shutdown disastros_sleep disastros_open_resource
    disastros_close_resource disastros_destroy_resource disastros_open_mq disastros_close_mq
    disastros_write disastros_read disastros_destroy_mq
wrappers_run os exists forks = syscall-runs os exists 2 (omega arith) _ _ refl refl
wrappers_run os exists (waits pid retval) = syscall-runs os exists 3 (omega arith) _ _ refl refl
wrappers_run os exists (exits exitval) = syscall-runs os exists 4 (omega arith) _ _ refl refl
wrappers_run os exists preempts = syscall-runs os exists 1 (omega arith) _ _ refl refl
wrappers_run os exists (spawns f args) = syscall-runs os exists 5 (omega arith) _ _ refl refl
wrappers_run os exists shuts_down = syscall-runs os exists 10 (omega arith) _ _ refl refl
wrappers_run os exists (sleeps sleep_time) = syscall-runs os exists 6 (omega arith) _ _ refl refl
wrappers_run os exists (opens_resource resource_id type mode) =
    syscall-runs os exists 7 (omega arith) _ _ refl refl
wrappers_run os exists (closes_resource fd) = syscall-runs os exists 8 (omega arith) _ _ refl refl
wrappers_run os exists (destroys_resource resource_id) =
    syscall-runs os exists 9 (omega arith) _ _ refl refl
wrappers_run os exists (opens id mode) = syscall-runs os exists 11 (omega arith) _ _ refl refl
wrappers_run os exists (closes fd) = syscall-runs os exists 12 (omega arith) _ _ refl refl
wrappers_run os exists (writes id write_buffer len) =
    syscall-runs os exists 13 (omega arith) _ _ refl refl
wrappers_run os exists (reads id buf len) = syscall-runs os exists 14 (omega arith) _ _ refl refl
wrappers_run os exists (destroys id) = syscall-runs os exists 15 (omega arith) _ _ refl refl
