-- ===== src/System/Calls.antt =====
-- The functions of disastrOS.c that a process calls.
use disastros_msg_queues.Base.{
  List, [], ◌∷◌, ◌⊎◌, inl, inr, if◌then◌else◌, ℤ, pos, negsuc, Run, ok, ◌>>=◌, Ptr, is_null,
}
use disastros_msg_queues.Os.{Os}
use disastros_msg_queues.System.{enter, trap}

abbrev pub trapped : ℤ ⊎ Os → Run (ℤ ⊎ Os)
trapped (inl e) = ok (inl e)
trapped (inr os) = do os ← trap os; ok (inr os)

-- `disastrOS_syscall`: its answer where it is given at once, or the state behind the trap. The
-- process that then runs has its own answer in `syscall_retvalue`.
unfoldable pub syscall : Os → (syscall_num : ℤ) (given : List ℤ) → Run (ℤ ⊎ Os)
syscall os syscall_num given = enter os syscall_num given >>= trapped

unfoldable pub disastros_fork : Os → Run (ℤ ⊎ Os)
disastros_fork os = syscall os (pos 2) []

unfoldable pub disastros_wait : Os → (pid : ℤ) (retval : Ptr) → Run (ℤ ⊎ Os)
disastros_wait os pid retval = syscall os (pos 3) (pid ∷ pos retval ∷ [])

unfoldable pub disastros_exit : Os → (exitval : ℤ) → Run (ℤ ⊎ Os)
disastros_exit os exitval = syscall os (pos 4) (exitval ∷ [])

unfoldable pub disastros_preempt : Os → Run (ℤ ⊎ Os)
disastros_preempt os = syscall os (pos 1) []

unfoldable pub disastros_spawn : Os → (f args : Ptr) → Run (ℤ ⊎ Os)
disastros_spawn os f args = syscall os (pos 5) (pos f ∷ pos args ∷ [])

unfoldable pub disastros_shutdown : Os → Run (ℤ ⊎ Os)
disastros_shutdown os = syscall os (pos 10) []

unfoldable pub disastros_sleep : Os → (sleep_time : ℤ) → Run (ℤ ⊎ Os)
disastros_sleep os sleep_time = syscall os (pos 6) (sleep_time ∷ [])

unfoldable pub disastros_getpid : Os → ℤ
disastros_getpid os = if is_null os.running then negsuc 0 else pos (os.pcbs os.running).pid

unfoldable pub disastros_open_resource : Os → (resource_id type mode : ℤ) → Run (ℤ ⊎ Os)
disastros_open_resource os resource_id type mode =
    syscall os (pos 7) (resource_id ∷ type ∷ mode ∷ [])

unfoldable pub disastros_close_resource : Os → (fd : ℤ) → Run (ℤ ⊎ Os)
disastros_close_resource os fd = syscall os (pos 8) (fd ∷ [])

unfoldable pub disastros_destroy_resource : Os → (resource_id : ℤ) → Run (ℤ ⊎ Os)
disastros_destroy_resource os resource_id = syscall os (pos 9) (resource_id ∷ [])

unfoldable pub disastros_open_mq : Os → (id mode : ℤ) → Run (ℤ ⊎ Os)
disastros_open_mq os id mode = syscall os (pos 11) (id ∷ mode ∷ [])

unfoldable pub disastros_close_mq : Os → (fd : ℤ) → Run (ℤ ⊎ Os)
disastros_close_mq os fd = syscall os (pos 12) (fd ∷ [])

unfoldable pub disastros_write : Os → (id : ℤ) (write_buffer : Ptr) (len : ℤ) → Run (ℤ ⊎ Os)
disastros_write os id write_buffer len = syscall os (pos 13) (id ∷ pos write_buffer ∷ len ∷ [])

unfoldable pub disastros_read : Os → (id : ℤ) (buf : Ptr) (len : ℤ) → Run (ℤ ⊎ Os)
disastros_read os id buf len = syscall os (pos 14) (id ∷ pos buf ∷ len ∷ [])

unfoldable pub disastros_destroy_mq : Os → (id : ℤ) → Run (ℤ ⊎ Os)
disastros_destroy_mq os id = syscall os (pos 15) (id ∷ [])

-- Each of these functions with its arguments.
pub data Call : Type 0 where
  forks : Call
  waits : (pid : ℤ) (retval : Ptr) → Call
  exits : (exitval : ℤ) → Call
  preempts : Call
  spawns : (f args : Ptr) → Call
  shuts_down : Call
  sleeps : (sleep_time : ℤ) → Call
  opens_resource : (resource_id type mode : ℤ) → Call
  closes_resource : (fd : ℤ) → Call
  destroys_resource : (resource_id : ℤ) → Call
  opens : (id mode : ℤ) → Call
  closes : (fd : ℤ) → Call
  writes : (id : ℤ) (write_buffer : Ptr) (len : ℤ) → Call
  reads : (id : ℤ) (buf : Ptr) (len : ℤ) → Call
  destroys : (id : ℤ) → Call

unfoldable pub perform : Call → Os → Run (ℤ ⊎ Os)
perform forks os = disastros_fork os
perform (waits pid retval) os = disastros_wait os pid retval
perform (exits exitval) os = disastros_exit os exitval
perform preempts os = disastros_preempt os
perform (spawns f args) os = disastros_spawn os f args
perform shuts_down os = disastros_shutdown os
perform (sleeps sleep_time) os = disastros_sleep os sleep_time
perform (opens_resource resource_id type mode) os = disastros_open_resource os resource_id type mode
perform (closes_resource fd) os = disastros_close_resource os fd
perform (destroys_resource resource_id) os = disastros_destroy_resource os resource_id
perform (opens id mode) os = disastros_open_mq os id mode
perform (closes fd) os = disastros_close_mq os fd
perform (writes id write_buffer len) os = disastros_write os id write_buffer len
perform (reads id buf len) os = disastros_read os id buf len
perform (destroys id) os = disastros_destroy_mq os id
