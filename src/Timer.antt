-- ===== src/Timer.antt =====
-- disastrOS_timer.c: the list of timers, and disastrOS_sleep.c, which adds to it.
pub mod Sorted
pub mod Add
use disastros_msg_queues.Base.{
  ℕ, List, [], ◌∷◌, if◌then◌else◌, ℤ, pos, negsuc, ltb_ℤ, ◌+ℤ◌, wrap, Run, ok, ◌>>=◌, Ptr, null,
  is_null, update,
}
use disastros_msg_queues.PoolAllocator.{PoolAllocatorResult, get_block, release_block}
use disastros_msg_queues.Sequence.{insert_after, detach_first}
use disastros_msg_queues.Os.{Os, TimerItem, valid}
use disastros_msg_queues.Process.{arg, return_value, put_to_wait}

unfoldable pub alloc : Os → (awakening_time : ℤ) (pcb : Ptr) → Run (Ptr × Os)
alloc os awakening_time pcb = do
  (item, a) ← get_block os.timer_allocator
  if is_null item
      then ok (null, os)
      else ok (
        item,
        record os {
          timer_allocator = a;
          timer_items =
              update os.timer_items item (record { awakening_time = awakening_time; pcb = pcb });
        },
      )

unfoldable pub free : Os → Ptr → Run (PoolAllocatorResult × Os)
free os item = do
  (r, a) ← release_block os.timer_allocator item
  ok (r, record os { timer_allocator = a })

-- The last item before the first one that is due later, or `previous_item`.
unfoldable pub previous : Os → (awakening_time : ℤ) (previous_item : Ptr) → List Ptr → Ptr
previous os awakening_time previous_item [] = previous_item
previous os awakening_time previous_item (item ∷ items) =
    if ltb_ℤ awakening_time (os.timer_items item).awakening_time
    then previous_item
    else previous os awakening_time item items

-- The new item, or null if there is none left.
unfoldable pub add : Os → (awakening_time : ℤ) (pcb : Ptr) → Run (Ptr × Os)
unfolding alloc previous
add os awakening_time pcb = do
  let previous_item = previous os awakening_time null os.timer_list
  (new_item, os) ← alloc os awakening_time pcb
  if is_null new_item then ok (null, os) else (do
    l ← insert_after os.timer_list previous_item new_item
    ok (new_item, record os { timer_list = l }))

-- The first item if it is due, or null.
unfoldable pub current : Os → List Ptr → (current_time : ℤ) → Ptr
current os [] current_time = null
current os (item ∷ items) current_time =
    if ltb_ℤ current_time (os.timer_items item).awakening_time then null else item

-- The result of the release is not looked at.
unfoldable pub remove_current : Os → Run Os
unfolding free
remove_current os = do
  (item, l) ← detach_first os.timer_list
  (_, os) ← free (record os { timer_list = l }) item
  ok os

-- DSOS_ESLEEP
abbrev pub sleep_error : ℤ
sleep_error = negsuc 6

-- The first ready process runs, with the status that it has; without one, nobody runs.
unfoldable pub run_ready : Os → List Ptr → Os
run_ready os [] = record os { running = null }
run_ready os (next ∷ rest) = record os { running = next; ready_list = rest }

-- `internal_sleep`
unfoldable pub sleep : Os → Run Os
unfolding add run_ready put_to_wait
sleep os = do
  _ ← valid os.running
  if is_null (os.pcbs os.running).timer
      then (do
        (new_timer, os) ← add os (wrap (os.disastros_time +ℤ arg os 0)) os.running
        if is_null new_timer
            then ok (return_value os sleep_error)
            else (do os ← put_to_wait os; ok (run_ready os os.ready_list)))
      else ok (return_value os sleep_error)
