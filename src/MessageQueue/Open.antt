-- ===== src/MessageQueue/Open.antt =====
-- disastrOS_open_mq.c, disastrOS_close_mq.c and disastrOS_destroy_mq.c.
use disastros_msg_queues.Base.{
  if◌then◌else◌, ◌&&◌, not, ℤ, pos, negsuc, eqb_ℤ, Run, ok, ◌>>=◌, Ptr, is_null,
}
use disastros_msg_queues.Sequence.{insert_last, detach}
use disastros_msg_queues.Os.{Os, valid, set_mq}
use disastros_msg_queues.Process.{arg, return_value}
use disastros_msg_queues.Descriptor
use disastros_msg_queues.Descriptor.{set_descriptors, next_fd, set_ptr}
use disastros_msg_queues.MessageQueue.{alloc, free, by_id, is_empty}
use disastros_msg_queues.MessageQueue.Write.{no_fd}

-- DSOS_CREATE and DSOS_EXCL
abbrev pub create_mode : ℤ
create_mode = pos 1

abbrev pub excl_mode : ℤ
excl_mode = pos 4

-- DSOS_ERESOURCECREATE, -OPEN, -NOEXCL, -CLOSE and -INUSE
abbrev pub exists_error : ℤ
exists_error = negsuc 7

abbrev pub open_error : ℤ
open_error = negsuc 8

abbrev pub excl_error : ℤ
excl_error = negsuc 9

abbrev pub close_error : ℤ
close_error = negsuc 11

abbrev pub in_use_error : ℤ
in_use_error = negsuc 12

-- The running process gets a descriptor of the queue, and the queue an item that points to it.
unfoldable pub describe : Os → (res : Ptr) → Run Os
unfolding Descriptor.alloc_mq Descriptor.ptr_alloc
describe os res = do
  (des, os) ← Descriptor.alloc_mq os (os.pcbs os.running).last_fd res os.running
  if is_null des then ok (return_value os no_fd) else (do
    (desptr, os) ← Descriptor.ptr_alloc (next_fd os) des
    ds ← insert_last (os.pcbs os.running).descriptors des
    let os = set_ptr (set_descriptors os ds) des desptr
    l ← insert_last (os.mqs res).descriptors_ptrs desptr
    let os = set_mq os res (record (os.mqs res) { descriptors_ptrs = l })
    ok (return_value os (pos (os.descriptors des).fd)))

unfoldable pub open_found : Os → (open_mode : ℤ) (res : Ptr) → Run Os
unfolding describe is_empty
open_found os open_mode res =
    if is_null res
    then ok (return_value os open_error)
    else if eqb_ℤ open_mode excl_mode && not (is_empty (os.mqs res).descriptors_ptrs)
    then ok (return_value os excl_error)
    else describe os res

-- A new queue goes to the end of the list of queues; null, from an exhausted pool, is dereferenced.
unfoldable pub create : Os → (id open_mode : ℤ) → Run Os
unfolding alloc open_found
create os id open_mode = do
  (res, os) ← alloc os id
  l ← insert_last os.mq_list res
  open_found (record os { mq_list = l }) open_mode res

-- `internal_openMessageQueue`
unfoldable pub open_mq : Os → Run Os
unfolding create by_id
open_mq os = do
  _ ← valid os.running
  let id = arg os 0
  let open_mode = arg os 1
  let res = by_id os os.mq_list id
  if eqb_ℤ open_mode create_mode
      then if is_null res then create os id open_mode else ok (return_value os exists_error)
      else open_found os open_mode res

-- The descriptor leaves the process, the item that points to it leaves the queue, and both are freed.
unfoldable pub close_found : Os → (des : Ptr) → Run Os
unfolding Descriptor.free Descriptor.ptr_free
close_found os des = do
  ds ← detach (os.pcbs os.running).descriptors des
  let os = set_descriptors os ds
  let desptr = (os.descriptors des).ptr
  res ← valid (os.descriptors des).mq
  l ← detach (os.mqs res).descriptors_ptrs desptr
  let os = set_mq os res (record (os.mqs res) { descriptors_ptrs = l })
  (_, os) ← Descriptor.free os des
  (_, os) ← Descriptor.ptr_free os desptr
  ok (return_value os (pos 0))

-- `internal_closeMessageQueue`
unfoldable pub close_mq : Os → Run Os
unfolding close_found Descriptor.by_fd
close_mq os = do
  _ ← valid os.running
  let des = Descriptor.by_fd os (os.pcbs os.running).descriptors (arg os 0)
  if is_null des then ok (return_value os close_error) else close_found os des

-- `internal_destroyMessageQueue`
unfoldable pub destroy_mq : Os → Run Os
unfolding by_id is_empty free
destroy_mq os = do
  _ ← valid os.running
  let res = by_id os os.mq_list (arg os 0)
  if is_null res
      then ok (return_value os close_error)
      else if is_empty (os.mqs res).descriptors_ptrs
      then (do
        l ← detach os.mq_list res
        (_, os) ← free (record os { mq_list = l }) res
        ok (return_value os (pos 0)))
      else ok (return_value os in_use_error)
