-- ===== src/Resource.antt =====
-- disastrOS_resource.c, disastrOS_open_resource.c, disastrOS_close_resource.c and
-- disastrOS_destroy_resource.c.
use Prim.Native.Nat.{bit_and}
use disastros_msg_queues.Base.{
  ℕ, List, [], ◌∷◌, Bool, if◌then◌else◌, ◌==◌, ◌&&◌, ◌||◌, not, ℤ, pos, negsuc, eqb_ℤ, Run, ok,
  fault, failed_assert, ◌>>=◌, Ptr, null, is_null, update,
}
use disastros_msg_queues.PoolAllocator.{PoolAllocatorResult, get_block, release_block}
use disastros_msg_queues.Sequence.{insert_last, detach}
use disastros_msg_queues.Os.{Os, valid}
use disastros_msg_queues.Process.{arg, return_value}
use disastros_msg_queues.Descriptor
use disastros_msg_queues.Descriptor.{set_descriptors, next_fd, set_ptr}
use disastros_msg_queues.MessageQueue.{is_empty}
use disastros_msg_queues.MessageQueue.Write.{no_fd}
use disastros_msg_queues.MessageQueue.Open.{
  exists_error, open_error, excl_error, close_error, in_use_error,
}

unfoldable pub alloc : Os → (id type : ℤ) → Run (Ptr × Os)
alloc os id type = do
  (r, a) ← get_block os.resource_allocator
  if is_null r
      then ok (null, os)
      else ok (
        r,
        record os {
          resource_allocator = a;
          resources =
              update os.resources r (record { id = id; type = type; descriptors_ptrs = [] });
        },
      )

unfoldable pub free : Os → Ptr → Run (PoolAllocatorResult × Os)
unfolding is_empty
free os r =
    if is_empty (os.resources r).descriptors_ptrs
    then (do
      (e, a) ← release_block os.resource_allocator r
      ok (e, record os { resource_allocator = a }))
    else fault failed_assert

unfoldable pub by_id : Os → List Ptr → ℤ → Ptr
by_id os [] id = null
by_id os (r ∷ rs) id = if eqb_ℤ (os.resources r).id id then r else by_id os rs id

-- Is the bit set? A negative mode stands for its two's complement, and `bit` is a power of two.
abbrev pub has_bit : (open_mode : ℤ) (bit : ℕ) → Bool
has_bit (pos n) bit = not (bit_and n bit == 0)
has_bit (negsuc n) bit = bit_and n bit == 0

abbrev pub set_items : Os → (res : Ptr) → List Ptr → Os
set_items os res l = record os {
  resources = update os.resources res (record (os.resources res) { descriptors_ptrs = l });
}

unfoldable pub describe : Os → (res : Ptr) → Run Os
unfolding Descriptor.alloc Descriptor.ptr_alloc
describe os res = do
  (des, os) ← Descriptor.alloc os (os.pcbs os.running).last_fd res os.running
  if is_null des then ok (return_value os no_fd) else (do
    (desptr, os) ← Descriptor.ptr_alloc (next_fd os) des
    ds ← insert_last (os.pcbs os.running).descriptors des
    let os = set_ptr (set_descriptors os ds) des desptr
    l ← insert_last (os.resources res).descriptors_ptrs desptr
    let os = set_items os res l
    ok (return_value os (pos (os.descriptors des).fd)))

unfoldable pub open_found : Os → (type open_mode : ℤ) (res : Ptr) → Run Os
unfolding describe is_empty
open_found os type open_mode res =
    if is_null res || not (eqb_ℤ (os.resources res).type type)
    then ok (return_value os open_error)
    else if has_bit open_mode 4 && not (is_empty (os.resources res).descriptors_ptrs)
    then ok (return_value os excl_error)
    else describe os res

unfoldable pub create : Os → (id type open_mode : ℤ) → Run Os
unfolding alloc open_found
create os id type open_mode = do
  (res, os) ← alloc os id type
  l ← insert_last os.resources_list res
  open_found (record os { resources_list = l }) type open_mode res

-- `internal_openResource`
unfoldable pub open_resource : Os → Run Os
unfolding create by_id
open_resource os = do
  _ ← valid os.running
  let id = arg os 0
  let type = arg os 1
  let open_mode = arg os 2
  let res = by_id os os.resources_list id
  if has_bit open_mode 1
      then if is_null res then create os id type open_mode else ok (return_value os exists_error)
      else open_found os type open_mode res

unfoldable pub close_found : Os → (des : Ptr) → Run Os
unfolding Descriptor.free Descriptor.ptr_free
close_found os des = do
  ds ← detach (os.pcbs os.running).descriptors des
  let os = set_descriptors os ds
  let desptr = (os.descriptors des).ptr
  res ← valid (os.descriptors des).resource
  l ← detach (os.resources res).descriptors_ptrs desptr
  (_, os) ← Descriptor.free (set_items os res l) des
  (_, os) ← Descriptor.ptr_free os desptr
  ok (return_value os (pos 0))

-- `internal_closeResource`
unfoldable pub close_resource : Os → Run Os
unfolding close_found Descriptor.by_fd
close_resource os = do
  _ ← valid os.running
  let des = Descriptor.by_fd os (os.pcbs os.running).descriptors (arg os 0)
  if is_null des then ok (return_value os close_error) else close_found os des

-- `internal_destroyResource`
unfoldable pub destroy_resource : Os → Run Os
unfolding by_id is_empty free
destroy_resource os = do
  _ ← valid os.running
  let res = by_id os os.resources_list (arg os 0)
  if is_null res
      then ok (return_value os close_error)
      else if is_empty (os.resources res).descriptors_ptrs
      then (do
        l ← detach os.resources_list res
        (_, os) ← free (record os { resources_list = l }) res
        ok (return_value os (pos 0)))
      else ok (return_value os in_use_error)
