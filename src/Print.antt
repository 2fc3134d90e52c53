-- ===== src/Print.antt =====
-- The functions that print: what they write, in the order in which they write it.
pub mod Processes
pub mod Objects
pub mod Queues
use Prim.Native.String.{String}
use disastros_msg_queues.Base.{
  ℕ, zero, suc, ◌+◌, ◌==◌, List, [], ◌∷◌, ◌++◌, if◌then◌else◌, ℤ, pos, Run, ok, fault,
  out_of_bounds, ◌>>=◌, Ptr,
}
use disastros_msg_queues.PoolAllocator.{
  PoolAllocatorResult, success, not_enough_memory, unaligned_free, out_of_range, double_free,
}
use disastros_msg_queues.Os.{Os, Pcb, valid}

-- What `printf` writes for a text, for `%d` and for `%s`.
pub data Piece : Type 0 where
  text : String → Piece
  number : ℤ → Piece
  bytes : List ℕ → Piece

-- Each item, with the separator where another one follows.
unfoldable pub separated : (Ptr → Run (List Piece)) → (sep : String) → List Ptr → Run (List Piece)
separated item sep [] = ok []
separated item sep (x ∷ []) = item x
separated item sep (x ∷ y ∷ xs) = do
  o ← item x
  rest ← separated item sep (y ∷ xs)
  ok (o ++ text sep ∷ rest)

-- Each item on a line of its own, with a comma where another one follows.
unfoldable pub lines : (Ptr → Run (List Piece)) → List Ptr → Run (List Piece)
lines item [] = ok []
lines item (x ∷ []) = do o ← item x; ok (text "\t" ∷ o ++ text "\n" ∷ [])
lines item (x ∷ y ∷ xs) = do
  o ← item x
  rest ← lines item (y ∷ xs)
  ok (text "\t" ∷ o ++ text "," ∷ text "\n" ∷ rest)

-- `PCBPtrList_print`
unfoldable pub pcb_ptr_list : Os → List Ptr → Run (List Piece)
unfolding separated
pcb_ptr_list os head = do
  o ←
      separated (λ x. do p ← valid (os.pcb_ptrs x); ok (number (pos (os.pcbs p).pid) ∷ [])) ", "
        head
  ok (text "(" ∷ o ++ text ")" ∷ [])

-- `PCB_print`
unfoldable pub pcb : Os → Ptr → Run (List Piece)
unfolding pcb_ptr_list
pcb os p = do
  p ← valid p
  o ← pcb_ptr_list os (os.pcbs p).children
  ok (text "[pid: " ∷ number (pos (os.pcbs p).pid) ∷ text ", child: " ∷ o ++ text "]" ∷ [])

-- `PCBList_print`
unfoldable pub pcb_list : Os → List Ptr → Run (List Piece)
unfolding lines pcb
pcb_list os head = do o ← lines (pcb os) head; ok (text "{\n" ∷ o ++ text "}\n" ∷ [])

-- `TimerList_print`
unfoldable pub timer_list : Os → List Ptr → Run (List Piece)
unfolding separated
timer_list os timers = do
  o ←
      separated
        (λ t. do
          p ← valid (os.timer_items t).pcb
          ok (
              text "(pid:"
              ∷ number (pos (os.pcbs p).pid)
              ∷ text ", t:"
              ∷ number (os.timer_items t).awakening_time
              ∷ text ")"
              ∷ []))
        ", " timers
  ok (text "[" ∷ o ++ text "]" ∷ [])

-- `PoolAllocator_strerror`
unfoldable pub strerror : PoolAllocatorResult → String
strerror success = "Success"
strerror not_enough_memory = "NotEnoughMemory"
strerror unaligned_free = "UnalignedFree"
strerror out_of_range = "OutOfRange"
strerror double_free = "DoubleFree"
