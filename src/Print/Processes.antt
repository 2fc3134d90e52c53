-- ===== src/Print/Processes.antt =====
-- Which numbers the lists of processes show.
use disastros_msg_queues.Base.{
  ◌≡◌, ◌≢◌, refl, sym, ◌∙◌, ap, ap₂, arith, List, [], ◌∷◌, ◌++◌, ◌∈◌, ℤ, pos, Run, Returns, returns,
  bind_lem, Returns-map, Ptr, null, is_null-ne,
}
use mathlib.Core.List.{append-nil}
use disastros_msg_queues.Os.{Os}
use disastros_msg_queues.Print.{
  Piece, text, number, bytes, separated, lines, pcb_ptr_list, pcb, pcb_list,
}

-- The numbers of an output, in order.
abbrev pub numbers : List Piece → List ℤ
numbers [] = []
numbers (text s ∷ o) = numbers o
numbers (number n ∷ o) = n ∷ numbers o
numbers (bytes s ∷ o) = numbers o

abbrev pub all : (Ptr → List ℤ) → List Ptr → List ℤ
all f [] = []
all f (x ∷ xs) = f x ++ all f xs

-- The pid of the process that an item points to, and those of a process and its children.
abbrev pub child_pid : Os → Ptr → List ℤ
child_pid os c = pos (os.pcbs (os.pcb_ptrs c)).pid ∷ []

abbrev pub family : Os → Ptr → List ℤ
family os p = pos (os.pcbs p).pid ∷ all (child_pid os) (os.pcbs p).children

numbers-append : (o p : List Piece) → numbers (o ++ p) ≡ numbers o ++ numbers p
numbers-append [] p = refl
numbers-append (text s ∷ o) p = numbers-append o p
numbers-append (number n ∷ o) p = ap (λ l. n ∷ l) (numbers-append o p)
numbers-append (bytes s ∷ o) p = numbers-append o p

-- Each item shows its numbers.
abbrev Shows : (Ptr → Run (List Piece)) → (Ptr → List ℤ) → List Ptr → Type 0
Shows item f xs = (x : Ptr) → x ∈ xs → Returns (λ o. numbers o ≡ f x) (item x)

tail-Shows :
    {item : Ptr → Run (List Piece)} {f : Ptr → List ℤ} (x : Ptr) (xs : List Ptr)
    → Shows item f (x ∷ xs)
    → Shows item f xs
tail-Shows x xs h y at = h y (ground arith)

head-Shows :
    {item : Ptr → Run (List Piece)} {f : Ptr → List ℤ} (x : Ptr) (xs : List Ptr)
    → Shows item f (x ∷ xs)
    → Returns (λ o. numbers o ≡ f x) (item x)
head-Shows x xs h = h x (ground arith)

module _ (item : Ptr → Run (List Piece)) (f : Ptr → List ℤ) where
  separated-numbers :
      (sep : _) (xs : List Ptr)
      → Shows item f xs
      → Returns (λ o. numbers o ≡ all f xs) (separated item sep xs)
  unfolding separated
  separated-numbers sep [] h = returns refl
  separated-numbers sep (x ∷ []) h =
      Returns-map (head-Shows x [] h) (λ o e. e ∙ sym (append-nil (f x)))
  separated-numbers sep (x ∷ y ∷ xs) h = bind_lem (head-Shows x (y ∷ xs) h) λ o e.
      bind_lem (separated-numbers sep (y ∷ xs) (tail-Shows x (y ∷ xs) h))
        λ rest e'. returns (numbers-append o (text sep ∷ rest) ∙ ap₂ (λ a b. a ++ b) e e')

  lines-numbers :
      (xs : List Ptr) → Shows item f xs → Returns (λ o. numbers o ≡ all f xs) (lines item xs)
  unfolding lines
  lines-numbers [] h = returns refl
  lines-numbers (x ∷ []) h =
      bind_lem (head-Shows x [] h)
        λ o e. returns (numbers-append o (text "\n" ∷ []) ∙ ap (λ a. a ++ []) e)
  lines-numbers (x ∷ y ∷ xs) h = bind_lem (head-Shows x (y ∷ xs) h) λ o e.
      bind_lem (lines-numbers (y ∷ xs) (tail-Shows x (y ∷ xs) h)) λ rest e'.
        returns (numbers-append o (text "," ∷ text "\n" ∷ rest) ∙ ap₂ (λ a b. a ++ b) e e')

module _ (os : Os) where
  child-Shows :
      (cs : List Ptr)
      → ((c : Ptr) → c ∈ cs → os.pcb_ptrs c ≢ null)
      → Returns (λ o. numbers o ≡ all (child_pid os) cs) (pcb_ptr_list os cs)
  unfolding pcb_ptr_list
  child-Shows cs exist =
      bind_lem
        (separated-numbers _ (child_pid os) ", " cs
          (λ c at. rw (is_null-ne (os.pcb_ptrs c) _ _ (exist c at)) (returns refl)))
        λ o e. returns (numbers-append o (text ")" ∷ []) ∙ append-nil (numbers o) ∙ e)

  pcb-Shows :
      (p : Ptr)
      → p ≢ null
      → ((c : Ptr) → c ∈ (os.pcbs p).children → os.pcb_ptrs c ≢ null)
      → Returns (λ o. numbers o ≡ family os p) (pcb os p)
  unfolding pcb
  pcb-Shows p exists exist = rw (is_null-ne p _ _ exists) (
      bind_lem (child-Shows (os.pcbs p).children exist) λ o e. returns (
        ap (λ l. pos (os.pcbs p).pid ∷ l)
          (numbers-append o (text "]" ∷ []) ∙ append-nil (numbers o) ∙ e)))

  -- A list of processes that exist, as do those that their children's items point to, is printed
  -- without a failed access, and the numbers in it are, process by process in the order of the list,
  -- its pid and the pids of its children in their order.
  pub pcb_list-numbers :
      (ps : List Ptr)
      → ((p : Ptr) → p ∈ ps → p ≢ null)
      → ((p c : Ptr) → p ∈ ps → c ∈ (os.pcbs p).children → os.pcb_ptrs c ≢ null)
      → Returns (λ o. numbers o ≡ all (family os) ps) (pcb_list os ps)
  unfolding pcb_list
  pcb_list-numbers ps exist children =
      bind_lem
        (lines-numbers (pcb os) (family os) ps
          (λ p at. pcb-Shows p (exist p at) (λ c. children p c at)))
        λ o e. returns (numbers-append o (text "}\n" ∷ []) ∙ append-nil (numbers o) ∙ e)
