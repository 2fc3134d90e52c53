-- ===== src/Exit/Rounds.antt =====
-- How many rounds the loop over the children makes.
use mathlib.Core.List.{append_assoc, append-nil}
use disastros_msg_queues.Base.{
  ℕ, zero, suc, ◌≡◌, ◌≢◌, ◌≤◌, refl, sym, ◌∙◌, ap, subst, arith, ◌==◌, true, List, [], ◌∷◌, ◌++◌,
  length, ◌∈◌, has-append, Distinct, Distinct-append, mem-ne, Run, ok, fault, out_of_rounds,
  Returns, returns, Ptr, null, is_null-ne,
}
use disastros_msg_queues.Os.{Os, set_pcb}
use disastros_msg_queues.MessageQueue.Wake.{insert_last-new}
use disastros_msg_queues.Exit.{send_signal, reparent, reparent_all, sighup}
use disastros_msg_queues.Exit.Reparent.{
  CanMove, Moves, round, with_running, init_children, reparent-ok, children_running, children_init,
  children_others, round-CanMove,
}

Moves-cons :
    (os : Os) (c : Ptr) (cs : List Ptr) (v : CanMove os (c ∷ cs)) (os' : Os)
    → Moves (round os c cs v) cs os'
    → Moves os (c ∷ cs) os'
unfolding round with_running init_children send_signal
Moves-cons os c cs v os' m = record {
  none_left = m.none_left;
  adopted =
      m.adopted
      ∙ ap (λ l. l ++ cs) (children_init os c cs v)
      ∙ append_assoc (os.pcbs os.init_pcb).children (c ∷ []) cs;
  others = λ p a b. m.others p a b ∙ children_others os c cs v p a b;
  same_process = m.same_process;
  same_items = m.same_items;
}

-- A process other than init, whose children are new in init's list, gives up all of them in as many
-- rounds as it has children: the loop ends, the process has no child left, and init's list is followed
-- by them in their order; no other list changes.
pub reparent_all-Moves :
    (cs : List Ptr) (rounds : ℕ) (os : Os)
    → length cs ≤ rounds
    → CanMove os cs
    → Returns (Moves os cs) (reparent_all rounds os cs)
unfolding reparent_all round with_running
reparent_all-Moves [] rounds os enough v = returns (record {
  none_left = v.children;
  adopted = sym (append-nil (os.pcbs os.init_pcb).children);
  others = λ p a b. refl;
  same_process = (refl, refl);
  same_items = refl;
})
reparent_all-Moves (c ∷ cs) zero os enough v = absurd (omega arith)
reparent_all-Moves (c ∷ cs) (suc rounds) os enough v = rw (reparent-ok os c cs v) (
    subst (λ l. Returns (Moves os (c ∷ cs)) (reparent_all rounds (round os c cs v) l))
      (sym (children_running os c cs v))
      (go (reparent_all-Moves cs rounds (round os c cs v) (omega arith) (round-CanMove os c cs v))))
  where
    go : {r : Run Os} → Returns (Moves (round os c cs v) cs) r → Returns (Moves os (c ∷ cs)) r
    go (returns m) = returns (Moves-cons os c cs v _ m)

-- Init's own children, each an item with a process.
pub record IsInit (os : Os) (cs : List Ptr) : Type 0 where
  pub is_init : os.init_pcb ≡ os.running
  pub distinct : Distinct cs
  pub items : (c : Ptr) → c ∈ cs → (c ≢ null) × (os.pcb_ptrs c ≢ null)

-- The state behind a round of init.
abbrev turned : Os → Ptr → List Ptr → Os
turned os c cs =
    let os' = set_pcb os os.running (record (os.pcbs os.running) { children = cs }) in
    let os'' =
      set_pcb os' os.init_pcb (record (os'.pcbs os.init_pcb) { children = cs ++ c ∷ [] }) in
    send_signal os'' (os.pcb_ptrs c) sighup

turn-ok :
    (os : Os) (c : Ptr) (cs : List Ptr)
    → IsInit os (c ∷ cs)
    → reparent os c cs ≡ ok (turned os c cs)
unfolding reparent
turn-ok os c cs v =
    let (ne, ne') = v.items c (ground arith) in
    let same : (os.running == os.init_pcb) ≡ true = ground (arith, v.is_init) in
    rw same
      (rw (insert_last-new cs c ne v.distinct.0) (rw (is_null-ne (os.pcb_ptrs c) _ _ ne') refl))

children_turned :
    (os : Os) (c : Ptr) (cs : List Ptr)
    → IsInit os (c ∷ cs)
    → ((turned os c cs).pcbs os.running).children ≡ cs ++ c ∷ []
unfolding send_signal
children_turned os c cs v = ground (arith, v.is_init)

turned-IsInit :
    (os : Os) (c : Ptr) (cs : List Ptr)
    → IsInit os (c ∷ cs)
    → IsInit (turned os c cs) (cs ++ c ∷ [])
unfolding send_signal
turned-IsInit os c cs v = record {
  is_init = v.is_init;
  distinct =
      Distinct-append cs (c ∷ []) v.distinct.1 (refl, tt)
        (λ p at. ground (arith, mem-ne p c cs at v.distinct.0));
  items = λ d at. v.items d (ground (arith, has-append d cs (c ∷ [])));
}

-- If init itself ends while it has a child, the loop uses up any number of rounds: each child is
-- moved from the front of init's list to its end, so the handler never returns.
pub reparent_all_endless :
    (rounds : ℕ) (os : Os) (c : Ptr) (cs : List Ptr)
    → IsInit os (c ∷ cs)
    → reparent_all rounds os (c ∷ cs) ≡ fault out_of_rounds
unfolding reparent_all send_signal
reparent_all_endless zero os c cs v = refl
reparent_all_endless (suc rounds) os c [] v = rw (turn-ok os c [] v) (
    ap (reparent_all rounds (turned os c [])) (children_turned os c [] v)
    ∙ reparent_all_endless rounds (turned os c []) c [] (turned-IsInit os c [] v))
reparent_all_endless (suc rounds) os c (d ∷ cs) v = rw (turn-ok os c (d ∷ cs) v) (
    ap (reparent_all rounds (turned os c (d ∷ cs))) (children_turned os c (d ∷ cs) v)
    ∙ reparent_all_endless rounds (turned os c (d ∷ cs)) d (cs ++ c ∷ [])
        (turned-IsInit os c (d ∷ cs) v))
