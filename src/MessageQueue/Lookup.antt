-- ===== src/MessageQueue/Lookup.antt =====
-- The search for a queue by its identifier.
use disastros_msg_queues.Base.{
  ◌≡◌, ◌≢◌, inl, inr, refl, arith, ◌==◌, Bool-cases, List, [], ◌∷◌, ◌∈◌, ℤ, eqb_ℤ_iff, Ptr, null,
}
use disastros_msg_queues.Os.{Os}
use disastros_msg_queues.MessageQueue.{by_id}

pub by_id-mem : (os : Os) (qs : List Ptr) (id : ℤ) → by_id os qs id ≢ null → by_id os qs id ∈ qs
unfolding by_id
by_id-mem os [] id ne = absurd (ne refl)
by_id-mem os (q ∷ qs) id ne = ground (arith, by_id-mem os qs id)

pub by_id-id :
    (os : Os) (qs : List Ptr) (id : ℤ) → by_id os qs id ≢ null → (os.mqs (by_id os qs id)).id ≡ id
unfolding by_id
by_id-id os [] id ne = absurd (ne refl)
by_id-id os (q ∷ qs) id ne = ground (arith, by_id-id os qs id, eqb_ℤ_iff (os.mqs q).id id)

-- The search fails only if no queue of the list has the identifier.
pub by_id-null :
    (os : Os) (qs : List Ptr) (id : ℤ) (r : Ptr)
    → ((q : Ptr) → q ∈ qs → q ≢ null)
    → by_id os qs id ≡ null
    → r ∈ qs
    → (os.mqs r).id ≢ id
unfolding by_id
by_id-null os [] id r exist e at = cc
by_id-null os (q ∷ qs) id r exist e at = elim (Bool-cases (r == q)) [
  | inl same ↦ ground (arith, exist q, eqb_ℤ_iff (os.mqs r).id id)
  | inr other ↦
      by_id-null os qs id r (λ p at'. exist p (ground arith)) (ground (arith, exist q))
        (ground arith)
]
