-- ===== src/Base/Pointers.antt =====
-- The addresses of a C program. 0 is the null pointer.
use Prim.Native.Nat.{ℕ}
use mathlib.Core.Path.{◌≡◌}
use mathlib.Core.Logic.{◌≢◌, inl, inr}
use mathlib.Core.Bool.{Bool, true}
use native.Mathlib.Omega.{arith}
use disastros_msg_queues.Base.Tests.{◌==◌, Bool-cases, if◌then◌else◌}

abbrev pub Ptr : Type 0
Ptr = ℕ

abbrev pub null : Ptr
null = 0

abbrev pub is_null : Ptr → Bool
is_null p = p == null

-- The memory that holds the objects of one type, and a write to one of them.
abbrev pub update {ℓ} : {A : Type ℓ} → (Ptr → A) → Ptr → A → Ptr → A
update f p v q = if p == q then v else f q

pub is_null-ne {ℓ} : {A : Type ℓ} (p : Ptr) (a b : A) → p ≢ null → (if is_null p then a else b) ≡ b
is_null-ne p a b ne = ground arith

pub ==_refl : (p : Ptr) → (p == p) ≡ true
==_refl p = ground arith

pub update_self {ℓ} : {A : Type ℓ} (f : Ptr → A) (p : Ptr) (v : A) → update f p v p ≡ v
update_self f p v = ground arith

pub update_ne {ℓ} : {A : Type ℓ} (f : Ptr → A) (p q : Ptr) (v : A) → p ≢ q → update f p v q ≡ f q
update_ne f p q v ne = ground arith

-- To prove something of an object behind a write, prove it of the new one and of the others.
pub update_cases {ℓ κ} :
    {A : Type ℓ} (P : A → Type κ) (f : Ptr → A) (p : Ptr) (v : A) (q : Ptr)
    → (p ≡ q → P v)
    → (p ≢ q → P (f q))
    → P (update f p v q)
update_cases P f p v q here there = elim (Bool-cases (p == q)) [
  | inl e ↦ rw e (here (ground arith))
  | inr e ↦ rw e (there (ground arith))
]
