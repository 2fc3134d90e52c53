-- ===== src/Base/Outcome.antt =====
-- What a piece of C code does: it returns, or it stops at an access that C leaves undefined.
use mathlib.Core.Path.{◌≡◌, refl, subst, ap}
use mathlib.Core.Logic.{◌⊎◌, inl, inr}
use mathlib.Core.Bool.{Bool, true, false}
use disastros_msg_queues.Base.Tests.{if◌then◌else◌}

pub data Fault : Type 0 where
  -- a null pointer is read through
  null_dereference : Fault
  -- an array is indexed outside its bounds
  out_of_bounds : Fault
  -- an item is linked into a list while it is in that list, or taken out of a list that it is not in
  corrupt_list : Fault
  -- an `assert` fails
  failed_assert : Fault
  -- a loop makes more rounds than it is given
  out_of_rounds : Fault

pub data Run {ℓ} (A : Type ℓ) : Type ℓ where
  ok : A → Run A
  fault : Fault → Run A

infixl 5 ◌>>=◌ ◌>>◌
abbrev pub ◌>>=◌ {ℓ κ} : {A : Type ℓ} {B : Type κ} → Run A → (A → Run B) → Run B
ok a >>= f = f a
fault e >>= f = fault e

abbrev pub ◌>>◌ {ℓ} : {B : Type ℓ} → Run (Unit {0}) → Run B → Run B
m >> k = m >>= λ _. k

-- The run returns, and its result satisfies the predicate.
pub data Returns {ℓ κ} {A : Type ℓ} (P : A → Type κ) : Run A → Type (ℓ ⊔ κ) where
  returns : {a : A} → P a → Returns P (ok a)

pub bind_lem {ℓ κ ι μ} :
    {A : Type ℓ} {B : Type κ} {P : A → Type ι} {Q : B → Type μ} {r : Run A} {k : A → Run B}
    → Returns P r
    → ((a : A) → P a → Returns Q (k a))
    → Returns Q (r >>= k)
bind_lem (returns p) next = next _ p

pub Returns-ok {ℓ ℓ'} :
    {A : Type ℓ} {P : A → Type ℓ'} {r : Run A} → Returns P r → (a : A) × (r ≡ ok a) × P a
Returns-ok (returns {a = a} p) = (a, refl, p)

-- Each result of the first run is one from which the second satisfies the predicate.
pub then_lem {ℓ κ μ} :
    {A : Type ℓ} {B : Type κ} {Q : B → Type μ} {r : Run A} {k : A → Run B}
    → Returns (λ a. Returns Q (k a)) r
    → Returns Q (r >>= k)
then_lem (returns p) = p

-- If the run returns, its result satisfies the predicate.
pub data Holds {ℓ κ} {A : Type ℓ} (P : A → Type κ) : Run A → Type (ℓ ⊔ κ) where
  holds : {a : A} → P a → Holds P (ok a)
  stops : {e : Fault} → Holds P (fault e)

pub Holds-bind {ℓ κ ι μ} :
    {A : Type ℓ} {B : Type κ} {P : A → Type ι} {Q : B → Type μ} {r : Run A} {k : A → Run B}
    → Holds P r
    → ((a : A) → P a → Holds Q (k a))
    → Holds Q (r >>= k)
Holds-bind (holds p) next = next _ p
Holds-bind stops next = stops

pub Returns-Holds {ℓ κ} : {A : Type ℓ} {P : A → Type κ} {r : Run A} → Returns P r → Holds P r
Returns-Holds (returns p) = holds p

pub Holds-map {ℓ κ ι} :
    {A : Type ℓ} {P : A → Type κ} {Q : A → Type ι} {r : Run A}
    → Holds P r
    → ((a : A) → P a → Q a)
    → Holds Q r
Holds-map (holds p) f = holds (f _ p)
Holds-map stops f = stops

result_or {ℓ} : {A : Type ℓ} → A → Run A → A
result_or a (ok b) = b
result_or a (fault e) = a

pub Holds-ok {ℓ κ} : {A : Type ℓ} {P : A → Type κ} {r : Run A} {a : A} → Holds P r → r ≡ ok a → P a
unfolding result_or
Holds-ok {P} (holds {a = a} p) e = subst P (ap (result_or a) e) p
Holds-ok stops e = cc

-- Any run either returns something or stops.
pub Run-cases {ℓ} :
    {A : Type ℓ} (r : Run A) → ((a : A) × (r ≡ ok a)) ⊎ ((e : Fault) × (r ≡ fault e))
Run-cases (ok a) = inl (a, refl)
Run-cases (fault e) = inr (e, refl)

pub Holds-if {ℓ κ} :
    {A : Type ℓ} {P : A → Type κ} (b : Bool) {x y : Run A}
    → (b ≡ true → Holds P x)
    → (b ≡ false → Holds P y)
    → Holds P (if b then x else y)
Holds-if true first second = first refl
Holds-if false first second = second refl

-- Of a run of which nothing is asked.
pub Holds-any {ℓ} : {A : Type ℓ} (r : Run A) → Holds (λ (_ : A). Unit {0}) r
Holds-any (ok a) = holds tt
Holds-any (fault e) = stops

pub Holds-both {ℓ κ ι} :
    {A : Type ℓ} {P : A → Type κ} {Q : A → Type ι} {r : Run A}
    → Holds P r
    → Holds Q r
    → Holds (λ a. P a × Q a) r
Holds-both {P} {Q} {r} h k = go r h k
  where
    go : (r : Run _) → Holds P r → Holds Q r → Holds (λ a. P a × Q a) r
    go (ok a) h k = holds (Holds-ok h refl, Holds-ok k refl)
    go (fault e) h k = stops

pub Returns-map {ℓ κ ι} :
    {A : Type ℓ} {P : A → Type κ} {Q : A → Type ι} {r : Run A}
    → Returns P r
    → ((a : A) → P a → Q a)
    → Returns Q r
Returns-map (returns p) f = returns (f _ p)
