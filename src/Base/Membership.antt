-- ===== src/Base/Membership.antt =====
-- Lists of distinct numbers: taking out, adding and mapping.
use Prim.Native.Nat.{ℕ}
use mathlib.Core.Path.{◌≡◌, refl}
use mathlib.Core.Logic.{◌≢◌, inl, inr}
use mathlib.Core.List.{List, [], ◌∷◌, ◌++◌, map}
use native.Mathlib.Omega.{arith}
use disastros_msg_queues.Base.Tests.{◌==◌, Bool-cases}
use disastros_msg_queues.Base.Lists.{has, ◌∈◌, ◌∉◌, Distinct, erase, has-append}

-- The list without the given items.
abbrev pub without : List ℕ → List ℕ → List ℕ
without [] xs = xs
without (p ∷ ps) xs = without ps (erase p xs)

pub mem-erase : (p x : ℕ) (xs : List ℕ) → p ∈ xs → p ≢ x → p ∈ erase x xs
mem-erase p x [] at ne = cc
mem-erase p x (y ∷ xs) at ne = ground (arith, mem-erase p x xs)

pub not-mem-erase : (p x : ℕ) (xs : List ℕ) → p ∉ xs → p ∉ erase x xs
not-mem-erase p x [] out = refl
not-mem-erase p x (y ∷ xs) out = ground (arith, not-mem-erase p x xs)

pub not-mem-erase_self : (x : ℕ) (xs : List ℕ) → Distinct xs → x ∉ erase x xs
not-mem-erase_self x [] d = refl
not-mem-erase_self x (y ∷ xs) d = ground (arith, not-mem-erase_self x xs)

pub Distinct-erase : (x : ℕ) (xs : List ℕ) → Distinct xs → Distinct (erase x xs)
Distinct-erase x [] d = tt
Distinct-erase x (y ∷ xs) d = ground (arith, Distinct-erase x xs, not-mem-erase y x xs)

pub mem-without : (p : ℕ) (ps xs : List ℕ) → p ∈ xs → p ∉ ps → p ∈ without ps xs
mem-without p [] xs at out = at
mem-without p (x ∷ ps) xs at out =
    mem-without p ps (erase x xs) (mem-erase p x xs at (ground arith)) (ground arith)

pub not-mem-without : (p : ℕ) (ps xs : List ℕ) → p ∉ xs → p ∉ without ps xs
not-mem-without p [] xs out = out
not-mem-without p (x ∷ ps) xs out = not-mem-without p ps (erase x xs) (not-mem-erase p x xs out)

pub not-mem-without_mem : (p : ℕ) (ps xs : List ℕ) → Distinct xs → p ∈ ps → p ∉ without ps xs
not-mem-without_mem p [] xs d at = cc
not-mem-without_mem p (x ∷ ps) xs d at = elim (Bool-cases (p == x)) [
  | inl here ↦ not-mem-without p ps (erase x xs) (ground (arith, not-mem-erase_self x xs))
  | inr there ↦ not-mem-without_mem p ps (erase x xs) (Distinct-erase x xs d) (ground arith)
]

pub Distinct-without : (ps xs : List ℕ) → Distinct xs → Distinct (without ps xs)
Distinct-without [] xs d = d
Distinct-without (x ∷ ps) xs d = Distinct-without ps (erase x xs) (Distinct-erase x xs d)

pub Distinct-append :
    (xs ys : List ℕ) → Distinct xs → Distinct ys → ((p : ℕ) → p ∈ xs → p ∉ ys) → Distinct (xs ++ ys)
Distinct-append [] ys d e apart = e
Distinct-append (x ∷ xs) ys (out, d) e apart = (
  ground (arith, has-append x xs ys, apart x),
  Distinct-append xs ys d e (λ p at. apart p (ground arith)),
)

pub Distinct-left : (xs ys : List ℕ) → Distinct (xs ++ ys) → Distinct xs
Distinct-left [] ys d = tt
Distinct-left (x ∷ xs) ys (out, d) = (ground (arith, has-append x xs ys), Distinct-left xs ys d)

pub Distinct-right : (xs ys : List ℕ) → Distinct (xs ++ ys) → Distinct ys
Distinct-right [] ys d = d
Distinct-right (x ∷ xs) ys (out, d) = Distinct-right xs ys d

pub mem-map : (f : ℕ → ℕ) (w : ℕ) (ws : List ℕ) → w ∈ ws → f w ∈ map f ws
mem-map f w [] at = cc
mem-map f w (v ∷ ws) at = ground (arith, mem-map f w ws)

-- What a mapped list holds is the image of an item.
pub map-mem : (f : ℕ → ℕ) (p : ℕ) (ws : List ℕ) → p ∈ map f ws → (w : ℕ) × (w ∈ ws) × (p ≡ f w)
map-mem f p [] at = cc
map-mem f p (v ∷ ws) at = elim (Bool-cases (p == f v)) [
  | inl here ↦ (v, ground arith, ground arith)
  | inr there ↦ (let (w, at', e) = map-mem f p ws (ground arith) in (w, ground arith, e))
]

pub Distinct-map :
    (f : ℕ → ℕ) (ws : List ℕ)
    → Distinct ws
    → ((w v : ℕ) → w ∈ ws → v ∈ ws → f w ≡ f v → w ≡ v)
    → Distinct (map f ws)
Distinct-map f [] d inj = tt
Distinct-map f (w ∷ ws) (out, d) inj = (
  elim (Bool-cases (has (f w) (map f ws))) [
    | inl at ↦
        (let (v, at', e) = map-mem f (f w) ws at in
          let same : w ≡ v = inj w v (ground arith) (ground arith) e in ground arith)
    | inr no_image ↦ no_image
  ],
  Distinct-map f ws d (λ u v at at'. inj u v (ground arith) (ground arith)),
)

pub Distinct-apart : (xs ys : List ℕ) (p : ℕ) → Distinct (xs ++ ys) → p ∈ ys → p ∉ xs
Distinct-apart [] ys p d at = refl
Distinct-apart (x ∷ xs) ys p (out, d) at =
    ground (arith, has-append x xs ys, Distinct-apart xs ys p d at)

pub Distinct-insert :
    (xs ys : List ℕ) (p : ℕ) → Distinct (xs ++ ys) → p ∉ xs ++ ys → Distinct (xs ++ p ∷ ys)
Distinct-insert xs ys p d out =
    Distinct-append xs (p ∷ ys) (Distinct-left xs ys d)
      (ground (arith, has-append p xs ys), Distinct-right xs ys d)
      (λ q at. elim (Bool-cases (has q ys)) [
        | inl behind ↦ (let miss = Distinct-apart xs ys q d behind in ground arith)
        | inr miss ↦ ground (arith, has-append p xs ys)
      ])
