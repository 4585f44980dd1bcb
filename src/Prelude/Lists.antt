-- ===== src/Prelude/Lists.antt =====
-- Lists measured and indexed by native numbers, under the library's names, and predicates on lists.
use Prim.Native.Nat.{ℕ, zero, suc, ◌+◌}
use mathlib.Core.Path.{◌≡◌}
use mathlib.Core.Bool.{Bool}
use mathlib.Core.Logic.{◌⊎◌, inl, inr}
use mathlib.Core.List.{List, [], ◌∷◌, ◌++◌}
use native.Mathlib.Omega.{arith}
use package.stonewrit.Prelude.Tests.{if◌then◌else◌}

module _ {ℓ} {A : Type ℓ} where
  abbrev pub length : List A → ℕ
  length [] = 0
  length (x ∷ xs) = suc (length xs)

  abbrev pub take : ℕ → List A → List A
  take zero xs = []
  take (suc n) [] = []
  take (suc n) (x ∷ xs) = x ∷ take n xs

  pub length-append : (xs ys : List A) → length (xs ++ ys) ≡ length xs + length ys
  length-append [] ys = omega arith
  length-append (x ∷ xs) ys = omega (arith, length-append xs ys)

  -- the elements that pass a test, in their order
  abbrev pub filter : (A → Bool) → List A → List A
  filter p [] = []
  filter p (x ∷ xs) = let rest = filter p xs in if p x then x ∷ rest else rest

module _ {ℓ κ} {A : Type ℓ} (P : A → Type κ) where
  -- every element satisfies `P`
  abbrev pub All : List A → Type κ
  All [] = Unit
  All (x ∷ xs) = P x × All xs

  pub All-append : (xs ys : List A) → All xs → All ys → All (xs ++ ys)
  All-append [] ys hx hy = hy
  All-append (x ∷ xs) ys (px, hx) hy = (px, All-append xs ys hx hy)

-- `x` stands in the list
abbrev pub Elem : {A : Type 0} → A → List A → Type 0
Elem x [] = ⊥
Elem x (y ∷ ys) = (x ≡ y) ⊎ Elem x ys

module _ {A : Type 0} where
  pub Elem-append_left : (x : A) (xs ys : List A) → Elem x xs → Elem x (xs ++ ys)
  Elem-append_left x [] ys h = elim h [ ]
  Elem-append_left x (y ∷ xs) ys (inl e) = inl e
  Elem-append_left x (y ∷ xs) ys (inr h) = inr (Elem-append_left x xs ys h)

  pub Elem-append_right : (x : A) (xs ys : List A) → Elem x ys → Elem x (xs ++ ys)
  Elem-append_right x [] ys h = h
  Elem-append_right x (y ∷ xs) ys h = inr (Elem-append_right x xs ys h)

pub All-Elem {κ} : {A : Type 0} (P : A → Type κ) (x : A) (xs : List A) → All P xs → Elem x xs → P x
All-Elem P x [] h m = elim m [ ]
All-Elem P x (y ∷ xs) (p, h) (inl e) = rw e p
All-Elem P x (y ∷ xs) (p, h) (inr m) = All-Elem P x xs h m
