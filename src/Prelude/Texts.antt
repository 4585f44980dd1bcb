-- ===== src/Prelude/Texts.antt =====
-- Go strings as byte sequences: equality, order, prefix, the byte that `strings.Index` finds, and
-- the ways in which a concatenation can be taken apart.
use Prim.Native.Nat.{ℕ, compare, Ordering}
use Prim.Native.Char.{code}
use Prim.Native.String.{String}
use mathlib.Core.Path.{◌≡◌, refl, sym}
use mathlib.Core.Bool.{Bool, true, false, ◌&&◌}
use mathlib.Core.Logic.{◌↔◌, ◌≢◌, inl, inr}
use mathlib.Core.List.{List, [], ◌∷◌, ◌++◌}
use native.Mathlib.Omega.{arith}
use package.stonewrit.Prelude.Tests.{◌==◌, if◌then◌else◌, Bool-cases}
use package.stonewrit.Prelude.Lists.{length, All, Elem}

abbrev pub Text : Type 0
Text = List ℕ

-- the bytes of an ASCII literal
abbrev pub codes : String → Text
codes String.[] = []
codes (String.◌∷◌ c s) = code c ∷ codes s

unfoldable pub str_eq : Text → Text → Bool
str_eq [] [] = true
str_eq [] (d ∷ t) = false
str_eq (c ∷ s) [] = false
str_eq (c ∷ s) (d ∷ t) = c == d && str_eq s t

pub str_eq_iff : (s t : Text) → (str_eq s t ≡ true) ↔ (s ≡ t)
unfolding str_eq
str_eq_iff [] [] = (λ _. refl, λ _. refl)
str_eq_iff [] (d ∷ t) = (λ h. cc, λ h. cc)
str_eq_iff (c ∷ s) [] = (λ h. cc, λ h. cc)
str_eq_iff (c ∷ s) (d ∷ t) = ground (arith, str_eq_iff s t)

pub str_eq_refl : (s : Text) → str_eq s s ≡ true
str_eq_refl s = (str_eq_iff s s).1 refl

-- the order of `<` on Go strings: byte by byte, a proper prefix first
unfoldable pub str_leb : Text → Text → Bool
str_leb [] t = true
str_leb (c ∷ s) [] = false
str_leb (c ∷ s) (d ∷ t) = elim (compare c d) [
  | Ordering.lt ↦ true
  | Ordering.eq ↦ str_leb s t
  | Ordering.gt ↦ false
]

-- strings.HasPrefix(s, p)
unfoldable pub has_prefix : Text → Text → Bool
has_prefix s [] = true
has_prefix [] (d ∷ p) = false
has_prefix (c ∷ s) (d ∷ p) = c == d && has_prefix s p

has_prefix-of : (s p : Text) → has_prefix s p ≡ true → (rest : Text) × (s ≡ p ++ rest)
unfolding has_prefix
has_prefix-of s [] h = (s, refl)
has_prefix-of [] (d ∷ p) h = cc
has_prefix-of (c ∷ s) (d ∷ p) h =
    let (rest, e) = has_prefix-of s p (ground arith) in
    let same : c ≡ d = ground arith in (rest, cc (e, same))

of-has_prefix : (p rest : Text) → has_prefix (p ++ rest) p ≡ true
unfolding has_prefix
of-has_prefix [] rest = refl
of-has_prefix (d ∷ p) rest = ground (arith, of-has_prefix p rest)

pub has_prefix_iff : (s p : Text) → (has_prefix s p ≡ true) ↔ ((rest : Text) × (s ≡ p ++ rest))
has_prefix_iff s p = (has_prefix-of s p, λ h. rw h.1 (of-has_prefix p h.0))

-- `contains`: a member of a list or of a Go set of strings
unfoldable pub contains : List Text → Text → Bool
contains [] v = false
contains (s ∷ set) v = let rest = contains set v in if str_eq s v then true else rest

pub Elem-contains : (x : Text) (xs : List Text) → Elem x xs → contains xs x ≡ true
unfolding contains
Elem-contains x [] h = elim h [ ]
Elem-contains x (y ∷ xs) (inl e) = ground (arith, str_eq_iff y x, sym e)
Elem-contains x (y ∷ xs) (inr h) = ground (arith, Elem-contains x xs h)

pub contains-Elem : (x : Text) (xs : List Text) → contains xs x ≡ true → Elem x xs
unfolding contains
contains-Elem x [] h = cc
contains-Elem x (y ∷ xs) h = elim (Bool-cases (str_eq y x)) [
  | inl e ↦ inl (sym ((str_eq_iff y x).0 e))
  | inr e ↦ inr (contains-Elem x xs (rw (e, contains) at h))
]

-- no byte of the text is `b`
abbrev pub Lacks : ℕ → Text → Type 0
Lacks b = All (λ c. c ≢ b)

Lacks-middle : (b : ℕ) (ys es ds : Text) → Lacks b ds → ds ≡ ys ++ b ∷ es → ⊥
Lacks-middle b [] es [] hd h = cc
Lacks-middle b [] es (d ∷ ds) hd h = hd.0 (cc)
Lacks-middle b (y ∷ ys) es [] hd h = cc
Lacks-middle b (y ∷ ys) es (d ∷ ds) hd h = Lacks-middle b ys es ds hd.1 (cc)

-- the last `b` splits a text in one way only
pub split_last :
    (b : ℕ) (xs ys ds es : Text)
    → Lacks b ds
    → Lacks b es
    → xs ++ b ∷ ds ≡ ys ++ b ∷ es
    → (xs ≡ ys) × (ds ≡ es)
split_last b [] [] ds es hd he h = (refl, cc)
split_last b [] (y ∷ ys) ds es hd he h = absurd (Lacks-middle b ys es ds hd (cc))
split_last b (x ∷ xs) [] ds es hd he h = absurd (Lacks-middle b xs ds es he (cc))
split_last b (x ∷ xs) (y ∷ ys) ds es hd he h =
    let (p, q) = split_last b xs ys ds es hd he (cc) in (cc, q)

-- two concatenations whose first parts are equally long
pub split_length :
    (xs ys us vs : Text) → length xs ≡ length ys → xs ++ us ≡ ys ++ vs → (xs ≡ ys) × (us ≡ vs)
split_length [] [] us vs hl h = (refl, h)
split_length [] (y ∷ ys) us vs hl h = absurd (omega arith)
split_length (x ∷ xs) [] us vs hl h = absurd (omega arith)
split_length (x ∷ xs) (y ∷ ys) us vs hl h =
    let (p, q) = split_length xs ys us vs (omega arith) (cc) in (cc, q)

pub str_leb_total : (s t : Text) → str_leb s t ≡ false → str_leb t s ≡ true
unfolding str_leb
str_leb_total [] t h = cc
str_leb_total (c ∷ s) [] h = refl
str_leb_total (c ∷ s) (d ∷ t) h = grind (arith, str_leb_total s t)

pub str_leb_trans : (s t u : Text) → str_leb s t ≡ true → str_leb t u ≡ true → str_leb s u ≡ true
unfolding str_leb
str_leb_trans [] t u h k = refl
str_leb_trans (c ∷ s) [] u h k = cc
str_leb_trans (c ∷ s) (d ∷ t) [] h k = cc
str_leb_trans (c ∷ s) (d ∷ t) (e ∷ u) h k = grind (arith, str_leb_trans s t u)

pub str_leb_antisymm : (s t : Text) → str_leb s t ≡ true → str_leb t s ≡ true → s ≡ t
unfolding str_leb
str_leb_antisymm [] [] h k = refl
str_leb_antisymm [] (d ∷ t) h k = cc
str_leb_antisymm (c ∷ s) [] h k = cc
str_leb_antisymm (c ∷ s) (d ∷ t) h k = grind (arith, str_leb_antisymm s t)
