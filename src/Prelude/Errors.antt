-- ===== src/Prelude/Errors.antt =====
-- Go errors and results. `wrap` is `fmt.Errorf("...: %w", err)`.
use mathlib.Core.Path.{◌≡◌, refl}
use mathlib.Core.Logic.{◌⊎◌, inl, inr}
use package.stonewrit.Prelude.Texts.{Text}

-- the sentinel values that the code tests with `errors.Is`, other errors, and wrapped errors
pub data Error : Type 0 where
  no_rows invalid_key not_found : Error
  other : Text → Error
  wrap : Text → Error → Error

-- what a Go function with results `(T, error)` returns
pub data Result {ℓ} (T : Type ℓ) : Type ℓ where
  err : Error → Result T
  ok : T → Result T

-- `if err != nil { return err }`, and the rest of the function
infixl 5 ◌>>=◌
abbrev pub ◌>>=◌ {ℓ κ} : {S : Type ℓ} {T : Type κ} → Result S → (S → Result T) → Result T
err failure >>= rest = err failure
ok value >>= rest = rest value

-- `if err != nil { return fmt.Errorf("what: %w", err) }`
abbrev pub wrapping {ℓ} : {T : Type ℓ} → Text → Result T → Result T
wrapping what (err failure) = err (wrap what failure)
wrapping what (ok value) = ok value

-- a statement with no result but its error
infixl 5 ◌>>◌
abbrev pub ◌>>◌ {ℓ} : {T : Type ℓ} → Result (Unit {0}) → Result T → Result T
statement >> rest = statement >>= λ done. rest

-- a function that returned a value got past each of its error tests
pub >>=-eq-ok {ℓ κ} :
    {S : Type ℓ} {T : Type κ} (first : Result S) (rest : S → Result T) {t : T}
    → (first >>= rest) ≡ ok t
    → (s : S) × (first ≡ ok s) × (rest s ≡ ok t)
>>=-eq-ok (err failure) rest h = cc
>>=-eq-ok (ok s) rest h = (s, refl, h)

-- To split on a computed result and keep the equation.
pub Result-cases {ℓ} :
    {T : Type ℓ} (r : Result T) → ((e : Error) × (r ≡ err e)) ⊎ ((t : T) × (r ≡ ok t))
Result-cases (err failure) = inl (failure, refl)
Result-cases (ok value) = inr (value, refl)
