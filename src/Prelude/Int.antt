-- ===== src/Prelude/Int.antt =====
-- Go's int64 as an integer, its successor with wrap-around, and its order.
use Prim.Native.Nat.{◌≤◌, ℕ, zero, suc, ◌+◌, ◌-◌, ◌^◌}
use mathlib.Core.Path.{◌≡◌}
use mathlib.Core.Logic.{◌↔◌}
use native.Mathlib.Omega.{arith}
use mathlib.Core.Bool.{Bool, true, false}
use package.stonewrit.Prelude.Tests.{leb, ◌==◌, if◌then◌else◌}

-- `negsuc n` is -(n + 1).
pub data ℤ : Type 0 where
  pos : ℕ → ℤ
  negsuc : ℕ → ℤ

-- x + 1 on int64
unfoldable pub succ_int64 : ℤ → ℤ
succ_int64 (pos n) = if n == 2 ^ 63 - 1 then negsuc (2 ^ 63 - 1) else pos (n + 1)
succ_int64 (negsuc zero) = pos 0
succ_int64 (negsuc (suc n)) = negsuc n

-- x - 1 on int64
unfoldable pub pred_int64 : ℤ → ℤ
pred_int64 (pos zero) = negsuc zero
pred_int64 (pos (suc n)) = pos n
pred_int64 (negsuc n) = if n == 2 ^ 63 - 1 then pos (2 ^ 63 - 1) else negsuc (n + 1)

unfoldable pub int_leb : ℤ → ℤ → Bool
int_leb (pos a) (pos b) = leb a b
int_leb (pos a) (negsuc b) = false
int_leb (negsuc a) (pos b) = true
int_leb (negsuc a) (negsuc b) = leb b a

-- `==` on int64
unfoldable pub int_eq : ℤ → ℤ → Bool
int_eq (pos a) (pos b) = a == b
int_eq (pos a) (negsuc b) = false
int_eq (negsuc a) (pos b) = false
int_eq (negsuc a) (negsuc b) = a == b

pub int_eq_iff : (a b : ℤ) → (int_eq a b ≡ true) ↔ (a ≡ b)
unfolding int_eq
int_eq_iff (pos a) (pos b) = ground arith
int_eq_iff (pos a) (negsuc b) = ground arith
int_eq_iff (negsuc a) (pos b) = ground arith
int_eq_iff (negsuc a) (negsuc b) = ground arith

pub int_leb_of_le : (a b : ℕ) → a ≤ b → int_leb (pos a) (pos b) ≡ true
unfolding int_leb
int_leb_of_le a b h = ground arith

pub int_leb_total : (a b : ℤ) → int_leb a b ≡ false → int_leb b a ≡ true
unfolding int_leb
int_leb_total (pos a) (pos b) h = ground arith
int_leb_total (pos a) (negsuc b) h = ground arith
int_leb_total (negsuc a) (pos b) h = ground arith
int_leb_total (negsuc a) (negsuc b) h = ground arith

pub int_leb_trans : (a b c : ℤ) → int_leb a b ≡ true → int_leb b c ≡ true → int_leb a c ≡ true
unfolding int_leb
int_leb_trans (pos a) (pos b) (pos c) h k = ground arith
int_leb_trans (pos a) (pos b) (negsuc c) h k = ground arith
int_leb_trans (pos a) (negsuc b) (negsuc c) h k = ground arith
int_leb_trans (pos a) (negsuc b) (pos c) h k = ground arith
int_leb_trans (negsuc a) b (pos c) h k = ground arith
int_leb_trans (negsuc a) (pos b) (negsuc c) h k = ground arith
int_leb_trans (negsuc a) (negsuc b) (negsuc c) h k = ground arith
