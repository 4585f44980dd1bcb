-- ===== src/Crypto/Encoding.antt =====
-- encoding/hex.EncodeToString and strconv.FormatInt(n, 10), with what makes them one-to-one.
use stonewrit.Prelude.{
  ℕ, zero, suc, ◌+◌, ◌-◌, ◌*◌, ◌/◌, ◌%◌, ◌<◌, [], ◌∷◌, ◌≡◌, refl, ap, ◌∙◌, sym, Text, Lacks, length,
  if◌then◌else◌, ltb, arith, Bool-cases, inl, inr, ◌⊎◌,
}
use stonewrit.Prelude.Int.{ℤ, pos, negsuc}

hex_digit : ℕ → ℕ
hex_digit d = if ltb d 10 then b'0' + d else b'a' + (d - 10)

-- hex.EncodeToString
unfoldable pub hex : Text → Text
unfolding hex_digit
hex [] = []
hex (b ∷ s) = hex_digit (b / 16) ∷ hex_digit (b % 16) ∷ hex s

hex_digit_injective : (a b : ℕ) → hex_digit a ≡ hex_digit b → a ≡ b
unfolding hex_digit
hex_digit_injective a b h = ground arith

pub hex_injective : (s t : Text) → hex s ≡ hex t → s ≡ t
unfolding hex
hex_injective [] [] h = refl
hex_injective [] (c ∷ t) h = cc
hex_injective (b ∷ s) [] h = cc
hex_injective (b ∷ s) (c ∷ t) h =
    let hi = hex_digit_injective (b / 16) (c / 16) (cc) in
    let lo = hex_digit_injective (b % 16) (c % 16) (cc) in
    let same : b ≡ c = omega arith in cc (hex_injective s t (cc))

pub length-hex : (s : Text) → length (hex s) ≡ 2 * length s
unfolding hex
length-hex [] = refl
length-hex (b ∷ s) = omega (arith, length-hex s)

-- the digits of `n` in front of `out`; a round per digit, and `n < fuel` is enough
digits : ℕ → ℕ → Text → Text
digits zero n out = out
digits (suc f) n out =
    let rest = digits f (n / 10) ((b'0' + n % 10) ∷ out) in
    if ltb n 10 then (b'0' + n) ∷ out else rest

unfoldable pub format_nat : ℕ → Text
unfolding digits
format_nat n = digits (suc n) n []

-- strconv.FormatInt(n, 10)
unfoldable pub format_int : ℤ → Text
unfolding format_nat
format_int (pos n) = format_nat n
format_int (negsuc n) = b'-' ∷ format_nat (n + 1)

-- the number that digits spell behind `n`
value : ℕ → Text → ℕ
value n [] = n
value n (c ∷ s) = value (n * 10 + (c - b'0')) s

value-digits : (f n : ℕ) (out : Text) → n < f → value 0 (digits f n out) ≡ value n out
unfolding value digits
value-digits zero n out h = absurd (omega arith)
value-digits (suc f) n out h = elim (Bool-cases (ltb n 10)) [
  | inl small ↦ rw (small, digits) (ap (λ k. value k out) (omega arith))
  | inr large ↦
      rw (large, digits)
        (value-digits f (n / 10) ((b'0' + n % 10) ∷ out) (ground arith)
          ∙ ap (λ k. value k out) (omega arith))
]

format_nat_injective : (a b : ℕ) → format_nat a ≡ format_nat b → a ≡ b
unfolding format_nat value
format_nat_injective a b h =
    sym (value-digits (suc a) a [] (omega arith))
    ∙ ap (value 0) h
    ∙ value-digits (suc b) b [] (omega arith)

-- every byte is below ':' and above '-'
digits-Lacks :
    (b f n : ℕ) (out : Text) → (b ≡ b':') ⊎ (b ≡ b'-') → Lacks b out → Lacks b (digits f n out)
unfolding digits
digits-Lacks b zero n out hb h = h
digits-Lacks b (suc f) n out hb h = elim (Bool-cases (ltb n 10)) [
  | inl small ↦ rw (small, digits) (ground arith, h)
  | inr large ↦
      rw (large, digits) (digits-Lacks b f (n / 10) ((b'0' + n % 10) ∷ out) hb (ground arith, h))
]

format_nat-Lacks : (b n : ℕ) → (b ≡ b':') ⊎ (b ≡ b'-') → Lacks b (format_nat n)
unfolding format_nat
format_nat-Lacks b n hb = digits-Lacks b (suc n) n [] hb tt

-- the decimal print holds no colon
pub format_int-Lacks : (n : ℤ) → Lacks b':' (format_int n)
unfolding format_int
format_int-Lacks (pos n) = format_nat-Lacks b':' n (inl refl)
format_int-Lacks (negsuc n) = (omega arith, format_nat-Lacks b':' (n + 1) (inl refl))

minus_clash : (s t : Text) → Lacks b'-' s → s ≡ b'-' ∷ t → ⊥
minus_clash [] t h e = cc
minus_clash (c ∷ s) t (h, _) e = h (cc)

pub format_int_injective : (a b : ℤ) → format_int a ≡ format_int b → a ≡ b
unfolding format_int
format_int_injective (pos a) (pos b) h = ap pos (format_nat_injective a b h)
format_int_injective (pos a) (negsuc b) h =
    absurd (minus_clash _ _ (format_nat-Lacks b'-' a (inr refl)) h)
format_int_injective (negsuc a) (pos b) h =
    absurd (minus_clash _ _ (format_nat-Lacks b'-' b (inr refl)) (sym h))
format_int_injective (negsuc a) (negsuc b) h =
    let e = format_nat_injective (a + 1) (b + 1) (cc) in
    let same : a ≡ b = omega arith in ap negsuc same
