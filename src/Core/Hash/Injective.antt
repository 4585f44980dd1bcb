-- ===== src/Core/Hash/Injective.antt =====
-- What an event hash commits to: equal hashes come from equal inputs, or from two texts with one
-- SHA-256 digest; and an input determines its three parts.
use stonewrit.Prelude.{
  ℕ, ◌≡◌, ◌≢◌, refl, ap, sym, ◌∙◌, ◌⊎◌, inl, inr, [], ◌∷◌, ◌++◌, Text, codes, str_eq, str_eq_refl,
  length, split_last, split_length, arith, if◌then◌else◌,
}
use stonewrit.Prelude.Int.{ℤ}
use stonewrit.Crypto.{sha256, length-sha256}
use stonewrit.Crypto.Encoding.{
  hex, hex_injective, length-hex, format_int, format_int-Lacks, format_int_injective,
}
use stonewrit.Core.Hash.{hash_prefix, event_input, event_hash}

-- the digest as the code prints it
abbrev pub printed : Text → Text
printed m = hash_prefix ++ hex (sha256 m)

-- a text that the hash functions return
abbrev pub IsHash : Text → Type 0
IsHash h = (m : Text) × (h ≡ printed m)

pub event_hash-IsHash : (p q : Text) (n : ℤ) → IsHash (event_hash p q n)
unfolding event_hash
event_hash-IsHash p q n = (event_input p q n, refl)

length-printed : (m : Text) → length (printed m) ≡ 71
length-printed m = omega (arith, length-hex (sha256 m), length-sha256 m)

pub IsHash-ne-nil : (h : Text) → IsHash h → h ≢ []
IsHash-ne-nil h (m, e) e' = cc

-- the predecessor of an event: nothing, or a hash
abbrev pub IsTip : Text → Type 0
IsTip p = (p ≡ []) ⊎ IsHash p

pub same_digest :
    (p q p' q' : Text) (n n' : ℤ)
    → event_hash p q n ≡ event_hash p' q' n'
    → sha256 (event_input p q n) ≡ sha256 (event_input p' q' n')
unfolding event_hash
same_digest p q p' q' n n' h = hex_injective _ _ (cc)

abbrev start_text : Text → Text
start_text p = if str_eq p [] then codes "genesis" else p

start_of_nil : (p : Text) → p ≡ [] → start_text p ≡ codes "genesis"
start_of_nil p e = rw (e, str_eq_refl [])

start_of_hash : (p m : Text) → p ≡ printed m → start_text p ≡ printed m
unfolding str_eq
start_of_hash p m e = rw e

heads : {a b : ℕ} {s t : Text} → a ∷ s ≡ b ∷ t → a ≡ b
heads h = cc

-- the text in front of the first colon that the code writes, and what follows it
split_start :
    (p p' u u' : Text)
    → IsTip p
    → IsTip p'
    → start_text p ++ b':' ∷ u ≡ start_text p' ++ b':' ∷ u'
    → (p ≡ p') × (u ≡ u')
split_start p p' u u' (inl e) (inl e') h =
    let (_, rest) = split_length (codes "genesis") (codes "genesis") (b':' ∷ u) (b':' ∷ u') refl (
      ap (λ t. t ++ b':' ∷ u) (sym (start_of_nil p e))
      ∙ h
      ∙ ap (λ t. t ++ b':' ∷ u') (start_of_nil p' e')) in
    (cc, cc)
split_start p p' u u' (inl e) (inr (m', e')) h =
    let clash : codes "genesis" ++ b':' ∷ u ≡ printed m' ++ b':' ∷ u' =
      ap (λ t. t ++ b':' ∷ u) (sym (start_of_nil p e))
      ∙ h
      ∙ ap (λ t. t ++ b':' ∷ u') (start_of_hash p' m' e') in
    absurd (omega (arith, heads clash))
split_start p p' u u' (inr (m, e)) (inl e') h =
    let clash : printed m ++ b':' ∷ u ≡ codes "genesis" ++ b':' ∷ u' =
      ap (λ t. t ++ b':' ∷ u) (sym (start_of_hash p m e))
      ∙ h
      ∙ ap (λ t. t ++ b':' ∷ u') (start_of_nil p' e') in
    absurd (omega (arith, heads clash))
split_start p p' u u' (inr (m, e)) (inr (m', e')) h =
    let (same, rest) =
      split_length (printed m) (printed m') (b':' ∷ u) (b':' ∷ u')
        (length-printed m ∙ sym (length-printed m'))
        (ap (λ t. t ++ b':' ∷ u) (sym (start_of_hash p m e))
          ∙ h
          ∙ ap (λ t. t ++ b':' ∷ u') (start_of_hash p' m' e')) in
    (e ∙ same ∙ sym e', cc)

-- Whatever the payload hashes hold, colons too, the input of an event hash determines the
-- predecessor, the payload hash and the position.
pub event_input_injective :
    (p q p' q' : Text) (n n' : ℤ)
    → IsTip p
    → IsTip p'
    → event_input p q n ≡ event_input p' q' n'
    → (p ≡ p') × (q ≡ q') × (n ≡ n')
unfolding event_input
event_input_injective p q p' q' n n' t t' h =
    let (same_p, rest) = split_start p p' _ _ t t' h in
    let (same_q, same_n) =
      split_last b':' q q' (format_int n) (format_int n') (format_int-Lacks n) (format_int-Lacks n')
        rest in
    (same_p, same_q, format_int_injective n n' same_n)
