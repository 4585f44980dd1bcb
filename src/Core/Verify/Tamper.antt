-- ===== src/Core/Verify/Tamper.antt =====
-- Tamper evidence: a chain cannot be altered under a known head.
use mathlib.Core.List.{reverse_aux, reverse-reverse}
use stonewrit.Prelude.{◌≡◌, refl, sym, ap, ◌∙◌, ◌⊎◌, inl, inr, true, List, [], ◌∷◌, map, reverse}
use stonewrit.Json.{JsonLib}
use stonewrit.Core.Verify.{Record, verify_chain}
use stonewrit.Core.Verify.Linked.{sealed, tip, IsLinked, inputs, Collision, same_tip}
use stonewrit.Core.Verify.Walk.{Extend, end_tip, verify_chain_iff}

map-reverse_aux :
    (rs done : List Record)
    → map sealed (reverse_aux rs done) ≡ reverse_aux (map sealed rs) (map sealed done)
map-reverse_aux [] done = refl
map-reverse_aux (r ∷ rs) done = map-reverse_aux rs (r ∷ done)

map-sealed_injective :
    (rs ss : List Record)
    → map sealed (reverse rs) ≡ map sealed (reverse ss)
    → map sealed rs ≡ map sealed ss
map-sealed_injective rs ss h =
    sym (reverse-reverse (map sealed rs))
    ∙ ap reverse (sym (map-reverse_aux rs []) ∙ h ∙ map-reverse_aux ss [])
    ∙ reverse-reverse (map sealed ss)

module _ (lib : JsonLib) where
  tip-reverse_aux : (rs done : List Record) → tip (reverse_aux rs done) ≡ end_tip lib (tip done) rs
  tip-reverse_aux [] done = refl
  tip-reverse_aux (r ∷ rs) done = tip-reverse_aux rs (r ∷ done)

  IsLinked-reverse_aux :
      (rs done : List Record)
      → IsLinked done
      → Extend lib (tip done) rs
      → IsLinked (reverse_aux rs done)
  IsLinked-reverse_aux [] done h _ = h
  IsLinked-reverse_aux (r ∷ rs) done h ((_, e, _), hs) =
      IsLinked-reverse_aux rs (r ∷ done) (sym e, h) hs

  -- Two record lists that both verify and end in the same event hash hold the same payload hashes,
  -- event hashes and positions, in the same order and number; or else one text digested for the
  -- first list and a different one digested for the second have the same SHA-256 digest.
  pub tamper_evident :
      (rs ss : List Record)
      → (verify_chain lib rs).valid ≡ true
      → (verify_chain lib ss).valid ≡ true
      → end_tip lib [] rs ≡ end_tip lib [] ss
      → (map sealed rs ≡ map sealed ss) ⊎ Collision (inputs (reverse rs)) (inputs (reverse ss))
  tamper_evident rs ss hr hs e =
      elim (same_tip (reverse rs) (reverse ss)
        (IsLinked-reverse_aux rs [] tt ((verify_chain_iff lib rs).0 hr))
        (IsLinked-reverse_aux ss [] tt ((verify_chain_iff lib ss).0 hs))
        (tip-reverse_aux rs [] ∙ e ∙ sym (tip-reverse_aux ss []))) [
          | inl same ↦ inl (map-sealed_injective rs ss same)
          | inr c ↦ inr c
        ]
