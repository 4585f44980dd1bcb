-- ===== src/Core/Verify/Linked.antt =====
-- The specification of a chain: each event hash commits to its predecessor's. Lists here have the
-- newest record first.
use stonewrit.Prelude.{
  ◌≡◌, ◌≢◌, refl, sym, ◌∙◌, ◌⊎◌, inl, inr, false, Bool-cases, List, [], ◌∷◌, map, Text, str_eq,
  str_eq_iff, Elem,
}
use stonewrit.Prelude.Int.{ℤ}
use stonewrit.Crypto.{sha256}
use stonewrit.Core.Hash.{event_input, event_hash}
use stonewrit.Core.Hash.Injective.{
  IsHash-ne-nil, IsTip, event_hash-IsHash, same_digest, event_input_injective,
}
use stonewrit.Core.Verify.{Record}

-- what a record says of its place in the chain
pub record Sealed : Type 0 where
  pub payload_hash : Text
  pub event_hash : Text
  pub chain_position : ℤ

abbrev pub sealed : Record → Sealed
sealed r = record {
  payload_hash = r.payload_hash;
  event_hash = r.event_hash;
  chain_position = r.chain_position;
}

-- the event hash of the newest record, empty for no record
abbrev pub tip : List Record → Text
tip [] = []
tip (r ∷ rs) = r.event_hash

abbrev pub IsLinked : List Record → Type 0
IsLinked [] = Unit
IsLinked (r ∷ rs) =
    (r.event_hash ≡ event_hash (tip rs) r.payload_hash r.chain_position) × IsLinked rs

-- the texts that the event hashes of the records digest
abbrev pub inputs : List Record → List Text
inputs [] = []
inputs (r ∷ rs) = event_input (tip rs) r.payload_hash r.chain_position ∷ inputs rs

-- two different texts, one from each list, with one SHA-256 digest
pub record Collision (xs ys : List Text) : Type 0 where
  pub x : Text
  pub y : Text
  pub left : Elem x xs
  pub right : Elem y ys
  pub differ : x ≢ y
  pub same_digest : sha256 x ≡ sha256 y

pub Collision-cons :
    {x y : Text} {xs ys : List Text} → Collision xs ys → Collision (x ∷ xs) (y ∷ ys)
Collision-cons c = record {
  x = c.x;
  y = c.y;
  left = inr c.left;
  right = inr c.right;
  differ = c.differ;
  same_digest = c.same_digest;
}

pub tip-IsTip : (rs : List Record) → IsLinked rs → IsTip (tip rs)
tip-IsTip [] h = inl refl
tip-IsTip (r ∷ rs) (e, h) = inr (rw e (event_hash-IsHash _ _ _))

no_empty_tip : (r : Record) (rs : List Record) → IsLinked (r ∷ rs) → r.event_hash ≢ []
no_empty_tip r rs (e, h) e' = IsHash-ne-nil _ (event_hash-IsHash _ _ _) (sym e ∙ e')

-- two linked chains of one tip have the same records, or their inputs collide
pub same_tip :
    (rs ss : List Record)
    → IsLinked rs
    → IsLinked ss
    → tip rs ≡ tip ss
    → (map sealed rs ≡ map sealed ss) ⊎ Collision (inputs rs) (inputs ss)
same_tip [] [] _ _ _ = inl refl
same_tip [] (s ∷ ss) _ hs e = absurd (no_empty_tip s ss hs (sym e))
same_tip (r ∷ rs) [] hr _ e = absurd (no_empty_tip r rs hr e)
same_tip (r ∷ rs) (s ∷ ss) (er, hr) (es, hs) e =
    let x = event_input (tip rs) r.payload_hash r.chain_position in
    let y = event_input (tip ss) s.payload_hash s.chain_position in
    elim (Bool-cases (str_eq x y)) [
      | inl same ↦
          let (tips, payloads, positions) =
            event_input_injective (tip rs) r.payload_hash (tip ss) s.payload_hash r.chain_position
              s.chain_position (tip-IsTip rs hr) (tip-IsTip ss hs) ((str_eq_iff x y).0 same) in
          elim (same_tip rs ss hr hs tips) [ inl older ↦ inl (cc) | inr c ↦ inr (Collision-cons c) ]
      | inr other ↦ inr (record {
        x = x;
        y = y;
        left = inl refl;
        right = inl refl;
        differ = λ p. differs x y other p;
        same_digest = same_digest _ _ _ _ _ _ (sym er ∙ e ∙ es);
      })
    ]
  where
    differs : (x y : Text) → str_eq x y ≡ false → x ≢ y
    differs x y other p = cc ((str_eq_iff x y).1 p)
