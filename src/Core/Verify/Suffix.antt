-- ===== src/Core/Verify/Suffix.antt =====
-- A chain whose oldest records are missing.
use stonewrit.Prelude.{◌≡◌, refl, sym, ◌∙◌, inl, inr, true, List, [], ◌∷◌, ◌++◌, Text}
use stonewrit.Json.{JsonLib}
use stonewrit.Core.Hash.{event_input}
use stonewrit.Core.Hash.Injective.{
  IsHash, IsHash-ne-nil, event_hash-IsHash, same_digest, event_input_injective,
}
use stonewrit.Core.Verify.{Record, verify_chain}
use stonewrit.Core.Verify.Linked.{Collision}
use stonewrit.Core.Verify.Walk.{Extend, end_tip, verify_chain_iff}

module _ (lib : JsonLib) where
  pub Extend-of_append_left :
      (prev : Text) (rs ss : List Record) → Extend lib prev (rs ++ ss) → Extend lib prev rs
  Extend-of_append_left prev [] ss h = tt
  Extend-of_append_left prev (r ∷ rs) ss (e, h) = (e, Extend-of_append_left r.event_hash rs ss h)

  pub Extend-of_append_right :
      (prev : Text) (rs ss : List Record)
      → Extend lib prev (rs ++ ss)
      → Extend lib (end_tip lib prev rs) ss
  Extend-of_append_right prev [] ss h = h
  Extend-of_append_right prev (r ∷ rs) ss (e, h) = Extend-of_append_right r.event_hash rs ss h

  pub Extend-append :
      (prev : Text) (rs ss : List Record)
      → Extend lib prev rs
      → Extend lib (end_tip lib prev rs) ss
      → Extend lib prev (rs ++ ss)
  Extend-append prev [] ss _ h = h
  Extend-append prev (r ∷ rs) ss (e, h) h' = (e, Extend-append r.event_hash rs ss h h')

  pub end_tip-append :
      (prev : Text) (rs ss : List Record)
      → end_tip lib prev (rs ++ ss) ≡ end_tip lib (end_tip lib prev rs) ss
  end_tip-append prev [] ss = refl
  end_tip-append prev (r ∷ rs) ss = end_tip-append r.event_hash rs ss

  pub end_tip-IsHash :
      (prev : Text) (r : Record) (rs : List Record)
      → Extend lib prev (r ∷ rs)
      → IsHash (end_tip lib prev (r ∷ rs))
  end_tip-IsHash prev r [] ((_, e, _), _) = rw (← e) (event_hash-IsHash _ _ _)
  end_tip-IsHash prev r (s ∷ rs) (_, h) = end_tip-IsHash r.event_hash s rs h

  -- If a chain verifies, and still verifies when one or more of its oldest records are left out, then
  -- the first record that is left has an event hash that two different texts digest to.
  pub suffix_collides :
      (g : Record) (gs : List Record) (r : Record) (rest : List Record)
      → (verify_chain lib ((g ∷ gs) ++ r ∷ rest)).valid ≡ true
      → (verify_chain lib (r ∷ rest)).valid ≡ true
      → Collision
          (event_input (end_tip lib [] (g ∷ gs)) r.payload_hash r.chain_position ∷ [])
          (event_input [] r.payload_hash r.chain_position ∷ [])
  suffix_collides g gs r rest whole part =
      let h = (verify_chain_iff lib _).0 whole in
      let first = Extend-of_append_left [] (g ∷ gs) (r ∷ rest) h in
      let hashed = end_tip-IsHash [] g gs first in
      let ((_, e, _), _) = Extend-of_append_right [] (g ∷ gs) (r ∷ rest) h in
      let ((_, e', _), _) = (verify_chain_iff lib _).0 part in
      record {
        x = event_input (end_tip lib [] (g ∷ gs)) r.payload_hash r.chain_position;
        y = event_input [] r.payload_hash r.chain_position;
        left = inl refl;
        right = inl refl;
        differ = λ p.
            IsHash-ne-nil _ hashed (event_input_injective _ _ _ _ _ _ (inr hashed) (inl refl) p).0;
        same_digest = same_digest _ _ _ _ _ _ (e ∙ sym e');
      }
