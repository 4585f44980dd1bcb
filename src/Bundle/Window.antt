-- ===== src/Bundle/Window.antt =====
-- A bundle of a period that starts after a chain did: server/internal/workers/generate_export.go
-- selects events by a time window, and cmd/verify starts every chain from genesis.
use stonewrit.Prelude.{◌≡◌, ◌⊎◌, inl, inr, Bool-cases, true, false, List, [], ◌∷◌, ◌++◌, map, Elem}
use stonewrit.Json.{JsonLib}
use stonewrit.Core.Hash.{event_input}
use stonewrit.Core.Verify.{verify_chain}
use stonewrit.Core.Verify.Linked.{Collision}
use stonewrit.Core.Verify.Walk.{end_tip, verify_chain_iff}
use stonewrit.Core.Verify.Suffix.{suffix_collides}
use stonewrit.Bundle.{BundleEvent, Bundle, to_record, verify_bundle}
use stonewrit.Bundle.Verdict.{chain_events, verify_bundle_sound}

module _ (lib : JsonLib) where
  -- Let a chain of events `old`, then `e`, then `rest` verify, with at least one event in `old`. A
  -- bundle that holds of that chain exactly `e` and `rest` does not pass, unless the event hash of `e`
  -- is one that two different texts digest to.
  pub windowed_bundle_fails :
      (b : Bundle) (first e : BundleEvent) (old rest : List BundleEvent)
      → (verify_chain lib (map to_record (first ∷ old) ++ to_record e ∷ map to_record rest)).valid
        ≡ true
      → chain_events lib b e.chain_id ≡ e ∷ rest
      → Elem e b.events
      → ((verify_bundle lib b).valid ≡ false)
        ⊎ Collision
            (event_input
                (end_tip lib [] (map to_record (first ∷ old)))
                e.payload_hash
                e.chain_position
              ∷ [])
            (event_input [] e.payload_hash e.chain_position ∷ [])
  windowed_bundle_fails b first e old rest whole same m =
      elim (Bool-cases (verify_bundle lib b).valid) [
        | inr fails ↦ inl fails
        | inl passes ↦ inr (
            suffix_collides lib (to_record first) (map to_record old) (to_record e)
              (map to_record rest) whole
              ((verify_chain_iff lib _).1 (rw same at (verify_bundle_sound lib b e passes m).0)))
      ]
