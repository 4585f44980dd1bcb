-- ===== src/Tests/Chains.antt =====
-- Runs of the hashes, the verifier and the bundle check.
use stonewrit.Prelude.{
  ◌≡◌, ◌↔◌, refl, ◌⊎◌, inl, inr, true, false, [], ◌∷◌, map, reverse, codes, str_leb, str_eq, Elem,
  some,
}
use stonewrit.Prelude.Int.{pos, int_leb}
use stonewrit.Prelude.Sort.{sort_by, distinct}
use stonewrit.Crypto.{sha256}
use stonewrit.Crypto.Encoding.{hex, format_nat, format_int}
use stonewrit.Core.HashTime.{hash_time}
use stonewrit.Core.Hash.{event_hash, event_input}
use stonewrit.Core.Hash.Injective.{event_input_injective}
use stonewrit.Core.Verify.{check_record, verify_chain}
use stonewrit.Core.Verify.Linked.{sealed, inputs, Collision}
use stonewrit.Core.Verify.Walk.{end_tip, Extend, verify_chain_iff, verify_chain-Verdict, Verdict}
use stonewrit.Core.Verify.Tamper.{tamper_evident}
use stonewrit.Bundle.{events_of, BundleEvent, report_chain, verify_bundle, to_record}
use stonewrit.Bundle.Verdict.{
  verify_bundle_iff, verify_bundle_sound, missing_chain_passes, without_events, chain_events,
  published_tip,
}
use stonewrit.Bundle.Window.{windowed_bundle_fails}
use stonewrit.Tests.Samples.{
  sample_lib, first_record, second_record, linked_record, first_event, second_event, whole_bundle,
  late_bundle, second_payload, first_hash,
}

-- the digest of "abc" of FIPS 180-4
sha_abc :
    hex (sha256 (codes "abc"))
    ≡ codes "ba7816bf8f01cfea414140de5dae2223b00361a396177a9cb410ff61f20015ad"
unfolding sha256 hex
sha_abc = refl

hash_time_epoch : hash_time 62135596800001999999 ≡ codes "1970-01-01T00:00:00.001Z"
unfolding hash_time format_nat
hash_time_epoch = refl

two_verify : (verify_chain sample_lib (first_record ∷ second_record ∷ [])).valid ≡ true
two_verify =
    (verify_chain_iff sample_lib (first_record ∷ second_record ∷ [])).1
      ((tt, refl, tt), ((tt, refl, tt), tt))

two_linked_verify : (verify_chain sample_lib (first_record ∷ linked_record ∷ [])).valid ≡ true
two_linked_verify =
    (verify_chain_iff sample_lib (first_record ∷ linked_record ∷ [])).1
      ((tt, refl, tt), ((refl, refl, tt), tt))

tamper_evident_example :
    (map sealed (first_record ∷ second_record ∷ [])
      ≡ map sealed (first_record ∷ linked_record ∷ []))
    ⊎ Collision
        (inputs (reverse (first_record ∷ second_record ∷ [])))
        (inputs (reverse (first_record ∷ linked_record ∷ [])))
tamper_evident_example =
    tamper_evident sample_lib (first_record ∷ second_record ∷ [])
      (first_record ∷ linked_record ∷ []) two_verify two_linked_verify refl

verify_chain-Verdict_example :
    Verdict sample_lib 0 []
      (first_record ∷ second_record ∷ [])
      (verify_chain sample_lib (first_record ∷ second_record ∷ []))
verify_chain-Verdict_example = verify_chain-Verdict sample_lib (first_record ∷ second_record ∷ [])

whole_bundle_passes : (verify_bundle sample_lib whole_bundle).valid ≡ true
unfolding verify_bundle verify_chain event_hash event_input sha256 hex format_int report_chain
    distinct sort_by str_leb str_eq int_leb check_record
whole_bundle_passes = refl

verify_bundle_sound_example :
    Extend sample_lib [] (map to_record (chain_events sample_lib whole_bundle (codes "c1")))
    × (published_tip sample_lib whole_bundle (codes "c1")
        ≡ some (
            end_tip sample_lib []
              (map to_record (chain_events sample_lib whole_bundle (codes "c1")))))
verify_bundle_sound_example =
    verify_bundle_sound sample_lib whole_bundle first_event whole_bundle_passes (inr (inl refl))

missing_chain_passes_example :
    (verify_bundle sample_lib (without_events sample_lib (codes "c1") whole_bundle)).valid ≡ true
missing_chain_passes_example =
    missing_chain_passes sample_lib whole_bundle (codes "c1") whole_bundle_passes

verify_bundle_iff_example : ((verify_bundle sample_lib whole_bundle).valid ≡ true) ↔ (
    (e : BundleEvent)
    → Elem e whole_bundle.events
    → (report_chain sample_lib whole_bundle e.chain_id).valid ≡ true)
verify_bundle_iff_example = verify_bundle_iff sample_lib whole_bundle

late_events : chain_events sample_lib late_bundle (codes "c1") ≡ second_event ∷ []
unfolding sort_by str_eq events_of
late_events = refl

windowed_bundle_fails_example :
    ((verify_bundle sample_lib late_bundle).valid ≡ false)
    ⊎ Collision
        (event_input first_hash second_payload (pos 2) ∷ [])
        (event_input [] second_payload (pos 2) ∷ [])
windowed_bundle_fails_example =
    windowed_bundle_fails sample_lib late_bundle first_event second_event [] [] two_verify
      late_events (inl refl)

event_input_injective_example :
    (codes "" ≡ codes "") × (codes "a:1" ≡ codes "a:1") × (pos 3 ≡ pos 3)
event_input_injective_example =
    event_input_injective [] (codes "a:1") [] (codes "a:1") (pos 3) (pos 3) (inl refl) (inl refl)
      refl
