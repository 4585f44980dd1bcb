-- ===== src/Core/Verify.antt =====
-- core/verify.go: verification of one event and of a chain.
pub mod Linked
pub mod Suffix
pub mod Tamper
pub mod Walk
use stonewrit.Prelude.{
  ℕ, ◌+◌, List, [], ◌∷◌, Option, none, some, Bool, true, false, not, ◌&&◌, ◌||◌, Text, codes,
  str_eq, if◌then◌else◌, length,
}
use stonewrit.Prelude.Errors.{Result, ok, err}
use stonewrit.Prelude.Int.{ℤ, pos, int_eq}
use stonewrit.Json.{JsonLib}
use stonewrit.Core.Hash.{payload_hash, event_hash}
use stonewrit.Core.Payload.{ContentInput, build_content_payload}

pub record Record : Type 0 where
  pub previous_event_hash : Option Text
  pub payload_hash : Text
  pub event_hash : Text
  pub chain_position : ℤ
  pub content : Option ContentInput

pub record Checks : Type 0 where
  pub payload_hash_checked : Bool
  pub payload_hash_matches : Bool
  pub event_hash_matches : Bool
  pub links_to_previous : Bool

-- the map `computed`, which has the key payload_hash only when that was computed
pub record Computed : Type 0 where
  pub event_hash : Text
  pub payload_hash : Option Text

pub record EventResult : Type 0 where
  pub valid : Bool
  pub checks : Checks
  pub computed : Computed

pub record ChainBreak : Type 0 where
  pub position : ℤ
  pub reason : Text
  pub expected : Text
  pub stored : Text

pub record ChainResult : Type 0 where
  pub valid : Bool
  pub events_verified : ℕ
  pub count : ℕ
  pub broken : Option ChainBreak

-- `""` for nil
unfoldable pub text_or_empty : Option Text → Text
text_or_empty none = []
text_or_empty (some s) = s

-- the event hash links: nil exactly at position 1, and not empty elsewhere
unfoldable pub links : ℤ → Option Text → Bool
links position none = int_eq position (pos 1)
links position (some s) = not (int_eq position (pos 1)) && not (str_eq s [])

module _ (lib : JsonLib) where
  -- the payload hash recomputed from the content, or `none` on an error
  unfoldable pub recomputed_payload : Option ContentInput → Option Text
  recomputed_payload none = none
  recomputed_payload (some c) = elim (payload_hash lib (build_content_payload c)) [
    | ok h ↦ some h
    | err e ↦ none
  ]

  unfoldable pub matches : Option Text → Text → Bool
  matches none stored = false
  matches (some h) stored = str_eq h stored

  unfoldable pub is_some : Option ContentInput → Bool
  is_some none = false
  is_some (some c) = true

  unfoldable pub verify_event : Record → EventResult
  unfolding text_or_empty links recomputed_payload matches is_some
  verify_event rec =
      let recomputed =
        event_hash (text_or_empty rec.previous_event_hash) rec.payload_hash rec.chain_position in
      let payload = recomputed_payload rec.content in
      let checks : Checks = record {
        payload_hash_checked = is_some rec.content;
        payload_hash_matches = matches payload rec.payload_hash;
        event_hash_matches = str_eq recomputed rec.event_hash;
        links_to_previous = links rec.chain_position rec.previous_event_hash;
      } in
      record {
        valid =
            checks.event_hash_matches
            && checks.links_to_previous
            && (not checks.payload_hash_checked || checks.payload_hash_matches);
        checks = checks;
        computed = record { event_hash = recomputed; payload_hash = payload };
      }

  -- the first check of the loop: an explicit previous hash is the running tip
  tip_break : Text → Record → Option Text → Option ChainBreak
  tip_break prev rec none = none
  tip_break prev rec (some stored) =
      if str_eq stored prev
      then none
      else some (record {
        position = rec.chain_position;
        reason = codes "previous_event_hash does not match running tip";
        expected = prev;
        stored = stored;
      })

  hash_break : Text → Record → Option ChainBreak
  hash_break prev rec =
      let recomputed = event_hash prev rec.payload_hash rec.chain_position in
      if str_eq recomputed rec.event_hash
      then none
      else some (record {
        position = rec.chain_position;
        reason = codes "event_hash mismatch";
        expected = recomputed;
        stored = rec.event_hash;
      })

  content_mismatch : Record → Text → ChainBreak
  content_mismatch rec h = record {
    position = rec.chain_position;
    reason = codes "payload_hash mismatch";
    expected = h;
    stored = rec.payload_hash;
  }

  -- `h` is empty when the hash failed
  content_break : Record → Option ContentInput → Option ChainBreak
  unfolding content_mismatch
  content_break rec none = none
  content_break rec (some c) = elim (payload_hash lib (build_content_payload c)) [
    | ok h ↦ if str_eq h rec.payload_hash then none else some (content_mismatch rec h)
    | err e ↦ some (content_mismatch rec [])
  ]

  or_else : Option ChainBreak → Option ChainBreak → Option ChainBreak
  or_else none b = b
  or_else (some a) b = some a

  -- one round of the loop: the break at this record, if there is one
  unfoldable pub check_record : Text → Record → Option ChainBreak
  unfolding tip_break hash_break content_break or_else
  check_record prev rec =
      or_else (tip_break prev rec rec.previous_event_hash)
        (or_else (hash_break prev rec) (content_break rec rec.content))

  -- the loop, with the running tip and the number of events verified
  unfoldable pub walk : ℕ → Text → ℕ → List Record → ChainResult
  walk count prev verified [] = record {
    valid = true;
    events_verified = verified;
    count = count;
    broken = none;
  }
  walk count prev verified (rec ∷ records) =
      let rest = walk count rec.event_hash (verified + 1) records in
      elim (check_record prev rec) [
        | none ↦ rest
        | some b ↦ record {
          valid = false;
          events_verified = verified;
          count = count;
          broken = some b;
        }
      ]

  unfoldable pub verify_chain : List Record → ChainResult
  unfolding walk
  verify_chain records = walk (length records) [] 0 records
