-- ===== src/VerifyService.antt =====
-- server/internal/verify/verify.go: `VerifyEvent`, which recomputes the hashes of a stored event. The
-- `stored` map of its answer, which repeats columns of the row, is left out.
pub mod Sound
use stonewrit.Prelude.{
  ℕ, List, [], ◌∷◌, Bool, true, false, ◌&&◌, Option, none, some, Text, codes, str_eq, if◌then◌else◌,
}
use stonewrit.Prelude.Errors.{Error, not_found, other, Result, ok, err, ◌>>=◌}
use stonewrit.Json.{JsonLib}
use stonewrit.Spec.{EventInput}
use stonewrit.Core.Hash.{payload_hash}
use stonewrit.Core.Payload.{ContentInput, build_content_payload}
use stonewrit.Core.Verify.{Record, EventResult, verify_event}
use stonewrit.Db.{PendingEvent, EventDataEnvelope, EventRow}

pub data Stage : Type 0 where
  pending sealed : Stage

pub record Checks : Type 0 where
  pub payload_hash_matches : Bool
  pub event_hash_matches : Bool
  pub links_to_previous : Bool

-- `Result`; a hash that the map `computed` lacks is `none`
pub record Answer : Type 0 where
  pub valid : Bool
  pub stage : Stage
  pub checks : Checks
  pub computed_event_hash : Option Text
  pub computed_payload_hash : Option Text

-- the content of a sealed row, if its raw payload decodes
unfoldable pub content_of : EventRow → Option EventInput → Option ContentInput
content_of ev none = none
content_of ev (some input) = some (record {
  organization_id = ev.organization_id;
  project_id = ev.project_id;
  environment_id = ev.environment_id;
  received_at = ev.received_at;
  event = input;
})

unfoldable pub record_of : EventRow → Record
unfolding content_of
record_of ev = record {
  previous_event_hash = ev.previous_event_hash;
  payload_hash = ev.payload_hash;
  event_hash = ev.event_hash;
  chain_position = ev.chain_position;
  content = content_of ev ev.raw_payload;
}

unfoldable pub pending_content : PendingEvent → EventDataEnvelope → ContentInput
pending_content p env = record {
  organization_id = p.organization_id;
  project_id = p.project_id;
  environment_id = p.environment_id;
  received_at = env.received_at;
  event = env.input;
}

unfoldable pub find_event : Text → Text → List EventRow → Option EventRow
find_event org id [] = none
find_event org id (e ∷ es) =
    let rest = find_event org id es in
    if str_eq e.id id && str_eq e.organization_id org then some e else rest

unfoldable pub find_pending : Text → Text → List PendingEvent → Option PendingEvent
find_pending org id [] = none
find_pending org id (p ∷ ps) =
    let rest = find_pending org id ps in
    if str_eq p.id id && str_eq p.organization_id org then some p else rest

module _ (lib : JsonLib) where
  -- verifySealed
  unfoldable pub verify_sealed : EventRow → Answer
  unfolding record_of verify_event
  verify_sealed ev =
      let vr = verify_event lib (record_of ev) in
      record {
        valid = vr.valid;
        stage = sealed;
        checks = record {
          payload_hash_matches = vr.checks.payload_hash_matches;
          event_hash_matches = vr.checks.event_hash_matches;
          links_to_previous = vr.checks.links_to_previous;
        };
        computed_event_hash = some vr.computed.event_hash;
        computed_payload_hash = vr.computed.payload_hash;
      }

  unfoldable pub pending_answer : PendingEvent → Text → Answer
  pending_answer p recomputed = record {
    valid = str_eq recomputed p.payload_hash;
    stage = pending;
    checks = record {
      payload_hash_matches = str_eq recomputed p.payload_hash;
      event_hash_matches = false;
      links_to_previous = false;
    };
    computed_event_hash = none;
    computed_payload_hash = some recomputed;
  }

  -- verifyPending
  unfoldable pub verify_pending : PendingEvent → Result Answer
  unfolding pending_content pending_answer
  verify_pending p = elim p.event_data [
    | none ↦ err (other (codes "unmarshal"))
    | some env ↦ elim (payload_hash lib (build_content_payload (pending_content p env))) [
      | err e ↦ err e
      | ok recomputed ↦ ok (pending_answer p recomputed)
    ]
  ]

  -- the pending row, when the event is not sealed; every error of its query is ErrNotFound
  unfoldable pub from_pending : Option Error → Option PendingEvent → Result Answer
  unfolding verify_pending
  from_pending (some e) found = err not_found
  from_pending none none = err not_found
  from_pending none (some p) = verify_pending p

  -- VerifyEvent; `parse` is uuid.Parse, and the two `fails` are errors of its queries
  unfoldable pub verify_by_id :
      (Text → Option Text)
      → Option Error
      → Option Error
      → List EventRow
      → List PendingEvent
      → Text
      → Text
      → Result Answer
  unfolding find_event find_pending verify_sealed from_pending
  verify_by_id parse fails fails' events waiting org [] = err not_found
  verify_by_id parse fails fails' events waiting org (c ∷ s) = elim (parse (c ∷ s)) [
    | none ↦ err not_found
    | some id ↦ elim fails [
      | some e ↦ err e
      | none ↦ elim (find_event org id events) [
        | some ev ↦ ok (verify_sealed ev)
        | none ↦ from_pending fails' (find_pending org id waiting)
      ]
    ]
  ]
