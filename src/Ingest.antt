-- ===== src/Ingest.antt =====
-- server/internal/ingest/accept.go: the accept path, from an authenticated event to a pending row.
-- A run takes a `World`: the clock, the new uuid, the random source, the control packs, uuid.Parse,
-- and which queries fail.
pub mod Scope
pub mod Resolve
pub mod Batch
pub mod Replay
pub mod Counts
pub mod Stored
pub mod Lost
pub mod Verifies
pub mod Metadata
use stonewrit.Prelude.{
  ℕ, ◌*◌, ◌+◌, ◌^◌, List, [], ◌∷◌, ◌++◌, Bool, true, false, not, ◌&&◌, Option, none, some, Text,
  codes, str_eq, if◌then◌else◌,
}
use stonewrit.Prelude.Errors.{Error, no_rows, other, Result, ok, err, wrap, wrapping, ◌>>=◌}
use stonewrit.Json.{Json, JsonLib, Fields, end, field, str, obj, omit_str, omit_nil}
use stonewrit.Spec.{Time, EventInput, Policy, RequestCtx, AcceptedResponse}
use stonewrit.Spec.Encode.{
  source_json, actor_json, action_json, resource_json, policy_json, request_json, stored_metadata,
  reread,
}
use stonewrit.Core.Hash.{payload_hash}
use stonewrit.Core.HashTime.{truncate_ms}
use stonewrit.Core.Payload.{ContentInput, build_content_payload}
use stonewrit.Classify.{Event, Classification, classify}
use stonewrit.Classify.Packs.{Pack}
use stonewrit.Classify.MapControls.{Mapping, MapInput, compute}
use stonewrit.Db.{PendingEvent, EventDataEnvelope, ScopeCheckResult, Agent, IdempotencyRow}
use stonewrit.Auth.{Context}
use stonewrit.Shard.{index_for}
use stonewrit.Ingest.Scope.{compute_scope_check}
use stonewrit.Ingest.Resolve.{ControlRef, resolve_against_catalog}

pub data Query : Type 0 where
  resolve_controls get_agent_row claim_key read_response insert_pending : Query

pub record World : Type 0 where
  pub now : Time
  pub event_id : Text
  pub rand : ℕ → ℕ
  pub shard_count : ℕ
  pub packs : List Pack
  pub parse_uuid : Text → Option Text
  -- what json.Marshal prints for `occurred_at`, in the zone that the client sent
  pub stamp : Time → Text
  pub fails : Query → Option Error

-- the tables that the accept path reads and writes
pub record State : Type 0 where
  pub pending : List PendingEvent
  pub idempotency : List (IdempotencyRow AcceptedResponse)
  pub agents : List Agent
  pub controls : List ControlRef

pub record AcceptInput : Type 0 where
  pub auth : Context
  pub event : EventInput
  pub idempotency_key : Text

-- the body is the response that its bytes encode; a cached result has nothing below `cached`
pub record AcceptResult : Type 0 where
  pub status : ℕ
  pub body : AcceptedResponse
  pub cached : Bool
  pub id : Text
  pub payload_hash : Text
  pub accepted_at : Time
  pub shard_index : ℕ

-- parsePgUUID
unfoldable pub parse_pg_uuid : (Text → Option Text) → Text → Result Text
parse_pg_uuid parse [] = err (other (codes "empty uuid"))
parse_pg_uuid parse (c ∷ s) = elim (parse (c ∷ s)) [
  | none ↦ err (other (codes "uuid"))
  | some u ↦ ok u
]

-- nullableText
unfoldable pub nullable_text : Text → Option Text
nullable_text [] = none
nullable_text (c ∷ s) = some (c ∷ s)

map_json {ℓ} : {A : Type ℓ} → (A → Json) → Option A → Option Json
map_json f none = none
map_json f (some a) = some (f a)

-- json.Marshal of the event, by the tags of its struct
unfoldable pub event_json : (Time → Text) → EventInput → Json
unfolding omit_str omit_nil map_json
event_json stamp e = obj (
    field (codes "event_type") (str e.event_type) (
      field (codes "occurred_at") (str (stamp e.occurred_at)) (
        omit_str (codes "external_event_id") e.external_event_id (
          field (codes "source") (source_json e.source) (
            field (codes "actor") (actor_json e.actor) (
              field (codes "action") (action_json e.action) (
                field (codes "resource") (resource_json e.resource) (
                  omit_nil (codes "policy") (map_json policy_json e.policy) (
                    omit_nil (codes "request") (map_json request_json e.request) (
                      omit_nil (codes "metadata") (map_json obj (stored_metadata e.metadata))
                        end))))))))))

-- the actor's id where there is no external event id
unfoldable pub shard_key : EventInput → Text
shard_key e = if str_eq e.external_event_id [] then e.actor.id else e.external_event_id

customer_controls : Option Policy → List Text
customer_controls none = []
customer_controls (some p) = p.control_ids

-- a scope check that fails is left out
noted : Result (Option ScopeCheckResult) → Option ScopeCheckResult
noted (ok r) = r
noted (err e) = none

-- classify.Compute, whose panic ends the request without a write
unfoldable pub proposed_mappings : Option (List Mapping) → Result (List Mapping)
proposed_mappings none = err (other (codes "panic: slice bounds out of range"))
proposed_mappings (some ms) = ok ms

unfoldable pub content_of : World → AcceptInput → ContentInput
content_of w i = record {
  organization_id = i.auth.organization_id;
  project_id = i.auth.project_id;
  environment_id = i.auth.environment_id;
  received_at = truncate_ms w.now;
  event = i.event;
}

classified : AcceptInput → Classification
classified i = classify (record {
  event_type = i.event.event_type;
  actor_type = i.event.actor.type;
  action_result = i.event.action.result;
  data_classes = i.event.resource.classification;
})

unfoldable pub proposed : World → AcceptInput → Option (List Mapping)
unfolding classified customer_controls
proposed w i = compute w.packs (record {
  event_type = i.event.event_type;
  data_classes = (classified i).data_classes;
  actor_type = i.event.actor.type;
  action_result = i.event.action.result;
  customer_control_ids = customer_controls i.event.policy;
})

-- the row that `InsertPendingEvent` would store; its time is the database's clock, `now`
unfoldable pub pending_row :
    World → State → AcceptInput → Text → Text → Text → Text → List Mapping → PendingEvent
unfolding nullable_text noted classified
pending_row w s i hash project environment api_key mappings = record {
  id = w.event_id;
  organization_id = i.auth.organization_id;
  project_id = project;
  environment_id = environment;
  shard_index = index_for w.rand (shard_key i.event) w.shard_count;
  external_event_id = nullable_text i.event.external_event_id;
  payload_hash = hash;
  event_data = some (record { received_at = truncate_ms w.now; input = reread i.event });
  classification = some (classified i);
  control_mappings = some mappings;
  api_key_id = api_key;
  idempotency_key = nullable_text i.idempotency_key;
  accepted_at = w.now;
  scope_check = noted (
      compute_scope_check (w.fails get_agent_row) s.agents i.auth.organization_id project
        i.event.actor i.event.action);
}

module _ (lib : JsonLib) where
  -- everything before the idempotency gate: the row to insert
  unfoldable pub prepare : World → State → AcceptInput → Result PendingEvent
  unfolding content_of proposed_mappings proposed parse_pg_uuid pending_row event_json
  prepare w s i = do
    hash ←
        wrapping (codes "payload hash") (payload_hash lib (build_content_payload (content_of w i)))
    mappings ← proposed_mappings (proposed w i)
    resolved ←
        wrapping (codes "resolve controls")
          (resolve_against_catalog (w.fails resolve_controls) s.controls mappings)
    _ ← wrapping (codes "marshal event data") (lib.marshal (event_json w.stamp i.event))
    project ← wrapping (codes "parse project uuid") (parse_pg_uuid w.parse_uuid i.auth.project_id)
    environment ←
        wrapping (codes "parse env uuid") (parse_pg_uuid w.parse_uuid i.auth.environment_id)
    api_key ← wrapping (codes "parse api key uuid") (parse_pg_uuid w.parse_uuid i.auth.api_key_id)
    ok (pending_row w s i hash project environment api_key resolved)

  -- core.PayloadHash of the event itself
  unfoldable pub request_hash : World → AcceptInput → Result Text
  unfolding event_json
  request_hash w i = wrapping (codes "request hash") (payload_hash lib (event_json w.stamp i.event))

-- the body of the 202 response
unfoldable pub response_of : AcceptInput → World → PendingEvent → AcceptedResponse
response_of i w p = record {
  id = p.id;
  status = codes "pending";
  payload_hash = p.payload_hash;
  accepted_at = truncate_ms w.now;
  environment_id = i.auth.environment_id;
  shard_index = p.shard_index;
}

-- GetIdempotentResponse: the row of an organisation and a key
unfoldable pub find_key :
    Text → Text → List (IdempotencyRow AcceptedResponse) → Option (IdempotencyRow AcceptedResponse)
find_key org key [] = none
find_key org key (r ∷ rows) =
    let rest = find_key org key rows in
    if str_eq r.organization_id org && str_eq r.key key then some r else rest

-- the row that ClaimIdempotencyKey inserts; a key lives 24 hours
unfoldable pub claim_row :
    World → AcceptInput → Text → PendingEvent → IdempotencyRow AcceptedResponse
unfolding response_of
claim_row w i hash p = record {
  organization_id = i.auth.organization_id;
  key = i.idempotency_key;
  request_hash = hash;
  response_body = response_of i w p;
  status_code = some 202;
  expires_at = w.now + 24 * 3600 * 10 ^ 9;
}

unfoldable pub status_of : Option ℕ → ℕ
status_of none = 202
status_of (some n) = n

unfoldable pub fresh_result : World → AcceptInput → PendingEvent → AcceptResult
unfolding response_of
fresh_result w i p = record {
  status = 202;
  body = response_of i w p;
  cached = false;
  id = p.id;
  payload_hash = p.payload_hash;
  accepted_at = truncate_ms w.now;
  shard_index = p.shard_index;
}

unfoldable pub cached_result : IdempotencyRow AcceptedResponse → AcceptResult
unfolding status_of
cached_result r = record {
  status = status_of r.status_code;
  body = r.response_body;
  cached = true;
  id = [];
  payload_hash = [];
  accepted_at = 0;
  shard_index = 0;
}

-- InsertPendingEvent, the last step
unfoldable pub insert : World → AcceptInput → PendingEvent → State → Result AcceptResult × State
unfolding fresh_result
insert w i p s = elim (w.fails insert_pending) [
  | some e ↦ (err (wrap (codes "insert pending") e), s)
  | none ↦ (ok (fresh_result w i p), record s { pending = s.pending ++ p ∷ [] })
]

-- the idempotency gate, in front of the insert. The claim is a statement of its own.
unfoldable pub gate :
    World → AcceptInput → Text → PendingEvent → State → Result AcceptResult × State
unfolding find_key claim_row cached_result insert
gate w i hash p s = elim (w.fails claim_key) [
  | some e ↦ (err (wrap (codes "idempotency claim") e), s)
  | none ↦ elim (find_key i.auth.organization_id i.idempotency_key s.idempotency) [
    | none ↦ insert w i p (record s { idempotency = s.idempotency ++ claim_row w i hash p ∷ [] })
    | some r ↦ elim (w.fails read_response) [
      | some e ↦ (err (wrap (codes "idempotency replay lookup") e), s)
      | none ↦ (ok (cached_result r), s)
    ]
  ]
]

module _ (lib : JsonLib) where
  -- after `prepare`: with a key through the gate, without one straight to the insert
  unfoldable pub admit : World → AcceptInput → PendingEvent → State → Result AcceptResult × State
  unfolding gate insert request_hash
  admit w i p s =
      if str_eq i.idempotency_key []
      then insert w i p s
      else elim (request_hash lib w i) [ err e ↦ (err e, s) | ok h ↦ gate w i h p s ]

  unfoldable pub accept : World → AcceptInput → State → Result AcceptResult × State
  unfolding prepare admit
  accept w i s = elim (prepare lib w s i) [ err e ↦ (err e, s) | ok p ↦ admit w i p s ]
