-- ===== src/Read/Views.antt =====
-- The bodies of the read routes in server/internal/routes: a JSON object as the record of its members.
-- The times at which a chain's row was created and updated are left out.
use stonewrit.Prelude.{ℕ, List, Option, Text}
use stonewrit.Prelude.Int.{ℤ}
use stonewrit.Spec.{Time, EventInput}
use stonewrit.Db.{Chain, PendingEvent, EventDataEnvelope, EventRow, MappingRow, ScopeCheckResult}

-- sealedEventJSON
pub record SealedView : Type 0 where
  pub id : Text
  pub organization_id : Text
  pub project_id : Text
  pub environment_id : Text
  pub event_type : Text
  pub occurred_at : Time
  pub received_at : Time
  pub actor_type : Text
  pub action_name : Text
  pub action_result : Text
  pub resource_type : Text
  pub data_classes : List Text
  pub chain_id : Text
  pub chain_position : ℤ
  pub payload_hash : Text
  pub previous_event_hash : Option Text
  pub event_hash : Text
  pub hash_algorithm : Text
  pub canonicalization_version : Text
  pub sealing_status : Text
  pub classification_status : Text
  pub raw_payload : Option EventInput
  pub scope_check : Option ScopeCheckResult

unfoldable pub sealed_view : EventRow → SealedView
sealed_view ev = record {
  id = ev.id;
  organization_id = ev.organization_id;
  project_id = ev.project_id;
  environment_id = ev.environment_id;
  event_type = ev.event_type;
  occurred_at = ev.occurred_at;
  received_at = ev.received_at;
  actor_type = ev.actor_type;
  action_name = ev.action_name;
  action_result = ev.action_result;
  resource_type = ev.resource_type;
  data_classes = ev.data_classes;
  chain_id = ev.chain_id;
  chain_position = ev.chain_position;
  payload_hash = ev.payload_hash;
  previous_event_hash = ev.previous_event_hash;
  event_hash = ev.event_hash;
  hash_algorithm = ev.hash_algorithm;
  canonicalization_version = ev.canonicalization_version;
  sealing_status = ev.sealing_status;
  classification_status = ev.classification_status;
  raw_payload = ev.raw_payload;
  scope_check = ev.scope_check_result;
}

-- pendingEventJSON
pub record PendingView : Type 0 where
  pub id : Text
  pub environment_id : Text
  pub shard_index : ℕ
  pub payload_hash : Text
  pub accepted_at : Time
  pub event_data : Option EventDataEnvelope

unfoldable pub pending_view : PendingEvent → PendingView
pending_view p = record {
  id = p.id;
  environment_id = p.environment_id;
  shard_index = p.shard_index;
  payload_hash = p.payload_hash;
  accepted_at = p.accepted_at;
  event_data = p.event_data;
}

pub data EventView : Type 0 where
  sealed_event : SealedView → EventView
  pending_event : PendingView → EventView

-- neighborJSON
pub record NeighborView : Type 0 where
  pub id : Text
  pub chain_position : ℤ
  pub event_hash : Text
  pub previous_event_hash : Option Text
  pub payload_hash : Text
  pub event_type : Text
  pub received_at : Time

unfoldable pub neighbor_view : EventRow → NeighborView
neighbor_view e = record {
  id = e.id;
  chain_position = e.chain_position;
  event_hash = e.event_hash;
  previous_event_hash = e.previous_event_hash;
  payload_hash = e.payload_hash;
  event_type = e.event_type;
  received_at = e.received_at;
}

pub record NeighborsView : Type 0 where
  pub chain_id : Text
  pub chain_position : ℤ
  pub previous : Option NeighborView
  pub next : Option NeighborView

-- chainJSON and chainGetJSON: without the shard
pub record ChainView : Type 0 where
  pub id : Text
  pub organization_id : Text
  pub project_id : Text
  pub environment_id : Text
  pub name : Text
  pub status : Text
  pub latest_position : ℤ
  pub latest_event_hash : Option Text

unfoldable pub chain_view : Chain → ChainView
chain_view c = record {
  id = c.id;
  organization_id = c.organization_id;
  project_id = c.project_id;
  environment_id = c.environment_id;
  name = c.name;
  status = c.status;
  latest_position = c.latest_position;
  latest_event_hash = c.latest_event_hash;
}

pub record MappingView : Type 0 where
  pub framework : Text
  pub control_id : Text
  pub mapping_reason : Option Text
  pub confidence : Text
  pub status : Text

unfoldable pub mapping_view : MappingRow → MappingView
mapping_view m = record {
  framework = m.framework;
  control_id = m.control_id;
  mapping_reason = m.mapping_reason;
  confidence = m.confidence;
  status = m.status;
}
