-- ===== src/Db.antt =====
-- The tables of server/migrations/0001_core_ingest.up.sql that the modelled code reads or writes, and
-- the queries on them, from the SQL text in server/internal/queries/gen. A table is the list of its
-- rows in the order of their insertion. A uuid is its canonical text. A jsonb column of the code's own
-- making is the value that json.Unmarshal reads from it, `none` if it reads none.
pub mod Queries
use stonewrit.Prelude.{ℕ, List, Bool, Option, Text}
use stonewrit.Prelude.Int.{ℤ}
use stonewrit.Json.{Fields}
use stonewrit.Spec.{Time, EventInput}
use stonewrit.Classify.{Classification, RiskLevel}
use stonewrit.Classify.MapControls.{Mapping}

pub record Environment : Type 0 where
  pub id : Text
  pub organization_id : Text
  pub project_id : Text

pub record Chain : Type 0 where
  pub id : Text
  pub organization_id : Text
  pub project_id : Text
  pub environment_id : Text
  pub shard_index : ℕ
  pub name : Text
  pub status : Text
  pub latest_position : ℤ
  pub latest_event_hash : Option Text

-- the JSON envelope that accept stores in `event_data`
pub record EventDataEnvelope : Type 0 where
  pub received_at : Time
  pub input : EventInput

pub record ScopeCheckResult : Type 0 where
  pub agent_id : Text
  pub agent_external_id : Text
  pub agent_name : Text
  pub agent_status : Text
  pub authorized_scopes : List Text
  pub required_scope : Text
  pub in_scope : Bool
  pub out_of_scope : List Text
  pub reason : Text

pub record PendingEvent : Type 0 where
  pub id : Text
  pub organization_id : Text
  pub project_id : Text
  pub environment_id : Text
  pub shard_index : ℕ
  pub external_event_id : Option Text
  pub payload_hash : Text
  pub event_data : Option EventDataEnvelope
  pub classification : Option Classification
  pub control_mappings : Option (List Mapping)
  pub api_key_id : Text
  pub idempotency_key : Option Text
  pub accepted_at : Time
  pub scope_check : Option ScopeCheckResult

-- a row of `events`, in the order of `eventColumns`
pub record EventRow : Type 0 where
  pub id : Text
  pub organization_id : Text
  pub project_id : Text
  pub environment_id : Text
  pub external_event_id : Option Text
  pub event_type : Text
  pub occurred_at : Time
  pub received_at : Time
  pub source_system : Text
  pub source_service : Text
  pub source_environment : Option Text
  pub source_region : Option Text
  pub source_version : Option Text
  pub actor_type : Text
  pub actor_id : Option Text
  pub actor_id_hash : Option Text
  pub actor_email : Option Text
  pub actor_role : Option Text
  pub human_supervisor_id : Option Text
  pub action_name : Text
  pub action_category : Text
  pub action_result : Text
  pub action_reason : Option Text
  pub resource_type : Text
  pub resource_id : Option Text
  pub resource_id_hash : Option Text
  pub tenant_id : Option Text
  pub tenant_id_hash : Option Text
  pub data_classes : List Text
  pub policy_decision : Option Text
  pub policy_id : Option Text
  pub approval_required : Bool
  pub approval_id : Option Text
  pub request_id : Option Text
  pub trace_id : Option Text
  pub session_id_hash : Option Text
  pub raw_payload : Option EventInput
  pub metadata : Option Fields
  pub chain_id : Text
  pub chain_position : ℤ
  pub payload_hash : Text
  pub previous_event_hash : Option Text
  pub event_hash : Text
  pub hash_algorithm : Text
  pub canonicalization_version : Text
  pub classification_status : Text
  pub sealing_status : Text
  pub scope_check_result : Option ScopeCheckResult

pub record ClassificationRow : Type 0 where
  pub organization_id : Text
  pub event_id : Text
  pub data_classes : List Text
  pub risk_level : Option Text
  pub confidence : Text
  pub method : Text

pub record MappingRow : Type 0 where
  pub organization_id : Text
  pub event_id : Text
  pub framework : Text
  pub control_id : Text
  pub mapping_reason : Option Text
  pub confidence : Text
  pub mapped_by : Text
  pub status : Text

pub record CheckpointRow : Type 0 where
  pub organization_id : Text
  pub project_id : Text
  pub environment_id : Text
  pub chain_id : Text
  pub from_position : ℤ
  pub to_position : ℤ
  pub root_hash : Text
  pub event_count : ℕ

pub record Agent : Type 0 where
  pub id : Text
  pub organization_id : Text
  pub project_id : Text
  pub external_id : Text
  pub name : Text
  pub status : Text
  pub authorized_scopes : List Text

-- a claimed idempotency key; the cached body is the response that it encodes
pub record IdempotencyRow (Body : Type 0) : Type 0 where
  pub organization_id : Text
  pub key : Text
  pub request_hash : Text
  pub response_body : Body
  pub status_code : Option ℕ
  pub expires_at : Time

pub record Db : Type 0 where
  pub environments : List Environment
  pub chains : List Chain
  pub pending : List PendingEvent
  pub events : List EventRow
  pub classifications : List ClassificationRow
  pub mappings : List MappingRow
  pub checkpoints : List CheckpointRow
