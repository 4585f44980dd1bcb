-- ===== src/Spec.antt =====
-- spec/event.go: the public event schema. An absent string is the empty text, a nil slice the empty
-- list, and a nil pointer or map is `none`. A time is a number of nanoseconds since the start of the
-- year 1 in UTC, Go's zero time.
pub mod Encode
use stonewrit.Prelude.{ℕ, List, Bool, Option, Text}
use stonewrit.Json.{Fields}

abbrev pub Time : Type 0
Time = ℕ

pub record Source : Type 0 where
  pub system : Text
  pub service : Text
  pub environment : Text
  pub region : Text
  pub version : Text

pub record Actor : Type 0 where
  pub type : Text
  pub id : Text
  pub display_name : Text
  pub email : Text
  pub role : Text
  pub human_supervisor_id : Text
  pub ip : Text
  pub user_agent : Text
  pub id_hash : Text

pub record Action : Type 0 where
  pub name : Text
  pub category : Text
  pub result : Text
  pub reason : Text

pub record Resource : Type 0 where
  pub type : Text
  pub id : Text
  pub id_hash : Text
  pub tenant_id : Text
  pub tenant_id_hash : Text
  pub classification : List Text
  pub fields_accessed : List Text

pub record Policy : Type 0 where
  pub decision : Text
  pub policy_id : Text
  pub approval_required : Option Bool
  pub approval_id : Text
  pub control_ids : List Text

pub record RequestCtx : Type 0 where
  pub request_id : Text
  pub trace_id : Text
  pub session_id : Text
  pub session_id_hash : Text

pub record EventInput : Type 0 where
  pub event_type : Text
  pub occurred_at : Time
  pub external_event_id : Text
  pub source : Source
  pub actor : Actor
  pub action : Action
  pub resource : Resource
  pub policy : Option Policy
  pub request : Option RequestCtx
  pub metadata : Option Fields

pub record AcceptedResponse : Type 0 where
  pub id : Text
  pub status : Text
  pub payload_hash : Text
  pub accepted_at : Time
  pub environment_id : Text
  pub shard_index : ℕ

pub record BatchEventError : Type 0 where
  pub code : Text
  pub message : Text

pub record BatchEventResult : Type 0 where
  pub status : Text
  pub index : ℕ
  pub response : Option AcceptedResponse
  pub error : Option BatchEventError

pub record BatchAcceptedResponse : Type 0 where
  pub accepted : ℕ
  pub rejected : ℕ
  pub results : List BatchEventResult
