-- ===== src/Export.antt =====
-- server/internal/workers/generate_export.go: the worker that builds evidence bundles, and its queries
-- in server/internal/queries/gen/exports.sql.go. A statement that fails aborts its transaction, as
-- PostgreSQL documents: later statements fail too, and the commit rolls back.
pub mod Encode
pub mod Worker
pub mod Passes
pub mod Drain
use stonewrit.Prelude.{
  ℕ, List, [], ◌∷◌, map, filter, length, Bool, true, false, ◌&&◌, ◌||◌, not, Option, none, some,
  Text, codes, str_eq, str_leb, ltb, leb, if◌then◌else◌,
}
use stonewrit.Prelude.Int.{ℤ, int_leb}
use stonewrit.Prelude.Sort.{sort_by}
use stonewrit.Spec.{Time}
use stonewrit.Db.{Chain, EventRow, Db}
use stonewrit.Bundle.{Bundle, BundleChain, BundleEvent}

-- a row of `evidence_exports`; a period is null or a time, and so is the time of completion
pub record ExportJob : Type 0 where
  pub id : Text
  pub organization_id : Text
  pub project_id : Text
  pub framework : Option Text
  pub period_from : Option Time
  pub period_to : Option Time
  pub status : Text
  pub created_at : Time
  pub error_message : Option Text
  pub bundle : Option Text
  pub bundle_size : Option ℤ
  pub bundle_hash : Option Text
  pub event_count : Option ℤ
  pub bundle_signed_at : Option Time
  pub completed_at : Option Time

pub record ExportScope : Type 0 where
  pub organization_id : Text
  pub project_id : Text
  pub framework : Option Text
  pub period_from : Time
  pub period_to : Time

pub record ExportChain : Type 0 where
  pub id : Text
  pub environment_id : Text
  pub name : Text
  pub status : Text
  pub latest_position : ℤ
  pub latest_event_hash : Option Text

pub record ExportEvent : Type 0 where
  pub id : Text
  pub event_type : Text
  pub occurred_at : Time
  pub received_at : Time
  pub actor_type : Text
  pub actor_id : Option Text
  pub action_name : Text
  pub action_result : Text
  pub resource_type : Text
  pub resource_id : Option Text
  pub chain_id : Text
  pub chain_position : ℤ
  pub payload_hash : Text
  pub event_hash : Text
  pub data_classes : List Text

-- the worker's `bundle`, whose totals are the lengths of its lists
pub record ExportBundle : Type 0 where
  pub schema_version : Text
  pub format : Text
  pub export_id : Text
  pub generated_at : Time
  pub scope : ExportScope
  pub chains : List ExportChain
  pub events : List ExportEvent
  pub event_count : ℕ
  pub chain_count : ℕ

-- received_at >= $3 AND received_at < $4, where a null bound selects nothing
unfoldable pub in_period : Option Time → Option Time → Time → Bool
in_period (some from) (some to) t = leb from t && ltb t to
in_period _ _ t = false

unfoldable pub selected : ExportJob → EventRow → Bool
unfolding in_period
selected job r =
    str_eq r.organization_id job.organization_id
    && (str_eq r.project_id job.project_id && in_period job.period_from job.period_to r.received_at)

-- ORDER BY chain_id, chain_position
unfoldable pub export_leb : EventRow → EventRow → Bool
export_leb a b =
    if str_eq a.chain_id b.chain_id
    then int_leb a.chain_position b.chain_position
    else str_leb a.chain_id b.chain_id

-- ListEventsForExport
unfoldable pub list_events_for_export : ExportJob → Db → List EventRow
unfolding selected sort_by export_leb
list_events_for_export job db = sort_by export_leb (filter (selected job) db.events)

unfoldable pub of_project : ExportJob → Chain → Bool
of_project job c =
    str_eq c.organization_id job.organization_id && str_eq c.project_id job.project_id

-- ListChainSummariesForOrg
unfoldable pub list_chain_summaries_for_org : ExportJob → Db → List Chain
unfolding of_project
list_chain_summaries_for_org job db = filter (of_project job) db.chains

abbrev pub export_chain : Chain → ExportChain
export_chain c = record {
  id = c.id;
  environment_id = c.environment_id;
  name = c.name;
  status = c.status;
  latest_position = c.latest_position;
  latest_event_hash = c.latest_event_hash;
}

abbrev pub export_event : EventRow → ExportEvent
export_event e = record {
  id = e.id;
  event_type = e.event_type;
  occurred_at = e.occurred_at;
  received_at = e.received_at;
  actor_type = e.actor_type;
  actor_id = e.actor_id;
  action_name = e.action_name;
  action_result = e.action_result;
  resource_type = e.resource_type;
  resource_id = e.resource_id;
  chain_id = e.chain_id;
  chain_position = e.chain_position;
  payload_hash = e.payload_hash;
  event_hash = e.event_hash;
  data_classes = e.data_classes;
}

-- a null time is read as Go's zero time
or_zero : Option Time → Time
or_zero none = 0
or_zero (some t) = t

-- the bundle of a job, from the two queries and the clock
unfoldable pub build_bundle : Time → ExportJob → List EventRow → List Chain → ExportBundle
unfolding or_zero
build_bundle now job events chains = record {
  schema_version = codes "stonewrit-evidence-bundle/1";
  format = codes "json";
  export_id = job.id;
  generated_at = now;
  scope = record {
    organization_id = job.organization_id;
    project_id = job.project_id;
    framework = job.framework;
    period_from = or_zero job.period_from;
    period_to = or_zero job.period_to;
  };
  chains = map export_chain chains;
  events = map export_event events;
  event_count = length events;
  chain_count = length chains;
}

-- what cmd/verify reads from the JSON of a bundle: the members that its own structs name
abbrev pub read_chain : ExportChain → BundleChain
read_chain c = record {
  id = c.id;
  latest_position = c.latest_position;
  latest_event_hash = c.latest_event_hash;
}

abbrev pub read_event : ExportEvent → BundleEvent
read_event e = record {
  id = e.id;
  chain_id = e.chain_id;
  chain_position = e.chain_position;
  payload_hash = e.payload_hash;
  event_hash = e.event_hash;
}

abbrev pub read_bundle : ExportBundle → Bundle
read_bundle b = record {
  schema_version = b.schema_version;
  chains = map read_chain b.chains;
  events = map read_event b.events;
}
