-- ===== src/Tests/Samples.antt =====
-- Sample data for the runs.
use stonewrit.Prelude.{[], ◌∷◌, none, some, Text, codes}
use stonewrit.Prelude.Errors.{ok}
use stonewrit.Prelude.Int.{pos}
use stonewrit.Json.{JsonLib}
use stonewrit.Spec.{EventInput}
use stonewrit.Core.Hash.{event_hash}
use stonewrit.Core.Verify.{Record}
use stonewrit.Classify.{low}
use stonewrit.Db.{Db, PendingEvent}
use stonewrit.Bundle.{BundleEvent, Bundle}
use stonewrit.Auth.{Context}

-- a JSON library whose every value is the empty object
abbrev pub sample_lib : JsonLib
sample_lib = record { marshal = λ _. ok (codes "{}"); transform = λ t. ok t }

abbrev pub first_payload : Text
first_payload = codes "sha256:01"

abbrev pub second_payload : Text
second_payload = codes "sha256:02"

abbrev pub first_hash : Text
first_hash = event_hash [] first_payload (pos 1)

abbrev pub second_hash : Text
second_hash = event_hash first_hash second_payload (pos 2)

abbrev pub first_record : Record
first_record = record {
  previous_event_hash = none;
  payload_hash = first_payload;
  event_hash = first_hash;
  chain_position = pos 1;
  content = none;
}

abbrev pub second_record : Record
second_record = record {
  previous_event_hash = none;
  payload_hash = second_payload;
  event_hash = second_hash;
  chain_position = pos 2;
  content = none;
}

-- the second record with its link written out
abbrev pub linked_record : Record
linked_record = record second_record { previous_event_hash = some first_hash }

abbrev pub first_event : BundleEvent
first_event = record {
  id = codes "e1";
  chain_id = codes "c1";
  chain_position = pos 1;
  payload_hash = first_payload;
  event_hash = first_hash;
}

abbrev pub second_event : BundleEvent
second_event = record {
  id = codes "e2";
  chain_id = codes "c1";
  chain_position = pos 2;
  payload_hash = second_payload;
  event_hash = second_hash;
}

-- both events, out of order
abbrev pub whole_bundle : Bundle
whole_bundle = record {
  schema_version = codes "1.0";
  chains =
      record { id = codes "c1"; latest_position = pos 2; latest_event_hash = some second_hash }
      ∷ [];
  events = second_event ∷ first_event ∷ [];
}

-- a period that starts after the first event
abbrev pub late_bundle : Bundle
late_bundle = record whole_bundle { events = second_event ∷ [] }

abbrev pub sample_input : EventInput
sample_input = record {
  event_type = codes "data.exported";
  occurred_at = 1500000;
  external_event_id = codes "x1";
  source = record {
    system = codes "crm";
    service = codes "export";
    environment = [];
    region = [];
    version = [];
  };
  actor = record {
    type = codes "ai_agent";
    id = codes "agent-7";
    display_name = [];
    email = [];
    role = [];
    human_supervisor_id = [];
    ip = [];
    user_agent = [];
    id_hash = [];
  };
  action = record {
    name = codes "export";
    category = codes "read";
    result = codes "success";
    reason = [];
  };
  resource = record {
    type = codes "report";
    id = [];
    id_hash = [];
    tenant_id = [];
    tenant_id_hash = [];
    classification = codes "internal" ∷ [];
    fields_accessed = [];
  };
  policy = none;
  request = none;
  metadata = none;
}

abbrev pub sample_pending : PendingEvent
sample_pending = record {
  id = codes "e1";
  organization_id = codes "org";
  project_id = codes "p1";
  environment_id = codes "env1";
  shard_index = 0;
  external_event_id = some (codes "x1");
  payload_hash = first_payload;
  event_data = some (record { received_at = 2000000; input = sample_input });
  classification = some (record { data_classes = []; risk_level = low });
  control_mappings = some [];
  api_key_id = codes "k1";
  idempotency_key = none;
  accepted_at = 2000000;
  scope_check = none;
}

abbrev pub sample_db : Db
sample_db = record {
  environments =
      record { id = codes "env1"; organization_id = codes "org"; project_id = codes "p1" } ∷ [];
  chains = [];
  pending = sample_pending ∷ [];
  events = [];
  classifications = [];
  mappings = [];
  checkpoints = [];
}

abbrev pub sample_context : Context
sample_context = record {
  organization_id = codes "org";
  project_id = codes "p1";
  environment_id = codes "env1";
  api_key_id = codes "k1";
  scopes = codes "events:write" ∷ [];
}
