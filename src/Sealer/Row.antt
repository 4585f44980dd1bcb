-- ===== src/Sealer/Row.antt =====
-- `buildEventRow` of server/internal/sealer/sealer.go: the columns of a sealed event.
use stonewrit.Prelude.{[], ◌∷◌, Bool, false, Option, none, some, Text, codes}
use stonewrit.Prelude.Int.{ℤ}
use stonewrit.Spec.{Policy, RequestCtx}
use stonewrit.Spec.Encode.{reread}
use stonewrit.Classify.{Classification}
use stonewrit.Db.{PendingEvent, EventDataEnvelope, EventRow}

-- nullIfEmpty, and strPtr: nil for the empty text
unfoldable pub null_if_empty : Text → Option Text
null_if_empty [] = none
null_if_empty (c ∷ s) = some (c ∷ s)

abbrev pub str_ptr : Text → Option Text
str_ptr = null_if_empty

of_policy : (Policy → Text) → Option Policy → Option Text
of_policy f none = none
of_policy f (some p) = null_if_empty (f p)

approval_required : Option Policy → Bool
approval_required none = false
approval_required (some p) = elim p.approval_required [ none ↦ false | some b ↦ b ]

of_request : (RequestCtx → Text) → Option RequestCtx → Option Text
of_request f none = none
of_request f (some r) = null_if_empty (f r)

unfoldable pub build_event_row :
    PendingEvent → EventDataEnvelope → Text → Text → ℤ → Text → Text → Classification → EventRow
unfolding null_if_empty of_policy approval_required of_request
build_event_row p env chain_id project_id position prev_hash event_hash cl =
    let input = env.input in
    record {
      id = p.id;
      organization_id = p.organization_id;
      project_id = project_id;
      environment_id = p.environment_id;
      external_event_id = null_if_empty input.external_event_id;
      event_type = input.event_type;
      occurred_at = input.occurred_at;
      received_at = env.received_at;
      source_system = input.source.system;
      source_service = input.source.service;
      source_environment = null_if_empty input.source.environment;
      source_region = null_if_empty input.source.region;
      source_version = null_if_empty input.source.version;
      actor_type = input.actor.type;
      actor_id = null_if_empty input.actor.id;
      actor_id_hash = null_if_empty input.actor.id_hash;
      actor_email = null_if_empty input.actor.email;
      actor_role = null_if_empty input.actor.role;
      human_supervisor_id = null_if_empty input.actor.human_supervisor_id;
      action_name = input.action.name;
      action_category = input.action.category;
      action_result = input.action.result;
      action_reason = null_if_empty input.action.reason;
      resource_type = input.resource.type;
      resource_id = null_if_empty input.resource.id;
      resource_id_hash = null_if_empty input.resource.id_hash;
      tenant_id = null_if_empty input.resource.tenant_id;
      tenant_id_hash = null_if_empty input.resource.tenant_id_hash;
      data_classes = cl.data_classes;
      policy_decision = of_policy (λ q. q.decision) input.policy;
      policy_id = of_policy (λ q. q.policy_id) input.policy;
      approval_required = approval_required input.policy;
      approval_id = of_policy (λ q. q.approval_id) input.policy;
      request_id = of_request (λ r. r.request_id) input.request;
      trace_id = of_request (λ r. r.trace_id) input.request;
      session_id_hash = of_request (λ r. r.session_id_hash) input.request;
      raw_payload = some (reread input);
      metadata = input.metadata;
      chain_id = chain_id;
      chain_position = position;
      payload_hash = p.payload_hash;
      previous_event_hash = null_if_empty prev_hash;
      event_hash = event_hash;
      hash_algorithm = codes "sha256";
      canonicalization_version = codes "jcs-v1";
      classification_status = codes "completed";
      sealing_status = codes "sealed";
      scope_check_result = p.scope_check;
    }
