-- ===== src/Spec/Encode.antt =====
-- The JSON encoding of the schema's structs that their `json:"..."` tags in spec/event.go state, and
-- what an event is after it was stored as JSON and read back.
use stonewrit.Prelude.{Option, none, some, codes}
use stonewrit.Prelude.{Bool}
use stonewrit.Json.{Json, Fields, end, field, str, bool, obj, omit_str, omit_strs, omit_nil}
use stonewrit.Spec.{Source, Actor, Action, Resource, Policy, RequestCtx, EventInput}

unfoldable pub source_json : Source → Json
unfolding omit_str
source_json s = obj (
    field (codes "system") (str s.system) (
      field (codes "service") (str s.service) (
        omit_str (codes "environment") s.environment
          (omit_str (codes "region") s.region (omit_str (codes "version") s.version end)))))

unfoldable pub actor_json : Actor → Json
unfolding omit_str
actor_json a = obj (
    field (codes "type") (str a.type) (
      omit_str (codes "id") a.id (
        omit_str (codes "display_name") a.display_name (
          omit_str (codes "email") a.email (
            omit_str (codes "role") a.role (
              omit_str (codes "human_supervisor_id") a.human_supervisor_id (
                omit_str (codes "ip") a.ip (
                  omit_str (codes "user_agent") a.user_agent
                    (omit_str (codes "id_hash") a.id_hash end)))))))))

unfoldable pub action_json : Action → Json
unfolding omit_str
action_json a = obj (
    field (codes "name") (str a.name) (
      field (codes "category") (str a.category)
        (field (codes "result") (str a.result) (omit_str (codes "reason") a.reason end))))

unfoldable pub resource_json : Resource → Json
unfolding omit_str omit_strs
resource_json r = obj (
    field (codes "type") (str r.type) (
      omit_str (codes "id") r.id (
        omit_str (codes "id_hash") r.id_hash (
          omit_str (codes "tenant_id") r.tenant_id (
            omit_str (codes "tenant_id_hash") r.tenant_id_hash (
              omit_strs (codes "classification") r.classification
                (omit_strs (codes "fields_accessed") r.fields_accessed end)))))))

bool_json : Option Bool → Option Json
bool_json none = none
bool_json (some b) = some (bool b)

unfoldable pub policy_json : Policy → Json
unfolding omit_str omit_strs omit_nil bool_json
policy_json p = obj (
    omit_str (codes "decision") p.decision (
      omit_str (codes "policy_id") p.policy_id (
        omit_nil (codes "approval_required") (bool_json p.approval_required) (
          omit_str (codes "approval_id") p.approval_id
            (omit_strs (codes "control_ids") p.control_ids end)))))

unfoldable pub request_json : RequestCtx → Json
unfolding omit_str
request_json r = obj (
    omit_str (codes "request_id") r.request_id (
      omit_str (codes "trace_id") r.trace_id (
        omit_str (codes "session_id") r.session_id
          (omit_str (codes "session_id_hash") r.session_id_hash end))))

-- `omitempty` on the metadata map: nil and the empty map are both left out
unfoldable pub stored_metadata : Option Fields → Option Fields
stored_metadata none = none
stored_metadata (some end) = none
stored_metadata (some (field k v rest)) = some (field k v rest)

-- An event after json.Marshal and json.Unmarshal. Every string, slice and pointer is as it was,
-- absent or not; an empty metadata map comes back nil.
unfoldable pub reread : EventInput → EventInput
unfolding stored_metadata
reread e = record e { metadata = stored_metadata e.metadata }
