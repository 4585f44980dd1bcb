-- ===== src/Core/Payload.antt =====
-- core/payload.go: the content that a payload hash commits to.
use stonewrit.Prelude.{Option, none, some, Text, codes}
use stonewrit.Json.{Json, Fields, end, field, str, obj, omit_str, omit_nil}
use stonewrit.Spec.{Time, EventInput, Policy, RequestCtx}
use stonewrit.Spec.Encode.{
  source_json, actor_json, action_json, resource_json, policy_json, request_json,
}
use stonewrit.Core.HashTime.{hash_time}

pub record ContentInput : Type 0 where
  pub organization_id : Text
  pub project_id : Text
  pub environment_id : Text
  pub received_at : Time
  pub event : EventInput

-- `if e.X != nil { p["x"] = e.X }`, for the three pointers and maps
policy_field : Option Policy → Option Json
policy_field none = none
policy_field (some p) = some (policy_json p)

request_field : Option RequestCtx → Option Json
request_field none = none
request_field (some r) = some (request_json r)

metadata_field : Option Fields → Option Json
metadata_field none = none
metadata_field (some m) = some (obj m)

-- The Go map has no order; here a key stands where the source sets it.
unfoldable pub build_content_payload : ContentInput → Json
unfolding policy_field request_field metadata_field omit_str omit_nil
build_content_payload c =
    let e = c.event in
    obj (
      field (codes "organization_id") (str c.organization_id) (
        field (codes "project_id") (str c.project_id) (
          field (codes "environment_id") (str c.environment_id) (
            field (codes "received_at") (str (hash_time c.received_at)) (
              field (codes "event_type") (str e.event_type) (
                field (codes "occurred_at") (str (hash_time e.occurred_at)) (
                  field (codes "source") (source_json e.source) (
                    field (codes "actor") (actor_json e.actor) (
                      field (codes "action") (action_json e.action) (
                        field (codes "resource") (resource_json e.resource) (
                          omit_str (codes "external_event_id") e.external_event_id (
                            omit_nil (codes "policy") (policy_field e.policy) (
                              omit_nil (codes "request") (request_field e.request) (
                                omit_nil (codes "metadata") (metadata_field e.metadata)
                                  end))))))))))))))
