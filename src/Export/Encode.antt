-- ===== src/Export/Encode.antt =====
-- The JSON of the worker's bundle, as the tags of its structs state it, with json.Marshal of a time.
-- The server's zone is UTC.
use stonewrit.Prelude.{
  ℕ, ◌/◌, ◌%◌, ◌^◌, List, [], ◌∷◌, ◌++◌, reverse, Text, codes, Option, none, some, ◌==◌,
  if◌then◌else◌,
}
use stonewrit.Json.{
  Json, null, num, str, arr, obj, Items, nil, cons, end, field, omit_nil, omit_strs,
}
use stonewrit.Crypto.Encoding.{format_nat, format_int}
use stonewrit.Spec.{Time}
use stonewrit.Core.HashTime.{civil, padded}
use stonewrit.Export.{ExportScope, ExportChain, ExportEvent, ExportBundle}

drop_zeros : Text → Text
drop_zeros [] = []
drop_zeros (c ∷ s) = let rest = drop_zeros s in if c == b'0' then rest else c ∷ s

-- the fraction of a second, without the zeros at its end
fraction : ℕ → Text
unfolding drop_zeros padded
fraction nanos = if nanos == 0 then [] else b'.' ∷ reverse (drop_zeros (reverse (padded 9 nanos)))

-- time.Time.MarshalJSON, without its quotes
rfc3339_nano : Time → Text
unfolding civil padded fraction
rfc3339_nano t =
    let s = t / 10 ^ 9 in
    let c = civil (s / 86400) in
    padded 4 c.year
    ++ codes "-"
    ++ padded 2 c.month
    ++ codes "-"
    ++ padded 2 c.day
    ++ codes "T"
    ++ padded 2 (s / 3600 % 24)
    ++ codes ":"
    ++ padded 2 (s / 60 % 60)
    ++ codes ":"
    ++ padded 2 (s % 60)
    ++ fraction (t % 10 ^ 9)
    ++ codes "Z"

pointer : Option Text → Option Json
pointer none = none
pointer (some s) = some (str s)

scope_json : ExportScope → Json
unfolding rfc3339_nano omit_nil pointer
scope_json s = obj (
    field (codes "organization_id") (str s.organization_id) (
      field (codes "project_id") (str s.project_id) (
        omit_nil (codes "framework") (pointer s.framework) (
          field (codes "period_from") (str (rfc3339_nano s.period_from))
            (field (codes "period_to") (str (rfc3339_nano s.period_to)) end)))))

chain_json : ExportChain → Json
unfolding omit_nil pointer format_int
chain_json c = obj (
    field (codes "id") (str c.id) (
      field (codes "environment_id") (str c.environment_id) (
        field (codes "name") (str c.name) (
          field (codes "status") (str c.status) (
            field (codes "latest_position") (num (format_int c.latest_position))
              (omit_nil (codes "latest_event_hash") (pointer c.latest_event_hash) end))))))

event_json : ExportEvent → Json
unfolding rfc3339_nano omit_nil omit_strs pointer format_int
event_json e = obj (
    field (codes "id") (str e.id) (
      field (codes "event_type") (str e.event_type) (
        field (codes "occurred_at") (str (rfc3339_nano e.occurred_at)) (
          field (codes "received_at") (str (rfc3339_nano e.received_at)) (
            field (codes "actor_type") (str e.actor_type) (
              omit_nil (codes "actor_id") (pointer e.actor_id) (
                field (codes "action_name") (str e.action_name) (
                  field (codes "action_result") (str e.action_result) (
                    field (codes "resource_type") (str e.resource_type) (
                      omit_nil (codes "resource_id") (pointer e.resource_id) (
                        field (codes "chain_id") (str e.chain_id) (
                          field (codes "chain_position") (num (format_int e.chain_position)) (
                            field (codes "payload_hash") (str e.payload_hash) (
                              field (codes "event_hash") (str e.event_hash)
                                (omit_strs (codes "data_classes") e.data_classes end)))))))))))))))

chain_items : List ExportChain → Items
unfolding chain_json
chain_items [] = nil
chain_items (c ∷ cs) = cons (chain_json c) (chain_items cs)

event_items : List ExportEvent → Items
unfolding event_json
event_items [] = nil
event_items (e ∷ es) = cons (event_json e) (event_items es)

-- a nil slice is null
chains_json : List ExportChain → Json
unfolding chain_items
chains_json [] = null
chains_json (c ∷ cs) = arr (chain_items (c ∷ cs))

events_json : List ExportEvent → Json
unfolding event_items
events_json [] = null
events_json (e ∷ es) = arr (event_items (e ∷ es))

unfoldable pub bundle_json : ExportBundle → Json
unfolding scope_json chains_json events_json rfc3339_nano format_nat
bundle_json b = obj (
    field (codes "schema_version") (str b.schema_version) (
      field (codes "format") (str b.format) (
        field (codes "export_id") (str b.export_id) (
          field (codes "generated_at") (str (rfc3339_nano b.generated_at)) (
            field (codes "scope") (scope_json b.scope) (
              field (codes "chains") (chains_json b.chains) (
                field (codes "events") (events_json b.events) (
                  field (codes "totals")
                    (obj (
                      field (codes "event_count") (num (format_nat b.event_count))
                        (field (codes "chain_count") (num (format_nat b.chain_count)) end)))
                    end))))))))
