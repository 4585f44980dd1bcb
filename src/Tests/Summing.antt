-- ===== src/Tests/Summing.antt =====
-- A run of the evidence summary.
use stonewrit.Prelude.{◌≡◌, refl, [], ◌∷◌, some, none, codes, str_eq, contains}
use stonewrit.Db.{MappingRow}
use stonewrit.Db.Queries.{
  lock_shard_chain, ensure_shard_chain_from_env, drain_pending_for_shard, existing_in, copy_events,
}
use stonewrit.Sealer.{seal_shard}
use stonewrit.Sealer.Row.{build_event_row}
use stonewrit.Evidence.{Tables, SummaryQuery, SummaryWorld, summary, joined, count_of}
use stonewrit.Evidence.Counts.{OnFound, Counted, summary-Counted}
use stonewrit.Tests.Samples.{sample_context}
use stonewrit.Tests.Sealing.{sealed_db}

abbrev sample_mapping : MappingRow
sample_mapping = record {
  organization_id = codes "org";
  event_id = codes "e1";
  framework = codes "SOC2";
  control_id = codes "CC6.1";
  mapping_reason = none;
  confidence = codes "0.8";
  mapped_by = codes "rules";
  status = codes "auto";
}

abbrev sample_tables : Tables
sample_tables = record {
  events = sealed_db.events;
  mappings = sample_mapping ∷ [];
  exceptions = [];
  frameworks =
      record { id = codes "SOC2"; name = codes "SOC 2"; description = none; version = none } ∷ [];
  controls =
      record {
        id = codes "k6";
        framework = codes "SOC2";
        control_id = codes "CC6.1";
        title = codes "Access";
        description = none;
        category = none;
      }
      ∷ [];
}

abbrev sample_clock : SummaryWorld
sample_clock = record {
  to_upper = λ s. s;
  parse_uuid = λ s. some s;
  parse_time = λ s. none;
  now = 3000000;
  month_ago = 0;
  framework_fails = none;
  group_fails = none;
}

abbrev sample_query : SummaryQuery
sample_query = record { framework = codes "SOC2"; project_id = codes "p1"; from = []; to = [] }

-- the mapping's event is in the period
one_pair :
    count_of (codes "CC6.1") (
      joined
        (record { organization_id = codes "org"; project_id = codes "p1"; from = 0; to = 3000000 })
        (codes "SOC2")
        sealed_db.events
        (sample_mapping ∷ []))
    ≡ 1
unfolding count_of joined seal_shard build_event_row str_eq contains lock_shard_chain
    ensure_shard_chain_from_env drain_pending_for_shard existing_in copy_events
one_pair = refl

summary-Counted_example :
    OnFound
      (Counted (codes "org") (codes "p1") sample_tables)
      (summary sample_clock (some sample_context) sample_query sample_tables)
summary-Counted_example =
    summary-Counted sample_clock sample_context sample_query sample_tables (codes "p1") refl
