-- ===== src/Tests/Serving.antt =====
-- Runs of the guard, the classifier and the verification of one event.
use stonewrit.Prelude.{
  ◌⊎◌, ◌≡◌, ◌<◌, ◌↔◌, refl, true, false, [], ◌∷◌, Text, codes, str_eq, str_leb, has_prefix,
  contains, Elem, All, none, some, arith,
}
use stonewrit.Prelude.Int.{pos}
use stonewrit.Prelude.Sort.{IsSorted}
use stonewrit.Crypto.{sha256}
use stonewrit.Crypto.Encoding.{hex}
use stonewrit.Db.{EventRow}
use stonewrit.Shard.{index_for, effective, index_for-lt}
use stonewrit.Classify.{Event, classify, low, high}
use stonewrit.Classify.Risk.{classify_high, high_classes}
use stonewrit.Classify.Classes.{Derived, classify_classes}
use stonewrit.Auth.{ApiKey, hash_key, context_of, require, serve}
use stonewrit.Auth.Guard.{Bears, require_sound}
use stonewrit.Sealer.Row.{build_event_row}
use stonewrit.VerifyService.{verify_sealed}
use stonewrit.VerifyService.Sound.{IsHashed, undecodable_passes}
use stonewrit.Prelude.Errors.{ok}
use stonewrit.Db.{Agent, ScopeCheckResult}
use stonewrit.Ingest.Scope.{get_agent, compute_scope_check}
use stonewrit.Ingest.Scope.Verdict.{compute_scope_check_verdict}
use stonewrit.Tests.Samples.{sample_lib, sample_input, sample_pending, first_hash}

abbrev export_event : Event
export_event = record {
  event_type = codes "data.exported";
  actor_type = codes "user";
  action_result = codes "success";
  data_classes = codes "internal" ∷ [];
}

classify_high_example : ((classify export_event).risk_level ≡ high) ↔ (
    ((c : Text) × Elem c (codes "internal" ∷ []) × Elem c high_classes)
    ⊎ ((codes "data.exported" ≡ codes "data.exported")
        ⊎ (codes "data.exported" ≡ codes "data.shared_external")))
classify_high_example = classify_high export_event

classify_classes_example :
    IsSorted str_leb (classify export_event).data_classes
    × (Elem (codes "data_event") (classify export_event).data_classes ↔ (
        Elem (codes "data_event") (codes "internal" ∷ [])
        ⊎ Derived export_event (codes "data_event")))
classify_classes_example = classify_classes export_event (codes "data_event")

index_for-lt_example : index_for (λ n. 0) (codes "agent-7") 8 < effective 8
index_for-lt_example = index_for-lt (λ n. 0) (codes "agent-7") 8 (λ n h. h) (omega arith)

abbrev sample_key : ApiKey
sample_key = record {
  id = codes "k1";
  key_hash = hash_key (codes "secret");
  organization_id = codes "org";
  project_id = codes "p1";
  environment_id = codes "env1";
  scopes = codes "events:write" ∷ [];
  revoked = false;
}

served :
    require none (sample_key ∷ []) (codes "events:write" ∷ []) (codes "Bearer secret")
    ≡ serve (context_of sample_key)
unfolding require hash_key sha256 hex str_eq has_prefix contains
served = refl

require_sound_example :
    (token : Text) × (k : ApiKey) × Bears (codes "Bearer secret") token
    × Elem k (sample_key ∷ [])
    × (k.key_hash ≡ hex (sha256 token))
    × (k.revoked ≡ false)
    × (context_of sample_key ≡ record {
      organization_id = k.organization_id;
      project_id = k.project_id;
      environment_id = k.environment_id;
      api_key_id = k.id;
      scopes = k.scopes;
    })
    × All (λ s. Elem s k.scopes) (codes "events:write" ∷ [])
require_sound_example =
    require_sound none (sample_key ∷ []) (codes "events:write" ∷ []) (codes "Bearer secret")
      (context_of sample_key) served

-- a sealed row whose stored payload does not decode
abbrev broken_row : EventRow
broken_row =
    record (build_event_row sample_pending (record { received_at = 2000000; input = sample_input })
      (codes "c1") (codes "p1") (pos 1) [] first_hash
      (record { data_classes = []; risk_level = low })) { raw_payload = none }

undecodable_passes_example :
    (((verify_sealed sample_lib broken_row).valid ≡ true)
      ↔ IsHashed broken_row.previous_event_hash broken_row)
    × ((verify_sealed sample_lib broken_row).computed_payload_hash ≡ none)
undecodable_passes_example = undecodable_passes sample_lib broken_row refl

abbrev sample_agent : Agent
sample_agent = record {
  id = codes "a7";
  organization_id = codes "org";
  project_id = codes "p1";
  external_id = codes "agent-7";
  name = codes "exporter";
  status = codes "active";
  authorized_scopes = codes "read" ∷ [];
}

agent_found :
    get_agent (codes "org") (codes "p1") (codes "agent-7") (sample_agent ∷ []) ≡ some sample_agent
unfolding get_agent str_eq
agent_found = refl

compute_scope_check_verdict_example :
    (r : ScopeCheckResult) × (compute_scope_check none
        (sample_agent ∷ [])
        (codes "org")
        (codes "p1")
        sample_input.actor
        sample_input.action
      ≡ ok (some r))
    × ((r.in_scope ≡ true)
        ↔ (Elem (codes "read") (codes "read" ∷ []) × (codes "active" ≡ codes "active")))
    × ((r.reason ≡ codes "ok") ↔ (r.in_scope ≡ true))
compute_scope_check_verdict_example =
    compute_scope_check_verdict (sample_agent ∷ []) (codes "org") (codes "p1") sample_input.actor
      sample_input.action sample_agent refl agent_found
