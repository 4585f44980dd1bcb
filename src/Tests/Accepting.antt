-- ===== src/Tests/Accepting.antt =====
-- Runs of the accept path.
use stonewrit.Prelude.{
  ◌↔◌, ◌≡◌, ◌≢◌, ◌+◌, refl, true, false, [], ◌∷◌, ◌++◌, Text, codes, str_eq, none, some, Option,
  length,
}
use stonewrit.Prelude.Errors.{Error, other, ok, err, wrap}
use stonewrit.Prelude.Int.{pos, int_eq}
use stonewrit.Json.{end, obj}
use stonewrit.Crypto.{sha256}
use stonewrit.Crypto.Encoding.{hex}
use stonewrit.Core.Hash.{event_hash, payload_hash, canonical_json}
use stonewrit.Classify.MapControls.{compute}
use stonewrit.Classify.Packs.{rules}
use stonewrit.Ingest.Resolve.{resolve_against_catalog}
use stonewrit.Db.{PendingEvent}
use stonewrit.Classify.{low}
use stonewrit.Sealer.Row.{build_event_row}
use stonewrit.VerifyService.{Answer, verify_sealed, verify_pending}
use stonewrit.Ingest.{
  World, State, AcceptInput, AcceptResult, Query, insert_pending, accept, prepare, pending_row,
  fresh_result, claim_row, request_hash, find_key, parse_pg_uuid,
}
use stonewrit.Ingest.Batch.{post_batch}
use stonewrit.Ingest.Counts.{post_batch_counts}
use stonewrit.Ingest.Replay.{accept_replay, SameAnswer}
use stonewrit.Core.Payload.{build_content_payload}
use stonewrit.Ingest.{content_of}
use stonewrit.Ingest.Metadata.{without_metadata, empty_metadata_iff}
use stonewrit.Ingest.Lost.{claim_outlives_failure}
use stonewrit.Ingest.Verifies.{accepted_verifies, IsCanonical, envelope}
use stonewrit.Tests.Samples.{sample_lib, sample_input, sample_context}

-- a world without packs, in which every text is a canonical uuid
abbrev pub calm_world : World
calm_world = record {
  now = 5000000;
  event_id = codes "e9";
  rand = λ n. 0;
  shard_count = 8;
  packs = [];
  parse_uuid = λ s. some s;
  stamp = λ t. codes "0001-01-01T00:00:00.0015Z";
  fails = λ q. none;
}

only_insert : Query → Option Error
only_insert insert_pending = some (other (codes "disk full"))
only_insert _ = none

abbrev full_world : World
full_world = record calm_world { fails = only_insert }

abbrev pub empty_state : State
empty_state = record { pending = []; idempotency = []; agents = []; controls = [] }

abbrev pub keyed_input : AcceptInput
keyed_input = record {
  auth = sample_context;
  event = sample_input;
  idempotency_key = codes "key-1";
}

-- the golden digest of the empty object
abbrev pub empty_object_hash : Text
empty_object_hash = codes "sha256:44136fa355b3678a1146ad16f7e8649e94fb4fc21fe77e8310c060f61caaff8a"

abbrev pub accepted_row : World → PendingEvent
accepted_row w =
    pending_row w empty_state keyed_input empty_object_hash (codes "p1") (codes "env1") (codes "k1")
      []

golden : payload_hash sample_lib (obj end) ≡ ok empty_object_hash
unfolding payload_hash canonical_json sha256 hex
golden = refl

calm_prepared : prepare sample_lib calm_world empty_state keyed_input ≡ ok (accepted_row calm_world)
unfolding prepare payload_hash canonical_json compute rules resolve_against_catalog sha256 hex
calm_prepared = refl

abbrev pub claimed_state : World → State
claimed_state w = record empty_state {
  idempotency = claim_row w keyed_input empty_object_hash (accepted_row w) ∷ [];
}

abbrev pub accepted_state : State
accepted_state = record (claimed_state calm_world) { pending = accepted_row calm_world ∷ [] }

pub calm_accepted :
    accept sample_lib calm_world keyed_input empty_state
    ≡ (ok (fresh_result calm_world keyed_input (accepted_row calm_world)), accepted_state)
unfolding accept payload_hash canonical_json compute rules resolve_against_catalog str_eq sha256 hex
calm_accepted = refl

hashed :
    (w : World)
    → w.stamp ≡ calm_world.stamp
    → request_hash sample_lib w keyed_input ≡ ok empty_object_hash
unfolding request_hash payload_hash canonical_json sha256 hex
hashed w e = refl

pub canonical : IsCanonical calm_world keyed_input
unfolding parse_pg_uuid
canonical = record { project = refl; environment = refl }

accepted_verifies_example :
    (p : PendingEvent) × (a : Answer) × (accepted_state.pending ≡ ([] ++ p ∷ []))
    × ((fresh_result calm_world keyed_input (accepted_row calm_world)).body.payload_hash
        ≡ p.payload_hash)
    × (verify_pending sample_lib p ≡ ok a)
    × (a.valid ≡ true)
    × ((verify_sealed sample_lib (
          build_event_row p
            (envelope calm_world keyed_input)
            (codes "c1")
            (codes "p1")
            (pos 1)
            []
            (event_hash [] p.payload_hash (pos 1))
            (record { data_classes = []; risk_level = low }))).valid
        ≡ true)
unfolding int_eq
accepted_verifies_example =
    accepted_verifies sample_lib calm_world keyed_input empty_state
      (fresh_result calm_world keyed_input (accepted_row calm_world)) accepted_state (codes "c1")
      (codes "p1") (pos 1) [] (record { data_classes = []; risk_level = low }) calm_accepted
      not_cached no_empty_map canonical refl refl
  where
    not_cached : (fresh_result calm_world keyed_input (accepted_row calm_world)).cached ≡ false
    not_cached = unfold fresh_result in refl

    no_empty_map : keyed_input.event.metadata ≢ some end
    no_empty_map h = cc

calm_prepared_again :
    prepare sample_lib calm_world accepted_state keyed_input ≡ ok (accepted_row calm_world)
unfolding prepare payload_hash canonical_json compute rules resolve_against_catalog sha256 hex
calm_prepared_again = refl

has_key : keyed_input.idempotency_key ≢ []
has_key h = cc

accept_replay_example :
    (r' : AcceptResult) × (accept sample_lib calm_world keyed_input accepted_state
      ≡ (ok r', accepted_state))
    × (r'.cached ≡ true)
    × SameAnswer (fresh_result calm_world keyed_input (accepted_row calm_world)) r'
accept_replay_example =
    accept_replay sample_lib calm_world keyed_input empty_state
      (fresh_result calm_world keyed_input (accepted_row calm_world)) accepted_state calm_world
      keyed_input accepted_state [] (accepted_row calm_world) empty_object_hash has_key
      calm_accepted refl refl refl calm_prepared_again (hashed calm_world refl) refl refl

full_prepared : prepare sample_lib full_world empty_state keyed_input ≡ ok (accepted_row full_world)
unfolding prepare payload_hash canonical_json compute rules resolve_against_catalog sha256 hex
    only_insert
full_prepared = refl

-- an event with an empty metadata map
abbrev marked_input : AcceptInput
marked_input = record keyed_input { event = record sample_input { metadata = some end } }

abbrev marked_row : PendingEvent
marked_row =
    pending_row calm_world empty_state marked_input empty_object_hash (codes "p1") (codes "env1")
      (codes "k1") []

abbrev marked_state : State
marked_state = record empty_state {
  pending = marked_row ∷ [];
  idempotency = claim_row calm_world marked_input empty_object_hash marked_row ∷ [];
}

marked_accepted :
    accept sample_lib calm_world marked_input empty_state
    ≡ (ok (fresh_result calm_world marked_input marked_row), marked_state)
unfolding accept payload_hash canonical_json compute rules resolve_against_catalog str_eq sha256 hex
marked_accepted = refl

empty_metadata_iff_example :
    (p : PendingEvent) × (marked_state.pending ≡ ([] ++ p ∷ []))
    × (((a : Answer) × (verify_pending sample_lib p ≡ ok a) × (a.valid ≡ true)) ↔ (
        payload_hash sample_lib (build_content_payload (content_of calm_world marked_input))
        ≡ payload_hash sample_lib
            (build_content_payload (content_of calm_world (without_metadata marked_input)))))
unfolding parse_pg_uuid fresh_result
empty_metadata_iff_example =
    empty_metadata_iff sample_lib calm_world marked_input empty_state
      (fresh_result calm_world marked_input marked_row) marked_state marked_accepted refl refl
      (record { project = refl; environment = refl })

-- the state after the failed insert
abbrev after_failure : State
after_failure = (accept sample_lib full_world keyed_input empty_state).1

retry_prepared :
    prepare sample_lib calm_world after_failure keyed_input ≡ ok (accepted_row calm_world)
unfolding accept prepare payload_hash canonical_json compute rules resolve_against_catalog sha256
    hex only_insert find_key str_eq
retry_prepared = refl

claim_outlives_failure_example :
    ((accept sample_lib full_world keyed_input empty_state).0
      ≡ err (wrap (codes "insert pending") (other (codes "disk full"))))
    × ((r : AcceptResult) × (accept sample_lib calm_world keyed_input after_failure
          ≡ (ok r, after_failure))
        × (r.status ≡ 202)
        × (r.body.id ≡ codes "e9")
        × (after_failure.pending ≡ []))
unfolding only_insert find_key pending_row
claim_outlives_failure_example =
    claim_outlives_failure sample_lib full_world keyed_input empty_state (accepted_row full_world)
      empty_object_hash (other (codes "disk full")) calm_world keyed_input (accepted_row calm_world)
      empty_object_hash has_key refl full_prepared (hashed full_world refl) refl refl refl refl
      retry_prepared (hashed calm_world refl) refl refl

post_batch_counts_example :
    ((post_batch sample_lib
          (λ e. [])
          (λ n. calm_world)
          sample_context
          (sample_input ∷ sample_input ∷ [])
          empty_state).0.accepted
        + (post_batch sample_lib
            (λ e. [])
            (λ n. calm_world)
            sample_context
            (sample_input ∷ sample_input ∷ [])
            empty_state).0.rejected
      ≡ 2)
    × (length
          (post_batch sample_lib
            (λ e. [])
            (λ n. calm_world)
            sample_context
            (sample_input ∷ sample_input ∷ [])
            empty_state).0.results
        ≡ 2)
    × (length
          (post_batch sample_lib
            (λ e. [])
            (λ n. calm_world)
            sample_context
            (sample_input ∷ sample_input ∷ [])
            empty_state).1.pending
        ≡ 0
          + (post_batch sample_lib
              (λ e. [])
              (λ n. calm_world)
              sample_context
              (sample_input ∷ sample_input ∷ [])
              empty_state).0.accepted)
post_batch_counts_example =
    post_batch_counts sample_lib (λ e. []) (λ n. calm_world) sample_context
      (sample_input ∷ sample_input ∷ []) empty_state
