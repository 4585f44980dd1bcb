-- ===== src/Tests/Running.antt =====
-- Runs of the accept path and the sealer together.
use stonewrit.Prelude.{
  ◌≡◌, refl, sym, ◌∙◌, ◌≤◌, ◌≢◌, inl, inr, [], ◌∷◌, Text, codes, Elem, ap, some, arith, length,
  true,
}
use stonewrit.Db.{Environment, Chain, EventRow}
use stonewrit.Json.{end}
use stonewrit.Ingest.{accept}
use stonewrit.System.{Store, accepted_into, IsRequest, accepts, seals, IsNew, Reach, start, later}
use stonewrit.System.Verifies.{
  reachable_event_verifies, reachable_pending_verifies, reachable_chain_verifies,
}
use stonewrit.Tests.Accepting.{
  calm_world, keyed_input, canonical, empty_state, accepted_row, calm_accepted,
}
use stonewrit.Core.Hash.{payload_hash, canonical_json}
use stonewrit.Crypto.{sha256}
use stonewrit.Crypto.Encoding.{hex}
use stonewrit.Classify.MapControls.{compute}
use stonewrit.Classify.Packs.{rules}
use stonewrit.Ingest.Resolve.{resolve_against_catalog}
use stonewrit.Ingest.{pending_row, shard_key}
use stonewrit.Shard.{index_for}
use stonewrit.Db.Queries.{
  lock_shard_chain, ensure_shard_chain_from_env, drain_pending_for_shard, existing_in, copy_events,
  update_shard_tip,
}
use stonewrit.Prelude.{contains, str_eq}
use stonewrit.Prelude.Errors.{ok}
use stonewrit.Core.Verify.{verify_chain}
use stonewrit.VerifyService.{Answer, verify_sealed, verify_pending}
use stonewrit.Sealer.Invariant.{chain_rows, row_records}
use stonewrit.ChainsRoute.{sync_limit, verify_chain_row, walk_chain_for_verify}
use stonewrit.Sealer.{seal_shard}
use stonewrit.Sealer.Conserved.{UniquePending, Settles, seal_shard-Settles}
use stonewrit.Tests.Samples.{sample_lib, sample_db, sample_pending}
use stonewrit.Tests.Sealing.{sample_world}

pub one_waiting : UniquePending sample_db
one_waiting p q (inl a) (inl b) e = a ∙ sym b
one_waiting p q (inl a) (inr nowhere) e = elim nowhere [ ]
one_waiting p q (inr nowhere) _ e = elim nowhere [ ]

seal_shard-Settles_example :
    Settles
      (codes "env1")
      sample_pending
      sample_db
      (seal_shard sample_world (codes "env1") 0 sample_db).db
seal_shard-Settles_example =
    seal_shard-Settles sample_world (codes "env1") 0 sample_db sample_pending one_waiting (inl refl)

-- the store of a new server with one environment, and what a request and a run make of it
abbrev new_store : Store
new_store = record {
  db = record sample_db { pending = [] };
  idempotency = [];
  agents = [];
  controls = [];
}

abbrev project : Text → Text
project env = codes "p1"

new_store-IsNew : IsNew sample_lib project new_store
new_store-IsNew = record { chains = refl; pending = refl; events = refl; environments = one }
  where
    one : (e : Environment) → Elem e new_store.db.environments → e.project_id ≡ project e.id
    one e (inl same) = ap (λ (x : Environment). x.project_id) same
    one e (inr nowhere) = elim nowhere [ ]

a-IsRequest : IsRequest project calm_world keyed_input
a-IsRequest = record { canonical = canonical; full = no_empty_map; in_project = refl }
  where
    no_empty_map : keyed_input.event.metadata ≢ some end
    no_empty_map h = cc

abbrev after_request : Store
after_request = accepted_into new_store (accept sample_lib calm_world keyed_input empty_state).1

abbrev after_run : Store
after_run = record after_request {
  db =
      (seal_shard sample_world (codes "env1") (accepted_row calm_world).shard_index
        after_request.db).db;
}

asked : Reach sample_lib project after_request
asked = later (start new_store new_store-IsNew) (accepts calm_world keyed_input a-IsRequest)

ran : Reach sample_lib project after_run
ran =
    later asked
      (seals sample_world (codes "env1") (accepted_row calm_world).shard_index refl (omega arith))

waiting_row : after_request.db.pending ≡ accepted_row calm_world ∷ []
waiting_row = ap (λ r. r.1.pending) calm_accepted

-- the run seals the accepted event
sealed_row : (r : EventRow) × (after_run.db.events ≡ r ∷ [])
unfolding accept payload_hash canonical_json compute rules resolve_against_catalog str_eq sha256 hex
    seal_shard lock_shard_chain ensure_shard_chain_from_env drain_pending_for_shard contains
    existing_in copy_events pending_row index_for shard_key
sealed_row = (_, refl)

sealed_chain_row : (c : Chain) × (after_run.db.chains ≡ c ∷ [])
unfolding accept payload_hash canonical_json compute rules resolve_against_catalog str_eq sha256 hex
    seal_shard lock_shard_chain ensure_shard_chain_from_env drain_pending_for_shard contains
    existing_in copy_events pending_row index_for shard_key update_shard_tip
sealed_chain_row = (_, refl)

run_event : Elem sealed_row.0 after_run.db.events
run_event = rw (sealed_row.1) (inl refl)

run_chain : Elem sealed_chain_row.0 after_run.db.chains
run_chain = rw (sealed_chain_row.1) (inl refl)

reachable_event_verifies_example : (verify_sealed sample_lib sealed_row.0).valid ≡ true
reachable_event_verifies_example =
    reachable_event_verifies sample_lib project after_run sealed_row.0 ran run_event

pending_there : Elem (accepted_row calm_world) after_request.db.pending
pending_there = rw waiting_row (inl refl)

reachable_pending_verifies_example :
    (a : Answer) × (verify_pending sample_lib (accepted_row calm_world) ≡ ok a) × (a.valid ≡ true)
reachable_pending_verifies_example =
    reachable_pending_verifies sample_lib project after_request (accepted_row calm_world) asked
      pending_there

few : length (chain_rows sealed_chain_row.0.id after_run.db.events) ≤ sync_limit
few = rw (sealed_row.1) (ground arith)

reachable_chain_verifies_example :
    ((verify_chain_row sealed_chain_row.0 after_run.db).valid ≡ true)
    × ((verify_chain sample_lib
          (row_records (walk_chain_for_verify sealed_chain_row.0.id sync_limit after_run.db))).valid
        ≡ true)
reachable_chain_verifies_example =
    reachable_chain_verifies sample_lib project after_run sealed_chain_row.0 ran run_chain few
