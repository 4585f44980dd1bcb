-- ===== src/Tests/Sealing.antt =====
-- Runs of the sealer and of the chain endpoint.
use stonewrit.Prelude.{
  All, ◌≡◌, ◌≤◌, ◌↔◌, refl, inl, true, false, [], ◌∷◌, codes, str_eq, contains, Elem, none, some,
  Option, length, arith,
}
use stonewrit.Prelude.Errors.{Error, other, ok, wrap}
use stonewrit.Prelude.Int.{pos, succ_int64}
use stonewrit.Core.Verify.{verify_chain, text_or_empty}
use stonewrit.Db.Queries.{
  lock_shard_chain, ensure_shard_chain_from_env, drain_pending_for_shard, existing_in, copy_events,
  update_shard_tip,
}
use stonewrit.Core.Hash.{event_hash}
use stonewrit.Crypto.Encoding.{format_nat}
use stonewrit.Sealer.Row.{build_event_row}
use stonewrit.Classify.{low}
use stonewrit.Db.{PendingEvent, Db, Chain}
use stonewrit.Sealer.Dedupe.{dedupe_pending}
use stonewrit.Sealer.Duplicates.{IsDistinct, batch_ids, journal_ids, dedupe_pending-IsDistinct}
use stonewrit.Sealer.{World, Stmt, commit_tx, Item, seal_shard}
use stonewrit.Sealer.Invariant.{IsConsistent, chain_rows, row_records}
use stonewrit.Sealer.Keeps.{seal_shard-IsConsistent}
use stonewrit.Sealer.Atomic.{seal_shard_rolls_back}
use stonewrit.Sealer.Anchors.{Anchors, committing, published_before_commit}
use stonewrit.ChainsRoute.{sync_limit, verify_chain_row, verify_rows, walk_chain_for_verify}
use stonewrit.ChainsRoute.Accepts.{consistent_chain_verifies, verify_rows_iff, Accepted}
use stonewrit.Tests.Samples.{
  sample_lib, sample_input, first_payload, first_hash, sample_db, sample_pending,
}

abbrev pub sample_world : World
sample_world = record {
  fails = λ s. none;
  locked_elsewhere = false;
  new_chain_id = codes "c1";
  batch_size = 100;
  has_anchorer = true;
}

only_commit : Stmt → Option Error
only_commit commit_tx = some (other (codes "connection lost"))
only_commit _ = none

abbrev failing_world : World
failing_world = record sample_world { fails = only_commit }

pub no_chains : IsConsistent sample_lib sample_db
no_chains c m = elim m [ ]

seal_shard-IsConsistent_example :
    IsConsistent sample_lib (seal_shard sample_world (codes "env1") 0 sample_db).db
seal_shard-IsConsistent_example =
    seal_shard-IsConsistent sample_lib sample_world (codes "env1") 0 sample_db no_chains refl
      (omega arith)

-- the run does seal the pending event
sealed_one : length (seal_shard sample_world (codes "env1") 0 sample_db).db.events ≡ 1
unfolding seal_shard lock_shard_chain ensure_shard_chain_from_env str_eq drain_pending_for_shard
    contains existing_in copy_events
sealed_one = refl

failed_commit :
    (seal_shard failing_world (codes "env1") 0 sample_db).error
    ≡ some (wrap (codes "commit") (other (codes "connection lost")))
unfolding seal_shard only_commit lock_shard_chain ensure_shard_chain_from_env str_eq
    drain_pending_for_shard contains existing_in copy_events
failed_commit = refl

seal_shard_rolls_back_example : (seal_shard failing_world (codes "env1") 0 sample_db).db ≡ sample_db
seal_shard_rolls_back_example =
    seal_shard_rolls_back failing_world (codes "env1") 0 sample_db
      (wrap (codes "commit") (other (codes "connection lost"))) failed_commit

abbrev pub new_chain : Chain
new_chain = record {
  id = codes "c1";
  organization_id = codes "org";
  project_id = codes "p1";
  environment_id = codes "env1";
  shard_index = 0;
  name = codes "shard-0";
  status = codes "active";
  latest_position = pos 0;
  latest_event_hash = none;
}

-- the chain after the run
abbrev pub sealed_chain : Chain
sealed_chain = record new_chain { latest_position = pos 1; latest_event_hash = some first_hash }

abbrev pub sealed_db : Db
sealed_db = (seal_shard sample_world (codes "env1") 0 sample_db).db

sealed_chain_there : Elem sealed_chain sealed_db.chains
unfolding seal_shard update_shard_tip build_event_row event_hash succ_int64 text_or_empty format_nat
    lock_shard_chain ensure_shard_chain_from_env str_eq drain_pending_for_shard contains existing_in
    copy_events
sealed_chain_there = inl refl

few_events : length (chain_rows (codes "c1") sealed_db.events) ≤ sync_limit
unfolding seal_shard build_event_row lock_shard_chain ensure_shard_chain_from_env str_eq
    drain_pending_for_shard contains existing_in copy_events
few_events = omega arith

consistent_chain_verifies_example :
    ((verify_chain_row sealed_chain sealed_db).valid ≡ true)
    × ((verify_chain sample_lib
          (row_records (walk_chain_for_verify (codes "c1") sync_limit sealed_db))).valid
        ≡ true)
consistent_chain_verifies_example =
    consistent_chain_verifies sample_lib sealed_db sealed_chain seal_shard-IsConsistent_example
      sealed_chain_there few_events

verify_rows_iff_example :
    ((verify_rows sealed_chain sealed_db.events).valid ≡ true)
    ↔ Accepted sample_lib sealed_chain sealed_db.events
verify_rows_iff_example = verify_rows_iff sample_lib sealed_chain sealed_db.events

abbrev pub sample_item : Item
sample_item = record {
  pending = sample_pending;
  classification = record { data_classes = []; risk_level = low };
  mappings = [];
  row =
      build_event_row sample_pending (record { received_at = 2000000; input = sample_input })
        (codes "c1") (codes "p1") (pos 1) [] (event_hash [] first_payload (pos 1))
        (record { data_classes = []; risk_level = low });
}

-- the run whose commit fails publishes a checkpoint
one_published : length (seal_shard failing_world (codes "env1") 0 sample_db).published ≡ 1
unfolding seal_shard only_commit lock_shard_chain ensure_shard_chain_from_env str_eq
    drain_pending_for_shard contains existing_in copy_events
one_published = refl

commits_without_error :
    (seal_shard (committing failing_world) (codes "env1") 0 sample_db).error ≡ none
unfolding seal_shard only_commit lock_shard_chain ensure_shard_chain_from_env str_eq
    drain_pending_for_shard contains existing_in copy_events
commits_without_error = refl

published_before_commit_example :
    ((x : Error) × ((seal_shard failing_world (codes "env1") 0 sample_db).error ≡ some x))
    × ((seal_shard failing_world (codes "env1") 0 sample_db).db ≡ sample_db)
    × Anchors sample_db
        (seal_shard failing_world (codes "env1") 0 sample_db).published
        (seal_shard (committing failing_world) (codes "env1") 0 sample_db).db
unfolding only_commit
published_before_commit_example =
    published_before_commit failing_world (codes "env1") 0 sample_db
      (other (codes "connection lost")) refl refl commits_without_error

abbrev other_pending : PendingEvent
other_pending = record sample_pending { id = codes "e2"; external_event_id = some (codes "x2") }

abbrev repeated_pending : PendingEvent
repeated_pending = record sample_pending { id = codes "e3"; external_event_id = some (codes "x2") }

-- x1 is in the journal, and x2 stands in the batch twice
one_left :
    dedupe_pending none
      (codes "env1")
      (sample_item.row ∷ [])
      (other_pending ∷ repeated_pending ∷ sample_pending ∷ [])
    ≡ ok (record { kept = other_pending ∷ []; dropped = codes "e3" ∷ codes "e1" ∷ [] })
unfolding dedupe_pending existing_in contains str_eq build_event_row
one_left = refl

dedupe_pending-IsDistinct_example :
    IsDistinct (batch_ids (other_pending ∷ []))
    × All
        (λ x. contains (batch_ids (other_pending ∷ [])) x ≡ false)
        (journal_ids (codes "env1") (sample_item.row ∷ []))
dedupe_pending-IsDistinct_example =
    dedupe_pending-IsDistinct (codes "env1") (sample_item.row ∷ [])
      (other_pending ∷ repeated_pending ∷ sample_pending ∷ [])
      (record { kept = other_pending ∷ []; dropped = codes "e3" ∷ codes "e1" ∷ [] }) one_left
