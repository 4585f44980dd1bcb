-- ===== src/Sealer.antt =====
-- server/internal/sealer/sealer.go: `SealShard` drains the pending events of a shard into its chain.
-- A run takes a `World`: which statements fail, whether another transaction holds the chain row, the
-- uuid that a new chain would get, and the sealer's own settings.
pub mod Row
pub mod Dedupe
pub mod Duplicates
pub mod Invariant
pub mod Batches
pub mod Ensure
pub mod Tables
pub mod Writes
pub mod Effect
pub mod Keeps
pub mod Atomic
pub mod Anchors
pub mod Fates
pub mod Conserved
pub mod Total
pub mod Copies
pub mod Calm
pub mod Progress
pub mod Shards
pub mod Tick
pub mod Separate
pub mod Turns
use stonewrit.Prelude.{
  ℕ, ◌+◌, List, [], ◌∷◌, ◌++◌, map, length, Bool, true, false, Option, none, some, Text, codes,
  if◌then◌else◌,
}
use stonewrit.Prelude.Errors.{Error, other, Result, ok, err, wrap, wrapping, ◌>>=◌, ◌>>◌}
use stonewrit.Prelude.Int.{ℤ, succ_int64}
use stonewrit.Prelude.Sort.{distinct}
use stonewrit.Crypto.Encoding.{format_nat}
use stonewrit.Classify.{Classification, risk_text}
use stonewrit.Classify.MapControls.{Mapping}
use stonewrit.Core.Hash.{event_hash}
use stonewrit.Core.Verify.{text_or_empty}
use stonewrit.Db.{
  Chain, PendingEvent, EventDataEnvelope, EventRow, ClassificationRow, MappingRow, CheckpointRow,
  Db,
}
use stonewrit.Db.Queries.{
  ensure_shard_chain_from_env, lock_shard_chain, drain_pending_for_shard, copy_events,
  update_shard_tip, delete_pending_by_ids,
}
use stonewrit.Sealer.Row.{build_event_row, str_ptr}
use stonewrit.Sealer.Dedupe.{dedupe_pending, Deduped}

-- the statements of the transaction, in their order
pub data Stmt : Type 0 where
  begin_tx ensure_chain lock_chain drain_pending lookup_existing copy_rows : Stmt
  copy_classifications copy_mappings update_tip insert_checkpoint delete_drained commit_tx : Stmt

pub record World : Type 0 where
  pub fails : Stmt → Option Error
  pub locked_elsewhere : Bool
  pub new_chain_id : Text
  pub batch_size : ℕ
  pub has_anchorer : Bool

-- what is handed to `Anchorer.PublishCheckpoint`
pub record Checkpoint : Type 0 where
  pub chain_id : Text
  pub to_position : ℤ
  pub root_hash : Text

-- the error that `SealShard` returns, the database after it, and what it has published
pub record SealResult : Type 0 where
  pub error : Option Error
  pub db : Db
  pub published : List Checkpoint

-- `if err := stmt; err != nil { return fmt.Errorf("what: %w", err) }`
abbrev pub stmt : World → Stmt → Text → Result (Unit {0})
stmt w s what = elim (w.fails s) [ none ↦ ok tt | some e ↦ err (wrap what e) ]

-- `json.Unmarshal` of a stored column, at index `i` of the batch
decoded {ℓ} : {A : Type ℓ} → Text → ℕ → Option A → Result A
decoded what i none =
    err (wrap (what ++ (codes "[" ++ (format_nat i ++ codes "]"))) (other (codes "unmarshal")))
decoded what i (some a) = ok a

-- one kept row with what its columns decode to
pub record Item : Type 0 where
  pub pending : PendingEvent
  pub classification : Classification
  pub mappings : List Mapping
  pub row : EventRow

-- the loop over the kept rows
unfoldable pub build_items : Chain → ℕ → Text → ℤ → List PendingEvent → Result (List Item)
unfolding decoded
build_items locked i prev position [] = ok []
build_items locked i prev position (p ∷ kept) =
    let hash = event_hash prev p.payload_hash position in
    let later = build_items locked (i + 1) hash (succ_int64 position) kept in
    do
      env ← decoded (codes "decode pending event_data") i p.event_data
      cl ← decoded (codes "decode classification") i p.classification
      ms ← decoded (codes "decode control_mappings") i p.control_mappings
      rest ← later
      ok (
          record {
            pending = p;
            classification = cl;
            mappings = ms;
            row = build_event_row p env locked.id locked.project_id position prev hash cl;
          }
          ∷ rest)

-- `prevHash` and `position - 1` after the loop
unfoldable pub final_hash : Text → List Item → Text
final_hash prev [] = prev
final_hash prev (i ∷ is) = final_hash i.row.event_hash is

unfoldable pub final_position : ℤ → List Item → ℤ
final_position before [] = before
final_position before (i ∷ is) = final_position i.row.chain_position is

class_row : Item → ClassificationRow
class_row i = record {
  organization_id = i.pending.organization_id;
  event_id = i.pending.id;
  data_classes = i.classification.data_classes;
  risk_level = str_ptr (risk_text i.classification.risk_level);
  confidence = codes "1.0";
  method = codes "rules";
}

mapping_rows : PendingEvent → List Mapping → List MappingRow
mapping_rows p [] = []
mapping_rows p (m ∷ ms) =
    record {
      organization_id = p.organization_id;
      event_id = p.id;
      framework = m.framework;
      control_id = m.control_id;
      mapping_reason = str_ptr m.reason;
      confidence = codes "0.8";
      mapped_by = codes "rules";
      status = codes "auto";
    }
    ∷ mapping_rows p ms

all_mapping_rows : List Item → List MappingRow
unfolding mapping_rows
all_mapping_rows [] = []
all_mapping_rows (i ∷ is) = mapping_rows i.pending i.mappings ++ all_mapping_rows is

-- a bulk COPY that is skipped when there is nothing to copy
copy_unless_empty {ℓ} : {A : Type ℓ} → World → Stmt → Text → List A → Result (Unit {0})
copy_unless_empty w s what [] = ok tt
copy_unless_empty w s what (x ∷ xs) = stmt w s what

-- the tables after the writes of a batch
unfoldable pub written : Text → Chain → List Item → List EventRow → Db → Db
unfolding class_row all_mapping_rows final_hash final_position
written env locked items events db =
    let root = final_hash (text_or_empty locked.latest_event_hash) items in
    let to_position = final_position locked.latest_position items in
    record db {
      events = events;
      classifications = db.classifications ++ map class_row items;
      mappings = db.mappings ++ all_mapping_rows items;
      chains = update_shard_tip locked.id to_position root db.chains;
      checkpoints =
          db.checkpoints
          ++ record {
            organization_id = locked.organization_id;
            project_id = locked.project_id;
            environment_id = env;
            chain_id = locked.id;
            from_position = succ_int64 locked.latest_position;
            to_position = to_position;
            root_hash = root;
            event_count = length items;
          }
            ∷ [];
    }

-- the statements from the first COPY to the checkpoint
unfoldable pub write_batch : World → Text → Chain → List Item → Db → Result Db
unfolding copy_unless_empty written
write_batch w env locked items db = do
  stmt w copy_rows (codes "copy events")
  events ← wrapping (codes "copy events") (copy_events db.events (map (λ i. i.row) items))
  copy_unless_empty w copy_classifications (codes "copy classifications") (map class_row items)
  copy_unless_empty w copy_mappings (codes "copy control mappings") (all_mapping_rows items)
  stmt w update_tip (codes "update chain tip")
  stmt w insert_checkpoint (codes "insert checkpoint")
  ok (written env locked items events db)

-- `defer tx.Rollback(ctx)`: an error leaves the database as it was
abbrev pub rolled_back : Db → List Checkpoint → Error → SealResult
rolled_back db published e = record { error = some e; db = db; published = published }

-- tx.Commit, with the database at the start of the transaction and the one to commit
pub commit : World → Option Text → Db → List Checkpoint → Db → SealResult
commit w what before published after = elim (w.fails commit_tx) [
  | none ↦ record { error = none; db = after; published = published }
  | some e ↦ rolled_back before published (elim what [ none ↦ e | some m ↦ wrap m e ])
]

abbrev pub deleted : List Text → Db → Db
deleted ids db = record db { pending = delete_pending_by_ids (distinct ids) db.pending }

unfoldable pub pending_ids : List PendingEvent → List Text
pending_ids = map (λ p. p.id)

publication : World → Chain → List Item → List Checkpoint
unfolding final_hash final_position
publication w locked items =
    if w.has_anchorer
    then record {
      chain_id = locked.id;
      to_position = final_position locked.latest_position items;
      root_hash = final_hash (text_or_empty locked.latest_event_hash) items;
    }
      ∷ []
    else []

-- everything from the loop over the kept rows on; `before` is the database before the transaction
unfoldable pub seal_kept : World → Text → Chain → List PendingEvent → Deduped → Db → Db → SealResult
unfolding build_items write_batch commit pending_ids publication
seal_kept w env locked pending d before db =
    elim (build_items locked 0 (text_or_empty locked.latest_event_hash)
      (succ_int64 locked.latest_position) d.kept) [
        | err e ↦ rolled_back before [] e
        | ok items ↦ elim (write_batch w env locked items db) [
          | err e ↦ rolled_back before [] e
          | ok db' ↦
              let published = publication w locked items in
              elim (stmt w delete_drained (codes "delete drained pending")) [
                | err e ↦ rolled_back before published e
                | ok _ ↦
                    commit w (some (codes "commit")) before published
                      (deleted (pending_ids pending ++ d.dropped) db')
              ]
        ]
      ]

-- the batch after it was drained: everything a duplicate, or something to seal
unfoldable pub seal_deduped :
    World → Text → Chain → List PendingEvent → Deduped → Db → Db → SealResult
unfolding seal_kept
seal_deduped w env locked pending d before db = elim d.kept [
  | [] ↦ elim (stmt w delete_drained (codes "delete drained pending (all dupes)")) [
    | err e ↦ rolled_back before [] e
    | ok _ ↦ commit w none before [] (deleted (d.dropped ++ pending_ids pending) db)
  ]
  | p ∷ ps ↦ seal_kept w env locked pending d before db
]

unfoldable pub seal_pending : World → Text → Chain → List PendingEvent → Db → Db → SealResult
unfolding seal_deduped dedupe_pending
seal_pending w env locked [] before db = commit w none before [] db
seal_pending w env locked (p ∷ ps) before db =
    elim (dedupe_pending (w.fails lookup_existing) env db.events (p ∷ ps)) [
      | err e ↦ rolled_back before [] e
      | ok d ↦ seal_deduped w env locked (p ∷ ps) d before db
    ]

-- the claimed chain, if there is one
seal_locked : World → Text → ℕ → Option Chain → Db → Db → SealResult
unfolding seal_pending
seal_locked w env shard none before db = commit w none before [] db
seal_locked w env shard (some locked) before db =
    elim (stmt w drain_pending (codes "drain pending")) [
      | err e ↦ rolled_back before [] e
      | ok _ ↦
          seal_pending w env locked (drain_pending_for_shard env shard w.batch_size db) before db
    ]

-- the first three statements
pub open_tx : World → Result (Unit {0})
open_tx w = do
  stmt w begin_tx (codes "begin tx")
  stmt w ensure_chain (codes "ensure chain")
  stmt w lock_chain (codes "lock chain")

unfoldable pub seal_shard : World → Text → ℕ → Db → SealResult
unfolding seal_locked open_tx
seal_shard w env shard before = elim (open_tx w) [
  | err e ↦ rolled_back before [] e
  | ok _ ↦
      let db = ensure_shard_chain_from_env env shard w.new_chain_id before in
      seal_locked w env shard (lock_shard_chain w.locked_elsewhere env shard db) before db
]
