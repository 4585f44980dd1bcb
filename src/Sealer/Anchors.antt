-- ===== src/Sealer/Anchors.antt =====
-- What a run of `SealShard` (server/internal/sealer/sealer.go) has published when its commit fails.
use stonewrit.Db.{CheckpointRow, EventRow}
use stonewrit.Sealer.Invariant.{rows_of}
use stonewrit.Sealer.Writes.{write_batch-eq-ok}
use stonewrit.Sealer.{written, deleted, pending_ids}
use stonewrit.Prelude.{
  length, ◌∙◌, true, ◌++◌, map, append-nil, sym, ap, arith, ℕ, ◌≡◌, refl, inl, inr, Option,
  Option-cases, none, some, List, [], ◌∷◌, Text, codes,
}
use stonewrit.Prelude.Errors.{Error, Result-cases}
use stonewrit.Prelude.Int.{succ_int64}
use stonewrit.Core.Verify.{text_or_empty}
use stonewrit.Db.{Chain, PendingEvent, Db}
use stonewrit.Db.Queries.{ensure_shard_chain_from_env, lock_shard_chain, drain_pending_for_shard}
use stonewrit.Sealer.Dedupe.{Deduped, dedupe_pending}
use stonewrit.Sealer.Tables.{List-cases}
use stonewrit.Sealer.Atomic.{seal_shard_rolls_back}
use stonewrit.Sealer.{
  final_hash, final_position, World, Stmt, Item, Checkpoint, SealResult, write_batch, build_items,
  commit, commit_tx, publication, seal_kept, seal_deduped, seal_pending, seal_locked, seal_shard,
  open_tx, lookup_existing, delete_drained, drain_pending,
}

-- the same failures but that of the commit
abbrev pub but_commit : (Stmt → Option Error) → Stmt → Option Error
but_commit fails commit_tx = none
but_commit fails s = fails s

abbrev pub committing : World → World
committing w = record w { fails = but_commit w.fails }

-- the first run returns an error, and it published what the second did
abbrev Twin : SealResult → SealResult → Type 0
Twin r r' = ((x : Error) × (r.error ≡ some x)) × (r.published ≡ r'.published)

module _ (w : World) (e : Error) (failing : w.fails commit_tx ≡ some e) where
  commit-Twin :
      (what : Option Text) (before : Db) (published : List Checkpoint) (after : Db)
      → Twin
          (commit w what before published after)
          (commit (committing w) what before published after)
  unfolding commit
  commit-Twin what before published after = rw (failing, commit) ((_, refl), refl)

  seal_kept-Twin :
      (env : Text) (locked : Chain) (batch : List PendingEvent) (d : Deduped) (before db : Db)
      → Twin
          (seal_kept w env locked batch d before db)
          (seal_kept (committing w) env locked batch d before db)
  unfolding seal_kept publication
  seal_kept-Twin env locked batch d before db =
      elim (Result-cases (
        build_items locked 0 (text_or_empty locked.latest_event_hash)
          (succ_int64 locked.latest_position) d.kept)) [
            | inl (x, f) ↦ rw (f, seal_kept) ((x, refl), refl)
            | inr (items, f) ↦ elim (Result-cases (write_batch w env locked items db)) [
              | inl (x, g) ↦ rw (f, seal_kept, g) ((x, refl), refl)
              | inr (db', g) ↦ elim (Option-cases (w.fails delete_drained)) [
                | inr (x, h) ↦ rw (f, seal_kept, g, h) ((_, refl), refl)
                | inl h ↦
                    rw (f, seal_kept, g, h)
                      (commit-Twin (some (codes "commit")) before (publication w locked items) _)
              ]
            ]
          ]

  seal_deduped-Twin :
      (env : Text) (locked : Chain) (batch : List PendingEvent) (d : Deduped) (before db : Db)
      → Twin
          (seal_deduped w env locked batch d before db)
          (seal_deduped (committing w) env locked batch d before db)
  unfolding seal_deduped
  seal_deduped-Twin env locked batch d before db = elim (List-cases d.kept) [
    | inr (p, ps, f) ↦ rw (f, seal_deduped) (seal_kept-Twin env locked batch d before db)
    | inl f ↦ elim (Option-cases (w.fails delete_drained)) [
      | inr (x, h) ↦ rw (f, seal_deduped, h) ((_, refl), refl)
      | inl h ↦ rw (f, seal_deduped, h) (commit-Twin none before [] _)
    ]
  ]

  seal_pending-Twin :
      (env : Text) (locked : Chain) (batch : List PendingEvent) (before db : Db)
      → Twin
          (seal_pending w env locked batch before db)
          (seal_pending (committing w) env locked batch before db)
  unfolding seal_pending
  seal_pending-Twin env locked [] before db = commit-Twin none before [] db
  seal_pending-Twin env locked (p ∷ ps) before db =
      elim (Result-cases (dedupe_pending (w.fails lookup_existing) env db.events (p ∷ ps))) [
        | inl (x, f) ↦ rw (f, seal_pending) ((x, refl), refl)
        | inr (d, f) ↦ rw (f, seal_pending) (seal_deduped-Twin env locked (p ∷ ps) d before db)
      ]

  seal_locked-Twin :
      (env : Text) (shard : ℕ) (claimed : Option Chain) (before db : Db)
      → Twin
          (seal_locked w env shard claimed before db)
          (seal_locked (committing w) env shard claimed before db)
  unfolding seal_locked
  seal_locked-Twin env shard none before db = commit-Twin none before [] db
  seal_locked-Twin env shard (some locked) before db = elim (Option-cases (w.fails drain_pending)) [
    | inr (x, f) ↦ rw (f, seal_locked) ((_, refl), refl)
    | inl f ↦
        rw (f, seal_locked)
          (seal_pending-Twin env locked (drain_pending_for_shard env shard w.batch_size db) before
            db)
  ]

  seal_shard-Twin :
      (env : Text) (shard : ℕ) (before : Db)
      → Twin (seal_shard w env shard before) (seal_shard (committing w) env shard before)
  unfolding seal_shard
  seal_shard-Twin env shard before = elim (Result-cases (open_tx w)) [
    | inl (x, f) ↦ rw (f, seal_shard) ((x, refl), refl)
    | inr (u, f) ↦
        let db = ensure_shard_chain_from_env env shard w.new_chain_id before in
        rw (f, seal_shard)
          (seal_locked-Twin env shard (lock_shard_chain w.locked_elsewhere env shard db) before db)
  ]

-- what is published of a checkpoint's row
abbrev pub anchor_of : CheckpointRow → Checkpoint
anchor_of r = record { chain_id = r.chain_id; to_position = r.to_position; root_hash = r.root_hash }

-- the run published just the rows that it added to the table of checkpoints
abbrev pub Anchors : Db → List Checkpoint → Db → Type 0
Anchors before published after =
    (rows : List CheckpointRow) × (after.checkpoints ≡ before.checkpoints ++ rows)
    × (published ≡ map anchor_of rows)

abbrev Anchored : Db → SealResult → Type 0
Anchored before r = r.error ≡ none → Anchors before r.published r.db

commit-Anchored :
    (w : World) (what : Option Text) (before : Db) (published : List Checkpoint) (after : Db)
    → Anchors before published after
    → Anchored before (commit w what before published after)
unfolding commit
commit-Anchored w what before published after h = elim (Option-cases (w.fails commit_tx)) [
  | inl e ↦ rw (e, commit) (λ _. h)
  | inr (x, e) ↦ rw (e, commit) (λ z. cc z)
]

no_rows : (before after : Db) → after.checkpoints ≡ before.checkpoints → Anchors before [] after
no_rows before after same = ([], same ∙ sym (append-nil before.checkpoints), refl)

-- the row that a run adds to the table of checkpoints
abbrev checkpoint_row : Text → Chain → List Item → CheckpointRow
unfolding final_hash final_position
checkpoint_row env locked items = record {
  organization_id = locked.organization_id;
  project_id = locked.project_id;
  environment_id = env;
  chain_id = locked.id;
  from_position = succ_int64 locked.latest_position;
  to_position = final_position locked.latest_position items;
  root_hash = final_hash (text_or_empty locked.latest_event_hash) items;
  event_count = length items;
}

module _ (w : World) (anchored : w.has_anchorer ≡ true) where
  written-Anchors :
      (env : Text) (locked : Chain) (items : List Item) (events : List EventRow) (ids : List Text)
      (before db : Db)
      → db.checkpoints ≡ before.checkpoints
      → Anchors before
          (publication w locked items)
          (deleted ids (written env locked items events db))
  unfolding written publication
  written-Anchors env locked items events ids before db same =
      let rows = checkpoint_row env locked items ∷ [] in
      rw (anchored, publication) (rows, ap (λ old. old ++ rows) same, refl)

  seal_kept-Anchored :
      (env : Text) (locked : Chain) (batch : List PendingEvent) (d : Deduped) (before db : Db)
      → db.checkpoints ≡ before.checkpoints
      → Anchored before (seal_kept w env locked batch d before db)
  unfolding seal_kept
  seal_kept-Anchored env locked batch d before db same =
      elim (Result-cases (
        build_items locked 0 (text_or_empty locked.latest_event_hash)
          (succ_int64 locked.latest_position) d.kept)) [
            | inl (x, f) ↦ rw (f, seal_kept) (λ z. cc z)
            | inr (items, f) ↦ elim (Result-cases (write_batch w env locked items db)) [
              | inl (x, g) ↦ rw (f, seal_kept, g) (λ z. cc z)
              | inr (db', g) ↦ elim (Option-cases (w.fails delete_drained)) [
                | inr (x, h) ↦ rw (f, seal_kept, g, h) (λ z. cc z)
                | inl h ↦
                    rw (f, seal_kept, g, h, write_batch-eq-ok w env locked items db db' g)
                      (commit-Anchored w (some (codes "commit")) before (publication w locked items)
                        _
                        (written-Anchors env locked items (db.events ++ rows_of items)
                          (pending_ids batch ++ d.dropped) before db same))
              ]
            ]
          ]

  seal_pending-Anchored :
      (env : Text) (locked : Chain) (batch : List PendingEvent) (before db : Db)
      → db.checkpoints ≡ before.checkpoints
      → Anchored before (seal_pending w env locked batch before db)
  unfolding seal_pending seal_deduped
  seal_pending-Anchored env locked [] before db same =
      commit-Anchored w none before [] db (no_rows before db same)
  seal_pending-Anchored env locked (p ∷ ps) before db same =
      elim (Result-cases (dedupe_pending (w.fails lookup_existing) env db.events (p ∷ ps))) [
        | inl (x, f) ↦ rw (f, seal_pending) (λ z. cc z)
        | inr (d, f) ↦ elim (List-cases d.kept) [
          | inr (q, qs, g) ↦
              rw (f, seal_pending, g, seal_deduped)
                (seal_kept-Anchored env locked (p ∷ ps) d before db same)
          | inl g ↦ elim (Option-cases (w.fails delete_drained)) [
            | inr (x, h) ↦ rw (f, seal_pending, g, seal_deduped, h) (λ z. cc z)
            | inl h ↦
                rw (f, seal_pending, g, seal_deduped, h)
                  (commit-Anchored w none before [] _
                    (no_rows before (deleted (d.dropped ++ pending_ids (p ∷ ps)) db) same))
          ]
        ]
      ]

  seal_shard-Anchored :
      (env : Text) (shard : ℕ) (before : Db) → Anchored before (seal_shard w env shard before)
  unfolding seal_shard seal_locked ensure_shard_chain_from_env
  seal_shard-Anchored env shard before =
      let db = ensure_shard_chain_from_env env shard w.new_chain_id before in
      let same : db.checkpoints ≡ before.checkpoints = ground arith in
      elim (Result-cases (open_tx w)) [
        | inl (x, f) ↦ rw (f, seal_shard) (λ z. cc z)
        | inr (u, f) ↦ elim (Option-cases (lock_shard_chain w.locked_elsewhere env shard db)) [
          | inl g ↦
              rw (f, seal_shard, g, seal_locked)
                (commit-Anchored w none before [] db (no_rows before db same))
          | inr (locked, g) ↦ elim (Option-cases (w.fails drain_pending)) [
            | inr (x, h) ↦ rw (f, seal_shard, g, seal_locked, h) (λ z. cc z)
            | inl h ↦
                rw (f, seal_shard, g, seal_locked, h)
                  (seal_pending-Anchored env locked
                    (drain_pending_for_shard env shard w.batch_size db) before db same)
          ]
        ]
      ]

-- Take a sealer with an anchorer, and a world in which the commit of a run fails although the run would
-- end without an error if the commit succeeded. The run returns an error and leaves the database as it
-- was, but it has published just the checkpoints whose rows it would have added to the table.
pub published_before_commit :
    (w : World) (env : Text) (shard : ℕ) (before : Db) (e : Error)
    → w.has_anchorer ≡ true
    → w.fails commit_tx ≡ some e
    → (seal_shard (committing w) env shard before).error ≡ none
    → ((x : Error) × ((seal_shard w env shard before).error ≡ some x))
      × ((seal_shard w env shard before).db ≡ before)
      × Anchors before
          (seal_shard w env shard before).published
          (seal_shard (committing w) env shard before).db
published_before_commit w env shard before e anchored failing fine =
    let ((x, error), same) = seal_shard-Twin w e failing env shard before in
    let (rows, added, published) =
      seal_shard-Anchored (committing w) anchored env shard before fine in
    ((x, error), seal_shard_rolls_back w env shard before x error, (rows, added, same ∙ published))
