-- ===== src/Sealer/Effect.antt =====
-- The databases that a run of `SealShard` can leave, whichever statements fail.
use stonewrit.Prelude.{
  ℕ, ◌≡◌, refl, ◌⊎◌, inl, inr, Option, Option-cases, none, some, List, [], ◌∷◌, ◌++◌, Text, codes,
}
use stonewrit.Prelude.Errors.{ok, Result-cases}
use stonewrit.Prelude.Int.{succ_int64}
use stonewrit.Core.Verify.{text_or_empty}
use stonewrit.Db.{Chain, PendingEvent, Db}
use stonewrit.Db.Queries.{ensure_shard_chain_from_env, lock_shard_chain, drain_pending_for_shard}
use stonewrit.Sealer.Dedupe.{Deduped, dedupe_pending}
use stonewrit.Sealer.Invariant.{rows_of}
use stonewrit.Sealer.Tables.{List-cases}
use stonewrit.Sealer.Writes.{write_batch-eq-ok}
use stonewrit.Sealer.{
  Item, World, Checkpoint, build_items, written, write_batch, seal_kept, seal_deduped, deleted,
  pending_ids, publication, drain_pending, lookup_existing, delete_drained, seal_pending,
  seal_locked, seal_shard, open_tx, commit, commit_tx, stmt,
}

-- What a transaction on a claimed chain leaves, from the database `db` at its first SELECT: the one
-- before it, `db` itself, one without a batch of duplicates, or one with the batch sealed.
pub data Effect (w : World) (env : Text) (locked : Chain) (batch : List PendingEvent)
    (before db after : Db) : Type 0 where
  untouched : after ≡ before → Effect w env locked batch before db after
  only_ensured : after ≡ db → Effect w env locked batch before db after
  all_dropped :
      (d : Deduped)
      → dedupe_pending (w.fails lookup_existing) env db.events batch ≡ ok d
      → d.kept ≡ []
      → after ≡ deleted (d.dropped ++ pending_ids batch) db
      → Effect w env locked batch before db after
  batch_sealed :
      (d : Deduped) (p : PendingEvent) (ps : List PendingEvent) (items : List Item)
      → dedupe_pending (w.fails lookup_existing) env db.events batch ≡ ok d
      → d.kept ≡ p ∷ ps
      → build_items locked 0
          (text_or_empty locked.latest_event_hash)
          (succ_int64 locked.latest_position)
          d.kept
        ≡ ok items
      → after
        ≡ deleted
            (pending_ids batch ++ d.dropped)
            (written env locked items (db.events ++ rows_of items) db)
      → Effect w env locked batch before db after

committed :
    (w : World) (what : Option Text) (before : Db) (published : List Checkpoint) (after : Db)
    → ((commit w what before published after).db ≡ before)
      ⊎ ((commit w what before published after).db ≡ after)
unfolding commit
committed w what before published after = elim (Option-cases (w.fails commit_tx)) [
  | inl e ↦ inr (rw (e, commit) refl)
  | inr (x, e) ↦ inl (rw (e, commit) refl)
]

seal_kept-Effect :
    (w : World) (env : Text) (locked : Chain) (batch : List PendingEvent) (d : Deduped)
    (p : PendingEvent) (ps : List PendingEvent) (before db : Db)
    → dedupe_pending (w.fails lookup_existing) env db.events batch ≡ ok d
    → d.kept ≡ p ∷ ps
    → Effect w env locked batch before db (seal_kept w env locked batch d before db).db
unfolding seal_kept
seal_kept-Effect w env locked batch d p ps before db deduped kept =
    elim (Result-cases (
      build_items locked 0 (text_or_empty locked.latest_event_hash)
        (succ_int64 locked.latest_position) d.kept)) [
          | inl (x, e) ↦ untouched (rw (e, seal_kept) refl)
          | inr (items, e) ↦ elim (Result-cases (write_batch w env locked items db)) [
            | inl (x, e') ↦ untouched (rw (e, seal_kept, e') refl)
            | inr (db', e') ↦ elim (Option-cases (w.fails delete_drained)) [
              | inr (x, e'') ↦ untouched (rw (e, seal_kept, e', e'') refl)
              | inl e'' ↦
                  rw (e, seal_kept, e', e'', write_batch-eq-ok w env locked items db db' e')
                    (elim (committed w (some (codes "commit")) before (publication w locked items)
                      _) [
                        | inl same ↦ untouched same
                        | inr done ↦ batch_sealed d p ps items deduped kept e done
                      ])
            ]
          ]
        ]

seal_deduped-Effect :
    (w : World) (env : Text) (locked : Chain) (batch : List PendingEvent) (d : Deduped)
    (before db : Db)
    → dedupe_pending (w.fails lookup_existing) env db.events batch ≡ ok d
    → Effect w env locked batch before db (seal_deduped w env locked batch d before db).db
unfolding seal_deduped
seal_deduped-Effect w env locked batch d before db deduped = elim (List-cases d.kept) [
  | inl nothing ↦
      elim (Result-cases (stmt w delete_drained (codes "delete drained pending (all dupes)"))) [
        | inl (x, e) ↦ untouched (simp (nothing, e, seal_deduped) refl)
        | inr (_, e) ↦
            simp (nothing, e, seal_deduped)
              (elim (committed w none before [] (deleted (d.dropped ++ pending_ids batch) db)) [
                | inl same ↦ untouched same
                | inr done ↦ all_dropped d deduped nothing done
              ])
      ]
  | inr (p, ps, e) ↦
      simp (e, seal_deduped) (seal_kept-Effect w env locked batch d p ps before db deduped e)
]

seal_pending-Effect :
    (w : World) (env : Text) (locked : Chain) (batch : List PendingEvent) (before db : Db)
    → Effect w env locked batch before db (seal_pending w env locked batch before db).db
unfolding seal_pending
seal_pending-Effect w env locked [] before db = elim (committed w none before [] db) [
  | inl same ↦ untouched same
  | inr done ↦ only_ensured done
]
seal_pending-Effect w env locked (p ∷ ps) before db =
    elim (Result-cases (dedupe_pending (w.fails lookup_existing) env db.events (p ∷ ps))) [
      | inl (x, e) ↦ untouched (rw (e, seal_pending) refl)
      | inr (d, e) ↦ rw (e, seal_pending) (seal_deduped-Effect w env locked (p ∷ ps) d before db e)
    ]

-- the database after EnsureShardChainFromEnv, and the rows that are drained from it
abbrev pub ensured : World → Text → ℕ → Db → Db
ensured w env shard before = ensure_shard_chain_from_env env shard w.new_chain_id before

abbrev pub drained : World → Text → ℕ → Db → List PendingEvent
drained w env shard before =
    drain_pending_for_shard env shard w.batch_size (ensured w env shard before)

-- the effect of a run: on the chain that it claimed, or on none
pub seal_shard-Effect :
    (w : World) (env : Text) (shard : ℕ) (before : Db)
    → ((seal_shard w env shard before).db ≡ before)
      ⊎ (((seal_shard w env shard before).db ≡ ensured w env shard before)
          ⊎ ((locked : Chain) × (lock_shard_chain w.locked_elsewhere env shard
                  (ensured w env shard before)
                ≡ some locked)
              × Effect w env locked
                  (drained w env shard before)
                  before
                  (ensured w env shard before)
                  (seal_shard w env shard before).db))
unfolding seal_shard seal_locked
seal_shard-Effect w env shard before = elim (Result-cases (open_tx w)) [
  | inl (x, e) ↦ inl (rw (e, seal_shard) refl)
  | inr (_, e) ↦
      elim (Option-cases
        (lock_shard_chain w.locked_elsewhere env shard (ensured w env shard before))) [
          | inl busy ↦
              rw (e, seal_shard, busy, seal_locked)
                (elim (committed w none before [] (ensured w env shard before)) [
                  | inl same ↦ inl same
                  | inr done ↦ inr (inl done)
                ])
          | inr (locked, claimed) ↦ elim (Option-cases (w.fails drain_pending)) [
            | inr (x, f) ↦ inl (rw (e, seal_shard, claimed, seal_locked, f) refl)
            | inl f ↦
                rw (e, seal_shard, claimed, seal_locked, f)
                  (inr (
                    inr (
                      locked,
                      refl,
                      seal_pending-Effect w env locked (drained w env shard before) before
                          (ensured w env shard before),
                    )))
          ]
        ]
]
