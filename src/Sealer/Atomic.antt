-- ===== src/Sealer/Atomic.antt =====
-- Failed runs of the sealer: what they leave in the database, and what they have published.
use stonewrit.Prelude.{
  ℕ, ◌≡◌, refl, List, [], ◌∷◌, ◌++◌, Option, none, some, Option-cases, Text, codes, inl, inr,
}
use stonewrit.Prelude.Errors.{Error, Result-cases}
use stonewrit.Prelude.Int.{succ_int64}
use stonewrit.Core.Verify.{text_or_empty}
use stonewrit.Db.{Chain, PendingEvent, Db}
use stonewrit.Db.Queries.{ensure_shard_chain_from_env, lock_shard_chain, drain_pending_for_shard}
use stonewrit.Sealer.Dedupe.{Deduped, dedupe_pending}
use stonewrit.Sealer.{
  World, SealResult, Checkpoint, stmt, commit, deleted, pending_ids, publication, build_items,
  write_batch, seal_kept, seal_deduped, seal_pending, seal_locked, open_tx, seal_shard,
  delete_drained, drain_pending, lookup_existing, commit_tx,
}

-- a result that committed, or that left the database alone
data Atomic (before : Db) (r : SealResult) : Type 0 where
  committed : r.error ≡ none → Atomic before r
  untouched : r.db ≡ before → Atomic before r

commit-Atomic :
    (w : World) (what : Option Text) (before : Db) (published : List Checkpoint) (after : Db)
    → Atomic before (commit w what before published after)
unfolding commit
commit-Atomic w what before published after = elim (Option-cases (w.fails commit_tx)) [
  | inl e ↦ committed (rw (e, commit) refl)
  | inr (x, e) ↦ untouched (rw (e, commit) refl)
]

seal_kept-Atomic :
    (w : World) (env : Text) (locked : Chain) (pending : List PendingEvent) (d : Deduped)
    (before db : Db)
    → Atomic before (seal_kept w env locked pending d before db)
unfolding seal_kept
seal_kept-Atomic w env locked pending d before db =
    elim (Result-cases (
      build_items locked 0 (text_or_empty locked.latest_event_hash)
        (succ_int64 locked.latest_position) d.kept)) [
          | inl (x, e) ↦ untouched (rw (e, seal_kept) refl)
          | inr (items, e) ↦ elim (Result-cases (write_batch w env locked items db)) [
            | inl (x, e') ↦ untouched (rw (e, e', seal_kept) refl)
            | inr (db', e') ↦ elim (Option-cases (w.fails delete_drained)) [
              | inr (x, e'') ↦ untouched (rw (e, e', e'', seal_kept) refl)
              | inl e'' ↦
                  rw (e, e', e'', seal_kept)
                    (commit-Atomic w (some (codes "commit")) before (publication w locked items)
                      (deleted (pending_ids pending ++ d.dropped) db'))
            ]
          ]
        ]

seal_deduped-Atomic :
    (w : World) (env : Text) (locked : Chain) (pending : List PendingEvent) (d : Deduped)
    (before db : Db)
    → Atomic before (seal_deduped w env locked pending d before db)
unfolding seal_deduped
seal_deduped-Atomic w env locked pending d before db = go d.kept refl
  where
    go :
        (kept : List PendingEvent)
        → d.kept ≡ kept
        → Atomic before (seal_deduped w env locked pending d before db)
    go [] h =
        elim (Result-cases (stmt w delete_drained (codes "delete drained pending (all dupes)"))) [
          | inr (u, e) ↦
              simp (h, e, seal_deduped)
                (commit-Atomic w none before [] (deleted (d.dropped ++ pending_ids pending) db))
          | inl (x, e) ↦ untouched (simp (h, e, seal_deduped) refl)
        ]
    go (p ∷ ps) h = simp (h, seal_deduped) (seal_kept-Atomic w env locked pending d before db)

seal_pending-Atomic :
    (w : World) (env : Text) (locked : Chain) (pending : List PendingEvent) (before db : Db)
    → Atomic before (seal_pending w env locked pending before db)
unfolding seal_pending
seal_pending-Atomic w env locked [] before db = commit-Atomic w none before [] db
seal_pending-Atomic w env locked (p ∷ ps) before db =
    elim (Result-cases (dedupe_pending (w.fails lookup_existing) env db.events (p ∷ ps))) [
      | inl (x, e) ↦ untouched (rw (e, seal_pending) refl)
      | inr (d, e) ↦ rw (e, seal_pending) (seal_deduped-Atomic w env locked (p ∷ ps) d before db)
    ]

seal_locked-Atomic :
    (w : World) (env : Text) (shard : ℕ) (found : Option Chain) (before db : Db)
    → Atomic before (seal_locked w env shard found before db)
unfolding seal_locked
seal_locked-Atomic w env shard none before db = commit-Atomic w none before [] db
seal_locked-Atomic w env shard (some locked) before db =
    elim (Option-cases (w.fails drain_pending)) [
      | inl e ↦
          rw (e, seal_locked)
            (seal_pending-Atomic w env locked (drain_pending_for_shard env shard w.batch_size db)
              before db)
      | inr (x, e) ↦ untouched (rw (e, seal_locked) refl)
    ]

seal_shard-Atomic :
    (w : World) (env : Text) (shard : ℕ) (before : Db)
    → Atomic before (seal_shard w env shard before)
unfolding seal_shard
seal_shard-Atomic w env shard before = elim (Result-cases (open_tx w)) [
  | inl (x, e) ↦ untouched (rw (e, seal_shard) refl)
  | inr (u, e) ↦
      rw (e, seal_shard)
        (seal_locked-Atomic w env shard
          (lock_shard_chain w.locked_elsewhere env shard
            (ensure_shard_chain_from_env env shard w.new_chain_id before))
          before (ensure_shard_chain_from_env env shard w.new_chain_id before))
]

-- A run of the sealer that returns an error, at whatever statement, leaves the database as it was.
pub seal_shard_rolls_back :
    (w : World) (env : Text) (shard : ℕ) (before : Db) (e : Error)
    → (seal_shard w env shard before).error ≡ some e
    → (seal_shard w env shard before).db ≡ before
seal_shard_rolls_back w env shard before e h = elim (seal_shard-Atomic w env shard before) [
  | committed none' ↦ absurd (cc (h, none'))
  | untouched same ↦ same
]
