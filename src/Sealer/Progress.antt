-- ===== src/Sealer/Progress.antt =====
-- What a run of `SealShard` (server/internal/sealer/sealer.go) does when no statement fails.
use stonewrit.Prelude.{
  ℕ, ◌≡◌, ◌≢◌, subst, inl, inr, none, some, List, [], ◌∷◌, ◌++◌, map, Text, Elem, codes,
  Elem-append_left, Elem-append_right,
}
use stonewrit.Prelude.Errors.{ok}
use stonewrit.Prelude.Int.{succ_int64}
use stonewrit.Core.Verify.{text_or_empty}
use stonewrit.Db.{Chain, PendingEvent, EventRow, Db}
use stonewrit.Db.Queries.{lock_shard_chain}
use stonewrit.Sealer.Dedupe.{dedupe_loop, dedupe_pending}
use stonewrit.Sealer.Duplicates.{IsDistinct, dedupe_pending-fresh, kept-IsDistinct}
use stonewrit.Sealer.Invariant.{rows_of}
use stonewrit.Sealer.Tables.{List-cases}
use stonewrit.Sealer.Fates.{kept-Elem}
use stonewrit.Sealer.Total.{
  Buildable, build_items-total, Decodes, SameExternalId, Decodes-Buildable,
}
use stonewrit.Sealer.Copies.{built-Apart, built-fresh, Elem-ids}
use stonewrit.Sealer.Effect.{ensured, drained}
use stonewrit.Sealer.Conserved.{same-ensure, drain-Elem}
use stonewrit.Sealer.{
  World, written, pending_ids, seal_kept, seal_deduped, seal_pending, seal_locked, seal_shard,
  drain_pending, delete_drained, lookup_existing, publication,
}
use stonewrit.Sealer.Calm.{
  Undisturbed, ids_of, kept_ids-IsDistinct, dedupe_pending-total, write_batch-total, Done,
  commit-Done, opened,
}

-- what the rows of a batch are before they are sealed
abbrev pub Sealable : Text → List EventRow → List PendingEvent → Type 0
Sealable env events batch =
    IsDistinct (ids_of batch)
    × ((p : PendingEvent) → Elem p batch → Buildable p × (p.environment_id ≡ env))
    × ((p : PendingEvent) (e : EventRow) → Elem p batch → Elem e events → p.id ≢ e.id)

module _ (w : World) (env : Text) (locked : Chain) (calm : Undisturbed w) where
  seal_kept-Done :
      (batch : List PendingEvent) (already : List Text) (before db : Db) (q : PendingEvent)
      → Sealable env db.events batch
      → dedupe_pending (w.fails lookup_existing) env db.events batch
        ≡ ok (dedupe_loop already [] batch)
      → Elem q batch
      → Done q (seal_kept w env locked batch (dedupe_loop already [] batch) before db)
  unfolding seal_kept
  seal_kept-Done batch already before db q (ids, good, new) deduped m =
      let d = dedupe_loop already [] batch in
      let (items, built, keyed) =
        build_items-total locked 0 (text_or_empty locked.latest_event_hash)
          (succ_int64 locked.latest_position) d.kept
          (λ p k. (good p (kept-Elem already [] batch p k)).0) in
      let fresh =
        built-fresh env (rows_of items) d.kept db.events keyed
          (λ p k. good p (kept-Elem already [] batch p k))
          (λ p e k. new p e (kept-Elem already [] batch p k))
          (λ e u k same ext.
            (dedupe_pending-fresh env db.events batch d e u
              (subst (λ f. dedupe_pending f env db.events batch ≡ ok d) (calm lookup_existing)
                deduped)
              k same ext)) in
      let apart =
        built-Apart (rows_of items) d.kept keyed
          (λ p k. (good p (kept-Elem already [] batch p k)).0)
          (kept_ids-IsDistinct already [] batch ids) (kept-IsDistinct already [] batch) in
      rw
        (
          built,
          seal_kept,
          write_batch-total w env locked items db calm fresh apart,
          calm delete_drained,
        )
        (commit-Done w (some (codes "commit")) before (publication w locked items)
          (pending_ids batch ++ d.dropped)
          (written env locked items (db.events ++ rows_of items) db) q calm
          (Elem-append_left q.id (pending_ids batch) d.dropped (Elem-ids q batch m)))

  seal_deduped-Done :
      (batch : List PendingEvent) (already : List Text) (before db : Db) (q : PendingEvent)
      → Sealable env db.events batch
      → dedupe_pending (w.fails lookup_existing) env db.events batch
        ≡ ok (dedupe_loop already [] batch)
      → Elem q batch
      → Done q (seal_deduped w env locked batch (dedupe_loop already [] batch) before db)
  unfolding seal_deduped
  seal_deduped-Done batch already before db q good deduped m =
      let d = dedupe_loop already [] batch in
      elim (List-cases d.kept) [
        | inr (p, ps, e) ↦
            rw (e, seal_deduped) (seal_kept-Done batch already before db q good deduped m)
        | inl nothing ↦
            rw (nothing, seal_deduped, calm delete_drained)
              (commit-Done w none before [] (d.dropped ++ pending_ids batch) db q calm
                (Elem-append_right q.id d.dropped (pending_ids batch) (Elem-ids q batch m)))
      ]

  seal_pending-Done :
      (batch : List PendingEvent) (before db : Db) (q : PendingEvent)
      → Sealable env db.events batch
      → Elem q batch
      → Done q (seal_pending w env locked batch before db)
  unfolding seal_pending
  seal_pending-Done [] before db q good m = elim m [ ]
  seal_pending-Done (p ∷ ps) before db q good m =
      let (already, e) =
        dedupe_pending-total (w.fails lookup_existing) env db.events (p ∷ ps)
          (calm lookup_existing) in
      rw (e, seal_pending) (seal_deduped-Done (p ∷ ps) already before db q good e m)

-- Suppose that no statement of a run fails and the run claims a chain, that the JSON columns of the
-- drained rows decode, that the external id column of each drained row is the external id in its event
-- data (null for an empty one), that the ids of the drained rows are distinct, and that no event has one
-- of them. Then the run returns no error, and none of the drained rows is pending afterwards.
pub seal_shard_progress :
    (w : World) (env : Text) (shard : ℕ) (before : Db) (locked : Chain) (q : PendingEvent)
    → Undisturbed w
    → lock_shard_chain w.locked_elsewhere env shard (ensured w env shard before) ≡ some locked
    → IsDistinct (map (λ (p : PendingEvent). p.id) (drained w env shard before))
    → ((p : PendingEvent) → Elem p (drained w env shard before) → Decodes p)
    → ((p : PendingEvent)
        → Elem p (drained w env shard before)
        → SameExternalId p.event_data p.external_event_id)
    → ((p : PendingEvent) (e : EventRow)
        → Elem p (drained w env shard before)
        → Elem e before.events
        → p.id ≢ e.id)
    → Elem q (drained w env shard before)
    → ((seal_shard w env shard before).error ≡ none)
      × (Elem q (seal_shard w env shard before).db.pending → ⊥)
unfolding seal_shard seal_locked
seal_shard_progress w env shard before locked q calm claimed distinct_ids decode stored new m =
    let here = ensured w env shard before in
    let (same, _) = same-ensure env shard w.new_chain_id before in
    let good : Sealable env here.events (drained w env shard before) = (
      distinct_ids,
      λ p k. (
        Decodes-Buildable p (decode p k) (stored p k),
        (drain-Elem env shard w.batch_size here p k).1,
      ),
      λ p e k j. new p e k (subst (λ es. Elem e es) same j),
    ) in
    rw (opened w calm, seal_shard, claimed, seal_locked, calm drain_pending)
      (seal_pending-Done w env locked calm (drained w env shard before) before here q good m)
