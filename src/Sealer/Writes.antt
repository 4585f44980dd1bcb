-- ===== src/Sealer/Writes.antt =====
-- What a run of the sealer writes when it gets that far.
use stonewrit.Prelude.{
  ◌≤◌, ◌≡◌, inl, inr, Option, Option-cases, List, [], ◌∷◌, ◌++◌, map, length, Text, codes, arith,
}
use stonewrit.Prelude.Errors.{Error, Result, ok, err, wrapping, >>=-eq-ok, Result-cases}
use stonewrit.Db.{Chain, PendingEvent, EventRow, Db}
use stonewrit.Db.Queries.{copy_events}
use stonewrit.Sealer.Dedupe.{
  Deduped, dedupe_pending, dedupe_loop, existing_ids, candidates, external_id,
}
use stonewrit.Sealer.{
  Item, World, stmt, copy_rows, written, write_batch, copy_unless_empty, copy_classifications,
  copy_mappings, update_tip, insert_checkpoint, class_row, all_mapping_rows,
}
use stonewrit.Sealer.Invariant.{rows_of}
use stonewrit.Sealer.Tables.{copy_events-eq-ok}

-- no more rows are kept than were drained
pub length-dedupe_loop :
    (already seen : List Text) (ps : List PendingEvent)
    → length (dedupe_loop already seen ps).kept ≤ length ps
unfolding dedupe_loop
length-dedupe_loop already seen [] = omega arith
length-dedupe_loop already seen (p ∷ ps) = elim (Option-cases (external_id p)) [
  | inl nothing ↦ rw (nothing, dedupe_loop) (omega (arith, length-dedupe_loop already seen ps))
  | inr (x, some_id) ↦
      rw (some_id, dedupe_loop)
        (ground
          (arith, length-dedupe_loop already seen ps, length-dedupe_loop already (x ∷ seen) ps))
]

pub length-dedupe_pending :
    (fails : Option Error) (env : Text) (events : List EventRow) (ps : List PendingEvent)
    (d : Deduped)
    → dedupe_pending fails env events ps ≡ ok d
    → length d.kept ≤ length ps
unfolding dedupe_pending
length-dedupe_pending fails env events ps d h =
    elim (Result-cases (existing_ids fails env events (candidates ps))) [
      | inl (e, failed) ↦ cc (rw (failed, dedupe_pending) at h)
      | inr (already, found) ↦
          let same : dedupe_loop already [] ps ≡ d = cc (rw (found, dedupe_pending) at h) in
          rw (← same) (length-dedupe_loop already [] ps)
    ]

pub wrapping-eq-ok :
    {A : Type 0} (what : Text) (r : Result A) (a : A) → wrapping what r ≡ ok a → r ≡ ok a
wrapping-eq-ok what (ok b) a h = h
wrapping-eq-ok what (err e) a h = cc

-- a successful `write_batch` appended the rows and did the rest
pub write_batch-eq-ok :
    (w : World) (env : Text) (locked : Chain) (items : List Item) (db db' : Db)
    → write_batch w env locked items db ≡ ok db'
    → db' ≡ written env locked items (db.events ++ rows_of items) db
unfolding write_batch
write_batch-eq-ok w env locked items db db' h =
    let (_, _, h1) = >>=-eq-ok (stmt w copy_rows (codes "copy events")) _ h in
    let (events, e, h2) =
      >>=-eq-ok (wrapping (codes "copy events") (copy_events db.events (rows_of items))) _ h1 in
    let (_, _, h3) =
      >>=-eq-ok
        (copy_unless_empty w copy_classifications (codes "copy classifications")
          (map class_row items))
        _ h2 in
    let (_, _, h4) =
      >>=-eq-ok
        (copy_unless_empty w copy_mappings (codes "copy control mappings") (all_mapping_rows items))
        _ h3 in
    let (_, _, h5) = >>=-eq-ok (stmt w update_tip (codes "update chain tip")) _ h4 in
    let (_, _, h6) = >>=-eq-ok (stmt w insert_checkpoint (codes "insert checkpoint")) _ h5 in
    let appended = copy_events-eq-ok db.events (rows_of items) events (wrapping-eq-ok _ _ _ e) in
    rw (← appended) (cc h6)
