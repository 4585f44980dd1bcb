-- ===== src/Sealer/Calm.antt =====
-- The parts of a run of the sealer (server/internal/sealer/sealer.go) in which no statement fails.
use stonewrit.Prelude.{
  Elem-contains, ◌≡◌, refl, inl, inr, not, false, Bool-cases, Option, none, List, [], ◌∷◌, ◌++◌,
  map, Text, contains, Elem, arith, Option-cases, codes,
}
use stonewrit.Prelude.Errors.{Error, Result, ok, ◌>>=◌, ◌>>◌, wrapping}
use stonewrit.Prelude.Sort.{distinct, Elem-distinct, Elem-filter}
use stonewrit.Db.{Chain, PendingEvent, EventRow, Db}
use stonewrit.Db.Queries.{existing_in, conflicts, copy_events, delete_pending_by_ids}
use stonewrit.Sealer.Dedupe.{external_id, candidates, dedupe_loop, existing_ids, dedupe_pending}
use stonewrit.Sealer.Duplicates.{IsDistinct}
use stonewrit.Sealer.Invariant.{rows_of}
use stonewrit.Sealer.Copies.{Apart, copy_events-ok}
use stonewrit.Sealer.{
  Item, World, Stmt, Checkpoint, SealResult, copy_unless_empty, written, write_batch, commit,
  deleted, stmt, open_tx, copy_rows, copy_classifications, copy_mappings, update_tip,
  insert_checkpoint, class_row, all_mapping_rows, commit_tx, begin_tx, ensure_chain, lock_chain,
}

-- no statement of the run fails
abbrev pub Undisturbed : World → Type 0
Undisturbed w = (s : Stmt) → w.fails s ≡ none

abbrev pub ids_of : List PendingEvent → List Text
ids_of ps = map (λ (p : PendingEvent). p.id) ps

-- the ids that the loop keeps
kept_new :
    (already seen : List Text) (ps : List PendingEvent) (x : Text)
    → contains (ids_of ps) x ≡ false
    → contains (ids_of (dedupe_loop already seen ps).kept) x ≡ false
unfolding dedupe_loop contains
kept_new already seen [] x h = h
kept_new already seen (p ∷ ps) x h = elim (Option-cases (external_id p)) [
  | inl e ↦ rw (e, dedupe_loop) (grind (arith, h, kept_new already seen ps x))
  | inr (y, e) ↦ grind (arith, e, h, kept_new already seen ps x, kept_new already (y ∷ seen) ps x)
]

pub kept_ids-IsDistinct :
    (already seen : List Text) (ps : List PendingEvent)
    → IsDistinct (ids_of ps)
    → IsDistinct (ids_of (dedupe_loop already seen ps).kept)
unfolding dedupe_loop
kept_ids-IsDistinct already seen [] h = tt
kept_ids-IsDistinct already seen (p ∷ ps) (new, h) = elim (Option-cases (external_id p)) [
  | inl e ↦
      rw (e, dedupe_loop) (kept_new already seen ps p.id new, kept_ids-IsDistinct already seen ps h)
  | inr (y, e) ↦ elim (Bool-cases (contains already y)) [
    | inl a ↦ rw (e, dedupe_loop, a) (kept_ids-IsDistinct already seen ps h)
    | inr a ↦ elim (Bool-cases (contains seen y)) [
      | inl b ↦ rw (e, dedupe_loop, a, b) (kept_ids-IsDistinct already seen ps h)
      | inr b ↦
          rw (e, dedupe_loop, a, b)
            (kept_new already (y ∷ seen) ps p.id new, kept_ids-IsDistinct already (y ∷ seen) ps h)
    ]
  ]
]

-- the query for the ids succeeds, and the loop runs on what it finds
pub dedupe_pending-total :
    (fails : Option Error) (env : Text) (events : List EventRow) (batch : List PendingEvent)
    → fails ≡ none
    → (already : List Text) × (dedupe_pending fails env events batch
        ≡ ok (dedupe_loop already [] batch))
unfolding dedupe_pending existing_ids
dedupe_pending-total fails env events batch calm = rw calm (found (candidates batch) refl)
  where
    found :
        (ids : List Text)
        → candidates batch ≡ ids
        → (already : List Text) × (dedupe_pending none env events batch
            ≡ ok (dedupe_loop already [] batch))
    found [] e = ([], rw (e, dedupe_pending) refl)
    found (c ∷ cs) e = (existing_in env (c ∷ cs) events, rw (e, dedupe_pending) refl)

stmt-ok : (w : World) (s : Stmt) (what : Text) → Undisturbed w → stmt w s what ≡ ok tt
stmt-ok w s what calm = rw (calm s, stmt) refl

copy_unless_empty-ok :
    {A : Type 0} (w : World) (s : Stmt) (what : Text) (xs : List A)
    → Undisturbed w
    → copy_unless_empty w s what xs ≡ ok tt
unfolding copy_unless_empty
copy_unless_empty-ok w s what [] calm = refl
copy_unless_empty-ok w s what (x ∷ xs) calm = stmt-ok w s what calm

wrapping-ok : {A : Type 0} (what : Text) (r : Result A) (a : A) → r ≡ ok a → wrapping what r ≡ ok a
wrapping-ok what r a e = rw (e, wrapping) refl

-- six statements that succeed
all_run :
    {A B : Type 0} (s1 : Result (Unit {0})) (r : Result A) (s2 s3 s4 s5 : Result (Unit {0}))
    (end : A → B) (a : A)
    → s1 ≡ ok tt
    → r ≡ ok a
    → s2 ≡ ok tt
    → s3 ≡ ok tt
    → s4 ≡ ok tt
    → s5 ≡ ok tt
    → (do s1; x ← r; s2; s3; s4; s5; ok (end x)) ≡ ok (end a)
all_run s1 r s2 s3 s4 s5 end a e1 e2 e3 e4 e5 e6 = rw (e1, e2, e3, e4, e5, e6) refl

-- a batch whose rows clash with nothing is written
pub write_batch-total :
    (w : World) (env : Text) (locked : Chain) (items : List Item) (db : Db)
    → Undisturbed w
    → ((r e : EventRow) → Elem r (rows_of items) → Elem e db.events → conflicts r e ≡ false)
    → Apart (rows_of items)
    → write_batch w env locked items db
      ≡ ok (written env locked items (db.events ++ rows_of items) db)
unfolding write_batch
write_batch-total w env locked items db calm fresh apart =
    all_run (stmt w copy_rows (codes "copy events"))
      (wrapping (codes "copy events") (copy_events db.events (rows_of items)))
      (copy_unless_empty w copy_classifications (codes "copy classifications")
        (map class_row items))
      (copy_unless_empty w copy_mappings (codes "copy control mappings") (all_mapping_rows items))
      (stmt w update_tip (codes "update chain tip"))
      (stmt w insert_checkpoint (codes "insert checkpoint"))
      (λ events. written env locked items events db) (db.events ++ rows_of items)
      (stmt-ok w copy_rows _ calm)
      (wrapping-ok _ _ _ (copy_events-ok db.events (rows_of items) fresh apart))
      (copy_unless_empty-ok w copy_classifications _ (map class_row items) calm)
      (copy_unless_empty-ok w copy_mappings _ (all_mapping_rows items) calm)
      (stmt-ok w update_tip _ calm) (stmt-ok w insert_checkpoint _ calm)

-- a deleted row is no longer there
pub delete-gone :
    (ids : List Text) (q : PendingEvent) (rows : List PendingEvent)
    → Elem q.id ids
    → Elem q (delete_pending_by_ids (distinct ids) rows)
    → ⊥
unfolding delete_pending_by_ids
delete-gone ids q rows there still =
    let passed =
      ((Elem-filter (λ (p : PendingEvent). not (contains (distinct ids) p.id)) q rows).0 still).1 in
    let listed = Elem-contains q.id (distinct ids) ((Elem-distinct q.id ids).1 there) in
    cc (rw listed at passed)

-- the run ended without an error, and the row is not pending any more
abbrev pub Done : PendingEvent → SealResult → Type 0
Done q r = (r.error ≡ none) × (Elem q r.db.pending → ⊥)

pub commit-Done :
    (w : World) (what : Option Text) (before : Db) (published : List Checkpoint) (ids : List Text)
    (db : Db) (q : PendingEvent)
    → Undisturbed w
    → Elem q.id ids
    → Done q (commit w what before published (deleted ids db))
unfolding commit
commit-Done w what before published ids db q calm there =
    rw (calm commit_tx, commit) (refl, delete-gone ids q db.pending there)

pub opened : (w : World) → Undisturbed w → open_tx w ≡ ok tt
unfolding open_tx
opened w calm =
    rw
      (
        stmt-ok w begin_tx (codes "begin tx") calm,
        open_tx,
        stmt-ok w ensure_chain (codes "ensure chain") calm,
        stmt-ok w lock_chain (codes "lock chain") calm,
      )
      refl
