-- ===== src/Sealer/Conserved.antt =====
-- No accepted event is lost: what a run of `SealShard` does to each pending row and to the journal.
use stonewrit.Prelude.{
  contains-Elem, ℕ, ◌≡◌, refl, sym, ap, ◌∙◌, ◌⊎◌, inl, inr, not, Bool-cases, some, List, [], ◌∷◌,
  ◌++◌, map, Text, str_eq_iff, contains, take, zero, suc, filter, Elem, append-nil, arith,
}
use stonewrit.Prelude.Errors.{ok}
use stonewrit.Prelude.Sort.{distinct, Elem-distinct, Elem-sort_by, Elem-filter}
use stonewrit.Db.{Chain, PendingEvent, EventRow, Db}
use stonewrit.Db.Queries.{
  ensure_shard_chain_from_env, drain_pending_for_shard, delete_pending_by_ids, in_shard,
  accepted_before,
}
use stonewrit.Sealer.Dedupe.{Deduped, external_id, dedupe_pending}
use stonewrit.Sealer.Invariant.{rows_of}
use stonewrit.Sealer.Fates.{
  Sealed, Taken, build_items-Sealed, dedupe_pending-Kept, dedupe_pending-dropped,
  dedupe_pending-Elem,
}
use stonewrit.Sealer.Tables.{Elem-append_cases}
use stonewrit.Sealer.Effect.{
  Effect, untouched, only_ensured, all_dropped, batch_sealed, ensured, drained, seal_shard-Effect,
}
use stonewrit.Sealer.{Item, World, written, deleted, pending_ids, lookup_existing, seal_shard}

-- the ids of the pending rows are unique, their primary key
abbrev pub UniquePending : Db → Type 0
UniquePending db =
    (p q : PendingEvent) → Elem p db.pending → Elem q db.pending → p.id ≡ q.id → p ≡ q

-- from `before` to `after`, the journal only grew, and the pending row `p` is still pending, or sealed,
-- or its external id is that of an event of the environment or of another pending row that is sealed
pub record Settles (env : Text) (p : PendingEvent) (before after : Db) : Type 0 where
  pub rows : List EventRow
  pub appended : after.events ≡ before.events ++ rows
  pub fate :
      Elem p after.pending
      ⊎ (Sealed p rows
          ⊎ ((x : Text) × (external_id p ≡ some x)
              × (((e : EventRow) × Elem e before.events
                    × (e.environment_id ≡ env)
                    × (e.external_event_id ≡ some x))
                  ⊎ ((k : PendingEvent) × Elem k before.pending
                      × (external_id k ≡ some x)
                      × Sealed k rows))))

-- nothing was sealed and the pending rows are as before
unchanged :
    (env : Text) (p : PendingEvent) (before after : Db)
    → Elem p before.pending
    → after.events ≡ before.events
    → after.pending ≡ before.pending
    → Settles env p before after
unchanged env p before after m e f = record {
  rows = [];
  appended = e ∙ sym (append-nil before.events);
  fate = inl (rw f m);
}

-- a row that DeletePendingByIds removes has one of the ids
deleted-cases :
    (ids : List Text) (p : PendingEvent) (rows : List PendingEvent)
    → Elem p rows
    → Elem p (delete_pending_by_ids (distinct ids) rows) ⊎ Elem p.id ids
unfolding delete_pending_by_ids
deleted-cases ids p rows m = elim (Bool-cases (contains (distinct ids) p.id)) [
  | inl there ↦ inr ((Elem-distinct p.id ids).0 (contains-Elem p.id (distinct ids) there))
  | inr missing ↦ inl (
      (Elem-filter (λ (q : PendingEvent). not (contains (distinct ids) q.id)) p rows).1
        (m, rw missing refl))
]

-- the row of the batch that has the id
with_id :
    (before : Db) (p : PendingEvent) (batch : List PendingEvent)
    → UniquePending before
    → Elem p before.pending
    → ((q : PendingEvent) → Elem q batch → Elem q before.pending)
    → Elem p.id (map (λ (q : PendingEvent). q.id) batch)
    → Elem p batch
with_id before p [] unique m sub h = elim h [ ]
with_id before p (q ∷ batch) unique m sub (inl e) = inl (unique p q m (sub q (inl refl)) e)
with_id before p (q ∷ batch) unique m sub (inr h) =
    inr (with_id before p batch unique m (λ r k. sub r (inr k)) h)

pub events-written :
    (env : Text) (locked : Chain) (items : List Item) (events : List EventRow) (db : Db)
    → ((written env locked items events db).events ≡ events)
      × ((written env locked items events db).pending ≡ db.pending)
unfolding written
events-written env locked items events db = (refl, refl)

-- the state after the transaction's writes and its delete
deleted-Settles :
    (env : Text) (p : PendingEvent) (before after : Db) (batch : List PendingEvent) (d : Deduped)
    (ids : List Text) (rows : List EventRow)
    → UniquePending before
    → Elem p before.pending
    → ((q : PendingEvent) → Elem q batch → Elem q before.pending)
    → ((id : Text) → Elem id ids → Elem id (map (λ (q : PendingEvent). q.id) batch))
    → ((q : PendingEvent)
        → Elem q batch
        → Elem q d.kept
          ⊎ ((x : Text) × (external_id q ≡ some x) × Taken env before.events d.kept x))
    → ((q : PendingEvent) → Elem q d.kept → Elem q before.pending × Sealed q rows)
    → after.events ≡ before.events ++ rows
    → after.pending ≡ before.pending
    → Settles env p before (deleted ids after)
deleted-Settles env p before after batch d ids rows unique m sub from kept sealed appended same =
    record {
      rows = rows;
      appended = appended;
      fate = elim (deleted-cases ids p before.pending m) [
        | inl still ↦ inl (rw same still)
        | inr gone ↦ elim (kept p (with_id before p batch unique m sub (from p.id gone))) [
          | inl k ↦ inr (inl (sealed p k).1)
          | inr (x, e, inl there) ↦ inr (inr (x, e, inl there))
          | inr (x, e, inr (k, mk, f)) ↦
              inr (inr (x, e, inr (k, (sealed k mk).0, f, (sealed k mk).1)))
        ]
      ];
    }

pub Elem-take : {A : Type 0} (x : A) (n : ℕ) (xs : List A) → Elem x (take n xs) → Elem x xs
Elem-take x zero xs m = elim m [ ]
Elem-take x (suc n) [] m = elim m [ ]
Elem-take x (suc n) (y ∷ xs) (inl e) = inl e
Elem-take x (suc n) (y ∷ xs) (inr m) = inr (Elem-take x n xs m)

-- the drained rows are pending rows of the environment
pub drain-Elem :
    (env : Text) (shard n : ℕ) (db : Db) (q : PendingEvent)
    → Elem q (drain_pending_for_shard env shard n db)
    → Elem q db.pending × (q.environment_id ≡ env)
unfolding drain_pending_for_shard in_shard
drain-Elem env shard n db q k =
    let (m, here) = (Elem-filter (in_shard env shard) q db.pending).0 (
      (Elem-sort_by accepted_before q (filter (in_shard env shard) db.pending)).0
        (Elem-take q n _ k)) in
    (m, (str_eq_iff q.environment_id env).0 (ground arith))

pub same-ensure :
    (env : Text) (shard : ℕ) (id : Text) (db : Db)
    → ((ensure_shard_chain_from_env env shard id db).events ≡ db.events)
      × ((ensure_shard_chain_from_env env shard id db).pending ≡ db.pending)
unfolding ensure_shard_chain_from_env
same-ensure env shard id db = (ground arith, ground arith)

module _ (env : Text) (p : PendingEvent) (before : Db) (unique : UniquePending before)
    (m : Elem p before.pending) where
  -- the delete of a batch after its writes, for ids that are the batch's or dropped
  batch-Settles :
      (w : World) (batch : List PendingEvent) (d : Deduped) (db after : Db) (ids : List Text)
      (rows : List EventRow)
      → db.events ≡ before.events
      → ((q : PendingEvent) → Elem q batch → Elem q before.pending)
      → dedupe_pending (w.fails lookup_existing) env db.events batch ≡ ok d
      → ((id : Text) → Elem id ids → Elem id (pending_ids batch) ⊎ Elem id d.dropped)
      → ((q : PendingEvent) → Elem q d.kept → Sealed q rows)
      → after.events ≡ before.events ++ rows
      → after.pending ≡ before.pending
      → Settles env p before (deleted ids after)
  unfolding pending_ids
  batch-Settles w batch d db after ids rows he sub deduped from sealed appended same =
      deleted-Settles env p before after batch d ids rows unique m sub
        (λ id k. elim (from id k) [
          | inl a ↦ a
          | inr b ↦
              dedupe_pending-dropped (w.fails lookup_existing) env db.events batch d id deduped b
        ])
        (λ q k.
          rw (← he)
            (dedupe_pending-Kept (w.fails lookup_existing) env db.events batch d q deduped k))
        (λ q k. (
          sub q (dedupe_pending-Elem (w.fails lookup_existing) env db.events batch d q deduped k),
          sealed q k,
        ))
        appended same

  Effect-Settles :
      (w : World) (locked : Chain) (batch : List PendingEvent) (db after : Db)
      → db.events ≡ before.events
      → db.pending ≡ before.pending
      → ((q : PendingEvent) → Elem q batch → Elem q before.pending)
      → Effect w env locked batch before db after
      → Settles env p before after
  Effect-Settles w locked batch db after he hp sub (untouched e) =
      rw e (unchanged env p before before m refl refl)
  Effect-Settles w locked batch db after he hp sub (only_ensured e) =
      rw e (unchanged env p before db m he hp)
  Effect-Settles w locked batch db after he hp sub (all_dropped d deduped nothing e) = rw e (
      batch-Settles w batch d db db (d.dropped ++ pending_ids batch) [] he sub deduped
        (λ id k. swap (Elem-append_cases id d.dropped (pending_ids batch) k))
        (λ q k. elim (rw nothing at k) [ ]) (he ∙ sym (append-nil before.events)) hp)
    where
      swap : {A B : Type 0} → A ⊎ B → B ⊎ A
      swap (inl a) = inr a
      swap (inr b) = inl b
  Effect-Settles w locked batch db after he hp sub
        (batch_sealed d q qs items deduped kept built e) =
      let (ev, pe) = events-written env locked items (db.events ++ rows_of items) db in
      rw e (
        batch-Settles w batch d db (written env locked items (db.events ++ rows_of items) db)
          (pending_ids batch ++ d.dropped) (rows_of items) he sub deduped
          (λ id k. Elem-append_cases id (pending_ids batch) d.dropped k)
          (λ x k. build_items-Sealed locked 0 _ _ d.kept items x built k)
          (ev ∙ ap (λ es. es ++ rows_of items) he) (pe ∙ hp))

-- Whatever fails in a run of the sealer, the journal only grows, and each pending row, ids being unique
-- among them, is still pending, or is an event with its id and payload hash, or has an external id that
-- an event of its environment or another pending row, now sealed, has too.
pub seal_shard-Settles :
    (w : World) (env : Text) (shard : ℕ) (before : Db) (p : PendingEvent)
    → UniquePending before
    → Elem p before.pending
    → Settles env p before (seal_shard w env shard before).db
seal_shard-Settles w env shard before p unique m =
    let (he, hp) = same-ensure env shard w.new_chain_id before in
    elim (seal_shard-Effect w env shard before) [
      | inl e ↦ rw e (unchanged env p before before m refl refl)
      | inr (inl e) ↦ rw e (unchanged env p before (ensured w env shard before) m he hp)
      | inr (inr (locked, _, effect)) ↦
          Effect-Settles env p before unique m w locked (drained w env shard before)
            (ensured w env shard before) _ he hp
            (λ q k.
              rw (← hp) (drain-Elem env shard w.batch_size (ensured w env shard before) q k).0)
            effect
    ]
