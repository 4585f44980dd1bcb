-- ===== src/Sealer/Shards.antt =====
-- Runs on different shards (server/internal/sealer/sealer.go) drain different rows.
use stonewrit.Prelude.{
  contains-Elem, ℕ, ◌≡◌, ◌≢◌, refl, sym, ap, ◌∙◌, ◌⊎◌, inl, inr, not, true, Bool-cases, List, [],
  ◌∷◌, ◌++◌, map, take, filter, Text, str_eq, str_eq_iff, contains, Elem, arith,
}
use stonewrit.Prelude.Sort.{
  distinct, sort_by, Elem-distinct, Elem-filter, Elem-sort_by, filter-filter_of_Elem,
}
use stonewrit.Db.{Chain, PendingEvent, Db}
use stonewrit.Db.Queries.{drain_pending_for_shard, delete_pending_by_ids, in_shard, accepted_before}
use stonewrit.Sealer.Invariant.{rows_of}
use stonewrit.Sealer.Fates.{dedupe_pending-dropped}
use stonewrit.Sealer.Tables.{Elem-append_cases}
use stonewrit.Sealer.Effect.{
  Effect, untouched, only_ensured, all_dropped, batch_sealed, ensured, drained, seal_shard-Effect,
}
use stonewrit.Sealer.Conserved.{UniquePending, same-ensure, events-written, Elem-take}
use stonewrit.Sealer.{World, pending_ids, lookup_existing, seal_shard}

-- the pending rows of `after` are those of `before` less some rows of the batch
abbrev pub Removes : List PendingEvent → Db → Db → Type 0
Removes batch before after =
    (after.pending ≡ before.pending)
    ⊎ ((ids : List Text) × ((id : Text)
          → Elem id ids
          → Elem id (map (λ (p : PendingEvent). p.id) batch))
        × (after.pending ≡ delete_pending_by_ids (distinct ids) before.pending))

Effect-Removes :
    (w : World) (env : Text) (locked : Chain) (batch : List PendingEvent) (before db after : Db)
    → db.pending ≡ before.pending
    → Effect w env locked batch before db after
    → Removes batch before after
Effect-Removes w env locked batch before db after hp (untouched e) =
    inl (ap (λ (d : Db). d.pending) e)
Effect-Removes w env locked batch before db after hp (only_ensured e) =
    inl (ap (λ (d : Db). d.pending) e ∙ hp)
Effect-Removes w env locked batch before db after hp (all_dropped d deduped nothing e) = inr (
  d.dropped ++ pending_ids batch,
  λ id m. elim (Elem-append_cases id d.dropped (pending_ids batch) m) [
    | inl k ↦ dedupe_pending-dropped (w.fails lookup_existing) env db.events batch d id deduped k
    | inr k ↦ unfold pending_ids in k
  ],
  ap (λ (d : Db). d.pending) e
      ∙ ap (delete_pending_by_ids (distinct (d.dropped ++ pending_ids batch))) hp,
)
Effect-Removes w env locked batch before db after hp
      (batch_sealed d q qs items deduped kept built e) =
    inr (
      pending_ids batch ++ d.dropped,
      λ id m. elim (Elem-append_cases id (pending_ids batch) d.dropped m) [
        | inl k ↦ unfold pending_ids in k
        | inr k ↦
            dedupe_pending-dropped (w.fails lookup_existing) env db.events batch d id deduped k
      ],
      ap (λ (d : Db). d.pending) e
          ∙ ap (delete_pending_by_ids (distinct (pending_ids batch ++ d.dropped)))
              ((events-written env locked items (db.events ++ rows_of items) db).1 ∙ hp),
    )

pub seal_shard-Removes :
    (w : World) (env : Text) (shard : ℕ) (before : Db)
    → Removes (drained w env shard before) before (seal_shard w env shard before).db
seal_shard-Removes w env shard before =
    let (_, hp) = same-ensure env shard w.new_chain_id before in
    elim (seal_shard-Effect w env shard before) [
      | inl e ↦ inl (ap (λ (d : Db). d.pending) e)
      | inr (inl e) ↦ inl (ap (λ (d : Db). d.pending) e ∙ hp)
      | inr (inr (locked, _, effect)) ↦
          Effect-Removes w env locked (drained w env shard before) before
            (ensured w env shard before) _ hp effect
    ]

-- the drained rows are pending rows of the shard
pub drained-Elem :
    (w : World) (env : Text) (shard : ℕ) (before : Db) (q : PendingEvent)
    → Elem q (drained w env shard before)
    → Elem q before.pending × (in_shard env shard q ≡ true)
unfolding drain_pending_for_shard
drained-Elem w env shard before q k =
    let (_, hp) = same-ensure env shard w.new_chain_id before in
    let (m, here) = (Elem-filter (in_shard env shard) q (ensured w env shard before).pending).0 (
      (Elem-sort_by accepted_before q
          (filter (in_shard env shard) (ensured w env shard before).pending)).0
        (Elem-take q w.batch_size _ k)) in
    (rw hp at m, here)

id-Elem :
    (x : Text) (batch : List PendingEvent)
    → Elem x (map (λ (p : PendingEvent). p.id) batch)
    → (q : PendingEvent) × Elem q batch × (x ≡ q.id)
id-Elem x [] m = elim m [ ]
id-Elem x (p ∷ batch) (inl e) = (p, inl refl, e)
id-Elem x (p ∷ batch) (inr m) = let (q, k, e) = id-Elem x batch m in (q, inr k, e)

-- a row is in one shard
one_shard :
    (env env' : Text) (shard shard' : ℕ) (p : PendingEvent)
    → in_shard env shard p ≡ true
    → in_shard env' shard' p ≡ true
    → (env ≡ env') × (shard ≡ shard')
unfolding in_shard
one_shard env env' shard shard' p h h' =
    let a : str_eq p.environment_id env ≡ true = ground arith in
    let b : str_eq p.environment_id env' ≡ true = ground arith in
    (
      sym ((str_eq_iff p.environment_id env).0 a) ∙ (str_eq_iff p.environment_id env').0 b,
      ground arith,
    )

-- a delete of rows of one shard keeps the rows of another
delete-other :
    (env env' : Text) (shard shard' : ℕ) (ids : List Text) (rows : List PendingEvent)
    → ((id : Text)
        → Elem id ids
        → (q : PendingEvent) × Elem q rows × (in_shard env shard q ≡ true) × (id ≡ q.id))
    → ((p q : PendingEvent) → Elem p rows → Elem q rows → p.id ≡ q.id → p ≡ q)
    → (env ≡ env' → shard ≢ shard')
    → filter (in_shard env' shard') (delete_pending_by_ids (distinct ids) rows)
      ≡ filter (in_shard env' shard') rows
unfolding delete_pending_by_ids
delete-other env env' shard shard' ids rows from unique other =
    filter-filter_of_Elem (in_shard env' shard')
      (λ (p : PendingEvent). not (contains (distinct ids) p.id)) rows kept
  where
    kept :
        (p : PendingEvent)
        → Elem p rows
        → in_shard env' shard' p ≡ true
        → not (contains (distinct ids) p.id) ≡ true
    kept p m h' = elim (Bool-cases (contains (distinct ids) p.id)) [
      | inr missing ↦ rw missing refl
      | inl there ↦
          let listed = (Elem-distinct p.id ids).0 (contains-Elem p.id (distinct ids) there) in
          let (q, k, h, same) = from p.id listed in
          let here : in_shard env shard p ≡ true =
            ap (in_shard env shard) (unique p q m k same) ∙ h in
          let (e, e') = one_shard env env' shard shard' p here h' in absurd (other e e')
    ]

-- If the ids of the pending rows are unique, a run of the sealer on one shard, whatever fails in it,
-- leaves what a run on any other shard drains as it was.
pub other_shard_waits :
    (w : World) (env env' : Text) (shard shard' limit : ℕ) (before : Db)
    → UniquePending before
    → (env ≡ env' → shard ≢ shard')
    → drain_pending_for_shard env' shard' limit (seal_shard w env shard before).db
      ≡ drain_pending_for_shard env' shard' limit before
unfolding drain_pending_for_shard
other_shard_waits w env env' shard shard' limit before unique other =
    ap (λ rows. take limit (sort_by accepted_before rows))
      (elim (seal_shard-Removes w env shard before) [
        | inl same ↦ ap (filter (in_shard env' shard')) same
        | inr (ids, from, same) ↦
            ap (filter (in_shard env' shard')) same
            ∙ delete-other env env' shard shard' ids before.pending (source ids from) unique other
      ])
  where
    source :
        (ids : List Text)
        → ((id : Text)
            → Elem id ids
            → Elem id (map (λ (p : PendingEvent). p.id) (drained w env shard before)))
        → (id : Text) → Elem id ids
        → (q : PendingEvent) × Elem q before.pending × (in_shard env shard q ≡ true) × (id ≡ q.id)
    source ids from id m =
        let (q, k, e) = id-Elem id (drained w env shard before) (from id m) in
        let (there, here) = drained-Elem w env shard before q k in (q, there, here, e)

-- a run adds no pending row
pub pending-still :
    (w : World) (env : Text) (shard : ℕ) (before : Db) (p : PendingEvent)
    → Elem p (seal_shard w env shard before).db.pending
    → Elem p before.pending
unfolding delete_pending_by_ids
pending-still w env shard before p m = elim (seal_shard-Removes w env shard before) [
  | inl same ↦ rw same at m
  | inr (ids, from, same) ↦
      ((Elem-filter (λ (r : PendingEvent). not (contains (distinct ids) r.id)) p before.pending).0
        (rw same at m)).0
]

-- the ids stay unique
pub seal_shard-UniquePending :
    (w : World) (env : Text) (shard : ℕ) (before : Db)
    → UniquePending before
    → UniquePending (seal_shard w env shard before).db
seal_shard-UniquePending w env shard before unique p q mp mq e =
    unique p q (pending-still w env shard before p mp) (pending-still w env shard before q mq) e
