-- ===== src/Sealer/Separate.antt =====
-- The sealer (server/internal/sealer/sealer.go) keeps the ids of events and of pending rows apart.
use stonewrit.Prelude.{
  ℕ, ◌+◌, ◌≡◌, ◌≢◌, refl, Elem-append_left, sym, ap, ◌∙◌, subst, inl, inr, List, [], ◌∷◌, ◌++◌,
  Text, Elem,
}
use stonewrit.Prelude.Errors.{ok}
use stonewrit.Prelude.Int.{ℤ, succ_int64}
use stonewrit.Db.{Chain, PendingEvent, EventRow, Db}
use stonewrit.Sealer.Row.{build_event_row}
use stonewrit.Sealer.Invariant.{rows_of}
use stonewrit.Sealer.Batches.{build_items-cons}
use stonewrit.Sealer.Tables.{Elem-append_cases}
use stonewrit.Sealer.Fates.{dedupe_pending-Elem}
use stonewrit.Sealer.Copies.{Elem-ids}
use stonewrit.Sealer.Calm.{delete-gone}
use stonewrit.Sealer.Effect.{
  Effect, untouched, only_ensured, all_dropped, batch_sealed, ensured, drained, seal_shard-Effect,
}
use stonewrit.Sealer.Conserved.{same-ensure, events-written}
use stonewrit.Sealer.Shards.{pending-still}
use stonewrit.Sealer.Tick.{ShardRef}
use stonewrit.Sealer.{Item, World, pending_ids, build_items, lookup_existing, seal_shard}

-- the shard is none of these
abbrev pub Elsewhere : Text → ℕ → List ShardRef → Type 0
Elsewhere env shard rs = (r : ShardRef) → Elem r rs → r.environment_id ≡ env → r.shard_index ≢ shard

-- no pending row has the id of an event
abbrev pub SealedApart : Db → Type 0
SealedApart db =
    (p : PendingEvent) (e : EventRow) → Elem p db.pending → Elem e db.events → p.id ≢ e.id

-- a built row has the id of a kept row
built_from :
    (locked : Chain) (i : ℕ) (prev : Text) (position : ℤ) (kept : List PendingEvent)
    (items : List Item) (e : EventRow)
    → build_items locked i prev position kept ≡ ok items
    → Elem e (rows_of items)
    → (p : PendingEvent) × Elem p kept × (e.id ≡ p.id)
built_from locked i prev position [] items e built m =
    let nothing : [] ≡ items = unfold build_items in cc in elim (rw (← nothing) at m) [ ]
built_from locked i prev position (q ∷ kept) items e built m =
    let (env, cl, ms, rest, _, more, here) =
      build_items-cons locked i prev position q kept items built in
    elim (rw (← here) at m) as (λ _. (p : PendingEvent) × Elem p (q ∷ kept) × (e.id ≡ p.id)) [
      | inl same ↦ (q, inl refl, unfold build_event_row in ap (λ (r : EventRow). r.id) same)
      | inr m' ↦
          let (p, k, f) = built_from locked (i + 1) _ (succ_int64 position) kept rest e more m' in
          (p, inr k, f)
    ]

Effect-SealedApart :
    (w : World) (env : Text) (locked : Chain) (batch : List PendingEvent) (before db after : Db)
    (p : PendingEvent) (e : EventRow)
    → db.events ≡ before.events
    → SealedApart before
    → Effect w env locked batch before db after
    → Elem p before.pending
    → Elem p after.pending
    → Elem e after.events
    → p.id ≢ e.id
unfolding pending_ids
Effect-SealedApart w env locked batch before db after p e he apart (untouched f) m mp me =
    apart p e m (subst (λ (d : Db). Elem e d.events) f me)
Effect-SealedApart w env locked batch before db after p e he apart (only_ensured f) m mp me =
    apart p e m (subst (λ es. Elem e es) he (subst (λ (d : Db). Elem e d.events) f me))
Effect-SealedApart w env locked batch before db after p e he apart (all_dropped d deduped nothing f)
      m mp me =
    apart p e m (subst (λ es. Elem e es) he (subst (λ (x : Db). Elem e x.events) f me))
Effect-SealedApart w env locked batch before db after p e he apart
      (batch_sealed d q qs items deduped kept built f) m mp me =
    elim (Elem-append_cases e db.events (rows_of items) (
      subst (λ es. Elem e es) (events-written env locked items (db.events ++ rows_of items) db).0
        (subst (λ (x : Db). Elem e x.events) f me))) [
          | inl old ↦ apart p e m (subst (λ es. Elem e es) he old)
          | inr new ↦ λ same.
              let (k, mk, g) = built_from locked 0 _ _ d.kept items e built new in
              let there = Elem-ids k batch (
                dedupe_pending-Elem (w.fails lookup_existing) env db.events batch d k deduped mk) in
              delete-gone (pending_ids batch ++ d.dropped) p _
                (Elem-append_left p.id (pending_ids batch) d.dropped
                  (subst (λ x. Elem x (pending_ids batch)) (sym g ∙ sym same) there))
                (subst (λ (x : Db). Elem p x.pending) f mp)
        ]

-- a run keeps the ids of events and pending rows apart
pub seal_shard-SealedApart :
    (w : World) (env : Text) (shard : ℕ) (before : Db)
    → SealedApart before
    → SealedApart (seal_shard w env shard before).db
seal_shard-SealedApart w env shard before apart p e mp me =
    let (he, _) = same-ensure env shard w.new_chain_id before in
    let m = pending-still w env shard before p mp in
    elim (seal_shard-Effect w env shard before) [
      | inl f ↦ apart p e m (subst (λ (d : Db). Elem e d.events) f me)
      | inr (inl f) ↦
          apart p e m (subst (λ es. Elem e es) he (subst (λ (d : Db). Elem e d.events) f me))
      | inr (inr (locked, _, effect)) ↦
          Effect-SealedApart w env locked (drained w env shard before) before
            (ensured w env shard before) _ p e he apart effect m mp me
    ]
