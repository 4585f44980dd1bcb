-- ===== src/Sealer/Keeps.antt =====
-- `SealShard` keeps every chain a chain, whatever fails.
use stonewrit.Prelude.{
  ℕ, suc, ◌+◌, ◌<◌, ◌^◌, ◌≡◌, ◌≢◌, sym, ap, ◌∙◌, inl, inr, List, [], ◌∷◌, ◌++◌, map, length, Text,
  str_eq, Elem, arith,
}
use stonewrit.Prelude.Errors.{ok}
use stonewrit.Prelude.Int.{pos, succ_int64}
use stonewrit.Json.{JsonLib}
use stonewrit.Core.Verify.{text_or_empty}
use stonewrit.Core.Verify.Suffix.{end_tip-IsHash}
use stonewrit.Core.Hash.Injective.{IsHash-ne-nil}
use stonewrit.Db.{Chain, PendingEvent, EventRow, Db}
use stonewrit.Sealer.Effect.{
  Effect, untouched, only_ensured, all_dropped, batch_sealed, ensured, drained, seal_shard-Effect,
}
use stonewrit.Sealer.{Item, World, build_items, final_hash, final_position, written, seal_shard}
use stonewrit.Sealer.Invariant.{
  row_record, row_records, chain_rows, IsConsistent, rows_of, succ_int64_lem,
}
use stonewrit.Sealer.Batches.{IsBatch, build_items-IsBatch, final_hash_lem, IsChain-append}
use stonewrit.Sealer.Tables.{
  Elem-update_shard_tip, null_if_empty-some, rows_same, rows_other, length-filter-le, length-drain,
  lock_shard_chain-Elem,
}
use stonewrit.Sealer.Writes.{length-dedupe_pending}
use stonewrit.Sealer.Ensure.{ensure-IsConsistent, events-ensure}

module _ (lib : JsonLib) where
  -- a consistent database is consistent after the writes of a batch on one of its chains
  written-IsConsistent :
      (env : Text) (locked : Chain) (items : List Item) (db : Db)
      → IsConsistent lib db
      → Elem locked db.chains
      → IsBatch lib locked
          (text_or_empty locked.latest_event_hash)
          (suc (length (chain_rows locked.id db.events)))
          items
      → final_hash (text_or_empty locked.latest_event_hash) items ≢ []
      → IsConsistent lib (written env locked items (db.events ++ rows_of items) db)
  unfolding written
  written-IsConsistent env locked items db h m b ne c' m' =
      let (c, mc, which) =
        Elem-update_shard_tip locked.id (final_position locked.latest_position items)
          (final_hash (text_or_empty locked.latest_event_hash) items) c' db.chains m' in
      elim which [
        | inl (other, same) ↦
            rw (same, rows_other locked.id c.id db.events (rows_of items) other b.owned) (h c mc)
        | inr (same, updated) ↦
            simp
              (
                ap (λ (d : Chain). d.id) updated ∙ same,
                rows_same locked.id db.events (rows_of items) b.owned,
              )
              (IsChain-append lib locked locked c' (chain_rows locked.id db.events) items
                (h locked m) b
                (ap (λ (d : Chain). d.latest_event_hash) updated ∙ sym (null_if_empty-some _ ne))
                (ap (λ (d : Chain). d.latest_position) updated))
      ]

  final_hash-ne-nil :
      (locked : Chain) (prev : Text) (n : ℕ) (items : List Item) (p : PendingEvent)
      (ps : List PendingEvent)
      → IsBatch lib locked prev n items
      → map (λ (j : Item). j.pending) items ≡ p ∷ ps
      → final_hash prev items ≢ []
  final_hash-ne-nil locked prev n [] p ps b e = cc
  final_hash-ne-nil locked prev n (i ∷ items) p ps b e =
      rw (final_hash_lem lib locked prev (i ∷ items)) (
        IsHash-ne-nil _
          (end_tip-IsHash lib prev (row_record i.row) (row_records (rows_of items)) b.linked))

  -- the writes of the loop's rows keep a consistent database consistent
  batch-IsConsistent :
      (env : Text) (locked : Chain) (p : PendingEvent) (ps : List PendingEvent) (items : List Item)
      (db : Db)
      → IsConsistent lib db
      → Elem locked db.chains
      → length (chain_rows locked.id db.events) + 1 + length (p ∷ ps) < 2 ^ 63
      → build_items locked 0
          (text_or_empty locked.latest_event_hash)
          (succ_int64 locked.latest_position)
          (p ∷ ps)
        ≡ ok items
      → IsConsistent lib (written env locked items (db.events ++ rows_of items) db)
  batch-IsConsistent env locked p ps items db h m bound built =
      let n = length (chain_rows locked.id db.events) in
      let next : succ_int64 locked.latest_position ≡ pos (suc n) =
        ap succ_int64 (h locked m).position ∙ succ_int64_lem n (omega arith) in
      let (b, same) =
        build_items-IsBatch lib locked 0 (suc n) (text_or_empty locked.latest_event_hash) (p ∷ ps)
          items (omega arith) (rw next at built) in
      written-IsConsistent env locked items db h m b
        (final_hash-ne-nil locked _ (suc n) items p ps b same)

  Effect-IsConsistent :
      (w : World) (env : Text) (locked : Chain) (batch : List PendingEvent) (before db after : Db)
      → IsConsistent lib before
      → IsConsistent lib db
      → Elem locked db.chains
      → length db.events + 1 + length batch < 2 ^ 63
      → Effect w env locked batch before db after
      → IsConsistent lib after
  Effect-IsConsistent w env locked batch before db after hb h m bound (untouched e) = rw e hb
  Effect-IsConsistent w env locked batch before db after hb h m bound (only_ensured e) = rw e h
  Effect-IsConsistent w env locked batch before db after hb h m bound (all_dropped d x y e) = rw e h
  Effect-IsConsistent w env locked batch before db after hb h m bound
        (batch_sealed d p ps items deduped kept built e) =
      rw e (
        batch-IsConsistent env locked p ps items db h m
          (omega (
            arith,
            length-filter-le (λ (r : EventRow). str_eq r.chain_id locked.id) db.events,
            length-dedupe_pending _ _ _ batch d deduped,
            ap length kept,
          ))
          (rw kept at built))

  -- Let every chain of the database link up from genesis, with positions from 1 and its tip recorded,
  -- let the uuid for a new chain be unused, and let no position come near 2^63. Then whichever
  -- statements fail and whoever holds the lock, the same is true after `SealShard`.
  pub seal_shard-IsConsistent :
      (w : World) (env : Text) (shard : ℕ) (db : Db)
      → IsConsistent lib db
      → chain_rows w.new_chain_id db.events ≡ []
      → length db.events + 1 + w.batch_size < 2 ^ 63
      → IsConsistent lib (seal_shard w env shard db).db
  seal_shard-IsConsistent w env shard db h fresh bound =
      let h' = ensure-IsConsistent lib env shard w.new_chain_id db fresh h in
      elim (seal_shard-Effect w env shard db) [
        | inl e ↦ rw e h
        | inr (inl e) ↦ rw e h'
        | inr (inr (locked, claimed, effect)) ↦
            Effect-IsConsistent w env locked (drained w env shard db) db (ensured w env shard db) _
              h h'
              (lock_shard_chain-Elem w.locked_elsewhere env shard (ensured w env shard db) locked
                claimed)
              (omega (
                arith,
                length-drain env shard w.batch_size (ensured w env shard db),
                ap length (events-ensure lib env shard w.new_chain_id db),
                bound,
              ))
              effect
      ]
