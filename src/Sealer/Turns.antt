-- ===== src/Sealer/Turns.antt =====
-- Each shard of a tick (`tick` of server/internal/sealer/sealer.go) is sealed as if it were alone.
use stonewrit.Prelude.{
  ℕ, ◌≡◌, refl, sym, ap, ◌∙◌, subst, inl, inr, List, [], ◌∷◌, ◌++◌, none, some, Text, Elem, map,
  take, filter,
}
use stonewrit.Prelude.Sort.{sort_by}
use stonewrit.Db.{Chain, PendingEvent, Db}
use stonewrit.Db.Queries.{drain_pending_for_shard, lock_shard_chain, in_shard, accepted_before}
use stonewrit.Sealer.Duplicates.{IsDistinct}
use stonewrit.Sealer.Total.{Decodes, SameExternalId}
use stonewrit.Sealer.Calm.{Undisturbed}
use stonewrit.Sealer.Effect.{ensured, drained}
use stonewrit.Sealer.Conserved.{UniquePending, same-ensure}
use stonewrit.Sealer.Shards.{
  other_shard_waits, seal_shard-UniquePending, pending-still, drained-Elem,
}
use stonewrit.Sealer.Progress.{seal_shard_progress}
use stonewrit.Sealer.Tick.{
  ShardRef, Settings, TickWorld, defaults, run_of, list_shards_with_pending, seal_all, tick,
}
use stonewrit.Sealer.{World, seal_shard}
use stonewrit.Sealer.Separate.{Elsewhere, SealedApart, seal_shard-SealedApart}

-- the state at the turn of a shard, after runs on other shards
record AtTurn (env : Text) (shard limit : ℕ) (db mid : Db) : Type 0 where
  waits : drain_pending_for_shard env shard limit mid ≡ drain_pending_for_shard env shard limit db
  unique : UniquePending mid
  apart : SealedApart mid

seal_all-AtTurn :
    (run : ShardRef → World) (rs : List ShardRef) (env : Text) (shard limit : ℕ) (db : Db)
    → UniquePending db
    → SealedApart db
    → Elsewhere env shard rs
    → AtTurn env shard limit db (seal_all run rs db)
unfolding seal_all
seal_all-AtTurn run [] env shard limit db unique apart other = record {
  waits = refl;
  unique = unique;
  apart = apart;
}
seal_all-AtTurn run (r ∷ rs) env shard limit db unique apart other =
    let w = run r in
    let next =
      seal_all-AtTurn run rs env shard limit (seal_shard w r.environment_id r.shard_index db).db
        (seal_shard-UniquePending w r.environment_id r.shard_index db unique)
        (seal_shard-SealedApart w r.environment_id r.shard_index db apart)
        (λ x m. other x (inr m)) in
    record {
      waits =
          next.waits
          ∙ other_shard_waits w r.environment_id env r.shard_index shard limit db unique
              (other r (inl refl));
      unique = next.unique;
      apart = next.apart;
    }

seal_all-append :
    (run : ShardRef → World) (rs more : List ShardRef) (db : Db)
    → seal_all run (rs ++ more) db ≡ seal_all run more (seal_all run rs db)
unfolding seal_all
seal_all-append run [] more db = refl
seal_all-append run (r ∷ rs) more db =
    seal_all-append run rs more (seal_shard (run r) r.environment_id r.shard_index db).db

-- runs add no pending row
seal_all-still :
    (run : ShardRef → World) (rs : List ShardRef) (db : Db) (p : PendingEvent)
    → Elem p (seal_all run rs db).pending
    → Elem p db.pending
unfolding seal_all
seal_all-still run [] db p m = m
seal_all-still run (r ∷ rs) db p m =
    pending-still (run r) r.environment_id r.shard_index db p
      (seal_all-still run rs (seal_shard (run r) r.environment_id r.shard_index db).db p m)

-- what a run drains does not depend on the row of its chain
drained-same :
    (w : World) (env : Text) (shard : ℕ) (db : Db)
    → drained w env shard db ≡ drain_pending_for_shard env shard w.batch_size db
unfolding drain_pending_for_shard
drained-same w env shard db =
    ap (λ rows. take w.batch_size (sort_by accepted_before (filter (in_shard env shard) rows)))
      (same-ensure env shard w.new_chain_id db).1

-- the run on a shard, at its turn
AtTurn-progress :
    (w : World) (env : Text) (shard : ℕ) (db mid : Db) (locked : Chain) (q : PendingEvent)
    → AtTurn env shard w.batch_size db mid
    → Undisturbed w
    → lock_shard_chain w.locked_elsewhere env shard (ensured w env shard mid) ≡ some locked
    → IsDistinct (map (λ (p : PendingEvent). p.id) (drained w env shard db))
    → ((p : PendingEvent) → Elem p (drained w env shard db) → Decodes p)
    → ((p : PendingEvent)
        → Elem p (drained w env shard db)
        → SameExternalId p.event_data p.external_event_id)
    → Elem q (drained w env shard db)
    → Elem q (seal_shard w env shard mid).db.pending
    → ⊥
AtTurn-progress w env shard db mid locked q turn calm claimed ids decode stored m =
    let same : drained w env shard db ≡ drained w env shard mid =
      drained-same w env shard db ∙ sym turn.waits ∙ sym (drained-same w env shard mid) in
    (seal_shard_progress w env shard mid locked q calm claimed
      (subst (λ ps. IsDistinct (map (λ (p : PendingEvent). p.id) ps)) same ids)
      (λ p k. decode p (subst (λ ps. Elem p ps) (sym same) k))
      (λ p k. stored p (subst (λ ps. Elem p ps) (sym same) k))
      (λ p e k. turn.apart p e (drained-Elem w env shard mid p k).0)
      (subst (λ ps. Elem q ps) same m)).1

-- Take a tick whose listing succeeds, on a database whose pending rows have unique ids, none of them an
-- event's. Suppose that the first run on a listed shard fails nowhere and claims its chain, and that of
-- the rows that it would drain at the start of the tick the JSON columns decode, the external id column
-- is the external id in the event data (null for an empty one), and the ids are distinct. Then none of
-- these rows is pending after the tick, whatever fails in the runs on other shards.
pub tick_progress :
    (w : TickWorld) (s : Settings) (db : Db) (first later : List ShardRef) (r : ShardRef)
    (locked : Chain) (q : PendingEvent)
    → w.list_fails ≡ none
    → w.scheduled (list_shards_with_pending w (defaults s).max_work db) ≡ first ++ r ∷ later
    → Elsewhere r.environment_id r.shard_index first
    → UniquePending db
    → SealedApart db
    → Undisturbed (run_of w s r)
    → lock_shard_chain
        (w.run r).locked_elsewhere
        r.environment_id
        r.shard_index
        (ensured (run_of w s r) r.environment_id r.shard_index (seal_all (run_of w s) first db))
      ≡ some locked
    → IsDistinct (
        map (λ (p : PendingEvent). p.id) (drained (run_of w s r) r.environment_id r.shard_index db))
    → ((p : PendingEvent)
        → Elem p (drained (run_of w s r) r.environment_id r.shard_index db)
        → Decodes p)
    → ((p : PendingEvent)
        → Elem p (drained (run_of w s r) r.environment_id r.shard_index db)
        → SameExternalId p.event_data p.external_event_id)
    → Elem q (drained (run_of w s r) r.environment_id r.shard_index db)
    → Elem q (tick w s db).pending
    → ⊥
unfolding tick
tick_progress w s db first later r locked q listed order other unique apart calm claimed ids decode
      stored m still =
    let run = run_of w s in
    let mid = seal_all run first db in
    let ran : tick w s db
        ≡ seal_all run (w.scheduled (list_shards_with_pending w (defaults s).max_work db)) db =
      rw (listed, tick) refl in
    let turns =
      ran ∙ ap (λ rs. seal_all run rs db) order ∙ seal_all-append run first (r ∷ later) db in
    AtTurn-progress (run r) r.environment_id r.shard_index db mid locked q
      (seal_all-AtTurn run first r.environment_id r.shard_index (defaults s).batch_size db unique
        apart other)
      calm claimed ids decode stored m
      (seal_all-still run later (seal_shard (run r) r.environment_id r.shard_index mid).db q
        (unfold seal_all in subst (λ (d : Db). Elem q d.pending) turns still))
