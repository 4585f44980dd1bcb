-- ===== src/System/Invariant.antt =====
-- What every step keeps: consistent chains, verifiable pending rows, journal rows that verify, and
-- chains and pending rows in the project of their environment.
use stonewrit.Prelude.{
  ℕ, suc, ◌+◌, ◌<◌, ◌^◌, ◌≡◌, refl, sym, ap, ◌∙◌, subst, inl, inr, Bool-cases, ◌⊎◌, true, not, List,
  [], ◌∷◌, ◌++◌, length, Text, str_eq, contains, All, All-Elem, Elem, arith,
}
use stonewrit.Prelude.Errors.{ok}
use stonewrit.Prelude.Int.{pos, succ_int64}
use stonewrit.Prelude.Sort.{distinct, Elem-filter}
use stonewrit.Json.{JsonLib}
use stonewrit.Core.Verify.{text_or_empty}
use stonewrit.Db.{Environment, Chain, PendingEvent, EventRow, Db}
use stonewrit.Db.Queries.{
  new_chains, ensure_shard_chain_from_env, same_shard, delete_pending_by_ids, any_chain,
}
use stonewrit.Sealer.{
  Item, World, pending_ids, written, deleted, seal_shard, lookup_existing, final_position,
  final_hash, build_items,
}
use stonewrit.Sealer.Invariant.{IsConsistent, chain_rows, rows_of, succ_int64_lem}
use stonewrit.Sealer.Keeps.{seal_shard-IsConsistent}
use stonewrit.Sealer.Ensure.{ensure-IsConsistent}
use stonewrit.Sealer.Effect.{
  Effect, untouched, only_ensured, all_dropped, batch_sealed, ensured, drained, seal_shard-Effect,
}
use stonewrit.Sealer.Conserved.{same-ensure, drain-Elem}
use stonewrit.Sealer.Dedupe.{Deduped, dedupe_pending}
use stonewrit.Sealer.Fates.{dedupe_pending-Elem}
use stonewrit.Sealer.Writes.{length-dedupe_pending}
use stonewrit.Sealer.Tables.{
  Elem-append_cases, Elem-update_shard_tip, lock_shard_chain-Elem, lock_shard_chain-environment,
  length-filter-le, length-drain,
}
use stonewrit.VerifyService.{verify_sealed}
use stonewrit.System.Built.{Verifiable, build_items-verify, next-IsLink}

deleted-Elem :
    (ids : List Text) (p : PendingEvent) (db : Db)
    → Elem p (deleted ids db).pending
    → Elem p db.pending
unfolding delete_pending_by_ids
deleted-Elem ids p db k =
    ((Elem-filter (λ (q : PendingEvent). not (contains (distinct ids) q.id)) p db.pending).0 k).0

module _ (lib : JsonLib) (project_of : Text → Text) where
  pub record Inv (db : Db) : Type 0 where
    pub consistent : IsConsistent lib db
    pub chains : (c : Chain) → Elem c db.chains → c.project_id ≡ project_of c.environment_id
    pub environments : (e : Environment) → Elem e db.environments → e.project_id ≡ project_of e.id
    pub pending :
        (p : PendingEvent)
        → Elem p db.pending
        → (p.project_id ≡ project_of p.environment_id) × Verifiable lib p
    pub events : (r : EventRow) → Elem r db.events → (verify_sealed lib r).valid ≡ true

  new_chains-project :
      (env : Text) (shard : ℕ) (id : Text) (es : List Environment) (c : Chain)
      → ((e : Environment) → Elem e es → e.project_id ≡ project_of e.id)
      → Elem c (new_chains env shard id es)
      → c.project_id ≡ project_of c.environment_id
  unfolding new_chains
  new_chains-project env shard id [] c h m = elim m [ ]
  new_chains-project env shard id (e ∷ es) c h m =
      ground (arith, new_chains-project env shard id es c (λ x k. h x (inr k)), h e (inl refl))

  ensured-chains :
      (env : Text) (shard : ℕ) (id : Text) (db : Db) (c : Chain)
      → Inv db
      → Elem c (ensure_shard_chain_from_env env shard id db).chains
      → (Elem c db.chains) ⊎ Elem c (new_chains env shard id db.environments)
  unfolding ensure_shard_chain_from_env
  ensured-chains env shard id db c inv m =
      elim (Bool-cases (any_chain (same_shard env shard) db.chains)) [
        | inl there ↦ inl (rw (there, ensure_shard_chain_from_env) at m)
        | inr missing ↦
            Elem-append_cases c db.chains (new_chains env shard id db.environments)
              (rw (missing, ensure_shard_chain_from_env) at m)
      ]

  environments-ensured :
      (env : Text) (shard : ℕ) (id : Text) (db : Db)
      → (ensure_shard_chain_from_env env shard id db).environments ≡ db.environments
  unfolding ensure_shard_chain_from_env
  environments-ensured env shard id db = ground arith

  ensured-Inv :
      (env : Text) (shard : ℕ) (id : Text) (db : Db)
      → chain_rows id db.events ≡ []
      → Inv db
      → Inv (ensure_shard_chain_from_env env shard id db)
  ensured-Inv env shard id db fresh inv =
      let (he, hp) = same-ensure env shard id db in
      record {
        consistent = ensure-IsConsistent lib env shard id db fresh inv.consistent;
        chains = λ c m. elim (ensured-chains env shard id db c inv m) [
          | inl old ↦ inv.chains c old
          | inr new ↦ new_chains-project env shard id db.environments c inv.environments new
        ];
        environments = rw (environments-ensured env shard id db) inv.environments;
        pending = rw hp inv.pending;
        events = rw he inv.events;
      }

  -- the batch that a run writes
  batch-verifies :
      (w : World) (env : Text) (locked : Chain) (batch : List PendingEvent) (db : Db) (d : Deduped)
      (items : List Item)
      → Inv db
      → Elem locked db.chains
      → locked.environment_id ≡ env
      → ((q : PendingEvent) → Elem q batch → Elem q db.pending × (q.environment_id ≡ env))
      → length db.events + 1 + length batch < 2 ^ 63
      → dedupe_pending (w.fails lookup_existing) env db.events batch ≡ ok d
      → build_items locked 0
          (text_or_empty locked.latest_event_hash)
          (succ_int64 locked.latest_position)
          d.kept
        ≡ ok items
      → All (λ (r : EventRow). (verify_sealed lib r).valid ≡ true) (rows_of items)
  batch-verifies w env locked batch db d items inv m here sub bound deduped built =
      let chain = inv.consistent locked m in
      let n = length (chain_rows locked.id db.events) in
      let small = length-filter-le (λ (r : EventRow). str_eq r.chain_id locked.id) db.events in
      let few = length-dedupe_pending (w.fails lookup_existing) env db.events batch d deduped in
      let next : succ_int64 locked.latest_position ≡ pos (suc n) =
        ap succ_int64 chain.position ∙ succ_int64_lem n (omega arith) in
      build_items-verify lib locked 0 (suc n) (text_or_empty locked.latest_event_hash) d.kept items
        (omega arith) (omega arith) (next-IsLink lib locked (chain_rows locked.id db.events) chain)
        (λ p k.
          let q =
            sub p
              (dedupe_pending-Elem (w.fails lookup_existing) env db.events batch d p deduped k) in
          let (project, v) = inv.pending p q.0 in
          (project ∙ ap project_of (q.1 ∙ sym here) ∙ sym (inv.chains locked m), v))
        (rw next at built)

  -- what the tables of a batch's writes keep, apart from the chains' links
  written-Inv :
      (env : Text) (locked : Chain) (items : List Item) (db : Db)
      → Inv db
      → IsConsistent lib (written env locked items (db.events ++ rows_of items) db)
      → All (λ (r : EventRow). (verify_sealed lib r).valid ≡ true) (rows_of items)
      → Inv (written env locked items (db.events ++ rows_of items) db)
  unfolding written
  written-Inv env locked items db h c valid = record {
    consistent = c;
    chains = λ x m.
        let (old, mo, which) =
          Elem-update_shard_tip locked.id (final_position locked.latest_position items)
            (final_hash (text_or_empty locked.latest_event_hash) items) x db.chains m in
        elim which [
          | inl (_, same) ↦ rw same (h.chains old mo)
          | inr (_, same) ↦ rw same (h.chains old mo)
        ];
    environments = h.environments;
    pending = h.pending;
    events = λ r m. elim (Elem-append_cases r db.events (rows_of items) m) [
      | inl old ↦ h.events r old
      | inr new ↦
          All-Elem (λ (x : EventRow). (verify_sealed lib x).valid ≡ true) r (rows_of items) valid
            new
    ];
  }

  deleted-Inv :
      (ids : List Text) (db : Db)
      → IsConsistent lib (deleted ids db)
      → Inv db
      → Inv (deleted ids db)
  deleted-Inv ids db c h = record {
    consistent = c;
    chains = h.chains;
    environments = h.environments;
    pending = λ p k. h.pending p (deleted-Elem ids p db k);
    events = h.events;
  }

  Effect-Inv :
      (w : World) (env : Text) (locked : Chain) (batch : List PendingEvent) (before db after : Db)
      → Inv before
      → Inv db
      → Elem locked db.chains
      → locked.environment_id ≡ env
      → ((q : PendingEvent) → Elem q batch → Elem q db.pending × (q.environment_id ≡ env))
      → length db.events + 1 + length batch < 2 ^ 63
      → IsConsistent lib after
      → Effect w env locked batch before db after
      → Inv after
  Effect-Inv w env locked batch before db after hb h m here sub bound c (untouched e) = rw e hb
  Effect-Inv w env locked batch before db after hb h m here sub bound c (only_ensured e) = rw e h
  Effect-Inv w env locked batch before db after hb h m here sub bound c
        (all_dropped d deduped nothing e) =
      rw e (deleted-Inv (d.dropped ++ pending_ids batch) db h.consistent h)
  Effect-Inv w env locked batch before db after hb h m here sub bound c
        (batch_sealed d p ps items deduped kept built e) =
      rw e (
        deleted-Inv (pending_ids batch ++ d.dropped)
          (written env locked items (db.events ++ rows_of items) db) (subst (IsConsistent lib) e c)
          (written-Inv env locked items db h (subst (IsConsistent lib) e c)
            (batch-verifies w env locked batch db d items h m here sub bound deduped built)))

  pub seal_shard-Inv :
      (w : World) (env : Text) (shard : ℕ) (db : Db)
      → Inv db
      → chain_rows w.new_chain_id db.events ≡ []
      → length db.events + 1 + w.batch_size < 2 ^ 63
      → Inv (seal_shard w env shard db).db
  seal_shard-Inv w env shard db h fresh bound =
      let h' = ensured-Inv env shard w.new_chain_id db fresh h in
      elim (seal_shard-Effect w env shard db) [
        | inl e ↦ rw e h
        | inr (inl e) ↦ rw e h'
        | inr (inr (locked, claimed, effect)) ↦
            Effect-Inv w env locked (drained w env shard db) db (ensured w env shard db) _ h h'
              (lock_shard_chain-Elem w.locked_elsewhere env shard (ensured w env shard db) locked
                claimed)
              (lock_shard_chain-environment w.locked_elsewhere env shard (ensured w env shard db)
                locked claimed)
              (drain-Elem env shard w.batch_size (ensured w env shard db))
              (omega (
                arith,
                length-drain env shard w.batch_size (ensured w env shard db),
                ap length (same-ensure env shard w.new_chain_id db).0,
                bound,
              ))
              (seal_shard-IsConsistent lib w env shard db h.consistent fresh bound) effect
      ]
