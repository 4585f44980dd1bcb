-- ===== src/Tests/Progressing.antt =====
-- A run of the sealer in which no statement fails.
use stonewrit.Prelude.{
  ℕ, ap, ◌≡◌, ◌≢◌, ◌∙◌, ◌++◌, refl, inl, inr, subst, sym, false, none, some, List, [], ◌∷◌, map,
  codes, contains, Elem, str_eq,
}
use stonewrit.Db.{PendingEvent, EventRow, Db}
use stonewrit.Db.Queries.{lock_shard_chain, ensure_shard_chain_from_env, drain_pending_for_shard}
use stonewrit.Crypto.Encoding.{format_nat}
use stonewrit.Sealer.{seal_shard}
use stonewrit.Sealer.Row.{null_if_empty}
use stonewrit.Sealer.Duplicates.{IsDistinct}
use stonewrit.Sealer.Total.{Decodes, SameExternalId}
use stonewrit.Sealer.Effect.{ensured, drained}
use stonewrit.Sealer.Progress.{seal_shard_progress}
use stonewrit.Sealer.Conserved.{UniquePending}
use stonewrit.Sealer.Shards.{other_shard_waits}
use stonewrit.Tests.Running.{one_waiting}
use stonewrit.Sealer.Tick.{
  TickWorld, Settings, ShardRef, defaults, list_shards_with_pending, run_of, seal_all, tick,
}
use stonewrit.Sealer.Separate.{SealedApart, Elsewhere}
use stonewrit.Sealer.Turns.{tick_progress}
use stonewrit.Tests.Samples.{sample_db, sample_pending}
use stonewrit.Tests.Sealing.{sample_world, new_chain}

abbrev batch : List PendingEvent
batch = drained sample_world (codes "env1") 0 sample_db

batch_lem : batch ≡ sample_pending ∷ []
unfolding drain_pending_for_shard ensure_shard_chain_from_env str_eq
batch_lem = refl

claimed :
    lock_shard_chain false (codes "env1") 0 (ensured sample_world (codes "env1") 0 sample_db)
    ≡ some new_chain
unfolding lock_shard_chain ensure_shard_chain_from_env str_eq format_nat
claimed = refl

one_id : IsDistinct (map (λ (p : PendingEvent). p.id) batch)
unfolding contains
one_id = subst (λ ps. IsDistinct (map (λ (p : PendingEvent). p.id) ps)) (sym batch_lem) (refl, tt)

sample_Decodes : (p : PendingEvent) → Elem p batch → Decodes p
sample_Decodes p m = here p (subst (λ ps. Elem p ps) batch_lem m)
  where
    here : (p : PendingEvent) → Elem p (sample_pending ∷ []) → Decodes p
    here p (inl e) =
        subst Decodes (sym e) (unfold null_if_empty in ((_, refl), (_, refl), (_, refl)))
    here p (inr nowhere) = elim nowhere [ ]

sample_same_id : (p : PendingEvent) → Elem p batch → SameExternalId p.event_data p.external_event_id
sample_same_id p m = here p (subst (λ ps. Elem p ps) batch_lem m)
  where
    here :
        (p : PendingEvent)
        → Elem p (sample_pending ∷ [])
        → SameExternalId p.event_data p.external_event_id
    here p (inl e) =
        subst (λ (x : PendingEvent). SameExternalId x.event_data x.external_event_id) (sym e)
          (unfold null_if_empty in refl)
    here p (inr nowhere) = elim nowhere [ ]

nothing_sealed :
    (p : PendingEvent) (e : EventRow) → Elem p batch → Elem e sample_db.events → p.id ≢ e.id
nothing_sealed p e m nowhere = elim nowhere [ ]

waiting : Elem sample_pending batch
waiting = subst (λ ps. Elem sample_pending ps) (sym batch_lem) (inl refl)

seal_shard_progress_example :
    ((seal_shard sample_world (codes "env1") 0 sample_db).error ≡ none)
    × (Elem sample_pending (seal_shard sample_world (codes "env1") 0 sample_db).db.pending → ⊥)
seal_shard_progress_example =
    seal_shard_progress sample_world (codes "env1") 0 sample_db new_chain sample_pending (λ s. refl)
      claimed one_id sample_Decodes sample_same_id nothing_sealed waiting

-- a tick with one shard, under the default settings
abbrev quiet : TickWorld
quiet = record {
  list_fails = none;
  listed = λ rs. rs;
  scheduled = λ rs. rs;
  run = λ r. sample_world;
}

abbrev unset : Settings
unset = record { batch_size = 0; poll_period = 0; max_work = 0; concurrency = 0 }

abbrev only_shard : ShardRef
only_shard = record { environment_id = codes "env1"; shard_index = 0 }

one_listed :
    quiet.scheduled (list_shards_with_pending quiet (defaults unset).max_work sample_db)
    ≡ [] ++ only_shard ∷ []
unfolding list_shards_with_pending defaults
one_listed = refl

abbrev tick_batch : List PendingEvent
tick_batch = drained (run_of quiet unset only_shard) (codes "env1") 0 sample_db

tick_batch_lem : tick_batch ≡ sample_pending ∷ []
unfolding drain_pending_for_shard ensure_shard_chain_from_env str_eq defaults
tick_batch_lem = refl

tick_claimed :
    lock_shard_chain false (codes "env1") 0 (
      ensured
        (run_of quiet unset only_shard)
        (codes "env1")
        0
        (seal_all (run_of quiet unset) [] sample_db))
    ≡ some new_chain
unfolding lock_shard_chain ensure_shard_chain_from_env str_eq format_nat seal_all
tick_claimed = refl

no_shard_before : Elsewhere (codes "env1") 0 []
no_shard_before r m = elim m [ ]

nothing_clashes : SealedApart sample_db
nothing_clashes p e m nowhere = elim nowhere [ ]

tick_progress_example : Elem sample_pending (tick quiet unset sample_db).pending → ⊥
tick_progress_example =
    tick_progress quiet unset sample_db [] [] only_shard new_chain sample_pending refl one_listed
      no_shard_before one_waiting nothing_clashes (λ s. refl) tick_claimed
      (subst (λ ps. IsDistinct (map (λ (p : PendingEvent). p.id) ps))
        (batch_lem ∙ sym tick_batch_lem) one_id)
      (λ p m. sample_Decodes p (subst (λ ps. Elem p ps) (tick_batch_lem ∙ sym batch_lem) m))
      (λ p m. sample_same_id p (subst (λ ps. Elem p ps) (tick_batch_lem ∙ sym batch_lem) m))
      (subst (λ ps. Elem sample_pending ps) (sym tick_batch_lem) (inl refl))

-- a row in each of two shards
abbrev other_row : PendingEvent
other_row = record sample_pending { id = codes "e"; shard_index = 1 }

abbrev two_shards : Db
two_shards = record sample_db { pending = sample_pending ∷ other_row ∷ [] }

two_waiting : UniquePending two_shards
two_waiting p q (inl a) (inl b) e = a ∙ sym b
two_waiting p q (inl a) (inr (inl b)) e = absurd (different (ap_id a b e))
  where
    different : codes "e1" ≢ codes "e"
    different h = cc

    ap_id : p ≡ sample_pending → q ≡ other_row → p.id ≡ q.id → codes "e1" ≡ codes "e"
    ap_id a b e = sym (ap (λ (x : PendingEvent). x.id) a) ∙ e ∙ ap (λ (x : PendingEvent). x.id) b
two_waiting p q (inr (inl a)) (inl b) e = absurd (different (ap_id a b e))
  where
    different : codes "e" ≢ codes "e1"
    different h = cc

    ap_id : p ≡ other_row → q ≡ sample_pending → p.id ≡ q.id → codes "e" ≡ codes "e1"
    ap_id a b e = sym (ap (λ (x : PendingEvent). x.id) a) ∙ e ∙ ap (λ (x : PendingEvent). x.id) b
two_waiting p q (inr (inl a)) (inr (inl b)) e = a ∙ sym b
two_waiting p q (inl a) (inr (inr nowhere)) e = elim nowhere [ ]
two_waiting p q (inr (inl a)) (inr (inr nowhere)) e = elim nowhere [ ]
two_waiting p q (inr (inr nowhere)) _ e = elim nowhere [ ]

other_index : ◌≢◌ {A = ℕ} 0 1
other_index h = cc

other_shard_waits_example :
    drain_pending_for_shard
      (codes "env1")
      1
      10
      (seal_shard sample_world (codes "env1") 0 two_shards).db
    ≡ drain_pending_for_shard (codes "env1") 1 10 two_shards
other_shard_waits_example =
    other_shard_waits sample_world (codes "env1") (codes "env1") 0 1 10 two_shards two_waiting
      (λ e. other_index)
