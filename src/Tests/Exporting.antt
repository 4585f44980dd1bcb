-- ===== src/Tests/Exporting.antt =====
-- Runs of the export worker.
use stonewrit.Prelude.{
  ◌≡◌, refl, sym, ap, ◌∙◌, inl, inr, true, false, [], ◌∷◌, map, none, some, Option, codes, str_eq,
  Elem, arith,
}
use stonewrit.Prelude.Errors.{Error, other}
use stonewrit.Db.{Chain, EventRow}
use stonewrit.Db.Queries.{
  lock_shard_chain, ensure_shard_chain_from_env, drain_pending_for_shard, existing_in, copy_events,
  update_shard_tip,
}
use stonewrit.Core.Hash.{event_hash}
use stonewrit.Core.Verify.{text_or_empty}
use stonewrit.Prelude.{contains}
use stonewrit.Prelude.Int.{succ_int64}
use stonewrit.Crypto.Encoding.{format_nat}
use stonewrit.Sealer.{seal_shard}
use stonewrit.Sealer.Row.{build_event_row}
use stonewrit.Sealer.Invariant.{IsConsistent}
use stonewrit.Sealer.Keeps.{seal_shard-IsConsistent}
use stonewrit.Bundle.{verify_bundle}
use stonewrit.Export.{ExportJob, selected, of_project}
use stonewrit.Export.Worker.{ExportStmt, list_events, ExportWorld, is_processing, run}
use stonewrit.Export.Passes.{exported, UniqueChains, Owned, Covers, export_passes}
use stonewrit.Export.Drain.{
  processing_count, Undisturbed, export_drains, QueryFails, failing_query_keeps_jobs,
}
use stonewrit.Tests.Samples.{sample_lib, sample_db}
use stonewrit.Tests.Sealing.{sample_world, sealed_db, sealed_chain, sample_item, no_chains}

abbrev sample_job : ExportJob
sample_job = record {
  id = codes "j1";
  organization_id = codes "org";
  project_id = codes "p1";
  framework = none;
  period_from = some 0;
  period_to = some 9000000;
  status = codes "processing";
  created_at = 7;
  error_message = none;
  bundle = none;
  bundle_size = none;
  bundle_hash = none;
  event_count = none;
  bundle_signed_at = none;
  completed_at = none;
}

sealed_chains : sealed_db.chains ≡ sealed_chain ∷ []
unfolding seal_shard update_shard_tip build_event_row event_hash succ_int64 text_or_empty format_nat
    lock_shard_chain ensure_shard_chain_from_env str_eq drain_pending_for_shard contains existing_in
    copy_events
sealed_chains = refl

sealed_events : sealed_db.events ≡ sample_item.row ∷ []
unfolding seal_shard build_event_row lock_shard_chain ensure_shard_chain_from_env str_eq
    drain_pending_for_shard contains existing_in copy_events text_or_empty succ_int64
sealed_events = refl

sealed-IsConsistent : IsConsistent sample_lib sealed_db
sealed-IsConsistent =
    seal_shard-IsConsistent sample_lib sample_world (codes "env1") 0 sample_db no_chains refl
      (omega arith)

only_chain : (c : Chain) → Elem c sealed_db.chains → c ≡ sealed_chain
only_chain c m = elim (rw sealed_chains at m) [ inl e ↦ e | inr nowhere ↦ elim nowhere [ ] ]

only_event : (r : EventRow) → Elem r sealed_db.events → r ≡ sample_item.row
only_event r m = elim (rw sealed_events at m) [ inl e ↦ e | inr nowhere ↦ elim nowhere [ ] ]

one_of_each : UniqueChains sealed_db
one_of_each c d mc md e = only_chain c mc ∙ sym (only_chain d md)

job_selects : selected sample_job sample_item.row ≡ true
unfolding selected build_event_row str_eq
job_selects = refl

job_lists : of_project sample_job sealed_chain ≡ true
unfolding of_project str_eq
job_lists = refl

there : Elem sealed_chain sealed_db.chains
there = rw sealed_chains (inl refl)

same_id : sealed_chain.id ≡ sample_item.row.chain_id
unfolding build_event_row
same_id = refl

owned : Owned sample_job sealed_db
owned r m picked = (
  sealed_chain,
  there,
  job_lists,
  same_id ∙ sym (ap (λ (x : EventRow). x.chain_id) (only_event r m)),
)

covers : Covers sample_job sealed_db
covers c mc mine r m e = rw (only_event r m) job_selects

export_passes_example :
    (verify_bundle sample_lib (exported 8000000 sample_job sealed_db)).valid ≡ true
export_passes_example =
    export_passes sample_lib 8000000 sample_job sealed_db sealed-IsConsistent one_of_each owned
      covers

abbrev calm : ExportWorld
calm = record { fails = λ s. none; locked = λ j. false; now = 9; wall_clock = 9 }

calm_is_Undisturbed : Undisturbed calm
calm_is_Undisturbed = (λ s. refl, λ j. refl)

export_drains_example :
    (processing_count (run sample_lib (calm ∷ []) sealed_db (sample_job ∷ [])) ≡ 0)
    × (map (λ (j : ExportJob). j.id) (run sample_lib (calm ∷ []) sealed_db (sample_job ∷ []))
        ≡ codes "j1" ∷ [])
unfolding is_processing str_eq
export_drains_example =
    export_drains sample_lib sealed_db (calm ∷ []) (sample_job ∷ []) (calm_is_Undisturbed, tt)
      (omega arith)

only_list : ExportStmt → Option Error
only_list list_events = some (other (codes "statement timeout"))
only_list _ = none

abbrev slow : ExportWorld
slow = record calm { fails = only_list }

times_out : QueryFails slow
unfolding only_list
times_out = (other (codes "statement timeout"), inl refl)

failing_query_keeps_jobs_example :
    run sample_lib (slow ∷ slow ∷ []) sealed_db (sample_job ∷ []) ≡ sample_job ∷ []
failing_query_keeps_jobs_example =
    failing_query_keeps_jobs sample_lib sealed_db (slow ∷ slow ∷ []) (sample_job ∷ [])
      (times_out, (times_out, tt))
