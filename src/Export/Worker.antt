-- ===== src/Export/Worker.antt =====
-- processOne, buildAndCommit and the statements of the worker's transaction.
use stonewrit.Prelude.{
  ℕ, ◌-◌, ◌%◌, ◌^◌, List, [], ◌∷◌, ◌++◌, filter, length, Bool, true, false, not, ◌&&◌, Option, none,
  some, Text, codes, str_eq, ltb, leb, if◌then◌else◌,
}
use stonewrit.Prelude.Errors.{Error, no_rows, invalid_key, not_found, other, wrap, Result, ok, err}
use stonewrit.Prelude.Int.{ℤ, pos, negsuc}
use stonewrit.Prelude.Sort.{sort_by}
use stonewrit.Json.{JsonLib}
use stonewrit.Crypto.{sha256}
use stonewrit.Crypto.Encoding.{hex}
use stonewrit.Spec.{Time}
use stonewrit.Core.Hash.{canonical_json}
use stonewrit.Db.{Db}
use stonewrit.Sealer.Row.{str_ptr}
use stonewrit.Export.{ExportJob, list_events_for_export, list_chain_summaries_for_org, build_bundle}
use stonewrit.Export.Encode.{bundle_json}

pub data ExportStmt : Type 0 where
  begin_export claim_export list_events list_chains mark_completed mark_failed : ExportStmt
  commit_export : ExportStmt

-- which statements fail, which rows other workers have locked, NOW() and time.Now()
pub record ExportWorld : Type 0 where
  pub fails : ExportStmt → Option Error
  pub locked : ExportJob → Bool
  pub now : Time
  pub wall_clock : Time

abbrev pub processing : Text
processing = codes "processing"

unfoldable pub is_processing : ExportJob → Bool
is_processing j = str_eq j.status processing

unfoldable pub created_leb : ExportJob → ExportJob → Bool
created_leb a b = leb a.created_at b.created_at

unfoldable pub first_job : List ExportJob → Option ExportJob
first_job [] = none
first_job (j ∷ js) = some j

-- ClaimPendingExport: SKIP LOCKED passes over the rows that another worker holds
unfoldable pub claim_pending_export : ExportWorld → List ExportJob → Option ExportJob
unfolding first_job is_processing created_leb
claim_pending_export w exports =
    first_job (sort_by created_leb (filter (λ j. is_processing j && not (w.locked j)) exports))

-- an UPDATE of the rows with an id
unfoldable pub update_export : (ExportJob → ExportJob) → Text → List ExportJob → List ExportJob
update_export f id [] = []
update_export f id (j ∷ js) =
    let rest = update_export f id js in if str_eq j.id id then f j ∷ rest else j ∷ rest

-- the conversion int32(n) of a length
unfoldable pub int32 : ℕ → ℤ
int32 n = let m = n % 2 ^ 32 in if ltb m (2 ^ 31) then pos m else negsuc (2 ^ 32 - 1 - m)

-- MarkExportCompleted
unfoldable pub completed : Time → Text → ℕ → ExportJob → ExportJob
unfolding int32
completed now canon count j = record j {
  status = codes "completed";
  bundle = some canon;
  bundle_size = some (int32 (length canon));
  bundle_hash = some (codes "sha256:" ++ hex (sha256 canon));
  bundle_signed_at = some now;
  event_count = some (int32 count);
  completed_at = some now;
}

-- MarkExportFailed
unfoldable pub failed : Time → Option Text → ExportJob → ExportJob
failed now message j = record j {
  status = codes "failed";
  error_message = message;
  completed_at = some now;
}

-- err.Error()
unfoldable pub error_text : Error → Text
error_text no_rows = codes "no rows in result set"
error_text invalid_key = codes "api key invalid or revoked"
error_text not_found = codes "event not found"
error_text (other s) = s
error_text (wrap what e) = what ++ (codes ": " ++ error_text e)

-- what buildAndCommit leaves: the table, or its error and whether the transaction is aborted
pub data Built : Type 0 where
  built : List ExportJob → Built
  failing : Bool → Error → Built

-- the error that processOne returns, and the table after it
pub record Processed : Type 0 where
  pub error : Option Error
  pub exports : List ExportJob

module _ (lib : JsonLib) where
  unfoldable pub mark : ExportWorld → ExportJob → ℕ → Result Text → List ExportJob → Built
  unfolding update_export completed
  mark w job count (err e) exports = failing false (wrap (codes "canonicalize") e)
  mark w job count (ok canon) exports = elim (w.fails mark_completed) [
    | some e ↦ failing true (wrap (codes "mark completed") e)
    | none ↦ built (update_export (completed w.now canon count) job.id exports)
  ]

  unfoldable pub build_and_commit : ExportWorld → ExportJob → Db → List ExportJob → Built
  unfolding mark list_events_for_export list_chain_summaries_for_org build_bundle bundle_json
  build_and_commit w job db exports = elim (w.fails list_events) [
    | some e ↦ failing true (wrap (codes "list events") e)
    | none ↦ elim (w.fails list_chains) [
      | some e ↦ failing true (wrap (codes "list chains") e)
      | none ↦
          let events = list_events_for_export job db in
          let chains = list_chain_summaries_for_org job db in
          let b = build_bundle w.wall_clock job events chains in
          mark w job (length events) (canonical_json lib (bundle_json b)) exports
    ]
  ]

  -- the best effort after an error: mark the row and commit, both without looking at their errors
  unfoldable pub give_up : ExportWorld → ExportJob → Bool → Error → List ExportJob → List ExportJob
  unfolding update_export failed error_text
  give_up w job true e exports = exports
  give_up w job false e exports = elim (w.fails mark_failed) [
    | some e' ↦ exports
    | none ↦ elim (w.fails commit_export) [
      | some e' ↦ exports
      | none ↦ update_export (failed w.now (str_ptr (error_text e))) job.id exports
    ]
  ]

  -- the transaction from the claimed job on
  unfoldable pub process_job : ExportWorld → ExportJob → Db → List ExportJob → Processed
  unfolding build_and_commit give_up
  process_job w job db exports = elim (build_and_commit w job db exports) [
    | failing aborted e ↦ record { error = none; exports = give_up w job aborted e exports }
    | built exports' ↦ elim (w.fails commit_export) [
      | some e ↦ record { error = some (wrap (codes "commit export") e); exports = exports }
      | none ↦ record { error = none; exports = exports' }
    ]
  ]

  unfoldable pub claimed : ExportWorld → Option ExportJob → Db → List ExportJob → Processed
  unfolding process_job
  claimed w none db exports = record { error = some no_rows; exports = exports }
  claimed w (some job) db exports = process_job w job db exports

  unfoldable pub process_one : ExportWorld → Db → List ExportJob → Processed
  unfolding claimed claim_pending_export
  process_one w db exports = elim (w.fails begin_export) [
    | some e ↦ record { error = some e; exports = exports }
    | none ↦ elim (w.fails claim_export) [
      | some e ↦ record { error = some e; exports = exports }
      | none ↦ claimed w (claim_pending_export w exports) db exports
    ]
  ]

  -- the ticks of `Run`, one world for each
  unfoldable pub run : List ExportWorld → Db → List ExportJob → List ExportJob
  unfolding process_one
  run [] db exports = exports
  run (w ∷ ws) db exports = run ws db (process_one w db exports).exports
