-- ===== src/Export/Drain.antt =====
-- What the ticks of the worker do to the table of exports: undisturbed they finish every job, and a
-- query that goes on failing keeps a job in processing.
use stonewrit.Prelude.{
  ℕ, suc, ◌≤◌, ◌<◌, ◌≡◌, ◌⊎◌, refl, sym, ◌∙◌, inl, inr, Bool, true, false, not, ◌&&◌, Bool-cases,
  Option, Option-cases, none, some, List, [], ◌∷◌, map, filter, length, Text, str_eq, str_eq_refl,
  All, Elem, arith,
}
use stonewrit.Prelude.Errors.{Error, Result, ok, err}
use stonewrit.Prelude.Sort.{sort_by, Elem-sort_by, Elem-filter}
use stonewrit.Json.{JsonLib}
use stonewrit.Spec.{Time}
use stonewrit.Db.{Db}
use stonewrit.Sealer.Row.{str_ptr}
use stonewrit.Export.{ExportJob}
use stonewrit.Export.Worker.{
  ExportStmt, begin_export, claim_export, list_events, list_chains, mark_completed, mark_failed,
  commit_export, ExportWorld, is_processing, created_leb, first_job, claim_pending_export,
  update_export, completed, failed, error_text, built, failing, mark, build_and_commit, give_up,
  process_job, claimed, process_one, run,
}

abbrev pub processing_count : List ExportJob → ℕ
processing_count exports = length (filter is_processing exports)

-- an update of one row that ends its job
abbrev Ends : (ExportJob → ExportJob) → Type 0
Ends f = (j : ExportJob) → (is_processing (f j) ≡ false) × ((f j).id ≡ j.id)

completed-Ends : (now : Time) (canon : Text) (n : ℕ) → Ends (completed now canon n)
completed-Ends now canon n j = unfold completed is_processing str_eq in (refl, refl)

failed-Ends : (now : Time) (message : Option Text) → Ends (failed now message)
failed-Ends now message j = unfold failed is_processing str_eq in (refl, refl)

update_export-ids :
    (f : ExportJob → ExportJob) (id : Text) (js : List ExportJob)
    → Ends f
    → map (λ (j : ExportJob). j.id) (update_export f id js) ≡ map (λ (j : ExportJob). j.id) js
unfolding update_export
update_export-ids f id [] h = refl
update_export-ids f id (j ∷ js) h = grind (arith, update_export-ids f id js h, (h j).1)

update_export-le :
    (f : ExportJob → ExportJob) (id : Text) (js : List ExportJob)
    → Ends f
    → processing_count (update_export f id js) ≤ processing_count js
unfolding update_export
update_export-le f id [] h = omega arith
update_export-le f id (j ∷ js) h = ground (arith, update_export-le f id js h, (h j).0)

-- the update of a job in processing makes their number smaller
update_export-lt :
    (f : ExportJob → ExportJob) (job : ExportJob) (js : List ExportJob)
    → Ends f
    → Elem job js
    → is_processing job ≡ true
    → processing_count (update_export f job.id js) < processing_count js
unfolding update_export
update_export-lt f job [] h m p = elim m [ ]
update_export-lt f job (j ∷ js) h (inl e) p =
    rw (sym e, str_eq_refl job.id, p, (h job).0) (ground (arith, update_export-le f job.id js h))
update_export-lt f job (j ∷ js) h (inr m) p =
    ground (arith, update_export-lt f job js h m p, (h j).0)

first_job-Elem : (j : ExportJob) (js : List ExportJob) → first_job js ≡ some j → Elem j js
unfolding first_job
first_job-Elem j [] e = cc
first_job-Elem j (k ∷ js) e = inl (cc)

first_job-none : (js : List ExportJob) → first_job js ≡ none → js ≡ []
unfolding first_job
first_job-none [] e = refl
first_job-none (j ∷ js) e = cc

claim-Elem :
    (w : ExportWorld) (exports : List ExportJob) (j : ExportJob)
    → claim_pending_export w exports ≡ some j
    → Elem j exports × (is_processing j ≡ true)
unfolding claim_pending_export
claim-Elem w exports j e =
    let test : ExportJob → Bool = λ k. is_processing k && not (w.locked k) in
    let (m, p) =
      (Elem-filter test j exports).0
        ((Elem-sort_by created_leb j (filter test exports)).0 (first_job-Elem j _ e)) in
    (m, ground arith)

-- no statement fails and no row is locked
abbrev pub Undisturbed : ExportWorld → Type 0
Undisturbed w = ((s : ExportStmt) → w.fails s ≡ none) × ((j : ExportJob) → w.locked j ≡ false)

processing_count-zero :
    (js : List ExportJob)
    → ((j : ExportJob) → Elem j js → is_processing j ≡ false)
    → processing_count js ≡ 0
processing_count-zero [] h = refl
processing_count-zero (j ∷ js) h =
    rw (h j (inl refl)) (processing_count-zero js (λ k m. h k (inr m)))

-- undisturbed, a claim that finds nothing means that no job is left
claim-none :
    (w : ExportWorld) (exports : List ExportJob)
    → Undisturbed w
    → claim_pending_export w exports ≡ none
    → processing_count exports ≡ 0
unfolding claim_pending_export
claim-none w exports u e = processing_count-zero exports λ j m.
    elim (Bool-cases (is_processing j)) [
      | inl p ↦
          let test : ExportJob → Bool = λ k. is_processing k && not (w.locked k) in
          let here : Elem j (sort_by created_leb (filter test exports)) =
            (Elem-sort_by created_leb j (filter test exports)).1
              ((Elem-filter test j exports).1 (m, rw (p, u.1 j) refl)) in
          absurd (nowhere j _ (first_job-none _ e) here)
      | inr p ↦ p
    ]
  where
    nowhere : (j : ExportJob) (js : List ExportJob) → js ≡ [] → Elem j js → ⊥
    nowhere j [] e m = m
    nowhere j (k ∷ js) e m = cc

-- one of the two queries of the bundle fails
abbrev pub QueryFails : ExportWorld → Type 0
QueryFails w = (e : Error) × ((w.fails list_events ≡ some e) ⊎ (w.fails list_chains ≡ some e))

module _ (lib : JsonLib) (db : Db) where
  mark-Undisturbed :
      (w : ExportWorld) (job : ExportJob) (n : ℕ) (canon : Result Text) (exports : List ExportJob)
      → Undisturbed w
      → ((s : Text) × (mark lib w job n canon exports
            ≡ built (update_export (completed w.now s n) job.id exports)))
        ⊎ ((e : Error) × (mark lib w job n canon exports ≡ failing false e))
  unfolding mark
  mark-Undisturbed w job n (err e) exports u = inr (_, refl)
  mark-Undisturbed w job n (ok s) exports u = inl (s, rw (u.0 mark_completed, mark) refl)

  build-marks :
      (w : ExportWorld) (job : ExportJob) (exports : List ExportJob)
      → Undisturbed w
      → (n : ℕ) × (canon : Result Text) × (build_and_commit lib w job db exports
          ≡ mark lib w job n canon exports)
  unfolding build_and_commit
  build-marks w job exports u =
      rw (u.0 list_events, build_and_commit, u.0 list_chains, build_and_commit) (_, _, refl)

  build-Undisturbed :
      (w : ExportWorld) (job : ExportJob) (exports : List ExportJob)
      → Undisturbed w
      → ((s : Text) × (n : ℕ) × (build_and_commit lib w job db exports
            ≡ built (update_export (completed w.now s n) job.id exports)))
        ⊎ ((e : Error) × (build_and_commit lib w job db exports ≡ failing false e))
  build-Undisturbed w job exports u =
      let (n, canon, same) = build-marks w job exports u in
      elim (mark-Undisturbed w job n canon exports u) [
        | inl (s, e) ↦ inl (s, n, same ∙ e)
        | inr (x, e) ↦ inr (x, same ∙ e)
      ]

  -- undisturbed, the claimed job is completed, or failed for want of a canonical form
  process_job-Ends :
      (w : ExportWorld) (job : ExportJob) (exports : List ExportJob)
      → Undisturbed w
      → (f : ExportJob → ExportJob) × Ends f
        × ((process_job lib w job db exports).exports ≡ update_export f job.id exports)
  unfolding process_job give_up
  process_job-Ends w job exports u = elim (build-Undisturbed w job exports u) [
    | inl (s, n, e) ↦ (
      completed w.now s n,
      completed-Ends w.now s n,
      rw (e, process_job, u.0 commit_export, process_job) refl,
    )
    | inr (x, e) ↦ (
      failed w.now (str_ptr (error_text x)),
      failed-Ends w.now (str_ptr (error_text x)),
      rw (e, process_job, u.0 mark_failed, give_up, u.0 commit_export, give_up) refl,
    )
  ]

  process_one-claims :
      (w : ExportWorld) (exports : List ExportJob)
      → w.fails begin_export ≡ none
      → w.fails claim_export ≡ none
      → process_one lib w db exports ≡ claimed lib w (claim_pending_export w exports) db exports
  unfolding process_one
  process_one-claims w exports p q = rw (p, process_one, q, process_one) refl

  -- an undisturbed tick ends a job, if one is in processing, and keeps the others
  process_one-lt :
      (w : ExportWorld) (exports : List ExportJob) (n : ℕ)
      → Undisturbed w
      → processing_count exports ≤ suc n
      → (processing_count (process_one lib w db exports).exports ≤ n)
        × (map (λ (j : ExportJob). j.id) (process_one lib w db exports).exports
            ≡ map (λ (j : ExportJob). j.id) exports)
  unfolding process_one claimed
  process_one-lt w exports n u bound =
      rw (process_one-claims w exports (u.0 begin_export) (u.0 claim_export))
        (elim (Option-cases (claim_pending_export w exports)) [
          | inl e ↦ rw (e, claimed) (omega (arith, claim-none w exports u e), refl)
          | inr (job, e) ↦
              let (f, ends, same) = process_job-Ends w job exports u in
              let (m, p) = claim-Elem w exports job e in
              rw (e, claimed, same)
                (
                  omega (arith, update_export-lt f job exports ends m p),
                  update_export-ids f job.id exports ends,
                )
        ])

  -- After as many undisturbed ticks as there are jobs in processing, no job is, and the table has the
  -- same jobs as before.
  pub export_drains :
      (ws : List ExportWorld) (exports : List ExportJob)
      → All Undisturbed ws
      → processing_count exports ≤ length ws
      → (processing_count (run lib ws db exports) ≡ 0)
        × (map (λ (j : ExportJob). j.id) (run lib ws db exports)
            ≡ map (λ (j : ExportJob). j.id) exports)
  unfolding run
  export_drains [] exports u bound = (omega arith, refl)
  export_drains (w ∷ ws) exports (u, us) bound =
      let (small, same) = process_one-lt w exports (length ws) u bound in
      let (done, kept) = export_drains ws (process_one lib w db exports).exports us small in
      (done, kept ∙ same)

  build-QueryFails :
      (w : ExportWorld) (job : ExportJob) (exports : List ExportJob)
      → QueryFails w
      → (e : Error) × (build_and_commit lib w job db exports ≡ failing true e)
  unfolding build_and_commit
  build-QueryFails w job exports (e, inl p) = rw (p, build_and_commit) (_, refl)
  build-QueryFails w job exports (e, inr p) = elim (Option-cases (w.fails list_events)) [
    | inl fine ↦ rw (fine, build_and_commit, p, build_and_commit) (_, refl)
    | inr (x, q) ↦ rw (q, build_and_commit) (_, refl)
  ]

  process_job-QueryFails :
      (w : ExportWorld) (job : ExportJob) (exports : List ExportJob)
      → QueryFails w
      → (process_job lib w job db exports).exports ≡ exports
  unfolding process_job give_up
  process_job-QueryFails w job exports h =
      let (e, p) = build-QueryFails w job exports h in rw (p, process_job) refl

  process_one-QueryFails :
      (w : ExportWorld) (exports : List ExportJob)
      → QueryFails w
      → (process_one lib w db exports).exports ≡ exports
  unfolding process_one claimed
  process_one-QueryFails w exports h = elim (Option-cases (w.fails begin_export)) [
    | inr (e, p) ↦ rw (p, process_one) refl
    | inl p ↦ elim (Option-cases (w.fails claim_export)) [
      | inr (e, q) ↦ rw (p, process_one, q, process_one) refl
      | inl q ↦ elim (Option-cases (claim_pending_export w exports)) [
        | inl nothing ↦ rw (process_one-claims w exports p q, nothing, claimed) refl
        | inr (job, found) ↦
            rw (process_one-claims w exports p q, found, claimed)
              (process_job-QueryFails w job exports h)
      ]
    ]
  ]

  -- While a query of the bundle fails on every tick, the table of exports stays as it is: a job in
  -- processing is never marked as failed, though processOne means to.
  pub failing_query_keeps_jobs :
      (ws : List ExportWorld) (exports : List ExportJob)
      → All QueryFails ws
      → run lib ws db exports ≡ exports
  unfolding run
  failing_query_keeps_jobs [] exports h = refl
  failing_query_keeps_jobs (w ∷ ws) exports (h, hs) =
      rw (process_one-QueryFails w exports h) (failing_query_keeps_jobs ws exports hs)
