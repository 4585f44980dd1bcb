-- ===== src/Ingest/Counts.antt =====
-- The counters of a batch.
use stonewrit.Prelude.{
  ℕ, suc, ◌+◌, ◌≡◌, refl, ◌∙◌, List, [], ◌∷◌, Option-cases, length, length-append, str_eq, arith,
  Text, inl, inr,
}
use stonewrit.Prelude.Errors.{Error, Result, ok, err, Result-cases}
use stonewrit.Json.{JsonLib}
use stonewrit.Spec.{EventInput, BatchAcceptedResponse}
use stonewrit.Auth.{Context}
use stonewrit.Db.{PendingEvent}
use stonewrit.Ingest.{
  World, State, AcceptInput, AcceptResult, accept, prepare, admit, insert, insert_pending,
}
use stonewrit.Ingest.Batch.{add_result, in_batch, post_events, post_batch}

count {ℓ} : {A : Type ℓ} → Result A → ℕ
count (ok a) = 1
count (err e) = 0

-- without an idempotency key an accept adds one pending row if it succeeds, and none if it fails
insert-count :
    (w : World) (i : AcceptInput) (p : PendingEvent) (s : State)
    → length (insert w i p s).1.pending ≡ length s.pending + count (insert w i p s).0
unfolding insert count
insert-count w i p s = elim (Option-cases (w.fails insert_pending)) [
  | inl e ↦ rw (e, insert) (length-append s.pending (p ∷ []))
  | inr (x, e) ↦ rw (e, insert) (omega arith)
]

module _ (lib : JsonLib) where
  accept-count :
      (w : World) (ac : Context) (ev : EventInput) (s : State)
      → length (accept lib w (in_batch ac ev) s).1.pending
        ≡ length s.pending + count (accept lib w (in_batch ac ev) s).0
  unfolding accept admit count str_eq
  accept-count w ac ev s = elim (Result-cases (prepare lib w s (in_batch ac ev))) [
    | inl (x, e) ↦ rw (e, accept) (omega arith)
    | inr (p, e) ↦ rw (e, accept, admit) (insert-count w (in_batch ac ev) p s)
  ]

-- what one round does to the counters
add_result-counts :
    (message : Error → Text) (ac : Context) (index : ℕ) (r : Result AcceptResult)
    (b : BatchAcceptedResponse)
    → ((add_result message ac index r b).accepted ≡ b.accepted + count r)
      × ((add_result message ac index r b).accepted + (add_result message ac index r b).rejected
          ≡ suc (b.accepted + b.rejected))
      × (length (add_result message ac index r b).results ≡ suc (length b.results))
unfolding add_result count
add_result-counts message ac index (ok r) b =
    (refl, omega arith, length-append b.results _ ∙ omega arith)
add_result-counts message ac index (err e) b =
    (omega arith, omega arith, length-append b.results _ ∙ omega arith)

module _ (lib : JsonLib) (message : Error → Text) (worlds : ℕ → World) (ac : Context) where
  post_events-counts :
      (index : ℕ) (events : List EventInput) (b : BatchAcceptedResponse) (s : State)
      → ((post_events lib message worlds ac index events b s).0.accepted
            + (post_events lib message worlds ac index events b s).0.rejected
          ≡ b.accepted + b.rejected + length events)
        × (length (post_events lib message worlds ac index events b s).0.results
            ≡ length b.results + length events)
        × (length (post_events lib message worlds ac index events b s).1.pending + b.accepted
            ≡ length s.pending + (post_events lib message worlds ac index events b s).0.accepted)
  unfolding post_events
  post_events-counts index [] b s = (omega arith, omega arith, omega arith)
  post_events-counts index (ev ∷ events) b s =
      let run = accept lib (worlds index) (in_batch ac ev) s in
      let (total, results, rows) =
        post_events-counts (index + 1) events (add_result message ac index run.0 b) run.1 in
      let (one, both, more) = add_result-counts message ac index run.0 b in
      let added = accept-count lib (worlds index) ac ev s in
      (omega (arith, total, both), omega (arith, results, more), omega (arith, rows, one, added))

  -- A batch response has one result for each event; the counters sum to the number of events, and
  -- the pending table has grown by as many rows as the response counts as accepted.
  pub post_batch_counts :
      (events : List EventInput) (s : State)
      → ((post_batch lib message worlds ac events s).0.accepted
            + (post_batch lib message worlds ac events s).0.rejected
          ≡ length events)
        × (length (post_batch lib message worlds ac events s).0.results ≡ length events)
        × (length (post_batch lib message worlds ac events s).1.pending
            ≡ length s.pending + (post_batch lib message worlds ac events s).0.accepted)
  unfolding post_batch
  post_batch_counts events s =
      let (total, results, rows) =
        post_events-counts 0 events (record { accepted = 0; rejected = 0; results = [] }) s in
      (omega (arith, total), omega (arith, results), omega (arith, rows))
