-- ===== src/Ingest/Lost.antt =====
-- The claim of an idempotency key and the insert of the pending row are two transactions.
use stonewrit.Prelude.{
  ◌≡◌, ◌≢◌, refl, sym, ap, ◌∙◌, false, [], ◌∷◌, ◌++◌, none, some, Text, codes, str_eq, str_eq_iff,
  arith,
}
use stonewrit.Prelude.Errors.{Error, Result, ok, err, wrap}
use stonewrit.Json.{JsonLib}
use stonewrit.Db.{PendingEvent}
use stonewrit.Ingest.{
  World, State, AcceptInput, AcceptResult, prepare, find_key, insert, gate, admit, accept,
  insert_pending, claim_key, read_response, request_hash, claim_row, cached_result, status_of,
  response_of,
}
use stonewrit.Ingest.Replay.{claim_row-found, answered_again}

module _ (lib : JsonLib) where
  -- the failed request leaves its claim behind
  claim_kept :
      (w : World) (i : AcceptInput) (s : State) (p : PendingEvent) (hash : Text) (e : Error)
      → i.idempotency_key ≢ []
      → find_key i.auth.organization_id i.idempotency_key s.idempotency ≡ none
      → prepare lib w s i ≡ ok p
      → request_hash lib w i ≡ ok hash
      → w.fails claim_key ≡ none
      → w.fails insert_pending ≡ some e
      → accept lib w i s ≡ (
        err (wrap (codes "insert pending") e),
        record s { idempotency = s.idempotency ++ claim_row w i hash p ∷ [] },
      )
  unfolding accept claim_row
  claim_kept w i s p hash e keyed free ready hashed f1 f2 =
      rw (ready, accept, admit, not_empty, hashed, gate, f1, free, insert, f2) refl
    where
      not_empty : str_eq i.idempotency_key [] ≡ false
      not_empty = ground (arith, str_eq_iff i.idempotency_key [], keyed)

  -- When the insert of the pending row fails after the idempotency key was claimed, the request is
  -- answered with an error. Each retry of the organization with that key, whatever its event, whose
  -- steps before the gate and whose two queries succeed, is then answered with status 202 and the id of
  -- the event that was never inserted: the failed request and the retry add no pending row.
  pub claim_outlives_failure :
      (w : World) (i : AcceptInput) (s : State) (p : PendingEvent) (hash : Text) (e : Error)
      (w' : World) (i' : AcceptInput) (p' : PendingEvent) (hash' : Text)
      → i.idempotency_key ≢ []
      → find_key i.auth.organization_id i.idempotency_key s.idempotency ≡ none
      → prepare lib w s i ≡ ok p
      → request_hash lib w i ≡ ok hash
      → w.fails claim_key ≡ none
      → w.fails insert_pending ≡ some e
      → i'.idempotency_key ≡ i.idempotency_key
      → i'.auth.organization_id ≡ i.auth.organization_id
      → prepare lib w' (accept lib w i s).1 i' ≡ ok p'
      → request_hash lib w' i' ≡ ok hash'
      → w'.fails claim_key ≡ none
      → w'.fails read_response ≡ none
      → ((accept lib w i s).0 ≡ err (wrap (codes "insert pending") e))
        × ((r : AcceptResult) × (accept lib w' i' (accept lib w i s).1
              ≡ (ok r, (accept lib w i s).1))
            × (r.status ≡ 202)
            × (r.body.id ≡ p.id)
            × ((accept lib w i s).1.pending ≡ s.pending))
  unfolding cached_result claim_row status_of response_of
  claim_outlives_failure w i s p hash e w' i' p' hash' keyed free ready hashed f1 f2 key org ready'
        hashed' g1 g2 =
      let run = claim_kept w i s p hash e keyed free ready hashed f1 f2 in
      let after = ap (λ (x : Result AcceptResult × State). x.1) run in
      let row = claim_row w i hash p in
      let found : find_key i'.auth.organization_id i'.idempotency_key
            (accept lib w i s).1.idempotency
          ≡ some row =
        ap (λ o. find_key o i'.idempotency_key (accept lib w i s).1.idempotency) org
        ∙ ap (λ k. find_key i.auth.organization_id k (accept lib w i s).1.idempotency) key
        ∙ ap (λ (x : State). find_key i.auth.organization_id i.idempotency_key x.idempotency) after
        ∙ claim_row-found w i hash p s free in
      (
        ap (λ (x : Result AcceptResult × State). x.0) run,
        (
          cached_result row,
          answered_again lib w' i' (accept lib w i s).1 row p' hash' (λ h. keyed (sym key ∙ h))
              found ready' hashed' g1 g2,
          refl,
          refl,
          ap (λ (x : State). x.pending) after,
        ),
      )
